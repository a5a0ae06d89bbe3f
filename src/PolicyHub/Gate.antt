-- ===== src/PolicyHub/Gate.antt =====
-- controllers/policyhub.go: when a policy set may be enabled, and the endpoint that toggles one.
use casdoor_aiguard.Common.Dict.{Dict, lookup}
use casdoor_aiguard.Common.Text.{Str, ◌==◌, codes, eq_iff}
use casdoor_aiguard.Common.{
  Bool, true, false, not, Option, none, some, [], ◌≡◌, arith, if◌then◌else◌, ◌↔◌, ◌⊎◌,
}
use casdoor_aiguard.Enforce.State.{EnforceState, FailedWrite, set_policy_set_enabled}
use casdoor_aiguard.Enforce.{Casbin}
use casdoor_aiguard.PolicyHub.{
  PolicySet, HubFile, GetResult, got, get_failed, get_policy_set, matches_host_os,
  is_intercept_capable_agent, HubFile,
}

-- `agentPresence`: which agents are installed, and which of those are patched.
pub record AgentPresence : Type 0 where
  pub installed : Dict Bool
  pub patched : Dict Bool

-- The tooltips, by what they say.
pub data Blocker : Type 0 where
  no_agent not_capable wrong_os not_installed not_patched : Blocker

abbrev pub present : Str → Dict Bool → Bool
present k d = elim (lookup k d) [ some b ↦ b | none ↦ false ]

-- `gatePolicySet`; `none` is a set that may be enabled
unfoldable pub gate_policy_set : Str → PolicySet → AgentPresence → Option Blocker
unfolding ◌==◌
gate_policy_set goos set presence =
    if set.agent == []
    then some no_agent
    else if not (is_intercept_capable_agent set.agent)
    then some not_capable
    else if not (matches_host_os goos set.os)
    then some wrong_os
    else if not (present set.agent presence.installed)
    then some not_installed
    else if not (present set.agent presence.patched)
    then some not_patched
    else none

pub data ToggleAnswer : Type 0 where
  toggled : ToggleAnswer
  name_required : ToggleAnswer
  bad_set : Str → ToggleAnswer
  no_such_set : ToggleAnswer
  gated : Blocker → ToggleAnswer
  not_saved : Str → ToggleAnswer

module _ (cb : Casbin) where
  unfoldable pub after_save : Option Str × EnforceState cb → ToggleAnswer × EnforceState cb
  after_save (none, st) = (toggled, st)
  after_save (some e, st) = (not_saved e, st)

  unfoldable pub toggle_gated :
      Option FailedWrite
      → Str
      → Bool
      → Option Blocker
      → EnforceState cb
      → ToggleAnswer × EnforceState cb
  unfolding after_save set_policy_set_enabled
  toggle_gated written name true (some b) st = (gated b, st)
  toggle_gated written name on gate st = after_save (set_policy_set_enabled cb written name on st)

  unfoldable pub toggle_found :
      Str
      → AgentPresence
      → Option FailedWrite
      → Str
      → Bool
      → GetResult
      → EnforceState cb
      → ToggleAnswer × EnforceState cb
  unfolding toggle_gated
  toggle_found goos presence written name on (get_failed e) st = (bad_set e, st)
  toggle_found goos presence written name on (got none) st = (no_such_set, st)
  toggle_found goos presence written name on (got (some set)) st =
      toggle_gated written name on (gate_policy_set goos set presence) st

  -- `TogglePolicySet`, when the body has been decoded
  unfoldable pub toggle_policy_set :
      (Str → HubFile)
      → Str
      → AgentPresence
      → Option FailedWrite
      → Str
      → Bool
      → EnforceState cb
      → ToggleAnswer × EnforceState cb
  unfolding ◌==◌
  toggle_policy_set hub goos presence written name on st =
      if name == []
      then (name_required, st)
      else toggle_found goos presence written name on (get_policy_set hub name) st

-- The facts that the gate checks.
pub record MayEnable (goos : Str) (set : PolicySet) (presence : AgentPresence) : Type 0 where
  pub capable : (set.agent ≡ codes "OpenClaw") ⊎ (set.agent ≡ codes "Claude Desktop")
  pub same_os : matches_host_os goos set.os ≡ true
  pub is_installed : present set.agent presence.installed ≡ true
  pub is_patched : present set.agent presence.patched ≡ true

capable_iff :
    (a : Str)
    → (is_intercept_capable_agent a ≡ true)
      ↔ ((a ≡ codes "OpenClaw") ⊎ (a ≡ codes "Claude Desktop"))
unfolding is_intercept_capable_agent lookup
capable_iff a = ground (arith, eq_iff (codes "OpenClaw") a, eq_iff (codes "Claude Desktop") a)

-- The five tests of the gate, one after another.
abbrev ladder : Bool → Bool → Bool → Bool → Bool → Option Blocker
ladder unnamed capable same_os installed patched =
    if unnamed
    then some no_agent
    else if not capable
    then some not_capable
    else if not same_os
    then some wrong_os
    else if not installed
    then some not_installed
    else if not patched
    then some not_patched
    else none

ladder-none :
    (u k o i q : Bool) → ladder u k o i q ≡ none → (k ≡ true) × (o ≡ true) × (i ≡ true) × (q ≡ true)
ladder-none u k o i q h = ground arith

pub MayEnable-of_gate :
    (goos : Str) (set : PolicySet) (presence : AgentPresence)
    → gate_policy_set goos set presence ≡ none
    → MayEnable goos set presence
unfolding gate_policy_set
MayEnable-of_gate goos set presence h =
    let (k, o, i, q) =
      ladder-none (set.agent == []) (is_intercept_capable_agent set.agent)
        (matches_host_os goos set.os) (present set.agent presence.installed)
        (present set.agent presence.patched) h in
    record { capable = (capable_iff set.agent).0 k; same_os = o; is_installed = i; is_patched = q }

pub gate_of_MayEnable :
    (goos : Str) (set : PolicySet) (presence : AgentPresence)
    → MayEnable goos set presence
    → gate_policy_set goos set presence ≡ none
unfolding gate_policy_set
gate_of_MayEnable goos set presence m =
    let c = m.capable in
    let k = (capable_iff set.agent).1 m.capable in
    ground (arith, k, c, m.same_os, m.is_installed, m.is_patched, eq_iff set.agent [])

-- The gate lets a set be enabled exactly when its agent is OpenClaw or Claude Desktop, its operating
-- system is of the host's family, and the agent is installed on the host and patched.
pub gate_policy_set-none_iff :
    (goos : Str) (set : PolicySet) (presence : AgentPresence)
    → (gate_policy_set goos set presence ≡ none) ↔ MayEnable goos set presence
gate_policy_set-none_iff goos set presence =
    (MayEnable-of_gate goos set presence, gate_of_MayEnable goos set presence)
