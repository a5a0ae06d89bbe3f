-- ===== src/Patch/ClaudeCode/Status.antt =====
-- patch/claude_code.go: which hooks are there, and the change of them for one target. The name of
-- aiguard's binary and its address for records are parameters.
use casdoor_aiguard.Common.Sort.{sort_strings}
use casdoor_aiguard.Common.Text.{Str, ◌==◌, codes, contains, join, split_byte}
use casdoor_aiguard.Common.{
  ℕ, ◌+◌, Bool, true, false, not, ◌&&◌, ◌||◌, Option, none, some, List, [], ◌∷◌, ◌++◌, eqb, ltb,
  is_nil, keep_if, if◌then◌else◌,
}
use casdoor_aiguard.Json.{
  Json, Items, Fields, object, nil, cons, end, array_value, get_field, object_value,
}
use casdoor_aiguard.Patch.ClaudeCode.Handlers.{
  after_flag, claims_flag, hook_events, hook_subcommand, is_owned, is_owned_current,
  string_array_value,
}
use casdoor_aiguard.Patch.ClaudeCode.Install.{handlers_of, install_hooks}
use casdoor_aiguard.Patch.ClaudeCode.Remove.{remove_hooks}

pub record Tally : Type 0 where
  pub owned : ℕ
  pub current : Bool

module _ (command : Str) (arguments : List Str) where
  -- The loops of `claudeCodeHookState`
  unfoldable pub tally_handlers : Items → Tally → Tally
  unfolding is_owned is_owned_current
  tally_handlers nil t = t
  tally_handlers (cons raw rest) t = tally_handlers rest (
      if is_owned raw
      then record {
        owned = t.owned + 1;
        current = t.current || is_owned_current command arguments raw;
      }
      else t)

  unfoldable pub tally_groups : Items → Tally → Tally
  unfolding tally_handlers
  tally_groups nil t = t
  tally_groups (cons raw rest) t =
      tally_groups rest
        (elim (handlers_of raw) [ none ↦ t | some handlers ↦ tally_handlers handlers t ])

  unfoldable pub hook_state : Option Json → Bool × Bool
  unfolding tally_groups
  hook_state value = elim (array_value value) [
    | none ↦ (false, false)
    | some groups ↦
        let t = tally_groups groups (record { owned = 0; current = false }) in
        (ltb 0 t.owned, eqb t.owned 1 && t.current)
  ]

  abbrev pub count_if : Bool → ℕ → ℕ
  count_if b n = if b then n + 1 else n

  -- The loop of `claudeCodeHooksState`
  unfoldable pub count_events : List Str → Fields → ℕ × ℕ → ℕ × ℕ
  unfolding hook_state
  count_events [] hooks counts = counts
  count_events (event ∷ events) hooks (owned, current) =
      let (is_there, is_fresh) = hook_state (get_field event hooks) in
      count_events events hooks (count_if is_there owned, count_if is_fresh current)

  -- `claudeCodeHooksState`
  unfoldable pub hooks_state : Fields → ℕ × ℕ
  unfolding count_events
  hooks_state config = elim (object_value (get_field (codes "hooks") config)) [
    | none ↦ (0, 0)
    | some hooks ↦ count_events hook_events hooks (0, 0)
  ]

-- `claudeCodeHookClaims`: the agents that the handlers were installed for.
pub record Claims : Type 0 where
  pub owned : Bool
  pub claims : List Str

abbrev pub is_claimable : Str → Bool
is_claimable claim = claim == codes "claude-code" || claim == codes "claude-desktop"

unfoldable pub add_claim : Str → List Str → List Str
unfolding contains
add_claim claim claims = if contains claims claim then claims else claims ++ claim ∷ []

unfoldable pub add_claims : List Str → List Str → List Str
unfolding add_claim ◌==◌
add_claims [] claims = claims
add_claims (c ∷ cs) claims = add_claims cs (if is_claimable c then add_claim c claims else claims)

unfoldable pub claims_after : Option Str → List Str → List Str
unfolding add_claims split_byte
claims_after none claims = claims
claims_after (some names) claims = add_claims (split_byte b',' names) claims

unfoldable pub claims_of : Json → Claims → Claims
unfolding is_owned claims_after after_flag string_array_value
claims_of (object handler) c =
    let arguments = string_array_value (get_field (codes "args") handler) in
    if is_owned (object handler)
    then record { owned = true; claims = claims_after (after_flag claims_flag arguments) c.claims }
    else c
claims_of _ c = c

unfoldable pub claims_handlers : Items → Claims → Claims
unfolding claims_of
claims_handlers nil c = c
claims_handlers (cons raw rest) c = claims_handlers rest (claims_of raw c)

unfoldable pub claims_groups : Items → Claims → Claims
unfolding claims_handlers
claims_groups nil c = c
claims_groups (cons raw rest) c =
    claims_groups rest
      (elim (handlers_of raw) [ none ↦ c | some handlers ↦ claims_handlers handlers c ])

unfoldable pub claims_events : List Str → Fields → Claims → Claims
unfolding claims_groups
claims_events [] hooks c = c
claims_events (event ∷ events) hooks c =
    claims_events events hooks (elim (array_value (get_field event hooks)) [
      | none ↦ c
      | some groups ↦ claims_groups groups c
    ])

unfoldable pub hook_claims : Fields → List Str
unfolding claims_events
hook_claims config =
    let none_yet : Claims = record { owned = false; claims = [] } in
    let c : Claims = elim (object_value (get_field (codes "hooks") config)) [
      | none ↦ none_yet
      | some hooks ↦ claims_events hook_events hooks none_yet
    ] in
    if c.owned && is_nil c.claims then codes "claude-code" ∷ [] else c.claims

-- The arguments of `claudeCodeHookCommand`
unfoldable pub hook_arguments : Str → List Str → List Str
unfolding sort_strings join
hook_arguments records_url claims =
    hook_subcommand
    ∷ codes "--agent"
    ∷ codes "claude-code"
    ∷ codes "--records-url"
    ∷ records_url
    ∷ claims_flag
    ∷ join (codes ",") (sort_strings claims)
    ∷ []

-- What `updateClaudeCodeHooks` does with the settings.
pub data Update : Type 0 where
  nothing_to_do : Update
  write : Fields → Update
  malformed : Update

abbrev pub update_of : Option (Fields × Bool) → Update
update_of none = malformed
update_of (some (config, changed)) = if changed then write config else nothing_to_do

unfoldable pub with_claims : Str → Str → Fields → List Str → Update
unfolding install_hooks remove_hooks hook_arguments
with_claims command records_url config claims =
    if is_nil claims
    then update_of (some (remove_hooks config))
    else update_of (install_hooks command (hook_arguments records_url claims) config)

-- `updateClaudeCodeHooks`; the file may not exist.
unfoldable pub update_hooks : Str → Str → Str → Bool → Option Fields → Update
unfolding with_claims hook_claims add_claim contains ◌==◌ keep_if
update_hooks command records_url agent add file =
    let config : Fields = elim file [ none ↦ end | some fs ↦ fs ] in
    let claims = hook_claims config in
    if add
    then with_claims command records_url config (add_claim agent claims)
    else if not (contains claims agent)
    then nothing_to_do
    else with_claims command records_url config (keep_if (λ c. not (c == agent)) claims)
