-- ===== src/Enforce/State.antt =====
-- The mutable state of the enforcer: which sets are enabled, in memory and on disk, and the cache.
use casdoor_aiguard.Common.Dict.{Dict, lookup, insert, erase, keys}
use casdoor_aiguard.Common.Sort.{sort_strings}
use casdoor_aiguard.Common.Text.{Str, ◌==◌, codes, equal_fold, join}
use casdoor_aiguard.Common.{
  Bool, true, false, not, ◌&&◌, ◌||◌, Option, none, some, List, [], ◌∷◌, ◌++◌, if◌then◌else◌,
  is_nil,
}
use casdoor_aiguard.Enforce.{Casbin, Decision, allow_through, CompiledSet, subject_of}
use casdoor_aiguard.PolicyHub.{PolicySet, HubFile, GetResult, got, get_failed, get_policy_set}

-- `Reason`; `quote` is `%q` of the package fmt
unfoldable pub reason : (Str → Str) → Decision → Str → Str → Str
unfolding join
reason quote d obj act =
    if d.allowed
    then []
    else let text =
        act
        ++ (codes " on "
            ++ (quote obj ++ (codes " denied by policy set " ++ quote d.policy_set))) in
      if not (is_nil d.rule)
      then text ++ (codes " (rule: " ++ (join (codes ", ") d.rule ++ codes ")"))
      else text

-- A write that fails, and what the file then reads as: it may have been cut short.
pub record FailedWrite : Type 0 where
  pub error : Str
  pub left : Option (List Str)

module _ (cb : Casbin) where
  -- `file` is what the file of enabled sets reads as, if it can be parsed.
  pub record EnforceState : Type 0 where
    pub cache : Dict (CompiledSet cb)
    pub enabled : Dict Bool
    pub file : Option (List Str)

  -- What `enforcerFor` does when the cache does not serve: compile, and remember.
  unfoldable pub compile_set :
      PolicySet → Dict (CompiledSet cb) → Option (CompiledSet cb) × Dict (CompiledSet cb)
  unfolding subject_of insert
  compile_set set cache = elim (cb.compile set.model set.policy) [
    | none ↦ (none, cache)
    | some e ↦
        let compiled : CompiledSet cb = record {
          model = set.model;
          policy = set.policy;
          subject = subject_of set.policy;
          enforcer = e;
        } in
        (some compiled, insert set.name compiled cache)
  ]

  -- `enforcerFor`
  unfoldable pub enforcer_for :
      PolicySet → Dict (CompiledSet cb) → Option (CompiledSet cb) × Dict (CompiledSet cb)
  unfolding compile_set lookup ◌==◌
  enforcer_for set cache = elim (lookup set.name cache) [
    | some cached ↦
        if cached.model == set.model && cached.policy == set.policy
        then (some cached, cache)
        else compile_set set cache
    | none ↦ compile_set set cache
  ]

  -- `EnabledPolicySetNames`
  unfoldable pub enabled_policy_set_names : Dict Bool → List Str
  unfolding sort_strings keys
  enabled_policy_set_names enabled = sort_strings (keys enabled)

  -- `IsPolicySetEnabled`
  unfoldable pub is_policy_set_enabled : Str → Dict Bool → Bool
  unfolding lookup
  is_policy_set_enabled name enabled = elim (lookup name enabled) [ some b ↦ b | none ↦ false ]

  -- `SetPolicySetEnabled`, with the failure of the write, if it fails. The write is behind the unlock: the
  -- function is for a toggle that no other overlaps.
  unfoldable pub set_policy_set_enabled :
      Option FailedWrite → Str → Bool → EnforceState → Option Str × EnforceState
  unfolding enabled_policy_set_names insert erase
  set_policy_set_enabled written name on st =
      let enabled : Dict Bool = if on then insert name true st.enabled else erase name st.enabled in
      let st' : EnforceState = record st { cache = erase name st.cache; enabled = enabled } in
      elim written [
        | none ↦ (none, record st' { file = some (enabled_policy_set_names enabled) })
        | some w ↦ (some w.error, record st' { file = w.left })
      ]

  unfoldable pub enable_all : List Str → Dict Bool → Dict Bool
  unfolding insert
  enable_all [] d = d
  enable_all (n ∷ ns) d = enable_all ns (insert n true d)

  -- `InitPolicySetState`; a file that cannot be parsed changes nothing
  unfoldable pub init_policy_set_state : EnforceState → EnforceState
  unfolding enable_all
  init_policy_set_state st = elim st.file [
    | none ↦ st
    | some names ↦ record st { enabled = enable_all names [] }
  ]

  -- What an enforcer's answer comes to for a set: a deny, or nothing.
  unfoldable pub deny_of : Str → Option (Bool × List Str) → Option Decision
  deny_of name none = none
  deny_of name (some (true, rule)) = none
  deny_of name (some (false, rule)) =
      some (record { allowed = false; policy_set = name; rule = rule })

  unfoldable pub judge_compiled : Str → Str → Str → Str → Option (CompiledSet cb) → Option Decision
  unfolding deny_of equal_fold ◌==◌
  judge_compiled name agent_id obj act none = none
  judge_compiled name agent_id obj act (some c) =
      if c.subject == []
      then none
      else if not (equal_fold c.subject agent_id)
      then none
      else deny_of name (cb.enforce_ex c.enforcer c.subject obj act)

  -- One round of the loop of `EnforceForAgent`, for a set that could be read or not.
  unfoldable pub judge :
      Str
      → Str
      → Str
      → Str
      → GetResult
      → Dict (CompiledSet cb)
      → Option Decision × Dict (CompiledSet cb)
  unfolding judge_compiled enforcer_for
  judge name agent_id obj act (get_failed e) cache = (none, cache)
  judge name agent_id obj act (got none) cache = (none, cache)
  judge name agent_id obj act (got (some set)) cache =
      let (compiled, cache') = enforcer_for set cache in
      (judge_compiled name agent_id obj act compiled, cache')

  unfoldable pub enforce_names :
      (Str → HubFile)
      → Str
      → Str
      → Str
      → List Str
      → Dict (CompiledSet cb)
      → Decision × Dict (CompiledSet cb)
  unfolding judge get_policy_set
  enforce_names hub agent_id obj act [] cache = (allow_through, cache)
  enforce_names hub agent_id obj act (name ∷ names) cache =
      let (d, cache') = judge name agent_id obj act (get_policy_set hub name) cache in
      elim d [ some deny ↦ (deny, cache') | none ↦ enforce_names hub agent_id obj act names cache' ]

  -- `EnforceForAgent`
  unfoldable pub enforce_for_agent :
      (Str → HubFile) → Str → Str → Str → EnforceState → Decision × EnforceState
  unfolding enforce_names enabled_policy_set_names ◌==◌
  enforce_for_agent hub agent_id obj act st =
      if obj == [] || act == []
      then (allow_through, st)
      else let (d, cache') =
          enforce_names hub agent_id obj act (enabled_policy_set_names st.enabled) st.cache in
        (d, record st { cache = cache' })
