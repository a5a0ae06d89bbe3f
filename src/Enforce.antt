-- ===== src/Enforce.antt =====
-- object/enforce.go and object/policyset_state.go: the enabled policy sets, the cache of compiled
-- enforcers, and the verdict on one operation of an agent. Casbin is a parameter.
pub mod State
pub mod Cache
pub mod Verdict
pub mod Endpoint
use casdoor_aiguard.Common.{
  Bool, true, false, not, ◌&&◌, ◌||◌, Option, none, some, List, [], ◌∷◌, ◌++◌, if◌then◌else◌,
  is_nil,
}
use casdoor_aiguard.Common.Dict.{Dict, lookup, insert, erase}
use casdoor_aiguard.Common.Text.{
  Str, ◌==◌, codes, has_prefix, split_byte, trim_space, equal_fold, join,
}
use casdoor_aiguard.PolicyHub.{PolicySet, HubFile, GetResult, got, get_failed, get_policy_set}

-- Casbin: compiling a model with a policy, and `EnforceEx` on a triple, either of which may fail.
pub record Casbin : Type 1 where
  pub Enforcer : Type 0
  pub compile : Str → Str → Option Enforcer
  pub enforce_ex : Enforcer → Str → Str → Str → Option (Bool × List Str)

-- `Decision`
pub record Decision : Type 0 where
  pub allowed : Bool
  pub policy_set : Str
  pub rule : List Str

abbrev pub allow_through : Decision
allow_through = record { allowed = true; policy_set = []; rule = [] }

-- The subject of one line of a policy, if it is a rule with a subject.
unfoldable pub subject_of_line : Str → Option Str
unfolding has_prefix trim_space split_byte
subject_of_line line =
    if not (has_prefix (codes "p,") (trim_space line))
      && not (has_prefix (codes "p ,") (trim_space line))
    then none
    else second (split_byte b',' (trim_space line))
  where
    second : List Str → Option Str
    second [] = none
    second (a ∷ []) = none
    second (a ∷ b ∷ rest) = some (trim_space b)

unfoldable pub first_subject : List Str → Str
unfolding subject_of_line
first_subject [] = []
first_subject (line ∷ lines) = elim (subject_of_line line) [
  | some s ↦ s
  | none ↦ first_subject lines
]

-- `subjectOf`
unfoldable pub subject_of : Str → Str
unfolding first_subject split_byte
subject_of policy = first_subject (split_byte b'\n' policy)

module _ (cb : Casbin) where
  -- `compiledSet`
  pub record CompiledSet : Type 0 where
    pub model : Str
    pub policy : Str
    pub subject : Str
    pub enforcer : cb.Enforcer
