-- ===== src/Enforce/Cache.antt =====
-- object/enforce.go, `enforcerFor`: the cache of compiled enforcers, against compiling afresh.
use casdoor_aiguard.Common.Dict.{Dict, lookup, insert, erase, lookup-insert, lookup-erase}
use casdoor_aiguard.Common.Text.{Str, ◌==◌, eq_iff}
use casdoor_aiguard.Common.{
  ◌&&◌, Option, none, some, ◌≡◌, refl, arith, Bool-cases, Option-cases, inl, inr, sym, ◌∙◌, subst,
}
use casdoor_aiguard.Enforce.State.{compile_set, enforcer_for}
use casdoor_aiguard.Enforce.{Casbin, CompiledSet, subject_of}
use casdoor_aiguard.PolicyHub.{PolicySet}
use mathlib.Core.Option.{some-injective, none-ne-some}

module _ (cb : Casbin) where
  -- A compiled set is what compiling its own text gives.
  pub record IsFaithful (c : CompiledSet cb) : Type 0 where
    pub compiled : cb.compile c.model c.policy ≡ some c.enforcer
    pub subject : c.subject ≡ subject_of c.policy

  -- Whatever the cache holds is such.
  abbrev pub IsCoherent : Dict (CompiledSet cb) → Type 0
  IsCoherent cache = (name : Str) (c : CompiledSet cb) → lookup name cache ≡ some c → IsFaithful c

  -- Compiling a set afresh.
  unfoldable pub compile_fresh : PolicySet → Option (CompiledSet cb)
  compile_fresh set = elim (cb.compile set.model set.policy) [
    | none ↦ none
    | some e ↦ some (record {
      model = set.model;
      policy = set.policy;
      subject = subject_of set.policy;
      enforcer = e;
    })
  ]

  pub insert-IsCoherent :
      (name : Str) (c : CompiledSet cb) (cache : Dict (CompiledSet cb))
      → IsFaithful c
      → IsCoherent cache
      → IsCoherent (insert name c cache)
  insert-IsCoherent name c cache f h n d e = elim (Bool-cases (name == n)) [
    | inl q ↦
        subst IsFaithful (some-injective c d (sym (lookup-insert name n c cache ∙ rw q) ∙ e)) f
    | inr q ↦ h n d (sym (lookup-insert name n c cache ∙ rw q) ∙ e)
  ]

  pub erase-IsCoherent :
      (name : Str) (cache : Dict (CompiledSet cb))
      → IsCoherent cache
      → IsCoherent (erase name cache)
  erase-IsCoherent name cache h n d e = elim (Bool-cases (name == n)) [
    | inl q ↦ absurd (none-ne-some d (sym (lookup-erase name n cache ∙ rw q) ∙ e))
    | inr q ↦ h n d (sym (lookup-erase name n cache ∙ rw q) ∙ e)
  ]

  compile_set_lem :
      (set : PolicySet) (cache : Dict (CompiledSet cb))
      → IsCoherent cache
      → ((compile_set cb set cache).0 ≡ compile_fresh set) × IsCoherent (compile_set cb set cache).1
  unfolding compile_set compile_fresh
  compile_set_lem set cache h = elim (Option-cases (cb.compile set.model set.policy)) [
    | inl e ↦ rw (e, compile_set, compile_fresh) (refl, h)
    | inr (en, e) ↦
        rw (e, compile_set, compile_fresh)
          (
            refl,
            insert-IsCoherent set.name (fresh set en) cache
                (record { compiled = e; subject = refl }) h,
          )
  ]
    where
      fresh : PolicySet → cb.Enforcer → CompiledSet cb
      fresh s en = record {
        model = s.model;
        policy = s.policy;
        subject = subject_of s.policy;
        enforcer = en;
      }

  -- A cached set whose text is the set's own is what compiling afresh gives.
  cached_is_fresh :
      (set : PolicySet) (c : CompiledSet cb)
      → IsFaithful c
      → c.model ≡ set.model
      → c.policy ≡ set.policy
      → some c ≡ compile_fresh set
  unfolding compile_fresh
  cached_is_fresh set c f m p =
      let e : cb.compile set.model set.policy ≡ some c.enforcer = rw (← m, ← p) f.compiled in
      ground (arith, e, m, p, f.subject)

  pub enforcer_for_lem :
      (set : PolicySet) (cache : Dict (CompiledSet cb))
      → IsCoherent cache
      → ((enforcer_for cb set cache).0 ≡ compile_fresh set)
        × IsCoherent (enforcer_for cb set cache).1
  unfolding enforcer_for
  enforcer_for_lem set cache h = elim (Option-cases (lookup set.name cache)) [
    | inl e ↦ rw (e, enforcer_for) (compile_set_lem set cache h)
    | inr (c, e) ↦ elim (Bool-cases (c.model == set.model && c.policy == set.policy)) [
      | inl q ↦
          rw (e, enforcer_for, q)
            (
              cached_is_fresh set c (h set.name c e) (ground (arith, eq_iff c.model set.model))
                  (ground (arith, eq_iff c.policy set.policy)),
              h,
            )
      | inr q ↦ rw (e, enforcer_for, q) (compile_set_lem set cache h)
    ]
  ]
