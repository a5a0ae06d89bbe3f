-- ===== src/Settings/Active.antt =====
-- object/settings.go: `SetActive` against `ActiveProviderId`.
use casdoor_aiguard.Common.{
  Bool, true, false, ◌&&◌, ◌∙◌, List, [], ◌∷◌, ◌≡◌, ◌≢◌, refl, ◌↔◌, arith, Bool-cases, inl, inr,
  if◌then◌else◌,
}
use casdoor_aiguard.Common.Text.{Str, ◌==◌, eq_iff}
use casdoor_aiguard.Settings.{
  LlmActiveProvider, LlmSettings, is_installation, active_in, active_provider_id, set_in,
  set_active,
}

abbrev same_installation : (a p o a' p' o' : Str) → Bool
same_installation a p o a' p' o' = a == a' && (p == p' && o == o')

installation_iff :
    (a p o : Str) (e : LlmActiveProvider)
    → (is_installation a p o e ≡ true) ↔ ((e.agent_id ≡ a) × (e.path ≡ p) × (e.owner ≡ o))
unfolding is_installation
installation_iff a p o e = ground (arith, eq_iff e.agent_id a, eq_iff e.path p, eq_iff e.owner o)

same_installation_iff :
    (a p o a' p' o' : Str)
    → (same_installation a p o a' p' o' ≡ true) ↔ ((a ≡ a') × (p ≡ p') × (o ≡ o'))
same_installation_iff a p o a' p' o' = ground (arith, eq_iff a a', eq_iff p p', eq_iff o o')

-- No two entries are of one installation, and none has an empty provider.
abbrev pub IsIndexed : List LlmActiveProvider → Type 0
IsIndexed [] = Unit
IsIndexed (e ∷ es) =
    (e.provider_id ≢ []) × (active_in e.agent_id e.path e.owner es ≡ []) × IsIndexed es

-- An entry that is gone leaves its installation on the default.
active_in-rest :
    (a p o : Str) (e : LlmActiveProvider) (es : List LlmActiveProvider)
    → IsIndexed (e ∷ es)
    → is_installation a p o e ≡ true
    → active_in a p o es ≡ []
active_in-rest a p o e es h i =
    let (ea, ep, eo) = (installation_iff a p o e).0 i in rw (← ea, ← ep, ← eo) h.1

active_in-set_in :
    (a p o id a' p' o' : Str) (es : List LlmActiveProvider)
    → IsIndexed es
    → active_in a' p' o' (set_in a p o id es)
      ≡ (if same_installation a p o a' p' o' then id else active_in a' p' o' es)
unfolding set_in active_in
active_in-set_in a p o id a' p' o' [] h = ground (
  arith,
  eq_iff id [],
  same_installation_iff a p o a' p' o',
  installation_iff a' p' o' (record { agent_id = a; path = p; owner = o; provider_id = id }),
)
active_in-set_in a p o id a' p' o' (e ∷ es) h = ground (
  arith,
  eq_iff id [],
  same_installation_iff a p o a' p' o',
  installation_iff a p o e,
  installation_iff a' p' o' e,
  installation_iff a' p' o' (record e { provider_id = id }),
  active_in-rest a p o e es h,
  active_in-set_in a p o id a' p' o' es h.2,
)

set_in-IsIndexed :
    (a p o id : Str) (es : List LlmActiveProvider) → IsIndexed es → IsIndexed (set_in a p o id es)
unfolding set_in
set_in-IsIndexed a p o id [] h = elim (Bool-cases (id == [])) [
  | inl e ↦ rw e tt
  | inr e ↦ rw e (λ q. ground (arith, eq_iff id []), unfold active_in in refl, tt)
]
set_in-IsIndexed a p o id (e ∷ es) h = elim (Bool-cases (is_installation a p o e)) [
  | inl i ↦ rw i (elim (Bool-cases (id == [])) [
    | inl z ↦ rw z h.2
    | inr n ↦ rw n (λ q. ground (arith, eq_iff id []), h.1, h.2)
  ])
  | inr i ↦ rw i (h.0, kept i, set_in-IsIndexed a p o id es h.2)
]
  where
    kept :
        is_installation a p o e ≡ false
        → active_in e.agent_id e.path e.owner (set_in a p o id es) ≡ []
    kept i =
        active_in-set_in a p o id e.agent_id e.path e.owner es h.2
        ∙ ground (
          arith,
          h.1,
          same_installation_iff a p o e.agent_id e.path e.owner,
          installation_iff a p o e,
        )

-- After `SetActive` on one installation, `ActiveProviderId` gives the provider that was set for
-- that installation, "" included, and for every other one what it gave before; the entries stay one
-- to an installation, none of them empty. It holds where they were so before.
pub active_provider_id-set_active :
    (s : LlmSettings) (a p o id : Str)
    → IsIndexed s.active
    → ((a' p' o' : Str)
        → active_provider_id (set_active s a p o id) a' p' o'
          ≡ (if a == a' && (p == p' && o == o') then id else active_provider_id s a' p' o'))
      × IsIndexed (set_active s a p o id).active
unfolding active_provider_id set_active
active_provider_id-set_active s a p o id h = (
  λ a' p' o'. active_in-set_in a p o id a' p' o' s.active h,
  set_in-IsIndexed a p o id s.active h,
)
