-- ===== src/Settings/Providers.antt =====
-- object/settings.go: `PreserveApiKeys`, `ValidateProviderRemoval` and the JSON shape of a provider.
use mathlib.Core.Path.{ap₂}
use casdoor_aiguard.Common.{
  map, ap, none, some, List, [], ◌∷◌, ◌≡◌, ◌≢◌, refl, ◌↔◌, arith, Bool-cases, inl, inr, ◌⊎◌, All,
  Option-cases,
}
use casdoor_aiguard.Common.Text.{◌==◌, eq_iff}
use casdoor_aiguard.Settings.{
  LlmProvider, LlmActiveProvider, LlmSettings, to_wire, from_wire, provider_by_id, preserve_api_key,
  preserve_all, preserve_api_keys, validate_active, validate_provider_removal,
}

-- What `PreserveApiKeys` makes of one provider.
pub data IsPreserved (previous : List LlmProvider) (p q : LlmProvider) : Type 0 where
  set_key : p.api_key ≢ [] → q ≡ p → IsPreserved previous p q
  old_key :
      (old : LlmProvider)
      → p.api_key ≡ []
      → provider_by_id p.id previous ≡ some old
      → q ≡ record p { api_key = old.api_key }
      → IsPreserved previous p q
  no_key : p.api_key ≡ [] → provider_by_id p.id previous ≡ none → q ≡ p → IsPreserved previous p q

preserve_api_key-IsPreserved :
    (previous : List LlmProvider) (p : LlmProvider)
    → IsPreserved previous p (preserve_api_key previous p)
unfolding preserve_api_key
preserve_api_key-IsPreserved previous p = elim (Bool-cases (p.api_key == [])) [
  | inl e ↦ elim (Option-cases (provider_by_id p.id previous)) [
    | inl f ↦ no_key ((eq_iff _ _).0 e) f (rw (e, f, preserve_api_key))
    | inr (old, f) ↦ old_key old ((eq_iff _ _).0 e) f (rw (e, f, preserve_api_key))
  ]
  | inr e ↦ set_key (λ h. ground (arith, eq_iff p.api_key [])) (rw (e, preserve_api_key))
]

-- The two lists go together, item by item.
pub data Pairs {A : Type 0} (R : A → A → Type 0) : List A → List A → Type 0 where
  nil : Pairs R [] []
  cons : {x y : A} {xs ys : List A} → R x y → Pairs R xs ys → Pairs R (x ∷ xs) (y ∷ ys)

preserve_all-Pairs :
    (previous ps : List LlmProvider) → Pairs (IsPreserved previous) ps (preserve_all previous ps)
unfolding preserve_all
preserve_all-Pairs previous [] = nil
preserve_all-Pairs previous (p ∷ ps) =
    cons (preserve_api_key-IsPreserved previous p) (preserve_all-Pairs previous ps)

-- Each provider is found under its own id: no id stands twice.
abbrev pub IsFound : List LlmProvider → List LlmProvider → Type 0
IsFound all ps = All (λ p. provider_by_id p.id all ≡ some p) ps

preserve_api_key-wire :
    (previous : List LlmProvider) (p : LlmProvider)
    → provider_by_id p.id previous ≡ some p
    → preserve_api_key previous (from_wire (to_wire p)) ≡ p
unfolding preserve_api_key from_wire to_wire
preserve_api_key-wire previous p e = rw (e, preserve_api_key)

preserve_all-wire :
    (previous ps : List LlmProvider)
    → IsFound previous ps
    → preserve_all previous (map (λ p. from_wire (to_wire p)) ps) ≡ ps
unfolding preserve_all
preserve_all-wire previous [] h = refl
preserve_all-wire previous (p ∷ ps) (e, h) =
    ap₂ (◌∷◌) (preserve_api_key-wire previous p e) (preserve_all-wire previous ps h)

-- Providers that a client reads and sends back unchanged come out as they were saved, keys
-- included, although no key crosses the wire. It holds where no two saved providers share an id.
pub preserve_api_keys_wire :
    (s : LlmSettings)
    → IsFound s.providers s.providers
    → (preserve_api_keys (record s { providers = map (λ p. from_wire (to_wire p)) s.providers }) s
        ≡ s)
      × All (λ w. w.api_key ≡ []) (map to_wire s.providers)
unfolding preserve_api_keys
preserve_api_keys_wire s h = (
  ap (λ ps. record s { providers = ps }) (preserve_all-wire s.providers s.providers h),
  hidden s.providers,
)
  where
    hidden : (ps : List LlmProvider) → All (λ w. w.api_key ≡ []) (map to_wire ps)
    hidden [] = tt
    hidden (p ∷ ps) = (unfold to_wire in refl, hidden ps)

-- Every active entry that names a provider names one of the list.
abbrev pub Resolves : List LlmProvider → List LlmActiveProvider → Type 0
Resolves ps [] = Unit
Resolves ps (a ∷ as') =
    ((a.provider_id ≡ []) ⊎ ((p : LlmProvider) × (provider_by_id a.provider_id ps ≡ some p)))
    × Resolves ps as'

Resolves-of_validate :
    (current next : List LlmProvider) (es : List LlmActiveProvider)
    → validate_active current next es ≡ none
    → Resolves next es
unfolding validate_active
Resolves-of_validate current next [] h = tt
Resolves-of_validate current next (a ∷ es) h = elim (Bool-cases (a.provider_id == [])) [
  | inl z ↦ (inl ((eq_iff _ _).0 z), Resolves-of_validate current next es (ground arith))
  | inr n ↦ elim (Option-cases (provider_by_id a.provider_id next)) [
    | inl gone ↦ absurd (ground arith)
    | inr (p, e) ↦ (inr (p, e), Resolves-of_validate current next es (ground arith))
  ]
]

validate_of_Resolves :
    (current next : List LlmProvider) (es : List LlmActiveProvider)
    → Resolves next es
    → validate_active current next es ≡ none
unfolding validate_active
validate_of_Resolves current next [] h = refl
validate_of_Resolves current next (a ∷ es) (inl z, later) =
    ground (arith, eq_iff a.provider_id [], validate_of_Resolves current next es later)
validate_of_Resolves current next (a ∷ es) (inr (p, e), later) =
    ground (arith, validate_of_Resolves current next es later)

-- `ValidateProviderRemoval` accepts an update exactly when every provider that an installation is
-- switched to is still among the providers of the update.
pub validate_provider_removal_iff :
    (s next : LlmSettings)
    → (validate_provider_removal s next ≡ none) ↔ Resolves next.providers s.active
unfolding validate_provider_removal
validate_provider_removal_iff s next = (
  Resolves-of_validate s.providers next.providers s.active,
  validate_of_Resolves s.providers next.providers s.active,
)

-- `PreserveApiKeys` changes nothing but keys, provider by provider: a key that the update sets is
-- kept, an empty one is filled from the saved provider of the same id, and stays empty if there is
-- none. The active entries stay as they are.
pub preserve_api_keys_lem :
    (s previous : LlmSettings)
    → Pairs (IsPreserved previous.providers) s.providers (preserve_api_keys s previous).providers
      × ((preserve_api_keys s previous).active ≡ s.active)
unfolding preserve_api_keys
preserve_api_keys_lem s previous = (preserve_all-Pairs previous.providers s.providers, refl)
