-- ===== src/Sanitize/Redaction.antt =====
-- auditutil/sanitize.go, SanitizeValue: what is left of a value.
use casdoor_aiguard.Common.Text.{Str}
use casdoor_aiguard.Common.{true, false, ◌≡◌, refl, ◌⊎◌, inl, inr, Bool-cases, ap}
use mathlib.Core.Path.{ap₂}
use casdoor_aiguard.Json.{
  Json, Items, Fields, null, boolean, number, string, array, object, nil, cons, end, field,
}
use casdoor_aiguard.Sanitize.{
  redacted, sanitize_fields, sanitize_inner, sanitize_items, sanitize_value, sensitive_key,
}

module _ (sanitize_string : Str → Str) where
  abbrev mutual
    -- At every depth, a field of a credential's name holds the mark, and any other text is one that
    -- the redaction of texts gave.
    pub IsClean : Json → Type 0
    IsClean null = Unit
    IsClean (boolean b) = Unit
    IsClean (number n) = Unit
    IsClean (string s) = (t : Str) × (s ≡ sanitize_string t)
    IsClean (array xs) = AreClean xs
    IsClean (object fs) = HasCleanFields fs

    pub AreClean : Items → Type 0
    AreClean nil = Unit
    AreClean (cons v xs) = IsClean v × AreClean xs

    pub HasCleanFields : Fields → Type 0
    HasCleanFields end = Unit
    HasCleanFields (field k v fs) =
        (((sensitive_key k ≡ true) × (v ≡ redacted)) ⊎ ((sensitive_key k ≡ false) × IsClean v))
        × HasCleanFields fs

  mutual
    unfolding sanitize_inner

    sanitize_inner-IsClean : (v : Json) → IsClean (sanitize_inner sanitize_string v)
    sanitize_inner-IsClean null = tt
    sanitize_inner-IsClean (boolean b) = tt
    sanitize_inner-IsClean (number n) = tt
    sanitize_inner-IsClean (string s) = (s, refl)
    sanitize_inner-IsClean (array xs) = sanitize_items-AreClean xs
    sanitize_inner-IsClean (object fs) = sanitize_fields-HasCleanFields fs

    sanitize_items-AreClean : (xs : Items) → AreClean (sanitize_items sanitize_string xs)
    sanitize_items-AreClean nil = tt
    sanitize_items-AreClean (cons v xs) = (sanitize_inner-IsClean v, sanitize_items-AreClean xs)

    sanitize_fields-HasCleanFields :
        (fs : Fields) → HasCleanFields (sanitize_fields sanitize_string fs)
    sanitize_fields-HasCleanFields end = tt
    sanitize_fields-HasCleanFields (field k v fs) = elim (Bool-cases (sensitive_key k)) [
      | inl e ↦ rw e (inl (refl, refl), sanitize_fields-HasCleanFields fs)
      | inr e ↦ rw e (inr (refl, sanitize_inner-IsClean v), sanitize_fields-HasCleanFields fs)
    ]

  -- What is sanitized under a credential's name is the mark alone; under any other name, no field of
  -- a credential's name holds anything but the mark, at whatever depth it stands, and every other
  -- text is one that the redaction of texts gave.
  pub sanitize_value-IsClean :
      (key : Str) (v : Json)
      → ((sensitive_key key ≡ true) × (sanitize_value sanitize_string key v ≡ redacted))
        ⊎ ((sensitive_key key ≡ false) × IsClean (sanitize_value sanitize_string key v))
  unfolding sanitize_value
  sanitize_value-IsClean key v = elim (Bool-cases (sensitive_key key)) [
    | inl e ↦ inl (e, rw e)
    | inr e ↦ inr (e, rw e (sanitize_inner-IsClean v))
  ]

  module _ (idem : (s : Str) → sanitize_string (sanitize_string s) ≡ sanitize_string s) where
    mutual
      unfolding sanitize_inner

      inner_again :
          (v : Json)
          → sanitize_inner sanitize_string (sanitize_inner sanitize_string v)
            ≡ sanitize_inner sanitize_string v
      inner_again null = refl
      inner_again (boolean b) = refl
      inner_again (number n) = refl
      inner_again (string s) = ap string (idem s)
      inner_again (array xs) = ap array (items_again xs)
      inner_again (object fs) = ap object (fields_again fs)

      items_again :
          (xs : Items)
          → sanitize_items sanitize_string (sanitize_items sanitize_string xs)
            ≡ sanitize_items sanitize_string xs
      items_again nil = refl
      items_again (cons v xs) = ap₂ cons (inner_again v) (items_again xs)

      fields_again :
          (fs : Fields)
          → sanitize_fields sanitize_string (sanitize_fields sanitize_string fs)
            ≡ sanitize_fields sanitize_string fs
      fields_again end = refl
      fields_again (field k v fs) = elim (Bool-cases (sensitive_key k)) [
        | inl e ↦ rw e (ap (field k redacted) (fields_again fs))
        | inr e ↦ rw e (ap₂ (field k) (inner_again v) (fields_again fs))
      ]

    -- Sanitizing what has been sanitized under the same name changes nothing, if the redaction of
    -- texts changes nothing of its own results.
    pub sanitize_value_idem :
        (key : Str) (v : Json)
        → sanitize_value sanitize_string key (sanitize_value sanitize_string key v)
          ≡ sanitize_value sanitize_string key v
    unfolding sanitize_value
    sanitize_value_idem key v = elim (Bool-cases (sensitive_key key)) [
      | inl e ↦ rw e
      | inr e ↦ rw e (inner_again v)
    ]
