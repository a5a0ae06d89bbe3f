-- ===== src/Patch/CodexToml/Said.antt =====
-- patch/codex_toml.go, `editCodexTOML`: what an edited document says to go-toml.
use casdoor_aiguard.Common.Dict.{Dict, lookup}
use casdoor_aiguard.Common.Text.{Str, codes, is_empty}
use casdoor_aiguard.Common.{
  Bool, true, false, Option, none, some, List, [], ◌∷◌, ◌++◌, ◌≡◌, refl, is_nil, All, inl, inr,
  Bool-cases, ◌∙◌, subst,
}
use casdoor_aiguard.Patch.CodexToml.Document.{locate}
use casdoor_aiguard.Patch.CodexToml.Edit.{
  Edit, Setting, ◌>>=◌, ok_of_chain, apply, codex_provider_table, ok,
}
use casdoor_aiguard.Patch.CodexToml.Verify.{
  check_parses, check_value, check_removed, probed, verify_dropped, verify_present, verify_read,
  decode_toml_value, edit_codex_toml, provider_of, verify_codex_toml, verify_provider,
  verify_settings, verify_toml_setting,
}

module _ {V : Type 0} (unmarshal : Str → Option (Dict V)) (as_table : V → Option (Dict V))
    (deep_equal : V → V → Bool) where
  -- A setting holds in a table: its key is missing if the edit removes it, and else has the value that
  -- the edit writes, as go-toml reads it.
  pub data Holds (table : Dict V) (s : Setting) : Type 0 where
    missing : is_empty s.value ≡ true → lookup s.key table ≡ none → Holds table s
    has :
        (actual expected : V) (probe : Dict V)
        → is_empty s.value ≡ false
        → lookup s.key table ≡ some actual
        → unmarshal (codes "value = " ++ s.value) ≡ some probe
        → lookup (codes "value") probe ≡ some expected
        → deep_equal actual expected ≡ true
        → Holds table s

  -- The provider's table as the edit wants it: not there, or with its settings, or of no concern.
  pub data ProviderHolds (edit : Edit) : Option (Dict V) → Type 0 where
    dropped : edit.drop_provider_table ≡ true → ProviderHolds edit none
    unasked :
        {p : Option (Dict V)}
        → edit.drop_provider_table ≡ false
        → edit.provider ≡ []
        → ProviderHolds edit p
    provided :
        {p : Dict V}
        → edit.drop_provider_table ≡ false
        → All (Holds p) edit.provider
        → ProviderHolds edit (some p)

  -- A document that go-toml reads, and that says what the edit asks for.
  pub record Says (updated : Str) (edit : Edit) : Type 0 where
    pub settings : Dict V
    pub reads : unmarshal updated ≡ some settings
    pub root : All (Holds settings) edit.root
    pub provider : ProviderHolds edit (provider_of unmarshal as_table deep_equal settings)

  check_value-same :
      (place key : Str) (a b : Option V)
      → check_value unmarshal as_table deep_equal place key a b ≡ ok tt
      → (x : V) × (y : V) × (a ≡ some x) × (b ≡ some y) × (deep_equal x y ≡ true)
  unfolding check_value
  check_value-same place key (some x) (some y) h = elim (Bool-cases (deep_equal x y)) [
    | inl e ↦ (x, y, refl, refl, e)
    | inr e ↦ cc (rw e at h)
  ]
  check_value-same place key none b h = cc
  check_value-same place key (some x) none h = cc

  decode_toml_value-reads :
      (encoded : Str) (o : Option (Dict V)) (v : Option V)
      → probed unmarshal as_table deep_equal encoded o ≡ ok v
      → (probe : Dict V) × (o ≡ some probe) × (lookup (codes "value") probe ≡ v)
  unfolding probed
  decode_toml_value-reads encoded none v h = cc
  decode_toml_value-reads encoded (some probe) v h = (probe, refl, value h)
    where
      value : {a b : Option V} → ok a ≡ ok b → a ≡ b
      value e = cc

  check_removed-gone :
      (place key : Str) (o : Option V)
      → check_removed unmarshal as_table deep_equal place key o ≡ ok tt
      → o ≡ none
  unfolding check_removed
  check_removed-gone place key none h = refl
  check_removed-gone place key (some v) h = cc

  decoded :
      (table : Dict V) (place : Str) (s : Setting)
      → is_empty s.value ≡ false
      → (decode_toml_value unmarshal as_table deep_equal s.value >>= λ x.
          check_value unmarshal as_table deep_equal place s.key (lookup s.key table) x)
        ≡ ok tt
      → Holds table s
  unfolding decode_toml_value
  decoded table place s e q =
      let (v, d, c) =
        ok_of_chain
          (probed unmarshal as_table deep_equal s.value (unmarshal (codes "value = " ++ s.value)))
          (λ x. check_value unmarshal as_table deep_equal place s.key (lookup s.key table) x) q in
      let (probe, u, l) =
        decode_toml_value-reads s.value (unmarshal (codes "value = " ++ s.value)) v d in
      let (x, y, a, b, same) = check_value-same place s.key (lookup s.key table) v c in
      has x y probe e a u (l ∙ b) same

  verify_toml_setting-Holds :
      (table : Dict V) (place : Str) (s : Setting)
      → verify_toml_setting unmarshal as_table deep_equal table place s ≡ ok tt
      → Holds table s
  unfolding verify_toml_setting
  verify_toml_setting-Holds table place s h = elim (Bool-cases (is_empty s.value)) [
    | inl e ↦ missing e (check_removed-gone place s.key (lookup s.key table) (rw e at h))
    | inr e ↦ decoded table place s e (rw e at h)
  ]

  verify_settings-Holds :
      (table : Dict V) (place : Str) (ss : List Setting)
      → verify_settings unmarshal as_table deep_equal table place ss ≡ ok tt
      → All (Holds table) ss
  unfolding verify_settings
  verify_settings-Holds table place [] h = tt
  verify_settings-Holds table place (s ∷ ss) h =
      let (u, a, b) =
        ok_of_chain (verify_toml_setting unmarshal as_table deep_equal table place s)
          (λ x. verify_settings unmarshal as_table deep_equal table place ss) h in
      (verify_toml_setting-Holds table place s a, verify_settings-Holds table place ss b)

  nil_of_empty : {A : Type 0} (l : List A) → is_nil l ≡ true → l ≡ []
  nil_of_empty [] h = refl
  nil_of_empty (x ∷ l) h = cc

  verify_provider-Holds :
      (edit : Edit) (p : Option (Dict V))
      → verify_provider unmarshal as_table deep_equal edit p ≡ ok tt
      → ProviderHolds edit p
  unfolding verify_provider
  verify_provider-Holds edit p h = elim (Bool-cases edit.drop_provider_table) [
    | inl e ↦ gone p e (rw e at h)
    | inr e ↦ elim (Bool-cases (is_nil edit.provider)) [
      | inl q ↦ unasked e (nil_of_empty edit.provider q)
      | inr q ↦ present p e (rw (e, q) at h)
    ]
  ]
    where
      gone :
          (o : Option (Dict V))
          → edit.drop_provider_table ≡ true
          → verify_dropped unmarshal as_table deep_equal o ≡ ok tt
          → ProviderHolds edit o
      gone none e q = dropped e
      gone (some v) e q = absurd (unfold verify_dropped in cc q)

      present :
          (o : Option (Dict V))
          → edit.drop_provider_table ≡ false
          → verify_present unmarshal as_table deep_equal edit.provider o ≡ ok tt
          → ProviderHolds edit o
      present none e q = absurd (unfold verify_present in cc q)
      present (some v) e q =
          provided e (
            verify_settings-Holds v codex_provider_table edit.provider (unfold verify_present in q))

  verify_read-Says :
      (updated : Str) (edit : Edit) (o : Option (Dict V))
      → unmarshal updated ≡ o
      → verify_read unmarshal as_table deep_equal edit o ≡ ok tt
      → Says updated edit
  unfolding verify_read
  verify_read-Says updated edit none e h = cc
  verify_read-Says updated edit (some settings) e h =
      let (u, a, b) =
        ok_of_chain (verify_settings unmarshal as_table deep_equal settings [] edit.root)
          (λ x.
            verify_provider unmarshal as_table deep_equal edit
              (provider_of unmarshal as_table deep_equal settings))
          h in
      record {
        settings = settings;
        reads = e;
        root = verify_settings-Holds settings [] edit.root a;
        provider =
            verify_provider-Holds edit (provider_of unmarshal as_table deep_equal settings) b;
      }

  -- An edited config.toml is returned only if go-toml reads it and finds in it what the edit asks for:
  -- each key of the top level that is set has its value and each that is removed is missing, and the
  -- provider's table is gone if it is dropped, or else has its settings, if there are any.
  pub edit_codex_toml-Says :
      (text : Str) (edit : Edit) (updated : Str)
      → edit_codex_toml unmarshal as_table deep_equal text edit ≡ ok updated
      → Says updated edit
  unfolding edit_codex_toml verify_codex_toml
  edit_codex_toml-Says text edit updated h =
      let (a, p, h1) = ok_of_chain (check_parses unmarshal as_table deep_equal text) _ h in
      let (u, q, h2) = ok_of_chain (apply (locate text) edit) _ h1 in
      let (b, v, h3) =
        ok_of_chain (verify_read unmarshal as_table deep_equal edit (unmarshal u)) _ h2 in
      subst (λ x. Says x edit) (value h3) (verify_read-Says u edit (unmarshal u) refl v)
    where
      value : {a b : Str} → ok a ≡ ok b → a ≡ b
      value e = cc
