-- ===== src/PolicyHub/Toggle.antt =====
-- controllers/policyhub.go: what a toggle changes, and when.
use casdoor_aiguard.Common.Dict.{lookup, lookup-insert, lookup-erase}
use casdoor_aiguard.Common.Text.{Str, ◌==◌, eq_iff, eq_refl}
use casdoor_aiguard.Common.{
  Bool, true, false, Option, none, some, [], ◌≡◌, ◌≢◌, refl, arith, Bool-cases, inl, inr,
  if◌then◌else◌, ◌∙◌, ◌⊎◌,
}
use casdoor_aiguard.Enforce.State.{
  EnforceState, FailedWrite, set_policy_set_enabled, is_policy_set_enabled,
  enabled_policy_set_names,
}
use casdoor_aiguard.Enforce.Cache.{IsCoherent, erase-IsCoherent}
use casdoor_aiguard.Enforce.{Casbin}
use casdoor_aiguard.PolicyHub.{
  PolicySet, HubFile, GetResult, got, get_failed, get_policy_set, HubFile,
}
use casdoor_aiguard.PolicyHub.Gate.{
  AgentPresence, Blocker, gate_policy_set, ToggleAnswer, toggled, name_required, bad_set,
  no_such_set, gated, after_save, toggle_gated, toggle_found, toggle_policy_set, MayEnable,
  MayEnable-of_gate, gate_of_MayEnable,
}

module _ (cb : Casbin) where
  is_enabled_after :
      (written : Option FailedWrite) (name : Str) (on : Bool) (st : EnforceState cb) (n : Str)
      → is_policy_set_enabled cb n (set_policy_set_enabled cb written name on st).1.enabled
        ≡ (if name == n then on else is_policy_set_enabled cb n st.enabled)
  unfolding set_policy_set_enabled is_policy_set_enabled
  is_enabled_after none name true st n =
      rw (lookup-insert name n true st.enabled, is_policy_set_enabled) (ground arith)
  is_enabled_after none name false st n =
      rw (lookup-erase name n st.enabled, is_policy_set_enabled) (ground arith)
  is_enabled_after (some e) name true st n =
      rw (lookup-insert name n true st.enabled, is_policy_set_enabled) (ground arith)
  is_enabled_after (some e) name false st n =
      rw (lookup-erase name n st.enabled, is_policy_set_enabled) (ground arith)

  IsCoherent-after :
      (written : Option FailedWrite) (name : Str) (on : Bool) (st : EnforceState cb)
      → IsCoherent cb st.cache
      → IsCoherent cb (set_policy_set_enabled cb written name on st).1.cache
  unfolding set_policy_set_enabled
  IsCoherent-after none name on st h = erase-IsCoherent cb name st.cache h
  IsCoherent-after (some e) name on st h = erase-IsCoherent cb name st.cache h

  dropped_after :
      (written : Option FailedWrite) (name : Str) (on : Bool) (st : EnforceState cb)
      → lookup name (set_policy_set_enabled cb written name on st).1.cache ≡ none
  unfolding set_policy_set_enabled
  dropped_after none name on st = lookup-erase name name st.cache ∙ rw (eq_refl name)
  dropped_after (some e) name on st = lookup-erase name name st.cache ∙ rw (eq_refl name)

  toggle_off :
      (written : Option FailedWrite) (name : Str) (gate : Option Blocker) (st : EnforceState cb)
      → toggle_gated cb written name false gate st
        ≡ after_save cb (set_policy_set_enabled cb written name false st)
  unfolding toggle_gated
  toggle_off written name none st = refl
  toggle_off written name (some b) st = refl

  module _ (hub : Str → HubFile) (goos : Str) (presence : AgentPresence) where
    -- What a toggle needs: a set of that name, and the gate's consent to turn it on.
    pub record MayToggle (name : Str) (on : Bool) : Type 0 where
      pub set : PolicySet
      pub read : get_policy_set hub name ≡ got (some set)
      pub consent : (on ≡ false) ⊎ MayEnable goos set presence

    -- The state that a toggle leaves, if it is carried out.
    pub record IsToggled (name : Str) (on : Bool) (st st' : EnforceState cb) : Type 0 where
      pub enabled :
          (n : Str)
          → is_policy_set_enabled cb n st'.enabled
            ≡ (if name == n then on else is_policy_set_enabled cb n st.enabled)
      pub coherent : IsCoherent cb st'.cache
      pub dropped : lookup name st'.cache ≡ none

    -- What comes of a toggle.
    abbrev pub Outcome : Str → Bool → EnforceState cb → ToggleAnswer × EnforceState cb → Type 0
    Outcome name on st (answer, st') =
        (MayToggle name on
          × IsToggled name on st st'
          × ((answer ≢ toggled) ⊎ (st'.file ≡ some (enabled_policy_set_names cb st'.enabled))))
        ⊎ ((¬ MayToggle name on) × (answer ≢ toggled) × (st' ≡ st))

    changed :
        (written : Option FailedWrite) (name : Str) (on : Bool) (st : EnforceState cb)
        → IsCoherent cb st.cache
        → IsToggled name on st (set_policy_set_enabled cb written name on st).1
    changed written name on st h = record {
      enabled = is_enabled_after written name on st;
      coherent = IsCoherent-after written name on st h;
      dropped = dropped_after written name on st;
    }

    carried_out :
        (written : Option FailedWrite) (name : Str) (on : Bool) (st : EnforceState cb)
        → MayToggle name on
        → IsCoherent cb st.cache
        → Outcome name on st (after_save cb (set_policy_set_enabled cb written name on st))
    unfolding after_save set_policy_set_enabled
    carried_out none name on st m h = inl (m, changed none name on st h, inr refl)
    carried_out (some e) name on st m h = inl (m, changed (some e) name on st h, inl (λ q. cc))

    refused :
        (a : ToggleAnswer) (name : Str) (on : Bool) (st : EnforceState cb)
        → a ≢ toggled
        → ¬ MayToggle name on
        → Outcome name on st (a, st)
    refused a name on st ne n = inr (n, ne, refl)

    blocked :
        (name : Str) (set : PolicySet) (b : Blocker)
        → get_policy_set hub name ≡ got (some set)
        → gate_policy_set goos set presence ≡ some b
        → ¬ MayToggle name true
    blocked name set b r g m =
        let same : m.set ≡ set = cc (m.read, r) in
        elim m.consent [
          | inl e ↦ cc
          | inr may ↦
              let consent = gate_of_MayEnable goos m.set presence may in cc (g, consent, same)
        ]

    toggle_gated-Outcome :
        (written : Option FailedWrite) (name : Str) (on : Bool) (set : PolicySet)
        (st : EnforceState cb)
        → get_policy_set hub name ≡ got (some set)
        → (gate : Option Blocker) → gate_policy_set goos set presence ≡ gate
        → IsCoherent cb st.cache
        → Outcome name on st (toggle_gated cb written name on gate st)
    unfolding toggle_gated
    toggle_gated-Outcome written name true set st r (some b) g h =
        refused (gated b) name true st (λ e. cc) (blocked name set b r g)
    toggle_gated-Outcome written name true set st r none g h =
        carried_out written name true st
          (record { set = set; read = r; consent = inr (MayEnable-of_gate goos set presence g) }) h
    toggle_gated-Outcome written name false set st r gate g h =
        rw (toggle_off written name gate st)
          (carried_out written name false st (record { set = set; read = r; consent = inl refl }) h)

    toggle_found-Outcome :
        (written : Option FailedWrite) (name : Str) (on : Bool) (g : GetResult)
        (st : EnforceState cb)
        → get_policy_set hub name ≡ g
        → IsCoherent cb st.cache
        → Outcome name on st (toggle_found cb goos presence written name on g st)
    unfolding toggle_found
    toggle_found-Outcome written name on (get_failed e) st r h =
        refused (bad_set e) name on st (λ q. cc) (λ m. cc (r, m.read))
    toggle_found-Outcome written name on (got none) st r h =
        refused no_such_set name on st (λ q. cc) (λ m. cc (r, m.read))
    toggle_found-Outcome written name on (got (some set)) st r h =
        toggle_gated-Outcome written name on set st r (gate_policy_set goos set presence) refl h

    no_name : (n : Str) (s : PolicySet) → n ≡ [] → get_policy_set hub n ≡ got (some s) → ⊥
    unfolding get_policy_set
    no_name n s e r = cc (r, e)

    -- From a coherent cache, a toggle is carried out exactly when the set exists and, to turn it on,
    -- the gate consents; to turn one off needs no consent. Then that set alone changes, its cached
    -- enforcer is dropped, the cache stays coherent, and success is answered only if the file holds
    -- the sorted names of the enabled sets. Else success is not answered and the state is as before.
    pub toggle_policy_set-Outcome :
        (written : Option FailedWrite) (name : Str) (on : Bool) (st : EnforceState cb)
        → IsCoherent cb st.cache
        → Outcome name on st (toggle_policy_set cb hub goos presence written name on st)
    unfolding toggle_policy_set
    toggle_policy_set-Outcome written name on st h = elim (Bool-cases (name == [])) [
      | inl e ↦
          rw (e, toggle_policy_set)
            (refused name_required name on st (λ q. cc)
              (λ m. no_name name m.set ((eq_iff _ _).0 e) m.read))
      | inr e ↦
          rw (e, toggle_policy_set)
            (toggle_found-Outcome written name on (get_policy_set hub name) st refl h)
    ]
