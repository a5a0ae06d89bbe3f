-- ===== src/Patch/ClaudeCode/Removed.antt =====
-- patch/claude_code.go, `removeClaudeCodeHooks`: the settings that it leaves.
use casdoor_aiguard.Common.Text.{Str, ◌==◌, codes, contains, eq_iff, eq_refl}
use casdoor_aiguard.Common.{
  Bool, true, false, ◌&&◌, ◌||◌, Option, none, some, List, [], ◌∷◌, ◌≡◌, refl, arith, ap, keep_if,
  sym, ◌∙◌, if◌then◌else◌, Bool-cases, Option-cases, inl, inr, ◌⊎◌, subst,
}
use casdoor_aiguard.Json.Laws.{get_field-set_field}
use casdoor_aiguard.Json.{
  Json, Items, Fields, array, object, string, number, boolean, null, nil, cons, array_value, end,
  field, get_field,
}
use casdoor_aiguard.Patch.ClaudeCode.Flat.{flat, is_foreign}
use casdoor_aiguard.Patch.ClaudeCode.Handlers.{hook_events}
use casdoor_aiguard.Patch.ClaudeCode.Installed.{event_handlers}
use casdoor_aiguard.Json.Laws.{get_field-delete_field}
use casdoor_aiguard.Json.{object_value}
use casdoor_aiguard.Patch.ClaudeCode.Flat.{flat-strip_groups, strip_groups-unchanged}
use casdoor_aiguard.Patch.ClaudeCode.Install.{is_nil_items}
use casdoor_aiguard.Patch.ClaudeCode.Remove.{
  Stripped, is_end, put_stripped, remove_hooks, strip_event, strip_events, strip_groups,
}

-- An event without aiguard's handlers, or none of those of the loop, as it was.
pub data IsStripped (events : List Str) (event : Str) (before after : Fields) : Type 0 where
  stripped :
      event_handlers (get_field event after)
        ≡ keep_if is_foreign (event_handlers (get_field event before))
      → IsStripped events event before after
  foreign_event :
      contains events event ≡ false
      → get_field event after ≡ get_field event before
      → IsStripped events event before after

flat_nil : (xs : Items) → is_nil_items xs ≡ true → flat xs ≡ []
unfolding flat
flat_nil nil h = refl
flat_nil (cons x xs) h = cc

handlers-array_value :
    (o : Option Json) (groups : Items)
    → array_value o ≡ some groups
    → event_handlers o ≡ flat groups
handlers-array_value none groups e = cc
handlers-array_value (some (array gs)) groups e = ap flat (the e)
  where
    the : some gs ≡ some groups → gs ≡ groups
    the q = cc
handlers-array_value (some (object fs)) groups e = cc
handlers-array_value (some (string s)) groups e = cc
handlers-array_value (some (number n)) groups e = cc
handlers-array_value (some (boolean b)) groups e = cc
handlers-array_value (some null) groups e = cc

no_handlers : (o : Option Json) → array_value o ≡ none → event_handlers o ≡ []
no_handlers none e = refl
no_handlers (some (array gs)) e = cc
no_handlers (some (object fs)) e = refl
no_handlers (some (string s)) e = refl
no_handlers (some (number n)) e = refl
no_handlers (some (boolean b)) e = refl
no_handlers (some null) e = refl

strip_event-handlers :
    (event : Str) (groups : Items) (hooks : Fields) (s : Stripped)
    → array_value (get_field event hooks) ≡ some groups
    → (s.changed ≡ false → s.kept ≡ groups)
    → event_handlers (get_field event (strip_event event hooks s)) ≡ flat s.kept
unfolding strip_event
strip_event-handlers event groups hooks s e same = elim (Bool-cases s.changed) [
  | inr c ↦ rw c (handlers-array_value (get_field event hooks) groups e ∙ ap flat (sym (same c)))
  | inl c ↦ elim (Bool-cases (is_nil_items s.kept)) [
    | inl q ↦
        rw (c, q, get_field-delete_field event event hooks, eq_refl event) (sym (flat_nil s.kept q))
    | inr q ↦ rw (c, q, get_field-set_field event event (array s.kept) hooks, eq_refl event) refl
  ]
]

strip_event-other :
    (event other : Str) (hooks : Fields) (s : Stripped)
    → (event == other) ≡ false
    → get_field other (strip_event event hooks s) ≡ get_field other hooks
unfolding strip_event
strip_event-other event other hooks s e = ground (
  arith,
  get_field-delete_field event other hooks,
  get_field-set_field event other (array s.kept) hooks,
)

one_stripped :
    (event : Str) (groups : Items) (hooks : Fields)
    → array_value (get_field event hooks) ≡ some groups
    → event_handlers (get_field event (strip_event event hooks (strip_groups groups)))
      ≡ keep_if is_foreign (event_handlers (get_field event hooks))
one_stripped event groups hooks e =
    strip_event-handlers event groups hooks (strip_groups groups) e (strip_groups-unchanged groups)
    ∙ flat-strip_groups groups
    ∙ ap (keep_if is_foreign) (sym (handlers-array_value (get_field event hooks) groups e))

no_more_foreign : (l : List Json) → keep_if is_foreign (keep_if is_foreign l) ≡ keep_if is_foreign l
unfolding keep_if
no_more_foreign [] = refl
no_more_foreign (x ∷ l) = ground (arith, no_more_foreign l)

-- A round before the rest of the loop, for one event.
next-IsStripped :
    (event : Str) (events : List Str) (hooks1 hooks after : Fields) (k : Str)
    → event_handlers (get_field event hooks1)
      ≡ keep_if is_foreign (event_handlers (get_field event hooks))
    → ((event == k) ≡ false → get_field k hooks1 ≡ get_field k hooks)
    → IsStripped events k hooks1 after
    → IsStripped (event ∷ events) k hooks after
unfolding contains
next-IsStripped event events hooks1 hooks after k here other (foreign_event out same) =
    elim (Bool-cases (event == k)) [
      | inl q ↦ stripped (
          ap event_handlers same
          ∙ subst
              (λ x.
                event_handlers (get_field x hooks1)
                ≡ keep_if is_foreign (event_handlers (get_field x hooks)))
              ((eq_iff event k).0 q) here)
      | inr q ↦ foreign_event (rw (q, out) refl) (same ∙ other q)
    ]
next-IsStripped event events hooks1 hooks after k here other (stripped h) = stripped (
    h ∙ elim (Bool-cases (event == k)) [
      | inl q ↦
          ap (keep_if is_foreign) (
            subst
              (λ x.
                event_handlers (get_field x hooks1)
                ≡ keep_if is_foreign (event_handlers (get_field x hooks)))
              ((eq_iff event k).0 q) here)
          ∙ no_more_foreign (event_handlers (get_field k hooks))
      | inr q ↦ ap (λ o. keep_if is_foreign (event_handlers o)) (other q)
    ])

strip_events-IsStripped :
    (events : List Str) (hooks : Fields) (changed : Bool) (k : Str)
    → IsStripped events k hooks (strip_events events hooks changed).0
unfolding strip_events
strip_events-IsStripped [] hooks changed k = foreign_event (unfold contains in refl) refl
strip_events-IsStripped (event ∷ events) hooks changed k =
    elim (Option-cases (array_value (get_field event hooks))) [
      | inl e ↦
          rw (e, strip_events)
            (next-IsStripped event events hooks hooks (strip_events events hooks changed).0 k
              (nothing (get_field event hooks) e) (λ q. refl)
              (strip_events-IsStripped events hooks changed k))
      | inr (groups, e) ↦
          rw (e, strip_events)
            (let s = strip_groups groups in
              let next = strip_event event hooks s in
              next-IsStripped event events next hooks
                (strip_events events next (changed || s.changed)).0 k
                (one_stripped event groups hooks e) (strip_event-other event k hooks s)
                (strip_events-IsStripped events next (changed || s.changed) k))
    ]
  where
    nothing :
        (o : Option Json)
        → array_value o ≡ none
        → event_handlers o ≡ keep_if is_foreign (event_handlers o)
    nothing o q = rw (no_handlers o q) (unfold keep_if in refl)

-- The hooks that the settings have.
abbrev pub fields_or_end : Option Fields → Fields
fields_or_end none = end
fields_or_end (some fs) = fs

abbrev pub hooks_at : Fields → Fields
hooks_at config = fields_or_end (object_value (get_field (codes "hooks") config))

-- Settings without aiguard's hooks, where they had some or none before.
pub record IsRemoved (config config' : Fields) : Type 0 where
  pub events : (event : Str) → IsStripped hook_events event (hooks_at config) (hooks_at config')
  pub keys :
      (key : Str) → ((codes "hooks" == key) ≡ true) ⊎ (get_field key config' ≡ get_field key config)

end_of : (fs : Fields) → is_end fs ≡ true → fs ≡ end
end_of end h = refl
end_of (field k v fs) h = cc

same_key : (x y : Option Json) → (if codes "hooks" == codes "hooks" then x else y) ≡ x
unfolding ◌==◌
same_key x y = refl

put_stripped-hooks :
    (config after : Fields) (changed : Bool)
    → hooks_at (put_stripped config (after, changed)).0 ≡ after
unfolding put_stripped
put_stripped-hooks config after changed = elim (Bool-cases (changed && is_end after)) [
  | inl e ↦ rw e (
      ap (λ o. fields_or_end (object_value o))
        (get_field-delete_field (codes "hooks") (codes "hooks") config
          ∙ same_key none (get_field (codes "hooks") config))
      ∙ sym (end_of after (ground (arith, e))))
  | inr e ↦ rw e (
      ap (λ o. fields_or_end (object_value o))
        (get_field-set_field (codes "hooks") (codes "hooks") (object after) config
          ∙ same_key (some (object after)) (get_field (codes "hooks") config)))
]

put_stripped-keys :
    (config after : Fields) (changed : Bool) (key : Str)
    → (codes "hooks" == key) ≡ false
    → get_field key (put_stripped config (after, changed)).0 ≡ get_field key config
unfolding put_stripped
put_stripped-keys config after changed key e = elim (Bool-cases (changed && is_end after)) [
  | inl q ↦ rw (q, get_field-delete_field (codes "hooks") key config, e) refl
  | inr q ↦ rw (q, get_field-set_field (codes "hooks") key (object after) config, e) refl
]

-- Behind a removal each event of Claude Code's has no handler of aiguard's, and all handlers of others
-- that it had, in their order; every other event and every other setting is as it was.
pub remove_hooks-IsRemoved : (config : Fields) → IsRemoved config (remove_hooks config).0
unfolding remove_hooks
remove_hooks-IsRemoved config =
    elim (Option-cases (object_value (get_field (codes "hooks") config))) [
      | inl e ↦
          rw (e, remove_hooks)
            (record {
              events = λ event. untouched (hooks_at config) (ap fields_or_end e) event;
              keys = λ key. inr refl;
            })
      | inr (before, e) ↦
          rw (e, remove_hooks)
            (let r = strip_events hook_events before false in
              record {
                events = λ event.
                    subst (λ x. IsStripped hook_events event x (hooks_at (put_stripped config r).0))
                      (sym (ap fields_or_end e))
                      (subst (λ x. IsStripped hook_events event before x)
                        (sym (put_stripped-hooks config r.0 r.1))
                        (strip_events-IsStripped hook_events before false event));
                keys = λ key. elim (Bool-cases (codes "hooks" == key)) [
                  | inl q ↦ inl q
                  | inr q ↦ inr (put_stripped-keys config r.0 r.1 key q)
                ];
              })
    ]
  where
    untouched :
        (hooks : Fields) → hooks ≡ end → (event : Str) → IsStripped hook_events event hooks hooks
    untouched hooks q event = stripped (
        subst
          (λ x.
            event_handlers (get_field event x)
            ≡ keep_if is_foreign (event_handlers (get_field event x)))
          (sym q) (unfold get_field keep_if in refl))
