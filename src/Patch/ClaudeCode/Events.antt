-- ===== src/Patch/ClaudeCode/Events.antt =====
-- patch/claude_code.go, `installClaudeCodeHooks`: the settings that it leaves, event by event.
use casdoor_aiguard.Common.Text.{Str, ◌==◌, codes, contains, eq_iff, eq_refl}
use casdoor_aiguard.Common.{
  Bool, true, false, ◌||◌, Option, none, some, List, [], ◌∷◌, ◌++◌, ◌≡◌, refl, any, ap, keep_if,
  sym, ◌∙◌, append_assoc, Bool-cases, Option-cases, inl, inr, ◌⊎◌, subst,
}
use casdoor_aiguard.Json.Laws.{get_field-set_field}
use casdoor_aiguard.Json.{
  Json, Items, Fields, array, object, string, number, boolean, null, nil, cons, append_items,
  get_field, set_field,
}
use casdoor_aiguard.Patch.ClaudeCode.Flat.{
  flat, flat-merge_groups, is_foreign, listed, listed_in, merge_groups-found,
  merge_groups-unchanged,
}
use casdoor_aiguard.Patch.ClaudeCode.Handlers.{
  hook_events, is_aiguard_arguments, is_owned, new_handler,
}
use casdoor_aiguard.Patch.ClaudeCode.Install.{
  event_groups, groups_in, handlers_of, hooks_in, install_events, install_hooks, is_some,
  merge_groups, new_group, put_event, supports_matcher, with_hooks,
}
use casdoor_aiguard.Patch.ClaudeCode.Installed.{
  IsInstalledIn, IsInstalledIn-added, IsInstalledIn-merged, event_handlers,
}

flat-append_items : (xs ys : Items) → flat (append_items xs ys) ≡ flat xs ++ flat ys
unfolding flat
flat-append_items nil ys = refl
flat-append_items (cons x xs) ys =
    rw (flat-append_items xs ys)
      (sym (append_assoc (listed_in (handlers_of x)) (flat xs) (flat ys)))

handlers-groups_in :
    (o : Option Json) (groups : Items) → groups_in o ≡ some groups → event_handlers o ≡ flat groups
unfolding flat
handlers-groups_in none groups e = ap flat (the e)
  where
    the : some nil ≡ some groups → nil ≡ groups
    the q = cc
handlers-groups_in (some (array gs)) groups e = ap flat (the e)
  where
    the : some gs ≡ some groups → gs ≡ groups
    the q = cc
handlers-groups_in (some (object fs)) groups e = cc
handlers-groups_in (some (string s)) groups e = cc
handlers-groups_in (some (number n)) groups e = cc
handlers-groups_in (some (boolean b)) groups e = cc
handlers-groups_in (some null) groups e = cc

changed_or : Items → Option Items → Items
changed_or groups none = groups
changed_or groups (some gs) = gs

module _ (command : Str) (arguments : List Str) where
  -- An event behind the loop: it has aiguard's handler, or it is none of those of the loop, and is as
  -- it was.
  pub data IsEventOf (events : List Str) (event : Str) (before after : Fields) : Type 0 where
    installed :
        IsInstalledIn command arguments
          (event_handlers (get_field event before))
          (event_handlers (get_field event after))
        → IsEventOf events event before after
    foreign_event :
        contains events event ≡ false
        → get_field event after ≡ get_field event before
        → IsEventOf events event before after

  -- Settings with aiguard's hooks in them, where the settings before had others or none.
  pub record IsInstalled (config config' : Fields) : Type 0 where
    pub before : Fields
    pub after : Fields
    pub was : hooks_in (get_field (codes "hooks") config) ≡ some before
    pub is : get_field (codes "hooks") config' ≡ some (object after)
    pub events : (event : Str) → IsEventOf hook_events event before after
    pub keys :
        (key : Str)
        → ((codes "hooks" == key) ≡ true) ⊎ (get_field key config' ≡ get_field key config)

module _ (command : Str) (arguments : List Str) (ours : is_aiguard_arguments arguments ≡ true) where
  flat-new_group :
      (event : Str)
      → flat (cons (new_group command arguments event) nil)
        ≡ object (new_handler command arguments) ∷ []
  unfolding flat new_group
  flat-new_group event = elim (Bool-cases (supports_matcher event)) [
    | inl e ↦ rw e (unfold get_field listed in refl)
    | inr e ↦ rw e (unfold get_field listed in refl)
  ]

  -- The groups that an event has in the end.
  final_groups : Str → Items → Items
  final_groups event groups = changed_or groups (event_groups command arguments event groups)

  IsInstalledIn-final_groups :
      (event : Str) (groups : Items)
      → IsInstalledIn command arguments (flat groups) (flat (final_groups event groups))
  unfolding event_groups final_groups changed_or
  IsInstalledIn-final_groups event groups =
      let m = merge_groups command arguments false groups in
      let found : m.found ≡ any is_owned (flat groups) =
        merge_groups-found command arguments false groups in
      let flatly = flat-merge_groups command arguments false groups in
      elim (Bool-cases m.found) [
        | inr e ↦ rw e (
            rw
              (
                flat-append_items m.groups (cons (new_group command arguments event) nil),
                flatly,
                flat-new_group event,
              )
              (IsInstalledIn-added command arguments ours (flat groups) (sym found ∙ e)))
        | inl e ↦ elim (Bool-cases m.changed) [
          | inl c ↦
              rw (e, c, flatly)
                (IsInstalledIn-merged command arguments ours (flat groups) (sym found ∙ e))
          | inr c ↦
              let same = merge_groups-unchanged command arguments false groups c in
              rw (e, c)
                (subst (IsInstalledIn command arguments (flat groups)) (sym flatly ∙ ap flat same)
                  (IsInstalledIn-merged command arguments ours (flat groups) (sym found ∙ e)))
        ]
      ]

  final_handlers :
      (event : Str) (groups : Items) (hooks : Fields)
      → groups_in (get_field event hooks) ≡ some groups
      → event_handlers
          (get_field event (put_event event hooks (event_groups command arguments event groups)))
        ≡ flat (final_groups event groups)
  unfolding final_groups
  final_handlers event groups hooks e = go (event_groups command arguments event groups)
    where
      go :
          (o : Option Items)
          → event_handlers (get_field event (put_event event hooks o)) ≡ flat (changed_or groups o)
      go none = unfold put_event changed_or in handlers-groups_in (get_field event hooks) groups e
      go (some gs) =
          unfold put_event changed_or in
          rw (get_field-set_field event event (array gs) hooks, eq_refl event) refl

  other_event :
      (event other : Str) (hooks : Fields) (o : Option Items)
      → (event == other) ≡ false
      → get_field other (put_event event hooks o) ≡ get_field other hooks
  unfolding put_event
  other_event event other hooks none e = refl
  other_event event other hooks (some gs) e =
      rw (get_field-set_field event other (array gs) hooks, e) refl

  one_event :
      (event : Str) (groups : Items) (hooks : Fields)
      → groups_in (get_field event hooks) ≡ some groups
      → IsInstalledIn command arguments (event_handlers (get_field event hooks)) (
          event_handlers
            (get_field event (put_event event hooks (event_groups command arguments event groups))))
  one_event event groups hooks e =
      rw (handlers-groups_in (get_field event hooks) groups e, final_handlers event groups hooks e)
        (IsInstalledIn-final_groups event groups)

  -- A round before the rest of the loop, for one event.
  next_event :
      (event : Str) (events : List Str) (groups : Items) (hooks after : Fields) (k : Str)
      → groups_in (get_field event hooks) ≡ some groups
      → IsEventOf command arguments events k
          (put_event event hooks (event_groups command arguments event groups))
          after
      → IsEventOf command arguments (event ∷ events) k hooks after
  unfolding contains
  next_event event events groups hooks after k e (foreign_event out same) =
      elim (Bool-cases (event == k)) [
        | inl q ↦
            let is : event ≡ k = (eq_iff event k).0 q in
            installed (
              rw same (
                subst
                  (λ x. IsInstalledIn command arguments (event_handlers (get_field x hooks)) (
                    event_handlers (
                      get_field x
                        (put_event event hooks (event_groups command arguments event groups)))))
                  is (one_event event groups hooks e)))
        | inr q ↦
            foreign_event (rw (q, out) refl)
              (same ∙ other_event event k hooks (event_groups command arguments event groups) q)
      ]
  next_event event events groups hooks after k e (installed i) =
      installed
        (record { own = i.own; one = i.one; current = i.current; others = i.others ∙ before })
    where
      before :
          keep_if is_foreign (
            event_handlers
              (get_field k (put_event event hooks (event_groups command arguments event groups))))
          ≡ keep_if is_foreign (event_handlers (get_field k hooks))
      before = elim (Bool-cases (event == k)) [
        | inl q ↦
            subst
              (λ x.
                keep_if is_foreign (
                  event_handlers (
                    get_field x
                      (put_event event hooks (event_groups command arguments event groups))))
                ≡ keep_if is_foreign (event_handlers (get_field x hooks)))
              ((eq_iff event k).0 q) (one_event event groups hooks e).others
        | inr q ↦
            ap (λ o. keep_if is_foreign (event_handlers o))
              (other_event event k hooks (event_groups command arguments event groups) q)
      ]

  install_events-IsEventOf :
      (events : List Str) (hooks after : Fields) (changed changed' : Bool) (k : Str)
      → install_events command arguments events hooks changed ≡ some (after, changed')
      → IsEventOf command arguments events k hooks after
  unfolding install_events
  install_events-IsEventOf [] hooks after changed changed' k h =
      foreign_event (unfold contains in refl) (ap (get_field k) (sym (fields_of h)))
    where
      fields_of :
          ◌≡◌ {A = Option (Fields × Bool)} (some (hooks, changed)) (some (after, changed'))
          → hooks ≡ after
      fields_of q = cc
  install_events-IsEventOf (event ∷ events) hooks after changed changed' k h =
      elim (Option-cases (groups_in (get_field event hooks))) [
        | inl e ↦ absurd (no_result (rw (e, install_events) at h))
        | inr (groups, e) ↦
            let next = event_groups command arguments event groups in
            next_event event events groups hooks after k e (
              install_events-IsEventOf events (put_event event hooks next) after
                (changed || is_some next) changed' k (rw (e, install_events) at h))
      ]
    where
      no_result : ◌≡◌ {A = Option (Fields × Bool)} none (some (after, changed')) → ⊥
      no_result q = cc

  with_hooks-IsInstalled :
      (config config' before : Fields) (changed : Bool) (r : Option (Fields × Bool))
      → hooks_in (get_field (codes "hooks") config) ≡ some before
      → install_events command arguments hook_events before false ≡ r
      → with_hooks config r ≡ some (config', changed)
      → IsInstalled command arguments config config'
  with_hooks-IsInstalled config config' before changed none was e h = cc
  with_hooks-IsInstalled config config' before changed (some (after, c)) was e h =
      let is : config' ≡ set_field (codes "hooks") (object after) config = fields_of h in
      record {
        before = before;
        after = after;
        was = was;
        is = rw is (
            rw
              (
                get_field-set_field (codes "hooks") (codes "hooks") (object after) config,
                eq_refl (codes "hooks"),
              )
              refl);
        events = λ event. install_events-IsEventOf hook_events before after false c event e;
        keys = λ key. elim (Bool-cases (codes "hooks" == key)) [
          | inl q ↦ inl q
          | inr q ↦
              inr
                (rw is (rw (get_field-set_field (codes "hooks") key (object after) config, q) refl))
        ];
      }
    where
      fields_of :
          ◌≡◌ {A = Option (Fields × Bool)}
            (some (set_field (codes "hooks") (object after) config, c))
            (some (config', changed))
          → config' ≡ set_field (codes "hooks") (object after) config
      fields_of q = cc

  -- Where the hooks can be installed, each event of Claude Code's has in the end exactly one handler of
  -- aiguard's, a current one, and all handlers of others that it had, in their order; every other event
  -- and every other setting is as it was: for arguments by which aiguard knows its own handlers.
  pub install_hooks-IsInstalled :
      (config config' : Fields) (changed : Bool)
      → install_hooks command arguments config ≡ some (config', changed)
      → IsInstalled command arguments config config'
  unfolding install_hooks
  install_hooks-IsInstalled config config' changed h =
      elim (Option-cases (hooks_in (get_field (codes "hooks") config))) [
        | inl e ↦ absurd (no_result (rw (e, install_hooks) at h))
        | inr (before, e) ↦
            with_hooks-IsInstalled config config' before changed
              (install_events command arguments hook_events before false) e refl
              (rw (e, install_hooks) at h)
      ]
    where
      no_result : ◌≡◌ {A = Option (Fields × Bool)} none (some (config', changed)) → ⊥
      no_result q = cc
