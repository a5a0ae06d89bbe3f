-- ===== src/Patch/ClaudeCode/Active.antt =====
-- patch/claude_code.go, `claudeCodeHooksState`: what it counts behind an installation.
use casdoor_aiguard.Common.Text.{Str, contains}
use casdoor_aiguard.Common.{
  ℕ, ◌+◌, Bool, true, false, ◌||◌, Option, none, some, List, [], ◌∷◌, ◌++◌, ◌≡◌, refl, arith, ap,
  keep_if, sym, ◌∙◌, if◌then◌else◌, Bool-cases, Option-cases, inl, inr, length, All,
}
use casdoor_aiguard.Json.{
  Json, Items, Fields, array, boolean, null, number, object, string, nil, cons, get_field,
}
use casdoor_aiguard.Patch.ClaudeCode.Events.{
  IsEventOf, IsInstalled, foreign_event, installed, install_hooks-IsInstalled,
}
use casdoor_aiguard.Patch.ClaudeCode.Flat.{flat, listed}
use casdoor_aiguard.Patch.ClaudeCode.Handlers.{
  hook_events, is_aiguard_arguments, is_current, is_owned, is_owned_current,
}
use casdoor_aiguard.Patch.ClaudeCode.Install.{handlers_of, install_hooks}
use casdoor_aiguard.Patch.ClaudeCode.Installed.{IsInstalledIn, event_handlers}
use casdoor_aiguard.Patch.ClaudeCode.Status.{
  Tally, count_events, hook_state, hooks_state, tally_groups, tally_handlers,
}

pair_path : {x y u v : ℕ} → x ≡ u → y ≡ v → ◌≡◌ {A = ℕ × ℕ} (x, y) (u, v)
pair_path p q = cc

module _ (command : Str) (arguments : List Str) where
  tally_list : List Json → Tally → Tally
  tally_list [] t = t
  tally_list (raw ∷ rest) t = tally_list rest (
      if is_owned raw
      then record {
        owned = t.owned + 1;
        current = t.current || is_owned_current command arguments raw;
      }
      else t)

  tally_list-append :
      (xs ys : List Json) (t : Tally) → tally_list (xs ++ ys) t ≡ tally_list ys (tally_list xs t)
  unfolding tally_list
  tally_list-append [] ys t = refl
  tally_list-append (x ∷ xs) ys t = tally_list-append xs ys (
      if is_owned x
      then record {
        owned = t.owned + 1;
        current = t.current || is_owned_current command arguments x;
      }
      else t)

  tally_handlers-listed :
      (xs : Items) (t : Tally) → tally_handlers command arguments xs t ≡ tally_list (listed xs) t
  unfolding tally_handlers tally_list listed
  tally_handlers-listed nil t = refl
  tally_handlers-listed (cons x xs) t = tally_handlers-listed xs (
      if is_owned x
      then record {
        owned = t.owned + 1;
        current = t.current || is_owned_current command arguments x;
      }
      else t)

  tally_groups-flat :
      (gs : Items) (t : Tally) → tally_groups command arguments gs t ≡ tally_list (flat gs) t
  unfolding tally_groups flat
  tally_groups-flat nil t = unfold tally_list in refl
  tally_groups-flat (cons raw rest) t = elim (Option-cases (handlers_of raw)) [
    | inl e ↦ rw (e, tally_groups) (tally_groups-flat rest t)
    | inr (handlers, e) ↦
        rw (e, tally_groups)
          (tally_groups-flat rest (tally_handlers command arguments handlers t)
            ∙ ap (tally_list (flat rest)) (tally_handlers-listed handlers t)
            ∙ sym (tally_list-append (listed handlers) (flat rest) t))
  ]

  counted : Json → Tally → Tally
  counted x t = record {
    owned = t.owned + 1;
    current = t.current || is_owned_current command arguments x;
  }

  tally_list-step :
      (x : Json) (xs : List Json) (t : Tally)
      → is_owned x ≡ true
      → tally_list (x ∷ xs) t ≡ tally_list xs (counted x t)
  unfolding tally_list counted
  tally_list-step x xs t e = rw e

  tally_list-owned :
      (xs : List Json) (t : Tally) → tally_list xs t ≡ tally_list (keep_if is_owned xs) t
  unfolding keep_if
  tally_list-owned [] t = refl
  tally_list-owned (x ∷ xs) t = elim (Bool-cases (is_owned x)) [
    | inl e ↦ rw e (
        tally_list-step x xs t e
        ∙ tally_list-owned xs (counted x t)
        ∙ sym (tally_list-step x (keep_if is_owned xs) t e))
    | inr e ↦ rw e (skipped e (tally_list-owned xs t))
  ]
    where
      skipped : {u : Tally} → is_owned x ≡ false → tally_list xs t ≡ u → tally_list (x ∷ xs) t ≡ u
      skipped e h = unfold tally_list in rw e h

  current_owned : (own : Json) → is_owned_current command arguments own ≡ true → is_owned own ≡ true
  unfolding is_owned is_owned_current is_current
  current_owned (object handler) h = ground arith
  current_owned null h = cc
  current_owned (boolean b) h = cc
  current_owned (number n) h = cc
  current_owned (string s) h = cc
  current_owned (array xs) h = cc

  hook_state-array :
      (gs : Items) (own : Json)
      → keep_if is_owned (flat gs) ≡ own ∷ []
      → is_owned_current command arguments own ≡ true
      → hook_state command arguments (some (array gs)) ≡ (true, true)
  unfolding hook_state
  hook_state-array gs own one current =
      let start : Tally = record { owned = 0; current = false } in
      let e : tally_groups command arguments gs start ≡ record { owned = 1; current = true } =
        tally_groups-flat gs start
        ∙ tally_list-owned (flat gs) start
        ∙ ap (λ l. tally_list l start) one
        ∙ tally_list-step own [] start (current_owned own current)
        ∙ (unfold counted tally_list in rw current) in
      rw e refl

  hook_state-installed :
      (o : Option Json) (before : List Json)
      → IsInstalledIn command arguments before (event_handlers o)
      → hook_state command arguments o ≡ (true, true)
  hook_state-installed (some (array gs)) before i = hook_state-array gs i.own i.one i.current
  hook_state-installed none before i = absurd (unfold keep_if in cc i.one)
  hook_state-installed (some null) before i = absurd (unfold keep_if in cc i.one)
  hook_state-installed (some (boolean b)) before i = absurd (unfold keep_if in cc i.one)
  hook_state-installed (some (number n)) before i = absurd (unfold keep_if in cc i.one)
  hook_state-installed (some (string s)) before i = absurd (unfold keep_if in cc i.one)
  hook_state-installed (some (object fs)) before i = absurd (unfold keep_if in cc i.one)

  count_events-All :
      (events : List Str) (hooks : Fields) (a b : ℕ)
      → All (λ event. hook_state command arguments (get_field event hooks) ≡ (true, true)) events
      → count_events command arguments events hooks (a, b) ≡ (a + length events, b + length events)
  unfolding count_events
  count_events-All [] hooks a b h = pair_path (omega arith) (omega arith)
  count_events-All (event ∷ events) hooks a b (h, hs) =
      rw h
        (count_events-All events hooks (a + 1) (b + 1) hs ∙ pair_path (omega arith) (omega arith))

  event_active :
      (before after : Fields) (event : Str)
      → contains hook_events event ≡ true
      → IsEventOf command arguments hook_events event before after
      → hook_state command arguments (get_field event after) ≡ (true, true)
  event_active before after event inside (installed i) =
      hook_state-installed (get_field event after) (event_handlers (get_field event before)) i
  event_active before after event inside (foreign_event out same) =
      absurd (clash (sym inside ∙ out))
    where
      clash : true ≡ false → ⊥
      clash q = cc

  All-active :
      (before after : Fields) (events : List Str)
      → All (λ event. contains hook_events event ≡ true) events
      → ((event : Str) → IsEventOf command arguments hook_events event before after)
      → All (λ event. hook_state command arguments (get_field event after) ≡ (true, true)) events
  All-active before after [] h f = tt
  All-active before after (event ∷ events) (h, hs) f =
      (event_active before after event h (f event), All-active before after events hs f)

  known_events : All (λ event. contains hook_events event ≡ true) hook_events
  unfolding contains
  known_events = (
    refl,
    (
      refl,
      (
        refl,
        (refl, (refl, (refl, (refl, (refl, (refl, (refl, (refl, (refl, (refl, (refl, tt))))))))))),
      ),
    ),
  )

  hooks_state-IsInstalled :
      (config config' : Fields)
      → IsInstalled command arguments config config'
      → hooks_state command arguments config' ≡ (length hook_events, length hook_events)
  unfolding hooks_state
  hooks_state-IsInstalled config config' i =
      rw (i.is, hooks_state)
        (count_events-All hook_events i.after 0 0
          (All-active i.before i.after hook_events known_events i.events))

-- Behind an installation the status finds the hooks of all events, and all of them current: for
-- arguments by which aiguard knows its own handlers.
pub hooks_state-install_hooks :
    (command : Str) (arguments : List Str) (config config' : Fields) (changed : Bool)
    → is_aiguard_arguments arguments ≡ true
    → install_hooks command arguments config ≡ some (config', changed)
    → hooks_state command arguments config' ≡ (length hook_events, length hook_events)
hooks_state-install_hooks command arguments config config' changed ours h =
    hooks_state-IsInstalled command arguments config config'
      (install_hooks-IsInstalled command arguments ours config config' changed h)
