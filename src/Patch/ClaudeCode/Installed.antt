-- ===== src/Patch/ClaudeCode/Installed.antt =====
-- patch/claude_code.go, `installClaudeCodeHooks`: what it leaves among the handlers of each event.
use casdoor_aiguard.Common.Text.{Str, codes, eq_refl}
use casdoor_aiguard.Common.{
  Bool, true, false, ◌||◌, Option, some, List, [], ◌∷◌, ◌++◌, ◌≡◌, refl, arith, any, keep_if, ◌∙◌,
  append-nil, Bool-cases, inl, inr,
}
use casdoor_aiguard.Json.{Json, array, object, get_field}
use casdoor_aiguard.Patch.ClaudeCode.Flat.{flat, is_foreign, keep_if-append, merge_list}
use casdoor_aiguard.Patch.ClaudeCode.Handlers.{
  all_strings, is_aiguard_arguments, is_aiguard_hook_handler, is_current, is_owned,
  is_owned_current, new_handler, same_texts, string_array_value, strings, timeout_is_current,
}

all_strings-strings : (ss : List Str) → all_strings (strings ss) ≡ some ss
unfolding all_strings strings
all_strings-strings [] = refl
all_strings-strings (s ∷ ss) = rw (all_strings-strings ss)

same_texts_refl : (ss : List Str) → same_texts ss ss ≡ true
unfolding same_texts
same_texts_refl [] = refl
same_texts_refl (s ∷ ss) = ground (arith, eq_refl s, same_texts_refl ss)

new_handler-arguments :
    (command : Str) (arguments : List Str)
    → string_array_value (get_field (codes "args") (new_handler command arguments)) ≡ arguments
unfolding new_handler get_field string_array_value
new_handler-arguments command arguments = rw (all_strings-strings arguments, string_array_value)

new_handler_owned :
    (command : Str) (arguments : List Str)
    → is_aiguard_arguments arguments ≡ true
    → is_aiguard_hook_handler (new_handler command arguments) ≡ true
unfolding is_aiguard_hook_handler
new_handler_owned command arguments h =
    rw (new_handler-arguments command arguments, h) (unfold new_handler get_field in refl)

new_handler_current :
    (command : Str) (arguments : List Str)
    → is_aiguard_arguments arguments ≡ true
    → is_current command arguments (new_handler command arguments) ≡ true
unfolding is_current
new_handler_current command arguments h =
    rw
      (
        new_handler_owned command arguments h,
        new_handler-arguments command arguments,
        same_texts_refl arguments,
      )
      (unfold new_handler get_field timeout_is_current in rw (eq_refl command))

-- All handlers of an event.
abbrev pub event_handlers : Option Json → List Json
event_handlers (some (array groups)) = flat groups
event_handlers _ = []

-- One handler of aiguard's, and a current one, among the others, which are as they were.
pub record IsInstalledIn (command : Str) (arguments : List Str) (before after : List Json)
    : Type 0 where
  pub own : Json
  pub one : keep_if is_owned after ≡ own ∷ []
  pub current : is_owned_current command arguments own ≡ true
  pub others : keep_if is_foreign after ≡ keep_if is_foreign before

module _ (command : Str) (arguments : List Str) (ours : is_aiguard_arguments arguments ≡ true) where
  merge_list-others :
      (found : Bool) (xs : List Json)
      → keep_if is_foreign (merge_list command arguments found xs) ≡ keep_if is_foreign xs
  unfolding merge_list keep_if is_owned
  merge_list-others found [] = refl
  merge_list-others found (x ∷ xs) =
      ground (
        arith,
        new_handler_owned command arguments ours,
        merge_list-others (found || is_owned x) xs,
      )

  merge_list-no_more :
      (xs : List Json) → keep_if is_owned (merge_list command arguments true xs) ≡ []
  unfolding merge_list keep_if
  merge_list-no_more [] = refl
  merge_list-no_more (x ∷ xs) = ground (arith, merge_list-no_more xs)

  kept_later :
      (x : Json) (xs : List Json) {l : List Json}
      → is_owned x ≡ false
      → keep_if is_owned (merge_list command arguments false xs) ≡ l
      → keep_if is_owned (merge_list command arguments false (x ∷ xs)) ≡ l
  unfolding merge_list keep_if
  kept_later x xs e h = rw (e, e) h

  merge_list-one :
      (xs : List Json)
      → any is_owned xs ≡ true
      → (own : Json) × (keep_if is_owned (merge_list command arguments false xs) ≡ own ∷ [])
        × (is_owned_current command arguments own ≡ true)
  unfolding any
  merge_list-one [] h = cc
  merge_list-one (x ∷ xs) h = elim (Bool-cases (is_owned x)) [
    | inl e ↦ elim (Bool-cases (is_owned_current command arguments x)) [
      | inl c ↦ (x, unfold merge_list keep_if in rw (e, c, merge_list-no_more xs, e), c)
      | inr c ↦ (
        object (new_handler command arguments),
        unfold merge_list keep_if is_owned in
            rw (e, c, new_handler_owned command arguments ours, merge_list-no_more xs),
        unfold is_owned_current in new_handler_current command arguments ours,
      )
    ]
    | inr e ↦
        let (own, one, current) = merge_list-one xs (rw e at h) in
        (own, kept_later x xs e one, current)
  ]

  none_owned :
      (xs : List Json)
      → any is_owned xs ≡ false
      → keep_if is_owned (merge_list command arguments false xs) ≡ []
  unfolding any merge_list keep_if
  none_owned [] h = refl
  none_owned (x ∷ xs) h = ground (arith, none_owned xs)

  pub IsInstalledIn-merged :
      (xs : List Json)
      → any is_owned xs ≡ true
      → IsInstalledIn command arguments xs (merge_list command arguments false xs)
  IsInstalledIn-merged xs h =
      let (own, one, current) = merge_list-one xs h in
      record { own = own; one = one; current = current; others = merge_list-others false xs }

  pub IsInstalledIn-added :
      (xs : List Json)
      → any is_owned xs ≡ false
      → IsInstalledIn command arguments xs
          (merge_list command arguments false xs ++ object (new_handler command arguments) ∷ [])
  IsInstalledIn-added xs h =
      let new = object (new_handler command arguments) in
      let merged = merge_list command arguments false xs in
      record {
        own = new;
        one =
            keep_if-append is_owned merged (new ∷ [])
            ∙ rw (none_owned xs h)
                (unfold keep_if is_owned in rw (new_handler_owned command arguments ours));
        current = unfold is_owned_current in new_handler_current command arguments ours;
        others =
            keep_if-append is_foreign merged (new ∷ [])
            ∙ rw (merge_list-others false xs) (
                unfold keep_if is_owned in
                rw (new_handler_owned command arguments ours) (append-nil (keep_if is_foreign xs)));
      }
