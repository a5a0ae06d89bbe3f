-- ===== src/Patch/ClaudeCode/Flat.antt =====
-- patch/claude_code.go: the handlers of an event in one list, and what the loops over groups make of
-- that list.
use casdoor_aiguard.Common.Text.{Str, codes, eq_refl}
use casdoor_aiguard.Common.{
  Bool, true, false, not, ◌&&◌, ◌||◌, Option, none, some, List, [], ◌∷◌, ◌++◌, ◌≡◌, refl, arith,
  any, ap, keep_if, sym, ◌∙◌, if◌then◌else◌, Bool-cases, Option-cases, inl, inr,
}
use casdoor_aiguard.Json.Laws.{get_field-set_field}
use casdoor_aiguard.Json.{Json, Items, null, boolean, number, string, array, object, nil, cons}
use casdoor_aiguard.Patch.ClaudeCode.Handlers.{is_owned, is_owned_current, new_handler}
use casdoor_aiguard.Patch.ClaudeCode.Install.{
  KeptGroups, KeptHandlers, handlers_of, is_nil_items, merge_groups, merge_handlers, merged_group,
  with_handlers,
}
use casdoor_aiguard.Patch.ClaudeCode.Remove.{Stripped, strip_groups, strip_handlers, stripped_group}

unfoldable pub listed : Items → List Json
listed nil = []
listed (cons x xs) = x ∷ listed xs

abbrev pub listed_in : Option Items → List Json
listed_in none = []
listed_in (some xs) = listed xs

unfoldable pub flat : Items → List Json
unfolding listed
flat nil = []
flat (cons raw rest) = listed_in (handlers_of raw) ++ flat rest

-- A handler that is not aiguard's.
abbrev pub is_foreign : Json → Bool
is_foreign h = not (is_owned h)

handlers_of-with_handlers :
    (raw : Json) (kept handlers : Items)
    → handlers_of raw ≡ some handlers
    → handlers_of (with_handlers kept raw) ≡ some kept
handlers_of-with_handlers (object group) kept handlers e =
    rw
      (
        get_field-set_field (codes "hooks") (codes "hooks") (array kept) group,
        eq_refl (codes "hooks"),
      )
      refl
handlers_of-with_handlers null kept handlers e = cc
handlers_of-with_handlers (boolean b) kept handlers e = cc
handlers_of-with_handlers (number n) kept handlers e = cc
handlers_of-with_handlers (string s) kept handlers e = cc
handlers_of-with_handlers (array xs) kept handlers e = cc

listed_nil : (xs : Items) → is_nil_items xs ≡ true → listed xs ≡ []
unfolding listed
listed_nil nil h = refl
listed_nil (cons x xs) h = cc

any_apart :
    (b : Bool) (xs ys : List Json)
    → (b || any is_owned (xs ++ ys)) ≡ ((b || any is_owned xs) || any is_owned ys)
unfolding any
any_apart b [] ys = ground arith
any_apart b (x ∷ xs) ys = ground (arith, any_apart (b || is_owned x) xs ys, any_apart b xs ys)

module _ (command : Str) (arguments : List Str) where
  -- What the merge makes of the handlers: the first owned one is current, no other is left.
  unfoldable pub merge_list : Bool → List Json → List Json
  merge_list found [] = []
  merge_list found (raw ∷ rest) =
      let more = merge_list (found || is_owned raw) rest in
      if not (is_owned raw)
      then raw ∷ more
      else if found
      then more
      else if is_owned_current command arguments raw
      then raw ∷ more
      else object (new_handler command arguments) ∷ more

  pub merge_list-append :
      (found : Bool) (xs ys : List Json)
      → merge_list found (xs ++ ys)
        ≡ merge_list found xs ++ merge_list (found || any is_owned xs) ys
  unfolding merge_list any
  merge_list-append found [] ys = ground arith
  merge_list-append found (x ∷ xs) ys =
      ground (arith, merge_list-append (found || is_owned x) xs ys)

  merge_handlers-kept :
      (found : Bool) (xs : Items)
      → listed (merge_handlers command arguments found xs).kept ≡ merge_list found (listed xs)
  unfolding merge_handlers merge_list listed
  merge_handlers-kept found nil = refl
  merge_handlers-kept found (cons x xs) =
      ground (arith, merge_handlers-kept (found || is_owned x) xs)

  merge_handlers-found :
      (found : Bool) (xs : Items)
      → (merge_handlers command arguments found xs).found ≡ (found || any is_owned (listed xs))
  unfolding merge_handlers any listed
  merge_handlers-found found nil = ground arith
  merge_handlers-found found (cons x xs) =
      ground (arith, merge_handlers-found (found || is_owned x) xs)

  merge_handlers-unchanged :
      (found : Bool) (xs : Items)
      → (merge_handlers command arguments found xs).changed ≡ false
      → (merge_handlers command arguments found xs).kept ≡ xs
  unfolding merge_handlers
  merge_handlers-unchanged found nil h = refl
  merge_handlers-unchanged found (cons x xs) h =
      ground (arith, merge_handlers-unchanged (found || is_owned x) xs)

  flat-merged_group :
      (raw : Json) (handlers : Items) (k : KeptHandlers) (more : KeptGroups)
      → handlers_of raw ≡ some handlers
      → (k.changed ≡ false → k.kept ≡ handlers)
      → flat (merged_group raw k more).groups ≡ listed k.kept ++ flat more.groups
  unfolding merged_group flat
  flat-merged_group raw handlers k more e same =
      elim (Bool-cases (is_nil_items k.kept && k.changed)) [
        | inl q ↦ rw (q, listed_nil k.kept (ground arith))
        | inr q ↦ elim (Bool-cases k.changed) [
          | inl c ↦ rw (q, c, handlers_of-with_handlers raw k.kept handlers e)
          | inr c ↦ rw (q, c, e, same c)
        ]
      ]

  pub flat-merge_groups :
      (found : Bool) (gs : Items)
      → flat (merge_groups command arguments found gs).groups ≡ merge_list found (flat gs)
  unfolding merge_groups flat
  flat-merge_groups found nil = unfold merge_list in refl
  flat-merge_groups found (cons raw rest) = elim (Option-cases (handlers_of raw)) [
    | inl e ↦ rw (e, merge_groups) (rw e (flat-merge_groups found rest))
    | inr (handlers, e) ↦
        rw (e, merge_groups)
          (let k = merge_handlers command arguments found handlers in
            flat-merged_group raw handlers k (merge_groups command arguments k.found rest) e
              (merge_handlers-unchanged found handlers)
            ∙ rw
                (
                  merge_handlers-kept found handlers,
                  flat-merge_groups k.found rest,
                  merge_handlers-found found handlers,
                )
                (sym (merge_list-append found (listed handlers) (flat rest))))
  ]

  merged_group-found :
      (raw : Json) (k : KeptHandlers) (more : KeptGroups)
      → (merged_group raw k more).found ≡ more.found
  unfolding merged_group
  merged_group-found raw k more = ground arith

  pub merge_groups-found :
      (found : Bool) (gs : Items)
      → (merge_groups command arguments found gs).found ≡ (found || any is_owned (flat gs))
  unfolding merge_groups flat
  merge_groups-found found nil = unfold any in ground arith
  merge_groups-found found (cons raw rest) = elim (Option-cases (handlers_of raw)) [
    | inl e ↦ rw (e, merge_groups) (merge_groups-found found rest)
    | inr (handlers, e) ↦
        rw (e, merge_groups)
          (let k = merge_handlers command arguments found handlers in
            merged_group-found raw k (merge_groups command arguments k.found rest)
            ∙ merge_groups-found k.found rest
            ∙ rw (merge_handlers-found found handlers)
                (sym (any_apart found (listed handlers) (flat rest))))
  ]

  pub merge_groups-unchanged :
      (found : Bool) (gs : Items)
      → (merge_groups command arguments found gs).changed ≡ false
      → (merge_groups command arguments found gs).groups ≡ gs
  unfolding merge_groups merged_group
  merge_groups-unchanged found nil h = refl
  merge_groups-unchanged found (cons raw rest) h = elim (Option-cases (handlers_of raw)) [
    | inl e ↦
        rw (e, merge_groups)
          (ap (cons raw) (merge_groups-unchanged found rest (rw (e, merge_groups) at h)))
    | inr (handlers, e) ↦
        rw (e, merge_groups)
          (let k = merge_handlers command arguments found handlers in
            whole raw k (merge_groups command arguments k.found rest) rest
              (merge_groups-unchanged k.found rest) (rw (e, merge_groups) at h))
  ]
    where
      whole :
          (raw : Json) (k : KeptHandlers) (more : KeptGroups) (rest : Items)
          → (more.changed ≡ false → more.groups ≡ rest)
          → (merged_group raw k more).changed ≡ false
          → (merged_group raw k more).groups ≡ cons raw rest
      whole raw k more rest f q = unfold merged_group in ground (arith, f)

pub keep_if-append :
    (p : Json → Bool) (xs ys : List Json) → keep_if p (xs ++ ys) ≡ keep_if p xs ++ keep_if p ys
unfolding keep_if
keep_if-append p [] ys = refl
keep_if-append p (x ∷ xs) ys = ground (arith, keep_if-append p xs ys)

strip_handlers-kept :
    (xs : Items) → listed (strip_handlers xs).kept ≡ keep_if is_foreign (listed xs)
unfolding strip_handlers keep_if listed
strip_handlers-kept nil = refl
strip_handlers-kept (cons x xs) = ground (arith, strip_handlers-kept xs)

strip_handlers-unchanged :
    (xs : Items) → (strip_handlers xs).changed ≡ false → (strip_handlers xs).kept ≡ xs
unfolding strip_handlers
strip_handlers-unchanged nil h = refl
strip_handlers-unchanged (cons x xs) h = ground (arith, strip_handlers-unchanged xs)

flat-stripped_group :
    (raw : Json) (handlers : Items) (s more : Stripped)
    → handlers_of raw ≡ some handlers
    → (s.changed ≡ false → s.kept ≡ handlers)
    → flat (stripped_group raw s more).kept ≡ listed s.kept ++ flat more.kept
unfolding stripped_group flat
flat-stripped_group raw handlers s more e same =
    elim (Bool-cases (is_nil_items s.kept && s.changed)) [
      | inl q ↦ rw (q, listed_nil s.kept (ground arith))
      | inr q ↦ elim (Bool-cases s.changed) [
        | inl c ↦ rw (q, c, handlers_of-with_handlers raw s.kept handlers e)
        | inr c ↦ rw (q, c, e, same c)
      ]
    ]

pub flat-strip_groups : (gs : Items) → flat (strip_groups gs).kept ≡ keep_if is_foreign (flat gs)
unfolding strip_groups flat
flat-strip_groups nil = unfold keep_if in refl
flat-strip_groups (cons raw rest) = elim (Option-cases (handlers_of raw)) [
  | inl e ↦ rw (e, strip_groups) (rw e (flat-strip_groups rest))
  | inr (handlers, e) ↦
      rw (e, strip_groups)
        (let s = strip_handlers handlers in
          flat-stripped_group raw handlers s (strip_groups rest) e
            (strip_handlers-unchanged handlers)
          ∙ rw (strip_handlers-kept handlers, flat-strip_groups rest)
              (sym (keep_if-append is_foreign (listed handlers) (flat rest))))
]

pub strip_groups-unchanged :
    (gs : Items) → (strip_groups gs).changed ≡ false → (strip_groups gs).kept ≡ gs
unfolding strip_groups
strip_groups-unchanged nil h = refl
strip_groups-unchanged (cons raw rest) h = elim (Option-cases (handlers_of raw)) [
  | inl e ↦
      rw (e, strip_groups) (ap (cons raw) (strip_groups-unchanged rest (rw (e, strip_groups) at h)))
  | inr (handlers, e) ↦
      rw (e, strip_groups)
        (whole raw (strip_handlers handlers) (strip_groups rest) rest (strip_groups-unchanged rest)
          (rw (e, strip_groups) at h))
]
  where
    whole :
        (raw : Json) (s more : Stripped) (rest : Items)
        → (more.changed ≡ false → more.kept ≡ rest)
        → (stripped_group raw s more).changed ≡ false
        → (stripped_group raw s more).kept ≡ cons raw rest
    whole raw s more rest f q = unfold stripped_group in ground (arith, f)
