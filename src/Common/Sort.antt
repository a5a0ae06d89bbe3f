-- ===== src/Common/Sort.antt =====
-- `sort.SliceStable` and `sort.Strings`, as insertion sort: a stable sort by a strict weak order has
-- one result.
use casdoor_aiguard.Common.Lists.{All, keep_if}
use casdoor_aiguard.Common.Tests.{ltb, eqb, if◌then◌else◌, Bool-cases}
use casdoor_aiguard.Common.Text.{Str}
use mathlib.Core.Bool.{Bool, true, false, ◌&&◌, ◌||◌}
use mathlib.Core.List.Perm
use mathlib.Core.List.{List, [], ◌∷◌, Perm}
use mathlib.Core.Logic.{inl, inr}
use mathlib.Core.Path.{◌≡◌, refl, ◌∙◌}
use native.Mathlib.Omega.{arith}

keep_if-cons {ℓ} :
    {A : Type ℓ} (p : A → Bool) (x : A) (xs ys : List A)
    → keep_if p xs ≡ keep_if p ys
    → keep_if p (x ∷ xs) ≡ keep_if p (x ∷ ys)
unfolding keep_if
keep_if-cons p x xs ys e = ground (arith, e)

module _ {ℓ} {A : Type ℓ} (less : A → A → Bool) where
  unfoldable pub insert_by : A → List A → List A
  insert_by x [] = x ∷ []
  insert_by x (y ∷ ys) = if less y x then y ∷ insert_by x ys else x ∷ y ∷ ys

  unfoldable pub sort_by : List A → List A
  unfolding insert_by
  sort_by [] = []
  sort_by (x ∷ xs) = insert_by x (sort_by xs)

  -- No item is less than one that stands before it.
  abbrev pub IsSorted : List A → Type ℓ
  IsSorted [] = Unit
  IsSorted (x ∷ xs) = All (λ y. less y x ≡ false) xs × IsSorted xs

  insert_by-perm : (x : A) (ys : List A) → Perm (insert_by x ys) (x ∷ ys)
  unfolding insert_by
  insert_by-perm x [] = Perm.refl (x ∷ [])
  insert_by-perm x (y ∷ ys) = elim (Bool-cases (less y x)) [
    | inl e ↦ rw e (Perm.trans (Perm.cons y (insert_by-perm x ys)) (Perm.swap x y ys))
    | inr e ↦ rw e (Perm.refl (x ∷ y ∷ ys))
  ]

  -- Sorting permutes.
  pub sort_by-perm : (xs : List A) → Perm (sort_by xs) xs
  unfolding sort_by
  sort_by-perm [] = Perm.refl []
  sort_by-perm (x ∷ xs) = Perm.trans (insert_by-perm x (sort_by xs)) (Perm.cons x (sort_by-perm xs))

  All-insert_by : (P : A → Type 0) (x : A) (ys : List A) → P x → All P ys → All P (insert_by x ys)
  unfolding insert_by
  All-insert_by P x [] p h = (p, tt)
  All-insert_by P x (y ∷ ys) p (q, h) = elim (Bool-cases (less y x)) [
    | inl e ↦ rw e (q, All-insert_by P x ys p h)
    | inr e ↦ rw e (p, (q, h))
  ]

  -- What holds of every item holds of every item of the sorted list.
  pub sort_by-All : (P : A → Type 0) (xs : List A) → All P xs → All P (sort_by xs)
  unfolding sort_by
  sort_by-All P [] h = tt
  sort_by-All P (x ∷ xs) (p, h) = All-insert_by P x (sort_by xs) p (sort_by-All P xs h)

  pub record IsWeakOrder : Type ℓ where
    pub asymm : (x y : A) → less x y ≡ true → less y x ≡ false
    pub trans : (x y z : A) → less y x ≡ false → less z y ≡ false → less z x ≡ false

  module _ (w : IsWeakOrder) where
    All-below :
        (x y : A) (zs : List A)
        → less y x ≡ false
        → All (λ z. less z y ≡ false) zs
        → All (λ z. less z x ≡ false) zs
    All-below x y [] e h = tt
    All-below x y (z ∷ zs) e (q, h) = (w.trans x y z e q, All-below x y zs e h)

    insert_by-IsSorted : (x : A) (ys : List A) → IsSorted ys → IsSorted (insert_by x ys)
    unfolding insert_by
    insert_by-IsSorted x [] h = (tt, tt)
    insert_by-IsSorted x (y ∷ ys) (b, h) = elim (Bool-cases (less y x)) [
      | inl e ↦
          rw e (
            All-insert_by (λ z. less z y ≡ false) x ys (w.asymm y x e) b,
            insert_by-IsSorted x ys h,
          )
      | inr e ↦ rw e ((e, All-below x y ys e b), (b, h))
    ]

    pub sort_by-IsSorted : (xs : List A) → IsSorted (sort_by xs)
    unfolding sort_by
    sort_by-IsSorted [] = tt
    sort_by-IsSorted (x ∷ xs) = insert_by-IsSorted x (sort_by xs) (sort_by-IsSorted xs)

  module _ (p : A → Bool) (level : (x y : A) → p x ≡ true → p y ≡ true → less y x ≡ false) where
    keep_if-insert_by : (x : A) (ys : List A) → keep_if p (insert_by x ys) ≡ keep_if p (x ∷ ys)
    unfolding insert_by keep_if
    keep_if-insert_by x [] = refl
    keep_if-insert_by x (y ∷ ys) = ground (arith, level x y, keep_if-insert_by x ys)

    -- Items that the order does not tell apart keep their order.
    pub keep_if-sort_by : (xs : List A) → keep_if p (sort_by xs) ≡ keep_if p xs
    unfolding sort_by
    keep_if-sort_by [] = refl
    keep_if-sort_by (x ∷ xs) =
        keep_if-insert_by x (sort_by xs) ∙ keep_if-cons p x (sort_by xs) xs (keep_if-sort_by xs)

-- Byte-wise lexicographic order: Go's `<` on strings.
unfoldable pub str_lt : Str → Str → Bool
str_lt [] [] = false
str_lt [] (y ∷ t) = true
str_lt (x ∷ s) [] = false
str_lt (x ∷ s) (y ∷ t) = ltb x y || (eqb x y && str_lt s t)

str_lt-asymm : (s t : Str) → str_lt s t ≡ true → str_lt t s ≡ false
unfolding str_lt
str_lt-asymm [] [] h = refl
str_lt-asymm [] (y ∷ t) h = refl
str_lt-asymm (x ∷ s) [] h = cc
str_lt-asymm (x ∷ s) (y ∷ t) h = ground (arith, str_lt-asymm s t)

str_lt_trans : (s t u : Str) → str_lt t s ≡ false → str_lt u t ≡ false → str_lt u s ≡ false
unfolding str_lt
str_lt_trans [] [] u h k = k
str_lt_trans [] (y ∷ t) [] h k = refl
str_lt_trans [] (y ∷ t) (z ∷ u) h k = refl
str_lt_trans (x ∷ s) [] u h k = cc
str_lt_trans (x ∷ s) (y ∷ t) [] h k = cc
str_lt_trans (x ∷ s) (y ∷ t) (z ∷ u) h k = ground (arith, str_lt_trans s t u)

pub str_lt-IsWeakOrder : IsWeakOrder str_lt
str_lt-IsWeakOrder = record { asymm = str_lt-asymm; trans = str_lt_trans }

-- `sort.Strings`
unfoldable pub sort_strings : List Str → List Str
unfolding sort_by str_lt
sort_strings xs = sort_by str_lt xs
