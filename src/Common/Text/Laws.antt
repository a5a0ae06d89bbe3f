-- ===== src/Common/Text/Laws.antt =====
-- Laws of the text functions.
use mathlib.Core.Path.{◌≡◌, refl}
use mathlib.Core.Logic.{◌↔◌, inl, inr}
use mathlib.Core.Bool.{true}
use mathlib.Core.List.{List, [], ◌∷◌}
use native.Mathlib.Omega.{arith}
use casdoor_aiguard.Common.Tests.{Bool-cases}
use casdoor_aiguard.Common.Lists.{Any, here, there}
use casdoor_aiguard.Common.Text.Search.{Str, ◌==◌, contains}

pub eq_refl : (s : Str) → (s == s) ≡ true
unfolding ◌==◌
eq_refl [] = refl
eq_refl (x ∷ xs) = ground (arith, eq_refl xs)

eq_of_eq : (s t : Str) → (s == t) ≡ true → s ≡ t
unfolding ◌==◌
eq_of_eq [] [] h = refl
eq_of_eq [] (y ∷ t) h = cc
eq_of_eq (x ∷ s) [] h = cc
eq_of_eq (x ∷ s) (y ∷ t) h = ground (arith, eq_of_eq s t)

eq_of_path : (s t : Str) → s ≡ t → (s == t) ≡ true
eq_of_path s t e = rw e (eq_refl t)

pub eq_iff : (s t : Str) → ((s == t) ≡ true) ↔ (s ≡ t)
eq_iff s t = (eq_of_eq s t, eq_of_path s t)

pub Str-discrete : Discrete Str
Str-discrete s t = elim (Bool-cases (s == t)) [
  | inl e ↦ yes (eq_of_eq s t e)
  | inr e ↦ no (λ p. ground (arith, eq_of_path s t))
]

Any-of_contains : (l : List Str) (v : Str) → contains l v ≡ true → Any (λ item. item ≡ v) l
unfolding contains
Any-of_contains [] v h = cc
Any-of_contains (x ∷ l) v h = elim (Bool-cases (x == v)) [
  | inl e ↦ here (eq_of_eq x v e)
  | inr e ↦ there (Any-of_contains l v (ground arith))
]

contains_of_Any : (l : List Str) (v : Str) → Any (λ item. item ≡ v) l → contains l v ≡ true
unfolding contains
contains_of_Any [] v a = elim a [ ]
contains_of_Any (x ∷ l) v (here e) = ground (arith, eq_iff x v)
contains_of_Any (x ∷ l) v (there a) = ground (arith, contains_of_Any l v a)

-- `slices.Contains` finds an item exactly when one is there.
pub contains_iff : (l : List Str) (v : Str) → (contains l v ≡ true) ↔ Any (λ item. item ≡ v) l
contains_iff l v = (Any-of_contains l v, contains_of_Any l v)
