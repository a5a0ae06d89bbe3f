-- ===== src/Patch/CodexToml/Whole.antt =====
-- patch/codex_toml.go, `splitTOMLLines`: the lines of a document put together again.
use casdoor_aiguard.Common.Text.{Str}
use casdoor_aiguard.Common.{
  ℕ, false, List, [], ◌∷◌, ◌++◌, ◌≡◌, refl, arith, eqb, ap, ◌∙◌, Bool-cases, inl, inr,
}
use casdoor_aiguard.Patch.CodexToml.Lines.{
  concat, push_front, split_after, split_toml_lines, without_empty_last,
}

-- A line ends at its first line feed.
pub data IsLine : Str → Type 0 where
  feed : IsLine (b'\n' ∷ [])
  byte : (c : ℕ) {s : Str} → eqb c b'\n' ≡ false → IsLine s → IsLine (c ∷ s)

-- The rest of a document, without a line feed.
pub data IsOpen : Str → Type 0 where
  nothing : IsOpen []
  byte : (c : ℕ) {s : Str} → eqb c b'\n' ≡ false → IsOpen s → IsOpen (c ∷ s)

-- Lines, of which only the last may lack its line feed, and none is empty.
pub data AreLines : List Str → Type 0 where
  no_lines : AreLines []
  last_open : (c : ℕ) {s : Str} → IsOpen (c ∷ s) → AreLines ((c ∷ s) ∷ [])
  line : {l : Str} {ls : List Str} → IsLine l → AreLines ls → AreLines (l ∷ ls)

concat-push_front : (c : ℕ) (ps : List Str) → concat (push_front c ps) ≡ c ∷ concat ps
unfolding concat
concat-push_front c [] = refl
concat-push_front c (p ∷ ps) = refl

concat-split_after : (s : Str) → concat (split_after s) ≡ s
unfolding split_after
concat-split_after [] = unfold concat in refl
concat-split_after (c ∷ s) = elim (Bool-cases (eqb c b'\n')) [
  | inl e ↦ rw e (fed (split_after s) (concat-split_after s))
  | inr e ↦ rw e (concat-push_front c (split_after s) ∙ ap (◌∷◌ c) (concat-split_after s))
]
  where
    fed : (ps : List Str) → concat ps ≡ s → concat ((c ∷ []) ∷ ps) ≡ c ∷ s
    fed ps h = unfold concat in ap (◌∷◌ c) h

concat-without_empty_last : (ls : List Str) → concat (without_empty_last ls) ≡ concat ls
unfolding concat without_empty_last
concat-without_empty_last [] = refl
concat-without_empty_last ([] ∷ []) = refl
concat-without_empty_last ((c ∷ s) ∷ []) = refl
concat-without_empty_last (x ∷ y ∷ ls) = ap (◌++◌ x) (concat-without_empty_last (y ∷ ls))

pub concat-split_toml_lines : (s : Str) → concat (split_toml_lines s) ≡ s
unfolding split_toml_lines
concat-split_toml_lines [] = unfold concat in refl
concat-split_toml_lines (c ∷ s) =
    concat-without_empty_last (split_after (c ∷ s)) ∙ concat-split_after (c ∷ s)

-- What `strings.SplitAfter` gives: lines, and behind them what follows the last line feed.
data AreParts : List Str → Type 0 where
  last : {s : Str} → IsOpen s → AreParts (s ∷ [])
  more : {l m : Str} {ls : List Str} → IsLine l → AreParts (m ∷ ls) → AreParts (l ∷ m ∷ ls)

push_front-AreParts :
    (c : ℕ) (ps : List Str) → eqb c b'\n' ≡ false → AreParts ps → AreParts (push_front c ps)
push_front-AreParts c [] e h = elim h [ ]
push_front-AreParts c (p ∷ []) e (last o) = last (byte c e o)
push_front-AreParts c (p ∷ m ∷ ls) e (more l h) = more (byte c e l) h

feed-AreParts : (c : ℕ) (ps : List Str) → c ≡ b'\n' → AreParts ps → AreParts ((c ∷ []) ∷ ps)
feed-AreParts c [] e h = elim h [ ]
feed-AreParts c (m ∷ ls) e h = rw e (more feed h)

split_after-AreParts : (s : Str) → AreParts (split_after s)
unfolding split_after
split_after-AreParts [] = last nothing
split_after-AreParts (c ∷ s) = elim (Bool-cases (eqb c b'\n')) [
  | inl e ↦ rw e (feed-AreParts c (split_after s) (ground (arith, e)) (split_after-AreParts s))
  | inr e ↦ rw e (push_front-AreParts c (split_after s) e (split_after-AreParts s))
]

without_empty_last-AreLines : (ps : List Str) → AreParts ps → AreLines (without_empty_last ps)
unfolding without_empty_last
without_empty_last-AreLines [] h = elim h [ ]
without_empty_last-AreLines ([] ∷ []) h = no_lines
without_empty_last-AreLines ((c ∷ s) ∷ []) (last o) = last_open c o
without_empty_last-AreLines (l ∷ m ∷ ls) (more i h) =
    line i (without_empty_last-AreLines (m ∷ ls) h)

pub split_toml_lines-AreLines : (s : Str) → AreLines (split_toml_lines s)
unfolding split_toml_lines
split_toml_lines-AreLines [] = no_lines
split_toml_lines-AreLines (c ∷ s) =
    without_empty_last-AreLines (split_after (c ∷ s)) (split_after-AreParts (c ∷ s))
