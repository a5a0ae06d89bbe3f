-- ===== src/Record/Sessions/Titles.antt =====
-- object/record_store.go, SetSessionTitle: what a live title becomes.
use casdoor_aiguard.Common.Dict.{Dict, lookup, lookup-insert, lookup-erase}
use casdoor_aiguard.Common.Text.{Str, ◌==◌, trim_space}
use casdoor_aiguard.Common.{
  ℕ, zero, suc, ◌≤◌, ◌<◌, true, false, none, some, [], ◌++◌, ◌≡◌, refl, arith, ltb, length, take,
  length-append, length-take, if◌then◌else◌, Bool-cases, inl, inr, ◌⊎◌,
}
use casdoor_aiguard.Record.Sessions.{
  cut_title, rune_limit, set_session_title, starts_rune_at, title_room,
}
use casdoor_aiguard.Record.{max_record_title_bytes, title_mark}

-- The last start of a character up to a bound.
pub record IsLastStart (s : Str) (bound k : ℕ) : Type 0 where
  pub below : k ≤ bound
  pub starts : (k ≡ 0) ⊎ (starts_rune_at s k ≡ true)
  pub last : (j : ℕ) → (j ≤ k) ⊎ ((bound < j) ⊎ (starts_rune_at s j ≡ false))

widen :
    (s : Str) (n k j : ℕ)
    → starts_rune_at s (suc n) ≡ false
    → (j ≤ k) ⊎ ((n < j) ⊎ (starts_rune_at s j ≡ false))
    → (j ≤ k) ⊎ ((suc n < j) ⊎ (starts_rune_at s j ≡ false))
widen s n k j e (inl a) = inl a
widen s n k j e (inr (inr f)) = inr (inr f)
widen s n k j e (inr (inl b)) = elim (Bool-cases (ltb (suc n) j)) [
  | inl q ↦ inr (inl (ground arith))
  | inr q ↦ let same : j ≡ suc n = ground arith in inr (inr (rw same e))
]

rune_limit-IsLastStart : (s : Str) (n : ℕ) → IsLastStart s n (rune_limit s n)
unfolding rune_limit
rune_limit-IsLastStart s zero = record {
  below = omega arith;
  starts = inl refl;
  last = λ j. ground arith;
}
rune_limit-IsLastStart s (suc n) =
    let h = rune_limit-IsLastStart s n in
    elim (Bool-cases (starts_rune_at s (suc n))) [
      | inl e ↦ rw e (record { below = omega arith; starts = inr e; last = λ j. ground arith })
      | inr e ↦ rw e (record {
        below = omega (arith, h.below);
        starts = h.starts;
        last = λ j. widen s n (rune_limit s n) j e (h.last j);
      })
    ]

-- What a title is cut to.
pub data IsCut (s : Str) : Str → Type 0 where
  whole : length s ≤ max_record_title_bytes → IsCut s s
  short :
      (k : ℕ)
      → max_record_title_bytes < length s
      → IsLastStart s title_room k
      → IsCut s (take k s ++ title_mark)

cut_title-IsCut : (s : Str) → IsCut s (cut_title s)
unfolding cut_title
cut_title-IsCut s = elim (Bool-cases (ltb max_record_title_bytes (length s))) [
  | inl e ↦
      rw e (short (rune_limit s title_room) (ground arith) (rune_limit-IsLastStart s title_room))
  | inr e ↦ rw e (whole (ground arith))
]

IsCut-length : (s t : Str) → IsCut s t → length t ≤ max_record_title_bytes
IsCut-length s _ (whole h) = h
IsCut-length s _ (short k h l) =
    omega (arith, l.below, length-append (take k s) title_mark, length-take k s)

-- A live title is cut to the limit, mark included, at the last start of a character that leaves
-- room for the mark, unless it is within the limit. Setting one gives the session the cut of the
-- trimmed title, or none if that is empty, and leaves the titles of other sessions as they are.
pub set_session_title_lem :
    (k title j : Str) (titles : Dict Str)
    → IsCut (trim_space title) (cut_title (trim_space title))
      × (length (cut_title (trim_space title)) ≤ max_record_title_bytes)
      × (lookup j (set_session_title k title titles) ≡ (
          if k == j
          then (if cut_title (trim_space title) == []
              then none
              else some (cut_title (trim_space title)))
          else lookup j titles))
unfolding set_session_title
set_session_title_lem k title j titles =
    let cut = cut_title-IsCut (trim_space title) in
    (cut, IsCut-length (trim_space title) (cut_title (trim_space title)) cut, found)
  where
    found : lookup j (set_session_title k title titles) ≡ (
        if k == j
        then (if cut_title (trim_space title) == []
            then none
            else some (cut_title (trim_space title)))
        else lookup j titles)
    found = elim (Bool-cases (cut_title (trim_space title) == [])) [
      | inl e ↦ rw e (lookup-erase k j titles)
      | inr e ↦ rw e (lookup-insert k j (cut_title (trim_space title)) titles)
    ]
