-- ===== src/Record/Sessions/Listing.antt =====
-- object/record_store.go, ListSessions: what the list of sessions says of the records.
use casdoor_aiguard.Common.Dict.{Dict, lookup}
use casdoor_aiguard.Common.Text.{Str, ◌==◌, contains, eq_refl}
use casdoor_aiguard.Common.{
  Bool, true, false, not, ◌&&◌, ◌||◌, none, some, List, [], ◌∷◌, ◌≡◌, refl, arith, All, any, is_nil,
  keep_if, map, ap, ◌∙◌, sym, Bool-cases, inl, inr,
}
use mathlib.Core.Path.{ap₂}
use casdoor_aiguard.Record.Sessions.Groups.{
  Grouped, IsNodup, expected, group_records-Grouped, is_nil-keep_if, is_some, of_session,
}
use casdoor_aiguard.Record.Sessions.{
  Grouping, SessionSummary, group_of, list_sessions, summarize, summarize_all,
}
use casdoor_aiguard.Record.{Record}

no_groups : Grouped [] (record { order = []; groups = [] })
unfolding keep_if contains lookup
no_groups = record { groups = λ k. ground arith; order = λ k. refl; nodup = tt }

All-of_contains :
    (P : Str → Type 0) (ks : List Str) → ((k : Str) → contains ks k ≡ true → P k) → All P ks
unfolding contains
All-of_contains P [] h = tt
All-of_contains P (k ∷ ks) h =
    (h k (rw (eq_refl k)), All-of_contains P ks (λ j e. h j (rw e (or_true (k == j)))))
  where
    or_true : (b : Bool) → (b || true) ≡ true
    or_true true = refl
    or_true false = refl

module _ (all : List Record) (titles : Dict Str) where
  abbrev own : Str → List Record
  own k = keep_if (of_session k) all

  -- A summary is that of the records of its key, of which there are some.
  abbrev pub Sums : SessionSummary → Type 0
  Sums s = summarize s.session_key (keep_if (of_session s.session_key) all) titles ≡ some s

  -- What a list of sessions is, of all records.
  pub record IsListing (ss : List SessionSummary) : Type 0 where
    pub once : IsNodup (map SessionSummary.session_key ss)
    pub covers :
        (k : Str)
        → contains (map SessionSummary.session_key ss) k ≡ (not (k == []) && any (of_session k) all)
    pub sums : All Sums ss

  -- The group of a key is there, and is that of all its records.
  record Has (groups : Dict (List Record)) (k : Str) : Type 0 where
    first : Record
    rest : List Record
    found : group_of k groups ≡ first ∷ rest
    kept : own k ≡ first ∷ rest

  none_expected : (k : Str) → is_some (expected k []) ≡ false
  none_expected k = elim (Bool-cases (k == [])) [ inl e ↦ rw e | inr e ↦ rw e ]

  false≢true : {b : Bool} → b ≡ false → b ≡ true → ⊥
  false≢true e f = cc (e, f)

  Has-expected :
      (groups : Dict (List Record)) (k : Str) (xs : List Record)
      → own k ≡ xs
      → lookup k groups ≡ expected k xs
      → is_some (lookup k groups) ≡ true
      → Has groups k
  Has-expected groups k [] o l s = absurd (false≢true (none_expected k) (sym (ap is_some l) ∙ s))
  Has-expected groups k (x ∷ xs) o l s = elim (Bool-cases (k == [])) [
    | inl e ↦ absurd (false≢true (rw e) (sym (ap is_some l) ∙ s))
    | inr e ↦ record {
      first = x;
      rest = xs;
      found = ap (λ o. elim o [ some g ↦ g | none ↦ [] ]) l ∙ rw e;
      kept = o;
    }
  ]

  has_summary :
      (k : Str) (first : Record) (rest : List Record)
      → (s : SessionSummary) × (summarize k (first ∷ rest) titles ≡ some s) × (s.session_key ≡ k)
  unfolding summarize
  has_summary k first rest = (_, refl, refl)

  summarize_all-cons :
      (groups : Dict (List Record)) (k : Str) (ks : List Str) (g : List Record) (s : SessionSummary)
      (ss : List SessionSummary)
      → group_of k groups ≡ g
      → summarize k g titles ≡ some s
      → summarize_all ks groups titles ≡ some ss
      → summarize_all (k ∷ ks) groups titles ≡ some (s ∷ ss)
  unfolding summarize_all
  summarize_all-cons groups k ks g s ss f e m =
      ap
        (λ x. elim (summarize k x titles) [
          | none ↦ none
          | some a ↦ elim (summarize_all ks groups titles) [
            | none ↦ none
            | some as' ↦ some (a ∷ as')
          ]
        ])
        f
      ∙ rw (e, m)

  summarized :
      (groups : Dict (List Record)) (ks : List Str)
      → All (Has groups) ks
      → (ss : List SessionSummary) × (summarize_all ks groups titles ≡ some ss)
        × (map SessionSummary.session_key ss ≡ ks)
        × All Sums ss
  unfolding summarize_all
  summarized groups [] h = ([], refl, refl, tt)
  summarized groups (k ∷ ks) (q, h) =
      let (ss, e, m, a) = summarized groups ks h in
      let (s, f, i) = has_summary k q.first q.rest in
      (
        s ∷ ss,
        summarize_all-cons groups k ks (q.first ∷ q.rest) s ss q.found f e,
        ap₂ (◌∷◌) i m,
        (rw (i, q.kept) f, a),
      )

  is_some-expected :
      (k : Str) (xs : List Record) → is_some (expected k xs) ≡ (not (k == []) && not (is_nil xs))
  is_some-expected k xs = ground arith

  occurs :
      (k : Str)
      → (not (k == []) && not (is_nil (own k))) ≡ (not (k == []) && any (of_session k) all)
  occurs k = rw (is_nil-keep_if (of_session k) all, not_not (any (of_session k) all))
    where
      not_not : (b : Bool) → not (not b) ≡ b
      not_not true = refl
      not_not false = refl

  listed :
      (g : Grouping)
      → Grouped all g
      → (ss : List SessionSummary) × (summarize_all g.order g.groups titles ≡ some ss)
        × IsListing ss
  listed g h =
      let has : All (Has g.groups) g.order =
        All-of_contains (Has g.groups) g.order
          (λ k c. Has-expected g.groups k (own k) refl (h.groups k) (sym (h.order k) ∙ c)) in
      let (ss, e, m, a) = summarized g.groups g.order has in
      (
        ss,
        e,
        record {
          once = rw m h.nodup;
          covers = λ k.
              rw m (h.order k ∙ ap is_some (h.groups k) ∙ is_some-expected k (own k) ∙ occurs k);
          sums = a;
        },
      )

  -- The list of sessions never fails. It has one summary for each session key, the empty one apart,
  -- that a record carries, and none for another; and each summary is that of all records of its key:
  -- their number, how many of them were blocked, the times of the first and last, and their title.
  pub list_sessions-IsListing :
      (ss : List SessionSummary) × (list_sessions all titles ≡ some ss) × IsListing ss
  unfolding list_sessions
  list_sessions-IsListing = listed _ (group_records-Grouped all [] _ no_groups)
