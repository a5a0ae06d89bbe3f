-- ===== src/Record/Sessions/Groups.antt =====
-- object/record_store.go, ListSessions: the grouping of the records by session.
use casdoor_aiguard.Common.Dict.{Dict, lookup, insert, lookup-insert}
use casdoor_aiguard.Common.Text.{Str, ◌==◌, contains, eq_iff, eq_refl, Str-discrete}
use casdoor_aiguard.Common.{
  Bool, true, false, not, ◌||◌, Option, none, some, List, [], ◌∷◌, ◌++◌, ◌≡◌, ◌≢◌, refl, arith, any,
  is_nil, keep_if, append-nil, append_assoc, ap, ◌∙◌, sym, if◌then◌else◌, Bool-cases, inl, inr,
  subst,
}
use casdoor_aiguard.Record.Sessions.{Grouping, group_of, group_record, group_records, with_key}
use casdoor_aiguard.Record.{Record}

abbrev pub of_session : Str → Record → Bool
of_session k r = r.session_key == k

keep_if-snoc :
    (p : Record → Bool) (xs : List Record) (r : Record)
    → keep_if p (xs ++ r ∷ []) ≡ keep_if p xs ++ (if p r then r ∷ [] else [])
unfolding keep_if
keep_if-snoc p [] r = refl
keep_if-snoc p (x ∷ xs) r = ground (arith, keep_if-snoc p xs r)

pub is_nil-keep_if : (p : Record → Bool) (xs : List Record) → is_nil (keep_if p xs) ≡ not (any p xs)
unfolding keep_if any
is_nil-keep_if p [] = refl
is_nil-keep_if p (x ∷ xs) = ground (arith, is_nil-keep_if p xs)

contains-snoc : (ks : List Str) (k j : Str) → contains (ks ++ k ∷ []) j ≡ (contains ks j || k == j)
unfolding contains
contains-snoc [] k j = ground arith
contains-snoc (x ∷ ks) k j = ground (arith, contains-snoc ks k j)

-- No key stands twice.
abbrev pub IsNodup : List Str → Type 0
IsNodup [] = Unit
IsNodup (k ∷ ks) = (contains ks k ≡ false) × IsNodup ks

IsNodup-snoc :
    (ks : List Str) (k : Str) → contains ks k ≡ false → IsNodup ks → IsNodup (ks ++ k ∷ [])
unfolding contains
IsNodup-snoc [] k h n = (refl, tt)
IsNodup-snoc (x ∷ ks) k h (f, n) = (apart, IsNodup-snoc ks k later n)
  where
    later : contains ks k ≡ false
    later = ground (arith, h)

    apart : contains (ks ++ k ∷ []) x ≡ false
    apart = ground (arith, contains-snoc ks k x, f, h, eq_iff x k, eq_iff k x)

-- The group of a key, if it has one.
abbrev pub expected : Str → List Record → Option (List Record)
expected k g = if k == [] || is_nil g then none else some g

abbrev pub is_some {ℓ} : {A : Type ℓ} → Option A → Bool
is_some none = false
is_some (some a) = true

expected-skipped :
    (k : Str) (seen : List Record) (r : Record)
    → of_session k r ≡ false
    → expected k (keep_if (of_session k) (seen ++ r ∷ []))
      ≡ expected k (keep_if (of_session k) seen)
expected-skipped k seen r e =
    rw (keep_if-snoc (of_session k) seen r, e, append-nil (keep_if (of_session k) seen))

expected-added :
    (k : Str) (xs : List Record) (r : Record)
    → (k == []) ≡ false
    → expected k (xs ++ r ∷ []) ≡ some (xs ++ r ∷ [])
expected-added k [] r e = rw e
expected-added k (x ∷ xs) r e = rw e

-- The groups after the records `seen`.
pub record Grouped (seen : List Record) (g : Grouping) : Type 0 where
  pub groups : (k : Str) → lookup k g.groups ≡ expected k (keep_if (of_session k) seen)
  pub order : (k : Str) → contains g.order k ≡ is_some (lookup k g.groups)
  pub nodup : IsNodup g.order

group_of-expected :
    (k : Str) (groups : Dict (List Record)) (xs : List Record)
    → (k == []) ≡ false
    → lookup k groups ≡ expected k xs
    → group_of k groups ≡ xs
group_of-expected k groups [] e l = ap (λ o. elim o [ some g ↦ g | none ↦ [] ]) l ∙ rw e
group_of-expected k groups (x ∷ xs) e l = ap (λ o. elim o [ some g ↦ g | none ↦ [] ]) l ∙ rw e

expected_of_void :
    (k : Str) (xs ys : List Record) → (k == []) ≡ true → expected k xs ≡ expected k ys
expected_of_void k xs ys e = rw e

module _ (seen : List Record) (g : Grouping) (r : Record) (h : Grouped seen g) where
  -- A record outside any session changes no group.
  groups_without :
      (k : Str)
      → r.session_key ≡ []
      → lookup k g.groups ≡ expected k (keep_if (of_session k) (seen ++ r ∷ []))
  groups_without k e = elim (Bool-cases (k == [])) [
    | inl q ↦
        h.groups k
        ∙ expected_of_void k (keep_if (of_session k) seen) (keep_if (of_session k) (seen ++ r ∷ []))
            q
    | inr q ↦
        h.groups k
        ∙ sym
            (expected-skipped k seen r (ground (arith, e, q, eq_iff k [], eq_iff r.session_key k)))
  ]

  abbrev joined : List Record
  joined = group_of r.session_key g.groups ++ r ∷ []

  own_group :
      (r.session_key == []) ≡ false → keep_if (of_session r.session_key) (seen ++ r ∷ []) ≡ joined
  own_group e =
      keep_if-snoc (of_session r.session_key) seen r
      ∙ rw (eq_refl r.session_key) (
          ap (λ xs. xs ++ r ∷ [])
            (sym (
              group_of-expected r.session_key g.groups (keep_if (of_session r.session_key) seen) e
                (h.groups r.session_key))))

  own :
      (r.session_key == []) ≡ false
      → lookup r.session_key (insert r.session_key joined g.groups)
        ≡ expected r.session_key (keep_if (of_session r.session_key) (seen ++ r ∷ []))
  own e =
      lookup-insert r.session_key r.session_key joined g.groups
      ∙ rw (eq_refl r.session_key, own_group e)
          (sym (expected-added r.session_key (group_of r.session_key g.groups) r e))

  groups_with :
      (k : Str)
      → (r.session_key == []) ≡ false
      → lookup k (insert r.session_key joined g.groups)
        ≡ expected k (keep_if (of_session k) (seen ++ r ∷ []))
  groups_with k e = elim (Str-discrete r.session_key k) [
    | yes q ↦
        subst
          (λ j.
            lookup j (insert r.session_key joined g.groups)
            ≡ expected j (keep_if (of_session j) (seen ++ r ∷ [])))
          q (own e)
    | no n ↦
        lookup-insert r.session_key k joined g.groups
        ∙ rw (differs n) (h.groups k ∙ sym (expected-skipped k seen r (differs n)))
  ]
    where
      differs : r.session_key ≢ k → (r.session_key == k) ≡ false
      differs n = ground (arith, eq_iff r.session_key k)

module _ (g : Grouping) (key : Str) (xs : List Record)
    (order : (k : Str) → contains g.order k ≡ is_some (lookup k g.groups)) where
  order_is_kept :
      (k : Str) (o : Option (List Record))
      → lookup key g.groups ≡ o
      → contains (with_key o g.order key) k ≡ is_some (lookup k (insert key xs g.groups))
  order_is_kept k none n =
      rw (lookup-insert key k xs g.groups, contains-snoc g.order key k)
        (by_test (key == k) (contains g.order k) (lookup k g.groups) (order k))
    where
      by_test :
          (b c : Bool) (o : Option (List Record))
          → c ≡ is_some o
          → (c || b) ≡ is_some (if b then some xs else o)
      by_test true true o e = refl
      by_test true false o e = refl
      by_test false true o e = e
      by_test false false o e = e
  order_is_kept k (some ys) s = elim (Str-discrete key k) [
    | yes q ↦ rw (lookup-insert key k xs g.groups, order k, ← q, eq_refl key, s)
    | no d ↦ rw (lookup-insert key k xs g.groups, differs d) (order k)
  ]
    where
      differs : key ≢ k → (key == k) ≡ false
      differs d = ground (arith, eq_iff key k)

  order-IsNodup :
      (o : Option (List Record))
      → lookup key g.groups ≡ o
      → IsNodup g.order
      → IsNodup (with_key o g.order key)
  order-IsNodup none n h = IsNodup-snoc g.order key (order key ∙ ap is_some n) h
  order-IsNodup (some ys) s h = h

group_record-Grouped :
    (seen : List Record) (g : Grouping) (r : Record)
    → Grouped seen g
    → Grouped (seen ++ r ∷ []) (group_record r g)
unfolding group_record
group_record-Grouped seen g r h = elim (Bool-cases (r.session_key == [])) [
  | inl e ↦ rw e (record {
    groups = λ k. groups_without seen g r h k ((eq_iff r.session_key []).0 e);
    order = h.order;
    nodup = h.nodup;
  })
  | inr e ↦ rw e (record {
    groups = λ k. groups_with seen g r h k e;
    order = λ k. order_is_kept g r.session_key (joined seen g r h) h.order k _ refl;
    nodup = order-IsNodup g r.session_key (joined seen g r h) h.order _ refl h.nodup;
  })
]

pub group_records-Grouped :
    (rs seen : List Record) (g : Grouping)
    → Grouped seen g
    → Grouped (seen ++ rs) (group_records rs g)
unfolding group_records
group_records-Grouped [] seen g h = rw (append-nil seen) h
group_records-Grouped (r ∷ rs) seen g h =
    rw (← append_assoc seen (r ∷ []) rs) (
      group_records-Grouped rs (seen ++ r ∷ []) (group_record r g)
        (group_record-Grouped seen g r h))
