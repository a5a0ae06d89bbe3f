-- ===== src/Patch/CodexToml/Kept/Resolved.antt =====
-- patch/codex_toml.go, `resolve`: the marks that it sets and the lines that it finds missing.
use casdoor_aiguard.Common.Text.{Str, is_empty}
use casdoor_aiguard.Common.{
  ℕ, ◌+◌, ◌≤◌, ◌<◌, Bool, false, ◌&&◌, Option, none, some, List, [], ◌∷◌, ◌++◌, ◌≡◌, refl, arith,
  eqb, ltb, leb, Bool-cases, inl, inr, ◌⊎◌, All, All-append,
}
use casdoor_aiguard.Patch.CodexToml.Document.{Document, Entry, entry_of}
use casdoor_aiguard.Patch.CodexToml.Edit.{
  Edit, Result, Setting, Work, ◌>>=◌, err, line_at, mark, ok, put_value, resolve, resolve_found,
}
use casdoor_aiguard.Patch.CodexToml.Value.{replace_toml_value}
use casdoor_aiguard.Patch.CodexToml.Kept.{
  Follows, IsDropped, IsNew, IsOf, assignment, set, touched-set_line, unset,
}

module _ (d : Document) (edit : Edit) where
  -- What `resolve` gives: marks that follow the edit, and new lines.
  abbrev pub Gives : Result (Work × List Str) → Type 0
  Gives (err e) = Unit
  Gives (ok (w, missing)) = Follows d edit w × All (IsNew d edit) missing

  put_value-Gives :
      (table : Str) (s : Setting) (e : Entry) (w : Work) (o : Option Str)
      → IsOf d edit table s
      → is_empty s.value ≡ false
      → entry_of table s.key d.entries ≡ some e
      → e.end_ ≡ e.start + 1
      → replace_toml_value (line_at e.start w.lines) s.value ≡ o
      → Follows d edit w
      → Gives (put_value table s e w o)
  unfolding put_value
  put_value-Gives table s e w none of full found single r h = tt
  put_value-Gives table s e w (some n) of full found single r h = (
    record {
      touched =
          touched-set_line d edit e.start 0 e.start n (omega arith) h.touched
            (λ l c. set table s e of full found refl single r c);
      removed = h.removed;
      inserted = h.inserted;
    },
    tt,
  )

  pub removed-mark :
      (start end_ : ℕ) (f : ℕ → Bool)
      → ((i : ℕ) → (leb start i && ltb i end_ ≡ false) ⊎ IsDropped d edit i)
      → ((i : ℕ) → (f i ≡ false) ⊎ IsDropped d edit i)
      → (i : ℕ) → (mark start end_ f i ≡ false) ⊎ IsDropped d edit i
  unfolding mark
  removed-mark start end_ f g h i = elim (g i) [ inr dropped ↦ inr dropped | inl e ↦ rw e (h i) ]

  pub span_cases :
      (start end_ i : ℕ) → (leb start i && ltb i end_ ≡ false) ⊎ ((start ≤ i) × (i < end_))
  span_cases start end_ i = elim (Bool-cases (leb start i && ltb i end_)) [
    | inl e ↦ inr (ground arith, ground arith)
    | inr e ↦ inl e
  ]

  resolve_found-Gives :
      (table : Str) (s : Setting) (w : Work) (o : Option Entry)
      → IsOf d edit table s
      → entry_of table s.key d.entries ≡ o
      → Follows d edit w
      → Gives (resolve_found table d.newline s w o)
  unfolding resolve_found
  resolve_found-Gives table s w none of found h = elim (Bool-cases (is_empty s.value)) [
    | inl e ↦ rw e (h, tt)
    | inr e ↦ rw e (h, (assignment table s of e (inl found), tt))
  ]
  resolve_found-Gives table s w (some e) of found h = elim (Bool-cases (is_empty s.value)) [
    | inl q ↦ rw q (
      record {
        touched = h.touched;
        removed =
            removed-mark e.start e.end_ w.removed
              (λ i. elim (span_cases e.start e.end_ i) [
                | inl out ↦ inl out
                | inr (a, b) ↦ inr (unset table s e of q found a b)
              ])
              h.removed;
        inserted = h.inserted;
      },
      tt,
    )
    | inr q ↦ elim (Bool-cases (eqb e.end_ (e.start + 1))) [
      | inl r ↦
          rw (q, r)
            (put_value-Gives table s e w (replace_toml_value (line_at e.start w.lines) s.value) of q
              found (ground arith) refl h)
      | inr r ↦ rw (q, r) tt
    ]
  ]

  Gives-more :
      (missing : List Str) (r : Result (Work × List Str))
      → All (IsNew d edit) missing
      → Gives r
      → Gives (r >>= λ p. ok (p.0, missing ++ p.1))
  Gives-more missing (err e) a g = tt
  Gives-more missing (ok (w, rest)) a (h, b) = (h, All-append (IsNew d edit) missing rest a b)

  pub resolve-Gives :
      (table : Str) (ss : List Setting) (w : Work)
      → All (IsOf d edit table) ss
      → Follows d edit w
      → Gives (resolve d table ss w)
  unfolding resolve
  resolve-Gives table [] w a h = (h, tt)
  resolve-Gives table (s ∷ ss) w (of, a) h =
      go (resolve_found table d.newline s w (entry_of table s.key d.entries))
        (resolve_found-Gives table s w (entry_of table s.key d.entries) of refl h)
        (λ w' h'. resolve-Gives table ss w' a h')
    where
      go :
          (r : Result (Work × List Str))
          → Gives r
          → ((w' : Work) → Follows d edit w' → Gives (resolve d table ss w'))
          → Gives (r >>= λ p. resolve d table ss p.0 >>= λ q. ok (q.0, p.1 ++ q.1))
      go (err e) g rec = tt
      go (ok (w', missing)) (h', new) rec =
          Gives-more missing (resolve d table ss w') new (rec w' h')
