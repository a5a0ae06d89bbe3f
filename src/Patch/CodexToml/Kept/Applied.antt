-- ===== src/Patch/CodexToml/Kept/Applied.antt =====
-- patch/codex_toml.go, the steps of `apply`: what they leave.
use casdoor_aiguard.Common.Text.{Str}
use casdoor_aiguard.Common.{
  ℕ, zero, suc, ◌+◌, ◌≤◌, ◌<◌, Bool, true, false, Option, none, some, List, [], ◌∷◌, ◌++◌, ◌≡◌,
  arith, eqb, ltb, length, Bool-cases, inl, inr, All, All-append,
}
use casdoor_aiguard.Patch.CodexToml.Document.{Document, Table, is_blank, table_of}
use casdoor_aiguard.Patch.CodexToml.Edit.{
  Edit, Work, root_insert_point, block_start, codex_provider_table, drop_table, insert_at,
  insert_missing, insert_root, line_at, terminate_last_line, terminate_line,
}
use casdoor_aiguard.Patch.CodexToml.Kept.{
  Follows, IsDropped, IsNew, Touched, blank, in_table, inserted-insert_at, touched-line_at,
  touched-terminate_last_line, touched-terminate_line, above_table,
}
use casdoor_aiguard.Patch.CodexToml.Kept.Resolved.{removed-mark, span_cases}

module _ (d : Document) (edit : Edit) where
  block_start_blank :
      (ls : List Str) (n j : ℕ) → block_start ls n ≤ j → j < n → is_blank (line_at j ls) ≡ true
  unfolding block_start
  block_start_blank ls zero j a b = absurd (omega arith)
  block_start_blank ls (suc n) j a b = elim (Bool-cases (is_blank (line_at n ls))) [
    | inl e ↦ elim (Bool-cases (ltb j n)) [
      | inl q ↦ block_start_blank ls n j (ground (arith, a, e)) (ground arith)
      | inr q ↦ let same : j ≡ n = ground arith in rw same e
    ]
    | inr e ↦ absurd (ground (arith, a, e))
  ]

  IsDropped-in_block :
      (w : Work) (t : Table) (i : ℕ)
      → edit.drop_provider_table ≡ true
      → table_of codex_provider_table d.tables ≡ some t
      → Touched d edit 0 d.lines w.lines
      → block_start w.lines t.header ≤ i
      → i < t.end_
      → IsDropped d edit i
  IsDropped-in_block w t i asked found touched a b = elim (Bool-cases (ltb i t.header)) [
    | inl q ↦ above_table t asked found (ground arith) (λ j. elim (Bool-cases (ltb j i)) [
      | inl r ↦ inl (ground arith)
      | inr r ↦ elim (Bool-cases (ltb j t.header)) [
        | inl v ↦ inr (
            inr (
              line_at j w.lines,
              touched-line_at d edit j 0 j (omega arith) touched,
              block_start_blank w.lines t.header j (ground arith) (ground arith),
            ))
        | inr v ↦ inr (inl (ground arith))
      ]
    ])
    | inr q ↦ in_table t asked found (ground arith) b
  ]

  pub drop_table-Follows :
      (b : Bool) (o : Option Table) (w : Work)
      → edit.drop_provider_table ≡ b
      → table_of codex_provider_table d.tables ≡ o
      → Follows d edit w
      → Follows d edit (drop_table b o w)
  unfolding drop_table
  drop_table-Follows false none w asked found h = h
  drop_table-Follows false (some t) w asked found h = h
  drop_table-Follows true none w asked found h = h
  drop_table-Follows true (some t) w asked found h = record {
    touched = h.touched;
    removed =
        removed-mark d edit (block_start w.lines t.header) t.end_ w.removed
          (λ i. elim (span_cases d edit (block_start w.lines t.header) t.end_ i) [
            | inl out ↦ inl out
            | inr (a, b) ↦ inr (IsDropped-in_block w t i asked found h.touched a b)
          ])
          h.removed;
    inserted = h.inserted;
  }

  pub with_inserted :
      (w : Work) (ls : List Str) (at : ℕ) (new : List Str)
      → Follows d edit w
      → Touched d edit 0 d.lines ls
      → All (IsNew d edit) new
      → Follows d edit (record w { lines = ls; inserted = insert_at at new w.inserted })
  with_inserted w ls at new h touched a = record {
    touched = touched;
    removed = h.removed;
    inserted = inserted-insert_at d edit at new w.inserted a h.inserted;
  }

  pub insert_missing-Follows :
      (header : ℕ) (w : Work) (missing : List Str)
      → Follows d edit w
      → All (IsNew d edit) missing
      → Follows d edit (insert_missing d.newline header (w, missing))
  unfolding insert_missing
  insert_missing-Follows header w [] h a = h
  insert_missing-Follows header w (x ∷ xs) h a =
      with_inserted w (terminate_line d.newline header w.lines) (header + 1) (x ∷ xs) h
        (touched-terminate_line d edit header h.touched) a

  pub insert_root-Follows :
      (missing : List Str) (w : Work)
      → Follows d edit w
      → All (IsNew d edit) missing
      → Follows d edit (insert_root d missing w)
  unfolding insert_root
  insert_root-Follows [] w h a = h
  insert_root-Follows (x ∷ xs) w h a =
      let at = root_insert_point w.lines d.root_end in
      elim (Bool-cases (eqb at (length w.lines))) [
        | inl e ↦ rw e (
            with_inserted w (terminate_last_line d.newline w.lines) at (x ∷ xs) h
              (touched-terminate_last_line d edit h.touched) a)
        | inr e ↦ elim (Bool-cases (is_blank (line_at at w.lines))) [
          | inl q ↦ rw (e, q) (with_inserted w w.lines at (x ∷ xs) h h.touched a)
          | inr q ↦
              rw (e, q)
                (with_inserted w w.lines at ((x ∷ xs) ++ d.newline ∷ []) h h.touched
                  (All-append (IsNew d edit) (x ∷ xs) (d.newline ∷ []) a (blank, tt)))
        ]
      ]
