-- ===== src/Patch/CodexToml/Kept.antt =====
-- patch/codex_toml.go, `apply`: what an edit makes of the lines of a document.
pub mod Resolved
pub mod Applied
pub mod Provided
pub mod Rendered
use casdoor_aiguard.Common.Text.{Str, codes, has_suffix, is_empty, trim_space}
use casdoor_aiguard.Common.{
  ℕ, zero, suc, ◌+◌, ◌-◌, ◌≤◌, ◌<◌, Bool, true, false, not, ◌&&◌, ◌||◌, Option, none, some, List,
  [], ◌∷◌, ◌++◌, ◌≡◌, refl, arith, eqb, ltb, leb, is_nil, length, if◌then◌else◌, Bool-cases,
  Option-cases, inl, inr, ◌⊎◌, All, Any, here, there, All-append, subst, sym,
}
use casdoor_aiguard.Patch.CodexToml.Document.{Document, Entry, Table, entry_of, is_blank, table_of}
use casdoor_aiguard.Patch.CodexToml.Edit.{
  Edit, Result, Setting, Work, ◌>>=◌, append_provider, apply, block_start, codex_provider_table,
  drop_table, err, insert_at, insert_missing, insert_root, line_at, mark, ok, provider_block,
  provider_lines, put_value, render, render_from, resolve, resolve_found, set_line, set_provider,
  setting_line, terminate_last_line, terminate_line, terminated, work_out,
}
use casdoor_aiguard.Patch.CodexToml.Lines.{concat}
use casdoor_aiguard.Patch.CodexToml.Value.{replace_toml_value}

module _ (d : Document) (edit : Edit) where
  -- The edit asks for a setting in a table.
  abbrev pub IsOf : Str → Setting → Type 0
  IsOf table s =
      ((table ≡ []) × Any (λ x. x ≡ s) edit.root)
      ⊎ ((table ≡ codex_provider_table) × Any (λ x. x ≡ s) edit.provider)

  -- What may become of a line that stays: its value is replaced, or, where it has no
  -- line feed at its end, it is given an ending.
  pub data Change (i : ℕ) (l : Str) : Str → Type 0 where
    kept : Change i l l
    ended :
        {m : Str} → has_suffix (codes "\n") m ≡ false → Change i l m → Change i l (m ++ d.newline)
    set :
        {m n : Str} (table : Str) (s : Setting) (e : Entry)
        → IsOf table s
        → is_empty s.value ≡ false
        → entry_of table s.key d.entries ≡ some e
        → e.start ≡ i
        → e.end_ ≡ i + 1
        → replace_toml_value m s.value ≡ some n
        → Change i l m
        → Change i l n

  -- Why a line is taken out: it holds an assignment that the edit removes, or it stands in the table
  -- that the edit drops, or it is a blank line right above that table.
  pub data IsDropped (i : ℕ) : Type 0 where
    unset :
        (table : Str) (s : Setting) (e : Entry)
        → IsOf table s
        → is_empty s.value ≡ true
        → entry_of table s.key d.entries ≡ some e
        → e.start ≤ i
        → i < e.end_
        → IsDropped i
    in_table :
        (t : Table)
        → edit.drop_provider_table ≡ true
        → table_of codex_provider_table d.tables ≡ some t
        → t.header ≤ i
        → i < t.end_
        → IsDropped i
    above_table :
        (t : Table)
        → edit.drop_provider_table ≡ true
        → table_of codex_provider_table d.tables ≡ some t
        → i < t.header
        → ((j : ℕ)
            → (j < i)
              ⊎ ((t.header ≤ j)
                  ⊎ ((m : Str) × Change j (line_at j d.lines) m × (is_blank m ≡ true))))
        → IsDropped i

  -- What a new line is: a setting that the document does not have, the head of the provider's table
  -- that it does not have, or a blank line.
  pub data IsNew : Str → Type 0 where
    assignment :
        (table : Str) (s : Setting)
        → IsOf table s
        → is_empty s.value ≡ false
        → (entry_of table s.key d.entries ≡ none)
          ⊎ ((table ≡ codex_provider_table) × (table_of codex_provider_table d.tables ≡ none))
        → IsNew (setting_line d.newline s)
    table_head :
        table_of codex_provider_table d.tables ≡ none
        → IsNew (codes "[" ++ (codex_provider_table ++ (codes "]" ++ d.newline)))
    blank : IsNew d.newline

  -- The lines that an edit gives, from the lines of the document from the i-th on.
  pub data Edited : ℕ → List Str → List Str → Type 0 where
    done : {i : ℕ} (new : List Str) → All IsNew new → Edited i [] new
    stays :
        {i : ℕ} {l m : Str} {ls out : List Str} (new : List Str)
        → All IsNew new
        → Change i l m
        → Edited (i + 1) ls out
        → Edited i (l ∷ ls) (new ++ m ∷ out)
    goes :
        {i : ℕ} {l : Str} {ls out : List Str} (new : List Str)
        → All IsNew new
        → IsDropped i
        → Edited (i + 1) ls out
        → Edited i (l ∷ ls) (new ++ out)

  -- Line by line, a change.
  pub data Touched : ℕ → List Str → List Str → Type 0 where
    none_left : {i : ℕ} → Touched i [] []
    next :
        {i : ℕ} {l m : Str} {ls ms : List Str}
        → Change i l m
        → Touched (i + 1) ls ms
        → Touched i (l ∷ ls) (m ∷ ms)

  -- How the marks stand to the edit at any point of `apply`.
  pub record Follows (w : Work) : Type 0 where
    pub touched : Touched 0 d.lines w.lines
    pub removed : (i : ℕ) → (w.removed i ≡ false) ⊎ IsDropped i
    pub inserted : (i : ℕ) → All IsNew (w.inserted i)

  pub Touched_refl : (i : ℕ) (ls : List Str) → Touched i ls ls
  Touched_refl i [] = none_left
  Touched_refl i (l ∷ ls) = next kept (Touched_refl (i + 1) ls)

  pub touched-set_line :
      (k i j : ℕ) (n : Str) {ls ms : List Str}
      → i + k ≡ j
      → Touched i ls ms
      → ((l : Str) → Change j l (line_at k ms) → Change j l n)
      → Touched i ls (set_line k n ms)
  unfolding set_line line_at
  touched-set_line k i j n e none_left f = none_left
  touched-set_line zero i j n e (next {l = l} {m = m} c t) f =
      let e' : i ≡ j = omega arith in
      next (subst (λ x. Change x l n) (sym e') (f l (subst (λ x. Change x l m) e' c))) t
  touched-set_line (suc k) i j n e (next c t) f =
      next c (touched-set_line k (i + 1) j n (omega arith) t f)

  pub touched-line_at :
      (k i j : ℕ) {ls ms : List Str}
      → i + k ≡ j
      → Touched i ls ms
      → Change j (line_at k ls) (line_at k ms)
  unfolding line_at
  touched-line_at k i j e none_left = kept
  touched-line_at zero i j e (next {l = l} {m = m} c t) =
      let e' : i ≡ j = omega arith in subst (λ x. Change x l m) e' c
  touched-line_at (suc k) i j e (next c t) = touched-line_at k (i + 1) j (omega arith) t

  Change-terminated : (j : ℕ) (l m : Str) → Change j l m → Change j l (terminated d.newline m)
  unfolding terminated
  Change-terminated j l m c = elim (Bool-cases (has_suffix (codes "\n") m)) [
    | inl e ↦ rw e c
    | inr e ↦ rw e (ended e c)
  ]

  pub touched-terminate_line :
      (k : ℕ) {ms : List Str}
      → Touched 0 d.lines ms
      → Touched 0 d.lines (terminate_line d.newline k ms)
  unfolding terminate_line
  touched-terminate_line k {ms} t =
      touched-set_line k 0 k (terminated d.newline (line_at k ms)) (omega arith) t
        (λ l c. Change-terminated k l (line_at k ms) c)

  pub touched-terminate_last_line :
      {ms : List Str} → Touched 0 d.lines ms → Touched 0 d.lines (terminate_last_line d.newline ms)
  unfolding terminate_last_line
  touched-terminate_last_line {ms = []} t = t
  touched-terminate_last_line {ms = m ∷ ms} t = touched-terminate_line (length (m ∷ ms) - 1) t

  pub inserted-insert_at :
      (at : ℕ) (new : List Str) (ins : ℕ → List Str)
      → All IsNew new
      → ((i : ℕ) → All IsNew (ins i))
      → (i : ℕ) → All IsNew (insert_at at new ins i)
  unfolding insert_at
  inserted-insert_at at new ins a f i = elim (Bool-cases (eqb i at)) [
    | inl e ↦ rw e (All-append IsNew (ins i) new (f i) a)
    | inr e ↦ rw e (f i)
  ]
