-- ===== src/Patch/CodexToml/Located.antt =====
-- patch/codex_toml.go, `parseCodexTOML`: where the tables and assignments of a document are.
pub mod Parsed
use casdoor_aiguard.Common.Text.{Str}
use casdoor_aiguard.Common.{
  ℕ, zero, suc, ◌+◌, ◌≤◌, ◌<◌, Bool, true, false, Option, none, some, List, [], ◌∷◌, ◌++◌, ◌≡◌,
  refl, arith, length, All, Any, here, there, All-append, inl, inr, ◌⊎◌, Bool-cases, drop, sym, ◌∙◌,
  ap, subst,
}
use casdoor_aiguard.Patch.CodexToml.Document.{
  Document, Entry, Parse, Table, add_entry, append_table, first_header, is_blank_or_comment, label,
  locate, open_table, parse_from, parse_line, parse_round, read_line, value_lines,
}
use casdoor_aiguard.Patch.CodexToml.Edit.{line_at}
use casdoor_aiguard.Patch.CodexToml.Lines.{body_of, split_toml_lines}
use casdoor_aiguard.Patch.CodexToml.Scan.{
  ScanState, continuing, scan_toml_value, toml_assignment, toml_table_header,
}

-- The tables share out the lines from the end of the root's region to the last, none left over.
abbrev pub Regions : ℕ → ℕ → List Table → Type 0
Regions a b [] = a ≡ b
Regions a b (t ∷ ts) = (t.header ≡ a) × (t.header < t.end_) × Regions t.end_ b ts

-- The assignments stand one behind the other, none empty.
abbrev pub Spans : ℕ → ℕ → List Entry → Type 0
Spans a b [] = a ≤ b
Spans a b (e ∷ es) = (a ≤ e.start) × (e.start < e.end_) × Spans e.end_ b es

pub record Houses (e : Entry) (t : Table) : Type 0 where
  pub named : label t.name t.is_array ≡ e.table
  pub below : t.header < e.start
  pub within : e.end_ ≤ t.end_

-- An assignment stands in the root's region, or in that of a table of its name.
abbrev pub Housed : ℕ → List Table → Entry → Type 0
Housed root_end tables e = ((e.table ≡ []) × (e.end_ ≤ root_end)) ⊎ Any (Houses e) tables

-- Its first line assigns its key.
abbrev pub Reads : List Str → Entry → Type 0
Reads lines e =
    (value_start : ℕ) × (toml_assignment (body_of (line_at e.start lines))
      ≡ some (e.key, value_start))

pub record IsLocated (d : Document) : Type 0 where
  pub regions : Regions d.root_end (length d.lines) d.tables
  pub spans : Spans 0 (length d.lines) d.entries
  pub housed : All (Housed d.root_end d.tables) d.entries
  pub reads : All (Reads d.lines) d.entries

-- The table that the next assignment belongs to.
abbrev pub Current : Str → ℕ → List Table → Type 0
Current table index [] = table ≡ []
Current table index (t ∷ []) = (label t.name t.is_array ≡ table) × (t.header < index)
Current table index (t ∷ u ∷ ts) = Current table index (u ∷ ts)

-- What holds at the head of each round.
pub record Inv (full : List Str) (count index : ℕ) (p : Parse) : Type 0 where
  pub bound : index + p.pass ≤ count
  pub regions : Regions p.root_end count p.tables
  pub current : Current p.table index p.tables
  pub spans : Spans 0 (index + p.pass) p.entries
  pub housed : All (Housed p.root_end p.tables) p.entries
  pub reads : All (Reads full) p.entries

pub Current-later :
    (table : Str) (index : ℕ) (ts : List Table)
    → Current table index ts
    → Current table (index + 1) ts
Current-later table index [] h = h
Current-later table index (t ∷ []) (a, b) = (a, omega arith)
Current-later table index (t ∷ u ∷ ts) h = Current-later table index (u ∷ ts) h

pub Current-append_table :
    (t : Table) (ts : List Table)
    → Current (label t.name t.is_array) (t.header + 1) (append_table t ts)
unfolding append_table
Current-append_table t [] = (refl, omega arith)
Current-append_table t (u ∷ []) = (refl, omega arith)
Current-append_table t (u ∷ v ∷ []) = (refl, omega arith)
Current-append_table t (u ∷ v ∷ w ∷ ts) = Current-append_table t (v ∷ w ∷ ts)

pub Regions-append_table :
    (a count : ℕ) (table : Str) (t : Table) (ts : List Table)
    → Current table t.header ts
    → t.header < count
    → t.end_ ≡ count
    → Regions a count ts
    → Regions (first_header t.header a ts) count (append_table t ts)
unfolding append_table
Regions-append_table a count table t [] c lt e h = (refl, omega arith, e)
Regions-append_table a count table t (u ∷ []) c lt e h = (h.0, c.1, (refl, omega arith, e))
Regions-append_table a count table t (u ∷ v ∷ ts) c lt e (h, k, r) =
    (h, k, Regions-append_table u.end_ count table t (v ∷ ts) c lt e r)

Houses-append_table :
    (e : Entry) (t : Table) (ts : List Table)
    → e.end_ ≤ t.header
    → Any (Houses e) ts
    → Any (Houses e) (append_table t ts)
unfolding append_table
Houses-append_table e t [] le a = elim a [ ]
Houses-append_table e t (u ∷ []) le (here h) =
    here (record { named = h.named; below = h.below; within = le })
Houses-append_table e t (u ∷ []) le (there a) = elim a [ ]
Houses-append_table e t (u ∷ v ∷ ts) le (here h) = here h
Houses-append_table e t (u ∷ v ∷ ts) le (there a) = there (Houses-append_table e t (v ∷ ts) le a)

Housed-append_table :
    (a : ℕ) (e : Entry) (t : Table) (ts : List Table)
    → e.end_ ≤ t.header
    → Housed a ts e
    → Housed (first_header t.header a ts) (append_table t ts) e
Housed-append_table a e t [] le (inl (r, k)) = inl (r, le)
Housed-append_table a e t (u ∷ ts) le (inl (r, k)) = inl (r, k)
Housed-append_table a e t ts le (inr any) = inr (Houses-append_table e t ts le any)

pub All-Housed_append :
    (a b c : ℕ) (t : Table) (ts : List Table) (es : List Entry)
    → Spans b c es
    → c ≤ t.header
    → All (Housed a ts) es
    → All (Housed (first_header t.header a ts) (append_table t ts)) es
All-Housed_append a b c t ts [] s le h = tt
All-Housed_append a b c t ts (e ∷ es) (s, k, r) le (h, hs) = (
  Housed-append_table a e t ts (omega (arith, Spans-le e.end_ c es r)) h,
  All-Housed_append a e.end_ c t ts es r le hs,
)
  where
    Spans-le : (x y : ℕ) (l : List Entry) → Spans x y l → x ≤ y
    Spans-le x y [] q = q
    Spans-le x y (f ∷ l) (u, v, w) = let rest : f.end_ ≤ y = Spans-le f.end_ y l w in omega arith

Houses-Current :
    (a count index : ℕ) (table : Str) (e : Entry) (t : Table) (ts : List Table)
    → Current table index (t ∷ ts)
    → Regions a count (t ∷ ts)
    → e.table ≡ table
    → e.start ≡ index
    → e.end_ ≤ count
    → Any (Houses e) (t ∷ ts)
Houses-Current a count index table e t [] c r et es le =
    here (record { named = c.0 ∙ sym et; below = omega arith; within = omega arith })
Houses-Current a count index table e t (u ∷ ts) c (r, k, rs) et es le =
    there (Houses-Current t.end_ count index table e u ts c rs et es le)

pub Housed-Current :
    (a count index : ℕ) (table : Str) (e : Entry) (ts : List Table)
    → Current table index ts
    → Regions a count ts
    → e.table ≡ table
    → e.start ≡ index
    → e.end_ ≤ count
    → Housed a ts e
Housed-Current a count index table e [] c r et es le = inl (et ∙ c, omega arith)
Housed-Current a count index table e (t ∷ ts) c r et es le =
    inr (Houses-Current a count index table e t ts c r et es le)

pub Spans-append :
    (a b : ℕ) (es : List Entry) (e : Entry)
    → Spans a b es
    → b ≤ e.start
    → e.start < e.end_
    → Spans a e.end_ (es ++ e ∷ [])
Spans-append a b [] e s le lt = (omega arith, lt, omega arith)
Spans-append a b (f ∷ es) e (x, y, s) le lt = (x, y, Spans-append f.end_ b es e s le lt)

pub Spans-later : (a b c : ℕ) (es : List Entry) → Spans a b es → b ≤ c → Spans a c es
Spans-later a b c [] s le = omega arith
Spans-later a b c (f ∷ es) (x, y, s) le = (x, y, Spans-later f.end_ b c es s le)

pub value_lines-le : (st : ScanState) (ls : List Str) → value_lines st ls ≤ length ls
unfolding value_lines
value_lines-le st [] = omega arith
value_lines-le st (l ∷ ls) = ground (arith, value_lines-le (scan_toml_value st (body_of l)) ls)
