-- ===== src/Patch/CodexToml/Located/Parsed.antt =====
-- patch/codex_toml.go, `parseCodexTOML`: what each round of its loop keeps.
use casdoor_aiguard.Common.Text.{Str}
use casdoor_aiguard.Common.{
  ℕ, zero, suc, ◌+◌, ◌≤◌, ◌<◌, Bool, Option, none, some, List, [], ◌∷◌, ◌≡◌, refl, arith, length,
  All-append, inl, inr, Bool-cases, drop, ap, subst,
}
use casdoor_aiguard.Patch.CodexToml.Document.{
  Entry, Parse, Table, add_entry, is_blank_or_comment, locate, open_table, parse_from, parse_line,
  parse_round, read_line, value_lines,
}
use casdoor_aiguard.Patch.CodexToml.Edit.{line_at}
use casdoor_aiguard.Patch.CodexToml.Lines.{body_of, split_toml_lines}
use casdoor_aiguard.Patch.CodexToml.Scan.{scan_toml_value, toml_assignment, toml_table_header}
use casdoor_aiguard.Patch.CodexToml.Located.{
  Inv, IsLocated, Spans, Housed, Reads, Current-later, Current-append_table, Regions-append_table,
  All-Housed_append, Housed-Current, Spans-append, Spans-later, value_lines-le,
}

module _ (full : List Str) (count index : ℕ) (p : Parse) (h : Inv full count index p) where
  -- A line that is passed over.
  Inv-passed :
      (pass : ℕ) → p.pass ≡ suc pass → Inv full count (index + 1) (record p { pass = pass })
  Inv-passed pass e = record {
    bound = omega (arith, h.bound);
    regions = h.regions;
    current = Current-later p.table index p.tables h.current;
    spans = Spans-later 0 (index + p.pass) (index + 1 + pass) p.entries h.spans (omega arith);
    housed = h.housed;
    reads = h.reads;
  }

  module _ (none_left : p.pass ≡ 0) (inside : index < count) where
    Inv-skipped : Inv full count (index + 1) p
    Inv-skipped = record {
      bound = omega arith;
      regions = h.regions;
      current = Current-later p.table index p.tables h.current;
      spans = Spans-later 0 (index + p.pass) (index + 1 + p.pass) p.entries h.spans (omega arith);
      housed = h.housed;
      reads = h.reads;
    }

    Inv-open_table :
        (header : Str × Bool) → Inv full count (index + 1) (open_table count index p header)
    unfolding open_table
    Inv-open_table (name, is_array) =
        let t : Table = record { name = name; is_array = is_array; header = index; end_ = count } in
        record {
          bound = omega arith;
          regions =
              Regions-append_table p.root_end count p.table t p.tables h.current inside refl
                h.regions;
          current = Current-append_table t p.tables;
          spans =
              Spans-later 0 (index + p.pass) (index + 1 + p.pass) p.entries h.spans (omega arith);
          housed =
              All-Housed_append p.root_end 0 (index + p.pass) t p.tables p.entries h.spans
                (omega arith) h.housed;
          reads = h.reads;
        }

    Inv-add_entry :
        (below : List Str) (o : Option (Str × ℕ))
        → toml_assignment (body_of (line_at index full)) ≡ o
        → index + 1 + length below ≡ count
        → Inv full count (index + 1) (add_entry index p (body_of (line_at index full)) below o)
    unfolding add_entry
    Inv-add_entry below none e n = Inv-skipped
    Inv-add_entry below (some (key, value_start)) e n =
        let st =
          scan_toml_value (record { multiline = []; depth = 0 })
            (drop value_start (body_of (line_at index full))) in
        let more = value_lines st below in
        let fits : more ≤ length below = value_lines-le st below in
        let new : Entry = record {
          table = p.table;
          key = key;
          start = index;
          end_ = index + 1 + more;
        } in
        record {
          bound = omega arith;
          regions = h.regions;
          current = Current-later p.table index p.tables h.current;
          spans = Spans-append 0 (index + p.pass) p.entries new h.spans (omega arith) (omega arith);
          housed = All-append (Housed p.root_end p.tables) p.entries (new ∷ []) h.housed (
            Housed-Current p.root_end count index p.table new p.tables h.current h.regions refl refl
                (omega arith),
            tt,
          );
          reads = All-append (Reads full) p.entries (new ∷ []) h.reads ((value_start, e), tt);
        }

    Inv-read_line :
        (below : List Str) (o : Option (Str × Bool))
        → index + 1 + length below ≡ count
        → Inv full count (index + 1) (read_line count index p (line_at index full) below o)
    unfolding read_line
    Inv-read_line below (some header) n = Inv-open_table header
    Inv-read_line below none n =
        Inv-add_entry below (toml_assignment (body_of (line_at index full))) refl n

    Inv-parse_line :
        (below : List Str)
        → index + 1 + length below ≡ count
        → Inv full count (index + 1) (parse_line count index p (line_at index full) below)
    unfolding parse_line
    Inv-parse_line below n = elim (Bool-cases (is_blank_or_comment (line_at index full))) [
      | inl e ↦ rw e Inv-skipped
      | inr e ↦ rw e (Inv-read_line below (toml_table_header (body_of (line_at index full))) n)
    ]

  Inv-parse_round :
      (pass : ℕ) (below : List Str)
      → p.pass ≡ pass
      → index + 1 + length below ≡ count
      → Inv full count (index + 1) (parse_round pass count index p (line_at index full) below)
  unfolding parse_round
  Inv-parse_round zero below e n = Inv-parse_line e (omega arith) below n
  Inv-parse_round (suc pass) below e n = Inv-passed pass e

-- The lines that are left are those of the document from an index on.
abbrev At : List Str → ℕ → List Str → Type 0
At full index ls = (k : ℕ) → line_at (index + k) full ≡ line_at k ls

At-next :
    (full : List Str) (index : ℕ) (l : Str) (ls : List Str)
    → At full index (l ∷ ls)
    → At full (index + 1) ls
unfolding line_at
At-next full index l ls at k =
    let e : index + 1 + k ≡ index + suc k = omega arith in rw e (at (suc k))

line_at-At :
    (full : List Str) (index : ℕ) (l : Str) (ls : List Str)
    → At full index (l ∷ ls)
    → line_at index full ≡ l
unfolding line_at
line_at-At full index l ls at = let e : index + 0 ≡ index = omega arith in rw e at (at 0)

parse_from-Inv :
    (full : List Str) (count index : ℕ) (p : Parse) (ls : List Str)
    → At full index ls
    → index + length ls ≡ count
    → Inv full count index p
    → Inv full count count (parse_from count index p ls)
unfolding parse_from
parse_from-Inv full count index p [] at n h =
    let e : index ≡ count = omega arith in subst (λ i. Inv full count i p) e h
parse_from-Inv full count index p (l ∷ ls) at n h =
    parse_from-Inv full count (index + 1) (parse_round p.pass count index p l ls) ls
      (At-next full index l ls at) (omega arith)
      (subst (λ x. Inv full count (index + 1) (parse_round p.pass count index p x ls))
        (line_at-At full index l ls at)
        (Inv-parse_round full count index p h p.pass ls refl (omega arith)))

zero-add : (k : ℕ) → 0 + k ≡ k
zero-add k = omega arith

-- The parse of a document puts its tables and assignments in their places: the tables share out the
-- lines behind the root's region; the assignments follow one another and none is empty; each is of the
-- root, and stands in its region, or of a table of its name, and stands below its header and above
-- the next; and its first line assigns its key.
pub locate-IsLocated : (text : Str) → IsLocated (locate text)
unfolding locate
locate-IsLocated text =
    let lines = split_toml_lines text in
    let start : Parse = record {
      table = [];
      tables = [];
      entries = [];
      root_end = length lines;
      pass = 0;
    } in
    let at : At lines 0 lines = λ k. ap (λ i. line_at i lines) (zero-add k) in
    let h = parse_from-Inv lines (length lines) 0 start lines at (omega arith) (record {
      bound = omega arith;
      regions = refl;
      current = refl;
      spans = omega arith;
      housed = tt;
      reads = tt;
    }) in
    record {
      regions = h.regions;
      spans =
          let p = parse_from (length lines) 0 start lines in
          let e : length lines + p.pass ≡ length lines = omega (arith, h.bound) in
          subst (λ b. Spans 0 b p.entries) e h.spans;
      housed = h.housed;
      reads = h.reads;
    }
