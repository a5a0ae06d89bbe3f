-- ===== src/Patch/CodexToml/Document.antt =====
-- patch/codex_toml.go, `parseCodexTOML`: the table headers and assignments of a document, by their
-- lines. The rejection of what go-toml cannot parse stands with the whole edit.
use casdoor_aiguard.Common.Text.{Str, ◌==◌, codes, has_prefix, is_empty, trim_space}
use casdoor_aiguard.Common.{
  ℕ, zero, suc, ◌+◌, Bool, not, ◌&&◌, ◌||◌, Option, none, some, List, [], ◌∷◌, ◌++◌, drop, length,
  if◌then◌else◌,
}
use casdoor_aiguard.Patch.CodexToml.Lines.{
  body_of, detect_toml_newline, split_toml_line_ending, split_toml_lines,
}
use casdoor_aiguard.Patch.CodexToml.Scan.{
  ScanState, continuing, scan_toml_value, toml_assignment, toml_table_header,
}

pub record Entry : Type 0 where
  pub table : Str
  pub key : Str
  pub start : ℕ
  pub end_ : ℕ

pub record Table : Type 0 where
  pub name : Str
  pub is_array : Bool
  pub header : ℕ
  pub end_ : ℕ

pub record Document : Type 0 where
  pub lines : List Str
  pub newline : Str
  pub tables : List Table
  pub entries : List Entry
  pub root_end : ℕ

unfoldable pub is_blank : Str → Bool
unfolding trim_space split_toml_line_ending
is_blank line = is_empty (trim_space (body_of line))

unfoldable pub is_blank_or_comment : Str → Bool
unfolding trim_space split_toml_line_ending has_prefix
is_blank_or_comment line =
    is_empty (trim_space (body_of line)) || has_prefix (codes "#") (trim_space (body_of line))

-- How many of the lines below an assignment its value runs on over.
unfoldable pub value_lines : ScanState → List Str → ℕ
unfolding continuing scan_toml_value split_toml_line_ending
value_lines st [] = 0
value_lines st (l ∷ ls) =
    if continuing st then suc (value_lines (scan_toml_value st (body_of l)) ls) else 0

-- The name under which the entries of a table are kept.
abbrev pub label : Str → Bool → Str
label name is_array = if is_array then codes "[[" ++ name else name

-- The last table ends where the new one begins.
unfoldable pub append_table : Table → List Table → List Table
append_table t [] = t ∷ []
append_table t (u ∷ []) = record u { end_ = t.header } ∷ t ∷ []
append_table t (u ∷ v ∷ us) = u ∷ append_table t (v ∷ us)

abbrev pub first_header : ℕ → ℕ → List Table → ℕ
first_header index root_end [] = index
first_header index root_end (t ∷ ts) = root_end

-- What the loop carries, and the lines that the next rounds pass over.
pub record Parse : Type 0 where
  pub table : Str
  pub tables : List Table
  pub entries : List Entry
  pub root_end : ℕ
  pub pass : ℕ

unfoldable pub open_table : ℕ → ℕ → Parse → Str × Bool → Parse
unfolding append_table
open_table count index p (name, is_array) = record p {
  table = label name is_array;
  tables =
      append_table (record { name = name; is_array = is_array; header = index; end_ = count })
        p.tables;
  root_end = first_header index p.root_end p.tables;
}

unfoldable pub add_entry : ℕ → Parse → Str → List Str → Option (Str × ℕ) → Parse
unfolding value_lines scan_toml_value
add_entry index p body below none = p
add_entry index p body below (some (key, value_start)) =
    let more =
      value_lines (scan_toml_value (record { multiline = []; depth = 0 }) (drop value_start body))
        below in
    record p {
      entries =
          p.entries
          ++ record { table = p.table; key = key; start = index; end_ = index + 1 + more } ∷ [];
      pass = more;
    }

unfoldable pub read_line : ℕ → ℕ → Parse → Str → List Str → Option (Str × Bool) → Parse
unfolding open_table add_entry toml_assignment split_toml_line_ending
read_line count index p l below (some header) = open_table count index p header
read_line count index p l below none =
    add_entry index p (body_of l) below (toml_assignment (body_of l))

-- One line of the document that no value runs on over.
unfoldable pub parse_line : ℕ → ℕ → Parse → Str → List Str → Parse
unfolding is_blank_or_comment read_line toml_table_header split_toml_line_ending
parse_line count index p l below =
    if is_blank_or_comment l
    then p
    else read_line count index p l below (toml_table_header (body_of l))

-- A round of the loop: a line that belongs to the value above it is passed over.
unfoldable pub parse_round : ℕ → ℕ → ℕ → Parse → Str → List Str → Parse
unfolding parse_line
parse_round (suc pass) count index p l below = record p { pass = pass }
parse_round zero count index p l below = parse_line count index p l below

unfoldable pub parse_from : ℕ → ℕ → Parse → List Str → Parse
unfolding parse_round
parse_from count index p [] = p
parse_from count index p (l ∷ ls) =
    parse_from count (index + 1) (parse_round p.pass count index p l ls) ls

-- `parseCodexTOML` behind its check
unfoldable pub locate : Str → Document
unfolding split_toml_lines detect_toml_newline parse_from
locate text =
    let lines = split_toml_lines text in
    let p =
      parse_from (length lines) 0
        (record { table = []; tables = []; entries = []; root_end = length lines; pass = 0 })
        lines in
    record {
      lines = lines;
      newline = detect_toml_newline text;
      tables = p.tables;
      entries = p.entries;
      root_end = p.root_end;
    }

-- `entryOf`
unfoldable pub entry_of : Str → Str → List Entry → Option Entry
unfolding ◌==◌
entry_of table key [] = none
entry_of table key (e ∷ es) =
    if e.table == table && e.key == key then some e else entry_of table key es

-- `tableOf`
unfoldable pub table_of : Str → List Table → Option Table
unfolding ◌==◌
table_of name [] = none
table_of name (t ∷ ts) = if not t.is_array && t.name == name then some t else table_of name ts
