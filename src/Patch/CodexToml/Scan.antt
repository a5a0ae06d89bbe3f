-- ===== src/Patch/CodexToml/Scan.antt =====
-- patch/codex_toml.go: the lexing of one line. A loop whose index jumps ahead runs over the rest of the
-- text and carries the number of bytes that it has still to pass over.
use casdoor_aiguard.Common.Text.{Str, codes, has_prefix, is_empty, trim_space}
use casdoor_aiguard.Common.{
  ℕ, zero, suc, ◌+◌, ◌-◌, Bool, true, false, not, ◌&&◌, ◌||◌, Option, none, some, [], ◌∷◌, eqb, ltb,
  length, take, drop, if◌then◌else◌,
}
use mathlib.Core.Option

-- `skipTOMLString` from behind the opening quote: how many bytes the string takes, its closing quote
-- included. The flag says that the next byte is escaped.
unfoldable pub skip_string : ℕ → Bool → Bool → Str → ℕ
skip_string quote escapes escaped [] = 0
skip_string quote escapes true (c ∷ s) = suc (skip_string quote escapes false s)
skip_string quote escapes false (c ∷ s) =
    if escapes && eqb c b'\\'
    then suc (skip_string quote escapes true s)
    else if eqb c quote
    then 1
    else suc (skip_string quote escapes false s)

unfoldable pub skip_toml_string : Str → ℕ → Bool → ℕ
unfolding skip_string
skip_toml_string s quote escapes = skip_string quote escapes false s

-- The cases of the switches for the two quotes: what follows the byte and belongs to its string.
unfoldable pub quoted : ℕ → Str → ℕ
unfolding skip_toml_string
quoted c s =
    if eqb c b'"'
    then skip_toml_string s b'"' true
    else if eqb c b'\''
    then skip_toml_string s b'\'' false
    else 0

-- The loop of `tomlAssignment`: where the top-level `=` is.
unfoldable pub assignment_at : ℕ → Str → Option ℕ
unfolding quoted
assignment_at pass [] = none
assignment_at (suc pass) (c ∷ s) = Option.map suc (assignment_at pass s)
assignment_at zero (c ∷ s) =
    if eqb c b'#'
    then none
    else if eqb c b'='
    then some 0
    else Option.map suc (assignment_at (quoted c s) s)

abbrev pub is_quote : ℕ → Bool
is_quote c = eqb c b'"' || eqb c b'\''

abbrev last_is : ℕ → Str → Bool
last_is q [] = false
last_is q (c ∷ []) = eqb c q
last_is q (c ∷ d ∷ s) = last_is q (d ∷ s)

-- `!strings.ContainsAny(inner, "\"'.")`
unfoldable pub is_plain_key : Str → Bool
is_plain_key [] = true
is_plain_key (c ∷ s) = not (is_quote c || eqb c b'.') && is_plain_key s

-- `unquoteTOMLKey`
unfoldable pub unquote_toml_key : Str → Str
unfolding is_plain_key
unquote_toml_key [] = []
unquote_toml_key (c ∷ []) = c ∷ []
unquote_toml_key (c ∷ d ∷ s) =
    let inner = take (length s) (d ∷ s) in
    if is_quote c && last_is c (d ∷ s)
    then if is_plain_key inner then inner else c ∷ d ∷ s
    else c ∷ d ∷ s

-- `tomlAssignment`: the key, and where the value starts.
unfoldable pub assigned : Str → Option ℕ → Option (Str × ℕ)
unfolding unquote_toml_key trim_space
assigned body none = none
assigned body (some i) =
    let key = unquote_toml_key (trim_space (take i body)) in
    if is_empty key then none else some (key, i + 1)

unfoldable pub toml_assignment : Str → Option (Str × ℕ)
unfolding assigned assignment_at
toml_assignment body = assigned body (assignment_at 0 body)

-- The loop of `tomlCommentStart`: where the `#` of a trailing comment is, counted from `start`.
unfoldable pub comment_at : ℕ → Str → Option ℕ
unfolding quoted
comment_at pass [] = none
comment_at (suc pass) (c ∷ s) = Option.map suc (comment_at pass s)
comment_at zero (c ∷ s) = if eqb c b'#' then some 0 else Option.map suc (comment_at (quoted c s) s)

unfoldable pub toml_comment_start : Str → ℕ → Option ℕ
unfolding comment_at
toml_comment_start text start = Option.map (λ i. start + i) (comment_at 0 (drop start text))

-- The loop of `tomlTableHeader`: where the first `]` outside a string is.
unfoldable pub bracket_at : ℕ → Str → Option ℕ
unfolding quoted
bracket_at pass [] = none
bracket_at (suc pass) (c ∷ s) = Option.map suc (bracket_at pass s)
bracket_at zero (c ∷ s) = if eqb c b']' then some 0 else Option.map suc (bracket_at (quoted c s) s)

-- What is made of the name and of what follows it, brackets first.
unfoldable pub header_closed : Str → Str → Str → Bool → Option (Str × Bool)
unfolding has_prefix trim_space
header_closed name tail closing is_array =
    let rest = trim_space (drop (length closing) tail) in
    if not (has_prefix closing tail)
    then none
    else if not (is_empty rest) && not (has_prefix (codes "#") rest)
    then none
    else some (trim_space name, is_array)

unfoldable pub header_named : Str → Str → Bool → Option ℕ → Option (Str × Bool)
unfolding header_closed
header_named text closing is_array none = none
header_named text closing is_array (some end_) =
    header_closed (take end_ text) (drop end_ text) closing is_array

-- `tomlTableHeader`: the table that a line opens, and whether it is one of an array.
unfoldable pub toml_table_header : Str → Option (Str × Bool)
unfolding has_prefix trim_space header_named bracket_at
toml_table_header body =
    let trimmed = trim_space body in
    if not (has_prefix (codes "[") trimmed)
    then none
    else if has_prefix (codes "[[") trimmed
    then header_named (drop 2 trimmed) (codes "]]") true (bracket_at 0 (drop 2 trimmed))
    else header_named (drop 1 trimmed) (codes "]") false (bracket_at 0 (drop 1 trimmed))

-- `tomlScanState`
pub record ScanState : Type 0 where
  pub multiline : Str
  pub depth : ℕ

unfoldable pub continuing : ScanState → Bool
continuing st = not (is_empty st.multiline) || ltb 0 st.depth

-- One round of `scanTOMLValue` outside a multi-line string: the bytes to pass over behind this one and
-- the new state, or `none` at a comment, where the scan returns.
unfoldable pub scan_plain : ScanState → ℕ → Str → Option (ℕ × ScanState)
unfolding has_prefix skip_toml_string
scan_plain st c s =
    if has_prefix (codes "\"\"\"") (c ∷ s)
    then some (2, record st { multiline = codes "\"\"\"" })
    else if has_prefix (codes "'''") (c ∷ s)
    then some (2, record st { multiline = codes "'''" })
    else if eqb c b'"'
    then some (skip_toml_string s b'"' true, st)
    else if eqb c b'\''
    then some (skip_toml_string s b'\'' false, st)
    else if eqb c b'#'
    then none
    else if eqb c b'[' || eqb c b'{'
    then some (0, record st { depth = st.depth + 1 })
    else if eqb c b']' || eqb c b'}'
    then some (0, record st { depth = st.depth - 1 })
    else some (0, st)

unfoldable pub scan_step : ScanState → ℕ → Str → Option (ℕ × ScanState)
unfolding has_prefix scan_plain
scan_step st c s =
    if is_empty st.multiline
    then scan_plain st c s
    else if has_prefix st.multiline (c ∷ s)
    then some (length st.multiline - 1, record st { multiline = [] })
    else some (0, st)

unfoldable pub scan_from : ℕ → ScanState → Str → ScanState
unfolding scan_step
scan_from pass st [] = st
scan_from (suc pass) st (c ∷ s) = scan_from pass st s
scan_from zero st (c ∷ s) = elim (scan_step st c s) [
  | none ↦ st
  | some (pass, st') ↦ scan_from pass st' s
]

-- `scanTOMLValue`
unfoldable pub scan_toml_value : ScanState → Str → ScanState
unfolding scan_from
scan_toml_value st text = scan_from 0 st text
