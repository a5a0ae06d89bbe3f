-- ===== src/Patch/CodexToml/Lines.antt =====
-- patch/codex_toml.go: the split of a document into lines that keep their endings.
use casdoor_aiguard.Common.Text.{Str, codes, has_infix, has_suffix}
use casdoor_aiguard.Common.{ℕ, ◌-◌, List, [], ◌∷◌, ◌++◌, eqb, is_nil, length, take, if◌then◌else◌}

abbrev pub push_front : ℕ → List Str → List Str
push_front c [] = (c ∷ []) ∷ []
push_front c (p ∷ ps) = (c ∷ p) ∷ ps

-- `strings.SplitAfter(s, "\n")`
unfoldable pub split_after : Str → List Str
split_after [] = [] ∷ []
split_after (c ∷ s) =
    let rest = split_after s in if eqb c b'\n' then (c ∷ []) ∷ rest else push_front c rest

-- `lines[:len(lines)-1]` where the last line is empty
unfoldable pub without_empty_last : List Str → List Str
without_empty_last [] = []
without_empty_last (x ∷ []) = if is_nil x then [] else x ∷ []
without_empty_last (x ∷ y ∷ xs) = x ∷ without_empty_last (y ∷ xs)

-- `splitTOMLLines`
unfoldable pub split_toml_lines : Str → List Str
unfolding split_after without_empty_last
split_toml_lines document =
    if is_nil document then [] else without_empty_last (split_after document)

-- `detectTOMLNewline`
unfoldable pub detect_toml_newline : Str → Str
unfolding has_infix
detect_toml_newline document =
    if has_infix (codes "\r\n") document then codes "\r\n" else codes "\n"

-- `splitTOMLLineEnding`
unfoldable pub split_toml_line_ending : Str → Str × Str
unfolding has_suffix
split_toml_line_ending line =
    if has_suffix (codes "\r\n") line
    then (take (length line - 2) line, codes "\r\n")
    else if has_suffix (codes "\n") line
    then (take (length line - 1) line, codes "\n")
    else (line, [])

abbrev pub body_of : Str → Str
body_of line = (split_toml_line_ending line).0

-- `strings.Join(out, "")`
unfoldable pub concat : List Str → Str
concat [] = []
concat (l ∷ ls) = l ++ concat ls
