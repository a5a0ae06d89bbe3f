-- ===== src/Patch/CodexToml/Value.antt =====
-- patch/codex_toml.go, `replaceTOMLValue`: a new value in an assignment's line.
use casdoor_aiguard.Common.Text.{Str}
use casdoor_aiguard.Common.{
  ℕ, zero, suc, ◌+◌, Bool, false, ◌||◌, Option, none, some, [], ◌∷◌, ◌++◌, eqb, drop, length, take,
  if◌then◌else◌,
}
use casdoor_aiguard.Patch.CodexToml.Lines.{split_toml_line_ending}
use casdoor_aiguard.Patch.CodexToml.Scan.{comment_at, toml_assignment}

abbrev pub is_space_or_tab : ℕ → Bool
is_space_or_tab c = eqb c b' ' || eqb c b'\t'

-- The first loop: how many blanks stand before the value.
unfoldable pub blanks : Str → ℕ
blanks [] = 0
blanks (c ∷ s) = if is_space_or_tab c then suc (blanks s) else 0

unfoldable pub blank_at : ℕ → Str → Bool
blank_at n [] = false
blank_at zero (c ∷ s) = is_space_or_tab c
blank_at (suc n) (c ∷ s) = blank_at n s

-- The second loop, from `n` bytes behind the value's start: where the value ends.
unfoldable pub value_end : Str → ℕ → ℕ
unfolding blank_at
value_end s zero = 0
value_end s (suc n) = if blank_at n s then value_end s n else suc n

-- How far the value and the blanks behind it may reach.
abbrev pub value_limit : Str → Option ℕ → ℕ
value_limit s none = length s
value_limit s (some i) = i

-- The text behind the value, from its start on.
unfoldable pub behind_value : Str → Str
unfolding value_end comment_at
behind_value s = drop (value_end s (value_limit s (comment_at 0 s))) s

unfoldable pub replaced_at : Str → Str → Option (Str × ℕ) → Option Str
unfolding blanks behind_value
replaced_at body value none = none
replaced_at body value (some (key, start)) =
    let at = start + blanks (drop start body) in
    some (take at body ++ (value ++ behind_value (drop at body)))

-- On a line without its ending.
unfoldable pub replace_in_body : Str → Str → Option Str
unfolding replaced_at toml_assignment
replace_in_body body value = replaced_at body value (toml_assignment body)

abbrev pub with_ending : Str → Option Str → Option Str
with_ending ending none = none
with_ending ending (some body) = some (body ++ ending)

-- `replaceTOMLValue`
unfoldable pub replace_toml_value : Str → Str → Option Str
unfolding replace_in_body split_toml_line_ending
replace_toml_value line value =
    let (body, ending) = split_toml_line_ending line in
    with_ending ending (replace_in_body body value)
