-- ===== src/Sanitize/ToolNames.antt =====
-- auditutil/sanitize.go: the parts of an MCP tool's name.
use casdoor_aiguard.Common.Text.{Str, ◌==◌, eq_iff, has_infix, has_prefix, trim_prefix}
use mathlib.Core.Path.{ap₂}
use casdoor_aiguard.Common.{
  ℕ, true, false, not, ◌&&◌, ◌||◌, Option, none, some, [], ◌∷◌, ◌++◌, ◌≡◌, ◌≢◌, refl, arith, drop,
  eqb, length, if◌then◌else◌, Bool-cases, inl, inr, ap, ◌∙◌,
}

abbrev onto_first : ℕ → Option (Str × Str) → Option (Str × Str)
onto_first c none = none
onto_first c (some (a, b)) = some (c ∷ a, b)

-- `strings.SplitN(s, "__", 2)`, if it gives two parts
unfoldable pub cut_separator : Str → Option (Str × Str)
cut_separator [] = none
cut_separator (c ∷ []) = none
cut_separator (c ∷ d ∷ s) =
    let rest = cut_separator (d ∷ s) in
    if eqb c b'_' && eqb d b'_' then some ([], s) else onto_first c rest

unfoldable pub parts_of : Option (Str × Str) → Option (Str × Str)
unfolding ◌==◌
parts_of none = none
parts_of (some (server, tool)) = if server == [] || tool == [] then none else some (server, tool)

-- `ParseMcpTool`
unfoldable pub parse_mcp_tool : Str → Str → Option (Str × Str)
unfolding ◌==◌
parse_mcp_tool name prefix =
    if prefix == [] || not (has_prefix prefix name)
    then none
    else parts_of (cut_separator (trim_prefix prefix name))

abbrev pub separator : Str
separator = b'_' ∷ b'_' ∷ []

-- What a cut says of the text.
abbrev Joins : Str → Option (Str × Str) → Type 0
Joins s none = Unit
Joins s (some (a, b)) = s ≡ a ++ (separator ++ b)

onto_first-Joins :
    (c : ℕ) (s : Str) (o : Option (Str × Str)) → Joins s o → Joins (c ∷ s) (onto_first c o)
onto_first-Joins c s none h = tt
onto_first-Joins c s (some (a, b)) h = ap (◌∷◌ c) h

cut_separator-Joins : (s : Str) → Joins s (cut_separator s)
unfolding cut_separator
cut_separator-Joins [] = tt
cut_separator-Joins (c ∷ []) = tt
cut_separator-Joins (c ∷ d ∷ s) = elim (Bool-cases (eqb c b'_' && eqb d b'_')) [
  | inl e ↦
      let c_is : c ≡ b'_' = ground (arith, e) in
      let d_is : d ≡ b'_' = ground (arith, e) in rw e (rw (c_is, d_is))
  | inr e ↦ rw e (onto_first-Joins c (d ∷ s) (cut_separator (d ∷ s)) (cut_separator-Joins (d ∷ s)))
]

has_prefix-append : (p t : Str) → has_prefix p (p ++ t) ≡ true
unfolding has_prefix
has_prefix-append [] t = refl
has_prefix-append (c ∷ p) t = ground (arith, has_prefix-append p t)

drop-prefix : (p t : Str) → drop (length p) (p ++ t) ≡ t
drop-prefix [] t = refl
drop-prefix (c ∷ p) t = drop-prefix p t

prefix-joins : (p s : Str) → has_prefix p s ≡ true → s ≡ p ++ drop (length p) s
unfolding has_prefix
prefix-joins [] s h = refl
prefix-joins (c ∷ p) [] h = cc h
prefix-joins (c ∷ p) (d ∷ s) h =
    ap₂ (◌∷◌) (ground (arith, h)) (prefix-joins p s (ground (arith, h)))

cut_separator-append :
    (a b : Str)
    → has_infix separator (a ++ b'_' ∷ []) ≡ false
    → cut_separator (a ++ (separator ++ b)) ≡ some (a, b)
unfolding cut_separator has_infix has_prefix
cut_separator-append [] b h = refl
cut_separator-append (c ∷ []) b h = ground (arith, h)
cut_separator-append (c ∷ d ∷ a) b h =
    let apart : (eqb c b'_' && eqb d b'_') ≡ false = ground (arith, h) in
    rw (apart, cut_separator-append (d ∷ a) b (ground (arith, h)))

nonempty : (s : Str) → s ≢ [] → (s == []) ≡ false
nonempty s n = ground (arith, eq_iff s [])

-- What a parse says of the name.
abbrev pub IsParse : Str → Str → Option (Str × Str) → Type 0
IsParse name prefix none = Unit
IsParse name prefix (some (server, tool)) =
    (prefix ≢ []) × (server ≢ []) × (tool ≢ []) × (name ≡ prefix ++ (server ++ (separator ++ tool)))

parts_of-IsParse :
    (name prefix s : Str) (o : Option (Str × Str))
    → prefix ≢ []
    → name ≡ prefix ++ s
    → Joins s o
    → IsParse name prefix (parts_of o)
unfolding parts_of
parts_of-IsParse name prefix s none hp e j = tt
parts_of-IsParse name prefix s (some (a, b)) hp e j = elim (Bool-cases (a == [] || b == [])) [
  | inl q ↦ rw q tt
  | inr q ↦ rw q (
    hp,
    λ z. ground (arith, eq_iff a [], q, z),
    λ z. ground (arith, eq_iff b [], q, z),
    e ∙ ap (λ x. prefix ++ x) j,
  )
]

-- A parse needs a prefix that is not empty. The parts that it gives are not empty, and joined with the
-- prefix and the separator they are the name.
pub parse_mcp_tool-IsParse : (name prefix : Str) → IsParse name prefix (parse_mcp_tool name prefix)
unfolding parse_mcp_tool
parse_mcp_tool-IsParse name prefix =
    elim (Bool-cases (prefix == [] || not (has_prefix prefix name))) [
      | inl e ↦ rw e tt
      | inr e ↦
          let fits : has_prefix prefix name ≡ true = ground (arith, e) in
          rw (e, fits)
            (parts_of-IsParse name prefix (drop (length prefix) name)
              (cut_separator (drop (length prefix) name))
              (λ z. ground (arith, eq_iff prefix [], e, z)) (prefix-joins prefix name fits)
              (cut_separator-Joins (drop (length prefix) name)))
    ]

-- A name that is put together of a prefix, a server and a tool, none of them empty, is split into
-- this server and tool again, where the server holds no two underscores in a row and does not end in
-- one.
pub parse_mcp_tool-append :
    (prefix server tool : Str)
    → prefix ≢ []
    → server ≢ []
    → tool ≢ []
    → has_infix separator (server ++ b'_' ∷ []) ≡ false
    → parse_mcp_tool (prefix ++ (server ++ (separator ++ tool))) prefix ≡ some (server, tool)
unfolding parse_mcp_tool parts_of
parse_mcp_tool-append prefix server tool hp hs ht h = rw (
  nonempty prefix hp,
  has_prefix-append prefix (server ++ (separator ++ tool)),
  drop-prefix prefix (server ++ (separator ++ tool)),
  cut_separator-append server tool h,
  nonempty server hs,
  nonempty tool ht,
)
