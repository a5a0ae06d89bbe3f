-- ===== src/SelfLearn/Literals.antt =====
-- object/selflearn.go, `regexLiteral`: what the pattern of a learned value matches.
use casdoor_aiguard.Common.Text.{Str, codes}
use casdoor_aiguard.Common.{
  ℕ, Bool, true, false, not, any, eqb_iff, is_nil, ◌&&◌, ◌↔◌, [], ◌∷◌, ◌++◌, ◌≡◌, refl, arith, eqb,
  if◌then◌else◌, Bool-cases, inl, inr, ◌∙◌,
}
use casdoor_aiguard.SelfLearn.{is_special, quote_meta, regex_literal}

-- The bytes that mean something other than themselves in an expression of the package regexp.
unfoldable pub has_meaning : ℕ → Bool
unfolding any
has_meaning c = any (λ m. eqb m c) (codes "\\.+*?()|[]{}^$")

-- The expressions that are made of bytes that stand for themselves, of `.` for any byte but a line
-- feed, of backslashes before a byte that has a meaning, and of a final `$`: whether the rest of such an
-- expression matches the rest of a text. `escaped` is set behind a backslash.
unfoldable pub matches_rest : (escaped : Bool) → Str → Str → Bool
unfolding has_meaning
matches_rest escaped [] s = false
matches_rest true (c ∷ p) [] = false
matches_rest true (c ∷ p) (x ∷ s) = has_meaning c && eqb c x && matches_rest false p s
matches_rest false (c ∷ p) [] =
    if eqb c b'\\' then matches_rest true p [] else (eqb c b'$' && is_nil p)
matches_rest false (c ∷ p) (x ∷ s) =
    let one = matches_rest false p s in
    let behind = matches_rest true p (x ∷ s) in
    if eqb c b'\\'
    then behind
    else if eqb c b'.'
    then not (eqb x b'\n') && one
    else not (has_meaning c) && eqb c x && one

-- The same of a whole expression, which opens with `^`.
unfoldable pub matches_expression : Str → Str → Bool
unfolding matches_rest
matches_expression [] s = false
matches_expression (c ∷ p) s = eqb c b'^' && matches_rest false p s

-- The bytes that `QuoteMeta` escapes are those that have a meaning.
is_special-has_meaning : (c : ℕ) → is_special c ≡ has_meaning c
unfolding is_special has_meaning
is_special-has_meaning c = refl

-- A byte without a meaning is none of those that end, escape or stand for any byte.
plain_byte :
    (c : ℕ)
    → has_meaning c ≡ false
    → (eqb c b'\\' ≡ false) × (eqb c b'.' ≡ false) × (eqb c b'$' ≡ false)
unfolding has_meaning
plain_byte c h = (ground arith, ground arith, ground arith)

abbrev quoted : Str → Str
quoted v = quote_meta v ++ codes "$"

quoted_step :
    (c x : ℕ) (v s : Str)
    → matches_rest false (quoted (c ∷ v)) (x ∷ s) ≡ (eqb c x && matches_rest false (quoted v) s)
unfolding quote_meta
quoted_step c x v s = elim (Bool-cases (has_meaning c)) [
  | inl e ↦ rw (is_special-has_meaning c, e) (unfold matches_rest in rw e)
  | inr e ↦
      let (a, b, d) = plain_byte c e in
      rw (is_special-has_meaning c, e) (unfold matches_rest in rw (a, b, e))
]

quoted_end : (c : ℕ) (v : Str) → matches_rest false (quoted (c ∷ v)) [] ≡ false
unfolding quote_meta
quoted_end c v = elim (Bool-cases (has_meaning c)) [
  | inl e ↦ rw (is_special-has_meaning c, e) (unfold matches_rest in refl)
  | inr e ↦
      let (a, b, d) = plain_byte c e in
      rw (is_special-has_meaning c, e) (unfold matches_rest in rw (a, d))
]

quoted_iff : (v s : Str) → (matches_rest false (quoted v) s ≡ true) ↔ (s ≡ v)
quoted_iff [] [] = unfold quote_meta matches_rest in (λ h. refl, λ h. refl)
quoted_iff [] (x ∷ s) = unfold quote_meta matches_rest in (λ h. cc, λ h. cc)
quoted_iff (c ∷ v) [] = (λ h. cc (h, quoted_end c v), λ h. cc)
quoted_iff (c ∷ v) (x ∷ s) =
    let (one, two) = quoted_iff v s in
    (
      λ h.
          cons_same (ground (arith, h, quoted_step c x v s, eqb_iff c x))
            (one (ground (arith, h, quoted_step c x v s))),
      λ h. quoted_step c x v s ∙ ground (arith, eqb_iff c x, cons_head h, two (cons_tail h)),
    )
  where
    cons_same : x ≡ c → s ≡ v → x ∷ s ≡ c ∷ v
    cons_same p q = cc

    cons_head : x ∷ s ≡ c ∷ v → x ≡ c
    cons_head p = cc

    cons_tail : x ∷ s ≡ c ∷ v → s ≡ v
    cons_tail p = cc

-- The expression of a learned value matches that value and no other text.
pub matches_expression-regex_literal :
    (v s : Str) → (matches_expression (regex_literal v) s ≡ true) ↔ (s ≡ v)
unfolding matches_expression regex_literal
matches_expression-regex_literal v s = quoted_iff v s
