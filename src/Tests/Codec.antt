-- ===== src/Tests/Codec.antt =====
-- A codec of learned rules for the tests: each text behind its length, the list behind its own and a
-- bracket.
use casdoor_aiguard.Common.Text.{Str, ◌==◌, trim_space, trim_left, trim_right, trim_left_reversed}
use casdoor_aiguard.Common.{
  ℕ, zero, suc, Bool, true, false, Option, none, some, List, [], ◌∷◌, ◌++◌, ◌≡◌, refl, arith,
  length, take, drop, map, ap, subst,
}
use casdoor_aiguard.Recognizers.Mcp.{◌>>=◌}
use casdoor_aiguard.SelfLearn.Feedback.Taught.{IsCodec}
use casdoor_aiguard.SelfLearn.{LearnedRule}
use mathlib.Core.List.{reverse, reverse-cons}

unfoldable write_str : Str → Str → Str
write_str s rest = length s ∷ (s ++ rest)

unfoldable write_bool : Bool → Str → Str
write_bool true rest = 1 ∷ rest
write_bool false rest = 0 ∷ rest

unfoldable write_rule : LearnedRule → Str → Str
write_rule r rest = write_str r.id (
    write_str r.subject (
      write_str r.obj (
        write_str r.act (
          write_str r.effect (
            write_str r.agent (
              write_str r.policy_set (
                write_bool r.was_allowed (write_str r.reason (write_str r.created_time rest)))))))))

unfoldable write_rules : List LearnedRule → Str
write_rules [] = []
write_rules (r ∷ rs) = write_rule r (write_rules rs)

unfoldable pub marshal_rules : List LearnedRule → Option Str
unfolding write_rules write_rule write_str write_bool
marshal_rules rs = some (b'[' ∷ length rs ∷ write_rules rs)

-- A text, and what follows it.
unfoldable read_str : Str → Option (Str × Str)
read_str [] = none
read_str (n ∷ s) = some (take n s, drop n s)

unfoldable read_bool : Str → Option (Bool × Str)
read_bool [] = none
read_bool (zero ∷ s) = some (false, s)
read_bool (suc n ∷ s) = some (true, s)

unfoldable read_rule : Str → Option (LearnedRule × Str)
read_rule s0 = do
  (id, s1) ← read_str s0
  (subject, s2) ← read_str s1
  (obj, s3) ← read_str s2
  (act, s4) ← read_str s3
  (effect, s5) ← read_str s4
  (agent, s6) ← read_str s5
  (policy_set, s7) ← read_str s6
  (was_allowed, s8) ← read_bool s7
  (reason, s9) ← read_str s8
  (created_time, s10) ← read_str s9
  some (
    record {
      id = id;
      subject = subject;
      obj = obj;
      act = act;
      effect = effect;
      agent = agent;
      policy_set = policy_set;
      was_allowed = was_allowed;
      reason = reason;
      created_time = created_time;
    },
    s10,
  )

unfoldable read_rules : ℕ → Str → Option (List (Option LearnedRule))
read_rules zero s = some []
read_rules (suc n) s = do (r, s') ← read_rule s; rs ← read_rules n s'; some (some r ∷ rs)

unfoldable pub unmarshal_rules : Str → Option (List (Option LearnedRule))
unfolding read_rules read_rule read_str read_bool
unmarshal_rules [] = none
unmarshal_rules (b ∷ []) = none
unmarshal_rules (b ∷ n ∷ s) = read_rules n s

take-whole : (s t : Str) → take (length s) (s ++ t) ≡ s
take-whole [] t = refl
take-whole (c ∷ s) t = ap (◌∷◌ c) (take-whole s t)

drop-whole : (s t : Str) → drop (length s) (s ++ t) ≡ t
drop-whole [] t = refl
drop-whole (c ∷ s) t = drop-whole s t

read_str-write_str : (s t : Str) → read_str (write_str s t) ≡ some (s, t)
unfolding read_str write_str
read_str-write_str s t = rw (take-whole s t, drop-whole s t)

read_bool-write_bool : (b : Bool) (t : Str) → read_bool (write_bool b t) ≡ some (b, t)
unfolding read_bool write_bool
read_bool-write_bool true t = refl
read_bool-write_bool false t = refl

read_rule-write_rule : (r : LearnedRule) (t : Str) → read_rule (write_rule r t) ≡ some (r, t)
unfolding read_rule write_rule
read_rule-write_rule r t = simp (read_str-write_str, read_bool-write_bool)

read_rules-write_rules :
    (rs : List LearnedRule) → read_rules (length rs) (write_rules rs) ≡ some (map (λ r. some r) rs)
unfolding read_rules write_rules
read_rules-write_rules [] = refl
read_rules-write_rules (r ∷ rs) =
    rw (read_rule-write_rule r (write_rules rs), read_rules-write_rules rs)

-- A bracket is not trimmed away.
trimmed-bracket : (s : Str) → (trim_left_reversed (s ++ b'[' ∷ []) == []) ≡ false
unfolding trim_left_reversed ◌==◌
trimmed-bracket [] = refl
trimmed-bracket (a ∷ []) = ground (arith, trimmed-bracket [])
trimmed-bracket (a ∷ b ∷ []) = ground (arith, trimmed-bracket (b ∷ []), trimmed-bracket [])
trimmed-bracket (a ∷ b ∷ c ∷ s) =
    ground (arith, trimmed-bracket (b ∷ c ∷ s), trimmed-bracket (c ∷ s), trimmed-bracket s)

trim_left-bracket : (s : Str) → trim_left (b'[' ∷ s) ≡ b'[' ∷ s
unfolding trim_left
trim_left-bracket [] = refl
trim_left-bracket (a ∷ []) = refl
trim_left-bracket (a ∷ b ∷ s) = refl

trim_right-bracket : (s : Str) → (trim_right (b'[' ∷ s) == []) ≡ false
unfolding trim_right
trim_right-bracket s = rw (reverse-cons b'[' s) (reverse-nonempty _ (trimmed-bracket (reverse s)))
  where
    reverse-nonempty : (t : Str) → (t == []) ≡ false → (reverse t == []) ≡ false
    reverse-nonempty [] h = absurd (unfold ◌==◌ in cc h)
    reverse-nonempty (c ∷ t) h = rw (reverse-cons c t) (append-nonempty (reverse t) c)
      where
        append-nonempty : (u : Str) (x : ℕ) → ((u ++ x ∷ []) == []) ≡ false
        append-nonempty [] x = unfold ◌==◌ in refl
        append-nonempty (y ∷ u) x = unfold ◌==◌ in refl

trim_space-bracket : (s : Str) → (trim_space (b'[' ∷ s) == []) ≡ false
unfolding trim_space
trim_space-bracket s = rw (trim_left-bracket s) (trim_right-bracket s)

some-value : {A : Type 0} (a b : A) → some a ≡ some b → a ≡ b
some-value a b e = cc

pub codec-IsCodec : IsCodec unmarshal_rules marshal_rules
unfolding marshal_rules unmarshal_rules
codec-IsCodec = record {
  read_back = λ rs v e.
      subst (λ w. unmarshal_rules w ≡ some (map (λ r. some r) rs))
        (some-value (b'[' ∷ length rs ∷ write_rules rs) v e) (read_rules-write_rules rs);
  visible = λ rs v e.
      subst (λ w. (trim_space w == []) ≡ false) (some-value (b'[' ∷ length rs ∷ write_rules rs) v e)
        (trim_space-bracket (length rs ∷ write_rules rs));
}
