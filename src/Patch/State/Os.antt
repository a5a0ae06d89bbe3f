-- ===== src/Patch/State/Os.antt =====
-- What patch/state.go uses of the operating system's files. A path is its list of names, the last name
-- first, so that `filepath.Base` is the head and `filepath.Dir` the tail; the root is the empty list.
use mathlib.Core.Option.{none-ne-some}
use casdoor_aiguard.Common.Text.{Str, ◌==◌, eq_iff, eq_refl}
use casdoor_aiguard.Common.{
  ℕ, Bool, true, false, ◌&&◌, Option, none, some, List, [], ◌∷◌, ◌≡◌, ◌≢◌, refl, arith, ap,
  if◌then◌else◌, Bool-cases, inl, inr, ◌⊎◌, sym, ◌∙◌, fun_ext,
}

abbrev pub FilePath : Type 0
FilePath = List Str

-- A file has its content and its permission bits.
pub data Node : Type 0 where
  absent : Node
  file : Str → ℕ → Node
  directory : Node

abbrev pub Fs : Type 0
Fs = FilePath → Node

unfoldable pub same_path : FilePath → FilePath → Bool
unfolding ◌==◌
same_path [] [] = true
same_path (a ∷ p) (b ∷ q) = a == b && same_path p q
same_path _ _ = false

unfoldable pub put : FilePath → Node → Fs → Fs
unfolding same_path
put p n fs q = if same_path p q then n else fs q

-- The outcome of a call: an error or none, and the files that it leaves.
abbrev pub Call : Type 0
Call = Option Str × Fs

pub data ReadResult : Type 0 where
  content : Str → ReadResult
  not_there : ReadResult
  unreadable : Str → ReadResult

pub data RemoveError : Type 0 where
  no_such_file : RemoveError
  kept_by : Str → RemoveError

-- The calls that the journal makes. Any of them may fail.
pub record Os : Type 0 where
  pub stat_ok : FilePath → Fs → Bool
  pub mode_of : FilePath → Fs → Option ℕ
  pub read_file : FilePath → Fs → ReadResult
  pub write_file : FilePath → Str → ℕ → Fs → Call
  pub chmod : FilePath → ℕ → Fs → Call
  pub make_dirs : FilePath → Fs → Call
  pub remove : FilePath → Fs → Option RemoveError × Fs

-- Nothing stands below a path at which nothing stands.
pub record IsTree (fs : Fs) : Type 0 where
  pub rooted : (name : Str) (p : FilePath) → fs p ≡ absent → fs (name ∷ p) ≡ absent

-- The directories that are missing on the way to a path, the deepest first.
unfoldable pub missing_dirs : Os → Fs → FilePath → List FilePath
missing_dirs os fs [] = if os.stat_ok [] fs then [] else [] ∷ []
missing_dirs os fs (name ∷ p) =
    if os.stat_ok (name ∷ p) fs then [] else (name ∷ p) ∷ missing_dirs os fs p

unfoldable pub put_dirs : List FilePath → Fs → Fs
unfolding put
put_dirs [] fs = fs
put_dirs (d ∷ ds) fs = put d directory (put_dirs ds fs)

-- What these calls do where they succeed, and that the files stay a tree.
pub record IsOs (os : Os) : Type 0 where
  pub mode_found :
      (p : FilePath) (fs : Fs) (m : ℕ) (d : Str)
      → os.mode_of p fs ≡ some m
      → os.read_file p fs ≡ content d
      → fs p ≡ file d m
  pub not_found : (p : FilePath) (fs : Fs) → os.read_file p fs ≡ not_there → fs p ≡ absent
  pub write_done :
      (p : FilePath) (d : Str) (m : ℕ) (fs fs' : Fs)
      → os.write_file p d m fs ≡ (none, fs')
      → (k : ℕ) × (fs' ≡ put p (file d k) fs)
  pub write_tree :
      (p : FilePath) (d : Str) (m : ℕ) (fs : Fs) → IsTree fs → IsTree (os.write_file p d m fs).1
  pub chmod_done :
      (p : FilePath) (m : ℕ) (fs fs' : Fs) (d : Str) (k : ℕ)
      → os.chmod p m fs ≡ (none, fs')
      → fs p ≡ file d k
      → fs' ≡ put p (file d m) fs
  pub make_dirs_done :
      (p : FilePath) (fs fs' : Fs)
      → os.make_dirs p fs ≡ (none, fs')
      → fs' ≡ put_dirs (missing_dirs os fs p) fs
  pub make_dirs_tree : (p : FilePath) (fs : Fs) → IsTree fs → IsTree (os.make_dirs p fs).1
  pub file_removed :
      (p : FilePath) (fs fs' : Fs) (d : Str) (k : ℕ)
      → os.remove p fs ≡ (none, fs')
      → fs p ≡ file d k
      → fs' ≡ put p absent fs
  pub missing_kept :
      (p : FilePath) (fs fs' : Fs) → os.remove p fs ≡ (some no_such_file, fs') → fs p ≡ absent
  pub dir_removed :
      (p : FilePath) (fs fs' : Fs)
      → os.remove p fs ≡ (none, fs')
      → fs p ≡ directory
      → fs' ≡ put p absent fs

-- That nothing keeps the calls from what they ask for: a stat fails only where nothing stands, and an
-- empty directory can be removed. An operating system may refuse both for want of rights.
pub record IsPermitted (os : Os) : Type 0 where
  pub stat_absent : (p : FilePath) (fs : Fs) → os.stat_ok p fs ≡ false → fs p ≡ absent
  pub empty_removable :
      (p : FilePath) (fs : Fs)
      → fs p ≡ directory
      → ((name : Str) → fs (name ∷ p) ≡ absent)
      → (os.remove p fs).0 ≡ none

-- A call that succeeds, or leaves the files as they were. A call that fails midway does neither.
abbrev pub IsWhole : Fs → Call → Type 0
IsWhole fs (e, now) = (e ≡ none) ⊎ (now ≡ fs)

pub IsWhole-failed :
    {fs now : Fs} → {c : Call} → {e : Str} → IsWhole fs c → c ≡ (some e, now) → now ≡ fs
IsWhole-failed {c = (e', now')} (inl q) h =
    absurd (none-ne-some _ (sym q ∙ ap (λ (x : Call). x.0) h))
IsWhole-failed {c = (e', now')} (inr q) h = sym (ap (λ (x : Call). x.1) h) ∙ q

same_path_self : (p : FilePath) → same_path p p ≡ true
unfolding same_path
same_path_self [] = refl
same_path_self (a ∷ p) = ground (arith, eq_refl a, same_path_self p)

pub same_path_iff : (p q : FilePath) → same_path p q ≡ true → p ≡ q
unfolding same_path
same_path_iff [] [] h = refl
same_path_iff [] (b ∷ q) h = cc
same_path_iff (a ∷ p) [] h = cc
same_path_iff (a ∷ p) (b ∷ q) h = ground (arith, eq_iff a b, same_path_iff p q)

pub put_self : (p : FilePath) (n : Node) (fs : Fs) → put p n fs p ≡ n
unfolding put
put_self p n fs = rw (same_path_self p)

pub put_other : (p q : FilePath) (n : Node) (fs : Fs) → p ≢ q → put p n fs q ≡ fs q
unfolding put
put_other p q n fs ne = elim (Bool-cases (same_path p q)) [
  | inl e ↦ absurd (ne (same_path_iff p q e))
  | inr e ↦ rw e
]

-- Putting back what stood at a path undoes a change there.
pub put-put : (p : FilePath) (m n : Node) (fs : Fs) → fs p ≡ n → put p n (put p m fs) ≡ fs
unfolding put
put-put p m n fs e = fun_ext (λ q. elim (Bool-cases (same_path p q)) [
  | inl s ↦ let same : p ≡ q = same_path_iff p q s in rw s (sym e ∙ ap fs same)
  | inr s ↦ rw s
])

pub put_twice : (p : FilePath) (m n : Node) (fs : Fs) → put p n (put p m fs) ≡ put p n fs
unfolding put
put_twice p m n fs =
    fun_ext (λ q. elim (Bool-cases (same_path p q)) [ inl s ↦ rw s | inr s ↦ rw s ])
