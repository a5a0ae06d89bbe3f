-- ===== src/Tests/Memory.antt =====
-- Files in memory, that do what is asked of an operating system.
use casdoor_aiguard.Common.Text.{Str, codes}
use casdoor_aiguard.Common.{
  ℕ, Bool, true, false, Option, none, some, List, [], ◌∷◌, ◌≡◌, ◌≢◌, refl, ap, sym, ◌∙◌, subst,
  Bool-cases, inl, inr, if◌then◌else◌,
}
use casdoor_aiguard.Patch.State.Os.{
  Call, FilePath, Fs, IsOs, IsPermitted, IsWhole, IsTree, Node, Os, ReadResult, RemoveError, absent,
  content, directory, file, missing_dirs, no_such_file, not_there, put, put_self, put_dirs,
  same_path, same_path_iff, unreadable,
}

unfoldable is_there : Node → Bool
is_there absent = false
is_there _ = true

unfoldable mode_in : Node → Option ℕ
mode_in (file d m) = some m
mode_in _ = none

unfoldable read_in : Node → ReadResult
read_in absent = not_there
read_in (file d m) = content d
read_in directory = unreadable (codes "is a directory")

unfoldable write_new : FilePath → Str → ℕ → Fs → Bool → Call
write_new p d m fs true = (none, put p (file d m) fs)
write_new p d m fs false = (some (codes "no such directory"), fs)

unfoldable has_parent : FilePath → Fs → Bool
unfolding is_there
has_parent [] fs = false
has_parent (name ∷ p) fs = is_there (fs p)

unfoldable write_node : FilePath → Str → ℕ → Fs → Node → Call
unfolding write_new has_parent
write_node p d m fs absent = write_new p d m fs (has_parent p fs)
write_node p d m fs (file old k) = (none, put p (file d k) fs)
write_node p d m fs directory = (some (codes "is a directory"), fs)

unfoldable chmod_node : FilePath → ℕ → Fs → Node → Call
chmod_node p m fs (file d k) = (none, put p (file d m) fs)
chmod_node p m fs directory = (none, fs)
chmod_node p m fs absent = (some (codes "no such file"), fs)

unfoldable remove_node : FilePath → Fs → Node → Option RemoveError × Fs
remove_node p fs absent = (some no_such_file, fs)
remove_node p fs _ = (none, put p absent fs)

unfoldable missing : Fs → FilePath → List FilePath
unfolding is_there
missing fs [] = if is_there (fs []) then [] else [] ∷ []
missing fs (name ∷ p) = if is_there (fs (name ∷ p)) then [] else (name ∷ p) ∷ missing fs p

unfoldable pub memory : Os
unfolding is_there mode_in read_in write_node chmod_node missing remove_node
memory = record {
  stat_ok = λ p fs. is_there (fs p);
  mode_of = λ p fs. mode_in (fs p);
  read_file = λ p fs. read_in (fs p);
  write_file = λ p d m fs. write_node p d m fs (fs p);
  chmod = λ p m fs. chmod_node p m fs (fs p);
  make_dirs = λ p fs. (none, put_dirs (missing fs p) fs);
  remove = λ p fs. remove_node p fs (fs p);
}

absent_of : (n : Node) → is_there n ≡ false → n ≡ absent
unfolding is_there
absent_of absent h = refl
absent_of (file d m) h = cc
absent_of directory h = cc

file_of : (n : Node) (m : ℕ) (d : Str) → mode_in n ≡ some m → read_in n ≡ content d → n ≡ file d m
unfolding mode_in read_in
file_of absent m d h k = cc
file_of directory m d h k = cc
file_of (file e j) m d h k = cc (h, k)

absent_read : (n : Node) → read_in n ≡ not_there → n ≡ absent
unfolding read_in
absent_read absent h = refl
absent_read (file d m) h = cc
absent_read directory h = cc

snd_of : {a b : Fs} {e f : Option Str} → ◌≡◌ {A = Call} (e, a) (f, b) → b ≡ a
snd_of q = sym (ap (λ (r : Call). r.1) q)

write_new-done :
    (p : FilePath) (d : Str) (m : ℕ) (fs fs' : Fs) (b : Bool)
    → write_new p d m fs b ≡ (none, fs')
    → (k : ℕ) × (fs' ≡ put p (file d k) fs)
unfolding write_new
write_new-done p d m fs fs' true h = (m, snd_of h)
write_new-done p d m fs fs' false h = cc

write_node-done :
    (p : FilePath) (d : Str) (m : ℕ) (fs fs' : Fs) (n : Node)
    → write_node p d m fs n ≡ (none, fs')
    → (k : ℕ) × (fs' ≡ put p (file d k) fs)
unfolding write_node
write_node-done p d m fs fs' absent h = write_new-done p d m fs fs' (has_parent p fs) h
write_node-done p d m fs fs' (file old k) h = (k, snd_of h)
write_node-done p d m fs fs' directory h = cc

write_node-failed :
    (p : FilePath) (d : Str) (m : ℕ) (e : Str) (fs fs' : Fs) (n : Node)
    → write_node p d m fs n ≡ (some e, fs')
    → fs' ≡ fs
unfolding write_node
write_node-failed p d m e fs fs' absent h = go (has_parent p fs) h
  where
    go : (b : Bool) → write_new p d m fs b ≡ (some e, fs') → fs' ≡ fs
    go true q = unfold write_new in cc q
    go false q = unfold write_new in snd_of q
write_node-failed p d m e fs fs' (file old k) h = cc
write_node-failed p d m e fs fs' directory h = snd_of h

pub IsTree-put :
    (p : FilePath) (n : Node) (fs : Fs)
    → n ≢ absent
    → ((name : Str) (q : FilePath) → p ≡ name ∷ q → fs q ≢ absent)
    → IsTree fs
    → IsTree (put p n fs)
IsTree-put p n fs present parent tree = record { rooted = λ name q h. below name q h }
  where
    behind : {q : FilePath} → same_path p q ≡ false → put p n fs q ≡ absent → fs q ≡ absent
    behind s h = unfold put in rw s at h

    below : (name : Str) (q : FilePath) → put p n fs q ≡ absent → put p n fs (name ∷ q) ≡ absent
    below name q h = elim (Bool-cases (same_path p q)) [
      | inl s ↦ absurd (present (sym (put_self p n fs) ∙ ap (put p n fs) (same_path_iff p q s) ∙ h))
      | inr s ↦ elim (Bool-cases (same_path p (name ∷ q))) [
        | inl r ↦ absurd (parent name q (same_path_iff p (name ∷ q) r) (behind s h))
        | inr r ↦ unfold put in rw r (tree.rooted name q (behind s h))
      ]
    ]

there_of : (n : Node) → is_there n ≡ true → n ≢ absent
unfolding is_there
there_of absent h e = cc
there_of (file d m) h e = cc
there_of directory h e = cc

parent_there :
    (p : FilePath) (fs : Fs)
    → has_parent p fs ≡ true
    → (name : Str) (q : FilePath) → p ≡ name ∷ q
    → fs q ≢ absent
unfolding has_parent
parent_there [] fs h name q e a = cc
parent_there (n ∷ p) fs h name q e a = there_of (fs p) h (ap fs (tail_of e) ∙ a)
  where
    tail_of : n ∷ p ≡ name ∷ q → p ≡ q
    tail_of e = cc

-- What stands at a path has its parents, in a tree.
parent_of_node :
    (p : FilePath) (fs : Fs)
    → IsTree fs
    → fs p ≢ absent
    → (name : Str) (q : FilePath) → p ≡ name ∷ q
    → fs q ≢ absent
parent_of_node p fs tree present name q e a = present (ap fs e ∙ tree.rooted name q a)

write_new-IsTree :
    (p : FilePath) (d : Str) (m : ℕ) (fs : Fs) (b : Bool)
    → has_parent p fs ≡ b
    → IsTree fs
    → IsTree (write_new p d m fs b).1
unfolding write_new
write_new-IsTree p d m fs false e tree = tree
write_new-IsTree p d m fs true e tree =
    IsTree-put p (file d m) fs (λ q. cc) (parent_there p fs e) tree

write_node-IsTree :
    (p : FilePath) (d : Str) (m : ℕ) (fs : Fs) (n : Node)
    → fs p ≡ n
    → IsTree fs
    → IsTree (write_node p d m fs n).1
unfolding write_node
write_node-IsTree p d m fs absent e tree = write_new-IsTree p d m fs (has_parent p fs) refl tree
write_node-IsTree p d m fs directory e tree = tree
write_node-IsTree p d m fs (file old k) e tree =
    IsTree-put p (file d k) fs (λ q. cc) (parent_of_node p fs tree (λ a. other (sym e ∙ a))) tree
  where
    other : file old k ≡ absent → ⊥
    other q = cc

missing-is : (fs : Fs) (p : FilePath) → missing fs p ≡ missing_dirs memory fs p
unfolding missing missing_dirs memory
missing-is fs [] = refl
missing-is fs (name ∷ p) = rw (missing-is fs p)

put_dirs-there : (fs : Fs) (p : FilePath) → put_dirs (missing fs p) fs p ≢ absent
unfolding missing put_dirs
put_dirs-there fs [] = elim (Bool-cases (is_there (fs []))) [
  | inl e ↦ rw e (there_of (fs []) e)
  | inr e ↦ rw e (λ a. other (sym (put_self [] directory fs) ∙ a))
]
  where
    other : directory ≡ absent → ⊥
    other q = cc
put_dirs-there fs (name ∷ p) = elim (Bool-cases (is_there (fs (name ∷ p)))) [
  | inl e ↦ rw e (there_of (fs (name ∷ p)) e)
  | inr e ↦ rw e (λ a. other (sym (put_self (name ∷ p) directory (put_dirs (missing fs p) fs)) ∙ a))
]
  where
    other : directory ≡ absent → ⊥
    other q = cc

put_dirs-IsTree : (fs : Fs) (p : FilePath) → IsTree fs → IsTree (put_dirs (missing fs p) fs)
unfolding missing put_dirs
put_dirs-IsTree fs [] tree = elim (Bool-cases (is_there (fs []))) [
  | inl e ↦ rw e tree
  | inr e ↦ rw e (IsTree-put [] directory fs (λ q. cc) (λ name q r. cc) tree)
]
put_dirs-IsTree fs (name ∷ p) tree = elim (Bool-cases (is_there (fs (name ∷ p)))) [
  | inl e ↦ rw e tree
  | inr e ↦ rw e (
      IsTree-put (name ∷ p) directory (put_dirs (missing fs p) fs) (λ q. cc)
        (λ n q r.
          subst (λ x. put_dirs (missing fs p) fs x ≢ absent) (tail_of r) (put_dirs-there fs p))
        (put_dirs-IsTree fs p tree))
]
  where
    tail_of : {n : Str} {q : FilePath} → name ∷ p ≡ n ∷ q → p ≡ q
    tail_of e = cc

remove_node-file :
    (p : FilePath) (fs fs' : Fs) (n : Node) (d : Str) (k : ℕ)
    → remove_node p fs n ≡ (none, fs')
    → n ≡ file d k
    → fs' ≡ put p absent fs
unfolding remove_node
remove_node-file p fs fs' absent d k h e = cc
remove_node-file p fs fs' (file c j) d k h e = sym (ap (λ (r : Option RemoveError × Fs). r.1) h)
remove_node-file p fs fs' directory d k h e = cc

remove_node-missing :
    (p : FilePath) (fs fs' : Fs) (n : Node)
    → remove_node p fs n ≡ (some no_such_file, fs')
    → n ≡ absent
unfolding remove_node
remove_node-missing p fs fs' absent h = refl
remove_node-missing p fs fs' (file c j) h = cc
remove_node-missing p fs fs' directory h = cc

chmod_node-done :
    (p : FilePath) (m : ℕ) (fs fs' : Fs) (n : Node) (d : Str) (k : ℕ)
    → chmod_node p m fs n ≡ (none, fs')
    → n ≡ file d k
    → fs' ≡ put p (file d m) fs
unfolding chmod_node
chmod_node-done p m fs fs' absent d k h e = cc
chmod_node-done p m fs fs' directory d k h e = cc
chmod_node-done p m fs fs' (file c j) d k h e =
    snd_of h ∙ ap (λ x. put p (file x m) fs) (content_of e)
  where
    content_of : file c j ≡ file d k → c ≡ d
    content_of q = cc

remove_node-dir :
    (p : FilePath) (fs fs' : Fs) (n : Node)
    → remove_node p fs n ≡ (none, fs')
    → n ≡ directory
    → fs' ≡ put p absent fs
unfolding remove_node
remove_node-dir p fs fs' directory h e = sym (ap (λ (r : Option RemoveError × Fs). r.1) h)
remove_node-dir p fs fs' absent h e = cc e
remove_node-dir p fs fs' (file d k) h e = cc e

pub memory-IsOs : IsOs memory
unfolding memory
memory-IsOs = record {
  mode_found = λ p fs m d h k. file_of (fs p) m d h k;
  not_found = λ p fs h. absent_read (fs p) h;
  write_done = λ p d m fs fs' h. write_node-done p d m fs fs' (fs p) h;
  write_tree = λ p d m fs tree. write_node-IsTree p d m fs (fs p) refl tree;
  chmod_done = λ p m fs fs' d k h e. chmod_node-done p m fs fs' (fs p) d k h e;
  make_dirs_done = λ p fs fs' h. snd_of h ∙ ap (λ l. put_dirs l fs) (missing-is fs p);
  make_dirs_tree = λ p fs tree. put_dirs-IsTree fs p tree;
  file_removed = λ p fs fs' d k h e. remove_node-file p fs fs' (fs p) d k h e;
  missing_kept = λ p fs fs' h. remove_node-missing p fs fs' (fs p) h;
  dir_removed = λ p fs fs' h e. remove_node-dir p fs fs' (fs p) h e;
}

pub memory-IsPermitted : IsPermitted memory
unfolding memory
memory-IsPermitted = record {
  stat_absent = λ p fs h. absent_of (fs p) h;
  empty_removable =
      λ p fs e below. ap (λ n. (remove_node p fs n).0) e ∙ (unfold remove_node in refl);
}

pub memory-write-IsWhole :
    (p : FilePath) (d : Str) (m : ℕ) (fs : Fs) → IsWhole fs (memory.write_file p d m fs)
unfolding memory
memory-write-IsWhole p d m fs = go (memory.write_file p d m fs) refl
  where
    go : (c : Call) → memory.write_file p d m fs ≡ c → IsWhole fs c
    go (none, now) h = inl refl
    go (some e, now) h = inr (write_node-failed p d m e fs now (fs p) h)

pub memory-make_dirs-IsWhole : (p : FilePath) (fs : Fs) → IsWhole fs (memory.make_dirs p fs)
unfolding memory
memory-make_dirs-IsWhole p fs = inl refl
