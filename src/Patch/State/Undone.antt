-- ===== src/Patch/State/Undone.antt =====
-- patch/state.go: what a rollback undoes.
use casdoor_aiguard.Common.Text.{Str}
use casdoor_aiguard.Common.{
  ℕ, Option, none, some, List, [], ◌∷◌, ◌++◌, ◌≡◌, ◌≢◌, refl, arith, length, ap, sym, ◌∙◌, subst,
}
use casdoor_aiguard.Patch.State.Journal.{
  BackupName, Backups, Change, Faults, change_dir, changed_file, created_file, first_error,
  rollback, undo, undo_changed, undo_created, undo_mode,
}
use casdoor_aiguard.Patch.State.Os.{
  Call, FilePath, Fs, IsOs, IsPermitted, Os, RemoveError, absent, directory, file, kept_by,
  no_such_file, put, put_other, put-put, put_self, put_twice,
}

-- The changes that lead from one state of the files to another, each with what its undoing needs: the
-- backup holds the former content.
pub data Made (b : Backups) (before : Fs) : List Change → Fs → Type 0 where
  nothing : Made b before [] before
  directory_made :
      {cs : List Change} {fs : Fs} (p : FilePath)
      → Made b before cs fs
      → fs p ≡ absent
      → ((name : Str) → fs (name ∷ p) ≡ absent)
      → Made b before (cs ++ change_dir p ∷ []) (put p directory fs)
  file_made :
      {cs : List Change} {fs : Fs} (p : FilePath) (text : Str) (k : ℕ)
      → Made b before cs fs
      → fs p ≡ absent
      → Made b before (cs ++ created_file p ∷ []) (put p (file text k) fs)
  file_changed :
      {cs : List Change} {fs : Fs} (p : FilePath) (text old : Str) (k mode : ℕ) (name : BackupName)
      → Made b before cs fs
      → fs p ≡ file old mode
      → b name ≡ some old
      → name.index ≡ length cs
      → Made b before (cs ++ changed_file p name mode ∷ []) (put p (file text k) fs)

module _ (os : Os) (faults : Faults) where
  first_error_assoc :
      (a b c : Option Str)
      → first_error os faults (first_error os faults a b) c
        ≡ first_error os faults a (first_error os faults b c)
  first_error_assoc none b c = refl
  first_error_assoc (some e) b c = refl

  -- The last change is undone first.
  rollback-append :
      (b : Backups) (cs : List Change) (c : Change) (fs : Fs)
      → rollback os faults b (cs ++ c ∷ []) fs ≡ (
        first_error os faults
            (undo os faults b c fs).0
            (rollback os faults b cs (undo os faults b c fs).1).0,
        (rollback os faults b cs (undo os faults b c fs).1).1,
      )
  unfolding rollback
  rollback-append b [] c fs =
      ap (λ x. (x, (undo os faults b c fs).1)) (or_none (undo os faults b c fs).0)
    where
      or_none : (a : Option Str) → a ≡ first_error os faults a none
      or_none none = refl
      or_none (some e) = refl
  rollback-append b (d ∷ cs) c fs =
      let r = rollback os faults b cs (undo os faults b c fs).1 in
      rw (rollback-append b cs c fs) (
        ap (λ x. (x, (undo os faults b d r.1).1))
          (first_error_assoc (undo os faults b c fs).0 r.0 (undo os faults b d r.1).0))

  none_of_first : (a b : Option Str) → first_error os faults a b ≡ none → (a ≡ none) × (b ≡ none)
  none_of_first none b h = (refl, h)
  none_of_first (some e) b h = cc

module _ {os : Os} (ok : IsOs os) (free : IsPermitted os) (faults : Faults) where
  undo_created-restores :
      (p : FilePath) (text : Str) (k : ℕ) (before : Fs) (r : Option RemoveError × Fs)
      → before p ≡ absent
      → os.remove p (put p (file text k) before) ≡ r
      → (undo_created os faults r).0 ≡ none
      → (undo_created os faults r).1 ≡ before
  unfolding undo_created
  undo_created-restores p text k before (none, fs) a e h =
      ok.file_removed p (put p (file text k) before) fs text k e (put_self p (file text k) before)
      ∙ put-put p (file text k) absent before a
  undo_created-restores p text k before (some no_such_file, fs) a e h =
      absurd (clash (sym (put_self p (file text k) before) ∙ ok.missing_kept p _ fs e))
    where
      clash : file text k ≡ absent → ⊥
      clash q = cc
  undo_created-restores p text k before (some (kept_by e'), fs) a e h = cc

  undo_mode-restores :
      (p : FilePath) (text old : Str) (k mode : ℕ) (before : Fs) (r : Call)
      → before p ≡ file old mode
      → os.write_file p old mode (put p (file text k) before) ≡ r
      → (undo_mode os faults p mode r).0 ≡ none
      → (undo_mode os faults p mode r).1 ≡ before
  unfolding undo_mode
  undo_mode-restores p text old k mode before (some e', fs) a e h = cc
  undo_mode-restores p text old k mode before (none, fs) a e h =
      let (j, w) = ok.write_done p old mode (put p (file text k) before) fs e in
      let there : fs p ≡ file old j = ap (λ g. g p) w ∙ put_self p (file old j) _ in
      ok.chmod_done p mode fs (os.chmod p mode fs).1 old j (pair (os.chmod p mode fs) h) there
      ∙ ap (put p (file old mode)) w
      ∙ put_thrice j
    where
      pair : (c : Call) → c.0 ≡ none → c ≡ (none, c.1)
      pair (e', fs') q = ap (λ x. (x, fs')) q

      put_thrice :
          (j : ℕ) → put p (file old mode) (put p (file old j) (put p (file text k) before)) ≡ before
      put_thrice j =
          put_twice p (file old j) (file old mode) (put p (file text k) before)
          ∙ put-put p (file text k) (file old mode) before a

  undo_changed-restores :
      (p : FilePath) (text old : Str) (k mode : ℕ) (before : Fs) (o : Option Str)
      → before p ≡ file old mode
      → o ≡ some old
      → (undo_changed os faults p mode (put p (file text k) before) o).0 ≡ none
      → (undo_changed os faults p mode (put p (file text k) before) o).1 ≡ before
  unfolding undo_changed
  undo_changed-restores p text old k mode before none a e h = cc
  undo_changed-restores p text old k mode before (some t) a e h =
      let same : t ≡ old = value e in
      undo_mode-restores p text old k mode before
        (os.write_file p t mode (put p (file text k) before)) a
        (ap (λ x. os.write_file p x mode (put p (file text k) before)) (sym same)) h
    where
      value : some t ≡ some old → t ≡ old
      value q = cc

  dir_undone :
      (p : FilePath) (before : Fs)
      → before p ≡ absent
      → ((name : Str) → before (name ∷ p) ≡ absent)
      → (os.remove p (put p directory before)).1 ≡ before
  dir_undone p before a below =
      let now = put p directory before in
      let removed : (os.remove p now).0 ≡ none =
        free.empty_removable p now (put_self p directory before)
          (λ name. put_other p (name ∷ p) directory before (longer name p) ∙ below name) in
      ok.dir_removed p now (os.remove p now).1 (ap (λ e. (e, (os.remove p now).1)) removed)
        (put_self p directory before)
      ∙ put-put p directory absent before a
    where
      longer : (name : Str) (q : FilePath) → q ≢ name ∷ q
      longer name q e = absurd (omega (arith, ap length e))

  split_last :
      (b : Backups) (cs : List Change) (c : Change) (now : Fs)
      → (rollback os faults b (cs ++ c ∷ []) now).0 ≡ none
      → ((undo os faults b c now).0 ≡ none)
        × ((rollback os faults b cs (undo os faults b c now).1).0 ≡ none)
  split_last b cs c now h =
      none_of_first os faults (undo os faults b c now).0
        (rollback os faults b cs (undo os faults b c now).1).0
        (sym (ap (λ (x : Call). x.0) (rollback-append os faults b cs c now)) ∙ h)

  -- A change that its undoing takes back leaves the rest of the rollback as it was.
  undone_last :
      (b : Backups) (before fs : Fs) (cs : List Change) (c : Change) (now : Fs)
      → (undo os faults b c now).1 ≡ fs
      → ((rollback os faults b cs fs).0 ≡ none → (rollback os faults b cs fs).1 ≡ before)
      → (rollback os faults b cs (undo os faults b c now).1).0 ≡ none
      → (rollback os faults b (cs ++ c ∷ []) now).1 ≡ before
  undone_last b before fs cs c now back rest h =
      ap (λ (x : Call). x.1) (rollback-append os faults b cs c now)
      ∙ ap (λ x. (rollback os faults b cs x).1) back
      ∙ rest (subst (λ x. (rollback os faults b cs x).0 ≡ none) back h)

  -- A rollback that reports no error brings the files back.
  pub rollback-restores :
      (b : Backups) (before : Fs) (cs : List Change) (fs : Fs)
      → Made b before cs fs
      → (rollback os faults b cs fs).0 ≡ none
      → (rollback os faults b cs fs).1 ≡ before
  unfolding undo
  rollback-restores b before _ _ nothing h = unfold rollback in refl
  rollback-restores b before _ _ (directory_made {cs = cs} {fs = fs} p made a below) h =
      undone_last b before fs cs (change_dir p) (put p directory fs) (dir_undone p fs a below)
        (rollback-restores b before cs fs made)
        (split_last b cs (change_dir p) (put p directory fs) h).1
  rollback-restores b before _ _ (file_made {cs = cs} {fs = fs} p text k made a) h =
      let now = put p (file text k) fs in
      let (u, r) = split_last b cs (created_file p) now h in
      undone_last b before fs cs (created_file p) now
        (undo_created-restores p text k fs (os.remove p now) a refl u)
        (rollback-restores b before cs fs made) r
  rollback-restores b before _ _
        (file_changed {cs = cs} {fs = fs} p text old k mode name made a kept n) h =
      let now = put p (file text k) fs in
      let (u, r) = split_last b cs (changed_file p name mode) now h in
      undone_last b before fs cs (changed_file p name mode) now
        (undo_changed-restores p text old k mode fs (b name) a kept u)
        (rollback-restores b before cs fs made) r
