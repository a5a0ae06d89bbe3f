-- ===== src/Patch/State/Journal.antt =====
-- patch/state.go: the change set through which a patcher edits files, its rollback, and `Apply` and
-- `Revert` of one target. The manifest and the backups stand in aiguard's own directory, apart from the
-- files of the agent; what may fail there is given by `Faults`.
use casdoor_aiguard.Common.Text.{Str, codes}
use casdoor_aiguard.Common.{
  ℕ, ◌&&◌, Option, none, some, List, [], ◌∷◌, ◌++◌, eqb, if◌then◌else◌, length,
}
use casdoor_aiguard.Common.Text.{◌==◌}
use casdoor_aiguard.Patch.State.Os.{
  Call, FilePath, Fs, Os, ReadResult, RemoveError, content, missing_dirs, kept_by, no_such_file,
  not_there, unreadable,
}

-- The number of changes before this one, and the file's name: `fmt.Sprintf("%d-%s", …)`.
pub record BackupName : Type 0 where
  pub index : ℕ
  pub base : Str

-- A file with a backup has its former permission bits; one without did not exist.
pub data Change : Type 0 where
  change_dir : FilePath → Change
  created_file : FilePath → Change
  changed_file : FilePath → BackupName → ℕ → Change

abbrev pub Backups : Type 0
Backups = BackupName → Option Str

unfoldable pub keep_backup : BackupName → Str → Backups → Backups
unfolding ◌==◌
keep_backup n text b m = if eqb n.index m.index && n.base == m.base then some text else b m

-- What may go wrong in aiguard's own directory.
pub record Faults : Type 0 where
  pub backup : BackupName → Option Str
  pub load : Option Str
  pub save : Option Str
  pub forget : Option Str
  pub forget_backups : Option Str

pub record World : Type 0 where
  pub fs : Fs
  pub backups : Backups

-- The result of a method of the change set.
pub record Done : Type 0 where
  pub error : Option Str
  pub world : World
  pub changes : List Change

-- The directories in the order of their creation: the shallowest first.
unfoldable pub dir_changes : List FilePath → List Change
dir_changes [] = []
dir_changes (d ∷ ds) = dir_changes ds ++ change_dir d ∷ []

abbrev pub base_name : FilePath → Str
base_name [] = codes "/"
base_name (name ∷ p) = name

module _ (os : Os) (faults : Faults) where
  unfoldable pub dirs_made : FilePath → World → List Change → Call → Done
  unfolding dir_changes missing_dirs
  dirs_made p w cs (some e, fs) = record {
    error = some e;
    world = record w { fs = fs };
    changes = cs;
  }
  dirs_made p w cs (none, fs) = record {
    error = none;
    world = record w { fs = fs };
    changes = cs ++ dir_changes (missing_dirs os w.fs p);
  }

  -- `ChangeSet.MkdirAll`
  unfoldable pub make_dirs : FilePath → World → List Change → Done
  unfolding dirs_made
  make_dirs p w cs = dirs_made p w cs (os.make_dirs p w.fs)

  unfoldable pub written : Change → World → List Change → Call → Done
  written c w cs (some e, fs) = record {
    error = some e;
    world = record w { fs = fs };
    changes = cs;
  }
  written c w cs (none, fs) = record {
    error = none;
    world = record w { fs = fs };
    changes = cs ++ c ∷ [];
  }

  -- The write over a file whose content and mode are known, behind its backup.
  unfoldable pub write_over : FilePath → Str → Str → ℕ → World → List Change → Option Str → Done
  unfolding written keep_backup
  write_over p text old mode w cs (some e) = record { error = some e; world = w; changes = cs }
  write_over p text old mode w cs none =
      let name : BackupName = record { index = length cs; base = base_name p } in
      written (changed_file p name mode) (record w { backups = keep_backup name old w.backups }) cs
        (os.write_file p text mode w.fs)

  unfoldable pub write_known : FilePath → Str → Str → World → List Change → Option ℕ → Done
  unfolding write_over
  write_known p text old w cs none = record { error = some (codes "stat"); world = w; changes = cs }
  write_known p text old w cs (some mode) =
      write_over p text old mode w cs
        (faults.backup (record { index = length cs; base = base_name p }))

  unfoldable pub write_read : FilePath → Str → ℕ → World → List Change → ReadResult → Done
  unfolding write_known written
  write_read p text perm w cs (content old) = write_known p text old w cs (os.mode_of p w.fs)
  write_read p text perm w cs not_there =
      written (created_file p) w cs (os.write_file p text perm w.fs)
  write_read p text perm w cs (unreadable e) = record { error = some e; world = w; changes = cs }

  -- `ChangeSet.WriteFile`
  unfoldable pub write_file : FilePath → Str → ℕ → World → List Change → Done
  unfolding write_read
  write_file p text perm w cs = write_read p text perm w cs (os.read_file p w.fs)

  -- The undoing of one change, by its kind.
  unfoldable pub undo_created : Option RemoveError × Fs → Call
  undo_created (none, fs) = (none, fs)
  undo_created (some no_such_file, fs) = (none, fs)
  undo_created (some (kept_by e), fs) = (some e, fs)

  unfoldable pub undo_mode : FilePath → ℕ → Call → Call
  undo_mode p mode (some e, fs) = (some e, fs)
  undo_mode p mode (none, fs) = os.chmod p mode fs

  unfoldable pub undo_changed : FilePath → ℕ → Fs → Option Str → Call
  unfolding undo_mode
  undo_changed p mode fs none = (some (codes "backup"), fs)
  undo_changed p mode fs (some text) = undo_mode p mode (os.write_file p text mode fs)

  unfoldable pub undo : Backups → Change → Fs → Call
  unfolding undo_created undo_changed
  undo b (change_dir p) fs = (none, (os.remove p fs).1)
  undo b (created_file p) fs = undo_created (os.remove p fs)
  undo b (changed_file p name mode) fs = undo_changed p mode fs (b name)

  abbrev pub first_error : Option Str → Option Str → Option Str
  first_error (some e) f = some e
  first_error none f = f

  -- `rollback`: the last change first; the first error is reported.
  unfoldable pub rollback : Backups → List Change → Fs → Call
  unfolding undo
  rollback b [] fs = (none, fs)
  rollback b (c ∷ cs) fs =
      let later = rollback b cs fs in
      let this = undo b c later.1 in (first_error later.0 this.0, this.1)

-- What a patcher does with its change set: it acts, sees the outcome and goes on.
pub data Edits : Type 0 where
  finish : Option Str → Edits
  then_make_dirs : FilePath → (Option Str → Edits) → Edits
  then_write_file : FilePath → Str → ℕ → (Option Str → Edits) → Edits
  then_read_file : FilePath → (ReadResult → Edits) → Edits

-- `ChangeSet.ReadFile`: a missing file reads as empty.
unfoldable pub read_or_empty : ReadResult → ReadResult
read_or_empty not_there = content []
read_or_empty r = r

unfoldable pub run : Os → Faults → Edits → World → List Change → Done
unfolding make_dirs write_file read_or_empty
run os faults (finish e) w cs = record { error = e; world = w; changes = cs }
run os faults (then_make_dirs p next) w cs =
    let d = make_dirs os faults p w cs in run os faults (next d.error) d.world d.changes
run os faults (then_write_file p text perm next) w cs =
    let d = write_file os faults p text perm w cs in run os faults (next d.error) d.world d.changes
run os faults (then_read_file p next) w cs =
    run os faults (next (read_or_empty (os.read_file p w.fs))) w cs

-- The journal of one target.
pub record Target : Type 0 where
  pub world : World
  pub manifest : Option (List Change)

abbrev pub no_backups : Backups
no_backups n = none

module _ (os : Os) (faults : Faults) where
  -- `os.Remove(manifestPath(target))` and `os.RemoveAll(backupDir(target))`
  unfoldable pub forget_backups : Target → Option Str → Option Str × Target
  forget_backups t (some e) = (some e, t)
  forget_backups t none =
      (none, record t { world = record { fs = t.world.fs; backups = no_backups } })

  unfoldable pub forget : Target → Option Str → Option Str × Target
  unfolding forget_backups
  forget t (some e) = (some e, t)
  forget t none = forget_backups (record t { manifest = none }) faults.forget_backups

  unfoldable pub rolled_back : Target → Call → Option Str × Target
  unfolding forget
  rolled_back t (some e, fs) =
      (some e, record t { world = record { fs = fs; backups = t.world.backups } })
  rolled_back t (none, fs) =
      forget (record t { world = record { fs = fs; backups = t.world.backups } }) faults.forget

  unfoldable pub revert_saved : Target → Option (List Change) → Option Str × Target
  unfolding rolled_back rollback
  revert_saved t none = (none, t)
  revert_saved t (some cs) = rolled_back t (rollback os faults t.world.backups cs t.world.fs)

  unfoldable pub loaded : Target → Option Str → Option Str × Target
  unfolding revert_saved
  loaded t (some e) = (some e, t)
  loaded t none = revert_saved t t.manifest

  -- `Revert`
  unfoldable pub revert : Target → Option Str × Target
  unfolding loaded
  revert t = loaded t faults.load

  abbrev both_errors : Str → Option Str → Str
  both_errors e none = e
  both_errors e (some g) = codes "save patch state: " ++ (e ++ (codes "; rollback failed: " ++ g))

  -- The end of `Apply`: the manifest that could not be saved, after the rollback.
  unfoldable pub unsaved : Str → Target → Call → Option Str × Target
  unsaved e t (f, fs) = (
    some (both_errors e f),
    record { world = record { fs = fs; backups = no_backups }; manifest = none },
  )

  unfoldable pub save : Target → List Change → Option Str → Option Str × Target
  unfolding unsaved rollback
  save t cs none = (none, record t { manifest = some cs })
  save t cs (some e) = unsaved e t (rollback os faults t.world.backups cs t.world.fs)

  -- What follows the patcher's edits.
  unfoldable pub settled : Target → Option Str → List Change → Option Str × Target
  unfolding save rollback
  settled t none cs = save t cs faults.save
  settled t (some e) cs = (
    some e,
    record t {
      world = record {
        fs = (rollback os faults t.world.backups cs t.world.fs).1;
        backups = t.world.backups;
      };
    },
  )

  unfoldable pub edited : Edits → Option Str × Target → Option Str × Target
  unfolding settled run
  edited edits (some e, t) = (some e, t)
  edited edits (none, t) =
      let d = run os faults edits t.world [] in
      settled (record t { world = d.world }) d.error d.changes

  -- `Apply`
  unfoldable pub apply : Edits → Target → Option Str × Target
  unfolding edited revert
  apply edits t = edited edits (revert t)
