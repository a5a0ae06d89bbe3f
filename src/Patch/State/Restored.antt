-- ===== src/Patch/State/Restored.antt =====
-- patch/state.go, `Apply` and `Revert`: the files of a target come back.
use casdoor_aiguard.Common.Text.{Str, ◌==◌, eq_refl}
use casdoor_aiguard.Common.{
  ℕ, suc, ◌≤◌, ◌<◌, false, ◌&&◌, Option, none, some, List, [], ◌∷◌, ◌++◌, ◌≡◌, refl, arith, eqb,
  length, length-append, ap, sym, ◌∙◌, subst, Bool-cases, inl, inr, append_assoc, append-nil, ◌⊎◌,
}
use casdoor_aiguard.Patch.State.Journal.{
  BackupName, base_name, Backups, Change, Done, Edits, Faults, World, change_dir, changed_file,
  created_file, dir_changes, dirs_made, keep_backup, make_dirs, rollback, run, write_file,
  write_known, write_over, write_read, written,
}
use casdoor_aiguard.Patch.State.Os.{
  Call, FilePath, Fs, IsOs, IsPermitted, IsTree, IsWhole, IsWhole-failed, Os, ReadResult, absent,
  content, directory, file, missing_dirs, not_there, put, put_other, put_dirs, unreadable,
}
use casdoor_aiguard.Patch.State.Journal.{
  Target, apply, edited, loaded, forget, forget_backups, read_or_empty, revert, revert_saved,
  rolled_back, save, settled, unsaved, finish, then_make_dirs, then_read_file, then_write_file,
}
use casdoor_aiguard.Patch.State.Undone.{
  Made, directory_made, file_changed, file_made, nothing, rollback-restores,
}

-- A later backup leaves the earlier ones as they are.
Made-keep_backup :
    (b : Backups) (before : Fs) (n : BackupName) (text : Str) (cs : List Change) (fs : Fs)
    → length cs ≤ n.index
    → Made b before cs fs
    → Made (keep_backup n text b) before cs fs
Made-keep_backup b before n text _ _ le nothing = nothing
Made-keep_backup b before n text _ _ le (directory_made {cs = cs} {fs = fs} p m a below) =
    directory_made p
      (Made-keep_backup b before n text cs fs (omega (arith, length-append cs (change_dir p ∷ [])))
        m)
      a below
Made-keep_backup b before n text _ _ le (file_made {cs = cs} {fs = fs} p t k m a) =
    file_made p t k
      (Made-keep_backup b before n text cs fs
        (omega (arith, length-append cs (created_file p ∷ []))) m)
      a
Made-keep_backup b before n text _ _ le
      (file_changed {cs = cs} {fs = fs} p t old k mode name m a kept i) =
    let long : suc (length cs) ≤ n.index =
      omega (arith, length-append cs (changed_file p name mode ∷ [])) in
    file_changed p t old k mode name (Made-keep_backup b before n text cs fs (omega arith) m) a
      (unfold keep_backup in rw (other name (omega arith)) kept) i
  where
    other :
        (name : BackupName)
        → name.index < n.index
        → (eqb n.index name.index && n.base == name.base) ≡ false
    other name lt = ground arith

-- Above the path itself nothing is created on the way to it.
put_dirs-above :
    (os : Os) (fs : Fs) (p q : FilePath)
    → length p < length q
    → put_dirs (missing_dirs os fs p) fs q ≡ fs q
unfolding missing_dirs put_dirs
put_dirs-above os fs [] q lt = elim (Bool-cases (os.stat_ok [] fs)) [
  | inl e ↦ rw e
  | inr e ↦ rw e (put_other [] q directory fs (λ s. absurd (omega (arith, ap length s))))
]
put_dirs-above os fs (name ∷ p) q lt = elim (Bool-cases (os.stat_ok (name ∷ p) fs)) [
  | inl e ↦ rw e
  | inr e ↦ rw e (
      put_other (name ∷ p) q directory (put_dirs (missing_dirs os fs p) fs)
        (λ s. absurd (omega (arith, ap length s)))
      ∙ put_dirs-above os fs p q (omega arith))
]

module _ {os : Os} (free : IsPermitted os) (b : Backups) (before : Fs) where
  Made-missing_dirs :
      (cs : List Change) (fs : Fs) (p : FilePath)
      → IsTree fs
      → Made b before cs fs
      → Made b before
          (cs ++ dir_changes (missing_dirs os fs p))
          (put_dirs (missing_dirs os fs p) fs)
  unfolding missing_dirs put_dirs dir_changes
  Made-missing_dirs cs fs [] tree m = elim (Bool-cases (os.stat_ok [] fs)) [
    | inl e ↦ rw (e, append-nil) m
    | inr e ↦ rw e (
        directory_made [] m (free.stat_absent [] fs e)
          (λ name. tree.rooted name [] (free.stat_absent [] fs e)))
  ]
  Made-missing_dirs cs fs (name ∷ p) tree m = elim (Bool-cases (os.stat_ok (name ∷ p) fs)) [
    | inl e ↦ rw (e, append-nil) m
    | inr e ↦
        let gone : fs (name ∷ p) ≡ absent = free.stat_absent (name ∷ p) fs e in
        let ds = missing_dirs os fs p in
        rw e (
          subst (λ l. Made b before l (put (name ∷ p) directory (put_dirs ds fs)))
            (append_assoc cs (dir_changes ds) (change_dir (name ∷ p) ∷ []))
            (directory_made (name ∷ p) (Made-missing_dirs cs fs p tree m)
              (put_dirs-above os fs p (name ∷ p) (omega arith) ∙ gone)
              (λ n.
                put_dirs-above os fs p (n ∷ name ∷ p) (omega arith)
                ∙ tree.rooted n (name ∷ p) gone)))
  ]

-- No write and no creation of directories in the run of a patcher fails midway.
unfoldable pub RunsWhole : Os → Faults → Edits → World → List Change → Type 0
unfolding make_dirs write_file
RunsWhole os faults (finish e) w cs = Unit
RunsWhole os faults (then_make_dirs p next) w cs =
    IsWhole w.fs (os.make_dirs p w.fs)
    × RunsWhole os faults (next (make_dirs os faults p w cs).error)
        (make_dirs os faults p w cs).world (make_dirs os faults p w cs).changes
RunsWhole os faults (then_write_file p text perm next) w cs =
    ((k : ℕ) → IsWhole w.fs (os.write_file p text k w.fs))
    × RunsWhole os faults (next (write_file os faults p text perm w cs).error)
        (write_file os faults p text perm w cs).world
        (write_file os faults p text perm w cs).changes
RunsWhole os faults (then_read_file p next) w cs =
    RunsWhole os faults (next (read_or_empty (os.read_file p w.fs))) w cs

-- What holds between two calls of the change set.
abbrev Holds : Fs → World → List Change → Type 0
Holds before w cs = Made w.backups before cs w.fs × IsTree w.fs

abbrev Leaves : Fs → Done → Type 0
Leaves before d = Holds before d.world d.changes

module _ {os : Os} (ok : IsOs os) (free : IsPermitted os) (faults : Faults) (before : Fs) where
  dirs_made-Leaves :
      (p : FilePath) (w : World) (cs : List Change) (r : Call)
      → os.make_dirs p w.fs ≡ r
      → IsWhole w.fs (os.make_dirs p w.fs)
      → Holds before w cs
      → Leaves before (dirs_made os faults p w cs r)
  unfolding dirs_made
  dirs_made-Leaves p w cs (some e, fs) q whole (m, tree) =
      let same : fs ≡ w.fs = IsWhole-failed whole q in
      (subst (Made w.backups before cs) (sym same) m, subst IsTree (sym same) tree)
  dirs_made-Leaves p w cs (none, fs) q whole (m, tree) =
      let made : fs ≡ put_dirs (missing_dirs os w.fs p) w.fs = ok.make_dirs_done p w.fs fs q in
      (
        subst (Made w.backups before (cs ++ dir_changes (missing_dirs os w.fs p))) (sym made)
            (Made-missing_dirs free w.backups before cs w.fs p tree m),
        subst (λ (r : Call). IsTree r.1) q (ok.make_dirs_tree p w.fs tree),
      )

  -- A write whose change undoes it.
  written-Leaves :
      (p : FilePath) (text : Str) (perm : ℕ) (c : Change) (w : World) (cs : List Change) (r : Call)
      → os.write_file p text perm w.fs ≡ r
      → IsWhole w.fs (os.write_file p text perm w.fs)
      → Holds before w cs
      → ((k : ℕ) → Made w.backups before (cs ++ c ∷ []) (put p (file text k) w.fs))
      → Leaves before (written os faults c w cs r)
  unfolding written
  written-Leaves p text perm c w cs (some e, fs) q whole (m, tree) more =
      let same : fs ≡ w.fs = IsWhole-failed whole q in
      (subst (Made w.backups before cs) (sym same) m, subst IsTree (sym same) tree)
  written-Leaves p text perm c w cs (none, fs) q whole (m, tree) more =
      let (k, done) = ok.write_done p text perm w.fs fs q in
      (
        subst (Made w.backups before (cs ++ c ∷ [])) (sym done) (more k),
        subst (λ (r : Call). IsTree r.1) q (ok.write_tree p text perm w.fs tree),
      )

  keep_backup_self :
      (n : BackupName) (text : Str) (b : Backups) → keep_backup n text b n ≡ some text
  unfolding keep_backup
  keep_backup_self n text b = ground (arith, eq_refl n.base)

  write_over-Leaves :
      (p : FilePath) (text old : Str) (mode : ℕ) (w : World) (cs : List Change) (o : Option Str)
      → w.fs p ≡ file old mode
      → IsWhole w.fs (os.write_file p text mode w.fs)
      → Holds before w cs
      → Leaves before (write_over os faults p text old mode w cs o)
  unfolding write_over
  write_over-Leaves p text old mode w cs (some e) a whole h = h
  write_over-Leaves p text old mode w cs none a whole (m, tree) =
      let name : BackupName = record { index = length cs; base = base_name p } in
      let b = keep_backup name old w.backups in
      let m' : Made b before cs w.fs =
        Made-keep_backup w.backups before name old cs w.fs (omega arith) m in
      written-Leaves p text mode (changed_file p name mode) (record w { backups = b }) cs
        (os.write_file p text mode w.fs) refl whole (m', tree)
        (λ k. file_changed p text old k mode name m' a (keep_backup_self name old w.backups) refl)

  write_known-Leaves :
      (p : FilePath) (text old : Str) (w : World) (cs : List Change) (o : Option ℕ)
      → os.mode_of p w.fs ≡ o
      → os.read_file p w.fs ≡ content old
      → ((k : ℕ) → IsWhole w.fs (os.write_file p text k w.fs))
      → Holds before w cs
      → Leaves before (write_known os faults p text old w cs o)
  unfolding write_known
  write_known-Leaves p text old w cs none q r whole h = h
  write_known-Leaves p text old w cs (some mode) q r whole h =
      write_over-Leaves p text old mode w cs
        (faults.backup (record { index = length cs; base = base_name p }))
        (ok.mode_found p w.fs mode old q r) (whole mode) h

  write_read-Leaves :
      (p : FilePath) (text : Str) (perm : ℕ) (w : World) (cs : List Change) (r : ReadResult)
      → os.read_file p w.fs ≡ r
      → ((k : ℕ) → IsWhole w.fs (os.write_file p text k w.fs))
      → Holds before w cs
      → Leaves before (write_read os faults p text perm w cs r)
  unfolding write_read
  write_read-Leaves p text perm w cs (content old) q whole h =
      write_known-Leaves p text old w cs (os.mode_of p w.fs) refl q whole h
  write_read-Leaves p text perm w cs not_there q whole (m, tree) =
      written-Leaves p text perm (created_file p) w cs (os.write_file p text perm w.fs) refl
        (whole perm) (m, tree) (λ k. file_made p text k m (ok.not_found p w.fs q))
  write_read-Leaves p text perm w cs (unreadable e) q whole h = h

  run-Leaves :
      (edits : Edits) (w : World) (cs : List Change)
      → RunsWhole os faults edits w cs
      → Holds before w cs
      → Leaves before (run os faults edits w cs)
  unfolding run make_dirs write_file RunsWhole
  run-Leaves (finish e) w cs whole h = h
  run-Leaves (then_make_dirs p next) w cs (this, rest) h =
      let d = make_dirs os faults p w cs in
      run-Leaves (next d.error) d.world d.changes rest
        (dirs_made-Leaves p w cs (os.make_dirs p w.fs) refl this h)
  run-Leaves (then_write_file p text perm next) w cs (this, rest) h =
      let d = write_file os faults p text perm w cs in
      run-Leaves (next d.error) d.world d.changes rest
        (write_read-Leaves p text perm w cs (os.read_file p w.fs) refl this h)
  run-Leaves (then_read_file p next) w cs whole h =
      run-Leaves (next (read_or_empty (os.read_file p w.fs))) w cs whole h

fs_of : Option Str × Target → Fs
fs_of r = r.1.world.fs

module _ (os : Os) (faults : Faults) where
  forget_backups-keeps :
      (t : Target) (o : Option Str) → fs_of (forget_backups os faults t o) ≡ t.world.fs
  unfolding forget_backups fs_of
  forget_backups-keeps t none = refl
  forget_backups-keeps t (some e) = refl

  forget-keeps : (t : Target) (o : Option Str) → fs_of (forget os faults t o) ≡ t.world.fs
  unfolding forget fs_of
  forget-keeps t (some e) = refl
  forget-keeps t none =
      unfold fs_of in forget_backups-keeps (record t { manifest = none }) faults.forget_backups

  forget_backups-done :
      (t : Target) (o : Option Str)
      → t.manifest ≡ none
      → (forget_backups os faults t o).1.manifest ≡ none
  unfolding forget_backups
  forget_backups-done t none h = h
  forget_backups-done t (some e) h = h

  forget-done :
      (t t' : Target) (o : Option Str) → forget os faults t o ≡ (none, t') → t'.manifest ≡ none
  unfolding forget
  forget-done t t' (some e) h = cc
  forget-done t t' none h =
      ap (λ (r : Option Str × Target). r.1.manifest) (sym h)
      ∙ forget_backups-done (record t { manifest = none }) faults.forget_backups refl

  -- What a rollback that ends a revert without an error leaves.
  rolled_back-clean :
      (t t' : Target) (r : Call)
      → rolled_back os faults t r ≡ (none, t')
      → (r.0 ≡ none) × (t'.world.fs ≡ r.1) × (t'.manifest ≡ none)
  unfolding rolled_back
  rolled_back-clean t t' (some e, fs) h = cc
  rolled_back-clean t t' (none, fs) h =
      let t1 : Target = record t { world = record { fs = fs; backups = t.world.backups } } in
      (
        refl,
        ap (λ (r : Option Str × Target). r.1.world.fs) (sym h)
            ∙ (unfold fs_of in forget-keeps t1 faults.forget),
        forget-done t1 t' faults.forget h,
      )

  loaded-clean :
      (t t' : Target) (cs : List Change) (o : Option Str)
      → t.manifest ≡ some cs
      → loaded os faults t o ≡ (none, t')
      → ((rollback os faults t.world.backups cs t.world.fs).0 ≡ none)
        × (t'.world.fs ≡ (rollback os faults t.world.backups cs t.world.fs).1)
        × (t'.manifest ≡ none)
  unfolding loaded revert_saved
  loaded-clean t t' cs (some e) saved h = cc
  loaded-clean t t' cs none saved h =
      rolled_back-clean t t' (rollback os faults t.world.backups cs t.world.fs)
        (subst (λ m. revert_saved os faults t m ≡ (none, t')) saved h)

  -- Before a first patch there is nothing to revert.
  loaded-unpatched :
      (t t' : Target) (o : Option Str)
      → t.manifest ≡ none
      → loaded os faults t o ≡ (none, t')
      → t' ≡ t
  unfolding loaded revert_saved
  loaded-unpatched t t' (some e) fresh h = cc
  loaded-unpatched t t' none fresh h =
      same (subst (λ m. revert_saved os faults t m ≡ (none, t')) fresh h)
    where
      same : ◌≡◌ {A = Option Str × Target} (none, t) (none, t') → t' ≡ t
      same q = sym (ap (λ (r : Option Str × Target). r.1) q)

  saved_or_not :
      (t t' : Target) (cs : List Change) (o : Option Str)
      → save os faults t cs o ≡ (none, t')
      → t' ≡ record t { manifest = some cs }
  unfolding save unsaved
  saved_or_not t t' cs none h = sym (ap (λ (r : Option Str × Target). r.1) h)
  saved_or_not t t' cs (some e) h = cc

  settled-saved :
      (t t' : Target) (o : Option Str) (cs : List Change)
      → settled os faults t o cs ≡ (none, t')
      → t' ≡ record t { manifest = some cs }
  unfolding settled
  settled-saved t t' (some e) cs h = cc
  settled-saved t t' none cs h = saved_or_not t t' cs faults.save h

  edited-saved :
      (edits : Edits) (t1 t' : Target) (r : Option Str × Target)
      → (r.0 ≡ none → r.1 ≡ t1)
      → edited os faults edits r ≡ (none, t')
      → t' ≡ record {
        world = (run os faults edits t1.world []).world;
        manifest = some (run os faults edits t1.world []).changes;
      }
  unfolding edited
  edited-saved edits t1 t' (some e, t) f h = cc
  edited-saved edits t1 t' (none, t) f h =
      let d = run os faults edits t.world [] in
      settled-saved (record t { world = d.world }) t' d.error d.changes h
      ∙ ap
          (λ (x : Target). record {
            world = (run os faults edits x.world []).world;
            manifest = some (run os faults edits x.world []).changes;
          })
          (f refl)

  reverted_is :
      (t : Target) → t.manifest ≡ none → (revert os faults t).0 ≡ none → (revert os faults t).1 ≡ t
  unfolding revert
  reverted_is t fresh q =
      loaded-unpatched t (loaded os faults t faults.load).1 faults.load fresh
        (ap (λ o. (o, (loaded os faults t faults.load).1)) q)

  -- The files after a run whose rollback was without an error.
  save-failed :
      (t t' : Target) (cs : List Change) (o : Option Str) (e : Str)
      → save os faults t cs o ≡ (some e, t')
      → t'.world.fs ≡ (rollback os faults t.world.backups cs t.world.fs).1
  unfolding save unsaved
  save-failed t t' cs none e h = cc
  save-failed t t' cs (some e') e h = sym (ap (λ (r : Option Str × Target). r.1.world.fs) h)

  settled-failed :
      (t t' : Target) (o : Option Str) (cs : List Change) (e : Str)
      → settled os faults t o cs ≡ (some e, t')
      → t'.world.fs ≡ (rollback os faults t.world.backups cs t.world.fs).1
  unfolding settled
  settled-failed t t' none cs e h = save-failed t t' cs faults.save e h
  settled-failed t t' (some e') cs e h = sym (ap (λ (r : Option Str × Target). r.1.world.fs) h)

  loaded-fs :
      (t : Target) (o : Option Str) → t.manifest ≡ none → fs_of (loaded os faults t o) ≡ t.world.fs
  unfolding loaded revert_saved fs_of
  loaded-fs t (some e) fresh = refl
  loaded-fs t none fresh =
      subst (λ m. fs_of (revert_saved os faults t m) ≡ t.world.fs) (sym fresh) refl

  edited-failed :
      (edits : Edits) (t t' : Target) (r : Option Str × Target) (e : Str)
      → (r.0 ≡ none → r.1 ≡ t)
      → r.1.world.fs ≡ t.world.fs
      → edited os faults edits r ≡ (some e, t')
      → (t'.world.fs ≡ t.world.fs)
        ⊎ (t'.world.fs
            ≡ (rollback os faults
                (run os faults edits t.world []).world.backups
                (run os faults edits t.world []).changes
                (run os faults edits t.world []).world.fs).1)
  unfolding edited
  edited-failed edits t t' (some e', s) e f g h =
      inl (sym (ap (λ (r : Option Str × Target). r.1.world.fs) h) ∙ g)
  edited-failed edits t t' (none, s) e f g h =
      let d = run os faults edits s.world [] in
      inr (
        settled-failed (record s { world = d.world }) t' d.error d.changes e h
        ∙ ap
            (λ (x : Target).
              (rollback os faults (run os faults edits x.world []).world.backups
                (run os faults edits x.world []).changes
                (run os faults edits x.world []).world.fs).1)
            (f refl))

-- A patch that is applied to an unpatched target and then reverted, both without an error and with
-- nobody else at the files in between, leaves every file and directory as it found them, and the
-- target unpatched: for any patcher that acts through its change set and of whose writes and
-- creations of directories none fails midway, where a stat fails only if nothing stands there and a
-- directory that is empty can be removed.
pub revert-apply :
    {os : Os} (ok : IsOs os) (free : IsPermitted os) (faults later : Faults) (edits : Edits)
    (t patched reverted : Target)
    → IsTree t.world.fs
    → t.manifest ≡ none
    → RunsWhole os faults edits t.world []
    → apply os faults edits t ≡ (none, patched)
    → revert os later patched ≡ (none, reverted)
    → (reverted.world.fs ≡ t.world.fs) × (reverted.manifest ≡ none)
unfolding apply
revert-apply {os = os} ok free faults later edits t patched reverted tree fresh whole applied
      undone =
    let d = run os faults edits t.world [] in
    let is =
      edited-saved os faults edits t patched (revert os faults t) (reverted_is os faults t fresh)
        applied in
    let (quiet, back, gone) =
      loaded-clean os later patched reverted d.changes later.load
        (ap (λ (x : Target). x.manifest) is) (unfold revert in undone) in
    let made : Made d.world.backups t.world.fs d.changes d.world.fs =
      (run-Leaves ok free faults t.world.fs edits t.world [] whole (nothing, tree)).0 in
    (
      back
          ∙ rollback-restores ok free later patched.world.backups t.world.fs d.changes
              patched.world.fs
              (subst (λ (x : Target). Made x.world.backups t.world.fs d.changes x.world.fs) (sym is)
                made)
              quiet,
      gone,
    )

-- A patch of an unpatched target that fails, whether in the patcher or in the saving of its
-- manifest, leaves every file and directory as it found them, if the rollback of what the patcher
-- did meets no error: for any patcher that acts through its change set and of whose writes and
-- creations of directories none fails midway, where a stat fails only if nothing stands there and a
-- directory that is empty can be removed.
pub apply-failed :
    {os : Os} (ok : IsOs os) (free : IsPermitted os) (faults : Faults) (edits : Edits)
    (t t' : Target) (e : Str)
    → IsTree t.world.fs
    → t.manifest ≡ none
    → RunsWhole os faults edits t.world []
    → (rollback os faults
        (run os faults edits t.world []).world.backups
        (run os faults edits t.world []).changes
        (run os faults edits t.world []).world.fs).0
      ≡ none
    → apply os faults edits t ≡ (some e, t')
    → t'.world.fs ≡ t.world.fs
unfolding apply
apply-failed {os = os} ok free faults edits t t' e tree fresh whole quiet h =
    let d = run os faults edits t.world [] in
    let made : Made d.world.backups t.world.fs d.changes d.world.fs =
      (run-Leaves ok free faults t.world.fs edits t.world [] whole (nothing, tree)).0 in
    elim (edited-failed os faults edits t t' (revert os faults t) e (reverted_is os faults t fresh)
      (unfold revert fs_of in loaded-fs os faults t faults.load fresh) h) [
        | inl same ↦ same
        | inr back ↦
            back
            ∙ rollback-restores ok free faults d.world.backups t.world.fs d.changes d.world.fs made
                quiet
      ]
