-- ===== src/Tests/Journaling.antt =====
-- A patch of a home directory in memory, its reverting, and one that fails.
use casdoor_aiguard.Common.Text.{Str, codes}
use casdoor_aiguard.Common.{none, some, [], ◌∷◌, ◌≡◌, ◌≢◌, refl, ap, sym, ◌∙◌}
use casdoor_aiguard.Patch.State.Journal.{
  Edits, Faults, Target, apply, finish, no_backups, revert, rollback, run, then_make_dirs,
  then_write_file,
}
use casdoor_aiguard.Patch.State.Os.{
  FilePath, Fs, IsTree, absent, directory, file, put, put_self, put_dirs,
}
use casdoor_aiguard.Patch.State.Restored.{RunsWhole, apply-failed, revert-apply}
use casdoor_aiguard.Tests.Memory.{
  IsTree-put, memory, memory-IsOs, memory-IsPermitted, memory-make_dirs-IsWhole,
  memory-write-IsWhole,
}

abbrev home : FilePath
home = codes "ann" ∷ []

abbrev settings : FilePath
settings = codes "settings.json" ∷ home

abbrev hooks : FilePath
hooks = codes "hooks" ∷ home

abbrev with_root : Fs
with_root = put [] directory (λ p. absent)

abbrev with_home : Fs
with_home = put home directory with_root

abbrev before : Fs
before = put settings (file (codes "{}") 384) with_home

root_of : {name other : Str} {p q : FilePath} → name ∷ p ≡ other ∷ q → p ≡ q
root_of e = cc

with_root-IsTree : IsTree with_root
with_root-IsTree =
    IsTree-put [] directory (λ p. absent) (λ e. cc) (λ name q e. cc)
      (record { rooted = λ name p e. refl })

with_home-IsTree : IsTree with_home
with_home-IsTree =
    IsTree-put home directory with_root (λ e. cc) (λ name q e a. below q (root_of e) a)
      with_root-IsTree
  where
    below : (q : FilePath) → [] ≡ q → with_root q ≢ absent
    below [] e a = unfold put in cc
    below (c ∷ q) e a = cc e

before-IsTree : IsTree before
before-IsTree =
    IsTree-put settings (file (codes "{}") 384) with_home (λ e. cc)
      (λ name q e a.
        there (sym (put_self home directory with_root) ∙ (ap with_home (root_of e) ∙ a)))
      with_home-IsTree
  where
    there : directory ≡ absent → ⊥
    there q = cc

abbrev fresh : Target
fresh = record { world = record { fs = before; backups = no_backups }; manifest = none }

abbrev no_faults : Faults
no_faults = record {
  backup = λ n. none;
  load = none;
  save = none;
  forget = none;
  forget_backups = none;
}

abbrev full_disk : Faults
full_disk = record no_faults { save = some (codes "disk full") }

abbrev edits : Edits
edits = then_make_dirs (codes "aiguard" ∷ hooks) (λ e.
    then_write_file (codes "a.js" ∷ codes "aiguard" ∷ hooks) (codes "hook") 420
      (λ f. then_write_file settings (codes "{hooks}") 420 (λ g. finish none)))

edits-RunsWhole : (faults : Faults) → RunsWhole memory faults edits fresh.world []
unfolding RunsWhole
edits-RunsWhole faults = (
  memory-make_dirs-IsWhole _ _,
  ((λ k. memory-write-IsWhole _ _ k _), ((λ k. memory-write-IsWhole _ _ k _), tt)),
)

abbrev patched : Target
patched = (apply memory no_faults edits fresh).1

runs_patched : patched.world.fs settings ≡ file (codes "{hooks}") 384
unfolding apply memory put put_dirs
runs_patched = refl

revert-apply_example :
    ((revert memory no_faults patched).1.world.fs ≡ before)
    × ((revert memory no_faults patched).1.manifest ≡ none)
unfolding apply revert memory put put_dirs
revert-apply_example =
    revert-apply memory-IsOs memory-IsPermitted no_faults no_faults edits fresh patched
      (revert memory no_faults patched).1 before-IsTree refl (edits-RunsWhole no_faults) refl refl

apply-failed_example : (apply memory full_disk edits fresh).1.world.fs ≡ before
unfolding apply run rollback memory put put_dirs
apply-failed_example =
    apply-failed memory-IsOs memory-IsPermitted full_disk edits fresh
      (apply memory full_disk edits fresh).1 (codes "disk full") before-IsTree refl
      (edits-RunsWhole full_disk) refl refl
