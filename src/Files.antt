-- ===== src/Files.antt =====
-- util/atomicfile.go, and `carryOwnerForward` of util/fileowner_unix.go. What the calls answer is given,
-- and nobody else writes the file meanwhile.
pub mod Atomic
use casdoor_aiguard.Common.Text.{Str}
use casdoor_aiguard.Common.{ℕ, Option, none, some, List, [], ◌∷◌, eqb, if◌then◌else◌}

-- A file, with its permission bits and the one number that stands for its user and group.
pub record File : Type 0 where
  pub content : Str
  pub mode : ℕ
  pub owner : ℕ

-- What stands under the path and under the name of the temporary file.
pub record Disk : Type 0 where
  pub target : Option File
  pub temp : Option File

-- The error of each call, `none` if it succeeds; a write that fails leaves a part of the data. `process`
-- owns the files that are created.
pub record Outcomes : Type 0 where
  pub process : ℕ
  pub stat : Option Str
  pub create : Option Str
  pub write : Option (Str × Str)
  pub stat_temp : Option Str
  pub chown : Option Str
  pub chmod : Option Str
  pub close : Option Str
  pub rename : Option Str
  pub remove : Option Str

-- The disks between two calls, the latest first, and how it ends.
pub record Written : Type 0 where
  pub past : List Disk
  pub disk : Disk
  pub error : Option Str

abbrev pub beside : Option File → File → Disk
beside t f = record { target = t; temp = some f }

-- An early return, with the deferred removal of the temporary file.
unfoldable pub stop : Outcomes → Option File → File → List Disk → Str → Written
stop o t f past e = record {
  past = beside t f ∷ past;
  disk = record { target = t; temp = elim o.remove [ none ↦ none | some _ ↦ some f ] };
  error = some e;
}

-- Each step below is given the error of its call.
unfoldable pub rename_temp : Outcomes → Option File → File → List Disk → Option Str → Written
unfolding stop
rename_temp o t f past (some e) = stop o t f past e
rename_temp o t f past none = record {
  past = beside t f ∷ past;
  disk = record { target = some f; temp = none };
  error = none;
}

unfoldable pub close_temp : Outcomes → Option File → File → List Disk → Option Str → Written
unfolding stop rename_temp
close_temp o t f past (some e) = stop o t f past e
close_temp o t f past none = rename_temp o t f past o.rename

unfoldable pub chmod_temp : Outcomes → ℕ → Option File → File → List Disk → Option Str → Written
unfolding stop close_temp
chmod_temp o perm t f past (some e) = stop o t f past e
chmod_temp o perm t f past none =
    close_temp o t (record f { mode = perm }) (beside t f ∷ past) o.close

unfoldable pub chowned : ℕ → File → Option Str → File × Option Str
chowned owner f (some e) = (f, some e)
chowned owner f none = (record f { owner = owner }, none)

-- `carryOwnerForward`, given the error of the temporary file's Stat
unfoldable pub carry_owner_forward : Outcomes → ℕ → File → Option Str → File × Option Str
unfolding chowned
carry_owner_forward o owner f (some e) = (f, some e)
carry_owner_forward o owner f none =
    if eqb f.owner owner then (f, none) else chowned owner f o.chown

unfoldable pub owned : Outcomes → ℕ → Option File → List Disk → File × Option Str → Written
unfolding stop chmod_temp
owned o perm t past (f, some e) = stop o t f past e
owned o perm t past (f, none) = chmod_temp o perm t f (beside t f ∷ past) o.chmod

-- The step from the owner on, given what stood under the path.
unfoldable pub own_temp : Outcomes → ℕ → File → List Disk → Option File → Written
unfolding owned carry_owner_forward chmod_temp
own_temp o perm f past none = chmod_temp o perm none f past o.chmod
own_temp o perm f past (some old) =
    owned o perm (some old) (beside (some old) f ∷ past)
      (carry_owner_forward o old.owner f o.stat_temp)

unfoldable pub write_temp :
    Outcomes → Str → ℕ → Option File → File → List Disk → Option (Str × Str) → Written
unfolding stop own_temp
write_temp o text perm t f past (some (part, e)) =
    stop o t (record f { content = part }) (beside t f ∷ past) e
write_temp o text perm t f past none =
    own_temp o perm (record f { content = text }) (beside t f ∷ past) t

-- A return before there is a temporary file.
unfoldable pub untouched : Option File → Str → Written
untouched t e = record { past = []; disk = record { target = t; temp = none }; error = some e }

unfoldable pub create_temp : Outcomes → Str → ℕ → Option File → Option Str → Written
unfolding untouched write_temp
create_temp o text perm t (some e) = untouched t e
create_temp o text perm t none =
    write_temp o text perm t (record { content = []; mode = 384; owner = o.process })
      (record { target = t; temp = none } ∷ []) o.write

unfoldable pub stat_target : Outcomes → Str → ℕ → Option File → Option Str → Written
unfolding untouched create_temp
stat_target o text perm t (some e) = untouched t e
stat_target o text perm t none = create_temp o text perm t o.create

-- `AtomicWriteFile`, on what stands under the path
unfoldable pub atomic_write_file : Outcomes → Str → ℕ → Option File → Written
unfolding stat_target
atomic_write_file o text perm t = stat_target o text perm t o.stat
