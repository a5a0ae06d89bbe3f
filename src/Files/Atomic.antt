-- ===== src/Files/Atomic.antt =====
-- util/atomicfile.go: a write leaves the old file or the new one.
use casdoor_aiguard.Common.Text.{Str}
use casdoor_aiguard.Common.{
  ℕ, Option, none, some, List, [], ◌≡◌, refl, All, eqb, eqb_iff, Bool-cases, inl, inr, sym, subst,
}
use casdoor_aiguard.Files.{
  Disk, File, Outcomes, Written, atomic_write_file, carry_owner_forward, chmod_temp, chowned,
  close_temp, create_temp, own_temp, owned, rename_temp, stat_target, stop, untouched, write_temp,
}

-- The owner of a new file: that of the old one, if there is one.
abbrev pub new_owner : Outcomes → Option File → ℕ
new_owner o none = o.process
new_owner o (some old) = old.owner

abbrev pub new_file : Outcomes → Str → ℕ → Option File → File
new_file o text perm t = record { content = text; mode = perm; owner = new_owner o t }

-- At every moment the old file was there.
abbrev pub Old : Option File → List Disk → Type 0
Old t past = All (λ (d : Disk). d.target ≡ t) past

pub data IsAtomic (o : Outcomes) (text : Str) (perm : ℕ) (t : Option File) : Written → Type 0 where
  replaced :
      {past : List Disk}
      → Old t past
      → IsAtomic o text perm t (record {
        past = past;
        disk = record { target = some (new_file o text perm t); temp = none };
        error = none;
      })
  kept :
      {past : List Disk} {temp : Option File} {e : Str}
      → Old t past
      → (o.remove ≡ none → temp ≡ none)
      → IsAtomic o text perm t
          (record { past = past; disk = record { target = t; temp = temp }; error = some e })

-- The owner is carried forward, or there is an error.
data Carried (owner : ℕ) (f : File) : File × Option Str → Type 0 where
  carried : Carried owner f (record f { owner = owner }, none)
  not_carried : {e : Str} → Carried owner f (f, some e)

chowned-Carried : (owner : ℕ) (f : File) (r : Option Str) → Carried owner f (chowned owner f r)
unfolding chowned
chowned-Carried owner f (some e) = not_carried
chowned-Carried owner f none = carried

carry_owner_forward-Carried :
    (o : Outcomes) (owner : ℕ) (f : File) (r : Option Str)
    → Carried owner f (carry_owner_forward o owner f r)
unfolding carry_owner_forward
carry_owner_forward-Carried o owner f (some e) = not_carried
carry_owner_forward-Carried o owner f none = elim (Bool-cases (eqb f.owner owner)) [
  | inl e ↦
      let same : f.owner ≡ owner = (eqb_iff f.owner owner).0 e in
      rw e (subst (λ n. Carried owner f (record f { owner = n }, none)) (sym same) carried)
  | inr e ↦ rw e (chowned-Carried owner f o.chown)
]

module _ (o : Outcomes) (text : Str) (perm : ℕ) where
  -- The temporary file, once it is written.
  abbrev created : File
  created = record { content = text; mode = 384; owner = o.process }

  stop-IsAtomic :
      (t : Option File) (f : File) (past : List Disk) (e : Str)
      → Old t past
      → IsAtomic o text perm t (stop o t f past e)
  unfolding stop
  stop-IsAtomic t f past e old = kept (refl, old) (λ q. rw q)

  rename_temp-IsAtomic :
      (t : Option File) (past : List Disk) (r : Option Str)
      → Old t past
      → IsAtomic o text perm t (rename_temp o t (new_file o text perm t) past r)
  unfolding rename_temp
  rename_temp-IsAtomic t past (some e) old = stop-IsAtomic t _ past e old
  rename_temp-IsAtomic t past none old = replaced (refl, old)

  close_temp-IsAtomic :
      (t : Option File) (past : List Disk) (r : Option Str)
      → Old t past
      → IsAtomic o text perm t (close_temp o t (new_file o text perm t) past r)
  unfolding close_temp
  close_temp-IsAtomic t past (some e) old = stop-IsAtomic t _ past e old
  close_temp-IsAtomic t past none old = rename_temp-IsAtomic t past o.rename old

  chmod_temp-IsAtomic :
      (t : Option File) (mode : ℕ) (past : List Disk) (r : Option Str)
      → Old t past
      → IsAtomic o text perm t (chmod_temp o perm t (new_file o text mode t) past r)
  unfolding chmod_temp
  chmod_temp-IsAtomic t mode past (some e) old = stop-IsAtomic t _ past e old
  chmod_temp-IsAtomic t mode past none old = close_temp-IsAtomic t _ o.close (refl, old)

  owned-IsAtomic :
      (f : File) (past : List Disk) (r : File × Option Str)
      → Old (some f) past
      → Carried f.owner created r
      → IsAtomic o text perm (some f) (owned o perm (some f) past r)
  unfolding owned
  owned-IsAtomic f past _ old carried = chmod_temp-IsAtomic (some f) 384 _ o.chmod (refl, old)
  owned-IsAtomic f past _ old (not_carried {e = e}) = stop-IsAtomic (some f) _ past e old

  own_temp-IsAtomic :
      (t : Option File) (past : List Disk)
      → Old t past
      → IsAtomic o text perm t (own_temp o perm created past t)
  unfolding own_temp
  own_temp-IsAtomic none past old = chmod_temp-IsAtomic none 384 past o.chmod old
  own_temp-IsAtomic (some f) past old =
      owned-IsAtomic f _ _ (refl, old) (carry_owner_forward-Carried o f.owner created o.stat_temp)

  write_temp-IsAtomic :
      (t : Option File) (past : List Disk) (r : Option (Str × Str))
      → Old t past
      → IsAtomic o text perm t (write_temp o text perm t (record created { content = [] }) past r)
  unfolding write_temp
  write_temp-IsAtomic t past (some (part, e)) old = stop-IsAtomic t _ _ e (refl, old)
  write_temp-IsAtomic t past none old = own_temp-IsAtomic t _ (refl, old)

  create_temp-IsAtomic :
      (t : Option File) (r : Option Str) → IsAtomic o text perm t (create_temp o text perm t r)
  unfolding create_temp untouched
  create_temp-IsAtomic t (some e) = kept tt (λ q. refl)
  create_temp-IsAtomic t none = write_temp-IsAtomic t _ o.write (refl, tt)

  stat_target-IsAtomic :
      (t : Option File) (r : Option Str) → IsAtomic o text perm t (stat_target o text perm t r)
  unfolding stat_target untouched
  stat_target-IsAtomic t (some e) = kept tt (λ q. refl)
  stat_target-IsAtomic t none = create_temp-IsAtomic t o.create

  -- Between any two calls of an atomic write the path holds what it held before. At the end there
  -- is no error, the path holds the new data with the asked mode and the owner of what it replaces,
  -- and no temporary file is left; or there is an error, the path holds what it held, and no
  -- temporary file is left unless its removal failed.
  pub atomic_write_file-IsAtomic :
      (t : Option File) → IsAtomic o text perm t (atomic_write_file o text perm t)
  unfolding atomic_write_file
  atomic_write_file-IsAtomic t = stat_target-IsAtomic t o.stat
