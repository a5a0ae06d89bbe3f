-- ===== src/Patch/CodexLlm/Switched.antt =====
-- patch/codex_llm.go: a switch that fails leaves both files as they were.
use casdoor_aiguard.Common.Dict.{Dict}
use casdoor_aiguard.Common.Text.{Str, codes}
use casdoor_aiguard.Common.{
  Bool, true, false, ℕ, Option, none, some, ◌++◌, ◌≡◌, refl, sym, ap, ◌∙◌, subst,
}
use casdoor_aiguard.Files.Atomic.{IsAtomic, atomic_write_file-IsAtomic, kept, new_file, replaced}
use casdoor_aiguard.Files.{File, Outcomes, Written, atomic_write_file}
use casdoor_aiguard.Json.{Fields, end}
use casdoor_aiguard.Patch.CodexLlm.Update.{
  Outcome, auth_read, auth_written, backup_read, config_edited, config_read, config_written,
  dirs_made, mutated, restore_file_state, update_codex_llm_config, write_both,
}
use casdoor_aiguard.Patch.CodexLlm.{
  Attempt, Calls, Codecs, Home, SwitchError, failed, got, parse_file, parsed, read_file,
}
use casdoor_aiguard.Patch.CodexToml.Edit.{Edit, Result, err, ok}

-- The file that stands there is put back, if it has to be.
pub record Restores (c : Calls) : Type 0 where
  pub removes : c.remove ≡ none
  pub writes :
      (text : Str) (mode : ℕ) (t : Option File)
      → (atomic_write_file c.restore text mode t).error ≡ none

-- The mode that is read is that of the file.
abbrev Matches : Option File → ℕ → Type 0
Matches none mode = Unit
Matches (some f) mode = mode ≡ f.mode

-- The mode that an attempt has read.
abbrev ReadsMode {ℓ} : {A : Type ℓ} → Option File → Attempt (A × Str × ℕ) → Type 0
ReadsMode t (failed e) = Unit
ReadsMode t (got (value, text, mode)) = Matches t mode

parsed-ReadsMode {ℓ} : {A : Type ℓ} (f : File) (o : Option A) → ReadsMode (some f) (parsed f o)
unfolding parsed
parsed-ReadsMode f none = tt
parsed-ReadsMode f (some value) = refl

module _ {ℓ} {A : Type ℓ} (blank : A) (parse : Str → Option A) where
  read_file-ReadsMode :
      (e s : Option Str) (t : Option File) → ReadsMode t (read_file e s blank parse t)
  unfolding read_file parse_file
  read_file-ReadsMode (some e) s t = tt
  read_file-ReadsMode none s none = tt
  read_file-ReadsMode none (some e) (some f) = tt
  read_file-ReadsMode none none (some f) = parsed-ReadsMode f _

module _ (o : Outcomes) (text : Str) (perm : ℕ) (t : Option File) where
  IsAtomic-kept :
      {w : Written} → IsAtomic o text perm t w → {e : Str} → w.error ≡ some e → w.disk.target ≡ t
  IsAtomic-kept (replaced old) h = cc
  IsAtomic-kept (kept old gone) h = refl

  pub IsAtomic-replaced :
      {w : Written}
      → IsAtomic o text perm t w
      → w.error ≡ none
      → w.disk.target ≡ some (new_file o text perm t)
  IsAtomic-replaced (replaced old) h = refl
  IsAtomic-replaced (kept old gone) h = cc

restore_file_state-old :
    (c : Calls) (old : Option File) (mode : ℕ) (text : Str)
    → Restores c
    → Matches old mode
    → restore_file_state c old mode (some (new_file c.write_auth text mode old)) ≡ old
unfolding restore_file_state
restore_file_state-old c none mode text r m = rw r.removes
restore_file_state-old c (some f) mode text r m =
    let now = some (new_file c.write_auth text mode (some f)) in
    IsAtomic-replaced c.restore f.content mode now
      (atomic_write_file-IsAtomic c.restore f.content mode now) (r.writes f.content mode now)
    ∙ ap (λ n. some (record f { mode = n })) m

-- If there is an error, both files are as they were.
data Untouched (h : Home) : Outcome → Type 0 where
  same : {e : Option SwitchError} → Untouched h (h, e)
  done : {now : Home} → Untouched h (now, none)

same_as : {h now : Home} → {e : Option SwitchError} → now ≡ h → Untouched h (now, e)
same_as {h} {now} {e} q = subst (λ x. Untouched h (x, e)) (sym q) same

Untouched-error :
    {h : Home} → {o : Outcome} → Untouched h o → {e : SwitchError} → o.1 ≡ some e → o.0 ≡ h
Untouched-error same q = refl
Untouched-error done q = cc

module _ {V : Type 0} (k : Codecs V) (c : Calls) (h : Home) (restores : Restores c) where
  config_written-Untouched :
      (mode : ℕ) (text : Str) (auth config : Written) (r : Option Str)
      → Matches h.auth mode
      → auth.disk.target ≡ some (new_file c.write_auth text mode h.auth)
      → ((e : Str) → r ≡ some e → config.disk.target ≡ h.config)
      → Untouched h (config_written k c h mode auth config r)
  unfolding config_written
  config_written-Untouched mode text auth config none m a b = done
  config_written-Untouched mode text auth config (some x) m a b = same_as (
      sym (
        ap (λ t. record { auth = t; config = h.config })
          (sym (restore_file_state-old c h.auth mode text restores m)
            ∙ ap (restore_file_state c h.auth mode) (sym a))
        ∙ ap (λ t. record { auth = restore_file_state c h.auth mode auth.disk.target; config = t })
            (sym (b x refl))))

  auth_written-Untouched :
      (mode config_mode : ℕ) (updated : Option Str) (text : Str) (auth : Written) (r : Option Str)
      → Matches h.auth mode
      → IsAtomic c.write_auth text mode h.auth auth
      → auth.error ≡ r
      → Untouched h (auth_written k c h mode config_mode updated auth r)
  unfolding auth_written
  auth_written-Untouched mode config_mode updated text auth (some x) m a q =
      same_as (ap (λ t. record h { auth = t }) (IsAtomic-kept c.write_auth text mode h.auth a q))
  auth_written-Untouched mode config_mode none text auth none m a q = done
  auth_written-Untouched mode config_mode (some new) text auth none m a q =
      let config = atomic_write_file c.write_config new config_mode h.config in
      config_written-Untouched mode text auth config config.error m
        (IsAtomic-replaced c.write_auth text mode h.auth a q)
        (λ e bad.
          IsAtomic-kept c.write_config new config_mode h.config
            (atomic_write_file-IsAtomic c.write_config new config_mode h.config) bad)

  write_both-Untouched :
      (mode config_mode : ℕ) (updated : Option Str) (o : Option Str)
      → Matches h.auth mode
      → Untouched h (write_both k c h mode config_mode updated o)
  unfolding write_both
  write_both-Untouched mode config_mode updated none m = same
  write_both-Untouched mode config_mode updated (some text) m =
      auth_written-Untouched mode config_mode updated (text ++ codes "\n") _ _ m
        (atomic_write_file-IsAtomic c.write_auth (text ++ codes "\n") mode h.auth) refl

  config_edited-Untouched :
      (mode config_mode : ℕ) (auth : Fields) (r : Result (Option Str))
      → Matches h.auth mode
      → Untouched h (config_edited k c h mode config_mode auth r)
  unfolding config_edited
  config_edited-Untouched mode config_mode auth (err x) m = same
  config_edited-Untouched mode config_mode auth (ok updated) m = go c.make_dirs
    where
      go : (r : Option Str) → Untouched h (dirs_made k c h mode config_mode auth updated r)
      go (some x) = same
      go none = write_both-Untouched mode config_mode updated (k.marshal auth) m

  mutated-Untouched :
      (mode : ℕ) (content : Str) (config_mode : ℕ) (x : Fields × Edit × Bool)
      → Matches h.auth mode
      → Untouched h (mutated k c h mode content config_mode x)
  unfolding mutated
  mutated-Untouched mode content config_mode (auth, edit, false) m = same
  mutated-Untouched mode content config_mode (auth, edit, true) m =
      config_edited-Untouched mode config_mode auth _ m

  module _ (mutate : Fields → Dict V → Fields × Edit × Bool) where
    config_read-Untouched :
        (auth : Fields × Str × ℕ) (r : Attempt (Dict V × Str × ℕ))
        → ReadsMode h.auth (got auth)
        → Untouched h (config_read k c h mutate auth r)
    unfolding config_read
    config_read-Untouched auth (failed x) m = same
    config_read-Untouched (auth, text, mode) (got (settings, content, config_mode)) m =
        mutated-Untouched mode content config_mode (mutate auth settings) m

    auth_read-Untouched :
        (r : Attempt (Fields × Str × ℕ))
        → ReadsMode h.auth r
        → Untouched h (auth_read k c h mutate r)
    unfolding auth_read
    auth_read-Untouched (failed x) m = same
    auth_read-Untouched (got auth) m = config_read-Untouched auth _ m

    backup_read-Untouched : (r : Option Str) → Untouched h (backup_read k c h mutate r)
    unfolding backup_read
    backup_read-Untouched (some x) = same
    backup_read-Untouched none =
        auth_read-Untouched _ (read_file-ReadsMode end k.parse_json c.read_auth c.stat_auth h.auth)

    -- A change of Codex's provider that ends in an error leaves auth.json and config.toml as they
    -- were, with content, mode and owner: whichever call fails and whatever the change is, if the
    -- restoring of auth.json itself meets no error.
    pub update_codex_llm_config-failed :
        (e : SwitchError)
        → (update_codex_llm_config k c h mutate).1 ≡ some e
        → (update_codex_llm_config k c h mutate).0 ≡ h
    unfolding update_codex_llm_config
    update_codex_llm_config-failed e q = Untouched-error (backup_read-Untouched c.read_backup) q
