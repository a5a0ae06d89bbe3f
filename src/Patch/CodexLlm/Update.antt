-- ===== src/Patch/CodexLlm/Update.antt =====
-- patch/codex_llm.go, `updateCodexLLMConfig`: both files or none.
use casdoor_aiguard.Common.Dict.{Dict}
use casdoor_aiguard.Common.Text.{Str, codes}
use casdoor_aiguard.Common.{Bool, not, ℕ, Option, none, some, [], ◌++◌, if◌then◌else◌}
use casdoor_aiguard.Files.{File, Written, atomic_write_file}
use casdoor_aiguard.Json.{Fields, end}
use casdoor_aiguard.Patch.CodexToml.Edit.{Edit, Result, err, is_empty_edit, ok}
use casdoor_aiguard.Patch.CodexToml.Verify.{edit_codex_toml}
use casdoor_aiguard.Patch.CodexLlm.{
  Attempt, Calls, Codecs, Home, SwitchError, cannot_update, config_not_written, failed, got, io,
  not_encoded, read_file,
}

-- `restoreFileState`: what stood there, the mode that was read, and what stands there now.
unfoldable pub restore_file_state : Calls → Option File → ℕ → Option File → Option File
unfolding atomic_write_file
restore_file_state c none mode now = elim c.remove [ none ↦ none | some _ ↦ now ]
restore_file_state c (some f) mode now =
    (atomic_write_file c.restore f.content mode now).disk.target

abbrev pub Outcome : Type 0
Outcome = Home × Option SwitchError

abbrev pub some_text : Result Str → Result (Option Str)
some_text (err e) = err e
some_text (ok text) = ok (some text)

-- What a mutation makes of the two files, and whether anything changes.
abbrev pub Mutation : Type 0 → Type 0
Mutation V = Fields → Dict V → Fields × Edit × Bool

module _ {V : Type 0} (k : Codecs V) where
  unfoldable pub new_config : Str → Edit → Result (Option Str)
  unfolding is_empty_edit edit_codex_toml
  new_config content edit =
      if is_empty_edit edit
      then ok none
      else some_text (edit_codex_toml k.unmarshal k.as_table k.deep_equal content edit)

module _ {V : Type 0} (k : Codecs V) (c : Calls) (h : Home) where
  -- Behind the write of config.toml, given its error.
  unfoldable pub config_written : ℕ → Written → Written → Option Str → Outcome
  unfolding restore_file_state
  config_written mode auth config none =
      (record { auth = auth.disk.target; config = config.disk.target }, none)
  config_written mode auth config (some e) = (
    record {
      auth = restore_file_state c h.auth mode auth.disk.target;
      config = config.disk.target;
    },
    some (config_not_written e),
  )

  -- Behind the write of auth.json, given its error.
  unfoldable pub auth_written : ℕ → ℕ → Option Str → Written → Option Str → Outcome
  unfolding config_written atomic_write_file
  auth_written mode config_mode updated auth (some e) =
      (record h { auth = auth.disk.target }, some (io e))
  auth_written mode config_mode none auth none = (record h { auth = auth.disk.target }, none)
  auth_written mode config_mode (some text) auth none =
      let config = atomic_write_file c.write_config text config_mode h.config in
      config_written mode auth config config.error

  -- `writeJSONConfigFile` and what follows, given the text of auth.json.
  unfoldable pub write_both : ℕ → ℕ → Option Str → Option Str → Outcome
  unfolding auth_written atomic_write_file
  write_both mode config_mode updated none = (h, some not_encoded)
  write_both mode config_mode updated (some text) =
      let auth = atomic_write_file c.write_auth (text ++ codes "\n") mode h.auth in
      auth_written mode config_mode updated auth auth.error

  unfoldable pub dirs_made : ℕ → ℕ → Fields → Option Str → Option Str → Outcome
  unfolding write_both
  dirs_made mode config_mode auth updated (some e) = (h, some (io e))
  dirs_made mode config_mode auth updated none =
      write_both mode config_mode updated (k.marshal auth)

  -- Behind the edit of config.toml, none of which is written yet.
  unfoldable pub config_edited : ℕ → ℕ → Fields → Result (Option Str) → Outcome
  unfolding dirs_made
  config_edited mode config_mode auth (err e) = (h, some (cannot_update e))
  config_edited mode config_mode auth (ok updated) =
      dirs_made mode config_mode auth updated c.make_dirs

  unfoldable pub mutated : ℕ → Str → ℕ → Fields × Edit × Bool → Outcome
  unfolding config_edited new_config
  mutated mode content config_mode (auth, edit, changed) =
      if not changed
      then (h, none)
      else config_edited mode config_mode auth (new_config k content edit)

  unfoldable pub config_read : Mutation V → Fields × Str × ℕ → Attempt (Dict V × Str × ℕ) → Outcome
  unfolding mutated
  config_read mutate auth (failed e) = (h, some e)
  config_read mutate (auth, text, mode) (got (settings, content, config_mode)) =
      mutated mode content config_mode (mutate auth settings)

  unfoldable pub auth_read : Mutation V → Attempt (Fields × Str × ℕ) → Outcome
  unfolding config_read read_file
  auth_read mutate (failed e) = (h, some e)
  auth_read mutate (got auth) =
      config_read mutate auth (read_file c.read_config c.stat_config [] k.unmarshal h.config)

  unfoldable pub backup_read : Mutation V → Option Str → Outcome
  unfolding auth_read read_file
  backup_read mutate (some e) = (h, some (io e))
  backup_read mutate none =
      auth_read mutate (read_file c.read_auth c.stat_auth end k.parse_json h.auth)

  -- `updateCodexLLMConfig`
  unfoldable pub update_codex_llm_config : Mutation V → Outcome
  unfolding backup_read
  update_codex_llm_config mutate = backup_read mutate c.read_backup
