-- ===== src/Patch/CodexToml/Kept/Provided.antt =====
-- patch/codex_toml.go, `apply`: the provider's new table.
use casdoor_aiguard.Common.Text.{is_empty, trim_space}
use casdoor_aiguard.Common.{
  ◌-◌, Bool, true, false, not, Option, none, some, List, [], ◌∷◌, ◌≡◌, refl, is_nil, length,
  if◌then◌else◌, Bool-cases, inl, inr, All,
}
use casdoor_aiguard.Patch.CodexToml.Document.{Document, Table, table_of}
use casdoor_aiguard.Patch.CodexToml.Edit.{
  Edit, Setting, Work, append_provider, codex_provider_table, line_at, provider_block,
  provider_lines, terminate_last_line,
}
use casdoor_aiguard.Patch.CodexToml.Kept.{
  Follows, IsNew, IsOf, assignment, blank, table_head, touched-terminate_last_line,
}
use casdoor_aiguard.Patch.CodexToml.Kept.Applied.{with_inserted}

module _ (d : Document) (edit : Edit) where
  provider_lines-IsNew :
      (ss : List Setting)
      → table_of codex_provider_table d.tables ≡ none
      → All (IsOf d edit codex_provider_table) ss
      → All (IsNew d edit) (provider_lines d.newline ss)
  unfolding provider_lines
  provider_lines-IsNew [] absent a = tt
  provider_lines-IsNew (s ∷ ss) absent (of, a) = elim (Bool-cases (is_empty s.value)) [
    | inl e ↦ rw e (provider_lines-IsNew ss absent a)
    | inr e ↦ rw e (
      assignment codex_provider_table s of e (inr (refl, absent)),
      provider_lines-IsNew ss absent a,
    )
  ]

  provider_block-IsNew :
      (spaced : Bool) (ss : List Setting)
      → table_of codex_provider_table d.tables ≡ none
      → All (IsOf d edit codex_provider_table) ss
      → All (IsNew d edit) (provider_block d.newline spaced ss)
  unfolding provider_block
  provider_block-IsNew true ss absent a =
      (blank, (table_head absent, provider_lines-IsNew ss absent a))
  provider_block-IsNew false ss absent a = (table_head absent, provider_lines-IsNew ss absent a)

  pub append_provider-Follows :
      (ss : List Setting) (missing : Bool) (o : Option Table) (w : Work)
      → table_of codex_provider_table d.tables ≡ o
      → All (IsOf d edit codex_provider_table) ss
      → Follows d edit w
      → Follows d edit (append_provider d ss missing o w)
  unfolding append_provider
  append_provider-Follows ss missing (some t) w found a h = h
  append_provider-Follows [] missing none w found a h = h
  append_provider-Follows (s ∷ ss) missing none w found a h =
      let ls = terminate_last_line d.newline w.lines in
      let spaced =
        if is_nil w.lines
        then missing
        else not (is_empty (trim_space (line_at (length ls - 1) ls))) in
      with_inserted d edit w ls (length ls) (provider_block d.newline spaced (s ∷ ss)) h
        (touched-terminate_last_line d edit h.touched)
        (provider_block-IsNew spaced (s ∷ ss) found a)
