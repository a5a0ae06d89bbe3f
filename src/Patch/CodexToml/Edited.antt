-- ===== src/Patch/CodexToml/Edited.antt =====
-- patch/codex_toml.go, `editCodexTOML`: what an edit keeps of a document.
use casdoor_aiguard.Common.Dict.{Dict}
use casdoor_aiguard.Common.Text.{Str}
use casdoor_aiguard.Common.{Bool, Option, List, ◌≡◌, subst}
use casdoor_aiguard.Patch.CodexToml.Document.{locate}
use casdoor_aiguard.Patch.CodexToml.Edit.{Edit, ok_of_chain, apply, ok}
use casdoor_aiguard.Patch.CodexToml.Kept.{Edited}
use casdoor_aiguard.Patch.CodexToml.Kept.Rendered.{apply-Edited}
use casdoor_aiguard.Patch.CodexToml.Lines.{concat, split_toml_lines}
use casdoor_aiguard.Patch.CodexToml.Verify.{check_parses, edit_codex_toml, verify_codex_toml}
use casdoor_aiguard.Patch.CodexToml.Whole.{
  AreLines, concat-split_toml_lines, split_toml_lines-AreLines,
}

-- A text that an edit makes of the lines of another, to which these lines add up.
pub record IsEditOf (text : Str) (edit : Edit) (updated : Str) : Type 0 where
  pub lines : List Str
  pub are_lines : AreLines lines
  pub whole : concat lines ≡ text
  pub out : List Str
  pub edited : Edited (locate text) edit 0 lines out
  pub joined : updated ≡ concat out

apply-IsEditOf :
    (text : Str) (edit : Edit) (updated : Str)
    → apply (locate text) edit ≡ ok updated
    → IsEditOf text edit updated
apply-IsEditOf text edit updated h =
    let (out, joined, edited) = apply-Edited (locate text) edit updated h in
    record {
      lines = split_toml_lines text;
      are_lines = split_toml_lines-AreLines text;
      whole = concat-split_toml_lines text;
      out = out;
      edited = unfold locate in edited;
      joined = joined;
    }

-- An edit changes a config.toml line by line: of the lines that the text adds up to, each stays as it
-- was, or has the value of a key that the edit sets replaced, or gains a line ending if it has none, or
-- is taken out because the edit removes its key or drops its table, or is a blank line right above that
-- table. In between stand only new lines: keys that the edit sets and the document lacks, the head of
-- the provider's table if that is not there, and blank lines.
pub edit_codex_toml-IsEditOf :
    {V : Type 0} (unmarshal : Str → Option (Dict V)) (as_table : V → Option (Dict V))
    (deep_equal : V → V → Bool) (text : Str) (edit : Edit) (updated : Str)
    → edit_codex_toml unmarshal as_table deep_equal text edit ≡ ok updated
    → IsEditOf text edit updated
unfolding edit_codex_toml
edit_codex_toml-IsEditOf unmarshal as_table deep_equal text edit updated h =
    let (a, p, h1) = ok_of_chain (check_parses unmarshal as_table deep_equal text) _ h in
    let (u, q, h2) = ok_of_chain (apply (locate text) edit) _ h1 in
    let (b, v, h3) = ok_of_chain (verify_codex_toml unmarshal as_table deep_equal u edit) _ h2 in
    subst (λ x. IsEditOf text edit x) (value h3) (apply-IsEditOf text edit u q)
  where
    value : {a b : Str} → ok a ≡ ok b → a ≡ b
    value e = cc
