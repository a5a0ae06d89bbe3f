-- ===== src/Patch/CodexToml/Kept/Rendered.antt =====
-- patch/codex_toml.go, `apply` and `render`: the lines of the result.
use casdoor_aiguard.Common.Text.{Str}
use casdoor_aiguard.Common.{
  ℕ, ◌+◌, Bool, true, false, not, ◌&&◌, Option, none, some, List, [], ◌∷◌, ◌++◌, ◌≡◌, refl, is_nil,
  if◌then◌else◌, Bool-cases, inl, inr, All, Any, here, there, sym,
}
use casdoor_aiguard.Patch.CodexToml.Document.{Document, Table, table_of}
use casdoor_aiguard.Patch.CodexToml.Edit.{
  Edit, Result, Setting, Work, set_and_drop, ◌>>=◌, append_provider, apply, codex_provider_table,
  drop_table, err, insert_missing, insert_root, ok, render, render_from, resolve, set_provider,
  work_out,
}
use casdoor_aiguard.Patch.CodexToml.Lines.{concat}
use casdoor_aiguard.Patch.CodexToml.Kept.{
  Change, Follows, IsDropped, IsNew, IsOf, Touched, done, goes, stays, none_left, next, Edited,
  Touched_refl,
}
use casdoor_aiguard.Patch.CodexToml.Kept.Resolved.{Gives, resolve-Gives}
use casdoor_aiguard.Patch.CodexToml.Kept.Applied.{
  drop_table-Follows, insert_missing-Follows, insert_root-Follows,
}
use casdoor_aiguard.Patch.CodexToml.Kept.Provided.{append_provider-Follows}

module _ (d : Document) (edit : Edit) where
  -- What the later steps give.
  abbrev Leaves : Result Work → Type 0
  Leaves (err e) = Unit
  Leaves (ok w) = Follows d edit w

  provider_set :
      (header : ℕ) (r : Result (Work × List Str))
      → Gives d edit r
      → Leaves (r >>= λ p. ok (insert_missing d.newline header (p.0, p.1)))
  provider_set header (err e) g = tt
  provider_set header (ok (w, missing)) (h, a) = insert_missing-Follows d edit header w missing h a

  set_provider-Leaves :
      (provider : List Setting) (o : Option Table) (w : Work)
      → All (IsOf d edit codex_provider_table) provider
      → Follows d edit w
      → Leaves (set_provider d provider o w)
  unfolding set_provider
  set_provider-Leaves provider none w a h = h
  set_provider-Leaves provider (some t) w a h =
      provider_set t.header (resolve d codex_provider_table provider w)
        (resolve-Gives d edit codex_provider_table provider w a h)

  everything :
      {P : Setting → Type 0} (l : List Setting)
      → ((s : Setting) → Any (λ x. x ≡ s) l → P s)
      → All P l
  everything [] f = tt
  everything (s ∷ ss) f = (f s (here refl), everything ss (λ x a. f x (there a)))

  asked_root : All (IsOf d edit []) edit.root
  asked_root = everything edit.root (λ s a. inl (refl, a))

  asked_provider : All (IsOf d edit codex_provider_table) edit.provider
  asked_provider = everything edit.provider (λ s a. inr (refl, a))

  appended :
      (missing : List Str) (r : Result Work)
      → All (IsNew d edit) missing
      → Leaves r
      → Leaves (
          r >>= λ w. ok (
            append_provider d edit.provider
              (not (is_nil missing))
              (table_of codex_provider_table d.tables)
              (insert_root d missing w)))
  appended missing (err e) a h = tt
  appended missing (ok w) a h =
      append_provider-Follows d edit edit.provider (not (is_nil missing))
        (table_of codex_provider_table d.tables) (insert_root d missing w) refl asked_provider
        (insert_root-Follows d edit missing w h a)

  resolved :
      (r : Result (Work × List Str))
      → Gives d edit r
      → Leaves (
          r >>= λ p.
          set_provider d edit.provider
            (table_of codex_provider_table d.tables)
            (drop_table edit.drop_provider_table (table_of codex_provider_table d.tables) p.0)
          >>= λ w. ok (
              append_provider d edit.provider
                (not (is_nil p.1))
                (table_of codex_provider_table d.tables)
                (insert_root d p.1 w)))
  resolved (err e) g = tt
  resolved (ok (w, missing)) (h, a) =
      let t = table_of codex_provider_table d.tables in
      appended missing (set_provider d edit.provider t (drop_table edit.drop_provider_table t w)) a
        (set_provider-Leaves edit.provider t (drop_table edit.drop_provider_table t w)
          asked_provider (drop_table-Follows d edit edit.drop_provider_table t w refl refl h))

  work_out-Leaves : Leaves (work_out d edit)
  unfolding work_out
  work_out-Leaves =
      let w0 : Work = record { lines = d.lines; removed = λ i. false; inserted = λ i. [] } in
      resolved (resolve d [] edit.root w0) (
        resolve-Gives d edit [] edit.root w0 asked_root (record {
          touched = Touched_refl d edit 0 d.lines;
          removed = λ i. inl refl;
          inserted = λ i. tt;
        }))

  rendered :
      (i : ℕ) (w : Work) (ls ms : List Str)
      → Follows d edit w
      → Touched d edit i ls ms
      → Edited d edit i ls (render_from i w.removed w.inserted ms)
  unfolding render_from
  rendered i w ls ms h none_left = done (w.inserted i) (h.inserted i)
  rendered i w ls ms h (next {ls = ls'} {ms = ms'} c t) = elim (h.removed i) [
    | inl e ↦ rw e (stays (w.inserted i) (h.inserted i) c (rendered (i + 1) w ls' ms' h t))
    | inr dropped ↦ go (w.removed i) dropped c (rendered (i + 1) w ls' ms' h t)
  ]
    where
      go :
          {l m : Str} {rest out : List Str} (b : Bool)
          → IsDropped d edit i
          → Change d edit i l m
          → Edited d edit (i + 1) rest out
          → Edited d edit i (l ∷ rest) (w.inserted i ++ (if b then out else m ∷ out))
      go true dropped c r = goes (w.inserted i) (h.inserted i) dropped r
      go false dropped c r = stays (w.inserted i) (h.inserted i) c r

  rendering :
      (r : Result Work) (text : Str)
      → Leaves r
      → (r >>= λ w. ok (render w)) ≡ ok text
      → (out : List Str) × (text ≡ concat out) × Edited d edit 0 d.lines out
  unfolding render
  rendering (err e) text h q = absurd (no_result q)
    where
      no_result : ◌≡◌ {A = Result Str} (err e) (ok text) → ⊥
      no_result q = cc
  rendering (ok w) text h q =
      let out = render_from 0 w.removed w.inserted w.lines in
      (out, sym (result q), rendered 0 w d.lines w.lines h h.touched)
    where
      result : {a b : Str} → ok a ≡ ok b → a ≡ b
      result e = cc

  -- Of a document that `apply` edits, every line stays as it was, or has the value of a key that the
  -- edit sets replaced or its missing line ending added, or is taken out because the edit removes its
  -- key or its table; in between stand only new lines for what the edit sets and blank lines.
  pub apply-Edited :
      (text : Str)
      → apply d edit ≡ ok text
      → (out : List Str) × (text ≡ concat out) × Edited d edit 0 d.lines out
  unfolding apply
  apply-Edited text h = elim (Bool-cases (edit.drop_provider_table && not (is_nil edit.provider))) [
    | inl e ↦ absurd (refused (rw e at h))
    | inr e ↦ rendering (work_out d edit) text work_out-Leaves (rw e at h)
  ]
    where
      refused : ◌≡◌ {A = Result Str} (err set_and_drop) (ok text) → ⊥
      refused q = cc
