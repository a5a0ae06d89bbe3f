-- ===== src/Patch/CodexToml/Edit.antt =====
-- patch/codex_toml.go, `apply`: an edit of the located document, line by line. The parse keeps every
-- index that an edit looks up within the lines.
use casdoor_aiguard.Common.Text.{Str, codes, has_suffix, is_empty, trim_space}
use casdoor_aiguard.Common.{
  ℕ, zero, suc, ◌+◌, ◌-◌, Bool, true, false, not, ◌&&◌, ◌||◌, Option, none, some, List, [], ◌∷◌,
  ◌++◌, eqb, ltb, leb, is_nil, length, ◌≡◌, refl, if◌then◌else◌,
}
use casdoor_aiguard.Patch.CodexToml.Document.{
  Document, Entry, Table, entry_of, is_blank, is_blank_or_comment, table_of,
}
use casdoor_aiguard.Patch.CodexToml.Lines.{concat}
use casdoor_aiguard.Patch.CodexToml.Value.{replace_toml_value}

pub data Error : Type 0 where
  cannot_parse : Error
  set_and_drop : Error
  spans_lines : Str → Str → Error
  no_assignment : Str → Str → Error
  no_longer_parses : Error
  still_defines : Error
  does_not_define : Error
  still_has : Str → Str → Error
  bad_value : Str → Error
  differs : Str → Str → Error

pub data Result {ℓ} (A : Type ℓ) : Type ℓ where
  err : Error → Result A
  ok : A → Result A

-- `if err != nil { return nil, err }`
infixl 5 ◌>>=◌
abbrev pub ◌>>=◌ {ℓ κ} : {A : Type ℓ} {B : Type κ} → Result A → (A → Result B) → Result B
◌>>=◌ (err e) next = err e
◌>>=◌ (ok value) next = next value

-- A chain that ends well began well.
pub ok_of_chain {ℓ κ} :
    {A : Type ℓ} {B : Type κ} (first : Result A) (next : A → Result B) {end_ : B}
    → (first >>= next) ≡ ok end_
    → (value : A) × (first ≡ ok value) × (next value ≡ ok end_)
ok_of_chain (err e) next both = cc
ok_of_chain (ok value) next both = (value, refl, both)

pub record Setting : Type 0 where
  pub key : Str
  pub value : Str

pub record Edit : Type 0 where
  pub root : List Setting
  pub provider : List Setting
  pub drop_provider_table : Bool

abbrev pub codex_provider_id : Str
codex_provider_id = codes "aiguard"

abbrev pub codex_provider_table : Str
codex_provider_table = codes "model_providers.aiguard"

unfoldable pub is_empty_edit : Edit → Bool
is_empty_edit e = is_nil e.root && is_nil e.provider && not e.drop_provider_table

-- The lines, the marks against them and what goes in before each; `removed` and `inserted` are
-- `map[int]bool` and `map[int][]string`.
pub record Work : Type 0 where
  pub lines : List Str
  pub removed : ℕ → Bool
  pub inserted : ℕ → List Str

unfoldable pub line_at : ℕ → List Str → Str
line_at i [] = []
line_at zero (l ∷ ls) = l
line_at (suc i) (l ∷ ls) = line_at i ls

unfoldable pub set_line : ℕ → Str → List Str → List Str
set_line i m [] = []
set_line zero m (l ∷ ls) = m ∷ ls
set_line (suc i) m (l ∷ ls) = l ∷ set_line i m ls

-- `for index := start; index < end; index++ { removed[index] = true }`
unfoldable pub mark : ℕ → ℕ → (ℕ → Bool) → ℕ → Bool
mark start end_ removed i = (leb start i && ltb i end_) || removed i

-- `inserted[at] = append(inserted[at], new...)`
unfoldable pub insert_at : ℕ → List Str → (ℕ → List Str) → ℕ → List Str
insert_at at new inserted i = if eqb i at then inserted i ++ new else inserted i

-- `terminateLine`
unfoldable pub terminated : Str → Str → Str
unfolding has_suffix
terminated newline line = if has_suffix (codes "\n") line then line else line ++ newline

unfoldable pub terminate_line : Str → ℕ → List Str → List Str
unfolding set_line line_at terminated
terminate_line newline i ls = set_line i (terminated newline (line_at i ls)) ls

-- `terminateLastLine`
unfoldable pub terminate_last_line : Str → List Str → List Str
unfolding terminate_line
terminate_last_line newline ls = if is_nil ls then ls else terminate_line newline (length ls - 1) ls

-- `setting.Key + " = " + setting.Value + d.newline`
unfoldable pub setting_line : Str → Setting → Str
setting_line newline s = s.key ++ (codes " = " ++ (s.value ++ newline))

-- The last two cases of `resolve`'s switch, on the entry that was found.
unfoldable pub put_value : Str → Setting → Entry → Work → Option Str → Result (Work × List Str)
unfolding set_line
put_value table s e w none = err (no_assignment table s.key)
put_value table s e w (some line) = ok (record w { lines = set_line e.start line w.lines }, [])

unfoldable pub resolve_found : Str → Str → Setting → Work → Option Entry → Result (Work × List Str)
unfolding setting_line mark put_value line_at replace_toml_value
resolve_found table newline s w none =
    ok (w, if is_empty s.value then [] else setting_line newline s ∷ [])
resolve_found table newline s w (some e) =
    if is_empty s.value
    then ok (record w { removed = mark e.start e.end_ w.removed }, [])
    else if not (eqb e.end_ (e.start + 1))
    then err (spans_lines table s.key)
    else put_value table s e w (replace_toml_value (line_at e.start w.lines) s.value)

-- `resolve`: the marks and new lines, and the lines that are missing.
unfoldable pub resolve : Document → Str → List Setting → Work → Result (Work × List Str)
unfolding resolve_found entry_of
resolve d table [] w = ok (w, [])
resolve d table (s ∷ ss) w = do
  (w', missing) ← resolve_found table d.newline s w (entry_of table s.key d.entries)
  (w'', rest) ← resolve d table ss w'
  ok (w'', missing ++ rest)

-- Back over blank lines from a table's header.
unfoldable pub block_start : List Str → ℕ → ℕ
unfolding is_blank line_at
block_start ls zero = 0
block_start ls (suc n) = if is_blank (line_at n ls) then block_start ls n else suc n

-- `rootInsertPoint`, from the end of the root's region
unfoldable pub root_insert_point : List Str → ℕ → ℕ
unfolding is_blank_or_comment line_at
root_insert_point ls zero = 0
root_insert_point ls (suc n) =
    if is_blank_or_comment (line_at n ls) then root_insert_point ls n else suc n

-- `if edit.DropProviderTable && hasTable`
unfoldable pub drop_table : Bool → Option Table → Work → Work
unfolding mark block_start
drop_table true (some t) w = record w {
  removed = mark (block_start w.lines t.header) t.end_ w.removed;
}
drop_table _ _ w = w

-- What follows `resolve` on a table that is there.
unfoldable pub insert_missing : Str → ℕ → Work × List Str → Work
unfolding terminate_line insert_at
insert_missing newline header (w, missing) = if is_nil missing then w else record w {
  lines = terminate_line newline header w.lines;
  inserted = insert_at (header + 1) missing w.inserted;
}

-- `if len(edit.Provider) != 0 && hasTable`
unfoldable pub set_provider : Document → List Setting → Option Table → Work → Result Work
unfolding resolve insert_missing
set_provider d provider none w = ok w
set_provider d provider (some t) w = do
  (w', missing) ← resolve d codex_provider_table provider w
  ok (insert_missing d.newline t.header (w', missing))

-- `if len(missingRoot) != 0`
unfoldable pub insert_root : Document → List Str → Work → Work
unfolding root_insert_point terminate_last_line insert_at is_blank line_at
insert_root d missing w =
    let at = root_insert_point w.lines d.root_end in
    if is_nil missing
    then w
    else if eqb at (length w.lines)
    then record w {
      lines = terminate_last_line d.newline w.lines;
      inserted = insert_at at missing w.inserted;
    }
    else if is_blank (line_at at w.lines)
    then record w { inserted = insert_at at missing w.inserted }
    else record w { inserted = insert_at at (missing ++ d.newline ∷ []) w.inserted }

unfoldable pub provider_lines : Str → List Setting → List Str
unfolding setting_line
provider_lines newline [] = []
provider_lines newline (s ∷ ss) =
    if is_empty s.value
    then provider_lines newline ss
    else setting_line newline s ∷ provider_lines newline ss

-- The new table's lines, below a blank one where something stands before them.
unfoldable pub provider_block : Str → Bool → List Setting → List Str
unfolding provider_lines
provider_block newline spaced provider =
    let block =
      (codes "[" ++ (codex_provider_table ++ (codes "]" ++ newline)))
      ∷ provider_lines newline provider in
    if spaced then newline ∷ block else block

-- `if len(edit.Provider) != 0 && !hasTable`; the flag says that root keys were missing.
unfoldable pub append_provider : Document → List Setting → Bool → Option Table → Work → Work
unfolding terminate_last_line insert_at provider_block line_at trim_space
append_provider d provider root_missing (some t) w = w
append_provider d provider root_missing none w =
    let ls = terminate_last_line d.newline w.lines in
    let spaced =
      if is_nil w.lines
      then root_missing
      else not (is_empty (trim_space (line_at (length ls - 1) ls))) in
    if is_nil provider then w else record w {
      lines = ls;
      inserted = insert_at (length ls) (provider_block d.newline spaced provider) w.inserted;
    }

-- `render`, from a line on
unfoldable pub render_from : ℕ → (ℕ → Bool) → (ℕ → List Str) → List Str → List Str
render_from i removed inserted [] = inserted i
render_from i removed inserted (l ∷ ls) =
    let rest = render_from (i + 1) removed inserted ls in
    inserted i ++ (if removed i then rest else l ∷ rest)

unfoldable pub render : Work → Str
unfolding render_from concat
render w = concat (render_from 0 w.removed w.inserted w.lines)

-- What `apply` makes of the lines before it renders them.
unfoldable pub work_out : Document → Edit → Result Work
unfolding resolve drop_table set_provider insert_root append_provider table_of
work_out d edit =
    let t = table_of codex_provider_table d.tables in
    do
      (w, missing) ←
          resolve d [] edit.root
            (record { lines = d.lines; removed = λ i. false; inserted = λ i. [] })
      w' ← set_provider d edit.provider t (drop_table edit.drop_provider_table t w)
      ok (append_provider d edit.provider (not (is_nil missing)) t (insert_root d missing w'))

-- `apply`
unfoldable pub apply : Document → Edit → Result Str
unfolding work_out render
apply d edit =
    if edit.drop_provider_table && not (is_nil edit.provider)
    then err set_and_drop
    else do w ← work_out d edit; ok (render w)
