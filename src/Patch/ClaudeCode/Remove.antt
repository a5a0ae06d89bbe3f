-- ===== src/Patch/ClaudeCode/Remove.antt =====
-- patch/claude_code.go, `removeClaudeCodeHooks`.
use casdoor_aiguard.Common.Text.{Str, codes}
use casdoor_aiguard.Common.{
  Bool, true, false, not, ◌&&◌, ◌||◌, none, some, List, [], ◌∷◌, if◌then◌else◌,
}
use casdoor_aiguard.Json.{
  Json, Items, Fields, array, object, nil, cons, end, field, array_value, delete_field, get_field,
  object_value, set_field,
}
use casdoor_aiguard.Patch.ClaudeCode.Handlers.{hook_events, is_owned}
use casdoor_aiguard.Patch.ClaudeCode.Install.{handlers_of, is_nil_items, with_handlers}

pub record Stripped : Type 0 where
  pub kept : Items
  pub changed : Bool

-- The loop over a group's handlers.
unfoldable pub strip_handlers : Items → Stripped
unfolding is_owned
strip_handlers nil = record { kept = nil; changed = false }
strip_handlers (cons raw rest) =
    let more = strip_handlers rest in
    if is_owned raw
    then record more { changed = true }
    else record more { kept = cons raw more.kept }

unfoldable pub stripped_group : Json → Stripped → Stripped → Stripped
unfolding set_field
stripped_group raw s more =
    if is_nil_items s.kept && s.changed
    then record more { changed = true }
    else if s.changed
    then record { kept = cons (with_handlers s.kept raw) more.kept; changed = true }
    else record more { kept = cons raw more.kept }

-- The loop over an event's groups.
unfoldable pub strip_groups : Items → Stripped
unfolding strip_handlers stripped_group
strip_groups nil = record { kept = nil; changed = false }
strip_groups (cons raw rest) =
    let more = strip_groups rest in
    elim (handlers_of raw) [
      | none ↦ record more { kept = cons raw more.kept }
      | some handlers ↦ stripped_group raw (strip_handlers handlers) more
    ]

-- What is written back for an event.
unfoldable pub strip_event : Str → Fields → Stripped → Fields
unfolding set_field delete_field
strip_event event hooks s =
    if not s.changed
    then hooks
    else if is_nil_items s.kept
    then delete_field event hooks
    else set_field event (array s.kept) hooks

-- The loop of `removeClaudeCodeHooks`
unfoldable pub strip_events : List Str → Fields → Bool → Fields × Bool
unfolding strip_groups strip_event
strip_events [] hooks changed = (hooks, changed)
strip_events (event ∷ events) hooks changed = elim (array_value (get_field event hooks)) [
  | none ↦ strip_events events hooks changed
  | some groups ↦
      let s = strip_groups groups in
      strip_events events (strip_event event hooks s) (changed || s.changed)
]

abbrev pub is_end : Fields → Bool
is_end end = true
is_end (field k v fs) = false

unfoldable pub put_stripped : Fields → Fields × Bool → Fields × Bool
unfolding delete_field set_field
put_stripped config (hooks, changed) =
    if changed && is_end hooks
    then (delete_field (codes "hooks") config, changed)
    else (set_field (codes "hooks") (object hooks) config, changed)

-- `removeClaudeCodeHooks`
unfoldable pub remove_hooks : Fields → Fields × Bool
unfolding strip_events put_stripped
remove_hooks config = elim (object_value (get_field (codes "hooks") config)) [
  | none ↦ (config, false)
  | some hooks ↦ put_stripped config (strip_events hook_events hooks false)
]
