-- ===== src/Patch/ClaudeCode/Install.antt =====
-- patch/claude_code.go, `installClaudeCodeHooks`.
use casdoor_aiguard.Common.Text.{Str, ◌==◌, codes, contains}
use casdoor_aiguard.Common.{
  Bool, true, false, not, ◌&&◌, ◌||◌, Option, none, some, List, [], ◌∷◌, if◌then◌else◌,
}
use casdoor_aiguard.Json.{
  Json, Items, Fields, string, array, object, nil, cons, end, field, append_items, array_value,
  get_field, set_field,
}
use casdoor_aiguard.Patch.ClaudeCode.Handlers.{hook_events, is_owned, is_owned_current, new_handler}

-- What the loop over a group's handlers has kept, from a handler on.
pub record KeptHandlers : Type 0 where
  pub kept : Items
  pub found : Bool
  pub changed : Bool

pub record KeptGroups : Type 0 where
  pub groups : Items
  pub found : Bool
  pub changed : Bool

abbrev pub is_nil_items : Items → Bool
is_nil_items nil = true
is_nil_items (cons x xs) = false

-- A group with its "hooks", if it has any.
abbrev pub handlers_of : Json → Option Items
handlers_of (object group) = array_value (get_field (codes "hooks") group)
handlers_of _ = none

abbrev pub with_handlers : Items → Json → Json
with_handlers kept (object group) = object (set_field (codes "hooks") (array kept) group)
with_handlers kept other = other

-- A group behind its handlers' loop, before the later groups.
unfoldable pub merged_group : Json → KeptHandlers → KeptGroups → KeptGroups
unfolding set_field
merged_group raw k more =
    if is_nil_items k.kept && k.changed
    then record more { changed = true }
    else if k.changed
    then record more { groups = cons (with_handlers k.kept raw) more.groups; changed = true }
    else record more { groups = cons raw more.groups }

-- `hookEventSupportsMatcher`
unfoldable pub supports_matcher : Str → Bool
unfolding contains ◌==◌
supports_matcher event =
    contains
      (codes "PreToolUse"
        ∷ codes "PostToolUse"
        ∷ codes "PostToolUseFailure"
        ∷ codes "PermissionRequest"
        ∷ codes "PermissionDenied"
        ∷ [])
      event

-- `if eventChanged { hooks[eventName] = groups }`
unfoldable pub put_event : Str → Fields → Option Items → Fields
unfolding set_field
put_event event hooks none = hooks
put_event event hooks (some groups) = set_field event (array groups) hooks

abbrev pub is_some : Option Items → Bool
is_some none = false
is_some (some x) = true

-- The groups that an event has; `none` if they are no array.
abbrev pub groups_in : Option Json → Option Items
groups_in none = some nil
groups_in (some (array groups)) = some groups
groups_in _ = none

abbrev pub hooks_in : Option Json → Option Fields
hooks_in none = some end
hooks_in (some (object hooks)) = some hooks
hooks_in _ = none

abbrev pub with_hooks : Fields → Option (Fields × Bool) → Option (Fields × Bool)
with_hooks config none = none
with_hooks config (some (hooks, changed)) =
    some (set_field (codes "hooks") (object hooks) config, changed)

module _ (command : Str) (arguments : List Str) where
  -- The inner loop of `mergeClaudeCodeHook`; `found` says that an owned handler stands before.
  unfoldable pub merge_handlers : Bool → Items → KeptHandlers
  unfolding is_owned is_owned_current new_handler
  merge_handlers found nil = record { kept = nil; found = found; changed = false }
  merge_handlers found (cons raw rest) =
      let more = merge_handlers (found || is_owned raw) rest in
      if not (is_owned raw)
      then record more { kept = cons raw more.kept }
      else if found
      then record more { changed = true }
      else if is_owned_current command arguments raw
      then record more { kept = cons raw more.kept }
      else record more {
        kept = cons (object (new_handler command arguments)) more.kept;
        changed = true;
      }

  -- `mergeClaudeCodeHook`
  unfoldable pub merge_groups : Bool → Items → KeptGroups
  unfolding merge_handlers merged_group
  merge_groups found nil = record { groups = nil; found = found; changed = false }
  merge_groups found (cons raw rest) = elim (handlers_of raw) [
    | none ↦ let more = merge_groups found rest in record more { groups = cons raw more.groups }
    | some handlers ↦
        let k = merge_handlers found handlers in merged_group raw k (merge_groups k.found rest)
  ]

  unfoldable pub new_group : Str → Json
  unfolding new_handler supports_matcher
  new_group event =
      let hooks = array (cons (object (new_handler command arguments)) nil) in
      object (
        field (codes "hooks") hooks
          (if supports_matcher event then field (codes "matcher") (string []) end else end))

  -- The groups of an event with the handler among them, if they are not as they were.
  unfoldable pub event_groups : Str → Items → Option Items
  unfolding merge_groups new_group
  event_groups event groups =
      let m = merge_groups false groups in
      if not m.found
      then some (append_items m.groups (cons (new_group event) nil))
      else if m.changed
      then some m.groups
      else none

  -- The loop of `installClaudeCodeHooks`: the hooks and whether they changed, or `none` for its error.
  unfoldable pub install_events : List Str → Fields → Bool → Option (Fields × Bool)
  unfolding event_groups put_event
  install_events [] hooks changed = some (hooks, changed)
  install_events (event ∷ events) hooks changed = elim (groups_in (get_field event hooks)) [
    | none ↦ none
    | some groups ↦
        let next = event_groups event groups in
        install_events events (put_event event hooks next) (changed || is_some next)
  ]

  -- `installClaudeCodeHooks`: the settings with the hooks in them, or `none` for its error.
  unfoldable pub install_hooks : Fields → Option (Fields × Bool)
  unfolding install_events set_field
  install_hooks config = elim (hooks_in (get_field (codes "hooks") config)) [
    | none ↦ none
    | some hooks ↦ with_hooks config (install_events hook_events hooks false)
  ]
