-- ===== src/Tests/Hooks.antt =====
-- Hooks in a settings.json that has another's hook and an old one of aiguard's.
use casdoor_aiguard.Common.Text.{Str, codes}
use casdoor_aiguard.Common.{true, none, some, List, [], ◌∷◌, ◌≡◌, refl, length}
use casdoor_aiguard.Json.{Fields, Json, array, cons, end, field, get_field, nil, object, string}
use casdoor_aiguard.Patch.ClaudeCode.Active.{hooks_state-install_hooks}
use casdoor_aiguard.Patch.ClaudeCode.Events.{IsInstalled, install_hooks-IsInstalled}
use casdoor_aiguard.Patch.ClaudeCode.Handlers.{hook_events, is_aiguard_arguments}
use casdoor_aiguard.Patch.ClaudeCode.Install.{install_hooks}
use casdoor_aiguard.Patch.ClaudeCode.Remove.{remove_hooks}
use casdoor_aiguard.Patch.ClaudeCode.Removed.{IsRemoved, remove_hooks-IsRemoved}
use casdoor_aiguard.Patch.ClaudeCode.Status.{hooks_state}

abbrev arguments : List Str
arguments =
    codes "agent-hook"
    ∷ codes "--agent"
    ∷ codes "claude-code"
    ∷ codes "--records-url"
    ∷ codes "http://localhost/records"
    ∷ []

abbrev lint : Json
lint = object (
    field (codes "type") (string (codes "command"))
      (field (codes "command") (string (codes "lint")) end))

abbrev old : Json
old = object (
    field (codes "type") (string (codes "command")) (
      field (codes "command") (string (codes "/old/aiguard")) (
        field (codes "args")
          (array (
            cons (string (codes "agent-hook")) (
              cons (string (codes "--agent"))
                (cons (string (codes "claude-code")) (cons (string (codes "--records-url")) nil)))))
          end)))

abbrev settings : Fields
settings = field (codes "model") (string (codes "opus")) (
    field (codes "hooks")
      (object (
        field (codes "Stop")
          (array (cons (object (field (codes "hooks") (array (cons lint (cons old nil))) end)) nil))
          end))
      end)

installed : Fields
unfolding install_hooks
installed = elim (install_hooks (codes "/bin/aiguard") arguments settings) [
  | none ↦ end
  | some (config, changed) ↦ config
]

runs_install : install_hooks (codes "/bin/aiguard") arguments settings ≡ some (installed, true)
unfolding install_hooks installed get_field
runs_install = refl

runs_remove : (remove_hooks settings).1 ≡ true
unfolding remove_hooks get_field
runs_remove = refl

install_hooks-IsInstalled_example : IsInstalled (codes "/bin/aiguard") arguments settings installed
unfolding is_aiguard_arguments
install_hooks-IsInstalled_example =
    install_hooks-IsInstalled (codes "/bin/aiguard") arguments refl settings installed true
      runs_install

hooks_state-install_hooks_example :
    hooks_state (codes "/bin/aiguard") arguments installed
    ≡ (length hook_events, length hook_events)
unfolding is_aiguard_arguments
hooks_state-install_hooks_example =
    hooks_state-install_hooks (codes "/bin/aiguard") arguments settings installed true refl
      runs_install

remove_hooks-IsRemoved_example : IsRemoved settings (remove_hooks settings).0
remove_hooks-IsRemoved_example = remove_hooks-IsRemoved settings
