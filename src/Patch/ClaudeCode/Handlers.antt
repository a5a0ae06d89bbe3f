-- ===== src/Patch/ClaudeCode/Handlers.antt =====
-- patch/claude_code.go: a hook's handler, aiguard's own and any other.
use casdoor_aiguard.Common.Text.{Str, ◌==◌, codes, contains}
use casdoor_aiguard.Common.{
  Bool, true, false, ◌&&◌, Option, none, some, List, [], ◌∷◌, if◌then◌else◌,
}
use casdoor_aiguard.Float.{Float64, float_le, float_lt}
use casdoor_aiguard.Json.{
  Json, Items, Fields, boolean, number, string, array, object, nil, cons, end, field, get_field,
}

abbrev pub hook_subcommand : Str
hook_subcommand = codes "agent-hook"

abbrev pub claims_flag : Str
claims_flag = codes "--aiguard-claims"

-- 5.0, the timeout in seconds, and 6.0
abbrev pub float_five : Float64
float_five = 0x4014000000000000

abbrev pub float_six : Float64
float_six = 0x4018000000000000

-- `claudeCodeHookEvents`
abbrev pub hook_events : List Str
hook_events =
    codes "SessionStart"
    ∷ codes "UserPromptSubmit"
    ∷ codes "PreToolUse"
    ∷ codes "PostToolUse"
    ∷ codes "PostToolUseFailure"
    ∷ codes "PermissionRequest"
    ∷ codes "PermissionDenied"
    ∷ codes "SubagentStart"
    ∷ codes "SubagentStop"
    ∷ codes "PreCompact"
    ∷ codes "PostCompact"
    ∷ codes "Stop"
    ∷ codes "StopFailure"
    ∷ codes "SessionEnd"
    ∷ []

abbrev pub string_is : Str → Option Json → Bool
string_is s (some (string t)) = t == s
string_is s _ = false

abbrev pub boolean_is_true : Option Json → Bool
boolean_is_true (some (boolean b)) = b
boolean_is_true _ = false

-- The texts of an array, or none at all if one of its items is no text.
unfoldable pub all_strings : Items → Option (List Str)
all_strings nil = some []
all_strings (cons (string s) xs) = elim (all_strings xs) [ none ↦ none | some ss ↦ some (s ∷ ss) ]
all_strings (cons _ xs) = none

-- `stringArrayValue`, where nil is the empty list
unfoldable pub string_array_value : Option Json → List Str
unfolding all_strings
string_array_value (some (array xs)) = elim (all_strings xs) [ none ↦ [] | some ss ↦ ss ]
string_array_value _ = []

abbrev pub head_is : Str → List Str → Bool
head_is s [] = false
head_is s (a ∷ rest) = a == s

-- `index := slices.Index(arguments, flag)` and `arguments[index+1]`
unfoldable pub after_flag : Str → List Str → Option Str
unfolding ◌==◌
after_flag flag [] = none
after_flag flag (a ∷ rest) =
    if a == flag then elim rest [ [] ↦ none | b ∷ more ↦ some b ] else after_flag flag rest

abbrev pub text_is : Str → Option Str → Bool
text_is s none = false
text_is s (some t) = t == s

-- The condition on the arguments.
unfoldable pub is_aiguard_arguments : List Str → Bool
unfolding after_flag contains ◌==◌
is_aiguard_arguments arguments =
    head_is hook_subcommand arguments
    && (text_is (codes "claude-code") (after_flag (codes "--agent") arguments)
        && contains arguments (codes "--records-url"))

-- `isAiguardHookHandler`
unfoldable pub is_aiguard_hook_handler : Fields → Bool
unfolding is_aiguard_arguments string_array_value ◌==◌
is_aiguard_hook_handler handler =
    string_is (codes "command") (get_field (codes "type") handler)
    && is_aiguard_arguments (string_array_value (get_field (codes "args") handler))

-- `slices.Equal`
unfoldable pub same_texts : List Str → List Str → Bool
unfolding ◌==◌
same_texts [] [] = true
same_texts (a ∷ xs) (b ∷ ys) = a == b && same_texts xs ys
same_texts _ _ = false

-- `numberMapValue(handler, "timeout") == claudeCodeHookTimeoutSeconds`: the number is cut to an integer.
unfoldable pub timeout_is_current : Option Json → Bool
unfolding float_le float_lt
timeout_is_current (some (number x)) = float_le float_five x && float_lt x float_six
timeout_is_current _ = false

-- `claudeCodeHookHandlerCurrent`
unfoldable pub is_current : Str → List Str → Fields → Bool
unfolding is_aiguard_hook_handler same_texts string_array_value timeout_is_current ◌==◌
is_current command arguments handler =
    is_aiguard_hook_handler handler
    && (string_is command (get_field (codes "command") handler)
        && (same_texts (string_array_value (get_field (codes "args") handler)) arguments
            && (boolean_is_true (get_field (codes "async") handler)
                && timeout_is_current (get_field (codes "timeout") handler))))

unfoldable pub strings : List Str → Items
strings [] = nil
strings (s ∷ ss) = cons (string s) (strings ss)

-- `newClaudeCodeHookHandler`
unfoldable pub new_handler : Str → List Str → Fields
unfolding strings
new_handler command arguments = field (codes "type") (string (codes "command")) (
    field (codes "command") (string command) (
      field (codes "args") (array (strings arguments))
        (field (codes "async") (boolean true) (field (codes "timeout") (number float_five) end))))

-- `objectValue(rawHandler)` and its test
unfoldable pub is_owned : Json → Bool
unfolding is_aiguard_hook_handler
is_owned (object handler) = is_aiguard_hook_handler handler
is_owned _ = false

unfoldable pub is_owned_current : Str → List Str → Json → Bool
unfolding is_current
is_owned_current command arguments (object handler) = is_current command arguments handler
is_owned_current command arguments _ = false
