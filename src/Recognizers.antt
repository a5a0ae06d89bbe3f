-- ===== src/Recognizers.antt =====
-- recognizers/registry.go: the recognizers, tried in order. `Unmarshal` is `encoding/json`'s decoder
-- from bytes to a value; each recognizer takes it as an argument.
pub mod Decode
pub mod Mcp
pub mod Payment
pub mod Llm
pub mod Registry
pub mod ToolCalls
pub mod Prompts
pub mod Payments
use casdoor_aiguard.Common.{Option, none, some, List, [], ◌∷◌}
use casdoor_aiguard.Common.Text.{Str}
use casdoor_aiguard.Http.{Request}
use casdoor_aiguard.Intent.{Intent}

-- The interface: a name, and what it makes of a host, a request and its body.
pub record Recognizer : Type 0 where
  pub name : Str
  pub recognize : Str → Request → Str → Option Intent

-- `func (r *Registry) Recognize`
unfoldable pub recognize_first : List Recognizer → Str → Request → Str → Option (Intent × Str)
recognize_first [] host req body = none
recognize_first (rec ∷ recs) host req body = elim (rec.recognize host req body) [
  | some intent ↦ some (record intent { destination = host }, rec.name)
  | none ↦ recognize_first recs host req body
]
