-- ===== src/Intent.antt =====
-- recognizers/recognizer.go: what a recognizer extracts from a request.
use casdoor_aiguard.Common.Text.{Str}
use casdoor_aiguard.Float.{Float64}
use casdoor_aiguard.Json.{Fields}

-- `raw` is the map that a recognizer keeps for the audit; a nil map is `end`.
pub record Intent : Type 0 where
  pub category : Str
  pub action : Str
  pub tool_name : Str
  pub model : Str
  pub prompt : Str
  pub amount : Float64
  pub currency : Str
  pub recipient : Str
  pub destination : Str
  pub raw : Fields
