-- ===== src/Proxy.antt =====
-- proxy/decision.go and proxy/http_handler.go: the decision on one intercepted request, and what the
-- proxy then does with it.
pub mod Decision
pub mod Serve
pub mod Laws
use casdoor_aiguard.Common.Text.{Str, codes}
use casdoor_aiguard.Json.{Json}
use casdoor_aiguard.Common.{Option, List, [], ◌∷◌}
use casdoor_aiguard.Recognizers.{Recognizer}
use casdoor_aiguard.Recognizers.Mcp.{recognize_mcp}
use casdoor_aiguard.Recognizers.Llm.{recognize_llm}
use casdoor_aiguard.Recognizers.Payment.{recognize_payment}

-- `recognizers.Default()`
unfoldable pub default_registry : (Str → Option Json) → (Json → Str) → List Recognizer
default_registry unmarshal raw_text =
    record { name = codes "mcp"; recognize = recognize_mcp unmarshal }
    ∷ record { name = codes "llm"; recognize = recognize_llm unmarshal raw_text }
    ∷ record { name = codes "payment-example"; recognize = recognize_payment unmarshal }
    ∷ []
