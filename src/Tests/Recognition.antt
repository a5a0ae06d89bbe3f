-- ===== src/Tests/Recognition.antt =====
-- A payment in a tools/call, as the registry and the MCP recognizer read it.
use casdoor_aiguard.Common.Text.{Str, codes}
use casdoor_aiguard.Common.{Option, some, List, [], ◌∷◌}
use casdoor_aiguard.Float.{float_thousand}
use casdoor_aiguard.Json.{Json, Fields, end, field, number, object, string}
use casdoor_aiguard.Recognizers.Llm.{LlmMessage}
use casdoor_aiguard.Recognizers.Payment.{recognize_payment}
use casdoor_aiguard.Recognizers.Payments.{recognize_payment-Answers}
use casdoor_aiguard.Recognizers.Payments
use casdoor_aiguard.Recognizers.Mcp.{recognize_mcp}
use casdoor_aiguard.Recognizers.ToolCalls.{Answers, recognize_mcp-Answers}
use casdoor_aiguard.Tests.Decisions.{exchange, host}

abbrev call_params : Fields
call_params =
    field (codes "name") (string (codes "process_payment"))
      (field (codes "arguments") (object (field (codes "amount") (number float_thousand) end)) end)

-- A decoder that reads every body as this call.
abbrev unmarshal : Str → Option Json
unmarshal body = some (
    object (
      field (codes "jsonrpc") (string (codes "2.0")) (
        field (codes "method") (string (codes "tools/call"))
          (field (codes "params") (object call_params) end))))

recognize_mcp-Answers_example :
    Answers unmarshal exchange.request exchange.body
      (recognize_mcp unmarshal host exchange.request exchange.body)
recognize_mcp-Answers_example = recognize_mcp-Answers unmarshal exchange.request exchange.body host

abbrev chat : List LlmMessage
chat =
    record { role = codes "user"; content = some (string (codes "first")) }
    ∷ record { role = codes "user"; content = some (string (codes "second")) }
    ∷ record { role = codes "assistant"; content = some (string (codes "answer")) }
    ∷ []

-- A decoder that reads every body as a payment of 1000.
abbrev pay : Str → Option Json
pay body = some (
    object (
      field (codes "amount") (number float_thousand)
        (field (codes "payee") (string (codes "bob")) end)))

recognize_payment-Answers_example :
    Payments.Answers pay exchange.request exchange.body
      (recognize_payment pay host exchange.request exchange.body)
recognize_payment-Answers_example =
    recognize_payment-Answers pay exchange.request exchange.body host
