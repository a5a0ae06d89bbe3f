-- ===== src/Recognizers/Mcp.antt =====
-- recognizers/mcp.go: the MCP recognizer.
use casdoor_aiguard.Common.{Bool, not, ◌&&◌, ◌||◌, Option, none, some, List, [], ◌∷◌, if◌then◌else◌}
use casdoor_aiguard.Common.Text.{Str, ◌==◌, has_infix, codes}
use casdoor_aiguard.Float.{Float64, float_zero}
use casdoor_aiguard.Http.{Request, method_post}
use casdoor_aiguard.Intent.{Intent}
use casdoor_aiguard.Json.{Json, number, string, Fields, end, get_field}
use casdoor_aiguard.Recognizers.Decode.{set_string, set_raw, set_map, decode_field, as_object}

infixl 5 ◌>>=◌
abbrev pub ◌>>=◌ {ℓ κ} : {A : Type ℓ} {B : Type κ} → Option A → (A → Option B) → Option B
none >>= k = none
some a >>= k = k a

pub record JsonRpcRequest : Type 0 where
  pub json_rpc : Str
  pub method : Str
  pub params : Option Json

pub record McpToolCallParams : Type 0 where
  pub name : Str
  pub arguments : Fields

-- `json.Unmarshal(body, &rpc)`
unfoldable pub decode_rpc : Option Json → Option JsonRpcRequest
unfolding decode_field as_object set_string set_raw
decode_rpc v = do
  fs ← as_object v
  json_rpc ← decode_field (codes "jsonrpc") set_string [] fs
  method ← decode_field (codes "method") set_string [] fs
  params ← decode_field (codes "params") set_raw none fs
  some (record { json_rpc = json_rpc; method = method; params = params })

-- `json.Unmarshal(rpc.Params, &params)`; missing params are no JSON at all
unfoldable pub decode_params : Option Json → Option McpToolCallParams
unfolding decode_field as_object set_string set_map
decode_params v = do
  fs ← as_object v
  name ← decode_field (codes "name") set_string [] fs
  arguments ← decode_field (codes "arguments") set_map end fs
  some (record { name = name; arguments = arguments })

-- `numberField`: the first of the keys that holds a number
unfoldable pub number_of : Option Json → Option Float64
number_of (some (number n)) = some n
number_of _ = none

unfoldable pub number_field : Fields → List Str → Option Float64
unfolding number_of get_field
number_field m [] = none
number_field m (k ∷ ks) = elim (number_of (get_field k m)) [
  | some n ↦ some n
  | none ↦ number_field m ks
]

-- `stringField`: the first of the keys that holds a string which is not empty
unfoldable pub string_of : Option Json → Option Str
unfolding ◌==◌
string_of (some (string s)) = if s == [] then none else some s
string_of _ = none

unfoldable pub string_field : Fields → List Str → Option Str
unfolding string_of get_field
string_field m [] = none
string_field m (k ∷ ks) = elim (string_of (get_field k m)) [
  | some s ↦ some s
  | none ↦ string_field m ks
]

unfoldable pub enrich_amount : Option Float64 → Intent → Intent
enrich_amount none i = i
enrich_amount (some a) i = record i { amount = a; category = codes "payment" }

unfoldable pub enrich_recipient : Option Str → Intent → Intent
enrich_recipient none i = i
enrich_recipient (some r) i = record i { recipient = r }

unfoldable pub enrich_currency : Option Str → Intent → Intent
enrich_currency none i = i
enrich_currency (some c) i = record i { currency = c }

abbrev pub amount_keys : List Str
amount_keys = codes "amount" ∷ codes "value" ∷ codes "total" ∷ []

abbrev pub recipient_keys : List Str
recipient_keys = codes "recipient" ∷ codes "payee" ∷ codes "to" ∷ codes "destination_account" ∷ []

abbrev pub currency_keys : List Str
currency_keys = codes "currency" ∷ codes "currency_code" ∷ []

-- `enrichWithPaymentFields`; a nil map has no key, and sets nothing
unfoldable pub enrich_with_payment_fields : Intent → Fields → Intent
unfolding enrich_amount enrich_recipient enrich_currency
enrich_with_payment_fields intent args = enrich_currency (string_field args currency_keys) (
    enrich_recipient (string_field args recipient_keys)
      (enrich_amount (number_field args amount_keys) intent))

-- An intent before any of its optional parts is known.
abbrev pub bare_intent : Str → Str → Intent
bare_intent category action = record {
  category = category;
  action = action;
  tool_name = [];
  model = [];
  prompt = [];
  amount = float_zero;
  currency = [];
  recipient = [];
  destination = [];
  raw = end;
}

-- What is known of a tools/call when its envelope and its parameters have been read.
unfoldable pub mcp_intent : JsonRpcRequest → McpToolCallParams → Option Intent
unfolding ◌==◌
mcp_intent rpc params =
    if params.name == []
    then none
    else some (
        enrich_with_payment_fields
          (record (bare_intent (codes "mcp.tool_call") rpc.method) {
            tool_name = params.name;
            raw = params.arguments;
          })
          params.arguments)

-- The tests on the method and the content type that this recognizer and the LLM one share.
unfoldable pub is_json_post : Request → Bool
unfolding ◌==◌ has_infix
is_json_post req =
    req.method == method_post
    && (req.content_type == [] || has_infix (codes "json") req.content_type)

-- `func (r *McpRecognizer) Recognize`
unfoldable pub recognize_mcp : (Str → Option Json) → Str → Request → Str → Option Intent
unfolding ◌==◌
recognize_mcp unmarshal host req body = if not (is_json_post req) then none else do
  rpc ← decode_rpc (unmarshal body)
  if not (rpc.json_rpc == codes "2.0") || not (rpc.method == codes "tools/call")
      then none
      else (do params ← decode_params rpc.params; mcp_intent rpc params)
