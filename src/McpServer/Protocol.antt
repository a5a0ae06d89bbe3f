-- ===== src/McpServer/Protocol.antt =====
-- mcpserver/protocol.go, and what mcpserver/mcpserver.go answers to one request.
use Prim.Native.String.{String}
use casdoor_aiguard.Common.Int.{ℤ, negsuc}
use casdoor_aiguard.Common.Text.{Str, ◌==◌, codes, is_empty}
use casdoor_aiguard.Common.{Bool, true, not, Option, none, some, List, [], ◌∷◌, ◌++◌, if◌then◌else◌}
use casdoor_aiguard.Json.{
  Json, Fields, array, boolean, cons, end, field, get_field, nil, object, string,
}

-- `request`, without its version; an absent id or absent params are empty.
pub record Request : Type 0 where
  pub id : Str
  pub method : Str
  pub params : Str

pub data Body : Type 0 where
  result : Json → Body
  rpc_error : ℤ → Str → Body

pub record Response : Type 0 where
  pub id : Str
  pub body : Body

-- A record for aiguard.
pub record Report : Type 0 where
  pub agent : Str
  pub created_time : Str
  pub event_type : Str
  pub action : Str
  pub object_text : Str

-- What the server does that is seen from outside.
pub data Action : Type 0 where
  reported : Report → Action
  asked : Report → Str → Str → Action
  replied : Response → Action

-- The answer of the enforce endpoint that could be decoded.
pub record Envelope : Type 0 where
  pub status : Str
  pub allowed : Bool

pub data ParsedRequest : Type 0 where
  parsed : Request → ParsedRequest
  malformed : Str → ParsedRequest

pub data ParsedCall : Type 0 where
  call : Str → Option Fields → ParsedCall
  bad_call : Str → ParsedCall

-- A server, and what it is given: JSON, `%q`, and the answer to a post, `none` if it fails or cannot be
-- decoded.
pub record Server : Type 0 where
  pub agent_id : Str
  pub records_url : Str
  pub enforce_url : Str
  pub version : Str
  pub parse_request : Str → ParsedRequest
  pub parse_object : Str → Option Fields
  pub parse_version : Str → Option Str
  pub parse_call : Str → ParsedCall
  pub marshal : Json → Option Str
  pub quote : Str → Str
  pub post : Report → Str → Str → Option Envelope

abbrev pub invalid_params : ℤ
invalid_params = negsuc 32601

abbrev pub method_not_found : ℤ
method_not_found = negsuc 32600

abbrev pub fallback_protocol_version : Str
fallback_protocol_version = codes "2025-06-18"

abbrev pub report_action_tool : Str
report_action_tool = codes "aiguard_report_action"

-- `request.reply` and `request.fail`
unfoldable pub reply : Request → Json → Response
reply m r = record { id = m.id; body = result r }

unfoldable pub fail : Request → ℤ → Str → Response
fail m code message = record { id = m.id; body = rpc_error code message }

-- `request.paramsMap`
unfoldable pub params_map : Server → Request → Option Fields
params_map s m = if is_empty m.params then none else s.parse_object m.params

-- The payload as a record holds it.
unfoldable pub payload_text : Server → Option Fields → Str
payload_text s none = []
payload_text s (some fs) = elim (s.marshal (object fs)) [ none ↦ [] | some text ↦ text ]

unfoldable pub new_report : Server → Str → Str → Str → Option Fields → Report
unfolding payload_text
new_report s time event_type action payload = record {
  agent = s.agent_id;
  created_time = time;
  event_type = event_type;
  action = action;
  object_text = payload_text s payload;
}

-- `report`, which offers a record to the queue
unfoldable pub report : Server → Str → Str → Str → Option Fields → List Action
unfolding new_report
report s time event_type action payload =
    if is_empty s.records_url
    then []
    else reported (new_report s time event_type action payload) ∷ []

-- What the answer of the endpoint says.
unfoldable pub verdict_of : Option Envelope → Bool
unfolding ◌==◌
verdict_of none = true
verdict_of (some e) = if e.status == codes "ok" then e.allowed else true

-- `enforce`; the body of its post is of strings, which can be encoded
unfoldable pub enforce : Server → Str → Str → Str → Str → Str → Option Fields → List Action × Bool
unfolding report new_report verdict_of
enforce s time event_type action resource intent payload =
    let r = new_report s time event_type action payload in
    if is_empty s.enforce_url
    then (report s time event_type action payload, true)
    else (asked r resource intent ∷ [], verdict_of (s.post r resource intent))

abbrev pub string_or_empty : Option Json → Str
string_or_empty (some (string s)) = s
string_or_empty _ = []

-- What a call says it is about to do.
unfoldable pub action_of : Option Fields → Str
action_of none = []
action_of (some arguments) = string_or_empty (get_field (codes "action") arguments)

unfoldable pub text_content : Str → Json
text_content text = array (
    cons
      (object
        (field (codes "type") (string (codes "text")) (field (codes "text") (string text) end)))
      nil)

unfoldable pub denied_result : Server → Str → Json
unfolding text_content
denied_result s action = object (
    field (codes "isError") (boolean true) (
      field (codes "content")
        (text_content (
          codes "Casdoor AIGuard denied "
          ++ (s.quote action
              ++ codes
                  ": it is blocked by an enabled policy set, so the operation was not performed.")))
        end))

unfoldable pub recorded_result : Server → Str → Json
unfolding text_content
recorded_result s action = object (
    field (codes "content")
      (text_content
        (codes "Recorded " ++ (s.quote action ++ codes " in the Casdoor AIGuard audit log.")))
      end)

unfoldable pub answer_call : Server → Request → Str → List Action × Bool → List Action × Response
unfolding reply denied_result recorded_result
answer_call s m action (actions, allowed) =
    (actions, reply m (if allowed then recorded_result s action else denied_result s action))

unfoldable pub call_parsed : Server → Str → Request → ParsedCall → List Action × Response
unfolding fail answer_call enforce action_of ◌==◌
call_parsed s time m (bad_call e) = ([], fail m invalid_params e)
call_parsed s time m (call name arguments) =
    let action = action_of arguments in
    if not (name == report_action_tool)
    then ([], fail m invalid_params (codes "unknown tool " ++ s.quote name))
    else answer_call s m action
        (enforce s time (codes "tool") name action (codes "mcp.tool_call") arguments)

-- `callTool`
unfoldable pub call_tool : Server → Str → Request → List Action × Response
unfolding call_parsed
call_tool s time m = call_parsed s time m (s.parse_call m.params)

unfoldable pub protocol_version : Option Str → Str
protocol_version none = fallback_protocol_version
protocol_version (some v) = if is_empty v then fallback_protocol_version else v

-- `initializeResult`
unfoldable pub initialize_result : Server → Request → Json
unfolding protocol_version
initialize_result s m = object (
    field (codes "protocolVersion") (string (protocol_version (s.parse_version m.params))) (
      field (codes "capabilities") (object (field (codes "tools") (object end) end)) (
        field (codes "serverInfo")
          (object (
            field (codes "name") (string (codes "casdoor-aiguard"))
              (field (codes "version") (string s.version) end)))
          end)))

abbrev described : String → Json
described text = object (
    field (codes "type") (string (codes "string"))
      (field (codes "description") (string (codes text)) end))

-- `tools`
unfoldable pub tools : Json
tools = array (
    cons
      (object (
        field (codes "name") (string report_action_tool) (
          field (codes "description")
            (string (
              codes
                "Report an action you are about to take to the Casdoor AIGuard audit log. Use this before performing a sensitive operation such as a payment, a credential change, or sending data to a third party."))
            (field (codes "inputSchema")
              (object (
                field (codes "type") (string (codes "object")) (
                  field (codes "properties")
                    (object (
                      field (codes "action")
                        (described
                          "Short description of the action, e.g. 'transfer funds' or 'send customer list by email'.")
                        (field (codes "detail")
                          (described "Any relevant detail: amounts, recipients, files, endpoints.")
                          end)))
                    (field (codes "required") (array (cons (string (codes "action")) nil)) end))))
              end))))
      nil)

-- `dispatch`
unfoldable pub dispatch : Server → Str → Request → List Action × Response
unfolding initialize_result tools call_tool reply fail ◌==◌
dispatch s time m =
    if m.method == codes "initialize"
    then ([], reply m (initialize_result s m))
    else if m.method == codes "ping"
    then ([], reply m (object end))
    else if m.method == codes "tools/list"
    then ([], reply m (object (field (codes "tools") tools end)))
    else if m.method == codes "tools/call"
    then call_tool s time m
    else ([], fail m method_not_found (codes "unsupported method " ++ s.quote m.method))
