-- ===== src/Recognizers/Llm.antt =====
-- recognizers/llm.go. `raw_text` gives the bytes of a value that was kept as `json.RawMessage`.
use casdoor_aiguard.Common.{
  Bool, true, false, not, ◌&&◌, ◌||◌, Option, none, some, List, [], ◌∷◌, is_nil, keep_if,
  if◌then◌else◌,
}
use casdoor_aiguard.Common.Text.{Str, ◌==◌, has_infix, has_suffix, join, codes}
use casdoor_aiguard.Http.{Request}
use casdoor_aiguard.Intent.{Intent}
use casdoor_aiguard.Json.{
  Json, null, boolean, string, array, object, Items, nil, cons, Fields, end, field,
}
use casdoor_aiguard.Recognizers.Decode.{set_string, set_bool, set_raw, decode_field, as_object}
use casdoor_aiguard.Recognizers.Mcp.{◌>>=◌, bare_intent, is_json_post}

pub record LlmMessage : Type 0 where
  pub role : Str
  pub content : Option Json

pub record LlmChatBody : Type 0 where
  pub model : Str
  pub messages : List LlmMessage
  pub prompt : Option Json
  pub system : Option Json
  pub stream : Bool

unfoldable pub decode_message : Json → Option LlmMessage
unfolding decode_field as_object set_string set_raw
decode_message v = do
  fs ← as_object (some v)
  role ← decode_field (codes "role") set_string [] fs
  content ← decode_field (codes "content") set_raw none fs
  some (record { role = role; content = content })

unfoldable pub decode_messages : Items → Option (List LlmMessage)
unfolding decode_message
decode_messages nil = some []
decode_messages (cons v vs) = do m ← decode_message v; ms ← decode_messages vs; some (m ∷ ms)

unfoldable pub set_messages : List LlmMessage → Json → Option (List LlmMessage)
unfolding decode_messages
set_messages old null = some []
set_messages old (array vs) = decode_messages vs
set_messages old _ = none

-- `json.Unmarshal(body, &b)`
unfoldable pub decode_chat : Option Json → Option LlmChatBody
unfolding decode_field as_object set_string set_messages set_raw set_bool
decode_chat v = do
  fs ← as_object v
  model ← decode_field (codes "model") set_string [] fs
  messages ← decode_field (codes "messages") set_messages [] fs
  prompt ← decode_field (codes "prompt") set_raw none fs
  system ← decode_field (codes "system") set_raw none fs
  stream ← decode_field (codes "stream") set_bool false fs
  some (record {
    model = model;
    messages = messages;
    prompt = prompt;
    system = system;
    stream = stream;
  })

-- An array of parts, each an object with a text.
unfoldable pub decode_parts : Items → Option (List Str)
unfolding decode_field as_object set_string
decode_parts nil = some []
decode_parts (cons v vs) = do
  fs ← as_object (some v)
  text ← decode_field (codes "text") set_string [] fs
  texts ← decode_parts vs
  some (text ∷ texts)

-- The texts of the parts that have one, a line each.
unfoldable pub join_parts : List Str → Str
unfolding join keep_if ◌==◌
join_parts texts = join (codes "\n") (keep_if (λ t. not (t == [])) texts)

unfoldable pub parts_text : Str → Option (List Str) → Str
unfolding join_parts ◌==◌
parts_text raw none = raw
parts_text raw (some texts) = if join_parts texts == [] then raw else join_parts texts

-- `messageText`
unfoldable pub message_text : (Json → Str) → Option Json → Str
unfolding parts_text decode_parts
message_text raw_text none = []
message_text raw_text (some null) = []
message_text raw_text (some (string s)) = s
message_text raw_text (some (array vs)) = parts_text (raw_text (array vs)) (decode_parts vs)
message_text raw_text (some v) = raw_text v

-- `lastUserPrompt`: the loop runs from the end, so a later message comes first.
unfoldable pub last_user : List LlmMessage → Option LlmMessage
unfolding ◌==◌
last_user [] = none
last_user (m ∷ ms) = elim (last_user ms) [
  | some u ↦ some u
  | none ↦ if m.role == codes "user" then some m else none
]

unfoldable pub last_user_prompt : (Json → Str) → List LlmMessage → Str
unfolding last_user
last_user_prompt raw_text ms = elim (last_user ms) [
  | some m ↦ message_text raw_text m.content
  | none ↦ []
]

-- `flattenMessages`
unfoldable pub flatten_messages : (Json → Str) → List LlmMessage → Items
unfolding message_text
flatten_messages raw_text [] = nil
flatten_messages raw_text (m ∷ ms) =
    cons
      (object (
        field (codes "role") (string m.role)
          (field (codes "content") (string (message_text raw_text m.content)) end)))
      (flatten_messages raw_text ms)

unfoldable pub path_looks_like_llm : Str → Bool
unfolding has_infix has_suffix
path_looks_like_llm path =
    has_infix (codes "/chat/completions") path
    || has_suffix (codes "/completions") path
    || has_suffix (codes "/messages") path
    || has_suffix (codes "/responses") path

abbrev pub is_given : Option Json → Bool
is_given none = false
is_given (some _) = true

unfoldable pub llm_action : Str → LlmChatBody → Str
unfolding has_suffix
llm_action path b =
    if has_suffix (codes "/messages") path
    then codes "messages"
    else if is_nil b.messages && is_given b.prompt
    then codes "text.completion"
    else codes "chat.completion"

unfoldable pub llm_prompt : (Json → Str) → LlmChatBody → Str
unfolding last_user_prompt message_text ◌==◌
llm_prompt raw_text b =
    if last_user_prompt raw_text b.messages == [] && is_given b.prompt
    then message_text raw_text b.prompt
    else last_user_prompt raw_text b.messages

unfoldable pub llm_system : (Json → Str) → LlmChatBody → Fields
unfolding message_text ◌==◌
llm_system raw_text b =
    if not (message_text raw_text b.system == [])
    then field (codes "system") (string (message_text raw_text b.system)) end
    else end

unfoldable pub llm_intent : (Json → Str) → Str → LlmChatBody → Option Intent
unfolding ◌==◌
llm_intent raw_text path b =
    if not (not (is_nil b.messages) || is_given b.prompt)
    then none
    else if not (path_looks_like_llm path) && b.model == []
    then none
    else some (record (bare_intent (codes "llm.chat") (llm_action path b)) {
      model = b.model;
      prompt = llm_prompt raw_text b;
      raw = field (codes "model") (string b.model) (
          field (codes "path") (string path) (
            field (codes "stream") (boolean b.stream) (
              field (codes "messages") (array (flatten_messages raw_text b.messages))
                (llm_system raw_text b))));
    })

-- `func (r *LLMRecognizer) Recognize`
unfoldable pub recognize_llm :
    (Str → Option Json) → (Json → Str) → Str → Request → Str → Option Intent
unfolding llm_intent
recognize_llm unmarshal raw_text host req body =
    if not (is_json_post req)
    then none
    else (do b ← decode_chat (unmarshal body); llm_intent raw_text req.url.path b)
