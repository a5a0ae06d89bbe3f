-- ===== src/Recognizers/ToolCalls.antt =====
-- recognizers/mcp.go: what the MCP recognizer takes for a tool call, and what it says of it.
use casdoor_aiguard.Common.Text.{Str, ◌==◌, codes, has_infix, eq_iff}
use casdoor_aiguard.Common.{
  true, false, not, ◌||◌, Option, none, some, [], ◌≡◌, ◌≢◌, refl, arith, ◌⊎◌, inl, inr, Bool-cases,
  Option-cases, ◌∙◌, sym, ap, subst,
}
use casdoor_aiguard.Float.{Float64, float_zero}
use casdoor_aiguard.Http.{Request, method_post}
use casdoor_aiguard.Intent.{Intent}
use casdoor_aiguard.Json.{Fields, Json, array, boolean, get_field, null, number, object, string}
use casdoor_aiguard.Recognizers.Mcp.{
  JsonRpcRequest, McpToolCallParams, amount_keys, bare_intent, decode_params, decode_rpc,
  enrich_with_payment_fields, enrich_amount, enrich_currency, enrich_recipient, is_json_post,
  mcp_intent, number_field, number_of, recognize_mcp,
}

-- What stands under a key is no number.
abbrev pub NoNumber : Fields → Str → Type 0
NoNumber m key = (n : Float64) → get_field key m ≢ some (number n)

-- The amount of a call by its arguments: the first number among three of them.
pub data Amount (m : Fields) : Option Float64 → Type 0 where
  by_amount : {n : Float64} → get_field (codes "amount") m ≡ some (number n) → Amount m (some n)
  by_value :
      {n : Float64}
      → NoNumber m (codes "amount")
      → get_field (codes "value") m ≡ some (number n)
      → Amount m (some n)
  by_total :
      {n : Float64}
      → NoNumber m (codes "amount")
      → NoNumber m (codes "value")
      → get_field (codes "total") m ≡ some (number n)
      → Amount m (some n)
  no_amount :
      NoNumber m (codes "amount")
      → NoNumber m (codes "value")
      → NoNumber m (codes "total")
      → Amount m none

number_of-some : (o : Option Json) {n : Float64} → number_of o ≡ some n → o ≡ some (number n)
unfolding number_of
number_of-some (some (number m)) e = cc
number_of-some (some null) e = cc
number_of-some (some (boolean b)) e = cc
number_of-some (some (string s)) e = cc
number_of-some (some (array xs)) e = cc
number_of-some (some (object fs)) e = cc
number_of-some none e = cc

number_of-NoNumber : (m : Fields) (key : Str) → number_of (get_field key m) ≡ none → NoNumber m key
number_of-NoNumber m key e n q = cc (e, ap number_of q, number_of_number n)
  where
    number_of_number : (n : Float64) → number_of (some (number n)) ≡ some n
    number_of_number n = unfold number_of in refl

number_field-Amount : (m : Fields) → Amount m (number_field m amount_keys)
unfolding number_field
number_field-Amount m = elim (Option-cases (number_of (get_field (codes "amount") m))) [
  | inr (n, e) ↦ rw (e, number_field) (by_amount (number_of-some _ e))
  | inl a ↦
      let no_a = number_of-NoNumber m (codes "amount") a in
      elim (Option-cases (number_of (get_field (codes "value") m))) [
        | inr (n, e) ↦ rw (a, e, number_field) (by_value no_a (number_of-some _ e))
        | inl b ↦
            let no_b = number_of-NoNumber m (codes "value") b in
            elim (Option-cases (number_of (get_field (codes "total") m))) [
              | inr (n, e) ↦ rw (a, b, e, number_field) (by_total no_a no_b (number_of-some _ e))
              | inl c ↦
                  rw (a, b, c, number_field)
                    (no_amount no_a no_b (number_of-NoNumber m (codes "total") c))
            ]
      ]
]

module _ (unmarshal : Str → Option Json) (req : Request) (body : Str) where
  -- A request that carries a tool call.
  pub record IsToolCall (rpc : JsonRpcRequest) (params : McpToolCallParams) : Type 0 where
    pub post : req.method ≡ method_post
    pub json : (req.content_type ≡ []) ⊎ (has_infix (codes "json") req.content_type ≡ true)
    pub envelope : decode_rpc (unmarshal body) ≡ some rpc
    pub version : rpc.json_rpc ≡ codes "2.0"
    pub method : rpc.method ≡ codes "tools/call"
    pub decoded : decode_params rpc.params ≡ some params
    pub named : params.name ≢ []

  -- An intent that says what the call is: its tool, its arguments, and whether it is a payment.
  pub record Says (params : McpToolCallParams) (intent : Intent) : Type 0 where
    pub tool_name : intent.tool_name ≡ params.name
    pub action : intent.action ≡ codes "tools/call"
    pub raw : intent.raw ≡ params.arguments
    pub payment :
        ((intent.category ≡ codes "payment") × Amount params.arguments (some intent.amount))
        ⊎ ((intent.category ≡ codes "mcp.tool_call")
            × (intent.amount ≡ float_zero)
            × Amount params.arguments none)

  -- What the recognizer answers.
  pub data Answers : Option Intent → Type 0 where
    call :
        (rpc : JsonRpcRequest) (params : McpToolCallParams) (intent : Intent)
        → IsToolCall rpc params
        → Says params intent
        → Answers (some intent)
    no_call :
        ((rpc : JsonRpcRequest) (params : McpToolCallParams) → ¬ IsToolCall rpc params)
        → Answers none

  enrich_currency-Says :
      (c : Option Str) (params : McpToolCallParams) (i : Intent)
      → Says params i
      → Says params (enrich_currency c i)
  unfolding enrich_currency
  enrich_currency-Says none params i h = h
  enrich_currency-Says (some c) params i h = record {
    tool_name = h.tool_name;
    action = h.action;
    raw = h.raw;
    payment = h.payment;
  }

  enrich_recipient-Says :
      (r : Option Str) (params : McpToolCallParams) (i : Intent)
      → Says params i
      → Says params (enrich_recipient r i)
  unfolding enrich_recipient
  enrich_recipient-Says none params i h = h
  enrich_recipient-Says (some r) params i h = record {
    tool_name = h.tool_name;
    action = h.action;
    raw = h.raw;
    payment = h.payment;
  }

  abbrev called : McpToolCallParams → Str → Intent
  called params method = record (bare_intent (codes "mcp.tool_call") method) {
    tool_name = params.name;
    raw = params.arguments;
  }

  enrich_amount-Says :
      (a : Option Float64) (params : McpToolCallParams) (method : Str)
      → method ≡ codes "tools/call"
      → Amount params.arguments a
      → Says params (enrich_amount a (called params method))
  unfolding enrich_amount
  enrich_amount-Says none params method m e = record {
    tool_name = refl;
    action = m;
    raw = refl;
    payment = inr (refl, refl, e);
  }
  enrich_amount-Says (some a) params method m e = record {
    tool_name = refl;
    action = m;
    raw = refl;
    payment = inl (refl, e);
  }

  enrich-Says :
      (params : McpToolCallParams) (method : Str)
      → method ≡ codes "tools/call"
      → Says params (enrich_with_payment_fields (called params method) params.arguments)
  unfolding enrich_with_payment_fields
  enrich-Says params method m = enrich_currency-Says _ params _ (
      enrich_recipient-Says _ params _
        (enrich_amount-Says _ params method m (number_field-Amount params.arguments)))

  is_json_post_guards :
      is_json_post req ≡ true
      → (req.method ≡ method_post)
        × ((req.content_type ≡ []) ⊎ (has_infix (codes "json") req.content_type ≡ true))
  unfolding is_json_post
  is_json_post_guards h =
      (ground (arith, eq_iff req.method method_post), ground (arith, eq_iff req.content_type []))

  not_json_post :
      is_json_post req ≡ false
      → (rpc : JsonRpcRequest) (params : McpToolCallParams) → ¬ IsToolCall rpc params
  unfolding is_json_post
  not_json_post h rpc params c =
      ground (arith, eq_iff req.method method_post, eq_iff req.content_type [], c.post, c.json, h)

  some_same : {A : Type 0} {a b : A} → some a ≡ some b → a ≡ b
  some_same e = cc

  of_envelope :
      (rpc rpc' : JsonRpcRequest) (params : McpToolCallParams)
      → decode_rpc (unmarshal body) ≡ some rpc
      → IsToolCall rpc' params
      → IsToolCall rpc params
  of_envelope rpc rpc' params n c =
      subst (λ r. IsToolCall r params) (some_same (sym c.envelope ∙ n)) c

  wrong_version :
      (rpc : JsonRpcRequest)
      → decode_rpc (unmarshal body) ≡ some rpc
      → (not (rpc.json_rpc == codes "2.0") || not (rpc.method == codes "tools/call")) ≡ true
      → (rpc' : JsonRpcRequest) (params : McpToolCallParams) → ¬ IsToolCall rpc' params
  wrong_version rpc n v rpc' params c =
      let d = of_envelope rpc rpc' params n c in
      ground (
        arith,
        eq_iff rpc.json_rpc (codes "2.0"),
        eq_iff rpc.method (codes "tools/call"),
        d.version,
        d.method,
        v,
      )

  no_params :
      (rpc : JsonRpcRequest)
      → decode_rpc (unmarshal body) ≡ some rpc
      → decode_params rpc.params ≡ none
      → (rpc' : JsonRpcRequest) (params : McpToolCallParams) → ¬ IsToolCall rpc' params
  no_params rpc n d rpc' params c = let q = of_envelope rpc rpc' params n c in cc (d, q.decoded)

  no_name :
      (rpc : JsonRpcRequest) (params : McpToolCallParams)
      → decode_rpc (unmarshal body) ≡ some rpc
      → decode_params rpc.params ≡ some params
      → (params.name == []) ≡ true
      → (rpc' : JsonRpcRequest) (params' : McpToolCallParams) → ¬ IsToolCall rpc' params'
  no_name rpc params n d z rpc' params' c =
      let q = of_envelope rpc rpc' params' n c in
      q.named
        (ap McpToolCallParams.name (some_same (sym q.decoded ∙ d)) ∙ (eq_iff params.name []).0 z)

  -- The MCP recognizer recognizes a request exactly if it is a POST whose content type is JSON or
  -- missing and whose body is a JSON-RPC 2.0 request tools/call with a tool's name. The intent names
  -- the tool and keeps the arguments; it is a payment of the first number among the arguments amount,
  -- value and total, and an ordinary tool call with no amount if none of these is a number.
  pub recognize_mcp-Answers : (host : Str) → Answers (recognize_mcp unmarshal host req body)
  unfolding mcp_intent recognize_mcp
  recognize_mcp-Answers host = elim (Bool-cases (is_json_post req)) [
    | inr e ↦ rw (e, recognize_mcp) (no_call (not_json_post e))
    | inl e ↦ elim (Option-cases (decode_rpc (unmarshal body))) [
      | inl n ↦ rw (e, n, recognize_mcp) (no_call (λ rpc params c. cc (n, c.envelope)))
      | inr (rpc, n) ↦
          elim (Bool-cases
            (not (rpc.json_rpc == codes "2.0") || not (rpc.method == codes "tools/call"))) [
              | inl v ↦ rw (e, n, v, recognize_mcp) (no_call (wrong_version rpc n v))
              | inr v ↦ elim (Option-cases (decode_params rpc.params)) [
                | inl d ↦ rw (e, n, v, d, recognize_mcp) (no_call (no_params rpc n d))
                | inr (params, d) ↦ elim (Bool-cases (params.name == [])) [
                  | inl z ↦ rw (e, n, v, d, z, recognize_mcp) (no_call (no_name rpc params n d z))
                  | inr z ↦ rw (e, n, v, d, z, recognize_mcp) (accepted rpc params e n v d z)
                ]
              ]
            ]
    ]
  ]
    where
      accepted :
          (rpc : JsonRpcRequest) (params : McpToolCallParams)
          → is_json_post req ≡ true
          → decode_rpc (unmarshal body) ≡ some rpc
          → (not (rpc.json_rpc == codes "2.0") || not (rpc.method == codes "tools/call")) ≡ false
          → decode_params rpc.params ≡ some params
          → (params.name == []) ≡ false
          → Answers (some (enrich_with_payment_fields (called params rpc.method) params.arguments))
      accepted rpc params e n v d z =
          let m : rpc.method ≡ codes "tools/call" =
            ground (arith, eq_iff rpc.method (codes "tools/call"), v) in
          call rpc params (enrich_with_payment_fields (called params rpc.method) params.arguments)
            (record {
              post = (is_json_post_guards e).0;
              json = (is_json_post_guards e).1;
              envelope = n;
              version = ground (arith, eq_iff rpc.json_rpc (codes "2.0"), v);
              method = m;
              decoded = d;
              named = λ q. ground (arith, eq_iff params.name [], z, q);
            })
            (enrich-Says params rpc.method m)
