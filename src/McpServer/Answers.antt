-- ===== src/McpServer/Answers.antt =====
-- mcpserver/mcpserver.go, `Serve`: who is answered.
use casdoor_aiguard.Common.Text.{Str, ◌==◌, codes, is_empty, trim_space}
use casdoor_aiguard.Common.{
  Bool, not, Option, none, some, List, [], ◌∷◌, ◌++◌, ◌≡◌, refl, ap, ◌∙◌, true, false, Bool-cases,
  inl, inr, if◌then◌else◌,
}
use casdoor_aiguard.Json.{Fields, end, field, string}
use casdoor_aiguard.McpServer.Protocol.{
  action_of, report_action_tool, Action, ParsedCall, ParsedRequest, Request, Response, Server,
  answer_call, asked, bad_call, call, call_parsed, call_tool, dispatch, enforce, fail, malformed,
  params_map, parsed, replied, reply, report, reported,
}
use casdoor_aiguard.McpServer.Serve.{Handled, Input, serve_line, serve_parsed, serve_request}

-- What is written to the agent.
unfoldable pub responses : List Action → List Response
responses [] = []
responses (replied r ∷ later) = r ∷ responses later
responses (reported _ ∷ later) = responses later
responses (asked _ _ _ ∷ later) = responses later

abbrev pub ids : List Response → List Str
ids [] = []
ids (r ∷ rs) = r.id ∷ ids rs

-- The ids of the requests that have one.
unfoldable pub id_of : ParsedRequest → List Str
id_of (malformed e) = []
id_of (parsed m) = if is_empty m.id then [] else m.id ∷ []

unfoldable pub awaited : Server → Str → List Str
unfolding id_of
awaited s line = if is_empty line then [] else id_of (s.parse_request line)

unfoldable pub requested : Server → List Input → List Str
unfolding awaited trim_space
requested s [] = []
requested s (i ∷ is) = awaited s (trim_space i.line) ++ requested s is

pub responses-append : (xs ys : List Action) → responses (xs ++ ys) ≡ responses xs ++ responses ys
unfolding responses
responses-append [] ys = refl
responses-append (replied r ∷ xs) ys = ap (◌∷◌ r) (responses-append xs ys)
responses-append (reported _ ∷ xs) ys = responses-append xs ys
responses-append (asked _ _ _ ∷ xs) ys = responses-append xs ys

-- Neither branch of a test writes, and both answer the id.
abbrev Keeps : Str → List Action × Response → Type 0
Keeps id (actions, r) = (responses actions ≡ []) × (r.id ≡ id)

if-Keeps :
    (id : Str) (c : Bool) (x y : List Action × Response)
    → Keeps id x
    → Keeps id y
    → Keeps id (if c then x else y)
if-Keeps id true x y k l = k
if-Keeps id false x y k l = l

module _ (s : Server) (time : Str) where
  pub responses-report :
      (event_type action : Str) (payload : Option Fields)
      → responses (report s time event_type action payload) ≡ []
  unfolding responses report
  responses-report event_type action payload = elim (Bool-cases (is_empty s.records_url)) [
    | inl e ↦ rw e
    | inr e ↦ rw e
  ]

  responses-enforce :
      (event_type action resource intent : Str) (payload : Option Fields)
      → responses (enforce s time event_type action resource intent payload).0 ≡ []
  unfolding responses enforce
  responses-enforce event_type action resource intent payload =
      elim (Bool-cases (is_empty s.enforce_url)) [
        | inl e ↦ rw e (responses-report event_type action payload)
        | inr e ↦ rw e
      ]

  call_parsed-Keeps : (m : Request) (c : ParsedCall) → Keeps m.id (call_parsed s time m c)
  unfolding call_parsed fail responses reply answer_call
  call_parsed-Keeps m (bad_call e) = (refl, refl)
  call_parsed-Keeps m (call name arguments) =
      if-Keeps m.id (not (name == report_action_tool)) ([], _) _ (refl, refl)
        (
          responses-enforce (codes "tool") name (action_of arguments) (codes "mcp.tool_call")
              arguments,
          refl,
        )

  pub dispatch-Keeps : (m : Request) → Keeps m.id (dispatch s time m)
  unfolding dispatch call_tool fail responses reply
  dispatch-Keeps m =
      if-Keeps m.id (m.method == codes "initialize") ([], _) _ (refl, refl)
        (if-Keeps m.id (m.method == codes "ping") ([], _) _ (refl, refl)
          (if-Keeps m.id (m.method == codes "tools/list") ([], _) _ (refl, refl)
            (if-Keeps m.id (m.method == codes "tools/call") _ ([], _)
              (call_parsed-Keeps m (s.parse_call m.params)) (refl, refl))))

-- What a line leads to: nothing is written yet, and whoever waits for an answer gets one.
abbrev pub Answered : List Str → Handled → Type 0
Answered waiting (actions, o) =
    (responses actions ≡ []) × (elim o [ none ↦ [] | some r ↦ r.id ∷ [] ] ≡ waiting)

module _ (s : Server) (time : Str) where
  serve_request-Answered : (m : Request) → Answered (id_of (parsed m)) (serve_request s time m)
  unfolding serve_request id_of
  serve_request-Answered m =
      let seen = responses-report s time (codes "mcp") m.method (params_map s m) in
      elim (Bool-cases (is_empty m.id)) [
        | inl e ↦ rw e (seen, refl)
        | inr e ↦
            let (silent, same) = dispatch-Keeps s time m in
            rw e (
              responses-append (report s time (codes "mcp") m.method (params_map s m))
                    (dispatch s time m).0
                  ∙ ap (λ l. l ++ responses (dispatch s time m).0) seen
                  ∙ silent,
              ap (λ id. id ∷ []) same,
            )
      ]

  serve_parsed-Answered : (p : ParsedRequest) → Answered (id_of p) (serve_parsed s time p)
  unfolding serve_parsed id_of
  serve_parsed-Answered (malformed e) = (
    responses-report s time (codes "mcp") (codes "malformed")
        (some (field (codes "error") (string e) end)),
    refl,
  )
  serve_parsed-Answered (parsed m) = serve_request-Answered m

pub serve_line-Answered :
    (s : Server) (i : Input) → Answered (awaited s (trim_space i.line)) (serve_line s i)
unfolding serve_line awaited responses
serve_line-Answered s i = elim (Bool-cases (is_empty (trim_space i.line))) [
  | inl e ↦ rw e (refl, refl)
  | inr e ↦ rw e (serve_parsed-Answered s i.time (s.parse_request (trim_space i.line)))
]
