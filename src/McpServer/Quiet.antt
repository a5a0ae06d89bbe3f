-- ===== src/McpServer/Quiet.antt =====
-- mcpserver/mcpserver.go: what the agent sees of the monitoring.
use mathlib.Core.Option.{some-injective, none-ne-some}
use casdoor_aiguard.Common.Text.{Str, ◌==◌, codes, is_empty, eq_iff, trim_space}
use casdoor_aiguard.Common.{
  Bool, ℕ, ◌+◌, not, Option, none, some, List, [], ◌∷◌, ◌++◌, ◌≡◌, refl, sym, ap, ◌∙◌, true, false,
  Bool-cases, inl, inr, if◌then◌else◌,
}
use casdoor_aiguard.Json.{Fields}
use casdoor_aiguard.McpServer.Answers.{responses, responses-append, serve_line-Answered}
use casdoor_aiguard.McpServer.Served.{responses-serve}
use casdoor_aiguard.McpServer.Protocol.{
  action_of, report_action_tool, Action, Envelope, ParsedCall, ParsedRequest, Report, Request,
  Response, Server, answer_call, bad_call, call, call_parsed, call_tool, denied_result, dispatch,
  enforce, fail, initialize_result, malformed, parsed, recorded_result, replied, reply, verdict_of,
}
use casdoor_aiguard.McpServer.Serve.{
  Input, Session, before, serve, serve_line, serve_lines, serve_parsed, serve_request, write,
  write_after,
}

-- The same server without aiguard.
abbrev pub unwatched : Server → Server
unwatched s = record s { records_url = []; enforce_url = [] }

-- Whatever aiguard answers, it does not deny.
abbrev pub NeverDenies : Server → Type 0
NeverDenies s =
    (r : Report) (resource intent : Str) (e : Envelope)
    → s.post r resource intent ≡ some e
    → e.status ≡ codes "ok"
    → e.allowed ≡ true

-- A test with both branches alike.
if_same_response :
    (c : Bool) (x y x' y' : List Action × Response)
    → x.1 ≡ x'.1
    → y.1 ≡ y'.1
    → (if c then x else y).1 ≡ (if c then x' else y').1
if_same_response true x y x' y' p q = p
if_same_response false x y x' y' p q = q

module _ (s : Server) (never : NeverDenies s) where
  verdict_of_lem :
      (r : Report) (resource intent : Str) (o : Option Envelope)
      → s.post r resource intent ≡ o
      → verdict_of o ≡ true
  unfolding verdict_of
  verdict_of_lem r resource intent none e = refl
  verdict_of_lem r resource intent (some answer) e =
      elim (Bool-cases (answer.status == codes "ok")) [
        | inl ok ↦
            rw ok (never r resource intent answer e ((eq_iff answer.status (codes "ok")).0 ok))
        | inr bad ↦ rw bad
      ]

  enforce_true :
      (time event_type action resource intent : Str) (payload : Option Fields)
      → (enforce s time event_type action resource intent payload).1 ≡ true
  unfolding enforce
  enforce_true time event_type action resource intent payload =
      elim (Bool-cases (is_empty s.enforce_url)) [
        | inl e ↦ rw e
        | inr e ↦ rw e (verdict_of_lem _ resource intent _ refl)
      ]

  call_parsed-unwatched :
      (time : Str) (m : Request) (c : ParsedCall)
      → (call_parsed s time m c).1 ≡ (call_parsed (unwatched s) time m c).1
  unfolding call_parsed answer_call enforce recorded_result denied_result fail reply
  call_parsed-unwatched time m (bad_call e) = refl
  call_parsed-unwatched time m (call name arguments) =
      if_same_response (not (name == report_action_tool)) ([], _) _ ([], _) _ refl
        (rw
          (enforce_true time (codes "tool") name (action_of arguments) (codes "mcp.tool_call")
            arguments)
          refl)

  dispatch-unwatched :
      (time : Str) (m : Request) → (dispatch s time m).1 ≡ (dispatch (unwatched s) time m).1
  unfolding dispatch call_tool reply fail initialize_result
  dispatch-unwatched time m =
      if_same_response (m.method == codes "initialize") ([], _) _ ([], _) _ refl
        (if_same_response (m.method == codes "ping") ([], _) _ ([], _) _ refl
          (if_same_response (m.method == codes "tools/list") ([], _) _ ([], _) _ refl
            (if_same_response (m.method == codes "tools/call") _ ([], _) _ ([], _)
              (call_parsed-unwatched time m (s.parse_call m.params)) refl)))

  serve_parsed-unwatched :
      (time : Str) (p : ParsedRequest)
      → (serve_parsed s time p).1 ≡ (serve_parsed (unwatched s) time p).1
  unfolding serve_parsed serve_request
  serve_parsed-unwatched time (malformed e) = refl
  serve_parsed-unwatched time (parsed m) = elim (Bool-cases (is_empty m.id)) [
    | inl e ↦ rw e
    | inr e ↦ rw e (ap some (dispatch-unwatched time m))
  ]

  serve_line-unwatched : (i : Input) → (serve_line s i).1 ≡ (serve_line (unwatched s) i).1
  unfolding serve_line
  serve_line-unwatched i = elim (Bool-cases (is_empty (trim_space i.line))) [
    | inl e ↦ rw e
    | inr e ↦ rw e (serve_parsed-unwatched i.time (s.parse_request (trim_space i.line)))
  ]

-- Two sessions that the agent cannot tell apart.
abbrev pub Alike : Session → Session → Type 0
Alike (xs, e) (ys, f) = (responses xs ≡ responses ys) × (e ≡ f)

before-Alike :
    (xs ys : List Action) (x y : Session)
    → responses xs ≡ responses ys
    → Alike x y
    → Alike (before xs x) (before ys y)
before-Alike xs ys x y same (rest, ends) = (
  responses-append xs x.0
      ∙ ap (λ l. l ++ responses x.0) same
      ∙ ap (λ l. responses ys ++ l) rest
      ∙ sym (responses-append ys y.0),
  ends,
)

write-Alike :
    (o : Option Str) (xs ys : List Action) (r : Response) (x y : Session)
    → responses xs ≡ responses ys
    → Alike x y
    → Alike (write o xs r x) (write o ys r y)
unfolding write
write-Alike (some e) xs ys r x y same rest = (same, refl)
write-Alike none xs ys r x y same rest =
    before-Alike (xs ++ replied r ∷ []) (ys ++ replied r ∷ []) x y
      (responses-append xs _
        ∙ ap (λ l. l ++ responses (replied r ∷ [])) same
        ∙ sym (responses-append ys _))
      rest

module _ (write_error : ℕ → Option Str) (n : ℕ) (later later' : ℕ → Session) where
  write_after-Alike :
      (xs ys : List Action) (o o' : Option Response)
      → responses xs ≡ responses ys
      → o ≡ o'
      → ((k : ℕ) → Alike (later k) (later' k))
      → Alike (write_after write_error n (xs, o) later) (write_after write_error n (ys, o') later')
  unfolding write_after
  write_after-Alike xs ys none none same same' rest =
      before-Alike xs ys (later n) (later' n) same (rest n)
  write_after-Alike xs ys (some r) (some q) same same' rest =
      rw (some-injective r q same')
        (write-Alike (write_error n) xs ys q (later (n + 1)) (later' (n + 1)) same (rest (n + 1)))
  write_after-Alike xs ys none (some q) same same' rest = absurd (none-ne-some q same')
  write_after-Alike xs ys (some r) none same same' rest = absurd (none-ne-some r (sym same'))

module _ (s : Server) (write_error : ℕ → Option Str) (scan_error : Option Str)
    (never : NeverDenies s) where
  serve_lines-unwatched :
      (n : ℕ) (is : List Input)
      → Alike
          (serve_lines s write_error scan_error n is)
          (serve_lines (unwatched s) write_error scan_error n is)
  unfolding serve_lines
  serve_lines-unwatched n [] = (refl, refl)
  serve_lines-unwatched n (i ∷ is) =
      write_after-Alike write_error n (λ k. serve_lines s write_error scan_error k is)
        (λ k. serve_lines (unwatched s) write_error scan_error k is) (serve_line s i).0
        (serve_line (unwatched s) i).0 (serve_line s i).1 (serve_line (unwatched s) i).1
        ((serve_line-Answered s i).0 ∙ sym (serve_line-Answered (unwatched s) i).0)
        (serve_line-unwatched s never i) (λ k. serve_lines-unwatched k is)

  -- Monitoring is not seen by the agent: as long as aiguard gives no clean answer that denies, be
  -- it unreachable or not, a session has the same answers and the same error as that of a server
  -- that neither reports nor asks.
  pub serve-unwatched :
      (started ended : Str) (is : List Input)
      → Alike
          (serve s write_error scan_error started ended is)
          (serve (unwatched s) write_error scan_error started ended is)
  unfolding serve
  serve-unwatched started ended is =
      let (same, ends) = serve_lines-unwatched 0 is in
      (
        responses-serve s write_error scan_error started ended is
            ∙ same
            ∙ sym (responses-serve (unwatched s) write_error scan_error started ended is),
        ends,
      )
