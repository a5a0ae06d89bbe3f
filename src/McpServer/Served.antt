-- ===== src/McpServer/Served.antt =====
-- mcpserver/mcpserver.go, `Serve`: the answers of a whole session.
use casdoor_aiguard.Common.Text.{Str, codes, trim_space}
use casdoor_aiguard.Common.{
  ℕ, ◌+◌, Option, none, some, List, [], ◌∷◌, ◌++◌, ◌≡◌, refl, sym, ap, ◌≢◌, ◌∙◌, append-nil,
  append_assoc,
}
use casdoor_aiguard.McpServer.Protocol.{Action, Response, Server, replied, report}
use casdoor_aiguard.McpServer.Serve.{
  write, write_after, Handled, Input, Session, serve, serve_line, serve_lines, write_after,
}
use casdoor_aiguard.McpServer.Answers.{
  Answered, awaited, ids, requested, responses, responses-append, responses-report,
  serve_line-Answered,
}

ids-append : (xs ys : List Response) → ids (xs ++ ys) ≡ ids xs ++ ids ys
ids-append [] ys = refl
ids-append (x ∷ xs) ys = ap (◌∷◌ x.id) (ids-append xs ys)

ids_after :
    (xs ys : List Action) → responses xs ≡ [] → ids (responses (xs ++ ys)) ≡ ids (responses ys)
ids_after xs ys silent = ap ids (responses-append xs ys ∙ ap (λ l. l ++ responses ys) silent)

ids_written :
    (xs ys : List Action) (r : Response)
    → responses xs ≡ []
    → ids (responses ((xs ++ replied r ∷ []) ++ ys)) ≡ r.id ∷ ids (responses ys)
unfolding responses
ids_written xs ys r silent =
    ap (λ l. ids (responses l)) (append_assoc xs (replied r ∷ []) ys)
    ∙ ids_after xs (replied r ∷ ys) silent

-- The answers of a session, and who is left without one, which is nobody if no write fails.
abbrev Served : (ℕ → Option Str) → Session → List Str → Type 0
Served write_error (actions, e) waiting =
    (rest : List Str) × (ids (responses actions) ++ rest ≡ waiting)
    × (((n : ℕ) → write_error n ≡ none) → rest ≡ [])

module _ (write_error : ℕ → Option Str) (waiting more : List Str) where
  write-Served :
      (n : ℕ) (o : Option Str) (actions : List Action) (r : Response) (later : Session)
      → write_error n ≡ o
      → Served write_error later more
      → Answered waiting (actions, some r)
      → Served write_error (write o actions r later) (waiting ++ more)
  unfolding write responses
  write-Served n (some e) actions r later failed rest_served (silent, answered) = (
    waiting ++ more,
    ap (λ l. ids l ++ (waiting ++ more)) silent,
    λ ok. absurd (some≢none (sym failed ∙ ok n)),
  )
    where
      some≢none : some e ≢ none
      some≢none h = cc
  write-Served n none actions r later done (rest, split, all) (silent, answered) = (
    rest,
    ap (λ l. l ++ rest) (ids_written actions later.0 r silent)
        ∙ ap (◌∷◌ r.id) split
        ∙ ap (λ l. l ++ more) answered,
    all,
  )

  write_after-Served :
      (later : ℕ → Session) (n : ℕ) (h : Handled)
      → ((k : ℕ) → Served write_error (later k) more)
      → Answered waiting h
      → Served write_error (write_after write_error n h later) (waiting ++ more)
  unfolding write_after
  write_after-Served later n (actions, none) rest_served (silent, answered) =
      let (rest, split, all) = rest_served n in
      (
        rest,
        ap (λ l. l ++ rest) (ids_after actions (later n).0 silent)
            ∙ split
            ∙ ap (λ l. l ++ more) answered,
        all,
      )
  write_after-Served later n (actions, some r) rest_served answered =
      write-Served n (write_error n) actions r (later (n + 1)) refl (rest_served (n + 1)) answered

module _ (s : Server) (write_error : ℕ → Option Str) (scan_error : Option Str) where
  serve_lines-Served :
      (n : ℕ) (is : List Input)
      → Served write_error (serve_lines s write_error scan_error n is) (requested s is)
  unfolding serve_lines requested responses
  serve_lines-Served n [] = ([], refl, λ ok. refl)
  serve_lines-Served n (i ∷ is) =
      write_after-Served write_error (awaited s (trim_space i.line)) (requested s is)
        (λ k. serve_lines s write_error scan_error k is) n (serve_line s i)
        (λ k. serve_lines-Served k is) (serve_line-Answered s i)

  -- A session's own records are not answers.
  pub responses-serve :
      (started ended : Str) (is : List Input)
      → responses (serve s write_error scan_error started ended is).0
        ≡ responses (serve_lines s write_error scan_error 0 is).0
  unfolding serve
  responses-serve started ended is =
      let actions = (serve_lines s write_error scan_error 0 is).0 in
      let first = report s started (codes "session") (codes "start") none in
      let last = report s ended (codes "session") (codes "end") none in
      responses-append first (actions ++ last)
      ∙ ap (λ l. l ++ responses (actions ++ last)) (responses-report s started _ _ none)
      ∙ responses-append actions last
      ∙ ap (λ l. responses actions ++ l) (responses-report s ended _ _ none)
      ∙ append-nil (responses actions)

  serve-Served :
      (started ended : Str) (is : List Input)
      → Served write_error (serve s write_error scan_error started ended is) (requested s is)
  serve-Served started ended is =
      let (rest, split, all) = serve_lines-Served 0 is in
      (rest, ap (λ l. ids l ++ rest) (responses-serve started ended is) ∙ split, all)

  -- Also where a write or the reading fails, the answers of a session go to the first of the
  -- requests with an id, in their order: none is passed over or answered twice.
  pub serve-ids-prefix :
      (started ended : Str) (is : List Input)
      → (rest : List Str) × (ids (responses (serve s write_error scan_error started ended is).0)
            ++ rest
          ≡ requested s is)
  serve-ids-prefix started ended is =
      let (rest, split, all) = serve-Served started ended is in (rest, split)

  -- A session whose writes succeed answers every request with an id, once, under its id and in the
  -- order of the requests, and nothing else: whatever the methods, the errors of a call and the
  -- answers of aiguard are.
  pub serve-ids :
      (started ended : Str) (is : List Input)
      → ((n : ℕ) → write_error n ≡ none)
      → ids (responses (serve s write_error scan_error started ended is).0) ≡ requested s is
  serve-ids started ended is ok =
      let (rest, split, all) = serve-Served started ended is in
      sym (append-nil _)
      ∙ ap (λ l. ids (responses (serve s write_error scan_error started ended is).0) ++ l)
          (sym (all ok))
      ∙ split
