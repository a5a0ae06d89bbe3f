-- ===== src/McpServer/Serve.antt =====
-- mcpserver/mcpserver.go, `Serve`: a session over the lines that the scanner gives, each with the time
-- at which it is handled.
use casdoor_aiguard.Common.Text.{Str, codes, is_empty, trim_space}
use casdoor_aiguard.Common.{ℕ, ◌+◌, Option, none, some, List, [], ◌∷◌, ◌++◌, if◌then◌else◌}
use casdoor_aiguard.Json.{end, field, string}
use casdoor_aiguard.McpServer.Protocol.{
  Action, ParsedRequest, Request, Response, Server, dispatch, malformed, params_map, parsed,
  replied, report,
}

pub record Input : Type 0 where
  pub time : Str
  pub line : Str

-- What is done for one message, and the response to write.
abbrev pub Handled : Type 0
Handled = List Action × Option Response

abbrev pub with_response : List Action × Response → Handled
with_response (actions, r) = (actions, some r)

unfoldable pub serve_request : Server → Str → Request → Handled
unfolding report params_map dispatch
serve_request s time m =
    let seen = report s time (codes "mcp") m.method (params_map s m) in
    if is_empty m.id
    then (seen, none)
    else (let (actions, r) = dispatch s time m in (seen ++ actions, some r))

unfoldable pub serve_parsed : Server → Str → ParsedRequest → Handled
unfolding serve_request report
serve_parsed s time (malformed e) = (
  report s time (codes "mcp") (codes "malformed") (some (field (codes "error") (string e) end)),
  none,
)
serve_parsed s time (parsed m) = serve_request s time m

-- The body of the loop up to the write.
unfoldable pub serve_line : Server → Input → Handled
unfolding serve_parsed trim_space
serve_line s i =
    let line = trim_space i.line in
    if is_empty line then ([], none) else serve_parsed s i.time (s.parse_request line)

-- What the session does in the end, and its error.
abbrev pub Session : Type 0
Session = List Action × Option Str

abbrev pub before : List Action → Session → Session
before actions (later, e) = (actions ++ later, e)

-- The write of a response, given its error if it fails, and what follows if it does not.
unfoldable pub write : Option Str → List Action → Response → Session → Session
write (some e) actions r later = (actions, some e)
write none actions r later = before (actions ++ replied r ∷ []) later

-- `write_error n` is the error of the n-th write.
unfoldable pub write_after : (ℕ → Option Str) → ℕ → Handled → (ℕ → Session) → Session
unfolding write
write_after write_error n (actions, none) later = before actions (later n)
write_after write_error n (actions, some r) later = write (write_error n) actions r (later (n + 1))

-- The loop; `scan_error` is the error of the scanner at the end.
unfoldable pub serve_lines : Server → (ℕ → Option Str) → Option Str → ℕ → List Input → Session
unfolding serve_line write_after
serve_lines s write_error scan_error n [] = ([], scan_error)
serve_lines s write_error scan_error n (i ∷ is) =
    write_after write_error n (serve_line s i) (λ k. serve_lines s write_error scan_error k is)

-- `Serve`
unfoldable pub serve : Server → (ℕ → Option Str) → Option Str → Str → Str → List Input → Session
unfolding serve_lines report
serve s write_error scan_error started ended is =
    let (actions, e) = serve_lines s write_error scan_error 0 is in
    (
      report s started (codes "session") (codes "start") none
          ++ (actions ++ report s ended (codes "session") (codes "end") none),
      e,
    )
