-- ===== src/Tests/Sessions.antt =====
-- mcpserver/mcpserver.go: concrete sessions, and a run of the reporter.
use mathlib.Core.Option.{some-injective}
use casdoor_aiguard.Common.Text.{Str, ◌==◌, codes}
use casdoor_aiguard.Common.{
  ℕ, zero, suc, ap, ◌≤◌, Option, none, some, List, [], ◌∷◌, ◌≡◌, refl, true, if◌then◌else◌, length,
  sym, ◌++◌,
}
use casdoor_aiguard.Json.{Fields, end, field, string}
use casdoor_aiguard.McpServer.Answers.{ids, requested, responses}
use casdoor_aiguard.McpServer.Served.{serve-ids, serve-ids-prefix}
use casdoor_aiguard.McpServer.Posted.{IsSubsequence, drain-IsSubsequence}
use casdoor_aiguard.McpServer.Protocol.{
  Envelope, ParsedRequest, Report, Server, call, malformed, parsed, report_action_tool,
}
use casdoor_aiguard.McpServer.Quiet.{Alike, NeverDenies, serve-unwatched, unwatched}
use casdoor_aiguard.McpServer.Reporter.{
  Reporter, Runs, drain, offer, offered, posted, queue_depth, started,
}
use casdoor_aiguard.McpServer.Serve.{Input, serve}

-- Requests by the first byte of their line: a call of the tool, a ping, a notification.
abbrev requests : Str → ParsedRequest
requests [] = malformed (codes "nothing")
requests (c ∷ id) =
    if (c ∷ []) == codes "c"
    then parsed (record { id = id; method = codes "tools/call"; params = codes "pay" })
    else if (c ∷ []) == codes "p"
    then parsed (record { id = id; method = codes "ping"; params = [] })
    else if (c ∷ []) == codes "n"
    then parsed (record { id = []; method = codes "notifications/initialized"; params = [] })
    else malformed (codes "not JSON")

abbrev arguments : Fields
arguments = field (codes "action") (string (codes "pay")) end

-- A guard that answers, and denies nothing.
abbrev guarded : Server
guarded = record {
  agent_id = codes "claude-desktop";
  records_url = codes "http://localhost:9112/api/add-record";
  enforce_url = codes "http://localhost:9112/api/enforce";
  version = codes "0.1.0";
  parse_request = requests;
  parse_object = λ _. none;
  parse_version = λ _. none;
  parse_call = λ _. call report_action_tool (some arguments);
  marshal = λ _. some (codes "{}");
  quote = λ s. s;
  post = λ _ _ _. some (record { status = codes "ok"; allowed = true });
}

abbrev at : Str → Input
at line = record { time = codes "t"; line = line }

abbrev lines : List Input
lines = at (codes " c1 ") ∷ at (codes "n") ∷ at (codes "x") ∷ at [] ∷ at (codes "p2") ∷ []

abbrev never_fails : ℕ → Option Str
never_fails _ = none

abbrev fails_later : ℕ → Option Str
fails_later zero = none
fails_later (suc _) = some (codes "broken pipe")

lines_requested : requested guarded lines ≡ codes "1" ∷ codes "2" ∷ []
unfolding requested ◌==◌
lines_requested = refl

serve-ids_example :
    ids (responses (serve guarded never_fails none (codes "a") (codes "z") lines).0)
    ≡ requested guarded lines
serve-ids_example = serve-ids guarded never_fails none (codes "a") (codes "z") lines (λ n. refl)

serve-ids-prefix_example :
    (rest : List Str) × (ids
          (responses (serve guarded fails_later none (codes "a") (codes "z") lines).0)
        ++ rest
      ≡ requested guarded lines)
serve-ids-prefix_example = serve-ids-prefix guarded fails_later none (codes "a") (codes "z") lines

guarded-NeverDenies : NeverDenies guarded
guarded-NeverDenies r resource intent e same ok =
    sym (ap (λ (a : Envelope). a.allowed) (some-injective _ e same))

serve-unwatched_example :
    Alike
      (serve guarded never_fails none (codes "a") (codes "z") lines)
      (serve (unwatched guarded) never_fails none (codes "a") (codes "z") lines)
serve-unwatched_example =
    serve-unwatched guarded never_fails none guarded-NeverDenies (codes "a") (codes "z") lines

abbrev seen : Report
seen = record {
  agent = codes "claude-desktop";
  created_time = codes "t";
  event_type = codes "mcp";
  action = codes "ping";
  object_text = [];
}

-- Two records offered, the first of them posted in between.
abbrev last : Reporter
last = record { queue = seen ∷ []; taken = seen ∷ [] }

last-Runs : Runs (seen ∷ seen ∷ []) last
unfolding offer
last-Runs = offered seen (posted {queue = []} {taken = []} seen (offered seen started))

drain-IsSubsequence_example :
    (length (last.queue) ≤ queue_depth)
    × Runs (seen ∷ seen ∷ []) (drain last)
    × ((drain last).queue ≡ [])
    × IsSubsequence (drain last).taken (seen ∷ seen ∷ [])
drain-IsSubsequence_example = drain-IsSubsequence last-Runs
