-- ===== src/Tests/Learning.antt =====
-- A correction of the judged record, and the rule that it teaches.
use casdoor_aiguard.Common.Text.{codes}
use casdoor_aiguard.Common.{true, ◌↔◌, false, [], ◌≡◌, refl, inr}
use casdoor_aiguard.Enforce.Endpoint.{Recorded, enforce, enforce-Recorded, ruled}
use casdoor_aiguard.Enforce.State.{enforce_for_agent}
use casdoor_aiguard.Record.Store.{has_id}
use casdoor_aiguard.Tests.Decisions.{casbin, hub, state}
use casdoor_aiguard.SelfLearn.Feedback.Forgotten.{Forgotten}
use casdoor_aiguard.SelfLearn.Feedback.Taught.{Taught}
use casdoor_aiguard.SelfLearn.Feedback.{Learning}
use casdoor_aiguard.SelfLearn.Literals.{matches_expression, matches_expression-regex_literal}
use casdoor_aiguard.SelfLearn.{LearnedRule, regex_literal}
use casdoor_aiguard.Tests.Stores.{answering, judged, table}

abbrev learning : Learning
learning = record { table = table; property = [] }

abbrev rule : LearnedRule
rule = record {
  id = codes "r1";
  subject = codes "ann";
  obj = codes "x#y";
  act = codes "mcp.tool_call";
  effect = codes "allow";
  agent = codes "openclaw";
  policy_set = codes "strict";
  was_allowed = false;
  reason = [];
  created_time = codes "2026";
}

matches_expression-regex_literal_example :
    (matches_expression (regex_literal (codes "mcp.tool_call")) (codes "mcp.tool_call") ≡ true)
    ↔ (codes "mcp.tool_call" ≡ codes "mcp.tool_call")
matches_expression-regex_literal_example =
    matches_expression-regex_literal (codes "mcp.tool_call") (codes "mcp.tool_call")

-- A bare dot matches other texts, an escaped one does not.
dot_alone : matches_expression (codes "^a.b$") (codes "axb") ≡ true
unfolding matches_expression
dot_alone = refl

dot_quoted : matches_expression (regex_literal (codes "a.b")) (codes "axb") ≡ false
unfolding matches_expression regex_literal
dot_quoted = refl

enforce-Recorded_example :
    ((enforce casbin hub
        (λ s. s)
        answering
        (codes "127.0.0.1")
        (codes "r9")
        (codes "2026")
        (inr judged)
        state
        table).0
      ≡ ruled
          (enforce_for_agent casbin hub
            (codes "openclaw")
            (codes "x#y")
            (codes "mcp.tool_call")
            state).0)
    × ((enforce casbin hub
          (λ s. s)
          answering
          (codes "127.0.0.1")
          (codes "r9")
          (codes "2026")
          (inr judged)
          state
          table).1
        ≡ (enforce_for_agent casbin hub
            (codes "openclaw")
            (codes "x#y")
            (codes "mcp.tool_call")
            state).1)
    × Recorded casbin hub
        (λ s. s)
        answering
        (codes "127.0.0.1")
        judged
        (enforce_for_agent casbin hub
          (codes "openclaw")
          (codes "x#y")
          (codes "mcp.tool_call")
          state).0
        table
        (enforce casbin hub
          (λ s. s)
          answering
          (codes "127.0.0.1")
          (codes "r9")
          (codes "2026")
          (inr judged)
          state
          table).2
unfolding has_id
enforce-Recorded_example =
    enforce-Recorded casbin hub (λ s. s) answering (codes "127.0.0.1") (codes "r9") (codes "2026")
      judged state table (λ e. cc) refl
