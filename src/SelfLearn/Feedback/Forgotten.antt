-- ===== src/SelfLearn/Feedback/Forgotten.antt =====
-- controllers/selflearn.go, DeleteLearnedRule: what forgetting a rule leaves.
use casdoor_aiguard.Common.Text.{Str}
use casdoor_aiguard.Common.{Option, none, List, ◌≡◌, ◌≢◌}
use casdoor_aiguard.Record.Store.{DbErrors, set_record_feedback}
use casdoor_aiguard.Record.{feedback_none}
use casdoor_aiguard.SelfLearn.Feedback.{Learning, Answer, forgotten}
use casdoor_aiguard.SelfLearn.Feedback.Laws.{Replaces}
use casdoor_aiguard.SelfLearn.Feedback.Taught.{IsCodec}
use casdoor_aiguard.SelfLearn.{LearnedRule, parse_learned_rules}

module _ (unmarshal : Str → Option (List (Option LearnedRule)))
    (marshal : List LearnedRule → Option Str) (codec : IsCodec unmarshal marshal) where
  -- What deleting a rule leaves: it is gone and the correction it came from is withdrawn, or all is
  -- as it was.
  pub data Forgotten (db : DbErrors) (id now user : Str) (st : Learning)
      : Answer × Learning → Type 0 where
    gone :
        (out : Learning)
        → Replaces
            (parse_learned_rules unmarshal st.property)
            id
            none
            (parse_learned_rules unmarshal out.property)
        → out.table ≡ (set_record_feedback db id feedback_none user now st.table).1
        → Forgotten db id now user st (forgotten (parse_learned_rules unmarshal out.property), out)
    kept :
        (answer : Answer)
        → ((rules : List LearnedRule) → answer ≢ forgotten rules)
        → Forgotten db id now user st (answer, st)
