-- ===== src/Tests/Runs.antt =====
-- Runs of single functions.
use casdoor_aiguard.Common.Text.{codes, trim_space}
use casdoor_aiguard.Common.{true, false, ◌≡◌, refl}
use casdoor_aiguard.Enforce.State.{enforce_for_agent}
use casdoor_aiguard.Enforce.{subject_of}
use casdoor_aiguard.Policy.{default_policy, evaluate, action_step_up}
use casdoor_aiguard.PolicyHub.{matches_host_os}
use casdoor_aiguard.Sanitize.{sensitive_key}
use casdoor_aiguard.SelfLearn.{regex_literal}
use casdoor_aiguard.Tests.Decisions.{casbin, host, hub, payment, state}

runs_trim_space : trim_space (codes " \t a b\n") ≡ codes "a b"
unfolding trim_space
runs_trim_space = refl

runs_subject_of : subject_of (codes "# p, no\n\n p , x\np, openclaw, .*, .*, deny") ≡ codes "x"
unfolding subject_of
runs_subject_of = refl

runs_evaluate :
    evaluate default_policy payment host ≡ (action_step_up, codes "high-value-payment-step-up")
unfolding evaluate
runs_evaluate = refl

runs_enforce :
    (enforce_for_agent casbin hub (codes "OpenClaw") (codes "x") (codes "y") state).0.policy_set
    ≡ codes "strict"
unfolding enforce_for_agent
runs_enforce = refl

runs_enforce_other :
    (enforce_for_agent casbin hub (codes "codex") (codes "x") (codes "y") state).0.allowed ≡ true
unfolding enforce_for_agent
runs_enforce_other = refl

runs_sensitive_key : sensitive_key (codes "X-Api_Key") ≡ true
unfolding sensitive_key
runs_sensitive_key = refl

runs_plain_key : sensitive_key (codes "command") ≡ false
unfolding sensitive_key
runs_plain_key = refl

runs_regex_literal : regex_literal (codes "127.0.0.1#a") ≡ codes "^127\\.0\\.0\\.1#a$"
unfolding regex_literal
runs_regex_literal = refl

runs_matches_host_os : matches_host_os (codes "linux") (codes "Arch Linux") ≡ true
unfolding matches_host_os
runs_matches_host_os = refl
