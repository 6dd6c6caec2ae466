-- ===== src/Tests/Tools.antt =====
-- Tests of AgentTools.
use private_ai_workspace_eks.Prelude.{String, ◌≡◌, refl, true, none, some, [], ◌∷◌, string_eq}
use private_ai_workspace_eks.Prelude.Dict
use private_ai_workspace_eks.Json.{pos, get, truthy, has}
use private_ai_workspace_eks.RateLimiter.{init}
use private_ai_workspace_eks.RateLimiter.Permits.{init-IsValid}
use private_ai_workspace_eks.AgentTools.{
  Process, exited, execute, conclude, classify_output, is_allowed, parse_allowlist, audit,
}
use private_ai_workspace_eks.AgentTools.AllowList.{is_allowed-parse_allowlist, entitles_setting}
use private_ai_workspace_eks.AgentTools.Outcomes.{Succeeds, execute-success, audit-redact, redact}
use private_ai_workspace_eks.AgentTools.Invoke.{Service, State, Moment, invoke_response}
use private_ai_workspace_eks.AgentTools.Authorization.{
  Outcome, invoke_response-Outcome, permits-invoke_response,
}
use private_ai_workspace_eks.Tests.{
  python, verify, invoke_body, allowlist_text, child_output, arguments,
}

abbrev launch : String → Process
launch payload = exited (pos 0) child_output

abbrev pub service : Service
service = record {
  enabled = true;
  allowlist = ("acme.com", "text_stats" ∷ []) ∷ [];
  launch = launch;
  job_executor = none;
}

abbrev pub moment : Moment
moment = record { now = 60000000; latency_ms = 5; run_id = "run"; event_id = "event" }

abbrev idle : State
idle = record { limiter = init 5 2; audits = []; feed = none; runs = [] }

invoke_response-Outcome_example :
    Outcome service
      (some "Bearer tok")
      (some verify)
      invoke_body
      moment
      idle
      (invoke_response service (some "Bearer tok") (some verify) invoke_body moment idle)
invoke_response-Outcome_example =
    invoke_response-Outcome service (some "Bearer tok") (some verify) invoke_body moment idle

permits-invoke_response_example :
    (invoke_response service
      (some "Bearer tok")
      (some verify)
      invoke_body
      moment
      idle).0.limiter.permits
    ≡ (init 5 2).permits
permits-invoke_response_example =
    permits-invoke_response service (some "Bearer tok") (some verify) invoke_body moment idle
      (init-IsValid 5 2)

is_allowed-parse_allowlist_example :
    is_allowed (parse_allowlist (some allowlist_text)) "acme.com" "text_stats"
    ≡ entitles_setting (some allowlist_text) "acme.com" "text_stats"
unfolding Dict.lookup string_eq has
is_allowed-parse_allowlist_example =
    is_allowed-parse_allowlist (some allowlist_text) "acme.com" "text_stats" (refl, tt)

execute-success_example : Succeeds (launch "{}")
unfolding execute conclude classify_output Dict.lookup string_eq truthy get
execute-success_example = execute-success launch "text_stats" arguments refl

audit-redact_example :
    audit ("acme.com", "alice") "text_stats" (redact arguments) "allowed"
    ≡ audit ("acme.com", "alice") "text_stats" arguments "allowed"
audit-redact_example = audit-redact ("acme.com", "alice") "text_stats" arguments "allowed"
