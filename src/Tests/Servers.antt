-- ===== src/Tests/Servers.antt =====
-- Tests of Mcp.
use private_ai_workspace_eks.Prelude.{true, none, some, [], ◌∷◌}
use private_ai_workspace_eks.Json.{pos}
use private_ai_workspace_eks.RateLimiter.{init}
use private_ai_workspace_eks.RateLimiter.Permits.{init-IsValid}
use private_ai_workspace_eks.AgentTools.{exited}
use private_ai_workspace_eks.Mcp.{Service, State, Moment, invoke_response}
use private_ai_workspace_eks.Mcp.Gates.{Exchanges, invoke_response-Exchanges}
use private_ai_workspace_eks.Tests.{python, verify, echo_body, echo_output}

abbrev service : Service
service = record {
  enabled = true;
  allowlist = ("acme.com", "stub" ∷ []) ∷ [];
  launch = λ call. exited (pos 0) echo_output;
}

abbrev moment : Moment
moment = record { now = 60000000; event_id = "event" }

abbrev idle : State
idle = record { limiter = init 5 2; audits = []; feed = none; calls = [] }

invoke_response-Exchanges_example :
    Exchanges service
      (some "Bearer tok")
      (some verify)
      echo_body
      moment
      idle
      (invoke_response service (some "Bearer tok") (some verify) echo_body moment idle)
invoke_response-Exchanges_example =
    invoke_response-Exchanges service (some "Bearer tok") (some verify) echo_body moment idle
      (init-IsValid 5 2)
