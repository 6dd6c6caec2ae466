-- ===== src/AgentLoop/Handler.antt =====
-- `build_agent_run_response` of app/control_plane/agent_loop.py.
use private_ai_workspace_eks.Prelude.{
  ℕ, String, Option, none, some, [], ◌∷◌, leb, string_eq, if◌then◌else◌, ◌==◌,
}
use private_ai_workspace_eks.Prelude.Text.{is_empty, strip, utf8_len}
use private_ai_workspace_eks.Json.{Json, pos, Python, str, int, get, opt_str}
use private_ai_workspace_eks.Http.{
  Response, ok, bad_request, payload_too_large, too_many_requests, bad_gateway, unavailable,
  respond, error_detail, degraded, unhandled, Result, pass, fail, require, not_json, not_object,
  read_object, or_fail, ◌>>=◌, ◌>>◌,
}
use private_ai_workspace_eks.Auth.{TokenClaims, TokenVerifier, verify_and_extract, owner_of}
use private_ai_workspace_eks.RateLimiter.{RateLimiter, try_acquire, release}
use private_ai_workspace_eks.Notifications.Emit.{Feed}
use private_ai_workspace_eks.AgentTools.Invoke.{Service}
use private_ai_workspace_eks.AgentLoop.{AgentLoopBudgets, AgentRunOutcome}
use private_ai_workspace_eks.AgentLoop.Loop.{World, Stamps, RunState, run_agent_loop}

-- What a request changes, and the run that it started, if any.
pub record State : Type 0 where
  pub limiter : RateLimiter
  pub feed : Feed
  pub run : Option RunState

abbrev pub max_task_bytes : ℕ
max_task_bytes = 8000

-- `isinstance(task, str) and task.strip()`
abbrev as_task : Json → Option String
as_task (str s) = if is_empty (strip s) then none else some s
as_task _ = none

abbrev rate_limited : Response
rate_limited =
    error_detail too_many_requests "rate_limited"
      "Agent run rate or concurrency limit exceeded; try again shortly."

-- An exception of the loop is answered by the server.
unfoldable pub run_response : Option AgentRunOutcome → Response
run_response none = unhandled
run_response (some o) =
    if o.status == "failed"
    then respond bad_gateway (
        ("status", str "failed")
        ∷ ("error", str "agent_run_failed")
        ∷ ("detail", str "The agent run failed before completing.")
        ∷ ("steps", int (pos o.steps))
        ∷ [])
    else respond ok (
        ("status", str o.status)
        ∷ ("answer", opt_str o.answer)
        ∷ ("steps", int (pos o.steps))
        ∷ ("detail", opt_str o.detail)
        ∷ [])

module _ ⦃py : Python⦄ (service : Service) (inference : Option World)
    (budgets : AgentLoopBudgets) where
  -- The checks in front of the limiter.
  unfoldable pub read_task :
      Option String → Option TokenVerifier → String → Result (TokenClaims × World × String)
  read_task authorization verifier body = do
    c ← verify_and_extract authorization verifier
    require service.enabled
        (degraded unavailable "tools_disabled" "Agent execution is disabled on this instance.")
    world ← or_fail inference (
        degraded unavailable "agent_runs_unavailable"
          "The inference backend is not configured; agent runs are unavailable.")
    d ← read_object not_json not_object body
    task ←
        or_fail (as_task (get "task" d))
          (error_detail bad_request "bad_request" "'task' is required.")
    require (leb (utf8_len task) max_task_bytes)
        (error_detail payload_too_large "payload_too_large" "task exceeds 8000 bytes.")
    pass (c, world, task)

  -- The run of a request that holds a permit. The permit is given back in a `finally` block.
  unfoldable pub run_granted :
      World → String × String → Stamps → String → RateLimiter → State → State × Response
  run_granted world who stamps task granted s =
      let (feed, run, o) = run_agent_loop world service who budgets stamps task s.feed in
      (record { limiter = release granted; feed = feed; run = some run }, run_response o)

  unfoldable pub run_limited :
      World → String × String → Stamps → String → ℕ → State → State × Response
  unfolding run_granted
  run_limited world who stamps task now s =
      let (l, granted) = try_acquire who.0 now s.limiter in
      if granted
      then run_granted world who stamps task l s
      else (record s { limiter = l }, rate_limited)

  unfoldable pub agent_run_response :
      Option String → Option TokenVerifier → String → Stamps → ℕ → State → State × Response
  agent_run_response authorization verifier body stamps now s =
      elim (read_task authorization verifier body) [
        | fail r ↦ (s, r)
        | pass (c, world, task) ↦ run_limited world (owner_of c) stamps task now s
      ]
