-- ===== src/AgentTools/Invoke.antt =====
-- `build_tool_invoke_response` of app/control_plane/agent_tools.py. The clock and the fresh ids
-- are arguments.
use private_ai_workspace_eks.Prelude.{
  ℕ, ◌/◌, String, Bool, true, Option, none, some, List, [], ◌∷◌, ◌++◌, leb, string_eq,
  if◌then◌else◌, is_some,
}
use private_ai_workspace_eks.Prelude.Dict
use private_ai_workspace_eks.Prelude.Text.{is_empty, len}
use private_ai_workspace_eks.Json.{
  Json, pos, Fields, end, Python, str, int, obj, get, get_or, is_text,
}
use private_ai_workspace_eks.Http.{
  Response, ok, bad_request, forbidden, payload_too_large, too_many_requests, bad_gateway,
  unavailable, gateway_timeout, respond, error_detail, degraded, Result, pass, fail, require,
  not_json, not_object, read_object, ◌>>=◌, ◌>>◌,
}
use private_ai_workspace_eks.Auth.{TokenClaims, TokenVerifier, verify_and_extract, owner_of}
use private_ai_workspace_eks.RateLimiter.{RateLimiter, try_acquire, release}
use private_ai_workspace_eks.Notifications.Emit.{Feed, emit, event}
use private_ai_workspace_eks.SandboxTools.{Executor, subprocess, job, tools, tool_executor}
use private_ai_workspace_eks.AgentTools.{
  SandboxOutcome, tool_error, Process, execute, Allowlist, is_allowed, AuditEntry, audit,
  audit_outcome, validate_arguments,
}

-- What the server is configured with. `job_executor` takes the tool, its arguments, the tenant
-- and the run.
pub record Service : Type 0 where
  pub enabled : Bool
  pub allowlist : Allowlist
  pub launch : String → Process
  pub job_executor : Option (String → Fields → String → String → SandboxOutcome)

pub record Run : Type 0 where
  pub backend : Executor
  pub tool : String
  pub arguments : Fields

-- What a request changes: the limiter, the audit log and the feed of events. `runs` records the
-- executions that were started, oldest first.
pub record State : Type 0 where
  pub limiter : RateLimiter
  pub audits : List AuditEntry
  pub feed : Feed
  pub runs : List Run

-- The readings of the clock (`now` in microseconds), and the fresh ids.
pub record Moment : Type 0 where
  pub now : ℕ
  pub latency_ms : ℕ
  pub run_id : String
  pub event_id : String

-- Whether there is something to run the tool with: a job tool needs the dispatcher.
unfoldable pub has_backend : Service → String → Bool
has_backend service tool = elim (tool_executor tool) [
  | subprocess ↦ true
  | job ↦ is_some service.job_executor
]

-- The executions that a permitted call starts.
unfoldable pub started : Service → String → Fields → List Run
started service tool arguments =
    if has_backend service tool
    then record { backend = tool_executor tool; tool = tool; arguments = arguments } ∷ []
    else []

abbrev pub max_args_bytes : ℕ
max_args_bytes = 200000

abbrev pub not_allowed : Response
not_allowed =
    error_detail forbidden "tool_not_allowed" "This tool is not permitted for your organisation."

abbrev rate_limited : Response
rate_limited =
    error_detail too_many_requests "rate_limited"
      "Tool execution rate or concurrency limit exceeded; try again shortly."

-- `not isinstance(tool, str) or not tool`
abbrev pub as_name : Json → Option String
as_name (str s) = if is_empty s then none else some s
as_name _ = none

abbrev pub as_dict_or : Response → Json → Result Fields
as_dict_or r (obj d) = pass d
as_dict_or r _ = fail r

-- The event class, and the answer, by the class of the result.
abbrev pub outcome_event : SandboxOutcome → String
outcome_event o =
    if is_text "success" o.result_class then "agent_task_completed" else "agent_task_failed"

unfoldable pub outcome_response : String → ℕ → SandboxOutcome → Response
outcome_response tool latency_ms o =
    if is_text "success" o.result_class
    then respond ok (
        ("tool", str tool)
        ∷ ("result", o.result)
        ∷ ("result_class", str "success")
        ∷ ("latency_ms", int (pos latency_ms))
        ∷ [])
    else if is_text "tool_timeout" o.result_class
    then degraded gateway_timeout "tool_timeout"
        "The tool exceeded its time budget and was terminated."
    else degraded bad_gateway "tool_error" "The tool failed to execute."

module _ ⦃py : Python⦄ (service : Service) where
  -- The checks up to the size of the arguments, in the order of the handler.
  unfoldable pub read_invocation :
      Option String → Option TokenVerifier → String → Result (TokenClaims × String × Fields)
  read_invocation authorization verifier body = do
    c ← verify_and_extract authorization verifier
    require service.enabled
        (degraded unavailable "tools_disabled" "Tool execution is disabled on this instance.")
    d ← read_object not_json not_object body
    tool ← elim (as_name (get "tool" d)) [
      | none ↦ fail (error_detail bad_request "bad_request" "'tool' is required.")
      | some t ↦ pass t
    ]
    arguments ←
        as_dict_or (error_detail bad_request "bad_request" "'arguments' must be an object.")
          (get_or "arguments" (obj end) d)
    require (leb (len (py.dumps (obj arguments))) max_args_bytes)
        (error_detail payload_too_large "payload_too_large" "arguments exceed 200000 bytes.")
    pass (c, tool, arguments)

  -- The backend of the tool, and what it returns.
  unfoldable pub run_tool : String × String → Moment → String → Fields → SandboxOutcome
  run_tool (tenant, user) m tool arguments = elim (tool_executor tool) [
    | subprocess ↦ execute service.launch tool arguments
    | job ↦ elim service.job_executor [
      | none ↦ tool_error
      | some run ↦ run tool arguments tenant m.run_id
    ]
  ]

  -- From the limiter on: run, release, audit, notify, answer.
  unfoldable pub run_granted : String × String → Moment → String → Fields → State → State × Response
  unfolding run_tool
  run_granted who m tool arguments s =
      let o = run_tool who m tool arguments in
      (
        record {
          limiter = release s.limiter;
          audits = s.audits ++ (audit_outcome (audit who tool arguments "allowed") o ∷ []);
          feed = emit (event m.event_id who (outcome_event o) tool m.now) s.feed;
          runs = s.runs ++ started service tool arguments;
        },
        outcome_response tool m.latency_ms o,
      )

  abbrev refuse : String × String → String → Fields → String → State → State
  refuse who tool arguments decision s = record s {
    audits = s.audits ++ (audit who tool arguments decision ∷ []);
  }

  -- The limiter, for a request that may run.
  unfoldable pub run_limited : String × String → Moment → String → Fields → State → State × Response
  run_limited who m tool arguments s =
      let (l, granted) = try_acquire who.0 (m.now / 1000000) s.limiter in
      let s' = record s { limiter = l } in
      if granted
      then run_granted who m tool arguments s'
      else (refuse who tool arguments "rate_limited" s', rate_limited)

  -- The allow-list and the registry, then the schema.
  unfoldable pub authorize : String × String → Moment → String → Fields → State → State × Response
  authorize who m tool arguments s =
      elim (if is_allowed service.allowlist who.0 tool then Dict.lookup tool tools else none) [
        | none ↦ (refuse who tool arguments "denied" s, not_allowed)
        | some spec ↦ elim (validate_arguments spec.schema arguments) [
          | some e ↦ (s, error_detail bad_request "bad_request" e)
          | none ↦ run_limited who m tool arguments s
        ]
      ]

  unfoldable pub invoke_response :
      Option String → Option TokenVerifier → String → Moment → State → State × Response
  invoke_response authorization verifier body m s =
      elim (read_invocation authorization verifier body) [
        | fail r ↦ (s, r)
        | pass (c, tool, arguments) ↦ authorize (owner_of c) m tool arguments s
      ]
