-- ===== src/AgentTools/Authorization.antt =====
-- What a tool request may do: nothing runs unless every gate is passed.
use mathlib.Core.List.{append-nil}
use private_ai_workspace_eks.Prelude.{
  ◌/◌, String, ◌≡◌, ◌≢◌, refl, ◌∙◌, ◌⊎◌, inl, inr, true, false, Option, none, some, [], ◌∷◌, ◌++◌,
  arith, string_eq, Bool-cases, Option-cases,
}
use private_ai_workspace_eks.Prelude.Dict
use private_ai_workspace_eks.Json.{Python, Fields, end, str, obj, get, get_or}
use private_ai_workspace_eks.Http.{
  Response, ok, Result, pass, fail, read_object, not_json, not_object, Result-cases,
}
use private_ai_workspace_eks.Http.Body.{Says, read_object-loads}
use private_ai_workspace_eks.Auth.{
  TokenClaims, TokenVerifier, verify_and_extract, extract_tenant_id, owner_of,
}
use private_ai_workspace_eks.RateLimiter.{try_acquire}
use private_ai_workspace_eks.RateLimiter.Permits.{
  IsValid, try_acquire-Takes, permits-release-try_acquire,
}
use private_ai_workspace_eks.SandboxTools.{ToolSpec, job, tools, tool_executor}
use private_ai_workspace_eks.AgentTools.{
  SandboxOutcome, tool_error, is_allowed, audit, audit_outcome, validate_arguments,
}
use private_ai_workspace_eks.AgentTools.Invoke.{
  Service, State, Moment, has_backend, started, outcome_response, read_invocation, run_tool,
  run_granted, run_limited, authorize, invoke_response,
}

module _ ⦃py : Python⦄ (service : Service) (authorization : Option String)
    (verifier : Option TokenVerifier) (body : String) (m : Moment) (s : State) where
  -- The body names the tool and its arguments, or no arguments for an empty object.
  abbrev pub Names : String → Fields → Type 0
  Names tool arguments =
      Says body (λ d. (get "tool" d ≡ str tool) × (get_or "arguments" (obj end) d ≡ obj arguments))

  -- The gates that a request has passed when its tool runs.
  pub record IsAuthorized (c : TokenClaims) (tool : String) (arguments : Fields) : Type 0 where
    pub caller : verify_and_extract authorization verifier ≡ pass c
    pub named : Names tool arguments
    pub enabled : service.enabled ≡ true
    pub allowed : is_allowed service.allowlist (extract_tenant_id c) tool ≡ true
    pub registered :
        (spec : ToolSpec) × (Dict.lookup tool tools ≡ some spec)
        × (validate_arguments spec.schema arguments ≡ none)
    pub granted : (try_acquire (extract_tenant_id c) (m.now / 1000000) s.limiter).1 ≡ true

  -- Nothing ran and the feed is as it was.
  abbrev Refused : State × Response → Type 0
  Refused (s', r) = (s'.runs ≡ s.runs) × (s'.feed ≡ s.feed) × (r.status ≢ ok)

  -- The tool ran once, or it is a job tool, there is no dispatcher to run it, and nothing ran.
  abbrev pub RanOnce : String → Fields → SandboxOutcome → State → Type 0
  RanOnce tool arguments o s' =
      (has_backend service tool ≡ true)
        × (s'.runs
            ≡ s.runs
              ++ (record { backend = tool_executor tool; tool = tool; arguments = arguments } ∷ []))
      ⊎ ((tool_executor tool ≡ job)
          × (service.job_executor ≡ none)
          × (s'.runs ≡ s.runs)
          × (o ≡ tool_error))

  -- What is left behind a run: one entry in the audit log, and the answer.
  abbrev pub Ran : TokenClaims → String → Fields → State × Response → Type 0
  Ran c tool arguments result =
      let o = run_tool service (owner_of c) m tool arguments in
      RanOnce tool arguments o result.0
      × (result.0.audits
          ≡ s.audits ++ (audit_outcome (audit (owner_of c) tool arguments "allowed") o ∷ []))
      × (result.1 ≡ outcome_response tool m.latency_ms o)

  abbrev pub Outcome : State × Response → Type 0
  Outcome result =
      Refused result
      ⊎ ((c : TokenClaims) × (tool : String) × (arguments : Fields) × IsAuthorized c tool arguments
          × Ran c tool arguments result)

  read_invocation_gates :
      (c : TokenClaims) (tool : String) (arguments : Fields)
      → read_invocation service authorization verifier body ≡ pass (c, tool, arguments)
      → (verify_and_extract authorization verifier ≡ pass c) × (service.enabled ≡ true)
  unfolding read_invocation
  read_invocation_gates c tool arguments h = ground arith

  read_invocation-Names :
      (c : TokenClaims) (tool : String) (arguments : Fields)
      → read_invocation service authorization verifier body ≡ pass (c, tool, arguments)
      → Names tool arguments
  unfolding read_invocation
  read_invocation-Names c tool arguments h =
      elim (Result-cases (read_object not_json not_object body)) [
        | inl (r, e) ↦ absurd (ground arith)
        | inr (d, e) ↦
            (d, read_object-loads not_json not_object body d e, (ground arith, ground arith))
      ]

  read_invocation_fails :
      (r : Response) → read_invocation service authorization verifier body ≡ fail r → r.status ≢ ok
  unfolding read_invocation verify_and_extract read_object
  read_invocation_fails r h = ground arith

  run_tool-no_backend :
      (who : String × String) (tool : String) (arguments : Fields)
      → has_backend service tool ≡ false
      → (tool_executor tool ≡ job)
        × (service.job_executor ≡ none)
        × (run_tool service who m tool arguments ≡ tool_error)
  unfolding has_backend run_tool
  run_tool-no_backend who tool arguments h = ground arith

  RanOnce-run_granted :
      (who : String × String) (tool : String) (arguments : Fields) (s' : State)
      → s'.runs ≡ s.runs
      → RanOnce tool arguments
          (run_tool service who m tool arguments)
          (run_granted service who m tool arguments s').0
  unfolding run_granted started
  RanOnce-run_granted who tool arguments s' same = elim (Bool-cases (has_backend service tool)) [
    | inl able ↦ rw able (inl (refl, rw same refl))
    | inr unable ↦
        let stuck = run_tool-no_backend who tool arguments unable in
        rw unable (inr (stuck.0, stuck.1, append-nil s'.runs ∙ same, stuck.2))
  ]

  module _ (c : TokenClaims) (tool : String) (arguments : Fields)
      (read : read_invocation service authorization verifier body ≡ pass (c, tool, arguments)) where
    limited-Outcome :
        (spec : ToolSpec)
        → is_allowed service.allowlist (extract_tenant_id c) tool ≡ true
        → Dict.lookup tool tools ≡ some spec
        → validate_arguments spec.schema arguments ≡ none
        → Outcome (run_limited service (owner_of c) m tool arguments s)
    unfolding run_limited run_granted
    limited-Outcome spec allowed registered valid =
        let l = (try_acquire (extract_tenant_id c) (m.now / 1000000) s.limiter).0 in
        let s' : State = record s { limiter = l } in
        elim (Bool-cases (try_acquire (extract_tenant_id c) (m.now / 1000000) s.limiter).1) [
          | inl granted ↦ rw granted (
              inr (
                c,
                tool,
                arguments,
                record {
                  caller = (read_invocation_gates c tool arguments read).0;
                  named = read_invocation-Names c tool arguments read;
                  enabled = (read_invocation_gates c tool arguments read).1;
                  allowed = allowed;
                  registered = (spec, registered, valid);
                  granted = granted;
                },
                (RanOnce-run_granted (owner_of c) tool arguments s' refl, refl, refl),
              ))
          | inr limited ↦ rw limited (inl (refl, refl, λ e. cc))
        ]

    authorize_valid :
        (spec : ToolSpec)
        → is_allowed service.allowlist (extract_tenant_id c) tool ≡ true
        → Dict.lookup tool tools ≡ some spec
        → validate_arguments spec.schema arguments ≡ none
        → authorize service (owner_of c) m tool arguments s
          ≡ run_limited service (owner_of c) m tool arguments s
    unfolding authorize
    authorize_valid spec allowed registered valid = rw (allowed, registered, valid, authorize)

    authorize-Outcome : Outcome (authorize service (owner_of c) m tool arguments s)
    authorize-Outcome =
        elim (Bool-cases (is_allowed service.allowlist (extract_tenant_id c) tool)) [
          | inr denied ↦ unfold authorize in rw (denied, authorize) (inl (refl, refl, λ e. cc))
          | inl allowed ↦ elim (Option-cases (Dict.lookup tool tools)) [
            | inl unknown ↦
                unfold authorize in rw (allowed, unknown, authorize) (inl (refl, refl, λ e. cc))
            | inr (spec, registered) ↦
                elim (Option-cases (validate_arguments spec.schema arguments)) [
                  | inl valid ↦
                      rw (authorize_valid spec allowed registered valid)
                        (limited-Outcome spec allowed registered valid)
                  | inr (e, invalid) ↦
                      unfold authorize in
                      rw (allowed, registered, invalid, authorize) (inl (refl, refl, λ e. cc))
                ]
          ]
        ]

  invoke-Outcome :
      (r : Result (TokenClaims × String × Fields))
      → read_invocation service authorization verifier body ≡ r
      → Outcome (elim r [
        | fail e ↦ (s, e)
        | pass (c, tool, arguments) ↦ authorize service (owner_of c) m tool arguments s
      ])
  invoke-Outcome (fail e) h = inl (refl, refl, read_invocation_fails e h)
  invoke-Outcome (pass (c, tool, arguments)) h = authorize-Outcome c tool arguments h

  -- A request either runs nothing, leaves the feed as it was and is not answered with 200, or its
  -- caller is authenticated, its body is an object that names the tool and the arguments, tools are
  -- enabled, the tool is on the allow-list of the caller's tenant and registered, its arguments are
  -- valid and the limiter lets it in; then exactly that tool runs, once, with these arguments, or
  -- it is a job tool, no dispatcher is configured, nothing runs and the outcome is `tool_error`.
  -- The audit log grows by one `allowed` entry with the outcome, which the answer shows.
  pub invoke_response-Outcome : Outcome (invoke_response service authorization verifier body m s)
  unfolding invoke_response
  invoke_response-Outcome =
      invoke-Outcome (read_invocation service authorization verifier body) refl

  permits-run_limited :
      (who : String × String) (tool : String) (arguments : Fields)
      → IsValid s.limiter
      → (run_limited service who m tool arguments s).0.limiter.permits ≡ s.limiter.permits
  unfolding run_limited run_granted
  permits-run_limited who tool arguments v = ground (
    arith,
    try_acquire-Takes who.0 (m.now / 1000000) s.limiter,
    permits-release-try_acquire who.0 (m.now / 1000000) s.limiter v,
  )

  permits-authorize :
      (who : String × String) (tool : String) (arguments : Fields)
      → IsValid s.limiter
      → (authorize service who m tool arguments s).0.limiter.permits ≡ s.limiter.permits
  unfolding authorize
  permits-authorize who tool arguments v = ground (arith, permits-run_limited who tool arguments v)

  permits_after :
      IsValid s.limiter
      → (r : Result (TokenClaims × String × Fields))
      → (elim r as (λ x. State × Response) [
        | fail e ↦ (s, e)
        | pass (c, tool, arguments) ↦ authorize service (owner_of c) m tool arguments s
      ]).0.limiter.permits
        ≡ s.limiter.permits
  permits_after v (fail e) = refl
  permits_after v (pass (c, tool, arguments)) = permits-authorize (owner_of c) tool arguments v

  -- Whatever the request, the limiter has as many free permits afterwards as before.
  pub permits-invoke_response :
      IsValid s.limiter
      → (invoke_response service authorization verifier body m s).0.limiter.permits
        ≡ s.limiter.permits
  unfolding invoke_response
  permits-invoke_response v = permits_after v (read_invocation service authorization verifier body)
