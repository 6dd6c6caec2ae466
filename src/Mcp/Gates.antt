-- ===== src/Mcp/Gates.antt =====
-- Which requests start an exchange with an MCP server.
use private_ai_workspace_eks.Prelude.{
  ◌/◌, String, ◌≡◌, ◌≢◌, refl, ap, ◌∙◌, ◌⊎◌, inl, inr, true, Option, none, some, [], ◌∷◌, ◌++◌,
  arith, contains, string_eq, Bool-cases,
}
use private_ai_workspace_eks.Json.{Python, Fields, end, str, obj, get, get_or}
use private_ai_workspace_eks.Http.{
  Response, ok, bad_request, error, pass, fail, read_object, Result-cases,
}
use private_ai_workspace_eks.Http.Body.{Says, read_object-loads}
use private_ai_workspace_eks.Auth.{
  TokenClaims, TokenVerifier, verify_and_extract, extract_tenant_id, owner_of,
}
use private_ai_workspace_eks.RateLimiter.{try_acquire}
use private_ai_workspace_eks.RateLimiter.Permits.{
  IsValid, try_acquire-Takes, permits-release-try_acquire,
}
use private_ai_workspace_eks.AgentTools.{is_allowed}
use private_ai_workspace_eks.Mcp.{
  Service, State, Moment, Call, McpOutcome, servers, conclude, read_call, settle, run_granted,
  run_limited, authorize, invoke_response,
}

module _ ⦃py : Python⦄ (service : Service) (authorization : Option String)
    (verifier : Option TokenVerifier) (body : String) (m : Moment) (s : State) where
  abbrev pub call_of : TokenClaims → String → String → Fields → Call
  call_of c server tool arguments = record {
    server = server;
    tool = tool;
    arguments = arguments;
    tenant_id = (owner_of c).0;
  }

  -- The body names the server, the tool and the arguments, or no arguments for an empty object.
  abbrev pub Names : String → String → Fields → Type 0
  Names server tool arguments = Says body (λ d.
      (get "server" d ≡ str server)
      × (get "tool" d ≡ str tool)
      × (get_or "arguments" (obj end) d ≡ obj arguments))

  -- The gates that a request has passed when an exchange is started.
  pub record IsAuthorized (c : TokenClaims) (server tool : String) (arguments : Fields)
      : Type 0 where
    pub caller : verify_and_extract authorization verifier ≡ pass c
    pub named : Names server tool arguments
    pub enabled : service.enabled ≡ true
    pub allowed : is_allowed service.allowlist (extract_tenant_id c) server ≡ true
    pub registered : contains servers server ≡ true
    pub granted : (try_acquire (extract_tenant_id c) (m.now / 1000000) s.limiter).1 ≡ true

  abbrev Refused : State × Response → Type 0
  Refused result =
      (result.0.calls ≡ s.calls)
      × (result.0.feed ≡ s.feed)
      × (result.1.status ≢ ok)
      × (result.0.limiter.permits ≡ s.limiter.permits)

  abbrev Ran : Call → State × Response → Type 0
  Ran call result =
      (result.0.calls ≡ s.calls ++ (call ∷ [])) × (result.0.limiter.permits ≡ s.limiter.permits)

  abbrev pub Exchanges : State × Response → Type 0
  Exchanges result =
      Refused result
      ⊎ ((c : TokenClaims) × (server : String) × (tool : String) × (arguments : Fields)
          × IsAuthorized c server tool arguments
          × Ran (call_of c server tool arguments) result)

  read_call_gates :
      (c : TokenClaims) (server tool : String) (arguments : Fields)
      → read_call service authorization verifier body ≡ pass (c, server, tool, arguments)
      → (verify_and_extract authorization verifier ≡ pass c) × (service.enabled ≡ true)
  unfolding read_call
  read_call_gates c server tool arguments h = ground arith

  read_call-Names :
      (c : TokenClaims) (server tool : String) (arguments : Fields)
      → read_call service authorization verifier body ≡ pass (c, server, tool, arguments)
      → Names server tool arguments
  unfolding read_call
  read_call-Names c server tool arguments h =
      let bad = error bad_request "bad_request" in
      elim (Result-cases (read_object bad bad body)) [
        | inl (r, e) ↦ absurd (ground arith)
        | inr (d, e) ↦
            (d, read_object-loads bad bad body d e, (ground arith, ground arith, ground arith))
      ]

  read_call_fails :
      (r : Response) → read_call service authorization verifier body ≡ fail r → r.status ≢ ok
  unfolding read_call verify_and_extract read_object
  read_call_fails r h = ground arith

  settle-kept :
      (who : String × String) (call : Call) (o : Option McpOutcome) (s' : State)
      → ((settle service who m call o s').0.calls ≡ s'.calls)
        × ((settle service who m call o s').0.limiter ≡ s'.limiter)
  unfolding settle
  settle-kept who call none s' = (refl, refl)
  settle-kept who call (some o) s' = (refl, refl)

  module _ (c : TokenClaims) (server tool : String) (arguments : Fields)
      (h : read_call service authorization verifier body ≡ pass (c, server, tool, arguments)) where
    limited-Exchanges :
        IsValid s.limiter
        → is_allowed service.allowlist (extract_tenant_id c) server ≡ true
        → contains servers server ≡ true
        → Exchanges (run_limited service (owner_of c) m (call_of c server tool arguments) s)
    unfolding run_limited run_granted
    limited-Exchanges v allowed registered =
        let call = call_of c server tool arguments in
        elim (Bool-cases (try_acquire (extract_tenant_id c) (m.now / 1000000) s.limiter).1) [
          | inl granted ↦
              let kept = settle-kept (owner_of c) call (conclude (service.launch call)) _ in
              let back =
                permits-release-try_acquire (extract_tenant_id c) (m.now / 1000000) s.limiter v
                  granted in
              rw granted (
                inr (
                  c,
                  server,
                  tool,
                  arguments,
                  record {
                    caller = (read_call_gates c server tool arguments h).0;
                    named = read_call-Names c server tool arguments h;
                    enabled = (read_call_gates c server tool arguments h).1;
                    allowed = allowed;
                    registered = registered;
                    granted = granted;
                  },
                  (kept.0, ap (λ l. l.permits) kept.1 ∙ back),
                ))
          | inr limited ↦
              let taken = try_acquire-Takes (extract_tenant_id c) (m.now / 1000000) s.limiter in
              rw limited (inl (refl, refl, (λ e. cc), ground arith))
        ]

    authorize-Exchanges :
        IsValid s.limiter
        → Exchanges (authorize service (owner_of c) m (call_of c server tool arguments) s)
    unfolding authorize
    authorize-Exchanges v =
        elim (Bool-cases (is_allowed service.allowlist (extract_tenant_id c) server)) [
          | inr denied ↦ rw (denied, authorize) (inl (refl, refl, (λ e. cc), refl))
          | inl allowed ↦ elim (Bool-cases (contains servers server)) [
            | inr unknown ↦ rw (allowed, unknown, authorize) (inl (refl, refl, (λ e. cc), refl))
            | inl registered ↦
                rw (allowed, registered, authorize) (limited-Exchanges v allowed registered)
          ]
        ]

  -- If the limiter is valid, a request to invoke a tool of an MCP server either starts no exchange,
  -- leaves the feed as it was and is not answered with 200, or its caller is authenticated, its body
  -- is an object that names the server, the tool and the arguments, MCP is enabled, the server is
  -- registered and on the allow-list of the caller's tenant and the limiter lets it in; then exactly
  -- that call is made, for that tenant. The limiter has as many free permits afterwards as before,
  -- also if reading the server's answer raises.
  pub invoke_response-Exchanges :
      IsValid s.limiter → Exchanges (invoke_response service authorization verifier body m s)
  unfolding invoke_response
  invoke_response-Exchanges v =
      elim (Result-cases (read_call service authorization verifier body)) [
        | inl (r, h) ↦ rw (h, invoke_response) (inl (refl, refl, read_call_fails r h, refl))
        | inr ((c, server, tool, arguments), h) ↦
            rw (h, invoke_response) (authorize-Exchanges c server tool arguments h v)
      ]
