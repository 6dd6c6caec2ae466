-- ===== src/AgentLoop/Gates.antt =====
-- Which requests start a run of the agent loop, and what such a request leaves behind.
use private_ai_workspace_eks.Prelude.{
  ℕ, ◌≤◌, String, ◌≡◌, ◌≢◌, refl, ◌⊎◌, inl, inr, true, Option, some, arith, string_eq, Bool-cases,
}
use private_ai_workspace_eks.Prelude.Text.{utf8_len}
use private_ai_workspace_eks.Json.{Python}
use private_ai_workspace_eks.Http.{Response, ok, Result, pass, fail, read_object}
use private_ai_workspace_eks.Auth.{
  TokenClaims, TokenVerifier, verify_and_extract, extract_tenant_id, owner_of,
}
use private_ai_workspace_eks.RateLimiter.{try_acquire}
use private_ai_workspace_eks.RateLimiter.Permits.{
  IsValid, try_acquire-Takes, permits-release-try_acquire,
}
use private_ai_workspace_eks.AgentTools.Invoke.{Service}
use private_ai_workspace_eks.AgentLoop.{AgentLoopBudgets}
use private_ai_workspace_eks.AgentLoop.Loop.{World, Stamps, run_agent_loop}
use private_ai_workspace_eks.AgentLoop.Safety.{IsWithin}
use private_ai_workspace_eks.AgentLoop.Runs.{run_agent_loop-IsWithin}
use private_ai_workspace_eks.AgentLoop.Handler.{
  State, max_task_bytes, run_response, read_task, run_granted, run_limited, agent_run_response,
}

module _ ⦃py : Python⦄ (service : Service) (inference : Option World) (budgets : AgentLoopBudgets)
    (authorization : Option String) (verifier : Option TokenVerifier) (body : String)
    (stamps : Stamps) (now : ℕ) (s : State) where
  -- The gates that a request has passed when its run starts.
  pub record IsAdmitted (c : TokenClaims) (world : World) (task : String) : Type 0 where
    pub caller : verify_and_extract authorization verifier ≡ pass c
    pub enabled : service.enabled ≡ true
    pub model : inference ≡ some world
    pub small : utf8_len task ≤ max_task_bytes
    pub granted : (try_acquire (extract_tenant_id c) now s.limiter).1 ≡ true

  abbrev Refused : State × Response → Type 0
  Refused result =
      (result.0.feed ≡ s.feed)
      × (result.0.run ≡ s.run)
      × (result.1.status ≢ ok)
      × (result.0.limiter.permits ≡ s.limiter.permits)

  -- One run of the loop, within the step budget, and the permit is back.
  abbrev Ran : TokenClaims → World → String → State × Response → Type 0
  Ran c world task result =
      let r = run_agent_loop world service (owner_of c) budgets stamps task s.feed in
      (result.0.feed ≡ r.0)
      × (result.0.run ≡ some (r.1))
      × (result.1 ≡ run_response r.2)
      × IsWithin world service (owner_of c) budgets.max_steps (r.1, r.2)
      × (result.0.limiter.permits ≡ s.limiter.permits)

  abbrev pub Outcome : State × Response → Type 0
  Outcome result =
      Refused result
      ⊎ ((c : TokenClaims) × (world : World) × (task : String) × IsAdmitted c world task
          × Ran c world task result)

  read_task_fails :
      (r : Response)
      → read_task service inference budgets authorization verifier body ≡ fail r
      → r.status ≢ ok
  unfolding read_task verify_and_extract read_object
  read_task_fails r h = ground arith

  read_task_gates :
      (c : TokenClaims) (world : World) (task : String)
      → read_task service inference budgets authorization verifier body ≡ pass (c, world, task)
      → (verify_and_extract authorization verifier ≡ pass c)
        × (service.enabled ≡ true)
        × (inference ≡ some world)
        × (utf8_len task ≤ max_task_bytes)
  unfolding read_task
  read_task_gates c world task h = ground arith

  limited-Outcome :
      (c : TokenClaims) (world : World) (task : String)
      → IsValid s.limiter
      → read_task service inference budgets authorization verifier body ≡ pass (c, world, task)
      → Outcome (run_limited service inference budgets world (owner_of c) stamps task now s)
  unfolding run_limited run_granted
  limited-Outcome c world task v h =
      let gates = read_task_gates c world task h in
      elim (Bool-cases (try_acquire (extract_tenant_id c) now s.limiter).1) [
        | inl granted ↦ rw granted (
            inr (
              c,
              world,
              task,
              record {
                caller = gates.0;
                enabled = gates.1;
                model = gates.2;
                small = gates.3;
                granted = granted;
              },
              (
                refl,
                refl,
                refl,
                run_agent_loop-IsWithin world service (owner_of c) budgets stamps task s.feed,
                permits-release-try_acquire (extract_tenant_id c) now s.limiter v granted,
              ),
            ))
        | inr limited ↦
            let taken = try_acquire-Takes (extract_tenant_id c) now s.limiter in
            rw limited (inl (refl, refl, (λ e. cc), ground arith))
      ]

  response-Outcome :
      IsValid s.limiter
      → (r : Result (TokenClaims × World × String))
      → read_task service inference budgets authorization verifier body ≡ r
      → Outcome (elim r [
        | fail e ↦ (s, e)
        | pass (c, world, task) ↦
            run_limited service inference budgets world (owner_of c) stamps task now s
      ])
  response-Outcome v (fail e) h = inl (refl, refl, read_task_fails e h, refl)
  response-Outcome v (pass (c, world, task)) h = limited-Outcome c world task v h

  -- If the limiter is valid, a request to run the agent either starts no run, leaves the feed as it
  -- was and is not answered with 200, or its caller is authenticated, tools are enabled, a model is
  -- configured, the task has at most 8,000 bytes and the limiter lets it in; then exactly one run
  -- is made for that caller, within the step budget and with permitted tools only, and the answer
  -- is that of its outcome. The limiter has as many free permits afterwards as before.
  pub agent_run_response-Outcome :
      IsValid s.limiter
      → Outcome
          (agent_run_response service inference budgets authorization verifier body stamps now s)
  unfolding agent_run_response
  agent_run_response-Outcome v =
      response-Outcome v (read_task service inference budgets authorization verifier body) refl
