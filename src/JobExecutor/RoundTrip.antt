-- ===== src/JobExecutor/RoundTrip.antt =====
-- The client of JobExecutor with the server of Dispatcher/Server and the runner of SandboxRunner:
-- what a job-backed tool returns to its caller.
use private_ai_workspace_eks.Prelude.{
  String, ◌≡◌, refl, ◌∙◌, true, false, Option, none, some, [], ◌∷◌, arith, string_eq, if◌then◌else◌,
}
use private_ai_workspace_eks.Prelude.Text.{is_empty, is_space}
use private_ai_workspace_eks.Json.{Json, pos, Fields, Python, str, obj, dict, get, get_or}
use private_ai_workspace_eks.Http.{Response, ok, pass, read_object}
use private_ai_workspace_eks.Auth.Header.{IsWord}
use private_ai_workspace_eks.Auth.Laws.{bearer_token_lem}
use private_ai_workspace_eks.AgentTools.{SandboxOutcome, Process, exited}
use private_ai_workspace_eks.AgentTools
use private_ai_workspace_eks.SandboxRunner.{ran}
use private_ai_workspace_eks.SandboxRunner.RoundTrip.{IsReadBack, expected, execute-main}
use private_ai_workspace_eks.SandboxRunner.RoundTrip
use private_ai_workspace_eks.Dispatcher.Runner.{JobOutcome, classify_log, classify_value}
use private_ai_workspace_eks.Dispatcher.Server.{
  Job, bearer, is_ascii, compare_digest, is_job_tool, read_job, job_reply, dispatch, admit,
  run_response,
}
use private_ai_workspace_eks.JobExecutor.{
  Fetched, fetched, http_error, failed, DispatcherJobExecutor, configured, authorization, request,
  execute, receive, read_outcome,
}

abbrev pub outcome_of : JobOutcome → SandboxOutcome
outcome_of o = record {
  result_class = str o.result_class;
  result = o.result;
  exit_code = o.exit_code;
}

-- The JSON value of the server's answer.
abbrev pub answer : JobOutcome → Json
answer o =
    dict (
      ("result_class", str o.result_class) ∷ ("result", o.result) ∷ ("exit_code", o.exit_code) ∷ [])

abbrev pub job_of : String → String → String → Fields → Job
job_of tenant_id run_id tool arguments = record {
  tenant_id = tenant_id;
  run_id = run_id;
  tool = tool;
  arguments = arguments;
}

module _ ⦃py : Python⦄ where
  -- What the client gets to see of the server.
  abbrev pub seen : Option Response → Fetched
  seen none = failed
  seen (some r) = elim r.status [ ok ↦ fetched (py.dumps r.payload) | _ ↦ http_error ]

  abbrev pub served : String → (Job → Option JobOutcome) → String → String → String → Fetched
  served token runner url header body = seen (run_response runner (some token) (some header) body)

  -- A token that survives the header, the same on both sides.
  pub record IsShared (e : DispatcherJobExecutor) : Type 0 where
    pub base : is_empty e.base_url ≡ false
    pub nonempty : is_empty e.token ≡ false
    pub word : IsWord e.token
    pub ascii : is_ascii e.token ≡ true
    pub lower : py.lower "Bearer" ≡ "bearer"

  bearer-authorization :
      (e : DispatcherJobExecutor) → IsShared e → bearer (some (authorization e)) ≡ some e.token
  unfolding bearer is_space
  bearer-authorization e h =
      rw
        (bearer_token_lem "Bearer" e.token h.lower refl
          (refl, (refl, (refl, (refl, (refl, (refl, tt)))))) h.nonempty h.word)
        (rw h.nonempty)

  -- A request that the server takes for a job.
  pub record IsJobRequest (tenant_id run_id tool : String) : Type 0 where
    pub tenant : is_empty tenant_id ≡ false
    pub run : is_empty run_id ≡ false
    pub named : is_empty tool ≡ false
    pub job : is_job_tool tool ≡ true

  read_job-request :
      (tenant_id run_id tool : String) (arguments : Fields)
      → IsJobRequest tenant_id run_id tool
      → IsReadBack (request tenant_id run_id tool arguments)
      → read_job (py.dumps (request tenant_id run_id tool arguments))
        ≡ pass (job_of tenant_id run_id tool arguments)
  unfolding read_job read_object get get_or string_eq
  read_job-request tenant_id run_id tool arguments h sent =
      rw sent.exact (rw (h.named, h.run, h.tenant, h.job))

  compare_digest_self : (t : String) → is_ascii t ≡ true → compare_digest t t ≡ some true
  unfolding compare_digest
  compare_digest_self t h = ground arith

  run_response-request :
      (e : DispatcherJobExecutor) (runner : Job → Option JobOutcome)
      (tenant_id run_id tool : String) (arguments : Fields)
      → IsShared e
      → IsJobRequest tenant_id run_id tool
      → IsReadBack (request tenant_id run_id tool arguments)
      → run_response runner
          (some e.token)
          (some (authorization e))
          (py.dumps (request tenant_id run_id tool arguments))
        ≡ job_reply (runner (job_of tenant_id run_id tool arguments))
  unfolding run_response admit dispatch
  run_response-request e runner tenant_id run_id tool arguments shared h sent =
      rw (shared.nonempty, run_response)
        (rw (bearer-authorization e shared) (
          rw (compare_digest_self e.token shared.ascii)
            (rw (read_job-request tenant_id run_id tool arguments h sent, admit) refl)))

  receive-seen :
      (o : JobOutcome) → IsReadBack (answer o) → receive (seen (job_reply (some o))) ≡ outcome_of o
  unfolding receive read_outcome get get_or string_eq
  receive-seen o h = rw (h.nonempty, h.exact)

  -- With a token that both sides share, a job-backed tool, and JSON texts that are read back as
  -- they were written, the client returns what the run of that job returns.
  pub execute-served :
      (e : DispatcherJobExecutor) (runner : Job → Option JobOutcome)
      (tenant_id run_id tool : String) (arguments : Fields) (o : JobOutcome)
      → IsShared e
      → IsJobRequest tenant_id run_id tool
      → IsReadBack (request tenant_id run_id tool arguments)
      → runner (job_of tenant_id run_id tool arguments) ≡ some o
      → IsReadBack (answer o)
      → execute (served e.token runner) e tool arguments tenant_id run_id ≡ outcome_of o
  unfolding execute configured
  execute-served e runner tenant_id run_id tool arguments o shared h sent ran answered =
      rw (shared.base, shared.nonempty, execute)
        (rw (run_response-request e runner tenant_id run_id tool arguments shared h sent, ran)
          (receive-seen o answered))

  outcome_of-classify_value :
      (v : Option Json) → outcome_of (classify_value v) ≡ AgentTools.classify_output v
  unfolding classify_value AgentTools.classify_output
  outcome_of-classify_value none = refl
  outcome_of-classify_value (some (obj d)) = ground arith
  outcome_of-classify_value (some v) = refl

  -- Both backends agree: if the runner prints the same text and ends with 0 in the subprocess and
  -- in the pod of the job, whose log the dispatcher reads, then the client of the dispatcher
  -- returns what the sandbox returns, under the same conditions on the token, the request and the
  -- JSON texts.
  pub execute_agrees :
      (e : DispatcherJobExecutor) (runner : Job → Option JobOutcome) (launch : String → Process)
      (tenant_id run_id tool : String) (arguments : Fields) (out : String)
      → IsShared e
      → IsJobRequest tenant_id run_id tool
      → IsReadBack (request tenant_id run_id tool arguments)
      → launch (py.dumps (RoundTrip.request tool arguments)) ≡ exited (pos 0) out
      → runner (job_of tenant_id run_id tool arguments) ≡ some (classify_log out)
      → IsReadBack (answer (classify_log out))
      → execute (served e.token runner) e tool arguments tenant_id run_id
        ≡ AgentTools.execute launch tool arguments
  unfolding AgentTools.execute AgentTools.conclude classify_log
  execute_agrees e runner launch tenant_id run_id tool arguments out shared h sent printed ran
        answered =
      execute-served e runner tenant_id run_id tool arguments (classify_log out) shared h sent ran
        answered
      ∙ rw printed (outcome_of-classify_value (py.loads (if is_empty out then "{}" else out)))
