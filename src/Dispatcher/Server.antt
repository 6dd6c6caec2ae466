-- ===== src/Dispatcher/Server.antt =====
-- `build_run_response` of app/dispatcher/server.py. The run of a job is a parameter.
use Prim.Native.Char.{code}
use private_ai_workspace_eks.Prelude.{
  String, Bool, true, false, Option, none, some, [], ◌∷◌, ◌&&◌, leb, ◌==◌, string_eq, if◌then◌else◌,
}
use private_ai_workspace_eks.Prelude.Dict
use private_ai_workspace_eks.Prelude.Text.{is_empty}
use private_ai_workspace_eks.Json.{Fields, end, Python, str, obj, get, get_or}
use private_ai_workspace_eks.Http.{
  Response, ok, bad_request, unauthorized, unavailable, respond, error, error_detail, Result, pass,
  fail, require, or_fail, read_object, ◌>>=◌, ◌>>◌,
}
use private_ai_workspace_eks.Auth.{bearer_token}
use private_ai_workspace_eks.SandboxTools.{Executor, subprocess, job, ToolSpec, tools}
use private_ai_workspace_eks.AgentTools.Invoke.{as_name, as_dict_or}
use private_ai_workspace_eks.Dispatcher.Runner.{JobOutcome}

-- What a job is asked to do.
pub record Job : Type 0 where
  pub tenant_id : String
  pub run_id : String
  pub tool : String
  pub arguments : Fields

abbrev nonempty : Option String → Option String
nonempty none = none
nonempty (some s) = if is_empty s then none else some s

-- `_bearer`: the header as in Auth, where an empty token is none.
unfoldable pub bearer : ⦃py : Python⦄ → Option String → Option String
bearer authorization = nonempty (bearer_token authorization)

abbrev pub is_ascii : String → Bool
is_ascii String.[] = true
is_ascii (String.◌∷◌ c s) = leb (code c) 127 && is_ascii s

-- `hmac.compare_digest`, which raises `TypeError` for a text that is not ASCII.
unfoldable pub compare_digest : String → String → Option Bool
compare_digest s t = if is_ascii s && is_ascii t then some (s == t) else none

abbrev required : String → Response
required d = error_detail bad_request "bad_request" d

abbrev is_job : Executor → Bool
is_job subprocess = false
is_job job = true

abbrev is_job_spec : Option ToolSpec → Bool
is_job_spec none = false
is_job_spec (some spec) = is_job spec.executor

-- `tool in TOOLS and tool_executor(tool) == "job"`
unfoldable pub is_job_tool : String → Bool
is_job_tool tool = is_job_spec (Dict.lookup tool tools)

module _ ⦃py : Python⦄ where
  -- The checks of the body.
  unfoldable pub read_job : String → Result Job
  read_job body = do
    d ←
        read_object (error_detail bad_request "bad_request" "invalid JSON")
          (error bad_request "bad_request") body
    tool ← or_fail (as_name (get "tool" d)) (required "'tool' required")
    arguments ← as_dict_or (required "'arguments' must be object") (get_or "arguments" (obj end) d)
    run_id ← or_fail (as_name (get "run_id" d)) (required "'run_id' required")
    tenant_id ← or_fail (as_name (get "tenant_id" d)) (required "'tenant_id' required")
    require (is_job_tool tool) (error bad_request "not_a_job_tool")
    pass (record { tenant_id = tenant_id; run_id = run_id; tool = tool; arguments = arguments })

  -- The answer to a job that has run; none if it raised.
  abbrev pub job_reply : Option JobOutcome → Option Response
  job_reply none = none
  job_reply (some o) = some (
      respond ok (
        ("result_class", str o.result_class)
        ∷ ("result", o.result)
        ∷ ("exit_code", o.exit_code)
        ∷ []))

  module _ (runner : Job → Option JobOutcome) where
    unfoldable pub dispatch : Result Job → Option Response
    dispatch (fail r) = some r
    dispatch (pass j) = job_reply (runner j)

    unfoldable pub admit : Option Bool → String → Option Response
    unfolding dispatch
    admit none body = none
    admit (some false) body = some (error unauthorized "unauthorized")
    admit (some true) body = dispatch (read_job body)

    abbrev check_token : String → Option String → String → Option Response
    check_token token none body = some (error unauthorized "unauthorized")
    check_token token (some presented) body = admit (compare_digest presented token) body

    -- No answer where the handler raises.
    unfoldable pub run_response : Option String → Option String → String → Option Response
    unfolding admit
    run_response token authorization body = elim (nonempty token) [
      | none ↦ some (error unavailable "dispatcher_unconfigured")
      | some t ↦ check_token t (bearer authorization) body
    ]
