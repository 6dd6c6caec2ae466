-- ===== src/JobExecutor.antt =====
-- app/control_plane/job_executor.py: the client of the tool-runner dispatcher. What the request
-- brings back is a parameter.
pub mod RoundTrip
use Prim.Native.Char.{code}
use private_ai_workspace_eks.Prelude.{
  ℕ, String, ◌<>◌, Bool, true, false, Option, none, some, [], ◌∷◌, ◌&&◌, ◌==◌, not, nat_eq,
  if◌then◌else◌,
}
use private_ai_workspace_eks.Prelude.Text.{is_empty}
use private_ai_workspace_eks.Json.{Json, Fields, Python, str, obj, dict, get, get_or}
use private_ai_workspace_eks.AgentTools.{SandboxOutcome, tool_error}

-- A body with status 200, or the exception that `urlopen` raises.
pub data Fetched : Type 0 where
  fetched : String → Fetched
  http_error timed_out failed : Fetched

-- `s.rstrip("/")`; 47 is the slash.
unfoldable pub rstrip_slash : String → String
unfolding nat_eq
rstrip_slash String.[] = String.[]
rstrip_slash (String.◌∷◌ c s) =
    let rest = rstrip_slash s in
    if code c == 47 && is_empty rest then String.[] else String.◌∷◌ c rest

abbrev or_empty : Option String → String
or_empty none = ""
or_empty (some s) = s

pub record DispatcherJobExecutor : Type 0 where
  pub base_url : String
  pub token : String

-- `__init__`; a token that is missing is kept as the empty text.
unfoldable pub init : Option String → Option String → DispatcherJobExecutor
init base_url token = record { base_url = rstrip_slash (or_empty base_url); token = or_empty token }

unfoldable pub configured : DispatcherJobExecutor → Bool
configured e = not (is_empty e.base_url) && not (is_empty e.token)

-- `f"Bearer {self._token}"`
abbrev pub authorization : DispatcherJobExecutor → String
authorization e = "Bearer" <> String.◌∷◌ " " e.token

abbrev pub request : String → String → String → Fields → Json
request tenant_id run_id tool arguments = dict (
    ("tenant_id", str tenant_id)
    ∷ ("run_id", str run_id)
    ∷ ("tool", str tool)
    ∷ ("arguments", obj arguments)
    ∷ [])

-- The reading of the answer's JSON value. `json.loads` raises where there is none.
unfoldable pub read_outcome : Option Json → SandboxOutcome
read_outcome (some (obj d)) = record {
  result_class = get_or "result_class" (str "tool_error") d;
  result = get "result" d;
  exit_code = get "exit_code" d;
}
read_outcome _ = tool_error

module _ ⦃py : Python⦄ where
  unfoldable pub receive : Fetched → SandboxOutcome
  unfolding read_outcome
  receive (fetched body) = read_outcome (py.loads (if is_empty body then "{}" else body))
  receive http_error = tool_error
  receive timed_out = record tool_error { result_class = str "tool_timeout" }
  receive failed = tool_error

  -- `execute`, on a network that takes the address, the header and the body.
  unfoldable pub execute :
      (String → String → String → Fetched)
      → DispatcherJobExecutor
      → String
      → Fields
      → String
      → String
      → SandboxOutcome
  unfolding receive
  execute network e tool arguments tenant_id run_id =
      if configured e
      then receive (
          network (e.base_url <> "/run") (authorization e)
            (py.dumps (request tenant_id run_id tool arguments)))
      else tool_error
