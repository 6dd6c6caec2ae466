-- ===== src/SandboxRunner.antt =====
-- app/sandbox/runner.py: the process that runs a tool. It reads a request and writes an answer.
pub mod RoundTrip
use private_ai_workspace_eks.Prelude.{
  String, Bool, true, false, Option, none, some, [], ◌∷◌, ◌==◌, string_eq, if◌then◌else◌,
}
use private_ai_workspace_eks.Prelude.Dict
use private_ai_workspace_eks.Prelude.Text.{is_empty}
use private_ai_workspace_eks.Json.{
  Json, pos, Fields, Python, bool, str, arr, obj, dict, get, as_dict,
}
use private_ai_workspace_eks.SandboxTools.{ToolSpec, tools}
use private_ai_workspace_eks.AgentTools.{Process, exited}

abbrev pub failed : String → Json
failed e = dict (("ok", bool false) ∷ ("error", str e) ∷ [])

-- A tool may raise `ValueError` only.
abbrev pub ran : Option Json → Json
ran (some r) = dict (("ok", bool true) ∷ ("result", r) ∷ [])
ran none =
    dict (("ok", bool false) ∷ ("error", str "tool_exception") ∷ ("detail", str "ValueError") ∷ [])

unfoldable pub run_spec : Option ToolSpec → Json → Json
run_spec none arguments = failed "unknown_tool"
run_spec (some spec) (obj d) = ran (spec.run d)
run_spec (some spec) arguments = failed "bad_arguments"

-- `run`. No answer where it raises: a list or a dict cannot be a key.
unfoldable pub run : Fields → Option Json
run payload = elim (get "tool" payload) [
  | str tool ↦ some (run_spec (Dict.lookup tool tools) (get "arguments" payload))
  | arr l ↦ none
  | obj d ↦ none
  | _ ↦ some (failed "unknown_tool")
]

module _ ⦃py : Python⦄ where
  abbrev write : Option Json → Process
  write none = exited (pos 1) ""
  write (some v) = exited (pos 0) (py.dumps v)

  unfoldable pub handle : Option Json → Process
  unfolding run
  handle (some (obj payload)) = write (run payload)
  handle _ = exited (pos 0) (py.dumps (failed "bad_request"))

  -- `main`, on the text of the request.
  unfoldable pub main : String → Process
  unfolding handle
  main request = handle (py.loads (if is_empty request then "{}" else request))
