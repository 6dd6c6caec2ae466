-- ===== src/SandboxRunner/RoundTrip.antt =====
-- The parent of AgentTools with the child of SandboxRunner: a request goes out as JSON text and its
-- answer comes back.
use private_ai_workspace_eks.Prelude.{
  String, ◌≡◌, refl, false, Option, none, some, [], ◌∷◌, string_eq, Option-cases, inl, inr,
}
use private_ai_workspace_eks.Prelude.Dict
use private_ai_workspace_eks.Prelude.Text.{is_empty}
use private_ai_workspace_eks.Json.{Json, pos, Fields, Python, int, str, obj, dict, get, truthy}
use private_ai_workspace_eks.SandboxTools.{ToolSpec, tools}
use private_ai_workspace_eks.AgentTools.{
  SandboxOutcome, tool_error, classify_output, conclude, execute,
}
use private_ai_workspace_eks.SandboxRunner.{run_spec, run, handle, main}

-- What the caller of the sandbox should see of a tool.
abbrev pub result_of : Option Json → SandboxOutcome
result_of (some r) = record { result_class = str "success"; result = r; exit_code = int (pos 0) }
result_of none = record tool_error { exit_code = int (pos 0) }

abbrev pub expected : Option ToolSpec → Fields → SandboxOutcome
expected none arguments = record tool_error {
  result_class = str "unknown_tool";
  exit_code = int (pos 0);
}
expected (some spec) arguments = result_of (spec.run arguments)

abbrev pub request : String → Fields → Json
request tool arguments = dict (("tool", str tool) ∷ ("arguments", obj arguments) ∷ [])

classify-run_spec :
    (spec : Option ToolSpec) (arguments : Fields)
    → classify_output (some (run_spec spec (obj arguments))) ≡ expected spec arguments
unfolding classify_output run_spec truthy get string_eq
classify-run_spec none arguments = refl
classify-run_spec (some spec) arguments = elim (Option-cases (spec.run arguments)) [
  | inl h ↦ rw h refl
  | inr (r, h) ↦ rw h refl
]

module _ ⦃py : Python⦄ where
  -- The printer writes a text for the value that is not empty and that the parser reads back.
  pub record IsReadBack (v : Json) : Type 0 where
    pub nonempty : is_empty (py.dumps v) ≡ false
    pub exact : py.loads (py.dumps v) ≡ some v

  -- With the sandbox's own runner as the child, where the JSON texts of the request and of the
  -- answer are read back as they were written, the sandbox reports success with the tool's result
  -- for a registered tool that returns one, `tool_error` for one that raises, and `unknown_tool`
  -- for a name that is not registered.
  pub execute-main :
      (tool : String) (arguments : Fields)
      → IsReadBack (request tool arguments)
      → IsReadBack (run_spec (Dict.lookup tool tools) (obj arguments))
      → execute main tool arguments ≡ expected (Dict.lookup tool tools) arguments
  unfolding execute main handle run conclude get string_eq
  execute-main tool arguments sent answered =
      rw (sent.nonempty, sent.exact, answered.nonempty, answered.exact)
        (classify-run_spec (Dict.lookup tool tools) arguments)
