-- ===== src/AgentTools.antt =====
-- app/control_plane/agent_tools.py, but for the limiter (RateLimiter) and the handler
-- (AgentTools/Invoke): the sandbox's outcomes, the allow-list, the audit entries, the arguments.
pub mod AllowList
pub mod Invoke
pub mod Authorization
pub mod Outcomes
use private_ai_workspace_eks.Prelude.{
  ℕ, zero, String, ◌<>◌, Bool, true, false, Option, none, some, List, [], ◌∷◌, ◌&&◌, ltb, ◌==◌,
  string_eq, if◌then◌else◌, contains, is_some,
}
use private_ai_workspace_eks.Prelude.Dict
use private_ai_workspace_eks.Prelude.Dict.{Dict}
use private_ai_workspace_eks.Prelude.Text.{is_empty}
use private_ai_workspace_eks.Json.{
  Json, ℤ, pos, Items, nil, cons, Fields, end, field, Python, null, bool, int, str, arr, obj, dict,
  get, has, type_name, size, to_str, truthy, is_text,
}
use private_ai_workspace_eks.SandboxTools.{Rule, ArgumentType, string, integer}

-- The dispatcher may send any value as `result_class` and `exit_code`.
pub record SandboxOutcome : Type 0 where
  pub result_class : Json
  pub result : Json
  pub exit_code : Json

abbrev pub tool_error : SandboxOutcome
tool_error = record { result_class = str "tool_error"; result = null; exit_code = null }

-- What the child process does, as `Popen` and `communicate` show it.
pub data Process : Type 0 where
  not_spawned timed_out : Process
  exited : ℤ → String → Process

-- The reading of the runner's output.
unfoldable pub classify_output : Option Json → SandboxOutcome
classify_output (some (obj d)) =
    if truthy (get "ok" d)
    then record { result_class = str "success"; result = get "result" d; exit_code = int (pos 0) }
    else if is_text "unknown_tool" (get "error" d)
    then record tool_error { result_class = str "unknown_tool"; exit_code = int (pos 0) }
    else record tool_error { exit_code = int (pos 0) }
classify_output _ = record tool_error { exit_code = int (pos 0) }

module _ ⦃py : Python⦄ where
  -- What `SandboxExecutor.execute` makes of the end of the child.
  unfoldable pub conclude : Process → SandboxOutcome
  unfolding classify_output
  conclude not_spawned = tool_error
  conclude timed_out = record tool_error { result_class = str "tool_timeout" }
  conclude (exited (pos zero) out) = classify_output (py.loads (if is_empty out then "{}" else out))
  conclude (exited code out) = record tool_error { exit_code = int code }

  -- `SandboxExecutor.execute`: the payload is handed to a child.
  unfoldable pub execute : (String → Process) → String → Fields → SandboxOutcome
  unfolding conclude
  execute launch tool arguments =
      conclude (launch (py.dumps (dict (("tool", str tool) ∷ ("arguments", obj arguments) ∷ []))))

-- The tools of each tenant.
abbrev pub Allowlist : Type 0
Allowlist = Dict String (List String)

abbrev or_nil : Option (List String) → List String
or_nil none = []
or_nil (some l) = l

-- `allowlist.get(tenant, frozenset())`
abbrev pub allowed_tools : Allowlist → String → List String
allowed_tools allowlist tenant = or_nil (Dict.lookup tenant allowlist)

unfoldable pub is_allowed : Allowlist → String → String → Bool
is_allowed allowlist tenant tool = contains (or_nil (Dict.lookup tenant allowlist)) tool

module _ ⦃py : Python⦄ where
  unfoldable pub texts : Items → List String
  texts nil = []
  texts (cons v r) = to_str v ∷ texts r

  -- The dict comprehension of `parse_allowlist`; the keys of a dict differ.
  unfoldable pub allowlist_of : Fields → Allowlist
  unfolding texts
  allowlist_of end = []
  allowlist_of (field tenant (arr l) r) = (tenant, texts l) ∷ allowlist_of r
  allowlist_of (field tenant v r) = allowlist_of r

  abbrev pub of_value : Option Json → Allowlist
  of_value (some (obj d)) = allowlist_of d
  of_value _ = []

  unfoldable pub parse_allowlist : Option String → Allowlist
  parse_allowlist none = []
  parse_allowlist (some raw) = if is_empty raw then [] else of_value (py.loads raw)

-- `_arg_shape`: for each key the type and the size of its value.
abbrev pub Shape : Type 0
Shape = List (String × (String × Option ℕ))

unfoldable pub arg_shape : Fields → Shape
unfolding type_name size
arg_shape end = []
arg_shape (field k v r) = (k, (type_name v, size v)) ∷ arg_shape r

pub record AuditEntry : Type 0 where
  pub tenant_id : String
  pub user_id : String
  pub tool : String
  pub decision : String
  pub shape : Shape
  pub result_class : Json
  pub exit_code : Json

-- `_audit`, without the latency
unfoldable pub audit : String × String → String → Fields → String → AuditEntry
audit (tenant, user) tool arguments decision = record {
  tenant_id = tenant;
  user_id = user;
  tool = tool;
  decision = decision;
  shape = arg_shape arguments;
  result_class = null;
  exit_code = null;
}

abbrev pub audit_outcome : AuditEntry → SandboxOutcome → AuditEntry
audit_outcome a o = record a { result_class = o.result_class; exit_code = o.exit_code }

-- `expected == "string" and not isinstance(value, str)`, and the same for integers
unfoldable pub type_error : String → ArgumentType → Json → Option String
type_error name string (str s) = none
type_error name string v = some ("'" <> name <> "' must be a string.")
type_error name integer (int n) = none
type_error name integer v = some ("'" <> name <> "' must be an integer.")

abbrev shown_limit : ⦃py : Python⦄ → Option ℕ → String
shown_limit ⦃py⦄ (some n) = py.display (int (pos n))
shown_limit ⦃py⦄ none = ""

abbrev exceeds : Option ℕ → Option ℕ → Bool
exceeds (some limit) (some n) = ltb limit n
exceeds _ _ = false

module _ ⦃py : Python⦄ where
  value_error : String → Rule → Json → Option String
  unfolding type_error
  value_error name rule v = elim (type_error name rule.type v) [
    | some e ↦ some e
    | none ↦
        if exceeds rule.max_len (size v)
        then some
            ("'" <> name <> "' exceeds the maximum length of " <> shown_limit rule.max_len <> ".")
        else none
  ]

  -- `_validate_arguments`: the first error, if any
  unfoldable pub validate_arguments : List (String × Rule) → Fields → Option String
  unfolding value_error
  validate_arguments [] arguments = none
  validate_arguments ((name, rule) ∷ schema) arguments =
      let rest = validate_arguments schema arguments in
      if has name arguments
      then elim (value_error name rule (get name arguments)) [ some e ↦ some e | none ↦ rest ]
      else if rule.required
      then some ("'" <> name <> "' is required.")
      else rest
