-- ===== src/SandboxTools.antt =====
-- app/sandbox/tools.py: the registry of tools, with the schema of their arguments and the backend
-- that runs them.
use private_ai_workspace_eks.Prelude.{
  ℕ, ◌+◌, String, Bool, true, false, Option, none, some, List, [], ◌∷◌, ltb, ◌==◌, string_eq,
  nat_eq, if◌then◌else◌,
}
use private_ai_workspace_eks.Prelude.Dict
use private_ai_workspace_eks.Prelude.Dict.{Dict}
use private_ai_workspace_eks.Prelude.Text.{len, is_empty, is_space}
use private_ai_workspace_eks.Json.{Json, Fields, str, int, pos, get, dict}
use Prim.Native.Char.{code}

pub data Executor : Type 0 where
  subprocess job : Executor

pub data ArgumentType : Type 0 where
  string integer : ArgumentType

pub record Rule : Type 0 where
  pub type : ArgumentType
  pub required : Bool
  pub max_len : Option ℕ

pub record ToolSpec : Type 0 where
  pub description : String
  pub schema : List (String × Rule)
  pub run : Fields → Option Json
  pub executor : Executor

abbrev pub max_text : ℕ
max_text = 100000

abbrev pub text_rule : Rule
text_rule = record { type = string; required = true; max_len = some max_text }

-- `len(text.split())`; the flag says that a word has begun
unfoldable pub words : Bool → String → ℕ
unfolding is_space
words inside String.[] = 0
words inside (String.◌∷◌ c s) =
    (if inside then 0 else if is_space c then 0 else 1)
    + words (if is_space c then false else true) s

-- `text.count("\n")`
unfoldable pub newlines : String → ℕ
unfolding nat_eq
newlines String.[] = 0
newlines (String.◌∷◌ c s) = (if code c == 10 then 1 else 0) + newlines s

-- `_text_stats`; `none` where it raises `ValueError`
unfoldable pub text_stats : Fields → Option Json
unfolding words newlines
text_stats arguments = elim (get "text" arguments) [
  | str text ↦
      if ltb max_text (len text)
      then none
      else some (
          dict (
            ("characters", int (pos (len text)))
            ∷ ("words", int (pos (words false text)))
            ∷ ("lines", int (pos (newlines text + (if is_empty text then 0 else 1))))
            ∷ []))
  | _ ↦ none
]

-- `TOOLS`
unfoldable pub tools : Dict String ToolSpec
tools =
    (
      "text_stats",
      record {
        description = "Return character, word, and line counts for a text string.";
        schema = ("text", text_rule) ∷ [];
        run = text_stats;
        executor = subprocess;
      },
    )
    ∷ (
      "text_stats_job",
      record {
        description = "Like text_stats, but executed in an isolated Kubernetes Job.";
        schema = ("text", text_rule) ∷ [];
        run = text_stats;
        executor = job;
      },
    )
    ∷ []

-- `tool_executor`
unfoldable pub tool_executor : String → Executor
unfolding tools
tool_executor name = elim (Dict.lookup name tools) [ none ↦ subprocess | some spec ↦ spec.executor ]
