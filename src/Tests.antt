-- ===== src/Tests.antt =====
-- Concrete runs: the fixtures of the tests, and a child module of tests for each part.
pub mod Access
pub mod Tools
pub mod Events
pub mod Urls
pub mod Models
pub mod Jobs
pub mod Calls
pub mod Agents
pub mod Boxes
pub mod Stores
pub mod Threads
pub mod Passages
pub mod Recalls
pub mod Studies
pub mod Servers
use private_ai_workspace_eks.Prelude.{
  ℕ, String, Bool, true, false, Option, none, some, List, [], ◌∷◌, string_eq, if◌then◌else◌, ◌==◌,
}
use private_ai_workspace_eks.Prelude.Dict
use private_ai_workspace_eks.Prelude.Dict.{Dict}
use private_ai_workspace_eks.Json.{
  Json, pos, Fields, end, field, Python, null, str, int, bool, arr, obj, dict, items, fields,
}
use private_ai_workspace_eks.Auth.{TokenClaims, TokenVerifier}

abbrev pub invoke_body : String
invoke_body = "{\"tool\": \"text_stats\", \"arguments\": {\"text\": \"hi\"}}"

abbrev pub shell_body : String
shell_body = "{\"tool\": \"shell\"}"

abbrev pub publish_body : String
publish_body = "{\"event_class\": \"system_notice\", \"resource_id\": \"r1\"}"

abbrev pub model_body : String
model_body = "{\"hf_repo_id\": \"acme/small\"}"

abbrev pub task_body : String
task_body = "{\"task\": \"count\"}"

abbrev pub final_body : String
final_body = "{\"action\": \"final\", \"answer\": \"2\"}"

abbrev pub brace_body : String
brace_body = "{\"}\":{}}"

abbrev pub note_body : String
note_body = "{\"title\": \"t\"}"

abbrev pub message_body : String
message_body = "{\"role\": \"user\", \"content\": \"hi\"}"

abbrev pub echo_body : String
echo_body = "{\"server\": \"stub\", \"tool\": \"echo\"}"

abbrev pub echo_output : String
echo_output = "{\"id\": 2, \"result\": {}}"

abbrev pub document_body : String
document_body = "{\"title\": \"t\", \"content\": \"a b\"}"

abbrev pub query_body : String
query_body = "{\"query\": \"q\"}"

abbrev pub memory_body : String
memory_body = "{\"consent\": true, \"content\": \"c\"}"

abbrev pub allowlist_text : String
allowlist_text = "{\"acme.com\": [\"text_stats\"]}"

abbrev pub child_output : String
child_output = "{\"ok\": true, \"result\": null}"

abbrev pub arguments : Fields
arguments = fields (("text", str "hi") ∷ [])

-- The JSON texts of the tests, and their values.
abbrev values : Dict String Json
values =
    ("{}", obj end)
    ∷ (invoke_body, dict (("tool", str "text_stats") ∷ ("arguments", obj arguments) ∷ []))
    ∷ (task_body, dict (("task", str "count") ∷ []))
    ∷ (final_body, dict (("action", str "final") ∷ ("answer", str "2") ∷ []))
    ∷ (brace_body, dict (("}", obj end) ∷ []))
    ∷ (note_body, dict (("title", str "t") ∷ []))
    ∷ (message_body, dict (("role", str "user") ∷ ("content", str "hi") ∷ []))
    ∷ (echo_body, dict (("server", str "stub") ∷ ("tool", str "echo") ∷ []))
    ∷ (echo_output, dict (("id", int (pos 2)) ∷ ("result", obj end) ∷ []))
    ∷ (document_body, dict (("title", str "t") ∷ ("content", str "a b") ∷ []))
    ∷ (query_body, dict (("query", str "q") ∷ []))
    ∷ (memory_body, dict (("consent", bool true) ∷ ("content", str "c") ∷ []))
    ∷ (shell_body, dict (("tool", str "shell") ∷ []))
    ∷ (publish_body, dict (("event_class", str "system_notice") ∷ ("resource_id", str "r1") ∷ []))
    ∷ (model_body, dict (("hf_repo_id", str "acme/small") ∷ []))
    ∷ (allowlist_text, dict (("acme.com", arr (items (str "text_stats" ∷ []))) ∷ []))
    ∷ (child_output, dict (("ok", bool true) ∷ ("result", null) ∷ []))
    ∷ []

abbrev lower_word : String → String
lower_word s = if s == "Bearer" then "bearer" else if s == "HTTPS" then "https" else s

instance abbrev pub python : Python
python = record {
  lower = lower_word;
  loads = λ s. Dict.lookup s values;
  dumps = λ v. "{}";
  pretty = λ v. "[]";
  display = λ v. "";
  isoformat = λ t. "2026-01-01T00:00:00Z";
}

abbrev pub alice : TokenClaims
alice = record { subject = "alice"; email = "alice@acme.com"; groups = []; expires_at = none }

abbrev pub verify : TokenVerifier
verify token = if token == "tok" then some alice else none

abbrev pub carol : TokenClaims
carol = record { subject = "carol"; email = "carol@other.org"; groups = []; expires_at = none }

-- A verifier of two users, of different tenants.
abbrev pub verify_two : TokenVerifier
verify_two token =
    if token == "tok" then some alice else if token == "key" then some carol else none
