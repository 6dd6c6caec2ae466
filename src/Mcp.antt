-- ===== src/Mcp.antt =====
-- app/control_plane/mcp.py: one exchange with an MCP server, and the handler that invokes a tool of
-- it. The child process is a parameter, as in AgentTools.
pub mod Gates
use private_ai_workspace_eks.Prelude.{
  ℕ, ◌/◌, zero, String, ◌<>◌, Bool, true, false, Option, none, some, List, [], ◌∷◌, ◌++◌, ◌&&◌, leb,
  contains, string_eq, if◌then◌else◌, ◌==◌, ◌||◌, nat_eq,
}
use private_ai_workspace_eks.Prelude.Text.{is_empty, between, len}
use private_ai_workspace_eks.Json.{
  Json, pos, negsuc, Fields, end, Python, null, str, int, float, obj, dict, get, get_or, has,
  truthy, as_dict,
}
use private_ai_workspace_eks.Http.{
  Response, ok, bad_request, forbidden, not_found, payload_too_large, too_many_requests,
  bad_gateway, unavailable, gateway_timeout, respond, error, error_detail, degraded, unhandled,
  Result, pass, fail, require, or_fail, read_object, ◌>>=◌, ◌>>◌,
}
use private_ai_workspace_eks.Auth.{TokenClaims, TokenVerifier, verify_and_extract, owner_of}
use private_ai_workspace_eks.RateLimiter.{RateLimiter, try_acquire, release}
use private_ai_workspace_eks.Notifications.Emit.{Feed, emit, event}
use private_ai_workspace_eks.AgentTools.{
  Allowlist, is_allowed, AuditEntry, audit, Process, not_spawned, timed_out, exited,
}
use private_ai_workspace_eks.AgentTools.Invoke.{as_name, as_dict_or}
use Prim.Native.Char.{Char, code}

-- The keys of `MCP_SERVERS`
unfoldable pub servers : List String
servers = "stub" ∷ []

pub record McpOutcome : Type 0 where
  pub result_class : String
  pub result : Json

abbrev ended : String → McpOutcome
ended c = record { result_class = c; result = null }

-- `bytes.strip`, which takes off ASCII white space only.
abbrev is_byte_space : Char → Bool
is_byte_space c = between 9 13 (code c) || code c == 32

lstrip_bytes : String → String
unfolding nat_eq
lstrip_bytes String.[] = String.[]
lstrip_bytes (String.◌∷◌ c s) =
    let rest = lstrip_bytes s in if is_byte_space c then rest else String.◌∷◌ c s

rstrip_bytes : String → String
unfolding nat_eq
rstrip_bytes String.[] = String.[]
rstrip_bytes (String.◌∷◌ c s) =
    let rest = rstrip_bytes s in
    if is_empty rest && is_byte_space c then String.[] else String.◌∷◌ c rest

abbrev strip_bytes : String → String
strip_bytes s = lstrip_bytes (rstrip_bytes s)

abbrev flush : String → List String → List String
flush line lines = if is_empty (strip_bytes line) then lines else strip_bytes line ∷ lines

-- The line that a text begins with, and the lines behind it that are not blank, each stripped.
lines_from : String → String × List String
unfolding nat_eq
lines_from String.[] = (String.[], [])
lines_from (String.◌∷◌ c s) =
    let (line, lines) = lines_from s in
    if code c == 10 || code c == 13
    then (String.[], flush line lines)
    else (String.◌∷◌ c line, lines)

unfoldable pub lines_of : String → List String
unfolding lines_from lstrip_bytes rstrip_bytes
lines_of out = let (line, lines) = lines_from out in flush line lines

abbrev is_two : Json → Bool
is_two (int (pos n)) = n == 2
is_two (float f) = f == "2.0"
is_two _ = false

abbrev is_unknown_method : Json → Bool
is_unknown_method (int (negsuc n)) = n == 32600
is_unknown_method (float f) = f == "-32601.0"
is_unknown_method _ = false

-- `_find(responses, 2)`: the first answer of that id. An answer that is no dict raises.
pub data Found : Type 0 where
  absent raises : Found
  found : Fields → Found

unfoldable pub find_two : List Json → Found
unfolding nat_eq
find_two [] = absent
find_two (obj d ∷ l) = let rest = find_two l in if is_two (get "id" d) then found d else rest
find_two (v ∷ l) = raises

-- `resp["error"].get("code")`, which raises for an error that is no dict
abbrev error_outcome : Json → Option McpOutcome
error_outcome (obj d) =
    some (ended (if is_unknown_method (get "code" d) then "unknown_tool" else "server_error"))
error_outcome _ = none

abbrev or_empty : Json → Json
or_empty v = if truthy v then v else obj end

-- What `call_tool` makes of the answers; `none` where it raises.
unfoldable pub call_outcome : Found → Option McpOutcome
call_outcome absent = some (ended "server_error")
call_outcome raises = none
call_outcome (found d) =
    if has "error" d
    then error_outcome (get "error" d)
    else some (record { result_class = "success"; result = or_empty (get "result" d) })

module _ ⦃py : Python⦄ where
  -- The lines of the output that are JSON.
  unfoldable pub responses : List String → List Json
  responses [] = []
  responses (line ∷ lines) =
      let rest = responses lines in elim (py.loads line) [ none ↦ rest | some v ↦ v ∷ rest ]

  -- `_exchange` and the reading of its answers in `call_tool`.
  unfoldable pub conclude : Process → Option McpOutcome
  unfolding find_two call_outcome
  conclude not_spawned = some (ended "server_error")
  conclude timed_out = some (ended "server_timeout")
  conclude (exited (pos zero) out) = call_outcome (find_two (responses (lines_of out)))
  conclude (exited n out) = some (ended "server_error")

-- One exchange that was started.
pub record Call : Type 0 where
  pub server : String
  pub tool : String
  pub arguments : Fields
  pub tenant_id : String

-- What the server is configured with; `launch` is the child of a server.
pub record Service : Type 0 where
  pub enabled : Bool
  pub allowlist : Allowlist
  pub launch : Call → Process

pub record State : Type 0 where
  pub limiter : RateLimiter
  pub audits : List AuditEntry
  pub feed : Feed
  pub calls : List Call

pub record Moment : Type 0 where
  pub now : ℕ
  pub event_id : String

abbrev pub max_args_bytes : ℕ
max_args_bytes = 100000

abbrev answer : String → String → McpOutcome → Response
answer server tool o =
    if o.result_class == "success"
    then respond ok (("server", str server) ∷ ("tool", str tool) ∷ ("result", o.result) ∷ [])
    else if o.result_class == "unknown_tool"
    then error not_found "unknown_tool"
    else if o.result_class == "server_timeout"
    then respond gateway_timeout (("error", str "mcp_timeout") ∷ ("status", str "degraded") ∷ [])
    else respond bad_gateway (("error", str "mcp_error") ∷ ("status", str "degraded") ∷ [])

abbrev event_of : McpOutcome → String
event_of o = if o.result_class == "success" then "agent_task_completed" else "agent_task_failed"

module _ ⦃py : Python⦄ (service : Service) where
  -- The checks up to the size of the arguments.
  unfoldable pub read_call :
      Option String
      → Option TokenVerifier
      → String
      → Result (TokenClaims × String × String × Fields)
  read_call authorization verifier body = do
    c ← verify_and_extract authorization verifier
    require service.enabled
        (degraded unavailable "mcp_disabled" "MCP integrations are disabled on this instance.")
    d ← read_object (error bad_request "bad_request") (error bad_request "bad_request") body
    server ←
        or_fail (as_name (get "server" d))
          (error_detail bad_request "bad_request" "'server' is required.")
    tool ←
        or_fail (as_name (get "tool" d))
          (error_detail bad_request "bad_request" "'tool' is required.")
    arguments ←
        as_dict_or (error_detail bad_request "bad_request" "'arguments' must be an object.")
          (get_or "arguments" (obj end) d)
    require (leb (len (py.dumps (obj arguments))) max_args_bytes)
        (error payload_too_large "payload_too_large")
    pass (c, server, tool, arguments)

  abbrev log : String × String → Call → String → Json → AuditEntry
  log who call decision result_class =
      record (audit who ("mcp:" <> call.server <> "/" <> call.tool) call.arguments decision) {
        result_class = result_class;
      }

  -- From the end of the exchange on. An exception leaves no entry and no event.
  unfoldable pub settle :
      String × String → Moment → Call → Option McpOutcome → State → State × Response
  settle who m call none s = (s, unhandled)
  settle who m call (some o) s = (
    record s {
      audits = s.audits ++ (log who call "allowed" (str o.result_class) ∷ []);
      feed = emit (event m.event_id who (event_of o) ("mcp:" <> call.server) m.now) s.feed;
    },
    answer call.server call.tool o,
  )

  unfoldable pub run_granted :
      String × String → Moment → Call → RateLimiter → State → State × Response
  unfolding settle
  run_granted who m call granted s =
      settle who m call (conclude (service.launch call))
        (record s { limiter = release granted; calls = s.calls ++ (call ∷ []) })

  unfoldable pub run_limited : String × String → Moment → Call → State → State × Response
  unfolding run_granted
  run_limited who m call s =
      let (l, granted) = try_acquire who.0 (m.now / 1000000) s.limiter in
      if granted then run_granted who m call l s else (
        record s { limiter = l; audits = s.audits ++ (log who call "rate_limited" null ∷ []) },
        error too_many_requests "rate_limited",
      )

  unfoldable pub authorize : String × String → Moment → Call → State → State × Response
  unfolding run_limited
  authorize who m call s =
      if is_allowed service.allowlist who.0 call.server && contains servers call.server
      then run_limited who m call s
      else (
        record s { audits = s.audits ++ (log who call "denied" null ∷ []) },
        error forbidden "server_not_allowed",
      )

  unfoldable pub invoke_response :
      Option String → Option TokenVerifier → String → Moment → State → State × Response
  invoke_response authorization verifier body m s = elim (read_call authorization verifier body) [
    | fail r ↦ (s, r)
    | pass (c, server, tool, arguments) ↦
        authorize (owner_of c) m
          (record {
            server = server;
            tool = tool;
            arguments = arguments;
            tenant_id = (owner_of c).0;
          })
          s
  ]
