-- ===== src/AgentLoop/Loop.antt =====
-- `run_agent_loop`. The clock, the model and the fresh ids are parameters, `World`; the tools run
-- as in AgentTools/Invoke.
use private_ai_workspace_eks.Prelude.{
  ℕ, zero, suc, String, Bool, Option, none, some, List, [], ◌∷◌, ◌++◌, ◌&&◌, ◌==◌, is_some,
  string_eq, if◌then◌else◌,
}
use private_ai_workspace_eks.Prelude.Dict
use private_ai_workspace_eks.Json.{
  Json, ℤ, pos, Fields, end, Python, null, str, obj, dict, get, get_or, to_str, is_text, ◌+ℤ◌,
  ltb_ℤ,
}
use private_ai_workspace_eks.SandboxTools.{tools}
use private_ai_workspace_eks.AgentTools.{
  SandboxOutcome, is_allowed, AuditEntry, audit, audit_outcome,
}
use private_ai_workspace_eks.AgentTools.Invoke.{Service, Run, Moment, run_tool, started}
use private_ai_workspace_eks.Notifications.Emit.{Feed, emit, event}
use private_ai_workspace_eks.AgentLoop.{
  AgentLoopBudgets, max_total_tokens, AgentRunOutcome, ChatMessage, message, content_of, Truncated,
  tokens_of, tool_catalog, system_prompt,
}
use private_ai_workspace_eks.AgentLoop.Extract.{parse_action}

-- At step `n`: whether the wall clock is over its budget, what the model answers to the messages
-- (`none` for any error), and the moment of a tool's run.
pub record World : Type 0 where
  pub late : ℕ → Bool
  pub chat : ℕ → List ChatMessage → Option Json
  pub moment : ℕ → Moment
  pub truncate : String → Truncated

-- The fresh ids of a run, and the times of its events.
pub record Stamps : Type 0 where
  pub run_id : String
  pub progress_id : String
  pub terminal_id : String
  pub started : ℕ
  pub ended : ℕ

-- The variables of the loop, and what it has done: `asked` counts the requests to the model.
pub record RunState : Type 0 where
  pub messages : List ChatMessage
  pub total_tokens : ℤ
  pub asked : ℕ
  pub audits : List AuditEntry
  pub runs : List Run

abbrev say : ChatMessage → RunState → RunState
say m s = record s { messages = s.messages ++ (m ∷ []) }

abbrev nudge : ChatMessage
nudge =
    message "user" "Reply with exactly one JSON object: {\"action\": \"call_tool\"|\"final\", ...}."

abbrev unknown_action : ChatMessage
unknown_action = message "user" "Unknown action. Use \"call_tool\" or \"final\"."

abbrev outcome : String → Option String → ℕ → Option String → AgentRunOutcome
outcome status answer steps detail = record {
  status = status;
  answer = answer;
  steps = steps;
  detail = detail;
}

abbrev exhausted : ℕ → String → AgentRunOutcome
exhausted steps detail = outcome "budget_exhausted" none steps (some detail)

-- A turn of the model lets the loop go on, or ends it.
pub data Turn : Type 0 where
  proceed : RunState → Turn
  finish : RunState → AgentRunOutcome → Turn

-- A tool that the model may name: a text, on the tenant's allow-list, and registered.
abbrev pub permitted : Service → String → Json → Option String
permitted service tenant (str tool) =
    if is_allowed service.allowlist tenant tool && is_some (Dict.lookup tool tools)
    then some tool
    else none
permitted service tenant _ = none

abbrev as_fields : Json → Fields
as_fields (obj d) = d
as_fields _ = end

-- `str(answer) if answer is not None else ""`
abbrev answer_text : ⦃py : Python⦄ → Json → String
answer_text null = ""
answer_text v = to_str v

abbrev observation : SandboxOutcome → Json
observation o =
    if is_text "success" o.result_class
    then dict (("result", o.result) ∷ [])
    else dict (("error", o.result_class) ∷ [])

abbrev pub initial : List ChatMessage → RunState
initial messages = record {
  messages = messages;
  total_tokens = pos 0;
  asked = 0;
  audits = [];
  runs = [];
}

module _ ⦃py : Python⦄ (world : World) (service : Service) (who : String × String) where
  abbrev tool_says : Json → ChatMessage
  tool_says v = message "tool" (py.dumps v)

  -- The run of a permitted tool.
  unfoldable pub use_tool : ℕ → String → Json → RunState → RunState
  use_tool n tool (obj arguments) s =
      let o = run_tool service who (world.moment n) tool arguments in
      say (tool_says (observation o)) (record s {
        audits = s.audits ++ (audit_outcome (audit who tool arguments "allowed") o ∷ []);
        runs = s.runs ++ started service tool arguments;
      })
  use_tool n tool _ s =
      say
        (tool_says (
          dict
            (("error", str "bad_arguments") ∷ ("detail", str "arguments must be an object.") ∷ [])))
        s

  -- The branch `call_tool`.
  unfoldable pub call_tool : ℕ → Json → Json → RunState → RunState
  unfolding use_tool
  call_tool n tool arguments s = elim (permitted service who.0 tool) [
    | some name ↦ use_tool n name arguments s
    | none ↦
        say
          (tool_says (
            dict (
              ("error", str "tool_not_allowed")
              ∷ ("detail", str "This tool is not permitted.")
              ∷ [])))
          (record s {
            audits = s.audits ++ (audit who (to_str tool) (as_fields arguments) "denied" ∷ []);
          })
  ]

  -- What an answer of the model leads to.
  unfoldable pub act : ℕ → Option Fields → RunState → Turn
  unfolding call_tool
  act n none s = proceed (say nudge s)
  act n (some action) s =
      if is_text "final" (get "action" action)
      then finish s (outcome "completed" (some (answer_text (get "answer" action))) n none)
      else if is_text "call_tool" (get "action" action)
      then proceed (call_tool n (get "tool" action) (get_or "arguments" (obj end) action) s)
      else proceed (say unknown_action s)

  -- An answer is counted, kept in the transcript and read. `none`: the count raises.
  unfoldable pub answered : ℕ → Json → Option ℤ → RunState → Option Turn
  answered n response none s = none
  answered n response (some tokens) s = some (
      act n (parse_action (content_of response)) (
        say (message "assistant" (content_of response))
          (record s { total_tokens = s.total_tokens +ℤ tokens })))

  -- What the model answers at step `done + 1`, if it answers.
  unfoldable pub hear : ℕ → Option Json → RunState → Option Turn
  unfolding answered
  hear done none s = some (finish s (outcome "failed" none done (some "inference_unavailable")))
  hear done (some response) s = answered (suc done) response (tokens_of world.truncate response) s

  unfoldable pub ask : ℕ → RunState → Option Turn
  unfolding hear
  ask done s = hear done (world.chat (suc done) s.messages) (record s { asked = suc s.asked })

  -- The budget that is used up before step `done + 1`.
  unfoldable pub used_up : AgentLoopBudgets → ℕ → RunState → Option String
  used_up budgets done s =
      if world.late (suc done)
      then some "wall_clock"
      else if ltb_ℤ (pos (max_total_tokens budgets)) s.total_tokens
      then some "token_budget"
      else none

  -- The `for` loop, with `left` steps to go behind `done`. No outcome: an exception.
  unfoldable pub loop : AgentLoopBudgets → ℕ → ℕ → RunState → RunState × Option AgentRunOutcome
  unfolding used_up ask
  loop budgets zero done s = (s, some (exhausted done "max_steps"))
  loop budgets (suc left) done s = elim (used_up budgets done s) [
    | some detail ↦ (s, some (exhausted done detail))
    | none ↦ elim (ask done s) [
      | none ↦ (record s { asked = suc s.asked }, none)
      | some (finish s' o) ↦ (s', some o)
      | some (proceed s') ↦ loop budgets left (suc done) s'
    ]
  ]

  abbrev pub opening : AgentLoopBudgets → String → List ChatMessage
  opening budgets task =
      message "system" (system_prompt (tool_catalog service.allowlist who.0))
      ∷ message "user" task
      ∷ []

  -- `_terminal`, for an outcome.
  unfoldable pub conclude : Stamps → Feed → Option AgentRunOutcome → Feed
  conclude stamps feed none = feed
  conclude stamps feed (some o) =
      emit
        (event stamps.terminal_id who
          (if o.status == "completed" then "agent_task_completed" else "agent_task_failed")
          stamps.run_id stamps.ended)
        feed

  unfoldable pub run_agent_loop :
      AgentLoopBudgets → Stamps → String → Feed → Feed × RunState × Option AgentRunOutcome
  unfolding conclude loop
  run_agent_loop budgets stamps task feed =
      let started =
        emit (event stamps.progress_id who "agent_task_progress" stamps.run_id stamps.started)
          feed in
      let (s, o) = loop budgets budgets.max_steps 0 (initial (opening budgets task)) in
      (conclude stamps started o, s, o)
