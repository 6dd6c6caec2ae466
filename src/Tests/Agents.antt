-- ===== src/Tests/Agents.antt =====
-- Tests of AgentLoop: the model calls a tool, then answers.
use private_ai_workspace_eks.Prelude.{
  ℕ, String, ◌<>◌, ◌≡◌, refl, false, none, some, [], ◌∷◌, ◌==◌, nat_eq, string_eq, if◌then◌else◌,
}
use private_ai_workspace_eks.Prelude.Dict
use private_ai_workspace_eks.Json.{Json, end, field, pos, str, obj, arr, dict, items}
use private_ai_workspace_eks.RateLimiter.{init}
use private_ai_workspace_eks.RateLimiter.Permits.{init-IsValid}
use private_ai_workspace_eks.AgentLoop.{AgentLoopBudgets, whole}
use private_ai_workspace_eks.AgentLoop.Extract.{kind_of, extract_json_object}
use private_ai_workspace_eks.AgentLoop.Grammar.{
  Body, end as nothing, other, literal, nested, Letter, letter, braced, write, write_letters,
  extract_json_object-braced,
}
use private_ai_workspace_eks.AgentLoop.Loop.{World, Stamps, run_agent_loop}
use private_ai_workspace_eks.AgentLoop.Safety.{IsWithin}
use private_ai_workspace_eks.AgentLoop.Runs.{run_agent_loop-IsWithin}
use private_ai_workspace_eks.AgentLoop.Handler.{State, agent_run_response}
use private_ai_workspace_eks.AgentLoop.Gates.{Outcome, agent_run_response-Outcome}
use private_ai_workspace_eks.Tests.{python, verify, invoke_body, task_body, final_body}
use private_ai_workspace_eks.Tests.Tools.{service, moment}

-- A model's answer with a text.
abbrev says : String → Json
says content = dict (
    ("choices", arr (items (dict (("message", dict (("content", str content) ∷ [])) ∷ []) ∷ [])))
    ∷ [])

abbrev answer : ℕ → String
answer n = if n == 1 then "Let me see: " <> invoke_body else final_body

abbrev world : World
world = record {
  late = λ n. false;
  chat = λ n messages. some (says (answer n));
  moment = λ n. moment;
  truncate = λ f. whole (pos 0);
}

abbrev budgets : AgentLoopBudgets
budgets = record { max_steps = 4; max_tokens = 100; model = "m" }

abbrev stamps : Stamps
stamps = record { run_id = "r"; progress_id = "p"; terminal_id = "t"; started = 1; ended = 2 }

abbrev idle : State
idle = record { limiter = init 5 2; feed = none; run = none }

run_agent_loop-IsWithin_example :
    IsWithin world service
      ("acme.com", "alice")
      4
      (
        (run_agent_loop world service ("acme.com", "alice") budgets stamps "count" none).1,
        (run_agent_loop world service ("acme.com", "alice") budgets stamps "count" none).2,
      )
run_agent_loop-IsWithin_example =
    run_agent_loop-IsWithin world service ("acme.com", "alice") budgets stamps "count" none

agent_run_response-Outcome_example :
    Outcome service (some world) budgets (some "Bearer tok") (some verify) task_body stamps 7 idle (
      agent_run_response service
        (some world)
        budgets
        (some "Bearer tok")
        (some verify)
        task_body
        stamps
        7
        idle)
agent_run_response-Outcome_example =
    agent_run_response-Outcome service (some world) budgets (some "Bearer tok") (some verify)
      task_body stamps 7 idle (init-IsValid 5 2)

-- The text `"}":{}` between braces.
abbrev brace : Letter
unfolding kind_of nat_eq
brace = letter "}" (λ e. cc) (λ e. cc)

abbrev body : Body
unfolding kind_of nat_eq
body = literal (brace ∷ []) (other ":" refl (nested nothing nothing))

extract_json_object-braced_example :
    extract_json_object ("So " <> braced body " and {") ≡ some (field "}" (obj end) end)
unfolding write write_letters kind_of Dict.lookup string_eq nat_eq
extract_json_object-braced_example =
    extract_json_object-braced "So " body " and {" (field "}" (obj end) end)
      ((λ e. cc), ((λ e. cc), ((λ e. cc), tt))) refl
