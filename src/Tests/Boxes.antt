-- ===== src/Tests/Boxes.antt =====
-- Tests of SandboxRunner and JobExecutor, with JSON texts that tell the values apart.
use private_ai_workspace_eks.Prelude.{
  String, ◌≡◌, refl, Option, none, some, ◌==◌, string_eq, nat_eq, if◌then◌else◌,
}
use private_ai_workspace_eks.Prelude.Dict
use private_ai_workspace_eks.Prelude.Dict.{Dict}
use private_ai_workspace_eks.Prelude.Text.{is_space, len}
use private_ai_workspace_eks.Json.{Json, Python, Fields, pos, obj, has, get}
use private_ai_workspace_eks.SandboxTools.{tools, text_stats, words, newlines}
use private_ai_workspace_eks.AgentTools.{Process, exited}
use private_ai_workspace_eks.AgentTools
use private_ai_workspace_eks.SandboxRunner.{main, run_spec}
use private_ai_workspace_eks.SandboxRunner.RoundTrip.{expected, execute-main}
use private_ai_workspace_eks.SandboxRunner.RoundTrip
use private_ai_workspace_eks.Dispatcher.Runner.{JobOutcome, classify_log, classify_value}
use private_ai_workspace_eks.Dispatcher.Server.{Job, is_job_tool}
use private_ai_workspace_eks.JobExecutor.{DispatcherJobExecutor, request, execute}
use private_ai_workspace_eks.JobExecutor.RoundTrip.{answer, served, execute_agrees}
use private_ai_workspace_eks.Tests.{arguments}

abbrev reply : Json
reply = run_spec (Dict.lookup "text_stats_job" tools) (obj arguments)

-- The kinds of values that are sent, each with one text.
abbrev text_of : Fields → String
text_of d =
    if has "ok" d
    then "reply"
    else if has "run_id" d
    then "request"
    else if has "result_class" d
    then "answer"
    else "payload"

abbrev print : Json → String
print (obj d) = text_of d
print v = "null"

abbrev read : JobOutcome → String → Option Json
read o s =
    if s == "reply"
    then some reply
    else if s == "request"
    then some (request "acme.com" "run" "text_stats_job" arguments)
    else if s == "answer"
    then some (answer o)
    else if s == "payload"
    then some (RoundTrip.request "text_stats_job" arguments)
    else none

abbrev printer : Python
printer = record {
  lower = λ s. "bearer";
  loads = read (classify_value (some reply));
  dumps = print;
  pretty = print;
  display = λ v. "";
  isoformat = λ t. "";
}

execute-main_example :
    AgentTools.execute ⦃py = printer⦄ (main ⦃py = printer⦄) "text_stats_job" arguments
    ≡ expected (Dict.lookup "text_stats_job" tools) arguments
unfolding has string_eq Dict.lookup tools run_spec text_stats get len words newlines is_space nat_eq
execute-main_example =
    execute-main ⦃py = printer⦄ "text_stats_job" arguments
      (record { nonempty = refl; exact = refl }) (record { nonempty = refl; exact = refl })

abbrev client : DispatcherJobExecutor
client = record { base_url = "http://d"; token = "tok" }

abbrev launch : String → Process
launch payload = exited (pos 0) "reply"

abbrev runner : Job → Option JobOutcome
runner j = some (classify_log ⦃py = printer⦄ "reply")

execute_agrees_example :
    execute ⦃py = printer⦄
      (served ⦃py = printer⦄ "tok" runner)
      client
      "text_stats_job"
      arguments
      "acme.com"
      "run"
    ≡ AgentTools.execute ⦃py = printer⦄ launch "text_stats_job" arguments
unfolding has string_eq Dict.lookup tools run_spec is_space is_job_tool classify_log classify_value
    nat_eq
execute_agrees_example =
    execute_agrees ⦃py = printer⦄ client runner launch "acme.com" "run" "text_stats_job" arguments
      "reply"
      (record {
        base = refl;
        nonempty = refl;
        word = (refl, (refl, (refl, tt)));
        ascii = refl;
        lower = refl;
      })
      (record { tenant = refl; run = refl; named = refl; job = refl })
      (record { nonempty = refl; exact = refl }) refl refl
      (record { nonempty = refl; exact = refl })
