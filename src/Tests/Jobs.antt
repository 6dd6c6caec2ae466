-- ===== src/Tests/Jobs.antt =====
-- Tests of Dispatcher: the second poll finds a job that has succeeded.
use private_ai_workspace_eks.Prelude.{ℕ, suc, refl, true, some, [], ◌∷◌, string_eq, nat_eq, ltb}
use private_ai_workspace_eks.Prelude.Dict
use private_ai_workspace_eks.Json.{Fields, pos, null, int, bool, dict, fields, get, get_or, truthy}
use private_ai_workspace_eks.Dispatcher.Runner.{
  JobOutcome, Cluster, classify_log, classify_value, step, round, turn, poll, run_tool_job,
}
use private_ai_workspace_eks.Dispatcher.Polling.{
  HasEnded, Deletes, run_tool_job-HasEnded, Succeeds, poll-Succeeds,
}
use private_ai_workspace_eks.Dispatcher.Names.{safe_name}
use private_ai_workspace_eks.Dispatcher.Labels.{IsLabel, safe_name-IsLabel}
use private_ai_workspace_eks.Tests.{python, child_output}

abbrev job : ℕ → Fields
job n = fields (("status", dict (("succeeded", bool (ltb 0 n)) ∷ [])) ∷ [])

abbrev cluster : Cluster
cluster = record {
  create_job = true;
  delete_job = true;
  get_job = λ n. some (job n);
  late = λ n. ltb 8 n;
  log = some child_output;
  pod_exit_code = null;
}

abbrev outcome : JobOutcome
outcome = record { result_class = "success"; result = null; exit_code = int (pos 0) }

run_tool_job-HasEnded_example :
    HasEnded cluster (run_tool_job cluster (suc 9) "Run 1").end_of_run
    × Deletes cluster (run_tool_job cluster (suc 9) "Run 1")
run_tool_job-HasEnded_example = run_tool_job-HasEnded cluster 9 "Run 1" refl

poll-Succeeds_example : Succeeds cluster outcome
unfolding poll turn round step get get_or truthy classify_log classify_value Dict.lookup string_eq
poll-Succeeds_example = poll-Succeeds cluster 3 0 outcome refl refl

safe_name-IsLabel_example : IsLabel (safe_name "-Run 1!")
safe_name-IsLabel_example = safe_name-IsLabel "-Run 1!"
