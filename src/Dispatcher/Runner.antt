-- ===== src/Dispatcher/Runner.antt =====
-- app/dispatcher/jobrunner.py: the run of one job. How the cluster and the clock answer at each
-- poll is a parameter, `Cluster`.
use private_ai_workspace_eks.Prelude.{
  ℕ, zero, suc, String, Bool, true, false, Option, none, some, List, [], ◌∷◌, ◌++◌, ◌&&◌,
  if◌then◌else◌, string_eq,
}
use private_ai_workspace_eks.Prelude.Text.{is_empty}
use private_ai_workspace_eks.Json.{
  Json, pos, Items, nil, cons, Fields, end, Python, null, int, arr, obj, get, get_or, truthy,
  is_text, as_dict,
}
use private_ai_workspace_eks.Dispatcher.Names.{job_name}

pub record JobOutcome : Type 0 where
  pub result_class : String
  pub result : Json
  pub exit_code : Json

abbrev pub job_error : JobOutcome
job_error = record { result_class = "tool_error"; result = null; exit_code = null }

abbrev pub ended_zero : String → JobOutcome
ended_zero c = record job_error { result_class = c; exit_code = int (pos 0) }

-- `_classify_log`, behind the JSON parser
unfoldable pub classify_value : Option Json → JobOutcome
classify_value (some (obj d)) =
    if truthy (get "ok" d)
    then record { result_class = "success"; result = get "result" d; exit_code = int (pos 0) }
    else if is_text "unknown_tool" (get "error" d)
    then ended_zero "unknown_tool"
    else ended_zero "tool_error"
classify_value _ = ended_zero "tool_error"

unfoldable pub classify_log : ⦃py : Python⦄ → String → JobOutcome
unfolding classify_value
classify_log ⦃py⦄ log = classify_value (py.loads (if is_empty log then "{}" else log))

-- The answers of the cluster: `none` is a `K8sError`. At poll `n` the job reads `get_job n`, and
-- `late n` is the test of the deadline. `log` and `exit_code` are what the lists of pods lead to.
pub record Cluster : Type 0 where
  pub create_job : Bool
  pub delete_job : Bool
  pub get_job : ℕ → Option Fields
  pub late : ℕ → Bool
  pub log : Option String
  pub pod_exit_code : Json

-- `_read_pod_result`
abbrev pub read_pod_result : ⦃py : Python⦄ → Cluster → JobOutcome
read_pod_result k = elim k.log [ none ↦ job_error | some log ↦ classify_log log ]

abbrev pub deadline_exceeded : Fields → Bool
deadline_exceeded d = is_text "Failed" (get "type" d) && is_text "DeadlineExceeded" (get "reason" d)

-- The loop of `_job_failed_reason`; a condition that is no dict raises.
unfoldable pub failed_reason : Items → Option String
failed_reason nil = some "tool_error"
failed_reason (cons (obj d) r) =
    let rest = failed_reason r in if deadline_exceeded d then some "tool_timeout" else rest
failed_reason (cons v r) = none

abbrev pub as_items : Json → Option Items
as_items (arr l) = some l
as_items (obj end) = some nil
as_items v = if truthy v then none else some nil

unfoldable pub failed_outcome : Cluster → Fields → Option JobOutcome
failed_outcome k status = elim (as_items (get "conditions" status)) [
  | none ↦ none
  | some conditions ↦ elim (failed_reason conditions) [
    | none ↦ none
    | some reason ↦ some (record job_error { result_class = reason; exit_code = k.pod_exit_code })
  ]
]

-- The end of the loop, with its value unless it raises; or the fuel has run out.
pub data Polled : Type 0 where
  ended : Option JobOutcome → Polled
  exhausted : Polled

-- What a run does: the jobs that it creates, those that it asks to delete, those that are deleted,
-- and how it ends.
pub record Run : Type 0 where
  pub created : List String
  pub delete_asked : List String
  pub deleted : List String
  pub end_of_run : Polled

-- The `finally` block: a `K8sError` of the deletion changes nothing.
abbrev delete : Cluster → String → Run → Run
delete k name r = record r {
  delete_asked = r.delete_asked ++ (name ∷ []);
  deleted = if k.delete_job then r.deleted ++ (name ∷ []) else r.deleted;
}

-- Whether the job is created, then the loop and the `finally` block.
unfoldable pub start : Cluster → String → Bool → Polled → Run
start k name true loop =
    delete k name
      (record { created = name ∷ []; delete_asked = []; deleted = []; end_of_run = loop })
start k name false loop = record {
  created = [];
  delete_asked = [];
  deleted = [];
  end_of_run = ended (some job_error);
}

module _ ⦃py : Python⦄ (k : Cluster) where
  -- The tests of one round, in their order: succeeded, failed, past the deadline.
  unfoldable pub step : Bool → Bool → Bool → Fields → Polled → Polled
  step true failed late status rest = ended (some (read_pod_result k))
  step false true late status rest = ended (failed_outcome k status)
  step false false true status rest =
      ended (some (record job_error { result_class = "tool_timeout" }))
  step false false false status rest = rest

  -- One round of the loop on a job's status, with the rest of the loop. A status that is no dict
  -- raises.
  unfoldable pub round : Option Fields → Bool → Polled → Polled
  unfolding step
  round none late rest = ended none
  round (some status) late rest =
      step (truthy (get "succeeded" status)) (truthy (get "failed" status)) late status rest

  -- The same from the answer of `get_job`.
  unfoldable pub turn : Option Fields → Bool → Polled → Polled
  unfolding round
  turn none late rest = ended (some job_error)
  turn (some job) late rest = round (as_dict (get_or "status" (obj end) job)) late rest

  unfoldable pub poll : ℕ → ℕ → Polled
  unfolding turn
  poll zero n = exhausted
  poll (suc fuel) n = turn (k.get_job n) (k.late n) (poll fuel (suc n))

  -- `run_tool_job`
  unfoldable pub run_tool_job : ℕ → String → Run
  unfolding start
  run_tool_job fuel run_id = start k (job_name run_id) k.create_job (poll fuel 0)
