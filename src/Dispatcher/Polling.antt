-- ===== src/Dispatcher/Polling.antt =====
-- The loop ends by the deadline, the job is asked to be deleted, and how a run can end.
use mathlib.Core.Path.{subst}
use private_ai_workspace_eks.Prelude.{
  ℕ, zero, suc, ◌+◌, String, ◌≡◌, ◌≢◌, ◌⊎◌, refl, Bool, true, false, Option, none, some, [], arith,
  string_eq, if◌then◌else◌, Bool-cases, Option-cases, inl, inr, ap, sym, ◌∙◌,
}
use private_ai_workspace_eks.Prelude.Text.{is_empty}
use private_ai_workspace_eks.Json.{
  Json, Items, nil, cons, Fields, end, Python, obj, get, get_or, truthy, is_text, as_dict,
}
use private_ai_workspace_eks.Dispatcher.Names.{job_name}
use private_ai_workspace_eks.Dispatcher.Runner.{
  JobOutcome, job_error, ended_zero, classify_value, classify_log, Cluster, read_pod_result,
  deadline_exceeded, failed_reason, as_items, failed_outcome, Polled, Run, ended, exhausted, step,
  round, turn, poll, start, run_tool_job,
}

failure-ne-success :
    (unknown : Bool)
    → (if unknown then ended_zero "unknown_tool" else ended_zero "tool_error").result_class
      ≢ "success"
failure-ne-success true = λ e. cc
failure-ne-success false = λ e. cc

module _ ⦃py : Python⦄ (k : Cluster) where
  abbrev pub HasEnded : Polled → Type 0
  HasEnded p = (o : Option JobOutcome) × (p ≡ ended o)

  -- A round ends if the deadline has passed, or if the rest of the loop ends.
  step-HasEnded :
      (succeeded failed late : Bool) (status : Fields) (rest : Polled)
      → (late ≡ true) ⊎ HasEnded rest
      → HasEnded (step k succeeded failed late status rest)
  unfolding step
  step-HasEnded true failed late status rest h = (some (read_pod_result k), refl)
  step-HasEnded false true late status rest h = (failed_outcome k status, refl)
  step-HasEnded false false true status rest h =
      (some (record job_error { result_class = "tool_timeout" }), refl)
  step-HasEnded false false false status rest (inl over) = cc
  step-HasEnded false false false status rest (inr ends) = ends

  round-HasEnded :
      (status : Option Fields) (late : Bool) (rest : Polled)
      → (late ≡ true) ⊎ HasEnded rest
      → HasEnded (round k status late rest)
  unfolding round
  round-HasEnded none late rest h = (none, refl)
  round-HasEnded (some status) late rest h =
      step-HasEnded (truthy (get "succeeded" status)) (truthy (get "failed" status)) late status
        rest h

  turn-HasEnded :
      (job : Option Fields) (late : Bool) (rest : Polled)
      → (late ≡ true) ⊎ HasEnded rest
      → HasEnded (turn k job late rest)
  unfolding turn
  turn-HasEnded none late rest h = (some job_error, refl)
  turn-HasEnded (some job) late rest h =
      round-HasEnded (as_dict (get_or "status" (obj end) job)) late rest h

  poll-HasEnded : (fuel n : ℕ) → k.late (fuel + n) ≡ true → HasEnded (poll k (suc fuel) n)
  unfolding poll
  poll-HasEnded zero n h =
      turn-HasEnded (k.get_job n) (k.late n) exhausted
        (inl (ap k.late {x = n} {y = 0 + n} (omega arith) ∙ h))
  poll-HasEnded (suc fuel) n h =
      let later : k.late (fuel + suc n) ≡ true =
        ap k.late {x = fuel + suc n} {y = suc fuel + n} (omega arith) ∙ h in
      turn-HasEnded (k.get_job n) (k.late n) (poll k (suc fuel) (suc n))
        (inr (poll-HasEnded fuel (suc n) later))

  -- Each job that was created was asked to be deleted, and was deleted if the cluster did so.
  abbrev pub Deletes : Run → Type 0
  Deletes r = (r.delete_asked ≡ r.created) × (r.deleted ≡ (if k.delete_job then r.created else []))

  start-HasEnded :
      (name : String) (made : Bool) (loop : Polled)
      → HasEnded loop
      → HasEnded (start k name made loop).end_of_run × Deletes (start k name made loop)
  unfolding start
  start-HasEnded name true loop h = (h, (refl, refl))
  start-HasEnded name false loop h = ((some job_error, refl), (refl, ground arith))

  -- If the deadline has passed at some poll, a run with fuel for the polls up to it ends, whatever
  -- the cluster answers. It has asked to delete exactly the jobs that it created, once each, and
  -- those are deleted if the cluster carries that out; if that fails, none is, and the run ends.
  pub run_tool_job-HasEnded :
      (n : ℕ) (run_id : String)
      → k.late n ≡ true
      → HasEnded (run_tool_job k (suc n) run_id).end_of_run
        × Deletes (run_tool_job k (suc n) run_id)
  unfolding run_tool_job
  run_tool_job-HasEnded n run_id h =
      start-HasEnded (job_name run_id) k.create_job (poll k (suc n) 0)
        (poll-HasEnded n 0 (ap k.late {x = n + 0} {y = n} (omega arith) ∙ h))

  -- The log of the job's pod is a JSON object whose `ok` is true, and its `result` is returned.
  abbrev pub Succeeds : JobOutcome → Type 0
  Succeeds o =
      (log : String) × (d : Fields) × (k.log ≡ some log)
      × (py.loads (if is_empty log then "{}" else log) ≡ some (obj d))
      × (truthy (get "ok" d) ≡ true)
      × (o.result ≡ get "result" d)

  classify_value-success :
      (v : Option Json)
      → (classify_value v).result_class ≡ "success"
      → (d : Fields) × (v ≡ some (obj d))
        × (truthy (get "ok" d) ≡ true)
        × ((classify_value v).result ≡ get "result" d)
  unfolding classify_value
  classify_value-success (some (obj d)) h = elim (Bool-cases (truthy (get "ok" d))) [
    | inl yes_ok ↦ (d, refl, yes_ok, rw (yes_ok, classify_value) refl)
    | inr not_ok ↦ absurd (
        failure-ne-success (is_text "unknown_tool" (get "error" d))
          (rw (not_ok, classify_value) at h))
  ]
  classify_value-success none h = cc
  classify_value-success (some v) h = cc

  read_pod_result-Succeeds :
      (read_pod_result k).result_class ≡ "success" → Succeeds (read_pod_result k)
  unfolding classify_log
  read_pod_result-Succeeds h = elim (Option-cases k.log) [
    | inl lost ↦ let e : read_pod_result k ≡ job_error = rw lost refl in cc
    | inr (log, found) ↦
        let v = py.loads (if is_empty log then "{}" else log) in
        let e : read_pod_result k ≡ classify_value v = rw found refl in
        let (d, value, is_ok, result) =
          classify_value-success v (ap JobOutcome.result_class (sym e) ∙ h) in
        (log, d, found, value, is_ok, ap JobOutcome.result e ∙ result)
  ]

  failed_reason-fails :
      (l : Items) (reason : String) → failed_reason l ≡ some reason → reason ≢ "success"
  unfolding failed_reason
  failed_reason-fails nil reason h s = cc
  failed_reason-fails (cons (obj d) r) reason h s = elim (Bool-cases (deadline_exceeded d)) [
    | inl over ↦ let e : failed_reason (cons (obj d) r) ≡ some "tool_timeout" = rw over refl in cc
    | inr other ↦
        let e : failed_reason (cons (obj d) r) ≡ failed_reason r = rw other refl in
        failed_reason-fails r reason (sym e ∙ h) s
  ]
  failed_reason-fails (cons v r) reason h s = cc

  failed_outcome-fails :
      (status : Fields) (o : JobOutcome)
      → failed_outcome k status ≡ some o
      → o.result_class ≢ "success"
  unfolding failed_outcome
  failed_outcome-fails status o h s = elim (Option-cases (as_items (get "conditions" status))) [
    | inl bad ↦ let e : failed_outcome k status ≡ none = rw (bad, failed_outcome) refl in cc
    | inr (l, given) ↦ elim (Option-cases (failed_reason l)) [
      | inl bad ↦
          let e : failed_outcome k status ≡ none = rw (given, bad, failed_outcome) refl in cc
      | inr (reason, found) ↦
          let e : failed_outcome k status
              ≡ some (record job_error { result_class = reason; exit_code = k.pod_exit_code }) =
            rw (given, found, failed_outcome) refl in
          let fails = failed_reason-fails l reason found in
          let same : reason ≡ o.result_class = cc in fails (same ∙ s)
    ]
  ]

  step-Succeeds :
      (succeeded failed late : Bool) (status : Fields) (rest : Polled) (o : JobOutcome)
      → (rest ≡ ended (some o) → Succeeds o)
      → step k succeeded failed late status rest ≡ ended (some o)
      → o.result_class ≡ "success"
      → Succeeds o
  unfolding step
  step-Succeeds true failed late status rest o ih h s =
      let same : read_pod_result k ≡ o = cc in
      subst Succeeds same (read_pod_result-Succeeds (ap JobOutcome.result_class same ∙ s))
  step-Succeeds false true late status rest o ih h s =
      let same : failed_outcome k status ≡ some o = cc in
      absurd (failed_outcome-fails status o same s)
  step-Succeeds false false true status rest o ih h s = cc
  step-Succeeds false false false status rest o ih h s = ih h

  round-Succeeds :
      (status : Option Fields) (late : Bool) (rest : Polled) (o : JobOutcome)
      → (rest ≡ ended (some o) → Succeeds o)
      → round k status late rest ≡ ended (some o)
      → o.result_class ≡ "success"
      → Succeeds o
  unfolding round
  round-Succeeds none late rest o ih h s = cc
  round-Succeeds (some status) late rest o ih h s =
      step-Succeeds (truthy (get "succeeded" status)) (truthy (get "failed" status)) late status
        rest o ih h s

  turn-Succeeds :
      (job : Option Fields) (late : Bool) (rest : Polled) (o : JobOutcome)
      → (rest ≡ ended (some o) → Succeeds o)
      → turn k job late rest ≡ ended (some o)
      → o.result_class ≡ "success"
      → Succeeds o
  unfolding turn
  turn-Succeeds none late rest o ih h s = cc
  turn-Succeeds (some job) late rest o ih h s =
      round-Succeeds (as_dict (get_or "status" (obj end) job)) late rest o ih h s

  -- A run that ends as a success, whatever the fuel, has read a log that is a JSON object whose `ok`
  -- is true, and returns its `result`.
  pub poll-Succeeds :
      (fuel n : ℕ) (o : JobOutcome)
      → poll k fuel n ≡ ended (some o)
      → o.result_class ≡ "success"
      → Succeeds o
  unfolding poll
  poll-Succeeds zero n o h s = cc
  poll-Succeeds (suc fuel) n o h s =
      turn-Succeeds (k.get_job n) (k.late n) (poll k fuel (suc n)) o
        (λ ends. poll-Succeeds fuel (suc n) o ends s) h s
