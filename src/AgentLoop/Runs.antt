-- ===== src/AgentLoop/Runs.antt =====
-- Whole runs of the agent loop: what they run, how long they go on, and the events they leave.
use mathlib.Core.Path.{subst}
use private_ai_workspace_eks.Prelude.{
  ℕ, zero, suc, ◌+◌, ◌≤◌, String, ◌≡◌, refl, inl, inr, Option, none, some, arith, string_eq,
  Bool-cases, Option-cases,
}
use private_ai_workspace_eks.Notifications.Emit.{Feed}
use private_ai_workspace_eks.Json.{Json, Fields, Python, is_text, get}
use private_ai_workspace_eks.AgentTools.Invoke.{Service}
use private_ai_workspace_eks.AgentLoop.{AgentLoopBudgets, content_of, tokens_of}
use private_ai_workspace_eks.AgentLoop.Extract.{parse_action}
use private_ai_workspace_eks.AgentLoop.Loop.{
  World, RunState, Turn, proceed, finish, initial, act, answered, hear, ask, used_up, loop, opening,
  run_agent_loop, Stamps,
}
use private_ai_workspace_eks.AgentLoop.Safety.{IsSafe, IsWithin, advance, hear-Adds}

-- The steps that the outcome of a turn tells.
abbrev TellsAtMost : ℕ → Turn → Type 0
TellsAtMost n (proceed s) = Unit
TellsAtMost n (finish s o) = o.steps ≤ n

module _ ⦃py : Python⦄ (world : World) (service : Service) (who : String × String) where
  act-TellsAtMost :
      (n : ℕ) (action : Option Fields) (s : RunState)
      → TellsAtMost n (act world service who n action s)
  unfolding act
  act-TellsAtMost n none s = tt
  act-TellsAtMost n (some d) s = elim (Bool-cases (is_text "final" (get "action" d))) [
    | inl final ↦ rw final (omega arith)
    | inr other ↦ elim (Bool-cases (is_text "call_tool" (get "action" d))) [
      | inl called ↦ rw (other, called) tt
      | inr unknown ↦ rw (other, unknown) tt
    ]
  ]

  abbrev AllTellAtMost : ℕ → Option Turn → Type 0
  AllTellAtMost n none = Unit
  AllTellAtMost n (some t) = TellsAtMost n t

  hear-TellsAtMost :
      (done : ℕ) (response : Option Json) (s : RunState)
      → AllTellAtMost (suc done) (hear world service who done response s)
  unfolding hear answered
  hear-TellsAtMost done none s = omega arith
  hear-TellsAtMost done (some response) s =
      elim (Option-cases (tokens_of world.truncate response)) [
        | inl h ↦ rw (h, answered) tt
        | inr (tokens, h) ↦
            rw (h, answered) (act-TellsAtMost (suc done) (parse_action (content_of response)) _)
      ]

  next-IsWithin :
      (budgets : AgentLoopBudgets) (left done : ℕ) (s : RunState)
      → IsSafe service who.0 s
      → s.asked ≤ done
      → ((s' : RunState)
          → IsSafe service who.0 s'
          → s'.asked ≤ suc done
          → IsWithin world service who
              (left + suc done)
              (loop world service who budgets left (suc done) s'))
      → (used_up world service who budgets done s ≡ none)
      → (r : Option Turn) → ask world service who done s ≡ r
      → AllTellAtMost (suc done) r
      → IsWithin world service who
          (left + suc done)
          (loop world service who budgets (suc left) done s)
  unfolding loop
  next-IsWithin budgets left done s safe asked rest h none e told =
      rw (h, e, loop)
        (record {
          safe = record {
            runs = safe.runs;
            logged = safe.logged;
            audited = safe.audited;
            bounded = omega (arith, safe.bounded);
          };
          asked = omega arith;
          steps = omega arith;
        })
  next-IsWithin budgets left done s safe asked rest h (some (finish s' o)) e told =
      let added = hear-Adds world service who done _ _ (finish s' o) (unfold ask in e) in
      rw (h, e, loop)
        (record {
          safe = advance world service who s s' safe added;
          asked = omega (arith, added.0);
          steps = omega (arith, told);
        })
  next-IsWithin budgets left done s safe asked rest h (some (proceed s')) e told =
      let added = hear-Adds world service who done _ _ (proceed s') (unfold ask in e) in
      rw (h, e, loop) (rest s' (advance world service who s s' safe added) (omega (arith, added.0)))

  asked_none-AllTellAtMost :
      (done : ℕ) (s : RunState) → AllTellAtMost (suc done) (ask world service who done s)
  unfolding ask
  asked_none-AllTellAtMost done s = hear-TellsAtMost done (world.chat (suc done) s.messages) _

  loop-IsWithin :
      (budgets : AgentLoopBudgets) (left done : ℕ) (s : RunState)
      → IsSafe service who.0 s
      → s.asked ≤ done
      → IsWithin world service who (left + done) (loop world service who budgets left done s)
  unfolding loop
  loop-IsWithin budgets zero done s safe asked = record {
    safe = safe;
    asked = omega arith;
    steps = omega arith;
  }
  loop-IsWithin budgets (suc left) done s safe asked =
      elim (Option-cases (used_up world service who budgets done s)) [
        | inr (detail, h) ↦
            rw (h, loop) (record { safe = safe; asked = omega arith; steps = omega arith })
        | inl h ↦
            subst
              (λ n. IsWithin world service who n (loop world service who budgets (suc left) done s))
              (omega arith)
              (next-IsWithin budgets left done s safe asked (loop-IsWithin budgets left (suc done))
                h (ask world service who done s) refl (asked_none-AllTellAtMost done s))
      ]

  -- Whatever the model answers and the tools return, at most `max_steps` requests are made to the
  -- model and the outcome counts at most so many steps. Each tool that ran is registered and on the
  -- tenant's allow-list, and the service can run it, which for a job tool takes a dispatcher. No
  -- more tools run than requests were made. An entry of the audit log is `denied` or of a tool that
  -- is registered and on the tenant's allow-list, and the entries marked as allowed, but for those
  -- of job tools without a dispatcher, name exactly the tools that ran, in order.
  pub run_agent_loop-IsWithin :
      (budgets : AgentLoopBudgets) (stamps : Stamps) (task : String) (feed : Feed)
      → let result = run_agent_loop world service who budgets stamps task feed in
        IsWithin world service who budgets.max_steps (result.1, result.2)
  unfolding run_agent_loop
  run_agent_loop-IsWithin budgets stamps task feed =
      subst
        (λ n. IsWithin world service who n (
          loop world service who budgets budgets.max_steps 0
            (initial (opening world service who budgets task))))
        (omega arith)
        (loop-IsWithin budgets budgets.max_steps 0
          (initial (opening world service who budgets task))
          (record { runs = tt; logged = tt; audited = refl; bounded = omega arith }) (omega arith))
