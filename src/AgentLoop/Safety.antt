-- ===== src/AgentLoop/Safety.antt =====
-- What a run of the agent loop may do, whatever the model answers.
use mathlib.Core.Path.{subst}
use mathlib.Core.List.{append-nil}
use private_ai_workspace_eks.Prelude.{
  ℕ, suc, ◌≤◌, String, ◌≡◌, refl, ap, sym, ◌∙◌, ◌⊎◌, inl, inr, true, Option, none, some, List, [],
  ◌∷◌, ◌++◌, arith, ◌==◌, ◌&&◌, string_eq, if◌then◌else◌, is_some, length, All, All-append,
  length-append, Bool-cases, Option-cases,
}
use private_ai_workspace_eks.Prelude.Dict
use private_ai_workspace_eks.Json.{
  Json, ℤ, Fields, Python, null, bool, int, float, str, arr, obj, get, get_or, is_text,
}
use private_ai_workspace_eks.SandboxTools.{tools}
use private_ai_workspace_eks.AgentTools.{is_allowed, AuditEntry, audit}
use private_ai_workspace_eks.AgentTools.Invoke.{Service, Run, has_backend, started}
use private_ai_workspace_eks.AgentLoop.{AgentRunOutcome, content_of}
use private_ai_workspace_eks.AgentLoop.Extract.{parse_action}
use private_ai_workspace_eks.AgentLoop.Loop.{
  World, RunState, Turn, proceed, finish, permitted, initial, use_tool, call_tool, act, answered,
  hear,
}

-- The tools that the audit log says were allowed and that the service can run, in order.
abbrev pub used : Service → List AuditEntry → List String
used service [] = []
used service (a ∷ l) =
    let rest = used service l in
    if a.decision == "allowed" && has_backend service a.tool then a.tool ∷ rest else rest

used-append :
    (service : Service) (l r : List AuditEntry)
    → used service (l ++ r) ≡ used service l ++ used service r
used-append service [] r = refl
used-append service (a ∷ l) r = ground (arith, used-append service l r)

abbrev pub tools_of : List Run → List String
tools_of [] = []
tools_of (r ∷ l) = r.tool ∷ tools_of l

tools_of-append : (l m : List Run) → tools_of (l ++ m) ≡ tools_of l ++ tools_of m
tools_of-append [] m = refl
tools_of-append (r ∷ l) m = rw (tools_of-append l m)

-- A tool on the tenant's allow-list that is registered and that the service can run.
abbrev pub IsPermitted : Service → String → Run → Type 0
IsPermitted service tenant r =
    (is_allowed service.allowlist tenant r.tool ≡ true)
    × (is_some (Dict.lookup r.tool tools) ≡ true)
    × (has_backend service r.tool ≡ true)

-- The log says that a call was denied, or it is one of a tool that is on the tenant's allow-list and
-- registered.
abbrev pub IsLogged : Service → String → AuditEntry → Type 0
IsLogged service tenant a =
    (a.decision ≡ "denied")
    ⊎ ((is_allowed service.allowlist tenant a.tool ≡ true)
        × (is_some (Dict.lookup a.tool tools) ≡ true))

-- Every entry of the log that is not `denied` is of a permitted tool, every tool that ran was
-- permitted, the tools that ran are those that the log names as allowed and that the service can
-- run, and no more tools ran than the model was asked.
pub record IsSafe (service : Service) (tenant : String) (s : RunState) : Type 0 where
  pub runs : All (IsPermitted service tenant) s.runs
  pub logged : All (IsLogged service tenant) s.audits
  pub audited : used service s.audits ≡ tools_of s.runs
  pub bounded : length s.runs ≤ s.asked

-- The entries that a turn adds to the log.
abbrev pub Logs : Service → String → RunState → RunState → Type 0
Logs service tenant s s' =
    (entries : List AuditEntry) × (s'.audits ≡ s.audits ++ entries)
    × All (IsLogged service tenant) entries

-- What a turn adds: entries in the log, and no run, or one of a permitted tool.
abbrev pub Adds : Service → String → RunState → RunState → Type 0
Adds service tenant s s' =
    (s'.asked ≡ s.asked)
    × Logs service tenant s s'
    × (((s'.runs ≡ s.runs) × (used service s'.audits ≡ used service s.audits))
        ⊎ ((r : Run) × IsPermitted service tenant r
            × (s'.runs ≡ s.runs ++ (r ∷ []))
            × (used service s'.audits ≡ used service s.audits ++ (r.tool ∷ []))))

permitted_sound :
    (service : Service) (tenant : String) (v : Json) (tool : String)
    → permitted service tenant v ≡ some tool
    → (is_allowed service.allowlist tenant tool ≡ true) × (is_some (Dict.lookup tool tools) ≡ true)
permitted_sound service tenant (str t) tool h = (ground arith, ground arith)
permitted_sound service tenant null tool h = absurd cc
permitted_sound service tenant (bool b) tool h = absurd cc
permitted_sound service tenant (int n) tool h = absurd cc
permitted_sound service tenant (float f) tool h = absurd cc
permitted_sound service tenant (arr l) tool h = absurd cc
permitted_sound service tenant (obj d) tool h = absurd cc

module _ ⦃py : Python⦄ (world : World) (service : Service) (who : String × String) where
  use_tool-Adds :
      (n : ℕ) (tool : String) (arguments : Json) (s : RunState)
      → (is_allowed service.allowlist who.0 tool ≡ true)
      → (is_some (Dict.lookup tool tools) ≡ true)
      → Adds service who.0 s (use_tool world service who n tool arguments s)
  unfolding use_tool audit string_eq started
  use_tool-Adds n tool (obj d) s h k = elim (Bool-cases (has_backend service tool)) [
    | inl able ↦ rw able (
      refl,
      (_, refl, (inr (h, k), tt)),
      inr (_, (h, k, able), refl, used-append service s.audits _ ∙ rw able refl),
    )
    | inr unable ↦ rw unable (
      refl,
      (_, refl, (inr (h, k), tt)),
      inl (
        append-nil s.runs,
        used-append service s.audits _ ∙ rw unable (append-nil (used service s.audits)),
      ),
    )
  ]
  use_tool-Adds n tool null s h k = (refl, ([], sym (append-nil s.audits), tt), inl (refl, refl))
  use_tool-Adds n tool (bool b) s h k =
      (refl, ([], sym (append-nil s.audits), tt), inl (refl, refl))
  use_tool-Adds n tool (int i) s h k = (refl, ([], sym (append-nil s.audits), tt), inl (refl, refl))
  use_tool-Adds n tool (float f) s h k =
      (refl, ([], sym (append-nil s.audits), tt), inl (refl, refl))
  use_tool-Adds n tool (str t) s h k = (refl, ([], sym (append-nil s.audits), tt), inl (refl, refl))
  use_tool-Adds n tool (arr l) s h k = (refl, ([], sym (append-nil s.audits), tt), inl (refl, refl))

  denied-Adds :
      (n : ℕ) (tool arguments : Json) (s : RunState)
      → permitted service who.0 tool ≡ none
      → Adds service who.0 s (call_tool world service who n tool arguments s)
  unfolding call_tool audit string_eq
  denied-Adds n tool arguments s h =
      rw (h, call_tool)
        (
          refl,
          (_, refl, (inl refl, tt)),
          inl (refl, used-append service s.audits _ ∙ append-nil (used service s.audits)),
        )

  call_tool-Adds :
      (n : ℕ) (tool arguments : Json) (s : RunState)
      → Adds service who.0 s (call_tool world service who n tool arguments s)
  unfolding call_tool
  call_tool-Adds n tool arguments s = elim (Option-cases (permitted service who.0 tool)) [
    | inl h ↦ denied-Adds n tool arguments s h
    | inr (name, h) ↦
        let e : call_tool world service who n tool arguments s
            ≡ use_tool world service who n name arguments s =
          rw (h, call_tool) refl in
        rw e (
          use_tool-Adds n name arguments s (permitted_sound service who.0 tool name h).0
            (permitted_sound service who.0 tool name h).1)
  ]

  -- The state behind a turn.
  abbrev pub state_of : Turn → RunState
  state_of (proceed s) = s
  state_of (finish s o) = s

  act-Adds :
      (n : ℕ) (action : Option Fields) (s : RunState)
      → Adds service who.0 s (state_of (act world service who n action s))
  unfolding act
  act-Adds n none s = (refl, ([], sym (append-nil s.audits), tt), inl (refl, refl))
  act-Adds n (some d) s = elim (Bool-cases (is_text "final" (get "action" d))) [
    | inl final ↦ rw final (refl, ([], sym (append-nil s.audits), tt), inl (refl, refl))
    | inr other ↦ elim (Bool-cases (is_text "call_tool" (get "action" d))) [
      | inl called ↦
          rw (other, called)
            (call_tool-Adds n (get "tool" d) (get_or "arguments" (obj Fields.end) d) s)
      | inr unknown ↦
          rw (other, unknown) (refl, ([], sym (append-nil s.audits), tt), inl (refl, refl))
    ]
  ]

  abbrev state_after : Option Turn → RunState
  state_after (some t) = state_of t
  state_after none = initial []

  answered-Adds :
      (n : ℕ) (response : Json) (tokens : Option ℤ) (s : RunState) (t : Turn)
      → answered world service who n response tokens s ≡ some t
      → Adds service who.0 s (state_of t)
  unfolding answered
  answered-Adds n response none s t h = absurd cc
  answered-Adds n response (some tokens) s t h =
      subst (λ o. Adds service who.0 s (state_after o)) h
        (act-Adds n (parse_action (content_of response)) _)

  pub hear-Adds :
      (done : ℕ) (response : Option Json) (s : RunState) (t : Turn)
      → hear world service who done response s ≡ some t
      → Adds service who.0 s (state_of t)
  unfolding hear
  hear-Adds done none s t h =
      subst (λ o. Adds service who.0 s (state_after o)) h
        (refl, ([], sym (append-nil s.audits), tt), inl (refl, refl))
  hear-Adds done (some response) s t h = answered-Adds (suc done) response _ s t h

  IsLogged-append :
      (s s' : RunState)
      → All (IsLogged service who.0) s.audits
      → Logs service who.0 s s'
      → All (IsLogged service who.0) s'.audits
  IsLogged-append s s' safe (entries, grown, logged) =
      subst (All (IsLogged service who.0)) (sym grown)
        (All-append (IsLogged service who.0) s.audits entries safe logged)

  -- The next state is safe if it adds at most one permitted run, and one request was made.
  pub advance :
      (s s' : RunState)
      → IsSafe service who.0 s
      → Adds service who.0 (record s { asked = suc s.asked }) s'
      → IsSafe service who.0 s'
  advance s s' safe (asked, logs, inl (runs, audits)) = record {
    runs = subst (All (IsPermitted service who.0)) (sym runs) safe.runs;
    logged = IsLogged-append s s' safe.logged logs;
    audited = audits ∙ safe.audited ∙ ap tools_of (sym runs);
    bounded = omega (arith, safe.bounded, asked, ap length runs);
  }
  advance s s' safe (asked, logs, inr (r, allowed, runs, audits)) = record {
    runs =
        subst (All (IsPermitted service who.0)) (sym runs)
          (All-append (IsPermitted service who.0) s.runs (r ∷ []) safe.runs (allowed, tt));
    logged = IsLogged-append s s' safe.logged logs;
    audited =
        audits
        ∙ ap (λ l. l ++ (r.tool ∷ [])) safe.audited
        ∙ sym (tools_of-append s.runs (r ∷ []))
        ∙ ap tools_of (sym runs);
    bounded = omega (arith, safe.bounded, asked, ap length runs, length-append s.runs (r ∷ []));
  }

  abbrev pub steps_of : Option AgentRunOutcome → ℕ
  steps_of none = 0
  steps_of (some o) = o.steps

  -- A run behind `n` steps: safe, with at most `n` requests, and an outcome of at most `n` steps.
  pub record IsWithin (n : ℕ) (result : RunState × Option AgentRunOutcome) : Type 0 where
    pub safe : IsSafe service who.0 result.0
    pub asked : result.0.asked ≤ n
    pub steps : steps_of result.1 ≤ n
