-- ===== src/DeepResearch/Handler.antt =====
-- `run_deep_research` and `build_deep_research_response` of deep_research.py.
use private_ai_workspace_eks.Prelude.{
  ℕ, String, Bool, Option, none, some, List, [], ◌∷◌, ◌++◌, leb, length, map, string_eq,
  if◌then◌else◌, ◌==◌,
}
use private_ai_workspace_eks.Prelude.Text.{is_empty, strip, utf8_len}
use private_ai_workspace_eks.Json.{
  Json, pos, Python, str, int, arr, items, get, opt_str, truthy, fields,
}
use private_ai_workspace_eks.Http.{
  Response, ok, bad_request, forbidden, payload_too_large, too_many_requests, bad_gateway,
  unavailable, respond, error, error_detail, degraded, Result, pass, fail, require, not_json,
  read_object, or_fail, ◌>>=◌, ◌>>◌,
}
use private_ai_workspace_eks.Auth.{TokenClaims, TokenVerifier, verify_and_extract, owner_of}
use private_ai_workspace_eks.RateLimiter.{RateLimiter, try_acquire, release}
use private_ai_workspace_eks.Notifications.Emit.{Feed, emit, event}
use private_ai_workspace_eks.AgentTools.{Allowlist, is_allowed, AuditEntry, audit}
use private_ai_workspace_eks.AgentLoop.Loop.{Stamps}
use private_ai_workspace_eks.Embeddings.{Floats, EmbeddingClient}
use private_ai_workspace_eks.Retrieval.{Store}
use private_ai_workspace_eks.DeepResearch.{
  DeepResearchBudgets, DeepResearchOutcome, Passage, WebResult, ChatClient, plan, retrieve,
  retrieve_web, merge, synthesize, sources_of,
}

-- What a run is given: whether each of the three tests of the wall clock finds it over its budget,
-- and the search client where the run uses the web.
pub record Means ⦃fl : Floats⦄ : Type 0 where
  pub late : ℕ → Bool
  pub chat : ChatClient
  pub embed : EmbeddingClient
  pub web : Option (String → List WebResult)

abbrev failed : ℕ → String → DeepResearchOutcome
failed subqueries detail = record {
  status = "failed";
  answer = none;
  sources = [];
  subqueries = subqueries;
  detail = some detail;
}

abbrev completed : ℕ → List Passage → String → DeepResearchOutcome
completed subqueries passages answer = record {
  status = "completed";
  answer = some answer;
  sources = sources_of [] passages;
  subqueries = subqueries;
  detail = none;
}

module _ ⦃py : Python⦄ ⦃fl : Floats⦄ (b : DeepResearchBudgets) (w : Means) where
  -- The phases from the last to the first; `none` stands for an exception in one.
  unfoldable pub answered : ℕ → List Passage → Option String → DeepResearchOutcome
  answered n passages none = failed 0 "inference_unavailable"
  answered n passages (some answer) = completed n passages answer

  unfoldable pub write_answer : String → ℕ → List Passage → DeepResearchOutcome
  unfolding answered
  write_answer question n passages = answered n passages (synthesize w.chat question passages)

  unfoldable pub search_web :
      Option (String → List WebResult) → String → List String → List Passage → DeepResearchOutcome
  unfolding write_answer
  search_web none question queries passages = write_answer question (length queries) passages
  search_web (some search) question queries passages =
      if w.late 3
      then failed (length queries) "wall_clock"
      else write_answer question (length queries) (merge passages (retrieve_web search queries []))

  unfoldable pub with_passages : String → List String → Option (List Passage) → DeepResearchOutcome
  unfolding search_web
  with_passages question queries none = failed 0 "inference_unavailable"
  with_passages question queries (some passages) =
      if w.late 2
      then failed (length queries) "wall_clock"
      else search_web w.web question queries passages

  unfoldable pub with_queries : String → String → Store → Option (List String) → DeepResearchOutcome
  unfolding with_passages
  with_queries question tenant s none = failed 0 "inference_unavailable"
  with_queries question tenant s (some queries) =
      if w.late 1
      then failed (length queries) "wall_clock"
      else with_passages question queries (retrieve b w.embed tenant s queries [])

  -- `run_deep_research`, without its events
  unfoldable pub research : String → String → Store → DeepResearchOutcome
  unfolding with_queries
  research question tenant s = with_queries question tenant s (plan b w.chat question)

  abbrev end_of_run : DeepResearchOutcome → String
  end_of_run o = if o.status == "failed" then "agent_task_failed" else "agent_task_completed"

  abbrev audit_of : String × String → String → DeepResearchOutcome → List AuditEntry
  audit_of who question o =
      if o.status == "failed"
      then []
      else record (audit who "deep_research" (fields (("question", str question) ∷ [])) "allowed") {
        result_class = str "success";
      }
        ∷ []

  unfoldable pub run_deep_research :
      String × String
      → Stamps
      → String
      → Store
      → Feed
      → Feed × List AuditEntry × DeepResearchOutcome
  run_deep_research who stamps question s feed =
      let o = research question who.0 s in
      let started =
        emit (event stamps.progress_id who "agent_task_progress" stamps.run_id stamps.started)
          feed in
      (
        emit (event stamps.terminal_id who (end_of_run o) stamps.run_id stamps.ended) started,
        audit_of who question o,
        o,
      )

-- What a request changes.
pub record State : Type 0 where
  pub limiter : RateLimiter
  pub feed : Feed
  pub audits : List AuditEntry

abbrev pub max_question_bytes : ℕ
max_question_bytes = 4000

abbrev as_question : Json → Option String
as_question (str s) = if is_empty (strip s) then none else some s
as_question _ = none

abbrev run_response : DeepResearchOutcome → Response
run_response o =
    if o.status == "failed"
    then respond bad_gateway (
        ("status", str "failed")
        ∷ ("error", str "research_failed")
        ∷ ("detail", str "The deep-research run failed before completing.")
        ∷ [])
    else respond ok (
        ("status", str o.status)
        ∷ ("answer", opt_str o.answer)
        ∷ ("sources", arr (items (map str o.sources)))
        ∷ ("subqueries", int (pos o.subqueries))
        ∷ [])

-- What the server is configured with.
pub record Service ⦃fl : Floats⦄ : Type 0 where
  pub enabled : Bool
  pub allowlist : Allowlist
  pub inference : Option ChatClient
  pub embed : EmbeddingClient
  pub web : Option (String → List WebResult)
  pub late : ℕ → Bool

module _ ⦃py : Python⦄ ⦃fl : Floats⦄ (service : Service) (b : DeepResearchBudgets) where
  abbrev chosen_web : Json → Option (String → List WebResult)
  chosen_web v = if truthy v then service.web else none

  unfoldable pub read_question :
      Option String → Option TokenVerifier → String → Result (TokenClaims × String × Means)
  read_question authorization verifier body = do
    c ← verify_and_extract authorization verifier
    require service.enabled
        (degraded unavailable "tools_disabled" "Agent execution is disabled on this instance.")
    chat ← or_fail service.inference (
        degraded unavailable "research_unavailable"
          "The inference backend is not configured; deep research is unavailable.")
    d ← read_object not_json (error bad_request "bad_request") body
    question ←
        or_fail (as_question (get "question" d))
          (error_detail bad_request "bad_request" "'question' is required.")
    require (leb (utf8_len question) max_question_bytes)
        (error_detail payload_too_large "payload_too_large" "question exceeds 4000 bytes.")
    pass (
      c,
      question,
      record {
        late = service.late;
        chat = chat;
        embed = service.embed;
        web = chosen_web (get "web" d);
      },
    )

  unfoldable pub run_granted :
      String × String → Stamps → String → Means → Store → RateLimiter → State → State × Response
  run_granted who stamps question w docs granted s =
      let (feed, audits, o) = run_deep_research b w who stamps question docs s.feed in
      (
        record { limiter = release granted; feed = feed; audits = s.audits ++ audits },
        run_response o,
      )

  unfoldable pub run_limited :
      String × String → Stamps → String → Means → Store → ℕ → State → State × Response
  unfolding run_granted
  run_limited who stamps question w docs now s =
      let (l, granted) = try_acquire who.0 now s.limiter in
      if granted then run_granted who stamps question w docs l s else (
        record s { limiter = l },
        error_detail too_many_requests "rate_limited"
            "Deep-research rate or concurrency limit exceeded; try again shortly.",
      )

  -- The allow-list, for the capability.
  unfoldable pub authorize :
      String × String → Stamps → String → Means → Store → ℕ → State → State × Response
  unfolding run_limited
  authorize who stamps question w docs now s =
      if is_allowed service.allowlist who.0 "deep_research"
      then run_limited who stamps question w docs now s
      else (
        record s {
          audits =
              s.audits
              ++ (audit who "deep_research" (fields (("question", str question) ∷ [])) "denied"
                  ∷ []);
        },
        error_detail forbidden "not_allowed"
            "Deep research is not permitted for your organisation.",
      )

  unfoldable pub research_response :
      Option String → Option TokenVerifier → String → Stamps → Store → ℕ → State → State × Response
  research_response authorization verifier body stamps docs now s =
      elim (read_question authorization verifier body) [
        | fail r ↦ (s, r)
        | pass (c, question, w) ↦ authorize (owner_of c) stamps question w docs now s
      ]
