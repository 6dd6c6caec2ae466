-- ===== src/ModelRequests/Handlers.antt =====
-- The handlers of model_requests.py: create, list, and the two for the installer.
use Prim.Native.Char.{code}
use private_ai_workspace_eks.Prelude.{
  ℕ, ◌/◌, String, ◌<>◌, Bool, true, false, Option, none, some, List, [], ◌∷◌, ◌&&◌, not, ◌==◌, ltb,
  leb, contains, map, length, string_eq, if◌then◌else◌,
}
use private_ai_workspace_eks.Prelude.Text.{is_empty, len, strip}
use private_ai_workspace_eks.Json.{Json, ℤ, pos, Python, str, int, bool, arr, items, get, truthy}
use private_ai_workspace_eks.Http.{
  Response, ok, accepted, bad_request, forbidden, not_found, too_many_requests, respond, error,
  error_detail, Result, pass, fail, require, clamp, not_json, not_object, read_object, ◌>>=◌, ◌>>◌,
}
use private_ai_workspace_eks.Auth.{
  TokenClaims, TokenVerifier, bearer_token, verify_and_extract, owner_of,
}
use private_ai_workspace_eks.RateLimiter.{RateLimiter, try_acquire, release}
use private_ai_workspace_eks.Notifications.Emit.{Feed, emit, event}
use private_ai_workspace_eks.ModelRequests.{
  ModelInstallRequest, Config, to_api_dict, to_admin_dict, is_repo_id, is_revision, has_dots,
  parse_repo_allowlist, is_repo_allowed, is_admin, user_can_request_install,
}
use private_ai_workspace_eks.ModelRequests.Store.{
  Store, create, list_for_user, list_all, list_pending, update_status, count_open_for_tenant,
}

-- What a request may change.
pub record State : Type 0 where
  pub requests : Store
  pub feed : Feed
  pub limiter : Option RateLimiter

-- The clock in microseconds, the fresh ids, and `meanwhile`, what other threads do to the store
-- between the count of the open requests and the creation: each of the two takes the lock.
pub record Moment : Type 0 where
  pub now : ℕ
  pub request_id : String
  pub event_id : String
  pub meanwhile : Store → Store

abbrev bad : String → Response
bad detail = error_detail bad_request "bad_request" detail

abbrev bad_repo : Response
bad_repo = bad "'hf_repo_id' must look like 'org/model'."

abbrev bad_revision : Response
bad_revision = bad "'revision' is not a valid ref."

abbrev bad_error_class : Response
bad_error_class = bad "'error_class' must be a short string."

unfoldable pub read_repo : Json → Result String
read_repo (str s) =
    if ltb 200 (len s)
    then fail bad_repo
    else if is_repo_id (strip s)
    then pass (strip s)
    else fail bad_repo
read_repo _ = fail bad_repo

abbrev pub is_valid_revision : String → Bool
is_valid_revision s = leb (len s) 100 && not (has_dots false s) && is_revision s

abbrev as_revision : Json → Result String
as_revision (str s) = if is_valid_revision s then pass s else fail bad_revision
as_revision _ = fail bad_revision

-- `data.get("revision") or ""`
unfoldable pub read_revision : Json → Result String
read_revision v = if truthy v then as_revision v else pass ""

abbrev pub new_request : Moment → String × String → String × String → ModelInstallRequest
new_request m (tenant, user) (repo, revision) = record {
  id = m.request_id;
  tenant_id = tenant;
  user_id = user;
  hf_repo_id = repo;
  revision = revision;
  status = "requested";
  error_class = "";
  created_at = m.now;
  updated_at = m.now;
}

-- `_RECONCILER_STATUSES`
abbrev pub reconciler_statuses : List String
reconciler_statuses = "installing" ∷ "applied" ∷ "failed" ∷ []

unfoldable pub read_status : Json → Result String
read_status (str s) =
    if contains reconciler_statuses s
    then pass s
    else fail (bad "'status' must be one of ['installing', 'applied', 'failed'].")
read_status _ = fail (bad "'status' must be one of ['installing', 'applied', 'failed'].")

abbrev as_error_class : Json → Result String
as_error_class (str s) = if ltb 100 (len s) then fail bad_error_class else pass s
as_error_class _ = fail bad_error_class

-- `data.get("error_class") or ""`
unfoldable pub read_error_class : Json → Result String
read_error_class v = if truthy v then as_error_class v else pass ""

abbrev is_ascii : String → Bool
is_ascii String.[] = true
is_ascii (String.◌∷◌ c s) = let rest = is_ascii s in ltb (code c) 128 && rest

module _ ⦃py : Python⦄ (config : Config) where
  unfoldable pub admit : Option String → Option TokenVerifier → Result TokenClaims
  admit authorization verifier = do
    c ← verify_and_extract authorization verifier
    require config.model_install_enabled (
        error_detail forbidden "model_install_disabled"
          "Self-serve model install is not enabled on this workspace.")
    require (user_can_request_install c config) (
        error_detail forbidden "permission_denied"
          "You don't have permission to request model installs.")
    pass c

  -- The checks of the body: the repository and the revision.
  unfoldable pub read_request : String → Result (String × String)
  read_request body = do
    d ← read_object not_json not_object body
    repo ← read_repo (get "hf_repo_id" d)
    revision ← read_revision (get "revision" d)
    require (is_repo_allowed (parse_repo_allowlist config.allowlist) repo) (
        error_detail forbidden "repo_not_allowed"
          "This model's org/repo is not on the operator allow-list.")
    pass (repo, revision)

  abbrev too_many_open : Response
  too_many_open = error_detail too_many_requests "too_many_open_requests" (
      "Too many open install requests (max "
      <> py.display (int (pos config.max_open_per_tenant))
      <> "). Wait for an operator to review.")

  unfoldable pub submit : String × String → Moment → String → State → State × Response
  submit who m body s = elim (read_request body) [
    | fail r ↦ (s, r)
    | pass p ↦
        if leb config.max_open_per_tenant (count_open_for_tenant who.0 s.requests)
        then (s, too_many_open)
        else (
          record s {
            requests = create (new_request m who p) (m.meanwhile s.requests);
            feed = emit (event m.event_id who "model_install_requested" m.request_id m.now) s.feed;
          },
          record { status = accepted; payload = to_api_dict (new_request m who p) },
        )
  ]

  abbrev pub released : State × Response → State × Response
  released (s, r) = elim s.limiter [
    | none ↦ (s, r)
    | some l ↦ (record s { limiter = some (release l) }, r)
  ]

  abbrev slow_down : Response
  slow_down =
      error_detail too_many_requests "rate_limited"
        "Too many install requests right now — please slow down."

  unfoldable pub limited_submit : String × String → Moment → String → State → State × Response
  limited_submit who m body s = elim s.limiter [
    | none ↦ submit who m body s
    | some l ↦
        let (l', granted) = try_acquire who.0 (m.now / 1000000) l in
        if granted
        then released (submit who m body (record s { limiter = some l' }))
        else (record s { limiter = some l' }, slow_down)
  ]

  unfoldable pub create_response :
      Option String → Option TokenVerifier → Moment → String → State → State × Response
  create_response authorization verifier m body s = elim (admit authorization verifier) [
    | fail r ↦ (s, r)
    | pass c ↦ limited_submit (owner_of c) m body s
  ]

  -- The requests that a caller is shown.
  unfoldable pub shown : TokenClaims → ℕ → Store → List ModelInstallRequest
  shown c limit s =
      if is_admin c config then list_all limit s else list_for_user (owner_of c) limit s

  unfoldable pub list_response : Option String → Option TokenVerifier → ℤ → Store → Response
  list_response authorization verifier limit s = elim (verify_and_extract authorization verifier) [
    | fail r ↦ r
    | pass c ↦
        let found = shown c (clamp limit 200) s in
        let show = if is_admin c config then to_admin_dict else to_api_dict in
        respond ok (
          ("requests", arr (items (map show found)))
          ∷ ("count", int (pos (length found)))
          ∷ ("is_admin", bool (is_admin c config))
          ∷ ("enabled", bool config.model_install_enabled)
          ∷ (
            "can_request",
            bool (config.model_install_enabled && user_can_request_install c config),
          )
          ∷ [])
  ]

  -- `hmac.compare_digest` raises for a text that is not ASCII, which counts as a mismatch.
  abbrev same_secret : String → String → Bool
  same_secret given expected = is_ascii given && is_ascii expected && given == expected

  -- `_verify_reconciler_token`
  unfoldable pub verify_reconciler_token : Option String → Bool
  verify_reconciler_token authorization = elim config.installer_token [
    | none ↦ false
    | some expected ↦ elim (bearer_token authorization) [
      | none ↦ false
      | some given ↦ not (is_empty expected) && same_secret given expected
    ]
  ]

  unfoldable pub pending_response : Option String → Store → Response
  pending_response authorization s =
      if not (verify_reconciler_token authorization)
      then error not_found "not_found"
      else let found = if config.model_install_enabled then list_pending 50 s else [] in
        respond ok (
          ("requests", arr (items (map to_admin_dict found)))
          ∷ ("count", int (pos (length found)))
          ∷ [])

  unfoldable pub read_report : Option String → String → Result (String × String)
  read_report authorization body = do
    require (verify_reconciler_token authorization) (error not_found "not_found")
    d ← read_object not_json not_object body
    status ← read_status (get "status" d)
    error_class ← read_error_class (get "error_class" d)
    pass (status, error_class)

  abbrev reported : Moment → State → Store × Option ModelInstallRequest → State × Response
  reported m s (d, none) = (s, error not_found "not_found")
  reported m s (d, some r) = (
    record s {
      requests = d;
      feed =
          emit (event m.event_id (r.tenant_id, r.user_id) "model_install_updated" r.id m.now)
            s.feed;
    },
    record { status = ok; payload = to_admin_dict r },
  )

  unfoldable pub status_response :
      Option String → String → Moment → String → State → State × Response
  status_response authorization id m body s = elim (read_report authorization body) [
    | fail r ↦ (s, r)
    | pass (status, error_class) ↦
        reported m s (update_status id status error_class m.now s.requests)
  ]
