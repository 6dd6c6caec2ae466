-- ===== src/ModelRequests/Admission.antt =====
-- What a recorded request has passed, and what a caller is shown.
use private_ai_workspace_eks.Prelude.{
  ℕ, ◌<◌, ◌/◌, String, ◌≡◌, ◌≢◌, refl, ap, ◌⊎◌, true, false, Option, some, List, [], ◌∷◌, ◌==◌,
  arith, string_eq, pair_eq, leb, select, select-cons_true, select-cons_false, All, All-take,
  Bool-cases, inl, inr, Option-cases,
}
use private_ai_workspace_eks.Json.{Python}
use private_ai_workspace_eks.Http.{Response, accepted, Result-cases, pass, fail, read_object}
use private_ai_workspace_eks.Auth.{TokenClaims, TokenVerifier, verify_and_extract, owner_of}
use private_ai_workspace_eks.RateLimiter.{try_acquire}
use private_ai_workspace_eks.ModelRequests.{
  ModelInstallRequest, Config, is_repo_id, parse_repo_allowlist, is_repo_allowed, is_admin,
  user_can_request_install,
}
use private_ai_workspace_eks.ModelRequests.Store.{
  Store, create, count_open_for_tenant, owner, values, insert_by, sort, newest_first, list_for_user,
}
use private_ai_workspace_eks.ModelRequests.Bodies.{Asks, read_request-Asks}
use private_ai_workspace_eks.ModelRequests.Handlers.{
  State, Moment, new_request, is_valid_revision, read_repo, read_revision, read_request, admit,
  submit, limited_submit, released, create_response, shown,
}

module _ ⦃py : Python⦄ (config : Config) where
  -- What holds of the caller, the repository and the revision of a request that is recorded.
  pub record IsAdmitted (authorization : Option String) (verifier : Option TokenVerifier)
      (body : String) (s : Store) (c : TokenClaims) (repo revision : String) : Type 0 where
    pub caller : verify_and_extract authorization verifier ≡ pass c
    pub enabled : config.model_install_enabled ≡ true
    pub permitted : user_can_request_install c config ≡ true
    pub asked : Asks body repo revision
    pub well_formed : is_repo_id repo ≡ true
    pub allowed : is_repo_allowed (parse_repo_allowlist config.allowlist) repo ≡ true
    pub revision_valid : (revision ≡ "") ⊎ (is_valid_revision revision ≡ true)
    pub room : count_open_for_tenant (owner_of c).0 s < config.max_open_per_tenant

  IsSound : String → String → Type 0
  IsSound repo revision =
      (is_repo_id repo ≡ true)
      × (is_repo_allowed (parse_repo_allowlist config.allowlist) repo ≡ true)
      × ((revision ≡ "") ⊎ (is_valid_revision revision ≡ true))

  read_request-IsSound :
      (body repo revision : String)
      → read_request config body ≡ pass (repo, revision)
      → IsSound repo revision
  unfolding read_request IsSound read_repo read_revision
  read_request-IsSound body repo revision h = ground arith

  admit_lem :
      (authorization : Option String) (verifier : Option TokenVerifier) (c : TokenClaims)
      → admit config authorization verifier ≡ pass c
      → (verify_and_extract authorization verifier ≡ pass c)
        × (config.model_install_enabled ≡ true)
        × (user_can_request_install c config ≡ true)
  unfolding admit
  admit_lem authorization verifier c h = ground arith

  admit_fails :
      (authorization : Option String) (verifier : Option TokenVerifier) (r : Response)
      → admit config authorization verifier ≡ fail r
      → r.status ≢ accepted
  unfolding admit verify_and_extract
  admit_fails authorization verifier r h = ground arith

  read_request_fails :
      (body : String) (r : Response) → read_request config body ≡ fail r → r.status ≢ accepted
  unfolding read_request read_object read_repo read_revision
  read_request_fails body r h = ground arith

  module _ (authorization : Option String) (verifier : Option TokenVerifier) (m : Moment)
      (body : String) (s : State) where
    -- The answer is an error and no request is recorded, or the one recorded has passed the checks.
    abbrev pub Recorded : State × Response → Type 0
    Recorded result =
        (result.0.requests ≡ s.requests) × (result.1.status ≢ accepted)
        ⊎ ((c : TokenClaims) × (repo : String) × (revision : String) × IsAdmitted authorization
              verifier body s.requests c repo revision
            × (result.0.requests
                ≡ create (new_request m (owner_of c) (repo, revision)) (m.meanwhile s.requests))
            × (result.1.status ≡ accepted))

    submit-Recorded :
        (c : TokenClaims) (t : State)
        → admit config authorization verifier ≡ pass c
        → t.requests ≡ s.requests
        → Recorded (submit config (owner_of c) m body t)
    unfolding submit IsSound
    submit-Recorded c t admitted same = elim (Result-cases (read_request config body)) [
      | inl (r, e) ↦ rw (e, submit) (inl (same, read_request_fails body r e))
      | inr ((repo, revision), e) ↦
          elim (Bool-cases
            (leb config.max_open_per_tenant (count_open_for_tenant (owner_of c).0 t.requests))) [
              | inl full ↦ rw (e, submit, full) (inl (same, λ h. cc))
              | inr room ↦
                  let gates = admit_lem authorization verifier c admitted in
                  let sound = read_request-IsSound body repo revision e in
                  rw (e, submit, room)
                    (inr (
                      c,
                      repo,
                      revision,
                      record {
                        caller = gates.0;
                        enabled = gates.1;
                        permitted = gates.2;
                        asked = read_request-Asks config body repo revision e;
                        well_formed = sound.0;
                        allowed = sound.1;
                        revision_valid = sound.2;
                        room = ground arith;
                      },
                      ap (λ r. create (new_request m (owner_of c) (repo, revision)) (m.meanwhile r))
                          same,
                      refl,
                    ))
            ]
    ]

    released-Recorded : (p : State × Response) → Recorded p → Recorded (released config p)
    released-Recorded (t, r) h = elim (Option-cases t.limiter) [
      | inl e ↦ rw (e) h
      | inr (l, e) ↦ rw (e) h
    ]

    limited_submit-Recorded :
        (c : TokenClaims)
        → admit config authorization verifier ≡ pass c
        → Recorded (limited_submit config (owner_of c) m body s)
    unfolding limited_submit
    limited_submit-Recorded c admitted = elim (Option-cases s.limiter) [
      | inl e ↦ rw (e, limited_submit) (submit-Recorded c s admitted refl)
      | inr (l, e) ↦
          let taken = try_acquire (owner_of c).0 (m.now / 1000000) l in
          let s' : State = record s { limiter = some taken.0 } in
          elim (Bool-cases taken.1) [
            | inl in_time ↦
                rw (e, limited_submit, in_time)
                  (released-Recorded (submit config (owner_of c) m body s')
                    (submit-Recorded c s' admitted refl))
            | inr late ↦ rw (e, limited_submit, late) (inl (refl, λ h. cc))
          ]
    ]

    -- A request that is not accepted records nothing. One that is accepted is of a verified caller
    -- who has the permission, with install enabled and fewer open requests of the tenant than the
    -- cap when they are counted. Its body has a repository id, of the right form and on the
    -- operator's allow-list but for white space around it, and a valid revision or none; exactly
    -- that request is recorded, for the caller, in the store as other threads left it since.
    pub create_response-Recorded : Recorded (create_response config authorization verifier m body s)
    unfolding create_response
    create_response-Recorded = elim (Result-cases (admit config authorization verifier)) [
      | inl (r, e) ↦ rw (e, create_response) (inl (refl, admit_fails authorization verifier r e))
      | inr (c, e) ↦ rw (e, create_response) (limited_submit-Recorded c e)
    ]

  -- Whether all that is shown belongs to the caller.
  abbrev pub AllOwn : String × String → List ModelInstallRequest → Type 0
  AllOwn who = All (λ r. owner r ≡ who)

  select-AllOwn :
      (who : String × String) (l : List ModelInstallRequest)
      → AllOwn who (select (λ r. who == owner r) l)
  unfolding select
  select-AllOwn who [] = tt
  select-AllOwn who (r ∷ l) = elim (Bool-cases (who == owner r)) [
    | inl own ↦
        rw (select-cons_true (λ q. who == owner q) r l own) (ground arith, select-AllOwn who l)
    | inr other ↦ rw (select-cons_false (λ q. who == owner q) r l other) (select-AllOwn who l)
  ]

  insert_by-AllOwn :
      (who : String × String) (r : ModelInstallRequest) (l : List ModelInstallRequest)
      → owner r ≡ who
      → AllOwn who l
      → AllOwn who (insert_by newest_first r l)
  unfolding insert_by
  insert_by-AllOwn who r [] own h = (own, tt)
  insert_by-AllOwn who r (q ∷ l) own h =
      elim (Bool-cases (newest_first r.created_at q.created_at)) [
        | inl first ↦ rw first (own, h)
        | inr later ↦ rw later (h.0, insert_by-AllOwn who r l own h.1)
      ]

  sort-AllOwn :
      (who : String × String) (l : List ModelInstallRequest)
      → AllOwn who l
      → AllOwn who (sort newest_first l)
  unfolding sort
  sort-AllOwn who [] h = tt
  sort-AllOwn who (r ∷ l) h =
      insert_by-AllOwn who r (sort newest_first l) h.0 (sort-AllOwn who l h.1)

  -- A caller who is no admin is shown its own requests only.
  pub shown-AllOwn :
      (c : TokenClaims) (limit : ℕ) (s : Store)
      → is_admin c config ≡ false
      → AllOwn (owner_of c) (shown config c limit s)
  unfolding shown list_for_user
  shown-AllOwn c limit s h = rw h (
      All-take (λ r. owner r ≡ owner_of c) limit
        (sort newest_first (select (λ r. owner_of c == owner r) (values s)))
        (sort-AllOwn (owner_of c) (select (λ r. owner_of c == owner r) (values s))
          (select-AllOwn (owner_of c) (values s))))
