-- ===== src/ModelRequests/Caps.antt =====
-- The cap on the open requests of a tenant, and the queue of the installer.
use mathlib.Core.Path.{subst}
use private_ai_workspace_eks.Prelude.{
  ℕ, ◌+◌, ◌-◌, ◌≤◌, refl, sym, false, List, ◌==◌, ◌&&◌, select, length, ◌/◌, String, ◌≡◌, true,
  Option, none, some, [], ◌∷◌, arith, string_eq, pair_eq, if◌then◌else◌, inl, inr, Option-cases,
}
use private_ai_workspace_eks.Prelude.Dict
use private_ai_workspace_eks.Json.{Python}
use private_ai_workspace_eks.Http.{Result-cases}
use private_ai_workspace_eks.Auth.{TokenVerifier, owner_of}
use private_ai_workspace_eks.RateLimiter.{try_acquire}
use private_ai_workspace_eks.ModelRequests.{ModelInstallRequest, Config}
use private_ai_workspace_eks.ModelRequests.Store.{
  Store, values, create, is_open_for, count_open_for_tenant,
}
use private_ai_workspace_eks.ModelRequests.Handlers.{
  State, Moment, new_request, read_request, admit, submit, limited_submit, create_response,
}

count_open-insert :
    (tenant id : String) (r : ModelInstallRequest) (s : Store)
    → Dict.lookup id s ≡ none
    → count_open_for_tenant tenant (Dict.insert id r s)
      ≡ count_open_for_tenant tenant s + (if is_open_for tenant r then 1 else 0)
unfolding count_open_for_tenant Dict.insert Dict.lookup
count_open-insert tenant id r [] h = ground arith
count_open-insert tenant id r ((k, q) ∷ s) h = ground (arith, count_open-insert tenant id r s)

-- The requests of a tenant that have a status.
abbrev pub with_status : String → String → Store → List ModelInstallRequest
with_status status tenant s = select (λ r. tenant == r.tenant_id && r.status == status) (values s)

-- The requests of a tenant that wait for the installer, or that it works on.
unfoldable pub open_of : String → Store → ℕ
open_of tenant s =
    length (with_status "requested" tenant s) + length (with_status "installing" tenant s)

not_both : (t : String) → (t == "requested") ≡ true → (t == "installing") ≡ false
not_both t h =
    let e : t ≡ "requested" = ground arith in
    subst (λ u. (u == "installing") ≡ false) (sym e) (unfold string_eq in refl)

-- The code counts exactly these.
count_open-open_of :
    (tenant : String) (s : Store) → count_open_for_tenant tenant s ≡ open_of tenant s
unfolding count_open_for_tenant open_of select
count_open-open_of tenant [] = refl
count_open-open_of tenant ((k, r) ∷ s) =
    ground (arith, count_open-open_of tenant s, not_both r.status)

-- No tenant has more open requests than the cap and what it is granted beyond.
abbrev pub IsWithin : ℕ → (String → ℕ) → Store → Type 0
IsWithin cap beyond s = (tenant : String) → open_of tenant s ≤ cap + beyond tenant

-- The open requests of a tenant that others add between the count and the creation.
abbrev pub added : Moment → Store → String → ℕ
added m s tenant = open_of tenant (m.meanwhile s) - open_of tenant s

module _ ⦃py : Python⦄ (config : Config) (m : Moment) (body : String) where
  -- The open requests of a tenant after a step on a store: at most the cap, and what others added.
  abbrev Keeps : String → Store → Store → Type 0
  Keeps tenant s s' =
      count_open_for_tenant tenant s'
      ≤ config.max_open_per_tenant
        + (count_open_for_tenant tenant (m.meanwhile s) - count_open_for_tenant tenant s)

  submit-le :
      (who : String × String) (s : State) (tenant : String)
      → Dict.lookup m.request_id (m.meanwhile s.requests) ≡ none
      → count_open_for_tenant tenant s.requests ≤ config.max_open_per_tenant
      → Keeps tenant s.requests (submit config who m body s).0.requests
  unfolding submit create
  submit-le who s tenant fresh h = elim (Result-cases (read_request config body)) [
    | inl (r, e) ↦ rw (e, submit) (omega (arith, h))
    | inr (p, e) ↦
        let grown =
          count_open-insert tenant m.request_id (new_request m who p) (m.meanwhile s.requests)
            fresh in
        rw (e, submit) (ground arith)
  ]

  limited_submit-le :
      (who : String × String) (s : State) (tenant : String)
      → Dict.lookup m.request_id (m.meanwhile s.requests) ≡ none
      → count_open_for_tenant tenant s.requests ≤ config.max_open_per_tenant
      → Keeps tenant s.requests (limited_submit config who m body s).0.requests
  unfolding limited_submit
  limited_submit-le who s tenant fresh h = elim (Option-cases s.limiter) [
    | inl e ↦ rw (e, limited_submit) (submit-le who s tenant fresh h)
    | inr (l, e) ↦
        let taken = try_acquire who.0 (m.now / 1000000) l in
        let s' : State = record s { limiter = some taken.0 } in
        let after = submit-le who s' tenant fresh h in rw (e, limited_submit) (ground arith)
  ]

  create_response-le :
      (authorization : Option String) (verifier : Option TokenVerifier) (s : State)
      (tenant : String)
      → Dict.lookup m.request_id (m.meanwhile s.requests) ≡ none
      → count_open_for_tenant tenant s.requests ≤ config.max_open_per_tenant
      → Keeps tenant s.requests (create_response config authorization verifier m body s).0.requests
  unfolding create_response
  create_response-le authorization verifier s tenant fresh h =
      elim (Result-cases (admit config authorization verifier)) [
        | inl (r, e) ↦ rw (e, create_response) (omega (arith, h))
        | inr (c, e) ↦ rw (e, create_response) (limited_submit-le (owner_of c) s tenant fresh h)
      ]

  -- However a request is answered, a tenant that had no more open requests than the cap, waiting or
  -- being installed, has at most the cap and those that other threads open between the count and
  -- the creation, as long as the fresh id is new to the store. So the cap holds where requests are
  -- answered one at a time.
  pub create_response-IsWithin :
      (authorization : Option String) (verifier : Option TokenVerifier) (s : State)
      → Dict.lookup m.request_id (m.meanwhile s.requests) ≡ none
      → IsWithin config.max_open_per_tenant (λ tenant. 0) s.requests
      → IsWithin config.max_open_per_tenant
          (added m s.requests)
          (create_response config authorization verifier m body s).0.requests
  create_response-IsWithin authorization verifier s fresh h tenant =
      let result = create_response config authorization verifier m body s in
      let before = count_open-open_of tenant s.requests in
      omega (
        arith,
        h tenant,
        before,
        count_open-open_of tenant (m.meanwhile s.requests),
        count_open-open_of tenant result.0.requests,
        create_response-le authorization verifier s tenant fresh (omega (arith, h tenant, before)),
      )
