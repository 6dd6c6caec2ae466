-- ===== src/Integrations/Egress.antt =====
-- Where the executor connects to, and what the token cache saves.
use mathlib.Core.Path.{subst, sym}
use private_ai_workspace_eks.Prelude.{
  ℕ, ◌<◌, ◌≤◌, String, ◌≡◌, ◌⊎◌, ltb, Bool-cases, refl, Option, none, some, List, [], ◌∷◌, All,
  Option-cases, inl, inr, arith, pair_eq, string_eq,
}
use private_ai_workspace_eks.Prelude.Dict
use private_ai_workspace_eks.Prelude.Dict.{lookup-insert}
use private_ai_workspace_eks.Json.{Python}
use private_ai_workspace_eks.Outbound.{ValidatedTarget, Network, OutboundResponse}
use private_ai_workspace_eks.Outbound.Guard.{Checked-cases, accept, validate_outbound_url}
use private_ai_workspace_eks.Outbound.Opening.{Wire}
use private_ai_workspace_eks.Integrations.{
  Creds, OutboundRequest, TokenRefresh, TokenCache, Step, Attempt, stopped, done, expiry, as_token,
  live, send, store_token, refresh, ensure_access_token,
}

Attempt-cases :
    {A : Type 0} (a : Attempt A) → ((code : String) × (a ≡ stopped code)) ⊎ ((v : A) × (a ≡ done v))
Attempt-cases (stopped code) = inl (code, refl)
Attempt-cases (done v) = inr (v, refl)

module _ ⦃py : Python⦄ ⦃net : Network⦄ ⦃wire : Wire⦄ where
  -- The target is what the guard makes of the request's URL.
  abbrev pub IsGuarded : List String → List String → OutboundRequest → ValidatedTarget → Type 0
  IsGuarded allowed_hosts permit_hosts r t =
      validate_outbound_url r.url allowed_hosts r.allow_http permit_hosts ≡ accept t

  -- Whatever is sent, every connection is to the target that the guard accepted for it.
  send-IsGuarded :
      (allowed_hosts permit_hosts : List String) (r : OutboundRequest) (cache : TokenCache)
      → All
          (IsGuarded allowed_hosts permit_hosts r)
          (send allowed_hosts permit_hosts r cache).connected
  unfolding send
  send-IsGuarded allowed_hosts permit_hosts r cache =
      elim (Checked-cases (validate_outbound_url r.url allowed_hosts r.allow_http permit_hosts)) [
        | inl (reason, e) ↦ rw (e, send) tt
        | inr (t, e) ↦
            let one : (send allowed_hosts permit_hosts r cache).connected ≡ t ∷ [] =
              rw (e, send) refl in
            subst (All (IsGuarded allowed_hosts permit_hosts r)) (sym one) (e, tt)
      ]

  cache-send :
      (allowed_hosts permit_hosts : List String) (r : OutboundRequest) (cache : TokenCache)
      → (send allowed_hosts permit_hosts r cache).cache ≡ cache
  unfolding send
  cache-send allowed_hosts permit_hosts r cache = ground arith

  module _ (now : ℕ) (key : String × String) (creds : Creds) where
    connected-store_token :
        (refresher : TokenRefresh) (sent : Step OutboundResponse)
        → (store_token now key creds refresher sent).connected ≡ sent.connected
    unfolding store_token
    connected-store_token refresher sent = ground arith

    -- The step ends with credentials that carry the token.
    abbrev pub Carries : TokenRefresh → String → Step Creds → Type 0
    Carries refresher token result =
        (creds' : Creds) × (result.end_of_step ≡ done creds')
        × (Dict.lookup refresher.token_key creds' ≡ some token)

    -- A token in the cache that expires later is used, and nothing is sent or stored.
    abbrev pub UsesCached : TokenRefresh → TokenCache → Step Creds → Type 0
    UsesCached refresher cache result =
        (token : String) × (expires : ℕ) × (Dict.lookup key cache ≡ some (token, expires))
        × (now < expires)
        × (result.connected ≡ [])
        × (result.cache ≡ cache)
        × Carries refresher token result

    -- There is no token in the cache, or it has expired.
    abbrev pub LacksToken : TokenCache → Type 0
    LacksToken cache =
        (Dict.lookup key cache ≡ none)
        ⊎ ((token : String) × (expires : ℕ) × (Dict.lookup key cache ≡ some (token, expires))
            × (expires ≤ now))

    -- The token of the refresher's answer is used, and in the cache from now on with its lifetime;
    -- or the step fails and the cache is as it was.
    abbrev pub Renews : TokenRefresh → TokenCache → Step OutboundResponse → Step Creds → Type 0
    Renews refresher cache sent result =
        ((code : String) × (result.end_of_step ≡ stopped code) × (result.cache ≡ cache))
        ⊎ ((r : OutboundResponse) × (token : String) × (sent.end_of_step ≡ done r)
            × ((refresher.parse_token r.status r.body).0 ≡ some token)
            × (Dict.lookup key result.cache
                ≡ some (token, expiry now (refresher.parse_token r.status r.body).1))
            × Carries refresher token result)

    abbrev pub Obtains : TokenRefresh → TokenCache → Step Creds → Type 0
    Obtains refresher cache result =
        let request = refresher.refresh_request creds in
        UsesCached refresher cache result
        ⊎ (LacksToken cache
            × Renews refresher cache (send refresher.refresh_hosts [] request cache) result)

    as_token-some : (v : Option String) (token : String) → as_token v ≡ some token → v ≡ some token
    as_token-some v token h = ground arith

    store_token-Renews :
        (refresher : TokenRefresh) (cache : TokenCache) (sent : Step OutboundResponse)
        → sent.cache ≡ cache
        → Renews refresher cache sent (store_token now key creds refresher sent)
    unfolding store_token
    store_token-Renews refresher cache sent same = elim (Attempt-cases sent.end_of_step) [
      | inl (code, e) ↦ rw (e, store_token) (inl (code, refl, same))
      | inr (r, e) ↦
          let parsed = refresher.parse_token r.status r.body in
          elim (Option-cases (as_token parsed.0)) [
            | inl missing ↦ rw (e, missing, store_token) (inl ("refresh_failed", refl, same))
            | inr (t, found) ↦
                let stored = lookup-insert key key (t, expiry now parsed.1) sent.cache in
                let carried = lookup-insert refresher.token_key refresher.token_key t creds in
                rw (e, found, store_token)
                  (inr (
                    r,
                    t,
                    refl,
                    as_token-some parsed.0 t found,
                    ground arith,
                    (Dict.insert refresher.token_key t creds, refl, ground arith),
                  ))
          ]
    ]

    live_cases :
        (entry : Option (String × ℕ))
        → ((token : String) × (expires : ℕ) × (entry ≡ some (token, expires))
            × (now < expires)
            × (live now key creds entry ≡ some token))
          ⊎ ((live now key creds entry ≡ none)
              × ((entry ≡ none)
                  ⊎ ((token : String) × (expires : ℕ) × (entry ≡ some (token, expires))
                      × (expires ≤ now))))
    live_cases none = inr (refl, inl refl)
    live_cases (some (token, expires)) = elim (Bool-cases (ltb now expires)) [
      | inl early ↦ inl (token, expires, refl, ground arith, rw early refl)
      | inr late ↦ inr (rw late refl, inr (token, expires, refl, ground arith))
    ]

    -- A token in the cache that expires later than now is put into the credentials, with no
    -- connection at all and the cache as it was. Otherwise a new one is asked for: every connection
    -- is to what the guard accepts for the refresher's own request, on the refresher's own hosts
    -- and with no private host permitted, and either the token of the answer is put into the
    -- credentials and, with its lifetime, into the cache, or the step fails and the cache is as it
    -- was.
    pub ensure_access_token-IsGuarded :
        (refresher : TokenRefresh) (cache : TokenCache)
        → let result = ensure_access_token now key creds (some refresher) cache in
          All
            (IsGuarded refresher.refresh_hosts [] (refresher.refresh_request creds))
            result.connected
          × Obtains refresher cache result
    unfolding ensure_access_token refresh
    ensure_access_token-IsGuarded refresher cache =
        let request = refresher.refresh_request creds in
        let sent = send refresher.refresh_hosts [] request cache in
        elim (live_cases (Dict.lookup key cache)) [
          | inr (e, lacks) ↦
              rw (e, ensure_access_token)
                (
                  subst (All (IsGuarded refresher.refresh_hosts [] request))
                      (sym (connected-store_token refresher sent))
                      (send-IsGuarded refresher.refresh_hosts [] request cache),
                  inr (
                    lacks,
                    store_token-Renews refresher cache sent
                        (cache-send refresher.refresh_hosts [] request cache),
                  ),
                )
          | inl (token, expires, found, early, e) ↦
              let carried = lookup-insert refresher.token_key refresher.token_key token creds in
              rw (e, ensure_access_token)
                (
                  tt,
                  inl (
                    token,
                    expires,
                    found,
                    early,
                    refl,
                    refl,
                    (Dict.insert refresher.token_key token creds, refl, ground arith),
                  ),
                )
        ]
