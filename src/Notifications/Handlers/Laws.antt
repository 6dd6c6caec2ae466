-- ===== src/Notifications/Handlers/Laws.antt =====
-- Isolation and the content policy, as callers of the endpoints see them.
use private_ai_workspace_eks.Prelude.{
  ℕ, ◌≤◌, String, ◌≡◌, ◌≢◌, refl, ◌⊎◌, inl, inr, Bool, true, false, Option, some, List, contains,
  string_eq, arith,
}
use private_ai_workspace_eks.Prelude.Text.{is_empty, strip, len}
use private_ai_workspace_eks.Json.{ℤ, Fields, Python, obj}
use private_ai_workspace_eks.Http.{Response, Result, pass, fail, created, read_object, clamp}
use private_ai_workspace_eks.Auth.{TokenClaims, TokenVerifier, verify_and_extract, owner_of}
use private_ai_workspace_eks.Notifications.{allowed_event_classes, max_resource_id_len, to_api_dict}
use private_ai_workspace_eks.Notifications.Store.{Store, publish}
use private_ai_workspace_eks.Notifications.Histories.{Write, run, writes_of, list_for_user-run}
use private_ai_workspace_eks.Notifications.Handlers.{
  read_event_class, read_resource_id, carries_content, list_response, read_publication, publication,
  publish_response,
}

module _ ⦃py : Python⦄ (authorization : Option String) (verifier : Option TokenVerifier) where
  -- What the list endpoint shows to a verified caller after any publications and reads of any users is
  -- what it shows after only those of the caller, so no event of another owner ever appears.
  pub list_response-run :
      (c : TokenClaims) (include_read : Bool) (limit : ℤ) (ws : List Write) (s : Store)
      → verify_and_extract authorization verifier ≡ pass c
      → list_response authorization verifier include_read limit (run ws s)
        ≡ list_response authorization verifier include_read limit
            (run (writes_of (owner_of c) ws) s)
  unfolding list_response
  list_response-run c include_read limit ws s h =
      rw (h, list_response)
        (rw (list_for_user-run (owner_of c) (clamp limit 100) include_read ws s))

  -- What a published event has passed.
  pub record IsAdmissible (body : String) (p : TokenClaims × String × String) : Type 0 where
    pub caller : verify_and_extract authorization verifier ≡ pass p.0
    pub known_class : contains allowed_event_classes p.1 ≡ true
    pub resource_nonempty : is_empty (strip p.2) ≡ false
    pub resource_short : len p.2 ≤ max_resource_id_len
    pub no_content : (d : Fields) → py.loads body ≡ some (obj d) → carries_content d ≡ false

  read_publication-IsAdmissible :
      (body : String) (p : TokenClaims × String × String)
      → read_publication authorization verifier body ≡ pass p
      → IsAdmissible body p
  unfolding read_publication read_object read_event_class read_resource_id
  read_publication-IsAdmissible body p h = record {
    caller = ground arith;
    known_class = ground arith;
    resource_nonempty = ground arith;
    resource_short = ground arith;
    no_content = λ d e. ground arith;
  }

  read_publication_fails :
      (body : String) (r : Response)
      → read_publication authorization verifier body ≡ fail r
      → r.status ≢ created
  unfolding read_publication read_object read_event_class read_resource_id verify_and_extract
  read_publication_fails body r h = ground arith

  -- Either the store is as it was and the answer is an error, or one event is published, for the
  -- caller, and it is admissible.
  abbrev pub Publishes : String → ℕ → String → Store → Store × Response → Type 0
  Publishes body now id s (s', r) =
      (s' ≡ s) × (r.status ≢ created)
      ⊎ ((p : TokenClaims × String × String) × IsAdmissible body p
          × (s' ≡ publish (publication now id p) s)
          × (r.status ≡ created))

  -- A publish request either leaves the store as it was and is not answered with 201, or it publishes
  -- one event for the verified caller, of an allowed class, with a resource id that is not blank and
  -- not too long, from a body with no content fields, and is answered with 201.
  pub publish_response-Publishes :
      (body : String) (now : ℕ) (id : String) (s : Store)
      → Publishes body now id s (publish_response authorization verifier body now id s)
  unfolding publish_response
  publish_response-Publishes body now id s =
      publishes (read_publication authorization verifier body) refl
    where
      publishes :
          (m : Result (TokenClaims × String × String))
          → read_publication authorization verifier body ≡ m
          → Publishes body now id s (elim m [
            | fail r ↦ (s, r)
            | pass p ↦ (
              publish (publication now id p) s,
              record { status = created; payload = to_api_dict (publication now id p) },
            )
          ])
      publishes (fail r) e = inl (refl, read_publication_fails body r e)
      publishes (pass p) e = inr (p, read_publication-IsAdmissible body p e, refl, refl)
