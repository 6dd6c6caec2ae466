-- ===== src/Notifications/Handlers.antt =====
-- The handlers of notifications.py: list, publish, read. The clock and the fresh id are arguments.
pub mod Laws
use private_ai_workspace_eks.Prelude.{
  ℕ, String, Bool, true, false, Option, none, some, List, [], ◌∷◌, ◌||◌, not, ltb, contains, map,
  length, string_eq, if◌then◌else◌,
}
use private_ai_workspace_eks.Prelude.Text.{is_empty, strip, len}
use private_ai_workspace_eks.Json.{
  Json, ℤ, pos, Fields, Python, null, str, int, arr, obj, dict, items, get_or, has,
}
use private_ai_workspace_eks.Http.{
  Response, ok, created, bad_request, not_found, unprocessable, error_detail, unhandled, Result,
  pass, fail, require, respond, clamp, not_json, not_object, read_object, ◌>>=◌, ◌>>◌,
}
use private_ai_workspace_eks.Auth.{
  TokenClaims, TokenVerifier, verify_and_extract, extract_tenant_id, owner_of,
}
use private_ai_workspace_eks.Notifications.{
  NotificationEvent, Owner, allowed_event_classes, max_resource_id_len, to_api_dict,
}
use private_ai_workspace_eks.Notifications.Store.{Store, list_for_user, publish, mark_read}

abbrev invalid_event_class : Response
invalid_event_class =
    error_detail unprocessable "invalid_event_class"
      "event_class must be one of: ['agent_task_completed', 'agent_task_done', 'agent_task_failed', 'agent_task_progress', 'indexing_complete', 'media_generation_complete', 'media_task_completed', 'media_task_failed', 'model_install_requested', 'model_install_updated', 'system_notice']"

-- `event_class not in ALLOWED_EVENT_CLASSES`: a list or a dict cannot be hashed, and raises.
unfoldable pub read_event_class : Json → Result String
unfolding allowed_event_classes
read_event_class (str c) =
    if contains allowed_event_classes c then pass c else fail invalid_event_class
read_event_class (arr l) = fail unhandled
read_event_class (obj d) = fail unhandled
read_event_class _ = fail invalid_event_class

abbrev missing_resource : Response
missing_resource =
    error_detail bad_request "bad_request"
      "'resource_id' is required and must be a non-empty string."

unfoldable pub read_resource_id : Json → Result String
read_resource_id (str r) =
    if is_empty (strip r)
    then fail missing_resource
    else if ltb max_resource_id_len (len r)
    then fail
        (error_detail bad_request "bad_request" "'resource_id' must not exceed 256 characters.")
    else pass r
read_resource_id _ = fail missing_resource

abbrev policy_violation : Response
policy_violation =
    error_detail bad_request "policy_violation"
      "Notification events must not carry prompt or completion content."

-- `"content" in data or "prompt" in data or "completion" in data`
abbrev pub carries_content : Fields → Bool
carries_content d = has "content" d || has "prompt" d || has "completion" d

module _ ⦃py : Python⦄ where
  abbrev pub publication : ℕ → String → TokenClaims × String × String → NotificationEvent
  publication now id (c, event_class, resource_id) = record {
    id = id;
    tenant_id = extract_tenant_id c;
    user_id = c.subject;
    event_class = event_class;
    resource_id = strip resource_id;
    created_at = now;
    read_at = none;
  }

  abbrev read_reply : Store × Option NotificationEvent → Store × Response
  read_reply (s, none) =
      (s, error_detail not_found "not_found" "Notification not found or already read.")
  read_reply (s, some e) = (s, record { status = ok; payload = to_api_dict e })

module _ ⦃py : Python⦄ (authorization : Option String) (verifier : Option TokenVerifier) where
  unfoldable pub list_response : Bool → ℤ → Store → Response
  list_response include_read limit s = elim (verify_and_extract authorization verifier) [
    | fail r ↦ r
    | pass c ↦
        let events = list_for_user (owner_of c) (clamp limit 100) include_read s in
        respond ok (
          ("notifications", arr (items (map to_api_dict events)))
          ∷ ("count", int (pos (length events)))
          ∷ [])
  ]

  -- The checks of the publish handler up to the event's two texts.
  unfoldable pub read_publication : String → Result (TokenClaims × String × String)
  read_publication body = do
    c ← verify_and_extract authorization verifier
    d ← read_object not_json not_object body
    event_class ← read_event_class (get_or "event_class" (str "") d)
    resource_id ← read_resource_id (get_or "resource_id" (str "") d)
    require (not (carries_content d)) policy_violation
    pass (c, event_class, resource_id)

  unfoldable pub publish_response : String → ℕ → String → Store → Store × Response
  publish_response body now id s = elim (read_publication body) [
    | fail r ↦ (s, r)
    | pass p ↦
        let e = publication now id p in
        (publish e s, record { status = created; payload = to_api_dict e })
  ]

  unfoldable pub read_response : String → ℕ → Store → Store × Response
  read_response id now s = elim (verify_and_extract authorization verifier) [
    | fail r ↦ (s, r)
    | pass c ↦ read_reply (mark_read (owner_of c) id now s)
  ]
