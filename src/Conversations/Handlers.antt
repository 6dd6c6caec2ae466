-- ===== src/Conversations/Handlers.antt =====
-- The handlers of conversations.py.
use private_ai_workspace_eks.Prelude.{
  ℕ, String, Bool, true, false, Option, none, some, [], ◌∷◌, ltb, contains, map, string_eq,
  if◌then◌else◌,
}
use private_ai_workspace_eks.Prelude.Text.{is_empty, strip, len}
use private_ai_workspace_eks.Json.{Json, Python, str, arr, obj, items, get}
use private_ai_workspace_eks.Http.{
  Response, ok, created, bad_request, not_found, payload_too_large, respond, error, error_detail,
  unhandled, Result, pass, fail, read_object, ◌>>=◌,
}
use private_ai_workspace_eks.Auth.{TokenClaims, TokenVerifier, verify_and_extract, owner_of}
use private_ai_workspace_eks.Conversations.{
  max_content_len, valid_roles, Message, Conversation, Entry, Store, summary, detail, create,
  list_for_user, delete, append,
}
use private_ai_workspace_eks.Conversations

abbrev missing : Response
missing = error not_found "not_found"

abbrev invalid : Response
invalid = error bad_request "bad_request"

abbrev bad_role : Response
bad_role = error_detail bad_request "bad_request" "role must be user|assistant|system"

-- `role not in _VALID_ROLES`: a list or a dict cannot be hashed, and raises.
unfoldable pub read_role : Json → Result String
unfolding valid_roles
read_role (str r) = if contains valid_roles r then pass r else fail bad_role
read_role (arr l) = fail unhandled
read_role (obj d) = fail unhandled
read_role _ = fail bad_role

abbrev content_required : Response
content_required = error_detail bad_request "bad_request" "'content' is required."

unfoldable pub read_content : Json → Result String
read_content (str s) =
    if is_empty s
    then fail content_required
    else if ltb max_content_len (len s)
    then fail (error payload_too_large "content_too_large")
    else pass s
read_content _ = fail content_required

-- The title that a value asks for.
abbrev title_text : Json → String
title_text (str s) = if is_empty (strip s) then "New conversation" else strip s
title_text _ = "New conversation"

abbrev title_of : Option Json → String
title_of (some (obj d)) = title_text (get "title" d)
title_of _ = "New conversation"

module _ ⦃py : Python⦄ where
  -- Any error in the body leaves the default title.
  unfoldable pub read_title : String → String
  read_title body = if is_empty body then "New conversation" else title_of (py.loads body)

  abbrev get_reply : Option Entry → Response
  get_reply none = missing
  get_reply (some e) = record { status = ok; payload = detail e }

  abbrev append_reply : Option Message → Response
  append_reply none = missing
  append_reply (some m) = respond created (
      ("id", str m.id)
      ∷ ("role", str m.role)
      ∷ ("created_at", str (py.isoformat m.created_at))
      ∷ [])

abbrev delete_reply : String → Bool → Response
delete_reply id false = missing
delete_reply id true = respond ok (("status", str "deleted") ∷ ("id", str id) ∷ [])

module _ ⦃py : Python⦄ (authorization : Option String) (verifier : Option TokenVerifier) where
  abbrev created_reply : Store × Conversation → Store × Response
  created_reply (s, c) = (s, record { status = created; payload = summary c })

  unfoldable pub create_response : String → ℕ → String → Store → Store × Response
  create_response id now body s = elim (verify_and_extract authorization verifier) [
    | fail r ↦ (s, r)
    | pass c ↦ created_reply (create (owner_of c) id (read_title body) now s)
  ]

  unfoldable pub list_response : ℕ → Store → Response
  list_response limit s = elim (verify_and_extract authorization verifier) [
    | fail r ↦ r
    | pass c ↦
        respond ok
          (("conversations", arr (items (map summary (list_for_user (owner_of c) limit s)))) ∷ [])
  ]

  unfoldable pub get_response : String → Store → Response
  get_response id s = elim (verify_and_extract authorization verifier) [
    | fail r ↦ r
    | pass c ↦ get_reply (Conversations.get (owner_of c) id s)
  ]

  abbrev deleted : String → Store × Bool → Store × Response
  deleted id (s, done) = (s, delete_reply id done)

  unfoldable pub delete_response : String → Store → Store × Response
  delete_response id s = elim (verify_and_extract authorization verifier) [
    | fail r ↦ (s, r)
    | pass c ↦ deleted id (delete (owner_of c) id s)
  ]

  unfoldable pub read_message : String → Result (TokenClaims × String × String)
  read_message body = do
    c ← verify_and_extract authorization verifier
    d ← read_object invalid invalid body
    role ← read_role (get "role" d)
    content ← read_content (get "content" d)
    pass (c, role, content)

  abbrev added : Store × Option Message → Store × Response
  added (s, m) = (s, append_reply m)

  unfoldable pub append_response : String → String → ℕ → String → Store → Store × Response
  append_response id message_id now body s = elim (read_message body) [
    | fail r ↦ (s, r)
    | pass (c, role, content) ↦ added (append (owner_of c) id role content message_id now s)
  ]
