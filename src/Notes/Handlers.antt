-- ===== src/Notes/Handlers.antt =====
-- The handlers of notes.py: create, list, update, delete.
use private_ai_workspace_eks.Prelude.{
  ℕ, String, Bool, true, false, Option, none, some, [], ◌∷◌, ltb, contains, map, length, string_eq,
  if◌then◌else◌,
}
use private_ai_workspace_eks.Prelude.Text.{is_empty, strip, len}
use private_ai_workspace_eks.Json.{
  Json, ℤ, pos, Python, null, bool, int, str, arr, items, get, get_or, has, truthy,
}
use private_ai_workspace_eks.Http.{
  Response, ok, created, bad_request, not_found, payload_too_large, respond, error, error_detail,
  Result, pass, fail, clamp, not_json, read_object, ◌>>=◌,
}
use private_ai_workspace_eks.Auth.{
  TokenClaims, TokenVerifier, verify_and_extract, extract_tenant_id, owner_of,
}
use private_ai_workspace_eks.Notes.{
  NoteItem, kinds, to_api_dict, Patch, Store, create, list_for_user, update, delete,
}

abbrev pub max_title_chars : ℕ
max_title_chars = 500

abbrev pub max_body_chars : ℕ
max_body_chars = 20000

abbrev pub max_list_limit : ℕ
max_list_limit = 200

-- A field of a body, with the answers for one that is missing and one that is too long.
pub record TextField : Type 0 where
  pub limit : ℕ
  pub missing : Response
  pub too_long : Response

abbrev title_field : TextField
title_field = record {
  limit = max_title_chars;
  missing = error_detail bad_request "bad_request" "'title' is required.";
  too_long = error_detail payload_too_large "payload_too_large" "'title' exceeds 500 characters.";
}

abbrev body_field : TextField
body_field = record {
  limit = max_body_chars;
  missing = error_detail bad_request "bad_request" "'body' is required.";
  too_long = error_detail payload_too_large "payload_too_large" "'body' exceeds 20000 characters.";
}

abbrev within : TextField → String → Result String
within f s = if ltb f.limit (len s) then fail f.too_long else pass s

-- `_validate_text` with `required=True`, and without
unfoldable pub required_text : TextField → Json → Result String
required_text f (str s) = if is_empty (strip s) then fail f.missing else within f s
required_text f _ = fail f.missing

unfoldable pub optional_text : TextField → Json → Result String
optional_text f null = pass ""
optional_text f (str s) = within f s
optional_text f _ = fail f.missing

-- `kind not in _KINDS`
unfoldable pub read_kind : Json → Result String
unfolding kinds
read_kind (str k) =
    if contains kinds k
    then pass k
    else fail
        (error_detail bad_request "bad_request" "'kind' must be one of ['note', 'task', 'doc'].")
read_kind _ =
    fail (error_detail bad_request "bad_request" "'kind' must be one of ['note', 'task', 'doc'].")

abbrev no_detail : Response
no_detail = error bad_request "bad_request"

-- A key that is given, and one that is not.
abbrev given : Bool → Result String → Result (Option String)
given false r = pass none
given true (pass s) = pass (some s)
given true (fail e) = fail e

unfoldable pub read_done : Json → Result (Option Bool)
read_done null = pass none
read_done (bool b) = pass (some b)
read_done _ = fail (error_detail bad_request "bad_request" "'done' must be a boolean.")

abbrev pub invalid_kind : Response
invalid_kind = error_detail bad_request "bad_request" "invalid 'kind'."

-- `kind is None or kind in _KINDS`
abbrev known_kind : Option String → Bool
known_kind none = true
known_kind (some k) = contains kinds k

module _ ⦃py : Python⦄ where
  abbrev pub new_item : TokenClaims → String → ℕ → String × String × String × Bool → NoteItem
  new_item c id now (kind, title, body, done) = record {
    id = id;
    tenant_id = extract_tenant_id c;
    user_id = c.subject;
    kind = kind;
    title = title;
    body = body;
    done = done;
    created_at = now;
    updated_at = now;
  }

  abbrev pub update_reply : Option NoteItem → Response
  update_reply none = error not_found "not_found"
  update_reply (some n) = record { status = ok; payload = to_api_dict n }

abbrev pub delete_reply : String → Bool → Response
delete_reply id false = error not_found "not_found"
delete_reply id true = respond ok (("status", str "deleted") ∷ ("id", str id) ∷ [])

module _ ⦃py : Python⦄ (authorization : Option String) (verifier : Option TokenVerifier) where
  unfoldable pub read_create : String → ℕ → String → Result NoteItem
  read_create id now body = do
    c ← verify_and_extract authorization verifier
    d ← read_object not_json no_detail body
    kind ← read_kind (get_or "kind" (str "note") d)
    title ← required_text title_field (get "title" d)
    text ← optional_text body_field (get "body" d)
    pass (new_item c id now (kind, title, text, truthy (get_or "done" (bool false) d)))

  unfoldable pub create_response : String → ℕ → String → Store → Store × Response
  create_response id now body s = elim (read_create id now body) [
    | fail r ↦ (s, r)
    | pass n ↦ (create n s, record { status = created; payload = to_api_dict n })
  ]

  unfoldable pub list_response : Option String → ℤ → Store → Response
  list_response kind limit s = elim (verify_and_extract authorization verifier) [
    | fail r ↦ r
    | pass c ↦
        if known_kind kind
        then respond ok (
            (
              "notes",
              arr (
                  items (
                    map to_api_dict
                      (list_for_user (owner_of c) kind (clamp limit max_list_limit) s))),
            )
            ∷ (
              "count",
              int (pos (length (list_for_user (owner_of c) kind (clamp limit max_list_limit) s))),
            )
            ∷ [])
        else invalid_kind
  ]

  unfoldable pub read_update : String → Result (TokenClaims × Patch)
  read_update body = do
    c ← verify_and_extract authorization verifier
    d ← read_object not_json no_detail body
    title ← given (has "title" d) (required_text title_field (get "title" d))
    text ← given (has "body" d) (optional_text body_field (get "body" d))
    done ← read_done (get "done" d)
    pass (c, record { title = title; body = text; done = done })

  abbrev updated : Store × Option NoteItem → Store × Response
  updated (s, n) = (s, update_reply n)

  unfoldable pub update_response : String → ℕ → String → Store → Store × Response
  update_response id now body s = elim (read_update body) [
    | fail r ↦ (s, r)
    | pass (c, p) ↦ updated (update (owner_of c) id p now s)
  ]

  abbrev deleted : String → Store × Bool → Store × Response
  deleted id (s, done) = (s, delete_reply id done)

  unfoldable pub delete_response : String → Store → Store × Response
  delete_response id s = elim (verify_and_extract authorization verifier) [
    | fail r ↦ (s, r)
    | pass c ↦ deleted id (delete (owner_of c) id s)
  ]
