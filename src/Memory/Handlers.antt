-- ===== src/Memory/Handlers.antt =====
-- The handlers of memory.py: record, list, recall, delete.
use private_ai_workspace_eks.Prelude.{
  ℕ, String, Bool, true, false, Option, none, some, [], ◌∷◌, ltb, map, length, string_eq, nat_eq,
  if◌then◌else◌, ◌==◌,
}
use private_ai_workspace_eks.Prelude.Text.{is_empty, strip, len}
use private_ai_workspace_eks.Json.{Json, ℤ, pos, Python, str, int, bool, arr, items, get, get_or}
use private_ai_workspace_eks.Http.{
  Response, ok, created, bad_request, forbidden, not_found, payload_too_large, respond,
  error_detail, unhandled, Result, pass, fail, require, clamp, not_json, not_object, read_object,
  ◌>>=◌, ◌>>◌,
}
use private_ai_workspace_eks.Auth.{
  TokenClaims, TokenVerifier, verify_and_extract, extract_tenant_id, owner_of,
}
use private_ai_workspace_eks.Embeddings.{
  Floats, Vector, EmbeddingClient, embed_one, embedding_dim, embedding_unavailable,
  dimension_mismatch, read_query,
}
use private_ai_workspace_eks.Memory.{
  MemoryItem, Store, to_api_dict, to_recall_dict, record_memory, list_for_user, recall, delete,
}

abbrev pub max_memory_chars : ℕ
max_memory_chars = 10000

abbrev pub max_list_limit : ℕ
max_list_limit = 200

-- `data.get("consent") is not True`
abbrev pub consents : Json → Bool
consents (bool b) = b
consents _ = false

abbrev missing_content : Response
missing_content =
    error_detail bad_request "bad_request" "'content' is required and must be a non-empty string."

unfoldable pub read_content : Json → Result String
read_content (str s) =
    if is_empty (strip s)
    then fail missing_content
    else if ltb max_memory_chars (len s)
    then fail (
        error_detail payload_too_large "payload_too_large"
          "'content' must not exceed 10000 characters.")
    else pass s
read_content _ = fail missing_content

module _ ⦃py : Python⦄ ⦃fl : Floats⦄ where
  abbrev pub new_memory : TokenClaims → String → String → ℕ → MemoryItem
  new_memory c content id now = record {
    id = id;
    tenant_id = extract_tenant_id c;
    user_id = c.subject;
    content = content;
    created_at = now;
  }

  -- The embedding of the content, then the record of the memory.
  unfoldable pub record_embedded : MemoryItem → Option (Option Vector) → Store → Store × Response
  record_embedded m none s = (s, embedding_unavailable)
  record_embedded m (some none) s = (s, unhandled)
  record_embedded m (some (some v)) s =
      (record_memory m v s, record { status = created; payload = to_api_dict m })

module _ ⦃py : Python⦄ ⦃fl : Floats⦄ (authorization : Option String)
    (verifier : Option TokenVerifier) where
  unfoldable pub read_record : String → Result (TokenClaims × String)
  read_record body = do
    c ← verify_and_extract authorization verifier
    d ← read_object not_json not_object body
    require (consents (get "consent" d)) (
        error_detail forbidden "consent_required"
          "Memory writes require explicit 'consent': true; implicit capture is not permitted.")
    content ← read_content (get_or "content" (str "") d)
    pass (c, content)

  unfoldable pub record_response : EmbeddingClient → String → String → ℕ → Store → Store × Response
  record_response client body id now s = elim (read_record body) [
    | fail r ↦ (s, r)
    | pass (c, content) ↦ record_embedded (new_memory c content id now) (embed_one client content) s
  ]

  unfoldable pub list_response : ℤ → Store → Response
  list_response limit s = elim (verify_and_extract authorization verifier) [
    | fail r ↦ r
    | pass c ↦
        let memories = list_for_user (owner_of c) (clamp limit max_list_limit) s in
        respond ok (
          ("memories", arr (items (map to_api_dict memories)))
          ∷ ("count", int (pos (length memories)))
          ∷ [])
  ]

  -- The embedding of the query, then the answer.
  unfoldable pub recall_embedded : TokenClaims → ℕ → Option (Option Vector) → Store → Response
  recall_embedded c top_k none s = embedding_unavailable
  recall_embedded c top_k (some none) s = unhandled
  recall_embedded c top_k (some (some v)) s =
      let results = recall (owner_of c) v top_k s in
      if length v == embedding_dim
      then respond ok (
          ("results", arr (items (map to_recall_dict results)))
          ∷ ("count", int (pos (length results)))
          ∷ [])
      else dimension_mismatch

  unfoldable pub recall_response : EmbeddingClient → String → Store → Response
  recall_response client body s = elim (read_query authorization verifier body) [
    | fail r ↦ r
    | pass (c, query, top_k) ↦ recall_embedded c top_k (embed_one client query) s
  ]

  abbrev deleted : String → Store × Bool → Store × Response
  deleted id (s, false) = (s, error_detail not_found "not_found" "Memory not found.")
  deleted id (s, true) = (s, respond ok (("id", str id) ∷ ("deleted", bool true) ∷ []))

  unfoldable pub delete_response : String → Store → Store × Response
  delete_response id s = elim (verify_and_extract authorization verifier) [
    | fail r ↦ (s, r)
    | pass c ↦ deleted id (delete (owner_of c) id s)
  ]
