-- ===== src/Retrieval/Handlers.antt =====
-- The handlers of retrieval.py that index a document and answer a query. The fresh ids, one for
-- each chunk, are arguments.
use private_ai_workspace_eks.Prelude.{
  ℕ, suc, String, Option, none, some, List, [], ◌∷◌, ltb, leb, map, length, string_eq, nat_eq,
  if◌then◌else◌, ◌==◌,
}
use private_ai_workspace_eks.Prelude.Text.{is_empty, strip, len}
use private_ai_workspace_eks.Json.{Json, pos, Python, str, int, arr, items, get_or}
use private_ai_workspace_eks.Http.{
  Response, ok, created, bad_request, payload_too_large, respond, error_detail, unhandled, Result,
  pass, fail, require, not_json, not_object, read_object, ◌>>=◌, ◌>>◌,
}
use private_ai_workspace_eks.Auth.{
  TokenClaims, TokenVerifier, verify_and_extract, extract_tenant_id, owner_of,
}
use private_ai_workspace_eks.Notifications.Emit.{Feed, emit, event}
use private_ai_workspace_eks.Embeddings.{
  Floats, Vector, EmbeddingClient, embed_one, embedding_dim, embedding_unavailable,
  dimension_mismatch, read_query,
}
use private_ai_workspace_eks.Retrieval.{
  chunk_chars, chunk_text, DocumentChunk, Store, to_api_dict, index_document, query,
}

abbrev pub max_title_len : ℕ
max_title_len = 256

abbrev pub max_document_chars : ℕ
max_document_chars = 100000

abbrev pub max_chunks_per_document : ℕ
max_chunks_per_document = 400

abbrev missing_title : Response
missing_title =
    error_detail bad_request "bad_request" "'title' is required and must be a non-empty string."

unfoldable pub read_title : Json → Result String
read_title (str t) =
    if is_empty (strip t)
    then fail missing_title
    else if ltb max_title_len (len t)
    then fail (error_detail bad_request "bad_request" "'title' must not exceed 256 characters.")
    else pass t
read_title _ = fail missing_title

abbrev missing_content : Response
missing_content =
    error_detail bad_request "bad_request" "'content' is required and must be a non-empty string."

unfoldable pub read_content : Json → Result String
read_content (str s) =
    if is_empty (strip s)
    then fail missing_content
    else if ltb max_document_chars (len s)
    then fail (
        error_detail payload_too_large "payload_too_large"
          "'content' must not exceed 100000 characters.")
    else pass s
read_content _ = fail missing_content

-- The fresh ids of an index request, and its time.
pub record Stamps : Type 0 where
  pub document_id : String
  pub chunk_id : ℕ → String
  pub event_id : String
  pub now : ℕ

module _ ⦃py : Python⦄ ⦃fl : Floats⦄ where
  -- `enumerate(zip(chunk_contents, vectors))`, from index `i`: the shorter list ends it.
  unfoldable pub chunks_from : Stamps → String → ℕ → List String → List Vector → List DocumentChunk
  chunks_from m tenant i [] vs = []
  chunks_from m tenant i (c ∷ cs) [] = []
  chunks_from m tenant i (c ∷ cs) (v ∷ vs) =
      record {
        id = m.chunk_id i;
        document_id = m.document_id;
        tenant_id = tenant;
        chunk_index = i;
        content = c;
        embedding = v;
        created_at = m.now;
      }
      ∷ chunks_from m tenant (suc i) cs vs

  -- From the embeddings on: index, notify, answer.
  unfoldable pub index_embedded :
      Stamps
      → TokenClaims
      → String
      → List String
      → Option (List Vector)
      → Store
      → Feed
      → Store × Feed × Response
  unfolding chunks_from
  index_embedded m c title contents none s feed = (s, feed, embedding_unavailable)
  index_embedded m c title contents (some vectors) s feed =
      let chunks = chunks_from m (extract_tenant_id c) 0 contents vectors in
      (
        index_document (extract_tenant_id c) chunks s,
        emit (event m.event_id (owner_of c) "indexing_complete" m.document_id m.now) feed,
        respond created (
            ("document_id", str m.document_id)
            ∷ ("title", str (strip title))
            ∷ ("chunk_count", int (pos (length chunks)))
            ∷ []),
      )

  -- The embedding of the query, then the answer.
  unfoldable pub query_embedded : String → ℕ → Option (Option Vector) → Store → Response
  query_embedded tenant top_k none s = embedding_unavailable
  query_embedded tenant top_k (some none) s = unhandled
  query_embedded tenant top_k (some (some v)) s =
      if length v == embedding_dim
      then respond ok (
          ("results", arr (items (map to_api_dict (query tenant v top_k s))))
          ∷ ("count", int (pos (length (query tenant v top_k s))))
          ∷ [])
      else dimension_mismatch

module _ ⦃py : Python⦄ ⦃fl : Floats⦄ (authorization : Option String)
    (verifier : Option TokenVerifier) where
  unfoldable pub read_document : String → Result (TokenClaims × String × List String)
  read_document body = do
    c ← verify_and_extract authorization verifier
    d ← read_object not_json not_object body
    title ← read_title (get_or "title" (str "") d)
    content ← read_content (get_or "content" (str "") d)
    require (leb (length (chunk_text chunk_chars content)) max_chunks_per_document) (
        error_detail payload_too_large "payload_too_large"
          "document produces more than 400 chunks.")
    pass (c, title, chunk_text chunk_chars content)

  unfoldable pub index_response :
      EmbeddingClient → String → Stamps → Store → Feed → Store × Feed × Response
  index_response client body m s feed = elim (read_document body) [
    | fail r ↦ (s, feed, r)
    | pass (c, title, contents) ↦ index_embedded m c title contents (client contents) s feed
  ]

  unfoldable pub query_response : EmbeddingClient → String → Store → Response
  query_response client body s = elim (read_query authorization verifier body) [
    | fail r ↦ r
    | pass (c, query, top_k) ↦ query_embedded (extract_tenant_id c) top_k (embed_one client query) s
  ]
