-- ===== src/Embeddings.antt =====
-- What retrieval.py and memory.py share: embeddings, the similarity of two of them, and the
-- checks of a query. Python's floats, and the client that embeds a text, are parameters.
use private_ai_workspace_eks.Prelude.{
  ℕ, String, Bool, Option, none, some, List, [], ◌∷◌, ltb, string_eq, if◌then◌else◌, nat_eq,
}
use private_ai_workspace_eks.Prelude.Text.{is_empty, strip, len}
use private_ai_workspace_eks.Json.{Json, pos, Python, str, int, get_or}
use private_ai_workspace_eks.Http.{
  Response, bad_request, unavailable, internal_error, error_detail, degraded, Result, pass, fail,
  clamp, not_json, not_object, read_object, ◌>>=◌,
}
use private_ai_workspace_eks.Auth.{TokenClaims, TokenVerifier, verify_and_extract}

-- The operations on floats that the program uses; `rounded` is `round(x, 6)` as a JSON value.
pub record Floats : Type 1 where
  pub Float : Type 0
  pub zero_float : Float
  pub add : Float → Float → Float
  pub mul : Float → Float → Float
  pub lt : Float → Float → Bool
  pub rounded : Float → Json

module _ ⦃fl : Floats⦄ where
  abbrev pub Vector : Type 0
  Vector = List fl.Float

  -- `_cosine` from a partial sum: the products are added in order.
  unfoldable pub dot : fl.Float → Vector → Vector → fl.Float
  dot sum [] b = sum
  dot sum (x ∷ a) [] = sum
  dot sum (x ∷ a) (y ∷ b) = dot (fl.add sum (fl.mul x y)) a b

  -- `_cosine`
  unfoldable pub cosine : Vector → Vector → fl.Float
  unfolding dot
  cosine a b = dot fl.zero_float a b

  -- `embed`, for each text in order; `none` is an `EmbeddingError`.
  abbrev pub EmbeddingClient : Type 0
  EmbeddingClient = List String → Option (List Vector)

  -- `embed_measured(client, [text])[0]`; an answer without a vector raises `IndexError`.
  unfoldable pub embed_one : EmbeddingClient → String → Option (Option Vector)
  embed_one client text = elim (client (text ∷ [])) [
    | none ↦ none
    | some [] ↦ some none
    | some (v ∷ vs) ↦ some (some v)
  ]

abbrev pub embedding_dim : ℕ
embedding_dim = 384

abbrev pub embedding_unavailable : Response
embedding_unavailable =
    degraded unavailable "embedding_unavailable"
      "The embedding backend is unavailable; try again later."

abbrev pub max_query_chars : ℕ
max_query_chars = 2000

abbrev pub max_top_k : ℕ
max_top_k = 20

abbrev missing_query : Response
missing_query =
    error_detail bad_request "bad_request" "'query' is required and must be a non-empty string."

-- `isinstance(query, str) and query.strip()`, and the bound
unfoldable pub query_text : Json → Result String
query_text (str q) =
    if is_empty (strip q)
    then fail missing_query
    else if ltb max_query_chars (len q)
    then fail (error_detail bad_request "bad_request" "'query' must not exceed 2000 characters.")
    else pass q
query_text _ = fail missing_query

unfoldable pub top_k_of : Json → Result ℕ
top_k_of (int n) = pass (clamp n max_top_k)
top_k_of _ = fail (error_detail bad_request "bad_request" "'top_k' must be an integer.")

abbrev pub dimension_mismatch : Response
dimension_mismatch = error_detail internal_error "internal_error" "embedding dimension mismatch."

-- The checks of a query and of its bound, which both modules make alike.
unfoldable pub read_query :
    ⦃py : Python⦄
    → Option String
    → Option TokenVerifier
    → String
    → Result (TokenClaims × String × ℕ)
read_query authorization verifier body = do
  c ← verify_and_extract authorization verifier
  d ← read_object not_json not_object body
  query ← query_text (get_or "query" (str "") d)
  top_k ← top_k_of (get_or "top_k" (int (pos 5)) d)
  pass (c, query, top_k)
