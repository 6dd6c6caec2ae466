-- ===== src/Retrieval/Best.antt =====
-- What a query shows: the best chunks of the caller's tenant, and none of another tenant.
use private_ai_workspace_eks.Prelude.{
  ℕ, String, ◌≡◌, ◌≢◌, refl, inl, inr, false, Option, none, some, List, arith, string_eq, ◌==◌,
  drop, map, ◌++◌,
}
use private_ai_workspace_eks.Prelude.Dict
use private_ai_workspace_eks.Json.{Python}
use private_ai_workspace_eks.Http.{pass, Result-cases}
use private_ai_workspace_eks.Auth.{
  TokenClaims, TokenVerifier, verify_and_extract, extract_tenant_id,
}
use private_ai_workspace_eks.Notifications.Emit.{Feed}
use private_ai_workspace_eks.Embeddings.{Floats, Vector, EmbeddingClient, embed_one, read_query}
use private_ai_workspace_eks.Ranking.{sort_desc}
use private_ai_workspace_eks.Ranking.Best.{IsOrder, IsTopK, take-sort_desc}
use private_ai_workspace_eks.Retrieval.{
  RetrievedPassage, DocumentChunk, Store, scored, chunks_of, index_document, query,
}
use private_ai_workspace_eks.Retrieval.Handlers.{
  Stamps, chunks_from, read_document, index_embedded, index_response, query_embedded,
  query_response,
}

module _ ⦃fl : Floats⦄ where
  -- Where the scores are ordered, a query gives `top_k` passages of the caller's tenant, or all of
  -- them if there are fewer, best first, and together with some others, none of which has a higher
  -- score than any of them, they are all the chunks of the tenant with their scores.
  pub query-IsTopK :
      IsOrder fl.lt
      → (tenant : String) (embedding : Vector) (top_k : ℕ) (s : Store)
      → (others : List RetrievedPassage) × IsTopK fl.lt
          (λ p. p.score)
          top_k
          (map (scored embedding) (chunks_of tenant s))
          (query tenant embedding top_k s)
          others
  unfolding query
  query-IsTopK o tenant embedding top_k s =
      let all = map (scored embedding) (chunks_of tenant s) in
      (
        drop top_k (sort_desc fl.lt (λ p. p.score) all),
        take-sort_desc fl.lt (λ p. p.score) o top_k all,
      )

  query-index_document :
      (tenant by : String) (embedding : Vector) (top_k : ℕ) (chunks : List DocumentChunk)
      (s : Store)
      → tenant ≢ by
      → query tenant embedding top_k (index_document by chunks s) ≡ query tenant embedding top_k s
  unfolding query index_document chunks_of
  query-index_document tenant by embedding top_k chunks s h =
      let differ : (tenant == by) ≡ false = ground arith in
      rw (Dict.lookup-insert tenant by (chunks_of by s ++ chunks) s) (rw differ)

module _ ⦃py : Python⦄ ⦃fl : Floats⦄ where
  query_embedded-other :
      (tenant by : String) (top_k : ℕ) (v : Option (Option Vector)) (chunks : List DocumentChunk)
      (s : Store)
      → tenant ≢ by
      → query_embedded tenant top_k v (index_document by chunks s) ≡ query_embedded tenant top_k v s
  unfolding query_embedded
  query_embedded-other tenant by top_k none chunks s differ = refl
  query_embedded-other tenant by top_k (some none) chunks s differ = refl
  query_embedded-other tenant by top_k (some (some v)) chunks s differ =
      rw (query-index_document tenant by v top_k chunks s differ)

  index_embedded-other :
      (tenant : String) (top_k : ℕ) (v : Option (Option Vector)) (m : Stamps) (d : TokenClaims)
      (title : String) (contents : List String) (vectors : Option (List Vector)) (s : Store)
      (feed : Feed)
      → tenant ≢ extract_tenant_id d
      → query_embedded tenant top_k v (index_embedded m d title contents vectors s feed).0
        ≡ query_embedded tenant top_k v s
  unfolding index_embedded
  index_embedded-other tenant top_k v m d title contents none s feed differ = refl
  index_embedded-other tenant top_k v m d title contents (some vectors) s feed differ =
      query_embedded-other tenant (extract_tenant_id d) top_k v
        (chunks_from m (extract_tenant_id d) 0 contents vectors) s differ

  module _ (verifier : Option TokenVerifier) (h g : Option String) (c d : TokenClaims) where
    read_query-caller :
        (body : String) (c' : TokenClaims) (q : String) (k : ℕ)
        → verify_and_extract h verifier ≡ pass c
        → read_query h verifier body ≡ pass (c', q, k)
        → c' ≡ c
    unfolding read_query
    read_query-caller body c' q k e e' = ground arith

    read_document-caller :
        (body : String) (d' : TokenClaims) (t : String) (cs : List String)
        → verify_and_extract g verifier ≡ pass d
        → read_document g verifier body ≡ pass (d', t, cs)
        → d' ≡ d
    unfolding read_document
    read_document-caller body d' t cs e e' = ground arith

    module _ (client client' : EmbeddingClient) (body body' : String) (m : Stamps) (s : Store)
        (feed : Feed) (caller : verify_and_extract h verifier ≡ pass c)
        (indexer : verify_and_extract g verifier ≡ pass d)
        (differ : extract_tenant_id c ≢ extract_tenant_id d) where
      query_embedded-index :
          (top_k : ℕ) (v : Option (Option Vector))
          → query_embedded
              (extract_tenant_id c)
              top_k
              v
              (index_response g verifier client' body' m s feed).0
            ≡ query_embedded (extract_tenant_id c) top_k v s
      unfolding index_response
      query_embedded-index top_k v = elim (Result-cases (read_document g verifier body')) [
        | inl (r, e) ↦ rw (e, index_response) refl
        | inr ((d', t, cs), e) ↦
            rw (e, index_response)
              (index_embedded-other (extract_tenant_id c) top_k v m d' t cs (client' cs) s feed
                (rw (read_document-caller body' d' t cs indexer e) differ))
      ]

      -- Whatever a caller of one tenant indexes, a query of a caller of another tenant is answered
      -- as before.
      pub query_response-index_response :
          query_response h verifier client body (index_response g verifier client' body' m s feed).0
          ≡ query_response h verifier client body s
      unfolding query_response
      query_response-index_response = elim (Result-cases (read_query h verifier body)) [
        | inl (r, e) ↦ rw (e, query_response) refl
        | inr ((c', q, k), e) ↦
            rw (e, query_response)
              (rw (read_query-caller body c' q k caller e)
                (query_embedded-index k (embed_one client q)))
      ]
