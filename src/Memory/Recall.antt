-- ===== src/Memory/Recall.antt =====
-- What is recalled, and what it takes to be remembered.
use private_ai_workspace_eks.Prelude.{
  ℕ, ◌≤◌, String, ◌≡◌, ◌≢◌, refl, ◌⊎◌, inl, inr, true, false, Option, none, some, List, arith,
  string_eq, drop, map,
}
use private_ai_workspace_eks.Prelude.Text.{is_empty, strip, len}
use private_ai_workspace_eks.Json.{Json, Fields, Python, bool, str, obj, get, get_or}
use private_ai_workspace_eks.Http.{
  Response, pass, fail, created, not_json, not_object, read_object, Result-cases,
}
use private_ai_workspace_eks.Http.Body.{Says, read_object-loads}
use private_ai_workspace_eks.Auth.{TokenClaims, TokenVerifier, verify_and_extract}
use private_ai_workspace_eks.Notifications.{Owner}
use private_ai_workspace_eks.OwnedItems.{bucket}
use private_ai_workspace_eks.Embeddings.{Floats, Vector, EmbeddingClient, embed_one}
use private_ai_workspace_eks.Ranking.{sort_desc}
use private_ai_workspace_eks.Ranking.Best.{IsOrder, IsTopK, take-sort_desc}
use private_ai_workspace_eks.Memory.{
  RecalledMemory, Store, memory_owned, scored, record_memory, recall,
}
use private_ai_workspace_eks.Memory.Handlers.{
  consents, max_memory_chars, read_content, read_record, new_memory, record_embedded,
  record_response,
}

module _ ⦃fl : Floats⦄ where
  -- Where the scores are ordered, `top_k` of the owner's own memories are recalled, or all of them
  -- if there are fewer, best first, and together with some others, none of which has a higher score
  -- than any of them, they are all the owner's memories with their scores.
  pub recall-IsTopK :
      IsOrder fl.lt
      → (key : Owner) (embedding : Vector) (top_k : ℕ) (s : Store)
      → (others : List RecalledMemory) × IsTopK fl.lt
          (λ r. r.score)
          top_k
          (map (scored embedding) (bucket key s))
          (recall key embedding top_k s)
          others
  unfolding recall
  recall-IsTopK o key embedding top_k s =
      let all = map (scored embedding) (bucket key s) in
      (
        drop top_k (sort_desc fl.lt (λ r. r.score) all),
        take-sort_desc fl.lt (λ r. r.score) o top_k all,
      )

consents-true : (v : Json) → consents v ≡ true → v ≡ bool true
consents-true v h = ground arith

module _ ⦃py : Python⦄ ⦃fl : Floats⦄ (authorization : Option String)
    (verifier : Option TokenVerifier) (client : EmbeddingClient) (body id : String) (now : ℕ)
    (s : Store) where
  -- What a memory has passed when it is stored.
  pub record IsConsented (c : TokenClaims) (content : String) : Type 0 where
    pub caller : verify_and_extract authorization verifier ≡ pass c
    pub consent : (d : Fields) → py.loads body ≡ some (obj d) → get "consent" d ≡ bool true
    pub text : Says body (λ d. get_or "content" (str "") d ≡ str content)
    pub nonempty : is_empty (strip content) ≡ false
    pub short : len content ≤ max_memory_chars

  abbrev pub Records : Store × Response → Type 0
  Records result =
      (result.0 ≡ s) × (result.1.status ≢ created)
      ⊎ ((c : TokenClaims) × (content : String) × (v : Vector) × IsConsented c content
          × (embed_one client content ≡ some (some v))
          × (result.0 ≡ record_memory (new_memory c content id now) v s)
          × (result.1.status ≡ created))

  read_content_lem : (v : Json) (content : String) → read_content v ≡ pass content → v ≡ str content
  unfolding read_content
  read_content_lem v content h = ground arith

  read_record_text :
      (c : TokenClaims) (content : String)
      → read_record authorization verifier body ≡ pass (c, content)
      → Says body (λ d. get_or "content" (str "") d ≡ str content)
  unfolding read_record
  read_record_text c content h = elim (Result-cases (read_object not_json not_object body)) [
    | inl (r, e) ↦ absurd (ground arith)
    | inr (d, e) ↦ (
      d,
      read_object-loads not_json not_object body d e,
      read_content_lem (get_or "content" (str "") d) content (ground arith),
    )
  ]

  read_record-IsConsented :
      (c : TokenClaims) (content : String)
      → read_record authorization verifier body ≡ pass (c, content)
      → IsConsented c content
  unfolding read_record read_object read_content
  read_record-IsConsented c content h = record {
    caller = ground arith;
    consent = λ d e. consents-true (get "consent" d) (ground arith);
    text = read_record_text c content h;
    nonempty = ground arith;
    short = ground arith;
  }

  read_record_fails :
      (r : Response) → read_record authorization verifier body ≡ fail r → r.status ≢ created
  unfolding read_record read_object read_content verify_and_extract
  read_record_fails r h = ground arith

  embedded-Records :
      (c : TokenClaims) (content : String)
      → IsConsented c content
      → (v : Option (Option Vector)) → embed_one client content ≡ v
      → Records (record_embedded (new_memory c content id now) v s)
  unfolding record_embedded
  embedded-Records c content h none e = inl (refl, λ k. cc)
  embedded-Records c content h (some none) e = inl (refl, λ k. cc)
  embedded-Records c content h (some (some v)) e = inr (c, content, v, h, e, refl, refl)

  -- A request to remember either leaves the store as it was and is not answered with 201, or its
  -- body carries the consent `true` and a text `content` that is not blank and has at most 10,000
  -- characters, and exactly that text is stored with its embedding for the verified caller.
  pub record_response-Records :
      Records (record_response authorization verifier client body id now s)
  unfolding record_response
  record_response-Records = elim (Result-cases (read_record authorization verifier body)) [
    | inl (r, h) ↦ rw (h, record_response) (inl (refl, read_record_fails r h))
    | inr ((c, content), h) ↦
        rw (h, record_response)
          (embedded-Records c content (read_record-IsConsented c content h)
            (embed_one client content) refl)
  ]
