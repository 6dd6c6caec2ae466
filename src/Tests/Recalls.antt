-- ===== src/Tests/Recalls.antt =====
-- Tests of Memory and Retrieval, with numbers for floats.
use private_ai_workspace_eks.Prelude.{
  ℕ, ◌+◌, ◌*◌, String, ◌≡◌, ◌≢◌, refl, some, none, List, [], ◌∷◌, ltb, map, arith, string_eq,
}
use private_ai_workspace_eks.Prelude.Text.{
  split_word, span_word, strip, lstrip, rstrip, is_space, has_char, after,
}
use private_ai_workspace_eks.Json.{pos, int}
use private_ai_workspace_eks.Http.{pass}
use private_ai_workspace_eks.Auth.{verify_and_extract, bearer_token, extract_tenant_id}
use private_ai_workspace_eks.Embeddings.{Floats, EmbeddingClient}
use private_ai_workspace_eks.OwnedItems.{bucket}
use private_ai_workspace_eks.Ranking.Best.{IsOrder, IsTopK}
use private_ai_workspace_eks.Memory.{RecalledMemory, Store, memory_owned, scored, recall}
use private_ai_workspace_eks.Memory.Handlers.{record_response}
use private_ai_workspace_eks.Memory.Recall.{Records, recall-IsTopK, record_response-Records}
use private_ai_workspace_eks.Retrieval.{split, join, chunk_text}
use private_ai_workspace_eks.Retrieval.Chunks.{Fits, concat, chunk_text-Fits}
use private_ai_workspace_eks.Retrieval.Handlers.{Stamps, index_response, query_response}
use private_ai_workspace_eks.Retrieval.Best.{query_response-index_response}
use private_ai_workspace_eks.Prelude.{All}
use private_ai_workspace_eks.Tests.{
  python, alice, carol, verify, verify_two, memory_body, document_body, query_body,
}

instance abbrev numbers : Floats
numbers = record {
  Float = ℕ;
  zero_float = 0;
  add = λ a b. a + b;
  mul = λ a b. a * b;
  lt = ltb;
  rounded = λ n. int (pos n);
}

abbrev client : EmbeddingClient
client texts = some (map (λ t. 1 ∷ 2 ∷ []) texts)

ltb-IsOrder : IsOrder ltb
ltb-IsOrder = record { asym = λ a b h. ground arith; trans = λ a b c h k. ground arith }

abbrev memories : Store
memories =
    (
      ("acme.com", "alice"),
      (
        record {
          id = "1";
          tenant_id = "acme.com";
          user_id = "alice";
          content = "c";
          created_at = 5;
        },
        1 ∷ 2 ∷ [],
      )
          ∷ [],
    )
    ∷ []

recall-IsTopK_example :
    (others : List RecalledMemory) × (IsTopK ltb
      (λ r. r.score)
      3
      (map (scored (1 ∷ 0 ∷ [])) (bucket ("acme.com", "alice") memories))
      (recall ("acme.com", "alice") (1 ∷ 0 ∷ []) 3 memories)
      others)
recall-IsTopK_example = recall-IsTopK ltb-IsOrder ("acme.com", "alice") (1 ∷ 0 ∷ []) 3 memories

record_response-Records_example :
    Records
      (some "Bearer tok")
      (some verify)
      client
      memory_body
      "2"
      6
      memories
      (record_response (some "Bearer tok") (some verify) client memory_body "2" 6 memories)
record_response-Records_example =
    record_response-Records (some "Bearer tok") (some verify) client memory_body "2" 6 memories

chunk_text-Fits_example :
    (groups : List (List String)) × (chunk_text 7 "one two three" ≡ map join groups)
    × (concat groups ≡ split "one two three")
    × All (Fits 7) groups
chunk_text-Fits_example = chunk_text-Fits 7 "one two three"

abbrev stamps : Stamps
stamps = record { document_id = "d"; chunk_id = λ n. "c"; event_id = "e"; now = 5 }

verify_alice : verify_and_extract (some "Bearer tok") (some verify_two) ≡ pass alice
unfolding verify_and_extract bearer_token split_word span_word strip lstrip rstrip is_space
    string_eq
verify_alice = refl

verify_carol : verify_and_extract (some "Bearer key") (some verify_two) ≡ pass carol
unfolding verify_and_extract bearer_token split_word span_word strip lstrip rstrip is_space
    string_eq
verify_carol = refl

tenants_differ : extract_tenant_id alice ≢ extract_tenant_id carol
unfolding extract_tenant_id has_char after string_eq
tenants_differ e = cc

query_response-index_response_example :
    query_response
      (some "Bearer tok")
      (some verify_two)
      client
      query_body
      (index_response (some "Bearer key") (some verify_two) client document_body stamps [] none).0
    ≡ query_response (some "Bearer tok") (some verify_two) client query_body []
query_response-index_response_example =
    query_response-index_response (some verify_two) (some "Bearer tok") (some "Bearer key") alice
      carol client client query_body document_body stamps [] none verify_alice verify_carol
      tenants_differ
