-- ===== src/Tests/Passages.antt =====
-- Tests of the passages that a query gives, with numbers for floats.
use private_ai_workspace_eks.Prelude.{ℕ, ◌+◌, ◌*◌, List, [], ◌∷◌, ltb, map, arith, string_eq}
use private_ai_workspace_eks.Json.{pos, int}
use private_ai_workspace_eks.Embeddings.{Floats}
use private_ai_workspace_eks.Ranking.Best.{IsOrder, IsTopK}
use private_ai_workspace_eks.Retrieval.{
  RetrievedPassage, DocumentChunk, Store, scored, chunks_of, query,
}
use private_ai_workspace_eks.Retrieval.Best.{query-IsTopK}

instance abbrev counted : Floats
counted = record {
  Float = ℕ;
  zero_float = 0;
  add = λ a b. a + b;
  mul = λ a b. a * b;
  lt = ltb;
  rounded = λ n. int (pos n);
}

ltb-IsOrder : IsOrder ltb
ltb-IsOrder = record { asym = λ a b h. ground arith; trans = λ a b c h k. ground arith }

abbrev chunk : ℕ → List ℕ → DocumentChunk
chunk index embedding = record {
  id = "c";
  document_id = "d";
  tenant_id = "acme.com";
  chunk_index = index;
  content = "words";
  embedding = embedding;
  created_at = 5;
}

abbrev indexed : Store
indexed = ("acme.com", chunk 0 (1 ∷ 0 ∷ []) ∷ chunk 1 (2 ∷ 3 ∷ []) ∷ []) ∷ []

query-IsTopK_example :
    (others : List RetrievedPassage) × (IsTopK ltb
      (λ p. p.score)
      1
      (map (scored (1 ∷ 1 ∷ [])) (chunks_of "acme.com" indexed))
      (query "acme.com" (1 ∷ 1 ∷ []) 1 indexed)
      others)
query-IsTopK_example = query-IsTopK ltb-IsOrder "acme.com" (1 ∷ 1 ∷ []) 1 indexed
