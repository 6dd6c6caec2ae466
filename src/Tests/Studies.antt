-- ===== src/Tests/Studies.antt =====
-- Tests of DeepResearch, with numbers for floats.
use private_ai_workspace_eks.Prelude.{ℕ, ◌+◌, ◌*◌, refl, false, some, none, [], ◌∷◌, ltb, map, All}
use private_ai_workspace_eks.Json.{pos, int, end, obj}
use private_ai_workspace_eks.Embeddings.{Floats}
use private_ai_workspace_eks.Retrieval.{Store}
use private_ai_workspace_eks.DeepResearch.{DeepResearchBudgets}
use private_ai_workspace_eks.DeepResearch.Handler.{Means, research}
use private_ai_workspace_eks.DeepResearch.Sources.{IsOwn, research-AllOwn}
use private_ai_workspace_eks.Tests.{python}

instance abbrev numbers : Floats
numbers = record {
  Float = ℕ;
  zero_float = 0;
  add = λ a b. a + b;
  mul = λ a b. a * b;
  lt = ltb;
  rounded = λ n. int (pos n);
}

abbrev means : Means
means = record {
  late = λ n. false;
  chat = λ messages. some (obj end);
  embed = λ texts. some (map (λ t. 1 ∷ 2 ∷ []) texts);
  web = none;
}

abbrev budgets : DeepResearchBudgets
budgets = record { max_subqueries = 4; top_k = 5; max_tokens = 512; model = "m" }

abbrev documents : Store
documents =
    (
      "acme.com",
      record {
        id = "c";
        document_id = "d";
        tenant_id = "acme.com";
        chunk_index = 0;
        content = "x";
        embedding = 1 ∷ 2 ∷ [];
        created_at = 5;
      }
          ∷ [],
    )
    ∷ []

research-AllOwn_example :
    All (IsOwn "acme.com" documents) (research budgets means "why" "acme.com" documents).sources
research-AllOwn_example = research-AllOwn budgets means "acme.com" documents refl "why"
