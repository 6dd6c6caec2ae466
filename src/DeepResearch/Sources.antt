-- ===== src/DeepResearch/Sources.antt =====
-- What a completed run of deep research may cite.
use private_ai_workspace_eks.Prelude.{
  ℕ, String, ◌≡◌, Bool, true, Option, none, some, List, [], ◌∷◌, ◌++◌, arith, string_eq, Bool-cases,
  Option-cases, inl, inr, leb, contains, map, take, length, All, All-append, All-take,
}
use private_ai_workspace_eks.Json.{Python}
use private_ai_workspace_eks.Embeddings.{Floats, Vector, EmbeddingClient, embed_one}
use private_ai_workspace_eks.Ranking.{sort_desc, insert_ranked}
use private_ai_workspace_eks.Retrieval.{DocumentChunk, Store, chunks_of, query, scored}
use private_ai_workspace_eks.DeepResearch.{
  DeepResearchBudgets, DeepResearchOutcome, Passage, max_passages, is_seen, gather, retrieve, plan,
  synthesize, sources_of, passage,
}
use private_ai_workspace_eks.DeepResearch.Handler.{
  Means, answered, write_answer, search_web, with_passages, with_queries, research,
}

module _ {ℓ κ} {A : Type ℓ} {K : Type κ} (lt : K → K → Bool) (key : A → K) (P : A → Type 0) where
  All-insert_ranked : (x : A) (l : List A) → P x → All P l → All P (insert_ranked lt key x l)
  unfolding insert_ranked
  All-insert_ranked x [] p a = (p, tt)
  All-insert_ranked x (y ∷ l) p a = elim (Bool-cases (lt (key x) (key y))) [
    | inl worse ↦ rw worse (a.0, All-insert_ranked x l p a.1)
    | inr best ↦ rw best (p, a)
  ]

  All-sort_desc : (l : List A) → All P l → All P (sort_desc lt key l)
  unfolding sort_desc
  All-sort_desc [] a = tt
  All-sort_desc (x ∷ l) a = All-insert_ranked x (sort_desc lt key l) a.0 (All-sort_desc l a.1)

-- A document of the tenant: one of its chunks is from it.
abbrev pub IsOwn : ⦃fl : Floats⦄ → String → Store → String → Type 0
IsOwn tenant s d = contains (map (λ c. c.document_id) (chunks_of tenant s)) d ≡ true

module _ (P : String → Type 0) where
  abbrev AllFrom : List Passage → Type 0
  AllFrom = All (λ p. P p.document_id)

  gather-AllFrom :
      (ps found : List Passage) → AllFrom ps → AllFrom found → AllFrom (gather ps found).0
  unfolding gather
  gather-AllFrom [] found a h = h
  gather-AllFrom (p ∷ ps) found a h =
      let longer = All-append (λ q. P q.document_id) found (p ∷ []) h (a.0, tt) in
      elim (Bool-cases (is_seen p found)) [
        | inl seen ↦ rw (seen, gather) (gather-AllFrom ps found a.1 h)
        | inr new ↦ elim (Bool-cases (leb max_passages (length (found ++ (p ∷ []))))) [
          | inl full ↦ rw (new, full, gather) longer
          | inr room ↦ rw (new, room, gather) (gather-AllFrom ps (found ++ (p ∷ [])) a.1 longer)
        ]
      ]

  sources_of-All :
      (sources : List String) (ps : List Passage)
      → All P sources
      → AllFrom ps
      → All P (sources_of sources ps)
  unfolding sources_of
  sources_of-All sources [] h a = h
  sources_of-All sources (p ∷ ps) h a = elim (Bool-cases (contains sources p.document_id)) [
    | inl there ↦ rw (there, sources_of) (sources_of-All sources ps h a.1)
    | inr new ↦
        rw (new, sources_of)
          (sources_of-All (sources ++ (p.document_id ∷ [])) ps
            (All-append P sources (p.document_id ∷ []) h (a.0, tt)) a.1)
  ]

All-weaken {ℓ κ μ} :
    {A : Type ℓ} (P : A → Type κ) (Q : A → Type μ) (l : List A)
    → ((a : A) → P a → Q a)
    → All P l
    → All Q l
All-weaken P Q [] f h = tt
All-weaken P Q (x ∷ l) f h = (f x h.0, All-weaken P Q l f h.1)

All-map {ℓ κ μ} :
    {A : Type ℓ} {B : Type κ} (f : A → B) (P : B → Type μ) (l : List A)
    → All (λ a. P (f a)) l
    → All P (map f l)
All-map f P [] h = tt
All-map f P (x ∷ l) h = (h.0, All-map f P l h.1)

module _ ⦃fl : Floats⦄ where
  abbrev ids : List DocumentChunk → List String
  ids l = map (λ c. c.document_id) l

  All-ids : (l : List DocumentChunk) → All (λ c. contains (ids l) c.document_id ≡ true) l
  All-ids [] = tt
  All-ids (c ∷ l) = (
    ground arith,
    All-weaken (λ d. contains (ids l) d.document_id ≡ true)
        (λ d. contains (ids (c ∷ l)) d.document_id ≡ true) l (λ d h. ground arith) (All-ids l),
  )

  module _ (tenant : String) (s : Store) where
    query-AllOwn :
        (v : Vector) (k : ℕ)
        → All (λ p. IsOwn tenant s p.document_id) (map passage (query tenant v k s))
    unfolding query
    query-AllOwn v k =
        let scored_chunks = map (scored v) (chunks_of tenant s) in
        let sorted = sort_desc fl.lt (λ p. p.score) scored_chunks in
        All-map passage (λ p. IsOwn tenant s p.document_id) (take k sorted)
          (All-take (λ p. IsOwn tenant s p.document_id) k sorted
            (All-sort_desc fl.lt (λ p. p.score) (λ p. IsOwn tenant s p.document_id) scored_chunks
              (All-map (scored v) (λ p. IsOwn tenant s p.document_id) (chunks_of tenant s)
                (All-ids (chunks_of tenant s)))))

    -- The passages that a retrieval gives, if it gives any.
    abbrev AllOwn : Option (List Passage) → Type 0
    AllOwn none = Unit
    AllOwn (some ps) = All (λ p. IsOwn tenant s p.document_id) ps

    retrieve-AllOwn :
        (b : DeepResearchBudgets) (client : EmbeddingClient) (qs : List String)
        (found : List Passage)
        → All (λ p. IsOwn tenant s p.document_id) found
        → AllOwn (retrieve b client tenant s qs found)
    unfolding retrieve
    retrieve-AllOwn b client [] found h = h
    retrieve-AllOwn b client (q ∷ qs) found h = elim (Option-cases (embed_one client q)) [
      | inl raised ↦ rw (raised, retrieve) tt
      | inr (none, nothing) ↦ rw (nothing, retrieve) tt
      | inr (some v, e) ↦
          let next = gather (map passage (query tenant v b.top_k s)) found in
          let own =
            gather-AllFrom (IsOwn tenant s) (map passage (query tenant v b.top_k s)) found
              (query-AllOwn v b.top_k) h in
          elim (Bool-cases next.1) [
            | inl enough ↦ rw (e, enough, retrieve) own
            | inr more ↦ rw (e, more, retrieve) (retrieve-AllOwn b client qs next.0 own)
          ]
    ]

  module _ ⦃py : Python⦄ (b : DeepResearchBudgets) (w : Means) (tenant : String) (s : Store)
      (offline : w.web ≡ none) where
    AllSources : DeepResearchOutcome → Type 0
    AllSources o = All (IsOwn tenant s) o.sources

    answered-AllSources :
        (n : ℕ) (passages : List Passage) (a : Option String)
        → All (λ p. IsOwn tenant s p.document_id) passages
        → AllSources (answered b w n passages a)
    unfolding answered AllSources
    answered-AllSources n passages none own = tt
    answered-AllSources n passages (some a) own = sources_of-All (IsOwn tenant s) [] passages tt own

    with_passages-AllSources :
        (question : String) (queries : List String) (found : Option (List Passage))
        → AllOwn tenant s found
        → AllSources (with_passages b w question queries found)
    unfolding with_passages search_web write_answer AllSources
    with_passages-AllSources question queries none own = tt
    with_passages-AllSources question queries (some passages) own = elim (Bool-cases (w.late 2)) [
      | inl over ↦ rw (over, with_passages) tt
      | inr within ↦
          rw (within, with_passages)
            (rw offline (
              answered-AllSources (length queries) passages (synthesize w.chat question passages)
                own))
    ]

    with_queries-AllSources :
        (question : String) (queries : Option (List String))
        → AllSources (with_queries b w question tenant s queries)
    unfolding with_queries AllSources
    with_queries-AllSources question none = tt
    with_queries-AllSources question (some queries) = elim (Bool-cases (w.late 1)) [
      | inl over ↦ rw (over, with_queries) tt
      | inr within ↦
          rw (within, with_queries)
            (with_passages-AllSources question queries (retrieve b w.embed tenant s queries [])
              (retrieve-AllOwn tenant s b w.embed queries [] tt))
    ]

    -- A run that does not search the web cites only documents of the caller's tenant: each source
    -- is the document of one of the tenant's chunks, whatever the model plans and answers.
    pub research-AllOwn :
        (question : String) → All (IsOwn tenant s) (research b w question tenant s).sources
    unfolding research AllSources
    research-AllOwn question = with_queries-AllSources question (plan b w.chat question)
