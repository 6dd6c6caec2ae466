-- ===== src/DeepResearch.antt =====
-- app/control_plane/deep_research.py: plan, retrieve, synthesize. The model, the clock, the web
-- search client and the embedding client are parameters.
pub mod Sources
pub mod Handler
use private_ai_workspace_eks.Prelude.{
  ℕ, zero, suc, String, ◌<>◌, Bool, true, false, Option, none, some, List, [], ◌∷◌, ◌++◌, ◌&&◌, leb,
  ltb, contains, map, take, length, string_eq, if◌then◌else◌, ◌==◌, nat_eq,
}
use private_ai_workspace_eks.Prelude.Text.{is_empty, strip, is_space}
use private_ai_workspace_eks.Json.{
  Json, Items, nil, cons, Fields, end, pos, Python, str, arr, int, get,
}
use private_ai_workspace_eks.AgentLoop.{ChatMessage, message, content_of}
use private_ai_workspace_eks.AgentLoop.Extract.{extract_json_object}
use private_ai_workspace_eks.Embeddings.{Floats, Vector, EmbeddingClient, embed_one}
use private_ai_workspace_eks.Retrieval.{RetrievedPassage, Store, query}
use Prim.Native.Char.{code}

abbrev pub max_passages : ℕ
max_passages = 12

pub record DeepResearchBudgets : Type 0 where
  pub max_subqueries : ℕ
  pub top_k : ℕ
  pub max_tokens : ℕ
  pub model : String

pub record DeepResearchOutcome : Type 0 where
  pub status : String
  pub answer : Option String
  pub sources : List String
  pub subqueries : ℕ
  pub detail : Option String

-- What the passages of the corpus and of the web have in common.
pub record Passage : Type 0 where
  pub document_id : String
  pub chunk_id : String
  pub content : String

pub record WebResult : Type 0 where
  pub title : String
  pub url : String
  pub snippet : String

-- `none` where the call raises.
abbrev pub ChatClient : Type 0
ChatClient = List ChatMessage → Option Json

-- `[q.strip() for q in raw if isinstance(q, str) and q.strip()]`
unfoldable pub texts : Items → List String
texts nil = []
texts (cons (str q) r) = let rest = texts r in if is_empty (strip q) then rest else strip q ∷ rest
texts (cons v r) = texts r

abbrev listed : Json → List String
listed (arr l) = texts l
listed _ = []

abbrev or_end : Option Fields → Fields
or_end none = end
or_end (some d) = d

abbrev or_question : String → List String → List String
or_question question [] = question ∷ []
or_question question (q ∷ qs) = q ∷ qs

-- The passages with a new one that has not been seen; `seen` is the ids of the passages.
abbrev pub is_seen : Passage → List Passage → Bool
is_seen p found = contains (map (λ q. q.chunk_id) found) p.chunk_id

-- The inner loop: the passages, and whether there are enough of them.
unfoldable pub gather : List Passage → List Passage → List Passage × Bool
gather [] found = (found, false)
gather (p ∷ ps) found = elim (is_seen p found) [
  | true ↦ gather ps found
  | false ↦ elim (leb max_passages (length (found ++ (p ∷ [])))) [
    | true ↦ (found ++ (p ∷ []), true)
    | false ↦ gather ps (found ++ (p ∷ []))
  ]
]

-- `s.strip(" —")`; 8212 is the dash.
abbrev is_margin : ℕ → Bool
is_margin n = if n == 32 then true else n == 8212

lstrip_margin : String → String
unfolding nat_eq
lstrip_margin String.[] = String.[]
lstrip_margin (String.◌∷◌ c s) =
    let rest = lstrip_margin s in if is_margin (code c) then rest else String.◌∷◌ c s

rstrip_margin : String → String
unfolding nat_eq
rstrip_margin String.[] = String.[]
rstrip_margin (String.◌∷◌ c s) =
    let rest = rstrip_margin s in
    if is_margin (code c) && is_empty rest then String.[] else String.◌∷◌ c rest

-- `_WebPassage` of a result
unfoldable pub web_passage : WebResult → Passage
unfolding lstrip_margin rstrip_margin
web_passage r = record {
  document_id = r.url;
  chunk_id = r.url;
  content = rstrip_margin (lstrip_margin (r.title <> " — " <> r.snippet));
}

-- `_retrieve_web`
unfoldable pub retrieve_web : (String → List WebResult) → List String → List Passage → List Passage
unfolding gather
retrieve_web search [] found = found
retrieve_web search (q ∷ qs) found =
    let next = gather (map web_passage (search q)) found in
    elim next.1 [ true ↦ next.0 | false ↦ retrieve_web search qs next.0 ]

-- The web passages join those of the corpus as long as there is room.
unfoldable pub merge : List Passage → List Passage → List Passage
merge found [] = found
merge found (p ∷ ps) =
    if is_seen p found
    then merge found ps
    else if ltb (length found) max_passages
    then merge (found ++ (p ∷ [])) ps
    else merge found ps

-- The document ids of the passages, each once, in order.
unfoldable pub sources_of : List String → List Passage → List String
sources_of sources [] = sources
sources_of sources (p ∷ ps) =
    if contains sources p.document_id
    then sources_of sources ps
    else sources_of (sources ++ (p.document_id ∷ [])) ps

module _ ⦃py : Python⦄ where
  abbrev number : ℕ → String
  number n = py.display (int (pos n))

  abbrev plan_prompt : DeepResearchBudgets → String
  plan_prompt b =
      "You decompose a research question into focused search queries. Reply with EXACTLY one JSON object and nothing else: {\"queries\": [\"...\", \"...\"]}. Use at most "
      <> number b.max_subqueries
      <> " queries."

  abbrev planned : DeepResearchBudgets → String → Option Json → Option (List String)
  planned b question none = none
  planned b question (some response) = some (
      or_question question (
        take b.max_subqueries
          (listed (get "queries" (or_end (extract_json_object (content_of response)))))))

  -- `_plan`
  unfoldable pub plan : DeepResearchBudgets → ChatClient → String → Option (List String)
  unfolding texts
  plan b chat question =
      planned b question (chat (message "system" (plan_prompt b) ∷ message "user" question ∷ []))

  abbrev numbered : ℕ → List Passage → String
  numbered n [] = ""
  numbered n (p ∷ []) = "[" <> number n <> "] (doc:" <> p.document_id <> ") " <> p.content
  numbered n (p ∷ q ∷ ps) =
      "["
      <> number n
      <> "] (doc:"
      <> p.document_id
      <> ") "
      <> p.content
      <> "\n"
      <> numbered (suc n) (q ∷ ps)

  abbrev context_of : List Passage → String
  context_of [] = "(no relevant documents were found)"
  context_of (p ∷ ps) = numbered 1 (p ∷ ps)

  abbrev contents : Option Json → Option String
  contents none = none
  contents (some response) = some (content_of response)

  -- `_synthesize`
  unfoldable pub synthesize : ChatClient → String → List Passage → Option String
  synthesize chat question passages = contents (
      chat (
        message "system"
          "Answer the question using ONLY the numbered sources provided. Cite sources inline as [n]. If the sources do not contain the answer, say so plainly; do not invent facts."
        ∷ message "user" ("Question: " <> question <> "\n\nSources:\n" <> context_of passages)
        ∷ []))

module _ ⦃fl : Floats⦄ where
  abbrev pub passage : RetrievedPassage → Passage
  passage p = record { document_id = p.document_id; chunk_id = p.chunk_id; content = p.content }

  -- `_retrieve`; `none` where the embedding raises.
  unfoldable pub retrieve :
      DeepResearchBudgets
      → EmbeddingClient
      → String
      → Store
      → List String
      → List Passage
      → Option (List Passage)
  unfolding gather
  retrieve b client tenant s [] found = some found
  retrieve b client tenant s (q ∷ qs) found = elim (embed_one client q) [
    | none ↦ none
    | some none ↦ none
    | some (some v) ↦
        let next = gather (map passage (query tenant v b.top_k s)) found in
        elim next.1 [ true ↦ some next.0 | false ↦ retrieve b client tenant s qs next.0 ]
  ]
