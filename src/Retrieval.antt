-- ===== src/Retrieval.antt =====
-- app/control_plane/retrieval.py: the chunks of the documents of each tenant, in the store for one
-- process, and the cutting of a text into chunks.
pub mod Chunks
pub mod Handlers
pub mod Best
use private_ai_workspace_eks.Prelude.{
  ℕ, ◌+◌, String, ◌<>◌, Bool, true, false, Option, none, some, List, [], ◌∷◌, ◌++◌, ◌&&◌, ltb, map,
  take, string_eq, if◌then◌else◌,
}
use private_ai_workspace_eks.Prelude.Dict
use private_ai_workspace_eks.Prelude.Dict.{Dict}
use private_ai_workspace_eks.Prelude.Text.{is_empty, is_space, len}
use private_ai_workspace_eks.Json.{Json, pos, int, str, dict}
use private_ai_workspace_eks.Embeddings.{Floats, Vector, cosine}
use private_ai_workspace_eks.Ranking.{sort_desc}

-- `_CHUNK_CHARS`
abbrev pub chunk_chars : ℕ
chunk_chars = 512

abbrev flush : String → List String → List String
flush String.[] ws = ws
flush w ws = w ∷ ws

-- The word that a text begins with, empty if with a space, and the words behind it.
split_from : String → String × List String
unfolding is_space
split_from String.[] = (String.[], [])
split_from (String.◌∷◌ c s) =
    let (w, ws) = split_from s in
    if is_space c then (String.[], flush w ws) else (String.◌∷◌ c w, ws)

-- `content.split()`
unfoldable pub split : String → List String
unfolding split_from
split s = let (w, ws) = split_from s in flush w ws

-- `" ".join(words)`
unfoldable pub join : List String → String
join [] = ""
join (w ∷ []) = w
join (w ∷ v ∷ ws) = w <> String.◌∷◌ " " (join (v ∷ ws))

abbrev pub is_nil : List String → Bool
is_nil [] = true
is_nil (w ∷ ws) = false

-- The loop of `chunk_text`, each chunk as the list of its words. `current` is the open chunk and
-- `length` its characters.
unfoldable pub pack : ℕ → List String → List String → ℕ → List (List String)
pack limit [] current length = if is_nil current then [] else current ∷ []
pack limit (w ∷ ws) [] length = pack limit ws (w ∷ []) (length + len w)
pack limit (w ∷ ws) (c ∷ current) length = elim (ltb limit (length + (len w + 1))) [
  | true ↦ (c ∷ current) ∷ pack limit ws (w ∷ []) (len w)
  | false ↦ pack limit ws (c ∷ current ++ (w ∷ [])) (length + (len w + 1))
]

unfoldable pub chunk_text : ℕ → String → List String
unfolding pack split join
chunk_text limit content = map join (pack limit (split content) [] 0)

module _ ⦃fl : Floats⦄ where
  pub record DocumentChunk : Type 0 where
    pub id : String
    pub document_id : String
    pub tenant_id : String
    pub chunk_index : ℕ
    pub content : String
    pub embedding : Vector
    pub created_at : ℕ

  pub record RetrievedPassage : Type 0 where
    pub document_id : String
    pub chunk_id : String
    pub chunk_index : ℕ
    pub content : String
    pub score : fl.Float

  unfoldable pub to_api_dict : RetrievedPassage → Json
  to_api_dict p = dict (
      ("document_id", str p.document_id)
      ∷ ("chunk_id", str p.chunk_id)
      ∷ ("chunk_index", int (pos p.chunk_index))
      ∷ ("content", str p.content)
      ∷ ("score", fl.rounded p.score)
      ∷ [])

  -- The chunks of each tenant.
  abbrev pub Store : Type 0
  Store = Dict String (List DocumentChunk)

  abbrev or_nil : Option (List DocumentChunk) → List DocumentChunk
  or_nil none = []
  or_nil (some l) = l

  -- `self._chunks.get(tenant_id, [])`
  unfoldable pub chunks_of : String → Store → List DocumentChunk
  chunks_of tenant s = or_nil (Dict.lookup tenant s)

  unfoldable pub index_document : String → List DocumentChunk → Store → Store
  unfolding chunks_of
  index_document tenant chunks s = Dict.insert tenant (chunks_of tenant s ++ chunks) s

  abbrev pub scored : Vector → DocumentChunk → RetrievedPassage
  scored embedding c = record {
    document_id = c.document_id;
    chunk_id = c.id;
    chunk_index = c.chunk_index;
    content = c.content;
    score = cosine embedding c.embedding;
  }

  unfoldable pub query : String → Vector → ℕ → Store → List RetrievedPassage
  query tenant embedding top_k s =
      take top_k (sort_desc fl.lt (λ p. p.score) (map (scored embedding) (chunks_of tenant s)))
