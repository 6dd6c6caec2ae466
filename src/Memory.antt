-- ===== src/Memory.antt =====
-- app/control_plane/memory.py: the memories of each user, in the store for one process.
pub mod Handlers
pub mod Recall
use private_ai_workspace_eks.Prelude.{
  ℕ, String, Bool, true, false, Option, none, some, List, [], ◌∷◌, ◌++◌, map, reverse, take,
}
use private_ai_workspace_eks.Json.{Json, Python, str, dict}
use private_ai_workspace_eks.Notifications.{Owner}
use private_ai_workspace_eks.OwnedItems.{Owned, Items, bucket, put, add_item, remove_first}
use private_ai_workspace_eks.Embeddings.{Floats, Vector, cosine}
use private_ai_workspace_eks.Ranking.{sort_desc}

-- `Memory`
pub record MemoryItem : Type 0 where
  pub id : String
  pub tenant_id : String
  pub user_id : String
  pub content : String
  pub created_at : ℕ

module _ ⦃py : Python⦄ where
  abbrev memory_fields : MemoryItem → List (String × Json)
  memory_fields m =
      ("id", str m.id)
      ∷ ("content", str m.content)
      ∷ ("created_at", str (py.isoformat m.created_at))
      ∷ []

  unfoldable pub to_api_dict : MemoryItem → Json
  to_api_dict m = dict (memory_fields m)

module _ ⦃fl : Floats⦄ where
  -- A memory with its embedding, as the store keeps it.
  abbrev pub Embedded : Type 0
  Embedded = MemoryItem × Vector

  instance abbrev pub memory_owned : Owned Embedded
  memory_owned = record { owner_of_item = λ e. (e.0.tenant_id, e.0.user_id); id_of = λ e. e.0.id }

  abbrev pub Store : Type 0
  Store = Items Embedded

  pub record RecalledMemory : Type 0 where
    pub memory : MemoryItem
    pub score : fl.Float

  unfoldable pub to_recall_dict : ⦃py : Python⦄ → RecalledMemory → Json
  to_recall_dict r = dict (memory_fields r.memory ++ (("score", fl.rounded r.score) ∷ []))

  unfoldable pub record_memory : MemoryItem → Vector → Store → Store
  record_memory m embedding s = add_item (m, embedding) s

  unfoldable pub list_for_user : Owner → ℕ → Store → List MemoryItem
  list_for_user key limit s = take limit (reverse (map (λ e. e.0) (bucket key s)))

  abbrev pub scored : Vector → Embedded → RecalledMemory
  scored embedding (m, v) = record { memory = m; score = cosine embedding v }

  unfoldable pub recall : Owner → Vector → ℕ → Store → List RecalledMemory
  recall key embedding top_k s =
      take top_k (sort_desc fl.lt (λ r. r.score) (map (scored embedding) (bucket key s)))

  -- Whether an item was removed.
  abbrev removal : Owner → Store → Option (List Embedded) → Store × Bool
  removal key s none = (s, false)
  removal key s (some l) = (put key (some l) s, true)

  unfoldable pub delete : Owner → String → Store → Store × Bool
  delete key id s = removal key s (remove_first id (bucket key s))
