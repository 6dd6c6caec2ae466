-- ===== src/Notes.antt =====
-- app/control_plane/notes.py: the notes, tasks and documents of each user, in the store for one
-- process. The clock and the fresh ids are arguments.
pub mod Handlers
pub mod Requests
pub mod Refinement
use private_ai_workspace_eks.Prelude.{
  ℕ, String, Bool, Option, none, some, List, [], ◌∷◌, ◌==◌, string_eq, if◌then◌else◌, select,
  reverse, take,
}
use private_ai_workspace_eks.Json.{Json, Python, str, bool, dict}
use private_ai_workspace_eks.Notifications.{Owner}
use private_ai_workspace_eks.OwnedItems.{
  Owned, Items, bucket, put, list_of, add_item, remove_first, update_first,
}
use private_ai_workspace_eks.OwnedItems.Edits.{reported}

-- `_KINDS`
unfoldable pub kinds : List String
kinds = "note" ∷ "task" ∷ "doc" ∷ []

pub record NoteItem : Type 0 where
  pub id : String
  pub tenant_id : String
  pub user_id : String
  pub kind : String
  pub title : String
  pub body : String
  pub done : Bool
  pub created_at : ℕ
  pub updated_at : ℕ

instance abbrev pub note_owned : Owned NoteItem
note_owned = record { owner_of_item = λ n. (n.tenant_id, n.user_id); id_of = λ n. n.id }

unfoldable pub to_api_dict : ⦃py : Python⦄ → NoteItem → Json
to_api_dict ⦃py⦄ n = dict (
    ("id", str n.id)
    ∷ ("kind", str n.kind)
    ∷ ("title", str n.title)
    ∷ ("body", str n.body)
    ∷ ("done", bool n.done)
    ∷ ("created_at", str (py.isoformat n.created_at))
    ∷ ("updated_at", str (py.isoformat n.updated_at))
    ∷ [])

-- The fields of an update that are given.
pub record Patch : Type 0 where
  pub title : Option String
  pub body : Option String
  pub done : Option Bool

abbrev or_old {ℓ} : {A : Type ℓ} → A → Option A → A
or_old a none = a
or_old a (some b) = b

-- `replace(it, ...)`
unfoldable pub patched : Patch → ℕ → NoteItem → NoteItem
patched p now n = record n {
  title = or_old n.title p.title;
  body = or_old n.body p.body;
  done = or_old n.done p.done;
  updated_at = now;
}

abbrev pub Store : Type 0
Store = Items NoteItem

unfoldable pub create : NoteItem → Store → Store
create n s = add_item n s

abbrev of_kind : Option String → List NoteItem → List NoteItem
of_kind none l = l
of_kind (some k) l = select (λ n. n.kind == k) l

unfoldable pub list_for_user : Owner → Option String → ℕ → Store → List NoteItem
list_for_user key kind limit s = take limit (reverse (of_kind kind (bucket key s)))

abbrev outcome : Owner → Store → Option (NoteItem × List NoteItem) → Store × Option NoteItem
outcome key s r = (put key (list_of r) s, reported r)

unfoldable pub update : Owner → String → Patch → ℕ → Store → Store × Option NoteItem
update key id p now s = outcome key s (update_first id (patched p now) (bucket key s))

-- Whether an item was removed.
abbrev removal : Owner → Store → Option (List NoteItem) → Store × Bool
removal key s none = (s, Bool.false)
removal key s (some l) = (put key (some l) s, Bool.true)

unfoldable pub delete : Owner → String → Store → Store × Bool
delete key id s = removal key s (remove_first id (bucket key s))
