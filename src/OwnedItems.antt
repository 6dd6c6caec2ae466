-- ===== src/OwnedItems.antt =====
-- The stores of notes.py and memory.py keep, for each owner, a list of items, oldest first. Here
-- are these lists, as both files treat them, with what an item has to tell of itself.
pub mod Buckets
pub mod Edits
use private_ai_workspace_eks.Prelude.{
  ℕ, String, Bool, Option, none, some, List, [], ◌∷◌, ◌++◌, ◌==◌, pair_eq, string_eq, if◌then◌else◌,
}
use private_ai_workspace_eks.Prelude.Dict
use private_ai_workspace_eks.Prelude.Dict.{Dict}
use private_ai_workspace_eks.Notifications.{Owner}

-- What a store asks of its items: the owner and the id.
pub record Owned {ℓ} (A : Type ℓ) : Type ℓ where
  pub owner_of_item : A → Owner
  pub id_of : A → String

-- `self._items`
abbrev pub Items {ℓ} : Type ℓ → Type ℓ
Items A = Dict Owner (List A)

module _ {ℓ} {A : Type ℓ} where
  abbrev pub or_nil : Option (List A) → List A
  or_nil none = []
  or_nil (some l) = l

  -- `self._items.get(key, [])`
  unfoldable pub bucket : Owner → Items A → List A
  bucket key s = or_nil (Dict.lookup key s)

  abbrev pub put : Owner → Option (List A) → Items A → Items A
  put key none s = s
  put key (some l) s = Dict.insert key l s

  abbrev pub list_of : Option (A × List A) → Option (List A)
  list_of none = none
  list_of (some (u, l)) = some l

  module _ ⦃o : Owned A⦄ where
    -- The first item with an id.
    unfoldable pub find : String → List A → Option A
    find id [] = none
    find id (a ∷ l) = let rest = find id l in if o.id_of a == id then some a else rest

    -- `self._items.setdefault(key, []).append(item)`
    unfoldable pub add_item : A → Items A → Items A
    unfolding bucket
    add_item a s = Dict.insert (o.owner_of_item a) (bucket (o.owner_of_item a) s ++ (a ∷ [])) s

    -- The loop of `delete`: the list without the first item of that id, if there is one.
    unfoldable pub remove_first : String → List A → Option (List A)
    remove_first id [] = none
    remove_first id (a ∷ l) =
        let rest = remove_first id l in
        if o.id_of a == id then some l else elim rest [ none ↦ none | some l' ↦ some (a ∷ l') ]

    -- The loop of `update`.
    unfoldable pub update_first : String → (A → A) → List A → Option (A × List A)
    update_first id f [] = none
    update_first id f (a ∷ l) =
        let rest = update_first id f l in
        if o.id_of a == id
        then some (f a, f a ∷ l)
        else elim rest [ none ↦ none | some (u, l') ↦ some (u, a ∷ l') ]
