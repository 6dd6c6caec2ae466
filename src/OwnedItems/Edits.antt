-- ===== src/OwnedItems/Edits.antt =====
-- Adding, removing and updating an item in a list of items with different ids.
use private_ai_workspace_eks.Prelude.{
  String, ◌≡◌, refl, false, Option, none, some, List, [], ◌∷◌, ◌++◌, arith, ◌==◌, string_eq,
  if◌then◌else◌, is_some, inl, inr, Bool-cases,
}
use private_ai_workspace_eks.OwnedItems.{Owned, find, remove_first, update_first}

module _ {ℓ} {A : Type ℓ} ⦃o : Owned A⦄ where
  -- No two items have the same id.
  abbrev pub HasUniqueIds : List A → Type 0
  HasUniqueIds [] = Unit
  HasUniqueIds (a ∷ l) = (is_some (find (o.id_of a) l) ≡ false) × HasUniqueIds l

  pub find-append :
      (id : String) (l : List A) (a : A)
      → is_some (find (o.id_of a) l) ≡ false
      → find id (l ++ (a ∷ [])) ≡ (if o.id_of a == id then some a else find id l)
  unfolding find
  find-append id [] a h = refl
  find-append id (b ∷ l) a h = ground (arith, find-append id l a)

  -- What a removal and an update leave in the list, and what the update reports.
  abbrev pub left : List A → Option (List A) → List A
  left l none = l
  left l (some l') = l'

  abbrev pub left_updated : List A → Option (A × List A) → List A
  left_updated l none = l
  left_updated l (some (u, l')) = l'

  abbrev pub reported : Option (A × List A) → Option A
  reported none = none
  reported (some (u, l')) = some u

  abbrev pub map_option : (A → A) → Option A → Option A
  map_option f none = none
  map_option f (some a) = some (f a)

  left-remove_first :
      (id : String) (a : A) (l : List A)
      → left (a ∷ l) (remove_first id (a ∷ l))
        ≡ (if o.id_of a == id then l else a ∷ left l (remove_first id l))
  unfolding remove_first
  left-remove_first id a l = ground arith

  left-update_first :
      (id : String) (f : A → A) (a : A) (l : List A)
      → left_updated (a ∷ l) (update_first id f (a ∷ l))
        ≡ (if o.id_of a == id then f a ∷ l else a ∷ left_updated l (update_first id f l))
  unfolding update_first
  left-update_first id f a l = ground arith

  find_absent :
      (id j : String) (l : List A) → is_some (find id l) ≡ false → id ≡ j → find j l ≡ none
  find_absent id j l h e = ground arith

  pub find-remove_first :
      (id j : String) (l : List A)
      → HasUniqueIds l
      → find j (left l (remove_first id l)) ≡ (if id == j then none else find j l)
  unfolding find
  find-remove_first id j [] u = unfold remove_first in ground arith
  find-remove_first id j (a ∷ l) u =
      rw (left-remove_first id a l)
        (ground (arith, find-remove_first id j l u.1, find_absent (o.id_of a) j l u.0))

  pub find-update_first :
      (id j : String) (f : A → A) (l : List A)
      → ((a : A) → o.id_of (f a) ≡ o.id_of a)
      → find j (left_updated l (update_first id f l))
        ≡ (if id == j then map_option f (find j l) else find j l)
  unfolding find
  find-update_first id j f [] k = unfold update_first in ground arith
  find-update_first id j f (a ∷ l) k =
      rw (left-update_first id f a l) (ground (arith, find-update_first id j f l k, k a))

  pub reported-update_first :
      (id : String) (f : A → A) (l : List A)
      → reported (update_first id f l) ≡ map_option f (find id l)
  unfolding find update_first
  reported-update_first id f [] = refl
  reported-update_first id f (a ∷ l) = ground (arith, reported-update_first id f l)

  pub is_some-remove_first :
      (id : String) (l : List A) → is_some (remove_first id l) ≡ is_some (find id l)
  unfolding find remove_first
  is_some-remove_first id [] = refl
  is_some-remove_first id (a ∷ l) = ground (arith, is_some-remove_first id l)

  pub remove_first-HasUniqueIds :
      (id : String) (l : List A) → HasUniqueIds l → HasUniqueIds (left l (remove_first id l))
  remove_first-HasUniqueIds id [] u = unfold remove_first in tt
  remove_first-HasUniqueIds id (a ∷ l) u =
      rw (left-remove_first id a l) (elim (Bool-cases (o.id_of a == id)) [
        | inl same ↦ rw same u.1
        | inr other ↦ rw other (
          ground (arith, find-remove_first id (o.id_of a) l u.1),
          remove_first-HasUniqueIds id l u.1,
        )
      ])

  pub append-HasUniqueIds :
      (l : List A) (a : A)
      → HasUniqueIds l
      → is_some (find (o.id_of a) l) ≡ false
      → HasUniqueIds (l ++ (a ∷ []))
  unfolding find
  append-HasUniqueIds [] a u h = (refl, tt)
  append-HasUniqueIds (b ∷ l) a u h =
      (ground (arith, find-append (o.id_of b) l a), append-HasUniqueIds l a u.1 (ground arith))

  pub update_first-HasUniqueIds :
      (id : String) (f : A → A) (l : List A)
      → ((a : A) → o.id_of (f a) ≡ o.id_of a)
      → HasUniqueIds l
      → HasUniqueIds (left_updated l (update_first id f l))
  update_first-HasUniqueIds id f [] k u = unfold update_first in tt
  update_first-HasUniqueIds id f (a ∷ l) k u =
      rw (left-update_first id f a l) (elim (Bool-cases (o.id_of a == id)) [
        | inl same ↦ rw (same, k a) u
        | inr other ↦ rw other (
          ground (arith, find-update_first id (o.id_of a) f l k),
          update_first-HasUniqueIds id f l k u.1,
        )
      ])
