-- ===== src/OwnedItems/Buckets.antt =====
-- The buckets of all owners under creations, updates and deletions, against a partial map from
-- owners and ids to items.
use mathlib.Core.Path.{fun_ext, subst}
use private_ai_workspace_eks.Prelude.{
  String, ◌≡◌, refl, ap, sym, ◌∙◌, false, ◌&&◌, Option, none, some, List, [], ◌∷◌, ◌++◌, arith,
  ◌==◌, pair_eq, string_eq, if◌then◌else◌, is_some, inl, inr, Bool-cases,
}
use private_ai_workspace_eks.Prelude.Dict
use private_ai_workspace_eks.Notifications.{Owner}
use private_ai_workspace_eks.OwnedItems.{
  Owned, Items, bucket, put, list_of, add_item, find, remove_first, update_first,
}
use private_ai_workspace_eks.OwnedItems.Edits.{
  HasUniqueIds, left, left_updated, map_option, find-append, find-remove_first, find-update_first,
  append-HasUniqueIds, remove_first-HasUniqueIds, update_first-HasUniqueIds,
}

pub data Op (A : Type 0) : Type 0 where
  creating : A → Op A
  updating : Owner → String → (A → A) → Op A
  deleting : Owner → String → Op A

-- The items that are there, by owner and id.
abbrev pub Map : Type 0 → Type 0
Map A = Owner → String → Option A

module _ {A : Type 0} ⦃o : Owned A⦄ where
  abbrev pub key_of : Op A → Owner
  key_of (creating a) = o.owner_of_item a
  key_of (updating key id f) = key
  key_of (deleting key id) = key

  -- What an operation makes of the list of its owner.
  abbrev pub edited : Op A → List A → List A
  edited (creating a) l = l ++ (a ∷ [])
  edited (updating key id f) l = left_updated l (update_first id f l)
  edited (deleting key id) l = left l (remove_first id l)

  -- The same on the partial map.
  abbrev pub on_map : Op A → Map A → Map A
  on_map (creating a) m key id =
      if key == o.owner_of_item a && o.id_of a == id then some a else m key id
  on_map (updating k i f) m key id =
      if key == k && i == id then map_option f (m key id) else m key id
  on_map (deleting k i) m key id = if key == k && i == id then none else m key id

  pub replay : List (Op A) → Map A → Map A
  replay [] m = m
  replay (op ∷ ops) m = replay ops (on_map op m)

  -- A new item has an id that its owner does not use, and an update keeps the id.
  abbrev pub IsProper : Op A → Map A → Type 0
  IsProper (creating a) m = is_some (m (o.owner_of_item a) (o.id_of a)) ≡ false
  IsProper (updating key id f) m = (a : A) → o.id_of (f a) ≡ o.id_of a
  IsProper (deleting key id) m = Unit

  abbrev pub AreProper : List (Op A) → Map A → Type 0
  AreProper [] m = Unit
  AreProper (op ∷ ops) m = IsProper op m × AreProper ops (on_map op m)

  abbrev pub view : Items A → Map A
  view s key id = find id (bucket key s)

  -- Each owner's items have different ids.
  abbrev pub IsValid : Items A → Type 0
  IsValid s = (key : Owner) → HasUniqueIds (bucket key s)

  unfoldable pub exec : Op A → Items A → Items A
  exec (creating a) s = add_item a s
  exec (updating key id f) s = put key (list_of (update_first id f (bucket key s))) s
  exec (deleting key id) s = put key (remove_first id (bucket key s)) s

  pub run : List (Op A) → Items A → Items A
  run [] s = s
  run (op ∷ ops) s = run ops (exec op s)

  bucket-put :
      (key by : Owner) (l : Option (List A)) (s : Items A)
      → bucket key (put by l s) ≡ (if key == by then left (bucket by s) l else bucket key s)
  unfolding bucket
  bucket-put key by none s = ground arith
  bucket-put key by (some l) s = ground (arith, Dict.lookup-insert key by l s)

  left-list_of : (l : List A) (r : Option (A × List A)) → left l (list_of r) ≡ left_updated l r
  left-list_of l none = refl
  left-list_of l (some (u, l')) = refl

  bucket-exec :
      (key : Owner) (op : Op A) (s : Items A)
      → bucket key (exec op s)
        ≡ (if key == key_of op then edited op (bucket (key_of op) s) else bucket key s)
  unfolding exec
  bucket-exec key (creating a) s =
      unfold add_item bucket in
      let l = bucket (o.owner_of_item a) s ++ (a ∷ []) in
      ground (arith, Dict.lookup-insert key (o.owner_of_item a) l s)
  bucket-exec key (updating by id f) s =
      rw (← left-list_of (bucket by s) (update_first id f (bucket by s)))
        (bucket-put key by (list_of (update_first id f (bucket by s))) s)
  bucket-exec key (deleting by id) s = bucket-put key by (remove_first id (bucket by s)) s

  bucket-exec_own :
      (op : Op A) (s : Items A) → bucket (key_of op) (exec op s) ≡ edited op (bucket (key_of op) s)
  bucket-exec_own op s = ground (arith, bucket-exec (key_of op) op s)

  edited-HasUniqueIds :
      (op : Op A) (s : Items A)
      → IsProper op (view s)
      → HasUniqueIds (bucket (key_of op) s)
      → HasUniqueIds (edited op (bucket (key_of op) s))
  edited-HasUniqueIds (creating a) s h u = append-HasUniqueIds (bucket (o.owner_of_item a) s) a u h
  edited-HasUniqueIds (updating key id f) s h u = update_first-HasUniqueIds id f (bucket key s) h u
  edited-HasUniqueIds (deleting key id) s h u = remove_first-HasUniqueIds id (bucket key s) u

  pub exec-IsValid :
      (op : Op A) (s : Items A) → IsProper op (view s) → IsValid s → IsValid (exec op s)
  exec-IsValid op s h v key = rw (bucket-exec key op s) (elim (Bool-cases (key == key_of op)) [
    | inl own ↦ rw own (edited-HasUniqueIds op s h (v (key_of op)))
    | inr other ↦ rw other (v key)
  ])

  find-edited :
      (op : Op A) (s : Items A) (id : String)
      → IsProper op (view s)
      → HasUniqueIds (bucket (key_of op) s)
      → find id (edited op (bucket (key_of op) s)) ≡ on_map op (view s) (key_of op) id
  find-edited (creating a) s id h u =
      ground (arith, find-append id (bucket (o.owner_of_item a) s) a h)
  find-edited (updating key i f) s id h u =
      ground (arith, find-update_first i id f (bucket key s) h)
  find-edited (deleting key i) s id h u = ground (arith, find-remove_first i id (bucket key s) u)

  on_map_other :
      (op : Op A) (m : Map A) (key : Owner) (id : String)
      → (key == key_of op) ≡ false
      → on_map op m key id ≡ m key id
  on_map_other (creating a) m key id h = rw h refl
  on_map_other (updating k i f) m key id h = rw h refl
  on_map_other (deleting k i) m key id h = rw h refl

  pub view-exec :
      (op : Op A) (s : Items A)
      → IsProper op (view s)
      → IsValid s
      → view (exec op s) ≡ on_map op (view s)
  view-exec op s h v = fun_ext (λ key. fun_ext (λ id. view_at key id))
    where
      view_at : (key : Owner) (id : String) → view (exec op s) key id ≡ on_map op (view s) key id
      view_at key id = elim ((pair_eq {A = String} {B = String}).dec key (key_of op)) [
        | yes e ↦ rw (e, bucket-exec_own op s) (find-edited op s id h (v (key_of op)))
        | no e ↦
            let differ : (key == key_of op) ≡ false = ground arith in
            rw (on_map_other op (view s) key id differ, bucket-exec key op s, differ) refl
      ]

  -- From a valid store, any proper operations end in a valid store that reads as their replay on
  -- the partial map.
  pub run_refines :
      (ops : List (Op A)) (s : Items A)
      → IsValid s
      → AreProper ops (view s)
      → IsValid (run ops s) × (view (run ops s) ≡ replay ops (view s))
  unfolding run replay
  run_refines [] s v h = (v, refl)
  run_refines (op ∷ ops) s v h =
      let e = view-exec op s h.0 v in
      let (valid, same) =
        run_refines ops (exec op s) (exec-IsValid op s h.0 v) (subst (AreProper ops) (sym e) h.1) in
      (valid, same ∙ ap (replay ops) e)
