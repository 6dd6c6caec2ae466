-- ===== src/Ranking/Best.antt =====
-- The first items of a sorted list are the best ones.
use mathlib.Core.List.{Perm}
use mathlib.Core.List.Perm
use private_ai_workspace_eks.Prelude.{
  ℕ, zero, suc, min, ◌≡◌, refl, ap, ◌∙◌, arith, Bool, true, false, List, [], ◌∷◌, ◌++◌, Bool-cases,
  inl, inr, take, drop, length, All,
}
use private_ai_workspace_eks.Ranking.{insert_ranked, sort_desc}

-- What the sort relies on: the order of the keys is strict and total but for equal keys. Python's
-- floats have it, except for NaN.
pub record IsOrder {κ} {K : Type κ} (lt : K → K → Bool) : Type κ where
  pub asym : (a b : K) → lt a b ≡ true → lt b a ≡ false
  pub trans : (a b c : K) → lt a b ≡ false → lt b c ≡ false → lt a c ≡ false

module _ {ℓ κ} {A : Type ℓ} {K : Type κ} (lt : K → K → Bool) (key : A → K) where
  -- No item of the list is better than `x`.
  abbrev pub IsBest : A → List A → Type 0
  IsBest x = All (λ y. lt (key x) (key y) ≡ false)

  abbrev pub IsRanked : List A → Type 0
  IsRanked [] = Unit
  IsRanked (x ∷ l) = IsBest x l × IsRanked l

  insert_ranked-IsBest :
      (y x : A) (l : List A)
      → lt (key y) (key x) ≡ false
      → IsBest y l
      → IsBest y (insert_ranked lt key x l)
  unfolding insert_ranked
  insert_ranked-IsBest y x [] h b = (h, tt)
  insert_ranked-IsBest y x (z ∷ l) h b = elim (Bool-cases (lt (key x) (key z))) [
    | inl worse ↦ rw worse (b.0, insert_ranked-IsBest y x l h b.1)
    | inr best ↦ rw best (h, b)
  ]

  IsBest-trans :
      IsOrder lt → (x y : A) (l : List A) → lt (key x) (key y) ≡ false → IsBest y l → IsBest x l
  IsBest-trans o x y [] h b = tt
  IsBest-trans o x y (z ∷ l) h b =
      (o.trans (key x) (key y) (key z) h b.0, IsBest-trans o x y l h b.1)

  insert_ranked-IsRanked :
      IsOrder lt → (x : A) (l : List A) → IsRanked l → IsRanked (insert_ranked lt key x l)
  unfolding insert_ranked
  insert_ranked-IsRanked o x [] r = (tt, tt)
  insert_ranked-IsRanked o x (y ∷ l) r = elim (Bool-cases (lt (key x) (key y))) [
    | inl worse ↦ rw worse (
      insert_ranked-IsBest y x l (o.asym (key x) (key y) worse) r.0,
      insert_ranked-IsRanked o x l r.1,
    )
    | inr best ↦ rw best ((best, IsBest-trans o x y l best r.0), r)
  ]

  sort_desc-IsRanked : IsOrder lt → (l : List A) → IsRanked (sort_desc lt key l)
  unfolding sort_desc
  sort_desc-IsRanked o [] = tt
  sort_desc-IsRanked o (x ∷ l) =
      insert_ranked-IsRanked o x (sort_desc lt key l) (sort_desc-IsRanked o l)

  insert_ranked-Perm : (x : A) (l : List A) → Perm (insert_ranked lt key x l) (x ∷ l)
  unfolding insert_ranked
  insert_ranked-Perm x [] = Perm.refl (x ∷ [])
  insert_ranked-Perm x (y ∷ l) = elim (Bool-cases (lt (key x) (key y))) [
    | inl worse ↦ rw worse (Perm.trans (Perm.cons y (insert_ranked-Perm x l)) (Perm.swap x y l))
    | inr best ↦ rw best (Perm.refl (x ∷ y ∷ l))
  ]

  sort_desc-Perm : (l : List A) → Perm (sort_desc lt key l) l
  unfolding sort_desc
  sort_desc-Perm [] = Perm.refl []
  sort_desc-Perm (x ∷ l) =
      Perm.trans (insert_ranked-Perm x (sort_desc lt key l)) (Perm.cons x (sort_desc-Perm l))

  -- The chosen items and some others make up the list, the chosen ones come best first, none of the
  -- others is better than any of them, and there are `k` of them, or all if the list is shorter.
  pub record IsTopK (k : ℕ) (l chosen others : List A) : Type ℓ where
    pub all : Perm (chosen ++ others) l
    pub ranked : IsRanked chosen
    pub best : All (λ x. IsBest x others) chosen
    pub count : length chosen ≡ min k (length l)

  IsBest-take : (x : A) (k : ℕ) (l : List A) → IsBest x l → IsBest x (take k l)
  IsBest-take x zero l b = tt
  IsBest-take x (suc k) [] b = tt
  IsBest-take x (suc k) (y ∷ l) b = (b.0, IsBest-take x k l b.1)

  IsBest-drop : (x : A) (k : ℕ) (l : List A) → IsBest x l → IsBest x (drop k l)
  IsBest-drop x zero l b = b
  IsBest-drop x (suc k) [] b = tt
  IsBest-drop x (suc k) (y ∷ l) b = IsBest-drop x k l b.1

  take-IsRanked : (k : ℕ) (l : List A) → IsRanked l → IsRanked (take k l)
  take-IsRanked zero l r = tt
  take-IsRanked (suc k) [] r = tt
  take-IsRanked (suc k) (x ∷ l) r = (IsBest-take x k l r.0, take-IsRanked k l r.1)

  take-AllBest : (k : ℕ) (l : List A) → IsRanked l → All (λ x. IsBest x (drop k l)) (take k l)
  take-AllBest zero l r = tt
  take-AllBest (suc k) [] r = tt
  take-AllBest (suc k) (x ∷ l) r = (IsBest-drop x k l r.0, take-AllBest k l r.1)

  take-append-drop : (k : ℕ) (l : List A) → take k l ++ drop k l ≡ l
  take-append-drop zero l = refl
  take-append-drop (suc k) [] = refl
  take-append-drop (suc k) (x ∷ l) = rw (take-append-drop k l)

  length-insert_ranked : (x : A) (l : List A) → length (insert_ranked lt key x l) ≡ suc (length l)
  unfolding insert_ranked
  length-insert_ranked x [] = refl
  length-insert_ranked x (y ∷ l) = ground (arith, length-insert_ranked x l)

  length-sort_desc : (l : List A) → length (sort_desc lt key l) ≡ length l
  unfolding sort_desc
  length-sort_desc [] = refl
  length-sort_desc (x ∷ l) =
      length-insert_ranked x (sort_desc lt key l) ∙ ap suc (length-sort_desc l)

  length-take : (k : ℕ) (l : List A) → length (take k l) ≡ min k (length l)
  length-take zero l = omega arith
  length-take (suc k) [] = omega arith
  length-take (suc k) (x ∷ l) = omega (arith, length-take k l)

  pub take-sort_desc :
      IsOrder lt
      → (k : ℕ) (l : List A)
      → IsTopK k l (take k (sort_desc lt key l)) (drop k (sort_desc lt key l))
  take-sort_desc o k l = record {
    all = rw (take-append-drop k (sort_desc lt key l)) (sort_desc-Perm l);
    ranked = take-IsRanked k (sort_desc lt key l) (sort_desc-IsRanked o l);
    best = take-AllBest k (sort_desc lt key l) (sort_desc-IsRanked o l);
    count = length-take k (sort_desc lt key l) ∙ ap (min k) (length-sort_desc l);
  }
