-- ===== src/Ranking.antt =====
-- Python's `sort(key=..., reverse=True)`: best first, and items of equal keys in the order in which
-- they came.
pub mod Best
use private_ai_workspace_eks.Prelude.{Bool, List, [], ◌∷◌, if◌then◌else◌}

module _ {ℓ κ} {A : Type ℓ} {K : Type κ} (lt : K → K → Bool) (key : A → K) where
  -- `x` came before the items of the list.
  unfoldable pub insert_ranked : A → List A → List A
  insert_ranked x [] = x ∷ []
  insert_ranked x (y ∷ l) =
      let rest = insert_ranked x l in if lt (key x) (key y) then y ∷ rest else x ∷ y ∷ l

  unfoldable pub sort_desc : List A → List A
  unfolding insert_ranked
  sort_desc [] = []
  sort_desc (x ∷ l) = insert_ranked x (sort_desc l)
