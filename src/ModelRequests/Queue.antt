-- ===== src/ModelRequests/Queue.antt =====
-- `list_pending`: what the installer is handed.
use mathlib.Core.Path.{subst}
use private_ai_workspace_eks.Prelude.{
  ℕ, zero, suc, ◌≤◌, ◌≡◌, refl, ap, ◌∙◌, Bool, ltb, drop, List, [], ◌∷◌, ◌==◌, arith, string_eq,
  select, select-cons_true, select-cons_false, take, All, All-take, Bool-cases, inl, inr,
}
use private_ai_workspace_eks.Ranking.{insert_ranked, sort_desc}
use private_ai_workspace_eks.Ranking.Best.{IsOrder, IsTopK, take-sort_desc}
use private_ai_workspace_eks.ModelRequests.{ModelInstallRequest}
use private_ai_workspace_eks.ModelRequests.Store.{
  Store, values, insert_by, sort, oldest_first, list_pending,
}

-- Each request is no younger than those behind it.
abbrev pub IsOldestFirst : List ModelInstallRequest → Type 0
IsOldestFirst [] = Unit
IsOldestFirst (r ∷ l) = All (λ q. r.created_at ≤ q.created_at) l × IsOldestFirst l

abbrev pub AllRequested : List ModelInstallRequest → Type 0
AllRequested = All (λ r. r.status ≡ "requested")

module _ {ℓ} (P : ModelInstallRequest → Type ℓ) where
  insert_by-All :
      (r : ModelInstallRequest) (l : List ModelInstallRequest)
      → P r
      → All P l
      → All P (insert_by oldest_first r l)
  unfolding insert_by
  insert_by-All r [] p h = (p, tt)
  insert_by-All r (q ∷ l) p h = elim (Bool-cases (oldest_first r.created_at q.created_at)) [
    | inl first ↦ rw first (p, h)
    | inr later ↦ rw later (h.0, insert_by-All r l p h.1)
  ]

  sort-All : (l : List ModelInstallRequest) → All P l → All P (sort oldest_first l)
  unfolding sort
  sort-All [] h = tt
  sort-All (r ∷ l) h = insert_by-All r (sort oldest_first l) h.0 (sort-All l h.1)

All-le :
    (m n : ℕ) (l : List ModelInstallRequest)
    → m ≤ n
    → All (λ q. n ≤ q.created_at) l
    → All (λ q. m ≤ q.created_at) l
All-le m n [] h a = tt
All-le m n (q ∷ l) h a = (omega (arith, a.0), All-le m n l h a.1)

insert_by-IsOldestFirst :
    (r : ModelInstallRequest) (l : List ModelInstallRequest)
    → IsOldestFirst l
    → IsOldestFirst (insert_by oldest_first r l)
unfolding insert_by
insert_by-IsOldestFirst r [] h = (tt, tt)
insert_by-IsOldestFirst r (q ∷ l) h = elim (Bool-cases (oldest_first r.created_at q.created_at)) [
  | inl first ↦
      let le : r.created_at ≤ q.created_at = ground arith in
      rw first ((le, All-le r.created_at q.created_at l le h.0), h)
  | inr later ↦
      let le : q.created_at ≤ r.created_at = ground arith in
      rw later (
        insert_by-All (λ p. q.created_at ≤ p.created_at) r l le h.0,
        insert_by-IsOldestFirst r l h.1,
      )
]

sort-IsOldestFirst : (l : List ModelInstallRequest) → IsOldestFirst (sort oldest_first l)
unfolding sort
sort-IsOldestFirst [] = tt
sort-IsOldestFirst (r ∷ l) = insert_by-IsOldestFirst r (sort oldest_first l) (sort-IsOldestFirst l)

take-IsOldestFirst :
    (n : ℕ) (l : List ModelInstallRequest) → IsOldestFirst l → IsOldestFirst (take n l)
take-IsOldestFirst zero l h = tt
take-IsOldestFirst (suc n) [] h = tt
take-IsOldestFirst (suc n) (r ∷ l) h =
    (All-take (λ q. r.created_at ≤ q.created_at) n l h.0, take-IsOldestFirst n l h.1)

select-AllRequested :
    (l : List ModelInstallRequest) → AllRequested (select (λ r. r.status == "requested") l)
unfolding select
select-AllRequested [] = tt
select-AllRequested (r ∷ l) = elim (Bool-cases (r.status == "requested")) [
  | inl own ↦
      rw (select-cons_true (λ q. q.status == "requested") r l own)
        (ground arith, select-AllRequested l)
  | inr other ↦
      rw (select-cons_false (λ q. q.status == "requested") r l other) (select-AllRequested l)
]

-- Younger requests come last.
abbrev pub younger : ℕ → ℕ → Bool
younger m n = ltb n m

younger-IsOrder : IsOrder younger
younger-IsOrder = record { asym = λ a b h. ground arith; trans = λ a b c h k. ground arith }

insert_ranked-insert_by :
    (r : ModelInstallRequest) (l : List ModelInstallRequest)
    → insert_ranked younger (λ q. q.created_at) r l ≡ insert_by oldest_first r l
unfolding insert_by insert_ranked
insert_ranked-insert_by r [] = refl
insert_ranked-insert_by r (q ∷ l) = ground (arith, insert_ranked-insert_by r l)

sort_desc-sort :
    (l : List ModelInstallRequest) → sort_desc younger (λ q. q.created_at) l ≡ sort oldest_first l
unfolding sort sort_desc
sort_desc-sort [] = refl
sort_desc-sort (r ∷ l) =
    ap (insert_ranked younger (λ q. q.created_at) r) (sort_desc-sort l)
    ∙ insert_ranked-insert_by r (sort oldest_first l)

-- What is handed over, and what is withheld.
abbrev pub Hands : ℕ → Store → List ModelInstallRequest → Type 0
Hands limit s handed =
    (withheld : List ModelInstallRequest) × IsTopK younger (λ q. q.created_at) limit
      (select (λ r. r.status == "requested") (values s)) handed withheld

-- The installer is handed `limit` of the requests in state `requested`, or all of them if there
-- are fewer, and no others, each before those that are younger; none that is withheld is older
-- than any that is handed over.
pub list_pending-IsOldestFirst :
    (limit : ℕ) (s : Store)
    → IsOldestFirst (list_pending limit s)
      × AllRequested (list_pending limit s)
      × Hands limit s (list_pending limit s)
unfolding list_pending
list_pending-IsOldestFirst limit s =
    let requested = select (λ r. r.status == "requested") (values s) in
    (
      take-IsOldestFirst limit (sort oldest_first requested) (sort-IsOldestFirst requested),
      All-take (λ r. r.status ≡ "requested") limit (sort oldest_first requested)
          (sort-All (λ r. r.status ≡ "requested") requested (select-AllRequested (values s))),
      (
        drop limit (sort oldest_first requested),
        subst
            (λ l. IsTopK younger (λ q. q.created_at) limit requested (take limit l) (drop limit l))
            (sort_desc-sort requested)
            (take-sort_desc younger (λ q. q.created_at) younger-IsOrder limit requested),
      ),
    )
