-- ===== src/ModelRequests/Store.antt =====
-- `InMemoryModelRequestStore`. Each method is one step under the lock.
use private_ai_workspace_eks.Prelude.{
  ℕ, suc, String, Bool, Option, none, some, List, [], ◌∷◌, ◌&&◌, ◌||◌, ◌==◌, leb, select, take,
  pair_eq, string_eq, if◌then◌else◌,
}
use private_ai_workspace_eks.Prelude.Dict
use private_ai_workspace_eks.Prelude.Dict.{Dict}
use private_ai_workspace_eks.ModelRequests.{ModelInstallRequest}

-- The requests by id, in the order of creation.
abbrev pub Store : Type 0
Store = Dict String ModelInstallRequest

abbrev pub values : Store → List ModelInstallRequest
values [] = []
values ((k, r) ∷ d) = r ∷ values d

unfoldable pub create : ModelInstallRequest → Store → Store
create r s = Dict.insert r.id r s

-- `list.sort`, which is stable, by the time of creation.
unfoldable pub insert_by :
    (ℕ → ℕ → Bool) → ModelInstallRequest → List ModelInstallRequest → List ModelInstallRequest
insert_by before r [] = r ∷ []
insert_by before r (q ∷ l) =
    let rest = insert_by before r l in
    if before r.created_at q.created_at then r ∷ q ∷ l else q ∷ rest

unfoldable pub sort : (ℕ → ℕ → Bool) → List ModelInstallRequest → List ModelInstallRequest
unfolding insert_by
sort before [] = []
sort before (r ∷ l) = insert_by before r (sort before l)

abbrev pub newest_first : ℕ → ℕ → Bool
newest_first m n = leb n m

abbrev pub oldest_first : ℕ → ℕ → Bool
oldest_first m n = leb m n

abbrev pub owner : ModelInstallRequest → String × String
owner r = (r.tenant_id, r.user_id)

unfoldable pub list_for_user : String × String → ℕ → Store → List ModelInstallRequest
list_for_user who limit s = take limit (sort newest_first (select (λ r. who == owner r) (values s)))

unfoldable pub list_all : ℕ → Store → List ModelInstallRequest
list_all limit s = take limit (sort newest_first (values s))

unfoldable pub list_pending : ℕ → Store → List ModelInstallRequest
list_pending limit s =
    take limit (sort oldest_first (select (λ r. r.status == "requested") (values s)))

abbrev pub is_open_for : String → ModelInstallRequest → Bool
is_open_for tenant r =
    tenant == r.tenant_id && (r.status == "requested" || r.status == "installing")

unfoldable pub update_status :
    String → String → String → ℕ → Store → Store × Option ModelInstallRequest
update_status id status error_class now s = elim (Dict.lookup id s) [
  | none ↦ (s, none)
  | some r ↦
      let r' = record r { status = status; error_class = error_class; updated_at = now } in
      (Dict.insert id r' s, some r')
]

unfoldable pub count_open_for_tenant : String → Store → ℕ
count_open_for_tenant tenant [] = 0
count_open_for_tenant tenant ((k, r) ∷ d) =
    let rest = count_open_for_tenant tenant d in if is_open_for tenant r then suc rest else rest
