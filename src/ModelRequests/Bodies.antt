-- ===== src/ModelRequests/Bodies.antt =====
-- What the body of a request to install a model says.
use private_ai_workspace_eks.Prelude.{
  String, ◌≡◌, refl, ◌⊎◌, false, arith, string_eq, Bool-cases, inl, inr,
}
use private_ai_workspace_eks.Prelude.Text.{strip}
use private_ai_workspace_eks.Json.{Json, Python, null, bool, int, float, str, arr, obj, get, truthy}
use private_ai_workspace_eks.Http.{Result-cases, pass, not_json, not_object, read_object}
use private_ai_workspace_eks.Http.Body.{Says, read_object-loads}
use private_ai_workspace_eks.ModelRequests.{Config}
use private_ai_workspace_eks.ModelRequests.Handlers.{read_repo, read_revision, read_request}

module _ ⦃py : Python⦄ where
  -- The body has the repository, up to white space around it, and the revision, or none.
  abbrev pub Asks : String → String → String → Type 0
  Asks body repo revision = Says body (λ d.
      ((raw : String) × (get "hf_repo_id" d ≡ str raw) × (strip raw ≡ repo))
      × (get "revision" d ≡ str revision ⊎ ((truthy (get "revision" d) ≡ false) × (revision ≡ ""))))

  read_repo_lem :
      (v : Json) (repo : String)
      → read_repo v ≡ pass repo
      → (raw : String) × (v ≡ str raw) × (strip raw ≡ repo)
  unfolding read_repo
  read_repo_lem (str raw) repo h = (raw, refl, ground arith)
  read_repo_lem null repo h = absurd cc
  read_repo_lem (bool b) repo h = absurd cc
  read_repo_lem (int n) repo h = absurd cc
  read_repo_lem (float f) repo h = absurd cc
  read_repo_lem (arr l) repo h = absurd cc
  read_repo_lem (obj d) repo h = absurd cc

  read_revision_lem :
      (v : Json) (revision : String)
      → read_revision v ≡ pass revision
      → (v ≡ str revision) ⊎ ((truthy v ≡ false) × (revision ≡ ""))
  unfolding read_revision
  read_revision_lem v revision h = elim (Bool-cases (truthy v)) [
    | inl given ↦ inl (ground arith)
    | inr missing ↦ inr (missing, ground arith)
  ]

  pub read_request-Asks :
      (config : Config) (body repo revision : String)
      → read_request config body ≡ pass (repo, revision)
      → Asks body repo revision
  unfolding read_request
  read_request-Asks config body repo revision h =
      elim (Result-cases (read_object not_json not_object body)) [
        | inl (r, e) ↦ absurd (ground arith)
        | inr (d, e) ↦ (
          d,
          read_object-loads not_json not_object body d e,
          (
            read_repo_lem (get "hf_repo_id" d) repo (ground arith),
            read_revision_lem (get "revision" d) revision (ground arith),
          ),
        )
      ]
