-- ===== src/Http/Body.antt =====
-- What the body of a request says, for the handlers that read a JSON object.
use private_ai_workspace_eks.Prelude.{String, ◌≡◌, some, arith}
use private_ai_workspace_eks.Json.{Fields, Python, obj}
use private_ai_workspace_eks.Http.{Response, pass, read_object}

module _ ⦃py : Python⦄ where
  -- The body is a JSON object of which `P` holds.
  abbrev pub Says : String → (Fields → Type 0) → Type 0
  Says body P = (d : Fields) × (py.loads body ≡ some (obj d)) × P d

  pub read_object-loads :
      (not_json not_object : Response) (body : String) (d : Fields)
      → read_object not_json not_object body ≡ pass d
      → py.loads body ≡ some (obj d)
  unfolding read_object
  read_object-loads not_json not_object body d h = ground arith
