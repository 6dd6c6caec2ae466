-- ===== src/Http.antt =====
-- Responses `(status, payload)` of the handlers, and the early return of an error response.
pub mod Body
use private_ai_workspace_eks.Prelude.{
  ℕ, min, max, String, ◌≡◌, refl, ◌⊎◌, inl, inr, Bool, true, false, Option, none, some, List, [],
  ◌∷◌,
}
use private_ai_workspace_eks.Json.{Json, ℤ, pos, negsuc, Fields, Python, str, dict, as_dict}

pub data Status : Type 0 where
  ok created accepted bad_request unauthorized forbidden not_found payload_too_large : Status
  unprocessable too_many_requests internal_error bad_gateway unavailable gateway_timeout : Status

pub record Response : Type 0 where
  pub status : Status
  pub payload : Json

abbrev pub respond : Status → List (String × Json) → Response
respond s l = record { status = s; payload = dict l }

abbrev pub error : Status → String → Response
error s e = respond s (("error", str e) ∷ [])

abbrev pub error_detail : Status → String → String → Response
error_detail s e d = respond s (("error", str e) ∷ ("detail", str d) ∷ [])

-- An error with `"status": "degraded"`
abbrev pub degraded : Status → String → String → Response
degraded s e d = respond s (("error", str e) ∷ ("detail", str d) ∷ ("status", str "degraded") ∷ [])

-- What `_instrument` of server.py answers where a handler raises.
abbrev pub unhandled : Response
unhandled = error internal_error "internal_error"

-- A step of a handler gives a value or returns early.
pub data Result {ℓ} (A : Type ℓ) : Type ℓ where
  pass : A → Result A
  fail : Response → Result A

infixl 5 ◌>>=◌ ◌>>◌
abbrev pub ◌>>=◌ {ℓ κ} : {A : Type ℓ} {B : Type κ} → Result A → (A → Result B) → Result B
pass a >>= f = f a
fail r >>= f = fail r

abbrev pub ◌>>◌ {ℓ} : {B : Type ℓ} → Result (Unit {0}) → Result B → Result B
m >> k = m >>= λ _. k

-- `if not c: return r`
abbrev pub require : Bool → Response → Result (Unit {0})
require true r = pass tt
require false r = fail r

abbrev pub or_fail {ℓ} : {A : Type ℓ} → Option A → Response → Result A
or_fail none r = fail r
or_fail (some a) r = pass a

pub Result-cases {ℓ} :
    {A : Type ℓ} (m : Result A) → ((r : Response) × (m ≡ fail r)) ⊎ ((a : A) × (m ≡ pass a))
Result-cases (fail r) = inl (r, refl)
Result-cases (pass a) = inr (a, refl)

module _ {ℓ κ} {A : Type ℓ} {B : Type κ} where
  pub >>=-eq-pass :
      (m : Result A) (f : A → Result B) {b : B}
      → (m >>= f) ≡ pass b
      → (a : A) × (m ≡ pass a) × (f a ≡ pass b)
  >>=-eq-pass (pass a) f h = (a, refl, h)
  >>=-eq-pass (fail r) f h = cc

-- `min(max(1, n), hi)` for an integer `n`
abbrev pub clamp : ℤ → ℕ → ℕ
clamp (pos n) hi = min (max 1 n) hi
clamp (negsuc n) hi = min 1 hi

abbrev pub not_json : Response
not_json = error_detail bad_request "bad_request" "Body is not valid JSON."

abbrev pub not_object : Response
not_object = error_detail bad_request "bad_request" "Body must be a JSON object."

-- `json.loads(body)` and the test that it is a `dict`, with the two error responses
unfoldable pub read_object : ⦃py : Python⦄ → Response → Response → String → Result Fields
read_object ⦃py⦄ not_json not_object body = do
  data_value ← or_fail (py.loads body) not_json
  or_fail (as_dict data_value) not_object
