-- ===== src/Auth.antt =====
-- app/control_plane/token_verifier.py (the claims), and the helpers of notifications.py that every
-- handler calls: `_verify_and_extract` and `_extract_tenant_id`.
pub mod Header
pub mod Laws
use private_ai_workspace_eks.Prelude.{
  ℕ, String, Bool, Option, none, some, List, [], ◌∷◌, ◌&&◌, not, ◌==◌, contains, string_eq,
  if◌then◌else◌,
}
use private_ai_workspace_eks.Prelude.Text.{is_empty, strip, split_word, has_char, after}
use private_ai_workspace_eks.Json.{Python}
use private_ai_workspace_eks.Http.{
  Response, unauthorized, unavailable, error_detail, degraded, Result, pass, fail, or_fail, ◌>>=◌,
}

pub record TokenClaims : Type 0 where
  pub subject : String
  pub email : String
  pub groups : List String
  pub expires_at : Option ℕ

unfoldable pub has_group : TokenClaims → String → Bool
has_group c group = contains c.groups group

-- `verify` of a token verifier; `none` stands for `TokenVerificationError`.
abbrev pub TokenVerifier : Type 0
TokenVerifier = String → Option TokenClaims

abbrev pub unauth_missing : Response
unauth_missing = error_detail unauthorized "unauthorized" "Bearer token required."

abbrev pub unauth_invalid : Response
unauth_invalid = error_detail unauthorized "unauthorized" "Invalid or expired token."

abbrev pub auth_not_configured : Response
auth_not_configured =
    degraded unavailable "auth_not_configured" "Authentication is not configured on this instance."

module _ ⦃py : Python⦄ where
  -- The text behind the scheme, where the header has two parts and the first is `Bearer`.
  bearer_part : List String → Option String
  bearer_part (scheme ∷ rest ∷ []) = if py.lower scheme == "bearer" then some (strip rest) else none
  bearer_part _ = none

  -- `if not authorization` covers `None` and the empty text.
  unfoldable pub bearer_token : Option String → Option String
  unfolding bearer_part
  bearer_token none = none
  bearer_token (some header) = if is_empty header then none else bearer_part (split_word header)

  unfoldable pub verify_and_extract : Option String → Option TokenVerifier → Result TokenClaims
  verify_and_extract authorization verifier = do
    raw_token ← or_fail (bearer_token authorization) unauth_missing
    token ← if is_empty raw_token then fail unauth_missing else pass raw_token
    verify ← or_fail verifier auth_not_configured
    or_fail (verify token) unauth_invalid

  -- The email's domain, or `"default"`. 64 is `@`.
  unfoldable pub extract_tenant_id : TokenClaims → String
  extract_tenant_id c =
      if not (is_empty c.email) && has_char 64 c.email
      then py.lower (after 64 c.email)
      else "default"

  -- `(tenant_id, user_id)` of a caller
  abbrev pub owner_of : TokenClaims → String × String
  owner_of c = (extract_tenant_id c, c.subject)
