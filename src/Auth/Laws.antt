-- ===== src/Auth/Laws.antt =====
-- Authentication: which header and verifier give which claims, and which tenant.
use Prim.Native.Char.{Char, code}
use private_ai_workspace_eks.Prelude.{String, ◌<>◌, ◌≡◌, false, Option, some, arith, string_eq}
use private_ai_workspace_eks.Prelude.Text.{is_empty, has_char}
use private_ai_workspace_eks.Json.{Python}
use private_ai_workspace_eks.Http.{pass, or_fail}
use private_ai_workspace_eks.Auth.{
  TokenClaims, TokenVerifier, unauth_invalid, bearer_token, verify_and_extract, extract_tenant_id,
}
use private_ai_workspace_eks.Auth.Header.{
  IsWord, strip_of_IsWord, split_word_lem, after_lem, has_char_lem, is_empty-append,
}

module _ ⦃py : Python⦄ where
  -- A header `<scheme> <token>` of two words, the first one `bearer` in any case, holds the token.
  pub bearer_token_lem :
      (scheme token : String)
      → py.lower scheme ≡ "bearer"
      → is_empty scheme ≡ false
      → IsWord scheme
      → is_empty token ≡ false
      → IsWord token
      → bearer_token (some (scheme <> String.◌∷◌ " " token)) ≡ some token
  unfolding bearer_token
  bearer_token_lem scheme token l e w e' w' =
      rw
        (
          is_empty-append scheme token " ",
          split_word_lem scheme token e w e' w',
          strip_of_IsWord token w',
        )
        (ground arith)

  -- For a header `<scheme> <token>` of two nonempty words without spaces, the first one `bearer` in
  -- lower case, the answer is what the verifier says of exactly that token: its claims, or 401.
  verify_and_extract_bearer :
      (scheme token : String) (verify : TokenVerifier)
      → py.lower scheme ≡ "bearer"
      → is_empty scheme ≡ false
      → IsWord scheme
      → is_empty token ≡ false
      → IsWord token
      → verify_and_extract (some (scheme <> String.◌∷◌ " " token)) (some verify)
        ≡ or_fail (verify token) unauth_invalid
  unfolding verify_and_extract
  verify_and_extract_bearer scheme token verify l e w e' w' =
      rw (bearer_token_lem scheme token l e w e' w', e')

  -- Claims come only from a verifier, for a token that stands in the header.
  verify_and_extract_sound :
      (authorization : Option String) (verifier : Option TokenVerifier) (c : TokenClaims)
      → verify_and_extract authorization verifier ≡ pass c
      → (token : String) × (verify : TokenVerifier) × (bearer_token authorization ≡ some token)
        × (is_empty token ≡ false)
        × (verifier ≡ some verify)
        × (verify token ≡ some c)
  unfolding verify_and_extract
  verify_and_extract_sound authorization verifier c h = ground arith

  -- The tenant of a caller is what follows the first `@` of the email address, in lower case.
  extract_tenant_id_domain :
      (c : TokenClaims) (u d : String) (at : Char)
      → c.email ≡ u <> String.◌∷◌ at d
      → has_char 64 u ≡ false
      → code at ≡ 64
      → extract_tenant_id c ≡ py.lower d
  unfolding extract_tenant_id
  extract_tenant_id_domain c u d at e h k =
      rw (e, is_empty-append u d at, has_char_lem 64 u d at k, after_lem 64 u d at h k)

  -- A caller without an `@` in the email address is of the default tenant.
  pub extract_tenant_id_default :
      (c : TokenClaims) → has_char 64 c.email ≡ false → extract_tenant_id c ≡ "default"
  unfolding extract_tenant_id
  extract_tenant_id_default c h = ground arith
