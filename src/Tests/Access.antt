-- ===== src/Tests/Access.antt =====
-- Tests of Auth and of RateLimiter.
use private_ai_workspace_eks.Prelude.{
  ◌+◌, ◌≤◌, max, ◌≡◌, refl, some, List, [], ◌∷◌, string_eq, nat_eq, arith,
}
use private_ai_workspace_eks.Prelude.Text.{split_word, span_word, strip, lstrip, rstrip, is_space}
use private_ai_workspace_eks.Http.{pass}
use private_ai_workspace_eks.Auth.{bearer_token, verify_and_extract}
use private_ai_workspace_eks.RateLimiter.{init}
use private_ai_workspace_eks.RateLimiter.Permits.{Call, acquire, finish, serve, serve_in_flight}
use private_ai_workspace_eks.RateLimiter.Windows.{grants, grants-le-per_minute}
use private_ai_workspace_eks.Tests.{python, alice, verify}

verify_and_extract_header : verify_and_extract (some "Bearer tok") (some verify) ≡ pass alice
unfolding verify_and_extract bearer_token split_word span_word strip lstrip rstrip is_space
    string_eq
verify_and_extract_header = refl

abbrev calls : List Call
calls = acquire "a" 60 ∷ acquire "a" 61 ∷ acquire "b" 62 ∷ finish ∷ acquire "b" 63 ∷ []

serve_in_flight_example :
    let (l, flying) = serve (init 5 2, 0) calls in
    (l.permits + flying ≡ max 1 2) × (flying ≤ max 1 2)
serve_in_flight_example = serve_in_flight 5 2 calls

grants-le-per_minute_example : grants "a" 1 (init 1 2) calls ≤ 1
grants-le-per_minute_example =
    grants-le-per_minute 1 2 60 calls "a" 1
      (omega arith, (omega arith, (omega arith, (omega arith, tt))))
