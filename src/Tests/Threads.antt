-- ===== src/Tests/Threads.antt =====
-- Tests of Conversations.
use private_ai_workspace_eks.Prelude.{◌≡◌, refl, some, List, [], ◌∷◌, string_eq}
use private_ai_workspace_eks.Prelude.Dict
use private_ai_workspace_eks.Prelude.Text.{
  split_word, span_word, strip, lstrip, rstrip, is_space, has_char, after, len,
}
use private_ai_workspace_eks.Json.{get}
use private_ai_workspace_eks.Http.{pass, read_object}
use private_ai_workspace_eks.Auth.{verify_and_extract, bearer_token, extract_tenant_id}
use private_ai_workspace_eks.Conversations.{Store, valid_roles}
use private_ai_workspace_eks.Conversations.Handlers.{
  read_message, read_role, read_content, get_response,
}
use private_ai_workspace_eks.Conversations.Requests.{
  Request, post_conversation, delete_conversation, post_message, serve_all, write_of,
}
use private_ai_workspace_eks.Conversations.Isolation.{get_response-serve_all}
use private_ai_workspace_eks.Conversations.Bounds.{AllBounded, serve_all-AllBounded}
use private_ai_workspace_eks.Tests.{python, alice, verify_two, message_body}

-- Alice's conversation.
abbrev started : Store
started =
    (
      "1",
      (
        record {
          id = "1";
          tenant_id = "acme.com";
          user_id = "alice";
          title = "New conversation";
          created_at = 5;
          updated_at = 5;
        },
        [],
      ),
    )
    ∷ []

-- Carol tries to write into it and to delete it.
abbrev attempts : List Request
attempts =
    post_message (some "Bearer key") "1" "m" 6 message_body
    ∷ delete_conversation (some "Bearer key") "1"
    ∷ []

verify_alice : verify_and_extract (some "Bearer tok") (some verify_two) ≡ pass alice
unfolding verify_and_extract bearer_token split_word span_word strip lstrip rstrip is_space
    string_eq
verify_alice = refl

get_response-serve_all_example :
    get_response
      (some "Bearer tok")
      (some verify_two)
      "1"
      (serve_all (some verify_two) attempts started)
    ≡ get_response (some "Bearer tok") (some verify_two) "1" started
unfolding write_of read_message read_role read_content valid_roles verify_and_extract bearer_token
    split_word span_word strip lstrip rstrip is_space has_char after string_eq read_object get
    Dict.lookup extract_tenant_id len
get_response-serve_all_example =
    get_response-serve_all (some verify_two) (some "Bearer tok") alice "1" attempts started
      verify_alice ((tt, λ e. cc), ((tt, λ e. cc), tt))

serve_all-AllBounded_example :
    AllBounded
      (serve_all (some verify_two) (post_conversation (some "Bearer tok") "1" 5 "" ∷ attempts) [])
serve_all-AllBounded_example =
    serve_all-AllBounded (some verify_two)
      (post_conversation (some "Bearer tok") "1" 5 "" ∷ attempts)
