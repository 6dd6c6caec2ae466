-- ===== src/Conversations/Requests.antt =====
-- Sequences of requests to the write endpoints of conversations.py.
use private_ai_workspace_eks.Prelude.{ℕ, String, Option, List, [], ◌∷◌, ◌≡◌, string_eq, arith}
use private_ai_workspace_eks.Json.{Python}
use private_ai_workspace_eks.Http.{Response, Result, pass, fail}
use private_ai_workspace_eks.Auth.{TokenVerifier, verify_and_extract, owner_of}
use private_ai_workspace_eks.Notifications.{Owner}
use private_ai_workspace_eks.Conversations.{Store, create, delete, append}
use private_ai_workspace_eks.Conversations.Handlers.{
  read_title, read_message, create_response, delete_response, append_response,
}

-- A request, with the header, and the clock and the fresh id at its time.
pub data Request : Type 0 where
  post_conversation : Option String → String → ℕ → String → Request
  delete_conversation : Option String → String → Request
  post_message : Option String → String → String → ℕ → String → Request

-- A call of the store.
pub data Write : Type 0 where
  creating : Owner → String → String → ℕ → Write
  deleting : Owner → String → Write
  appending : Owner → String → String → String → String → ℕ → Write

abbrev pub writer : Write → Owner
writer (creating key id title now) = key
writer (deleting key id) = key
writer (appending key id role content message_id now) = key

unfoldable pub write : Write → Store → Store
write (creating key id title now) s = (create key id title now s).0
write (deleting key id) s = (delete key id s).0
write (appending key id role content message_id now) s =
    (append key id role content message_id now s).0

module _ ⦃py : Python⦄ (verifier : Option TokenVerifier) where
  unfoldable pub serve : Request → Store → Store × Response
  serve (post_conversation h id now body) s = create_response h verifier id now body s
  serve (delete_conversation h id) s = delete_response h verifier id s
  serve (post_message h id message_id now body) s =
      append_response h verifier id message_id now body s

  unfoldable pub serve_all : List Request → Store → Store
  serve_all [] s = s
  serve_all (r ∷ rs) s = serve_all rs (serve r s).0

  -- The call that a request makes, if its checks pass.
  unfoldable pub write_of : Request → Result Write
  write_of (post_conversation h id now body) = elim (verify_and_extract h verifier) [
    | fail r ↦ fail r
    | pass c ↦ pass (creating (owner_of c) id (read_title body) now)
  ]
  write_of (delete_conversation h id) = elim (verify_and_extract h verifier) [
    | fail r ↦ fail r
    | pass c ↦ pass (deleting (owner_of c) id)
  ]
  write_of (post_message h id message_id now body) = elim (read_message h verifier body) [
    | fail r ↦ fail r
    | pass (c, role, content) ↦ pass (appending (owner_of c) id role content message_id now)
  ]

  abbrev pub after : Result Write → Store → Store
  after (fail r) s = s
  after (pass w) s = write w s

  pub serve-after : (r : Request) (s : Store) → (serve r s).0 ≡ after (write_of r) s
  unfolding serve write_of write create_response delete_response append_response
  serve-after (post_conversation h id now body) s = ground arith
  serve-after (delete_conversation h id) s = ground arith
  serve-after (post_message h id message_id now body) s = ground arith
