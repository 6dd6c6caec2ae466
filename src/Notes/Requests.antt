-- ===== src/Notes/Requests.antt =====
-- Sequences of requests to the write endpoints of notes.py, on the store, and on a partial map from
-- owners and ids to items.
use private_ai_workspace_eks.Prelude.{ℕ, String, Option, List, [], ◌∷◌, is_some, ◌≡◌, false}
use private_ai_workspace_eks.Json.{Python}
use private_ai_workspace_eks.Http.{Response, created, Result, pass, fail}
use private_ai_workspace_eks.Auth.{TokenVerifier, verify_and_extract, owner_of}
use private_ai_workspace_eks.OwnedItems.Edits.{map_option}
use private_ai_workspace_eks.OwnedItems.Buckets.{Op, creating, updating, deleting, Map, on_map}
use private_ai_workspace_eks.Notes.{NoteItem, to_api_dict, patched, Store, note_owned}
use private_ai_workspace_eks.Notes.Handlers.{
  update_reply, delete_reply, read_create, read_update, create_response, update_response,
  delete_response,
}

-- A request, with the header, and the clock and the fresh id at its time.
pub data Request : Type 0 where
  post_note : Option String → String → ℕ → String → Request
  post_update : Option String → String → ℕ → String → Request
  delete_note : Option String → String → Request

module _ ⦃py : Python⦄ where
  -- What the map answers to a write.
  unfoldable pub reply : Op NoteItem → Map NoteItem → Response
  reply (creating n) m = record { status = created; payload = to_api_dict n }
  reply (updating key id f) m = update_reply (map_option f (m key id))
  reply (deleting key id) m = delete_reply id (is_some (m key id))

  abbrev pub spec : Result (Op NoteItem) → Map NoteItem → Map NoteItem × Response
  spec (fail r) m = (m, r)
  spec (pass op) m = (on_map op m, reply op m)

  -- The id of a new note is not one that its owner uses.
  abbrev pub IsFresh : Result (Op NoteItem) → Map NoteItem → Type 0
  IsFresh (pass (creating n)) m = is_some (m (n.tenant_id, n.user_id) n.id) ≡ false
  IsFresh _ m = Unit

module _ ⦃py : Python⦄ (verifier : Option TokenVerifier) where
  unfoldable pub serve : Request → Store → Store × Response
  serve (post_note h id now body) s = create_response h verifier id now body s
  serve (post_update h id now body) s = update_response h verifier id now body s
  serve (delete_note h id) s = delete_response h verifier id s

  -- The requests in order, and their answers.
  unfoldable pub serve_all : List Request → Store → Store × List Response
  serve_all [] s = (s, [])
  serve_all (r ∷ rs) s = let rest = serve_all rs (serve r s).0 in (rest.0, (serve r s).1 ∷ rest.1)

  -- The write that a request asks for, if its checks pass, else the answer.
  unfoldable pub op_of : Request → Result (Op NoteItem)
  op_of (post_note h id now body) = elim (read_create h verifier id now body) [
    | fail r ↦ fail r
    | pass n ↦ pass (creating n)
  ]
  op_of (post_update h id now body) = elim (read_update h verifier body) [
    | fail r ↦ fail r
    | pass (c, p) ↦ pass (updating (owner_of c) id (patched p now))
  ]
  op_of (delete_note h id) = elim (verify_and_extract h verifier) [
    | fail r ↦ fail r
    | pass c ↦ pass (deleting (owner_of c) id)
  ]

  unfoldable pub spec_all : List Request → Map NoteItem → Map NoteItem × List Response
  spec_all [] m = (m, [])
  spec_all (r ∷ rs) m =
      let rest = spec_all rs (spec (op_of r) m).0 in (rest.0, (spec (op_of r) m).1 ∷ rest.1)

  abbrev pub AreFresh : List Request → Map NoteItem → Type 0
  AreFresh [] m = Unit
  AreFresh (r ∷ rs) m = IsFresh (op_of r) m × AreFresh rs (spec (op_of r) m).0
