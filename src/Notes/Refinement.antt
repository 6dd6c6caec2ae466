-- ===== src/Notes/Refinement.antt =====
-- The store of notes behind its endpoints is a partial map from owners and ids to items.
use mathlib.Core.Path.{subst}
use private_ai_workspace_eks.Prelude.{
  ◌≡◌, refl, ap, sym, ◌∙◌, Option, List, [], ◌∷◌, arith, inl, inr,
}
use private_ai_workspace_eks.Json.{Python}
use private_ai_workspace_eks.Http.{Response, pass, fail, Result-cases}
use private_ai_workspace_eks.Auth.{TokenVerifier, verify_and_extract, owner_of}
use private_ai_workspace_eks.OwnedItems.{bucket}
use private_ai_workspace_eks.OwnedItems.Edits.{reported-update_first, is_some-remove_first}
use private_ai_workspace_eks.OwnedItems.Buckets.{
  Op, creating, updating, deleting, Map, view, IsValid, IsProper, exec, exec-IsValid, view-exec,
}
use private_ai_workspace_eks.Notes.{NoteItem, patched, Store, create, update, delete, note_owned}
use private_ai_workspace_eks.Notes.Handlers.{
  read_update, create_response, update_response, delete_response,
}
use private_ai_workspace_eks.Notes.Requests.{
  Request, post_note, post_update, delete_note, serve, serve_all, op_of, reply, spec, spec_all,
  IsFresh, AreFresh,
}

module _ ⦃py : Python⦄ (verifier : Option TokenVerifier) where
  -- A request that passes its checks is the write that it asks for.
  serve-exec :
      (r : Request) (s : Store) (op : Op NoteItem)
      → op_of verifier r ≡ pass op
      → serve verifier r s ≡ (exec op s, reply op (view s))
  unfolding serve op_of create_response update_response delete_response create update delete reply
      exec
  serve-exec (post_note h id now body) s op e = ground arith
  serve-exec (post_update h id now body) s op e =
      elim (Result-cases (read_update h verifier body)) [
        | inl (r, k) ↦ absurd (ground arith)
        | inr ((c, p), k) ↦
            let same : updating (owner_of c) id (patched p now) ≡ op = ground arith in
            subst (λ x. update_response h verifier id now body s ≡ (exec x s, reply x (view s)))
              same
              (rw (k, update_response)
                (rw (reported-update_first id (patched p now) (bucket (owner_of c) s)) refl))
      ]
  serve-exec (delete_note h id) s op e = elim (Result-cases (verify_and_extract h verifier)) [
    | inl (r, k) ↦ absurd (ground arith)
    | inr (c, k) ↦
        let same : deleting (owner_of c) id ≡ op = ground arith in
        subst (λ x. delete_response h verifier id s ≡ (exec x s, reply x (view s))) same
          (rw (k, delete_response)
            (ground (arith, is_some-remove_first id (bucket (owner_of c) s))))
  ]

  serve_fails :
      (r : Request) (s : Store) (e : Response)
      → op_of verifier r ≡ fail e
      → serve verifier r s ≡ (s, e)
  unfolding serve op_of create_response update_response delete_response
  serve_fails (post_note h id now body) s e k = ground arith
  serve_fails (post_update h id now body) s e k = ground arith
  serve_fails (delete_note h id) s e k = ground arith

  -- A fresh request asks for a proper write.
  op_of-IsProper :
      (r : Request) (m : Map NoteItem) (op : Op NoteItem)
      → op_of verifier r ≡ pass op
      → IsFresh (pass op) m
      → IsProper op m
  unfolding op_of patched
  op_of-IsProper r m (creating n) e fresh = fresh
  op_of-IsProper (post_update h id now body) m (updating key i f) e fresh =
      elim (Result-cases (read_update h verifier body)) [
        | inl (r, k) ↦ absurd (ground arith)
        | inr ((c, p), k) ↦
            let same : f ≡ patched p now = ground arith in λ a. ap (λ g. (g a).id) same
      ]
  op_of-IsProper (post_note h id now body) m (updating key i f) e fresh = absurd (ground arith)
  op_of-IsProper (delete_note h id) m (updating key i f) e fresh = absurd (ground arith)
  op_of-IsProper r m (deleting key id) e fresh = tt

  -- One request does to the store what it does to the map that the store reads as.
  pub record Refines (r : Request) (s : Store) : Type 0 where
    pub valid : IsValid (serve verifier r s).0
    pub same :
        (view (serve verifier r s).0, (serve verifier r s).1) ≡ spec (op_of verifier r) (view s)

  serve-Refines :
      (r : Request) (s : Store) → IsValid s → IsFresh (op_of verifier r) (view s) → Refines r s
  serve-Refines r s v fresh = elim (Result-cases (op_of verifier r)) [
    | inl (e, k) ↦ record {
      valid = rw (serve_fails r s e k) v;
      same = rw (serve_fails r s e k, k) refl;
    }
    | inr (op, k) ↦
        let proper = op_of-IsProper r (view s) op k (subst (λ x. IsFresh x (view s)) k fresh) in
        record {
          valid = rw (serve-exec r s op k) (exec-IsValid op s proper v);
          same =
              rw (serve-exec r s op k, k)
                (ap (λ m. (m, reply op (view s))) (view-exec op s proper v));
        }
  ]

  -- From a store in which the items of each owner have different ids, any requests to create,
  -- update and delete, of any callers, in which a new note gets an id that its owner does not use,
  -- are answered as a partial map from owners and ids to items would answer them, and leave a store
  -- that reads as that map.
  pub serve_all_refines :
      (rs : List Request) (s : Store)
      → IsValid s
      → AreFresh verifier rs (view s)
      → (view (serve_all verifier rs s).0 ≡ (spec_all verifier rs (view s)).0)
        × ((serve_all verifier rs s).1 ≡ (spec_all verifier rs (view s)).1)
  unfolding serve_all spec_all
  serve_all_refines [] s v fresh = (refl, refl)
  serve_all_refines (r ∷ rs) s v fresh =
      let step = serve-Refines r s v fresh.0 in
      let m = ap (λ x. x.0) step.same in
      let rest =
        serve_all_refines rs (serve verifier r s).0 step.valid
          (subst (AreFresh verifier rs) (sym m) fresh.1) in
      let answer = ap (λ x. x.1) step.same in
      let answers = rest.1 ∙ ap (λ x. (spec_all verifier rs x).1) m in
      (rest.0 ∙ ap (λ x. (spec_all verifier rs x).0) m, cc)
