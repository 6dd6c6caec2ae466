-- ===== src/Tests/Stores.antt =====
-- Tests of Notes.
use private_ai_workspace_eks.Prelude.{◌≡◌, refl, some, List, [], ◌∷◌, string_eq, pair_eq}
use private_ai_workspace_eks.Prelude.Dict
use private_ai_workspace_eks.Prelude.Text.{
  split_word, span_word, strip, lstrip, rstrip, is_space, has_char, after, len,
}
use private_ai_workspace_eks.Json.{get, get_or, has, truthy}
use private_ai_workspace_eks.Http.{read_object}
use private_ai_workspace_eks.Auth.{verify_and_extract, bearer_token, extract_tenant_id}
use private_ai_workspace_eks.OwnedItems.{bucket, find}
use private_ai_workspace_eks.OwnedItems.Buckets.{view}
use private_ai_workspace_eks.Notes.{kinds, note_owned}
use private_ai_workspace_eks.Notes.Handlers.{
  read_create, read_update, read_kind, required_text, optional_text, read_done,
}
use private_ai_workspace_eks.Notes.Requests.{
  Request, post_note, post_update, delete_note, op_of, serve_all, spec_all,
}
use private_ai_workspace_eks.Notes.Refinement.{serve_all_refines}
use private_ai_workspace_eks.Tests.{python, verify, note_body}

-- A note is written, changed and removed.
abbrev requests : List Request
requests =
    post_note (some "Bearer tok") "1" 5 note_body
    ∷ post_update (some "Bearer tok") "1" 6 note_body
    ∷ delete_note (some "Bearer tok") "1"
    ∷ []

serve_all_refines_example :
    (view (serve_all (some verify) requests []).0 ≡ (spec_all (some verify) requests (view [])).0)
    × ((serve_all (some verify) requests []).1 ≡ (spec_all (some verify) requests (view [])).1)
unfolding op_of read_create read_update read_kind required_text optional_text read_done kinds
    verify_and_extract bearer_token split_word span_word strip lstrip rstrip is_space has_char after
    string_eq read_object get get_or has Dict.lookup bucket find extract_tenant_id len truthy
serve_all_refines_example =
    serve_all_refines (some verify) requests [] (λ key. tt) (refl, (tt, (tt, tt)))
