-- ===== src/Conversations/Isolation.antt =====
-- No request of one user changes what another user sees of a conversation.
use private_ai_workspace_eks.Prelude.{
  String, ◌≡◌, ◌≢◌, refl, ap, sym, ◌∙◌, Option, none, some, List, [], ◌∷◌, arith, string_eq,
  pair_eq, Option-cases, inl, inr,
}
use private_ai_workspace_eks.Prelude.Dict
use private_ai_workspace_eks.Json.{Python}
use private_ai_workspace_eks.Http.{Result, pass, fail}
use private_ai_workspace_eks.Auth.{TokenClaims, TokenVerifier, verify_and_extract, owner_of}
use private_ai_workspace_eks.Notifications.{Owner}
use private_ai_workspace_eks.Conversations.{
  Store, Entry, owner, owned, owned_by, get, create, delete, append, appended,
}
use private_ai_workspace_eks.Conversations.Handlers.{get_response}
use private_ai_workspace_eks.Conversations.Requests.{
  Request, Write, creating, deleting, appending, writer, write, serve, serve_all, write_of, after,
  serve-after,
}

-- The id of a new conversation is not in use.
abbrev pub IsFresh : Write → Store → Type 0
IsFresh (creating key id title now) s = Dict.lookup id s ≡ none
IsFresh _ s = Unit

owned_by-owner :
    (key : Owner) (e : Option Entry) (x : Entry) → owned_by key e ≡ some x → owner x.0 ≡ key
owned_by-owner key none x h = absurd cc
owned_by-owner key (some (c, messages)) x h = ground arith

owned_by_other :
    (key by : Owner) (e : Option Entry) (x : Entry)
    → owned_by by e ≡ some x
    → by ≢ key
    → owned_by key e ≡ none
owned_by_other key by none x h other = refl
owned_by_other key by (some (c, messages)) x h other = ground arith

-- An entry of another owner is put in place of one that is not the user's own.
get-insert_other :
    (key : Owner) (id i : String) (e : Entry) (s : Store)
    → owned i key s ≡ none
    → owner e.0 ≢ key
    → get key id (Dict.insert i e s) ≡ get key id s
unfolding get owned
get-insert_other key id i (c, messages) s h other =
    ground (arith, Dict.lookup-insert id i (c, messages) s)

-- What another user owns is not the user's own.
owned-others :
    (key by : Owner) (i : String) (s : Store) (e : Entry)
    → owned i by s ≡ some e
    → by ≢ key
    → (owned i key s ≡ none) × (owner e.0 ≢ key)
unfolding owned
owned-others key by i s e h other =
    let by_owner = owned_by-owner by (Dict.lookup i s) e h in
    (owned_by_other key by (Dict.lookup i s) e h other, λ k. other (sym by_owner ∙ k))

get-write_other :
    (key : Owner) (id : String) (w : Write) (s : Store)
    → IsFresh w s
    → writer w ≢ key
    → get key id (write w s) ≡ get key id s
unfolding write create delete append appended
get-write_other key id (creating by i title now) s fresh other =
    get-insert_other key id i _ s (unfold owned in rw fresh refl) other
get-write_other key id (deleting by i) s fresh other = elim (Option-cases (owned i by s)) [
  | inl none_owned ↦ rw (none_owned, write) refl
  | inr (e, h) ↦
      let (mine, theirs) = owned-others key by i s e h other in
      rw (h, write) (unfold get owned in ground (arith, Dict.lookup-erase id i s))
]
get-write_other key id (appending by i role content message_id now) s fresh other =
    elim (Option-cases (owned i by s)) [
      | inl none_owned ↦ rw (none_owned, write) refl
      | inr ((c, messages), h) ↦
          let (mine, theirs) = owned-others key by i s (c, messages) h other in
          rw (h, write) (get-insert_other key id i _ s mine theirs)
    ]

module _ ⦃py : Python⦄ (verifier : Option TokenVerifier) where
  -- Requests of other users only, in which a new conversation gets an id that is not in use.
  abbrev pub IsOther : Owner → Result Write → Store → Type 0
  IsOther key (fail r) s = Unit
  IsOther key (pass w) s = IsFresh w s × (writer w ≢ key)

  abbrev pub AreOther : Owner → List Request → Store → Type 0
  AreOther key [] s = Unit
  AreOther key (r ∷ rs) s =
      IsOther key (write_of verifier r) s × AreOther key rs (serve verifier r s).0

  get-after :
      (key : Owner) (id : String) (w : Result Write) (s : Store)
      → IsOther key w s
      → get key id (after verifier w s) ≡ get key id s
  get-after key id (fail r) s h = refl
  get-after key id (pass w) s h = get-write_other key id w s h.0 h.1

  get-serve_all :
      (key : Owner) (id : String) (rs : List Request) (s : Store)
      → AreOther key rs s
      → get key id (serve_all verifier rs s) ≡ get key id s
  unfolding serve_all
  get-serve_all key id [] s h = refl
  get-serve_all key id (r ∷ rs) s h =
      get-serve_all key id rs (serve verifier r s).0 h.1
      ∙ ap (get key id) (serve-after verifier r s)
      ∙ get-after key id (write_of verifier r) s h.0

  -- Whatever requests other users make, with any conversation id, what the endpoint shows a
  -- verified caller of a conversation is what it showed before: none of theirs, and its own
  -- unchanged. New conversations get ids that are not in use.
  pub get_response-serve_all :
      (authorization : Option String) (c : TokenClaims) (id : String) (rs : List Request)
      (s : Store)
      → verify_and_extract authorization verifier ≡ pass c
      → AreOther (owner_of c) rs s
      → get_response authorization verifier id (serve_all verifier rs s)
        ≡ get_response authorization verifier id s
  unfolding get_response
  get_response-serve_all authorization c id rs s h others =
      rw (h, get_response) (rw (get-serve_all (owner_of c) id rs s others) refl)
