-- ===== src/Conversations/Bounds.antt =====
-- The sizes of what is stored: messages of a conversation, titles and contents.
use mathlib.Core.Path.{subst}
use private_ai_workspace_eks.Prelude.{
  ℕ, ◌≤◌, String, ◌≡◌, sym, Option, some, List, [], ◌∷◌, arith, ◌==◌, string_eq, Option-cases,
  Bool-cases, inl, inr, leb, leb→le, length, drop, length-append, length-drop, All, All-append,
  All-drop,
}
use private_ai_workspace_eks.Prelude.Dict
use private_ai_workspace_eks.Prelude.Text.{len, slice_to, len-slice_to, strip, lstrip, rstrip}
use private_ai_workspace_eks.Json.{Python}
use private_ai_workspace_eks.Http.{Result, pass, fail}
use private_ai_workspace_eks.Auth.{TokenVerifier}
use private_ai_workspace_eks.Notifications.{Owner}
use private_ai_workspace_eks.Conversations.{
  Store, Message, Entry, owned, create, delete, append, appended, push, retitled, max_title_len,
  max_content_len, max_messages_per_conversation,
}
use private_ai_workspace_eks.Conversations.Requests.{
  Request, Write, creating, deleting, appending, write, serve, serve_all, write_of, after,
  serve-after,
}

len-lstrip : (s : String) → len (lstrip s) ≤ len s
unfolding len lstrip
len-lstrip String.[] = omega arith
len-lstrip (String.◌∷◌ c s) = ground (arith, len-lstrip s)

len-rstrip : (s : String) → len (rstrip s) ≤ len s
unfolding len rstrip
len-rstrip String.[] = omega arith
len-rstrip (String.◌∷◌ c s) = ground (arith, len-rstrip s)

len-strip : (s : String) → len (strip s) ≤ len s
unfolding strip
len-strip s = omega (arith, len-rstrip (lstrip s), len-lstrip s)

-- `len_slice_to` as an order.
slice_to_le : (n : ℕ) (s : String) → len (slice_to n s) ≤ n
slice_to_le n s = leb→le (len (slice_to n s)) n (len-slice_to n s)

abbrev IsShort : Message → Type 0
IsShort m = len m.content ≤ max_content_len

pub record IsBounded (e : Entry) : Type 0 where
  pub messages : length e.1 ≤ max_messages_per_conversation
  pub title : len e.0.title ≤ max_title_len
  pub contents : All IsShort e.1

length-push :
    (m : Message) (l : List Message)
    → length l ≤ max_messages_per_conversation
    → length (push m l) ≤ max_messages_per_conversation
unfolding push
length-push m l h = elim (Bool-cases (leb max_messages_per_conversation (length l))) [
  | inl full ↦ rw full (omega (arith, length-append (drop 1 l) (m ∷ []), length-drop 1 l))
  | inr room ↦ rw room (ground (arith, length-append l (m ∷ [])))
]

push-All : (m : Message) (l : List Message) → IsShort m → All IsShort l → All IsShort (push m l)
unfolding push
push-All m l h k = elim (Bool-cases (leb max_messages_per_conversation (length l))) [
  | inl full ↦ rw full (All-append IsShort (drop 1 l) (m ∷ []) (All-drop IsShort 1 l k) (h, tt))
  | inr room ↦ rw room (All-append IsShort l (m ∷ []) k (h, tt))
]

len-retitled :
    (title role content : String)
    → len title ≤ max_title_len
    → len (retitled title role content) ≤ max_title_len
unfolding retitled
len-retitled title role content h =
    let kept = slice_to max_title_len content in
    ground (arith, len-strip kept, slice_to_le max_title_len content)

appended-IsBounded :
    (m : Message) (content : String) (e : Entry)
    → IsShort m
    → IsBounded e
    → IsBounded (appended m content e)
unfolding appended
appended-IsBounded m content (c, messages) h b = record {
  messages = length-push m messages b.messages;
  title = len-retitled c.title m.role content b.title;
  contents = push-All m messages h b.contents;
}

-- Every stored conversation is within the bounds.
abbrev pub AllBounded : Store → Type 0
AllBounded s = (id : String) (e : Entry) → Dict.lookup id s ≡ some e → IsBounded e

insert-AllBounded :
    (i : String) (e : Entry) (s : Store)
    → IsBounded e
    → AllBounded s
    → AllBounded (Dict.insert i e s)
insert-AllBounded i e s b all id e' h = elim (Bool-cases (id == i)) [
  | inl same ↦
      let new : e ≡ e' = ground (arith, Dict.lookup-insert id i e s) in subst IsBounded new b
  | inr other ↦ all id e' (ground (arith, Dict.lookup-insert id i e s))
]

erase-AllBounded : (i : String) (s : Store) → AllBounded s → AllBounded (Dict.erase i s)
erase-AllBounded i s all id e h = all id e (ground (arith, Dict.lookup-erase id i s))

lookup-owned :
    (id : String) (key : Owner) (s : Store) (e : Entry)
    → owned id key s ≡ some e
    → Dict.lookup id s ≡ some e
unfolding owned
lookup-owned id key s e h = elim (Option-cases (Dict.lookup id s)) [
  | inl none_there ↦ absurd (ground arith)
  | inr ((c, messages), k) ↦ ground arith
]

write-AllBounded : (w : Write) (s : Store) → AllBounded s → AllBounded (write w s)
unfolding write create delete append
write-AllBounded (creating key id title now) s all =
    insert-AllBounded id _ s
      (record { messages = omega arith; title = slice_to_le max_title_len title; contents = tt })
      all
write-AllBounded (deleting key i) s all = elim (Option-cases (owned i key s)) [
  | inl missing ↦ rw (missing, write) all
  | inr (e, h) ↦ rw (h, write) (erase-AllBounded i s all)
]
write-AllBounded (appending key i role content message_id now) s all =
    elim (Option-cases (owned i key s)) [
      | inl missing ↦ rw (missing, write) all
      | inr (e, h) ↦
          rw (h, write)
            (insert-AllBounded i (appended _ content e) s
              (appended-IsBounded _ content e (slice_to_le max_content_len content)
                (all i e (lookup-owned i key s e h)))
              all)
    ]

module _ ⦃py : Python⦄ (verifier : Option TokenVerifier) where
  after-AllBounded : (w : Result Write) (s : Store) → AllBounded s → AllBounded (after verifier w s)
  after-AllBounded (fail r) s all = all
  after-AllBounded (pass w) s all = write-AllBounded w s all

  serve_all-Bounded :
      (rs : List Request) (s : Store) → AllBounded s → AllBounded (serve_all verifier rs s)
  unfolding serve_all
  serve_all-Bounded [] s all = all
  serve_all-Bounded (r ∷ rs) s all = serve_all-Bounded rs (serve verifier r s).0 (
      subst AllBounded (sym (serve-after verifier r s))
        (after-AllBounded (write_of verifier r) s all))

  -- From the empty store, after any requests of any callers, each conversation has at most 2,000
  -- messages of at most 100,000 characters each, and a title of at most 200 characters.
  pub serve_all-AllBounded : (rs : List Request) → AllBounded (serve_all verifier rs [])
  serve_all-AllBounded rs = serve_all-Bounded rs [] (λ id e h. unfold Dict.lookup in absurd cc)
