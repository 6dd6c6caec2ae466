-- ===== src/Notifications/Bounds.antt =====
-- The ring buffer: a bucket holds the newest 200 events that were published to its owner.
use private_ai_workspace_eks.Prelude.{
  ℕ, ◌-◌, ◌≤◌, String, ◌≡◌, refl, ap, ◌∙◌, List, [], ◌∷◌, ◌++◌, arith, Bool-cases, inl, inr, sym,
  select-cons_true, select-cons_false, last_n-append, ◌==◌, pair_eq, string_eq, select, last_n,
  drop, length, length-drop, if◌then◌else◌, ltb,
}
use mathlib.Core.List.{append-nil, append_assoc}
use private_ai_workspace_eks.Prelude.Dict
use private_ai_workspace_eks.Notifications.{
  NotificationEvent, Owner, owner, max_notifications_per_user,
}
use private_ai_workspace_eks.Notifications.Store.{Store, empty, bucket, push, publish, mark_first}
use private_ai_workspace_eks.Notifications.Histories.{
  Write, publishing, marking, write, run, on_bucket, kept, bucket-write,
}

length-push :
    (e : NotificationEvent) (l : List NotificationEvent)
    → length (push e l) ≤ max_notifications_per_user
unfolding push
length-push e l = ground (arith, length-drop (length (l ++ (e ∷ [])) - 200) (l ++ (e ∷ [])))

length-mark_first :
    (id : String) (now : ℕ) (l : List NotificationEvent)
    → length (kept l (mark_first id now l)) ≡ length l
unfolding mark_first
length-mark_first id now [] = refl
length-mark_first id now (e ∷ l) = ground (arith, length-mark_first id now l)

length-on_bucket :
    (w : Write) (l : List NotificationEvent)
    → length l ≤ max_notifications_per_user
    → length (on_bucket w l) ≤ max_notifications_per_user
unfolding on_bucket
length-on_bucket (publishing e) l h = length-push e l
length-on_bucket (marking key id now) l h = omega (arith, length-mark_first id now l)

IsBounded : Store → Type 0
IsBounded s = (key : Owner) → length (bucket key s) ≤ max_notifications_per_user

run-IsBounded : (ws : List Write) (s : Store) → IsBounded s → IsBounded (run ws s)
unfolding run IsBounded
run-IsBounded [] s h = h
run-IsBounded (w ∷ ws) s h =
    run-IsBounded ws (write w s)
      λ key. rw (bucket-write key w s) (ground (arith, h key, length-on_bucket w (bucket key s)))

-- After any writes to an empty store, no owner has more than 200 events.
length-bucket-run :
    (ws : List Write) (key : Owner)
    → length (bucket key (run ws empty)) ≤ max_notifications_per_user
unfolding IsBounded bucket
length-bucket-run ws key = run-IsBounded ws empty (λ k. unfold Dict.lookup in omega arith) key

-- The events of one owner, in the order of publication.
pub published : Owner → List NotificationEvent → List NotificationEvent
published key = select (λ e. key == owner e)

pub publish_all : List NotificationEvent → Store → Store
publish_all [] s = s
publish_all (e ∷ es) s = publish_all es (publish e s)

push-eq-last_n :
    (e : NotificationEvent) (l : List NotificationEvent)
    → push e l ≡ last_n max_notifications_per_user (l ++ (e ∷ []))
unfolding push
push-eq-last_n e l = elim (Bool-cases (ltb 200 (length (l ++ (e ∷ []))))) [
  | inl more ↦ rw more
  | inr fits ↦
      rw fits
        (ap (λ m. drop m (l ++ (e ∷ []))) {x = 0} {y = length (l ++ (e ∷ [])) - 200} (ground arith))
]

last_n_of_length-le : (n : ℕ) (l : List NotificationEvent) → length l ≤ n → last_n n l ≡ l
last_n_of_length-le n l h = ap (λ m. drop m l) {x = length l - n} {y = 0} (omega arith)

pub bucket-publish :
    (key : Owner) (e : NotificationEvent) (s : Store)
    → bucket key (publish e s) ≡ (if key == owner e then push e (bucket key s) else bucket key s)
bucket-publish key e s = unfold write on_bucket in bucket-write key (publishing e) s

length-bucket-publish :
    (key : Owner) (e : NotificationEvent) (s : Store)
    → length (bucket key s) ≤ max_notifications_per_user
    → length (bucket key (publish e s)) ≤ max_notifications_per_user
length-bucket-publish key e s h =
    rw (bucket-publish key e s) (ground (arith, length-push e (bucket key s)))

bucket-publish_all_from :
    (es : List NotificationEvent) (key : Owner) (s : Store)
    → length (bucket key s) ≤ max_notifications_per_user
    → bucket key (publish_all es s)
      ≡ last_n max_notifications_per_user (bucket key s ++ published key es)
unfolding publish_all published select
bucket-publish_all_from [] key s h =
    rw append-nil (sym (last_n_of_length-le max_notifications_per_user (bucket key s) h))
bucket-publish_all_from (e ∷ es) key s h =
    bucket-publish_all_from es key (publish e s) (length-bucket-publish key e s h)
    ∙ elim (Bool-cases (key == owner e)) [
      | inl own ↦ rw (
        select-cons_true (λ v. key == owner v) e es own,
        bucket-publish key e s,
        own,
        push-eq-last_n e (bucket key s),
        last_n-append max_notifications_per_user (bucket key s ++ (e ∷ [])),
        append_assoc,
      )
      | inr other ↦
          rw (select-cons_false (λ v. key == owner v) e es other, bucket-publish key e s, other)
    ]

-- Publishing events to an empty store leaves each owner with the newest 200 of its own, in order.
pub bucket-publish_all :
    (es : List NotificationEvent) (key : Owner)
    → bucket key (publish_all es empty) ≡ last_n max_notifications_per_user (published key es)
unfolding bucket Dict.lookup
bucket-publish_all es key = bucket-publish_all_from es key empty (omega arith)
