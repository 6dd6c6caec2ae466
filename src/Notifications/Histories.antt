-- ===== src/Notifications/Histories.antt =====
-- Runs of the store's writes. A write touches the bucket of one owner only.
use private_ai_workspace_eks.Prelude.{
  ℕ, String, ◌≡◌, refl, Bool, Option, none, some, List, [], ◌∷◌, arith, ◌==◌, pair_eq, string_eq,
  select, if◌then◌else◌, Bool-cases, inl, inr, select-cons_true, select-cons_false,
}
use private_ai_workspace_eks.Prelude.Dict
use private_ai_workspace_eks.Notifications.{NotificationEvent, Owner, owner}
use private_ai_workspace_eks.Notifications.Store.{
  Store, bucket, push, publish, mark_first, mark_read, store_marked, list_for_user,
}

pub data Write : Type 0 where
  publishing : NotificationEvent → Write
  marking : Owner → String → ℕ → Write

abbrev pub writer : Write → Owner
writer (publishing e) = owner e
writer (marking key id now) = key

unfoldable pub write : Write → Store → Store
write (publishing e) s = publish e s
write (marking key id now) s = (mark_read key id now s).0

unfoldable pub run : List Write → Store → Store
run [] s = s
run (w ∷ ws) s = run ws (write w s)

abbrev pub kept :
    List NotificationEvent
    → Option (NotificationEvent × List NotificationEvent)
    → List NotificationEvent
kept l none = l
kept l (some (u, l')) = l'

-- What a write makes of the bucket of its owner.
unfoldable pub on_bucket : Write → List NotificationEvent → List NotificationEvent
on_bucket (publishing e) l = push e l
on_bucket (marking key id now) l = kept l (mark_first id now l)

bucket-store_marked :
    (key by : Owner) (m : Option (NotificationEvent × List NotificationEvent)) (s : Store)
    → bucket key (store_marked by m s).0
      ≡ (if key == by then kept (bucket key s) m else bucket key s)
unfolding bucket
bucket-store_marked key by none s = ground arith
bucket-store_marked key by (some (u, l)) s = ground (arith, Dict.lookup-insert key by l s.events)

pub bucket-store_marked_self :
    (key : Owner) (u : NotificationEvent) (l : List NotificationEvent) (s : Store)
    → bucket key (store_marked key (some (u, l)) s).0 ≡ l
bucket-store_marked_self key u l s = ground (arith, bucket-store_marked key key (some (u, l)) s)

pub bucket-write :
    (key : Owner) (w : Write) (s : Store)
    → bucket key (write w s)
      ≡ (if key == writer w then on_bucket w (bucket key s) else bucket key s)
unfolding write on_bucket publish mark_read
bucket-write key (publishing e) s =
    ground (arith, Dict.lookup-insert key (owner e) (push e (bucket (owner e) s)) s.events)
bucket-write key (marking by id now) s =
    rw (bucket-store_marked key by (mark_first id now (bucket by s)) s)
      (elim ((pair_eq {A = String} {B = String}).dec key by) [
        | yes p ↦ rw p (ground arith)
        | no p ↦ ground arith
      ])

-- The writes of one owner.
abbrev pub writes_of : Owner → List Write → List Write
writes_of key = select (λ w. key == writer w)

bucket-run_agree :
    (key : Owner) (ws : List Write) (s t : Store)
    → bucket key s ≡ bucket key t
    → bucket key (run ws s) ≡ bucket key (run (writes_of key ws) t)
unfolding run select
bucket-run_agree key [] s t h = h
bucket-run_agree key (w ∷ ws) s t h = elim (Bool-cases (key == writer w)) [
  | inl own ↦ rw (select-cons_true (λ v. key == writer v) w ws own) (
      bucket-run_agree key ws (write w s) (write w t)
        (rw (bucket-write key w s, bucket-write key w t, own, h)))
  | inr other ↦
      rw (select-cons_false (λ v. key == writer v) w ws other)
        (bucket-run_agree key ws (write w s) t (rw (bucket-write key w s, other) h))
]

-- The bucket of an owner after any writes depends only on its own writes.
pub bucket-run :
    (key : Owner) (ws : List Write) (s : Store)
    → bucket key (run ws s) ≡ bucket key (run (writes_of key ws) s)
bucket-run key ws s = bucket-run_agree key ws s s refl

-- A state is seen by an owner only through its bucket.
pub list_for_user-run :
    (key : Owner) (limit : ℕ) (include_read : Bool) (ws : List Write) (s : Store)
    → list_for_user key limit include_read (run ws s)
      ≡ list_for_user key limit include_read (run (writes_of key ws) s)
unfolding list_for_user
list_for_user-run key limit include_read ws s = rw (bucket-run key ws s)
