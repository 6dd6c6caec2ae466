-- ===== src/Notifications/Store.antt =====
-- `InMemoryNotificationStore`. Each method holds the lock from end to end, so it is one step.
use private_ai_workspace_eks.Prelude.{
  ℕ, zero, suc, String, Bool, Option, none, some, List, [], ◌∷◌, ◌++◌, ◌==◌, ◌&&◌, ltb, reverse,
  select, last_n, length, pair_eq, string_eq, if◌then◌else◌,
}
use private_ai_workspace_eks.Prelude.Dict
use private_ai_workspace_eks.Prelude.Dict.{Dict}
use private_ai_workspace_eks.Notifications.{
  NotificationEvent, Owner, owner, is_unread, max_notifications_per_user,
}

-- The events of each owner, oldest first.
pub record Store : Type 0 where
  pub events : Dict Owner (List NotificationEvent)

abbrev pub empty : Store
empty = record { events = [] }

abbrev or_nil : Option (List NotificationEvent) → List NotificationEvent
or_nil none = []
or_nil (some l) = l

-- `self._events.get(key, [])`
unfoldable pub bucket : Owner → Store → List NotificationEvent
bucket key s = or_nil (Dict.lookup key s.events)

-- `events[-limit:]`, which is the whole list for 0
unfoldable pub newest : ℕ → List NotificationEvent → List NotificationEvent
newest zero l = l
newest (suc n) l = last_n (suc n) l

unfoldable pub list_for_user : Owner → ℕ → Bool → Store → List NotificationEvent
list_for_user key limit include_read s =
    let events = bucket key s in
    reverse (newest limit (if include_read then events else select is_unread events))

-- the ring buffer: what `publish` leaves in the bucket
unfoldable pub push : NotificationEvent → List NotificationEvent → List NotificationEvent
push e l =
    let grown = l ++ (e ∷ []) in
    if ltb max_notifications_per_user (length grown)
    then last_n max_notifications_per_user grown
    else grown

unfoldable pub publish : NotificationEvent → Store → Store
unfolding bucket
publish e s = record { events = Dict.insert (owner e) (push e (bucket (owner e) s)) s.events }

-- The loop of `mark_read`: the first unread event with the id, and the list with it updated.
unfoldable pub mark_first :
    String → ℕ → List NotificationEvent → Option (NotificationEvent × List NotificationEvent)
mark_first id now [] = none
mark_first id now (e ∷ l) =
    let updated = record e { read_at = some now } in
    let rest = mark_first id now l in
    if e.id == id && is_unread e
    then some (updated, updated ∷ l)
    else elim rest [ none ↦ none | some (u, l') ↦ some (u, e ∷ l') ]

abbrev pub store_marked :
    Owner
    → Option (NotificationEvent × List NotificationEvent)
    → Store
    → Store × Option NotificationEvent
store_marked key none s = (s, none)
store_marked key (some (u, l)) s = (record { events = Dict.insert key l s.events }, some u)

unfoldable pub mark_read : Owner → String → ℕ → Store → Store × Option NotificationEvent
unfolding bucket
mark_read key id now s = store_marked key (mark_first id now (bucket key s)) s
