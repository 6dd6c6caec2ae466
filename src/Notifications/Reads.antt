-- ===== src/Notifications/Reads.antt =====
-- What the list shows after a publication and after a read.
use mathlib.Core.List.{reverse-append}
use mathlib.Core.Path.{subst}
use private_ai_workspace_eks.Prelude.{
  ℕ, zero, suc, ◌+◌, ◌-◌, ◌<◌, String, ◌≡◌, refl, ap, sym, Bool, true, false, Option, none, some,
  List, [], ◌∷◌, ◌++◌, arith, ◌==◌, ◌&&◌, pair_eq, string_eq, nat_eq, select, drop, length,
  length-append, drop-append, if◌then◌else◌, Bool-cases, inl, inr, ltb, reverse,
}
use private_ai_workspace_eks.Notifications.{NotificationEvent, Owner, owner, is_unread}
use private_ai_workspace_eks.Notifications.Store.{
  Store, bucket, push, publish, newest, list_for_user, mark_first, mark_read, store_marked,
}
use private_ai_workspace_eks.Notifications.Histories.{bucket-store_marked_self}
use private_ai_workspace_eks.Notifications.Bounds.{bucket-publish}

-- The list ends in the event.
abbrev EndsIn : NotificationEvent → List NotificationEvent → Type 0
EndsIn e l = (front : List NotificationEvent) × (l ≡ front ++ (e ∷ []))

drop-EndsIn :
    (k : ℕ) (e : NotificationEvent) (l : List NotificationEvent)
    → EndsIn e l
    → k < length l
    → EndsIn e (drop k l)
drop-EndsIn k e l (front, p) h = (
  drop k front,
  rw p (drop-append k front (e ∷ []) (omega (arith, ap length p, length-append front (e ∷ [])))),
)

push-EndsIn : (e : NotificationEvent) (l : List NotificationEvent) → EndsIn e (push e l)
unfolding push
push-EndsIn e l = elim (Bool-cases (ltb 200 (length (l ++ (e ∷ []))))) [
  | inl more ↦ rw more (
      drop-EndsIn (length (l ++ (e ∷ [])) - 200) e (l ++ (e ∷ [])) (l, refl)
        (omega (arith, length-append l (e ∷ []))))
  | inr fits ↦ rw fits (l, refl)
]

select-append_self :
    (e : NotificationEvent) (l : List NotificationEvent)
    → is_unread e ≡ true
    → select is_unread (l ++ (e ∷ [])) ≡ select is_unread l ++ (e ∷ [])
unfolding select
select-append_self e [] h = ground arith
select-append_self e (x ∷ l) h = ground (arith, select-append_self e l h)

select-EndsIn :
    (e : NotificationEvent) (l : List NotificationEvent)
    → is_unread e ≡ true
    → EndsIn e l
    → EndsIn e (select is_unread l)
select-EndsIn e l h (front, p) = (select is_unread front, rw p (select-append_self e front h))

newest-EndsIn :
    (limit : ℕ) (e : NotificationEvent) (l : List NotificationEvent)
    → EndsIn e l
    → EndsIn e (newest limit l)
unfolding newest
newest-EndsIn zero e l h = h
newest-EndsIn (suc n) e l h =
    drop-EndsIn (length l - suc n) e l h (omega (arith, ap length h.1, length-append h.0 (e ∷ [])))

bucket-publish_self :
    (e : NotificationEvent) (s : Store)
    → bucket (owner e) (publish e s) ≡ push e (bucket (owner e) s)
bucket-publish_self e s = ground (arith, bucket-publish (owner e) e s)

shown-EndsIn :
    (e : NotificationEvent) (limit : ℕ) (include_read : Bool) (l : List NotificationEvent)
    → is_unread e ≡ true
    → EndsIn e (newest limit (if include_read then push e l else select is_unread (push e l)))
shown-EndsIn e limit true l h = newest-EndsIn limit e (push e l) (push-EndsIn e l)
shown-EndsIn e limit false l h =
    newest-EndsIn limit e (select is_unread (push e l))
      (select-EndsIn e (push e l) h (push-EndsIn e l))

reverse-EndsIn :
    (e : NotificationEvent) (l : List NotificationEvent)
    → EndsIn e l
    → (rest : List NotificationEvent) × (reverse l ≡ e ∷ rest)
reverse-EndsIn e l (front, p) = (reverse front, rw p (reverse-append front (e ∷ [])))

-- An unread event that is published is the first that its owner is shown, with read events or
-- without and whatever the limit, also where the bucket was full.
pub list_for_user-publish :
    (e : NotificationEvent) (limit : ℕ) (include_read : Bool) (s : Store)
    → is_unread e ≡ true
    → (rest : List NotificationEvent) × (list_for_user (owner e) limit include_read (publish e s)
        ≡ e ∷ rest)
unfolding list_for_user
list_for_user-publish e limit include_read s h =
    rw (bucket-publish_self e s)
      (reverse-EndsIn e _ (shown-EndsIn e limit include_read (bucket (owner e) s) h))

-- How many events are unread.
pub unread : List NotificationEvent → ℕ
unread l = length (select is_unread l)

-- No unread event has the id.
abbrev pub NoUnread : String → List NotificationEvent → Type 0
NoUnread id [] = Unit
NoUnread id (e ∷ l) = ((e.id == id && is_unread e) ≡ false) × NoUnread id l

-- The first unread event of the list that has the id is `u` when read, and the rest stays.
abbrev pub Updates :
    String → ℕ → List NotificationEvent → NotificationEvent → List NotificationEvent → Type 0
Updates id now l u l' =
    (front : List NotificationEvent) × (e : NotificationEvent) × (back : List NotificationEvent)
    × NoUnread id front
    × (l ≡ front ++ (e ∷ back))
    × (e.id ≡ id)
    × (is_unread e ≡ true)
    × (u ≡ record e { read_at = some now })
    × (l' ≡ front ++ (u ∷ back))

-- What a search for an unread event finds: nothing, if there is none, or the first, which it marks.
abbrev pub Marks :
    String
    → ℕ
    → List NotificationEvent
    → Option (NotificationEvent × List NotificationEvent)
    → Type 0
Marks id now l none = NoUnread id l
Marks id now l (some (u, l')) =
    Updates id now l u l' × (unread l' + 1 ≡ unread l) × (length l' ≡ length l)

abbrev marked : ℕ → NotificationEvent → NotificationEvent
marked now e = record e { read_at = some now }

Counts : ℕ → List NotificationEvent → Option (NotificationEvent × List NotificationEvent) → Type 0
Counts now l none = Unit
Counts now l (some (u, l')) = (unread l' + 1 ≡ unread l) × (length l' ≡ length l)

mark_first-Counts :
    (id : String) (now : ℕ) (l : List NotificationEvent) → Counts now l (mark_first id now l)
unfolding Counts mark_first unread select
mark_first-Counts id now [] = tt
mark_first-Counts id now (e ∷ l) = ground (arith, mark_first-Counts id now l)

mark_first_behind :
    (id : String) (now : ℕ) (e : NotificationEvent) (l : List NotificationEvent)
    (m : Option (NotificationEvent × List NotificationEvent))
    → ((e.id == id && is_unread e) ≡ false)
    → Marks id now l m
    → Counts now (e ∷ l) (elim m [ none ↦ none | some (u, l') ↦ some (u, e ∷ l') ])
    → Marks id now (e ∷ l) (elim m [ none ↦ none | some (u, l') ↦ some (u, e ∷ l') ])
unfolding Counts
mark_first_behind id now e l none other h c = (other, h)
mark_first_behind id now e l (some (u, l')) other
      ((front, x, back, before, found, same, fresh, read, after), fewer, kept) c =
    (
      (
        e ∷ front,
        x,
        back,
        (other, before),
        ap (λ r. e ∷ r) found,
        same,
        fresh,
        read,
        ap (λ r. e ∷ r) after,
      ),
      c.0,
      c.1,
    )

mark_first-Marks :
    (id : String) (now : ℕ) (l : List NotificationEvent) → Marks id now l (mark_first id now l)
unfolding Counts mark_first
mark_first-Marks id now [] = tt
mark_first-Marks id now (e ∷ l) =
    let counted = mark_first-Counts id now (e ∷ l) in
    elim (Bool-cases (e.id == id && is_unread e)) [
      | inl found ↦
          let one : mark_first id now (e ∷ l) ≡ some (marked now e, marked now e ∷ l) =
            rw (found, mark_first) refl in
          subst (Marks id now (e ∷ l)) (sym one) (
            ([], e, l, tt, refl, ground arith, ground arith, refl, refl),
            (subst (Counts now (e ∷ l)) one counted).0,
            (subst (Counts now (e ∷ l)) one counted).1,
          )
      | inr other ↦
          let next : mark_first id now (e ∷ l)
              ≡ elim (mark_first id now l) [ none ↦ none | some (u, l') ↦ some (u, e ∷ l') ] =
            rw (other, mark_first) refl in
          subst (Marks id now (e ∷ l)) (sym next) (
            mark_first_behind id now e l (mark_first id now l) other (mark_first-Marks id now l)
              (subst (Counts now (e ∷ l)) next counted))
    ]

-- What `mark_read` returns to an owner: nothing, with the store as it was, if no unread event of
-- its bucket has the id; else the first such event, read now, which is the only one of the bucket
-- that changes, and the owner has one unread event less.
abbrev pub Reports : Owner → String → ℕ → Store → Store × Option NotificationEvent → Type 0
Reports key id now s (s', none) = (s' ≡ s) × NoUnread id (bucket key s)
Reports key id now s (s', some u) =
    Updates id now (bucket key s) u (bucket key s')
    × (unread (bucket key s') + 1 ≡ unread (bucket key s))
    × (length (bucket key s') ≡ length (bucket key s))

store_marked-Reports :
    (key : Owner) (id : String) (now : ℕ) (s : Store)
    (m : Option (NotificationEvent × List NotificationEvent))
    → Marks id now (bucket key s) m
    → Reports key id now s (store_marked key m s)
store_marked-Reports key id now s none h = (refl, h)
store_marked-Reports key id now s (some (u, l)) h =
    let own : bucket key (store_marked key (some (u, l)) s).0 ≡ l =
      bucket-store_marked_self key u l s in
    rw own h

-- `mark_read` returns nothing, with the store as it was, where the owner has no unread event with
-- the id. Else the owner has one, and the first of them is returned, read now and otherwise as it
-- was; it takes its own place in the owner's events, which are else as before, and the owner has
-- one unread event less and as many events as before.
pub mark_read-Reports :
    (key : Owner) (id : String) (now : ℕ) (s : Store)
    → Reports key id now s (mark_read key id now s)
unfolding mark_read
mark_read-Reports key id now s =
    store_marked-Reports key id now s (mark_first id now (bucket key s))
      (mark_first-Marks id now (bucket key s))
