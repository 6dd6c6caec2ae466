-- ===== src/RateLimiter/Windows.antt =====
-- No tenant is granted more than `per_minute` requests in one minute.
use private_ai_workspace_eks.Prelude.{
  ℕ, ◌+◌, ◌/◌, ◌≤◌, String, ◌≡◌, ap, true, Option, none, some, List, [], ◌∷◌, arith, ltb, leb, ◌==◌,
  nat_eq, string_eq, if◌then◌else◌, ◌&&◌,
}
use private_ai_workspace_eks.Prelude.Dict
use private_ai_workspace_eks.Prelude.Dict.{Dict}
use private_ai_workspace_eks.RateLimiter.{RateLimiter, init, counted, try_acquire, release}
use private_ai_workspace_eks.RateLimiter.Permits.{Call, acquire, finish}

-- The clock, read in whole seconds, does not go back.
abbrev pub Ascending : ℕ → List Call → Type 0
Ascending from [] = Unit
Ascending from (acquire tenant now ∷ calls) = (from ≤ now) × Ascending now calls
Ascending from (finish ∷ calls) = Ascending from calls

pub after : Call → RateLimiter → RateLimiter
after (acquire tenant now) l = (try_acquire tenant now l).0
after finish l = release l

module _ (tenant : String) (minute : ℕ) where
  -- 1 if the call is granted to the tenant in the minute
  pub granted : Call → RateLimiter → ℕ
  granted (acquire t now) l =
      if t == tenant && now / 60 == minute && (try_acquire t now l).1 then 1 else 0
  granted finish l = 0

  -- How many of the calls are granted to the tenant in the minute.
  pub grants : RateLimiter → List Call → ℕ
  grants l [] = 0
  grants l (c ∷ calls) = granted c l + grants (after c l) calls

  -- What the recorded window takes from the budget of the minute.
  spent : ℕ → Option (ℕ × ℕ) → ℕ
  spent rate none = 0
  spent rate (some (w, count)) = if w == minute then count else if ltb minute w then rate else 0

  abbrev Recorded : ℕ → Option (ℕ × ℕ) → Type 0
  Recorded from none = Unit
  Recorded from (some (w, count)) = w ≤ from / 60

  -- No window is recorded ahead of the clock, and none has counted past the rate.
  record IsBounded (from : ℕ) (l : RateLimiter) : Type 0 where
    not_ahead : Recorded from (Dict.lookup tenant l.windows)
    budget : spent l.per_minute (Dict.lookup tenant l.windows) ≤ l.per_minute

  -- The window of the tenant after a call.
  lookup-after :
      (t : String) (now : ℕ) (l : RateLimiter)
      → let count = counted (Dict.lookup t l.windows) (now / 60) in
        Dict.lookup tenant (after (acquire t now) l).windows ≡ (
          if leb l.per_minute count
          then Dict.lookup tenant l.windows
          else if tenant == t
          then some (now / 60, count + 1)
          else Dict.lookup tenant l.windows)
  unfolding after try_acquire
  lookup-after t now l = ground (
    arith,
    Dict.lookup-insert tenant t (now / 60, counted (Dict.lookup t l.windows) (now / 60) + 1)
        l.windows,
  )

  record Steps (from n : ℕ) (l l' : RateLimiter) : Type 0 where
    rate_kept : l'.per_minute ≡ l.per_minute
    keeps : IsBounded from l'
    pays :
        n + spent l.per_minute (Dict.lookup tenant l.windows)
        ≤ spent l.per_minute (Dict.lookup tenant l'.windows)

  rate-after : (c : Call) (l : RateLimiter) → (after c l).per_minute ≡ l.per_minute
  unfolding after try_acquire release
  rate-after (acquire t now) l = ground arith
  rate-after finish l = ground arith

  spent_rate :
      (c : Call) (l : RateLimiter)
      → spent (after c l).per_minute (Dict.lookup tenant (after c l).windows)
        ≡ spent l.per_minute (Dict.lookup tenant (after c l).windows)
  spent_rate c l = ap (λ r. spent r (Dict.lookup tenant (after c l).windows)) (rate-after c l)

  granted-le :
      (t : String) (now : ℕ) (l : RateLimiter)
      → leb l.per_minute (counted (Dict.lookup t l.windows) (now / 60)) ≡ true
      → granted (acquire t now) l ≡ 0
  unfolding granted try_acquire
  granted-le t now l h = ground arith

  acquire-Steps :
      (t : String) (from now : ℕ) (l : RateLimiter)
      → from ≤ now
      → IsBounded from l
      → Steps now (granted (acquire t now) l) l (after (acquire t now) l)
  unfolding spent counted granted
  acquire-Steps t from now l le b = record {
    rate_kept = rate-after (acquire t now) l;
    keeps = record {
      not_ahead = rw (lookup-after t now l) (ground arith);
      budget = rw (lookup-after t now l, rate-after (acquire t now) l) (ground arith);
    };
    pays = rw (lookup-after t now l) (ground (arith, granted-le t now l));
  }

  IsBounded-le : (from now : ℕ) (l : RateLimiter) → from ≤ now → IsBounded from l → IsBounded now l
  IsBounded-le from now l le b = record { not_ahead = ground arith; budget = b.budget }

  finish-IsBounded :
      (from : ℕ) (l : RateLimiter) → IsBounded from l → IsBounded from (after finish l)
  unfolding after release
  finish-IsBounded from l b = record { not_ahead = ground arith; budget = ground arith }

  finish-windows : (l : RateLimiter) → (after finish l).windows ≡ l.windows
  unfolding after release
  finish-windows l = ground arith

  grants-spent :
      (from : ℕ) (l : RateLimiter) (calls : List Call)
      → Ascending from calls
      → IsBounded from l
      → grants l calls + spent l.per_minute (Dict.lookup tenant l.windows) ≤ l.per_minute
  unfolding grants granted
  grants-spent from l [] a b = omega (arith, b.budget)
  grants-spent from l (acquire t now ∷ calls) a b =
      let s = acquire-Steps t from now l a.0 b in
      let ih = grants-spent now (after (acquire t now) l) calls a.1 s.keeps in
      omega (arith, s.pays, s.rate_kept, spent_rate (acquire t now) l, ih)
  grants-spent from l (finish ∷ calls) a b =
      let ih = grants-spent from (after finish l) calls a (finish-IsBounded from l b) in
      omega (
        arith,
        rate-after finish l,
        spent_rate finish l,
        ap (λ (d : Dict String (ℕ × ℕ)). spent l.per_minute (Dict.lookup tenant d))
            (finish-windows l),
        ih,
      )

-- From a new limiter, whatever the calls of whatever tenants, as long as the clock does not go
-- back, a tenant is granted at most `per_minute` requests in any one minute.
pub grants-le-per_minute :
    (per_minute max_concurrency from : ℕ) (calls : List Call) (tenant : String) (minute : ℕ)
    → Ascending from calls
    → grants tenant minute (init per_minute max_concurrency) calls ≤ per_minute
unfolding init
grants-le-per_minute p m from calls tenant minute a =
    let ih =
      grants-spent tenant minute from (init p m) calls a
        (unfold Dict.lookup spent in record { not_ahead = tt; budget = omega arith }) in
    omega (arith, ih)
