-- ===== src/RateLimiter/Permits.antt =====
-- The semaphore over a run of calls: permits are conserved.
use private_ai_workspace_eks.Prelude.{
  ℕ, zero, suc, ◌+◌, ◌≤◌, max, String, ◌≡◌, Bool, true, List, [], ◌∷◌, arith, if◌then◌else◌,
}
use private_ai_workspace_eks.RateLimiter.{RateLimiter, init, try_acquire, release}

-- What the handlers of any tenants do with the limiter, in the order of the lock.
pub data Call : Type 0 where
  acquire : String → ℕ → Call
  finish : Call

pub record IsValid (l : RateLimiter) : Type 0 where
  pub some_bound : 1 ≤ l.bound
  pub within : l.permits ≤ l.bound

pub init-IsValid : (per_minute max_concurrency : ℕ) → IsValid (init per_minute max_concurrency)
unfolding init
init-IsValid p m = omega arith

-- One call takes one permit exactly if it succeeds, and leaves the bounds alone.
pub record Takes (l l' : RateLimiter) (granted : Bool) : Type 0 where
  pub same_bound : l'.bound ≡ l.bound
  pub same_rate : l'.per_minute ≡ l.per_minute
  pub taken : l'.permits + (if granted then 1 else 0) ≡ l.permits

pub try_acquire-Takes :
    (tenant : String) (now : ℕ) (l : RateLimiter)
    → Takes l (try_acquire tenant now l).0 (try_acquire tenant now l).1
unfolding try_acquire
try_acquire-Takes tenant now l = ground arith

-- A request that gets in and finishes leaves the semaphore as it was.
pub permits-release-try_acquire :
    (tenant : String) (now : ℕ) (l : RateLimiter)
    → IsValid l
    → (try_acquire tenant now l).1 ≡ true
    → (release (try_acquire tenant now l).0).permits ≡ l.permits
unfolding release
permits-release-try_acquire tenant now l v h = ground (arith, try_acquire-Takes tenant now l)

-- The limiter with the number of requests that are let in and have not finished. The handlers
-- release in a `finally` block, so a request that is not in flight finishes nothing.
abbrev pub Load : Type 0
Load = RateLimiter × ℕ

pub serve : Load → List Call → Load
serve (l, flying) [] = (l, flying)
serve (l, flying) (acquire tenant now ∷ calls) =
    let (l', granted) = try_acquire tenant now l in
    serve (l', (if granted then suc flying else flying)) calls
serve (l, zero) (finish ∷ calls) = serve (l, zero) calls
serve (l, suc flying) (finish ∷ calls) = serve (release l, flying) calls

abbrev Conserves : ℕ → Load → Type 0
Conserves bound (l, flying) = (l.permits + flying ≡ bound) × (l.bound ≡ bound)

serve-Conserves :
    (bound : ℕ) (l : RateLimiter) (flying : ℕ) (calls : List Call)
    → Conserves bound (l, flying)
    → Conserves bound (serve (l, flying) calls)
unfolding serve release
serve-Conserves bound l flying [] h = h
serve-Conserves bound l flying (acquire tenant now ∷ calls) h =
    serve-Conserves bound (try_acquire tenant now l).0
      (if (try_acquire tenant now l).1 then suc flying else flying) calls
      (ground (arith, try_acquire-Takes tenant now l))
serve-Conserves bound l zero (finish ∷ calls) h = serve-Conserves bound l zero calls h
serve-Conserves bound l (suc flying) (finish ∷ calls) h =
    serve-Conserves bound (release l) flying calls (ground arith)

-- From a new limiter, after any calls, the free permits and the requests in flight make up the
-- bound, so never more than `max(1, max_concurrency)` requests are in flight.
pub serve_in_flight :
    (per_minute max_concurrency : ℕ) (calls : List Call)
    → let (l, flying) = serve (init per_minute max_concurrency, 0) calls in
      (l.permits + flying ≡ max 1 max_concurrency) × (flying ≤ max 1 max_concurrency)
unfolding init
serve_in_flight p m calls =
    omega (arith, serve-Conserves (max 1 m) (init p m) 0 calls (omega arith))
