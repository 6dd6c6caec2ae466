-- ===== src/RateLimiter.antt =====
-- `RateLimiter` of app/control_plane/agent_tools.py: a fixed window of requests for each tenant,
-- and a bounded semaphore for all. A call is atomic under the lock.
pub mod Windows
pub mod Permits
use private_ai_workspace_eks.Prelude.{
  ℕ, ◌+◌, ◌/◌, ◌-◌, String, Bool, true, false, Option, none, some, List, [], max, ltb, leb, ◌==◌,
  nat_eq, string_eq, if◌then◌else◌,
}
use private_ai_workspace_eks.Prelude.Dict
use private_ai_workspace_eks.Prelude.Dict.{Dict}

pub record RateLimiter : Type 0 where
  pub per_minute : ℕ
  pub windows : Dict String (ℕ × ℕ)
  pub permits : ℕ
  pub bound : ℕ

-- `__init__`
unfoldable pub init : ℕ → ℕ → RateLimiter
init per_minute max_concurrency = record {
  per_minute = per_minute;
  windows = [];
  permits = max 1 max_concurrency;
  bound = max 1 max_concurrency;
}

-- `self._windows.get(tenant, (window, 0))` with the reset: the requests counted in `window`
unfoldable pub counted : Option (ℕ × ℕ) → ℕ → ℕ
counted none window = 0
counted (some (w, count)) window = if w == window then count else 0

-- `self._sema.acquire(blocking=False)`
unfoldable pub take_permit : RateLimiter → RateLimiter × Bool
take_permit l = if ltb 0 l.permits then (record l { permits = l.permits - 1 }, true) else (l, false)

unfoldable pub try_acquire : String → ℕ → RateLimiter → RateLimiter × Bool
unfolding counted take_permit
try_acquire tenant now l =
    let window = now / 60 in
    let count = counted (Dict.lookup tenant l.windows) window in
    if leb l.per_minute count
    then (l, false)
    else take_permit (record l { windows = Dict.insert tenant (window, count + 1) l.windows })

-- A release beyond the bound raises `ValueError`, which is dropped.
unfoldable pub release : RateLimiter → RateLimiter
release l = if ltb l.permits l.bound then record l { permits = l.permits + 1 } else l
