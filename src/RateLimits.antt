-- ===== src/RateLimits.antt =====
-- `InMemoryRateLimiter`: apps/api/src/talaqi/security/rate_limit.py. Times are in ticks of the clock,
-- so many to a second; the code's floats are read as exact. A bucket's digest is a number, so that
-- the test on its text is not modelled.
pub mod Windows
pub mod Retries
mod Examples
use community_platform.Base.{
  ℕ, suc, ◌+◌, ◌-◌, ◌/◌, max, Bool, true, false, ◌&&◌, none, some, List, [], ◌∷◌, ◌++◌, find?,
  replace_first, length, leb, ltb, ◌==◌, if◌then◌else◌,
}

pub record RateLimitPolicy : Type 0 where
  pub limit : ℕ
  pub window : ℕ

-- whether `__post_init__` lets a policy pass
unfoldable pub is_policy : RateLimitPolicy → Bool
is_policy p = leb 1 p.limit && ltb 0 p.window

pub record RateLimitDecision : Type 0 where
  pub allowed : Bool
  pub remaining : ℕ
  pub retry_after_seconds : ℕ

-- whether `__post_init__` lets a decision pass
unfoldable pub is_decision : RateLimitDecision → Bool
is_decision d = if d.allowed then d.retry_after_seconds == 0 else true

pub record Bucket : Type 0 where
  pub id : ℕ
  pub count : ℕ
  pub expires_at : ℕ

pub record RateLimiter : Type 0 where
  pub max_buckets : ℕ
  pub ticks_per_second : ℕ
  pub buckets : List Bucket

abbrev pub is_bucket : ℕ → Bucket → Bool
is_bucket id b = b.id == id

-- the buckets that have not expired
unfoldable pub unexpired : ℕ → List Bucket → List Bucket
unexpired now [] = []
unexpired now (b ∷ bs) =
    let rest = unexpired now bs in if leb b.expires_at now then rest else b ∷ rest

-- math.ceil of a number of ticks, in seconds
unfoldable pub ceil_seconds : ℕ → ℕ → ℕ
ceil_seconds ticks_per_second t = (t + (ticks_per_second - 1)) / ticks_per_second

-- a bucket that is not there yet
unfoldable pub open_bucket : ℕ → ℕ → RateLimitPolicy → RateLimiter → RateLimitDecision × RateLimiter
unfolding ceil_seconds
open_bucket now id policy l =
    if leb l.max_buckets (length l.buckets)
    then (
      record {
        allowed = false;
        remaining = 0;
        retry_after_seconds = max 1 (ceil_seconds l.ticks_per_second policy.window);
      },
      l,
    )
    else (
      record { allowed = true; remaining = policy.limit - 1; retry_after_seconds = 0 },
      record l {
        buckets = l.buckets ++ record { id = id; count = 1; expires_at = now + policy.window } ∷ [];
      },
    )

-- a bucket that is there
unfoldable pub draw_from :
    ℕ → Bucket → RateLimitPolicy → RateLimiter → RateLimitDecision × RateLimiter
unfolding ceil_seconds
draw_from now b policy l =
    if leb policy.limit b.count
    then (
      record {
        allowed = false;
        remaining = 0;
        retry_after_seconds = ceil_seconds l.ticks_per_second (b.expires_at - now);
      },
      l,
    )
    else (
      record { allowed = true; remaining = policy.limit - suc b.count; retry_after_seconds = 0 },
      record l {
        buckets = replace_first (is_bucket b.id) (record b { count = suc b.count }) l.buckets;
      },
    )

unfoldable pub draw : ℕ → ℕ → RateLimitPolicy → RateLimiter → RateLimitDecision × RateLimiter
unfolding open_bucket draw_from
draw now id policy l = elim (find? (is_bucket id) l.buckets) [
  | none ↦ open_bucket now id policy l
  | some b ↦ draw_from now b policy l
]

-- `InMemoryRateLimiter.consume` at the time that the clock reads
unfoldable pub consume : ℕ → ℕ → RateLimitPolicy → RateLimiter → RateLimitDecision × RateLimiter
unfolding unexpired draw
consume now id policy l = draw now id policy (record l { buckets = unexpired now l.buckets })
