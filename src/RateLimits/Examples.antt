-- ===== src/RateLimits/Examples.antt =====
-- A limit of two calls.
use community_platform.Base.{
  some, ◌*◌, find?, true, false, ◌+◌, ◌≤◌, ℕ, ◌≡◌, refl, List, [], ◌∷◌, min, arith, ◌-◌,
}
use community_platform.RateLimits.{RateLimitPolicy, RateLimiter, is_bucket, unexpired, consume}
use community_platform.RateLimits.Retries.{consume-again}
use community_platform.RateLimits.Windows.{allowed_of, calls_of, consume-window}

abbrev policy : RateLimitPolicy
policy = record { limit = 2; window = 60 }

abbrev limiter : RateLimiter
limiter = record {
  max_buckets = 10;
  ticks_per_second = 1;
  buckets = record { id = 4; count = 1; expires_at = 100 } ∷ [];
}

abbrev calls : List (ℕ × ℕ)
calls = (50, 4) ∷ (55, 9) ∷ (60, 4) ∷ (70, 4) ∷ []

consume-window_example : allowed_of 4 policy calls limiter ≡ min (2 - 1) (calls_of 4 calls)
consume-window_example =
    consume-window 4 1 100 policy calls limiter
      (omega arith, (omega arith, (omega arith, (omega arith, tt))))
      (record { id = 4; count = 1; expires_at = 100 }, refl, refl, refl)

abbrev used_up : RateLimiter
used_up = record limiter { buckets = record { id = 4; count = 2; expires_at = 100 } ∷ [] }

refusal : (consume 70 4 policy used_up).0.allowed ≡ false
unfolding consume
refusal = refl

refusal_wait :
    70 + (consume 70 4 policy used_up).0.retry_after_seconds * used_up.ticks_per_second ≤ 100
unfolding consume
refusal_wait = omega arith

used_up_unexpired :
    find? (is_bucket 4) (unexpired 70 used_up.buckets)
    ≡ some (record { id = 4; count = 2; expires_at = 100 })
unfolding unexpired
used_up_unexpired = refl

consume-again_example : (consume 100 4 policy (consume 70 4 policy used_up).1).0.allowed ≡ true
consume-again_example =
    consume-again 70 100 4 (record { id = 4; count = 2; expires_at = 100 }) policy used_up
      (omega arith) (refl, tt) (omega arith) used_up_unexpired refusal refusal_wait
