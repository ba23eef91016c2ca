-- ===== src/RateLimits/Retries.antt =====
-- The time after which a refused call may be made again.
use community_platform.Base.{
  ℕ, ◌+◌, ◌*◌, ◌-◌, ◌<◌, ◌≤◌, ◌≡◌, refl, sym, subst, true, false, none, some, List, [], ◌∷◌, find?,
  any, length, arith, leb, Bool-cases, inl, inr,
}
use community_platform.RateLimits.{
  RateLimitPolicy, Bucket, RateLimiter, is_bucket, unexpired, ceil_seconds, open_bucket, draw_from,
  draw, consume,
}
use community_platform.RateLimits.Windows.{draw-none, draw-some}

-- The keys of the dictionary of buckets are different.
abbrev pub Distinct : List Bucket → Type 0
Distinct [] = Unit
Distinct (b ∷ bs) = (any (is_bucket b.id) bs ≡ false) × Distinct bs

length-unexpired : (now : ℕ) (bs : List Bucket) → length (unexpired now bs) ≤ length bs
unfolding unexpired
length-unexpired now [] = omega arith
length-unexpired now (b ∷ bs) = ground (arith, length-unexpired now bs)

any-unexpired :
    (now id : ℕ) (bs : List Bucket)
    → any (is_bucket id) bs ≡ false
    → any (is_bucket id) (unexpired now bs) ≡ false
unfolding unexpired
any-unexpired now id [] h = refl
any-unexpired now id (b ∷ bs) h = ground (arith, any-unexpired now id bs)

unexpired-Distinct : (now : ℕ) (bs : List Bucket) → Distinct bs → Distinct (unexpired now bs)
unfolding unexpired
unexpired-Distinct now [] d = tt
unexpired-Distinct now (b ∷ bs) d = elim (Bool-cases (leb b.expires_at now)) [
  | inl k ↦ rw k (unexpired-Distinct now bs d.1)
  | inr k ↦ rw k (any-unexpired now b.id bs d.0, unexpired-Distinct now bs d.1)
]

find?-missing :
    (id : ℕ) (bs : List Bucket) → any (is_bucket id) bs ≡ false → find? (is_bucket id) bs ≡ none
find?-missing id [] h = refl
find?-missing id (b ∷ bs) h = ground (arith, find?-missing id bs)

-- A bucket that expires leaves the table, and makes room in it.
expired-gone :
    (now id : ℕ) (bs : List Bucket) (b : Bucket)
    → Distinct bs
    → find? (is_bucket id) bs ≡ some b
    → b.expires_at ≤ now
    → (find? (is_bucket id) (unexpired now bs) ≡ none) × (length (unexpired now bs) < length bs)
unfolding unexpired
expired-gone now id [] b d f e = ground arith
expired-gone now id (x ∷ bs) b d f e = elim (Bool-cases (is_bucket id x)) [
  | inl k ↦
      let same : x ≡ b = ground arith in
      let out : leb x.expires_at now ≡ true = ground arith in
      let absent : any (is_bucket id) bs ≡ false = ground (arith, d.0) in
      (
        ground (arith, find?-missing id (unexpired now bs) (any-unexpired now id bs absent)),
        ground (arith, length-unexpired now bs),
      )
  | inr k ↦
      let rest = expired-gone now id bs b d.1 (ground arith) e in
      (ground (arith, rest.0), ground (arith, rest.1))
]

ceil_seconds-le : (ticks t : ℕ) → 1 ≤ ticks → t ≤ ceil_seconds ticks t * ticks
unfolding ceil_seconds
ceil_seconds-le ticks t h =
    omega (arith, native.Mathlib.Nat.lt-div-mul-add {a = t + (ticks - 1)} {b = ticks} h)

open_bucket-allowed :
    (now id : ℕ) (policy : RateLimitPolicy) (l : RateLimiter)
    → length l.buckets < l.max_buckets
    → (open_bucket now id policy l).0.allowed ≡ true
unfolding open_bucket
open_bucket-allowed now id policy l h = ground arith

-- A bucket that refuses a call is left as it is, and says when it expires.
draw_from-refused :
    (now : ℕ) (b : Bucket) (policy : RateLimitPolicy) (l : RateLimiter)
    → (draw_from now b policy l).0.allowed ≡ false
    → ((draw_from now b policy l).1 ≡ l)
      × ((draw_from now b policy l).0.retry_after_seconds
          ≡ ceil_seconds l.ticks_per_second (b.expires_at - now))
unfolding draw_from
draw_from-refused now b policy l h = elim (Bool-cases (leb policy.limit b.count)) [
  | inl k ↦ (ground arith, ground arith)
  | inr k ↦ ground arith
]

-- A call that is refused because its identifier has used up the limit of its window is let pass when
-- it is made again after the seconds that the refusal names, or later, and no call came between.
pub consume-again :
    (now later id : ℕ) (b : Bucket) (policy : RateLimitPolicy) (l : RateLimiter)
    → 1 ≤ l.ticks_per_second
    → Distinct l.buckets
    → length l.buckets ≤ l.max_buckets
    → find? (is_bucket id) (unexpired now l.buckets) ≡ some b
    → (consume now id policy l).0.allowed ≡ false
    → now + (consume now id policy l).0.retry_after_seconds * l.ticks_per_second ≤ later
    → (consume later id policy (consume now id policy l).1).0.allowed ≡ true
unfolding consume
consume-again now later id b policy l ticks d room f refused wait =
    let l₁ : RateLimiter = record l { buckets = unexpired now l.buckets } in
    let drawn = draw-some now id b policy l₁ f in
    let (kept, retry) =
      draw_from-refused now b policy l₁ (subst (λ x. x.0.allowed ≡ false) drawn refused) in
    let over =
      subst (λ r. now + r * l.ticks_per_second ≤ later) retry
        (subst (λ x. now + x.0.retry_after_seconds * l.ticks_per_second ≤ later) drawn wait) in
    let expired : b.expires_at ≤ later =
      omega (arith, over, ceil_seconds-le l.ticks_per_second (b.expires_at - now) ticks) in
    let (gone, fewer) =
      expired-gone later id (unexpired now l.buckets) b (unexpired-Distinct now l.buckets d) f
        expired in
    let l₂ : RateLimiter = record l { buckets = unexpired later (unexpired now l.buckets) } in
    let again : (draw later id policy l₂).0.allowed ≡ true =
      rw (draw-none later id policy l₂ gone) (
        open_bucket-allowed later id policy l₂
          (omega (arith, fewer, room, length-unexpired now l.buckets))) in
    subst (λ x. (consume later id policy x.1).0.allowed ≡ true) (sym drawn)
      (subst (λ x. (consume later id policy x).0.allowed ≡ true) (sym kept) again)
