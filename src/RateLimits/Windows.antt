-- ===== src/RateLimits/Windows.antt =====
-- The calls that a window lets pass.
use community_platform.Base.{
  ℕ, suc, ◌+◌, ◌<◌, ◌≡◌, false, ◌&&◌, none, some, List, [], ◌∷◌, find?, arith, leb, ltb, ◌==◌, sym,
  subst, ◌-◌, min, All, Bool-cases, Option-cases, inl, inr, find?-append_hit,
  find?-replace_first_self, find?-replace_first_ne, find?-holds, indicator,
}
use community_platform.RateLimits.{
  RateLimitPolicy, RateLimitDecision, Bucket, RateLimiter, is_bucket, unexpired, open_bucket,
  draw_from, draw, consume,
}

unexpired-find? :
    (now id : ℕ) (bs : List Bucket) (b : Bucket)
    → find? (is_bucket id) bs ≡ some b
    → now < b.expires_at
    → find? (is_bucket id) (unexpired now bs) ≡ some b
unfolding unexpired
unexpired-find? now id [] b f l = ground arith
unexpired-find? now id (x ∷ bs) b f l = ground (arith, unexpired-find? now id bs b)

-- What a call does to the bucket of one identifier, while its window runs.
abbrev pub Runs : ℕ → ℕ → ℕ → RateLimiter → Type 0
Runs id count expires_at l =
    (b : Bucket) × (find? (is_bucket id) l.buckets ≡ some b)
    × (b.count ≡ count)
    × (b.expires_at ≡ expires_at)

open_bucket-Runs :
    (now k id c e : ℕ) (policy : RateLimitPolicy) (l : RateLimiter)
    → Runs id c e l
    → Runs id c e (open_bucket now k policy l).1
unfolding open_bucket
open_bucket-Runs now k id c e policy l (b, f, g, h) = (
  b,
  ground (
    arith,
    find?-append_hit (is_bucket id) l.buckets
        (record { id = k; count = 1; expires_at = now + policy.window } ∷ []) b f,
  ),
  g,
  h,
)

draw_from-Runs_other :
    (now id c e : ℕ) (x : Bucket) (policy : RateLimitPolicy) (l : RateLimiter)
    → (x.id == id) ≡ false
    → Runs id c e l
    → Runs id c e (draw_from now x policy l).1
unfolding draw_from
draw_from-Runs_other now id c e x policy l n (b, f, g, h) = (
  b,
  ground (
    arith,
    f,
    find?-replace_first_ne (is_bucket x.id) (is_bucket id) (record x { count = suc x.count })
        l.buckets n (λ y k. ground arith),
  ),
  g,
  h,
)

-- A call on the bucket itself is let pass exactly if the limit is not reached, and counted.
draw_from-Runs :
    (now c e : ℕ) (x : Bucket) (policy : RateLimitPolicy) (l : RateLimiter)
    → find? (is_bucket x.id) l.buckets ≡ some x
    → x.count ≡ c
    → x.expires_at ≡ e
    → ((draw_from now x policy l).0.allowed ≡ ltb c policy.limit)
      × Runs x.id (c + indicator (ltb c policy.limit)) e (draw_from now x policy l).1
unfolding draw_from
draw_from-Runs now c e x policy l f g h = elim (Bool-cases (leb policy.limit x.count)) [
  | inl k ↦ (ground arith, (x, ground arith, ground arith, h))
  | inr k ↦
      let next : Bucket = record x { count = suc x.count } in
      (
        ground arith,
        (
          next,
          ground
              (arith, find?-replace_first_self (is_bucket x.id) x next l.buckets f (ground arith)),
          ground arith,
          h,
        ),
      )
]

pub draw-none :
    (now k : ℕ) (policy : RateLimitPolicy) (l : RateLimiter)
    → find? (is_bucket k) l.buckets ≡ none
    → draw now k policy l ≡ open_bucket now k policy l
unfolding draw
draw-none now k policy l p = ground arith

pub draw-some :
    (now k : ℕ) (x : Bucket) (policy : RateLimitPolicy) (l : RateLimiter)
    → find? (is_bucket k) l.buckets ≡ some x
    → draw now k policy l ≡ draw_from now x policy l
unfolding draw
draw-some now k x policy l p = ground arith

draw-Runs_other :
    (now k id c e : ℕ) (policy : RateLimitPolicy) (l : RateLimiter)
    → (k == id) ≡ false
    → Runs id c e l
    → Runs id c e (draw now k policy l).1
draw-Runs_other now k id c e policy l n r = elim (Option-cases (find? (is_bucket k) l.buckets)) [
  | inl p ↦
      subst (λ d. Runs id c e d.1) (sym (draw-none now k policy l p))
        (open_bucket-Runs now k id c e policy l r)
  | inr (x, p) ↦
      subst (λ d. Runs id c e d.1) (sym (draw-some now k x policy l p))
        (draw_from-Runs_other now id c e x policy l
          (ground (arith, find?-holds (is_bucket k) l.buckets x p)) r)
]

-- A call while the window of its bucket runs.
abbrev pub Counted : ℕ → ℕ → ℕ → ℕ → RateLimitDecision × RateLimiter → Type 0
Counted id c e limit d = (d.0.allowed ≡ ltb c limit) × Runs id (c + indicator (ltb c limit)) e d.1

draw-Counted :
    (now id c e : ℕ) (policy : RateLimitPolicy) (l : RateLimiter)
    → Runs id c e l
    → Counted id c e policy.limit (draw now id policy l)
draw-Counted now id c e policy l (b, f, g, h) =
    let same : b.id ≡ id = ground (arith, find?-holds (is_bucket id) l.buckets b f) in
    subst (Counted id c e policy.limit) (sym (draw-some now id b policy l f)) (
      subst (λ k. Counted k c e policy.limit (draw_from now b policy l)) same
        (draw_from-Runs now c e b policy l
          (subst (λ k. find? (is_bucket k) l.buckets ≡ some b) (sym same) f) g h))

unexpired-Runs :
    (now id c e : ℕ) (l : RateLimiter)
    → now < e
    → Runs id c e l
    → Runs id c e (record l { buckets = unexpired now l.buckets })
unexpired-Runs now id c e l t (b, f, g, h) =
    (b, unexpired-find? now id l.buckets b f (omega (arith, t, h)), g, h)

-- How many calls for an identifier are let pass, among calls for any identifiers at their times.
abbrev pub allowed_of : ℕ → RateLimitPolicy → List (ℕ × ℕ) → RateLimiter → ℕ
allowed_of id policy [] l = 0
allowed_of id policy ((now, k) ∷ cs) l =
    let (d, l') = consume now k policy l in
    indicator (k == id && d.allowed) + allowed_of id policy cs l'

-- how many calls there are for an identifier
abbrev pub calls_of : ℕ → List (ℕ × ℕ) → ℕ
calls_of id [] = 0
calls_of id ((now, k) ∷ cs) = indicator (k == id) + calls_of id cs

-- While the window of an identifier runs, of the calls for it, among calls for others and in any order of
-- their times, as many are let pass as the limit leaves, and every one of them before that.
pub consume-window :
    (id c e : ℕ) (policy : RateLimitPolicy) (calls : List (ℕ × ℕ)) (l : RateLimiter)
    → All (λ call. call.0 < e) calls
    → Runs id c e l
    → allowed_of id policy calls l ≡ min (policy.limit - c) (calls_of id calls)
unfolding consume
consume-window id c e policy [] l t r = omega arith
consume-window id c e policy ((now, k) ∷ cs) l t r =
    let u = unexpired-Runs now id c e l t.0 r in
    elim (Bool-cases (k == id)) [
      | inl same ↦
          let purged = record l { buckets = unexpired now l.buckets } in
          let (allowed, runs) =
            subst (λ j. Counted id c e policy.limit (draw now j policy purged)) (ground arith)
              (draw-Counted now id c e policy purged u) in
          let rest =
            consume-window id (c + indicator (ltb c policy.limit)) e policy cs
              (consume now k policy l).1 t.1 runs in
          ground (arith, same, allowed, rest)
      | inr other ↦
          let rest = consume-window id c e policy cs (consume now k policy l).1 t.1 (
            draw-Runs_other now k id c e policy (record l { buckets = unexpired now l.buckets })
              other u) in
          ground (arith, other, rest)
    ]
