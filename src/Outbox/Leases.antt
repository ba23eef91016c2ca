-- ===== src/Outbox/Leases.antt =====
-- Claims on the outbox: what may be claimed, the delay of a retry, and how a claim ends.
use community_platform.Base.{
  ℕ, zero, suc, ◌+◌, ◌-◌, ◌*◌, ◌^◌, ◌≤◌, min, ◌≡◌, refl, subst, Bool, true, false, none, some, List,
  [], ◌∷◌, String, any, find?, replace_first, Bool-cases, Option-cases, inl, inr, arith,
}
use community_platform.Outbox.{delivered, OutboxEvent}
use community_platform.Outbox.Delivery.{
  is_event, is_due, claimed_row, is_held, complete, fail, RetryPolicy, is_policy, bounded_delay,
  retry_delay,
}

one_le_pow : (k : ℕ) → 1 ≤ 2 ^ k
one_le_pow zero = omega arith
one_le_pow (suc k) = omega (arith, one_le_pow k)

le_mul : (a m : ℕ) → 1 ≤ m → a ≤ a * m
le_mul a zero h = absurd (omega (arith, h))
le_mul a (suc m) h = omega arith

-- The delay before a retry is at least the base of the policy and at most its maximum, whatever the
-- number of the attempt and the jitter.
pub retry_delay-bounds :
    (p : RetryPolicy) (jitter : ℕ → ℕ) (attempt : ℕ)
    → is_policy p ≡ true
    → (p.retry_base ≤ retry_delay p jitter attempt) × (retry_delay p jitter attempt ≤ p.retry_max)
unfolding is_policy retry_delay bounded_delay
retry_delay-bounds p jitter attempt h =
    let grown =
      le_mul p.retry_base (2 ^ min (attempt - 1) 10) (one_le_pow (min (attempt - 1) 10)) in
    ground (arith, grown)

-- An event that was due, as a claim leaves it.
pub record ClaimedFrom (worker_id : String) (event_types : List String) (now lease : ℕ)
    (rows : List OutboxEvent) (c : OutboxEvent) : Type 0 where
  pub event : OutboxEvent
  pub row : c ≡ claimed_row worker_id (now + lease) event
  pub due : is_due event_types now rows event ≡ true

-- The identifiers of the rows are different: id is the primary key.
abbrev pub Unique : List OutboxEvent → Type 0
Unique [] = Unit
Unique (e ∷ es) = (any (is_event e.id) es ≡ false) × Unique es

find?-absent :
    (id : ℕ) (p : OutboxEvent → Bool) (es : List OutboxEvent)
    → ((e : OutboxEvent) → p e ≡ true → is_event id e ≡ true)
    → any (is_event id) es ≡ false
    → find? p es ≡ none
find?-absent id p [] k h = refl
find?-absent id p (e ∷ es) k h = ground (arith, k e, find?-absent id p es k)

find?-replaced :
    (id : ℕ) (p q : OutboxEvent → Bool) (old new : OutboxEvent) (es : List OutboxEvent)
    → Unique es
    → find? p es ≡ some old
    → ((e : OutboxEvent) → p e ≡ true → e.id ≡ id)
    → ((e : OutboxEvent) → q e ≡ true → is_event id e ≡ true)
    → q new ≡ false
    → find? q (replace_first p new es) ≡ none
find?-replaced id p q old new [] u f k l n = ground arith
find?-replaced id p q old new (e ∷ es) u f k l n = elim (Bool-cases (p e)) [
  | inl h ↦
      ground
        (arith, n, find?-absent id q es l (subst (λ j. any (is_event j) es ≡ false) (k e h) u.0))
  | inr h ↦ elim (Bool-cases (q e)) [
    | inr m ↦ ground (arith, find?-replaced id p q old new es u.1)
    | inl m ↦
        let none_left =
          find?-absent id p es (λ x t. ground (arith, k x t))
            (subst (λ j. any (is_event j) es ≡ false) (ground (arith, l e m)) u.0) in
        absurd (ground (arith, none_left))
  ]
]

is_held-id :
    (id : ℕ) (worker_id : String) (attempt locked_until at : ℕ) (e : OutboxEvent)
    → is_held id worker_id attempt locked_until at e ≡ true
    → e.id ≡ id
unfolding is_held
is_held-id id worker_id attempt locked_until at e h = ground arith

is_held-delivered :
    (id : ℕ) (worker_id : String) (attempt locked_until at t : ℕ) (e : OutboxEvent)
    → is_held id worker_id attempt locked_until at (record e {
      status = delivered;
      processed_at = some t;
      locked_by = none;
      locked_until = none;
      last_error_code = none;
    })
      ≡ false
unfolding is_held
is_held-delivered id worker_id attempt locked_until at t e = ground arith

-- A delivery is recorded once: when a worker has completed its claim, neither a second completion
-- nor a failure under the same claim, at whatever time, changes the table.
pub complete-once :
    (id : ℕ) (worker_id : String) (attempt locked_until at at' retry_at : ℕ) (error_code : String)
    (permanent : Bool) (rows rows' : List OutboxEvent)
    → Unique rows
    → complete id worker_id attempt locked_until at rows ≡ (true, rows')
    → (complete id worker_id attempt locked_until at' rows' ≡ (false, rows'))
      × (fail id worker_id attempt locked_until error_code retry_at at' permanent rows'
          ≡ (false, rows'))
unfolding complete fail
complete-once id worker_id attempt locked_until at at' retry_at error_code permanent rows rows' u
      h =
    elim (Option-cases (find? (is_held id worker_id attempt locked_until at) rows)) [
      | inl p ↦ ground arith
      | inr (e, p) ↦
          let gone =
            find?-replaced id (is_held id worker_id attempt locked_until at)
              (is_held id worker_id attempt locked_until at') e
              (record e {
                status = delivered;
                processed_at = some at;
                locked_by = none;
                locked_until = none;
                last_error_code = none;
              })
              rows u p (is_held-id id worker_id attempt locked_until at)
              (λ x t. ground (arith, is_held-id id worker_id attempt locked_until at' x t))
              (is_held-delivered id worker_id attempt locked_until at' at e) in
          ground (arith, gone, p)
    ]
