-- ===== src/Outbox/Delivery.antt =====
-- `OutboxRepository` (apps/api/src/talaqi/outbox/repository.py), a function for each statement on
-- the table, and `_record_failure` of the worker (apps/worker/src/talaqi_worker/outbox.py).
use community_platform.Base.{
  ℕ, zero, suc, ◌+◌, ◌-◌, ◌*◌, ◌^◌, min, Bool, true, false, ◌&&◌, ◌||◌, not, Option, none, some,
  List, [], ◌∷◌, String, any, find?, replace_first, leb, ltb, ◌==◌, is_none, holds, if◌then◌else◌,
  text_eq, first_chars,
}
use community_platform.Outbox.{
  DeliveryStatus, pending, processing, delivered, retryable_failed, permanent_failed, OutboxEvent,
}

abbrev pub status_code : DeliveryStatus → ℕ
status_code pending = 0
status_code processing = 1
status_code delivered = 2
status_code retryable_failed = 3
status_code permanent_failed = 4

abbrev pub has_status : DeliveryStatus → OutboxEvent → Bool
has_status s e = status_code e.status == status_code s

abbrev pub is_event : ℕ → OutboxEvent → Bool
is_event id e = e.id == id

-- locked_until IS NULL OR locked_until <= :now
abbrev pub is_unlocked : ℕ → OutboxEvent → Bool
is_unlocked now e = is_none e.locked_until || holds (λ t. leb t now) e.locked_until

-- An event of the same aggregate that is due, not delivered, and older, by creation and then by identifier.
unfoldable pub blocks : ℕ → OutboxEvent → OutboxEvent → Bool
unfolding text_eq
blocks now e earlier =
    text_eq earlier.aggregate_type e.aggregate_type
    && earlier.aggregate_id == e.aggregate_id
    && leb earlier.available_at now
    && not (has_status delivered earlier)
    && (ltb earlier.created_at e.created_at
        || (earlier.created_at == e.created_at && ltb earlier.id e.id))

-- the rows that `claim` may take
unfoldable pub is_due : List String → ℕ → List OutboxEvent → OutboxEvent → Bool
unfolding blocks text_eq
is_due event_types now rows e =
    any (text_eq e.event_type) event_types
    && leb e.available_at now
    && (has_status pending e || has_status retryable_failed e || has_status processing e)
    && is_unlocked now e
    && not (any (blocks now e) rows)

-- ORDER BY available_at, created_at, id
unfoldable pub is_sooner : OutboxEvent → OutboxEvent → Bool
is_sooner a b =
    ltb a.available_at b.available_at
    || (a.available_at == b.available_at
        && (ltb a.created_at b.created_at || (a.created_at == b.created_at && ltb a.id b.id)))

-- a row in its place in that order
unfoldable pub insert_due : OutboxEvent → List OutboxEvent → List OutboxEvent
unfolding is_sooner
insert_due e [] = e ∷ []
insert_due e (x ∷ xs) = let rest = insert_due e xs in if is_sooner x e then x ∷ rest else e ∷ x ∷ xs

unfoldable pub due_of : List String → ℕ → List OutboxEvent → List OutboxEvent → List OutboxEvent
unfolding is_due insert_due
due_of event_types now rows [] = []
due_of event_types now rows (e ∷ es) =
    let rest = due_of event_types now rows es in
    if is_due event_types now rows e then insert_due e rest else rest

-- LIMIT
unfoldable pub first_few : ℕ → List OutboxEvent → List OutboxEvent
first_few zero es = []
first_few (suc n) [] = []
first_few (suc n) (e ∷ es) = e ∷ first_few n es

unfoldable pub claimed_row : String → ℕ → OutboxEvent → OutboxEvent
claimed_row worker_id locked_until e = record e {
  status = processing;
  attempt_count = suc e.attempt_count;
  locked_by = some worker_id;
  locked_until = some locked_until;
}

unfoldable pub lock_all : String → ℕ → List OutboxEvent → List OutboxEvent → List OutboxEvent
unfolding claimed_row
lock_all worker_id locked_until [] rows = rows
lock_all worker_id locked_until (e ∷ es) rows =
    lock_all worker_id locked_until es
      (replace_first (is_event e.id) (claimed_row worker_id locked_until e) rows)

-- `claim`: the rows that are taken, and the table with them locked. No row is locked by another
-- transaction, since it runs alone.
unfoldable pub claim :
    String → List String → ℕ → ℕ → ℕ → List OutboxEvent → List OutboxEvent × List OutboxEvent
unfolding due_of first_few lock_all claimed_row
claim worker_id event_types now lease limit rows =
    let due = first_few limit (due_of event_types now rows rows) in
    (
      mathlib.Core.List.map (claimed_row worker_id (now + lease)) due,
      lock_all worker_id (now + lease) due rows,
    )

-- `get_claimed`
unfoldable pub get_claimed : ℕ → String → ℕ → List OutboxEvent → Option OutboxEvent
unfolding text_eq
get_claimed event_id worker_id now rows =
    find?
      (λ e.
        is_event event_id e
        && has_status processing e
        && holds (text_eq worker_id) e.locked_by
        && holds (λ t. ltb now t) e.locked_until)
      rows

-- Whether a row is still under the claim of an attempt.
unfoldable pub is_held : ℕ → String → ℕ → ℕ → ℕ → OutboxEvent → Bool
unfolding text_eq
is_held event_id worker_id attempt locked_until at e =
    is_event event_id e
    && has_status processing e
    && holds (text_eq worker_id) e.locked_by
    && e.attempt_count == attempt
    && holds (λ t. t == locked_until && ltb at t) e.locked_until

abbrev pub update :
    (OutboxEvent → Bool) → (OutboxEvent → OutboxEvent) → List OutboxEvent → Bool × List OutboxEvent
update p f rows = elim (find? p rows) [
  | none ↦ (false, rows)
  | some e ↦ (true, replace_first p (f e) rows)
]

-- `complete`
unfoldable pub complete : ℕ → String → ℕ → ℕ → ℕ → List OutboxEvent → Bool × List OutboxEvent
unfolding is_held
complete event_id worker_id attempt locked_until processed_at rows =
    update (is_held event_id worker_id attempt locked_until processed_at)
      (λ e. record e {
        status = delivered;
        processed_at = some processed_at;
        locked_by = none;
        locked_until = none;
        last_error_code = none;
      })
      rows

-- `fail`
unfoldable pub fail :
    ℕ → String → ℕ → ℕ → String → ℕ → ℕ → Bool → List OutboxEvent → Bool × List OutboxEvent
unfolding is_held first_chars
fail event_id worker_id attempt locked_until error_code retry_at failed_at permanent rows =
    update (is_held event_id worker_id attempt locked_until failed_at)
      (λ e. record e {
        status = if permanent then permanent_failed else retryable_failed;
        available_at = retry_at;
        locked_by = none;
        locked_until = none;
        last_error_code = some (first_chars 120 error_code);
      })
      rows

-- `retry_permanent_failure`
unfoldable pub retry_permanent_failure : ℕ → ℕ → List OutboxEvent → Bool × List OutboxEvent
retry_permanent_failure event_id now rows =
    update (λ e. is_event event_id e && has_status permanent_failed e && is_unlocked now e)
      (λ e. record e {
        status = pending;
        available_at = now;
        processed_at = none;
        locked_by = none;
        locked_until = none;
        last_error_code = none;
      })
      rows

-- The policy of a worker, in microseconds, as its constructor lets it pass.
pub record RetryPolicy : Type 0 where
  pub max_attempts : ℕ
  pub retry_base : ℕ
  pub retry_max : ℕ

unfoldable pub is_policy : RetryPolicy → Bool
is_policy p =
    leb 1 p.max_attempts
    && leb p.max_attempts 20
    && ltb 0 p.retry_base
    && leb p.retry_base p.retry_max

-- the delay before the jitter, by the number of the attempt
unfoldable pub bounded_delay : RetryPolicy → ℕ → ℕ
bounded_delay p attempt = min (p.retry_base * 2 ^ min (attempt - 1) 10) p.retry_max

-- the delay of `_record_failure`, with what the jitter function returns for its ceiling
unfoldable pub retry_delay : RetryPolicy → (ℕ → ℕ) → ℕ → ℕ
unfolding bounded_delay
retry_delay p jitter attempt =
    let bounded = bounded_delay p attempt in
    let ceiling = min p.retry_base (p.retry_max - bounded) in bounded + min (jitter ceiling) ceiling

unfoldable pub is_permanent : RetryPolicy → Bool → ℕ → Bool
is_permanent p permanent_error attempt = permanent_error || leb p.max_attempts attempt

-- `_record_failure` of an event that was claimed
unfoldable pub record_failure :
    RetryPolicy
    → (ℕ → ℕ)
    → String
    → OutboxEvent
    → ℕ
    → Bool
    → String
    → ℕ
    → ℕ
    → List OutboxEvent
    → Bool × List OutboxEvent
unfolding retry_delay is_permanent fail
record_failure p jitter worker_id e locked_until permanent_error error_code now failed_at rows =
    fail e.id worker_id e.attempt_count locked_until error_code
      (now + retry_delay p jitter e.attempt_count) failed_at
      (is_permanent p permanent_error e.attempt_count) rows
