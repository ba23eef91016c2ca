-- ===== src/Outbox/Enqueue.antt =====
-- `OutboxRepository.enqueue` (apps/api/src/talaqi/outbox/repository.py), which
-- `TransactionalEventPublisher.publish` (outbox/publisher.py) calls and nothing else.
use community_platform.Base.{
  ℕ, Bool, true, false, ◌&&◌, Option, none, some, List, [], ◌∷◌, ◌++◌, String, find?, length, holds,
  ◌==◌, text_eq, if◌then◌else◌, Result, ok, err,
}
use community_platform.Audit.{Scalar, text, uuid, number, null}
use community_platform.Errors.{Error, outbox_deduplication_conflict}
use community_platform.Outbox.{OutboxEvent, DeduplicationKey, key_eq, pending}

-- The arguments of `enqueue`.
pub record NewEvent : Type 0 where
  pub aggregate_type : String
  pub aggregate_id : ℕ
  pub event_type : String
  pub payload : List (String × Scalar)
  pub deduplication_key : DeduplicationKey
  pub available_at : ℕ

unfoldable pub scalar_eq : Scalar → Scalar → Bool
unfolding text_eq
scalar_eq (text s) (text t) = text_eq s t
scalar_eq (uuid a) (uuid b) = a == b
scalar_eq (number a) (number b) = a == b
scalar_eq null null = true
scalar_eq _ _ = false

unfoldable pub get_value : String → List (String × Scalar) → Option Scalar
unfolding text_eq
get_value key [] = none
get_value key ((k, v) ∷ rest) = if text_eq k key then some v else get_value key rest

unfoldable pub has_values : List (String × Scalar) → List (String × Scalar) → Bool
unfolding scalar_eq get_value
has_values [] b = true
has_values ((k, v) ∷ rest) b = holds (scalar_eq v) (get_value k b) && has_values rest b

-- Equality of two objects, whose keys are different.
unfoldable pub payload_eq : List (String × Scalar) → List (String × Scalar) → Bool
unfolding has_values
payload_eq a b = length a == length b && has_values a b

-- whether the row under a key is the event that was meant
unfoldable pub is_intended : NewEvent → OutboxEvent → Bool
unfolding payload_eq text_eq
is_intended n e =
    text_eq e.aggregate_type n.aggregate_type
    && e.aggregate_id == n.aggregate_id
    && text_eq e.event_type n.event_type
    && payload_eq e.payload n.payload
    && e.available_at == n.available_at

-- the row with the defaults of its table
unfoldable pub new_row : ℕ → ℕ → NewEvent → OutboxEvent
new_row id clock n = record {
  id = id;
  aggregate_type = n.aggregate_type;
  aggregate_id = n.aggregate_id;
  event_type = n.event_type;
  payload = n.payload;
  deduplication_key = n.deduplication_key;
  status = pending;
  attempt_count = 0;
  available_at = n.available_at;
  locked_by = none;
  locked_until = none;
  processed_at = none;
  last_error_code = none;
  created_at = clock;
}

-- `enqueue`, with the identifier and the time that the table gives by default.
unfoldable pub enqueue :
    ℕ → ℕ → NewEvent → List OutboxEvent → Result Error (Bool × List OutboxEvent)
unfolding key_eq is_intended new_row
enqueue id clock n rows = elim (find? (λ e. key_eq e.deduplication_key n.deduplication_key) rows) [
  | none ↦ ok (true, rows ++ new_row id clock n ∷ [])
  | some e ↦ if is_intended n e then ok (false, rows) else err outbox_deduplication_conflict
]
