-- ===== src/Outbox.antt =====
-- The transactional outbox (apps/api/src/talaqi/outbox): the rows of talaqi.outbox_events, which
-- the services append to and the workers deliver.
pub mod Delivery
pub mod Leases
pub mod Enqueue
pub mod Once
mod Examples
use community_platform.Base.{ℕ, Bool, false, ◌&&◌, Option, List, String, any, ◌==◌}
use community_platform.Audit.{Scalar}

pub data DeliveryStatus : Type 0 where
  pending processing delivered retryable_failed permanent_failed : DeliveryStatus

-- A deduplication key: `f"registration.created:{id}"`, `f"registration.transition:{id}"`,
-- `f"registration.cash_expiry:{id}"`, `f"attendees.export:{id}"`,
-- `f"membership:{id}:requested:{organizer_id}"`, `f"membership:{id}:{status}"`,
-- `f"membership:{id}:removed"` and `f"moderation:{id}:action:{action}"`, or that of another producer,
-- whose keys begin otherwise.
pub data DeduplicationKey : Type 0 where
  created transition cash_expiry attendees_export : ℕ → DeduplicationKey
  membership_requested : ℕ → ℕ → DeduplicationKey
  membership_approved membership_rejected membership_removed : ℕ → DeduplicationKey
  moderation_suspend moderation_unpublish moderation_restore : ℕ → DeduplicationKey
  other : ℕ → DeduplicationKey

unfoldable pub key_eq : DeduplicationKey → DeduplicationKey → Bool
key_eq (created a) (created b) = a == b
key_eq (transition a) (transition b) = a == b
key_eq (cash_expiry a) (cash_expiry b) = a == b
key_eq (attendees_export a) (attendees_export b) = a == b
key_eq (membership_requested a k) (membership_requested b l) = a == b && k == l
key_eq (membership_approved a) (membership_approved b) = a == b
key_eq (membership_rejected a) (membership_rejected b) = a == b
key_eq (membership_removed a) (membership_removed b) = a == b
key_eq (moderation_suspend a) (moderation_suspend b) = a == b
key_eq (moderation_unpublish a) (moderation_unpublish b) = a == b
key_eq (moderation_restore a) (moderation_restore b) = a == b
key_eq (other a) (other b) = a == b
key_eq _ _ = false

pub record OutboxEvent : Type 0 where
  pub id : ℕ
  pub aggregate_type : String
  pub aggregate_id : ℕ
  pub event_type : String
  pub payload : List (String × Scalar)
  pub deduplication_key : DeduplicationKey
  pub status : DeliveryStatus
  pub attempt_count : ℕ
  pub available_at : ℕ
  pub locked_by : Option String
  pub locked_until : Option ℕ
  pub processed_at : Option ℕ
  pub last_error_code : Option String
  pub created_at : ℕ

unfoldable pub has_key : DeduplicationKey → List OutboxEvent → Bool
unfolding key_eq
has_key key = any (λ e. key_eq e.deduplication_key key)
