-- ===== src/Registrations/Promotion.antt =====
-- `PromotionService`: apps/api/src/talaqi/registrations/service.py. The `while` loop takes fuel: one
-- round more than members wait.
pub mod Errors
pub mod Progress
pub mod Order
use community_platform.Base.{
  ℕ, zero, suc, Bool, true, false, ◌&&◌, not, Option, none, some, [], ◌∷◌, String, count, leb,
  holds, if◌then◌else◌, ok, err, pure, lift, continue, ◌>>=◌, ◌>>◌,
}
use community_platform.Time.{Datetime, as_utc}
use community_platform.Errors.{invalid_instant, out_of_fuel}
use community_platform.Audit.{ActorKind, text}
use community_platform.Events.{
  RegistrationMethod, free, cash_organizer_confirmed, CancellationTerms,
}
use community_platform.Events.Terms.{cancellation_terms}
use community_platform.Registrations.{
  RegistrationState, confirmed, cash_pending, cancelled, Registration,
}
use community_platform.Registrations.Commands.{new_transition_command}
use community_platform.Registrations.Database.{Database, Transaction, record_audit}
use community_platform.Registrations.Repository.{
  Services, state_text, waits_for, oldest_waitlisted, held_seat_count,
}
use community_platform.Registrations.Writes.{new_uuid}
use community_platform.Registrations.Transitions.{transition}
use community_platform.Registrations.Creation.{seat_available, deadline_for}

-- The event that `AuditService.record` writes about a registration; it generates its identifier.
unfoldable pub audit_registration :
    Services
    → Option ℕ
    → ActorKind
    → String
    → String
    → Registration
    → RegistrationState
    → Option ℕ
    → Transaction Unit
unfolding new_uuid record_audit
audit_registration env user kind action reason before after request_id = do
  id ← new_uuid env
  record_audit (record {
    id = id;
    actor_user_id = user;
    actor_kind = kind;
    action = action;
    target_type = "registration";
    target_id = some before.id;
    reason = some reason;
    safe_before = some (("state", text (state_text before.state)) ∷ []);
    safe_after = some (("state", text (state_text after)) ∷ []);
    request_id = request_id;
  })

-- A transition to a new command of the service's own, and its audit event.
unfoldable pub move :
    Services
    → Registration
    → RegistrationState
    → Option ℕ
    → ActorKind
    → String
    → String
    → ℕ
    → Option ℕ
    → Option ℕ
    → Transaction Registration
unfolding new_uuid new_transition_command transition audit_registration
move env r target user kind reason action now request_id deadline = do
  command_id ← new_uuid env
  result ←
      transition env
        (new_transition_command command_id r.id target user kind reason now request_id deadline)
  audit_registration env user kind action reason r result.registration.state request_id
  pure result.registration

-- the member that the queue offers is not eligible
unfoldable pub skip : Services → Registration → ℕ → Option ℕ → Transaction Registration
unfolding move
skip env candidate now request_id =
    move env candidate cancelled none ActorKind.system "promotion_ineligible"
      "registration.promotion_skip" now request_id none

unfoldable pub promotion_target : RegistrationMethod → RegistrationState
promotion_target free = confirmed
promotion_target cash_organizer_confirmed = cash_pending

unfoldable pub promote :
    Services → CancellationTerms → Registration → ℕ → Option ℕ → Transaction Registration
unfolding promotion_target deadline_for move
promote env event candidate now request_id = do
  deadline ←
      lift
        (deadline_for (promotion_target event.method) event.cash_expiry_minutes event.start_at now)
  move env candidate (promotion_target event.method) none ActorKind.system "waitlist_promoted"
      "registration.promote" now request_id deadline

-- capabilities is not None and capabilities.register_event
abbrev pub is_eligible : Services → Registration → Bool
is_eligible env r = holds (λ allowed. allowed) (env.evaluate_user r.user_id)

unfoldable pub promote_loop :
    ℕ → Services → CancellationTerms → ℕ → Option ℕ → Transaction (Option Registration)
unfolding oldest_waitlisted skip promote
promote_loop zero env event now request_id db = err out_of_fuel
promote_loop (suc fuel) env event now request_id db = elim (oldest_waitlisted event.id db) [
  | none ↦ ok (none, db)
  | some candidate ↦ elim (is_eligible env candidate) [
    | true ↦ continue (promote env event candidate now request_id db) (λ r. pure (some r))
    | false ↦
        continue (skip env candidate now request_id db)
          (λ _. promote_loop fuel env event now request_id)
  ]
]

unfoldable pub queue_length : ℕ → Database → ℕ
queue_length event_id db = count (waits_for event_id) db.registrations

unfoldable pub promote_for :
    Services → CancellationTerms → ℕ → Option ℕ → Transaction (Option Registration)
unfolding seat_available held_seat_count promote_loop queue_length
promote_for env event now request_id db =
    if leb event.start_at now
    then ok (none, db)
    else if not (seat_available event.capacity (held_seat_count event.id db))
    then ok (none, db)
    else promote_loop (suc (queue_length event.id db)) env event now request_id db

-- `PromotionService.promote_next`
unfoldable pub promote_next : Services → ℕ → Datetime → Option ℕ → Transaction (Option Registration)
unfolding as_utc cancellation_terms promote_for
promote_next env event_id now request_id db = elim (as_utc now) [
  | none ↦ err invalid_instant
  | some t ↦ elim (cancellation_terms db.events event_id) [
    | err e ↦ err e
    | ok event ↦ promote_for env event t request_id db
  ]
]
