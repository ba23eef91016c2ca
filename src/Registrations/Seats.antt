-- ===== src/Registrations/Seats.antt =====
-- `RegistrationCancellationService` and `CashConfirmationService` of
-- apps/api/src/talaqi/registrations/service.py, and `CashExpiryProcessor` of
-- registrations/expiry.py.
pub mod Outcomes
pub mod Expiries
pub mod Confirmations
use community_platform.Base.{
  ℕ, ◌*◌, Bool, true, false, not, Option, none, some, leb, ◌==◌, holds, if◌then◌else◌, ok, err,
  pure, raise_if, or_raise, lift, gets, ◌>>=◌, ◌>>◌,
}
use community_platform.Time.{Datetime, aware, as_utc, sub_delta, minute}
use community_platform.Errors.{
  invalid_instant, cancellation_closed, not_found, conflict, cash_confirmation_expired,
  cash_expiry_job_not_due, datetime_overflow,
}
use community_platform.Audit.{ActorKind}
use community_platform.Events.{CancellationTerms}
use community_platform.Events.Terms.{cancellation_terms}
use community_platform.Registrations.{
  confirmed, cash_pending, cancelled, expired, state_eq, Registration, TransitionCommand,
}
use community_platform.Registrations.Database.{Transaction, is_cash}
use community_platform.Registrations.Repository.{
  Services, RegistrationContext, get_active, get_for_event, get_context,
}
use community_platform.Registrations.Transitions.{transition}
use community_platform.Registrations.Promotion.{audit_registration, move, promote_next}

-- a seat that was held goes to the queue
unfoldable pub promote_if_held : Services → Registration → ℕ → ℕ → ℕ → Transaction Unit
unfolding promote_next
promote_if_held env r event_id now request_id =
    if r.seat_held
    then (do promote_next env event_id (aware now) (some request_id); pure tt)
    else pure tt

unfoldable pub cancel_for : Services → ℕ → CancellationTerms → ℕ → ℕ → ℕ → Transaction Registration
unfolding get_active move promote_if_held
cancel_for env user_id event cutoff request_id now = do
  raise_if (leb cutoff now) cancellation_closed
  found ← get_active event.id user_id
  registration ← or_raise found not_found
  after ←
      move env registration cancelled (some user_id) ActorKind.member "member_cancelled"
        "registration.cancel" now (some request_id) none
  promote_if_held env registration event.id now request_id
  pure after

-- `RegistrationCancellationService.cancel`
unfoldable pub cancel : Services → ℕ → ℕ → ℕ → Datetime → Transaction Registration
unfolding as_utc sub_delta cancellation_terms cancel_for
cancel env user_id event_id request_id now = do
  t ← or_raise (as_utc now) invalid_instant
  events ← gets (λ db. db.events)
  event ← lift (cancellation_terms events event_id)
  cutoff ←
      or_raise (sub_delta event.start_at (event.cancellation_cutoff_minutes * minute))
        datetime_overflow
  cancel_for env user_id event cutoff request_id t

-- The tests of `confirm` on the registration that was found.
unfoldable pub confirm_row : Services → ℕ → Registration → ℕ → ℕ → Transaction Registration
unfolding move
confirm_row env user_id r request_id now db =
    if not (is_cash r.method)
    then err conflict
    else if state_eq r.state confirmed
    then ok (r, db)
    else if not (state_eq r.state cash_pending)
    then err conflict
    else if holds (λ d. not (leb d now)) r.cash_expires_at
    then move env r confirmed (some user_id) ActorKind.organizer "cash_confirmed"
        "registration.cash_confirm" now (some request_id) none db
    else err cash_confirmation_expired

-- `CashConfirmationService.confirm`
unfoldable pub confirm : Services → ℕ → ℕ → ℕ → ℕ → Datetime → Transaction Registration
unfolding as_utc get_for_event confirm_row
confirm env user_id event_id registration_id request_id now = do
  t ← or_raise (as_utc now) invalid_instant
  lift (env.require_manager user_id event_id)
  found ← gets (get_for_event event_id registration_id)
  registration ← or_raise found not_found
  confirm_row env user_id registration request_id t

pub record CashExpiryJob : Type 0 where
  pub id : ℕ
  pub registration_id : ℕ
  pub event_id : ℕ
  pub attempt_count : ℕ
  pub locked_until : ℕ

-- the command that a due job gives, under the identifier of the job
unfoldable pub expiry_command : CashExpiryJob → Registration → ℕ → TransitionCommand
expiry_command job r now = record {
  command_id = job.id;
  registration_id = r.id;
  target_state = expired;
  actor_user_id = none;
  actor_kind = ActorKind.system;
  reason_code = "cash_expired";
  occurred_at = aware now;
  request_id = none;
  cash_expires_at = none;
}

unfoldable pub expire_row : Services → CashExpiryJob → Registration → ℕ → Transaction Bool
unfolding expiry_command transition audit_registration promote_next
expire_row env job r now = do
  result ← transition env (expiry_command job r now)
  audit_registration env none ActorKind.system "registration.expire" "cash_expired" r
      result.registration.state none
  promote_next env job.event_id (aware now) none
  pure true

unfoldable pub process_context :
    Services → CashExpiryJob → ℕ → Option RegistrationContext → Transaction Bool
unfolding expire_row
process_context env job now none db = ok (false, db)
process_context env job now (some context) db =
    if not (context.registration.event_id == job.event_id)
    then ok (false, db)
    else if not (state_eq context.registration.state cash_pending)
    then ok (false, db)
    else if holds (λ d. leb d now) context.registration.cash_expires_at
    then expire_row env job context.registration now db
    else err cash_expiry_job_not_due

-- `CashExpiryProcessor.process`
unfoldable pub process : Services → CashExpiryJob → ℕ → Transaction Bool
unfolding get_context process_context
process env job now db = process_context env job now (get_context job.registration_id db) db
