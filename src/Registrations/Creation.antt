-- ===== src/Registrations/Creation.antt =====
-- `RegistrationCreationService`: apps/api/src/talaqi/registrations/service.py.
pub mod Outcomes
pub mod Repeats
use community_platform.Base.{
  ℕ, ◌*◌, min, Bool, true, false, not, Option, none, some, ltb, leb, if◌then◌else◌, Result, ok, err,
  pure, raise_if, lift, gets, ◌>>=◌, ◌>>◌,
}
use community_platform.Time.{Datetime, as_utc, add_delta, minute}
use community_platform.Errors.{
  Error, invalid_instant, registration_not_allowed, registration_closed, no_expiry_policy,
  datetime_overflow,
}
use community_platform.Events.{
  RegistrationMethod, free, cash_organizer_confirmed, RegistrationTerms,
}
use community_platform.Events.Terms.{registration_terms}
use community_platform.Registrations.{
  RegistrationState, confirmed, cash_pending, waitlisted, state_eq, Registration,
}
use community_platform.Registrations.Database.{Database, Transaction}
use community_platform.Registrations.Repository.{
  Services, get_active, held_seat_count, next_waitlist_sequence,
}
use community_platform.Registrations.Writes.{new_uuid, create_registration}

pub record RegistrationCreationResult : Type 0 where
  pub registration : Registration
  pub created : Bool

-- `event.capacity is None or held < event.capacity`
unfoldable pub seat_available : Option ℕ → ℕ → Bool
seat_available none held = true
seat_available (some capacity) held = ltb held capacity

unfoldable pub first_state : Bool → RegistrationMethod → RegistrationState
first_state false method = waitlisted
first_state true free = confirmed
first_state true cash_organizer_confirmed = cash_pending

-- min(now + timedelta(minutes=...), start_at), where a missing policy is a RuntimeError
unfoldable pub cash_deadline : Option ℕ → ℕ → ℕ → Result Error ℕ
unfolding add_delta
cash_deadline none start_at now = err no_expiry_policy
cash_deadline (some minutes) start_at now = elim (add_delta now (minutes * minute)) [
  | none ↦ err datetime_overflow
  | some t ↦ ok (min t start_at)
]

-- a deadline is computed for `cash_pending` alone
unfoldable pub deadline_for : RegistrationState → Option ℕ → ℕ → ℕ → Result Error (Option ℕ)
unfolding cash_deadline
deadline_for cash_pending minutes start_at now = elim (cash_deadline minutes start_at now) [
  | err e ↦ err e
  | ok t ↦ ok (some t)
]
deadline_for _ minutes start_at now = ok none

abbrev pub takes_seat : RegistrationState → Bool
takes_seat confirmed = true
takes_seat cash_pending = true
takes_seat _ = false

unfoldable pub create_in_state :
    Services
    → ℕ
    → RegistrationTerms
    → ℕ
    → ℕ
    → RegistrationState
    → Option ℕ
    → Transaction Registration
unfolding deadline_for new_uuid create_registration
create_in_state env user_id event request_id now state sequence = do
  deadline ← lift (deadline_for state event.cash_expiry_minutes event.start_at now)
  registration_id ← new_uuid env
  command_id ← new_uuid env
  create_registration env (record {
    registration_id = registration_id;
    command_id = command_id;
    command_hash = env.creation_hash (record {
      command_id = command_id;
      registration_id = registration_id;
      event_id = event.id;
      user_id = user_id;
      state = state;
    });
    event_id = event.id;
    user_id = user_id;
    method = event.method;
    state = state;
    seat_held = takes_seat state;
    waitlist_sequence = sequence;
    cash_expires_at = deadline;
    confirmed_at = if state_eq state confirmed then some now else none;
    request_id = request_id;
    occurred_at = now;
  })

-- a place in the queue is read for `waitlisted` alone
unfoldable pub sequence_for : RegistrationState → ℕ → Database → Option ℕ
unfolding next_waitlist_sequence
sequence_for waitlisted event_id db = some (next_waitlist_sequence event_id db)
sequence_for _ event_id db = none

-- `_create`
unfoldable pub create : Services → ℕ → RegistrationTerms → ℕ → ℕ → Transaction Registration
unfolding seat_available first_state sequence_for create_in_state held_seat_count
create env user_id event request_id now db =
    let state =
      first_state (seat_available event.capacity (held_seat_count event.id db)) event.method in
    create_in_state env user_id event request_id now state (sequence_for state event.id db) db

-- what follows the look for an active registration
unfoldable pub register_new :
    Services
    → ℕ
    → RegistrationTerms
    → ℕ
    → ℕ
    → Option Registration
    → Transaction RegistrationCreationResult
unfolding create
register_new env user_id event request_id now (some existing) =
    pure (record { registration = existing; created = false })
register_new env user_id event request_id now none = do
  raise_if (leb event.start_at now) registration_closed
  registration ← create env user_id event request_id now
  pure (record { registration = registration; created = true })

unfoldable pub register_at :
    Services → ℕ → ℕ → Option ℕ → ℕ → ℕ → Transaction RegistrationCreationResult
unfolding registration_terms get_active register_new
register_at env user_id event_id private_link_hash request_id now = do
  events ← gets (λ db. db.events)
  event ← lift (registration_terms env.access events event_id private_link_hash now)
  allowed ← lift (env.evaluate user_id)
  raise_if (not allowed) registration_not_allowed
  existing ← get_active event.id user_id
  register_new env user_id event request_id now existing

-- `RegistrationCreationService.register`
unfoldable pub register :
    Services → ℕ → ℕ → Option ℕ → ℕ → Datetime → Transaction RegistrationCreationResult
unfolding as_utc register_at
register env user_id event_id private_link_hash request_id now db = elim (as_utc now) [
  | none ↦ err invalid_instant
  | some t ↦ register_at env user_id event_id private_link_hash request_id t db
]
