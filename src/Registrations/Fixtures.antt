-- ===== src/Registrations/Fixtures.antt =====
-- A small database and services for the tests: one published event with one seat.
use community_platform.Base.{ℕ, ◌+◌, ◌*◌, ◌^◌, true, false, none, some, [], ◌∷◌, ◌==◌, not, ok}
use community_platform.Events.{
  cash_organizer_confirmed, EventStatus, EventOwnershipType, EventVisibility, Event,
}
use community_platform.Registrations.{cash_pending, waitlisted, Registration, state_code}
use community_platform.Registrations.Database.{Database}
use community_platform.Registrations.Repository.{Services}

-- the identifier of the k-th millisecond
abbrev pub uuid_at : ℕ → ℕ
uuid_at k = k * 2 ^ 80 + 7 * 2 ^ 76 + 2 * 2 ^ 62

abbrev pub services : Services
services = record {
  command_hash = λ p. p.registration_id + state_code p.target_state;
  creation_hash = λ p. p.registration_id;
  new_id = λ k. uuid_at (1000 + k);
  access = record {
    registration_available = λ club_id. true;
    authorize_registration_link = λ event_id h now. true;
  };
  evaluate = λ user_id. ok true;
  evaluate_user = λ user_id. some (not (user_id == 12));
  require_manager = λ user_id event_id. ok tt;
}

abbrev pub cash_event : Event
cash_event = record {
  id = 1;
  ownership_type = EventOwnershipType.independent;
  club_id = none;
  owner_user_id = some 99;
  start_at = some 900000000000;
  capacity = some 1;
  visibility = EventVisibility.public;
  status = EventStatus.published;
  registration_method = some cash_organizer_confirmed;
  cash_expiry_minutes = some 60;
  cancellation_cutoff_minutes = some 30;
  suspended_at = none;
}

abbrev pub database : Database
database = record {
  registrations = [];
  transitions = [];
  outbox = [];
  audit = [];
  events = cash_event ∷ [];
  clock = 500;
  generated = 0;
}

abbrev pub unpaid : Registration
unpaid = record {
  id = uuid_at 1;
  event_id = 1;
  user_id = 11;
  method = cash_organizer_confirmed;
  state = cash_pending;
  seat_held = true;
  waitlist_sequence = none;
  cash_expires_at = some 5000;
  confirmed_at = none;
  cancelled_at = none;
  expired_at = none;
  cancellation_reason = none;
  created_at = 500;
  updated_at = 500;
}

abbrev pub waiting : ℕ → ℕ → ℕ → Registration
waiting id user place = record {
  id = id;
  event_id = 1;
  user_id = user;
  method = cash_organizer_confirmed;
  state = waitlisted;
  seat_held = false;
  waitlist_sequence = some place;
  cash_expires_at = none;
  confirmed_at = none;
  cancelled_at = none;
  expired_at = none;
  cancellation_reason = none;
  created_at = 500;
  updated_at = 500;
}

abbrev pub seated : Database
seated = record database { registrations = unpaid ∷ [] }
