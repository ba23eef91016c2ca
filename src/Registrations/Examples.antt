-- ===== src/Registrations/Examples.antt =====
-- Runs of the registration services on the fixture, and the theorems about them at concrete inputs.
mod Queue
mod Seats
use community_platform.Base.{
  ℕ, ◌≡◌, refl, Option, none, some, List, [], ◌∷◌, ◌++◌, map, Result, ok, err, ◌>>=◌, ◌>>◌, gets,
  arith, ◌≢◌,
}
use community_platform.Errors.{Error}
use community_platform.Time.{aware}
use community_platform.Audit.{ActorKind}
use community_platform.Events.{EventStatus}
use community_platform.Registrations.{
  RegistrationState, confirmed, cash_pending, cancelled, Registration, TransitionCommand,
  NormalizedCommand, RegistrationTransition, TransitionResult,
}
use community_platform.Registrations.Commands.{command_payload, new_transition_command}
use community_platform.Registrations.Database.{Database, Transaction}
use community_platform.Registrations.Repository.{RegistrationContext, held_seat_count}
use community_platform.Registrations.Creation.{register}
use community_platform.Registrations.Seats.{cancel}
use community_platform.Registrations.Transitions.{transition}
use community_platform.Registrations.Transitions.Retries.{transition-again}
use community_platform.Registrations.Requests.{Request, registers, cancels, serve}
use community_platform.Registrations.Requests.Safety.{serve-IsSafe}
use community_platform.Registrations.Requests.History.{IsRecorded, serve-IsRecorded}
use community_platform.Registrations.Requests.Lifecycle.{Lives, serve-Lives}
use community_platform.Registrations.Capacity.Safety.{IsSafe}
use community_platform.Registrations.Validity.{IsValid}
use community_platform.Registrations.Fixtures.{services, database, uuid_at, unpaid, seated}

abbrev states : Transaction (List RegistrationState)
states = gets (λ db. map (λ r. r.state) db.registrations)

-- One seat: the first member holds it, two more wait; when the first one cancels, the member of
-- the queue that is not eligible is skipped and the next one is promoted.
abbrev script : Transaction (List RegistrationState)
script = do
  register services 11 1 none 7 (aware 1000)
  register services 12 1 none 7 (aware 2000)
  register services 13 1 none 7 (aware 3000)
  cancel services 11 1 8 (aware 4000)
  states

abbrev result_of : {A : Type 0} → Result Error (A × Database) → Option A
result_of (ok (a, db)) = some a
result_of (err e) = none

script_runs : result_of (script database) ≡ some (cancelled ∷ cancelled ∷ cash_pending ∷ [])
unfolding register cancel
script_runs = refl

abbrev requests : List Request
requests =
    registers 11 1 none 7 (aware 1000)
    ∷ registers 12 1 none 7 (aware 2000)
    ∷ registers 13 1 none 7 (aware 3000)
    ∷ cancels 11 1 8 (aware 4000)
    ∷ []

database-IsValid : IsValid database.registrations
database-IsValid = record { rows = tt; distinct = tt }

database-IsSafe : IsSafe database
unfolding held_seat_count
database-IsSafe = record {
  valid = database-IsValid;
  capacity = λ e event capacity g c. omega arith;
}

serve-IsSafe_example : IsSafe (serve services requests database)
serve-IsSafe_example = serve-IsSafe services requests database database-IsSafe

database-IsRecorded : IsRecorded database
database-IsRecorded = record { current = λ id. refl; lawful = λ id. refl }

serve-IsRecorded_example : IsRecorded (serve services requests database)
serve-IsRecorded_example = serve-IsRecorded services requests database database-IsRecorded

serve-Lives_example : Lives unpaid (serve services requests seated)
serve-Lives_example = serve-Lives services requests seated unpaid refl

abbrev payment : TransitionCommand
payment =
    new_transition_command (uuid_at 3) (uuid_at 1) confirmed (some 99) ActorKind.organizer
      "cash_confirmed" 2000 none none

abbrev paid : NormalizedCommand
paid = record {
  command_id = uuid_at 3;
  registration_id = uuid_at 1;
  target_state = confirmed;
  actor_user_id = some 99;
  actor_kind = ActorKind.organizer;
  reason_code = "cash_confirmed";
  occurred_at = 2000;
  request_id = none;
  cash_expires_at = none;
}

abbrev payment_record : RegistrationTransition
payment_record = record {
  id = uuid_at 1000;
  command_id = uuid_at 3;
  command_hash = services.command_hash (record {
    actor_kind = ActorKind.organizer;
    actor_user_id = some 99;
    cash_expires_at = none;
    occurred_at = 2000;
    reason_code = "cash_confirmed";
    registration_id = uuid_at 1;
    request_id = none;
    target_state = confirmed;
  });
  registration_id = uuid_at 1;
  actor_user_id = some 99;
  actor_kind = ActorKind.organizer;
  previous_state = some cash_pending;
  new_state = confirmed;
  reason_code = "cash_confirmed";
  request_id = none;
  occurred_at = 2000;
  created_at = 500;
}

abbrev paid_row : Registration
paid_row = record unpaid { state = confirmed; cash_expires_at = none; confirmed_at = some 2000 }

abbrev payment_result : TransitionResult
payment_result = record { registration = paid_row; transition = payment_record }

abbrev after_of : {A : Type 0} → Result Error (A × Database) → Database
after_of (ok (a, db)) = db
after_of (err e) = database

abbrev paid_tables : Database
paid_tables = after_of (transition services payment seated)

payment_runs : transition services payment seated ≡ ok (payment_result, paid_tables)
unfolding transition new_transition_command command_payload
payment_runs = refl

transition-again_example :
    transition services payment paid_tables ≡ ok (payment_result, paid_tables)
transition-again_example =
    transition-again services payment payment_result seated paid_tables payment_runs

abbrev recorded : Database
recorded = record seated { transitions = record payment_record { command_hash = 0 } ∷ [] }

abbrev seated_context : RegistrationContext
seated_context = record {
  registration = unpaid;
  event_status = EventStatus.published;
  event_start_at = some 900000000000;
}
