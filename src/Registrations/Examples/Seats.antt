-- ===== src/Registrations/Examples/Seats.antt =====
-- The theorems about a cancellation, an expiry job and a repeated registration, at concrete inputs.
use community_platform.Base.{◌≡◌, refl, true, false, none, [], ◌∷◌, Result, ok, err}
use community_platform.Errors.{Error}
use community_platform.Time.{aware}
use community_platform.Events.{CancellationTerms}
use community_platform.Events.Terms.{cancellation_terms}
use community_platform.Registrations.{Registration}
use community_platform.Registrations.Database.{Database, row_ok, clashes}
use community_platform.Registrations.Repository.{get_transition}
use community_platform.Registrations.Creation.{RegistrationCreationResult, register}
use community_platform.Registrations.Creation.Repeats.{register-again}
use community_platform.Registrations.Seats.{CashExpiryJob, cancel, confirm, process}
use community_platform.Registrations.Seats.Outcomes.{Cancelled, cancel-Cancelled}
use community_platform.Registrations.Seats.Confirmations.{Confirmed, confirm-Confirmed}
use community_platform.Registrations.Seats.Expiries.{Worked, process-Worked}
use community_platform.Registrations.Validity.{IsValid}
use community_platform.Registrations.Promotion.Progress.{IsFresh}
use community_platform.Registrations.Fixtures.{services, database, unpaid, uuid_at, waiting}

-- A member has the one seat, with the cash to be paid, and another one waits.
abbrev taken : Database
taken = record database { registrations = unpaid ∷ waiting (uuid_at 2) 13 2 ∷ [] }

taken-IsValid : IsValid taken.registrations
unfolding row_ok clashes
taken-IsValid = record { rows = (refl, (refl, tt)); distinct = (refl, (refl, tt)) }

taken-IsFresh : IsFresh services taken
unfolding get_transition
taken-IsFresh = λ k h. refl

abbrev answer_of : {A : Type 0} → A → Result Error (A × Database) → A
answer_of a (ok (b, db)) = b
answer_of a (err e) = a

abbrev tables_of : {A : Type 0} → Result Error (A × Database) → Database
tables_of (ok (a, db)) = db
tables_of (err e) = database

abbrev withdrawn : Registration
withdrawn = answer_of unpaid (cancel services 11 1 7 (aware 1000) taken)

abbrev withdrawn_tables : Database
withdrawn_tables = tables_of (cancel services 11 1 7 (aware 1000) taken)

cancellation_runs : cancel services 11 1 7 (aware 1000) taken ≡ ok (withdrawn, withdrawn_tables)
unfolding cancel
cancellation_runs = refl

cancel-Cancelled_example :
    (event : CancellationTerms) × (cancellation_terms taken.events 1 ≡ ok event)
    × Cancelled 11 1000 event withdrawn taken withdrawn_tables
cancel-Cancelled_example =
    cancel-Cancelled services 11 1 7 1000 withdrawn taken withdrawn_tables cancellation_runs
      taken-IsFresh taken-IsValid

abbrev overdue : CashExpiryJob
overdue = record {
  id = uuid_at 9;
  registration_id = uuid_at 1;
  event_id = 1;
  attempt_count = 1;
  locked_until = 9000;
}

abbrev worked_tables : Database
worked_tables = tables_of (process services overdue 6000 taken)

expiry_runs : process services overdue 6000 taken ≡ ok (true, worked_tables)
unfolding process
expiry_runs = refl

overdue-new : get_transition overdue.id taken ≡ none
unfolding get_transition
overdue-new = refl

process-Worked_example : Worked overdue 6000 taken worked_tables true
process-Worked_example =
    process-Worked services overdue 6000 true taken worked_tables expiry_runs overdue-new

abbrev first_answer : RegistrationCreationResult
first_answer =
    answer_of (record { registration = unpaid; created = false })
      (register services 11 1 none 7 (aware 1000) database)

abbrev first_tables : Database
first_tables = tables_of (register services 11 1 none 7 (aware 1000) database)

first_runs : register services 11 1 none 7 (aware 1000) database ≡ ok (first_answer, first_tables)
unfolding register
first_runs = refl

register-again_example :
    register services 11 1 none 8 (aware 1000) first_tables
    ≡ ok (record { registration = first_answer.registration; created = false }, first_tables)
register-again_example =
    register-again services 11 1 none 7 8 (aware 1000) first_answer database first_tables first_runs

abbrev paid_seat : Registration
paid_seat = answer_of unpaid (confirm services 99 1 (uuid_at 1) 7 (aware 1000) taken)

abbrev paid_tables : Database
paid_tables = tables_of (confirm services 99 1 (uuid_at 1) 7 (aware 1000) taken)

confirmation_runs :
    confirm services 99 1 (uuid_at 1) 7 (aware 1000) taken ≡ ok (paid_seat, paid_tables)
unfolding confirm
confirmation_runs = refl

confirm-Confirmed_example :
    (services.require_manager 99 1 ≡ ok tt)
    × Confirmed 1 (uuid_at 1) 1000 paid_seat taken paid_tables
confirm-Confirmed_example =
    confirm-Confirmed services 99 1 (uuid_at 1) 7 1000 paid_seat taken paid_tables confirmation_runs
      taken-IsFresh taken-IsValid
