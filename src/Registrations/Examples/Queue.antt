-- ===== src/Registrations/Examples/Queue.antt =====
-- The theorems about registering and about the queue, at concrete inputs.
use community_platform.Base.{
  ◌≡◌, ◌≢◌, refl, true, Option, none, some, [], ◌∷◌, Result, ok, err, arith,
}
use community_platform.Errors.{Error, out_of_fuel}
use community_platform.Time.{aware}
use community_platform.Events.{CancellationTerms}
use community_platform.Events.Terms.{cancellation_terms}
use community_platform.Registrations.{Registration, cash_pending}
use community_platform.Registrations.Database.{Database, row_ok, clashes}
use community_platform.Registrations.Repository.{get_transition}
use community_platform.Registrations.Creation.{RegistrationCreationResult, register}
use community_platform.Registrations.Promotion.{promote_next}
use community_platform.Registrations.Validity.{IsValid}
use community_platform.Registrations.Promotion.Progress.{IsFresh, IsUnique, promote_next-ends}
use community_platform.Registrations.Promotion.Order.Fairness.{Chosen, promote_next-Chosen}
use community_platform.Registrations.Fixtures.{services, database, uuid_at, waiting}

-- Two members wait for the one seat; the first of them is not eligible.
abbrev queue : Database
queue = record database { registrations = waiting (uuid_at 2) 13 2 ∷ waiting (uuid_at 1) 12 1 ∷ [] }

queue-IsValid : IsValid queue.registrations
unfolding row_ok clashes
queue-IsValid = record { rows = (refl, (refl, tt)); distinct = (refl, (refl, tt)) }

queue-IsFresh : IsFresh services queue
unfolding get_transition
queue-IsFresh = λ k h. refl

services-IsUnique : IsUnique services
services-IsUnique = λ j k h. omega (arith, h)

promote_next-ends_example : promote_next services 1 (aware 1000) none queue ≢ err out_of_fuel
promote_next-ends_example =
    promote_next-ends services 1 (aware 1000) none queue services-IsUnique queue-IsFresh
      queue-IsValid

abbrev promoted_of : Result Error (Option Registration × Database) → Option Registration
promoted_of (ok (r, db)) = r
promoted_of (err e) = none

abbrev after_of : {A : Type 0} → Result Error (A × Database) → Database
after_of (ok (a, db)) = db
after_of (err e) = database

abbrev promoted : Option Registration
promoted = some (record (waiting (uuid_at 2) 13 2) {
  state = cash_pending;
  seat_held = true;
  waitlist_sequence = none;
  cash_expires_at = some 3600001000;
})

abbrev promoted_tables : Database
promoted_tables = after_of (promote_next services 1 (aware 1000) none queue)

promotion_runs : promote_next services 1 (aware 1000) none queue ≡ ok (promoted, promoted_tables)
unfolding promote_next
promotion_runs = refl

promote_next-Chosen_example :
    (event : CancellationTerms) × (cancellation_terms queue.events 1 ≡ ok event)
    × Chosen services event 1000 promoted queue promoted_tables
promote_next-Chosen_example =
    promote_next-Chosen services 1 1000 none promoted queue promoted_tables promotion_runs
      services-IsUnique queue-IsFresh queue-IsValid

abbrev first_registration : RegistrationCreationResult
first_registration = record {
  registration = record (waiting (uuid_at 1000) 11 1) {
    state = cash_pending;
    seat_held = true;
    waitlist_sequence = none;
    cash_expires_at = some 3600001000;
  };
  created = true;
}

abbrev registered_tables : Database
registered_tables = after_of (register services 11 1 none 7 (aware 1000) database)
