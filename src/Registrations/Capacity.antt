-- ===== src/Registrations/Capacity.antt =====
-- Seats: how the calls change the number of seats that an event holds.
pub mod Promotion
pub mod Safety
pub mod Calls
pub mod Creating
use community_platform.Base.{
  ℕ, subst, sym, ◌∙◌, ◌+◌, ◌≤◌, ◌≡◌, not, ◌&&◌, Option, some, find?, ◌==◌, indicator, arith,
  if◌then◌else◌, ok, count-replace_first, inl, inr, some_injective, Option-cases, Result-cases,
}
use community_platform.Registrations.{
  RegistrationState, Registration, RegistrationMutation, TransitionCommand, NormalizedCommand,
  TransitionResult,
}
use community_platform.Registrations.Commands.{
  normalize_command, mutation, with_times, read_times, deadline_instant, deadline_error,
  header_error,
}
use community_platform.Time.{Datetime, naive, aware}
use community_platform.Registrations.Database.{Database}
use community_platform.Registrations.Repository.{
  Services, RegistrationContext, has_id, holds_seat, held_seat_count, mutated, replace_row,
}
use community_platform.Registrations.Transitions.{transition}
use community_platform.Registrations.Creation.{takes_seat}
use community_platform.Registrations.Effects.Outcome.{
  Outcome, replayed, moved, Moved, transition-Outcome, find?-context, get_context_lem,
}
use community_platform.Registrations.Validity.{IsValid, IsValid-replace_row, seat_held-row_ok}

with_times_lem :
    (value : TransitionCommand) (t : ℕ) (deadline : Option ℕ) (command : NormalizedCommand)
    → with_times value t deadline ≡ ok command
    → (command.command_id ≡ value.command_id)
      × (command.registration_id ≡ value.registration_id)
      × (command.target_state ≡ value.target_state)
unfolding with_times
with_times_lem value t deadline command h =
    elim (Option-cases (deadline_error value.target_state t deadline)) [
      | inl e ↦ ground arith
      | inr (e, p) ↦ ground arith
    ]

read_times_lem :
    (value : TransitionCommand) (at : Datetime) (command : NormalizedCommand)
    → read_times value at ≡ ok command
    → (command.command_id ≡ value.command_id)
      × (command.registration_id ≡ value.registration_id)
      × (command.target_state ≡ value.target_state)
unfolding read_times
read_times_lem value (naive t) command h = ground arith
read_times_lem value (aware t) command h =
    elim (Result-cases (deadline_instant value.cash_expires_at)) [
      | inl (d, e) ↦ with_times_lem value t d command (ground arith)
      | inr (e, p) ↦ ground arith
    ]

-- `_normalize_command` changes neither the registration nor the target.
pub normalize_command_lem :
    (value : TransitionCommand) (command : NormalizedCommand)
    → normalize_command value ≡ ok command
    → (command.command_id ≡ value.command_id)
      × (command.registration_id ≡ value.registration_id)
      × (command.target_state ≡ value.target_state)
unfolding normalize_command
normalize_command_lem value command h = elim (Option-cases (header_error value)) [
  | inl e ↦ read_times_lem value value.occurred_at command (ground arith)
  | inr (e, p) ↦ ground arith
]

pub mutation-state :
    (current : Registration) (command : NormalizedCommand) (m : RegistrationMutation)
    → mutation current command ≡ ok m
    → m.state ≡ command.target_state
unfolding mutation
mutation-state current command m h = ground arith

-- What a call has done to the seats: at most the seat of one registration is new, and only if the
-- registration goes into a state that takes one and did not hold one.
pub record Seated (r : Registration) (target : RegistrationState) (db db' : Database) : Type 0 where
  pub valid : IsValid db'.registrations
  pub events : db'.events ≡ db.events
  pub seats :
      (e : ℕ)
      → held_seat_count e db'
        ≤ held_seat_count e db
          + indicator ((r.event_id == e) && (takes_seat target && not r.seat_held))

module _ {env : Services} {command : NormalizedCommand} {result : TransitionResult}
    {db db' : Database} {context : RegistrationContext} {m : RegistrationMutation}
    (x : Moved env command result db db' context m) where
  -- The new row keeps what a transition does not touch, and is in the state that was asked for.
  pub moved_row :
      (result.registration.id ≡ context.registration.id)
      × (result.registration.event_id ≡ context.registration.event_id)
      × (result.registration.user_id ≡ context.registration.user_id)
      × (result.registration.method ≡ context.registration.method)
      × (result.registration.state ≡ command.target_state)
  unfolding mutated
  moved_row = ground (arith, x.applied.row, mutation-state context.registration command m x.target)

  pub moved_IsValid : IsValid db.registrations → IsValid db'.registrations
  moved_IsValid v =
      let a = x.applied in
      rw a.registrations (
        subst (λ k. IsValid (replace_row k result.registration db.registrations)) moved_row.0
          (IsValid-replace_row db.registrations result.registration v a.row_valid a.row_free))

  moved_seats :
      (e : ℕ)
      → held_seat_count e db' + indicator (holds_seat e context.registration)
        ≡ held_seat_count e db + indicator (holds_seat e result.registration)
  unfolding held_seat_count
  moved_seats e = rw x.applied.registrations (
      count-replace_first (holds_seat e) (has_id context.registration.id) context.registration
        result.registration db.registrations
        (find?-context command.registration_id db context x.found))

  moved_Seated : IsValid db.registrations → Seated context.registration command.target_state db db'
  moved_Seated v = record {
    valid = moved_IsValid v;
    events = x.applied.appended.events;
    seats = λ e.
        ground (
          arith,
          moved_seats e,
          moved_row,
          seat_held-row_ok result.registration x.applied.row_valid,
        );
  }

replayed_Seated :
    (r : Registration) (target : RegistrationState) (db db' : Database)
    → db' ≡ db
    → IsValid db.registrations
    → Seated r target db db'
replayed_Seated r target db db' e v = record {
  valid = rw e v;
  events = rw e;
  seats = λ n. rw e (omega arith);
}

Outcome-Seated :
    (env : Services) (command : NormalizedCommand) (r : Registration) (result : TransitionResult)
    (db db' : Database)
    → Outcome env command result db db'
    → find? (has_id command.registration_id) db.registrations ≡ some r
    → IsValid db.registrations
    → Seated r command.target_state db db'
Outcome-Seated env command r result db db' (replayed x) f v =
    replayed_Seated r command.target_state db db' x.unchanged v
Outcome-Seated env command r result db db' (moved context m x) f v =
    subst (λ s. Seated s command.target_state db db')
      (some_injective (sym (get_context_lem command.registration_id db context x.found) ∙ f))
      (moved_Seated x v)

-- A transition takes at most one seat, for the registration that it names.
pub transition-Seated :
    (env : Services) (value : TransitionCommand) (r : Registration) (result : TransitionResult)
    (db db' : Database)
    → transition env value db ≡ ok (result, db')
    → find? (has_id value.registration_id) db.registrations ≡ some r
    → IsValid db.registrations
    → Seated r value.target_state db db'
transition-Seated env value r result db db' h f v =
    let (command, n, o) = transition-Outcome env value result db db' h in
    let (_, same_id, same_target) = normalize_command_lem value command n in
    subst (λ s. Seated r s db db') same_target
      (Outcome-Seated env command r result db db' o (rw same_id f) v)
