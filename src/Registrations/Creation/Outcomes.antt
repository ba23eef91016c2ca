-- ===== src/Registrations/Creation/Outcomes.antt =====
-- What a registration that returns has done.
use community_platform.Base.{
  ◌≤◌, ◌<◌, All, ℕ, ◌≡◌, true, false, not, none, some, [], ◌∷◌, ◌++◌, find?, leb, holds,
}
use community_platform.Events.{Event, RegistrationMethod, free, cash_organizer_confirmed}
use community_platform.Registrations.{
  RegistrationState, confirmed, cash_pending, waitlisted, Registration,
}
use community_platform.Registrations.Database.{Database}
use community_platform.Registrations.Repository.{active_of, held_seat_count, waits_for}
use community_platform.Registrations.Creation.{RegistrationCreationResult, takes_seat}
use community_platform.Registrations.Effects.Created.{Created}

-- The member had an active registration for the event, which is answered.
pub record Existing (user_id event_id : ℕ) (result : RegistrationCreationResult) (db db' : Database)
    : Type 0 where
  pub not_created : result.created ≡ false
  pub active : find? (active_of event_id user_id) db.registrations ≡ some result.registration
  pub unchanged : db' ≡ db

-- A row that waits for an event has a smaller place.
abbrev pub Ahead : ℕ → ℕ → Registration → Type 0
Ahead event_id place r =
    waits_for event_id r ≡ true → (a : ℕ) → r.waitlist_sequence ≡ some a → a < place

-- the state of a member who holds a seat
abbrev pub paid_state : RegistrationMethod → RegistrationState
paid_state free = confirmed
paid_state cash_organizer_confirmed = cash_pending

-- The member had none, and a row was appended: in the state that the free seats and the event's
-- method call for, with a deadline for an unpaid seat alone, not behind the start of the event,
-- and for one that waits with a place behind all who wait.
pub record Fresh (user_id event_id now : ℕ) (event : Event) (result : RegistrationCreationResult)
    (db db' : Database) : Type 0 where
  pub created : result.created ≡ true
  pub inactive : find? (active_of event_id user_id) db.registrations ≡ none
  pub appended : db'.registrations ≡ db.registrations ++ result.registration ∷ []
  pub event_is : result.registration.event_id ≡ event_id
  pub user_is : result.registration.user_id ≡ user_id
  pub early : holds (λ start. not (leb start now)) event.start_at ≡ true
  pub method : event.registration_method ≡ some result.registration.method
  pub full :
      (c : ℕ)
      → event.capacity ≡ some c
      → c ≤ held_seat_count event_id db
      → result.registration.state ≡ waitlisted
  pub free_seat :
      ((c : ℕ) → event.capacity ≡ some c → held_seat_count event_id db < c)
      → result.registration.state ≡ paid_state result.registration.method
  pub seat : result.registration.seat_held ≡ takes_seat result.registration.state
  pub deadline :
      (d : ℕ)
      → result.registration.cash_expires_at ≡ some d
      → (result.registration.state ≡ cash_pending)
        × holds (λ start. leb d start) event.start_at ≡ true
  pub place :
      result.registration.state ≡ waitlisted
      → (place : ℕ) × (result.registration.waitlist_sequence ≡ some place)
        × All (Ahead event_id place) db.registrations

pub data Registered (user_id event_id now : ℕ) (event : Event) (result : RegistrationCreationResult)
    (db db' : Database) : Type 0 where
  existing :
      Existing user_id event_id result db db' → Registered user_id event_id now event result db db'
  fresh :
      Fresh user_id event_id now event result db db'
      → Registered user_id event_id now event result db db'
