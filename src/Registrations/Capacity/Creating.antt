-- ===== src/Registrations/Capacity/Creating.antt =====
-- The seats of an event across a registration.
use community_platform.Base.{
  ℕ, subst, sym, ◌+◌, ◌≡◌, refl, Bool, true, false, ◌&&◌, Option, none, some, [], ◌∷◌, count-append,
  ◌==◌, indicator, arith, ok, Bool-cases, inl, inr,
}
use community_platform.Time.{Datetime, naive, aware}
use community_platform.Events.{Event, RegistrationTerms, RegistrationMethod}
use community_platform.Events.Terms.{get}
use community_platform.Registrations.{Registration, RegistrationTransition}
use community_platform.Registrations.Database.{Database}
use community_platform.Registrations.Repository.{Services, held_seat_count, holds_seat}
use community_platform.Registrations.Writes.{NewRegistration, inserted_row}
use community_platform.Registrations.Creation.{
  RegistrationCreationResult, seat_available, first_state, takes_seat, register_new, register,
}
use community_platform.Registrations.Effects.Created.{Created, create_registration_elim}
use community_platform.Registrations.Effects.Registering.{
  IsNew, create_elim, register_at_elim, register_new_elim,
}
use community_platform.Registrations.Validity.{IsValid, IsValid-append_row}
use community_platform.Registrations.Capacity.Safety.{IsSafe, TakesOne-IsSafe}

-- a member who finds no seat holds none
no_seat_waits :
    (free : Bool) (method : RegistrationMethod)
    → free ≡ false
    → takes_seat (first_state free method) ≡ false
unfolding first_state
no_seat_waits true method h = cc
no_seat_waits false method h = refl

Created-seats :
    (n : NewRegistration) (row : Registration) (t : RegistrationTransition) (k : ℕ)
    (db db' : Database) (e : ℕ)
    → Created n row t (record db { generated = k }) db'
    → held_seat_count e db' ≡ held_seat_count e db + indicator ((n.event_id == e) && n.seat_held)
unfolding held_seat_count inserted_row
Created-seats n row t k db db' e c =
    rw c.registrations
      (rw (count-append (holds_seat e) db.registrations (row ∷ [])) (ground (arith, c.row_eq)))

-- Without a free seat nothing is taken; with one, one seat of the event.
Created-IsSafe :
    (user_id now k : ℕ) (terms : RegistrationTerms) (event : Event) (n : NewRegistration)
    (row : Registration) (t : RegistrationTransition) (db db' : Database)
    → get db.events terms.id ≡ some event
    → terms.capacity ≡ event.capacity
    → IsNew user_id terms now db n
    → Created n row t (record db { generated = k }) db'
    → IsSafe db
    → IsSafe db'
Created-IsSafe user_id now k terms event n row t db db' g c new x safe =
    let valid : IsValid db'.registrations =
      rw x.registrations
        (IsValid-append_row db.registrations row safe.valid x.row_valid x.row_free) in
    elim (Bool-cases (seat_available terms.capacity (held_seat_count terms.id db))) [
      | inl free ↦
          TakesOne-IsSafe terms.id event db db' g
            (subst (λ o. seat_available o (held_seat_count terms.id db) ≡ true) c free) safe
            (record {
              valid = valid;
              events = x.appended.events;
              seats = λ e. ground (arith, Created-seats n row t k db db' e x, new.event_id);
            })
      | inr full ↦ record {
        valid = valid;
        capacity = λ e y capacity g' c'. ground (
          arith,
          Created-seats n row t k db db' e x,
          new.seat,
          new.state,
          no_seat_waits (seat_available terms.capacity (held_seat_count terms.id db)) terms.method
              full,
          safe.capacity e y capacity (rw (← x.appended.events) g') c',
        );
      }
    ]

register_new-IsSafe :
    (env : Services) (user_id : ℕ) (terms : RegistrationTerms) (event : Event) (request_id now : ℕ)
    (found : Option Registration) (result : RegistrationCreationResult) (db db' : Database)
    → register_new env user_id terms request_id now found db ≡ ok (result, db')
    → get db.events terms.id ≡ some event
    → terms.capacity ≡ event.capacity
    → IsSafe db
    → IsSafe db'
unfolding register_new
register_new-IsSafe env user_id terms event request_id now (some r) result db db' h g c safe =
    subst IsSafe (ground arith) safe
register_new-IsSafe env user_id terms event request_id now none result db db' h g c safe =
    register_new_elim env user_id terms request_id now result db db' h λ early _ e.
      create_elim env user_id terms request_id now result.registration db db' e λ n new e₁.
        create_registration_elim env n result.registration _ db' e₁ λ t x.
          Created-IsSafe user_id now _ terms event n result.registration t db db' g c new x safe

-- A registration keeps every event within its capacity.
pub register-IsSafe :
    (env : Services) (user_id event_id : ℕ) (private_link_hash : Option ℕ) (request_id : ℕ)
    (now : Datetime) (result : RegistrationCreationResult) (db db' : Database)
    → register env user_id event_id private_link_hash request_id now db ≡ ok (result, db')
    → IsSafe db
    → IsSafe db'
unfolding register
register-IsSafe env user_id event_id private_link_hash request_id (naive t) result db db' h safe =
    ground arith
register-IsSafe env user_id event_id private_link_hash request_id (aware t) result db db' h safe =
    register_at_elim env user_id event_id private_link_hash request_id t result db db' h
      λ event terms found g o _ _ h₁.
        register_new-IsSafe env user_id terms event request_id t found result db db' h₁
          (subst (λ k. get db.events k ≡ some event) (sym o.id) g) o.capacity safe
