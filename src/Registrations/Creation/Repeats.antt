-- ===== src/Registrations/Creation/Repeats.antt =====
-- A member who registers for the same event again.
use community_platform.Base.{
  ℕ, ◌≡◌, refl, subst, Bool, true, false, not, Option, none, some, List, [], ◌∷◌, ◌++◌, any, arith,
  ok, lift_elim, raise_if_elim,
}
use community_platform.Errors.{registration_not_allowed}
use community_platform.Time.{Datetime, naive, aware}
use community_platform.Events.{RegistrationTerms}
use community_platform.Events.Terms.{registration_terms}
use community_platform.Registrations.{Registration, RegistrationTransition}
use community_platform.Registrations.Database.{Database, is_active}
use community_platform.Registrations.Repository.{
  Services, held_seat_count, active_of, one_or_none, get_active,
}
use community_platform.Registrations.Creation.{
  RegistrationCreationResult, first_state, seat_available, register_new, register_at, register,
}
use community_platform.Registrations.Effects.Registering.{IsNew, create_elim, register_new_elim}
use community_platform.Registrations.Effects.Created.{Created, create_registration_elim}
use community_platform.Registrations.Writes.{NewRegistration, inserted_row}

one_or_none-miss :
    (p : Registration → Bool) (rs : List Registration)
    → one_or_none p rs ≡ ok none
    → any p rs ≡ false
unfolding one_or_none
one_or_none-miss p [] h = refl
one_or_none-miss p (r ∷ rs) h = ground (arith, one_or_none-miss p rs)

one_or_none-append :
    (p : Registration → Bool) (rs : List Registration) (new : Registration)
    → any p rs ≡ false
    → p new ≡ true
    → one_or_none p (rs ++ new ∷ []) ≡ ok (some new)
unfolding one_or_none
one_or_none-append p [] new h k = ground arith
one_or_none-append p (r ∷ rs) new h k = ground (arith, one_or_none-append p rs new)

register_at-known :
    (env : Services) (user_id event_id : ℕ) (link : Option ℕ) (request_id now : ℕ)
    (terms : RegistrationTerms) (r : Registration) (db : Database)
    → registration_terms env.access db.events event_id link now ≡ ok terms
    → env.evaluate user_id ≡ ok true
    → one_or_none (active_of terms.id user_id) db.registrations ≡ ok (some r)
    → register_at env user_id event_id link request_id now db
      ≡ ok (record { registration = r; created = false }, db)
unfolding register_at register_new get_active
register_at-known env user_id event_id link request_id now terms r db t e o =
    rw t (rw e (rw o refl))

first_state-active :
    (free_seat : Bool) (terms : RegistrationTerms)
    → is_active (first_state free_seat terms.method) ≡ true
unfolding first_state is_active
first_state-active free_seat terms = ground arith

-- What is left to read for a second registration.
record Known (user_id : ℕ) (terms : RegistrationTerms) (r : Registration) (db db' : Database)
    : Type 0 where
  pub events : db'.events ≡ db.events
  pub active : one_or_none (active_of terms.id user_id) db'.registrations ≡ ok (some r)

Created-Known :
    (user_id now k : ℕ) (terms : RegistrationTerms) (n : NewRegistration) (row : Registration)
    (t : RegistrationTransition) (db db' : Database)
    → one_or_none (active_of terms.id user_id) db.registrations ≡ ok none
    → IsNew user_id terms now db n
    → Created n row t (record db { generated = k }) db'
    → Known user_id terms row db db'
unfolding inserted_row
Created-Known user_id now k terms n row t db db' o new x =
    let active : active_of terms.id user_id row ≡ true = ground (
      arith,
      x.row_eq,
      new.event_id,
      new.user,
      new.state,
      first_state-active (seat_available terms.capacity (held_seat_count terms.id db)) terms,
    ) in
    record {
      events = x.appended.events;
      active = rw x.registrations (
          one_or_none-append (active_of terms.id user_id) db.registrations row
            (one_or_none-miss (active_of terms.id user_id) db.registrations o) active);
    }

register_new-Known :
    (env : Services) (user_id : ℕ) (terms : RegistrationTerms) (request_id now : ℕ)
    (found : Option Registration) (result : RegistrationCreationResult) (db db' : Database)
    → one_or_none (active_of terms.id user_id) db.registrations ≡ ok found
    → register_new env user_id terms request_id now found db ≡ ok (result, db')
    → Known user_id terms result.registration db db'
unfolding register_new
register_new-Known env user_id terms request_id now (some r) result db db' o h =
    let same : db ≡ db' = ground arith in
    subst (λ d. Known user_id terms result.registration db d) same
      (record { events = refl; active = ground arith })
register_new-Known env user_id terms request_id now none result db db' o h =
    register_new_elim env user_id terms request_id now result db db' h λ early c e.
      create_elim env user_id terms request_id now result.registration db db' e λ n new e₁.
        create_registration_elim env n result.registration _ db' e₁
          λ t x. Created-Known user_id now _ terms n result.registration t db db' o new x

register_at-again :
    (env : Services) (user_id event_id : ℕ) (link : Option ℕ) (request_id request_id' now : ℕ)
    (result : RegistrationCreationResult) (db db' : Database)
    → register_at env user_id event_id link request_id now db ≡ ok (result, db')
    → register_at env user_id event_id link request_id' now db'
      ≡ ok (record { registration = result.registration; created = false }, db')
unfolding register_at
register_at-again env user_id event_id link request_id request_id' now result db db' h =
    lift_elim (registration_terms env.access db.events event_id link now) db _ h λ terms e₁ h₁.
      lift_elim (env.evaluate user_id) db _ h₁ λ allowed e₂ h₂.
        raise_if_elim (not allowed) registration_not_allowed db _ h₂ λ e₃ h₃.
          lift_elim (one_or_none (active_of terms.id user_id) db.registrations) db _ h₃
            λ found e₄ h₄.
              let known =
                register_new-Known env user_id terms request_id now found result db db' e₄ h₄ in
              register_at-known env user_id event_id link request_id' now terms result.registration
                db' (rw known.events e₁) (ground arith) known.active

-- A member who has registered for an event and registers for it again at the same time, under
-- whatever request, gets the same registration back, not created anew, and nothing is changed.
pub register-again :
    (env : Services) (user_id event_id : ℕ) (link : Option ℕ) (request_id request_id' : ℕ)
    (now : Datetime) (result : RegistrationCreationResult) (db db' : Database)
    → register env user_id event_id link request_id now db ≡ ok (result, db')
    → register env user_id event_id link request_id' now db'
      ≡ ok (record { registration = result.registration; created = false }, db')
unfolding register
register-again env user_id event_id link request_id request_id' (naive t) result db db' h =
    ground arith
register-again env user_id event_id link request_id request_id' (aware t) result db db' h =
    register_at-again env user_id event_id link request_id request_id' t result db db' h
