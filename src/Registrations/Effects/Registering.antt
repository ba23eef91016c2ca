-- ===== src/Registrations/Effects/Registering.antt =====
-- `register` taken apart: the terms that it reads, the active registration that it may find, and
-- the row that it creates otherwise.
use community_platform.Base.{
  ℕ, ◌∙◌, suc, ◌≡◌, refl, true, false, not, Option, none, some, List, is_some, leb, ◌==◌, arith,
  if◌then◌else◌, Result, ok, continue_elim, lift_elim, raise_if_elim, Option-cases, inl, inr,
  find?-holds,
}
use community_platform.Errors.{Error, registration_not_allowed, registration_closed}
use community_platform.Events.{Event, RegistrationTerms}
use community_platform.Events.Terms.{
  Access, get, is_published, club_allows, link_allows, registration_terms,
}
use community_platform.Registrations.{confirmed, state_eq, Registration}
use community_platform.Registrations.Database.{Database}
use community_platform.Registrations.Repository.{Services, active_of, one_or_none, held_seat_count}
use community_platform.Registrations.Writes.{NewRegistration, create_registration}
use community_platform.Registrations.Creation.{
  RegistrationCreationResult, seat_available, first_state, takes_seat, deadline_for, sequence_for,
  create, register_new, register_at,
}

-- What `registration_terms` has checked of the event that it answers for.
pub record IsOpen (access : Access) (private_link_hash : Option ℕ) (now event_id : ℕ)
    (event : Event) (terms : RegistrationTerms) : Type 0 where
  pub id : terms.id ≡ event_id
  pub published : is_published event.status ≡ true
  pub not_suspended : is_some event.suspended_at ≡ false
  pub club : club_allows access event ≡ true
  pub link : link_allows access event private_link_hash now ≡ true
  pub start_at : event.start_at ≡ some terms.start_at
  pub capacity : terms.capacity ≡ event.capacity
  pub method : event.registration_method ≡ some terms.method
  pub minutes : terms.cash_expiry_minutes ≡ event.cash_expiry_minutes

pub registration_terms_lem :
    (access : Access) (events : List Event) (event_id : ℕ) (private_link_hash : Option ℕ) (now : ℕ)
    (terms : RegistrationTerms)
    → registration_terms access events event_id private_link_hash now ≡ ok terms
    → (event : Event) × (get events event_id ≡ some event)
      × IsOpen access private_link_hash now event_id event terms
unfolding registration_terms
registration_terms_lem access events event_id private_link_hash now terms h =
    elim (Option-cases (get events event_id)) [
      | inl e ↦ ground arith
      | inr (event, e) ↦
          (event, e, ground (arith, find?-holds (λ x. x.id == event_id) events event e))
    ]

-- The arguments of the row that `_create` inserts.
pub record IsNew (user_id : ℕ) (terms : RegistrationTerms) (now : ℕ) (db : Database)
    (n : NewRegistration) : Type 0 where
  pub event_id : n.event_id ≡ terms.id
  pub user : n.user_id ≡ user_id
  pub method : n.method ≡ terms.method
  pub state :
      n.state
      ≡ first_state (seat_available terms.capacity (held_seat_count terms.id db)) terms.method
  pub seat : n.seat_held ≡ takes_seat n.state
  pub sequence : n.waitlist_sequence ≡ sequence_for n.state terms.id db
  pub deadline :
      deadline_for n.state terms.cash_expiry_minutes terms.start_at now ≡ ok n.cash_expires_at
  pub confirmation : n.confirmed_at ≡ (if state_eq n.state confirmed then some now else none)

pub create_elim {κ} :
    {P : Type κ} (env : Services) (user_id : ℕ) (terms : RegistrationTerms) (request_id now : ℕ)
    (row : Registration) (db db' : Database)
    → create env user_id terms request_id now db ≡ ok (row, db')
    → ((n : NewRegistration)
        → IsNew user_id terms now db n
        → create_registration env n (record db { generated = suc (suc db.generated) })
          ≡ ok (row, db')
        → P)
    → P
unfolding create
create_elim env user_id terms request_id now row db db' h k =
    let state =
      first_state (seat_available terms.capacity (held_seat_count terms.id db)) terms.method in
    lift_elim (deadline_for state terms.cash_expiry_minutes terms.start_at now) db _ h
      λ deadline e h₁.
        k _
          (record {
            event_id = refl;
            user = refl;
            method = refl;
            state = refl;
            seat = refl;
            sequence = refl;
            deadline = e;
            confirmation = refl;
          })
          h₁

pub register_at_elim {κ} :
    {P : Type κ} (env : Services) (user_id event_id : ℕ) (private_link_hash : Option ℕ)
    (request_id now : ℕ) (result : RegistrationCreationResult) (db db' : Database)
    → register_at env user_id event_id private_link_hash request_id now db ≡ ok (result, db')
    → ((event : Event) (terms : RegistrationTerms) (found : Option Registration)
        → get db.events event_id ≡ some event
        → IsOpen env.access private_link_hash now event_id event terms
        → env.evaluate user_id ≡ ok true
        → one_or_none (active_of terms.id user_id) db.registrations ≡ ok found
        → register_new env user_id terms request_id now found db ≡ ok (result, db')
        → P)
    → P
unfolding register_at
register_at_elim env user_id event_id private_link_hash request_id now result db db' h k =
    lift_elim (registration_terms env.access db.events event_id private_link_hash now) db _ h
      λ terms e₁ h₁.
        let (event, g, o) =
          registration_terms_lem env.access db.events event_id private_link_hash now terms e₁ in
        lift_elim (env.evaluate user_id) db _ h₁ λ allowed e₂ h₂.
          raise_if_elim (not allowed) registration_not_allowed db _ h₂ λ e₃ h₃.
            lift_elim (one_or_none (active_of terms.id user_id) db.registrations) db _ h₃
              λ found e₄ h₄. k event terms found g o (ground arith) e₄ h₄

created_pair :
    (row : Registration) (result : RegistrationCreationResult) (db db' : Database)
    → ◌≡◌ {A = Result Error (RegistrationCreationResult × Database)}
        (ok (record { registration = row; created = true }, db))
        (ok (result, db'))
    → ◌≡◌ {A = Result Error (Registration × Database)}
        (ok (row, db))
        (ok (result.registration, db'))
created_pair row result db db' h = ground arith

-- A new registration is created before the event starts.
pub register_new_elim {κ} :
    {P : Type κ} (env : Services) (user_id : ℕ) (terms : RegistrationTerms) (request_id now : ℕ)
    (result : RegistrationCreationResult) (db db' : Database)
    → register_new env user_id terms request_id now none db ≡ ok (result, db')
    → (leb terms.start_at now ≡ false
        → result.created ≡ true
        → create env user_id terms request_id now db ≡ ok (result.registration, db')
        → P)
    → P
unfolding register_new
register_new_elim env user_id terms request_id now result db db' h k =
    raise_if_elim (leb terms.start_at now) registration_closed db _ h λ early h₁.
      continue_elim (create env user_id terms request_id now db) _ h₁
        λ row db₁ e h₂. k early (ground arith) (e ∙ created_pair row result db₁ db' h₂)
