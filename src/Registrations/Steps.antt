-- ===== src/Registrations/Steps.antt =====
-- The registration tables as a state machine: a step moves one registration along an allowed
-- transition, creates one, or leaves the registrations and their history alone.
pub mod Calls
pub mod Seats
use community_platform.Base.{
  some≢none, ℕ, ◌≡◌, true, false, Bool-cases, inl, inr, subst, none, some, [], ◌∷◌, ◌++◌, find?,
  any, count, arith, if◌then◌else◌, ◌&&◌, ◌||◌, sym, ◌∙◌,
}
use community_platform.Registrations.{
  is_transition_allowed, Registration, RegistrationTransition, NormalizedCommand,
  RegistrationMutation, TransitionResult,
}
use community_platform.Registrations.Database.{Database, row_ok, clashes}
use community_platform.Registrations.Repository.{Services, RegistrationContext, has_id, replace_row}
use community_platform.Registrations.Writes.{NewRegistration, inserted_row}
use community_platform.Registrations.Transitions.{guard_error}
use community_platform.Registrations.Effects.{Appended, announces}
use community_platform.Registrations.Effects.Outcome.{Moved, find?-context}
use community_platform.Registrations.Effects.Created.{Created}
use community_platform.Registrations.Capacity.{moved_row, mutation-state}

-- A registration goes from one state to another.
pub record MoveStep (old new : Registration) (t : RegistrationTransition) (db db' : Database)
    : Type 0 where
  pub found : find? (has_id old.id) db.registrations ≡ some old
  pub registrations : db'.registrations ≡ replace_row old.id new db.registrations
  pub edge : is_transition_allowed old.state new.state ≡ true
  pub id : new.id ≡ old.id
  pub event_id : new.event_id ≡ old.event_id
  pub user_id : new.user_id ≡ old.user_id
  pub method : new.method ≡ old.method
  pub row_valid : row_ok new ≡ true
  pub registration_id : t.registration_id ≡ old.id
  pub previous_state : t.previous_state ≡ some old.state
  pub new_state : t.new_state ≡ new.state
  pub appended : Appended db db' t

-- A registration comes into being.
pub record CreateStep (new : Registration) (t : RegistrationTransition) (db db' : Database)
    : Type 0 where
  pub registrations : db'.registrations ≡ db.registrations ++ new ∷ []
  pub row_valid : row_ok new ≡ true
  pub row_free : any (clashes new) db.registrations ≡ false
  pub registration_id : t.registration_id ≡ new.id
  pub previous_state : t.previous_state ≡ none
  pub new_state : t.new_state ≡ new.state
  pub appended : Appended db db' t

-- The tables of the registrations and what they have announced stay as they are.
pub record QuietStep (db db' : Database) : Type 0 where
  pub registrations : db'.registrations ≡ db.registrations
  pub transitions : db'.transitions ≡ db.transitions
  pub messages : count announces db'.outbox ≡ count announces db.outbox
  pub events : db'.events ≡ db.events

pub data Step (db db' : Database) : Type 0 where
  moves :
      (old new : Registration) (t : RegistrationTransition)
      → MoveStep old new t db db'
      → Step db db'
  creates :
      (new : Registration) (t : RegistrationTransition) → CreateStep new t db db' → Step db db'
  quiet : QuietStep db db' → Step db db'

pub data Reach (db : Database) : Database → Type 0 where
  here : Reach db db
  next : {db₁ db₂ : Database} → Reach db db₁ → Step db₁ db₂ → Reach db db₂

pub Reach-trans : {db db₁ db₂ : Database} → Reach db db₁ → Reach db₁ db₂ → Reach db db₂
Reach-trans r here = r
Reach-trans r (next s t) = next (Reach-trans r s) t

-- What holds of a table and passes along every step holds of whatever is reached.
pub Reach_induction {κ} :
    (P : Database → Type κ)
    → ((db db' : Database) → Step db db' → P db → P db')
    → {db db' : Database} → Reach db db'
    → P db
    → P db'
Reach_induction P step here h = h
Reach_induction P step (next r s) h = step _ _ s (Reach_induction P step r h)

guard_error-edge :
    (r : Registration) (command : NormalizedCommand)
    → guard_error r command ≡ none
    → is_transition_allowed r.state command.target_state ≡ true
unfolding guard_error
guard_error-edge r command h =
    elim (Bool-cases (is_transition_allowed r.state command.target_state)) [
      | inl e ↦ e
      | inr e ↦ absurd (some≢none (rw e at h))
    ]

module _ {env : Services} {command : NormalizedCommand} {result : TransitionResult}
    {db db' : Database} {context : RegistrationContext} {m : RegistrationMutation}
    (x : Moved env command result db db' context m) where
  pub Moved-Step : Step db db'
  Moved-Step =
      let (same_id, same_event, same_user, same_method, state) = moved_row x in
      moves context.registration result.registration result.transition (record {
        found = find?-context command.registration_id db context x.found;
        registrations = x.applied.registrations;
        edge =
            subst (λ s. is_transition_allowed context.registration.state s ≡ true) (sym state)
              (guard_error-edge context.registration command x.guarded);
        id = same_id;
        event_id = same_event;
        user_id = same_user;
        method = same_method;
        row_valid = x.applied.row_valid;
        registration_id = x.applied.registration_id;
        previous_state = x.applied.previous_state;
        new_state =
            x.applied.new_state
            ∙ mutation-state context.registration command m x.target
            ∙ sym state;
        appended = x.applied.appended;
      })

pub Created-Step :
    (n : NewRegistration) (row : Registration) (t : RegistrationTransition) (k : ℕ)
    (db db' : Database)
    → Created n row t (record db { generated = k }) db'
    → Step db db'
unfolding inserted_row
Created-Step n row t k db db' c = creates row t (record {
  registrations = c.registrations;
  row_valid = c.row_valid;
  row_free = c.row_free;
  registration_id = ground (arith, c.row_eq, c.registration_id);
  previous_state = c.previous_state;
  new_state = ground (arith, c.row_eq, c.new_state);
  appended = ground (arith, c.appended);
})
