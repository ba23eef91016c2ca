-- ===== src/Registrations.antt =====
-- Registrations for events: apps/api/src/talaqi/registrations. The states and records of models.py.
pub mod Database
pub mod Commands
pub mod Repository
pub mod Writes
pub mod Transitions
pub mod Creation
pub mod Promotion
pub mod Seats
pub mod Effects
pub mod Validity
pub mod Capacity
pub mod Steps
pub mod Requests
mod Fixtures
mod Examples
use community_platform.Base.{ℕ, Bool, Option, List, [], ◌∷◌, String, any, ◌&&◌, ◌==◌}
use community_platform.Time.{Datetime}
use community_platform.Audit.{ActorKind}
use community_platform.Events.{RegistrationMethod}

pub data RegistrationState : Type 0 where
  confirmed cash_pending waitlisted cancelled expired : RegistrationState

abbrev pub state_code : RegistrationState → ℕ
state_code confirmed = 0
state_code cash_pending = 1
state_code waitlisted = 2
state_code cancelled = 3
state_code expired = 4

-- the comparison of the states' texts
abbrev pub state_eq : RegistrationState → RegistrationState → Bool
state_eq s t = state_code s == state_code t

pub record Registration : Type 0 where
  pub id : ℕ
  pub event_id : ℕ
  pub user_id : ℕ
  pub method : RegistrationMethod
  pub state : RegistrationState
  pub seat_held : Bool
  pub waitlist_sequence : Option ℕ
  pub cash_expires_at : Option ℕ
  pub confirmed_at : Option ℕ
  pub cancelled_at : Option ℕ
  pub expired_at : Option ℕ
  pub cancellation_reason : Option String
  pub created_at : ℕ
  pub updated_at : ℕ

pub record RegistrationMutation : Type 0 where
  pub state : RegistrationState
  pub seat_held : Bool
  pub waitlist_sequence : Option ℕ
  pub cash_expires_at : Option ℕ
  pub confirmed_at : Option ℕ
  pub cancelled_at : Option ℕ
  pub expired_at : Option ℕ
  pub cancellation_reason : Option String

-- a command as a caller gives it
pub record TransitionCommand : Type 0 where
  pub command_id : ℕ
  pub registration_id : ℕ
  pub target_state : RegistrationState
  pub actor_user_id : Option ℕ
  pub actor_kind : ActorKind
  pub reason_code : String
  pub occurred_at : Datetime
  pub request_id : Option ℕ
  pub cash_expires_at : Option Datetime

-- The same command behind `_normalize_command`: its times are instants.
pub record NormalizedCommand : Type 0 where
  pub command_id : ℕ
  pub registration_id : ℕ
  pub target_state : RegistrationState
  pub actor_user_id : Option ℕ
  pub actor_kind : ActorKind
  pub reason_code : String
  pub occurred_at : ℕ
  pub request_id : Option ℕ
  pub cash_expires_at : Option ℕ

pub record RegistrationTransition : Type 0 where
  pub id : ℕ
  pub command_id : ℕ
  pub command_hash : ℕ
  pub registration_id : ℕ
  pub actor_user_id : Option ℕ
  pub actor_kind : ActorKind
  pub previous_state : Option RegistrationState
  pub new_state : RegistrationState
  pub reason_code : String
  pub request_id : Option ℕ
  pub occurred_at : ℕ
  pub created_at : ℕ

pub record TransitionResult : Type 0 where
  pub registration : Registration
  pub transition : RegistrationTransition

abbrev pub registration_states : List RegistrationState
registration_states = confirmed ∷ cash_pending ∷ waitlisted ∷ cancelled ∷ expired ∷ []

abbrev pub allowed_transitions : List (RegistrationState × RegistrationState)
allowed_transitions =
    (confirmed, cancelled)
    ∷ (cash_pending, confirmed)
    ∷ (cash_pending, cancelled)
    ∷ (cash_pending, expired)
    ∷ (waitlisted, confirmed)
    ∷ (waitlisted, cash_pending)
    ∷ (waitlisted, cancelled)
    ∷ []

unfoldable pub is_transition_allowed : RegistrationState → RegistrationState → Bool
is_transition_allowed current target =
    any (λ p. state_eq p.0 current && state_eq p.1 target) allowed_transitions
