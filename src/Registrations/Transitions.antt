-- ===== src/Registrations/Transitions.antt =====
-- `RegistrationTransitionService`: apps/api/src/talaqi/registrations/service.py.
pub mod Retries
pub mod Constraints
pub mod Success
use community_platform.Base.{
  ℕ, Bool, true, false, ◌&&◌, ◌||◌, not, Option, none, some, leb, ◌==◌, holds, if◌then◌else◌,
  Result, ok, err, ◌>>=◌, ◌>>◌,
}
use community_platform.Errors.{
  Error, transition_idempotency_conflict, registration_not_found, event_not_transitionable,
  invalid_registration_transition, invalid_registration_method_transition,
  cash_reservation_not_expired, type_error,
}
use community_platform.Events.Terms.{is_published}
use community_platform.Registrations.{
  cash_pending, expired, state_eq, is_transition_allowed, Registration, TransitionCommand,
  NormalizedCommand, RegistrationTransition, TransitionResult,
}
use community_platform.Registrations.Commands.{normalize_command, command_payload, mutation}
use community_platform.Registrations.Database.{Database, Transaction, is_cash}
use community_platform.Registrations.Repository.{
  Services, RegistrationContext, get_context, get_transition,
}
use community_platform.Registrations.Writes.{apply_transition}

replay_of :
    RegistrationTransition → Option RegistrationContext → Result Error (Option TransitionResult)
replay_of t none = err registration_not_found
replay_of t (some context) =
    ok (some (record { registration = context.registration; transition = t }))

replay_recorded :
    Option RegistrationTransition → ℕ → Database → Result Error (Option TransitionResult)
replay_recorded none fingerprint db = ok none
replay_recorded (some t) fingerprint db =
    if t.command_hash == fingerprint
    then replay_of t (get_context t.registration_id db)
    else err transition_idempotency_conflict

-- `_replay`
unfoldable pub replay : NormalizedCommand → ℕ → Database → Result Error (Option TransitionResult)
unfolding replay_of replay_recorded get_transition get_context
replay command fingerprint db =
    replay_recorded (get_transition command.command_id db) fingerprint db

-- `event_start_at <= occurred_at`
unfoldable pub has_started : Option ℕ → ℕ → Result Error Bool
has_started none now = err type_error
has_started (some start) now = ok (leb start now)

unfoldable pub is_transitionable : RegistrationContext → NormalizedCommand → Result Error Bool
unfolding is_published has_started
is_transitionable context command =
    if not (is_published context.event_status)
    then ok false
    else if state_eq command.target_state expired
    then ok true
    else elim (has_started context.event_start_at command.occurred_at) [
      | err e ↦ err e
      | ok started ↦ ok (not started)
    ]

-- The guards on the row itself, in order; `none` lets the command pass.
unfoldable pub guard_error : Registration → NormalizedCommand → Option Error
unfolding is_transition_allowed
guard_error current command =
    if not (is_transition_allowed current.state command.target_state)
    then some invalid_registration_transition
    else if not (is_cash current.method)
        && (state_eq command.target_state cash_pending || state_eq command.target_state expired)
    then some invalid_registration_method_transition
    else if state_eq command.target_state expired
        && not (holds (λ d. leb d command.occurred_at) current.cash_expires_at)
    then some cash_reservation_not_expired
    else none

unfoldable pub transition_row_of :
    Services → NormalizedCommand → RegistrationContext → Transaction TransitionResult
unfolding is_transitionable guard_error mutation apply_transition
transition_row_of env command context db = elim (is_transitionable context command) [
  | err e ↦ err e
  | ok false ↦ err event_not_transitionable
  | ok true ↦ elim (guard_error context.registration command) [
    | some e ↦ err e
    | none ↦ elim (mutation context.registration command) [
      | err e ↦ err e
      | ok m ↦
          apply_transition env context.registration command
            (env.command_hash (command_payload command)) m db
    ]
  ]
]

unfoldable pub transition_fresh : Services → NormalizedCommand → Transaction TransitionResult
unfolding get_context transition_row_of
transition_fresh env command db = elim (get_context command.registration_id db) [
  | none ↦ err registration_not_found
  | some context ↦ transition_row_of env command context db
]

-- The second look for a replay, behind the row lock, reads what the first one read, since no other
-- transaction runs between the two.
unfoldable pub transition_normalized : Services → NormalizedCommand → Transaction TransitionResult
unfolding replay transition_fresh
transition_normalized env command db =
    elim (replay command (env.command_hash (command_payload command)) db) [
      | err e ↦ err e
      | ok (some result) ↦ ok (result, db)
      | ok none ↦ transition_fresh env command db
    ]

-- `RegistrationTransitionService.transition`
unfoldable pub transition : Services → TransitionCommand → Transaction TransitionResult
unfolding normalize_command transition_normalized
transition env value db = elim (normalize_command value) [
  | err e ↦ err e
  | ok command ↦ transition_normalized env command db
]
