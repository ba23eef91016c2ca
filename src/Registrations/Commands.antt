-- ===== src/Registrations/Commands.antt =====
-- Transition commands: `_normalize_command`, `_command_hash`, `_mutation` and
-- `new_transition_command` of apps/api/src/talaqi/registrations/service.py.
use Prim.Native.String.{String}
use community_platform.Base.{
  ℕ, Bool, true, false, ◌&&◌, not, Option, none, some, any, ltb, leb, is_none, holds, if◌then◌else◌,
  Result, ok, err,
}
use community_platform.Time.{Datetime, naive, aware, as_utc}
use community_platform.Identifiers.{validate_uuid7}
use community_platform.Errors.{
  Error, invalid_registration_transition, invalid_transition_actor, invalid_transition_reason,
  invalid_instant, invalid_cash_deadline, unexpected_cash_deadline,
}
use community_platform.Base.{length_of}
use community_platform.Audit.{ActorKind, is_word_char, every_char, validate_actor}
use community_platform.Registrations.{
  RegistrationState, confirmed, cash_pending, waitlisted, cancelled, expired, state_eq,
  registration_states, Registration, RegistrationMutation, TransitionCommand, NormalizedCommand,
}

-- ^[a-z0-9_]{1,80}$, matched in full
unfoldable pub is_reason_code : String → Bool
unfolding every_char length_of
is_reason_code s = ltb 0 (length_of s) && leb (length_of s) 80 && every_char is_word_char s

-- A deadline is wanted exactly for `cash_pending`, and lies after the time of the command.
unfoldable pub deadline_error : RegistrationState → ℕ → Option ℕ → Option Error
deadline_error cash_pending occurred_at deadline =
    if holds (λ d. ltb occurred_at d) deadline then none else some invalid_cash_deadline
deadline_error _ occurred_at deadline =
    if is_none deadline then none else some unexpected_cash_deadline

-- The times of a command, in the order in which they are read.
unfoldable pub deadline_instant : Option Datetime → Result Error (Option ℕ)
unfolding as_utc
deadline_instant none = ok none
deadline_instant (some (naive t)) = err invalid_instant
deadline_instant (some (aware t)) = ok (some t)

unfoldable pub with_times : TransitionCommand → ℕ → Option ℕ → Result Error NormalizedCommand
unfolding deadline_error
with_times c occurred_at deadline = elim (deadline_error c.target_state occurred_at deadline) [
  | some e ↦ err e
  | none ↦ ok (record {
    command_id = c.command_id;
    registration_id = c.registration_id;
    target_state = c.target_state;
    actor_user_id = c.actor_user_id;
    actor_kind = c.actor_kind;
    reason_code = c.reason_code;
    occurred_at = occurred_at;
    request_id = c.request_id;
    cash_expires_at = deadline;
  })
]

unfoldable pub read_times : TransitionCommand → Datetime → Result Error NormalizedCommand
unfolding deadline_instant with_times
read_times c (naive t) = err invalid_instant
read_times c (aware t) = elim (deadline_instant c.cash_expires_at) [
  | err e ↦ err e
  | ok deadline ↦ with_times c t deadline
]

-- The checks before the times are read, in order; `none` lets the command pass.
unfoldable pub header_error : TransitionCommand → Option Error
unfolding validate_actor is_reason_code validate_uuid7
header_error c =
    if not (validate_uuid7 c.command_id && validate_uuid7 c.registration_id)
    then some invalid_registration_transition
    else if not (any (state_eq c.target_state) registration_states)
    then some invalid_registration_transition
    else if not (validate_actor c.actor_user_id c.actor_kind)
    then some invalid_transition_actor
    else if not (is_reason_code c.reason_code)
    then some invalid_transition_reason
    else none

-- `_normalize_command`
unfoldable pub normalize_command : TransitionCommand → Result Error NormalizedCommand
unfolding header_error read_times
normalize_command c = elim (header_error c) [ some e ↦ err e | none ↦ read_times c c.occurred_at ]

-- The object that `_command_hash` serialises: all of the command but its identifier.
pub record CommandPayload : Type 0 where
  pub actor_kind : ActorKind
  pub actor_user_id : Option ℕ
  pub cash_expires_at : Option ℕ
  pub occurred_at : ℕ
  pub reason_code : String
  pub registration_id : ℕ
  pub request_id : Option ℕ
  pub target_state : RegistrationState

unfoldable pub command_payload : NormalizedCommand → CommandPayload
command_payload c = record {
  actor_kind = c.actor_kind;
  actor_user_id = c.actor_user_id;
  cash_expires_at = c.cash_expires_at;
  occurred_at = c.occurred_at;
  reason_code = c.reason_code;
  registration_id = c.registration_id;
  request_id = c.request_id;
  target_state = c.target_state;
}

mutation_to :
    RegistrationState → Registration → NormalizedCommand → Result Error RegistrationMutation
mutation_to confirmed current command = ok (record {
  state = confirmed;
  seat_held = true;
  waitlist_sequence = none;
  cash_expires_at = none;
  confirmed_at = some command.occurred_at;
  cancelled_at = none;
  expired_at = none;
  cancellation_reason = none;
})
mutation_to cash_pending current command = ok (record {
  state = cash_pending;
  seat_held = true;
  waitlist_sequence = none;
  cash_expires_at = command.cash_expires_at;
  confirmed_at = none;
  cancelled_at = none;
  expired_at = none;
  cancellation_reason = none;
})
mutation_to cancelled current command = ok (record {
  state = cancelled;
  seat_held = false;
  waitlist_sequence = none;
  cash_expires_at = none;
  confirmed_at = current.confirmed_at;
  cancelled_at = some command.occurred_at;
  expired_at = none;
  cancellation_reason = some command.reason_code;
})
mutation_to expired current command = ok (record {
  state = expired;
  seat_held = false;
  waitlist_sequence = none;
  cash_expires_at = current.cash_expires_at;
  confirmed_at = none;
  cancelled_at = none;
  expired_at = some command.occurred_at;
  cancellation_reason = none;
})
mutation_to waitlisted current command = err invalid_registration_transition

-- `_mutation`
unfoldable pub mutation : Registration → NormalizedCommand → Result Error RegistrationMutation
unfolding mutation_to
mutation current command = mutation_to command.target_state current command

-- `new_transition_command`, at an identifier that the caller generates. Its callers give instants.
unfoldable pub new_transition_command :
    ℕ
    → ℕ
    → RegistrationState
    → Option ℕ
    → ActorKind
    → String
    → ℕ
    → Option ℕ
    → Option ℕ
    → TransitionCommand
new_transition_command id registration target user kind reason occurred_at request deadline =
    record {
      command_id = id;
      registration_id = registration;
      target_state = target;
      actor_user_id = user;
      actor_kind = kind;
      reason_code = reason;
      occurred_at = aware occurred_at;
      request_id = request;
      cash_expires_at = elim deadline [ none ↦ none | some d ↦ some (aware d) ];
    }
