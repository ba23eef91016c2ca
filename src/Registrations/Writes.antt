-- ===== src/Registrations/Writes.antt =====
-- The statements of `RegistrationRepository` that write: `create_registration` and
-- `apply_transition` with the records that they append
-- (apps/api/src/talaqi/registrations/repository.py).
use community_platform.Base.{
  ℕ, suc, Bool, ◌&&◌, not, Option, none, some, List, [], ◌∷◌, String, any, find?, if◌then◌else◌, ok,
  err, pure, ◌>>=◌, ◌>>◌,
}
use community_platform.Errors.{registration_state_changed, integrity_error}
use community_platform.Audit.{Scalar, text, uuid, member}
use community_platform.Events.{RegistrationMethod}
use community_platform.Outbox.{
  OutboxEvent, pending, DeduplicationKey, created, transition, cash_expiry,
}
use community_platform.Registrations.{
  RegistrationState, waitlisted, cash_pending, state_eq, Registration, RegistrationMutation,
  NormalizedCommand, RegistrationTransition, TransitionResult,
}
use community_platform.Registrations.Database.{
  Transaction, row_ok, clashes, insert_registration, insert_transition, insert_outbox,
  insert_outbox_or_nothing,
}
use community_platform.Registrations.Repository.{
  Services, state_text, event_type_of, mutated, replace_row, has_id, clashes_with_other,
}

-- a call of generate_uuid7
unfoldable pub new_uuid : Services → Transaction ℕ
new_uuid env db = ok (env.new_id db.generated, record db { generated = suc db.generated })

-- A row of the outbox as the INSERT statements leave it, with the defaults of its table.
unfoldable pub outbox_event :
    ℕ → ℕ → String → List (String × Scalar) → DeduplicationKey → ℕ → ℕ → OutboxEvent
outbox_event id registration_id event_type payload key available_at clock = record {
  id = id;
  aggregate_type = "registration";
  aggregate_id = registration_id;
  event_type = event_type;
  payload = payload;
  deduplication_key = key;
  status = pending;
  attempt_count = 0;
  available_at = available_at;
  locked_by = none;
  locked_until = none;
  processed_at = none;
  last_error_code = none;
  created_at = clock;
}

unfoldable pub now_of : Transaction ℕ
now_of db = ok (db.clock, db)

unfoldable pub cash_expiry_message : ℕ → ℕ → ℕ → ℕ → ℕ → OutboxEvent
unfolding outbox_event
cash_expiry_message id registration_id event_id available_at clock =
    outbox_event id registration_id "registration.cash_expiry_due"
      (("registration_id", uuid registration_id) ∷ ("event_id", uuid event_id) ∷ [])
      (cash_expiry registration_id) available_at clock

-- `_enqueue_cash_expiry`
unfoldable pub enqueue_cash_expiry : Services → ℕ → ℕ → ℕ → Transaction Unit
unfolding new_uuid now_of cash_expiry_message insert_outbox_or_nothing
enqueue_cash_expiry env registration_id event_id available_at = do
  id ← new_uuid env
  clock ← now_of
  insert_outbox_or_nothing (cash_expiry_message id registration_id event_id available_at clock)

-- a deadline is enqueued for `cash_pending` alone
unfoldable pub enqueue_deadline : Services → RegistrationState → Option ℕ → ℕ → ℕ → Transaction Unit
unfolding enqueue_cash_expiry
enqueue_deadline env cash_pending (some deadline) registration_id event_id =
    enqueue_cash_expiry env registration_id event_id deadline
enqueue_deadline env _ _ registration_id event_id = pure tt

-- the arguments of `create_registration`
pub record NewRegistration : Type 0 where
  pub registration_id : ℕ
  pub command_id : ℕ
  pub command_hash : ℕ
  pub event_id : ℕ
  pub user_id : ℕ
  pub method : RegistrationMethod
  pub state : RegistrationState
  pub seat_held : Bool
  pub waitlist_sequence : Option ℕ
  pub cash_expires_at : Option ℕ
  pub confirmed_at : Option ℕ
  pub request_id : ℕ
  pub occurred_at : ℕ

-- the row that INSERT writes
unfoldable pub inserted_row : NewRegistration → ℕ → Registration
inserted_row n clock = record {
  id = n.registration_id;
  event_id = n.event_id;
  user_id = n.user_id;
  method = n.method;
  state = n.state;
  seat_held = n.seat_held;
  waitlist_sequence = n.waitlist_sequence;
  cash_expires_at = n.cash_expires_at;
  confirmed_at = n.confirmed_at;
  cancelled_at = none;
  expired_at = none;
  cancellation_reason = none;
  created_at = clock;
  updated_at = clock;
}

unfoldable pub creation_row : ℕ → NewRegistration → ℕ → RegistrationTransition
creation_row id n clock = record {
  id = id;
  command_id = n.command_id;
  command_hash = n.command_hash;
  registration_id = n.registration_id;
  actor_user_id = some n.user_id;
  actor_kind = member;
  previous_state = none;
  new_state = n.state;
  reason_code = if state_eq n.state waitlisted then "member_waitlisted" else "member_registered";
  request_id = some n.request_id;
  occurred_at = n.occurred_at;
  created_at = clock;
}

unfoldable pub creation_message : ℕ → NewRegistration → ℕ → OutboxEvent
unfolding outbox_event
creation_message id n clock =
    outbox_event id n.registration_id (event_type_of n.state)
      (("registration_id", uuid n.registration_id)
        ∷ ("event_id", uuid n.event_id)
        ∷ ("user_id", uuid n.user_id)
        ∷ ("state", text (state_text n.state))
        ∷ [])
      (created n.registration_id) n.occurred_at clock

-- `_append_creation_records`
unfoldable pub append_creation_records : Services → NewRegistration → Transaction Unit
unfolding new_uuid now_of creation_row creation_message insert_transition insert_outbox
append_creation_records env n = do
  transition_id ← new_uuid env
  clock ← now_of
  insert_transition (creation_row transition_id n clock)
  outbox_id ← new_uuid env
  insert_outbox (creation_message outbox_id n clock)

unfoldable pub create_registration : Services → NewRegistration → Transaction Registration
unfolding now_of inserted_row insert_registration append_creation_records enqueue_deadline
create_registration env n = do
  clock ← now_of
  row ← insert_registration (inserted_row n clock)
  append_creation_records env n
  enqueue_deadline env n.state n.cash_expires_at n.registration_id n.event_id
  pure row

-- The UPDATE of `apply_transition`: the row is written if it is still in the state that was read,
-- and the new row is held to the constraints.
unfoldable pub update_registration : Registration → RegistrationMutation → Transaction Registration
unfolding mutated row_ok clashes
update_registration current m db =
    elim (find? (λ r. has_id current.id r && state_eq r.state current.state) db.registrations) [
      | none ↦ err registration_state_changed
      | some r ↦
          let row = mutated m db.clock r in
          if row_ok row && not (any (clashes_with_other row) db.registrations)
          then ok (row, record db { registrations = replace_row current.id row db.registrations })
          else err integrity_error
    ]

unfoldable pub transition_row :
    ℕ → Registration → NormalizedCommand → ℕ → RegistrationState → ℕ → RegistrationTransition
transition_row id current command hash new_state clock = record {
  id = id;
  command_id = command.command_id;
  command_hash = hash;
  registration_id = current.id;
  actor_user_id = command.actor_user_id;
  actor_kind = command.actor_kind;
  previous_state = some current.state;
  new_state = new_state;
  reason_code = command.reason_code;
  request_id = command.request_id;
  occurred_at = command.occurred_at;
  created_at = clock;
}

unfoldable pub transition_message :
    ℕ → Registration → NormalizedCommand → RegistrationState → ℕ → OutboxEvent
unfolding outbox_event
transition_message id current command new_state clock =
    outbox_event id current.id (event_type_of new_state)
      (("registration_id", uuid current.id)
        ∷ ("event_id", uuid current.event_id)
        ∷ ("user_id", uuid current.user_id)
        ∷ ("previous_state", text (state_text current.state))
        ∷ ("state", text (state_text new_state))
        ∷ ("reason_code", text command.reason_code)
        ∷ [])
      (transition command.command_id) command.occurred_at clock

unfoldable pub apply_transition :
    Services
    → Registration
    → NormalizedCommand
    → ℕ
    → RegistrationMutation
    → Transaction TransitionResult
unfolding update_registration transition_row transition_message new_uuid now_of insert_transition
    insert_outbox enqueue_deadline
apply_transition env current command hash m = do
  row ← update_registration current m
  transition_id ← new_uuid env
  clock ← now_of
  t ← insert_transition (transition_row transition_id current command hash m.state clock)
  outbox_id ← new_uuid env
  insert_outbox (transition_message outbox_id current command m.state clock)
  enqueue_deadline env m.state m.cash_expires_at current.id current.event_id
  pure (record { registration = row; transition = t })
