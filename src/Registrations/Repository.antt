-- ===== src/Registrations/Repository.antt =====
-- `RegistrationRepository`: apps/api/src/talaqi/registrations/repository.py, a function for each
-- statement. Row locks are not modelled: a transaction runs alone.
use community_platform.Base.{
  ℕ, suc, Bool, true, false, ◌&&◌, ◌||◌, not, Option, none, some, List, [], ◌∷◌, String, any, count,
  find?, replace_first, max, ltb, ◌==◌, if◌then◌else◌, Result, ok, err, lift,
}
use community_platform.Errors.{Error, multiple_results}
use community_platform.Events.{Event, EventStatus}
use community_platform.Events.Terms.{Access, get}
use community_platform.Registrations.{
  RegistrationState, confirmed, cash_pending, waitlisted, cancelled, expired, state_eq,
  Registration, RegistrationMutation, RegistrationTransition,
}
use community_platform.Registrations.Commands.{CommandPayload}
use community_platform.Registrations.Database.{Database, Transaction, clashes, is_active}

-- the text that the hash of a creation is taken of
pub record CreationPayload : Type 0 where
  pub command_id : ℕ
  pub registration_id : ℕ
  pub event_id : ℕ
  pub user_id : ℕ
  pub state : RegistrationState

-- What registration calls and does not implement.
pub record Services : Type 0 where
  -- SHA-256 of a serialised command, and of the text for a creation
  pub command_hash : CommandPayload → ℕ
  pub creation_hash : CreationPayload → ℕ
  -- what the k-th call of generate_uuid7 returns
  pub new_id : ℕ → ℕ
  -- clubs and private links
  pub access : Access
  -- `evaluate(principal).register_event`, or its raise
  pub evaluate : ℕ → Result Error Bool
  -- `evaluate_user(user_id)`: `none` is a user that is gone, else `register_event`
  pub evaluate_user : ℕ → Option Bool
  -- `require_manager(principal, event_id)`
  pub require_manager : ℕ → ℕ → Result Error Unit

abbrev pub state_text : RegistrationState → String
state_text confirmed = "confirmed"
state_text cash_pending = "cash_pending"
state_text waitlisted = "waitlisted"
state_text cancelled = "cancelled"
state_text expired = "expired"

-- f"registration.{state}"
abbrev pub event_type_of : RegistrationState → String
event_type_of confirmed = "registration.confirmed"
event_type_of cash_pending = "registration.cash_pending"
event_type_of waitlisted = "registration.waitlisted"
event_type_of cancelled = "registration.cancelled"
event_type_of expired = "registration.expired"

-- `one_or_none` of the rows that fit
unfoldable pub one_or_none :
    (Registration → Bool) → List Registration → Result Error (Option Registration)
one_or_none p [] = ok none
one_or_none p (r ∷ rs) =
    if p r then (if any p rs then err multiple_results else ok (some r)) else one_or_none p rs

abbrev pub active_of : ℕ → ℕ → Registration → Bool
active_of event_id user_id r = r.event_id == event_id && r.user_id == user_id && is_active r.state

unfoldable pub get_active : ℕ → ℕ → Transaction (Option Registration)
unfolding one_or_none is_active
get_active event_id user_id db = lift (one_or_none (active_of event_id user_id) db.registrations) db

abbrev pub waits_for : ℕ → Registration → Bool
waits_for event_id r = r.event_id == event_id && state_eq r.state waitlisted

-- ORDER BY waitlist_sequence, id, where NULL comes last
unfoldable pub comes_before : Registration → Registration → Bool
comes_before r s = elim r.waitlist_sequence [
  | none ↦ elim s.waitlist_sequence [ none ↦ ltb r.id s.id | some b ↦ false ]
  | some a ↦ elim s.waitlist_sequence [
    | none ↦ true
    | some b ↦ ltb a b || (a == b && ltb r.id s.id)
  ]
]

-- The first row in that order among those that fit.
earlier : Registration → Option Registration → Registration
earlier r none = r
earlier r (some s) = if comes_before s r then s else r

unfoldable pub first_by_place : (Registration → Bool) → List Registration → Option Registration
unfolding earlier comes_before
first_by_place p [] = none
first_by_place p (r ∷ rs) =
    if p r then some (earlier r (first_by_place p rs)) else first_by_place p rs

unfoldable pub oldest_waitlisted : ℕ → Database → Option Registration
unfolding first_by_place
oldest_waitlisted event_id db = first_by_place (waits_for event_id) db.registrations

unfoldable pub get_for_event : ℕ → ℕ → Database → Option Registration
get_for_event event_id registration_id db =
    find? (λ r. r.event_id == event_id && r.id == registration_id) db.registrations

abbrev pub holds_seat : ℕ → Registration → Bool
holds_seat event_id r = r.event_id == event_id && r.seat_held

unfoldable pub held_seat_count : ℕ → Database → ℕ
held_seat_count event_id db = count (holds_seat event_id) db.registrations

-- coalesce(max(waitlist_sequence), 0) over the rows that wait
unfoldable pub highest_sequence : ℕ → List Registration → ℕ
highest_sequence event_id [] = 0
highest_sequence event_id (r ∷ rs) =
    let rest = highest_sequence event_id rs in
    if waits_for event_id r
    then elim r.waitlist_sequence [ none ↦ rest | some n ↦ max n rest ]
    else rest

unfoldable pub next_waitlist_sequence : ℕ → Database → ℕ
unfolding highest_sequence
next_waitlist_sequence event_id db = suc (highest_sequence event_id db.registrations)

pub record RegistrationContext : Type 0 where
  pub registration : Registration
  pub event_status : EventStatus
  -- `none` where the event has no start, which the code's cast does not allow for
  pub event_start_at : Option ℕ

abbrev pub has_id : ℕ → Registration → Bool
has_id id r = r.id == id

join_event : Registration → Option Event → Option RegistrationContext
join_event r none = none
join_event r (some e) =
    some (record { registration = r; event_status = e.status; event_start_at = e.start_at })

join_registration : Option Registration → List Event → Option RegistrationContext
join_registration none events = none
join_registration (some r) events = join_event r (get events r.event_id)

unfoldable pub get_context : ℕ → Database → Option RegistrationContext
unfolding join_registration join_event get
get_context registration_id db =
    join_registration (find? (has_id registration_id) db.registrations) db.events

unfoldable pub get_transition : ℕ → Database → Option RegistrationTransition
get_transition command_id db = find? (λ t. t.command_id == command_id) db.transitions

-- the row that UPDATE writes; a trigger sets updated_at
unfoldable pub mutated : RegistrationMutation → ℕ → Registration → Registration
mutated m clock r = record r {
  state = m.state;
  seat_held = m.seat_held;
  waitlist_sequence = m.waitlist_sequence;
  cash_expires_at = m.cash_expires_at;
  confirmed_at = m.confirmed_at;
  cancelled_at = m.cancelled_at;
  expired_at = m.expired_at;
  cancellation_reason = m.cancellation_reason;
  updated_at = clock;
}

abbrev pub replace_row : ℕ → Registration → List Registration → List Registration
replace_row id new rs = replace_first (has_id id) new rs

-- Whether another row than the one that is written stands in the way of a row.
abbrev pub clashes_with_other : Registration → Registration → Bool
clashes_with_other new r = not (has_id new.id r) && clashes new r
