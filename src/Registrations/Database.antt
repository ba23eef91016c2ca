-- ===== src/Registrations/Database.antt =====
-- The tables that registration works on, and their constraints: the ones of
-- database/migrations/versions/0009_registration_state_machine.py and of the unique indexes. A row
-- that breaks one is refused with an IntegrityError.
use community_platform.Base.{
  ℕ, Bool, true, false, ◌&&◌, ◌||◌, not, Option, some, List, [], ◌∷◌, ◌++◌, any, ltb, leb, ◌==◌,
  is_some, is_none, holds, option_eq, if◌then◌else◌, Action, ok, err,
}
use community_platform.Errors.{Error, integrity_error, invalid_audit_event}
use community_platform.Audit.{AuditEvent, accepts}
use community_platform.Events.{RegistrationMethod, free, cash_organizer_confirmed, Event}
use community_platform.Outbox.{OutboxEvent, has_key}
use community_platform.Registrations.{
  RegistrationState, confirmed, cash_pending, waitlisted, cancelled, expired, state_eq,
  Registration, RegistrationTransition,
}

pub record Database : Type 0 where
  pub registrations : List Registration
  pub transitions : List RegistrationTransition
  pub outbox : List OutboxEvent
  pub audit : List AuditEvent
  pub events : List Event
  -- what clock_timestamp() reads during the call
  pub clock : ℕ
  -- how many identifiers have been generated
  pub generated : ℕ

abbrev pub Transaction : Type 0 → Type 0
Transaction = Action Error Database

abbrev pub is_cash : RegistrationMethod → Bool
is_cash free = false
is_cash cash_organizer_confirmed = true

-- NULL <= x is NULL, which a CHECK does not take for a failure, but both are tested for NULL there.
abbrev pub option_leb : Option ℕ → Option ℕ → Bool
option_leb (some a) (some b) = leb a b
option_leb _ _ = false

-- ck_registrations_seat_state
unfoldable pub seat_state_of : RegistrationState → Registration → Bool
seat_state_of confirmed r =
    r.seat_held
    && is_some r.confirmed_at
    && is_none r.waitlist_sequence
    && is_none r.cash_expires_at
    && is_none r.cancelled_at
    && is_none r.expired_at
seat_state_of cash_pending r =
    r.seat_held
    && is_cash r.method
    && is_some r.cash_expires_at
    && is_none r.waitlist_sequence
    && is_none r.confirmed_at
    && is_none r.cancelled_at
    && is_none r.expired_at
seat_state_of waitlisted r =
    not r.seat_held
    && is_some r.waitlist_sequence
    && is_none r.cash_expires_at
    && is_none r.confirmed_at
    && is_none r.cancelled_at
    && is_none r.expired_at
seat_state_of cancelled r =
    not r.seat_held
    && is_some r.cancelled_at
    && is_none r.waitlist_sequence
    && is_none r.cash_expires_at
    && is_none r.expired_at
seat_state_of expired r =
    not r.seat_held
    && is_cash r.method
    && is_some r.expired_at
    && is_some r.cash_expires_at
    && option_leb r.cash_expires_at r.expired_at
    && is_none r.waitlist_sequence
    && is_none r.confirmed_at
    && is_none r.cancelled_at

-- The CHECK constraints of a row: seat state, no deadline on a free registration
-- (ck_registrations_free_method), and a positive waitlist sequence.
unfoldable pub row_ok : Registration → Bool
unfolding seat_state_of
row_ok r =
    seat_state_of r.state r
    && (is_cash r.method || is_none r.cash_expires_at)
    && (is_none r.waitlist_sequence || holds (λ n. ltb 0 n) r.waitlist_sequence)

unfoldable pub is_active : RegistrationState → Bool
is_active confirmed = true
is_active cash_pending = true
is_active waitlisted = true
is_active _ = false

-- uq_registrations_active_member_event
unfoldable pub same_active : Registration → Registration → Bool
unfolding is_active
same_active r s =
    is_active r.state && is_active s.state && r.event_id == s.event_id && r.user_id == s.user_id

-- uq_registrations_waitlist_sequence
unfoldable pub same_place : Registration → Registration → Bool
same_place r s =
    state_eq r.state waitlisted
    && state_eq s.state waitlisted
    && r.event_id == s.event_id
    && option_eq r.waitlist_sequence s.waitlist_sequence

-- Whether a row may not stand beside another one: by a unique index or by the primary key.
unfoldable pub clashes : Registration → Registration → Bool
unfolding same_active same_place
clashes r s = r.id == s.id || same_active r s || same_place r s

unfoldable pub insert_registration : Registration → Transaction Registration
unfolding row_ok clashes
insert_registration r db =
    if row_ok r && not (any (clashes r) db.registrations)
    then ok (r, record db { registrations = db.registrations ++ r ∷ [] })
    else err integrity_error

-- uq_registration_transitions_command_id and ck_registration_transition_changed
unfoldable pub transition_ok : RegistrationTransition → List RegistrationTransition → Bool
transition_ok t ts =
    not (any (λ u. u.command_id == t.command_id || u.id == t.id) ts)
    && not (holds (λ s. state_eq s t.new_state) t.previous_state)

unfoldable pub insert_transition : RegistrationTransition → Transaction RegistrationTransition
unfolding transition_ok
insert_transition t db =
    if transition_ok t db.transitions
    then ok (t, record db { transitions = db.transitions ++ t ∷ [] })
    else err integrity_error

unfoldable pub insert_outbox : OutboxEvent → Transaction Unit
unfolding has_key
insert_outbox e db =
    if has_key e.deduplication_key db.outbox
    then err integrity_error
    else ok (tt, record db { outbox = db.outbox ++ e ∷ [] })

-- ON CONFLICT (deduplication_key) DO NOTHING
unfoldable pub insert_outbox_or_nothing : OutboxEvent → Transaction Unit
unfolding has_key
insert_outbox_or_nothing e db =
    if has_key e.deduplication_key db.outbox
    then ok (tt, db)
    else ok (tt, record db { outbox = db.outbox ++ e ∷ [] })

-- `AuditService.record`
unfoldable pub record_audit : AuditEvent → Transaction Unit
unfolding accepts
record_audit e db =
    if accepts e.actor_user_id e.actor_kind e.action e.target_type
    then ok (tt, record db { audit = db.audit ++ e ∷ [] })
    else err invalid_audit_event
