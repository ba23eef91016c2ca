-- ===== src/Moderation/Repository.antt =====
-- `ModerationRepository`: apps/api/src/talaqi/moderation/repository.py, a function for each statement.
-- A query by identifier takes the first row: the primary keys let a table have no second. The CHECK
-- constraints on a report repeat the guards of `submit_report`. Row locks are not modelled: a
-- transaction runs alone.
pub mod Cases
pub mod Targets
use community_platform.Base.{
  ℕ, suc, Bool, ◌&&◌, Option, none, some, [], ◌∷◌, ◌++◌, String, any, find?, ◌==◌, is_some, is_none,
  if◌then◌else◌, ok, err, gets, or_raise, ◌>>=◌, ◌>>◌,
}
use community_platform.Errors.{integrity_error, row_lost}
use community_platform.Audit.{AuditEvent, record_event}
use community_platform.Outbox.Enqueue.{NewEvent, enqueue}
use community_platform.Moderation.{
  TargetType, user, club, event, open_case, Priority, ModerationCase, TargetStatus, of_user,
  of_club, of_event, ModerationTarget, ModerationCaseEvent, Tables, Transaction, Services,
}

-- a call of generate_uuid7
unfoldable pub new_uuid : Services → Transaction ℕ
new_uuid env db = ok (env.new_id db.generated, record db { generated = suc db.generated })

-- `TransactionalEventPublisher.publish`
unfoldable pub publish : Services → NewEvent → Transaction Unit
unfolding enqueue
publish env n db = elim (enqueue (env.new_id db.generated) db.clock n db.outbox) [
  | err e ↦ err e
  | ok (new, rows) ↦ ok (tt, record db { outbox = rows; generated = suc db.generated })
]

-- `AuditService.record`, under the identifier that it generates
unfoldable pub record_audit : Services → (ℕ → AuditEvent) → Transaction Unit
unfolding record_event
record_audit env e db = elim (record_event (e (env.new_id db.generated)) db.audit) [
  | err x ↦ err x
  | ok rows ↦ ok (tt, record db { audit = rows; generated = suc db.generated })
]

-- COALESCE with a time that is there
abbrev pub or_else : Option ℕ → ℕ → Option ℕ
or_else none now = some now
or_else (some t) now = some t

-- `has_active_mfa`
unfoldable pub has_active_mfa : ℕ → Tables → Bool
has_active_mfa user_id db =
    any (λ f. f.user_id == user_id && is_some f.verified_at && is_none f.disabled_at) db.factors

abbrev pub is_case : ℕ → ModerationCase → Bool
is_case id c = c.id == id

-- `get_case`
unfoldable pub get_case : ℕ → Tables → Option ModerationCase
get_case case_id db = find? (is_case case_id) db.cases

unfoldable pub insert_case : ModerationCase → Transaction Unit
insert_case c db =
    if any (is_case c.id) db.cases
    then err integrity_error
    else ok (tt, record db { cases = db.cases ++ c ∷ [] })

-- moderation_case_events is only inserted into
unfoldable pub insert_case_event : ModerationCaseEvent → Transaction Unit
insert_case_event e db =
    if any (λ x. x.id == e.id) db.case_events
    then err integrity_error
    else ok (tt, record db { case_events = db.case_events ++ e ∷ [] })

-- the row of a report, with the defaults of its table
abbrev pub reported_case : ℕ → ℕ → TargetType → ℕ → String → String → Priority → ℕ → ModerationCase
reported_case id reporter target_type target_id category description priority now = record {
  id = id;
  reporter_user_id = some reporter;
  target_type = target_type;
  target_id = target_id;
  category = category;
  description = description;
  status = open_case;
  priority = priority;
  assigned_admin_user_id = none;
  resolution_reason = none;
  acknowledged_at = none;
  resolved_at = none;
  created_at = now;
}

abbrev pub report_event : ℕ → ℕ → ℕ → ModerationCaseEvent
report_event id case_id now = record {
  id = id;
  moderation_case_id = case_id;
  actor_user_id = none;
  action = none;
  workflow_action = none;
  from_status = none;
  to_status = open_case;
  reason = "Report submitted";
  created_at = now;
}

-- `create_report`; the path that a report came from is kept in metadata that nothing reads
unfoldable pub create_report :
    Services → ℕ → TargetType → ℕ → String → String → Priority → ℕ → Transaction ModerationCase
unfolding new_uuid insert_case insert_case_event get_case
create_report env reporter target_type target_id category description priority now = do
  case_id ← new_uuid env
  insert_case
      (reported_case case_id reporter target_type target_id category description priority now)
  event_id ← new_uuid env
  insert_case_event (report_event event_id case_id now)
  found ← gets (get_case case_id)
  or_raise found row_lost

-- the status of the user, the club or the event that a target names
unfoldable pub status_of : TargetType → ℕ → Tables → Option TargetStatus
status_of user id db = elim (find? (λ u. u.id == id) db.users) [
  | none ↦ none
  | some u ↦ some (of_user u.status)
]
status_of club id db = elim (find? (λ c. c.id == id) db.clubs) [
  | none ↦ none
  | some c ↦ some (of_club c.status)
]
status_of event id db = elim (find? (λ e. e.id == id) db.events) [
  | none ↦ none
  | some e ↦ some (of_event e.status)
]

-- `get_target`
unfoldable pub get_target : TargetType → ℕ → Tables → Option ModerationTarget
unfolding status_of
get_target target_type id db = elim (status_of target_type id db) [
  | none ↦ none
  | some s ↦ some (record { id = id; status = s })
]
