-- ===== src/Moderation/Examples.antt =====
-- A report of a user, which an administrator works on.
use community_platform.Base.{
  is_some, ℕ, ◌+◌, ◌*◌, ◌^◌, ◌≡◌, ◌≢◌, refl, true, none, some, List, [], ◌∷◌, Result, ok, err,
  arith,
}
use community_platform.Errors.{Error, outbox_deduplication_conflict}
use community_platform.Audit.{uuid}
use community_platform.Authorization.{UserStatus, AuthPrincipal}
use community_platform.Outbox.{OutboxEvent, key_eq, moderation_restore}
use community_platform.Outbox.Enqueue.{new_row}
use community_platform.Moderation.{
  TargetType, open_case, investigating, actioned, suspend, restore, dismiss, standard,
  ModerationCase, of_user, Tables, Services,
}
use community_platform.Moderation.Deadlines.{
  acknowledgement_deadline, Deadline, acknowledgement_deadline_lem, day,
}
use community_platform.Moderation.Repository.{get_case, status_of}
use community_platform.Moderation.Repository.Cases.{action_key}
use community_platform.Moderation.Service.{act, transition_case}
use community_platform.Moderation.Requests.{Request, acts, transitions, serve}
use community_platform.Moderation.Lifecycle.Shapes.{all_shaped, serve-all_shaped}
use community_platform.Moderation.Lifecycle.Rows.{Continues, serve-Continues}
use community_platform.Moderation.Acting.{act-restored, Acted, act-Acted}
use community_platform.Moderation.Repeats.{announced, act-repeated}
use community_platform.Moderation.Service.{capabilities, allows}
use community_platform.Moderation.Repository.Targets.{apply_target_action}
use community_platform.Moderation.Targets.Agreement.{IsKeyed, capabilities-apply_target_action}

abbrev uuid_at : ℕ → ℕ
uuid_at k = k * 2 ^ 80 + 7 * 2 ^ 76 + 2 * 2 ^ 62

abbrev services : Services
services = record { new_id = λ k. uuid_at (1000 + k); require_enabled = some (λ name. ok tt) }

abbrev admin : AuthPrincipal
admin = record {
  user_id = 9;
  email_verified = true;
  status = UserStatus.active;
  is_platform_admin = true;
}

-- Day 5 is a Saturday, as 0001-01-01 was a Monday.
abbrev spam : ModerationCase
spam = record {
  id = uuid_at 1;
  reporter_user_id = some 4;
  target_type = TargetType.user;
  target_id = 5;
  category = "spam";
  description = "sends adverts to everybody";
  status = open_case;
  priority = standard;
  assigned_admin_user_id = none;
  resolution_reason = none;
  acknowledged_at = none;
  resolved_at = none;
  created_at = 5 * day;
}

abbrev tables : Tables
tables = record {
  cases = spam ∷ [];
  case_events = [];
  users =
      record { id = 5; status = UserStatus.active; suspended_at = none; suspension_reason = none }
      ∷ [];
  clubs = [];
  events = [];
  invites = [];
  factors = record { user_id = 9; verified_at = some 3; disabled_at = none } ∷ [];
  outbox = [];
  audit = [];
  clock = 6 * day;
  generated = 0;
}

acknowledgement_deadline_lem_example :
    (d : ℕ) × (acknowledgement_deadline spam ≡ ok d) × Deadline spam.created_at d spam.priority
acknowledgement_deadline_lem_example = acknowledgement_deadline_lem spam (ground arith)

-- The user is suspended for the spam and restored, then suspended for another report.
abbrev fraud : ModerationCase
fraud = record spam {
  id = uuid_at 2;
  category = "fraud";
  description = "sells what does not exist";
  status = investigating;
  assigned_admin_user_id = some 9;
  acknowledged_at = some (6 * day);
}

abbrev two_cases : Tables
two_cases = record tables { cases = spam ∷ fraud ∷ [] }

abbrev script : List Request
script =
    acts admin (uuid_at 1) suspend "adverts again" 71 (7 * day)
    ∷ acts admin (uuid_at 1) restore "has apologised" 72 (8 * day)
    ∷ acts admin (uuid_at 2) suspend "has sold nothing" 73 (9 * day)
    ∷ transitions admin (uuid_at 2) dismiss "too late" 74 (9 * day)
    ∷ []

spam_found : get_case (uuid_at 1) two_cases ≡ some spam
unfolding get_case
spam_found = refl

serve-Continues_example :
    (y : ModerationCase) × (get_case spam.id (serve services script two_cases) ≡ some y)
    × Continues spam y
serve-Continues_example = serve-Continues services script spam two_cases spam_found

two_cases_shaped : all_shaped two_cases.cases ≡ true
unfolding all_shaped
two_cases_shaped = refl

serve-all_shaped_example : all_shaped (serve services script two_cases).cases ≡ true
serve-all_shaped_example = serve-all_shaped services script two_cases two_cases_shaped

abbrev answer_of : Result Error (ModerationCase × Tables) → ModerationCase
answer_of (ok (c, db)) = c
answer_of (err e) = spam

abbrev tables_of : Result Error (ModerationCase × Tables) → Tables
tables_of (ok (c, db)) = db
tables_of (err e) = tables

abbrev suspension : Result Error (ModerationCase × Tables)
suspension = act services admin (uuid_at 1) suspend "adverts again" 71 (7 * day) tables

suspension_runs : suspension ≡ ok (answer_of suspension, tables_of suspension)
unfolding act
suspension_runs = refl

user_suspended :
    status_of TargetType.user 5 (tables_of suspension) ≡ some (of_user UserStatus.suspended)
unfolding act status_of
user_suspended = refl

act-Acted_example :
    Acted admin (uuid_at 1) suspend (7 * day) (answer_of suspension) tables (tables_of suspension)
act-Acted_example =
    act-Acted services admin (uuid_at 1) suspend "adverts again" 71 (7 * day) (answer_of suspension)
      tables (tables_of suspension) suspension_runs

abbrev later : Tables
later = serve services script two_cases

abbrev spam_later : ModerationCase
spam_later = record spam {
  status = actioned;
  assigned_admin_user_id = some 9;
  resolution_reason = some "has apologised";
  acknowledged_at = some (7 * day);
  resolved_at = some (8 * day);
}

spam_later_found : get_case (uuid_at 1) later ≡ some spam_later
unfolding get_case serve act transition_case
spam_later_found = refl

-- the user is suspended again, and the case of the spam would allow to restore
user_later : status_of TargetType.user 5 later ≡ some (of_user UserStatus.suspended)
unfolding status_of serve act transition_case
user_later = refl

abbrev restored_message : OutboxEvent
restored_message = new_row (uuid_at 1004) (6 * day) (record {
  aggregate_type = "moderation_case";
  aggregate_id = uuid_at 1;
  event_type = "moderation.action_taken";
  payload = ("recipient_user_id", uuid 5) ∷ ("case_id", uuid (uuid_at 1)) ∷ [];
  deduplication_key = moderation_restore (uuid_at 1);
  available_at = 8 * day;
})

message_found : announced restore spam_later later.outbox ≡ some restored_message
unfolding serve act transition_case new_row key_eq action_key
message_found = refl

other_time : restored_message.available_at ≢ 10 * day
unfolding new_row
other_time h = ground arith

act-repeated_example :
    act services admin (uuid_at 1) restore "sold it at last" 75 (10 * day) later
    ≢ ok (spam_later, later)
act-repeated_example =
    act-repeated services admin (uuid_at 1) restore "sold it at last" 75 (10 * day) spam_later
      restored_message spam_later later later spam_later_found refl message_found other_time

repeated_refused :
    act services admin (uuid_at 1) restore "sold it at last" 75 (10 * day) later
    ≡ err outbox_deduplication_conflict
unfolding serve act transition_case
repeated_refused = refl

user_read : status_of TargetType.user 5 tables ≡ some (of_user UserStatus.active)
unfolding status_of
user_read = refl

tables-IsKeyed : IsKeyed tables
tables-IsKeyed = record { users = (refl, tt); clubs = tt; events = tt }

capabilities-apply_target_action_example :
    allows (capabilities (of_user UserStatus.active)) suspend
    ≡ is_some (apply_target_action TargetType.user 5 suspend "adverts again" (7 * day) tables).0
capabilities-apply_target_action_example =
    capabilities-apply_target_action TargetType.user 5 suspend "adverts again" (7 * day)
      (of_user UserStatus.active) tables tables-IsKeyed user_read

abbrev restoration : Result Error (ModerationCase × Tables)
restoration =
    act services admin (uuid_at 1) restore "has apologised" 72 (8 * day) (tables_of suspension)

restoration_runs : restoration ≡ ok (answer_of restoration, tables_of restoration)
unfolding act
restoration_runs = refl

spam_there : get_case (uuid_at 1) tables ≡ some spam
unfolding get_case
spam_there = refl

act-restored_example :
    status_of TargetType.user 5 (tables_of restoration) ≡ status_of TargetType.user 5 tables
act-restored_example =
    act-restored services admin admin (uuid_at 1) suspend "adverts again" "has apologised" 71 72
      (7 * day) (8 * day) spam (answer_of suspension) (answer_of restoration) tables
      (tables_of suspension) (tables_of restoration) refl spam_there suspension_runs
      restoration_runs
