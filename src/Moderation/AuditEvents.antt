-- ===== src/Moderation/AuditEvents.antt =====
-- The audit events of apps/api/src/talaqi/moderation/service.py.
use community_platform.Base.{ℕ, none, some, [], ◌∷◌, String}
use community_platform.Audit.{ActorKind, text, uuid, AuditEvent}
use community_platform.Events.{EventStatus}
use community_platform.Authorization.{ClubStatus, UserStatus, AuthPrincipal}
use community_platform.Moderation.{
  TargetType, user, club, event, CaseStatus, open_case, investigating, actioned, dismissed,
  Priority, standard, high, emergency, ModerationAction, suspend, unpublish, restore,
  CaseWorkflowAction, acknowledge, dismiss, ModerationCase, TargetStatus, of_user, of_club,
  of_event,
}

unfoldable pub type_text : TargetType → String
type_text user = "user"
type_text club = "club"
type_text event = "event"

unfoldable pub target_status_text : TargetStatus → String
target_status_text (of_user UserStatus.active) = "active"
target_status_text (of_user UserStatus.suspended) = "suspended"
target_status_text (of_user UserStatus.deleted) = "deleted"
target_status_text (of_club ClubStatus.draft) = "draft"
target_status_text (of_club ClubStatus.published) = "published"
target_status_text (of_club ClubStatus.unpublished) = "unpublished"
target_status_text (of_club ClubStatus.suspended) = "suspended"
target_status_text (of_club ClubStatus.closed) = "closed"
target_status_text (of_event EventStatus.draft) = "draft"
target_status_text (of_event EventStatus.published) = "published"
target_status_text (of_event EventStatus.cancelled) = "cancelled"
target_status_text (of_event EventStatus.completed) = "completed"
target_status_text (of_event EventStatus.suspended) = "suspended"

unfoldable pub case_status_text : CaseStatus → String
case_status_text open_case = "open"
case_status_text investigating = "investigating"
case_status_text actioned = "actioned"
case_status_text dismissed = "dismissed"

abbrev priority_text : Priority → String
priority_text standard = "standard"
priority_text high = "high"
priority_text emergency = "emergency"

-- the audit events, less their identifiers
abbrev pub reported_event :
    AuthPrincipal → TargetType → ℕ → ModerationCase → String → Priority → ℕ → ℕ → AuditEvent
reported_event p target_type target_id c category priority request_id id = record {
  id = id;
  actor_user_id = some p.user_id;
  actor_kind = ActorKind.member;
  action = "moderation.report.submitted";
  target_type = type_text target_type;
  target_id = some target_id;
  reason = none;
  safe_before = none;
  safe_after = some (
      ("case_id", uuid c.id)
      ∷ ("category", text category)
      ∷ ("priority", text (priority_text priority))
      ∷ []);
  request_id = some request_id;
}

abbrev action_name : ModerationAction → String
action_name suspend = "moderation.target.suspend"
action_name unpublish = "moderation.target.unpublish"
action_name restore = "moderation.target.restore"

abbrev pub acted_event :
    AuthPrincipal
    → ModerationCase
    → TargetStatus
    → TargetStatus
    → ModerationAction
    → String
    → ℕ
    → ℕ
    → AuditEvent
acted_event p c before after action reason request_id id = record {
  id = id;
  actor_user_id = some p.user_id;
  actor_kind = ActorKind.admin;
  action = action_name action;
  target_type = type_text c.target_type;
  target_id = some c.target_id;
  reason = some reason;
  safe_before = some (("status", text (target_status_text before)) ∷ []);
  safe_after = some (("status", text (target_status_text after)) ∷ ("case_id", uuid c.id) ∷ []);
  request_id = some request_id;
}

abbrev workflow_name : CaseWorkflowAction → String
workflow_name acknowledge = "moderation.case.acknowledge"
workflow_name dismiss = "moderation.case.dismiss"

abbrev pub worked_event :
    AuthPrincipal
    → ModerationCase
    → ModerationCase
    → CaseWorkflowAction
    → String
    → ℕ
    → ℕ
    → AuditEvent
worked_event p c updated action reason request_id id = record {
  id = id;
  actor_user_id = some p.user_id;
  actor_kind = ActorKind.admin;
  action = workflow_name action;
  target_type = "moderation_case";
  target_id = some c.id;
  reason = some reason;
  safe_before = some (("status", text (case_status_text c.status)) ∷ []);
  safe_after = some (
      ("status", text (case_status_text updated.status))
      ∷ ("assigned_admin_user_id", uuid p.user_id)
      ∷ []);
  request_id = some request_id;
}
