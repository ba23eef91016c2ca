-- ===== src/Moderation.antt =====
-- Moderation: apps/api/src/talaqi/moderation/models.py, and the tables that the service works on. The
-- labels of a target, which are only shown, are left out; so is the time of a row's last update.
pub mod Deadlines
pub mod Repository
pub mod AuditEvents
pub mod Service
pub mod Requests
pub mod Effects
pub mod Calls
pub mod Targets
pub mod Lifecycle
pub mod Repeats
pub mod Acting
mod Examples
use community_platform.Base.{ℕ, Option, List, String, Result, Action}
use community_platform.Errors.{Error}
use community_platform.Audit.{AuditEvent}
use community_platform.Outbox.{OutboxEvent}
use community_platform.Events.{EventStatus}
use community_platform.Authorization.{ClubStatus, UserStatus}

pub data TargetType : Type 0 where
  user club event : TargetType

pub data CaseStatus : Type 0 where
  open_case investigating actioned dismissed : CaseStatus

pub data Priority : Type 0 where
  standard high emergency : Priority

pub data ModerationAction : Type 0 where
  suspend unpublish restore : ModerationAction

pub data CaseWorkflowAction : Type 0 where
  acknowledge dismiss : CaseWorkflowAction

pub record ModerationCase : Type 0 where
  pub id : ℕ
  pub reporter_user_id : Option ℕ
  pub target_type : TargetType
  pub target_id : ℕ
  pub category : String
  pub description : String
  pub status : CaseStatus
  pub priority : Priority
  pub assigned_admin_user_id : Option ℕ
  pub resolution_reason : Option String
  pub acknowledged_at : Option ℕ
  pub resolved_at : Option ℕ
  pub created_at : ℕ

-- The status of a target, which shows its type.
pub data TargetStatus : Type 0 where
  of_user : UserStatus → TargetStatus
  of_club : ClubStatus → TargetStatus
  of_event : EventStatus → TargetStatus

pub record ModerationTarget : Type 0 where
  pub id : ℕ
  pub status : TargetStatus

pub record ModerationCaseEvent : Type 0 where
  pub id : ℕ
  pub moderation_case_id : ℕ
  pub actor_user_id : Option ℕ
  pub action : Option ModerationAction
  pub workflow_action : Option CaseWorkflowAction
  pub from_status : Option CaseStatus
  pub to_status : CaseStatus
  pub reason : String
  pub created_at : ℕ

-- The rows of talaqi.users, clubs, events and event_invite_tokens, as far as an action writes them.
pub record UserRow : Type 0 where
  pub id : ℕ
  pub status : UserStatus
  pub suspended_at : Option ℕ
  pub suspension_reason : Option String

pub record ClubRow : Type 0 where
  pub id : ℕ
  pub status : ClubStatus
  pub suspended_at : Option ℕ
  pub suspension_reason : Option String
  pub published_at : Option ℕ

pub record EventRow : Type 0 where
  pub id : ℕ
  pub club_id : Option ℕ
  pub status : EventStatus
  pub suspended_at : Option ℕ
  pub suspension_reason : Option String
  pub published_at : Option ℕ

pub record InviteToken : Type 0 where
  pub id : ℕ
  pub event_id : ℕ
  pub revoked_at : Option ℕ

-- talaqi.user_mfa_factors
pub record MfaFactor : Type 0 where
  pub user_id : ℕ
  pub verified_at : Option ℕ
  pub disabled_at : Option ℕ

pub record Tables : Type 0 where
  pub cases : List ModerationCase
  pub case_events : List ModerationCaseEvent
  pub users : List UserRow
  pub clubs : List ClubRow
  pub events : List EventRow
  pub invites : List InviteToken
  pub factors : List MfaFactor
  pub outbox : List OutboxEvent
  pub audit : List AuditEvent
  -- what clock_timestamp() reads during the call
  pub clock : ℕ
  -- how many identifiers have been generated
  pub generated : ℕ

abbrev pub Transaction : Type 0 → Type 0
Transaction = Action Error Tables

-- What is not of the moderation: the identifiers that are drawn, and the service of the feature
-- flags, if there is one.
pub record Services : Type 0 where
  pub new_id : ℕ → ℕ
  pub require_enabled : Option (String → Result Error Unit)
