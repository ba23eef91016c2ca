-- ===== src/Clubs.antt =====
-- Clubs and their members: apps/api/src/talaqi/clubs/models.py and clubs/membership_models.py, and
-- the tables that the memberships work on, with the unique indexes of
-- database/migrations/assets/0001_closed_beta_baseline.sql. A club keeps the fields that the
-- services read or write; the names and addresses that the lists of members join are left out.
pub mod Repository
pub mod AuditEvents
pub mod Service
pub mod Requests
pub mod Steps
pub mod Ownership
pub mod Shut
pub mod Joining
mod Examples
use community_platform.Base.{ℕ, Option, List, String, Bool, Result, Action}
use community_platform.Errors.{Error}
use community_platform.Audit.{AuditEvent}
use community_platform.Outbox.{OutboxEvent}
use community_platform.Authorization.{ClubStatus, ClubRole, UserStatus, AuthPrincipal}

pub data ClubMembershipPolicy : Type 0 where
  open_to_all approval_required : ClubMembershipPolicy

pub record Club : Type 0 where
  pub id : ℕ
  pub owner_user_id : ℕ
  pub membership_policy : ClubMembershipPolicy
  pub revision : ℕ
  pub status : ClubStatus
  pub closed_at : Option ℕ

pub record Membership : Type 0 where
  pub id : ℕ
  pub club_id : ℕ
  pub user_id : ℕ
  pub role : ClubRole
  pub joined_at : ℕ

pub data JoinRequestStatus : Type 0 where
  pending approved rejected cancelled : JoinRequestStatus

pub record JoinRequest : Type 0 where
  pub id : ℕ
  pub club_id : ℕ
  pub user_id : ℕ
  pub status : JoinRequestStatus
  pub message : Option String
  pub decided_by_user_id : Option ℕ
  pub decision_reason : Option String
  pub decided_at : Option ℕ
  pub created_at : ℕ

-- The state of a result, with what it has in that state.
pub data JoinResult : Type 0 where
  member : Membership → JoinResult
  pending : JoinRequest → JoinResult

-- a row of talaqi.users, as far as `transfer_candidate` reads it
pub record User : Type 0 where
  pub id : ℕ
  pub status : UserStatus
  pub email_verified : Bool
  pub is_platform_admin : Bool

pub record Tables : Type 0 where
  pub clubs : List Club
  pub memberships : List Membership
  pub join_requests : List JoinRequest
  pub users : List User
  pub outbox : List OutboxEvent
  pub audit : List AuditEvent
  -- what clock_timestamp() and datetime.now() read during the call
  pub clock : ℕ
  -- how many identifiers have been generated
  pub generated : ℕ

abbrev pub Transaction : Type 0 → Type 0
Transaction = Action Error Tables

-- What is not of the clubs: the identifiers that are drawn, and the capability `create_club` that
-- the eligibility service finds a principal to have.
pub record Services : Type 0 where
  pub new_id : ℕ → ℕ
  pub evaluate : AuthPrincipal → Result Error Bool
