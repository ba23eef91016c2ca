-- ===== src/Authorization.antt =====
-- Who may do what: apps/api/src/talaqi/security/authorization.py, with AuthPrincipal of
-- identity/models.py and the states and roles of clubs/models.py. Of a principal, a club and a
-- membership the fields that the checks read are kept; the second branch of an event's ownership is
-- the club's, the only other value that the database has.
pub mod Rules
mod Examples
use community_platform.Base.{
  ℕ, Bool, true, false, ◌&&◌, ◌||◌, not, Option, none, some, ◌==◌, is_none, holds, if◌then◌else◌,
  Result, ok, err,
}
use community_platform.Errors.{Error, forbidden, admin_mfa_required}
use community_platform.Events.{EventOwnershipType, EventStatus, Event}

pub data UserStatus : Type 0 where
  active suspended deleted : UserStatus

pub record AuthPrincipal : Type 0 where
  pub user_id : ℕ
  pub email_verified : Bool
  pub status : UserStatus
  pub is_platform_admin : Bool

pub data ClubStatus : Type 0 where
  draft published unpublished suspended closed : ClubStatus

pub data ClubRole : Type 0 where
  owner admin member : ClubRole

pub record Club : Type 0 where
  pub id : ℕ
  pub owner_user_id : ℕ
  pub status : ClubStatus

pub record Membership : Type 0 where
  pub club_id : ℕ
  pub user_id : ℕ
  pub role : ClubRole

unfoldable pub is_active_user : UserStatus → Bool
is_active_user UserStatus.active = true
is_active_user UserStatus.suspended = false
is_active_user UserStatus.deleted = false

-- club.status in ("suspended", "closed")
unfoldable pub is_shut : ClubStatus → Bool
is_shut ClubStatus.draft = false
is_shut ClubStatus.published = false
is_shut ClubStatus.unpublished = false
is_shut ClubStatus.suspended = true
is_shut ClubStatus.closed = true

-- membership.role in ("owner", "admin")
unfoldable pub is_managing : ClubRole → Bool
is_managing owner = true
is_managing admin = true
is_managing member = false

unfoldable pub is_suspended : EventStatus → Bool
is_suspended EventStatus.draft = false
is_suspended EventStatus.published = false
is_suspended EventStatus.cancelled = false
is_suspended EventStatus.completed = false
is_suspended EventStatus.suspended = true

-- `_is_club_manager`
unfoldable pub is_club_manager : AuthPrincipal → Club → Option Membership → Bool
unfolding is_managing
is_club_manager p c membership =
    p.user_id == c.owner_user_id
    || holds (λ m. m.club_id == c.id && m.user_id == p.user_id && is_managing m.role) membership

-- `can_edit_club` and `can_manage_members`, after `_check_active`
unfoldable pub may_manage_club : AuthPrincipal → Club → Option Membership → Result Error Unit
unfolding is_shut is_club_manager
may_manage_club p c membership =
    if is_shut c.status
    then err forbidden
    else if is_club_manager p c membership
    then ok tt
    else err forbidden

-- `can_edit_club`
unfoldable pub can_edit_club : AuthPrincipal → Club → Option Membership → Result Error Unit
unfolding is_active_user may_manage_club
can_edit_club p c membership =
    if not (is_active_user p.status) then err forbidden else may_manage_club p c membership

-- the part of `can_manage_event` for an event of a club
unfoldable pub may_manage_for_club :
    AuthPrincipal → Event → Option Club → Option Membership → Result Error Unit
unfolding may_manage_club
may_manage_for_club p e none membership = err forbidden
may_manage_for_club p e (some c) membership =
    if not (is_none e.owner_user_id)
    then err forbidden
    else if not (holds (λ k. k == c.id) e.club_id)
    then err forbidden
    else may_manage_club p c membership

unfoldable pub may_manage_owned :
    EventOwnershipType → AuthPrincipal → Event → Option Club → Option Membership → Result Error Unit
unfolding may_manage_for_club
may_manage_owned EventOwnershipType.independent p e c membership =
    if not (is_none e.club_id) || not (holds (λ u. p.user_id == u) e.owner_user_id)
    then err forbidden
    else ok tt
may_manage_owned EventOwnershipType.club p e c membership = may_manage_for_club p e c membership

-- `can_manage_event`
unfoldable pub can_manage_event :
    AuthPrincipal → Event → Option Club → Option Membership → Result Error Unit
unfolding is_active_user is_suspended may_manage_owned
can_manage_event p e c membership =
    if not (is_active_user p.status)
    then err forbidden
    else if is_suspended e.status
    then err forbidden
    else may_manage_owned e.ownership_type p e c membership

-- `can_access_admin`
unfoldable pub can_access_admin : AuthPrincipal → Result Error Unit
unfolding is_active_user
can_access_admin p =
    if not (is_active_user p.status)
    then err forbidden
    else if p.is_platform_admin
    then ok tt
    else err forbidden

-- `can_perform_admin_action`
unfoldable pub can_perform_admin_action : AuthPrincipal → Bool → Result Error Unit
unfolding is_active_user
can_perform_admin_action p has_active_mfa =
    if not (is_active_user p.status)
    then err forbidden
    else if not p.is_platform_admin
    then err forbidden
    else if has_active_mfa
    then ok tt
    else err admin_mfa_required

-- `can_manage_members`
unfoldable pub can_manage_members : AuthPrincipal → Club → Option Membership → Result Error Unit
unfolding is_active_user may_manage_club
can_manage_members p c membership =
    if not (is_active_user p.status) then err forbidden else may_manage_club p c membership

-- `can_confirm_cash`
unfoldable pub can_confirm_cash :
    AuthPrincipal → Event → Option Club → Option Membership → Result Error Unit
unfolding can_manage_event
can_confirm_cash p e c membership = can_manage_event p e c membership

-- `can_moderate`
unfoldable pub can_moderate : AuthPrincipal → Bool → Result Error Unit
unfolding can_perform_admin_action
can_moderate p has_active_mfa = can_perform_admin_action p has_active_mfa
