-- ===== src/Clubs/AuditEvents.antt =====
-- The audit events of apps/api/src/talaqi/clubs/membership_service.py.
use community_platform.Base.{ℕ, ◌+◌, Option, none, some, List, [], ◌∷◌, String}
use community_platform.Audit.{ActorKind, Scalar, text, uuid, number, AuditEvent}
use community_platform.Authorization.{ClubStatus, ClubRole, AuthPrincipal}
use community_platform.Clubs.{Club, Membership, JoinRequest}
use community_platform.Clubs.Repository.{Decision}

unfoldable pub role_text : ClubRole → String
role_text ClubRole.owner = "owner"
role_text ClubRole.admin = "admin"
role_text ClubRole.member = "member"

unfoldable pub club_status_text : ClubStatus → String
club_status_text ClubStatus.draft = "draft"
club_status_text ClubStatus.published = "published"
club_status_text ClubStatus.unpublished = "unpublished"
club_status_text ClubStatus.suspended = "suspended"
club_status_text ClubStatus.closed = "closed"

-- An audit event of a principal, less its identifier. A revision is kept as a number.
abbrev event :
    AuthPrincipal
    → ActorKind
    → String
    → String
    → ℕ
    → Option String
    → Option (List (String × Scalar))
    → Option (List (String × Scalar))
    → ℕ
    → ℕ
    → AuditEvent
event p kind action target_type target_id reason before after request_id id = record {
  id = id;
  actor_user_id = some p.user_id;
  actor_kind = kind;
  action = action;
  target_type = target_type;
  target_id = some target_id;
  reason = reason;
  safe_before = before;
  safe_after = after;
  request_id = some request_id;
}

abbrev pub joined_event : AuthPrincipal → Club → ℕ → ℕ → AuditEvent
joined_event p club =
    event p ActorKind.member "club.member.join" "club" club.id none none
      (some (("role", text "member") ∷ []))

abbrev pub requested_event : AuthPrincipal → Club → JoinRequest → ℕ → ℕ → AuditEvent
requested_event p club r =
    event p ActorKind.member "club.join_request.create" "club" club.id none none
      (some (("request_id", uuid r.id) ∷ ("status", text "pending") ∷ []))

abbrev pub withdrawn_event : AuthPrincipal → Club → ℕ → ℕ → AuditEvent
withdrawn_event p club =
    event p ActorKind.member "club.join_request.cancel" "club" club.id none
      (some (("status", text "pending") ∷ [])) none

abbrev pub left_event : AuthPrincipal → Club → Membership → ℕ → ℕ → AuditEvent
left_event p club m =
    event p ActorKind.member "club.member.leave" "club" club.id none
      (some (("role", text (role_text m.role)) ∷ [])) none

abbrev decision_action : Decision → String
decision_action Decision.approve = "club.join_request.approve"
decision_action Decision.reject = "club.join_request.reject"

abbrev decision_text : Decision → String
decision_text Decision.approve = "approved"
decision_text Decision.reject = "rejected"

abbrev pub decided_event :
    AuthPrincipal → Club → JoinRequest → Decision → String → ℕ → ℕ → AuditEvent
decided_event p club r d reason =
    event p ActorKind.organizer (decision_action d) "club_join_request" r.id (some reason)
      (some (("status", text "pending") ∷ []))
      (some (("status", text (decision_text d)) ∷ ("club_id", uuid club.id) ∷ []))

abbrev pub role_event : AuthPrincipal → Club → Membership → Membership → String → ℕ → ℕ → AuditEvent
role_event p club target changed reason =
    event p ActorKind.organizer "club.member.role_change" "club_membership" changed.id (some reason)
      (some (("role", text (role_text target.role)) ∷ ("club_id", uuid club.id) ∷ []))
      (some (("role", text (role_text changed.role)) ∷ ("club_id", uuid club.id) ∷ []))

abbrev pub transferred_event : AuthPrincipal → Club → Membership → String → ℕ → ℕ → AuditEvent
transferred_event p club target reason =
    event p ActorKind.organizer "club.ownership.transfer" "club" club.id (some reason)
      (some (("owner_user_id", uuid p.user_id) ∷ []))
      (some (("owner_user_id", uuid target.user_id) ∷ []))

-- the UPDATE of the club adds one to its revision
abbrev pub closed_event : AuthPrincipal → Club → String → ℕ → ℕ → AuditEvent
closed_event p club reason =
    event p ActorKind.organizer "club.close" "club" club.id (some reason)
      (some
        (("status", text (club_status_text club.status)) ∷ ("revision", number club.revision) ∷ []))
      (some (("status", text "closed") ∷ ("revision", number (club.revision + 1)) ∷ []))
