-- ===== src/Clubs/Service.antt =====
-- `MembershipService`: apps/api/src/talaqi/clubs/membership_service.py. The argument `now` is the time
-- that the caller gives or the clock reads.
use community_platform.Clubs.AuditEvents.{
  role_text, club_status_text, joined_event, requested_event, withdrawn_event, left_event,
  decided_event, role_event, transferred_event, closed_event,
}
use community_platform.Base.{
  ℕ, Bool, true, false, ◌&&◌, ◌||◌, not, Option, none, some, String, leb, ◌==◌, is_none, is_empty,
  strip, length_of, if◌then◌else◌, Result, ok, err, pure, lift, gets, raise_if, or_raise, continue,
  ◌>>=◌, ◌>>◌,
}
use community_platform.Errors.{
  Error, conflict, forbidden, not_found, invalid_reason, sole_owner_exit,
  email_verification_required, ownership_transfer_ineligible,
}
use community_platform.Identifiers.{validate_uuid7}
use community_platform.Authorization
use community_platform.Authorization.{
  ClubStatus, ClubRole, AuthPrincipal, is_active_user, is_shut, can_manage_members,
}
use community_platform.Clubs.{
  ClubMembershipPolicy, open_to_all, approval_required, Club, Membership, JoinRequestStatus,
  JoinRequest, JoinResult, Transaction, Services,
}
use community_platform.Clubs.Repository.{
  record_audit, lock_club, transfer_candidate, get_membership, is_owner, is_pending, role_code,
  add_member, create_or_get_pending_request, cancel_pending_request, remove_membership,
  get_join_request, Decision, decide_request,
}
use community_platform.Clubs.Repository.Roles.{set_role, transfer_ownership, close_club}

-- `_reason`
unfoldable pub normalized_reason : String → Result Error String
unfolding strip length_of
normalized_reason value =
    if leb 3 (length_of (strip value)) && leb (length_of (strip value)) 500
    then ok (strip value)
    else err invalid_reason

-- `_require_active`
unfoldable pub require_active : AuthPrincipal → Result Error Unit
unfolding is_active_user
require_active p = if is_active_user p.status then ok tt else err forbidden

-- `_require_active_verified`
unfoldable pub require_active_verified : AuthPrincipal → Result Error Unit
unfolding is_active_user
require_active_verified p =
    if not (is_active_user p.status)
    then err forbidden
    else if p.email_verified
    then ok tt
    else err email_verification_required

-- `_require_owner`
unfoldable pub require_owner : AuthPrincipal → Club → Result Error Unit
unfolding is_active_user is_shut
require_owner p c =
    if not (is_active_user p.status)
    then err forbidden
    else if is_shut c.status || not (c.owner_user_id == p.user_id)
    then err forbidden
    else ok tt

-- `_club`
unfoldable pub club_of : ℕ → Transaction Club
unfolding lock_club validate_uuid7
club_of club_id = do
  raise_if (not (validate_uuid7 club_id)) not_found
  found ← gets (lock_club club_id)
  or_raise found not_found

-- `_request`
unfoldable pub request_of : ℕ → ℕ → Transaction JoinRequest
unfolding get_join_request validate_uuid7
request_of club_id request_id = do
  raise_if (not (validate_uuid7 request_id)) not_found
  found ← gets (get_join_request club_id request_id)
  or_raise found not_found

-- What the checks of Authorization read of a club and of a membership.
abbrev pub as_club : Club → Authorization.Club
as_club c = record { id = c.id; owner_user_id = c.owner_user_id; status = c.status }

abbrev pub as_membership : Option Membership → Option Authorization.Membership
as_membership none = none
as_membership (some m) = some (record { club_id = m.club_id; user_id = m.user_id; role = m.role })

-- message.strip() or None
unfoldable pub normalized_message : Option String → Option String
unfolding strip is_empty
normalized_message none = none
normalized_message (some s) = if is_empty (strip s) then none else some (strip s)

unfoldable pub join_open : Services → AuthPrincipal → Club → ℕ → Transaction JoinResult
unfolding add_member record_audit
join_open env p club request_id = do
  membership ← add_member env club.id p.user_id
  record_audit env (joined_event p club request_id)
  pure (JoinResult.member membership)

unfoldable pub audit_request :
    Services → AuthPrincipal → Club → ℕ → JoinRequest → Bool → Transaction Unit
unfolding record_audit
audit_request env p club request_id r true = record_audit env (requested_event p club r request_id)
audit_request env p club request_id r false = pure tt

unfoldable pub join_by_approval :
    Services → AuthPrincipal → Club → Option String → ℕ → Transaction JoinResult
unfolding create_or_get_pending_request audit_request
join_by_approval env p club message request_id = do
  (r, created) ← create_or_get_pending_request env club.id p.user_id message
  audit_request env p club request_id r created
  pure (JoinResult.pending r)

unfoldable pub join_as_policy :
    ClubMembershipPolicy
    → Services
    → AuthPrincipal
    → Club
    → Option String
    → ℕ
    → Transaction JoinResult
unfolding join_open join_by_approval normalized_message
join_as_policy open_to_all env p club message request_id = join_open env p club request_id
join_as_policy approval_required env p club message request_id =
    join_by_approval env p club (normalized_message message) request_id

unfoldable pub is_published : ClubStatus → Bool
is_published ClubStatus.published = true
is_published _ = false

unfoldable pub join_club :
    Services → AuthPrincipal → Club → Option String → ℕ → Option Membership → Transaction JoinResult
unfolding join_as_policy
join_club env p club message request_id (some m) = pure (JoinResult.member m)
join_club env p club message request_id none =
    join_as_policy club.membership_policy env p club message request_id

-- `join`
unfoldable pub join : Services → AuthPrincipal → ℕ → Option String → ℕ → Transaction JoinResult
unfolding require_active_verified club_of is_published get_membership join_club
join env p club_id message request_id = do
  lift (require_active_verified p)
  club ← club_of club_id
  raise_if (not (is_published club.status)) forbidden
  existing ← gets (get_membership club.id p.user_id)
  join_club env p club message request_id existing

unfoldable pub leave_as : Services → AuthPrincipal → Club → ℕ → Option Membership → Transaction Unit
unfolding cancel_pending_request remove_membership record_audit role_text
leave_as env p club request_id none = do
  withdrawn ← cancel_pending_request club.id p.user_id
  raise_if (not withdrawn) not_found
  record_audit env (withdrawn_event p club request_id)
leave_as env p club request_id (some m) = do
  raise_if (is_owner m.role || club.owner_user_id == p.user_id) sole_owner_exit
  remove_membership env m.id
  record_audit env (left_event p club m request_id)

-- `leave`
unfoldable pub leave : Services → AuthPrincipal → ℕ → ℕ → Transaction Unit
unfolding require_active club_of is_shut get_membership leave_as
leave env p club_id request_id = do
  lift (require_active p)
  club ← club_of club_id
  raise_if (is_shut club.status) forbidden
  membership ← gets (get_membership club.id p.user_id)
  leave_as env p club request_id membership

abbrev pub is_approved : JoinRequestStatus → Bool
is_approved JoinRequestStatus.approved = true
is_approved _ = false

abbrev pub is_rejected : JoinRequestStatus → Bool
is_rejected JoinRequestStatus.rejected = true
is_rejected _ = false

-- the decision on a request that is pending, and its audit event
unfoldable pub settle :
    Services → AuthPrincipal → Club → JoinRequest → Decision → String → ℕ → ℕ → Transaction Unit
unfolding decide_request record_audit
settle env p club r d reason request_id now = do
  decided ← decide_request env r.id d p.user_id reason now
  record_audit env (decided_event p club decided d reason request_id)

unfoldable pub approve_request :
    Services → AuthPrincipal → Club → JoinRequest → String → ℕ → ℕ → Transaction Unit
unfolding get_membership add_member settle
approve_request env p club r reason request_id now db =
    if is_approved r.status && not (is_none (get_membership club.id r.user_id db))
    then ok (tt, db)
    else if not (is_pending r.status)
    then err conflict
    else continue (add_member env club.id r.user_id db)
        (λ m. settle env p club r Decision.approve reason request_id now)

-- what a manager may see of a club: `_managed_club` and `can_manage_members`
unfoldable pub managed_club : AuthPrincipal → ℕ → Transaction Club
unfolding club_of get_membership can_manage_members
managed_club p club_id = do
  club ← club_of club_id
  membership ← gets (get_membership club.id p.user_id)
  lift (can_manage_members p (as_club club) (as_membership membership))
  pure club

-- `approve`
unfoldable pub approve : Services → AuthPrincipal → ℕ → ℕ → String → ℕ → ℕ → Transaction Unit
unfolding normalized_reason managed_club request_of approve_request
approve env p club_id join_request_id reason request_id now = do
  normalized ← lift (normalized_reason reason)
  club ← managed_club p club_id
  r ← request_of club.id join_request_id
  approve_request env p club r normalized request_id now

unfoldable pub reject_request :
    Services → AuthPrincipal → Club → JoinRequest → String → ℕ → ℕ → Transaction Unit
unfolding settle
reject_request env p club r reason request_id now db =
    if is_rejected r.status
    then ok (tt, db)
    else if not (is_pending r.status)
    then err conflict
    else settle env p club r Decision.reject reason request_id now db

-- `reject`
unfoldable pub reject : Services → AuthPrincipal → ℕ → ℕ → String → ℕ → ℕ → Transaction Unit
unfolding normalized_reason managed_club request_of reject_request
reject env p club_id join_request_id reason request_id now = do
  normalized ← lift (normalized_reason reason)
  club ← managed_club p club_id
  r ← request_of club.id join_request_id
  reject_request env p club r normalized request_id now

unfoldable pub change_role_of :
    Services → AuthPrincipal → Club → Membership → ClubRole → String → ℕ → Transaction Unit
unfolding set_role role_code record_audit role_text
change_role_of env p club target role reason request_id db =
    if is_owner target.role
    then err conflict
    else if role_code target.role == role_code role
    then ok (tt, db)
    else continue (set_role target.id role db)
        (λ changed. record_audit env (role_event p club target changed reason request_id))

-- `change_role`
unfoldable pub change_role :
    Services → AuthPrincipal → ℕ → ℕ → ClubRole → String → ℕ → Transaction Unit
unfolding normalized_reason club_of require_owner get_membership change_role_of
change_role env p club_id target_user_id role reason request_id = do
  normalized ← lift (normalized_reason reason)
  club ← club_of club_id
  lift (require_owner p club)
  found ← gets (get_membership club.id target_user_id)
  target ← or_raise found not_found
  change_role_of env p club target role normalized request_id

-- what the candidate's eligibility allows
unfoldable pub may_own : Services → Option AuthPrincipal → Result Error Unit
may_own env none = err ownership_transfer_ineligible
may_own env (some candidate) = elim (env.evaluate candidate) [
  | err e ↦ err e
  | ok allowed ↦ if allowed then ok tt else err ownership_transfer_ineligible
]

unfoldable pub hand_over :
    Services → AuthPrincipal → Club → Membership → Membership → String → ℕ → Transaction Unit
unfolding transfer_candidate may_own transfer_ownership record_audit
hand_over env p club current_owner target reason request_id = do
  raise_if (target.user_id == p.user_id) conflict
  candidate ← gets (transfer_candidate target.user_id)
  lift (may_own env candidate)
  transfer_ownership club current_owner target
  record_audit env (transferred_event p club target reason request_id)

-- `transfer`
unfoldable pub transfer : Services → AuthPrincipal → ℕ → ℕ → String → ℕ → Transaction Unit
unfolding normalized_reason club_of require_owner get_membership hand_over
transfer env p club_id target_user_id reason request_id = do
  normalized ← lift (normalized_reason reason)
  club ← club_of club_id
  lift (require_owner p club)
  current ← gets (get_membership club.id p.user_id)
  found ← gets (get_membership club.id target_user_id)
  current_owner ← or_raise current not_found
  raise_if (not (is_owner current_owner.role)) not_found
  target ← or_raise found not_found
  hand_over env p club current_owner target normalized request_id

-- `close`
unfoldable pub close : Services → AuthPrincipal → ℕ → String → ℕ → ℕ → Transaction Unit
unfolding normalized_reason club_of require_owner close_club record_audit club_status_text
close env p club_id reason request_id now = do
  normalized ← lift (normalized_reason reason)
  club ← club_of club_id
  lift (require_owner p club)
  close_club club.id now
  record_audit env (closed_event p club normalized request_id)
