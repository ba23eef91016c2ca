-- ===== src/Clubs/Repository.antt =====
-- `MembershipRepository`: apps/api/src/talaqi/clubs/membership_repository.py, a function for each
-- statement, and `get` of ClubRepository. A query of one row takes the first one: the unique indexes
-- let the table have no second. Row locks are not modelled: a transaction runs alone.
pub mod Roles
use community_platform.Base.{
  ℕ, suc, ◌+◌, Bool, true, false, ◌&&◌, ◌||◌, Option, none, some, List, [], ◌∷◌, ◌++◌, String, any,
  find?, update_where, remove_where, select, ltb, ◌==◌, holds, length_of, if◌then◌else◌, ok, err,
  pure, raise, gets, or_raise, modify, ◌>>=◌, ◌>>◌,
}
use community_platform.Errors.{conflict, integrity_error, row_lost}
use community_platform.Audit.{uuid, AuditEvent, record_event}
use community_platform.Outbox.{
  membership_requested, membership_approved, membership_rejected, membership_removed,
  DeduplicationKey,
}
use community_platform.Outbox.Enqueue.{NewEvent, enqueue}
use community_platform.Authorization.{ClubRole, AuthPrincipal, is_managing}
use community_platform.Clubs.{
  Club, Membership, JoinRequestStatus, pending, approved, rejected, cancelled, JoinRequest, Tables,
  Transaction, Services,
}

-- a call of generate_uuid7, or the default of an id column
unfoldable pub new_uuid : Services → Transaction ℕ
new_uuid env db = ok (env.new_id db.generated, record db { generated = suc db.generated })

-- `TransactionalEventPublisher.publish`
unfoldable pub publish : Services → NewEvent → Transaction Unit
unfolding enqueue
publish env n db = elim (enqueue (env.new_id db.generated) db.clock n db.outbox) [
  | err e ↦ err e
  | ok (new, rows) ↦ ok (tt, record db { outbox = rows; generated = suc db.generated })
]

-- `AuditService.record`, under the identifier that it generates
unfoldable pub record_audit : Services → (ℕ → AuditEvent) → Transaction Unit
unfolding record_event
record_audit env e db = elim (record_event (e (env.new_id db.generated)) db.audit) [
  | err x ↦ err x
  | ok rows ↦ ok (tt, record db { audit = rows; generated = suc db.generated })
]

-- `lock_club`
unfoldable pub lock_club : ℕ → Tables → Option Club
lock_club club_id db = find? (λ c. c.id == club_id) db.clubs

-- `transfer_candidate`, less the session that it makes up
unfoldable pub transfer_candidate : ℕ → Tables → Option AuthPrincipal
transfer_candidate user_id db = elim (find? (λ u. u.id == user_id) db.users) [
  | none ↦ none
  | some u ↦ some (record {
    user_id = u.id;
    email_verified = u.email_verified;
    status = u.status;
    is_platform_admin = u.is_platform_admin;
  })
]

abbrev pub is_member_of : ℕ → ℕ → Membership → Bool
is_member_of club_id user_id m = m.club_id == club_id && m.user_id == user_id

-- `get_membership`
unfoldable pub get_membership : ℕ → ℕ → Tables → Option Membership
get_membership club_id user_id db = find? (is_member_of club_id user_id) db.memberships

abbrev pub is_owner : ClubRole → Bool
is_owner ClubRole.owner = true
is_owner _ = false

unfoldable pub role_code : ClubRole → ℕ
role_code ClubRole.owner = 0
role_code ClubRole.admin = 1
role_code ClubRole.member = 2

abbrev pub is_pending : JoinRequestStatus → Bool
is_pending pending = true
is_pending _ = false

-- the INSERT of `add_member`, which does nothing if the user is a member
unfoldable pub insert_member : Services → ℕ → ℕ → Transaction Unit
unfolding new_uuid
insert_member env club_id user_id db =
    let id = env.new_id db.generated in
    if any (is_member_of club_id user_id) db.memberships
    then ok (tt, record db { generated = suc db.generated })
    else if any (λ m. m.id == id) db.memberships
    then err integrity_error
    else ok (
      tt,
      record db {
        memberships =
            db.memberships
            ++ record {
              id = id;
              club_id = club_id;
              user_id = user_id;
              role = ClubRole.member;
              joined_at = db.clock;
            }
              ∷ [];
        generated = suc db.generated;
      },
    )

-- `add_member`
unfoldable pub add_member : Services → ℕ → ℕ → Transaction Membership
unfolding insert_member get_membership
add_member env club_id user_id = do
  insert_member env club_id user_id
  found ← gets (get_membership club_id user_id)
  or_raise found row_lost

abbrev pub asks_for : ℕ → ℕ → JoinRequest → Bool
asks_for club_id user_id r = r.club_id == club_id && r.user_id == user_id && is_pending r.status

-- the INSERT of `create_or_get_pending_request`; the message has at most 500 characters by a CHECK
unfoldable pub insert_request : Services → ℕ → ℕ → Option String → Transaction JoinRequest
unfolding length_of
insert_request env club_id user_id message db =
    let id = env.new_id db.generated in
    let new : JoinRequest = record {
      id = id;
      club_id = club_id;
      user_id = user_id;
      status = pending;
      message = message;
      decided_by_user_id = none;
      decision_reason = none;
      decided_at = none;
      created_at = db.clock;
    } in
    if any (λ r. r.id == id) db.join_requests || holds (λ s. ltb 500 (length_of s)) message
    then err integrity_error
    else ok (
      new,
      record db { join_requests = db.join_requests ++ new ∷ []; generated = suc db.generated },
    )

-- a message about a membership or a request, to one user
unfoldable pub notice : ℕ → String → ℕ → ℕ → DeduplicationKey → ℕ → NewEvent
notice id event_type recipient club_id key available_at = record {
  aggregate_type = "membership";
  aggregate_id = id;
  event_type = event_type;
  payload =
      ("recipient_user_id", uuid recipient)
      ∷ ("club_id", uuid club_id)
      ∷ ("membership_id", uuid id)
      ∷ [];
  deduplication_key = key;
  available_at = available_at;
}

-- the loop over the organizers of a club
unfoldable pub notify_organizers : Services → JoinRequest → List Membership → Transaction Unit
unfolding notice publish
notify_organizers env r [] = pure tt
notify_organizers env r (m ∷ ms) = do
  publish env (
      notice r.id "membership.requested" m.user_id r.club_id (membership_requested r.id m.user_id)
        r.created_at)
  notify_organizers env r ms

abbrev pub organizes : ℕ → Membership → Bool
organizes club_id m = m.club_id == club_id && is_managing m.role

unfoldable pub request_for :
    Services → ℕ → ℕ → Option String → Option JoinRequest → Transaction (JoinRequest × Bool)
unfolding insert_request notify_organizers is_managing
request_for env club_id user_id message (some r) = pure (r, false)
request_for env club_id user_id message none = do
  r ← insert_request env club_id user_id message
  organizers ← gets (λ db. select (organizes club_id) db.memberships)
  notify_organizers env r organizers
  pure (r, true)

-- `create_or_get_pending_request`, with whether the request is new
unfoldable pub create_or_get_pending_request :
    Services → ℕ → ℕ → Option String → Transaction (JoinRequest × Bool)
unfolding request_for
create_or_get_pending_request env club_id user_id message db =
    request_for env club_id user_id message (find? (asks_for club_id user_id) db.join_requests) db

-- `cancel_pending_request`
unfoldable pub cancel_pending_request : ℕ → ℕ → Transaction Bool
cancel_pending_request club_id user_id db = ok (
  any (asks_for club_id user_id) db.join_requests,
  record db {
    join_requests =
        update_where (asks_for club_id user_id) (λ r. record r { status = cancelled })
          db.join_requests;
  },
)

unfoldable pub remove_row : Services → ℕ → Option Membership → Transaction Unit
unfolding notice publish
remove_row env membership_id none = pure tt
remove_row env membership_id (some m) = do
  modify
      (λ db. record db { memberships = remove_where (λ x. x.id == membership_id) db.memberships })
  now ← gets (λ db. db.clock)
  publish env (
      notice membership_id "membership.removed" m.user_id m.club_id
        (membership_removed membership_id) now)

-- `remove_membership`
unfoldable pub remove_membership : Services → ℕ → Transaction Unit
unfolding remove_row
remove_membership env membership_id db =
    remove_row env membership_id (find? (λ m. m.id == membership_id) db.memberships) db

-- `get_join_request`
unfoldable pub get_join_request : ℕ → ℕ → Tables → Option JoinRequest
get_join_request club_id request_id db =
    find? (λ r. r.club_id == club_id && r.id == request_id) db.join_requests

-- what a manager makes of a request
pub data Decision : Type 0 where
  approve reject : Decision

unfoldable pub decided_status : Decision → JoinRequestStatus
decided_status Decision.approve = approved
decided_status Decision.reject = rejected

unfoldable pub decided_type : Decision → String
decided_type Decision.approve = "membership.approved"
decided_type Decision.reject = "membership.rejected"

unfoldable pub decided_key : Decision → ℕ → DeduplicationKey
decided_key Decision.approve id = membership_approved id
decided_key Decision.reject id = membership_rejected id

abbrev pub is_undecided : ℕ → JoinRequest → Bool
is_undecided request_id r = r.id == request_id && is_pending r.status

unfoldable pub decided_row : Decision → ℕ → String → ℕ → JoinRequest → JoinRequest
unfolding decided_status
decided_row d actor_user_id reason decided_at r = record r {
  status = decided_status d;
  decided_by_user_id = some actor_user_id;
  decision_reason = some reason;
  decided_at = some decided_at;
}

unfoldable pub decide_row :
    Services → ℕ → Decision → ℕ → String → ℕ → Option JoinRequest → Transaction JoinRequest
unfolding decided_row decided_type decided_key notice publish
decide_row env request_id d actor_user_id reason decided_at none = raise conflict
decide_row env request_id d actor_user_id reason decided_at (some r) = do
  modify (λ db. record db {
    join_requests =
        update_where (is_undecided request_id) (decided_row d actor_user_id reason decided_at)
          db.join_requests;
  })
  publish env (notice r.id (decided_type d) r.user_id r.club_id (decided_key d r.id) decided_at)
  pure (decided_row d actor_user_id reason decided_at r)

-- `decide_request`
unfoldable pub decide_request : Services → ℕ → Decision → ℕ → String → ℕ → Transaction JoinRequest
unfolding decide_row
decide_request env request_id d actor_user_id reason decided_at db =
    decide_row env request_id d actor_user_id reason decided_at
      (find? (is_undecided request_id) db.join_requests) db
