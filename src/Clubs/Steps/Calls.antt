-- ===== src/Clubs/Steps/Calls.antt =====
-- The calls of the membership services, as steps.
use community_platform.Base.{
  ℕ, ◌≡◌, refl, sym, subst, Bool, true, false, ◌||◌, not, Option, none, some, String, find?, ◌==◌,
  arith, Action, find?-holds, ok, continue, continue_elim, raise_if, pure, ◌>>◌, lift_elim,
  raise_if_elim, or_raise_last, ok_eq, Distinct, find?-key,
}
use community_platform.Errors.{Error, forbidden, not_found, sole_owner_exit}
use community_platform.Identifiers.{validate_uuid7}
use community_platform.Authorization.{ClubStatus, AuthPrincipal, is_shut}
use community_platform.Clubs.{
  Club, ClubMembershipPolicy, open_to_all, approval_required, Membership, JoinRequest, JoinResult,
  cancelled, Tables, Services,
}
use community_platform.Clubs.Repository.{
  record_audit, lock_club, get_membership, is_member_of, is_owner, add_member,
  create_or_get_pending_request, cancel_pending_request, remove_membership,
}
use community_platform.Clubs.Service.{
  normalized_message, require_active, require_active_verified, club_of, join, join_club,
  join_as_policy, join_open, join_by_approval, audit_request, is_published, leave, leave_as,
}
use community_platform.Clubs.AuditEvents.{
  joined_event, requested_event, withdrawn_event, left_event,
}
use community_platform.Clubs.Steps.{
  Same, Opened, Step, quiet, enters, exits, asks, withdraws, Reach, here, next,
}
use community_platform.Clubs.Steps.Writes.{record_audit-Same, was_there, added, add_member-Added}
use community_platform.Clubs.Steps.Writes.Asking.{
  Pending, was_asked, asked, create_or_get_pending_request-Pending, cancel_pending_request-Updated,
  remove_membership-Left,
}

pub one : {db db' : Tables} → Step db db' → Reach db db'
one st = next here st

pub then_quiet : {db db₁ db' : Tables} → Reach db db₁ → Same db₁ db' → Reach db db'
then_quiet r s = next r (quiet s)

pub unchanged : {db db' : Tables} → db ≡ db' → Reach db db'
unchanged {db} e = subst (Reach db) e here

club_of-found :
    (club_id : ℕ) (c : Club) (db db₁ : Tables)
    → club_of club_id db ≡ ok (c, db₁)
    → (lock_club club_id db ≡ some c) × (c.id ≡ club_id) × (db ≡ db₁)
unfolding club_of lock_club
club_of-found club_id c db db₁ h =
    raise_if_elim (not (validate_uuid7 club_id)) not_found db _ h λ e h₁.
      let (found, last) = or_raise_last (lock_club club_id db) not_found db h₁ in
      let same = find?-holds (λ x. x.id == club_id) db.clubs c found in
      (found, ground (arith, same), last)

-- A club that a call has read goes on to the rest of it.
pub club_of_elim {κ} :
    {P : Type κ} {B : Type 0} (club_id : ℕ) (db : Tables) (f : Club → Action Error Tables B)
    {r : B × Tables}
    → continue (club_of club_id db) f ≡ ok r
    → ((c : Club) → lock_club c.id db ≡ some c → c.id ≡ club_id → f c db ≡ ok r → P)
    → P
club_of_elim club_id db f {r} h k = continue_elim (club_of club_id db) f h λ c db₁ e h₁.
    let (found, same, last) = club_of-found club_id c db db₁ e in
    k c (subst (λ i. lock_club i db ≡ some c) (sym same) found) same
      (subst (λ d. f c d ≡ ok r) (sym last) h₁)

abbrev pub DistinctMembers : Tables → Type 0
DistinctMembers db = Distinct (λ m. m.id) db.memberships

-- A membership that a call has read.
pub get_membership-found :
    (club_id user_id : ℕ) (m : Membership) (db : Tables)
    → DistinctMembers db
    → get_membership club_id user_id db ≡ some m
    → (m.club_id ≡ club_id)
      × (m.user_id ≡ user_id)
      × (find? (λ x. x.id == m.id) db.memberships ≡ some m)
unfolding get_membership
get_membership-found club_id user_id m db d h =
    let row = find?-holds (is_member_of club_id user_id) db.memberships m h in
    (
      ground (arith, row),
      ground (arith, row),
      find?-key (λ x. x.id) (is_member_of club_id user_id) m db.memberships d h,
    )

published_open : (s : ClubStatus) → is_published s ≡ true → is_shut s ≡ false
unfolding is_published is_shut
published_open s h = ground arith

join_open-Reach :
    (env : Services) (p : AuthPrincipal) (c : Club) (request_id : ℕ) (result : JoinResult)
    (db db' : Tables)
    → Opened c db
    → join_open env p c request_id db ≡ ok (result, db')
    → Reach db db'
unfolding join_open
join_open-Reach env p c request_id result db db' o h =
    continue_elim (add_member env c.id p.user_id db) _ h λ m db₁ e h₁.
      continue_elim (record_audit env (joined_event p c request_id) db₁)
        (λ _. pure (JoinResult.member m)) h₁
        λ u db₂ e₂ h₂.
          let s = record_audit-Same env (joined_event p c request_id) db₁ db₂ e₂ in
          subst (Reach db) (ok_eq h₂).1 (elim (add_member-Added env c.id p.user_id m db db₁ e).0 [
            | was_there t ↦ then_quiet (one (quiet t)) s
            | added t ↦ then_quiet (one (enters c m o t)) s
          ])

pub audit_request-Same :
    (env : Services) (p : AuthPrincipal) (c : Club) (request_id : ℕ) (r : JoinRequest) (new : Bool)
    (db db' : Tables)
    → audit_request env p c request_id r new db ≡ ok (tt, db')
    → Same db db'
unfolding audit_request
audit_request-Same env p c request_id r true db db' h =
    record_audit-Same env (requested_event p c r request_id) db db' h
audit_request-Same env p c request_id r false db db' h = ground arith

Pending-Reach :
    (c : Club) (user_id : ℕ) (r : JoinRequest) (new : Bool) (db db' : Tables)
    → Opened c db
    → Pending c.id user_id r db db' new
    → Reach db db'
Pending-Reach c user_id r new db db' o (was_asked f e) = unchanged (sym e)
Pending-Reach c user_id r new db db' o (asked f u s a) = one (asks c r o a)

join_by_approval-Reach :
    (env : Services) (p : AuthPrincipal) (c : Club) (message : Option String) (request_id : ℕ)
    (result : JoinResult) (db db' : Tables)
    → Opened c db
    → join_by_approval env p c message request_id db ≡ ok (result, db')
    → Reach db db'
unfolding join_by_approval
join_by_approval-Reach env p c message request_id result db db' o h =
    continue_elim (create_or_get_pending_request env c.id p.user_id message db) _ h λ pair db₁ e h₁.
      continue_elim (audit_request env p c request_id pair.0 pair.1 db₁)
        (λ _. pure (JoinResult.pending pair.0)) h₁
        λ u db₂ e₂ h₂. subst (Reach db) (ok_eq h₂).1 (
          then_quiet
            (Pending-Reach c p.user_id pair.0 pair.1 db db₁ o (
              create_or_get_pending_request-Pending env c.id p.user_id message pair.0 pair.1 db db₁
                e))
            (audit_request-Same env p c request_id pair.0 pair.1 db₁ db₂ e₂))

join_as_policy-Reach :
    (policy : ClubMembershipPolicy) (env : Services) (p : AuthPrincipal) (c : Club)
    (message : Option String) (request_id : ℕ) (result : JoinResult) (db db' : Tables)
    → Opened c db
    → join_as_policy policy env p c message request_id db ≡ ok (result, db')
    → Reach db db'
unfolding join_as_policy
join_as_policy-Reach open_to_all env p c message request_id result db db' o h =
    join_open-Reach env p c request_id result db db' o h
join_as_policy-Reach approval_required env p c message request_id result db db' o h =
    join_by_approval-Reach env p c (normalized_message message) request_id result db db' o h

join_club-Reach :
    (env : Services) (p : AuthPrincipal) (c : Club) (message : Option String) (request_id : ℕ)
    (existing : Option Membership) (result : JoinResult) (db db' : Tables)
    → Opened c db
    → join_club env p c message request_id existing db ≡ ok (result, db')
    → Reach db db'
unfolding join_club
join_club-Reach env p c message request_id (some m) result db db' o h = unchanged (ok_eq h).1
join_club-Reach env p c message request_id none result db db' o h =
    join_as_policy-Reach c.membership_policy env p c message request_id result db db' o h

pub join-Reach :
    (env : Services) (p : AuthPrincipal) (club_id : ℕ) (message : Option String) (request_id : ℕ)
    (result : JoinResult) (db db' : Tables)
    → join env p club_id message request_id db ≡ ok (result, db')
    → Reach db db'
unfolding join
join-Reach env p club_id message request_id result db db' h =
    lift_elim (require_active_verified p) db _ h λ u e h₁.
      club_of_elim club_id db _ h₁ λ c found same h₂.
        raise_if_elim (not (is_published c.status)) forbidden db _ h₂ λ e₁ h₃.
          join_club-Reach env p c message request_id (get_membership c.id p.user_id db) result db
            db' (record { found = found; status = published_open c.status (ground arith) }) h₃

leave_as-Reach :
    (env : Services) (p : AuthPrincipal) (c : Club) (request_id : ℕ)
    (membership : Option Membership) (db db' : Tables)
    → Opened c db
    → DistinctMembers db
    → get_membership c.id p.user_id db ≡ membership
    → leave_as env p c request_id membership db ≡ ok (tt, db')
    → Reach db db'
unfolding leave_as
leave_as-Reach env p c request_id none db db' o d f h =
    continue_elim (cancel_pending_request c.id p.user_id db)
      (λ x. raise_if (not x) not_found >> record_audit env (withdrawn_event p c request_id)) h
      λ withdrawn db₁ e h₁.
        raise_if_elim (not withdrawn) not_found db₁
          (λ _. record_audit env (withdrawn_event p c request_id)) h₁
          λ e₁ h₂.
            then_quiet
              (one (
                withdraws c p.user_id (λ r. record r { status = cancelled }) o
                  (cancel_pending_request-Updated c.id p.user_id withdrawn db db₁ e)))
              (record_audit-Same env (withdrawn_event p c request_id) db₁ db' h₂)
leave_as-Reach env p c request_id (some m) db db' o d f h =
    raise_if_elim (is_owner m.role || c.owner_user_id == p.user_id) sole_owner_exit db _ h λ e h₁.
      continue_elim (remove_membership env m.id db) _ h₁ λ u db₁ e₁ h₂.
        let (club, user, row) = get_membership-found c.id p.user_id m db d f in
        then_quiet
          (one (exits c m o (remove_membership-Left env m c.id db db₁ row club (ground arith) e₁)))
          (record_audit-Same env (left_event p c m request_id) db₁ db' h₂)

pub leave-Reach :
    (env : Services) (p : AuthPrincipal) (club_id request_id : ℕ) (db db' : Tables)
    → DistinctMembers db
    → leave env p club_id request_id db ≡ ok (tt, db')
    → Reach db db'
unfolding leave
leave-Reach env p club_id request_id db db' d h = lift_elim (require_active p) db _ h λ u e h₁.
    club_of_elim club_id db _ h₁ λ c found same h₂.
      raise_if_elim (is_shut c.status) forbidden db _ h₂ λ e₁ h₃.
        leave_as-Reach env p c request_id (get_membership c.id p.user_id db) db db'
          (record { found = found; status = e₁ }) d refl h₃
