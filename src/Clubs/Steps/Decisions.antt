-- ===== src/Clubs/Steps/Decisions.antt =====
-- The decisions of managers and owners, as steps.
use community_platform.Base.{
  is_none, ℕ, ◌≡◌, sym, subst, false, ◌&&◌, not, Option, some, String, find?, ◌==◌, arith, Action,
  find?-holds, ok, continue, continue_elim, lift_elim, raise_if_elim, or_raise_last, ok_eq,
  Bool-cases, inl, inr,
}
use community_platform.Errors.{Error, not_found}
use community_platform.Identifiers.{validate_uuid7}
use community_platform.Authorization.{AuthPrincipal, is_shut, may_manage_club, can_manage_members}
use community_platform.Clubs.{Club, Membership, JoinRequest, Tables, Services}
use community_platform.Clubs.Repository.{
  record_audit, lock_club, get_membership, is_pending, add_member, get_join_request, Decision,
  decide_request, decided_row,
}
use community_platform.Clubs.Service.{
  normalized_reason, request_of, is_approved, is_rejected, settle, approve, approve_request, reject,
  reject_request, managed_club, as_club, as_membership,
}
use community_platform.Clubs.AuditEvents.{decided_event}
use community_platform.Clubs.Steps.{Opened, quiet, enters, decides, Reach, Reach-trans}
use community_platform.Clubs.Steps.Writes.{
  record_audit-Same, Added, was_there, added, add_member-Added,
}
use community_platform.Clubs.Steps.Writes.Asking.{decide_request-Updated}
use community_platform.Clubs.Steps.Calls.{one, then_quiet, unchanged, club_of_elim}

pub request_of-found :
    (club_id id : ℕ) (r : JoinRequest) (db db₁ : Tables)
    → request_of club_id id db ≡ ok (r, db₁)
    → (r.club_id ≡ club_id)
      × (find? (λ x. x.club_id == club_id && x.id == r.id) db.join_requests ≡ some r)
      × (db ≡ db₁)
unfolding request_of get_join_request
request_of-found club_id id r db db₁ h =
    raise_if_elim (not (validate_uuid7 id)) not_found db _ h λ e h₁.
      let (found, last) = or_raise_last (get_join_request club_id id db) not_found db h₁ in
      let row = find?-holds (λ x. x.club_id == club_id && x.id == id) db.join_requests r found in
      let same : r.id ≡ id = ground (arith, row) in
      (
        ground (arith, row),
        subst (λ k. find? (λ x. x.club_id == club_id && x.id == k) db.join_requests ≡ some r)
            (sym same) found,
        last,
      )

settle-Reach :
    (env : Services) (p : AuthPrincipal) (c : Club) (r : JoinRequest) (d : Decision)
    (reason : String) (request_id now : ℕ) (db db' : Tables)
    → Opened c db
    → r.club_id ≡ c.id
    → find? (λ x. x.club_id == c.id && x.id == r.id) db.join_requests ≡ some r
    → settle env p c r d reason request_id now db ≡ ok (tt, db')
    → Reach db db'
unfolding settle
settle-Reach env p c r d reason request_id now db db' o club found h =
    continue_elim (decide_request env r.id d p.user_id reason now db)
      (λ x. record_audit env (decided_event p c x d reason request_id)) h
      λ x db₁ e h₁.
        then_quiet
          (one (
            decides c r (decided_row d p.user_id reason now) o club found
              (decide_request-Updated env r.id d p.user_id reason now x db db₁ e).0))
          (record_audit-Same env (decided_event p c x d reason request_id) db₁ db' h₁)

Same-Opened : {c : Club} {db db' : Tables} → db'.clubs ≡ db.clubs → Opened c db → Opened c db'
unfolding lock_club
Same-Opened {c} e o = record {
  found = subst (λ cs. find? (λ x. x.id == c.id) cs ≡ some c) (sym e) o.found;
  status = o.status;
}

Added-Reach :
    (c : Club) (r : JoinRequest) (m : Membership) (db db₁ : Tables)
    → Opened c db
    → find? (λ x. x.club_id == c.id && x.id == r.id) db.join_requests ≡ some r
    → Added c.id m db db₁
    → Reach db db₁
      × Opened c db₁
      × (find? (λ x. x.club_id == c.id && x.id == r.id) db₁.join_requests ≡ some r)
Added-Reach c r m db db₁ o f (was_there s) = (
  one (quiet s),
  Same-Opened s.clubs o,
  subst (λ rs. find? (λ x. x.club_id == c.id && x.id == r.id) rs ≡ some r) (sym s.join_requests) f,
)
Added-Reach c r m db db₁ o f (added t) = (
  one (enters c m o t),
  Same-Opened t.clubs o,
  subst (λ rs. find? (λ x. x.club_id == c.id && x.id == r.id) rs ≡ some r) (sym t.join_requests) f,
)

approve_request-Reach :
    (env : Services) (p : AuthPrincipal) (c : Club) (r : JoinRequest) (reason : String)
    (request_id now : ℕ) (db db' : Tables)
    → Opened c db
    → r.club_id ≡ c.id
    → find? (λ x. x.club_id == c.id && x.id == r.id) db.join_requests ≡ some r
    → approve_request env p c r reason request_id now db ≡ ok (tt, db')
    → Reach db db'
unfolding approve_request
approve_request-Reach env p c r reason request_id now db db' o club f h =
    elim (Bool-cases (is_approved r.status && not (is_none (get_membership c.id r.user_id db)))) [
      | inl e ↦ unchanged (ground arith)
      | inr e ↦ elim (Bool-cases (is_pending r.status)) [
        | inr e₁ ↦ ground arith
        | inl e₁ ↦
            continue_elim (add_member env c.id r.user_id db)
              (λ m. settle env p c r Decision.approve reason request_id now) (ground arith)
              λ m db₁ e₂ h₁.
                let (reached, o₁, f₁) =
                  Added-Reach c r m db db₁ o f
                    (add_member-Added env c.id r.user_id m db db₁ e₂).0 in
                Reach-trans reached (
                  settle-Reach env p c r Decision.approve reason request_id now db₁ db' o₁ club f₁
                    h₁)
      ]
    ]

reject_request-Reach :
    (env : Services) (p : AuthPrincipal) (c : Club) (r : JoinRequest) (reason : String)
    (request_id now : ℕ) (db db' : Tables)
    → Opened c db
    → r.club_id ≡ c.id
    → find? (λ x. x.club_id == c.id && x.id == r.id) db.join_requests ≡ some r
    → reject_request env p c r reason request_id now db ≡ ok (tt, db')
    → Reach db db'
unfolding reject_request
reject_request-Reach env p c r reason request_id now db db' o club f h =
    elim (Bool-cases (is_rejected r.status)) [
      | inl e ↦ unchanged (ground arith)
      | inr e ↦ elim (Bool-cases (is_pending r.status)) [
        | inr e₁ ↦ ground arith
        | inl e₁ ↦
            settle-Reach env p c r Decision.reject reason request_id now db db' o club f
              (ground arith)
      ]
    ]

managed_open :
    (p : AuthPrincipal) (c : Club) (membership : Option Membership)
    → can_manage_members p (as_club c) (as_membership membership) ≡ ok tt
    → is_shut c.status ≡ false
unfolding can_manage_members may_manage_club
managed_open p c membership h = ground arith

pub managed_club_elim {κ} :
    {P : Type κ} {B : Type 0} (p : AuthPrincipal) (club_id : ℕ) (db : Tables)
    (f : Club → Action Error Tables B) {r : B × Tables}
    → continue (managed_club p club_id db) f ≡ ok r
    → ((c : Club) → Opened c db → f c db ≡ ok r → P)
    → P
unfolding managed_club
managed_club_elim p club_id db f {r} h k =
    continue_elim (managed_club p club_id db) f h λ c db₁ e h₁.
      club_of_elim club_id db _ e λ x found same h₂.
        lift_elim
          (can_manage_members p (as_club x) (as_membership (get_membership x.id p.user_id db))) db _
          h₂
          λ u e₁ h₃.
            let (is_c, last) = ok_eq h₃ in
            k c
              (subst (λ y. Opened y db) is_c
                (record {
                  found = found;
                  status = managed_open p x (get_membership x.id p.user_id db) e₁;
                }))
              (subst (λ d. f c d ≡ ok r) (sym last) h₁)

pub approve-Reach :
    (env : Services) (p : AuthPrincipal) (club_id id : ℕ) (reason : String) (request_id now : ℕ)
    (db db' : Tables)
    → approve env p club_id id reason request_id now db ≡ ok (tt, db')
    → Reach db db'
unfolding approve
approve-Reach env p club_id id reason request_id now db db' h =
    lift_elim (normalized_reason reason) db _ h λ s e h₁.
      managed_club_elim p club_id db _ h₁ λ c o h₂.
        continue_elim (request_of c.id id db) (λ r. approve_request env p c r s request_id now) h₂
          λ r db₁ e₁ h₃.
            let (club, f, last) = request_of-found c.id id r db db₁ e₁ in
            approve_request-Reach env p c r s request_id now db db' o club f (
              subst (λ d. approve_request env p c r s request_id now d ≡ ok (tt, db')) (sym last)
                h₃)

pub reject-Reach :
    (env : Services) (p : AuthPrincipal) (club_id id : ℕ) (reason : String) (request_id now : ℕ)
    (db db' : Tables)
    → reject env p club_id id reason request_id now db ≡ ok (tt, db')
    → Reach db db'
unfolding reject
reject-Reach env p club_id id reason request_id now db db' h =
    lift_elim (normalized_reason reason) db _ h λ s e h₁.
      managed_club_elim p club_id db _ h₁ λ c o h₂.
        continue_elim (request_of c.id id db) (λ r. reject_request env p c r s request_id now) h₂
          λ r db₁ e₁ h₃.
            let (club, f, last) = request_of-found c.id id r db db₁ e₁ in
            reject_request-Reach env p c r s request_id now db db' o club f (
              subst (λ d. reject_request env p c r s request_id now d ≡ ok (tt, db')) (sym last) h₃)
