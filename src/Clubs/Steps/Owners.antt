-- ===== src/Clubs/Steps/Owners.antt =====
-- The calls that an owner makes, as steps.
use community_platform.Base.{
  some_injective, find?-also, ℕ, ◌≡◌, sym, ◌∙◌, subst, true, false, ◌&&◌, not, some, String, find?,
  ◌==◌, arith, ok, continue_elim, lift_elim, raise_if_elim, or_raise_elim, Bool-cases, inl, inr,
}
use community_platform.Errors.{not_found, conflict}
use community_platform.Authorization.{ClubRole, AuthPrincipal, is_shut}
use community_platform.Clubs.{Club, Membership, Tables, Services}
use community_platform.Clubs.Repository.{
  record_audit, get_membership, is_owner, role_code, transfer_candidate,
}
use community_platform.Clubs.Repository.Roles.{
  set_role, transfer_ownership, close_club, is_not_owner, has_other_owner,
}
use community_platform.Clubs.Service.{
  normalized_reason, require_owner, change_role, change_role_of, transfer, may_own, hand_over,
  close,
}
use community_platform.Clubs.AuditEvents.{role_event, transferred_event, closed_event}
use community_platform.Clubs.Steps.{Opened, regrades, hands_over, closes, Reach}
use community_platform.Clubs.Steps.Writes.{record_audit-Same}
use community_platform.Clubs.Steps.Writes.Roles.{
  set_role-Regrading, transfer_ownership-Transferred, close_club-Closed,
}
use community_platform.Clubs.Steps.Calls.{
  one, then_quiet, unchanged, club_of_elim, DistinctMembers, get_membership-found,
}

require_owner-facts :
    (p : AuthPrincipal) (c : Club)
    → require_owner p c ≡ ok tt
    → (is_shut c.status ≡ false) × (c.owner_user_id ≡ p.user_id)
unfolding require_owner
require_owner-facts p c h = ground arith

change_role_of-Reach :
    (env : Services) (p : AuthPrincipal) (c : Club) (target : Membership) (role : ClubRole)
    (reason : String) (request_id : ℕ) (db db' : Tables)
    → Opened c db
    → target.club_id ≡ c.id
    → find? (λ x. x.id == target.id) db.memberships ≡ some target
    → change_role_of env p c target role reason request_id db ≡ ok (tt, db')
    → Reach db db'
unfolding change_role_of
change_role_of-Reach env p c target role reason request_id db db' o club f h =
    elim (Bool-cases (is_owner target.role)) [
      | inl e ↦ ground arith
      | inr e ↦ elim (Bool-cases (role_code target.role == role_code role)) [
        | inl e₁ ↦ unchanged (ground arith)
        | inr e₁ ↦
            continue_elim (set_role target.id role db)
              (λ changed. record_audit env (role_event p c target changed reason request_id))
              (ground arith)
              λ changed db₁ e₂ h₁.
                let g = set_role-Regrading target.id role changed db db₁ e₂ in
                let found : find? (is_not_owner target.id) db.memberships ≡ some target =
                  find?-also (λ x. x.id == target.id) (is_not_owner target.id) db.memberships target
                    f (ground arith) (λ x k. ground arith) in
                let same : g.row ≡ target = some_injective (sym g.found ∙ found) in
                then_quiet
                  (one (
                    regrades c target role o (record {
                      club = club;
                      found = f;
                      old_role = e;
                      single = rw (← club) (
                          subst
                            (λ x.
                              (is_owner role && has_other_owner target.id x.club_id db.memberships)
                              ≡ false)
                            same g.single);
                      memberships = g.memberships;
                      clubs = g.clubs;
                      join_requests = g.join_requests;
                    })))
                  (record_audit-Same env (role_event p c target changed reason request_id) db₁ db'
                    h₁)
      ]
    ]

pub change_role-Reach :
    (env : Services) (p : AuthPrincipal) (club_id user_id : ℕ) (role : ClubRole) (reason : String)
    (request_id : ℕ) (db db' : Tables)
    → DistinctMembers db
    → change_role env p club_id user_id role reason request_id db ≡ ok (tt, db')
    → Reach db db'
unfolding change_role
change_role-Reach env p club_id user_id role reason request_id db db' d h =
    lift_elim (normalized_reason reason) db _ h λ s e h₁.
      club_of_elim club_id db _ h₁ λ c found same h₂.
        lift_elim (require_owner p c) db _ h₂ λ u e₁ h₃.
          or_raise_elim (get_membership c.id user_id db) not_found db _ h₃ λ target e₂ h₄.
            let (club, user, row) = get_membership-found c.id user_id target db d e₂ in
            change_role_of-Reach env p c target role s request_id db db'
              (record { found = found; status = (require_owner-facts p c e₁).0 }) club row h₄

hand_over-Reach :
    (env : Services) (p : AuthPrincipal) (c : Club) (a b : Membership) (reason : String)
    (request_id : ℕ) (db db' : Tables)
    → Opened c db
    → (a.club_id ≡ c.id) × (a.user_id ≡ c.owner_user_id) × (is_owner a.role ≡ true)
    → find? (λ x. x.id == a.id) db.memberships ≡ some a
    → b.club_id ≡ c.id
    → find? (λ x. x.id == b.id) db.memberships ≡ some b
    → c.owner_user_id ≡ p.user_id
    → hand_over env p c a b reason request_id db ≡ ok (tt, db')
    → Reach db db'
unfolding hand_over
hand_over-Reach env p c a b reason request_id db db' o old fa club fb owner h =
    raise_if_elim (b.user_id == p.user_id) conflict db _ h λ e h₁.
      lift_elim (may_own env (transfer_candidate b.user_id db)) db _ h₁ λ u e₁ h₂.
        continue_elim (transfer_ownership c a b db)
          (λ _. record_audit env (transferred_event p c b reason request_id)) h₂
          λ u' db₁ e₂ h₃.
            let t = transfer_ownership-Transferred c a b db db₁ e₂ in
            then_quiet
              (one (
                hands_over c a b o (record {
                  old_club = old.0;
                  old_user = old.1;
                  old_role = old.2;
                  old_found = fa;
                  new_club = club;
                  new_found = fb;
                  new_user = ground (arith, old.1, owner);
                  memberships = t.memberships;
                  promoted = (t.row, t.promoted);
                  clubs = t.clubs;
                  join_requests = t.join_requests;
                })))
              (record_audit-Same env (transferred_event p c b reason request_id) db₁ db' h₃)

pub transfer-Reach :
    (env : Services) (p : AuthPrincipal) (club_id user_id : ℕ) (reason : String) (request_id : ℕ)
    (db db' : Tables)
    → DistinctMembers db
    → transfer env p club_id user_id reason request_id db ≡ ok (tt, db')
    → Reach db db'
unfolding transfer
transfer-Reach env p club_id user_id reason request_id db db' d h =
    lift_elim (normalized_reason reason) db _ h λ s e h₁.
      club_of_elim club_id db _ h₁ λ c found same h₂.
        lift_elim (require_owner p c) db _ h₂ λ u e₁ h₃.
          or_raise_elim (get_membership c.id p.user_id db) not_found db _ h₃ λ a e₂ h₄.
            raise_if_elim (not (is_owner a.role)) not_found db _ h₄ λ e₃ h₅.
              or_raise_elim (get_membership c.id user_id db) not_found db _ h₅ λ b e₄ h₆.
                let (a_club, a_user, a_row) = get_membership-found c.id p.user_id a db d e₂ in
                let (b_club, b_user, b_row) = get_membership-found c.id user_id b db d e₄ in
                let (status, owner) = require_owner-facts p c e₁ in
                hand_over-Reach env p c a b s request_id db db'
                  (record { found = found; status = status })
                  (a_club, a_user ∙ sym owner, ground arith) a_row b_club b_row owner h₆

pub close-Reach :
    (env : Services) (p : AuthPrincipal) (club_id : ℕ) (reason : String) (request_id now : ℕ)
    (db db' : Tables)
    → close env p club_id reason request_id now db ≡ ok (tt, db')
    → Reach db db'
unfolding close
close-Reach env p club_id reason request_id now db db' h =
    lift_elim (normalized_reason reason) db _ h λ s e h₁.
      club_of_elim club_id db _ h₁ λ c found same h₂.
        lift_elim (require_owner p c) db _ h₂ λ u e₁ h₃.
          continue_elim (close_club c.id now db)
            (λ _. record_audit env (closed_event p c s request_id)) h₃
            λ u' db₁ e₂ h₄.
              then_quiet
                (one (
                  closes c now (record { found = found; status = (require_owner-facts p c e₁).0 })
                    (close_club-Closed c.id now db db₁ e₂)))
                (record_audit-Same env (closed_event p c s request_id) db₁ db' h₄)
