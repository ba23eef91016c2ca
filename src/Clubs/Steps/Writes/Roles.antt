-- ===== src/Clubs/Steps/Writes/Roles.antt =====
-- What the statements on roles, ownership and closure do to the tables when they return
-- (apps/api/src/talaqi/clubs/membership_repository.py).
use community_platform.Base.{
  or_raise_last, or_raise_elim, raise_if_elim, ℕ, ◌+◌, ◌≡◌, refl, subst, false, ◌&&◌, Option, none,
  some, find?, update_where, arith, ok, continue_elim,
}
use community_platform.Errors.{conflict, integrity_error}
use community_platform.Authorization.{ClubRole}
use community_platform.Clubs.{Club, Membership, Tables}
use community_platform.Clubs.Repository.{is_owner}
use community_platform.Clubs.Repository.Roles.{
  update_row, has_other_owner, is_not_owner, is_owned_by, update_role, set_role, transfer_ownership,
  close_club,
}
use community_platform.Clubs.Steps.{Closed, without_owner}

-- What an UPDATE of a role has done that found a row.
pub record Regrading (id : ℕ) (role : ClubRole) (r : Membership) (db db' : Tables) : Type 0 where
  pub row : Membership
  pub found : find? (is_not_owner id) db.memberships ≡ some row
  pub result : r ≡ record row { role = role }
  pub single : (is_owner role && has_other_owner id row.club_id db.memberships) ≡ false
  pub memberships :
      db'.memberships
      ≡ update_where (is_not_owner id) (λ x. record x { role = role }) db.memberships
  pub clubs : db'.clubs ≡ db.clubs
  pub join_requests : db'.join_requests ≡ db.join_requests

update_row-Regrading :
    (id : ℕ) (role : ClubRole) (found : Option Membership) (r : Membership) (db db' : Tables)
    → find? (is_not_owner id) db.memberships ≡ found
    → update_row id role found db ≡ ok (some r, db')
    → Regrading id role r db db'
unfolding update_row
update_row-Regrading id role none r db db' f h = ground arith
update_row-Regrading id role (some m) r db db' f h =
    raise_if_elim (is_owner role && has_other_owner id m.club_id db.memberships) integrity_error db
      _ h
      λ e h₁. record {
        row = m;
        found = f;
        result = ground arith;
        single = e;
        memberships = ground arith;
        clubs = ground arith;
        join_requests = ground arith;
      }

pub update_role-Regrading :
    (id : ℕ) (role : ClubRole) (r : Membership) (db db' : Tables)
    → update_role id role db ≡ ok (some r, db')
    → Regrading id role r db db'
unfolding update_role
update_role-Regrading id role r db db' h =
    update_row-Regrading id role (find? (is_not_owner id) db.memberships) r db db' refl h

pub set_role-Regrading :
    (id : ℕ) (role : ClubRole) (r : Membership) (db db' : Tables)
    → set_role id role db ≡ ok (r, db')
    → Regrading id role r db db'
unfolding set_role
set_role-Regrading id role r db db' h =
    continue_elim (update_role id role db) _ h λ updated db₁ e h₁.
      let (some_row, last) = or_raise_last updated conflict db₁ h₁ in
      update_role-Regrading id role r db db' (
        subst (λ d. update_role id role db ≡ ok (some r, d)) last
          (subst (λ o. update_role id role db ≡ ok (o, db₁)) some_row e))

pub close_club-Closed :
    (club_id at : ℕ) (db db' : Tables)
    → close_club club_id at db ≡ ok (tt, db')
    → Closed club_id at db db'
unfolding close_club
close_club-Closed club_id at db db' h = ground arith

-- What a transfer has done: both memberships and the club.
pub record Transferred (c : Club) (a b : Membership) (db db' : Tables) : Type 0 where
  pub row : Membership
  pub promoted : find? (is_not_owner b.id) (without_owner a.id db.memberships) ≡ some row
  pub memberships :
      db'.memberships
      ≡ update_where
          (is_not_owner b.id)
          (λ x. record x { role = ClubRole.owner })
          (without_owner a.id db.memberships)
  pub clubs :
      db'.clubs
      ≡ update_where
          (is_owned_by c.id a.user_id)
          (λ x. record x { owner_user_id = b.user_id; revision = x.revision + 1 })
          db.clubs
  pub join_requests : db'.join_requests ≡ db.join_requests

pub transfer_ownership-Transferred :
    (c : Club) (a b : Membership) (db db' : Tables)
    → transfer_ownership c a b db ≡ ok (tt, db')
    → Transferred c a b db db'
unfolding transfer_ownership
transfer_ownership-Transferred c a b db db' h =
    let demoted : Tables = record db { memberships = without_owner a.id db.memberships } in
    continue_elim (update_role b.id ClubRole.owner demoted) _ h λ promoted db₁ e h₁.
      or_raise_elim promoted conflict db₁ _ h₁ λ r e₁ h₂.
        let g =
          update_role-Regrading b.id ClubRole.owner r demoted db₁
            (subst (λ o. update_role b.id ClubRole.owner demoted ≡ ok (o, db₁)) e₁ e) in
        record {
          row = g.row;
          promoted = g.found;
          memberships = ground (arith, g.memberships);
          clubs = ground (arith, g.clubs);
          join_requests = ground (arith, g.join_requests);
        }
