-- ===== src/Clubs/Repository/Roles.antt =====
-- The statements of MembershipRepository (apps/api/src/talaqi/clubs/membership_repository.py) on roles,
-- ownership and closure.
use community_platform.Base.{
  ℕ, ◌+◌, Bool, ◌&&◌, not, Option, none, some, List, any, find?, update_where, ◌==◌, if◌then◌else◌,
  ok, err, pure, gets, raise_if, or_raise, modify, ◌>>=◌, ◌>>◌,
}
use community_platform.Errors.{conflict, forbidden, integrity_error}
use community_platform.Authorization.{ClubStatus, ClubRole, is_shut}
use community_platform.Clubs.{Club, Membership, Transaction}
use community_platform.Clubs.Repository.{is_owner}

-- uq_club_memberships_single_owner, on a table of which one row is to be an owner
unfoldable pub has_other_owner : ℕ → ℕ → List Membership → Bool
has_other_owner id club_id = any (λ m. m.club_id == club_id && is_owner m.role && not (m.id == id))

abbrev pub is_not_owner : ℕ → Membership → Bool
is_not_owner id m = m.id == id && not (is_owner m.role)

unfoldable pub update_row : ℕ → ClubRole → Option Membership → Transaction (Option Membership)
unfolding has_other_owner
update_row membership_id role none = pure none
update_row membership_id role (some m) = do
  memberships ← gets (λ db. db.memberships)
  raise_if (is_owner role && has_other_owner membership_id m.club_id memberships) integrity_error
  modify (λ db. record db {
    memberships =
        update_where (is_not_owner membership_id) (λ x. record x { role = role }) db.memberships;
  })
  pure (some (record m { role = role }))

-- an UPDATE of the role of a membership that is not an owner's; the row that it returns
unfoldable pub update_role : ℕ → ClubRole → Transaction (Option Membership)
unfolding update_row
update_role membership_id role db =
    update_row membership_id role (find? (is_not_owner membership_id) db.memberships) db

-- `set_role`
unfoldable pub set_role : ℕ → ClubRole → Transaction Membership
unfolding update_role
set_role membership_id role = do updated ← update_role membership_id role; or_raise updated conflict

abbrev pub is_owner_row : ℕ → Membership → Bool
is_owner_row id m = m.id == id && is_owner m.role

abbrev pub is_owned_by : ℕ → ℕ → Club → Bool
is_owned_by club_id user_id c = c.id == club_id && c.owner_user_id == user_id

-- `transfer_ownership`
unfoldable pub transfer_ownership : Club → Membership → Membership → Transaction Unit
unfolding update_role
transfer_ownership club current_owner target = do
  modify (λ db. record db {
    memberships =
        update_where (is_owner_row current_owner.id) (λ x. record x { role = ClubRole.member })
          db.memberships;
  })
  promoted ← update_role target.id ClubRole.owner
  or_raise promoted conflict
  modify (λ db. record db {
    clubs =
        update_where (is_owned_by club.id current_owner.user_id)
          (λ c. record c { owner_user_id = target.user_id; revision = c.revision + 1 }) db.clubs;
  })

abbrev pub is_closable : ℕ → Club → Bool
is_closable club_id c = c.id == club_id && not (is_shut c.status)

-- `close_club`: status NOT IN ('closed', 'suspended')
unfoldable pub close_club : ℕ → ℕ → Transaction Unit
unfolding is_shut
close_club club_id closed_at db =
    if any (is_closable club_id) db.clubs
    then ok (
      tt,
      record db {
        clubs =
            update_where (is_closable club_id)
              (λ c. record c {
                status = ClubStatus.closed;
                closed_at = some closed_at;
                revision = c.revision + 1;
              })
              db.clubs;
      },
    )
    else err forbidden
