-- ===== src/Clubs/Joining.antt =====
-- What a join and an approval that return have done.
use community_platform.Base.{◌≡◌, none, some, find?}
use community_platform.Authorization.{AuthPrincipal}
use community_platform.Clubs.{Club, approval_required, Membership, JoinRequest, JoinResult, Tables}
use community_platform.Clubs.Repository.{get_membership, asks_for}

-- The answer of a join, and what is in the tables then.
pub data Joined (p : AuthPrincipal) (c : Club) (db db' : Tables) : JoinResult → Type 0 where
  is_member :
      (m : Membership)
      → get_membership c.id p.user_id db' ≡ some m
      → Joined p c db db' (JoinResult.member m)
  is_waiting :
      (r : JoinRequest)
      → c.membership_policy ≡ approval_required
      → get_membership c.id p.user_id db ≡ none
      → find? (asks_for c.id p.user_id) db'.join_requests ≡ some r
      → Joined p c db db' (JoinResult.pending r)
