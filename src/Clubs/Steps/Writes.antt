-- ===== src/Clubs/Steps/Writes.antt =====
-- What each statement of the repository does to the tables when it returns.
pub mod Asking
pub mod Roles
use community_platform.Base.{
  or_raise_last, ℕ, ◌+◌, ◌≡◌, ◌∙◌, ap, subst, Bool, false, ◌&&◌, some, List, [], ◌∷◌, ◌++◌, find?,
  any, ◌==◌, arith, ok, continue_elim, Bool-cases, inl, inr,
}
use community_platform.Errors.{row_lost}
use community_platform.Audit.{AuditEvent}
use community_platform.Outbox.Enqueue.{NewEvent}
use community_platform.Authorization.{ClubRole}
use community_platform.Clubs.{Membership, JoinRequest, Tables, Services}
use community_platform.Clubs.Repository.{
  publish, record_audit, get_membership, is_member_of, add_member, insert_member, notify_organizers,
}
use community_platform.Clubs.Steps.{Same, Entered}

pub publish-Same :
    (env : Services) (n : NewEvent) (db db' : Tables)
    → publish env n db ≡ ok (tt, db')
    → Same db db'
unfolding publish
publish-Same env n db db' h = ground arith

pub record_audit-Same :
    (env : Services) (e : ℕ → AuditEvent) (db db' : Tables)
    → record_audit env e db ≡ ok (tt, db')
    → Same db db'
unfolding record_audit
record_audit-Same env e db db' h = ground arith

pub Same-trans : {a b c : Tables} → Same a b → Same b c → Same a c
Same-trans s t = record {
  clubs = t.clubs ∙ s.clubs;
  memberships = t.memberships ∙ s.memberships;
  join_requests = t.join_requests ∙ s.join_requests;
}

notify_organizers-Same :
    (env : Services) (r : JoinRequest) (ms : List Membership) (db db' : Tables)
    → notify_organizers env r ms db ≡ ok (tt, db')
    → Same db db'
unfolding notify_organizers
notify_organizers-Same env r [] db db' h = ground arith
notify_organizers-Same env r (m ∷ ms) db db' h = continue_elim (publish env _ db) _ h λ u db₁ e h₁.
    Same-trans (publish-Same env _ db db₁ e) (notify_organizers-Same env r ms db₁ db' h₁)

-- A member is added, or is one already.
pub data Added (club_id : ℕ) (m : Membership) (db db' : Tables) : Type 0 where
  was_there : Same db db' → Added club_id m db db'
  added : Entered club_id m db db' → Added club_id m db db'

find?-append_only :
    (p : Membership → Bool) (xs : List Membership) (m x : Membership)
    → any p xs ≡ false
    → find? p (xs ++ m ∷ []) ≡ some x
    → x ≡ m
find?-append_only p [] m x n h = ground arith
find?-append_only p (y ∷ xs) m x n h = ground (arith, find?-append_only p xs m x)

pub new_member : Services → ℕ → ℕ → Tables → Membership
new_member env club_id user_id db = record {
  id = env.new_id db.generated;
  club_id = club_id;
  user_id = user_id;
  role = ClubRole.member;
  joined_at = db.clock;
}

-- What the INSERT of `add_member` has done when it returns.
data Inserted (env : Services) (club_id user_id : ℕ) (db db' : Tables) : Type 0 where
  skipped : Same db db' → Inserted env club_id user_id db db'
  appended :
      any (is_member_of club_id user_id) db.memberships ≡ false
      → any (λ m. m.id == env.new_id db.generated) db.memberships ≡ false
      → db'.memberships ≡ db.memberships ++ new_member env club_id user_id db ∷ []
      → db'.clubs ≡ db.clubs
      → db'.join_requests ≡ db.join_requests
      → Inserted env club_id user_id db db'

insert_member-Inserted :
    (env : Services) (club_id user_id : ℕ) (db db' : Tables)
    → insert_member env club_id user_id db ≡ ok (tt, db')
    → Inserted env club_id user_id db db'
unfolding insert_member new_member
insert_member-Inserted env club_id user_id db db' h =
    elim (Bool-cases (any (is_member_of club_id user_id) db.memberships)) [
      | inl e ↦ skipped (ground arith)
      | inr e ↦ elim (Bool-cases (any (λ m. m.id == env.new_id db.generated) db.memberships)) [
        | inl e₁ ↦ ground arith
        | inr e₁ ↦ appended e e₁ (ground arith) (ground arith) (ground arith)
      ]
    ]

Inserted-Added :
    (env : Services) (club_id user_id : ℕ) (m : Membership) (db db' : Tables)
    → Inserted env club_id user_id db db'
    → get_membership club_id user_id db' ≡ some m
    → Added club_id m db db'
Inserted-Added env club_id user_id m db db' (skipped s) f = was_there s
Inserted-Added env club_id user_id m db db' (appended e e₁ ms cs rs) f =
    let row = new_member env club_id user_id db in
    let same : m ≡ row =
      (unfold get_membership in
        find?-append_only (is_member_of club_id user_id) db.memberships row m e
          (subst (λ xs. find? (is_member_of club_id user_id) xs ≡ some m) ms f)) in
    unfold new_member in
    added (record {
      club = ap (λ x. x.club_id) same;
      role = ap (λ x. x.role) same;
      new = rw same e₁;
      memberships = rw same ms;
      clubs = cs;
      join_requests = rs;
    })

pub add_member-Added :
    (env : Services) (club_id user_id : ℕ) (m : Membership) (db db' : Tables)
    → add_member env club_id user_id db ≡ ok (m, db')
    → Added club_id m db db' × (get_membership club_id user_id db' ≡ some m)
unfolding add_member
add_member-Added env club_id user_id m db db' h =
    continue_elim (insert_member env club_id user_id db) _ h λ u db₁ e h₁.
      let (found₁, last) = or_raise_last (get_membership club_id user_id db₁) row_lost db₁ h₁ in
      let found = subst (λ d. get_membership club_id user_id d ≡ some m) last found₁ in
      (
        Inserted-Added env club_id user_id m db db'
            (insert_member-Inserted env club_id user_id db db'
              (subst (λ d. insert_member env club_id user_id db ≡ ok (tt, d)) last e))
            found,
        found,
      )
