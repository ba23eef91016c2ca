-- ===== src/Clubs/Steps.antt =====
-- What the membership services do to the tables, as steps: each one works on a club that is open.
pub mod Writes
pub mod Calls
pub mod Decisions
pub mod Owners
use community_platform.Base.{
  ℕ, ◌+◌, ◌≡◌, Bool, true, false, ◌&&◌, ◌||◌, some, List, [], ◌∷◌, ◌++◌, find?, any, update_where,
  remove_where, ◌==◌, ◌∙◌,
}
use community_platform.Authorization.{ClubStatus, ClubRole, is_shut}
use community_platform.Clubs.{Club, Membership, JoinRequest, pending, Tables}
use community_platform.Clubs.Repository.{lock_club, is_owner, is_undecided, asks_for}
use community_platform.Clubs.Repository.Roles.{
  is_owner_row, is_not_owner, is_owned_by, is_closable, has_other_owner,
}

-- The tables of the clubs are left alone; the outbox and the audit may grow.
pub record Same (db db' : Tables) : Type 0 where
  pub clubs : db'.clubs ≡ db.clubs
  pub memberships : db'.memberships ≡ db.memberships
  pub join_requests : db'.join_requests ≡ db.join_requests

-- A club that is in the table, neither suspended nor closed.
pub record Opened (c : Club) (db : Tables) : Type 0 where
  pub found : lock_club c.id db ≡ some c
  pub status : is_shut c.status ≡ false

pub record Entered (club_id : ℕ) (m : Membership) (db db' : Tables) : Type 0 where
  pub club : m.club_id ≡ club_id
  pub role : m.role ≡ ClubRole.member
  pub new : any (λ x. x.id == m.id) db.memberships ≡ false
  pub memberships : db'.memberships ≡ db.memberships ++ m ∷ []
  pub clubs : db'.clubs ≡ db.clubs
  pub join_requests : db'.join_requests ≡ db.join_requests

pub record Left (club_id : ℕ) (m : Membership) (db db' : Tables) : Type 0 where
  pub club : m.club_id ≡ club_id
  pub role : is_owner m.role ≡ false
  pub found : find? (λ x. x.id == m.id) db.memberships ≡ some m
  pub memberships : db'.memberships ≡ remove_where (λ x. x.id == m.id) db.memberships
  pub clubs : db'.clubs ≡ db.clubs
  pub join_requests : db'.join_requests ≡ db.join_requests

pub record Regraded (club_id : ℕ) (m : Membership) (to : ClubRole) (db db' : Tables) : Type 0 where
  pub club : m.club_id ≡ club_id
  pub found : find? (λ x. x.id == m.id) db.memberships ≡ some m
  pub old_role : is_owner m.role ≡ false
  pub single : (is_owner to && has_other_owner m.id club_id db.memberships) ≡ false
  pub memberships :
      db'.memberships
      ≡ update_where (is_not_owner m.id) (λ x. record x { role = to }) db.memberships
  pub clubs : db'.clubs ≡ db.clubs
  pub join_requests : db'.join_requests ≡ db.join_requests

-- The memberships after the first UPDATE of a transfer.
abbrev pub without_owner : ℕ → List Membership → List Membership
without_owner id = update_where (is_owner_row id) (λ x. record x { role = ClubRole.member })

pub record HandedOver (c : Club) (a b : Membership) (db db' : Tables) : Type 0 where
  pub old_club : a.club_id ≡ c.id
  pub old_user : a.user_id ≡ c.owner_user_id
  pub old_role : is_owner a.role ≡ true
  pub old_found : find? (λ x. x.id == a.id) db.memberships ≡ some a
  pub new_club : b.club_id ≡ c.id
  pub new_found : find? (λ x. x.id == b.id) db.memberships ≡ some b
  pub new_user : (b.user_id == a.user_id) ≡ false
  pub memberships :
      db'.memberships
      ≡ update_where
          (is_not_owner b.id)
          (λ x. record x { role = ClubRole.owner })
          (without_owner a.id db.memberships)
  pub promoted :
      (x : Membership) × (find? (is_not_owner b.id) (without_owner a.id db.memberships) ≡ some x)
  pub clubs :
      db'.clubs
      ≡ update_where
          (is_owned_by c.id a.user_id)
          (λ x. record x { owner_user_id = b.user_id; revision = x.revision + 1 })
          db.clubs
  pub join_requests : db'.join_requests ≡ db.join_requests

pub record Closed (club_id now : ℕ) (db db' : Tables) : Type 0 where
  pub clubs :
      db'.clubs
      ≡ update_where
          (is_closable club_id)
          (λ c. record c {
            status = ClubStatus.closed;
            closed_at = some now;
            revision = c.revision + 1;
          })
          db.clubs
  pub memberships : db'.memberships ≡ db.memberships
  pub join_requests : db'.join_requests ≡ db.join_requests

pub record Asked (club_id : ℕ) (r : JoinRequest) (db db' : Tables) : Type 0 where
  pub club : r.club_id ≡ club_id
  pub new : any (λ x. x.id == r.id) db.join_requests ≡ false
  pub join_requests : db'.join_requests ≡ db.join_requests ++ r ∷ []
  pub clubs : db'.clubs ≡ db.clubs
  pub memberships : db'.memberships ≡ db.memberships

-- An update of requests of one club, which leaves each one its identifier, club and user.
pub record Updated (p : JoinRequest → Bool) (f : JoinRequest → JoinRequest) (db db' : Tables)
    : Type 0 where
  pub same_id : (x : JoinRequest) → (f x).id ≡ x.id
  pub same_club : (x : JoinRequest) → (f x).club_id ≡ x.club_id
  pub same_user : (x : JoinRequest) → (f x).user_id ≡ x.user_id
  pub was_pending : (x : JoinRequest) → p x ≡ true → x.status ≡ pending
  pub join_requests : db'.join_requests ≡ update_where p f db.join_requests
  pub clubs : db'.clubs ≡ db.clubs
  pub memberships : db'.memberships ≡ db.memberships

pub data Step (db db' : Tables) : Type 0 where
  quiet : Same db db' → Step db db'
  enters : (c : Club) (m : Membership) → Opened c db → Entered c.id m db db' → Step db db'
  exits : (c : Club) (m : Membership) → Opened c db → Left c.id m db db' → Step db db'
  regrades :
      (c : Club) (m : Membership) (to : ClubRole)
      → Opened c db
      → Regraded c.id m to db db'
      → Step db db'
  hands_over : (c : Club) (a b : Membership) → Opened c db → HandedOver c a b db db' → Step db db'
  closes : (c : Club) (now : ℕ) → Opened c db → Closed c.id now db db' → Step db db'
  asks : (c : Club) (r : JoinRequest) → Opened c db → Asked c.id r db db' → Step db db'
  withdraws :
      (c : Club) (user_id : ℕ) (f : JoinRequest → JoinRequest)
      → Opened c db
      → Updated (asks_for c.id user_id) f db db'
      → Step db db'
  decides :
      (c : Club) (r : JoinRequest) (f : JoinRequest → JoinRequest)
      → Opened c db
      → r.club_id ≡ c.id
      → find? (λ x. x.club_id == c.id && x.id == r.id) db.join_requests ≡ some r
      → Updated (is_undecided r.id) f db db'
      → Step db db'

pub data Reach (db : Tables) : Tables → Type 0 where
  here : Reach db db
  next : {db₁ db₂ : Tables} → Reach db db₁ → Step db₁ db₂ → Reach db db₂

pub Reach-trans : {a b c : Tables} → Reach a b → Reach b c → Reach a c
Reach-trans r here = r
Reach-trans r (next s st) = next (Reach-trans r s) st

pub Reach_induction {κ} :
    (P : Tables → Type κ)
    → ((a b : Tables) → Step a b → P a → P b)
    → {db db' : Tables} → P db
    → Reach db db'
    → P db'
Reach_induction P step h here = h
Reach_induction P step h (next r st) = step _ _ st (Reach_induction P step h r)
