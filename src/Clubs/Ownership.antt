-- ===== src/Clubs/Ownership.antt =====
-- The owner of a club, in its row and among its memberships.
pub mod Transfer
pub mod Invariant
use community_platform.Base.{
  ℕ, ◌+◌, ◌≤◌, ◌≡◌, refl, ◌∙◌, Bool, false, ◌&&◌, ◌||◌, not, some, List, [], ◌∷◌, ◌++◌, find?, any,
  count, ◌==◌, arith, Bool-cases, inl, inr, Distinct, count-append, count-update_where,
  count-remove_where,
}
use community_platform.Authorization.{ClubRole}
use community_platform.Clubs.{Club, Membership, Tables}
use community_platform.Clubs.Repository.{is_owner}
use community_platform.Clubs.Repository.Roles.{is_not_owner, has_other_owner}
use community_platform.Clubs.Steps.{Entered, Left, Regraded}

-- the rows of the owners of a club
abbrev pub owns : ℕ → Membership → Bool
owns club_id m = m.club_id == club_id && is_owner m.role

-- those that are a certain user's
abbrev pub owned_by : ℕ → ℕ → Membership → Bool
owned_by club_id user_id m = owns club_id m && m.user_id == user_id

-- A club has one owner among its members, and it is the user that the club's row names.
pub record Owned (c : Club) (ms : List Membership) : Type 0 where
  pub one_owner : count (owns c.id) ms ≡ 1
  pub named : count (owned_by c.id c.owner_user_id) ms ≡ 1

-- The members have identifiers of their own, and every club in the table is owned so.
pub record IsOwned (db : Tables) : Type 0 where
  pub distinct : Distinct (λ m. m.id) db.memberships
  pub owned : (k : ℕ) (c : Club) → find? (λ x. x.id == k) db.clubs ≡ some c → Owned c db.memberships

-- A test that only owners pass.
abbrev pub OfOwners : (Membership → Bool) → Type 0
OfOwners q = (x : Membership) → is_owner x.role ≡ false → q x ≡ false

owns-OfOwners : (k : ℕ) → OfOwners (owns k)
owns-OfOwners k x h = ground arith

owned_by-OfOwners : (k u : ℕ) → OfOwners (owned_by k u)
owned_by-OfOwners k u x h = ground arith

-- A change of the members that leaves the counts of owners alone.
pub Owned-steady :
    (c : Club) (ms ms' : List Membership)
    → ((q : Membership → Bool) → OfOwners q → count q ms' ≡ count q ms)
    → Owned c ms
    → Owned c ms'
Owned-steady c ms ms' h o = record {
  one_owner = h (owns c.id) (owns-OfOwners c.id) ∙ o.one_owner;
  named = h (owned_by c.id c.owner_user_id) (owned_by-OfOwners c.id c.owner_user_id) ∙ o.named;
}

pub Entered-steady :
    (k : ℕ) (m : Membership) (db db' : Tables) (q : Membership → Bool)
    → Entered k m db db'
    → OfOwners q
    → count q db'.memberships ≡ count q db.memberships
Entered-steady k m db db' q e o =
    rw e.memberships
      (ground (arith, count-append q db.memberships (m ∷ []), o m (ground (arith, e.role))))

pub Left-steady :
    (k : ℕ) (m : Membership) (db db' : Tables) (q : Membership → Bool)
    → Distinct (λ m. m.id) db.memberships
    → Left k m db db'
    → OfOwners q
    → count q db'.memberships ≡ count q db.memberships
Left-steady k m db db' q d l o =
    rw l.memberships
      (ground (arith, count-remove_where (λ x. x.id) m.id q m db.memberships d l.found, o m l.role))

none_owns :
    (k id : ℕ) (ms : List Membership)
    → any (λ x. x.id == id) ms ≡ false
    → any (λ x. x.club_id == k && is_owner x.role && not (x.id == id)) ms ≡ false
    → count (owns k) ms ≡ 0
none_owns k id [] a h = refl
none_owns k id (x ∷ ms) a h = ground (arith, none_owns k id ms)

-- Where no other member owns the club, and the one under an identifier does not, nobody does.
other_owner_lem :
    (k : ℕ) (m : Membership) (ms : List Membership)
    → Distinct (λ m. m.id) ms
    → find? (λ x. x.id == m.id) ms ≡ some m
    → is_owner m.role ≡ false
    → has_other_owner m.id k ms ≡ false
    → count (owns k) ms ≡ 0
unfolding has_other_owner
other_owner_lem k m [] d f o h = refl
other_owner_lem k m (x ∷ ms) d f o h = elim (Bool-cases (x.id == m.id)) [
  | inl e ↦
      let same : x ≡ m = ground arith in
      let absent : any (λ y. y.id == m.id) ms ≡ false = ground (arith, d.0) in
      ground (arith, none_owns k m.id ms absent)
  | inr e ↦ ground (arith, other_owner_lem k m ms d.1)
]

pub Regraded-steady :
    (k : ℕ) (m : Membership) (to : ClubRole) (db db' : Tables) (q : Membership → Bool)
    → Distinct (λ m. m.id) db.memberships
    → Regraded k m to db db'
    → is_owner to ≡ false
    → OfOwners q
    → count q db'.memberships ≡ count q db.memberships
Regraded-steady k m to db db' q d g n o = rw g.memberships (
    ground (
      arith,
      count-update_where (λ x. x.id) m.id (is_not_owner m.id) q (λ x. record x { role = to }) m
          db.memberships d g.found (λ x e. ground arith) (ground (arith, g.old_role)),
      o m g.old_role,
      o (record m { role = to }) n,
    ))

-- A club that is owned keeps a member from being made a second owner.
pub Regraded-not_owner :
    (c : Club) (m : Membership) (to : ClubRole) (db db' : Tables)
    → Distinct (λ m. m.id) db.memberships
    → Owned c db.memberships
    → Regraded c.id m to db db'
    → is_owner to ≡ false
Regraded-not_owner c m to db db' d o g = elim (Bool-cases (is_owner to)) [
  | inr e ↦ e
  | inl e ↦
      let none_left =
        other_owner_lem c.id m db.memberships d g.found g.old_role (ground (arith, g.single)) in
      absurd (omega (arith, o.one_owner, none_left))
]
