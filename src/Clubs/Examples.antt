-- ===== src/Clubs/Examples.antt =====
-- Two clubs, one open and one closed, with their members.
use community_platform.Base.{
  ℕ, ◌+◌, ◌*◌, ◌^◌, ◌≡◌, refl, true, false, Option, none, some, List, [], ◌∷◌, find?, select, ◌==◌,
  Result, ok, err, arith, subst, Bool-cases, inl, inr,
}
use community_platform.Errors.{Error}
use community_platform.Authorization.{UserStatus, AuthPrincipal, ClubStatus, ClubRole, is_shut}
use community_platform.Clubs.{
  open_to_all, approval_required, Club, Membership, JoinRequestStatus, JoinResult, Tables, Services,
}
use community_platform.Clubs.Repository.{get_membership}
use community_platform.Clubs.Service.{join, leave, transfer, close}
use community_platform.Clubs.Requests.{Request, joins, leaves, transfers, closes, serve}
use community_platform.Clubs.Ownership.{Owned, IsOwned}
use community_platform.Clubs.Ownership.Invariant.{serve-IsOwned}
use community_platform.Clubs.Shut.{Frozen, serve-Frozen}

abbrev uuid_at : ℕ → ℕ
uuid_at k = k * 2 ^ 80 + 7 * 2 ^ 76 + 2 * 2 ^ 62

abbrev services : Services
services = record { new_id = λ k. uuid_at (1000 + k); evaluate = λ p. ok true }

abbrev user : ℕ → AuthPrincipal
user k = record {
  user_id = k;
  email_verified = true;
  status = UserStatus.active;
  is_platform_admin = false;
}

abbrev choir : Club
choir = record {
  id = uuid_at 1;
  owner_user_id = 8;
  membership_policy = open_to_all;
  revision = 1;
  status = ClubStatus.published;
  closed_at = none;
}

abbrev archive : Club
archive = record {
  id = uuid_at 2;
  owner_user_id = 9;
  membership_policy = approval_required;
  revision = 4;
  status = ClubStatus.closed;
  closed_at = some 400;
}

abbrev tables : Tables
tables = record {
  clubs = choir ∷ archive ∷ [];
  memberships =
      record { id = 21; club_id = uuid_at 1; user_id = 8; role = ClubRole.owner; joined_at = 10 }
      ∷ record { id = 22; club_id = uuid_at 2; user_id = 9; role = ClubRole.owner; joined_at = 11 }
      ∷ record { id = 23; club_id = uuid_at 1; user_id = 5; role = ClubRole.admin; joined_at = 12 }
      ∷ [];
  join_requests =
      record {
        id = uuid_at 3;
        club_id = uuid_at 2;
        user_id = 5;
        status = JoinRequestStatus.pending;
        message = none;
        decided_by_user_id = none;
        decision_reason = none;
        decided_at = none;
        created_at = 13;
      }
      ∷ [];
  users =
      record {
        id = 5;
        status = UserStatus.active;
        email_verified = true;
        is_platform_admin = false;
      }
      ∷ [];
  outbox = [];
  audit = [];
  clock = 500;
  generated = 0;
}

-- A stranger joins the choir, its owner hands it over and leaves, and the archive is asked for.
abbrev script : List Request
script =
    joins (user 6) (uuid_at 1) none 71
    ∷ transfers (user 8) (uuid_at 1) 5 "moving away" 72
    ∷ leaves (user 8) (uuid_at 1) 73
    ∷ joins (user 6) (uuid_at 2) none 74
    ∷ closes (user 5) (uuid_at 1) "no more songs" 75 900
    ∷ []

owner_after : get_membership (uuid_at 1) 8 (serve services script tables) ≡ none
unfolding serve get_membership close join leave transfer
owner_after = refl

club_of_table :
    (k : ℕ) (c : Club) → find? (λ x. x.id == k) tables.clubs ≡ some c → Owned c tables.memberships
club_of_table k c h = elim (Bool-cases (choir.id == k)) [
  | inl e ↦
      let same : choir ≡ c = ground arith in
      subst (λ x. Owned x tables.memberships) same (record { one_owner = refl; named = refl })
  | inr e ↦ elim (Bool-cases (archive.id == k)) [
    | inl e₁ ↦
        let same : archive ≡ c = ground arith in
        subst (λ x. Owned x tables.memberships) same (record { one_owner = refl; named = refl })
    | inr e₁ ↦ ground arith
  ]
]

tables-IsOwned : IsOwned tables
tables-IsOwned = record { distinct = (refl, (refl, (refl, tt))); owned = club_of_table }

serve-IsOwned_example : IsOwned (serve services script tables)
serve-IsOwned_example = serve-IsOwned services script tables tables-IsOwned

archive_shut : is_shut archive.status ≡ true
unfolding is_shut
archive_shut = refl

serve-Frozen_example :
    Frozen archive
      (select (λ m. m.club_id == archive.id) tables.memberships)
      (select (λ r. r.club_id == archive.id) tables.join_requests)
      (serve services script tables)
serve-Frozen_example =
    serve-Frozen services script archive tables (refl, (refl, (refl, tt))) (refl, tt) refl
      archive_shut

abbrev answer_of : Result Error (JoinResult × Tables) → Option JoinResult
answer_of (ok (a, db)) = some a
answer_of (err e) = none

abbrev tables_of : Result Error (JoinResult × Tables) → Tables
tables_of (ok (a, db)) = db
tables_of (err e) = tables

abbrev newcomer : Membership
newcomer = record {
  id = uuid_at 1000;
  club_id = uuid_at 1;
  user_id = 6;
  role = ClubRole.member;
  joined_at = 500;
}

abbrev joined_tables : Tables
joined_tables = tables_of (join services (user 6) (uuid_at 1) none 71 tables)
