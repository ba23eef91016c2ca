-- ===== src/Clubs/Steps/Writes/Asking.antt =====
-- What the statements on requests, and the removal of a member, do to the tables when they return
-- (apps/api/src/talaqi/clubs/membership_repository.py).
use community_platform.Base.{
  String, ok_eq, ℕ, ◌≡◌, refl, sym, ◌∙◌, ap, subst, Bool, true, false, Option, none, some, find?,
  any, update_where, remove_where, ◌==◌, arith, ok, continue_elim, Bool-cases, inl, inr, select,
}
use community_platform.Clubs.{Membership, JoinRequest, pending, cancelled, Tables, Services}
use community_platform.Clubs.Repository.{
  publish, request_for, remove_row, decide_row, is_owner, is_undecided, asks_for, insert_request,
  notify_organizers, organizes, create_or_get_pending_request, cancel_pending_request,
  remove_membership, Decision, decided_row, decide_request,
}
use community_platform.Clubs.Steps.{Same, Left, Asked, Updated}
use community_platform.Clubs.Steps.Writes.{publish-Same, notify_organizers-Same}

-- A request that is pending: one that is there, or a new one.
pub data Pending (club_id user_id : ℕ) (r : JoinRequest) (db db' : Tables) : Bool → Type 0 where
  was_asked :
      find? (asks_for club_id user_id) db.join_requests ≡ some r
      → db' ≡ db
      → Pending club_id user_id r db db' false
  asked :
      find? (asks_for club_id user_id) db.join_requests ≡ none
      → r.user_id ≡ user_id
      → r.status ≡ pending
      → Asked club_id r db db'
      → Pending club_id user_id r db db' true

insert_request-Asked :
    (env : Services) (club_id user_id : ℕ) (message : Option String) (r : JoinRequest)
    (db db' : Tables)
    → insert_request env club_id user_id message db ≡ ok (r, db')
    → Asked club_id r db db' × (r.user_id ≡ user_id) × (r.status ≡ pending)
unfolding insert_request
insert_request-Asked env club_id user_id message r db db' h =
    elim (Bool-cases (any (λ r. r.id == env.new_id db.generated) db.join_requests)) [
      | inl e ↦ ground arith
      | inr e ↦ ground arith
    ]

Asked-Same :
    {club_id : ℕ} {r : JoinRequest} {db db₁ db' : Tables}
    → Asked club_id r db db₁
    → Same db₁ db'
    → Asked club_id r db db'
Asked-Same a s = record {
  club = a.club;
  new = a.new;
  join_requests = s.join_requests ∙ a.join_requests;
  clubs = s.clubs ∙ a.clubs;
  memberships = s.memberships ∙ a.memberships;
}

request_for-Pending :
    (env : Services) (club_id user_id : ℕ) (message : Option String) (found : Option JoinRequest)
    (r : JoinRequest) (new : Bool) (db db' : Tables)
    → find? (asks_for club_id user_id) db.join_requests ≡ found
    → request_for env club_id user_id message found db ≡ ok ((r, new), db')
    → Pending club_id user_id r db db' new
unfolding request_for
request_for-Pending env club_id user_id message (some x) r new db db' f h =
    subst (Pending club_id user_id r db db') (ap (λ y. y.1) (ok_eq h).0)
      (was_asked (f ∙ ap some (ap (λ y. y.0) (ok_eq h).0)) (sym (ok_eq h).1))
request_for-Pending env club_id user_id message none r new db db' f h =
    continue_elim (insert_request env club_id user_id message db) _ h λ x db₁ e h₁.
      continue_elim (notify_organizers env x (select (organizes club_id) db₁.memberships) db₁) _ h₁
        λ u db₂ e₂ h₂.
          let (same, last) = ok_eq h₂ in
          let (a, user, status) = insert_request-Asked env club_id user_id message x db db₁ e in
          let asked_all = Asked-Same a (
            notify_organizers-Same env x (select (organizes club_id) db₁.memberships) db₁ db₂ e₂) in
          subst (λ d. Pending club_id user_id r db d new) last
            (subst (λ y. Pending club_id user_id y.0 db db₂ y.1) same
              (asked f user status asked_all))

pub create_or_get_pending_request-Pending :
    (env : Services) (club_id user_id : ℕ) (message : Option String) (r : JoinRequest) (new : Bool)
    (db db' : Tables)
    → create_or_get_pending_request env club_id user_id message db ≡ ok ((r, new), db')
    → Pending club_id user_id r db db' new
unfolding create_or_get_pending_request
create_or_get_pending_request-Pending env club_id user_id message r new db db' h =
    request_for-Pending env club_id user_id message
      (find? (asks_for club_id user_id) db.join_requests) r new db db' refl h

pub cancel_pending_request-Updated :
    (club_id user_id : ℕ) (done : Bool) (db db' : Tables)
    → cancel_pending_request club_id user_id db ≡ ok (done, db')
    → Updated (asks_for club_id user_id) (λ r. record r { status = cancelled }) db db'
unfolding cancel_pending_request
cancel_pending_request-Updated club_id user_id done db db' h = record {
  same_id = λ x. refl;
  same_club = λ x. refl;
  same_user = λ x. refl;
  was_pending = λ x e. ground arith;
  join_requests = ground arith;
  clubs = ground arith;
  memberships = ground arith;
}

remove_row-Left :
    (env : Services) (m x : Membership) (club_id : ℕ) (db db' : Tables)
    → find? (λ y. y.id == m.id) db.memberships ≡ some m
    → m.club_id ≡ club_id
    → is_owner m.role ≡ false
    → remove_row env m.id (some x) db ≡ ok (tt, db')
    → Left club_id m db db'
unfolding remove_row
remove_row-Left env m x club_id db db' f c o h =
    let removed : Tables = record db {
      memberships = remove_where (λ y. y.id == m.id) db.memberships;
    } in
    let s = publish-Same env _ removed db' h in
    record {
      club = c;
      role = o;
      found = f;
      memberships = s.memberships;
      clubs = s.clubs;
      join_requests = s.join_requests;
    }

pub remove_membership-Left :
    (env : Services) (m : Membership) (club_id : ℕ) (db db' : Tables)
    → find? (λ y. y.id == m.id) db.memberships ≡ some m
    → m.club_id ≡ club_id
    → is_owner m.role ≡ false
    → remove_membership env m.id db ≡ ok (tt, db')
    → Left club_id m db db'
unfolding remove_membership
remove_membership-Left env m club_id db db' f c o h =
    remove_row-Left env m m club_id db db' f c o
      (subst (λ k. remove_row env m.id k db ≡ ok (tt, db')) f h)

decide_row-Updated :
    (env : Services) (id : ℕ) (d : Decision) (actor : ℕ) (reason : String) (at : ℕ)
    (found : Option JoinRequest) (r : JoinRequest) (db db' : Tables)
    → decide_row env id d actor reason at found db ≡ ok (r, db')
    → Updated (is_undecided id) (decided_row d actor reason at) db db'
      × ((x : JoinRequest) × (found ≡ some x) × (r ≡ decided_row d actor reason at x))
unfolding decide_row
decide_row-Updated env id d actor reason at none r db db' h = ground arith
decide_row-Updated env id d actor reason at (some x) r db db' h =
    let changed : Tables = record db {
      join_requests =
          update_where (is_undecided id) (decided_row d actor reason at) db.join_requests;
    } in
    continue_elim (publish env _ changed) _ h λ u db₁ e h₁.
      let s = publish-Same env _ changed db₁ e in
      let (same, last) = ok_eq h₁ in
      (
        subst (Updated (is_undecided id) (decided_row d actor reason at) db) last (
            unfold decided_row in
            record {
              same_id = λ y. refl;
              same_club = λ y. refl;
              same_user = λ y. refl;
              was_pending = λ y k. ground arith;
              join_requests = s.join_requests;
              clubs = s.clubs;
              memberships = s.memberships;
            }),
        (x, refl, sym same),
      )

pub decide_request-Updated :
    (env : Services) (id : ℕ) (d : Decision) (actor : ℕ) (reason : String) (at : ℕ)
    (r : JoinRequest) (db db' : Tables)
    → decide_request env id d actor reason at db ≡ ok (r, db')
    → Updated (is_undecided id) (decided_row d actor reason at) db db'
      × ((x : JoinRequest) × (find? (is_undecided id) db.join_requests ≡ some x)
          × (r ≡ decided_row d actor reason at x))
unfolding decide_request
decide_request-Updated env id d actor reason at r db db' h =
    decide_row-Updated env id d actor reason at (find? (is_undecided id) db.join_requests) r db db'
      h
