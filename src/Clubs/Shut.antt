-- ===== src/Clubs/Shut.antt =====
-- Clubs that are suspended or closed.
use community_platform.Base.{
  select, select-append_other, select-remove_key, select-update_key, select-update_where, find?-key,
  if◌then◌else◌, ◌+◌, ◌≡◌, refl, sym, ◌∙◌, ap, subst, Bool, true, false, ◌&&◌, some, List, find?,
  update_where, map_option, ◌==◌, arith, Bool-cases, inl, inr, Distinct, Distinct-append,
  Distinct-update_where, Distinct-remove_where, find?-update_where, some_injective,
}
use community_platform.Authorization.{ClubStatus, ClubRole, is_shut}
use community_platform.Clubs.{Club, JoinRequest, Membership, Tables, Services}
use community_platform.Clubs.Repository.{lock_club, is_undecided, asks_for}
use community_platform.Clubs.Repository.Roles.{is_owner_row, is_not_owner, is_owned_by, is_closable}
use community_platform.Clubs.Requests.{Request, serve}
use community_platform.Clubs.Steps.{
  Opened, Updated, Step, quiet, enters, exits, regrades, hands_over, asks, withdraws, decides,
  without_owner,
}
use community_platform.Clubs.Ownership.Transfer.{
  demoted-Distinct, demoted_found, HandedOver-Distinct,
}
use community_platform.Clubs.Ownership.Invariant.{handle-Reach, serve_induction}

-- A club whose row, members and requests are given.
pub record Frozen (c : Club) (ms : List Membership) (rs : List JoinRequest) (db : Tables)
    : Type 0 where
  pub row : find? (λ x. x.id == c.id) db.clubs ≡ some c
  pub members : select (λ m. m.club_id == c.id) db.memberships ≡ ms
  pub requests : select (λ r. r.club_id == c.id) db.join_requests ≡ rs

-- The same, with the keys of the tables.
record Kept (c : Club) (ms : List Membership) (rs : List JoinRequest) (db : Tables) : Type 0 where
  frozen : Frozen c ms rs db
  distinct_members : Distinct (λ m. m.id) db.memberships
  distinct_requests : Distinct (λ r. r.id) db.join_requests

-- A club that is open is another one.
Opened-ne :
    (c x : Club) (db : Tables)
    → find? (λ y. y.id == c.id) db.clubs ≡ some c
    → is_shut c.status ≡ true
    → Opened x db
    → (x.id == c.id) ≡ false
unfolding lock_club
Opened-ne c x db f s o = elim (Bool-cases (x.id == c.id)) [
  | inr e ↦ e
  | inl e ↦
      let same : x.id ≡ c.id = ground arith in
      let one : x ≡ c =
        some_injective
          (sym (subst (λ k. find? (λ y. y.id == k) db.clubs ≡ some x) same o.found) ∙ f) in
      ground (arith, o.status, ap (λ y. is_shut y.status) one)
]

module _ (c : Club) (ms : List Membership) (rs : List JoinRequest) (db db' : Tables)
    (k : Kept c ms rs db) where
  -- A change of the members of another club.
  Kept-members :
      select (λ m. m.club_id == c.id) db'.memberships
        ≡ select (λ m. m.club_id == c.id) db.memberships
      → Distinct (λ m. m.id) db'.memberships
      → db'.clubs ≡ db.clubs
      → db'.join_requests ≡ db.join_requests
      → Kept c ms rs db'
  Kept-members m d cs q = record {
    frozen = record {
      row = rw cs k.frozen.row;
      members = m ∙ k.frozen.members;
      requests = rw q k.frozen.requests;
    };
    distinct_members = d;
    distinct_requests = rw q k.distinct_requests;
  }

  -- A change of the requests of another club.
  Kept-requests :
      select (λ m. m.club_id == c.id) db'.join_requests
        ≡ select (λ m. m.club_id == c.id) db.join_requests
      → Distinct (λ r. r.id) db'.join_requests
      → db'.clubs ≡ db.clubs
      → db'.memberships ≡ db.memberships
      → Kept c ms rs db'
  Kept-requests m d cs q = record {
    frozen = record {
      row = rw cs k.frozen.row;
      members = rw q k.frozen.members;
      requests = m ∙ k.frozen.requests;
    };
    distinct_members = rw q k.distinct_members;
    distinct_requests = d;
  }

  -- An update of another club.
  row_kept :
      (p : Club → Bool) (f : Club → Club)
      → db'.clubs ≡ update_where p f db.clubs
      → ((x : Club) → (f x).id ≡ x.id)
      → p c ≡ false
      → find? (λ x. x.id == c.id) db'.clubs ≡ some c
  row_kept p f cs same n = rw cs (
      find?-update_where (λ y. y.id == c.id) p f db.clubs (λ y. ap (λ i. i == c.id) (same y))
      ∙ ap (map_option (λ y. if p y then f y else y)) k.frozen.row
      ∙ ground arith)

  Updated-Kept :
      (p : JoinRequest → Bool) (f : JoinRequest → JoinRequest)
      → Updated p f db db'
      → select (λ m. m.club_id == c.id) (update_where p f db.join_requests)
        ≡ select (λ m. m.club_id == c.id) db.join_requests
      → Kept c ms rs db'
  Updated-Kept p f u e =
      Kept-requests (rw u.join_requests e)
        (rw u.join_requests
          (Distinct-update_where (λ r. r.id) p f db.join_requests u.same_id k.distinct_requests))
        u.clubs u.memberships

  Step-Kept : is_shut c.status ≡ true → Step db db' → Kept c ms rs db'
  Step-Kept s (quiet x) =
      Kept-members (rw x.memberships refl) (rw x.memberships k.distinct_members) x.clubs
        x.join_requests
  Step-Kept s (enters x m o e) =
      Kept-members
        (rw e.memberships (
          select-append_other (λ m. m.club_id == c.id) db.memberships m
            (ground (arith, Opened-ne c x db k.frozen.row s o, e.club))))
        (rw e.memberships (Distinct-append (λ m. m.id) db.memberships m e.new k.distinct_members))
        e.clubs e.join_requests
  Step-Kept s (exits x m o l) =
      Kept-members
        (rw l.memberships (
          select-remove_key (λ m. m.id) m.id (λ m. m.club_id == c.id) m db.memberships
            k.distinct_members l.found (ground (arith, Opened-ne c x db k.frozen.row s o, l.club))))
        (rw l.memberships
          (Distinct-remove_where (λ m. m.id) (λ y. y.id == m.id) db.memberships k.distinct_members))
        l.clubs l.join_requests
  Step-Kept s (regrades x m to o g) =
      let other : (m.club_id == c.id) ≡ false =
        ground (arith, Opened-ne c x db k.frozen.row s o, g.club) in
      Kept-members
        (rw g.memberships (
          select-update_key (λ m. m.id) m.id (λ m. m.club_id == c.id) (is_not_owner m.id)
            (λ y. record y { role = to }) m db.memberships k.distinct_members g.found
            (λ y e. ground arith) other other))
        (rw g.memberships (
          Distinct-update_where (λ m. m.id) (is_not_owner m.id) (λ y. record y { role = to })
            db.memberships (λ y. refl) k.distinct_members))
        g.clubs g.join_requests
  Step-Kept s (hands_over x a b o t) =
      let apart = Opened-ne c x db k.frozen.row s o in
      let other_a : (a.club_id == c.id) ≡ false = ground (arith, apart, t.old_club) in
      let other_b : (b.club_id == c.id) ≡ false = ground (arith, apart, t.new_club) in
      let d = k.distinct_members in
      let first =
        select-update_key (λ m. m.id) a.id (λ m. m.club_id == c.id) (is_owner_row a.id)
          (λ y. record y { role = ClubRole.member }) a db.memberships d t.old_found
          (λ y e. ground arith) other_a other_a in
      let second =
        select-update_key (λ m. m.id) b.id (λ m. m.club_id == c.id) (is_not_owner b.id)
          (λ y. record y { role = ClubRole.owner }) b (without_owner a.id db.memberships)
          (demoted-Distinct x a b db db' t d) (demoted_found x a b db db' t d) (λ y e. ground arith)
          other_b other_b in
      record {
        frozen = record {
          row =
              row_kept (is_owned_by x.id a.user_id)
                (λ y. record y { owner_user_id = b.user_id; revision = y.revision + 1 }) t.clubs
                (λ y. refl) (ground (arith, apart));
          members = rw t.memberships (second ∙ first ∙ k.frozen.members);
          requests = rw t.join_requests k.frozen.requests;
        };
        distinct_members = HandedOver-Distinct x a b db db' t d;
        distinct_requests = rw t.join_requests k.distinct_requests;
      }
  Step-Kept s (Step.closes x now o e) = record {
    frozen = record {
      row =
          row_kept (is_closable x.id)
            (λ c. record c {
              status = ClubStatus.closed;
              closed_at = some now;
              revision = c.revision + 1;
            })
            e.clubs (λ y. refl) (ground (arith, Opened-ne c x db k.frozen.row s o));
      members = rw e.memberships k.frozen.members;
      requests = rw e.join_requests k.frozen.requests;
    };
    distinct_members = rw e.memberships k.distinct_members;
    distinct_requests = rw e.join_requests k.distinct_requests;
  }
  Step-Kept s (asks x r o e) =
      Kept-requests
        (rw e.join_requests (
          select-append_other (λ m. m.club_id == c.id) db.join_requests r
            (ground (arith, Opened-ne c x db k.frozen.row s o, e.club))))
        (rw e.join_requests
          (Distinct-append (λ r. r.id) db.join_requests r e.new k.distinct_requests))
        e.clubs e.memberships
  Step-Kept s (withdraws x user f o u) = Updated-Kept (asks_for x.id user) f u (
      select-update_where (λ m. m.club_id == c.id) (asks_for x.id user) f db.join_requests
        (λ y e. ground (arith, Opened-ne c x db k.frozen.row s o))
        (λ y. ap (λ i. i == c.id) (u.same_club y)))
  Step-Kept s (decides x r f o club found u) =
      let other : (r.club_id == c.id) ≡ false =
        ground (arith, Opened-ne c x db k.frozen.row s o, club) in
      Updated-Kept (is_undecided r.id) f u (
        select-update_key (λ r. r.id) r.id (λ m. m.club_id == c.id) (is_undecided r.id) f r
          db.join_requests k.distinct_requests
          (find?-key (λ r. r.id) (λ y. y.club_id == x.id && y.id == r.id) r db.join_requests
            k.distinct_requests found)
          (λ y e. ground arith) other (ground (arith, u.same_club r, other)))

-- Where the members and the requests have identifiers of their own, a club that is suspended or
-- closed stays as it is under any sequence of requests: its row, its members and its requests to join
-- are the same afterwards.
pub serve-Frozen :
    (env : Services) (reqs : List Request) (c : Club) (db : Tables)
    → Distinct (λ m. m.id) db.memberships
    → Distinct (λ r. r.id) db.join_requests
    → find? (λ x. x.id == c.id) db.clubs ≡ some c
    → is_shut c.status ≡ true
    → Frozen c
        (select (λ m. m.club_id == c.id) db.memberships)
        (select (λ r. r.club_id == c.id) db.join_requests)
        (serve env reqs db)
serve-Frozen env reqs c db d e f s =
    let ms = select (λ m. m.club_id == c.id) db.memberships in
    let rs = select (λ r. r.club_id == c.id) db.join_requests in
    (serve_induction (Kept c ms rs) env (λ r x k. handle-Reach env r x k.distinct_members)
      (λ x y st k. Step-Kept c ms rs x y k s st) reqs db
      (record {
        frozen = record { row = f; members = refl; requests = refl };
        distinct_members = d;
        distinct_requests = e;
      })).frozen
