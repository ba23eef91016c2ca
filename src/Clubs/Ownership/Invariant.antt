-- ===== src/Clubs/Ownership/Invariant.antt =====
-- The ownership of clubs under a sequence of requests.
use community_platform.Base.{
  if◌then◌else◌, err, [], ◌∷◌, ℕ, ◌+◌, ◌≡◌, refl, sym, ◌∙◌, ap, subst, Bool, some, List, [], ◌∷◌,
  find?, count, update_where, map_option, ◌==◌, arith, Bool-cases, inl, inr, Distinct,
  Distinct-append, Distinct-update_where, Distinct-remove_where, find?-update_where, some_injective,
  some≢none, find?-holds, Option-cases, Result, ok,
}
use community_platform.Authorization.{ClubStatus}
use community_platform.Clubs.{Club, Membership, Tables, Services}
use community_platform.Clubs.Repository.{lock_club}
use community_platform.Clubs.Repository.Roles.{is_not_owner, is_owned_by, is_closable}
use community_platform.Clubs.Requests.{
  Request, joins, leaves, approves, rejects, changes_role, transfers, closes, committed, handle,
  serve,
}
use community_platform.Clubs.Service.{join, leave, approve, reject, change_role, transfer, close}
use community_platform.Clubs.Steps.{
  Opened, HandedOver, Step, quiet, enters, exits, regrades, hands_over, asks, withdraws, decides,
  Reach, here, Reach_induction,
}
use community_platform.Errors.{Error}
use community_platform.Clubs.Steps.Calls.{join-Reach, leave-Reach}
use community_platform.Clubs.Steps.Decisions.{approve-Reach, reject-Reach}
use community_platform.Clubs.Steps.Owners.{change_role-Reach, transfer-Reach, close-Reach}
use community_platform.Clubs.Ownership.{
  Owned, IsOwned, OfOwners, Owned-steady, Entered-steady, Left-steady, Regraded-steady,
  Regraded-not_owner,
}
use community_platform.Clubs.Ownership.Transfer.{
  HandedOver-Distinct, HandedOver-Owned_other, HandedOver-Owned_self,
}

-- Members may change where the clubs do not.
IsOwned-steady :
    {db db' : Tables}
    → IsOwned db
    → Distinct (λ m. m.id) db'.memberships
    → db'.clubs ≡ db.clubs
    → ((q : Membership → Bool) → OfOwners q → count q db'.memberships ≡ count q db.memberships)
    → IsOwned db'
IsOwned-steady {db} {db'} o d c h = record {
  distinct = d;
  owned = λ k x f.
      Owned-steady x db.memberships db'.memberships h
        (o.owned k x (subst (λ cs. find? (λ y. y.id == k) cs ≡ some x) c f));
}

-- A club that is found after an update was there before it.
pub updated_club :
    (k : ℕ) (p : Club → Bool) (f : Club → Club) (cs : List Club) (x : Club)
    → ((y : Club) → (f y).id ≡ y.id)
    → find? (λ y. y.id == k) (update_where p f cs) ≡ some x
    → (y : Club) × (find? (λ z. z.id == k) cs ≡ some y) × (x ≡ (if p y then f y else y))
updated_club k p f cs x same h =
    let e = find?-update_where (λ y. y.id == k) p f cs (λ y. ap (λ i. i == k) (same y)) in
    elim (Option-cases (find? (λ z. z.id == k) cs)) [
      | inl g ↦ absurd (some≢none (sym h ∙ e ∙ ap (map_option (λ y. if p y then f y else y)) g))
      | inr (y, g) ↦
          (y, g, some_injective (sym h ∙ e ∙ ap (map_option (λ y. if p y then f y else y)) g))
    ]

-- The members and the owners of clubs are left alone.
IsOwned-rows :
    {db db' : Tables} (f : Club → Club) (p : Club → Bool)
    → IsOwned db
    → db'.memberships ≡ db.memberships
    → db'.clubs ≡ update_where p f db.clubs
    → ((x : Club) → (f x).id ≡ x.id)
    → ((x : Club) → (f x).owner_user_id ≡ x.owner_user_id)
    → IsOwned db'
IsOwned-rows {db} {db'} f p o ms cs same_id same_owner = record {
  distinct = rw ms o.distinct;
  owned = λ k x g.
      let (y, found, row) =
        updated_club k p f db.clubs x same_id
          (subst (λ l. find? (λ z. z.id == k) l ≡ some x) cs g) in
      let was = o.owned k y found in
      let id : x.id ≡ y.id = ground (arith, row, same_id y) in
      let owner : x.owner_user_id ≡ y.owner_user_id = ground (arith, row, same_owner y) in
      record {
        one_owner = rw id (rw ms was.one_owner);
        named = rw id (rw owner (rw ms was.named));
      };
}

HandedOver-IsOwned :
    (c : Club) (a b : Membership) (db db' : Tables)
    → Opened c db
    → HandedOver c a b db db'
    → IsOwned db
    → IsOwned db'
unfolding lock_club
HandedOver-IsOwned c a b db db' opened t o = record {
  distinct = HandedOver-Distinct c a b db db' t o.distinct;
  owned = λ k x g.
      let new : Club → Club =
        λ y. record y { owner_user_id = b.user_id; revision = y.revision + 1 } in
      let (y, found, row) =
        updated_club k (is_owned_by c.id a.user_id) new db.clubs x (λ z. refl)
          (subst (λ l. find? (λ z. z.id == k) l ≡ some x) t.clubs g) in
      let named : y.id ≡ k = ground (arith, find?-holds (λ z. z.id == k) db.clubs y found) in
      elim (Bool-cases (k == c.id)) [
        | inl e ↦
            let same : k ≡ c.id = ground arith in
            let is_c : y ≡ c = some_injective (
              sym (subst (λ i. find? (λ z. z.id == i) db.clubs ≡ some y) same found)
              ∙ opened.found) in
            HandedOver-Owned_self c a b db db' t o.distinct x
              (ground (arith, row, is_c, t.old_user)) (ground (arith, row, is_c, t.old_user))
              (o.owned c.id c opened.found)
        | inr e ↦
            let same : x ≡ y = ground (arith, row, named) in
            HandedOver-Owned_other c a b db db' t o.distinct x (ground (arith, same, named))
              (subst (λ z. Owned z db.memberships) (sym same) (o.owned k y found))
      ];
}

Step-IsOwned : (db db' : Tables) → Step db db' → IsOwned db → IsOwned db'
Step-IsOwned db db' (quiet s) o =
    IsOwned-steady o (rw s.memberships o.distinct) s.clubs (λ q k. ap (count q) s.memberships)
Step-IsOwned db db' (enters c m opened e) o =
    IsOwned-steady o
      (rw e.memberships (Distinct-append (λ m. m.id) db.memberships m e.new o.distinct)) e.clubs
      (λ q k. Entered-steady c.id m db db' q e k)
Step-IsOwned db db' (exits c m opened l) o =
    IsOwned-steady o
      (rw l.memberships
        (Distinct-remove_where (λ m. m.id) (λ x. x.id == m.id) db.memberships o.distinct))
      l.clubs (λ q k. Left-steady c.id m db db' q o.distinct l k)
Step-IsOwned db db' (regrades c m to opened g) o =
    IsOwned-steady o
      (rw g.memberships (
        Distinct-update_where (λ m. m.id) (is_not_owner m.id) (λ x. record x { role = to })
          db.memberships (λ x. refl) o.distinct))
      g.clubs
      (λ q k.
        Regraded-steady c.id m to db db' q o.distinct g
          (Regraded-not_owner c m to db db' o.distinct
            (unfold lock_club in o.owned c.id c opened.found) g)
          k)
Step-IsOwned db db' (hands_over c a b opened t) o = HandedOver-IsOwned c a b db db' opened t o
Step-IsOwned db db' (Step.closes c now opened x) o =
    IsOwned-rows
      (λ c. record c {
        status = ClubStatus.closed;
        closed_at = some now;
        revision = c.revision + 1;
      })
      (is_closable c.id) o x.memberships x.clubs (λ y. refl) (λ y. refl)
Step-IsOwned db db' (asks c r opened x) o =
    IsOwned-steady o (rw x.memberships o.distinct) x.clubs (λ q k. ap (count q) x.memberships)
Step-IsOwned db db' (withdraws c user f opened x) o =
    IsOwned-steady o (rw x.memberships o.distinct) x.clubs (λ q k. ap (count q) x.memberships)
Step-IsOwned db db' (decides c r f opened club found x) o =
    IsOwned-steady o (rw x.memberships o.distinct) x.clubs (λ q k. ap (count q) x.memberships)

-- What every request leaves holds of what a sequence of them leaves.
pub serve_induction {κ} :
    (P : Tables → Type κ) (env : Services)
    → ((r : Request) (db : Tables) → P db → Reach db (handle env r db))
    → ((a b : Tables) → Step a b → P a → P b)
    → (rs : List Request) (db : Tables) → P db
    → P (serve env rs db)
unfolding serve
serve_induction P env reach step [] db h = h
serve_induction P env reach step (r ∷ rs) db h =
    serve_induction P env reach step rs (handle env r db) (Reach_induction P step h (reach r db h))

committed-Reach :
    {A : Type 0} (db : Tables) (r : Result Error (A × Tables))
    → ((a : A) (db' : Tables) → r ≡ ok (a, db') → Reach db db')
    → Reach db (committed db r)
committed-Reach db (ok (a, db')) k = k a db' refl
committed-Reach db (err e) k = here

-- A request that is served goes from tables whose members have identifiers of their own by steps.
pub handle-Reach :
    (env : Services) (r : Request) (db : Tables)
    → Distinct (λ m. m.id) db.memberships
    → Reach db (handle env r db)
unfolding handle
handle-Reach env (joins p club message request) db d =
    committed-Reach db (join env p club message request db)
      λ a db' e. join-Reach env p club message request a db db' e
handle-Reach env (leaves p club request) db d =
    committed-Reach db (leave env p club request db)
      λ a db' e. leave-Reach env p club request db db' d e
handle-Reach env (approves p club id reason request now) db d =
    committed-Reach db (approve env p club id reason request now db)
      λ a db' e. approve-Reach env p club id reason request now db db' e
handle-Reach env (rejects p club id reason request now) db d =
    committed-Reach db (reject env p club id reason request now db)
      λ a db' e. reject-Reach env p club id reason request now db db' e
handle-Reach env (changes_role p club user role reason request) db d =
    committed-Reach db (change_role env p club user role reason request db)
      λ a db' e. change_role-Reach env p club user role reason request db db' d e
handle-Reach env (transfers p club user reason request) db d =
    committed-Reach db (transfer env p club user reason request db)
      λ a db' e. transfer-Reach env p club user reason request db db' d e
handle-Reach env (closes p club reason request now) db d =
    committed-Reach db (close env p club reason request now db)
      λ a db' e. close-Reach env p club reason request now db db' e

-- From tables in which every club has one owner among its members, who is the user that its row
-- names, and the members have different identifiers, any sequence of joins, exits, approvals,
-- rejections, changes of role, transfers and closures, those that raise rolled back, leads to such
-- tables again: a club never loses its owner nor gets a second one.
pub serve-IsOwned :
    (env : Services) (rs : List Request) (db : Tables) → IsOwned db → IsOwned (serve env rs db)
serve-IsOwned env rs db o =
    serve_induction IsOwned env (λ r d h. handle-Reach env r d h.distinct) Step-IsOwned rs db o
