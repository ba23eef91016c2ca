-- ===== src/Moderation/Targets.antt =====
-- What an action does to its target: `apply_target_action` of
-- apps/api/src/talaqi/moderation/repository.py, where `capabilities` of moderation/service.py allow it.
pub mod Agreement
pub mod Rows
use community_platform.Base.{
  ℕ, ◌≡◌, refl, ap, Bool, true, false, ◌&&◌, some, List, [], ◌∷◌, any, find?, update_where, ◌==◌,
  is_none, arith, Bool-cases, inl, inr,
}
use community_platform.Authorization.{UserStatus, ClubStatus}
use community_platform.Moderation.{
  TargetType, user, club, event, ModerationAction, suspend, unpublish, restore, TargetStatus,
  of_user, of_club, of_event, UserRow, ClubRow, EventRow, InviteToken, Tables,
}
use community_platform.Moderation.Repository.{status_of}
use community_platform.Moderation.Repository.Targets.{revoke, is_event_of}
use community_platform.Events.{EventStatus}

-- The changes that the actions make.
pub data Change : ModerationAction → TargetStatus → TargetStatus → Type 0 where
  suspends_user : Change suspend (of_user UserStatus.active) (of_user UserStatus.suspended)
  restores_user : Change restore (of_user UserStatus.suspended) (of_user UserStatus.active)
  suspends_club : Change suspend (of_club ClubStatus.published) (of_club ClubStatus.suspended)
  unpublishes_club :
      Change unpublish (of_club ClubStatus.published) (of_club ClubStatus.unpublished)
  restores_club : Change restore (of_club ClubStatus.suspended) (of_club ClubStatus.published)
  republishes_club : Change restore (of_club ClubStatus.unpublished) (of_club ClubStatus.published)
  suspends_event : Change suspend (of_event EventStatus.published) (of_event EventStatus.suspended)
  restores_event : Change restore (of_event EventStatus.suspended) (of_event EventStatus.published)

-- The invites of a target that somebody could still use.
abbrev pub concerns : TargetType → ℕ → List EventRow → InviteToken → Bool
concerns user id events i = false
concerns club id events i = is_event_of id events i.event_id && is_none i.revoked_at
concerns event id events i = i.event_id == id && is_none i.revoked_at

abbrev pub takes_down : ModerationAction → Bool
takes_down restore = false
takes_down _ = true

-- What the action has done to the target, and to nothing else.
pub record Effect (t : TargetType) (id : ℕ) (action : ModerationAction) (before : TargetStatus)
    (db db' : Tables) : Type 0 where
  pub after : TargetStatus
  pub change : Change action before after
  pub found : status_of t id db' ≡ some after
  pub withdrawn : takes_down action ≡ true → any (concerns t id db'.events) db'.invites ≡ false
  pub others : (k : ℕ) → (k == id) ≡ false → status_of t k db' ≡ status_of t k db

module _ {ℓ} {A : Type ℓ} where
  -- A search that an update does not touch.
  find?-update_other :
      (p q : A → Bool) (f : A → A) (xs : List A)
      → ((x : A) → p (f x) ≡ p x)
      → ((x : A) → p x ≡ true → q x ≡ false)
      → find? p (update_where q f xs) ≡ find? p xs
  find?-update_other p q f [] h k = refl
  find?-update_other p q f (x ∷ xs) h k = ground (arith, h x, k x, find?-update_other p q f xs h k)

  -- A search for a row that the update changes.
  find?-update_hit :
      (p q : A → Bool) (f : A → A) (a : A) (xs : List A)
      → ((x : A) → p (f x) ≡ p x)
      → find? p xs ≡ some a
      → q a ≡ true
      → find? p (update_where q f xs) ≡ some (f a)
  find?-update_hit p q f a [] h e k = ground arith
  find?-update_hit p q f a (x ∷ xs) h e k = ground (arith, h x, find?-update_hit p q f a xs h)

-- Nothing that has been revoked can be used.
revoked_all :
    (p : ℕ → Bool) (now : ℕ) (xs : List InviteToken)
    → any (λ i. p i.event_id && is_none i.revoked_at) (revoke p now xs) ≡ false
unfolding revoke
revoked_all p now [] = refl
revoked_all p now (i ∷ is) = elim (Bool-cases (p i.event_id && is_none i.revoked_at)) [
  | inl h ↦ ground (arith, h, revoked_all p now is)
  | inr h ↦ ground (arith, h, revoked_all p now is)
]

any-false : (is : List InviteToken) → any (λ i. false) is ≡ false
any-false [] = refl
any-false (i ∷ is) = any-false is

-- A row under one identifier is not among those of another.
other_row :
    (k id n : ℕ) (b : Bool)
    → (k == id) ≡ false
    → (n == k) ≡ true
    → (b ≡ true → (n == id) ≡ true)
    → b ≡ false
other_row k id n true ne e h = ground (arith, h refl)
other_row k id n false ne e h = refl

-- An update of the row of a target, with what it does to the invites, is an effect on it.
user_update-Effect :
    (action : ModerationAction) (id : ℕ) (q : UserRow → Bool) (f : UserRow → UserRow) (u : UserRow)
    (db : Tables)
    → find? (λ x. x.id == id) db.users ≡ some u
    → q u ≡ true
    → ((x : UserRow) → (f x).id ≡ x.id)
    → ((x : UserRow) → q x ≡ true → (x.id == id) ≡ true)
    → Change action (of_user u.status) (of_user (f u).status)
    → Effect user id action (of_user u.status) db (record db { users = update_where q f db.users })
unfolding status_of
user_update-Effect action id q f u db found hit same keyed change = record {
  after = of_user (f u).status;
  change = change;
  found =
      rw
        (
          status_of,
          (find?-update_hit (λ x. x.id == id) q f u db.users (λ x. ap (λ n. n == id) (same x)) found
              hit),
        )
        refl;
  withdrawn = λ h. any-false db.invites;
  others = λ k ne.
      rw
        (
          status_of,
          find?-update_other (λ x. x.id == k) q f db.users (λ x. ap (λ n. n == k) (same x))
              (λ x e. other_row k id x.id (q x) ne e (keyed x)),
        )
        refl;
}

club_update-Effect :
    (action : ModerationAction) (id : ℕ) (q : ClubRow → Bool) (f : ClubRow → ClubRow) (u : ClubRow)
    (invites : List InviteToken) (db : Tables)
    → find? (λ x. x.id == id) db.clubs ≡ some u
    → q u ≡ true
    → ((x : ClubRow) → (f x).id ≡ x.id)
    → ((x : ClubRow) → q x ≡ true → (x.id == id) ≡ true)
    → Change action (of_club u.status) (of_club (f u).status)
    → (takes_down action ≡ true → any (concerns club id db.events) invites ≡ false)
    → Effect club id action
        (of_club u.status)
        db
        (record db { clubs = update_where q f db.clubs; invites = invites })
unfolding status_of
club_update-Effect action id q f u invites db found hit same keyed change gone = record {
  after = of_club (f u).status;
  change = change;
  found =
      rw
        (
          status_of,
          (find?-update_hit (λ x. x.id == id) q f u db.clubs (λ x. ap (λ n. n == id) (same x)) found
              hit),
        )
        refl;
  withdrawn = gone;
  others = λ k ne.
      rw
        (
          status_of,
          find?-update_other (λ x. x.id == k) q f db.clubs (λ x. ap (λ n. n == k) (same x))
              (λ x e. other_row k id x.id (q x) ne e (keyed x)),
        )
        refl;
}

event_update-Effect :
    (action : ModerationAction) (id : ℕ) (q : EventRow → Bool) (f : EventRow → EventRow)
    (u : EventRow) (invites : List InviteToken) (db : Tables)
    → find? (λ x. x.id == id) db.events ≡ some u
    → q u ≡ true
    → ((x : EventRow) → (f x).id ≡ x.id)
    → ((x : EventRow) → q x ≡ true → (x.id == id) ≡ true)
    → Change action (of_event u.status) (of_event (f u).status)
    → (takes_down action ≡ true → any (concerns event id []) invites ≡ false)
    → Effect event id action
        (of_event u.status)
        db
        (record db { events = update_where q f db.events; invites = invites })
unfolding status_of
event_update-Effect action id q f u invites db found hit same keyed change gone = record {
  after = of_event (f u).status;
  change = change;
  found =
      rw
        (
          status_of,
          (find?-update_hit (λ x. x.id == id) q f u db.events (λ x. ap (λ n. n == id) (same x))
              found hit),
        )
        refl;
  withdrawn = gone;
  others = λ k ne.
      rw
        (
          status_of,
          find?-update_other (λ x. x.id == k) q f db.events (λ x. ap (λ n. n == k) (same x))
              (λ x e. other_row k id x.id (q x) ne e (keyed x)),
        )
        refl;
}
