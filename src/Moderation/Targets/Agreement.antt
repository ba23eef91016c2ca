-- ===== src/Moderation/Targets/Agreement.antt =====
-- The two places that say what may be done to a target: `capabilities` of
-- apps/api/src/talaqi/moderation/service.py, and the WHERE of each statement of `apply_target_action` of
-- moderation/repository.py.
use community_platform.Base.{
  ℕ, ◌≡◌, refl, sym, ◌∙◌, ap, Bool, true, false, ◌&&◌, some, List, [], ◌∷◌, String, any, find?,
  ◌==◌, is_some, arith, Bool-cases, Option-cases, inl, inr, Distinct,
}
use community_platform.Authorization.{UserStatus, ClubStatus}
use community_platform.Events.{EventStatus}
use community_platform.Moderation.{
  TargetType, user, club, event, ModerationAction, suspend, unpublish, restore, TargetStatus,
  of_user, of_club, of_event, UserRow, ClubRow, EventRow, Tables,
}
use community_platform.Moderation.Repository.{status_of}
use community_platform.Moderation.Repository.Targets.{
  is_active_row, is_suspended_user, is_published_club, is_restorable_club, is_published_event,
  is_suspended_event, statement, apply_target_action, suspend_user, restore_user, suspend_club,
  unpublish_club, restore_club, suspend_event, restore_event,
}
use community_platform.Moderation.Service.{capabilities, allows}

-- The rows of each table have identifiers of their own.
pub record IsKeyed (db : Tables) : Type 0 where
  pub users : Distinct (λ u. u.id) db.users
  pub clubs : Distinct (λ c. c.id) db.clubs
  pub events : Distinct (λ e. e.id) db.events

module _ {ℓ} {A : Type ℓ} where
  any-narrow : (p q : A → Bool) (xs : List A) → any p xs ≡ false → any (λ x. p x && q x) xs ≡ false
  any-narrow p q [] h = refl
  any-narrow p q (x ∷ xs) h = ground (arith, any-narrow p q xs)

  -- A test of the row with a key is a test of the row that is found under it.
  any-found :
      (key : A → ℕ) (k : ℕ) (q : A → Bool) (a : A) (xs : List A)
      → Distinct key xs
      → find? (λ x. key x == k) xs ≡ some a
      → any (λ x. key x == k && q x) xs ≡ q a
  any-found key k q a [] d h = ground arith
  any-found key k q a (x ∷ xs) d h = elim (Bool-cases (key x == k)) [
    | inl e ↦
        let same : key x ≡ k = ground arith in
        let none_left =
          any-narrow (λ y. key y == k) q xs (ap (λ n. any (λ y. key y == n) xs) (sym same) ∙ d.0) in
        ground (arith, none_left)
    | inr e ↦ ground (arith, any-found key k q a xs d.1)
  ]

is_some-statement :
    (b : Bool) (s : TargetStatus) (f : Tables → Tables) (db : Tables)
    → is_some (statement b s f db).0 ≡ b
is_some-statement true s f db = refl
is_some-statement false s f db = refl

suspends_user_where :
    (s : UserStatus)
    → allows (capabilities (of_user s)) suspend ≡ (elim s [ UserStatus.active ↦ true | _ ↦ false ])
unfolding capabilities
suspends_user_where UserStatus.active = refl
suspends_user_where UserStatus.suspended = refl
suspends_user_where UserStatus.deleted = refl

unpublishes_user_where : (s : UserStatus) → allows (capabilities (of_user s)) unpublish ≡ false
unfolding capabilities
unpublishes_user_where UserStatus.active = refl
unpublishes_user_where UserStatus.suspended = refl
unpublishes_user_where UserStatus.deleted = refl

restores_user_where :
    (s : UserStatus)
    → allows (capabilities (of_user s)) restore
      ≡ (elim s [ UserStatus.suspended ↦ true | _ ↦ false ])
unfolding capabilities
restores_user_where UserStatus.active = refl
restores_user_where UserStatus.suspended = refl
restores_user_where UserStatus.deleted = refl

suspends_club_where :
    (s : ClubStatus)
    → allows (capabilities (of_club s)) suspend
      ≡ (elim s [ ClubStatus.published ↦ true | _ ↦ false ])
unfolding capabilities
suspends_club_where ClubStatus.draft = refl
suspends_club_where ClubStatus.published = refl
suspends_club_where ClubStatus.unpublished = refl
suspends_club_where ClubStatus.suspended = refl
suspends_club_where ClubStatus.closed = refl

unpublishes_club_where :
    (s : ClubStatus)
    → allows (capabilities (of_club s)) unpublish
      ≡ (elim s [ ClubStatus.published ↦ true | _ ↦ false ])
unfolding capabilities
unpublishes_club_where ClubStatus.draft = refl
unpublishes_club_where ClubStatus.published = refl
unpublishes_club_where ClubStatus.unpublished = refl
unpublishes_club_where ClubStatus.suspended = refl
unpublishes_club_where ClubStatus.closed = refl

restores_club_where :
    (s : ClubStatus)
    → allows (capabilities (of_club s)) restore
      ≡ (elim s [ ClubStatus.suspended ↦ true | ClubStatus.unpublished ↦ true | _ ↦ false ])
unfolding capabilities
restores_club_where ClubStatus.draft = refl
restores_club_where ClubStatus.published = refl
restores_club_where ClubStatus.unpublished = refl
restores_club_where ClubStatus.suspended = refl
restores_club_where ClubStatus.closed = refl

suspends_event_where :
    (s : EventStatus)
    → allows (capabilities (of_event s)) suspend
      ≡ (elim s [ EventStatus.published ↦ true | _ ↦ false ])
unfolding capabilities
suspends_event_where EventStatus.draft = refl
suspends_event_where EventStatus.published = refl
suspends_event_where EventStatus.cancelled = refl
suspends_event_where EventStatus.completed = refl
suspends_event_where EventStatus.suspended = refl

unpublishes_event_where : (s : EventStatus) → allows (capabilities (of_event s)) unpublish ≡ false
unfolding capabilities
unpublishes_event_where EventStatus.draft = refl
unpublishes_event_where EventStatus.published = refl
unpublishes_event_where EventStatus.cancelled = refl
unpublishes_event_where EventStatus.completed = refl
unpublishes_event_where EventStatus.suspended = refl

restores_event_where :
    (s : EventStatus)
    → allows (capabilities (of_event s)) restore
      ≡ (elim s [ EventStatus.suspended ↦ true | _ ↦ false ])
unfolding capabilities
restores_event_where EventStatus.draft = refl
restores_event_where EventStatus.published = refl
restores_event_where EventStatus.cancelled = refl
restores_event_where EventStatus.completed = refl
restores_event_where EventStatus.suspended = refl

user_agrees :
    (id : ℕ) (action : ModerationAction) (reason : String) (now : ℕ) (u : UserRow) (db : Tables)
    → Distinct (λ x. x.id) db.users
    → find? (λ x. x.id == id) db.users ≡ some u
    → allows (capabilities (of_user u.status)) action
      ≡ is_some (apply_target_action user id action reason now db).0
unfolding apply_target_action
user_agrees id suspend reason now u db d found =
    suspends_user_where u.status
    ∙ sym (any-found (λ x. x.id) id _ u db.users d found)
    ∙ sym (is_some-statement (any (is_active_row id) db.users) _ (suspend_user id reason now) db)
user_agrees id unpublish reason now u db d found = unpublishes_user_where u.status
user_agrees id restore reason now u db d found =
    restores_user_where u.status
    ∙ sym (any-found (λ x. x.id) id _ u db.users d found)
    ∙ sym (is_some-statement (any (is_suspended_user id) db.users) _ (restore_user id) db)

club_agrees :
    (id : ℕ) (action : ModerationAction) (reason : String) (now : ℕ) (u : ClubRow) (db : Tables)
    → Distinct (λ x. x.id) db.clubs
    → find? (λ x. x.id == id) db.clubs ≡ some u
    → allows (capabilities (of_club u.status)) action
      ≡ is_some (apply_target_action club id action reason now db).0
unfolding apply_target_action
club_agrees id suspend reason now u db d found =
    suspends_club_where u.status
    ∙ sym (any-found (λ x. x.id) id _ u db.clubs d found)
    ∙ sym
        (is_some-statement (any (is_published_club id) db.clubs) _ (suspend_club id reason now) db)
club_agrees id unpublish reason now u db d found =
    unpublishes_club_where u.status
    ∙ sym (any-found (λ x. x.id) id _ u db.clubs d found)
    ∙ sym (is_some-statement (any (is_published_club id) db.clubs) _ (unpublish_club id now) db)
club_agrees id restore reason now u db d found =
    restores_club_where u.status
    ∙ sym (any-found (λ x. x.id) id _ u db.clubs d found)
    ∙ sym (is_some-statement (any (is_restorable_club id) db.clubs) _ (restore_club id now) db)

event_agrees :
    (id : ℕ) (action : ModerationAction) (reason : String) (now : ℕ) (u : EventRow) (db : Tables)
    → Distinct (λ x. x.id) db.events
    → find? (λ x. x.id == id) db.events ≡ some u
    → allows (capabilities (of_event u.status)) action
      ≡ is_some (apply_target_action event id action reason now db).0
unfolding apply_target_action
event_agrees id suspend reason now u db d found =
    suspends_event_where u.status
    ∙ sym (any-found (λ x. x.id) id _ u db.events d found)
    ∙ sym (
        is_some-statement (any (is_published_event id) db.events) _ (suspend_event id reason now)
          db)
event_agrees id unpublish reason now u db d found = unpublishes_event_where u.status
event_agrees id restore reason now u db d found =
    restores_event_where u.status
    ∙ sym (any-found (λ x. x.id) id _ u db.events d found)
    ∙ sym (is_some-statement (any (is_suspended_event id) db.events) _ (restore_event id now) db)

-- Where the rows of the tables have identifiers of their own, an action is among the capabilities of a
-- target that was read exactly if `apply_target_action` finds a row to change and answers a status.
pub capabilities-apply_target_action :
    (t : TargetType) (id : ℕ) (action : ModerationAction) (reason : String) (now : ℕ)
    (before : TargetStatus) (db : Tables)
    → IsKeyed db
    → status_of t id db ≡ some before
    → allows (capabilities before) action
      ≡ is_some (apply_target_action t id action reason now db).0
unfolding status_of
capabilities-apply_target_action user id action reason now before db d h =
    elim (Option-cases (find? (λ x. x.id == id) db.users)) [
      | inl e ↦ ground arith
      | inr (u, e) ↦
          let same : of_user u.status ≡ before = ground arith in
          ap (λ s. allows (capabilities s) action) (sym same)
          ∙ user_agrees id action reason now u db d.users e
    ]
capabilities-apply_target_action club id action reason now before db d h =
    elim (Option-cases (find? (λ x. x.id == id) db.clubs)) [
      | inl e ↦ ground arith
      | inr (u, e) ↦
          let same : of_club u.status ≡ before = ground arith in
          ap (λ s. allows (capabilities s) action) (sym same)
          ∙ club_agrees id action reason now u db d.clubs e
    ]
capabilities-apply_target_action event id action reason now before db d h =
    elim (Option-cases (find? (λ x. x.id == id) db.events)) [
      | inl e ↦ ground arith
      | inr (u, e) ↦
          let same : of_event u.status ≡ before = ground arith in
          ap (λ s. allows (capabilities s) action) (sym same)
          ∙ event_agrees id action reason now u db d.events e
    ]
