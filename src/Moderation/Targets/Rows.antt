-- ===== src/Moderation/Targets/Rows.antt =====
-- What each statement of `apply_target_action` (apps/api/src/talaqi/moderation/repository.py) does
-- to the row of its target.
use community_platform.Base.{
  ℕ, ◌≡◌, refl, ap, subst, Bool, true, false, ◌&&◌, some, String, any, find?, find?-holds, ◌==◌,
  arith,
}
use community_platform.Authorization.{UserStatus, ClubStatus}
use community_platform.Moderation.{
  TargetType, user, club, event, ModerationAction, suspend, unpublish, restore, TargetStatus,
  of_user, of_club, of_event, UserRow, ClubRow, EventRow, Tables,
}
use community_platform.Moderation.Repository.Targets.{
  apply_target_action, statement, suspend_user, restore_user, suspend_club, unpublish_club,
  restore_club, suspend_event, restore_event, is_active_row, is_suspended_user, is_published_club,
  is_restorable_club, is_published_event, is_suspended_event, is_event_of,
}
use community_platform.Moderation.Service.{capabilities, allows}
use community_platform.Events.{EventStatus}
use community_platform.Moderation.Targets.{
  Change, Effect, revoked_all, club_update-Effect, event_update-Effect, suspends_user,
  restores_user, suspends_club, unpublishes_club, restores_club, republishes_club, suspends_event,
  restores_event, user_update-Effect,
}

-- A statement that answers a status has made its change.
statement_made :
    (b : Bool) (s : TargetStatus) (f : Tables → Tables) (db changed : Tables) (after : TargetStatus)
    → statement b s f db ≡ (some after, changed)
    → f db ≡ changed
statement_made true s f db changed after h = ap (λ z. z.1) h
statement_made false s f db changed after h = cc

Effect-moved :
    {t : TargetType} {id : ℕ} {action : ModerationAction} {before : TargetStatus}
    {db db' db'' : Tables}
    → db' ≡ db''
    → Effect t id action before db db'
    → Effect t id action before db db''
Effect-moved {t} {id} {action} {before} {db} e x = subst (Effect t id action before db) e x

-- What the capabilities of a user ask of its status.
suspends_user_lem :
    (s : UserStatus)
    → allows (capabilities (of_user s)) suspend ≡ true
    → ((elim s [ UserStatus.active ↦ true | _ ↦ false ]) ≡ true)
      × Change suspend (of_user s) (of_user UserStatus.suspended)
unfolding capabilities
suspends_user_lem UserStatus.active h = (refl, suspends_user)
suspends_user_lem UserStatus.suspended h = cc
suspends_user_lem UserStatus.deleted h = cc

unpublishes_no_user : (s : UserStatus) → allows (capabilities (of_user s)) unpublish ≡ false
unfolding capabilities
unpublishes_no_user UserStatus.active = refl
unpublishes_no_user UserStatus.suspended = refl
unpublishes_no_user UserStatus.deleted = refl

restores_user_lem :
    (s : UserStatus)
    → allows (capabilities (of_user s)) restore ≡ true
    → ((elim s [ UserStatus.suspended ↦ true | _ ↦ false ]) ≡ true)
      × Change restore (of_user s) (of_user UserStatus.active)
unfolding capabilities
restores_user_lem UserStatus.active h = cc
restores_user_lem UserStatus.suspended h = (refl, restores_user)
restores_user_lem UserStatus.deleted h = cc

suspends_club_lem :
    (s : ClubStatus)
    → allows (capabilities (of_club s)) suspend ≡ true
    → ((elim s [ ClubStatus.published ↦ true | _ ↦ false ]) ≡ true)
      × Change suspend (of_club s) (of_club ClubStatus.suspended)
unfolding capabilities
suspends_club_lem ClubStatus.draft h = cc
suspends_club_lem ClubStatus.published h = (refl, suspends_club)
suspends_club_lem ClubStatus.unpublished h = cc
suspends_club_lem ClubStatus.suspended h = cc
suspends_club_lem ClubStatus.closed h = cc

unpublishes_club_lem :
    (s : ClubStatus)
    → allows (capabilities (of_club s)) unpublish ≡ true
    → ((elim s [ ClubStatus.published ↦ true | _ ↦ false ]) ≡ true)
      × Change unpublish (of_club s) (of_club ClubStatus.unpublished)
unfolding capabilities
unpublishes_club_lem ClubStatus.draft h = cc
unpublishes_club_lem ClubStatus.published h = (refl, unpublishes_club)
unpublishes_club_lem ClubStatus.unpublished h = cc
unpublishes_club_lem ClubStatus.suspended h = cc
unpublishes_club_lem ClubStatus.closed h = cc

restores_club_lem :
    (s : ClubStatus)
    → allows (capabilities (of_club s)) restore ≡ true
    → ((elim s [ ClubStatus.suspended ↦ true | ClubStatus.unpublished ↦ true | _ ↦ false ]) ≡ true)
      × Change restore (of_club s) (of_club ClubStatus.published)
unfolding capabilities
restores_club_lem ClubStatus.draft h = cc
restores_club_lem ClubStatus.published h = cc
restores_club_lem ClubStatus.unpublished h = (refl, republishes_club)
restores_club_lem ClubStatus.suspended h = (refl, restores_club)
restores_club_lem ClubStatus.closed h = cc

suspends_event_lem :
    (s : EventStatus)
    → allows (capabilities (of_event s)) suspend ≡ true
    → ((elim s [ EventStatus.published ↦ true | _ ↦ false ]) ≡ true)
      × Change suspend (of_event s) (of_event EventStatus.suspended)
unfolding capabilities
suspends_event_lem EventStatus.draft h = cc
suspends_event_lem EventStatus.published h = (refl, suspends_event)
suspends_event_lem EventStatus.cancelled h = cc
suspends_event_lem EventStatus.completed h = cc
suspends_event_lem EventStatus.suspended h = cc

unpublishes_no_event : (s : EventStatus) → allows (capabilities (of_event s)) unpublish ≡ false
unfolding capabilities
unpublishes_no_event EventStatus.draft = refl
unpublishes_no_event EventStatus.published = refl
unpublishes_no_event EventStatus.cancelled = refl
unpublishes_no_event EventStatus.completed = refl
unpublishes_no_event EventStatus.suspended = refl

restores_event_lem :
    (s : EventStatus)
    → allows (capabilities (of_event s)) restore ≡ true
    → ((elim s [ EventStatus.suspended ↦ true | _ ↦ false ]) ≡ true)
      × Change restore (of_event s) (of_event EventStatus.published)
unfolding capabilities
restores_event_lem EventStatus.draft h = cc
restores_event_lem EventStatus.published h = cc
restores_event_lem EventStatus.cancelled h = cc
restores_event_lem EventStatus.completed h = cc
restores_event_lem EventStatus.suspended h = (refl, restores_event)

both : {a b : Bool} → a ≡ true → b ≡ true → (a && b) ≡ true
both h k = ground arith

left : (a b : Bool) → (a && b) ≡ true → a ≡ true
left true b h = refl
left false b h = cc

pub user-Effect :
    (id : ℕ) (action : ModerationAction) (reason : String) (now : ℕ) (u : UserRow)
    (db changed : Tables) (after : TargetStatus)
    → find? (λ x. x.id == id) db.users ≡ some u
    → allows (capabilities (of_user u.status)) action ≡ true
    → apply_target_action user id action reason now db ≡ (some after, changed)
    → Effect user id action (of_user u.status) db changed
unfolding apply_target_action suspend_user restore_user
user-Effect id suspend reason now u db changed after found allowed h =
    let (hit, change) = suspends_user_lem u.status allowed in
    let row = find?-holds (λ x. x.id == id) db.users u found in
    Effect-moved
      (statement_made (any (is_active_row id) db.users) _ (suspend_user id reason now) db changed
        after h)
      (user_update-Effect suspend id (is_active_row id) _ u db found (both row hit) (λ x. refl)
        (λ x. left (x.id == id) _) change)
user-Effect id unpublish reason now u db changed after found allowed h =
    let no = unpublishes_no_user u.status in cc
user-Effect id restore reason now u db changed after found allowed h =
    let (hit, change) = restores_user_lem u.status allowed in
    let row = find?-holds (λ x. x.id == id) db.users u found in
    Effect-moved
      (statement_made (any (is_suspended_user id) db.users) _ (restore_user id) db changed after h)
      (user_update-Effect restore id (is_suspended_user id) _ u db found (both row hit) (λ x. refl)
        (λ x. left (x.id == id) _) change)

pub club-Effect :
    (id : ℕ) (action : ModerationAction) (reason : String) (now : ℕ) (u : ClubRow)
    (db changed : Tables) (after : TargetStatus)
    → find? (λ x. x.id == id) db.clubs ≡ some u
    → allows (capabilities (of_club u.status)) action ≡ true
    → apply_target_action club id action reason now db ≡ (some after, changed)
    → Effect club id action (of_club u.status) db changed
unfolding apply_target_action suspend_club unpublish_club restore_club
club-Effect id suspend reason now u db changed after found allowed h =
    let (hit, change) = suspends_club_lem u.status allowed in
    let row = find?-holds (λ x. x.id == id) db.clubs u found in
    Effect-moved
      (statement_made (any (is_published_club id) db.clubs) _ (suspend_club id reason now) db
        changed after h)
      (club_update-Effect suspend id (is_published_club id) _ u _ db found (both row hit)
        (λ x. refl) (λ x. left (x.id == id) _) change
        (λ t. revoked_all (is_event_of id db.events) now db.invites))
club-Effect id unpublish reason now u db changed after found allowed h =
    let (hit, change) = unpublishes_club_lem u.status allowed in
    let row = find?-holds (λ x. x.id == id) db.clubs u found in
    Effect-moved
      (statement_made (any (is_published_club id) db.clubs) _ (unpublish_club id now) db changed
        after h)
      (club_update-Effect unpublish id (is_published_club id) _ u _ db found (both row hit)
        (λ x. refl) (λ x. left (x.id == id) _) change
        (λ t. revoked_all (is_event_of id db.events) now db.invites))
club-Effect id restore reason now u db changed after found allowed h =
    let (hit, change) = restores_club_lem u.status allowed in
    let row = find?-holds (λ x. x.id == id) db.clubs u found in
    Effect-moved
      (statement_made (any (is_restorable_club id) db.clubs) _ (restore_club id now) db changed
        after h)
      (club_update-Effect restore id (is_restorable_club id) _ u db.invites db found (both row hit)
        (λ x. refl) (λ x. left (x.id == id) _) change (λ t. cc))

pub event-Effect :
    (id : ℕ) (action : ModerationAction) (reason : String) (now : ℕ) (u : EventRow)
    (db changed : Tables) (after : TargetStatus)
    → find? (λ x. x.id == id) db.events ≡ some u
    → allows (capabilities (of_event u.status)) action ≡ true
    → apply_target_action event id action reason now db ≡ (some after, changed)
    → Effect event id action (of_event u.status) db changed
unfolding apply_target_action suspend_event restore_event
event-Effect id suspend reason now u db changed after found allowed h =
    let (hit, change) = suspends_event_lem u.status allowed in
    let row = find?-holds (λ x. x.id == id) db.events u found in
    Effect-moved
      (statement_made (any (is_published_event id) db.events) _ (suspend_event id reason now) db
        changed after h)
      (event_update-Effect suspend id (is_published_event id) _ u _ db found (both row hit)
        (λ x. refl) (λ x. left (x.id == id) _) change
        (λ t. revoked_all (λ k. k == id) now db.invites))
event-Effect id unpublish reason now u db changed after found allowed h =
    let no = unpublishes_no_event u.status in cc
event-Effect id restore reason now u db changed after found allowed h =
    let (hit, change) = restores_event_lem u.status allowed in
    let row = find?-holds (λ x. x.id == id) db.events u found in
    Effect-moved
      (statement_made (any (is_suspended_event id) db.events) _ (restore_event id now) db changed
        after h)
      (event_update-Effect restore id (is_suspended_event id) _ u db.invites db found (both row hit)
        (λ x. refl) (λ x. left (x.id == id) _) change (λ t. cc))
