-- ===== src/Moderation/Effects/Aside.antt =====
-- What an action on a target leaves alone: `apply_target_action` of
-- apps/api/src/talaqi/moderation/repository.py writes neither the cases nor the outbox.
use community_platform.Base.{ℕ, ◌≡◌, refl, ap, Bool, true, false, List, String, any}
use community_platform.Moderation.{
  TargetType, user, club, event, ModerationAction, suspend, unpublish, restore, ModerationCase,
  TargetStatus, Tables,
}
use community_platform.Moderation.Repository.Targets.{
  apply_target_action, statement, suspend_user, restore_user, suspend_club, unpublish_club,
  restore_club, suspend_event, restore_event, is_active_row, is_suspended_user, is_published_club,
  is_restorable_club, is_published_event, is_suspended_event,
}
use community_platform.Outbox.{OutboxEvent}

abbrev aside : Tables → List ModerationCase × List OutboxEvent
aside db = (db.cases, db.outbox)

statement-aside :
    (b : Bool) (s : TargetStatus) (f : Tables → Tables) (db : Tables)
    → aside (f db) ≡ aside db
    → aside (statement b s f db).1 ≡ aside db
statement-aside true s f db h = h
statement-aside false s f db h = refl

apply_target_action-aside :
    (t : TargetType) (id : ℕ) (action : ModerationAction) (reason : String) (now : ℕ) (db : Tables)
    → aside (apply_target_action t id action reason now db).1 ≡ aside db
unfolding apply_target_action suspend_user restore_user suspend_club unpublish_club restore_club
    suspend_event restore_event
apply_target_action-aside user id suspend reason now db =
    statement-aside (any (is_active_row id) db.users) _ (suspend_user id reason now) db refl
apply_target_action-aside user id unpublish reason now db = refl
apply_target_action-aside user id restore reason now db =
    statement-aside (any (is_suspended_user id) db.users) _ (restore_user id) db refl
apply_target_action-aside club id suspend reason now db =
    statement-aside (any (is_published_club id) db.clubs) _ (suspend_club id reason now) db refl
apply_target_action-aside club id unpublish reason now db =
    statement-aside (any (is_published_club id) db.clubs) _ (unpublish_club id now) db refl
apply_target_action-aside club id restore reason now db =
    statement-aside (any (is_restorable_club id) db.clubs) _ (restore_club id now) db refl
apply_target_action-aside event id suspend reason now db =
    statement-aside (any (is_published_event id) db.events) _ (suspend_event id reason now) db refl
apply_target_action-aside event id unpublish reason now db = refl
apply_target_action-aside event id restore reason now db =
    statement-aside (any (is_suspended_event id) db.events) _ (restore_event id now) db refl

pub apply_target_action-cases :
    (t : TargetType) (id : ℕ) (action : ModerationAction) (reason : String) (now : ℕ) (db : Tables)
    → (apply_target_action t id action reason now db).1.cases ≡ db.cases
apply_target_action-cases t id action reason now db =
    ap (λ z. z.0) (apply_target_action-aside t id action reason now db)

pub apply_target_action-outbox :
    (t : TargetType) (id : ℕ) (action : ModerationAction) (reason : String) (now : ℕ) (db : Tables)
    → (apply_target_action t id action reason now db).1.outbox ≡ db.outbox
apply_target_action-outbox t id action reason now db =
    ap (λ z. z.1) (apply_target_action-aside t id action reason now db)
