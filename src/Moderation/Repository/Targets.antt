-- ===== src/Moderation/Repository/Targets.antt =====
-- `apply_target_action` of apps/api/src/talaqi/moderation/repository.py: an action on a user, a
-- club or an event, a function for each statement.
use community_platform.Base.{
  ℕ, Bool, true, false, ◌&&◌, Option, none, some, List, String, any, update_where, ◌==◌, is_none,
  holds,
}
use community_platform.Events.{EventStatus}
use community_platform.Authorization.{ClubStatus, UserStatus}
use community_platform.Moderation.{
  TargetType, user, club, event, ModerationAction, suspend, unpublish, restore, TargetStatus,
  of_user, of_club, of_event, UserRow, ClubRow, EventRow, InviteToken, Tables,
}
use community_platform.Moderation.Repository.{or_else}

abbrev pub is_active_row : ℕ → UserRow → Bool
is_active_row id u = u.id == id && (elim u.status [ UserStatus.active ↦ true | _ ↦ false ])

abbrev pub is_suspended_user : ℕ → UserRow → Bool
is_suspended_user id u = u.id == id && (elim u.status [ UserStatus.suspended ↦ true | _ ↦ false ])

abbrev pub is_published_club : ℕ → ClubRow → Bool
is_published_club id c = c.id == id && (elim c.status [ ClubStatus.published ↦ true | _ ↦ false ])

abbrev pub is_restorable_club : ℕ → ClubRow → Bool
is_restorable_club id c =
    c.id == id
    && (elim c.status [ ClubStatus.suspended ↦ true | ClubStatus.unpublished ↦ true | _ ↦ false ])

abbrev pub is_published_event : ℕ → EventRow → Bool
is_published_event id e = e.id == id && (elim e.status [ EventStatus.published ↦ true | _ ↦ false ])

abbrev pub is_suspended_event : ℕ → EventRow → Bool
is_suspended_event id e = e.id == id && (elim e.status [ EventStatus.suspended ↦ true | _ ↦ false ])

-- the invites of some events are revoked, those that are not yet
unfoldable pub revoke : (ℕ → Bool) → ℕ → List InviteToken → List InviteToken
revoke p now =
    update_where (λ i. p i.event_id && is_none i.revoked_at)
      (λ i. record i { revoked_at = some now })

abbrev pub is_event_of : ℕ → List EventRow → ℕ → Bool
is_event_of club_id events id = any (λ e. e.id == id && holds (λ k. k == club_id) e.club_id) events

unfoldable pub suspend_user : ℕ → String → ℕ → Tables → Tables
suspend_user id reason now db = record db {
  users =
      update_where (is_active_row id)
        (λ u. record u {
          status = UserStatus.suspended;
          suspended_at = some now;
          suspension_reason = some reason;
        })
        db.users;
}

unfoldable pub restore_user : ℕ → Tables → Tables
restore_user id db = record db {
  users =
      update_where (is_suspended_user id)
        (λ u. record u {
          status = UserStatus.active;
          suspended_at = none;
          suspension_reason = none;
        })
        db.users;
}

unfoldable pub suspend_club : ℕ → String → ℕ → Tables → Tables
unfolding revoke
suspend_club id reason now db = record db {
  clubs =
      update_where (is_published_club id)
        (λ c. record c {
          status = ClubStatus.suspended;
          suspended_at = some now;
          suspension_reason = some reason;
        })
        db.clubs;
  invites = revoke (is_event_of id db.events) now db.invites;
}

unfoldable pub unpublish_club : ℕ → ℕ → Tables → Tables
unfolding revoke
unpublish_club id now db = record db {
  clubs =
      update_where (is_published_club id) (λ c. record c { status = ClubStatus.unpublished })
        db.clubs;
  invites = revoke (is_event_of id db.events) now db.invites;
}

unfoldable pub restore_club : ℕ → ℕ → Tables → Tables
restore_club id now db = record db {
  clubs =
      update_where (is_restorable_club id)
        (λ c. record c {
          status = ClubStatus.published;
          suspended_at = none;
          suspension_reason = none;
          published_at = or_else c.published_at now;
        })
        db.clubs;
}

unfoldable pub suspend_event : ℕ → String → ℕ → Tables → Tables
unfolding revoke
suspend_event id reason now db = record db {
  events =
      update_where (is_published_event id)
        (λ e. record e {
          status = EventStatus.suspended;
          suspended_at = some now;
          suspension_reason = some reason;
        })
        db.events;
  invites = revoke (λ k. k == id) now db.invites;
}

unfoldable pub restore_event : ℕ → ℕ → Tables → Tables
restore_event id now db = record db {
  events =
      update_where (is_suspended_event id)
        (λ e. record e {
          status = EventStatus.published;
          suspended_at = none;
          suspension_reason = none;
          published_at = or_else e.published_at now;
        })
        db.events;
}

-- one statement of `apply_target_action`: nothing where its WHERE finds no row
abbrev pub statement :
    Bool → TargetStatus → (Tables → Tables) → Tables → Option TargetStatus × Tables
statement true s f db = (some s, f db)
statement false s f db = (none, db)

-- `apply_target_action`: the new status, and the tables
unfoldable pub apply_target_action :
    TargetType → ℕ → ModerationAction → String → ℕ → Tables → Option TargetStatus × Tables
unfolding suspend_user restore_user suspend_club unpublish_club restore_club suspend_event
    restore_event
apply_target_action user id suspend reason now db =
    statement (any (is_active_row id) db.users) (of_user UserStatus.suspended)
      (suspend_user id reason now) db
apply_target_action user id unpublish reason now db = (none, db)
apply_target_action user id restore reason now db =
    statement (any (is_suspended_user id) db.users) (of_user UserStatus.active) (restore_user id) db
apply_target_action club id suspend reason now db =
    statement (any (is_published_club id) db.clubs) (of_club ClubStatus.suspended)
      (suspend_club id reason now) db
apply_target_action club id unpublish reason now db =
    statement (any (is_published_club id) db.clubs) (of_club ClubStatus.unpublished)
      (unpublish_club id now) db
apply_target_action club id restore reason now db =
    statement (any (is_restorable_club id) db.clubs) (of_club ClubStatus.published)
      (restore_club id now) db
apply_target_action event id suspend reason now db =
    statement (any (is_published_event id) db.events) (of_event EventStatus.suspended)
      (suspend_event id reason now) db
apply_target_action event id unpublish reason now db = (none, db)
apply_target_action event id restore reason now db =
    statement (any (is_suspended_event id) db.events) (of_event EventStatus.published)
      (restore_event id now) db
