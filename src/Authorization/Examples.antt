-- ===== src/Authorization/Examples.antt =====
-- An admin of a club, and an event of it.
use community_platform.Base.{◌≡◌, refl, true, false, none, some, ok}
use community_platform.Events.{free, EventOwnershipType, EventStatus, EventVisibility, Event}
use community_platform.Authorization.{
  UserStatus, AuthPrincipal, ClubStatus, Club, Membership, admin, is_active_user, is_shut,
  is_managing, is_suspended, can_manage_event,
}
use community_platform.Authorization.Rules.{
  Manages, by_role, Entitled, of_club, can_manage_event-Entitled, Entitled-can_manage_event,
}

abbrev principal : AuthPrincipal
principal = record {
  user_id = 5;
  email_verified = true;
  status = UserStatus.active;
  is_platform_admin = false;
}

abbrev choir : Club
choir = record { id = 3; owner_user_id = 8; status = ClubStatus.published }

abbrev helper : Membership
helper = record { club_id = 3; user_id = 5; role = admin }

abbrev concert : Event
concert = record {
  id = 1;
  ownership_type = EventOwnershipType.club;
  club_id = some 3;
  owner_user_id = none;
  start_at = some 900000000000;
  capacity = some 40;
  visibility = EventVisibility.public;
  status = EventStatus.published;
  registration_method = some free;
  cash_expiry_minutes = none;
  cancellation_cutoff_minutes = some 30;
  suspended_at = none;
}

managed : can_manage_event principal concert (some choir) (some helper) ≡ ok tt
unfolding can_manage_event
managed = refl

helps : Manages principal choir (some helper)
unfolding is_managing
helps = by_role helper refl refl refl refl

entitled : Entitled principal concert (some choir) (some helper)
unfolding is_shut
entitled = of_club choir refl refl refl refl refl helps

principal_active : is_active_user principal.status ≡ true
unfolding is_active_user
principal_active = refl

concert_open : is_suspended concert.status ≡ false
unfolding is_suspended
concert_open = refl

can_manage_event-Entitled_example :
    (is_active_user principal.status ≡ true)
    × (is_suspended concert.status ≡ false)
    × Entitled principal concert (some choir) (some helper)
can_manage_event-Entitled_example =
    can_manage_event-Entitled principal concert (some choir) (some helper) managed

Entitled-can_manage_event_example :
    can_manage_event principal concert (some choir) (some helper) ≡ ok tt
Entitled-can_manage_event_example =
    Entitled-can_manage_event principal concert (some choir) (some helper) principal_active
      concert_open entitled
