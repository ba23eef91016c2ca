-- ===== src/Authorization/Rules.antt =====
-- Who may manage an event, by rules.
use community_platform.Base.{
  ◌≡◌, refl, true, false, Option, none, some, ◌==◌, ok, arith, Bool-cases, inl, inr,
}
use community_platform.Events.{EventOwnershipType, Event}
use community_platform.Authorization.{
  AuthPrincipal, Club, Membership, is_active_user, is_shut, is_managing, is_suspended,
  is_club_manager, may_manage_club, may_manage_for_club, may_manage_owned, can_manage_event,
}

-- A manager of a club: its owner, or a member of it whose role is owner or admin.
pub data Manages (p : AuthPrincipal) (c : Club) (membership : Option Membership) : Type 0 where
  owns : p.user_id ≡ c.owner_user_id → Manages p c membership
  by_role :
      (m : Membership)
      → membership ≡ some m
      → m.club_id ≡ c.id
      → m.user_id ≡ p.user_id
      → is_managing m.role ≡ true
      → Manages p c membership

-- The two ways to an event: one's own, or one of a club that is open and that one manages.
pub data Entitled (p : AuthPrincipal) (e : Event) (club : Option Club)
    (membership : Option Membership) : Type 0 where
  of_own :
      e.ownership_type ≡ EventOwnershipType.independent
      → e.club_id ≡ none
      → e.owner_user_id ≡ some p.user_id
      → Entitled p e club membership
  of_club :
      (c : Club)
      → club ≡ some c
      → e.ownership_type ≡ EventOwnershipType.club
      → e.owner_user_id ≡ none
      → e.club_id ≡ some c.id
      → is_shut c.status ≡ false
      → Manages p c membership
      → Entitled p e club membership

is_club_manager-Manages :
    (p : AuthPrincipal) (c : Club) (membership : Option Membership)
    → is_club_manager p c membership ≡ true
    → Manages p c membership
unfolding is_club_manager
is_club_manager-Manages p c none h = owns (ground arith)
is_club_manager-Manages p c (some m) h = elim (Bool-cases (p.user_id == c.owner_user_id)) [
  | inl k ↦ owns (ground arith)
  | inr k ↦ by_role m refl (ground arith) (ground arith) (ground arith)
]

Manages-is_club_manager :
    (p : AuthPrincipal) (c : Club) (membership : Option Membership)
    → Manages p c membership
    → is_club_manager p c membership ≡ true
unfolding is_club_manager
Manages-is_club_manager p c membership (owns h) = ground arith
Manages-is_club_manager p c membership (by_role m s k u r) = ground arith

may_manage_for_club-Entitled :
    (p : AuthPrincipal) (e : Event) (club : Option Club) (membership : Option Membership)
    → e.ownership_type ≡ EventOwnershipType.club
    → may_manage_for_club p e club membership ≡ ok tt
    → Entitled p e club membership
unfolding may_manage_for_club may_manage_club
may_manage_for_club-Entitled p e none membership t h = ground arith
may_manage_for_club-Entitled p e (some c) membership t h =
    elim (Bool-cases (is_club_manager p c membership)) [
      | inl k ↦
          of_club c refl t (ground arith) (ground arith) (ground arith)
            (is_club_manager-Manages p c membership k)
      | inr k ↦ ground arith
    ]

may_manage_owned-Entitled :
    (t : EventOwnershipType) (p : AuthPrincipal) (e : Event) (club : Option Club)
    (membership : Option Membership)
    → e.ownership_type ≡ t
    → may_manage_owned t p e club membership ≡ ok tt
    → Entitled p e club membership
unfolding may_manage_owned
may_manage_owned-Entitled EventOwnershipType.independent p e club membership t h =
    of_own t (ground arith) (ground arith)
may_manage_owned-Entitled EventOwnershipType.club p e club membership t h =
    may_manage_for_club-Entitled p e club membership t h

-- Whoever is let to manage an event has an active account, the event is not suspended, and it is the
-- principal's own independent event or one of a club that is neither
-- suspended nor closed and that the principal owns or manages.
pub can_manage_event-Entitled :
    (p : AuthPrincipal) (e : Event) (club : Option Club) (membership : Option Membership)
    → can_manage_event p e club membership ≡ ok tt
    → (is_active_user p.status ≡ true)
      × (is_suspended e.status ≡ false)
      × Entitled p e club membership
unfolding can_manage_event
can_manage_event-Entitled p e club membership h = (
  ground arith,
  ground arith,
  may_manage_owned-Entitled e.ownership_type p e club membership refl (ground arith),
)

may_manage_club-Manages :
    (p : AuthPrincipal) (c : Club) (membership : Option Membership)
    → is_shut c.status ≡ false
    → Manages p c membership
    → may_manage_club p c membership ≡ ok tt
unfolding may_manage_club
may_manage_club-Manages p c membership s m =
    rw s (rw (Manages-is_club_manager p c membership m) refl)

Entitled-may_manage_owned :
    (p : AuthPrincipal) (e : Event) (club : Option Club) (membership : Option Membership)
    → Entitled p e club membership
    → may_manage_owned e.ownership_type p e club membership ≡ ok tt
unfolding may_manage_owned may_manage_for_club
Entitled-may_manage_owned p e club membership (of_own t k o) = rw t (ground arith)
Entitled-may_manage_owned p e club membership (of_club c s t o k opened m) =
    rw t (rw s (ground (arith, may_manage_club-Manages p c membership opened m)))

-- A principal with an active account is let to manage an event that is not suspended if it is the
-- principal's own or one of an open club that the principal owns or manages.
pub Entitled-can_manage_event :
    (p : AuthPrincipal) (e : Event) (club : Option Club) (membership : Option Membership)
    → is_active_user p.status ≡ true
    → is_suspended e.status ≡ false
    → Entitled p e club membership
    → can_manage_event p e club membership ≡ ok tt
unfolding can_manage_event
Entitled-can_manage_event p e club membership a s n =
    rw a (rw s (Entitled-may_manage_owned p e club membership n))
