-- ===== src/Events.antt =====
-- Events as the other components read them: apps/api/src/talaqi/events/models.py and
-- events/access_models.py. An event keeps the fields that registration reads.
pub mod Terms
use community_platform.Base.{ℕ, Option}

pub data RegistrationMethod : Type 0 where
  free cash_organizer_confirmed : RegistrationMethod

pub data EventStatus : Type 0 where
  draft published cancelled completed suspended : EventStatus

pub data EventOwnershipType : Type 0 where
  club independent : EventOwnershipType

pub data EventVisibility : Type 0 where
  public private_link : EventVisibility

pub record Event : Type 0 where
  pub id : ℕ
  pub ownership_type : EventOwnershipType
  pub club_id : Option ℕ
  pub owner_user_id : Option ℕ
  pub start_at : Option ℕ
  pub capacity : Option ℕ
  pub visibility : EventVisibility
  pub status : EventStatus
  pub registration_method : Option RegistrationMethod
  pub cash_expiry_minutes : Option ℕ
  pub cancellation_cutoff_minutes : Option ℕ
  pub suspended_at : Option ℕ

-- EventRegistrationTerms, and the common part of EventCancellationTerms
pub record RegistrationTerms : Type 0 where
  pub id : ℕ
  pub start_at : ℕ
  pub capacity : Option ℕ
  pub method : RegistrationMethod
  pub cash_expiry_minutes : Option ℕ

-- EventCancellationTerms
pub record CancellationTerms : Type 0 where
  pub id : ℕ
  pub start_at : ℕ
  pub capacity : Option ℕ
  pub method : RegistrationMethod
  pub cash_expiry_minutes : Option ℕ
  pub cancellation_cutoff_minutes : ℕ
