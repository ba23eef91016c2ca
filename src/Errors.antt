-- ===== src/Errors.antt =====
-- What the services raise, by the exception and its code (apps/api/src/talaqi): `ApiError`,
-- `RegistrationTransitionError`, and the exceptions of the language and of the database driver.
pub data Error : Type 0 where
  -- RegistrationTransitionError(code), registrations/service.py
  invalid_registration_transition : Error
  invalid_transition_actor : Error
  invalid_transition_reason : Error
  invalid_instant : Error
  invalid_cash_deadline : Error
  unexpected_cash_deadline : Error
  transition_idempotency_conflict : Error
  registration_not_found : Error
  event_not_transitionable : Error
  invalid_registration_method_transition : Error
  cash_reservation_not_expired : Error
  registration_state_changed : Error
  -- ApiError(code)
  registration_not_allowed : Error
  registration_closed : Error
  cancellation_closed : Error
  cash_confirmation_expired : Error
  not_found : Error
  conflict : Error
  forbidden : Error
  admin_mfa_required : Error
  invalid_reason : Error
  sole_owner_exit : Error
  email_verification_required : Error
  ownership_transfer_ineligible : Error
  invalid_moderation_transition : Error
  invalid_report : Error
  invalid_report_target : Error
  -- RuntimeError("published cash event has no expiry policy")
  no_expiry_policy : Error
  -- RuntimeError("cash_expiry_job_not_due")
  cash_expiry_job_not_due : Error
  -- RuntimeError("report submission requires feature flag service")
  no_feature_flags : Error
  -- OutboxDeduplicationConflictError
  outbox_deduplication_conflict : Error
  -- RuntimeError: a row that was just written is not there, or has another state
  row_lost : Error
  -- ValueError of the audit service
  invalid_audit_event : Error
  -- TypeError: a missing start is compared with an instant
  type_error : Error
  -- OverflowError of datetime arithmetic
  datetime_overflow : Error
  -- IntegrityError: a constraint or a unique index refused a row
  integrity_error : Error
  -- MultipleResultsFound of `one_or_none`
  multiple_results : Error
  -- no exception of the code: a loop of the model was given too few rounds
  out_of_fuel : Error
