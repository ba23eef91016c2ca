-- ===== src/Registrations/Steps/Seats.antt =====
-- Cancellation, confirmation, expiry and registration as sequences of steps.
use community_platform.Base.{
  ℕ, ◌*◌, subst, ◌≡◌, Bool, true, not, Option, none, some, ◌==◌, leb, holds, arith, ok,
  continue_elim, raise_if_elim, or_raise_elim, lift_elim, pure, ◌>>◌, inl, inr, Bool-cases,
}
use community_platform.Time.{Datetime, naive, aware, as_utc, sub_delta, minute}
use community_platform.Errors.{cancellation_closed, not_found, invalid_instant, datetime_overflow}
use community_platform.Audit.{ActorKind}
use community_platform.Events.{CancellationTerms, RegistrationTerms}
use community_platform.Events.Terms.{cancellation_terms}
use community_platform.Registrations.{Registration, confirmed, cash_pending, cancelled, state_eq}
use community_platform.Registrations.Database.{Database, is_cash}
use community_platform.Registrations.Repository.{
  Services, RegistrationContext, active_of, get_for_event, get_context, one_or_none,
}
use community_platform.Registrations.Transitions.{transition}
use community_platform.Registrations.Creation.{RegistrationCreationResult, register_new, register}
use community_platform.Registrations.Promotion.{audit_registration, move, promote_next}
use community_platform.Registrations.Seats.{
  promote_if_held, cancel_for, cancel, confirm_row, confirm, CashExpiryJob, expiry_command,
  expire_row, process_context, process,
}
use community_platform.Registrations.Effects.Moves.{audit_registration_lem}
use community_platform.Registrations.Effects.Created.{create_registration_elim}
use community_platform.Registrations.Effects.Registering.{
  create_elim, register_at_elim, register_new_elim,
}
use community_platform.Registrations.Steps.Calls.{
  Reach-same, second_eq, Audited-Step, transition-Reach, move-Reach, promote_next-Reach,
}
use community_platform.Registrations.Steps.{Reach, here, next, Reach-trans, Created-Step}

pub promote_if_held-Reach :
    (env : Services) (r : Registration) (event_id now request_id : ℕ) (db db' : Database)
    → promote_if_held env r event_id now request_id db ≡ ok (tt, db')
    → Reach db db'
unfolding promote_if_held
promote_if_held-Reach env r event_id now request_id db db' h = elim (Bool-cases r.seat_held) [
  | inr e ↦ Reach-same (ground arith)
  | inl e ↦
      continue_elim (promote_next env event_id (aware now) (some request_id) db) (λ _. pure tt)
        {b = (tt, db')} (ground arith)
        λ p db₁ e₁ h₁.
          subst (Reach db) (second_eq h₁)
            (promote_next-Reach env event_id (aware now) (some request_id) p db db₁ e₁)
]

cancel_for-Reach :
    (env : Services) (user_id : ℕ) (event : CancellationTerms) (cutoff request_id now : ℕ)
    (after : Registration) (db db' : Database)
    → cancel_for env user_id event cutoff request_id now db ≡ ok (after, db')
    → Reach db db'
unfolding cancel_for
cancel_for-Reach env user_id event cutoff request_id now after db db' h =
    raise_if_elim (leb cutoff now) cancellation_closed db _ h λ on_time h₁.
      lift_elim (one_or_none (active_of event.id user_id) db.registrations) db _ h₁ λ found e₂ h₂.
        or_raise_elim found not_found db _ h₂ λ r e₃ h₃.
          continue_elim
            (move env r cancelled (some user_id) ActorKind.member "member_cancelled"
              "registration.cancel" now (some request_id) none db)
            _ h₃
            λ moved db₁ e₄ h₄.
              continue_elim (promote_if_held env r event.id now request_id db₁) _ h₄ λ u db₂ e₅ h₅.
                subst (Reach db) (second_eq h₅) (
                  Reach-trans
                    (move-Reach env r cancelled (some user_id) ActorKind.member "member_cancelled"
                      "registration.cancel" now (some request_id) none moved db db₁ e₄)
                    (promote_if_held-Reach env r event.id now request_id db₁ db₂ e₅))

pub cancel-Reach :
    (env : Services) (user_id event_id request_id : ℕ) (now : Datetime) (after : Registration)
    (db db' : Database)
    → cancel env user_id event_id request_id now db ≡ ok (after, db')
    → Reach db db'
unfolding cancel
cancel-Reach env user_id event_id request_id now after db db' h =
    or_raise_elim (as_utc now) invalid_instant db _ h λ t e₁ h₁.
      lift_elim (cancellation_terms db.events event_id) db _ h₁ λ event e₂ h₂.
        or_raise_elim (sub_delta event.start_at (event.cancellation_cutoff_minutes * minute))
          datetime_overflow db _ h₂
          λ cutoff e₃ h₃. cancel_for-Reach env user_id event cutoff request_id t after db db' h₃

confirm_row-Reach :
    (env : Services) (user_id : ℕ) (r : Registration) (request_id now : ℕ) (after : Registration)
    (db db' : Database)
    → confirm_row env user_id r request_id now db ≡ ok (after, db')
    → Reach db db'
unfolding confirm_row
confirm_row-Reach env user_id r request_id now after db db' h =
    elim (Bool-cases (not (is_cash r.method))) [
      | inl e ↦ ground arith
      | inr e ↦ elim (Bool-cases (state_eq r.state confirmed)) [
        | inl e₁ ↦ Reach-same (ground arith)
        | inr e₁ ↦ elim (Bool-cases (state_eq r.state cash_pending)) [
          | inr e₂ ↦ ground arith
          | inl e₂ ↦ elim (Bool-cases (holds (λ d. not (leb d now)) r.cash_expires_at)) [
            | inr e₃ ↦ ground arith
            | inl e₃ ↦
                move-Reach env r confirmed (some user_id) ActorKind.organizer "cash_confirmed"
                  "registration.cash_confirm" now (some request_id) none after db db' (ground arith)
          ]
        ]
      ]
    ]

pub confirm-Reach :
    (env : Services) (user_id event_id registration_id request_id : ℕ) (now : Datetime)
    (after : Registration) (db db' : Database)
    → confirm env user_id event_id registration_id request_id now db ≡ ok (after, db')
    → Reach db db'
unfolding confirm
confirm-Reach env user_id event_id registration_id request_id now after db db' h =
    or_raise_elim (as_utc now) invalid_instant db _ h λ t e₁ h₁.
      lift_elim (env.require_manager user_id event_id) db _ h₁ λ u e₂ h₂.
        or_raise_elim (get_for_event event_id registration_id db) not_found db _ h₂
          λ r e₃ h₃. confirm_row-Reach env user_id r request_id t after db db' h₃

expire_row-Reach :
    (env : Services) (job : CashExpiryJob) (r : Registration) (now : ℕ) (done : Bool)
    (db db' : Database)
    → expire_row env job r now db ≡ ok (done, db')
    → Reach db db'
unfolding expire_row
expire_row-Reach env job r now done db db' h =
    continue_elim (transition env (expiry_command job r now) db) _ h λ result db₁ e₁ h₁.
      continue_elim
        (audit_registration env none ActorKind.system "registration.expire" "cash_expired" r
          result.registration.state none db₁)
        (λ _. promote_next env job.event_id (aware now) none >> pure true) h₁
        λ u db₂ e₂ h₂.
          continue_elim (promote_next env job.event_id (aware now) none db₂) (λ _. pure true) h₂
            λ p db₃ e₃ h₃. subst (Reach db) (second_eq h₃) (
              Reach-trans
                (next (transition-Reach env (expiry_command job r now) result db db₁ e₁) (
                  Audited-Step db₁ db₂ (
                    audit_registration_lem env none ActorKind.system "registration.expire"
                      "cash_expired" r result.registration.state none db₁ db₂ e₂)))
                (promote_next-Reach env job.event_id (aware now) none p db₂ db₃ e₃))

process_context-Reach :
    (env : Services) (job : CashExpiryJob) (now : ℕ) (context : Option RegistrationContext)
    (done : Bool) (db db' : Database)
    → process_context env job now context db ≡ ok (done, db')
    → Reach db db'
unfolding process_context
process_context-Reach env job now none done db db' h = Reach-same (ground arith)
process_context-Reach env job now (some context) done db db' h =
    elim (Bool-cases (context.registration.event_id == job.event_id)) [
      | inr e₁ ↦ Reach-same (ground arith)
      | inl e₁ ↦ elim (Bool-cases (state_eq context.registration.state cash_pending)) [
        | inr e₂ ↦ Reach-same (ground arith)
        | inl e₂ ↦ elim (Bool-cases (holds (λ d. leb d now) context.registration.cash_expires_at)) [
          | inr e₃ ↦ ground arith
          | inl e₃ ↦ expire_row-Reach env job context.registration now done db db' (ground arith)
        ]
      ]
    ]

pub process-Reach :
    (env : Services) (job : CashExpiryJob) (now : ℕ) (done : Bool) (db db' : Database)
    → process env job now db ≡ ok (done, db')
    → Reach db db'
unfolding process
process-Reach env job now done db db' h =
    process_context-Reach env job now (get_context job.registration_id db) done db db' h

register_new-Reach :
    (env : Services) (user_id : ℕ) (terms : RegistrationTerms) (request_id now : ℕ)
    (found : Option Registration) (result : RegistrationCreationResult) (db db' : Database)
    → register_new env user_id terms request_id now found db ≡ ok (result, db')
    → Reach db db'
unfolding register_new
register_new-Reach env user_id terms request_id now (some r) result db db' h =
    Reach-same (ground arith)
register_new-Reach env user_id terms request_id now none result db db' h =
    register_new_elim env user_id terms request_id now result db db' h λ early _ e.
      create_elim env user_id terms request_id now result.registration db db' e λ n new e₁.
        create_registration_elim env n result.registration _ db' e₁
          λ t x. next here (Created-Step n result.registration t _ db db' x)

pub register-Reach :
    (env : Services) (user_id event_id : ℕ) (private_link_hash : Option ℕ) (request_id : ℕ)
    (now : Datetime) (result : RegistrationCreationResult) (db db' : Database)
    → register env user_id event_id private_link_hash request_id now db ≡ ok (result, db')
    → Reach db db'
unfolding register
register-Reach env user_id event_id private_link_hash request_id (naive t) result db db' h =
    ground arith
register-Reach env user_id event_id private_link_hash request_id (aware t) result db db' h =
    register_at_elim env user_id event_id private_link_hash request_id t result db db' h
      λ event terms found g o _ _ h₁.
        register_new-Reach env user_id terms request_id t found result db db' h₁
