-- ===== src/Registrations/Capacity/Calls.antt =====
-- The seats of each event across `cancel`, `confirm`, `process` and `register`.
use community_platform.Base.{
  ℕ, ◌*◌, subst, ◌≡◌, refl, Bool, true, false, not, ◌&&◌, Option, none, some, find?, ◌==◌, leb,
  holds, arith, ok, continue_elim, pure, raise_if_elim, or_raise_elim, lift_elim, ◌>>◌, inl, inr,
  Bool-cases, find?-All,
}
use community_platform.Time.{Datetime, aware, as_utc, sub_delta, minute}
use community_platform.Errors.{cancellation_closed, not_found, invalid_instant, datetime_overflow}
use community_platform.Audit.{ActorKind}
use community_platform.Events.{CancellationTerms}
use community_platform.Events.Terms.{cancellation_terms}
use community_platform.Registrations.{
  Registration, confirmed, cash_pending, cancelled, expired, state_eq,
}
use community_platform.Registrations.Database.{Database, is_cash}
use community_platform.Registrations.Repository.{
  Services, RegistrationContext, has_id, active_of, get_for_event, get_context, one_or_none,
}
use community_platform.Registrations.Transitions.{transition}
use community_platform.Registrations.Creation.{takes_seat}
use community_platform.Registrations.Promotion.{audit_registration, move, promote_next}
use community_platform.Registrations.Seats.{
  promote_if_held, cancel_for, cancel, confirm_row, confirm, CashExpiryJob, expiry_command,
  expire_row, process_context, process,
}
use community_platform.Registrations.Effects.Outcome.{find?-context}
use community_platform.Registrations.Effects.Moves.{audit_registration_lem}
use community_platform.Registrations.Validity.{
  IsValid, RowOk, find?-self, one_or_none-find?, seat_held-row_ok,
}
use community_platform.Registrations.Capacity.{transition-Seated}
use community_platform.Registrations.Capacity.Promotion.{move-Seated, Seated-Audited}
use community_platform.Registrations.Capacity.Safety.{IsSafe, promote_next-IsSafe, Seated-IsSafe}

promote_if_held-IsSafe :
    (env : Services) (r : Registration) (event_id now request_id : ℕ) (db db' : Database)
    → promote_if_held env r event_id now request_id db ≡ ok (tt, db')
    → IsSafe db
    → IsSafe db'
unfolding promote_if_held
promote_if_held-IsSafe env r event_id now request_id db db' h safe = elim (Bool-cases r.seat_held) [
  | inr e ↦ subst IsSafe (ground arith) safe
  | inl e ↦
      continue_elim (promote_next env event_id (aware now) (some request_id) db) (λ _. pure tt)
        {b = (tt, db')} (ground arith)
        λ p db₁ e₁ h₁.
          subst IsSafe (ground arith)
            (promote_next-IsSafe env event_id (aware now) (some request_id) p db db₁ e₁ safe)
]

active_found :
    (event_id user_id : ℕ) (db : Database) (r : Registration)
    → IsValid db.registrations
    → one_or_none (active_of event_id user_id) db.registrations ≡ ok (some r)
    → find? (has_id r.id) db.registrations ≡ some r
active_found event_id user_id db r v e =
    find?-self (active_of event_id user_id) db.registrations r v.distinct
      (one_or_none-find? (active_of event_id user_id) db.registrations (some r) e)

cancel_for-IsSafe :
    (env : Services) (user_id : ℕ) (event : CancellationTerms) (cutoff request_id now : ℕ)
    (after : Registration) (db db' : Database)
    → cancel_for env user_id event cutoff request_id now db ≡ ok (after, db')
    → IsSafe db
    → IsSafe db'
unfolding cancel_for
cancel_for-IsSafe env user_id event cutoff request_id now after db db' h safe =
    raise_if_elim (leb cutoff now) cancellation_closed db _ h λ on_time h₁.
      lift_elim (one_or_none (active_of event.id user_id) db.registrations) db _ h₁ λ found e₂ h₂.
        or_raise_elim found not_found db _ h₂ λ r e₃ h₃.
          continue_elim
            (move env r cancelled (some user_id) ActorKind.member "member_cancelled"
              "registration.cancel" now (some request_id) none db)
            _ h₃
            λ moved db₁ e₄ h₄.
              continue_elim (promote_if_held env r event.id now request_id db₁) _ h₄ λ u db₂ e₅ h₅.
                subst IsSafe (ground arith) (
                  promote_if_held-IsSafe env r event.id now request_id db₁ db₂ e₅ (
                    Seated-IsSafe r cancelled db db₁ refl safe (
                      move-Seated env r cancelled (some user_id) ActorKind.member "member_cancelled"
                        "registration.cancel" now (some request_id) none moved db db₁ e₄
                        (active_found event.id user_id db r safe.valid (rw e₃ at e₂)) safe.valid)))

-- A cancellation, with the promotion that follows it, keeps every event within its capacity.
pub cancel-IsSafe :
    (env : Services) (user_id event_id request_id : ℕ) (now : Datetime) (after : Registration)
    (db db' : Database)
    → cancel env user_id event_id request_id now db ≡ ok (after, db')
    → IsSafe db
    → IsSafe db'
unfolding cancel
cancel-IsSafe env user_id event_id request_id now after db db' h safe =
    or_raise_elim (as_utc now) invalid_instant db _ h λ t e₁ h₁.
      lift_elim (cancellation_terms db.events event_id) db _ h₁ λ event e₂ h₂.
        or_raise_elim (sub_delta event.start_at (event.cancellation_cutoff_minutes * minute))
          datetime_overflow db _ h₂
          λ cutoff e₃ h₃.
            cancel_for-IsSafe env user_id event cutoff request_id t after db db' h₃ safe

-- A valid row that waits for its cash holds its seat already.
cash_pending-seat :
    (db : Database) (r : Registration)
    → IsValid db.registrations
    → find? (has_id r.id) db.registrations ≡ some r
    → state_eq r.state cash_pending ≡ true
    → (takes_seat confirmed && not r.seat_held) ≡ false
cash_pending-seat db r v f e =
    ground (arith, seat_held-row_ok r (find?-All RowOk (has_id r.id) db.registrations r v.rows f))

confirm_row-IsSafe :
    (env : Services) (user_id : ℕ) (r : Registration) (request_id now : ℕ) (after : Registration)
    (db db' : Database)
    → confirm_row env user_id r request_id now db ≡ ok (after, db')
    → find? (has_id r.id) db.registrations ≡ some r
    → IsSafe db
    → IsSafe db'
unfolding confirm_row
confirm_row-IsSafe env user_id r request_id now after db db' h f safe =
    elim (Bool-cases (not (is_cash r.method))) [
      | inl e ↦ ground arith
      | inr e ↦ elim (Bool-cases (state_eq r.state confirmed)) [
        | inl e₁ ↦ subst IsSafe (ground arith) safe
        | inr e₁ ↦ elim (Bool-cases (state_eq r.state cash_pending)) [
          | inr e₂ ↦ ground arith
          | inl e₂ ↦ elim (Bool-cases (holds (λ d. not (leb d now)) r.cash_expires_at)) [
            | inr e₃ ↦ ground arith
            | inl e₃ ↦
                Seated-IsSafe r confirmed db db' (cash_pending-seat db r safe.valid f e₂) safe (
                  move-Seated env r confirmed (some user_id) ActorKind.organizer "cash_confirmed"
                    "registration.cash_confirm" now (some request_id) none after db db'
                    (ground arith) f safe.valid)
          ]
        ]
      ]
    ]

-- A cash confirmation keeps every event within its capacity.
pub confirm-IsSafe :
    (env : Services) (user_id event_id registration_id request_id : ℕ) (now : Datetime)
    (after : Registration) (db db' : Database)
    → confirm env user_id event_id registration_id request_id now db ≡ ok (after, db')
    → IsSafe db
    → IsSafe db'
unfolding confirm
confirm-IsSafe env user_id event_id registration_id request_id now after db db' h safe =
    or_raise_elim (as_utc now) invalid_instant db _ h λ t e₁ h₁.
      lift_elim (env.require_manager user_id event_id) db _ h₁ λ u e₂ h₂.
        or_raise_elim (get_for_event event_id registration_id db) not_found db _ h₂ λ r e₃ h₃.
          confirm_row-IsSafe env user_id r request_id t after db db' h₃
            (find?-self _ db.registrations r safe.valid.distinct e₃) safe

expire_row-IsSafe :
    (env : Services) (job : CashExpiryJob) (r : Registration) (now : ℕ) (done : Bool)
    (db db' : Database)
    → expire_row env job r now db ≡ ok (done, db')
    → find? (has_id r.id) db.registrations ≡ some r
    → IsSafe db
    → IsSafe db'
unfolding expire_row
expire_row-IsSafe env job r now done db db' h f safe =
    continue_elim (transition env (expiry_command job r now) db) _ h λ result db₁ e₁ h₁.
      continue_elim
        (audit_registration env none ActorKind.system "registration.expire" "cash_expired" r
          result.registration.state none db₁)
        (λ _. promote_next env job.event_id (aware now) none >> pure true) h₁
        λ u db₂ e₂ h₂.
          continue_elim (promote_next env job.event_id (aware now) none db₂) (λ _. pure true) h₂
            λ p db₃ e₃ h₃. subst IsSafe (ground arith) (
              promote_next-IsSafe env job.event_id (aware now) none p db₂ db₃ e₃ (
                Seated-IsSafe r expired db db₂ refl safe (
                  Seated-Audited r expired db.generated db db₁ db₂
                    (audit_registration_lem env none ActorKind.system "registration.expire"
                      "cash_expired" r result.registration.state none db₁ db₂ e₂)
                    (transition-Seated env (expiry_command job r now) r result db db₁ e₁ f
                      safe.valid))))

process_context-IsSafe :
    (env : Services) (job : CashExpiryJob) (now : ℕ) (context : Option RegistrationContext)
    (done : Bool) (db db' : Database)
    → process_context env job now context db ≡ ok (done, db')
    → get_context job.registration_id db ≡ context
    → IsSafe db
    → IsSafe db'
unfolding process_context
process_context-IsSafe env job now none done db db' h e safe = subst IsSafe (ground arith) safe
process_context-IsSafe env job now (some context) done db db' h e safe =
    elim (Bool-cases (context.registration.event_id == job.event_id)) [
      | inr e₁ ↦ subst IsSafe (ground arith) safe
      | inl e₁ ↦ elim (Bool-cases (state_eq context.registration.state cash_pending)) [
        | inr e₂ ↦ subst IsSafe (ground arith) safe
        | inl e₂ ↦ elim (Bool-cases (holds (λ d. leb d now) context.registration.cash_expires_at)) [
          | inr e₃ ↦ ground arith
          | inl e₃ ↦
              expire_row-IsSafe env job context.registration now done db db' (ground arith)
                (find?-context job.registration_id db context e) safe
        ]
      ]
    ]

-- The expiry of a cash reservation keeps every event within its capacity.
pub process-IsSafe :
    (env : Services) (job : CashExpiryJob) (now : ℕ) (done : Bool) (db db' : Database)
    → process env job now db ≡ ok (done, db')
    → IsSafe db
    → IsSafe db'
unfolding process
process-IsSafe env job now done db db' h safe =
    process_context-IsSafe env job now (get_context job.registration_id db) done db db' h refl safe
