-- ===== src/Registrations/Seats/Confirmations.antt =====
-- What a cash confirmation that returns has done.
use community_platform.Base.{
  ℕ, ◌≡◌, true, not, ◌&&◌, none, some, find?, leb, ◌==◌, holds, arith, ok, or_raise_elim, lift_elim,
  inl, inr, Bool-cases,
}
use community_platform.Time.{aware, as_utc}
use community_platform.Errors.{not_found}
use community_platform.Audit.{ActorKind}
use community_platform.Registrations.{Registration, confirmed, cash_pending, state_eq}
use community_platform.Registrations.Database.{Database, is_cash}
use community_platform.Registrations.Repository.{Services, has_id, get_for_event}
use community_platform.Registrations.Seats.{confirm_row, confirm}
use community_platform.Registrations.Seats.Outcomes.{Relocated-found}
use community_platform.Registrations.Validity.{IsValid, find?-self}
use community_platform.Registrations.Promotion.Progress.{IsFresh}
use community_platform.Registrations.Promotion.Order.{move-Relocated}

-- How the state of a registration became confirmed: it was so, or the cash came before its deadline.
pub data Paid (row : Registration) (now : ℕ) (after : Registration) (db db' : Database)
    : Type 0 where
  before : row.state ≡ confirmed → after ≡ row → db' ≡ db → Paid row now after db db'
  in_time :
      row.state ≡ cash_pending
      → holds (λ d. not (leb d now)) row.cash_expires_at ≡ true
      → after.id ≡ row.id
      → find? (has_id after.id) db'.registrations ≡ some after
      → Paid row now after db db'

pub record Confirmed (event_id registration_id now : ℕ) (after : Registration) (db db' : Database)
    : Type 0 where
  pub row : Registration
  pub found : get_for_event event_id registration_id db ≡ some row
  pub cash : is_cash row.method ≡ true
  pub state : after.state ≡ confirmed
  pub paid : Paid row now after db db'

confirm_row-Confirmed :
    (env : Services) (user_id event_id registration_id : ℕ) (r : Registration) (request_id now : ℕ)
    (after : Registration) (db db' : Database)
    → confirm_row env user_id r request_id now db ≡ ok (after, db')
    → get_for_event event_id registration_id db ≡ some r
    → find? (has_id r.id) db.registrations ≡ some r
    → IsFresh env db
    → Confirmed event_id registration_id now after db db'
unfolding confirm_row
confirm_row-Confirmed env user_id event_id registration_id r request_id now after db db' h g row f =
    elim (Bool-cases (is_cash r.method)) [
      | inr e ↦ ground arith
      | inl e ↦ elim (Bool-cases (state_eq r.state confirmed)) [
        | inl e₁ ↦
            let same : after ≡ r = ground arith in
            record {
              row = r;
              found = g;
              cash = e;
              state = ground arith;
              paid = before (ground arith) same (ground arith);
            }
        | inr e₁ ↦ elim (Bool-cases (state_eq r.state cash_pending)) [
          | inr e₂ ↦ ground arith
          | inl e₂ ↦ elim (Bool-cases (holds (λ d. not (leb d now)) r.cash_expires_at)) [
            | inr e₃ ↦ ground arith
            | inl e₃ ↦
                let m =
                  move-Relocated env r confirmed (some user_id) ActorKind.organizer "cash_confirmed"
                    "registration.cash_confirm" now (some request_id) none after db db' f row
                    (ground arith) in
                record {
                  row = r;
                  found = g;
                  cash = e;
                  state = m.state;
                  paid =
                      in_time (ground arith) e₃ m.id
                        (Relocated-found r confirmed after db db' m row);
                }
          ]
        ]
      ]
    ]

-- A cash confirmation that succeeds, from tables that satisfy their constraints and with an unused
-- identifier, was asked for by a manager of the event and answers a confirmed registration: the one
-- of that event and identifier, whose method is cash. Either it was confirmed before, and nothing has
-- changed; or it awaited cash, its deadline was still ahead, and it is in the table as answered.
pub confirm-Confirmed :
    (env : Services) (user_id event_id registration_id request_id t : ℕ) (after : Registration)
    (db db' : Database)
    → confirm env user_id event_id registration_id request_id (aware t) db ≡ ok (after, db')
    → IsFresh env db
    → IsValid db.registrations
    → (env.require_manager user_id event_id ≡ ok tt)
      × Confirmed event_id registration_id t after db db'
unfolding confirm as_utc get_for_event
confirm-Confirmed env user_id event_id registration_id request_id t after db db' h f v =
    lift_elim (env.require_manager user_id event_id) db _ h λ u e₂ h₂.
      or_raise_elim (get_for_event event_id registration_id db) not_found db _ h₂ λ r e₃ h₃. (
        e₂,
        confirm_row-Confirmed env user_id event_id registration_id r request_id t after db db' h₃ e₃
            (find?-self (λ x. x.event_id == event_id && x.id == registration_id) db.registrations r
              v.distinct e₃)
            f,
      )
