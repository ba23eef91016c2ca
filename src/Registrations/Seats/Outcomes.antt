-- ===== src/Registrations/Seats/Outcomes.antt =====
-- What a cancellation that returns has done.
use community_platform.Base.{
  ℕ, ◌+◌, ◌*◌, ◌<◌, ◌≡◌, sym, ◌∙◌, subst, false, none, some, find?, leb, arith, Result, ok,
  continue_elim, raise_if_elim, or_raise_elim, lift_elim,
}
use community_platform.Time.{aware, as_utc, sub_delta, minute}
use community_platform.Errors.{Error, cancellation_closed, not_found, datetime_overflow}
use community_platform.Audit.{ActorKind}
use community_platform.Events.{CancellationTerms}
use community_platform.Events.Terms.{cancellation_terms}
use community_platform.Registrations.{Registration, RegistrationState, cancelled}
use community_platform.Registrations.Database.{Database}
use community_platform.Registrations.Repository.{Services, active_of, one_or_none, has_id}
use community_platform.Registrations.Promotion.{move}
use community_platform.Registrations.Seats.{promote_if_held, cancel_for, cancel}
use community_platform.Registrations.Validity.{IsValid, one_or_none-find?, find?-self}
use community_platform.Registrations.Steps.Calls.{second_eq}
use community_platform.Registrations.Steps.Seats.{promote_if_held-Reach}
use community_platform.Registrations.Requests.Lifecycle.{Reach-final}
use community_platform.Registrations.Promotion.Progress.{IsFresh}
use community_platform.Registrations.Promotion.Order.{Relocated, move-Relocated}
use community_platform.Base.{find?-replace_first_self}

-- A registration that was cancelled, and how it is found afterwards.
pub record Cancelled (user_id now : ℕ) (event : CancellationTerms) (after : Registration)
    (db db' : Database) : Type 0 where
  pub row : Registration
  pub active : find? (active_of event.id user_id) db.registrations ≡ some row
  pub on_time : now + event.cancellation_cutoff_minutes * minute < event.start_at
  pub id : after.id ≡ row.id
  pub state : after.state ≡ cancelled
  pub found : find? (has_id after.id) db'.registrations ≡ some after

pub Relocated-found :
    (r : Registration) (target : RegistrationState) (after : Registration) (db db' : Database)
    → Relocated r target after db db'
    → find? (has_id r.id) db.registrations ≡ some r
    → find? (has_id after.id) db'.registrations ≡ some after
Relocated-found r target after db db' m f =
    subst (λ k. find? (has_id k) db'.registrations ≡ some after) (sym m.id)
      (rw m.registrations
        (find?-replace_first_self (has_id r.id) r after db.registrations f (ground (arith, m.id))))

on_time_lem :
    (start margin cutoff now : ℕ)
    → sub_delta start margin ≡ some cutoff
    → leb cutoff now ≡ false
    → now + margin < start
unfolding sub_delta
on_time_lem start margin cutoff now h l = ground arith

first_eq :
    {a b : Registration} {db db' : Database}
    → ◌≡◌ {A = Result Error (Registration × Database)} (ok (a, db)) (ok (b, db'))
    → a ≡ b
first_eq h = cc

cancel_for-Cancelled :
    (env : Services) (user_id : ℕ) (event : CancellationTerms) (cutoff request_id now : ℕ)
    (after : Registration) (db db' : Database)
    → cancel_for env user_id event cutoff request_id now db ≡ ok (after, db')
    → sub_delta event.start_at (event.cancellation_cutoff_minutes * minute) ≡ some cutoff
    → IsFresh env db
    → IsValid db.registrations
    → Cancelled user_id now event after db db'
unfolding cancel_for
cancel_for-Cancelled env user_id event cutoff request_id now after db db' h c f v =
    raise_if_elim (leb cutoff now) cancellation_closed db _ h λ on_time h₁.
      lift_elim (one_or_none (active_of event.id user_id) db.registrations) db _ h₁ λ found e₂ h₂.
        or_raise_elim found not_found db _ h₂ λ r e₃ h₃.
          continue_elim
            (move env r cancelled (some user_id) ActorKind.member "member_cancelled"
              "registration.cancel" now (some request_id) none db)
            _ h₃
            λ moved db₁ e₄ h₄.
              continue_elim (promote_if_held env r event.id now request_id db₁) _ h₄ λ u db₂ e₅ h₅.
                let active =
                  one_or_none-find? (active_of event.id user_id) db.registrations found e₂ ∙ e₃ in
                let row =
                  find?-self (active_of event.id user_id) db.registrations r v.distinct active in
                let m =
                  move-Relocated env r cancelled (some user_id) ActorKind.member "member_cancelled"
                    "registration.cancel" now (some request_id) none moved db db₁ f row e₄ in
                let last =
                  Reach-final moved db₁ db₂
                    (promote_if_held-Reach env r event.id now request_id db₁ db₂ e₅)
                    (Relocated-found r cancelled moved db db₁ m row) (ground (arith, m.state)) in
                subst (λ x. Cancelled user_id now event x db db') (first_eq h₅)
                  (subst (Cancelled user_id now event moved db) (second_eq h₅) (record {
                    row = r;
                    active = active;
                    on_time =
                        on_time_lem event.start_at (event.cancellation_cutoff_minutes * minute)
                          cutoff now c on_time;
                    id = m.id;
                    state = m.state;
                    found = last;
                  }))

-- A cancellation that succeeds, from tables that satisfy their constraints and with an unused
-- identifier, came before the cutoff of the event; the member's active registration for it is cancelled
-- and is in the table as it is answered, whoever is promoted in its place.
pub cancel-Cancelled :
    (env : Services) (user_id event_id request_id t : ℕ) (after : Registration) (db db' : Database)
    → cancel env user_id event_id request_id (aware t) db ≡ ok (after, db')
    → IsFresh env db
    → IsValid db.registrations
    → (event : CancellationTerms) × (cancellation_terms db.events event_id ≡ ok event)
      × Cancelled user_id t event after db db'
unfolding cancel as_utc
cancel-Cancelled env user_id event_id request_id t after db db' h f v =
    lift_elim (cancellation_terms db.events event_id) db _ h λ event e₂ h₂.
      or_raise_elim (sub_delta event.start_at (event.cancellation_cutoff_minutes * minute))
        datetime_overflow db _ h₂
        λ cutoff e₃ h₃. (
          event,
          e₂,
          cancel_for-Cancelled env user_id event cutoff request_id t after db db' h₃ e₃ f v,
        )
