-- ===== src/Registrations/Steps/Calls.antt =====
-- The calls of the registration services, as sequences of steps.
use community_platform.Base.{
  ℕ, zero, suc, subst, sym, ◌≡◌, refl, Option, none, some, leb, arith, Result, ok, continue_elim,
  lift_elim, pure, inl, inr, Bool-cases, Option-cases, Result-cases, String,
}
use community_platform.Time.{Datetime, naive, aware}
use community_platform.Errors.{Error}
use community_platform.Audit.{ActorKind}
use community_platform.Events.{CancellationTerms}
use community_platform.Events.Terms.{cancellation_terms}
use community_platform.Registrations.{
  Registration, RegistrationState, cancelled, TransitionCommand, NormalizedCommand,
  TransitionResult,
}
use community_platform.Registrations.Database.{Database}
use community_platform.Registrations.Repository.{Services, oldest_waitlisted, held_seat_count}
use community_platform.Registrations.Transitions.{transition}
use community_platform.Registrations.Creation.{deadline_for, seat_available}
use community_platform.Registrations.Promotion.{
  move, skip, promote, promotion_target, is_eligible, promote_loop, promote_for, promote_next,
  queue_length,
}
use community_platform.Registrations.Effects.Outcome.{Outcome, replayed, moved, transition-Outcome}
use community_platform.Registrations.Effects.Moves.{Audited, move_elim}
use community_platform.Registrations.Steps.{Step, quiet, Reach, here, next, Reach-trans, Moved-Step}

pub Reach-same : {db db' : Database} → db' ≡ db → Reach db db'
Reach-same {db} e = subst (Reach db) (sym e) here

-- the database behind the pair that a call returns
pub second_eq :
    {A : Type 0} {a b : A} {db db' : Database}
    → ◌≡◌ {A = Result Error (A × Database)} (ok (a, db)) (ok (b, db'))
    → db ≡ db'
second_eq h = cc

pub Audited-Step : (db db' : Database) → Audited db db' → Step db db'
Audited-Step db db' a = quiet (record {
  registrations = a.registrations;
  transitions = a.transitions;
  messages = rw a.outbox;
  events = a.events;
})

pub generated_Step : (db : Database) (k : ℕ) → Step db (record db { generated = k })
generated_Step db k =
    quiet (record { registrations = refl; transitions = refl; messages = refl; events = refl })

Outcome-Reach :
    (env : Services) (command : NormalizedCommand) (result : TransitionResult) (db db' : Database)
    → Outcome env command result db db'
    → Reach db db'
Outcome-Reach env command result db db' (replayed x) = Reach-same x.unchanged
Outcome-Reach env command result db db' (moved context m x) = next here (Moved-Step x)

pub transition-Reach :
    (env : Services) (value : TransitionCommand) (result : TransitionResult) (db db' : Database)
    → transition env value db ≡ ok (result, db')
    → Reach db db'
transition-Reach env value result db db' h =
    let (command, n, o) = transition-Outcome env value result db db' h in
    Outcome-Reach env command result db db' o

module _ (env : Services) (r : Registration) (target : RegistrationState) (user : Option ℕ)
    (kind : ActorKind) (reason action : String) (now : ℕ) (request_id deadline : Option ℕ) where
  pub move-Reach :
      (after : Registration) (db db' : Database)
      → move env r target user kind reason action now request_id deadline db ≡ ok (after, db')
      → Reach db db'
  move-Reach after db db' h =
      move_elim env r target user kind reason action now request_id deadline after db db' h
        λ result db₁ e a _.
          next
            (Reach-trans (next here (generated_Step db (suc db.generated)))
              (transition-Reach env _ result _ db₁ e))
            (Audited-Step db₁ db' a)

promote-Reach :
    (env : Services) (event : CancellationTerms) (candidate after : Registration) (now : ℕ)
    (request_id : Option ℕ) (db db' : Database)
    → promote env event candidate now request_id db ≡ ok (after, db')
    → Reach db db'
unfolding promote
promote-Reach env event candidate after now request_id db db' h =
    lift_elim
      (deadline_for (promotion_target event.method) event.cash_expiry_minutes event.start_at now) db
      _ h
      λ d e h₁.
        move-Reach env candidate (promotion_target event.method) none ActorKind.system
          "waitlist_promoted" "registration.promote" now request_id d after db db' h₁

skip-Reach :
    (env : Services) (candidate after : Registration) (now : ℕ) (request_id : Option ℕ)
    (db db' : Database)
    → skip env candidate now request_id db ≡ ok (after, db')
    → Reach db db'
unfolding skip
skip-Reach env candidate after now request_id db db' h =
    move-Reach env candidate cancelled none ActorKind.system "promotion_ineligible"
      "registration.promotion_skip" now request_id none after db db' h

promote_loop-Reach :
    (fuel : ℕ) (env : Services) (event : CancellationTerms) (now : ℕ) (request_id : Option ℕ)
    (promoted : Option Registration) (db db' : Database)
    → promote_loop fuel env event now request_id db ≡ ok (promoted, db')
    → Reach db db'
unfolding promote_loop
promote_loop-Reach zero env event now request_id promoted db db' h = cc
promote_loop-Reach (suc fuel) env event now request_id promoted db db' h =
    elim (Option-cases (oldest_waitlisted event.id db)) [
      | inl e ↦ Reach-same (ground arith)
      | inr (r, e) ↦ elim (Bool-cases (is_eligible env r)) [
        | inl t ↦
            continue_elim (promote env event r now request_id db) (λ a. pure (some a))
              {b = (promoted, db')} (ground arith)
              λ after db₁ e₁ h₁.
                subst (Reach db) (second_eq h₁)
                  (promote-Reach env event r after now request_id db db₁ e₁)
        | inr t ↦
            continue_elim (skip env r now request_id db)
              (λ _. promote_loop fuel env event now request_id) {b = (promoted, db')} (ground arith)
              λ after db₁ e₁ h₁.
                Reach-trans (skip-Reach env r after now request_id db db₁ e₁)
                  (promote_loop-Reach fuel env event now request_id promoted db₁ db' h₁)
      ]
    ]

promote_for-Reach :
    (env : Services) (terms : CancellationTerms) (now : ℕ) (request_id : Option ℕ)
    (promoted : Option Registration) (db db' : Database)
    → promote_for env terms now request_id db ≡ ok (promoted, db')
    → Reach db db'
unfolding promote_for
promote_for-Reach env terms now request_id promoted db db' h =
    elim (Bool-cases (leb terms.start_at now)) [
      | inl started ↦ Reach-same (ground arith)
      | inr early ↦
          elim (Bool-cases (seat_available terms.capacity (held_seat_count terms.id db))) [
            | inr full ↦ Reach-same (ground arith)
            | inl free ↦
                promote_loop-Reach (suc (queue_length terms.id db)) env terms now request_id
                  promoted db db' (ground arith)
          ]
    ]

pub promote_next-Reach :
    (env : Services) (event_id : ℕ) (now : Datetime) (request_id : Option ℕ)
    (promoted : Option Registration) (db db' : Database)
    → promote_next env event_id now request_id db ≡ ok (promoted, db')
    → Reach db db'
unfolding promote_next
promote_next-Reach env event_id (naive t) request_id promoted db db' h = ground arith
promote_next-Reach env event_id (aware t) request_id promoted db db' h =
    elim (Result-cases (cancellation_terms db.events event_id)) [
      | inr (e, p) ↦ ground arith
      | inl (terms, p) ↦ promote_for-Reach env terms t request_id promoted db db' (ground arith)
    ]
