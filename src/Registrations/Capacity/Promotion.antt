-- ===== src/Registrations/Capacity/Promotion.antt =====
-- The seats of each event across a promotion.
use community_platform.Base.{
  ℕ, zero, suc, subst, ◌∙◌, ◌+◌, ◌≤◌, ◌≡◌, Option, none, some, find?, ◌==◌, indicator, String,
  arith, Result, ok, continue_elim, pure, inl, inr, Bool-cases, Option-cases, Result-cases,
}
use community_platform.Errors.{Error}
use community_platform.Audit.{ActorKind}
use community_platform.Events.{CancellationTerms}
use community_platform.Registrations.{RegistrationState, cancelled, Registration}
use community_platform.Registrations.Commands.{new_transition_command}
use community_platform.Registrations.Database.{Database}
use community_platform.Registrations.Repository.{
  Services, has_id, held_seat_count, waits_for, oldest_waitlisted,
}
use community_platform.Registrations.Creation.{deadline_for}
use community_platform.Registrations.Promotion.{
  move, skip, promote, promotion_target, is_eligible, promote_loop,
}
use community_platform.Registrations.Validity.{IsValid, find?-first_by_place, first_by_place-holds}
use community_platform.Registrations.Effects.Moves.{Audited, move_elim}
use community_platform.Registrations.Capacity.{Seated, transition-Seated}

pub Seated-Audited :
    (r : Registration) (target : RegistrationState) (n : ℕ) (db db₁ db' : Database)
    → Audited db₁ db'
    → Seated r target (record db { generated = n }) db₁
    → Seated r target db db'
unfolding held_seat_count
Seated-Audited r target n db db₁ db' a s = record {
  valid = rw a.registrations s.valid;
  events = a.events ∙ s.events;
  seats = λ e. rw a.registrations (s.seats e);
}

module _ (env : Services) (r : Registration) (target : RegistrationState) (user : Option ℕ)
    (kind : ActorKind) (reason action : String) (now : ℕ) (request_id deadline : Option ℕ) where
  pub move-Seated :
      (after : Registration) (db db' : Database)
      → move env r target user kind reason action now request_id deadline db ≡ ok (after, db')
      → find? (has_id r.id) db.registrations ≡ some r
      → IsValid db.registrations
      → Seated r target db db'
  unfolding new_transition_command
  move-Seated after db db' h f v =
      move_elim env r target user kind reason action now request_id deadline after db db' h
        λ result db₁ e a _.
          Seated-Audited r target (suc db.generated) db db₁ db' a
            (transition-Seated env _ r result _ db₁ e f v)

-- What a call has done to the seats of all events: at most one seat is new, at one event.
pub record TakesOne (event_id : ℕ) (db db' : Database) : Type 0 where
  pub valid : IsValid db'.registrations
  pub events : db'.events ≡ db.events
  pub seats : (e : ℕ) → held_seat_count e db' ≤ held_seat_count e db + indicator (event_id == e)

pub skip-Seated :
    (env : Services) (candidate after : Registration) (now : ℕ) (request_id : Option ℕ)
    (db db' : Database)
    → skip env candidate now request_id db ≡ ok (after, db')
    → find? (has_id candidate.id) db.registrations ≡ some candidate
    → IsValid db.registrations
    → Seated candidate cancelled db db'
unfolding skip
skip-Seated env candidate after now request_id db db' h f v =
    move-Seated env candidate cancelled none ActorKind.system "promotion_ineligible"
      "registration.promotion_skip" now request_id none after db db' h f v

promote-Seated :
    (env : Services) (event : CancellationTerms) (candidate after : Registration) (now : ℕ)
    (request_id : Option ℕ) (db db' : Database)
    → promote env event candidate now request_id db ≡ ok (after, db')
    → find? (has_id candidate.id) db.registrations ≡ some candidate
    → IsValid db.registrations
    → Seated candidate (promotion_target event.method) db db'
unfolding promote
promote-Seated env event candidate after now request_id db db' h f v =
    elim (Result-cases
      (deadline_for (promotion_target event.method) event.cash_expiry_minutes event.start_at now)) [
        | inl (d, e) ↦
            move-Seated env candidate (promotion_target event.method) none ActorKind.system
              "waitlist_promoted" "registration.promote" now request_id d after db db'
              (ground arith) f v
        | inr (x, e) ↦ ground arith
      ]

Seated-TakesOne :
    (r : Registration) (target : RegistrationState) (event_id : ℕ) (db db' : Database)
    → r.event_id ≡ event_id
    → Seated r target db db'
    → TakesOne event_id db db'
Seated-TakesOne r target event_id db db' e s = record {
  valid = s.valid;
  events = s.events;
  seats = λ n. ground (arith, s.seats n);
}

TakesOne-same :
    (event_id : ℕ) (db db' : Database)
    → db' ≡ db
    → IsValid db.registrations
    → TakesOne event_id db db'
TakesOne-same event_id db db' e v = record {
  valid = rw e v;
  events = rw e;
  seats = λ n. rw e (omega arith);
}

TakesOne-after :
    (r : Registration) (event_id : ℕ) (db db₁ db' : Database)
    → Seated r cancelled db db₁
    → TakesOne event_id db₁ db'
    → TakesOne event_id db db'
TakesOne-after r event_id db db₁ db' s t = record {
  valid = t.valid;
  events = t.events ∙ s.events;
  seats = λ n. ground (arith, s.seats n, t.seats n);
}

pub candidate_event :
    (event_id : ℕ) (db : Database) (r : Registration)
    → oldest_waitlisted event_id db ≡ some r
    → r.event_id ≡ event_id
unfolding oldest_waitlisted
candidate_event event_id db r h =
    ground (arith, first_by_place-holds (waits_for event_id) db.registrations r h)

pub candidate_found :
    (event_id : ℕ) (db : Database) (r : Registration)
    → IsValid db.registrations
    → oldest_waitlisted event_id db ≡ some r
    → find? (has_id r.id) db.registrations ≡ some r
unfolding oldest_waitlisted
candidate_found event_id db r v h =
    find?-first_by_place (waits_for event_id) db.registrations r v.distinct h

second_eq :
    {a b : Option Registration} {db db' : Database}
    → ◌≡◌ {A = Result Error (Option Registration × Database)} (ok (a, db)) (ok (b, db'))
    → db ≡ db'
second_eq h = ground arith

-- The loop takes at most one seat, at the event whose queue it walks.
pub promote_loop-TakesOne :
    (fuel : ℕ) (env : Services) (event : CancellationTerms) (now : ℕ) (request_id : Option ℕ)
    (promoted : Option Registration) (db db' : Database)
    → promote_loop fuel env event now request_id db ≡ ok (promoted, db')
    → IsValid db.registrations
    → TakesOne event.id db db'
unfolding promote_loop
promote_loop-TakesOne zero env event now request_id promoted db db' h v = cc
promote_loop-TakesOne (suc fuel) env event now request_id promoted db db' h v =
    elim (Option-cases (oldest_waitlisted event.id db)) [
      | inl e ↦ TakesOne-same event.id db db' (ground arith) v
      | inr (r, e) ↦
          let here = candidate_event event.id db r e in
          let found = candidate_found event.id db r v e in
          elim (Bool-cases (is_eligible env r)) [
            | inl t ↦
                continue_elim (promote env event r now request_id db) (λ a. pure (some a))
                  {b = (promoted, db')} (ground arith)
                  λ after db₁ e₁ h₁.
                    Seated-TakesOne r (promotion_target event.method) event.id db db' here (
                      subst (Seated r (promotion_target event.method) db) (second_eq h₁)
                        (promote-Seated env event r after now request_id db db₁ e₁ found v))
            | inr t ↦
                continue_elim (skip env r now request_id db)
                  (λ _. promote_loop fuel env event now request_id) {b = (promoted, db')}
                  (ground arith)
                  λ after db₁ e₁ h₁.
                    let s = skip-Seated env r after now request_id db db₁ e₁ found v in
                    TakesOne-after r event.id db db₁ db' s (
                      promote_loop-TakesOne fuel env event now request_id promoted db₁ db' h₁
                        s.valid)
          ]
    ]
