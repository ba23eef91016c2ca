-- ===== src/Registrations/Capacity/Safety.antt =====
-- The capacity of events across `promote_next`, `cancel`, `confirm` and `process`.
use community_platform.Base.{
  ℕ, suc, subst, sym, ◌≤◌, ◌≡◌, true, false, not, ◌&&◌, Option, some, List, ◌==◌, leb, arith, ok,
  inl, inr, Bool-cases, Option-cases, Result-cases, find?-holds,
}
use community_platform.Time.{Datetime, naive, aware}
use community_platform.Events.{Event, CancellationTerms}
use community_platform.Events.Terms.{get, cancellation_terms}
use community_platform.Registrations.{Registration, RegistrationState}
use community_platform.Registrations.Database.{Database}
use community_platform.Registrations.Repository.{Services, held_seat_count}
use community_platform.Registrations.Creation.{seat_available, takes_seat}
use community_platform.Registrations.Promotion.{promote_for, promote_next, queue_length}
use community_platform.Registrations.Validity.{IsValid}
use community_platform.Registrations.Capacity.{Seated}
use community_platform.Registrations.Capacity.Promotion.{TakesOne, promote_loop-TakesOne}

-- Every event of the table holds at most as many seats as it has.
abbrev pub WithinCapacity : Database → Type 0
WithinCapacity db =
    (event_id : ℕ) (event : Event) (capacity : ℕ)
    → get db.events event_id ≡ some event
    → event.capacity ≡ some capacity
    → held_seat_count event_id db ≤ capacity

pub record IsSafe (db : Database) : Type 0 where
  pub valid : IsValid db.registrations
  pub capacity : WithinCapacity db

-- The terms of a cancellation are those of the event that was asked for.
pub cancellation_terms_lem :
    (events : List Event) (event_id : ℕ) (terms : CancellationTerms)
    → cancellation_terms events event_id ≡ ok terms
    → (event : Event) × (get events event_id ≡ some event)
      × (terms.id ≡ event_id)
      × (terms.capacity ≡ event.capacity)
unfolding cancellation_terms
cancellation_terms_lem events event_id terms h = elim (Option-cases (get events event_id)) [
  | inl e ↦ ground arith
  | inr (event, e) ↦
      (event, e, ground (arith, find?-holds (λ x. x.id == event_id) events event e), ground arith)
]

-- A seat that is taken where one is free stays within the capacity.
pub TakesOne-IsSafe :
    (event_id : ℕ) (event : Event) (db db' : Database)
    → get db.events event_id ≡ some event
    → seat_available event.capacity (held_seat_count event_id db) ≡ true
    → IsSafe db
    → TakesOne event_id db db'
    → IsSafe db'
unfolding seat_available
TakesOne-IsSafe event_id event db db' found available safe t = record {
  valid = t.valid;
  capacity = λ e x capacity g c.
      let g' : get db.events e ≡ some x = rw (← t.events) g in
      elim (Bool-cases (event_id == e)) [
        | inl same ↦ ground (arith, t.seats e, safe.capacity e x capacity g' c)
        | inr other ↦ ground (arith, t.seats e, safe.capacity e x capacity g' c)
      ];
}

pub promote_for-IsSafe :
    (env : Services) (terms : CancellationTerms) (event : Event) (now : ℕ) (request_id : Option ℕ)
    (promoted : Option Registration) (db db' : Database)
    → get db.events terms.id ≡ some event
    → terms.capacity ≡ event.capacity
    → promote_for env terms now request_id db ≡ ok (promoted, db')
    → IsSafe db
    → IsSafe db'
unfolding promote_for
promote_for-IsSafe env terms event now request_id promoted db db' g c h safe =
    elim (Bool-cases (leb terms.start_at now)) [
      | inl started ↦ subst IsSafe (ground arith) safe
      | inr early ↦
          elim (Bool-cases (seat_available terms.capacity (held_seat_count terms.id db))) [
            | inr full ↦ subst IsSafe (ground arith) safe
            | inl free ↦
                TakesOne-IsSafe terms.id event db db' g
                  (subst (λ k. seat_available k (held_seat_count terms.id db) ≡ true) c free) safe
                  (promote_loop-TakesOne (suc (queue_length terms.id db)) env terms now request_id
                    promoted db db' (ground arith) safe.valid)
          ]
    ]

-- `promote_next` takes at most one seat, and none that the event does not have.
pub promote_next-IsSafe :
    (env : Services) (event_id : ℕ) (now : Datetime) (request_id : Option ℕ)
    (promoted : Option Registration) (db db' : Database)
    → promote_next env event_id now request_id db ≡ ok (promoted, db')
    → IsSafe db
    → IsSafe db'
unfolding promote_next
promote_next-IsSafe env event_id (naive t) request_id promoted db db' h safe = ground arith
promote_next-IsSafe env event_id (aware t) request_id promoted db db' h safe =
    elim (Result-cases (cancellation_terms db.events event_id)) [
      | inr (e, p) ↦ ground arith
      | inl (terms, p) ↦
          let (event, g, same, c) = cancellation_terms_lem db.events event_id terms p in
          promote_for-IsSafe env terms event t request_id promoted db db'
            (subst (λ k. get db.events k ≡ some event) (sym same) g) c (ground arith) safe
    ]

-- A seat that is given up, or kept, stays within the capacity.
pub Seated-IsSafe :
    (r : Registration) (target : RegistrationState) (db db' : Database)
    → (takes_seat target && not r.seat_held) ≡ false
    → IsSafe db
    → Seated r target db db'
    → IsSafe db'
Seated-IsSafe r target db db' kept safe s = record {
  valid = s.valid;
  capacity = λ e x capacity g c.
      ground (arith, s.seats e, safe.capacity e x capacity (rw (← s.events) g) c);
}
