-- ===== src/Registrations/Promotion/Order/Fairness.antt =====
-- Whom `promote_next` promotes.
use community_platform.Base.{
  ℕ, ◌≡◌, true, false, Option, none, arith, ok, inl, inr, Bool-cases, Result-cases, leb, suc,
}
use community_platform.Time.{aware}
use community_platform.Events.{CancellationTerms}
use community_platform.Events.Terms.{cancellation_terms}
use community_platform.Registrations.{Registration}
use community_platform.Registrations.Database.{Database}
use community_platform.Registrations.Repository.{Services, held_seat_count}
use community_platform.Registrations.Creation.{seat_available}
use community_platform.Registrations.Promotion.{
  promotion_target, promote_for, promote_next, queue_length,
}
use community_platform.Registrations.Validity.{IsValid}
use community_platform.Registrations.Promotion.Progress.{IsFresh, IsUnique}
use community_platform.Registrations.Promotion.Order.Turns.{Turn, promote_loop-Turn}

-- A promotion that has nothing to give changes nothing.
pub data Chosen (env : Services) (event : CancellationTerms) (now : ℕ) (out : Option Registration)
    (db db' : Database) : Type 0 where
  started : leb event.start_at now ≡ true → out ≡ none → db' ≡ db → Chosen env event now out db db'
  full :
      seat_available event.capacity (held_seat_count event.id db) ≡ false
      → out ≡ none
      → db' ≡ db
      → Chosen env event now out db db'
  turn :
      leb event.start_at now ≡ false
      → seat_available event.capacity (held_seat_count event.id db) ≡ true
      → Turn env event.id (promotion_target event.method) db out
      → Chosen env event now out db db'

promote_for-Chosen :
    (env : Services) (event : CancellationTerms) (now : ℕ) (request_id : Option ℕ)
    (out : Option Registration) (db db' : Database)
    → promote_for env event now request_id db ≡ ok (out, db')
    → IsUnique env
    → IsFresh env db
    → IsValid db.registrations
    → Chosen env event now out db db'
unfolding promote_for
promote_for-Chosen env event now request_id out db db' h u f v =
    elim (Bool-cases (leb event.start_at now)) [
      | inl late ↦ started late (ground arith) (ground arith)
      | inr early ↦
          elim (Bool-cases (seat_available event.capacity (held_seat_count event.id db))) [
            | inr none_free ↦ full none_free (ground arith) (ground arith)
            | inl free ↦ turn early free (
                promote_loop-Turn (suc (queue_length event.id db)) env event now request_id out db
                  db' (ground arith) u f v)
          ]
    ]

-- Where identifiers are never generated twice and those to come are not recorded as commands, a
-- promotion that returns, from tables that satisfy their constraints, either finds that the event has
-- started or is full, promotes nobody and changes nothing; or it promotes the waiting member who
-- comes first, by place, among those who are eligible, to the state that the event's method
-- calls for; or nobody who waits is eligible, and nobody is promoted.
pub promote_next-Chosen :
    (env : Services) (event_id t : ℕ) (request_id : Option ℕ) (out : Option Registration)
    (db db' : Database)
    → promote_next env event_id (aware t) request_id db ≡ ok (out, db')
    → IsUnique env
    → IsFresh env db
    → IsValid db.registrations
    → (event : CancellationTerms) × (cancellation_terms db.events event_id ≡ ok event)
      × Chosen env event t out db db'
unfolding promote_next
promote_next-Chosen env event_id t request_id out db db' h u f v =
    elim (Result-cases (cancellation_terms db.events event_id)) [
      | inr (e, p) ↦ ground arith
      | inl (event, p) ↦
          (event, p, promote_for-Chosen env event t request_id out db db' (ground arith) u f v)
    ]
