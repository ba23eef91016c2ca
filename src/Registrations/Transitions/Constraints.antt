-- ===== src/Registrations/Transitions/Constraints.antt =====
-- The constraints of the tables, against the rows that a guarded command writes.
use community_platform.Base.{
  ℕ, ◌≡◌, refl, Bool, true, false, ◌||◌, Option, none, some, List, [], ◌∷◌, ◌++◌, find?, any, ◌==◌,
  arith, ok, Option-cases, Result-cases, inl, inr, not, holds, leb,
}
use community_platform.Time.{Datetime, naive, aware}
use community_platform.Registrations.{
  RegistrationState, cash_pending, waitlisted, expired, state_eq, is_transition_allowed,
  Registration, RegistrationMutation, TransitionCommand, NormalizedCommand, RegistrationTransition,
}
use community_platform.Registrations.Commands.{
  normalize_command, mutation, deadline_error, header_error, read_times, with_times,
  deadline_instant,
}
use community_platform.Registrations.Database.{
  Database, row_ok, clashes, is_active, same_active, same_place, is_cash, insert_transition,
}
use community_platform.Registrations.Repository.{
  get_transition, has_id, replace_row, mutated, clashes_with_other,
}
use community_platform.Registrations.Transitions.{guard_error}
use community_platform.Registrations.Effects.{find?-state}
use community_platform.Registrations.Writes.{update_registration}
use community_platform.Registrations.Validity.{Distinct, any-false, clashes_comm}

-- the target is not `waitlisted`, and the state can be left
pub guard_facts :
    (r : Registration) (c : NormalizedCommand)
    → guard_error r c ≡ none
    → (is_transition_allowed r.state c.target_state ≡ true)
      × ((is_cash r.method
            || not (state_eq c.target_state cash_pending || state_eq c.target_state expired))
          ≡ true)
      × ((not (state_eq c.target_state expired)
            || holds (λ d. leb d c.occurred_at) r.cash_expires_at)
          ≡ true)
unfolding guard_error
guard_facts r c h = ground arith

pub edge_facts :
    (s t : RegistrationState)
    → is_transition_allowed s t ≡ true
    → (is_active s ≡ true) × (state_eq t waitlisted ≡ false) × (state_eq s t ≡ false)
unfolding is_transition_allowed is_active
edge_facts s t h = ground arith

pub mutation-row_ok :
    (r : Registration) (c : NormalizedCommand) (m : RegistrationMutation) (clock : ℕ)
    → row_ok r ≡ true
    → guard_error r c ≡ none
    → deadline_error c.target_state c.occurred_at c.cash_expires_at ≡ none
    → mutation r c ≡ ok m
    → row_ok (mutated m clock r) ≡ true
unfolding row_ok mutation mutated deadline_error
mutation-row_ok r c m clock v g d h =
    ground (arith, guard_facts r c g, edge_facts r.state c.target_state)

-- A row that has left an active state for one other than `waitlisted` stands in nobody's way that
-- it did not stand in before.
pub clashes_mutated :
    (r new s : Registration)
    → new.id ≡ r.id
    → new.event_id ≡ r.event_id
    → new.user_id ≡ r.user_id
    → is_active r.state ≡ true
    → state_eq new.state waitlisted ≡ false
    → clashes r s ≡ false
    → clashes_with_other new s ≡ false
unfolding clashes same_active same_place
clashes_mutated r new s i e u a w h = ground arith

any-clashes_mutated :
    (r new : Registration) (rs : List Registration)
    → ((s : Registration) → clashes r s ≡ false → clashes_with_other new s ≡ false)
    → any (clashes r) rs ≡ false
    → any (clashes_with_other new) rs ≡ false
any-clashes_mutated r new [] k h = refl
any-clashes_mutated r new (s ∷ rs) k h = ground (arith, k s, any-clashes_mutated r new rs k)

pub Distinct-mutated :
    (r new : Registration) (rs : List Registration)
    → ((s : Registration) → clashes r s ≡ false → clashes_with_other new s ≡ false)
    → new.id ≡ r.id
    → Distinct rs
    → find? (has_id r.id) rs ≡ some r
    → any (clashes_with_other new) rs ≡ false
Distinct-mutated r new [] k e d f = refl
Distinct-mutated r new (s ∷ rs) k e d f = ground (
  arith,
  k s,
  clashes_comm r s,
  any-false (clashes s) (has_id r.id) rs r d.0,
  any-clashes_mutated r new rs k,
  Distinct-mutated r new rs k e d.1,
)

with_times-deadline :
    (value : TransitionCommand) (t : ℕ) (deadline : Option ℕ) (c : NormalizedCommand)
    → with_times value t deadline ≡ ok c
    → deadline_error c.target_state c.occurred_at c.cash_expires_at ≡ none
unfolding with_times
with_times-deadline value t deadline c h =
    elim (Option-cases (deadline_error value.target_state t deadline)) [
      | inl e ↦ ground arith
      | inr (e, p) ↦ ground arith
    ]

read_times-deadline :
    (value : TransitionCommand) (at : Datetime) (c : NormalizedCommand)
    → read_times value at ≡ ok c
    → deadline_error c.target_state c.occurred_at c.cash_expires_at ≡ none
unfolding read_times
read_times-deadline value (naive t) c h = ground arith
read_times-deadline value (aware t) c h =
    elim (Result-cases (deadline_instant value.cash_expires_at)) [
      | inl (d, e) ↦ with_times-deadline value t d c (ground arith)
      | inr (e, p) ↦ ground arith
    ]

pub normalize_command-deadline :
    (value : TransitionCommand) (c : NormalizedCommand)
    → normalize_command value ≡ ok c
    → deadline_error c.target_state c.occurred_at c.cash_expires_at ≡ none
unfolding normalize_command
normalize_command-deadline value c h = elim (Option-cases (header_error value)) [
  | inl e ↦ read_times-deadline value value.occurred_at c (ground arith)
  | inr (e, p) ↦ ground arith
]

pub mutation-defined :
    (r : Registration) (c : NormalizedCommand)
    → state_eq c.target_state waitlisted ≡ false
    → (m : RegistrationMutation) × (mutation r c ≡ ok m)
unfolding mutation
mutation-defined r c h = elim (Result-cases (mutation r c)) [
  | inl (m, e) ↦ (m, e)
  | inr (x, e) ↦ absurd (ground arith)
]

pub update-defined :
    (r : Registration) (m : RegistrationMutation) (db : Database)
    → find? (has_id r.id) db.registrations ≡ some r
    → row_ok (mutated m db.clock r) ≡ true
    → any (clashes_with_other (mutated m db.clock r)) db.registrations ≡ false
    → update_registration r m db
      ≡ ok (
        mutated m db.clock r,
        record db { registrations = replace_row r.id (mutated m db.clock r) db.registrations },
      )
unfolding update_registration
update-defined r m db f v k = ground (arith, find?-state r db.registrations f)

any-or_new {ℓ} :
    {A : Type ℓ} (p q : A → Bool) (xs : List A)
    → find? p xs ≡ none
    → any q xs ≡ false
    → any (λ x. p x || q x) xs ≡ false
any-or_new p q [] h k = refl
any-or_new p q (x ∷ xs) h k = ground (arith, any-or_new p q xs)

pub insert_transition-defined :
    (t : RegistrationTransition) (db : Database)
    → get_transition t.command_id db ≡ none
    → any (λ u. u.id == t.id) db.transitions ≡ false
    → holds (λ s. state_eq s t.new_state) t.previous_state ≡ false
    → insert_transition t db ≡ ok (t, record db { transitions = db.transitions ++ t ∷ [] })
unfolding insert_transition get_transition
insert_transition-defined t db h k s =
    ground
      (arith, any-or_new (λ u. u.command_id == t.command_id) (λ u. u.id == t.id) db.transitions h k)
