-- ===== src/Registrations/Promotion/Errors.antt =====
-- What the calls of the promotion loop raise.
use community_platform.Base.{
  ℕ, suc, ◌≡◌, refl, Bool, true, false, Option, none, some, Result, ok, err, Action, continue, pure,
  arith, inl, inr, String, Option-cases, Result-cases,
}
use community_platform.Errors.{Error, out_of_fuel}
use community_platform.Registrations.{
  RegistrationState, cancelled, Registration, RegistrationMutation, NormalizedCommand,
  TransitionCommand, RegistrationTransition,
}
use community_platform.Outbox.{OutboxEvent}
use community_platform.Audit.{ActorKind}
use community_platform.Events.{CancellationTerms}
use community_platform.Registrations.Database.{
  Database, insert_transition, insert_outbox, insert_outbox_or_nothing, record_audit,
}
use community_platform.Registrations.Commands.{
  normalize_command, read_times, with_times, header_error, deadline_error, deadline_instant,
  mutation, command_payload, new_transition_command,
}
use community_platform.Registrations.Repository.{Services, RegistrationContext, get_context}
use community_platform.Registrations.Writes.{
  transition_row, transition_message, update_registration, apply_transition, enqueue_deadline,
  enqueue_cash_expiry,
}
use community_platform.Registrations.Transitions.{
  replay, is_transitionable, has_started, guard_error, transition_row_of, transition_fresh,
  transition_normalized, transition,
}
use community_platform.Registrations.Creation.{deadline_for, cash_deadline}
use community_platform.Registrations.Promotion.{
  audit_registration, move, skip, promote, promotion_target,
}

abbrev pub lacks_fuel : {A : Type 0} → Result Error A → Bool
lacks_fuel (ok a) = false
lacks_fuel (err e) = elim e [ out_of_fuel ↦ true | _ ↦ false ]

-- A chain lacks fuel only if one of its calls does.
pub lacks_fuel-continue :
    {A B : Type 0} (r : Result Error (A × Database)) (f : A → Action Error Database B)
    → lacks_fuel r ≡ false
    → ((a : A) (db : Database) → lacks_fuel (f a db) ≡ false)
    → lacks_fuel (continue r f) ≡ false
lacks_fuel-continue (ok (a, db)) f h k = k a db
lacks_fuel-continue (err e) f h k = h

normalize_lacks : (value : TransitionCommand) → lacks_fuel (normalize_command value) ≡ false
unfolding normalize_command header_error read_times with_times deadline_error deadline_instant
normalize_lacks value = ground arith

is_transitionable_lacks :
    (context : RegistrationContext) (c : NormalizedCommand)
    → lacks_fuel (is_transitionable context c) ≡ false
unfolding is_transitionable has_started
is_transitionable_lacks context c = ground arith

update_lacks :
    (r : Registration) (m : RegistrationMutation) (db : Database)
    → lacks_fuel (update_registration r m db) ≡ false
unfolding update_registration
update_lacks r m db = ground arith

enqueue_lacks :
    (env : Services) (s : RegistrationState) (d : Option ℕ) (id event_id : ℕ) (db : Database)
    → lacks_fuel (enqueue_deadline env s d id event_id db) ≡ false
unfolding enqueue_deadline enqueue_cash_expiry insert_outbox_or_nothing
enqueue_lacks env s d id event_id db = ground arith

insert_transition_lacks :
    (t : RegistrationTransition) (db : Database) → lacks_fuel (insert_transition t db) ≡ false
unfolding insert_transition
insert_transition_lacks t db = ground arith

insert_outbox_lacks : (e : OutboxEvent) (db : Database) → lacks_fuel (insert_outbox e db) ≡ false
unfolding insert_outbox
insert_outbox_lacks e db = ground arith

apply_lacks :
    (env : Services) (r : Registration) (c : NormalizedCommand) (hash : ℕ)
    (m : RegistrationMutation) (db : Database)
    → lacks_fuel (apply_transition env r c hash m db) ≡ false
unfolding apply_transition
apply_lacks env r c hash m db =
    lacks_fuel-continue (update_registration r m db) _ (update_lacks r m db) λ row db₁.
      lacks_fuel-continue
        (insert_transition (transition_row (env.new_id db₁.generated) r c hash m.state db₁.clock)
          (record db₁ { generated = suc db₁.generated }))
        _
        (insert_transition_lacks
          (transition_row (env.new_id db₁.generated) r c hash m.state db₁.clock)
          (record db₁ { generated = suc db₁.generated }))
        λ t db₂.
          lacks_fuel-continue
            (insert_outbox (transition_message (env.new_id db₂.generated) r c m.state db₁.clock)
              (record db₂ { generated = suc db₂.generated }))
            _
            (insert_outbox_lacks
              (transition_message (env.new_id db₂.generated) r c m.state db₁.clock)
              (record db₂ { generated = suc db₂.generated }))
            λ u db₃.
              lacks_fuel-continue
                (enqueue_deadline env m.state m.cash_expires_at r.id r.event_id db₃)
                (λ _. pure (record { registration = row; transition = t }))
                (enqueue_lacks env m.state m.cash_expires_at r.id r.event_id db₃) λ v db₄. refl

mutation_lacks : (r : Registration) (c : NormalizedCommand) → lacks_fuel (mutation r c) ≡ false
unfolding mutation
mutation_lacks r c = ground arith

guard_lacks :
    (r : Registration) (c : NormalizedCommand) (e : Error)
    → guard_error r c ≡ some e
    → lacks_fuel {A = Unit} (err e) ≡ false
unfolding guard_error
guard_lacks r c e h = ground arith

row_lacks :
    (env : Services) (c : NormalizedCommand) (context : RegistrationContext) (db : Database)
    → lacks_fuel (transition_row_of env c context db) ≡ false
unfolding transition_row_of
row_lacks env c context db = elim (Result-cases (is_transitionable context c)) [
  | inr (e, p) ↦ ground (arith, is_transitionable_lacks context c)
  | inl (b, p) ↦ elim (Option-cases (guard_error context.registration c)) [
    | inr (e, q) ↦ ground (arith, guard_lacks context.registration c e q)
    | inl q ↦ elim (Result-cases (mutation context.registration c)) [
      | inr (e, k) ↦ ground (arith, mutation_lacks context.registration c)
      | inl (m, k) ↦ ground (
        arith,
        apply_lacks env context.registration c (env.command_hash (command_payload c)) m db,
      )
    ]
  ]
]

fresh_lacks :
    (env : Services) (c : NormalizedCommand) (db : Database)
    → lacks_fuel (transition_fresh env c db) ≡ false
unfolding transition_fresh
fresh_lacks env c db = elim (Option-cases (get_context c.registration_id db)) [
  | inl p ↦ ground arith
  | inr (context, p) ↦ ground (arith, row_lacks env c context db)
]

replay_lacks :
    (c : NormalizedCommand) (hash : ℕ) (db : Database) → lacks_fuel (replay c hash db) ≡ false
unfolding replay
replay_lacks c hash db = ground arith

normalized_lacks :
    (env : Services) (c : NormalizedCommand) (db : Database)
    → lacks_fuel (transition_normalized env c db) ≡ false
unfolding transition_normalized
normalized_lacks env c db =
    elim (Result-cases (replay c (env.command_hash (command_payload c)) db)) [
      | inr (e, p) ↦ ground (arith, replay_lacks c (env.command_hash (command_payload c)) db)
      | inl (found, p) ↦ elim (Option-cases found) [
        | inl q ↦ ground (arith, fresh_lacks env c db)
        | inr (result, q) ↦ ground arith
      ]
    ]

transition_lacks :
    (env : Services) (value : TransitionCommand) (db : Database)
    → lacks_fuel (transition env value db) ≡ false
unfolding transition
transition_lacks env value db = elim (Result-cases (normalize_command value)) [
  | inr (e, p) ↦ ground (arith, normalize_lacks value)
  | inl (c, p) ↦ ground (arith, normalized_lacks env c db)
]

audit_lacks :
    (env : Services) (user : Option ℕ) (kind : ActorKind) (action reason : String)
    (r : Registration) (after : RegistrationState) (request_id : Option ℕ) (db : Database)
    → lacks_fuel (audit_registration env user kind action reason r after request_id db) ≡ false
unfolding audit_registration record_audit
audit_lacks env user kind action reason r after request_id db = ground arith

module _ (env : Services) (r : Registration) (target : RegistrationState) (user : Option ℕ)
    (kind : ActorKind) (reason action : String) (now : ℕ) (request_id deadline : Option ℕ) where
  move_lacks :
      (db : Database)
      → lacks_fuel (move env r target user kind reason action now request_id deadline db) ≡ false
  unfolding move
  move_lacks db =
      lacks_fuel-continue
        (transition env
          (new_transition_command (env.new_id db.generated) r.id target user kind reason now
            request_id deadline)
          (record db { generated = suc db.generated }))
        _
        (transition_lacks env
          (new_transition_command (env.new_id db.generated) r.id target user kind reason now
            request_id deadline)
          (record db { generated = suc db.generated }))
        λ result db₁.
          lacks_fuel-continue
            (audit_registration env user kind action reason r result.registration.state request_id
              db₁)
            (λ _. pure result.registration)
            (audit_lacks env user kind action reason r result.registration.state request_id db₁)
            λ u db₂. refl

pub skip_lacks :
    (env : Services) (r : Registration) (now : ℕ) (request_id : Option ℕ) (db : Database)
    → lacks_fuel (skip env r now request_id db) ≡ false
unfolding skip
skip_lacks env r now request_id db =
    move_lacks env r cancelled none ActorKind.system "promotion_ineligible"
      "registration.promotion_skip" now request_id none db

deadline_lacks :
    (s : RegistrationState) (minutes : Option ℕ) (start now : ℕ)
    → lacks_fuel (deadline_for s minutes start now) ≡ false
unfolding deadline_for cash_deadline
deadline_lacks s minutes start now = ground arith

pub promote_lacks :
    (env : Services) (event : CancellationTerms) (r : Registration) (now : ℕ)
    (request_id : Option ℕ) (db : Database)
    → lacks_fuel (promote env event r now request_id db) ≡ false
unfolding promote
promote_lacks env event r now request_id db =
    elim (Result-cases
      (deadline_for (promotion_target event.method) event.cash_expiry_minutes event.start_at now)) [
        | inr (e, p) ↦ ground (
          arith,
          deadline_lacks (promotion_target event.method) event.cash_expiry_minutes event.start_at
              now,
        )
        | inl (d, p) ↦ ground (
          arith,
          move_lacks env r (promotion_target event.method) none ActorKind.system "waitlist_promoted"
              "registration.promote" now request_id d db,
        )
      ]
