-- ===== src/Registrations/Effects/Outcome.antt =====
-- How a successful transition came about: by a replay of a recorded command, or by a move of one
-- registration.
use community_platform.Base.{
  ℕ, ◌≡◌, subst, sym, true, Option, none, some, find?, arith, ok, find?-holds, Result-cases,
  Option-cases, inl, inr,
}
use community_platform.Registrations.{
  RegistrationMutation, TransitionCommand, NormalizedCommand, TransitionResult,
}
use community_platform.Registrations.Commands.{normalize_command, command_payload, mutation}
use community_platform.Registrations.Database.{Database}
use community_platform.Registrations.Repository.{
  Services, RegistrationContext, get_context, get_transition, has_id,
}
use community_platform.Registrations.Transitions.{
  replay, is_transitionable, guard_error, transition_row_of, transition_fresh,
  transition_normalized, transition,
}
use community_platform.Registrations.Effects.{Applied, apply_transition_lem}

-- A command whose identifier is recorded under the same hash.
pub record Replayed (env : Services) (command : NormalizedCommand) (result : TransitionResult)
    (db db' : Database) : Type 0 where
  pub recorded : get_transition command.command_id db ≡ some result.transition
  pub same_hash : result.transition.command_hash ≡ env.command_hash (command_payload command)
  pub unchanged : db' ≡ db

-- A registration that has passed the guards and was moved.
pub record Moved (env : Services) (command : NormalizedCommand) (result : TransitionResult)
    (db db' : Database) (context : RegistrationContext) (m : RegistrationMutation) : Type 0 where
  pub new : get_transition command.command_id db ≡ none
  pub found : get_context command.registration_id db ≡ some context
  pub allowed : is_transitionable context command ≡ ok true
  pub guarded : guard_error context.registration command ≡ none
  pub target : mutation context.registration command ≡ ok m
  pub applied :
      Applied context.registration command
        (env.command_hash (command_payload command))
        m
        result
        db
        db'

pub data Outcome (env : Services) (command : NormalizedCommand) (result : TransitionResult)
    (db db' : Database) : Type 0 where
  replayed : Replayed env command result db db' → Outcome env command result db db'
  moved :
      (context : RegistrationContext) (m : RegistrationMutation)
      → Moved env command result db db' context m
      → Outcome env command result db db'

-- The registration of a context is the first row with the identifier that was asked for.
pub get_context_lem :
    (id : ℕ) (db : Database) (context : RegistrationContext)
    → get_context id db ≡ some context
    → find? (has_id id) db.registrations ≡ some context.registration
unfolding get_context
get_context_lem id db context h = ground arith

pub get_context_id :
    (id : ℕ) (db : Database) (context : RegistrationContext)
    → get_context id db ≡ some context
    → context.registration.id ≡ id
get_context_id id db context h = ground (
  arith,
  find?-holds (has_id id) db.registrations context.registration (get_context_lem id db context h),
)

pub find?-context :
    (id : ℕ) (db : Database) (context : RegistrationContext)
    → get_context id db ≡ some context
    → find? (has_id context.registration.id) db.registrations ≡ some context.registration
find?-context id db context h =
    subst (λ k. find? (has_id k) db.registrations ≡ some context.registration)
      (sym (get_context_id id db context h)) (get_context_lem id db context h)

row_outcome :
    (env : Services) (command : NormalizedCommand) (context : RegistrationContext)
    (result : TransitionResult) (db db' : Database)
    → get_transition command.command_id db ≡ none
    → get_context command.registration_id db ≡ some context
    → transition_row_of env command context db ≡ ok (result, db')
    → (m : RegistrationMutation) × Moved env command result db db' context m
unfolding transition_row_of
row_outcome env command context result db db' new found h =
    elim (Result-cases (is_transitionable context command)) [
      | inr (e, p) ↦ ground arith
      | inl (b, p) ↦ elim (Option-cases (guard_error context.registration command)) [
        | inr (e, q) ↦ ground arith
        | inl q ↦ elim (Result-cases (mutation context.registration command)) [
          | inr (e, r) ↦ ground arith
          | inl (m, r) ↦ (
            m,
            record {
              new = new;
              found = found;
              allowed = ground arith;
              guarded = q;
              target = r;
              applied =
                  apply_transition_lem env context.registration command
                    (env.command_hash (command_payload command)) m result db db'
                    (find?-context command.registration_id db context found) (ground arith);
            },
          )
        ]
      ]
    ]

fresh-Outcome :
    (env : Services) (command : NormalizedCommand) (result : TransitionResult) (db db' : Database)
    → get_transition command.command_id db ≡ none
    → transition_fresh env command db ≡ ok (result, db')
    → Outcome env command result db db'
unfolding transition_fresh
fresh-Outcome env command result db db' new h =
    elim (Option-cases (get_context command.registration_id db)) [
      | inl p ↦ ground arith
      | inr (context, p) ↦
          let (m, x) = row_outcome env command context result db db' new p (ground arith) in
          moved context m x
    ]

replay-none :
    (command : NormalizedCommand) (hash : ℕ) (db : Database)
    → replay command hash db ≡ ok none
    → get_transition command.command_id db ≡ none
unfolding replay
replay-none command hash db h = ground arith

pub replay-some :
    (command : NormalizedCommand) (hash : ℕ) (db : Database) (result : TransitionResult)
    → replay command hash db ≡ ok (some result)
    → (get_transition command.command_id db ≡ some result.transition)
      × (result.transition.command_hash ≡ hash)
unfolding replay
replay-some command hash db result h = ground arith

found-Outcome :
    (env : Services) (command : NormalizedCommand) (found : Option TransitionResult)
    (result : TransitionResult) (db db' : Database)
    → replay command (env.command_hash (command_payload command)) db ≡ ok found
    → transition_normalized env command db ≡ ok (result, db')
    → Outcome env command result db db'
unfolding transition_normalized
found-Outcome env command none result db db' p h =
    fresh-Outcome env command result db db' (replay-none command _ db p) (ground arith)
found-Outcome env command (some old) result db db' p h =
    let (recorded, same) = replay-some command _ db old p in
    replayed
      (record { recorded = ground arith; same_hash = ground arith; unchanged = ground arith })

normalized-Outcome :
    (env : Services) (command : NormalizedCommand) (result : TransitionResult) (db db' : Database)
    → transition_normalized env command db ≡ ok (result, db')
    → Outcome env command result db db'
unfolding transition_normalized
normalized-Outcome env command result db db' h =
    elim (Result-cases (replay command (env.command_hash (command_payload command)) db)) [
      | inr (e, p) ↦ ground arith
      | inl (found, p) ↦ found-Outcome env command found result db db' p h
    ]

pub transition-Outcome :
    (env : Services) (value : TransitionCommand) (result : TransitionResult) (db db' : Database)
    → transition env value db ≡ ok (result, db')
    → (command : NormalizedCommand) × (normalize_command value ≡ ok command)
      × Outcome env command result db db'
unfolding transition
transition-Outcome env value result db db' h = elim (Result-cases (normalize_command value)) [
  | inr (e, p) ↦ ground arith
  | inl (command, p) ↦ (command, p, normalized-Outcome env command result db db' (ground arith))
]
