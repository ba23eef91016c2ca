-- ===== src/Registrations/Transitions/Retries.antt =====
-- A command that is sent again: the replay of a transition.
use community_platform.Base.{
  ℕ, ◌≡◌, sym, ◌∙◌, some, [], ◌∷◌, find?, ◌==◌, arith, ok, subst, find?-append_miss,
  find?-replace_first_self, Option-cases, inl, inr,
}
use community_platform.Events.{Event}
use community_platform.Events.Terms.{get}
use community_platform.Registrations.{
  Registration, RegistrationMutation, TransitionCommand, NormalizedCommand, TransitionResult,
}
use community_platform.Registrations.Commands.{normalize_command, command_payload}
use community_platform.Registrations.Database.{Database}
use community_platform.Registrations.Repository.{
  Services, RegistrationContext, get_context, get_transition, has_id,
}
use community_platform.Registrations.Transitions.{replay, transition_normalized, transition}
use community_platform.Registrations.Effects.Outcome.{
  Outcome, replayed, moved, Moved, transition-Outcome, find?-context,
}
use community_platform.Registrations.Capacity.{moved_row}

-- the context that is read once the row has been found
context_event :
    (db : Database) (id : ℕ) (context : RegistrationContext)
    → get_context id db ≡ some context
    → (e : Event) × (get db.events context.registration.event_id ≡ some e)
unfolding get_context
context_event db id context h = elim (Option-cases (find? (has_id id) db.registrations)) [
  | inl p ↦ ground arith
  | inr (r, p) ↦ elim (Option-cases (get db.events r.event_id)) [
    | inl q ↦ ground arith
    | inr (e, q) ↦ (e, ground arith)
  ]
]

get_context_of :
    (db : Database) (id : ℕ) (r : Registration) (e : Event)
    → find? (has_id id) db.registrations ≡ some r
    → get db.events r.event_id ≡ some e
    → get_context id db
      ≡ some (record { registration = r; event_status = e.status; event_start_at = e.start_at })
unfolding get_context
get_context_of db id r e p q = ground arith

module _ {env : Services} {command : NormalizedCommand} {result : TransitionResult}
    {db db' : Database} {context : RegistrationContext} {m : RegistrationMutation}
    (x : Moved env command result db db' context m) where
  moved_recorded : get_transition command.command_id db' ≡ some result.transition
  unfolding get_transition
  moved_recorded = rw x.applied.appended.transitions (
      ground (
        arith,
        find?-append_miss (λ t. t.command_id == command.command_id) db.transitions
            (result.transition ∷ []),
        x.new,
        x.applied.command_id,
      ))

  moved_found :
      find? (has_id result.transition.registration_id) db'.registrations ≡ some result.registration
  moved_found =
      rw (x.applied.registration_id, x.applied.registrations)
        (find?-replace_first_self (has_id context.registration.id) context.registration
          result.registration db.registrations
          (find?-context command.registration_id db context x.found) (ground (arith, moved_row x)))

  moved_replay : replay command (env.command_hash (command_payload command)) db' ≡ ok (some result)
  unfolding replay
  moved_replay =
      let (e, found) = context_event db command.registration_id context x.found in
      let c =
        get_context_of db' result.transition.registration_id result.registration e moved_found
          (rw (x.applied.appended.events, (moved_row x).1) found) in
      ground (arith, moved_recorded, c, x.applied.command_hash)

normalized-again :
    (env : Services) (command : NormalizedCommand) (result : TransitionResult) (db : Database)
    → replay command (env.command_hash (command_payload command)) db ≡ ok (some result)
    → transition_normalized env command db ≡ ok (result, db)
unfolding transition_normalized
normalized-again env command result db h = ground arith

transition-normalized :
    (env : Services) (value : TransitionCommand) (command : NormalizedCommand) (db : Database)
    → normalize_command value ≡ ok command
    → transition env value db ≡ transition_normalized env command db
unfolding transition
transition-normalized env value command db h = ground arith

Outcome-again :
    (env : Services) (value : TransitionCommand) (command : NormalizedCommand)
    (result : TransitionResult) (db db' : Database)
    → normalize_command value ≡ ok command
    → transition env value db ≡ ok (result, db')
    → Outcome env command result db db'
    → transition env value db' ≡ ok (result, db')
Outcome-again env value command result db db' n h (replayed x) =
    subst (λ d. transition env value d ≡ ok (result, db')) (sym x.unchanged) h
Outcome-again env value command result db db' n h (moved context m x) =
    transition-normalized env value command db' n
    ∙ normalized-again env command result db' (moved_replay x)

-- A transition that has succeeded and is asked for again answers the same, and changes nothing.
pub transition-again :
    (env : Services) (value : TransitionCommand) (result : TransitionResult) (db db' : Database)
    → transition env value db ≡ ok (result, db')
    → transition env value db' ≡ ok (result, db')
transition-again env value result db db' h =
    let (command, n, o) = transition-Outcome env value result db db' h in
    Outcome-again env value command result db db' n h o
