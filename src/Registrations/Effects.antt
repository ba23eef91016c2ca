-- ===== src/Registrations/Effects.antt =====
-- What a successful transition does to the tables.
pub mod Outcome
pub mod Moves
pub mod Created
pub mod Registering
use community_platform.Base.{
  ℕ, ◌+◌, ◌≤◌, ◌≡◌, refl, Bool, true, false, ◌&&◌, ◌⊎◌, Option, some, List, [], ◌∷◌, ◌++◌, find?,
  any, count, ◌==◌, if◌then◌else◌, arith, Result, ok, find?-also, suc, continue_elim, count-append,
  indicator,
}
use community_platform.Errors.{Error}
use community_platform.Registrations.{
  RegistrationState, cash_pending, RegistrationTransition, state_eq, Registration,
  RegistrationMutation, NormalizedCommand, TransitionResult,
}
use community_platform.Registrations.Database.{Database, row_ok}
use community_platform.Registrations.Repository.{
  Services, has_id, replace_row, mutated, clashes_with_other,
}
use community_platform.Registrations.Writes.{
  apply_transition, update_registration, enqueue_deadline, enqueue_cash_expiry, cash_expiry_message,
  transition_row, transition_message,
}
use community_platform.Registrations.Database.{
  insert_transition, insert_outbox, insert_outbox_or_nothing,
}
use community_platform.Outbox.{OutboxEvent, created, transition}

-- The first row with an identifier is also the first one with that identifier and its own state.
pub find?-state :
    (r : Registration) (rs : List Registration)
    → find? (has_id r.id) rs ≡ some r
    → find? (λ s. has_id r.id s && state_eq s.state r.state) rs ≡ some r
find?-state r rs h =
    find?-also (has_id r.id) (λ s. has_id r.id s && state_eq s.state r.state) rs r h (ground arith)
      λ x e. ground arith

update_lem :
    (current : Registration) (m : RegistrationMutation) (db db' : Database) (row : Registration)
    → find? (has_id current.id) db.registrations ≡ some current
    → update_registration current m db ≡ ok (row, db')
    → (row ≡ mutated m db.clock current)
      × (row_ok row ≡ true)
      × (any (clashes_with_other row) db.registrations ≡ false)
      × (db' ≡ record db { registrations = replace_row current.id row db.registrations })
unfolding update_registration
update_lem current m db db' row f h = ground (arith, find?-state current db.registrations f)

-- The messages that announce a registration or a change of one, deadlines left out.
abbrev pub announces : OutboxEvent → Bool
announces e = elim e.deduplication_key [ created id ↦ true | transition id ↦ true | _ ↦ false ]

-- The rows that are written along with a row of the registrations.
pub record Appended (db db' : Database) (t : RegistrationTransition) : Type 0 where
  pub transitions : db'.transitions ≡ db.transitions ++ t ∷ []
  pub messages : count announces db'.outbox ≡ suc (count announces db.outbox)
  pub audit : db'.audit ≡ db.audit
  pub events : db'.events ≡ db.events
  pub clock : db'.clock ≡ db.clock

-- What an insertion into the outbox leaves alone.
pub record SameTables (db db' : Database) : Type 0 where
  pub registrations : db'.registrations ≡ db.registrations
  pub transitions : db'.transitions ≡ db.transitions
  pub audit : db'.audit ≡ db.audit
  pub events : db'.events ≡ db.events
  pub clock : db'.clock ≡ db.clock
  pub generated : db.generated ≤ db'.generated

count-announces_one :
    (es : List OutboxEvent) (e : OutboxEvent)
    → count announces (es ++ e ∷ []) ≡ count announces es + indicator (announces e)
count-announces_one es e = rw count-append (ground arith)

pub insert_outbox_lem :
    (e : OutboxEvent) (db db' : Database)
    → insert_outbox e db ≡ ok (tt, db')
    → SameTables db db'
      × (count announces db'.outbox ≡ count announces db.outbox + indicator (announces e))
unfolding insert_outbox
insert_outbox_lem e db db' h = ground (arith, count-announces_one db.outbox e)

insert_outbox_or_nothing_lem :
    (e : OutboxEvent) (db db' : Database)
    → announces e ≡ false
    → insert_outbox_or_nothing e db ≡ ok (tt, db')
    → SameTables db db' × (count announces db'.outbox ≡ count announces db.outbox)
unfolding insert_outbox_or_nothing
insert_outbox_or_nothing_lem e db db' k h = ground (arith, count-announces_one db.outbox e)

enqueue_cash_expiry_lem :
    (env : Services) (id event_id t : ℕ) (db db' : Database)
    → enqueue_cash_expiry env id event_id t db ≡ ok (tt, db')
    → SameTables db db' × (count announces db'.outbox ≡ count announces db.outbox)
unfolding enqueue_cash_expiry
enqueue_cash_expiry_lem env id event_id t db db' h = ground (
  arith,
  insert_outbox_or_nothing_lem
      (cash_expiry_message (env.new_id db.generated) id event_id t db.clock)
      (record db { generated = suc db.generated }) db' refl h,
)

pub enqueue_deadline_lem :
    (env : Services) (s : RegistrationState) (d : Option ℕ) (id event_id : ℕ) (db db' : Database)
    → enqueue_deadline env s d id event_id db ≡ ok (tt, db')
    → SameTables db db' × (count announces db'.outbox ≡ count announces db.outbox)
unfolding enqueue_deadline
enqueue_deadline_lem env cash_pending (some t) id event_id db db' h =
    enqueue_cash_expiry_lem env id event_id t db db' h
enqueue_deadline_lem env _ _ id event_id db db' h = ground arith

pub insert_transition_lem :
    (t u : RegistrationTransition) (db db' : Database)
    → insert_transition t db ≡ ok (u, db')
    → (u ≡ t) × (db' ≡ record db { transitions = db.transitions ++ t ∷ [] })
unfolding insert_transition
insert_transition_lem t u db db' h = ground arith

-- What a transition that was applied has done.
pub record Applied (current : Registration) (command : NormalizedCommand) (hash : ℕ)
    (m : RegistrationMutation) (result : TransitionResult) (db db' : Database) : Type 0 where
  pub row : result.registration ≡ mutated m db.clock current
  pub row_valid : row_ok result.registration ≡ true
  pub row_free : any (clashes_with_other result.registration) db.registrations ≡ false
  pub registrations :
      db'.registrations ≡ replace_row current.id result.registration db.registrations
  pub command_id : result.transition.command_id ≡ command.command_id
  pub command_hash : result.transition.command_hash ≡ hash
  pub registration_id : result.transition.registration_id ≡ current.id
  pub previous_state : result.transition.previous_state ≡ some current.state
  pub new_state : result.transition.new_state ≡ m.state
  pub appended : Appended db db' result.transition
  pub generated : db.generated ≤ db'.generated

apply_facts :
    (current : Registration) (command : NormalizedCommand) (hash id id₂ : ℕ)
    (m : RegistrationMutation) (row : Registration) (t : RegistrationTransition)
    (result : TransitionResult) (env : Services) (db db₁ db₂ db₃ db₄ db' : Database)
    → find? (has_id current.id) db.registrations ≡ some current
    → update_registration current m db ≡ ok (row, db₁)
    → insert_transition
        (transition_row id current command hash m.state db₁.clock)
        (record db₁ { generated = suc db₁.generated })
      ≡ ok (t, db₂)
    → insert_outbox
        (transition_message id₂ current command m.state db₁.clock)
        (record db₂ { generated = suc db₂.generated })
      ≡ ok (tt, db₃)
    → enqueue_deadline env m.state m.cash_expires_at current.id current.event_id db₃ ≡ ok (tt, db₄)
    → ◌≡◌ {A = Result Error (TransitionResult × Database)}
        (ok (record { registration = row; transition = t }, db₄))
        (ok (result, db'))
    → Applied current command hash m result db db'
unfolding transition_row transition_message
apply_facts current command hash id id₂ m row t result env db db₁ db₂ db₃ db₄ db' f e₁ e₂ e₃ e₄ e =
    ground (
      arith,
      update_lem current m db db₁ row f e₁,
      insert_transition_lem _ _ _ _ e₂,
      insert_outbox_lem _ _ _ e₃,
      enqueue_deadline_lem _ _ _ _ _ _ _ e₄,
    )

pub apply_transition_lem :
    (env : Services) (current : Registration) (command : NormalizedCommand) (hash : ℕ)
    (m : RegistrationMutation) (result : TransitionResult) (db db' : Database)
    → find? (has_id current.id) db.registrations ≡ some current
    → apply_transition env current command hash m db ≡ ok (result, db')
    → Applied current command hash m result db db'
unfolding apply_transition
apply_transition_lem env current command hash m result db db' f h =
    continue_elim (update_registration current m db) _ h λ row db₁ e₁ h₁.
      continue_elim
        (insert_transition
          (transition_row (env.new_id db₁.generated) current command hash m.state db₁.clock)
          (record db₁ { generated = suc db₁.generated }))
        _ h₁
        λ t db₂ e₂ h₂.
          continue_elim
            (insert_outbox
              (transition_message (env.new_id db₂.generated) current command m.state db₁.clock)
              (record db₂ { generated = suc db₂.generated }))
            _ h₂
            λ u db₃ e₃ h₃.
              continue_elim
                (enqueue_deadline env m.state m.cash_expires_at current.id current.event_id db₃) _
                h₃
                λ v db₄ e₄ h₄.
                  apply_facts current command hash _ _ m row t result env db db₁ db₂ db₃ db₄ db' f
                    e₁ e₂ e₃ e₄ h₄
