-- ===== src/Registrations/Transitions/Success.antt =====
-- A command that passes the guards, and the constraints of the tables.
use community_platform.Base.{ℕ, suc, ◌≡◌, true, false, none, some, [], ◌∷◌, ◌++◌, find?, any, ◌==◌}
use community_platform.Outbox.{DeduplicationKey, OutboxEvent, has_key}
use community_platform.Registrations.{
  state_eq, Registration, RegistrationMutation, NormalizedCommand, RegistrationTransition,
}
use community_platform.Registrations.Database.{Database, row_ok}
use community_platform.Registrations.Repository.{
  Services, get_transition, has_id, replace_row, mutated, clashes_with_other,
}
use community_platform.Registrations.Writes.{transition_row, transition_message}
use community_platform.Registrations.Transitions.{transition}

module _ (env : Services) (r : Registration) (c : NormalizedCommand) (hash : ℕ)
    (m : RegistrationMutation) (db : Database)
    (found : find? (has_id r.id) db.registrations ≡ some r)
    (row_valid : row_ok (mutated m db.clock r) ≡ true)
    (row_free : any (clashes_with_other (mutated m db.clock r)) db.registrations ≡ false)
    (changed : state_eq r.state m.state ≡ false) (new : get_transition c.command_id db ≡ none)
    (fresh : any (λ u. u.id == env.new_id db.generated) db.transitions ≡ false)
    (unannounced : has_key (DeduplicationKey.transition c.command_id) db.outbox ≡ false) where
  abbrev row_written : Registration
  row_written = mutated m db.clock r

  abbrev record_written : RegistrationTransition
  record_written = transition_row (env.new_id db.generated) r c hash m.state db.clock

  abbrev message_written : OutboxEvent
  message_written = transition_message (env.new_id (suc db.generated)) r c m.state db.clock

  abbrev before_record : Database
  before_record = record db {
    registrations = replace_row r.id row_written db.registrations;
    generated = suc db.generated;
  }

  abbrev before_message : Database
  before_message = record before_record {
    transitions = db.transitions ++ record_written ∷ [];
    generated = suc (suc db.generated);
  }

  abbrev before_deadline : Database
  before_deadline = record before_message { outbox = db.outbox ++ message_written ∷ [] }
