-- ===== src/Registrations/Effects/Moves.antt =====
-- `move` as a transition under a new identifier and an audit event.
use community_platform.Base.{ℕ, suc, ◌≡◌, Option, String, arith, ok, continue_elim}
use community_platform.Audit.{ActorKind}
use community_platform.Registrations.{RegistrationState, Registration, TransitionResult}
use community_platform.Registrations.Commands.{new_transition_command}
use community_platform.Registrations.Database.{Database}
use community_platform.Registrations.Repository.{Services}
use community_platform.Registrations.Transitions.{transition}
use community_platform.Registrations.Promotion.{audit_registration, move}

-- What an audit event leaves alone.
pub record Audited (db db' : Database) : Type 0 where
  pub registrations : db'.registrations ≡ db.registrations
  pub transitions : db'.transitions ≡ db.transitions
  pub outbox : db'.outbox ≡ db.outbox
  pub events : db'.events ≡ db.events
  pub generated : db'.generated ≡ suc db.generated
  pub clock : db'.clock ≡ db.clock

pub audit_registration_lem :
    (env : Services) (user : Option ℕ) (kind : ActorKind) (action reason : String)
    (r : Registration) (after : RegistrationState) (request_id : Option ℕ) (db db' : Database)
    → audit_registration env user kind action reason r after request_id db ≡ ok (tt, db')
    → Audited db db'
unfolding audit_registration
audit_registration_lem env user kind action reason r after request_id db db' h = ground arith

module _ (env : Services) (r : Registration) (target : RegistrationState) (user : Option ℕ)
    (kind : ActorKind) (reason action : String) (now : ℕ) (request_id deadline : Option ℕ) where
  pub move_elim {κ} :
      {P : Type κ} (after : Registration) (db db' : Database)
      → move env r target user kind reason action now request_id deadline db ≡ ok (after, db')
      → ((result : TransitionResult) (db₁ : Database)
          → transition env
              (new_transition_command
                (env.new_id db.generated)
                r.id
                target
                user
                kind
                reason
                now
                request_id
                deadline)
              (record db { generated = suc db.generated })
            ≡ ok (result, db₁)
          → Audited db₁ db'
          → result.registration ≡ after
          → P)
      → P
  unfolding move
  move_elim after db db' h k =
      continue_elim
        (transition env
          (new_transition_command (env.new_id db.generated) r.id target user kind reason now
            request_id deadline)
          (record db { generated = suc db.generated }))
        _ h
        λ result db₁ e₁ h₁.
          continue_elim
            (audit_registration env user kind action reason r result.registration.state request_id
              db₁)
            _ h₁
            λ u db₂ e₂ h₂.
              k result db₁ e₁
                (ground (
                  arith,
                  audit_registration_lem env user kind action reason r result.registration.state
                      request_id db₁ db₂ e₂,
                ))
                (ground arith)
