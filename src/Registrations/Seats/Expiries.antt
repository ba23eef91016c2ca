-- ===== src/Registrations/Seats/Expiries.antt =====
-- What an expiry job that was worked off has done.
use community_platform.Base.{
  ℕ, ◌≡◌, refl, sym, ◌∙◌, ap, subst, Bool, true, false, Option, none, some, find?, leb, ◌==◌, holds,
  arith, Result, ok, continue_elim, pure, ◌>>◌, inl, inr, Bool-cases, find?-replace_first_self,
}
use community_platform.Time.{aware}
use community_platform.Errors.{Error}
use community_platform.Audit.{ActorKind}
use community_platform.Registrations.{
  Registration, cash_pending, expired, state_eq, TransitionCommand, NormalizedCommand,
  TransitionResult,
}
use community_platform.Registrations.Database.{Database, row_ok}
use community_platform.Registrations.Commands.{normalize_command}
use community_platform.Registrations.Repository.{
  Services, RegistrationContext, has_id, get_context, get_transition,
}
use community_platform.Registrations.Transitions.{transition}
use community_platform.Registrations.Promotion.{promote_next, audit_registration}
use community_platform.Registrations.Seats.{
  CashExpiryJob, expiry_command, expire_row, process_context, process,
}
use community_platform.Registrations.Effects.Outcome.{
  Outcome, replayed, moved, transition-Outcome, find?-context, get_context_lem, get_context_id,
}
use community_platform.Registrations.Effects.Moves.{audit_registration_lem}
use community_platform.Registrations.Validity.{seat_held-row_ok}
use community_platform.Registrations.Capacity.{moved_row, normalize_command_lem}
use community_platform.Base.{some≢none}
use community_platform.Registrations.Steps.Calls.{second_eq, promote_next-Reach}
use community_platform.Registrations.Requests.Lifecycle.{Reach-final}

-- The row that a transition under a new command has written.
record Rewritten (value : TransitionCommand) (result : TransitionResult) (db' : Database)
    : Type 0 where
  pub id : result.registration.id ≡ value.registration_id
  pub found : find? (has_id result.registration.id) db'.registrations ≡ some result.registration
  pub state : result.registration.state ≡ value.target_state
  pub row_valid : row_ok result.registration ≡ true

Outcome-Rewritten :
    (env : Services) (value : TransitionCommand) (c : NormalizedCommand) (result : TransitionResult)
    (db db' : Database)
    → normalize_command value ≡ ok c
    → Outcome env c result db db'
    → get_transition value.command_id db ≡ none
    → Rewritten value result db'
Outcome-Rewritten env value c result db db' n (replayed x) new = absurd (
    some≢none
      (sym x.recorded ∙ ap (λ k. get_transition k db) (normalize_command_lem value c n).0 ∙ new))
Outcome-Rewritten env value c result db db' n (moved context m x) new =
    let (_, same_registration, same_target) = normalize_command_lem value c n in
    let (same_id, _, _, _, state) = moved_row x in
    let replaced =
      find?-replace_first_self (has_id context.registration.id) context.registration
        result.registration db.registrations (find?-context c.registration_id db context x.found)
        (ground (arith, same_id)) in
    record {
      id = same_id ∙ get_context_id c.registration_id db context x.found ∙ same_registration;
      found =
          subst (λ k. find? (has_id k) db'.registrations ≡ some result.registration) (sym same_id)
            (rw x.applied.registrations replaced);
      state = state ∙ same_target;
      row_valid = x.applied.row_valid;
    }

pub record Expired (job : CashExpiryJob) (now : ℕ) (db db' : Database) : Type 0 where
  pub row : Registration
  pub found : find? (has_id job.registration_id) db.registrations ≡ some row
  pub event : row.event_id ≡ job.event_id
  pub pending : row.state ≡ cash_pending
  pub due : holds (λ d. leb d now) row.cash_expires_at ≡ true
  pub after : Registration
  pub after_found : find? (has_id job.registration_id) db'.registrations ≡ some after
  pub state : after.state ≡ expired
  pub seat : after.seat_held ≡ false

-- What a job has answered: that there was nothing to do, or that a reservation has expired.
pub data Worked (job : CashExpiryJob) (now : ℕ) (db db' : Database) : Bool → Type 0 where
  nothing : db' ≡ db → Worked job now db db' false
  expiry : Expired job now db db' → Worked job now db db' true

done_eq :
    {a b : Bool} {db db' : Database}
    → ◌≡◌ {A = Result Error (Bool × Database)} (ok (a, db)) (ok (b, db'))
    → a ≡ b
done_eq h = cc

expire_row-found :
    (env : Services) (job : CashExpiryJob) (r : Registration) (now : ℕ) (done : Bool)
    (db db' : Database)
    → expire_row env job r now db ≡ ok (done, db')
    → get_transition job.id db ≡ none
    → (after : Registration) × (find? (has_id r.id) db'.registrations ≡ some after)
      × (after.state ≡ expired)
      × (after.seat_held ≡ false)
      × (done ≡ true)
unfolding expire_row expiry_command
expire_row-found env job r now done db db' h new =
    continue_elim (transition env (expiry_command job r now) db) _ h λ result db₁ e₁ h₁.
      continue_elim
        (audit_registration env none ActorKind.system "registration.expire" "cash_expired" r
          result.registration.state none db₁)
        (λ _. promote_next env job.event_id (aware now) none >> pure true) h₁
        λ u db₂ e₂ h₂.
          continue_elim (promote_next env job.event_id (aware now) none db₂) (λ _. pure true) h₂
            λ p db₃ e₃ h₃.
              let (c, n, o) = transition-Outcome env (expiry_command job r now) result db db₁ e₁ in
              let w = Outcome-Rewritten env (expiry_command job r now) c result db db₁ n o new in
              let audited =
                audit_registration_lem env none ActorKind.system "registration.expire"
                  "cash_expired" r result.registration.state none db₁ db₂ e₂ in
              let last =
                Reach-final result.registration db₂ db₃
                  (promote_next-Reach env job.event_id (aware now) none p db₂ db₃ e₃)
                  (rw audited.registrations w.found) (ground (arith, w.state)) in
              (
                result.registration,
                subst (λ d. find? (has_id r.id) d.registrations ≡ some result.registration)
                    (second_eq h₃)
                    (subst (λ k. find? (has_id k) db₃.registrations ≡ some result.registration) w.id
                      last),
                w.state,
                ground (arith, seat_held-row_ok result.registration w.row_valid, w.state),
                sym (done_eq h₃),
              )

process_context-Worked :
    (env : Services) (job : CashExpiryJob) (now : ℕ) (context : Option RegistrationContext)
    (done : Bool) (db db' : Database)
    → get_context job.registration_id db ≡ context
    → process_context env job now context db ≡ ok (done, db')
    → get_transition job.id db ≡ none
    → Worked job now db db' done
unfolding process_context
process_context-Worked env job now none done db db' g h new =
    subst (Worked job now db db') (ground arith) (nothing (ground arith))
process_context-Worked env job now (some context) done db db' g h new =
    elim (Bool-cases (context.registration.event_id == job.event_id)) [
      | inr e₁ ↦ subst (Worked job now db db') (ground arith) (nothing (ground arith))
      | inl e₁ ↦ elim (Bool-cases (state_eq context.registration.state cash_pending)) [
        | inr e₂ ↦ subst (Worked job now db db') (ground arith) (nothing (ground arith))
        | inl e₂ ↦ elim (Bool-cases (holds (λ d. leb d now) context.registration.cash_expires_at)) [
          | inr e₃ ↦ ground arith
          | inl e₃ ↦
              let (after, found, state, seat, is_done) =
                expire_row-found env job context.registration now done db db' (ground arith) new in
              subst (Worked job now db db') (sym is_done) (
                expiry (record {
                  row = context.registration;
                  found = get_context_lem job.registration_id db context g;
                  event = ground arith;
                  pending = ground arith;
                  due = e₃;
                  after = after;
                  after_found =
                      subst (λ k. find? (has_id k) db'.registrations ≡ some after)
                        (get_context_id job.registration_id db context g) found;
                  state = state;
                  seat = seat;
                }))
        ]
      ]
    ]

-- A job that returns, and is not recorded as a command yet, has either answered no and changed
-- nothing; or it has answered yes: its registration belonged to the event of the job and awaited
-- cash past its deadline, and is now expired and holds no seat.
pub process-Worked :
    (env : Services) (job : CashExpiryJob) (now : ℕ) (done : Bool) (db db' : Database)
    → process env job now db ≡ ok (done, db')
    → get_transition job.id db ≡ none
    → Worked job now db db' done
unfolding process
process-Worked env job now done db db' h new =
    process_context-Worked env job now (get_context job.registration_id db) done db db' refl h new
