-- ===== src/Registrations/Promotion/Progress.antt =====
-- The fuel of the promotion loop, against the members who wait.
use community_platform.Base.{
  ℕ, zero, suc, ◌≤◌, ◌<◌, ◌≡◌, ◌≢◌, refl, sym, ap, ◌∙◌, subst, true, false, Option, none, some,
  List, [], ◌∷◌, ◌++◌, find?, ◌==◌, arith, ok, err, inl, inr, Bool-cases, Option-cases,
  Result-cases, find?-append_miss, count-replace_first, some_injective,
}
use community_platform.Base.{some≢none}
use community_platform.Errors.{out_of_fuel}
use community_platform.Audit.{ActorKind}
use community_platform.Events.{CancellationTerms, Event}
use community_platform.Events.Terms.{cancellation_terms}
use community_platform.Time.{Datetime, naive, aware}
use community_platform.Registrations.{
  cancelled, Registration, RegistrationMutation, NormalizedCommand, TransitionCommand,
  TransitionResult,
}
use community_platform.Registrations.Database.{Database}
use community_platform.Registrations.Commands.{new_transition_command, normalize_command}
use community_platform.Registrations.Repository.{
  Services, RegistrationContext, get_context, get_transition, has_id, waits_for, oldest_waitlisted,
}
use community_platform.Registrations.Promotion.{
  skip, promote, is_eligible, promote_loop, queue_length, promote_for, promote_next,
}
use community_platform.Registrations.Effects.Outcome.{
  Outcome, replayed, moved, Moved, transition-Outcome, get_context_lem, find?-context,
}
use community_platform.Registrations.Effects.Moves.{Audited, move_elim}
use community_platform.Registrations.Promotion.Errors.{lacks_fuel, skip_lacks, promote_lacks}
use community_platform.Registrations.Validity.{IsValid, first_by_place-holds}
use community_platform.Registrations.Capacity.{moved_row, moved_IsValid, normalize_command_lem}
use community_platform.Registrations.Capacity.Promotion.{candidate_found}

-- The identifiers that are generated from now on are not among the commands recorded.
abbrev pub IsFresh : Services → Database → Type 0
IsFresh env db = (k : ℕ) → db.generated ≤ k → get_transition (env.new_id k) db ≡ none

-- generate_uuid7 never returns an identifier twice
abbrev pub IsUnique : Services → Type 0
IsUnique env = (j k : ℕ) → env.new_id j ≡ env.new_id k → j ≡ k

get_transition-appended :
    (id : ℕ) (db db' : Database) (result : TransitionResult)
    → db'.transitions ≡ db.transitions ++ result.transition ∷ []
    → get_transition id db ≡ none
    → (result.transition.command_id == id) ≡ false
    → get_transition id db' ≡ none
unfolding get_transition
get_transition-appended id db db' result e h k = rw e (
    find?-append_miss (λ t. t.command_id == id) db.transitions (result.transition ∷ []) h
    ∙ ground (arith, k))

module _ {env : Services} {command : NormalizedCommand} {result : TransitionResult}
    {db db' : Database} {context : RegistrationContext} {m : RegistrationMutation}
    (x : Moved env command result db db' context m) where
  moved_IsFresh :
      (g : ℕ)
      → IsUnique env
      → command.command_id ≡ env.new_id g
      → g < db.generated
      → IsFresh env db
      → IsFresh env db'
  moved_IsFresh g u e l f k h =
      get_transition-appended (env.new_id k) db db' result x.applied.appended.transitions
        (f k (omega (arith, x.applied.generated, h)))
        (ground (arith, x.applied.command_id, e, u g k, x.applied.generated))

  moved_queue :
      (event_id : ℕ)
      → waits_for event_id context.registration ≡ true
      → command.target_state ≡ cancelled
      → suc (queue_length event_id db') ≡ queue_length event_id db
  unfolding queue_length
  moved_queue event_id w t = rw x.applied.registrations (
      ground (
        arith,
        count-replace_first (waits_for event_id) (has_id context.registration.id)
            context.registration result.registration db.registrations
            (find?-context command.registration_id db context x.found),
        moved_row x,
      ))

-- What a round that skips the head of the queue leaves.
pub record Shorter (env : Services) (event_id : ℕ) (db db' : Database) : Type 0 where
  pub fresh : IsFresh env db'
  pub queue : suc (queue_length event_id db') ≡ queue_length event_id db
  pub valid : IsValid db'.registrations

module _ (env : Services) (event_id : ℕ) (r : Registration) (db : Database) (u : IsUnique env)
    (f : IsFresh env db) (v : IsValid db.registrations)
    (c : oldest_waitlisted event_id db ≡ some r) where
  abbrev drawn : Database
  drawn = record db { generated = suc db.generated }

  pub still_fresh : (k : ℕ) → db.generated ≤ k → get_transition (env.new_id k) drawn ≡ none
  unfolding get_transition
  still_fresh k h = f k h

  pub waits : waits_for event_id r ≡ true
  unfolding oldest_waitlisted
  waits = first_by_place-holds (waits_for event_id) db.registrations r c

  pub same_row :
      (id : ℕ) (context : RegistrationContext)
      → get_context id drawn ≡ some context
      → id ≡ r.id
      → r ≡ context.registration
  same_row id context h e = some_injective (
      sym (
        subst (λ k. find? (has_id k) db.registrations ≡ some r) (sym e)
          (candidate_found event_id db r v c))
      ∙ get_context_lem id drawn context h)

  Outcome-Shorter :
      (value : TransitionCommand) (command : NormalizedCommand) (result : TransitionResult)
      (db₁ : Database)
      → value.command_id ≡ env.new_id db.generated
      → value.registration_id ≡ r.id
      → value.target_state ≡ cancelled
      → normalize_command value ≡ ok command
      → Outcome env command result drawn db₁
      → Shorter env event_id db db₁
  unfolding queue_length
  Outcome-Shorter value command result db₁ i j t n (replayed x) = absurd (
      some≢none (
        sym x.recorded
        ∙ ap (λ k. get_transition k drawn) ((normalize_command_lem value command n).0 ∙ i)
        ∙ still_fresh db.generated (omega arith)))
  Outcome-Shorter value command result db₁ i j t n (moved context m x) =
      let (same_id, same_registration, same_target) = normalize_command_lem value command n in
      record {
        fresh =
            moved_IsFresh x db.generated u (same_id ∙ i) (omega arith)
              (λ k h. still_fresh k (omega (arith, h)));
        queue =
            moved_queue x event_id
              (subst (λ s. waits_for event_id s ≡ true)
                (same_row command.registration_id context x.found (same_registration ∙ j)) waits)
              (same_target ∙ t);
        valid = moved_IsValid x v;
      }

  Audited-Shorter :
      (db₁ db' : Database)
      → Audited db₁ db'
      → Shorter env event_id db db₁
      → Shorter env event_id db db'
  unfolding get_transition queue_length
  Audited-Shorter db₁ db' a s = record {
    fresh = λ k h. rw a.transitions (s.fresh k (omega (arith, a.generated, h)));
    queue = rw a.registrations s.queue;
    valid = rw a.registrations s.valid;
  }

  abbrev skip_command : ℕ → Option ℕ → TransitionCommand
  skip_command now request_id =
      new_transition_command (env.new_id db.generated) r.id cancelled none ActorKind.system
        "promotion_ineligible" now request_id none

  pub skip-Shorter :
      (now : ℕ) (request_id : Option ℕ) (after : Registration) (db' : Database)
      → skip env r now request_id db ≡ ok (after, db')
      → Shorter env event_id db db'
  unfolding skip new_transition_command
  skip-Shorter now request_id after db' h =
      move_elim env r cancelled none ActorKind.system "promotion_ineligible"
        "registration.promotion_skip" now request_id none after db db' h
        λ result db₁ e a _.
          let (command, n, o) =
            transition-Outcome env (skip_command now request_id) result drawn db₁ e in
          Audited-Shorter db₁ db' a
            (Outcome-Shorter (skip_command now request_id) command result db₁ refl refl refl n o)

promote_loop_lacks :
    (fuel : ℕ) (env : Services) (event : CancellationTerms) (now : ℕ) (request_id : Option ℕ)
    (db : Database)
    → queue_length event.id db < fuel
    → IsUnique env
    → IsFresh env db
    → IsValid db.registrations
    → lacks_fuel (promote_loop fuel env event now request_id db) ≡ false
unfolding promote_loop
promote_loop_lacks zero env event now request_id db q u f v = absurd (omega (arith, q))
promote_loop_lacks (suc fuel) env event now request_id db q u f v =
    elim (Option-cases (oldest_waitlisted event.id db)) [
      | inl e ↦ ground arith
      | inr (r, e) ↦ elim (Bool-cases (is_eligible env r)) [
        | inl t ↦ elim (Result-cases (promote env event r now request_id db)) [
          | inl (a, p) ↦ ground arith
          | inr (x, p) ↦ ground (arith, promote_lacks env event r now request_id db)
        ]
        | inr t ↦ elim (Result-cases (skip env r now request_id db)) [
          | inl ((after, db'), p) ↦
              let s = skip-Shorter env event.id r db u f v e now request_id after db' p in
              let rest =
                promote_loop_lacks fuel env event now request_id db' (omega (arith, q, s.queue)) u
                  s.fresh s.valid in
              ground (arith, rest)
          | inr (x, p) ↦ ground (arith, skip_lacks env r now request_id db)
        ]
      ]
    ]

promote_for_lacks :
    (env : Services) (event : CancellationTerms) (now : ℕ) (request_id : Option ℕ) (db : Database)
    → IsUnique env
    → IsFresh env db
    → IsValid db.registrations
    → lacks_fuel (promote_for env event now request_id db) ≡ false
unfolding promote_for
promote_for_lacks env event now request_id db u f v = ground (
  arith,
  promote_loop_lacks (suc (queue_length event.id db)) env event now request_id db (omega arith) u f
      v,
)

terms_lack :
    (events : List Event) (event_id : ℕ) → lacks_fuel (cancellation_terms events event_id) ≡ false
unfolding cancellation_terms
terms_lack events event_id = ground arith

-- Where identifiers are never generated twice, and those still to come are not recorded as commands,
-- a promotion from tables that satisfy their constraints ends: the rounds that its loop is given,
-- one more than members wait, are enough for it to return or raise as the code does.
pub promote_next-ends :
    (env : Services) (event_id : ℕ) (now : Datetime) (request_id : Option ℕ) (db : Database)
    → IsUnique env
    → IsFresh env db
    → IsValid db.registrations
    → promote_next env event_id now request_id db ≢ err out_of_fuel
unfolding promote_next
promote_next-ends env event_id (naive t) request_id db u f v h = cc
promote_next-ends env event_id (aware t) request_id db u f v h =
    elim (Result-cases (cancellation_terms db.events event_id)) [
      | inl (terms, p) ↦ ground (arith, promote_for_lacks env terms t request_id db u f v)
      | inr (x, p) ↦ ground (arith, terms_lack db.events event_id)
    ]
