-- ===== src/Registrations/Promotion/Order.antt =====
-- Who comes first in the queue, and which row a move changes.
pub mod Turns
pub mod Fairness
use community_platform.Base.{
  ℕ, suc, ◌≤◌, ◌≡◌, sym, ap, ◌∙◌, subst, Bool, true, false, not, ◌&&◌, ◌||◌, Option, none, some,
  List, [], ◌∷◌, find?, All, ◌==◌, arith, ok, inl, inr, Bool-cases, Option-cases, if◌then◌else◌,
  some_injective, String,
}
use community_platform.Audit.{ActorKind}
use community_platform.Registrations.{
  RegistrationState, Registration, TransitionCommand, NormalizedCommand, TransitionResult,
}
use community_platform.Registrations.Database.{Database}
use community_platform.Registrations.Commands.{new_transition_command, normalize_command}
use community_platform.Registrations.Repository.{
  Services, get_transition, has_id, comes_before, first_by_place, replace_row,
}
use community_platform.Registrations.Promotion.{move}
use community_platform.Registrations.Effects.Outcome.{
  Outcome, replayed, moved, transition-Outcome, get_context_lem,
}
use community_platform.Registrations.Effects.Moves.{Audited, move_elim}
use community_platform.Registrations.Capacity.{moved_row, normalize_command_lem}
use community_platform.Base.{some≢none}
use community_platform.Registrations.Promotion.Progress.{IsFresh}

comes_before_asym : (r s : Registration) → comes_before r s ≡ true → comes_before s r ≡ false
unfolding comes_before
comes_before_asym r s h = ground arith

comes_before_trans :
    (s m r : Registration)
    → comes_before s m ≡ false
    → comes_before m r ≡ false
    → comes_before s r ≡ false
unfolding comes_before
comes_before_trans s m r h k = ground arith

comes_before_irrefl : (r : Registration) → comes_before r r ≡ false
unfolding comes_before
comes_before_irrefl r = ground arith

pub All-map {ℓ κ κ'} :
    {A : Type ℓ} (P : A → Type κ) (Q : A → Type κ') (xs : List A)
    → ((x : A) → P x → Q x)
    → All P xs
    → All Q xs
All-map P Q [] f h = tt
All-map P Q (x ∷ xs) f h = (f x h.0, All-map P Q xs f h.1)

abbrev pub NotBefore : (Registration → Bool) → Registration → Registration → Type 0
NotBefore p r s = p s ≡ true → comes_before s r ≡ false

pub first_by_place-nobody :
    (p : Registration → Bool) (rs : List Registration)
    → first_by_place p rs ≡ none
    → All (λ s. p s ≡ false) rs
unfolding first_by_place
first_by_place-nobody p [] h = tt
first_by_place-nobody p (x ∷ rs) h = (ground arith, first_by_place-nobody p rs (ground arith))

module _ (p : Registration → Bool) (x m : Registration) (rs : List Registration) (r : Registration)
    (h : first_by_place p (x ∷ rs) ≡ some r) (e : first_by_place p rs ≡ some m) where
  head_kept : (p x && not (comes_before m x)) ≡ true → x ≡ r
  unfolding first_by_place
  head_kept t = ground arith

  tail_kept : (p x && not (comes_before m x)) ≡ false → m ≡ r
  unfolding first_by_place
  tail_kept t = ground arith

pub first_by_place-first :
    (p : Registration → Bool) (rs : List Registration) (r : Registration)
    → first_by_place p rs ≡ some r
    → All (NotBefore p r) rs
unfolding first_by_place
first_by_place-first p [] r h = tt
first_by_place-first p (x ∷ rs) r h = elim (Option-cases (first_by_place p rs)) [
  | inl e ↦ (
    λ k. ground (arith, comes_before_irrefl x),
    All-map (λ s. p s ≡ false) (NotBefore p r) rs (λ s k l. ground arith)
        (first_by_place-nobody p rs e),
  )
  | inr (m, e) ↦
      let tail = first_by_place-first p rs m e in
      elim (Bool-cases (p x && not (comes_before m x))) [
        | inl t ↦ (
          λ k. ground (arith, comes_before_irrefl x),
          All-map (NotBefore p m) (NotBefore p r) rs
              (λ s f k.
                subst (λ y. comes_before s y ≡ false) (head_kept p x m rs r h e t)
                  (comes_before_trans s m x (f k) (ground arith)))
              tail,
        )
        | inr t ↦
            subst (λ y. All (NotBefore p y) (x ∷ rs)) (tail_kept p x m rs r h e t)
              (λ k. comes_before_asym m x (ground arith), tail)
      ]
]

-- What a move under a new command has done to the row that it names.
pub record Relocated (r : Registration) (target : RegistrationState) (after : Registration)
    (db db' : Database) : Type 0 where
  pub id : after.id ≡ r.id
  pub state : after.state ≡ target
  pub registrations : db'.registrations ≡ replace_row r.id after db.registrations

module _ (env : Services) (r : Registration) (target : RegistrationState) (user : Option ℕ)
    (kind : ActorKind) (reason action : String) (now : ℕ) (request_id deadline : Option ℕ)
    (after : Registration) (db db' : Database) (f : IsFresh env db)
    (found : find? (has_id r.id) db.registrations ≡ some r) where
  abbrev command_given : TransitionCommand
  command_given =
      new_transition_command (env.new_id db.generated) r.id target user kind reason now request_id
        deadline

  abbrev drawn : Database
  drawn = record db { generated = suc db.generated }

  not_recorded : get_transition (env.new_id db.generated) drawn ≡ none
  unfolding get_transition
  not_recorded = f db.generated (omega arith)

  Outcome-Relocated :
      (c : NormalizedCommand) (result : TransitionResult) (db₁ : Database)
      → normalize_command command_given ≡ ok c
      → Outcome env c result drawn db₁
      → Audited db₁ db'
      → result.registration ≡ after
      → Relocated r target after db db'
  unfolding new_transition_command
  Outcome-Relocated c result db₁ n (replayed x) a e = absurd (
      some≢none (
        sym x.recorded
        ∙ ap (λ k. get_transition k drawn) (normalize_command_lem command_given c n).0
        ∙ not_recorded))
  Outcome-Relocated c result db₁ n (moved context m x) a e =
      let (_, same_registration, same_target) = normalize_command_lem command_given c n in
      let row : r ≡ context.registration = some_injective (
        sym (subst (λ k. find? (has_id k) db.registrations ≡ some r) (sym same_registration) found)
        ∙ get_context_lem c.registration_id drawn context x.found) in
      ground (arith, moved_row x, row, same_target, a.registrations, x.applied.registrations, e)

  pub move-Relocated :
      move env r target user kind reason action now request_id deadline db ≡ ok (after, db')
      → Relocated r target after db db'
  move-Relocated h =
      move_elim env r target user kind reason action now request_id deadline after db db' h
        λ result db₁ e a s.
          let (c, n, o) = transition-Outcome env command_given result drawn db₁ e in
          Outcome-Relocated c result db₁ n o a s
