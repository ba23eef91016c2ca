-- ===== src/Registrations/Promotion/Order/Turns.antt =====
-- Whose turn it is: the first member of the queue who is eligible.
use community_platform.Base.{
  ◌≤◌, ℕ, zero, suc, ◌≡◌, sym, ◌∙◌, subst, Bool, true, false, ◌&&◌, Option, none, some, List, [],
  ◌∷◌, find?, All, replace_first, ◌==◌, arith, Result, ok, continue_elim, pure, inl, inr,
  Bool-cases, Option-cases, some_injective, lift_elim, find?-replace_first_self,
  find?-replace_first_ne,
}
use community_platform.Errors.{Error}
use community_platform.Audit.{ActorKind}
use community_platform.Events.{CancellationTerms}
use community_platform.Registrations.{RegistrationState, cancelled, Registration}
use community_platform.Registrations.Database.{Database}
use community_platform.Registrations.Repository.{
  Services, comes_before, has_id, waits_for, oldest_waitlisted,
}
use community_platform.Registrations.Creation.{deadline_for}
use community_platform.Registrations.Promotion.{
  skip, promote, promotion_target, is_eligible, promote_loop,
}
use community_platform.Registrations.Validity.{IsValid, first_by_place-holds}
use community_platform.Registrations.Capacity.Promotion.{candidate_found}
use community_platform.Registrations.Promotion.Progress.{IsFresh, IsUnique, skip-Shorter}
use community_platform.Registrations.Promotion.Order.{
  NotBefore, All-map, first_by_place-first, first_by_place-nobody, Relocated, move-Relocated,
}

abbrev pub is_candidate : Services → ℕ → Registration → Bool
is_candidate env event_id r = waits_for event_id r && is_eligible env r

-- A row that passes a test has no place before a given one.
abbrev pub NotAhead : (Registration → Bool) → Registration → Registration → Type 0
NotAhead p r s =
    p s ≡ true → (a b : ℕ) → s.waitlist_sequence ≡ some a → r.waitlist_sequence ≡ some b → b ≤ a

comes_before-place :
    (r s : Registration) (a b : ℕ)
    → comes_before s r ≡ false
    → s.waitlist_sequence ≡ some a
    → r.waitlist_sequence ≡ some b
    → b ≤ a
unfolding comes_before
comes_before-place r s a b h e f = ground arith

-- The row that is promoted waited, was eligible, and none that waited and was eligible had a
-- place before it.
pub record IsTurn (env : Services) (event_id : ℕ) (target : RegistrationState)
    (after : Registration) (db : Database) : Type 0 where
  pub row : Registration
  pub found : find? (has_id row.id) db.registrations ≡ some row
  pub candidate : is_candidate env event_id row ≡ true
  pub first : All (NotAhead (is_candidate env event_id) row) db.registrations
  pub id : after.id ≡ row.id
  pub state : after.state ≡ target

pub data Turn (env : Services) (event_id : ℕ) (target : RegistrationState) (db : Database)
    : Option Registration → Type 0 where
  someone :
      {after : Registration}
      → IsTurn env event_id target after db
      → Turn env event_id target db (some after)
  nobody :
      All (λ r. is_candidate env event_id r ≡ false) db.registrations
      → Turn env event_id target db none

All-unreplaced {ℓ κ} :
    {A : Type ℓ} (P : A → Type κ) (p : A → Bool) (old new : A) (xs : List A)
    → find? p xs ≡ some old
    → P old
    → All P (replace_first p new xs)
    → All P xs
All-unreplaced P p old new [] f h all = tt
All-unreplaced P p old new (x ∷ xs) f h all = elim (Bool-cases (p x)) [
  | inl e ↦ (subst P (some_injective (sym (rw e at f))) h, (rw e at all).1)
  | inr e ↦ ((rw e at all).0, All-unreplaced P p old new xs (rw e at f) h (rw e at all).1)
]

module _ (env : Services) (event_id : ℕ) (target : RegistrationState) (r after : Registration)
    (db db' : Database) (found : find? (has_id r.id) db.registrations ≡ some r)
    (ineligible : is_eligible env r ≡ false) (m : Relocated r cancelled after db db') where
  not_candidate : is_candidate env event_id r ≡ false
  not_candidate = ground (arith, ineligible)

  found_before :
      (row : Registration)
      → is_candidate env event_id row ≡ true
      → find? (has_id row.id) db'.registrations ≡ some row
      → find? (has_id row.id) db.registrations ≡ some row
  found_before row c f = elim (Bool-cases (r.id == row.id)) [
    | inl e ↦
        let moved_to : find? (has_id r.id) db'.registrations ≡ some after = rw m.registrations (
          find?-replace_first_self (has_id r.id) r after db.registrations found
            (ground (arith, m.id))) in
        let same : after ≡ row = some_injective (
          sym (subst (λ k. find? (has_id k) db'.registrations ≡ some after) (ground arith) moved_to)
          ∙ f) in
        absurd (ground (arith, m.state, same, c))
    | inr e ↦
        sym (
          find?-replace_first_ne (has_id r.id) (has_id row.id) after db.registrations
            (ground (arith, m.id)) (λ x h. ground arith))
        ∙ (rw m.registrations at f)
  ]

  skipped_Turn :
      (out : Option Registration)
      → Turn env event_id target db' out
      → Turn env event_id target db out
  skipped_Turn none (nobody h) = nobody (
      All-unreplaced (λ s. is_candidate env event_id s ≡ false) (has_id r.id) r after
        db.registrations found not_candidate
        (subst (All (λ s. is_candidate env event_id s ≡ false)) m.registrations h))
  skipped_Turn (some x) (someone t) = someone (record {
    row = t.row;
    found = found_before t.row t.candidate t.found;
    candidate = t.candidate;
    first =
        All-unreplaced (NotAhead (is_candidate env event_id) t.row) (has_id r.id) r after
          db.registrations found (λ k a b e f. ground (arith, not_candidate))
          (subst (All (NotAhead (is_candidate env event_id) t.row)) m.registrations t.first);
    id = t.id;
    state = t.state;
  })

skip-Relocated :
    (env : Services) (r after : Registration) (now : ℕ) (request_id : Option ℕ) (db db' : Database)
    → IsFresh env db
    → find? (has_id r.id) db.registrations ≡ some r
    → skip env r now request_id db ≡ ok (after, db')
    → Relocated r cancelled after db db'
unfolding skip
skip-Relocated env r after now request_id db db' f found h =
    move-Relocated env r cancelled none ActorKind.system "promotion_ineligible"
      "registration.promotion_skip" now request_id none after db db' f found h

promote-Relocated :
    (env : Services) (event : CancellationTerms) (r after : Registration) (now : ℕ)
    (request_id : Option ℕ) (db db' : Database)
    → IsFresh env db
    → find? (has_id r.id) db.registrations ≡ some r
    → promote env event r now request_id db ≡ ok (after, db')
    → Relocated r (promotion_target event.method) after db db'
unfolding promote
promote-Relocated env event r after now request_id db db' f found h =
    lift_elim
      (deadline_for (promotion_target event.method) event.cash_expiry_minutes event.start_at now) db
      _ h
      λ deadline e h₁.
        move-Relocated env r (promotion_target event.method) none ActorKind.system
          "waitlist_promoted" "registration.promote" now request_id deadline after db db' f found h₁

module _ (env : Services) (event : CancellationTerms) (r : Registration) (db : Database)
    (e : oldest_waitlisted event.id db ≡ some r) (v : IsValid db.registrations) where
  head_waits : waits_for event.id r ≡ true
  unfolding oldest_waitlisted
  head_waits = first_by_place-holds (waits_for event.id) db.registrations r e

  head_first : All (NotAhead (is_candidate env event.id) r) db.registrations
  unfolding oldest_waitlisted
  head_first =
      All-map (NotBefore (waits_for event.id) r) (NotAhead (is_candidate env event.id) r)
        db.registrations (λ s h k a b. comes_before-place r s a b (h (ground arith)))
        (first_by_place-first (waits_for event.id) db.registrations r e)

  promoted_Turn :
      (after : Registration) (db' : Database)
      → is_eligible env r ≡ true
      → Relocated r (promotion_target event.method) after db db'
      → Turn env event.id (promotion_target event.method) db (some after)
  promoted_Turn after db' t m = someone (record {
    row = r;
    found = candidate_found event.id db r v e;
    candidate = ground (arith, head_waits, t);
    first = head_first;
    id = m.id;
    state = m.state;
  })

nobody_waits :
    (env : Services) (event_id : ℕ) (target : RegistrationState) (db : Database)
    → oldest_waitlisted event_id db ≡ none
    → Turn env event_id target db none
unfolding oldest_waitlisted
nobody_waits env event_id target db e = nobody (
    All-map (λ s. waits_for event_id s ≡ false) (λ s. is_candidate env event_id s ≡ false)
      db.registrations (λ s h. ground arith)
      (first_by_place-nobody (waits_for event_id) db.registrations e))

out_eq :
    {a b : Option Registration} {db db' : Database}
    → ◌≡◌ {A = Result Error (Option Registration × Database)} (ok (a, db)) (ok (b, db'))
    → a ≡ b
out_eq h = cc

pub promote_loop-Turn :
    (fuel : ℕ) (env : Services) (event : CancellationTerms) (now : ℕ) (request_id : Option ℕ)
    (out : Option Registration) (db db' : Database)
    → promote_loop fuel env event now request_id db ≡ ok (out, db')
    → IsUnique env
    → IsFresh env db
    → IsValid db.registrations
    → Turn env event.id (promotion_target event.method) db out
unfolding promote_loop
promote_loop-Turn zero env event now request_id out db db' h u f v = cc
promote_loop-Turn (suc fuel) env event now request_id out db db' h u f v =
    elim (Option-cases (oldest_waitlisted event.id db)) [
      | inl e ↦
          subst (Turn env event.id (promotion_target event.method) db) (ground arith)
            (nobody_waits env event.id (promotion_target event.method) db e)
      | inr (r, e) ↦
          let found = candidate_found event.id db r v e in
          elim (Bool-cases (is_eligible env r)) [
            | inl t ↦
                continue_elim (promote env event r now request_id db) (λ a. pure (some a))
                  {b = (out, db')} (ground arith)
                  λ after db₁ e₁ h₁.
                    subst (Turn env event.id (promotion_target event.method) db) (out_eq h₁) (
                      promoted_Turn env event r db e v after db₁ t
                        (promote-Relocated env event r after now request_id db db₁ f found e₁))
            | inr t ↦
                continue_elim (skip env r now request_id db)
                  (λ _. promote_loop fuel env event now request_id) {b = (out, db')} (ground arith)
                  λ after db₁ e₁ h₁.
                    let s = skip-Shorter env event.id r db u f v e now request_id after db₁ e₁ in
                    skipped_Turn env event.id (promotion_target event.method) r after db db₁ found t
                      (skip-Relocated env r after now request_id db db₁ f found e₁) out
                      (promote_loop-Turn fuel env event now request_id out db₁ db' h₁ u s.fresh
                        s.valid)
          ]
    ]
