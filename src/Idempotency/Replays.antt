-- ===== src/Idempotency/Replays.antt =====
-- What a completed request answers when it is sent again, and when a claim is lost.
use community_platform.Base.{
  ℕ, ◌+◌, ◌≤◌, ◌<◌, ◌≡◌, refl, sym, ◌∙◌, subst, ap, Bool, true, false, Option, none, some, List, [],
  ◌∷◌, find?, replace_first, Result, ok, err, arith, find?-also,
}
use community_platform.Idempotency.{
  zoned, claim_lost, digest_eq, Acquisition, ValidatedAcquisition, IdempotencyClaim,
  validate_acquisition,
}
use community_platform.Idempotency.Claims.{
  IdempotencyKey, acquired, replay, in_scope, claim_of, acquire, is_current, complete_at, complete,
}
use community_platform.Idempotency.Exclusion.{
  Held, digest_eq_refl, validated, acquire-Held, acquire-valid, acquire_valid-some,
  acquire_row-replay,
}

find?-replace_first_also {ℓ} :
    {A : Type ℓ} (p q : A → Bool) (old new : A) (xs : List A)
    → find? p xs ≡ some old
    → q old ≡ true
    → ((x : A) → q x ≡ true → p x ≡ true)
    → p new ≡ true
    → find? p (replace_first q new xs) ≡ some new
find?-replace_first_also p q old new [] f h k n = ground arith
find?-replace_first_also p q old new (x ∷ xs) f h k n =
    ground (arith, k x, find?-replace_first_also p q old new xs)

find?-never {ℓ} :
    {A : Type ℓ} (p : A → Bool) (xs : List A) → ((x : A) → p x ≡ false) → find? p xs ≡ none
find?-never p [] h = refl
find?-never p (x ∷ xs) h = ground (arith, h x, find?-never p xs h)

ok_injective : {E A : Type 0} {a b : A} → ◌≡◌ {A = Result E A} (ok a) (ok b) → a ≡ b
ok_injective h = cc

module _ {Body : Type 0} where
  is_current-in_scope :
      (c : IdempotencyClaim) (t : ℕ) (row : IdempotencyKey Body)
      → is_current c t row ≡ true
      → in_scope c.scope row ≡ true
  unfolding is_current
  is_current-in_scope c t row h = ground arith

  Held-is_current :
      (v : ValidatedAcquisition) (rows : List (IdempotencyKey Body)) (x : Held v rows) (t : ℕ)
      → t < v.now + v.lease_duration
      → v.now + v.lease_duration ≤ v.expires_at
      → is_current (claim_of v) t x.row ≡ true
  unfolding is_current
  Held-is_current v rows x t l e = ground (
    arith,
    x.scope,
    subst (λ d. digest_eq d v.request_hash ≡ true) (sym x.request_hash)
        (digest_eq_refl v.request_hash),
    x.locked_until,
    x.completed_at,
    x.expires_at,
  )

  -- what `complete` writes into a row
  abbrev pub completed_row : ℕ → Body → ℕ → IdempotencyKey Body → IdempotencyKey Body
  completed_row status body t row = record row {
    response_status = some status;
    response_body = some body;
    completed_at = some t;
  }

  complete_at-some :
      (c : IdempotencyClaim) (status : ℕ) (body : Body) (t : ℕ) (row : IdempotencyKey Body)
      (rows : List (IdempotencyKey Body))
      → find? (is_current c t) rows ≡ some row
      → complete_at c status body t rows
        ≡ ok (replace_first (is_current c t) (completed_row status body t row) rows)
  unfolding complete_at
  complete_at-some c status body t row rows f = ground arith

  complete-valid :
      (normalize : Body → Option Body) (c : IdempotencyClaim) (status : ℕ) (body b : Body) (t : ℕ)
      (rows : List (IdempotencyKey Body))
      → 100 ≤ status
      → status ≤ 599
      → normalize body ≡ some b
      → complete normalize c status body (zoned 0 0 t) rows ≡ complete_at c status b t rows
  unfolding complete
  complete-valid normalize c status body b t rows l h n = ground arith

  Held-completed :
      (v : ValidatedAcquisition) (rows : List (IdempotencyKey Body)) (x : Held v rows) (status : ℕ)
      (b : Body) (t : ℕ)
      → is_current (claim_of v) t x.row ≡ true
      → find?
          (in_scope v.scope)
          (replace_first (is_current (claim_of v) t) (completed_row status b t x.row) rows)
        ≡ some (completed_row status b t x.row)
  Held-completed v rows x status b t h =
      find?-replace_first_also (in_scope v.scope) (is_current (claim_of v) t) x.row
        (completed_row status b t x.row) rows x.found h (is_current-in_scope (claim_of v) t) x.scope

  Held-replays :
      (v w : ValidatedAcquisition) (a' : Acquisition) (status : ℕ) (b : Body) (t : ℕ)
      (rows : List (IdempotencyKey Body)) (x : Held v rows)
      → is_current (claim_of v) t x.row ≡ true
      → validate_acquisition a' ≡ ok w
      → w.scope ≡ v.scope
      → w.request_hash ≡ v.request_hash
      → w.now < v.expires_at
      → (rows₂ : List (IdempotencyKey Body)) × (complete_at (claim_of v) status b t rows ≡ ok rows₂)
        × (acquire a' rows₂ ≡ ok (replay (some status) (some b), rows₂))
  Held-replays v w a' status b t rows x h n s d e =
      let row = completed_row status b t x.row in
      let rows₂ = replace_first (is_current (claim_of v) t) row rows in
      let found : find? (in_scope w.scope) rows₂ ≡ some row =
        subst (λ k. find? (in_scope k) rows₂ ≡ some row) (sym s)
          (Held-completed v rows x status b t h) in
      let same_hash : digest_eq row.request_hash w.request_hash ≡ true =
        subst (λ k. digest_eq k w.request_hash ≡ true) (d ∙ sym x.request_hash)
          (digest_eq_refl w.request_hash) in
      let here =
        find?-also (in_scope v.scope) (is_current (claim_of v) t) rows x.row x.found h
          (is_current-in_scope (claim_of v) t) in
      (
        rows₂,
        complete_at-some (claim_of v) status b t x.row rows here,
        acquire-valid a' w rows₂ n
            ∙ ap ok (
                acquire_valid-some w row rows₂ found
                ∙ acquire_row-replay w row rows₂ t refl
                    (subst (λ k. w.now < k) (sym x.expires_at) e) same_hash),
      )

  -- A request that has acquired a key and completes before the end of its lease is recorded; every
  -- further request for the key with the same hash, until the row expires, then gets its status and
  -- its body, and changes nothing.
  pub complete-replays :
      (normalize : Body → Option Body) (a a' : Acquisition) (v w : ValidatedAcquisition)
      (c : IdempotencyClaim) (status : ℕ) (body b : Body) (t : ℕ)
      (rows rows₁ : List (IdempotencyKey Body))
      → validate_acquisition a ≡ ok v
      → acquire a rows ≡ ok (acquired c, rows₁)
      → 100 ≤ status
      → status ≤ 599
      → normalize body ≡ some b
      → t < c.locked_until
      → validate_acquisition a' ≡ ok w
      → a'.scope ≡ a.scope
      → a'.request_hash ≡ a.request_hash
      → w.now < v.expires_at
      → (rows₂ : List (IdempotencyKey Body)) × (complete normalize c status body (zoned 0 0 t) rows₁
          ≡ ok rows₂)
        × (acquire a' rows₂ ≡ ok (replay (some status) (some b), rows₂))
  complete-replays normalize a a' v w c status body b t rows rows₁ n h l₁ l₂ k l n' s d e =
      let (v', p, is_claim, held) = acquire-Held a c rows rows₁ h in
      let x : Held v rows₁ = subst (λ u. Held u rows₁) (ok_injective (sym p ∙ n)) held in
      let (scope_a, hash_a, lease) = validated a v n in
      let (scope_b, hash_b, _) = validated a' w n' in
      let claim : c ≡ claim_of v = is_claim ∙ ap claim_of (ok_injective (sym p ∙ n)) in
      let (rows₂, done, again) =
        Held-replays v w a' status b t rows₁ x
          (Held-is_current v rows₁ x t (subst (λ k. t < k.locked_until) claim l) lease) n'
          (scope_b ∙ s ∙ sym scope_a) (hash_b ∙ d ∙ sym hash_a) e in
      (
        rows₂,
        complete-valid normalize c status body b t rows₁ l₁ l₂ k
            ∙ subst (λ k. complete_at k status b t rows₁ ≡ ok rows₂) (sym claim) done,
        again,
      )

  late :
      (c : IdempotencyClaim) (t : ℕ) (row : IdempotencyKey Body)
      → c.locked_until ≤ t
      → is_current c t row ≡ false
  unfolding is_current
  late c t row l = ground arith

  complete_at-none :
      (c : IdempotencyClaim) (status : ℕ) (body : Body) (t : ℕ) (rows : List (IdempotencyKey Body))
      → find? (is_current c t) rows ≡ none
      → complete_at c status body t rows ≡ err claim_lost
  unfolding complete_at
  complete_at-none c status body t rows f = ground arith

  -- A claim is lost from the end of its lease on: a completion at that time or later is refused.
  pub complete-late :
      (normalize : Body → Option Body) (c : IdempotencyClaim) (status : ℕ) (body b : Body) (t : ℕ)
      (rows : List (IdempotencyKey Body))
      → 100 ≤ status
      → status ≤ 599
      → normalize body ≡ some b
      → c.locked_until ≤ t
      → complete normalize c status body (zoned 0 0 t) rows ≡ err claim_lost
  complete-late normalize c status body b t rows l₁ l₂ n l =
      complete-valid normalize c status body b t rows l₁ l₂ n
      ∙ complete_at-none c status b t rows
          (find?-never (is_current c t) rows (λ row. late c t row l))
