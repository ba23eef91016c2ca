-- ===== src/Idempotency/Exclusion.antt =====
-- What a claim keeps other requests from, and what they get once it is completed.
use community_platform.Base.{
  ℕ, ◌+◌, ◌≤◌, ◌<◌, ◌≡◌, refl, sym, ◌∙◌, subst, ap, Bool, true, false, none, some, List, [], ◌∷◌,
  find?, leb, ltb, holds, ok, arith, Bool-cases, Option-cases, Result-cases, inl, inr, text_eq_refl,
  find?-append_miss, find?-replace_first_self, find?-holds,
}
use community_platform.Idempotency.{
  validate_utc, Digest, digest_eq, Scope, scope_eq, Acquisition, ValidatedAcquisition,
  IdempotencyClaim, validate_acquisition, with_times, lease_error, scope_error,
}
use community_platform.Idempotency.Claims.{
  IdempotencyKey, IdempotencyAcquisition, acquired, replay, conflict, in_progress, in_scope,
  claim_of, claimed_row, written, acquire_row, acquire_valid, acquire,
}

scope_eq_refl : (s : Scope) → scope_eq s s ≡ true
unfolding scope_eq
scope_eq_refl s =
    ground (arith, text_eq_refl s.http_method, text_eq_refl s.route_fingerprint, text_eq_refl s.key)

pub digest_eq_refl : (d : Digest) → digest_eq d d ≡ true
unfolding digest_eq
digest_eq_refl [] = refl
digest_eq_refl (a ∷ d) = ground (arith, digest_eq_refl d)

digest_eq-≡ : (d e : Digest) → digest_eq d e ≡ true → d ≡ e
unfolding digest_eq
digest_eq-≡ [] [] h = refl
digest_eq-≡ [] (b ∷ e) h = ground arith
digest_eq-≡ (a ∷ d) [] h = ground arith
digest_eq-≡ (a ∷ d) (b ∷ e) h = ground (arith, digest_eq-≡ d e)

with_times-lease :
    (a : Acquisition) (now expires_at : ℕ) (v : ValidatedAcquisition)
    → with_times a now expires_at ≡ ok v
    → (v.scope ≡ a.scope)
      × (v.request_hash ≡ a.request_hash)
      × (v.now + v.lease_duration ≤ v.expires_at)
unfolding with_times lease_error
with_times-lease a now expires_at v h = ground arith

-- A validated acquisition keeps the scope and the hash, and its lease does not outlast the row.
pub validated :
    (a : Acquisition) (v : ValidatedAcquisition)
    → validate_acquisition a ≡ ok v
    → (v.scope ≡ a.scope)
      × (v.request_hash ≡ a.request_hash)
      × (v.now + v.lease_duration ≤ v.expires_at)
unfolding validate_acquisition
validated a v h = elim (Option-cases (scope_error a.scope a.request_hash)) [
  | inr (e, p) ↦ ground arith
  | inl p ↦ elim (Option-cases (validate_utc a.now)) [
    | inl q ↦ ground arith
    | inr (now, q) ↦ elim (Option-cases (validate_utc a.expires_at)) [
      | inl k ↦ ground arith
      | inr (expires_at, k) ↦ with_times-lease a now expires_at v (ground arith)
    ]
  ]
]

module _ {Body : Type 0} where
  -- A row that is held under a claim.
  pub record Held (v : ValidatedAcquisition) (rows : List (IdempotencyKey Body)) : Type 0 where
    pub row : IdempotencyKey Body
    pub found : find? (in_scope v.scope) rows ≡ some row
    pub scope : scope_eq row.scope v.scope ≡ true
    pub request_hash : row.request_hash ≡ v.request_hash
    pub locked_until : row.locked_until ≡ some (v.now + v.lease_duration)
    pub completed_at : row.completed_at ≡ none
    pub expires_at : row.expires_at ≡ v.expires_at

  Held-written :
      (v : ValidatedAcquisition) (row old : IdempotencyKey Body) (rows : List (IdempotencyKey Body))
      → find? (in_scope v.scope) rows ≡ some old
      → scope_eq row.scope v.scope ≡ true
      → row.request_hash ≡ v.request_hash
      → row.locked_until ≡ some (v.now + v.lease_duration)
      → row.completed_at ≡ none
      → row.expires_at ≡ v.expires_at
      → Held v (written v.scope row rows)
  Held-written v row old rows f s h l c e = record {
    row = row;
    found = find?-replace_first_self (in_scope v.scope) old row rows f s;
    scope = s;
    request_hash = h;
    locked_until = l;
    completed_at = c;
    expires_at = e;
  }

  acquire_row-Held :
      (v : ValidatedAcquisition) (old : IdempotencyKey Body) (c : IdempotencyClaim)
      (rows rows' : List (IdempotencyKey Body))
      → find? (in_scope v.scope) rows ≡ some old
      → acquire_row v old rows ≡ (acquired c, rows')
      → (c ≡ claim_of v) × Held v rows'
  unfolding acquire_row
  acquire_row-Held v old c rows rows' f h =
      let again : IdempotencyKey Body = record old {
        locked_until = some (v.now + v.lease_duration);
        expires_at = v.expires_at;
      } in
      elim (Bool-cases (leb old.expires_at v.now)) [
        | inl p ↦ (
          ground arith,
          subst (Held v) (ground arith) (
              Held-written v (claimed_row v) old rows f (scope_eq_refl v.scope) refl refl refl
                refl),
        )
        | inr p ↦ elim (Bool-cases (digest_eq old.request_hash v.request_hash)) [
          | inr q ↦ ground arith
          | inl q ↦ elim (Option-cases old.completed_at) [
            | inr (t, k) ↦ ground arith
            | inl k ↦ elim (Bool-cases (holds (λ t. ltb v.now t) old.locked_until)) [
              | inl n ↦ ground arith
              | inr n ↦ (
                ground arith,
                subst (Held v) (ground arith) (
                    Held-written v again old rows f (find?-holds (in_scope v.scope) rows old f)
                      (digest_eq-≡ old.request_hash v.request_hash q) refl k refl),
              )
            ]
          ]
        ]
      ]

  acquire_valid-Held :
      (v : ValidatedAcquisition) (c : IdempotencyClaim) (rows rows' : List (IdempotencyKey Body))
      → acquire_valid v rows ≡ (acquired c, rows')
      → (c ≡ claim_of v) × Held v rows'
  unfolding acquire_valid
  acquire_valid-Held v c rows rows' h = elim (Option-cases (find? (in_scope v.scope) rows)) [
    | inr (old, f) ↦ acquire_row-Held v old c rows rows' f (ground arith)
    | inl f ↦ (
      ground arith,
      record {
        row = claimed_row v;
        found = ground (
          arith,
          find?-append_miss (in_scope v.scope) rows (claimed_row v ∷ []) f,
          scope_eq_refl v.scope,
        );
        scope = scope_eq_refl v.scope;
        request_hash = refl;
        locked_until = refl;
        completed_at = refl;
        expires_at = refl;
      },
    )
  ]

  -- what another request gets while a claim is held
  abbrev pub busy : Bool → IdempotencyAcquisition Body
  busy true = in_progress
  busy false = conflict

  pub acquire_valid-some :
      (w : ValidatedAcquisition) (row : IdempotencyKey Body) (rows : List (IdempotencyKey Body))
      → find? (in_scope w.scope) rows ≡ some row
      → acquire_valid w rows ≡ acquire_row w row rows
  unfolding acquire_valid
  acquire_valid-some w row rows f = ground arith

  acquire_row-busy :
      (w : ValidatedAcquisition) (row : IdempotencyKey Body) (rows : List (IdempotencyKey Body))
      (t : ℕ)
      → row.locked_until ≡ some t
      → row.completed_at ≡ none
      → w.now < t
      → t ≤ row.expires_at
      → acquire_row w row rows ≡ (busy (digest_eq row.request_hash w.request_hash), rows)
  unfolding acquire_row
  acquire_row-busy w row rows t l c n e =
      elim (Bool-cases (digest_eq row.request_hash w.request_hash)) [
        | inl q ↦ rw q (ground arith)
        | inr q ↦ rw q (ground arith)
      ]

  pub acquire_row-replay :
      (w : ValidatedAcquisition) (row : IdempotencyKey Body) (rows : List (IdempotencyKey Body))
      (t : ℕ)
      → row.completed_at ≡ some t
      → w.now < row.expires_at
      → digest_eq row.request_hash w.request_hash ≡ true
      → acquire_row w row rows ≡ (replay row.response_status row.response_body, rows)
  unfolding acquire_row
  acquire_row-replay w row rows t c n q = ground arith

  pub acquire-valid :
      (a : Acquisition) (v : ValidatedAcquisition) (rows : List (IdempotencyKey Body))
      → validate_acquisition a ≡ ok v
      → acquire a rows ≡ ok (acquire_valid v rows)
  unfolding acquire
  acquire-valid a v rows n = ground arith

  pub acquire-Held :
      (a : Acquisition) (c : IdempotencyClaim) (rows rows' : List (IdempotencyKey Body))
      → acquire a rows ≡ ok (acquired c, rows')
      → (v : ValidatedAcquisition) × (validate_acquisition a ≡ ok v)
        × (c ≡ claim_of v)
        × Held v rows'
  unfolding acquire
  acquire-Held a c rows rows' h = elim (Result-cases (validate_acquisition a)) [
    | inr (e, p) ↦ ground arith
    | inl (v, p) ↦
        let (is_claim, held) = acquire_valid-Held v c rows rows' (ground arith) in
        (v, p, is_claim, held)
  ]

  -- Once a request has acquired a key, every further request for it before the end of the claim's
  -- lease is turned away and changes nothing: as in progress if it has the same hash, else as
  -- a conflict.
  pub acquire-excludes :
      (a b : Acquisition) (w : ValidatedAcquisition) (c : IdempotencyClaim)
      (rows rows' : List (IdempotencyKey Body))
      → acquire a rows ≡ ok (acquired c, rows')
      → validate_acquisition b ≡ ok w
      → b.scope ≡ a.scope
      → w.now < c.locked_until
      → acquire b rows' ≡ ok (busy (digest_eq a.request_hash b.request_hash), rows')
  acquire-excludes a b w c rows rows' h n s l =
      let (v, p, is_claim, x) = acquire-Held a c rows rows' h in
      let (scope_a, hash_a, lease) = validated a v p in
      let (scope_b, hash_b, _) = validated b w n in
      let found =
        subst (λ k. find? (in_scope k) rows' ≡ some x.row) (scope_a ∙ sym s ∙ sym scope_b)
          x.found in
      let busy_of =
        acquire_row-busy w x.row rows' (v.now + v.lease_duration) x.locked_until x.completed_at
          (ground (arith, l, is_claim)) (ground (arith, lease, x.expires_at)) in
      let same_hash = ap (λ d. busy (digest_eq d w.request_hash)) (x.request_hash ∙ hash_a) in
      acquire-valid b w rows' n
      ∙ ap ok (
          acquire_valid-some w x.row rows' found
          ∙ busy_of
          ∙ ap (λ k. (k, rows')) (same_hash ∙ ap (λ d. busy (digest_eq a.request_hash d)) hash_b))
