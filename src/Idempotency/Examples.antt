-- ===== src/Idempotency/Examples.antt =====
-- A key that is acquired, asked for again, completed and replayed.
use community_platform.Base.{
  ◌+◌, ◌*◌, ◌^◌, ℕ, ◌≤◌, ◌≡◌, refl, true, some, List, [], ◌∷◌, ok, err, arith,
}
use community_platform.Idempotency.{
  zoned, Digest, digest_eq, Scope, Acquisition, ValidatedAcquisition, validate_acquisition,
  claim_lost,
}
use community_platform.Idempotency.Claims.{
  IdempotencyKey, acquired, replay, acquire, complete, claim_of, claimed_row,
}
use community_platform.Idempotency.Exclusion.{acquire-excludes, busy}
use community_platform.Idempotency.Replays.{complete-replays, complete-late}

abbrev digest : Digest
digest =
    1 ∷ 2 ∷ 3 ∷ 4 ∷ 5 ∷ 6 ∷ 7 ∷ 8 ∷ 1 ∷ 2 ∷ 3 ∷ 4 ∷ 5 ∷ 6 ∷ 7 ∷ 8 ∷ 1 ∷ 2 ∷ 3 ∷ 4 ∷ 5 ∷ 6 ∷ 7 ∷ 8
    ∷ 1 ∷ 2 ∷ 3 ∷ 4 ∷ 5 ∷ 6 ∷ 7 ∷ 8 ∷ []

abbrev scope : Scope
scope = record {
  actor_id = 7 * 2 ^ 76 + 2 * 2 ^ 62;
  http_method = "POST";
  route_fingerprint = "/api/v1/events/{event_id}/registrations";
  key = "0123456789abcdef";
}

abbrev request : ℕ → Acquisition
request now = record {
  scope = scope;
  request_hash = digest;
  now = zoned 0 0 now;
  lease_duration = 100;
  expires_at = zoned 0 0 5000;
}

abbrev valid : ℕ → ValidatedAcquisition
valid now = record {
  scope = scope;
  request_hash = digest;
  now = now;
  lease_duration = 100;
  expires_at = 5000;
}

abbrev rows : List (IdempotencyKey ℕ)
rows = claimed_row (valid 1000) ∷ []

first_acquired : acquire {Body = ℕ} (request 1000) [] ≡ ok (acquired (claim_of (valid 1000)), rows)
unfolding acquire
first_acquired = refl

valid_request : (now : ℕ) → now ≤ 4000 → validate_acquisition (request now) ≡ ok (valid now)
unfolding validate_acquisition
valid_request now l = ground arith

acquire-excludes_example : acquire (request 1050) rows ≡ ok (busy true, rows)
unfolding digest_eq
acquire-excludes_example =
    acquire-excludes (request 1000) (request 1050) (valid 1050) (claim_of (valid 1000)) [] rows
      first_acquired (valid_request 1050 (omega arith)) refl (omega arith)

complete-replays_example :
    (rows₂ : List (IdempotencyKey ℕ)) × (complete
        (λ b. some b)
        (claim_of (valid 1000))
        201
        7
        (zoned 0 0 1080)
        rows
      ≡ ok rows₂)
    × (acquire (request 2000) rows₂ ≡ ok (replay (some 201) (some 7), rows₂))
complete-replays_example =
    complete-replays (λ b. some b) (request 1000) (request 2000) (valid 1000) (valid 2000)
      (claim_of (valid 1000)) 201 7 7 1080 [] rows (valid_request 1000 (omega arith)) first_acquired
      (omega arith) (omega arith) refl (omega arith) (valid_request 2000 (omega arith)) refl refl
      (omega arith)

complete-late_example :
    complete (λ b. some b) (claim_of (valid 1000)) 201 7 (zoned 0 0 1100) rows ≡ err claim_lost
complete-late_example =
    complete-late (λ b. some b) (claim_of (valid 1000)) 201 7 7 1100 rows (omega arith)
      (omega arith) refl (omega arith)
