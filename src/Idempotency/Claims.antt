-- ===== src/Idempotency/Claims.antt =====
-- `IdempotencyRepository` and `IdempotencyCoordinator`: each call is one transaction on the table of
-- the keys, which runs alone (it locks the row that it reads).
use community_platform.Base.{
  ℕ, ◌+◌, Bool, ◌&&◌, not, Option, none, some, List, [], ◌∷◌, ◌++◌, find?, replace_first, leb, ltb,
  is_none, holds, if◌then◌else◌, Result, ok, err, option_eq,
}
use community_platform.Idempotency.{
  Clock, validate_utc, IdempotencyError, response_status_range, response_body_not_json, claim_lost,
  time_not_utc, idempotency_conflict, idempotency_in_progress, Digest, digest_eq, Scope, scope_eq,
  Acquisition, ValidatedAcquisition, IdempotencyClaim, validate_acquisition,
}

pub record IdempotencyKey (Body : Type 0) : Type 0 where
  pub scope : Scope
  pub request_hash : Digest
  pub response_status : Option ℕ
  pub response_body : Option Body
  pub locked_until : Option ℕ
  pub completed_at : Option ℕ
  pub expires_at : ℕ

pub data IdempotencyAcquisition (Body : Type 0) : Type 0 where
  acquired : IdempotencyClaim → IdempotencyAcquisition Body
  replay : (response_status : Option ℕ) (response_body : Option Body) → IdempotencyAcquisition Body
  conflict in_progress : IdempotencyAcquisition Body

abbrev pub claim_of : ValidatedAcquisition → IdempotencyClaim
claim_of v = record {
  scope = v.scope;
  request_hash = v.request_hash;
  locked_until = v.now + v.lease_duration;
}

module _ {Body : Type 0} where
  abbrev pub in_scope : Scope → IdempotencyKey Body → Bool
  in_scope s row = scope_eq row.scope s

  -- the row that INSERT and `_reset_claim` write
  abbrev pub claimed_row : ValidatedAcquisition → IdempotencyKey Body
  claimed_row v = record {
    scope = v.scope;
    request_hash = v.request_hash;
    response_status = none;
    response_body = none;
    locked_until = some (v.now + v.lease_duration);
    completed_at = none;
    expires_at = v.expires_at;
  }

  abbrev pub written :
      Scope → IdempotencyKey Body → List (IdempotencyKey Body) → List (IdempotencyKey Body)
  written s row rows = replace_first (in_scope s) row rows

  -- a row that is there
  unfoldable pub acquire_row :
      ValidatedAcquisition
      → IdempotencyKey Body
      → List (IdempotencyKey Body)
      → IdempotencyAcquisition Body × List (IdempotencyKey Body)
  unfolding digest_eq
  acquire_row v row rows =
      if leb row.expires_at v.now
      then (acquired (claim_of v), written v.scope (claimed_row v) rows)
      else if not (digest_eq row.request_hash v.request_hash)
      then (conflict, rows)
      else if not (is_none row.completed_at)
      then (replay row.response_status row.response_body, rows)
      else if holds (λ t. ltb v.now t) row.locked_until
      then (in_progress, rows)
      else (
        acquired (claim_of v),
        written v.scope
            (record row {
              locked_until = some (v.now + v.lease_duration);
              expires_at = v.expires_at;
            })
            rows,
      )

  -- INSERT … ON CONFLICT DO NOTHING, and what follows a conflict
  unfoldable pub acquire_valid :
      ValidatedAcquisition
      → List (IdempotencyKey Body)
      → IdempotencyAcquisition Body × List (IdempotencyKey Body)
  unfolding acquire_row scope_eq
  acquire_valid v rows = elim (find? (in_scope v.scope) rows) [
    | none ↦ (acquired (claim_of v), rows ++ claimed_row v ∷ [])
    | some row ↦ acquire_row v row rows
  ]

  -- `IdempotencyRepository.acquire`
  unfoldable pub acquire :
      Acquisition
      → List (IdempotencyKey Body)
      → Result IdempotencyError (IdempotencyAcquisition Body × List (IdempotencyKey Body))
  unfolding validate_acquisition acquire_valid
  acquire a rows = elim (validate_acquisition a) [
    | err e ↦ err e
    | ok v ↦ ok (acquire_valid v rows)
  ]

  -- whether the row is still under a claim
  unfoldable pub is_current : IdempotencyClaim → ℕ → IdempotencyKey Body → Bool
  unfolding digest_eq scope_eq
  is_current c completed_at row =
      in_scope c.scope row
      && digest_eq row.request_hash c.request_hash
      && option_eq row.locked_until (some c.locked_until)
      && ltb completed_at c.locked_until
      && ltb completed_at row.expires_at
      && is_none row.completed_at

  -- the UPDATE of `complete`
  unfoldable pub complete_at :
      IdempotencyClaim
      → ℕ
      → Body
      → ℕ
      → List (IdempotencyKey Body)
      → Result IdempotencyError (List (IdempotencyKey Body))
  unfolding is_current
  complete_at c status body completed_at rows = elim (find? (is_current c completed_at) rows) [
    | none ↦ err claim_lost
    | some row ↦ ok (
        replace_first (is_current c completed_at)
          (record row {
            response_status = some status;
            response_body = some body;
            completed_at = some completed_at;
          })
          rows)
  ]

  -- `IdempotencyRepository.complete`, with `_normalize_json` as a parameter
  unfoldable pub complete :
      (Body → Option Body)
      → IdempotencyClaim
      → ℕ
      → Body
      → Clock
      → List (IdempotencyKey Body)
      → Result IdempotencyError (List (IdempotencyKey Body))
  unfolding validate_utc complete_at
  complete normalize c status body at rows =
      if not (leb 100 status && leb status 599)
      then err response_status_range
      else elim (validate_utc at) [
        | none ↦ err time_not_utc
        | some t ↦ elim (normalize body) [
          | none ↦ err response_body_not_json
          | some b ↦ complete_at c status b t rows
        ]
      ]

  -- `IdempotencyCoordinator.acquire`
  unfoldable pub coordinate :
      Acquisition
      → List (IdempotencyKey Body)
      → Result IdempotencyError (IdempotencyAcquisition Body × List (IdempotencyKey Body))
  unfolding acquire
  coordinate a rows = elim (acquire a rows) [
    | err e ↦ err e
    | ok (conflict, rows') ↦ err idempotency_conflict
    | ok (in_progress, rows') ↦ err idempotency_in_progress
    | ok (x, rows') ↦ ok (x, rows')
  ]
