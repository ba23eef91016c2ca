-- ===== src/Idempotency.antt =====
-- Idempotency keys of mutating requests: apps/api/src/talaqi/platform/idempotency.py, and the table
-- talaqi.idempotency_keys. A response body is of a type of its own, whose JSON normalisation is a
-- parameter; a digest is the list of its bytes; a lease is in microseconds, one below zero is 0.

pub mod Claims
pub mod Exclusion
pub mod Replays
mod Examples
use community_platform.Base.{
  ℕ, ◌+◌, Bool, true, false, ◌&&◌, ◌||◌, not, Option, none, some, List, [], ◌∷◌, ◌++◌, String, any,
  length, leb, ltb, ◌==◌, if◌then◌else◌, Result, ok, err, text_eq, starts_with, contains, some_char,
  is_space, length,
}
use community_platform.Base.{length_of}
use community_platform.Time.{max_instant}
use community_platform.Identifiers.{validate_uuid7}

-- A datetime without a time zone, or an instant with the offset of its zone from UTC in minutes.
pub data Clock : Type 0 where
  naive : ℕ → Clock
  zoned : (minutes_west minutes_east instant : ℕ) → Clock

pub data IdempotencyError : Type 0 where
  -- ValueError of the validation, in the order of its tests
  identifier_not_uuid7 : IdempotencyError
  method_not_supported : IdempotencyError
  route_not_stable : IdempotencyError
  key_length : IdempotencyError
  hash_length : IdempotencyError
  time_not_utc : IdempotencyError
  lease_not_positive : IdempotencyError
  expiry_not_after_now : IdempotencyError
  lease_past_expiry : IdempotencyError
  response_status_range : IdempotencyError
  response_body_not_json : IdempotencyError
  -- IdempotencyClaimLostError
  claim_lost : IdempotencyError
  -- ApiError
  idempotency_conflict : IdempotencyError
  idempotency_in_progress : IdempotencyError

abbrev pub Digest : Type 0
Digest = List ℕ

unfoldable pub digest_eq : Digest → Digest → Bool
digest_eq [] [] = true
digest_eq (a ∷ xs) (b ∷ ys) = a == b && digest_eq xs ys
digest_eq _ _ = false

-- uq_idempotency_scope
pub record Scope : Type 0 where
  pub actor_id : ℕ
  pub http_method : String
  pub route_fingerprint : String
  pub key : String

unfoldable pub scope_eq : Scope → Scope → Bool
scope_eq a b =
    a.actor_id == b.actor_id
    && text_eq a.http_method b.http_method
    && text_eq a.route_fingerprint b.route_fingerprint
    && text_eq a.key b.key

-- the arguments of `acquire`
pub record Acquisition : Type 0 where
  pub scope : Scope
  pub request_hash : Digest
  pub now : Clock
  pub lease_duration : ℕ
  pub expires_at : Clock

pub record ValidatedAcquisition : Type 0 where
  pub scope : Scope
  pub request_hash : Digest
  pub now : ℕ
  pub lease_duration : ℕ
  pub expires_at : ℕ

pub record IdempotencyClaim : Type 0 where
  pub scope : Scope
  pub request_hash : Digest
  pub locked_until : ℕ

-- `_validate_utc`
unfoldable pub validate_utc : Clock → Option ℕ
validate_utc (naive t) = none
validate_utc (zoned west east t) = if west == 0 && east == 0 then some t else none

unfoldable pub is_method : String → Bool
unfolding text_eq
is_method m = any (text_eq m) ("POST" ∷ "PUT" ∷ "PATCH" ∷ "DELETE" ∷ [])

unfoldable pub is_route : String → Bool
unfolding starts_with contains some_char length_of
is_route r =
    starts_with "/api/v1/" r
    && leb (length_of r) 500
    && not (any (λ v. contains v r) ("?" ∷ "#" ∷ "://" ∷ []))
    && not (some_char is_space r)

-- the tests before the times, in order
unfoldable pub scope_error : Scope → Digest → Option IdempotencyError
unfolding validate_uuid7 is_method is_route length_of
scope_error s hash =
    if not (validate_uuid7 s.actor_id)
    then some identifier_not_uuid7
    else if not (is_method s.http_method)
    then some method_not_supported
    else if not (is_route s.route_fingerprint)
    then some route_not_stable
    else if not (leb 16 (length_of s.key) && leb (length_of s.key) 200)
    then some key_length
    else if not (length hash == 32)
    then some hash_length
    else none

-- the tests on the times; a lease past the last datetime is past the expiry
unfoldable pub lease_error : ℕ → ℕ → ℕ → Option IdempotencyError
lease_error now lease expires_at =
    if lease == 0
    then some lease_not_positive
    else if leb expires_at now
    then some expiry_not_after_now
    else if ltb max_instant (now + lease) || ltb expires_at (now + lease)
    then some lease_past_expiry
    else none

unfoldable pub with_times : Acquisition → ℕ → ℕ → Result IdempotencyError ValidatedAcquisition
unfolding lease_error
with_times a now expires_at = elim (lease_error now a.lease_duration expires_at) [
  | some e ↦ err e
  | none ↦ ok (record {
    scope = a.scope;
    request_hash = a.request_hash;
    now = now;
    lease_duration = a.lease_duration;
    expires_at = expires_at;
  })
]

-- `_validate_acquisition`
unfoldable pub validate_acquisition : Acquisition → Result IdempotencyError ValidatedAcquisition
unfolding scope_error validate_utc with_times
validate_acquisition a = elim (scope_error a.scope a.request_hash) [
  | some e ↦ err e
  | none ↦ elim (validate_utc a.now) [
    | none ↦ err time_not_utc
    | some now ↦ elim (validate_utc a.expires_at) [
      | none ↦ err time_not_utc
      | some expires_at ↦ with_times a now expires_at
    ]
  ]
]
