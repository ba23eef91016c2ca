-- ===== src/Audit.antt =====
-- The audit log: apps/api/src/talaqi/audit/models.py and `AuditService.record` of audit/service.py.
-- The metadata of an event is kept as pairs of names and values; its screening for sensitive keys
-- and its size limit are not modelled, nor is the IP prefix, which no modelled caller gives.
use Prim.Native.Char.{code}
use community_platform.Errors.{Error, invalid_audit_event}
use community_platform.Base.{
  ℕ, Bool, true, ◌&&◌, ◌||◌, Option, List, String, ltb, leb, ◌==◌, is_some, is_none, length_of,
  strip, is_empty, if◌then◌else◌, none, some, Result, ok, err, [], ◌∷◌, ◌++◌,
}

pub data ActorKind : Type 0 where
  member organizer admin system : ActorKind

-- A value in the JSON object of a payload or of audit metadata.
pub data Scalar : Type 0 where
  text : String → Scalar
  uuid : ℕ → Scalar
  number : ℕ → Scalar
  null : Scalar

pub record AuditEvent : Type 0 where
  pub id : ℕ
  pub actor_user_id : Option ℕ
  pub actor_kind : ActorKind
  pub action : String
  pub target_type : String
  pub target_id : Option ℕ
  pub reason : Option String
  pub safe_before : Option (List (String × Scalar))
  pub safe_after : Option (List (String × Scalar))
  pub request_id : Option ℕ

unfoldable pub every_char : (ℕ → Bool) → String → Bool
every_char p String.[] = true
every_char p (String.◌∷◌ c s) = p (code c) && every_char p s

abbrev pub is_word_char : ℕ → Bool
is_word_char c = (leb b'a' c && leb c b'z') || (leb b'0' c && leb c b'9') || c == b'_'

-- ^[a-z0-9_.]+$ and ^[a-z0-9_]+$, matched in full
unfoldable pub is_action : String → Bool
unfolding every_char length_of
is_action s = ltb 0 (length_of s) && every_char (λ c. is_word_char c || c == b'.') s

unfoldable pub is_target_type : String → Bool
unfolding every_char length_of
is_target_type s = ltb 0 (length_of s) && every_char is_word_char s

-- `_validate_actor`: whether it returns.
unfoldable pub validate_actor : Option ℕ → ActorKind → Bool
validate_actor user ActorKind.system = is_none user
validate_actor user _ = is_some user

-- What `record` asks of the actor, the action and the type of the target.
unfoldable pub accepts : Option ℕ → ActorKind → String → String → Bool
unfolding is_action is_target_type validate_actor
accepts user kind action target_type =
    validate_actor user kind && is_action action && is_target_type target_type

-- The reason as it is kept: stripped, and none if nothing is left.
unfoldable pub kept_reason : Option String → Option String
unfolding strip is_empty
kept_reason none = none
kept_reason (some r) = if is_empty (strip r) then none else some (strip r)

-- at most 2000 characters
unfoldable pub reason_fits : Option String → Bool
unfolding length_of
reason_fits none = true
reason_fits (some r) = leb (length_of r) 2000

-- `AuditService.record`, on the table of the audit events.
unfoldable pub record_event : AuditEvent → List AuditEvent → Result Error (List AuditEvent)
unfolding accepts kept_reason reason_fits
record_event e rows =
    if accepts e.actor_user_id e.actor_kind e.action e.target_type
      && reason_fits (kept_reason e.reason)
    then ok (rows ++ record e { reason = kept_reason e.reason } ∷ [])
    else err invalid_audit_event
