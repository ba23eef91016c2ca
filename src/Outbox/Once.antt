-- ===== src/Outbox/Once.antt =====
-- A message that is published twice: `enqueue` of apps/api/src/talaqi/outbox/repository.py.
use community_platform.Base.{
  ℕ, ◌≡◌, Bool, true, false, ◌&&◌, not, some, List, [], ◌∷◌, String, any, find?, text_eq, err,
  arith,
}
use community_platform.Audit.{Scalar}
use community_platform.Errors.{outbox_deduplication_conflict}
use community_platform.Outbox.{OutboxEvent, key_eq}
use community_platform.Outbox.Enqueue.{NewEvent, is_intended, enqueue}

-- The keys of an object are different.
unfoldable pub keys_differ : List (String × Scalar) → Bool
unfolding text_eq
keys_differ [] = true
keys_differ ((k, v) ∷ rest) = not (any (λ p. text_eq k p.0) rest) && keys_differ rest

pub enqueue-refused :
    (id clock : ℕ) (n : NewEvent) (e : OutboxEvent) (rows : List OutboxEvent)
    → find? (λ x. key_eq x.deduplication_key n.deduplication_key) rows ≡ some e
    → is_intended n e ≡ false
    → enqueue id clock n rows ≡ err outbox_deduplication_conflict
unfolding enqueue
enqueue-refused id clock n e rows found h = ground arith
