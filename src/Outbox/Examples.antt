-- ===== src/Outbox/Examples.antt =====
-- Two events of one registration in the outbox.
use community_platform.Base.{
  ℕ, ◌≤◌, ◌≡◌, refl, true, false, Option, none, some, List, [], ◌∷◌, length, String,
}
use community_platform.Outbox.{
  DeliveryStatus, membership_requested, pending, processing, delivered, other, OutboxEvent,
}
use community_platform.Outbox.Delivery.{claim, complete, fail, RetryPolicy, is_policy, retry_delay}
use community_platform.Outbox.Leases.{retry_delay-bounds, complete-once}
use community_platform.Audit.{uuid}
use community_platform.Outbox.Enqueue.{NewEvent}

abbrev event : ℕ → DeliveryStatus → Option String → Option ℕ → OutboxEvent
event id status worker lease = record {
  id = id;
  aggregate_type = "registration";
  aggregate_id = 7;
  event_type = "registration.confirmed";
  payload = [];
  deduplication_key = other id;
  status = status;
  attempt_count = 1;
  available_at = 10;
  locked_by = worker;
  locked_until = lease;
  processed_at = none;
  last_error_code = none;
  created_at = id;
}

abbrev waiting : List OutboxEvent
waiting = event 1 pending none none ∷ event 2 pending none none ∷ []

abbrev held : List OutboxEvent
held = event 1 processing (some "w1") (some 90) ∷ event 2 pending none none ∷ []

abbrev done : List OutboxEvent
done =
    record (event 1 delivered none none) { processed_at = some 50 } ∷ event 2 pending none none ∷ []

-- Only the older one is taken.
claim_takes_one : length (claim "w1" ("registration.confirmed" ∷ []) 60 30 5 waiting).0 ≡ 1
unfolding claim
claim_takes_one = refl

completed : complete 1 "w1" 1 90 50 held ≡ (true, done)
unfolding complete
completed = refl

complete-once_example :
    (complete 1 "w1" 1 90 55 done ≡ (false, done))
    × (fail 1 "w1" 1 90 "timeouterror" 500 55 false done ≡ (false, done))
complete-once_example =
    complete-once 1 "w1" 1 90 50 55 500 "timeouterror" false held done (refl, (refl, tt)) completed

abbrev policy : RetryPolicy
policy = record { max_attempts = 8; retry_base = 5000000; retry_max = 900000000 }

retry_delay-bounds_example :
    (5000000 ≤ retry_delay policy (λ c. c) 4) × (retry_delay policy (λ c. c) 4 ≤ 900000000)
unfolding is_policy
retry_delay-bounds_example = retry_delay-bounds policy (λ c. c) 4 refl

abbrev invitation : NewEvent
invitation = record {
  aggregate_type = "membership";
  aggregate_id = 7;
  event_type = "membership.requested";
  payload = ("recipient_user_id", uuid 5) ∷ ("club_id", uuid 2) ∷ [];
  deduplication_key = membership_requested 7 5;
  available_at = 40;
}
