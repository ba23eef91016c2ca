-- ===== src/Moderation/Repository/Cases.antt =====
-- `record_case_action` and `record_case_workflow` of apps/api/src/talaqi/moderation/repository.py.
use community_platform.Base.{
  ℕ, Bool, ◌&&◌, not, Option, none, some, [], ◌∷◌, String, any, update_where, ◌==◌, pure, gets,
  raise_if, or_raise, modify, ◌>>=◌, ◌>>◌,
}
use community_platform.Errors.{row_lost}
use community_platform.Audit.{uuid}
use community_platform.Outbox.{
  moderation_suspend, moderation_unpublish, moderation_restore, DeduplicationKey,
}
use community_platform.Moderation.{
  user, CaseStatus, open_case, investigating, actioned, dismissed, ModerationAction, suspend,
  unpublish, restore, CaseWorkflowAction, acknowledge, dismiss, ModerationCase, ModerationCaseEvent,
  Transaction, Services,
}
use community_platform.Moderation.Repository.{
  or_else, new_uuid, publish, get_case, insert_case_event,
}

unfoldable pub case_status_code : CaseStatus → ℕ
case_status_code open_case = 0
case_status_code investigating = 1
case_status_code actioned = 2
case_status_code dismissed = 3

-- the rows of a case in the status that it was read in
abbrev pub is_unmoved : ModerationCase → ModerationCase → Bool
is_unmoved c x = x.id == c.id && case_status_code x.status == case_status_code c.status

-- the UPDATE of a case, which has to find one row, and the row afterwards
unfoldable pub update_case :
    ModerationCase → (ModerationCase → ModerationCase) → Transaction ModerationCase
unfolding case_status_code get_case
update_case c f = do
  cases ← gets (λ db. db.cases)
  raise_if (not (any (is_unmoved c) cases)) row_lost
  modify (λ db. record db { cases = update_where (is_unmoved c) f db.cases })
  found ← gets (get_case c.id)
  or_raise found row_lost

abbrev pub action_event :
    ℕ → ModerationCase → ℕ → ModerationAction → String → ℕ → ModerationCaseEvent
action_event id c actor action reason clock = record {
  id = id;
  moderation_case_id = c.id;
  actor_user_id = some actor;
  action = some action;
  workflow_action = none;
  from_status = some c.status;
  to_status = actioned;
  reason = reason;
  created_at = clock;
}

abbrev pub actioned_case : ℕ → String → ℕ → ModerationCase → ModerationCase
actioned_case actor reason now c = record c {
  status = actioned;
  assigned_admin_user_id = some actor;
  resolution_reason = some reason;
  acknowledged_at = or_else c.acknowledged_at now;
  resolved_at = some now;
}

unfoldable pub action_key : ModerationAction → ℕ → DeduplicationKey
action_key suspend id = moderation_suspend id
action_key unpublish id = moderation_unpublish id
action_key restore id = moderation_restore id

-- a user is told of an action
unfoldable pub announce_action : Services → ModerationCase → ModerationAction → ℕ → Transaction Unit
unfolding action_key publish
announce_action env c action now = elim c.target_type [
  | user ↦ publish env (record {
    aggregate_type = "moderation_case";
    aggregate_id = c.id;
    event_type = "moderation.action_taken";
    payload = ("recipient_user_id", uuid c.target_id) ∷ ("case_id", uuid c.id) ∷ [];
    deduplication_key = action_key action c.id;
    available_at = now;
  })
  | _ ↦ pure tt
]

-- `record_case_action`; the statuses of the target in the event's metadata are left out
unfoldable pub record_case_action :
    Services → ModerationCase → ℕ → ModerationAction → String → ℕ → Transaction ModerationCase
unfolding new_uuid insert_case_event update_case announce_action
record_case_action env c actor action reason now = do
  id ← new_uuid env
  clock ← gets (λ db. db.clock)
  insert_case_event (action_event id c actor action reason clock)
  updated ← update_case c (actioned_case actor reason now)
  announce_action env c action now
  pure updated

abbrev pub workflow_status : CaseWorkflowAction → CaseStatus
workflow_status acknowledge = investigating
workflow_status dismiss = dismissed

abbrev pub workflow_event :
    ℕ → ModerationCase → ℕ → CaseWorkflowAction → String → ℕ → ModerationCaseEvent
workflow_event id c actor action reason now = record {
  id = id;
  moderation_case_id = c.id;
  actor_user_id = some actor;
  action = none;
  workflow_action = some action;
  from_status = some c.status;
  to_status = workflow_status action;
  reason = reason;
  created_at = now;
}

abbrev pub if_dismissed {ℓ} : {A : Type ℓ} → CaseWorkflowAction → A → Option A
if_dismissed dismiss a = some a
if_dismissed acknowledge a = none

abbrev pub worked_case : ℕ → CaseWorkflowAction → String → ℕ → ModerationCase → ModerationCase
worked_case actor action reason now c = record c {
  status = workflow_status action;
  assigned_admin_user_id = some actor;
  acknowledged_at = or_else c.acknowledged_at now;
  resolution_reason = if_dismissed action reason;
  resolved_at = if_dismissed action now;
}

-- `record_case_workflow`
unfoldable pub record_case_workflow :
    Services → ModerationCase → ℕ → CaseWorkflowAction → String → ℕ → Transaction ModerationCase
unfolding new_uuid insert_case_event update_case
record_case_workflow env c actor action reason now = do
  id ← new_uuid env
  insert_case_event (workflow_event id c actor action reason now)
  update_case c (worked_case actor action reason now)
