-- ===== src/Moderation/Service.antt =====
-- `ModerationService`: apps/api/src/talaqi/moderation/service.py, less the lists and searches that only
-- read. The argument `now` is the time that the caller gives or the clock reads. The calls answer the
-- case; what they read again for the answer is left out. Request identifiers are given as they are
-- once they have been parsed.
use community_platform.Moderation.AuditEvents.{
  type_text, target_status_text, case_status_text, reported_event, acted_event, worked_event,
}
use community_platform.Base.{
  ℕ, Bool, true, false, ◌&&◌, not, Option, none, some, List, [], ◌∷◌, String, any, leb, ◌==◌, strip,
  length_of, text_eq, if◌then◌else◌, Result, ok, err, pure, lift, gets, raise_if, or_raise,
  continue, ◌>>=◌, ◌>>◌,
}
use community_platform.Errors.{
  Error, not_found, invalid_reason, invalid_moderation_transition, invalid_report,
  invalid_report_target, no_feature_flags,
}
use community_platform.Identifiers.{validate_uuid7}
use community_platform.Events.{EventStatus}
use community_platform.Authorization.{
  ClubStatus, UserStatus, AuthPrincipal, can_access_admin, can_moderate,
}
use community_platform.Moderation.{
  TargetType, user, CaseStatus, open_case, investigating, actioned, dismissed, Priority, standard,
  emergency, ModerationAction, suspend, unpublish, restore, CaseWorkflowAction, acknowledge,
  dismiss, ModerationCase, TargetStatus, of_user, of_club, of_event, Transaction, Services,
}
use community_platform.Moderation.Repository.{
  record_audit, has_active_mfa, get_case, create_report, get_target,
}
use community_platform.Moderation.Repository.Cases.{record_case_action, record_case_workflow}
use community_platform.Moderation.Repository.Targets.{apply_target_action}

-- `_reason`
unfoldable pub normalized_reason : String → Result Error String
unfolding strip length_of
normalized_reason value =
    if leb 3 (length_of (strip value)) && leb (length_of (strip value)) 2000
    then ok (strip value)
    else err invalid_reason

-- `capabilities`: what may be done to a target
unfoldable pub capabilities : TargetStatus → List ModerationAction
capabilities (of_user UserStatus.active) = suspend ∷ []
capabilities (of_user UserStatus.suspended) = restore ∷ []
capabilities (of_club ClubStatus.published) = suspend ∷ unpublish ∷ []
capabilities (of_club ClubStatus.suspended) = restore ∷ []
capabilities (of_club ClubStatus.unpublished) = restore ∷ []
capabilities (of_event EventStatus.published) = suspend ∷ []
capabilities (of_event EventStatus.suspended) = restore ∷ []
capabilities _ = []

abbrev pub action_code : ModerationAction → ℕ
action_code suspend = 0
action_code unpublish = 1
action_code restore = 2

abbrev pub allows : List ModerationAction → ModerationAction → Bool
allows actions a = any (λ x. action_code x == action_code a) actions

unfoldable pub only_restore : List ModerationAction → List ModerationAction
only_restore [] = []
only_restore (restore ∷ rest) = restore ∷ only_restore rest
only_restore (_ ∷ rest) = only_restore rest

-- `case_capabilities`: what may be done to it in a case of some status
unfoldable pub case_capabilities : CaseStatus → TargetStatus → List ModerationAction
unfolding capabilities only_restore
case_capabilities open_case s = capabilities s
case_capabilities investigating s = capabilities s
case_capabilities actioned s = only_restore (capabilities s)
case_capabilities dismissed s = []

-- `_case`
unfoldable pub case_of : ℕ → Transaction ModerationCase
unfolding validate_uuid7 get_case
case_of case_id = do
  raise_if (not (validate_uuid7 case_id)) not_found
  found ← gets (get_case case_id)
  or_raise found not_found

-- the checks on a principal that `act` and `transition_case` begin with
unfoldable pub require_moderator : AuthPrincipal → Transaction Unit
unfolding can_access_admin has_active_mfa can_moderate
require_moderator p = do
  lift (can_access_admin p)
  has_mfa ← gets (has_active_mfa p.user_id)
  lift (can_moderate p has_mfa)

unfoldable pub require_reports : Option (String → Result Error Unit) → Result Error Unit
require_reports none = err no_feature_flags
require_reports (some f) = f "features.member_reports_enabled"

-- category in REPORT_CATEGORIES
unfoldable pub is_report_category : String → Bool
unfolding text_eq
is_report_category c =
    any (text_eq c)
      ("safety" ∷ "harassment" ∷ "fraud" ∷ "illegal_content" ∷ "privacy" ∷ "spam" ∷ "other" ∷ [])

unfoldable pub is_report : String → String → Bool
unfolding is_report_category length_of
is_report category description =
    is_report_category category
    && leb 10 (length_of description)
    && leb (length_of description) 5000

unfoldable pub report_priority : String → Priority
unfolding text_eq
report_priority category = if text_eq category "safety" then emergency else standard

abbrev pub is_user : TargetType → Bool
is_user user = true
is_user _ = false

-- `submit_report`
unfoldable pub submit_report :
    Services → AuthPrincipal → TargetType → ℕ → String → String → ℕ → ℕ → Transaction ModerationCase
unfolding require_reports is_report strip get_target report_priority create_report record_audit
    type_text
submit_report env p target_type target_id category description request_id now = do
  lift (require_reports env.require_enabled)
  raise_if (not (is_report category (strip description))) invalid_report
  found ← gets (get_target target_type target_id)
  or_raise found not_found
  raise_if (is_user target_type && target_id == p.user_id) invalid_report_target
  c ←
      create_report env p.user_id target_type target_id category (strip description)
        (report_priority category) now
  record_audit env
      (reported_event p target_type target_id c category (report_priority category) request_id)
  pure c

-- the action of `act` on a target that was read
unfoldable pub act_on :
    Services
    → AuthPrincipal
    → ModerationCase
    → TargetStatus
    → ModerationAction
    → String
    → ℕ
    → ℕ
    → Transaction ModerationCase
unfolding apply_target_action record_case_action record_audit type_text target_status_text
act_on env p c before action reason request_id now db =
    let (changed, db₁) = apply_target_action c.target_type c.target_id action reason now db in
    elim changed [
      | none ↦ err invalid_moderation_transition
      | some after ↦ continue (record_case_action env c p.user_id action reason now db₁) (λ updated.
          record_audit env (acted_event p c before after action reason request_id) >> pure updated)
    ]

-- `act`
unfoldable pub act :
    Services → AuthPrincipal → ℕ → ModerationAction → String → ℕ → ℕ → Transaction ModerationCase
unfolding require_moderator normalized_reason case_of get_target case_capabilities act_on
act env p case_id action reason request_id now = do
  require_moderator p
  normalized ← lift (normalized_reason reason)
  c ← case_of case_id
  found ← gets (get_target c.target_type c.target_id)
  target ← or_raise found not_found
  raise_if (not (allows (case_capabilities c.status target.status) action))
      invalid_moderation_transition
  act_on env p c target.status action normalized request_id now

-- what `transition_case` allows
unfoldable pub may_work : CaseWorkflowAction → CaseStatus → Bool
may_work acknowledge open_case = true
may_work dismiss open_case = true
may_work dismiss investigating = true
may_work _ _ = false

-- `transition_case`
unfoldable pub transition_case :
    Services → AuthPrincipal → ℕ → CaseWorkflowAction → String → ℕ → ℕ → Transaction ModerationCase
unfolding require_moderator normalized_reason case_of may_work get_target record_case_workflow
    record_audit case_status_text
transition_case env p case_id action reason request_id now = do
  require_moderator p
  normalized ← lift (normalized_reason reason)
  c ← case_of case_id
  raise_if (not (may_work action c.status)) invalid_moderation_transition
  found ← gets (get_target c.target_type c.target_id)
  or_raise found not_found
  updated ← record_case_workflow env c p.user_id action normalized now
  record_audit env (worked_event p c updated action normalized request_id)
  pure updated
