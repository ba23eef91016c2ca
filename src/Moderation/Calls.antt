-- ===== src/Moderation/Calls.antt =====
-- What each call of the moderation does, when it returns: `submit_report`, `act` and `transition_case` of
-- apps/api/src/talaqi/moderation/service.py.
pub mod Reports
use community_platform.Base.{
  ℕ, ◌≡◌, refl, sym, ◌∙◌, subst, true, false, ◌&&◌, not, Option, none, some, [], ◌∷◌, ◌++◌, String,
  any, ◌==◌, arith, Result, ok, err, continue, continue_elim, raise_if_elim, or_raise_elim,
  or_raise_last, lift_elim, lift, ok_eq, pure, ◌>>◌, ◌>>=◌, Action, Option-cases, inl, inr,
}
use community_platform.Errors.{Error, not_found, invalid_moderation_transition}
use community_platform.Identifiers.{validate_uuid7}
use community_platform.Authorization.{
  AuthPrincipal, is_active_user, can_access_admin, can_perform_admin_action, can_moderate,
}
use community_platform.Moderation.{
  TargetType, open_case, ModerationAction, CaseWorkflowAction, ModerationCase, TargetStatus,
  ModerationTarget, Tables, Services,
}
use community_platform.Moderation.Repository.{
  record_audit, has_active_mfa, is_case, get_case, status_of, get_target,
}
use community_platform.Moderation.Repository.Cases.{
  actioned_case, record_case_action, worked_case, record_case_workflow,
}
use community_platform.Moderation.Repository.Targets.{apply_target_action}
use community_platform.Moderation.Service.{
  normalized_reason, case_of, require_moderator, case_capabilities, allows, act_on, act, may_work,
  transition_case,
}
use community_platform.Moderation.AuditEvents.{acted_event, worked_event}
use community_platform.Moderation.Effects.{
  Untouched, Same-trans, Same-here, record_audit-Same, CaseUpdated, CaseUpdated-around,
  record_case_workflow-CaseUpdated, record_case_action-CaseUpdated,
}

-- The cases after a report: the new one is open, and its identifier was not in the table.
pub record Reported (c : ModerationCase) (db db' : Tables) : Type 0 where
  pub new : any (is_case c.id) db.cases ≡ false
  pub cases : db'.cases ≡ db.cases ++ c ∷ []
  pub is_open : c.status ≡ open_case
  pub unassigned : c.assigned_admin_user_id ≡ none
  pub unresolved : (c.resolution_reason ≡ none) × (c.resolved_at ≡ none)
  pub unacknowledged : c.acknowledged_at ≡ none
  pub untouched : Untouched db db'

-- What lets a principal moderate.
pub record Moderator (p : AuthPrincipal) (db : Tables) : Type 0 where
  pub active : is_active_user p.status ≡ true
  pub admin : p.is_platform_admin ≡ true
  pub mfa : has_active_mfa p.user_id db ≡ true

require_moderator-Moderator :
    (p : AuthPrincipal) (db db' : Tables)
    → require_moderator p db ≡ ok (tt, db')
    → Moderator p db × (db ≡ db')
unfolding require_moderator can_access_admin can_moderate can_perform_admin_action
require_moderator-Moderator p db db' h = ground arith

-- What a call of `act` has done: which case, target and statuses it found, and what it did to them.
pub record ActedOn (env : Services) (p : AuthPrincipal) (case_id : ℕ) (action : ModerationAction)
    (now : ℕ) (r : ModerationCase) (db db' : Tables) : Type 0 where
  pub reason : String
  pub found_case : ModerationCase
  pub before : TargetStatus
  pub after : TargetStatus
  pub changed : Tables
  pub moderator : Moderator p db
  pub found : get_case case_id db ≡ some found_case
  pub target : status_of found_case.target_type found_case.target_id db ≡ some before
  pub allowed : allows (case_capabilities found_case.status before) action ≡ true
  pub applied :
      apply_target_action found_case.target_type found_case.target_id action reason now db
      ≡ (some after, changed)
  pub recorded :
      (x : ModerationCase) × (d : Tables) × (record_case_action env found_case p.user_id action
          reason now changed
        ≡ ok (x, d))
  pub updated : CaseUpdated found_case (actioned_case p.user_id reason now) r changed db'

case_of-found :
    (case_id : ℕ) (c : ModerationCase) (db db₁ : Tables)
    → case_of case_id db ≡ ok (c, db₁)
    → (get_case case_id db ≡ some c) × (db ≡ db₁)
unfolding case_of
case_of-found case_id c db db₁ h =
    raise_if_elim (not (validate_uuid7 case_id)) not_found db _ h
      λ e h₁. or_raise_last (get_case case_id db) not_found db h₁

-- What the calls on a case begin with: the moderator, the reason and the case.
opening_elim {κ} :
    {P : Type κ} {B : Type 0} (p : AuthPrincipal) (reason : String) (case_id : ℕ) (db : Tables)
    (f : String → ModerationCase → Action Error Tables B) {r : B × Tables}
    → continue
        (require_moderator p db)
        (λ _. lift (normalized_reason reason) >>= (λ s. case_of case_id >>= λ c. f s c))
      ≡ ok r
    → ((s : String) (c : ModerationCase)
        → Moderator p db
        → get_case case_id db ≡ some c
        → f s c db ≡ ok r
        → P)
    → P
opening_elim p reason case_id db f {r} h k =
    continue_elim (require_moderator p db) _ h λ u db₁ e₁ h₁.
      let (m, same) = require_moderator-Moderator p db db₁ e₁ in
      lift_elim (normalized_reason reason) db₁ _ h₁ λ s e₂ h₂.
        continue_elim (case_of case_id db₁) (λ c. f s c) h₂
          λ c db₂ e₃ h₃.
            let (found, same₂) = case_of-found case_id c db₁ db₂ e₃ in
            k s c m (subst (λ d. get_case case_id d ≡ some c) (sym same) found)
              (subst (λ d. f s c d ≡ ok r) (sym (same ∙ same₂)) h₃)

get_target-found :
    (t : TargetType) (id : ℕ) (m : ModerationTarget) (db : Tables)
    → get_target t id db ≡ some m
    → status_of t id db ≡ some m.status
unfolding get_target
get_target-found t id m db h = elim (Option-cases (status_of t id db)) [
  | inl e ↦ ground arith
  | inr (s, e) ↦ ground arith
]

-- A statement that has changed a row goes on to the rest of the call.
changed_elim {κ} :
    {P : Type κ} (x : Option TargetStatus × Tables)
    (f : TargetStatus → Tables → Result Error (ModerationCase × Tables))
    {r : ModerationCase × Tables}
    → (elim x.0 [ none ↦ err invalid_moderation_transition | some s ↦ f s x.1 ]) ≡ ok r
    → ((s : TargetStatus) (changed : Tables) → x ≡ (some s, changed) → f s changed ≡ ok r → P)
    → P
changed_elim (none, db) f h k = cc
changed_elim (some s, db) f h k = k s db refl h

act_on-lem :
    (env : Services) (p : AuthPrincipal) (c : ModerationCase) (before : TargetStatus)
    (action : ModerationAction) (reason : String) (request_id now : ℕ) (r : ModerationCase)
    (db db' : Tables)
    → act_on env p c before action reason request_id now db ≡ ok (r, db')
    → (after : TargetStatus) × (changed : Tables) × (apply_target_action c.target_type c.target_id
          action reason now db
        ≡ (some after, changed))
      × ((x : ModerationCase) × (d : Tables) × (record_case_action env c p.user_id action reason now
              changed
            ≡ ok (x, d)))
      × CaseUpdated c (actioned_case p.user_id reason now) r changed db'
unfolding act_on
act_on-lem env p c before action reason request_id now r db db' h =
    changed_elim (apply_target_action c.target_type c.target_id action reason now db)
      (λ after db₁. continue (record_case_action env c p.user_id action reason now db₁) (λ updated.
        record_audit env (acted_event p c before after action reason request_id) >> pure updated))
      h
      λ after db₁ e h₁.
        continue_elim (record_case_action env c p.user_id action reason now db₁) _ h₁ λ x db₂ e₂ h₂.
          continue_elim
            (record_audit env (acted_event p c before after action reason request_id) db₂) _ h₂
            λ u db₃ e₃ h₃.
              let (same, last) = ok_eq h₃ in
              (
                after,
                db₁,
                e,
                (x, db₂, e₂),
                subst (λ y. CaseUpdated c (actioned_case p.user_id reason now) y db₁ db') same
                    (CaseUpdated-around (Same-here db₁ db₁ refl)
                      (record_case_action-CaseUpdated env c p.user_id action reason now x db₁ db₂
                        e₂)
                      (Same-trans
                        (record_audit-Same env
                          (acted_event p c before after action reason request_id) db₂ db₃ e₃)
                        (Same-here db₃ db' last))),
              )

pub act-ActedOn :
    (env : Services) (p : AuthPrincipal) (case_id : ℕ) (action : ModerationAction) (reason : String)
    (request_id now : ℕ) (r : ModerationCase) (db db' : Tables)
    → act env p case_id action reason request_id now db ≡ ok (r, db')
    → ActedOn env p case_id action now r db db'
unfolding act
act-ActedOn env p case_id action reason request_id now r db db' h =
    opening_elim p reason case_id db _ h λ s c m found h₁.
      or_raise_elim (get_target c.target_type c.target_id db) not_found db _ h₁ λ t e₂ h₂.
        raise_if_elim (not (allows (case_capabilities c.status t.status) action))
          invalid_moderation_transition db _ h₂
          λ e₃ h₃.
            let (after, changed, applied, recorded, updated) =
              act_on-lem env p c t.status action s request_id now r db db' h₃ in
            record {
              reason = s;
              found_case = c;
              before = t.status;
              after = after;
              changed = changed;
              moderator = m;
              found = found;
              target = get_target-found c.target_type c.target_id t db e₂;
              allowed = ground arith;
              applied = applied;
              recorded = recorded;
              updated = updated;
            }

-- What a call of `transition_case` has done.
pub record Worked (p : AuthPrincipal) (case_id : ℕ) (action : CaseWorkflowAction) (now : ℕ)
    (r : ModerationCase) (db db' : Tables) : Type 0 where
  pub reason : String
  pub found_case : ModerationCase
  pub moderator : Moderator p db
  pub found : get_case case_id db ≡ some found_case
  pub allowed : may_work action found_case.status ≡ true
  pub updated : CaseUpdated found_case (worked_case p.user_id action reason now) r db db'

pub transition_case-Worked :
    (env : Services) (p : AuthPrincipal) (case_id : ℕ) (action : CaseWorkflowAction)
    (reason : String) (request_id now : ℕ) (r : ModerationCase) (db db' : Tables)
    → transition_case env p case_id action reason request_id now db ≡ ok (r, db')
    → Worked p case_id action now r db db'
unfolding transition_case
transition_case-Worked env p case_id action reason request_id now r db db' h =
    opening_elim p reason case_id db _ h λ s c m found h₁.
      raise_if_elim (not (may_work action c.status)) invalid_moderation_transition db _ h₁ λ e₁ h₂.
        or_raise_elim (get_target c.target_type c.target_id db) not_found db _ h₂ λ t e₂ h₃.
          continue_elim (record_case_workflow env c p.user_id action s now db) _ h₃ λ x db₁ e₄ h₄.
            continue_elim (record_audit env (worked_event p c x action s request_id) db₁) _ h₄
              λ u db₂ e₅ h₅.
                let (same, last) = ok_eq h₅ in
                record {
                  reason = s;
                  found_case = c;
                  moderator = m;
                  found = found;
                  allowed = ground arith;
                  updated =
                      subst (λ y. CaseUpdated c (worked_case p.user_id action s now) y db db') same
                        (CaseUpdated-around (Same-here db db refl)
                          (record_case_workflow-CaseUpdated env c p.user_id action s now x db db₁
                            e₄)
                          (Same-trans
                            (record_audit-Same env (worked_event p c x action s request_id) db₁ db₂
                              e₅)
                            (Same-here db₂ db' last)));
                }
