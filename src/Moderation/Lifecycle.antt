-- ===== src/Moderation/Lifecycle.antt =====
-- The life of a case under any sequence of requests to the moderation
-- (apps/api/src/talaqi/moderation/service.py), and the columns that go with its status, which
-- ck_moderation_resolution_shape of database/migrations/assets/0001_closed_beta_baseline.sql asks for.
pub mod Shapes
pub mod Rows
use community_platform.Base.{
  ℕ, ◌≡◌, refl, sym, ◌∙◌, ap, subst, Bool, true, ◌&&◌, Option, none, some, List, [], ◌∷◌, ◌++◌,
  String, update_where, ◌==◌, is_some, is_none, arith, if◌then◌else◌,
}
use community_platform.Authorization.{AuthPrincipal}
use community_platform.Moderation.{
  CaseStatus, open_case, investigating, actioned, dismissed, ModerationAction, CaseWorkflowAction,
  acknowledge, dismiss, ModerationCase, TargetStatus, Tables, Services,
}
use community_platform.Moderation.Repository.Cases.{
  case_status_code, is_unmoved, actioned_case, worked_case, workflow_status,
}
use community_platform.Moderation.Repository.{or_else}
use community_platform.Moderation.Service.{
  submit_report, case_capabilities, allows, act, may_work, transition_case,
}
use community_platform.Moderation.Calls.{
  Reported, ActedOn, Worked, act-ActedOn, transition_case-Worked,
}
use community_platform.Moderation.Calls.Reports.{submit_report-Reported}
use community_platform.Moderation.Effects.Aside.{apply_target_action-cases}
use community_platform.Moderation.Requests.{
  Request, reports, acts, transitions, handle, committed_induction,
}

-- The edges between the statuses of a case.
pub data CaseEdge : CaseStatus → CaseStatus → Type 0 where
  acknowledges : CaseEdge open_case investigating
  drops : CaseEdge open_case dismissed
  dismisses : CaseEdge investigating dismissed
  acts_at_once : CaseEdge open_case actioned
  acts_on : CaseEdge investigating actioned
  acts_again : CaseEdge actioned actioned

pub data Leads (s : CaseStatus) : CaseStatus → Type 0 where
  here : Leads s s
  next : {t u : CaseStatus} → Leads s t → CaseEdge t u → Leads s u

-- The columns of a case that go with its status: who took it and when, and how it ended.
unfoldable pub is_shaped : ModerationCase → Bool
is_shaped c = elim c.status [
  | open_case ↦
      is_none c.assigned_admin_user_id
      && is_none c.acknowledged_at
      && is_none c.resolution_reason
      && is_none c.resolved_at
  | investigating ↦
      is_some c.assigned_admin_user_id
      && is_some c.acknowledged_at
      && is_none c.resolution_reason
      && is_none c.resolved_at
  | _ ↦
      is_some c.assigned_admin_user_id
      && is_some c.acknowledged_at
      && is_some c.resolution_reason
      && is_some c.resolved_at
]

-- What never changes of a case.
pub record Kept (x y : ModerationCase) : Type 0 where
  pub id : y.id ≡ x.id
  pub reporter : y.reporter_user_id ≡ x.reporter_user_id
  pub target_type : y.target_type ≡ x.target_type
  pub target_id : y.target_id ≡ x.target_id
  pub category : y.category ≡ x.category
  pub description : y.description ≡ x.description
  pub priority : y.priority ≡ x.priority
  pub created_at : y.created_at ≡ x.created_at

-- One step of a row.
pub record Advance (x y : ModerationCase) : Type 0 where
  pub kept : Kept x y
  pub edge : CaseEdge x.status y.status
  pub shaped : is_shaped y ≡ true

-- One step of the table.
data Step (cs cs' : List ModerationCase) : Type 0 where
  stays : cs' ≡ cs → Step cs cs'
  files : (c : ModerationCase) → is_shaped c ≡ true → cs' ≡ cs ++ c ∷ [] → Step cs cs'
  moves :
      (p : ModerationCase → Bool) (f : ModerationCase → ModerationCase)
      → ((x : ModerationCase) → (f x).id ≡ x.id)
      → ((x : ModerationCase) → p x ≡ true → Advance x (f x))
      → cs' ≡ update_where p f cs
      → Step cs cs'

unmoved_status : (c x : ModerationCase) → is_unmoved c x ≡ true → x.status ≡ c.status
unfolding case_status_code
unmoved_status c x h = ground arith

act_edge :
    (s : CaseStatus) (t : TargetStatus) (action : ModerationAction)
    → allows (case_capabilities s t) action ≡ true
    → CaseEdge s actioned
unfolding case_capabilities
act_edge open_case t action h = acts_at_once
act_edge investigating t action h = acts_on
act_edge actioned t action h = acts_again
act_edge dismissed t action h = cc

work_edge :
    (action : CaseWorkflowAction) (s : CaseStatus)
    → may_work action s ≡ true
    → CaseEdge s (workflow_status action)
unfolding may_work
work_edge acknowledge open_case h = acknowledges
work_edge acknowledge investigating h = cc
work_edge acknowledge actioned h = cc
work_edge acknowledge dismissed h = cc
work_edge dismiss open_case h = drops
work_edge dismiss investigating h = dismisses
work_edge dismiss actioned h = cc
work_edge dismiss dismissed h = cc

is_some-or_else : (o : Option ℕ) (now : ℕ) → is_some (or_else o now) ≡ true
is_some-or_else none now = refl
is_some-or_else (some t) now = refl

actioned_shaped :
    (actor : ℕ) (reason : String) (now : ℕ) (x : ModerationCase)
    → is_shaped (actioned_case actor reason now x) ≡ true
unfolding is_shaped
actioned_shaped actor reason now x = rw (is_some-or_else x.acknowledged_at now) refl

worked_shaped :
    (actor : ℕ) (action : CaseWorkflowAction) (reason : String) (now : ℕ) (x : ModerationCase)
    → is_shaped (worked_case actor action reason now x) ≡ true
unfolding is_shaped
worked_shaped actor acknowledge reason now x = rw (is_some-or_else x.acknowledged_at now) refl
worked_shaped actor dismiss reason now x = rw (is_some-or_else x.acknowledged_at now) refl

Kept-same : (x : ModerationCase) → Kept x x
Kept-same x = record {
  id = refl;
  reporter = refl;
  target_type = refl;
  target_id = refl;
  category = refl;
  description = refl;
  priority = refl;
  created_at = refl;
}

actioned_case-Kept :
    (actor : ℕ) (reason : String) (now : ℕ) (x : ModerationCase)
    → Kept x (actioned_case actor reason now x)
actioned_case-Kept actor reason now x = record {
  id = refl;
  reporter = refl;
  target_type = refl;
  target_id = refl;
  category = refl;
  description = refl;
  priority = refl;
  created_at = refl;
}

worked_case-Kept :
    (actor : ℕ) (action : CaseWorkflowAction) (reason : String) (now : ℕ) (x : ModerationCase)
    → Kept x (worked_case actor action reason now x)
worked_case-Kept actor action reason now x = record {
  id = refl;
  reporter = refl;
  target_type = refl;
  target_id = refl;
  category = refl;
  description = refl;
  priority = refl;
  created_at = refl;
}

ActedOn-Step :
    {env : Services} {p : AuthPrincipal} {case_id now : ℕ} {action : ModerationAction}
    {r : ModerationCase} {db db' : Tables}
    → ActedOn env p case_id action now r db db'
    → Step db.cases db'.cases
ActedOn-Step {p} {now} {action} {db} a =
    let c = a.found_case in
    moves (is_unmoved c) (actioned_case p.user_id a.reason now) (λ x. refl)
      (λ x h. record {
        kept = actioned_case-Kept p.user_id a.reason now x;
        edge =
            subst (λ s. CaseEdge s actioned) (sym (unmoved_status c x h))
              (act_edge c.status a.before action a.allowed);
        shaped = actioned_shaped p.user_id a.reason now x;
      })
      (a.updated.cases
        ∙ ap (update_where (is_unmoved c) (actioned_case p.user_id a.reason now)) (
            ap (λ z. z.1.cases) (sym a.applied)
            ∙ apply_target_action-cases c.target_type c.target_id action a.reason now db))

Worked-Step :
    {p : AuthPrincipal} {case_id now : ℕ} {action : CaseWorkflowAction} {r : ModerationCase}
    {db db' : Tables}
    → Worked p case_id action now r db db'
    → Step db.cases db'.cases
Worked-Step {p} {now} {action} a =
    let c = a.found_case in
    moves (is_unmoved c) (worked_case p.user_id action a.reason now) (λ x. refl)
      (λ x h. record {
        kept = worked_case-Kept p.user_id action a.reason now x;
        edge =
            subst (λ s. CaseEdge s (workflow_status action)) (sym (unmoved_status c x h))
              (work_edge action c.status a.allowed);
        shaped = worked_shaped p.user_id action a.reason now x;
      })
      a.updated.cases

Reported-shaped : {c : ModerationCase} {db db' : Tables} → Reported c db db' → is_shaped c ≡ true
unfolding is_shaped
Reported-shaped {c} r =
    rw (r.is_open, r.unassigned, r.unacknowledged, r.unresolved.0, r.unresolved.1) refl

handle-Step : (env : Services) (r : Request) (db : Tables) → Step db.cases (handle env r db).cases
unfolding handle
handle-Step env (reports p t id category description request now) db =
    committed_induction (λ d. Step db.cases d.cases) db
      (submit_report env p t id category description request now db) (stays refl)
      λ a db' h.
        let (c, made) =
          submit_report-Reported env p t id category description request now a db db' h in
        files c (Reported-shaped made) made.cases
handle-Step env (acts p case_id action reason request now) db =
    committed_induction (λ d. Step db.cases d.cases) db
      (act env p case_id action reason request now db) (stays refl)
      λ a db' h. ActedOn-Step (act-ActedOn env p case_id action reason request now a db db' h)
handle-Step env (transitions p case_id action reason request now) db =
    committed_induction (λ d. Step db.cases d.cases) db
      (transition_case env p case_id action reason request now db) (stays refl)
      λ a db' h.
        Worked-Step (transition_case-Worked env p case_id action reason request now a db db' h)
