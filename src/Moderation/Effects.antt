-- ===== src/Moderation/Effects.antt =====
-- What the statements and calls of the moderation do to the table of the cases and to the targets.
pub mod Aside
use community_platform.Base.{
  refl, ℕ, ◌≡◌, subst, not, some, any, find?, update_where, arith, ok, raise_if_elim, or_raise_last,
  ◌∙◌, ap, Bool-cases, false, continue, sym, ◌++◌, ◌==◌, suc, String, inl, ◌∷◌, continue_elim, inr,
  [], ok_eq,
}
use community_platform.Errors.{row_lost}
use community_platform.Audit.{AuditEvent}
use community_platform.Outbox.Enqueue.{NewEvent}
use community_platform.Moderation.{
  TargetType, ModerationAction, ModerationCase, Tables, Services, ModerationCaseEvent,
  CaseWorkflowAction,
}
use community_platform.Moderation.Repository.{
  publish, record_audit, is_case, get_case, insert_case, insert_case_event, new_uuid,
}
use community_platform.Moderation.Repository.Cases.{
  is_unmoved, update_case, announce_action, record_case_workflow, record_case_action, actioned_case,
  worked_case, action_event, workflow_event,
}

-- The targets and their invites are left alone.
pub record Untouched (db db' : Tables) : Type 0 where
  pub users : db'.users ≡ db.users
  pub clubs : db'.clubs ≡ db.clubs
  pub events : db'.events ≡ db.events
  pub invites : db'.invites ≡ db.invites

-- So are the cases.
pub record Same (db db' : Tables) : Type 0 where
  pub cases : db'.cases ≡ db.cases
  pub untouched : Untouched db db'

pub publish-Same :
    (env : Services) (n : NewEvent) (db db' : Tables)
    → publish env n db ≡ ok (tt, db')
    → Same db db'
unfolding publish
publish-Same env n db db' h = ground arith

pub record_audit-Same :
    (env : Services) (e : ℕ → AuditEvent) (db db' : Tables)
    → record_audit env e db ≡ ok (tt, db')
    → Same db db'
unfolding record_audit
record_audit-Same env e db db' h = ground arith

pub announce_action-Same :
    (env : Services) (c : ModerationCase) (t : TargetType) (action : ModerationAction) (now : ℕ)
    (db db' : Tables)
    → c.target_type ≡ t
    → announce_action env c action now db ≡ ok (tt, db')
    → Same db db'
unfolding announce_action
announce_action-Same env c t action now db db' e h = ground arith

-- What an update of a case does: the rows that have not moved change, and one of them is the answer.
pub record CaseUpdated (c : ModerationCase) (f : ModerationCase → ModerationCase)
    (r : ModerationCase) (db db' : Tables) : Type 0 where
  pub cases : db'.cases ≡ update_where (is_unmoved c) f db.cases
  pub found : find? (is_case c.id) db'.cases ≡ some r
  pub untouched : Untouched db db'

update_case-CaseUpdated :
    (c : ModerationCase) (f : ModerationCase → ModerationCase) (r : ModerationCase)
    (db db' : Tables)
    → update_case c f db ≡ ok (r, db')
    → CaseUpdated c f r db db'
unfolding update_case get_case
update_case-CaseUpdated c f r db db' h =
    raise_if_elim (not (any (is_unmoved c) db.cases)) row_lost db _ h λ e h₁.
      let (found, last) =
        or_raise_last (find? (is_case c.id) (update_where (is_unmoved c) f db.cases)) row_lost
          (record db { cases = update_where (is_unmoved c) f db.cases }) h₁ in
      record {
        cases = ground (arith, last);
        found = subst (λ d. find? (is_case c.id) d.cases ≡ some r) last found;
        untouched = record {
          users = ground (arith, last);
          clubs = ground (arith, last);
          events = ground (arith, last);
          invites = ground (arith, last);
        };
      }

insert_case_event-Same :
    (e : ModerationCaseEvent) (db db' : Tables)
    → insert_case_event e db ≡ ok (tt, db')
    → Same db db'
unfolding insert_case_event
insert_case_event-Same e db db' h = elim (Bool-cases (any (λ x. x.id == e.id) db.case_events)) [
  | inl k ↦ ground arith
  | inr k ↦ ground arith
]

pub insert_case-added :
    (c : ModerationCase) (db db' : Tables)
    → insert_case c db ≡ ok (tt, db')
    → (any (is_case c.id) db.cases ≡ false) × (db'.cases ≡ db.cases ++ c ∷ []) × Untouched db db'
unfolding insert_case
insert_case-added c db db' h = elim (Bool-cases (any (is_case c.id) db.cases)) [
  | inl k ↦ ground arith
  | inr k ↦ (k, ground arith, ground arith)
]

pub Untouched-trans :
    {db db₁ db₂ : Tables} → Untouched db db₁ → Untouched db₁ db₂ → Untouched db db₂
Untouched-trans s t = record {
  users = t.users ∙ s.users;
  clubs = t.clubs ∙ s.clubs;
  events = t.events ∙ s.events;
  invites = t.invites ∙ s.invites;
}

pub Same-trans : {db db₁ db₂ : Tables} → Same db db₁ → Same db₁ db₂ → Same db db₂
Same-trans s t = record {
  cases = t.cases ∙ s.cases;
  untouched = Untouched-trans s.untouched t.untouched;
}

-- An update that comes before or after statements that leave the cases alone.
pub CaseUpdated-around :
    {c r : ModerationCase} {f : ModerationCase → ModerationCase} {db db₁ db₂ db₃ : Tables}
    → Same db db₁
    → CaseUpdated c f r db₁ db₂
    → Same db₂ db₃
    → CaseUpdated c f r db db₃
CaseUpdated-around {c} {r} {f} s u t = record {
  cases = t.cases ∙ u.cases ∙ ap (update_where (is_unmoved c) f) s.cases;
  found = ap (find? (is_case c.id)) t.cases ∙ u.found;
  untouched = Untouched-trans s.untouched (Untouched-trans u.untouched t.untouched);
}

pub Same-here : (db db' : Tables) → db ≡ db' → Same db db'
Same-here db db' e = record {
  cases = ap (λ d. d.cases) (sym e);
  untouched = record {
    users = ap (λ d. d.users) (sym e);
    clubs = ap (λ d. d.clubs) (sym e);
    events = ap (λ d. d.events) (sym e);
    invites = ap (λ d. d.invites) (sym e);
  };
}

-- The insertion of an event of a case, under a new identifier.
pub recorded-Same :
    (env : Services) (e : ℕ → ModerationCaseEvent) (db db' : Tables)
    → insert_case_event (e (env.new_id db.generated)) (record db { generated = suc db.generated })
      ≡ ok (tt, db')
    → Same db db'
recorded-Same env e db db' h =
    let t =
      insert_case_event-Same (e (env.new_id db.generated))
        (record db { generated = suc db.generated }) db' h in
    record {
      cases = t.cases;
      untouched = record {
        users = t.untouched.users;
        clubs = t.untouched.clubs;
        events = t.untouched.events;
        invites = t.untouched.invites;
      };
    }

after_insert :
    {c r : ModerationCase} {f : ModerationCase → ModerationCase} (env : Services)
    (e : ℕ → ModerationCaseEvent) (db db' : Tables)
    → continue
        (insert_case_event
          (e (env.new_id db.generated))
          (record db { generated = suc db.generated }))
        (λ _. update_case c f)
      ≡ ok (r, db')
    → CaseUpdated c f r db db'
after_insert {c} {r} {f} env e db db' h =
    let db₀ : Tables = record db { generated = suc db.generated } in
    continue_elim (insert_case_event (e (env.new_id db.generated)) db₀) _ h λ u db₁ e₁ h₁.
      CaseUpdated-around (recorded-Same env e db db₁ e₁) (update_case-CaseUpdated c f r db₁ db' h₁)
        (Same-here db' db' refl)

pub record_case_workflow-CaseUpdated :
    (env : Services) (c : ModerationCase) (actor : ℕ) (action : CaseWorkflowAction)
    (reason : String) (now : ℕ) (r : ModerationCase) (db db' : Tables)
    → record_case_workflow env c actor action reason now db ≡ ok (r, db')
    → CaseUpdated c (worked_case actor action reason now) r db db'
unfolding record_case_workflow new_uuid
record_case_workflow-CaseUpdated env c actor action reason now r db db' h =
    after_insert env (λ id. workflow_event id c actor action reason now) db db' h

pub record_case_action-CaseUpdated :
    (env : Services) (c : ModerationCase) (actor : ℕ) (action : ModerationAction) (reason : String)
    (now : ℕ) (r : ModerationCase) (db db' : Tables)
    → record_case_action env c actor action reason now db ≡ ok (r, db')
    → CaseUpdated c (actioned_case actor reason now) r db db'
unfolding record_case_action new_uuid
record_case_action-CaseUpdated env c actor action reason now r db db' h =
    let db₀ : Tables = record db { generated = suc db.generated } in
    let id = env.new_id db.generated in
    continue_elim (insert_case_event (action_event id c actor action reason db.clock) db₀) _ h
      λ u db₁ e₁ h₁.
        continue_elim (update_case c (actioned_case actor reason now) db₁) _ h₁ λ x db₂ e₂ h₂.
          continue_elim (announce_action env c action now db₂) _ h₂ λ u₃ db₃ e₃ h₃.
            let (same, last) = ok_eq h₃ in
            subst (λ y. CaseUpdated c (actioned_case actor reason now) y db db') same
              (CaseUpdated-around
                (recorded-Same env (λ i. action_event i c actor action reason db.clock) db db₁ e₁)
                (update_case-CaseUpdated c (actioned_case actor reason now) x db₁ db₂ e₂)
                (Same-trans (announce_action-Same env c c.target_type action now db₂ db₃ refl e₃)
                  (Same-here db₃ db' last)))
