-- ===== src/Moderation/Calls/Reports.antt =====
-- What `submit_report` of apps/api/src/talaqi/moderation/service.py does, when it returns.
use community_platform.Base.{
  ℕ, suc, ◌≡◌, refl, ◌∙◌, ◌&&◌, not, String, ◌==◌, ok, continue_elim, raise_if_elim, or_raise_elim,
  or_raise_last, lift_elim, ok_eq, strip,
}
use community_platform.Errors.{row_lost, not_found, invalid_report, invalid_report_target}
use community_platform.Authorization.{AuthPrincipal}
use community_platform.Moderation.{TargetType, Priority, ModerationCase, Tables, Services}
use community_platform.Moderation.Repository.{
  new_uuid, record_audit, get_case, insert_case, insert_case_event, reported_case, report_event,
  create_report, get_target,
}
use community_platform.Moderation.Service.{
  require_reports, is_report, report_priority, is_user, submit_report,
}
use community_platform.Moderation.AuditEvents.{reported_event}
use community_platform.Moderation.Effects.{
  Same, Same-trans, Same-here, recorded-Same, record_audit-Same, Untouched-trans, insert_case-added,
}
use community_platform.Moderation.Calls.{Reported}

create_report-Reported :
    (env : Services) (reporter : ℕ) (t : TargetType) (id : ℕ) (category description : String)
    (priority : Priority) (now : ℕ) (r : ModerationCase) (db db' : Tables)
    → create_report env reporter t id category description priority now db ≡ ok (r, db')
    → (case_id : ℕ) × Reported
        (reported_case case_id reporter t id category description priority now)
        db
        db'
unfolding create_report new_uuid
create_report-Reported env reporter t id category description priority now r db db' h =
    let case_id = env.new_id db.generated in
    let c = reported_case case_id reporter t id category description priority now in
    let db₀ : Tables = record db { generated = suc db.generated } in
    continue_elim (insert_case c db₀) _ h λ u db₁ e₁ h₁.
      continue_elim
        (insert_case_event (report_event (env.new_id db₁.generated) case_id now)
          (record db₁ { generated = suc db₁.generated }))
        _ h₁
        λ u₂ db₂ e₂ h₂.
          let (new, cases, kept) = insert_case-added c db₀ db₁ e₁ in
          let (found, last) = or_raise_last (get_case case_id db₂) row_lost db₂ h₂ in
          let s =
            Same-trans (recorded-Same env (λ i. report_event i case_id now) db₁ db₂ e₂)
              (Same-here db₂ db' last) in
          (
            case_id,
            record {
              new = new;
              cases = s.cases ∙ cases;
              is_open = refl;
              unassigned = refl;
              unresolved = (refl, refl);
              unacknowledged = refl;
              untouched = record {
                users = s.untouched.users ∙ kept.users;
                clubs = s.untouched.clubs ∙ kept.clubs;
                events = s.untouched.events ∙ kept.events;
                invites = s.untouched.invites ∙ kept.invites;
              };
            },
          )

pub Reported-after :
    {c : ModerationCase} {db db₁ db₂ : Tables}
    → Reported c db db₁
    → Same db₁ db₂
    → Reported c db db₂
Reported-after r s = record {
  new = r.new;
  cases = s.cases ∙ r.cases;
  is_open = r.is_open;
  unassigned = r.unassigned;
  unresolved = r.unresolved;
  unacknowledged = r.unacknowledged;
  untouched = Untouched-trans r.untouched s.untouched;
}

pub submit_report-Reported :
    (env : Services) (p : AuthPrincipal) (t : TargetType) (id : ℕ) (category description : String)
    (request_id now : ℕ) (r : ModerationCase) (db db' : Tables)
    → submit_report env p t id category description request_id now db ≡ ok (r, db')
    → (c : ModerationCase) × Reported c db db'
unfolding submit_report
submit_report-Reported env p t id category description request_id now r db db' h =
    lift_elim (require_reports env.require_enabled) db _ h λ u e h₁.
      raise_if_elim (not (is_report category (strip description))) invalid_report db _ h₁ λ e₁ h₂.
        or_raise_elim (get_target t id db) not_found db _ h₂ λ m e₂ h₃.
          raise_if_elim (is_user t && id == p.user_id) invalid_report_target db _ h₃ λ e₃ h₄.
            continue_elim
              (create_report env p.user_id t id category (strip description)
                (report_priority category) now db)
              _ h₄
              λ c db₁ e₄ h₅.
                continue_elim
                  (record_audit env
                    (reported_event p t id c category (report_priority category) request_id) db₁)
                  _ h₅
                  λ u₂ db₂ e₅ h₆.
                    let (case_id, made) =
                      create_report-Reported env p.user_id t id category (strip description)
                        (report_priority category) now c db db₁ e₄ in
                    (
                      _,
                      Reported-after made (
                          Same-trans
                            (record_audit-Same env
                              (reported_event p t id c category (report_priority category)
                                request_id)
                              db₁ db₂ e₅)
                            (Same-here db₂ db' (ok_eq h₆).1)),
                    )
