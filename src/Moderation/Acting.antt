-- ===== src/Moderation/Acting.antt =====
-- What `act` of apps/api/src/talaqi/moderation/service.py has done when it returns.
use community_platform.Base.{
  find?-update_where, map_option, some_injective, ℕ, ◌≡◌, refl, sym, ◌∙◌, ap, subst, true, some,
  List, [], ◌∷◌, String, any, find?, find?-holds, update_where, ◌==◌, arith, ok, Option-cases, inl,
  inr, if◌then◌else◌,
}
use community_platform.Authorization.{AuthPrincipal}
use community_platform.Moderation.{
  TargetType, user, club, event, CaseStatus, open_case, investigating, actioned, dismissed,
  ModerationAction, suspend, unpublish, restore, ModerationCase, TargetStatus, of_user, of_club,
  of_event, Tables, Services,
}
use community_platform.Moderation.Repository.{is_case, get_case, status_of}
use community_platform.Moderation.Repository.Cases.{case_status_code, is_unmoved, actioned_case}
use community_platform.Moderation.Repository.Targets.{apply_target_action}
use community_platform.Moderation.Service.{
  case_capabilities, capabilities, only_restore, allows, act,
}
use community_platform.Moderation.Effects.Aside.{apply_target_action-cases}
use community_platform.Moderation.Effects.{Untouched, CaseUpdated}
use community_platform.Moderation.Calls.{Moderator, act-ActedOn}
use community_platform.Moderation.Targets.{
  Change, takes_down, suspends_user, restores_user, suspends_club, unpublishes_club, restores_club,
  republishes_club, suspends_event, restores_event, Effect, concerns,
}
use community_platform.Moderation.Targets.Rows.{user-Effect, club-Effect, event-Effect}

target-Effect :
    (t : TargetType) (id : ℕ) (action : ModerationAction) (reason : String) (now : ℕ)
    (before : TargetStatus) (db changed : Tables) (after : TargetStatus)
    → status_of t id db ≡ some before
    → allows (capabilities before) action ≡ true
    → apply_target_action t id action reason now db ≡ (some after, changed)
    → Effect t id action before db changed
unfolding status_of
target-Effect user id action reason now before db changed after found allowed h =
    elim (Option-cases (find? (λ x. x.id == id) db.users)) [
      | inl e ↦ ground arith
      | inr (u, e) ↦
          let same : of_user u.status ≡ before = ground arith in
          subst (λ s. Effect user id action s db changed) same
            (user-Effect id action reason now u db changed after e
              (subst (λ s. allows (capabilities s) action ≡ true) (sym same) allowed) h)
    ]
target-Effect club id action reason now before db changed after found allowed h =
    elim (Option-cases (find? (λ x. x.id == id) db.clubs)) [
      | inl e ↦ ground arith
      | inr (u, e) ↦
          let same : of_club u.status ≡ before = ground arith in
          subst (λ s. Effect club id action s db changed) same
            (club-Effect id action reason now u db changed after e
              (subst (λ s. allows (capabilities s) action ≡ true) (sym same) allowed) h)
    ]
target-Effect event id action reason now before db changed after found allowed h =
    elim (Option-cases (find? (λ x. x.id == id) db.events)) [
      | inl e ↦ ground arith
      | inr (u, e) ↦
          let same : of_event u.status ≡ before = ground arith in
          subst (λ s. Effect event id action s db changed) same
            (event-Effect id action reason now u db changed after e
              (subst (λ s. allows (capabilities s) action ≡ true) (sym same) allowed) h)
    ]

status_of-Untouched :
    (t : TargetType) (id : ℕ) (db db' : Tables)
    → Untouched db db'
    → status_of t id db' ≡ status_of t id db
unfolding status_of
status_of-Untouched user id db db' s = rw (status_of, s.users) refl
status_of-Untouched club id db db' s = rw (status_of, s.clubs) refl
status_of-Untouched event id db db' s = rw (status_of, s.events) refl

Effect-after :
    {t : TargetType} {id : ℕ} {action : ModerationAction} {before : TargetStatus}
    {db db₁ db' : Tables}
    → Effect t id action before db db₁
    → Untouched db₁ db'
    → Effect t id action before db db'
Effect-after {t} {id} {db} {db₁} {db'} e s = record {
  after = e.after;
  change = e.change;
  found = status_of-Untouched t id db₁ db' s ∙ e.found;
  withdrawn = λ h.
      ap (λ es. any (concerns t id es) db'.invites) s.events
      ∙ ap (any (concerns t id db₁.events)) s.invites
      ∙ e.withdrawn h;
  others = λ k ne. status_of-Untouched t k db₁ db' s ∙ e.others k ne;
}

allows-only_restore :
    (xs : List ModerationAction) (action : ModerationAction)
    → allows (only_restore xs) action ≡ true
    → (allows xs action ≡ true) × (action ≡ restore)
unfolding only_restore
allows-only_restore [] action h = cc
allows-only_restore (suspend ∷ xs) action h =
    let (rest, same) = allows-only_restore xs action h in (ground arith, same)
allows-only_restore (unpublish ∷ xs) action h =
    let (rest, same) = allows-only_restore xs action h in (ground arith, same)
allows-only_restore (restore ∷ xs) suspend h =
    let (rest, same) = allows-only_restore xs suspend h in (rest, same)
allows-only_restore (restore ∷ xs) unpublish h =
    let (rest, same) = allows-only_restore xs unpublish h in (rest, same)
allows-only_restore (restore ∷ xs) restore h = (refl, refl)

-- Which cases an action may be taken in.
pub data Permits (action : ModerationAction) : CaseStatus → Type 0 where
  in_open : Permits action open_case
  in_investigation : Permits action investigating
  again : action ≡ restore → Permits action actioned

case_capabilities-Permits :
    (s : CaseStatus) (t : TargetStatus) (action : ModerationAction)
    → allows (case_capabilities s t) action ≡ true
    → (allows (capabilities t) action ≡ true) × Permits action s
unfolding case_capabilities
case_capabilities-Permits open_case t action h = (h, in_open)
case_capabilities-Permits investigating t action h = (h, in_investigation)
case_capabilities-Permits actioned t action h =
    let (allowed, same) = allows-only_restore (capabilities t) action h in (allowed, again same)
case_capabilities-Permits dismissed t action h = cc

-- What an action that returned was taken by and in, and what it did.
pub record Acted (p : AuthPrincipal) (case_id : ℕ) (action : ModerationAction) (now : ℕ)
    (r : ModerationCase) (db db' : Tables) : Type 0 where
  pub found_case : ModerationCase
  pub before : TargetStatus
  pub moderator : Moderator p db
  pub found : get_case case_id db ≡ some found_case
  pub permits : Permits action found_case.status
  pub target : status_of found_case.target_type found_case.target_id db ≡ some before
  pub effect : Effect found_case.target_type found_case.target_id action before db db'
  pub answered : get_case case_id db' ≡ some r
  pub ended : (reason : String) × (r ≡ actioned_case p.user_id reason now found_case)

is_unmoved_self : (c : ModerationCase) → is_unmoved c c ≡ true
unfolding case_status_code
is_unmoved_self c = ground arith

updated_case :
    (c r : ModerationCase) (case_id : ℕ) (f : ModerationCase → ModerationCase)
    (db changed db' : Tables)
    → ((x : ModerationCase) → (f x).id ≡ x.id)
    → get_case case_id db ≡ some c
    → changed.cases ≡ db.cases
    → CaseUpdated c f r changed db'
    → (get_case case_id db' ≡ some r) × (r ≡ f c)
unfolding get_case
updated_case c r case_id f db changed db' i found same u =
    let key : (c.id == case_id) ≡ true = find?-holds (is_case case_id) db.cases c found in
    let keyed : c.id ≡ case_id = ground arith in
    let lookup : find? (is_case c.id) db'.cases ≡ some (f c) =
      ap (find? (is_case c.id)) (u.cases ∙ ap (update_where (is_unmoved c) f) same)
      ∙ find?-update_where (is_case c.id) (is_unmoved c) f db.cases (λ z. ap (λ n. n == c.id) (i z))
      ∙ ap (map_option (λ z. if is_unmoved c z then f z else z))
          (subst (λ n. find? (is_case n) db.cases ≡ some c) (sym keyed) found)
      ∙ ap (λ b. some (if b then f c else c)) (is_unmoved_self c) in
    (
      subst (λ n. find? (is_case n) db'.cases ≡ some r) keyed u.found,
      some_injective (sym u.found ∙ lookup),
    )

-- An action that returns was asked for by an active administrator of the platform with a second
-- factor, in a case that was open, under investigation, or, for a restoration, actioned before. Its
-- target has gone from the status that the action starts from to the one that it ends in, and every
-- other target of the same type has the status that it had. After a suspension or an unpublication
-- every invite to the event, or to the events of the club, is revoked. The case is actioned by this
-- administrator, which is what the call answers.
pub act-Acted :
    (env : Services) (p : AuthPrincipal) (case_id : ℕ) (action : ModerationAction) (reason : String)
    (request_id now : ℕ) (r : ModerationCase) (db db' : Tables)
    → act env p case_id action reason request_id now db ≡ ok (r, db')
    → Acted p case_id action now r db db'
act-Acted env p case_id action reason request_id now r db db' h =
    let a = act-ActedOn env p case_id action reason request_id now r db db' h in
    let c = a.found_case in
    let (allowed, permits) = case_capabilities-Permits c.status a.before action a.allowed in
    let cases : a.changed.cases ≡ db.cases =
      ap (λ z. z.1.cases) (sym a.applied)
      ∙ apply_target_action-cases c.target_type c.target_id action a.reason now db in
    let (answered, ended) =
      updated_case c r case_id (actioned_case p.user_id a.reason now) db a.changed db' (λ x. refl)
        a.found cases a.updated in
    record {
      found_case = c;
      before = a.before;
      moderator = a.moderator;
      found = a.found;
      permits = permits;
      target = a.target;
      effect =
          Effect-after
            (target-Effect c.target_type c.target_id action a.reason now a.before db a.changed
              a.after a.target allowed a.applied)
            a.updated.untouched;
      answered = answered;
      ended = (a.reason, ended);
    }

undone :
    {action : ModerationAction} {s t u : TargetStatus}
    → takes_down action ≡ true
    → Change action s t
    → Change restore t u
    → u ≡ s
undone h suspends_user restores_user = refl
undone h suspends_club restores_club = refl
undone h unpublishes_club republishes_club = refl
undone h suspends_event restores_event = refl
undone h restores_user c = elim c [ ]
undone h restores_club c = elim c [ ]
undone h republishes_club c = elim c [ ]
undone h restores_event c = elim c [ ]

-- A restoration in the case in which a target was suspended or unpublished brings back the status that
-- the target had before, where nothing comes between the two actions.
pub act-restored :
    (env : Services) (p q : AuthPrincipal) (case_id : ℕ) (action : ModerationAction)
    (reason because : String) (request_id second_id now later : ℕ) (c r s : ModerationCase)
    (db db₁ db₂ : Tables)
    → takes_down action ≡ true
    → get_case case_id db ≡ some c
    → act env p case_id action reason request_id now db ≡ ok (r, db₁)
    → act env q case_id restore because second_id later db₁ ≡ ok (s, db₂)
    → status_of c.target_type c.target_id db₂ ≡ status_of c.target_type c.target_id db
act-restored env p q case_id action reason because request_id second_id now later c r s db db₁ db₂
      down found h k =
    let a = act-Acted env p case_id action reason request_id now r db db₁ h in
    let b = act-Acted env q case_id restore because second_id later s db₁ db₂ k in
    let same : a.found_case ≡ c = some_injective (sym a.found ∙ found) in
    let (text, ended) = a.ended in
    let next : b.found_case ≡ actioned_case p.user_id text now a.found_case =
      some_injective (sym b.found ∙ a.answered) ∙ ended in
    let target : status_of a.found_case.target_type a.found_case.target_id db₁ ≡ some b.before =
      subst (λ x. status_of x.target_type x.target_id db₁ ≡ some b.before) next b.target in
    let between : b.before ≡ a.effect.after = some_injective (sym target ∙ a.effect.found) in
    let back : b.effect.after ≡ a.before =
      undone down a.effect.change
        (subst (λ x. Change restore x b.effect.after) between b.effect.change) in
    subst (λ x. status_of x.target_type x.target_id db₂ ≡ status_of x.target_type x.target_id db)
      same
      (subst (λ x. status_of x.target_type x.target_id db₂ ≡ some b.effect.after) next
          b.effect.found
        ∙ ap some back
        ∙ sym a.target)
