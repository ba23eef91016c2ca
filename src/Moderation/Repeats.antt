-- ===== src/Moderation/Repeats.antt =====
-- A second message about the same action in the same case: `act` of
-- apps/api/src/talaqi/moderation/service.py, `record_case_action` of moderation/repository.py and `enqueue`
-- of outbox/repository.py.
use community_platform.Base.{
  ◌≢◌, some_injective, ℕ, suc, ◌≡◌, sym, ◌∙◌, ap, subst, true, not, Option, some, List, [], ◌∷◌,
  String, any, find?, update_where, ◌==◌, arith, ok, continue_elim, raise_if_elim, or_raise_last,
  pure, Bool-cases, inl, inr,
}
use community_platform.Errors.{row_lost}
use community_platform.Audit.{uuid}
use community_platform.Authorization.{AuthPrincipal}
use community_platform.Moderation.{
  user, Transaction, ModerationAction, ModerationCase, ModerationCaseEvent, Tables, Services,
}
use community_platform.Moderation.Repository.{new_uuid, publish, get_case, insert_case_event}
use community_platform.Moderation.Repository.Cases.{
  is_unmoved, update_case, actioned_case, announce_action, action_key, action_event,
  record_case_action,
}
use community_platform.Moderation.Service.{act}
use community_platform.Outbox.{OutboxEvent, key_eq}
use community_platform.Outbox.Once.{enqueue-refused}
use community_platform.Outbox.Enqueue.{NewEvent, is_intended}
use community_platform.Moderation.Effects.Aside.{apply_target_action-outbox}
use community_platform.Moderation.Calls.{act-ActedOn}

-- The row of the outbox that stands under the key of an action in a case.
abbrev pub announced : ModerationAction → ModerationCase → List OutboxEvent → Option OutboxEvent
announced action c = find? (λ e. key_eq e.deduplication_key (action_key action c.id))

insert_case_event-outbox :
    (e : ModerationCaseEvent) (db db' : Tables)
    → insert_case_event e db ≡ ok (tt, db')
    → db'.outbox ≡ db.outbox
unfolding insert_case_event
insert_case_event-outbox e db db' h = elim (Bool-cases (any (λ x. x.id == e.id) db.case_events)) [
  | inl k ↦ ground arith
  | inr k ↦ ground arith
]

update_case-outbox :
    (c : ModerationCase) (f : ModerationCase → ModerationCase) (r : ModerationCase)
    (db db' : Tables)
    → update_case c f db ≡ ok (r, db')
    → db'.outbox ≡ db.outbox
unfolding update_case
update_case-outbox c f r db db' h =
    raise_if_elim (not (any (is_unmoved c) db.cases)) row_lost db _ h λ e h₁.
      let (found, last) =
        or_raise_last (get_case c.id (record db { cases = update_where (is_unmoved c) f db.cases }))
          row_lost (record db { cases = update_where (is_unmoved c) f db.cases }) h₁ in
      ap (λ d. d.outbox) (sym last)

-- The last part of `record_case_action` is the message.
record_case_action-announces :
    (env : Services) (c : ModerationCase) (actor : ℕ) (action : ModerationAction) (reason : String)
    (now : ℕ) (r : ModerationCase) (db db' : Tables)
    → record_case_action env c actor action reason now db ≡ ok (r, db')
    → (db₁ : Tables) × (db₂ : Tables) × (db₁.outbox ≡ db.outbox)
      × (announce_action env c action now db₁ ≡ ok (tt, db₂))
unfolding record_case_action new_uuid
record_case_action-announces env c actor action reason now r db db' h =
    let db₀ : Tables = record db { generated = suc db.generated } in
    let id = env.new_id db.generated in
    continue_elim (insert_case_event (action_event id c actor action reason db.clock) db₀) _ h
      λ u db₁ e₁ h₁.
        continue_elim (update_case c (actioned_case actor reason now) db₁) _ h₁ λ x db₂ e₂ h₂.
          continue_elim (announce_action env c action now db₂) _ h₂ λ u₃ db₃ e₃ h₃. (
            db₂,
            db₃,
            update_case-outbox c (actioned_case actor reason now) x db₁ db₂ e₂
                ∙ insert_case_event-outbox (action_event id c actor action reason db.clock) db₀ db₁
                    e₁,
            e₃,
          )

is_intended-available_at :
    (n : NewEvent) (e : OutboxEvent) → is_intended n e ≡ true → e.available_at ≡ n.available_at
unfolding is_intended
is_intended-available_at n e h = ground arith

publish-intended :
    (env : Services) (n : NewEvent) (e : OutboxEvent) (db db' : Tables)
    → find? (λ x. key_eq x.deduplication_key n.deduplication_key) db.outbox ≡ some e
    → publish env n db ≡ ok (tt, db')
    → e.available_at ≡ n.available_at
unfolding publish
publish-intended env n e db db' found h = elim (Bool-cases (is_intended n e)) [
  | inl k ↦ is_intended-available_at n e k
  | inr k ↦
      let refused = enqueue-refused (env.new_id db.generated) db.clock n e db.outbox found k in
      ground arith
]

announce_action-intended :
    (env : Services) (c : ModerationCase) (action : ModerationAction) (now : ℕ) (e : OutboxEvent)
    (db db' : Tables)
    → c.target_type ≡ user
    → announced action c db.outbox ≡ some e
    → announce_action env c action now db ≡ ok (tt, db')
    → e.available_at ≡ now
unfolding announce_action
announce_action-intended env c action now e db db' k found h =
    let n : NewEvent = record {
      aggregate_type = "moderation_case";
      aggregate_id = c.id;
      event_type = "moderation.action_taken";
      payload = ("recipient_user_id", uuid c.target_id) ∷ ("case_id", uuid c.id) ∷ [];
      deduplication_key = action_key action c.id;
      available_at = now;
    } in
    publish-intended env n e db db' found (
      subst
        (λ t.
          (elim t as (λ x. Transaction Unit) [ user ↦ publish env n | _ ↦ pure tt ]) db
          ≡ ok (tt, db'))
        k h)

-- An action on a user that was announced in the same case before, with another time, is always
-- refused: the message under its key is not the one that is meant, whatever the state of the user.
pub act-repeated :
    (env : Services) (p : AuthPrincipal) (case_id : ℕ) (action : ModerationAction) (reason : String)
    (request_id now : ℕ) (c : ModerationCase) (e : OutboxEvent) (r : ModerationCase)
    (db db' : Tables)
    → get_case case_id db ≡ some c
    → c.target_type ≡ user
    → announced action c db.outbox ≡ some e
    → e.available_at ≢ now
    → act env p case_id action reason request_id now db ≢ ok (r, db')
act-repeated env p case_id action reason request_id now c e r db db' found of found_event other h =
    let a = act-ActedOn env p case_id action reason request_id now r db db' h in
    let same : c ≡ a.found_case = some_injective (sym found ∙ a.found) in
    let (x, d, recorded) = a.recorded in
    let (db₁, db₂, outbox, message) =
      record_case_action-announces env a.found_case p.user_id action a.reason now x a.changed d
        recorded in
    let kept : db₁.outbox ≡ db.outbox =
      outbox
      ∙ ap (λ z. z.1.outbox) (sym a.applied)
      ∙ apply_target_action-outbox a.found_case.target_type a.found_case.target_id action a.reason
          now db in
    other (
      announce_action-intended env a.found_case action now e db₁ db₂
        (subst (λ y. y.target_type ≡ user) same of)
        (ap (announced action a.found_case) kept
          ∙ subst (λ y. announced action y db.outbox ≡ some e) same found_event)
        message)
