-- ===== src/Registrations/Effects/Created.antt =====
-- What `create_registration` does to the tables when it returns.
use community_platform.Base.{
  ℕ, suc, ◌≡◌, true, false, none, [], ◌∷◌, ◌++◌, any, arith, Result, ok, continue_elim,
}
use community_platform.Errors.{Error}
use community_platform.Registrations.{Registration, RegistrationTransition}
use community_platform.Registrations.Database.{
  Database, row_ok, clashes, insert_registration, insert_transition, insert_outbox,
}
use community_platform.Registrations.Repository.{Services}
use community_platform.Registrations.Writes.{
  NewRegistration, inserted_row, creation_row, creation_message, append_creation_records,
  enqueue_deadline, create_registration,
}
use community_platform.Registrations.Effects.{
  Appended, insert_transition_lem, insert_outbox_lem, enqueue_deadline_lem,
}

pub record Created (n : NewRegistration) (row : Registration) (t : RegistrationTransition)
    (db db' : Database) : Type 0 where
  pub row_eq : row ≡ inserted_row n db.clock
  pub row_valid : row_ok row ≡ true
  pub row_free : any (clashes row) db.registrations ≡ false
  pub registrations : db'.registrations ≡ db.registrations ++ row ∷ []
  pub registration_id : t.registration_id ≡ n.registration_id
  pub previous_state : t.previous_state ≡ none
  pub new_state : t.new_state ≡ n.state
  pub command_id : t.command_id ≡ n.command_id
  pub appended : Appended db db' t

insert_registration_lem :
    (r row : Registration) (db db' : Database)
    → insert_registration r db ≡ ok (row, db')
    → (row ≡ r)
      × (row_ok r ≡ true)
      × (any (clashes r) db.registrations ≡ false)
      × (db' ≡ record db { registrations = db.registrations ++ r ∷ [] })
unfolding insert_registration
insert_registration_lem r row db db' h = ground arith

append_facts :
    (n : NewRegistration) (id id₂ : ℕ) (t : RegistrationTransition) (db db₁ db' : Database)
    → insert_transition (creation_row id n db.clock) (record db { generated = suc db.generated })
      ≡ ok (t, db₁)
    → insert_outbox (creation_message id₂ n db.clock) (record db₁ { generated = suc db₁.generated })
      ≡ ok (tt, db')
    → (t ≡ creation_row id n db.clock) × (db'.registrations ≡ db.registrations) × Appended db db' t
unfolding creation_message
append_facts n id id₂ t db db₁ db' e₁ e₂ =
    ground (arith, insert_transition_lem _ _ _ _ e₁, insert_outbox_lem _ _ _ e₂)

append_creation_records_elim {κ} :
    {P : Type κ} (env : Services) (n : NewRegistration) (db db' : Database)
    → append_creation_records env n db ≡ ok (tt, db')
    → ((id : ℕ) (t : RegistrationTransition)
        → t ≡ creation_row id n db.clock
        → db'.registrations ≡ db.registrations
        → Appended db db' t
        → P)
    → P
unfolding append_creation_records
append_creation_records_elim env n db db' h k =
    continue_elim
      (insert_transition (creation_row (env.new_id db.generated) n db.clock)
        (record db { generated = suc db.generated }))
      _ h
      λ t db₁ e₁ h₁.
        let (x, y, z) = append_facts n _ _ t db db₁ db' e₁ h₁ in k (env.new_id db.generated) t x y z

Created-facts :
    (env : Services) (n : NewRegistration) (id : ℕ) (row row' : Registration)
    (t : RegistrationTransition) (db db₁ db₂ db₃ db' : Database)
    → insert_registration (inserted_row n db.clock) db ≡ ok (row', db₁)
    → t ≡ creation_row id n db₁.clock
    → db₂.registrations ≡ db₁.registrations
    → Appended db₁ db₂ t
    → enqueue_deadline env n.state n.cash_expires_at n.registration_id n.event_id db₂ ≡ ok (tt, db₃)
    → ◌≡◌ {A = Result Error (Registration × Database)} (ok (row', db₃)) (ok (row, db'))
    → Created n row t db db'
unfolding creation_row
Created-facts env n id row row' t db db₁ db₂ db₃ db' e₁ e₂ same a e₃ e =
    ground (arith, insert_registration_lem _ _ _ _ e₁, enqueue_deadline_lem _ _ _ _ _ _ _ e₃)

pub create_registration_elim {κ} :
    {P : Type κ} (env : Services) (n : NewRegistration) (row : Registration) (db db' : Database)
    → create_registration env n db ≡ ok (row, db')
    → ((t : RegistrationTransition) → Created n row t db db' → P)
    → P
unfolding create_registration
create_registration_elim env n row db db' h k =
    continue_elim (insert_registration (inserted_row n db.clock) db) _ h λ row' db₁ e₁ h₁.
      continue_elim (append_creation_records env n db₁) _ h₁ λ u db₂ e₂ h₂.
        append_creation_records_elim env n db₁ db₂ e₂ λ id t x y z.
          continue_elim
            (enqueue_deadline env n.state n.cash_expires_at n.registration_id n.event_id db₂) _ h₂
            λ v db₃ e₃ h₃. k t (Created-facts env n id row row' t db db₁ db₂ db₃ db' e₁ x y z e₃ h₃)
