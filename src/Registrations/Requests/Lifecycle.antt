-- ===== src/Registrations/Requests/Lifecycle.antt =====
-- A registration over its whole life.
use community_platform.Base.{
  ◌≡◌, refl, sym, ◌∙◌, true, ◌||◌, some, List, [], ◌∷◌, find?, ◌==◌, arith, Bool-cases, inl, inr,
  subst, find?-replace_first_self, find?-replace_first_ne, find?-append_hit, some_injective,
}
use community_platform.Registrations.{
  RegistrationState, cancelled, expired, Registration, RegistrationTransition, state_eq,
  is_transition_allowed,
}
use community_platform.Registrations.Database.{Database}
use community_platform.Registrations.Repository.{Services, has_id}
use community_platform.Registrations.Steps.{
  Reach, Reach_induction, Step, moves, creates, quiet, MoveStep,
}
use community_platform.Registrations.Requests.{Request, serve}
use community_platform.Registrations.Requests.Progress.{serve_invariant}

-- The states that a registration may pass through from a state.
pub data StatePath (s : RegistrationState) : RegistrationState → Type 0 where
  stays : StatePath s s
  goes :
      {t u : RegistrationState} → StatePath s t → is_transition_allowed t u ≡ true → StatePath s u

-- A registration that is still the same one, further along its path.
pub record LaterThan (r r' : Registration) : Type 0 where
  pub id : r'.id ≡ r.id
  pub event_id : r'.event_id ≡ r.event_id
  pub user_id : r'.user_id ≡ r.user_id
  pub method : r'.method ≡ r.method
  pub path : StatePath r.state r'.state
  pub final : (state_eq r.state cancelled || state_eq r.state expired) ≡ true → r' ≡ r

pub record Lives (r : Registration) (db : Database) : Type 0 where
  pub row : Registration
  pub found : find? (has_id r.id) db.registrations ≡ some row
  pub later : LaterThan r row

-- No transition leads out of the two last states.
final_state :
    (s t : RegistrationState)
    → (state_eq s cancelled || state_eq s expired) ≡ true
    → is_transition_allowed s t ≡ true
    → ⊥
unfolding is_transition_allowed
final_state s t h k = ground arith

moved_LaterThan :
    (r old new : Registration) (t : RegistrationTransition) (db db' : Database)
    → MoveStep old new t db db'
    → LaterThan r old
    → LaterThan r new
moved_LaterThan r old new t db db' m l = record {
  id = m.id ∙ l.id;
  event_id = m.event_id ∙ l.event_id;
  user_id = m.user_id ∙ l.user_id;
  method = m.method ∙ l.method;
  path = goes l.path m.edge;
  final = λ h. absurd (
      final_state old.state new.state
        (subst (λ x. (state_eq x.state cancelled || state_eq x.state expired) ≡ true)
          (sym (l.final h)) h)
        m.edge);
}

module _ {old new : Registration} {t : RegistrationTransition} {db db' : Database}
    (m : MoveStep old new t db db') where
  moved_row :
      (r row : Registration)
      → old.id ≡ r.id
      → find? (has_id r.id) db.registrations ≡ some row
      → old ≡ row
  moved_row r row e f =
      some_injective (sym (subst (λ k. find? (has_id k) db.registrations ≡ some old) e m.found) ∙ f)

  moved_found :
      (r : Registration) → old.id ≡ r.id → find? (has_id r.id) db'.registrations ≡ some new
  moved_found r e =
      subst (λ k. find? (has_id k) db'.registrations ≡ some new) e
        (rw m.registrations (
          find?-replace_first_self (has_id old.id) old new db.registrations m.found
            (ground (arith, m.id))))

  moved_Lives : (r : Registration) → old.id ≡ r.id → Lives r db → Lives r db'
  moved_Lives r e l = record {
    row = new;
    found = moved_found r e;
    later =
        moved_LaterThan r old new t db db' m
          (subst (LaterThan r) (sym (moved_row r l.row e l.found)) l.later);
  }

Step-Lives : (r : Registration) (db db' : Database) → Step db db' → Lives r db → Lives r db'
Step-Lives r db db' (quiet q) l = record {
  row = l.row;
  found = rw q.registrations l.found;
  later = l.later;
}
Step-Lives r db db' (creates new t c) l = record {
  row = l.row;
  found =
      rw c.registrations (find?-append_hit (has_id r.id) db.registrations (new ∷ []) l.row l.found);
  later = l.later;
}
Step-Lives r db db' (moves old new t m) l = elim (Bool-cases (old.id == r.id)) [
  | inl e ↦ moved_Lives m r (ground arith) l
  | inr e ↦ record {
    row = l.row;
    found = rw m.registrations (
        find?-replace_first_ne (has_id old.id) (has_id r.id) new db.registrations
          (ground (arith, m.id)) (λ x h. ground arith)
        ∙ l.found);
    later = l.later;
  }
]

Lives-here :
    (r : Registration) (db : Database) → find? (has_id r.id) db.registrations ≡ some r → Lives r db
Lives-here r db h = record {
  row = r;
  found = h;
  later = record {
    id = refl;
    event_id = refl;
    user_id = refl;
    method = refl;
    path = stays;
    final = λ _. refl;
  };
}

-- A registration in one of the two last states is in the table for good.
pub Reach-final :
    (r : Registration) (db db' : Database)
    → Reach db db'
    → find? (has_id r.id) db.registrations ≡ some r
    → (state_eq r.state cancelled || state_eq r.state expired) ≡ true
    → find? (has_id r.id) db'.registrations ≡ some r
Reach-final r db db' s f h =
    let l = Reach_induction (Lives r) (Step-Lives r) s (Lives-here r db f) in
    subst (λ x. find? (has_id r.id) db'.registrations ≡ some x) (l.later.final h) l.found

-- A registration that is in the table is there after any sequence of requests, with its member,
-- event and method; its state has gone along allowed transitions only; and if it was cancelled or
-- expired, its row is the very same.
pub serve-Lives :
    (env : Services) (rs : List Request) (db : Database) (r : Registration)
    → find? (has_id r.id) db.registrations ≡ some r
    → Lives r (serve env rs db)
serve-Lives env rs db r h = serve_invariant (Lives r) (Step-Lives r) env rs db (Lives-here r db h)
