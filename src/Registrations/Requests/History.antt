-- ===== src/Registrations/Requests/History.antt =====
-- The history of transitions and the messages, against the registrations themselves.
use community_platform.Base.{
  ℕ, ◌≡◌, refl, Bool, true, false, ◌&&◌, Option, none, some, List, [], ◌∷◌, ◌++◌, length, count,
  find?, any, ◌==◌, arith, if◌then◌else◌, Bool-cases, inl, inr, find?-replace_first_self,
  find?-append_miss, find?-replace_first_ne, find?-append_hit, Option-cases, is_none, holds,
}
use community_platform.Registrations.{
  RegistrationState, Registration, RegistrationTransition, state_eq, is_transition_allowed,
}
use community_platform.Registrations.Database.{Database, clashes}
use community_platform.Registrations.Repository.{Services, has_id, replace_row}
use community_platform.Registrations.Effects.{announces}
use community_platform.Registrations.Steps.{Step, moves, creates, quiet, MoveStep, CreateStep}
use community_platform.Registrations.Requests.{Request, serve}
use community_platform.Registrations.Requests.Progress.{serve_invariant}

-- the state of a registration in a table
abbrev pub state_in : ℕ → List Registration → Option RegistrationState
state_in id rs = elim (find? (has_id id) rs) [ none ↦ none | some r ↦ some r.state ]

-- The state of a registration that a history, read after a state, leads to.
abbrev pub replayed_state :
    ℕ → Option RegistrationState → List RegistrationTransition → Option RegistrationState
replayed_state id s [] = s
replayed_state id s (t ∷ ts) =
    replayed_state id (if t.registration_id == id then some t.new_state else s) ts

-- A record of a registration goes on from the state before it.
abbrev pub follows : Option RegistrationState → RegistrationTransition → Bool
follows s t = elim s [
  | none ↦ is_none t.previous_state
  | some p ↦ holds (λ q. state_eq p q) t.previous_state && is_transition_allowed p t.new_state
]

abbrev pub is_lawful : ℕ → Option RegistrationState → List RegistrationTransition → Bool
is_lawful id s [] = true
is_lawful id s (t ∷ ts) =
    if t.registration_id == id
    then follows s t && is_lawful id (some t.new_state) ts
    else is_lawful id s ts

pub record IsRecorded (db : Database) : Type 0 where
  pub current : (id : ℕ) → replayed_state id none db.transitions ≡ state_in id db.registrations
  pub lawful : (id : ℕ) → is_lawful id none db.transitions ≡ true

replayed_state-append :
    (id : ℕ) (s : Option RegistrationState) (ts : List RegistrationTransition)
    (t : RegistrationTransition)
    → replayed_state id s (ts ++ t ∷ [])
      ≡ (if t.registration_id == id then some t.new_state else replayed_state id s ts)
replayed_state-append id s [] t = refl
replayed_state-append id s (u ∷ ts) t =
    replayed_state-append id (if u.registration_id == id then some u.new_state else s) ts t

is_lawful-append :
    (id : ℕ) (s : Option RegistrationState) (ts : List RegistrationTransition)
    (t : RegistrationTransition)
    → is_lawful id s (ts ++ t ∷ []) ≡ (
        is_lawful id s ts
        && (if t.registration_id == id then follows (replayed_state id s ts) t else true))
is_lawful-append id s [] t = ground arith
is_lawful-append id s (u ∷ ts) t =
    ground (arith, is_lawful-append id (some u.new_state) ts t, is_lawful-append id s ts t)

state_in-replace_row :
    (id : ℕ) (old new : Registration) (rs : List Registration)
    → find? (has_id old.id) rs ≡ some old
    → new.id ≡ old.id
    → state_in id (replace_row old.id new rs)
      ≡ (if old.id == id then some new.state else state_in id rs)
state_in-replace_row id old new rs f e = elim (Bool-cases (old.id == id)) [
  | inl k ↦ rw k (ground (arith, find?-replace_first_self (has_id old.id) old new rs f))
  | inr k ↦ rw k (ground (arith, find?-replace_first_ne (has_id old.id) (has_id id) new rs))
]

-- A row that clashes with none has an identifier of its own.
clashes-find? :
    (id : ℕ) (new : Registration) (rs : List Registration)
    → any (clashes new) rs ≡ false
    → (new.id == id) ≡ true
    → find? (has_id id) rs ≡ none
unfolding clashes
clashes-find? id new [] h e = refl
clashes-find? id new (r ∷ rs) h e = ground (arith, clashes-find? id new rs)

state_in-append :
    (id : ℕ) (new : Registration) (rs : List Registration)
    → any (clashes new) rs ≡ false
    → state_in id (rs ++ new ∷ []) ≡ (if new.id == id then some new.state else state_in id rs)
state_in-append id new rs h = elim (Option-cases (find? (has_id id) rs)) [
  | inl k ↦ ground (arith, find?-append_miss (has_id id) rs (new ∷ []) k, clashes-find? id new rs h)
  | inr (r, k) ↦
      ground (arith, find?-append_hit (has_id id) rs (new ∷ []) r k, clashes-find? id new rs h)
]

module _ {old new : Registration} {t : RegistrationTransition} {db db' : Database}
    (m : MoveStep old new t db db') where
  state_in-found : state_in old.id db.registrations ≡ some old.state
  state_in-found = rw (m.found, state_in) refl

  move_current :
      (id : ℕ)
      → replayed_state id none db.transitions ≡ state_in id db.registrations
      → replayed_state id none db'.transitions ≡ state_in id db'.registrations
  move_current id h =
      rw
        (
          m.appended.transitions,
          m.registrations,
          replayed_state-append,
          m.registration_id,
          m.new_state,
          state_in-replace_row id old new db.registrations m.found m.id,
        )
        (ground (arith, h))

  move_lawful :
      (id : ℕ)
      → replayed_state id none db.transitions ≡ state_in id db.registrations
      → is_lawful id none db.transitions ≡ true
      → is_lawful id none db'.transitions ≡ true
  move_lawful id h k =
      rw (m.appended.transitions, is_lawful-append, k)
        (ground
          (arith, h, state_in-found, m.registration_id, m.new_state, m.previous_state, m.edge))

module _ {new : Registration} {t : RegistrationTransition} {db db' : Database}
    (c : CreateStep new t db db') where
  create_current :
      (id : ℕ)
      → replayed_state id none db.transitions ≡ state_in id db.registrations
      → replayed_state id none db'.transitions ≡ state_in id db'.registrations
  create_current id h =
      rw
        (
          c.appended.transitions,
          c.registrations,
          replayed_state-append,
          c.registration_id,
          c.new_state,
          state_in-append id new db.registrations c.row_free,
        )
        (ground (arith, h))

  state_in-new : state_in new.id db.registrations ≡ none
  state_in-new =
      rw (clashes-find? new.id new db.registrations c.row_free (ground arith), state_in) refl

  create_lawful :
      (id : ℕ)
      → replayed_state id none db.transitions ≡ state_in id db.registrations
      → is_lawful id none db.transitions ≡ true
      → is_lawful id none db'.transitions ≡ true
  create_lawful id h k =
      rw (c.appended.transitions, is_lawful-append, k)
        (ground (arith, h, state_in-new, c.registration_id, c.new_state, c.previous_state))

Step-IsRecorded : (db db' : Database) → Step db db' → IsRecorded db → IsRecorded db'
Step-IsRecorded db db' (moves old new t m) h = record {
  current = λ id. move_current m id (h.current id);
  lawful = λ id. move_lawful m id (h.current id) (h.lawful id);
}
Step-IsRecorded db db' (creates new t c) h = record {
  current = λ id. create_current c id (h.current id);
  lawful = λ id. create_lawful c id (h.current id) (h.lawful id);
}
Step-IsRecorded db db' (quiet q) h = record {
  current = λ id. rw (q.transitions, q.registrations) (h.current id);
  lawful = λ id. rw q.transitions (h.lawful id);
}

-- If the history of every registration is lawful (it starts without a previous state, every further
-- record starts from the state the record before it led to, along an allowed transition) and
-- ends in the state its row has, then this is so after any sequence of requests.
pub serve-IsRecorded :
    (env : Services) (rs : List Request) (db : Database)
    → IsRecorded db
    → IsRecorded (serve env rs db)
serve-IsRecorded env rs db h = serve_invariant IsRecorded Step-IsRecorded env rs db h

-- As many announcements wait in the outbox, or have been sent, as changes are recorded.
abbrev pub IsAnnounced : Database → Type 0
IsAnnounced db = length db.transitions ≡ count announces db.outbox
