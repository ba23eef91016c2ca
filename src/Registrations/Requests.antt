-- ===== src/Registrations/Requests.antt =====
-- The registration services under any sequence of requests. Each request is a transaction: one that
-- raises is rolled back.
pub mod Safety
pub mod Progress
pub mod History
pub mod Lifecycle
use community_platform.Base.{ℕ, ◌≡◌, refl, Option, List, [], ◌∷◌, Result, ok, err}
use community_platform.Time.{Datetime}
use community_platform.Errors.{Error}
use community_platform.Registrations.Database.{Database}
use community_platform.Registrations.Repository.{Services}
use community_platform.Registrations.Creation.{register}
use community_platform.Registrations.Seats.{cancel, confirm, CashExpiryJob, process}

pub data Request : Type 0 where
  -- a member registers, perhaps with a private link: user, event, link, request, time
  registers : ℕ → ℕ → Option ℕ → ℕ → Datetime → Request
  -- a member cancels: user, event, request, time
  cancels : ℕ → ℕ → ℕ → Datetime → Request
  -- an organizer confirms a payment: user, event, registration, request, time
  confirms : ℕ → ℕ → ℕ → ℕ → Datetime → Request
  -- the worker works a job off: job, time
  expires : CashExpiryJob → ℕ → Request

-- the state that a transaction leaves
abbrev pub committed : {A : Type 0} → Database → Result Error (A × Database) → Database
committed db (ok (a, db')) = db'
committed db (err e) = db

unfoldable pub handle : Services → Request → Database → Database
handle env (registers user event link request now) db =
    committed db (register env user event link request now db)
handle env (cancels user event request now) db = committed db (cancel env user event request now db)
handle env (confirms user event registration request now) db =
    committed db (confirm env user event registration request now db)
handle env (expires job now) db = committed db (process env job now db)

unfoldable pub serve : Services → List Request → Database → Database
unfolding handle
serve env [] db = db
serve env (r ∷ rs) db = serve env rs (handle env r db)

pub committed_induction {κ} :
    {A : Type 0} (P : Database → Type κ) (db : Database) (r : Result Error (A × Database))
    → P db
    → ((a : A) (db' : Database) → r ≡ ok (a, db') → P db')
    → P (committed db r)
committed_induction P db (ok (a, db')) h k = k a db' refl
committed_induction P db (err e) h k = h

pub serve_induction {κ} :
    (P : Database → Type κ) (env : Services)
    → ((r : Request) (db : Database) → P db → P (handle env r db))
    → (rs : List Request) (db : Database) → P db
    → P (serve env rs db)
unfolding serve
serve_induction P env step [] db h = h
serve_induction P env step (r ∷ rs) db h =
    serve_induction P env step rs (handle env r db) (step r db h)
