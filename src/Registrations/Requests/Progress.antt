-- ===== src/Registrations/Requests/Progress.antt =====
-- What the services do to the tables, as steps of the state machine in Steps.
use community_platform.Base.{List}
use community_platform.Registrations.Database.{Database}
use community_platform.Registrations.Repository.{Services}
use community_platform.Registrations.Steps.{Reach, here, Reach-trans, Reach_induction, Step}
use community_platform.Registrations.Steps.Seats.{
  cancel-Reach, confirm-Reach, process-Reach, register-Reach,
}
use community_platform.Registrations.Requests.{
  Request, registers, cancels, confirms, expires, handle, serve, committed_induction,
  serve_induction,
}
use community_platform.Registrations.Creation.{register}
use community_platform.Registrations.Seats.{cancel, confirm, process}

handle-Reach : (env : Services) (r : Request) (db : Database) → Reach db (handle env r db)
unfolding handle
handle-Reach env (registers user event link request now) db =
    committed_induction (Reach db) db (register env user event link request now db) here
      λ a db' e. register-Reach env user event link request now a db db' e
handle-Reach env (cancels user event request now) db =
    committed_induction (Reach db) db (cancel env user event request now db) here
      λ a db' e. cancel-Reach env user event request now a db db' e
handle-Reach env (confirms user event registration request now) db =
    committed_induction (Reach db) db (confirm env user event registration request now db) here
      λ a db' e. confirm-Reach env user event registration request now a db db' e
handle-Reach env (expires job now) db =
    committed_induction (Reach db) db (process env job now db) here
      λ a db' e. process-Reach env job now a db db' e

pub serve-Reach : (env : Services) (rs : List Request) (db : Database) → Reach db (serve env rs db)
serve-Reach env rs db =
    serve_induction (Reach db) env (λ r db' h. Reach-trans h (handle-Reach env r db')) rs db here

-- What every step keeps, the services keep.
pub serve_invariant {κ} :
    (P : Database → Type κ)
    → ((db db' : Database) → Step db db' → P db → P db')
    → (env : Services) (rs : List Request) (db : Database) → P db
    → P (serve env rs db)
serve_invariant P step env rs db h = Reach_induction P step (serve-Reach env rs db) h
