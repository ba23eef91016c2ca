-- ===== src/Registrations/Requests/Safety.antt =====
-- The capacity of events under a sequence of requests.
use community_platform.Base.{List}
use community_platform.Registrations.Database.{Database}
use community_platform.Registrations.Repository.{Services}
use community_platform.Registrations.Requests.{
  Request, registers, cancels, confirms, expires, handle, serve, committed_induction,
  serve_induction,
}
use community_platform.Registrations.Creation.{register}
use community_platform.Registrations.Seats.{cancel, confirm, process}
use community_platform.Registrations.Capacity.Safety.{IsSafe}
use community_platform.Registrations.Capacity.Calls.{cancel-IsSafe, confirm-IsSafe, process-IsSafe}
use community_platform.Registrations.Capacity.Creating.{register-IsSafe}

handle-IsSafe :
    (env : Services) (r : Request) (db : Database) → IsSafe db → IsSafe (handle env r db)
unfolding handle
handle-IsSafe env (registers user event link request now) db safe =
    committed_induction IsSafe db (register env user event link request now db) safe
      λ a db' e. register-IsSafe env user event link request now a db db' e safe
handle-IsSafe env (cancels user event request now) db safe =
    committed_induction IsSafe db (cancel env user event request now db) safe
      λ a db' e. cancel-IsSafe env user event request now a db db' e safe
handle-IsSafe env (confirms user event registration request now) db safe =
    committed_induction IsSafe db (confirm env user event registration request now db) safe
      λ a db' e. confirm-IsSafe env user event registration request now a db db' e safe
handle-IsSafe env (expires job now) db safe =
    committed_induction IsSafe db (process env job now db) safe
      λ a db' e. process-IsSafe env job now a db db' e safe

-- From tables that satisfy their constraints and hold no more seats than each event has, any
-- sequence of registrations, cancellations, cash confirmations and expiries, those that raise
-- rolled back, leads to such tables again: no event ever holds more seats than its capacity.
pub serve-IsSafe :
    (env : Services) (rs : List Request) (db : Database) → IsSafe db → IsSafe (serve env rs db)
serve-IsSafe env rs db safe = serve_induction IsSafe env (handle-IsSafe env) rs db safe
