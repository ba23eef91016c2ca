-- ===== src/Clubs/Requests.antt =====
-- The membership services under any sequence of requests. Each request is a transaction: one that
-- raises is rolled back.
use community_platform.Base.{ℕ, Option, String, List, [], ◌∷◌, Result, ok, err}
use community_platform.Errors.{Error}
use community_platform.Authorization.{AuthPrincipal, ClubRole}
use community_platform.Clubs.{Tables, Services}
use community_platform.Clubs.Service.{join, leave, approve, reject, change_role, transfer, close}

-- The arguments of each operation, less the services: the principal, the club, and the rest in the
-- order of the source.
pub data Request : Type 0 where
  joins : AuthPrincipal → ℕ → Option String → ℕ → Request
  leaves : AuthPrincipal → ℕ → ℕ → Request
  approves rejects : AuthPrincipal → ℕ → ℕ → String → ℕ → ℕ → Request
  changes_role : AuthPrincipal → ℕ → ℕ → ClubRole → String → ℕ → Request
  transfers : AuthPrincipal → ℕ → ℕ → String → ℕ → Request
  closes : AuthPrincipal → ℕ → String → ℕ → ℕ → Request

-- the state that a transaction leaves
abbrev pub committed : {A : Type 0} → Tables → Result Error (A × Tables) → Tables
committed db (ok (a, db')) = db'
committed db (err e) = db

unfoldable pub handle : Services → Request → Tables → Tables
handle env (joins p club message request) db = committed db (join env p club message request db)
handle env (leaves p club request) db = committed db (leave env p club request db)
handle env (approves p club join_request reason request now) db =
    committed db (approve env p club join_request reason request now db)
handle env (rejects p club join_request reason request now) db =
    committed db (reject env p club join_request reason request now db)
handle env (changes_role p club user role reason request) db =
    committed db (change_role env p club user role reason request db)
handle env (transfers p club user reason request) db =
    committed db (transfer env p club user reason request db)
handle env (closes p club reason request now) db =
    committed db (close env p club reason request now db)

unfoldable pub serve : Services → List Request → Tables → Tables
unfolding handle
serve env [] db = db
serve env (r ∷ rs) db = serve env rs (handle env r db)
