-- ===== src/Moderation/Requests.antt =====
-- The moderation services under any sequence of requests. Each request is a transaction: one that
-- raises is rolled back.
use community_platform.Base.{ℕ, ◌≡◌, refl, String, List, [], ◌∷◌, Result, ok, err}
use community_platform.Errors.{Error}
use community_platform.Authorization.{AuthPrincipal}
use community_platform.Moderation.{
  TargetType, ModerationAction, CaseWorkflowAction, Tables, Services,
}
use community_platform.Moderation.Service.{submit_report, act, transition_case}

-- The arguments of each operation, less the services, in the order of the source.
pub data Request : Type 0 where
  reports : AuthPrincipal → TargetType → ℕ → String → String → ℕ → ℕ → Request
  acts : AuthPrincipal → ℕ → ModerationAction → String → ℕ → ℕ → Request
  transitions : AuthPrincipal → ℕ → CaseWorkflowAction → String → ℕ → ℕ → Request

-- the state that a transaction leaves
abbrev pub committed : {A : Type 0} → Tables → Result Error (A × Tables) → Tables
committed db (ok (a, db')) = db'
committed db (err e) = db

unfoldable pub handle : Services → Request → Tables → Tables
handle env (reports p target_type target category description request now) db =
    committed db (submit_report env p target_type target category description request now db)
handle env (acts p case_id action reason request now) db =
    committed db (act env p case_id action reason request now db)
handle env (transitions p case_id action reason request now) db =
    committed db (transition_case env p case_id action reason request now db)

unfoldable pub serve : Services → List Request → Tables → Tables
unfolding handle
serve env [] db = db
serve env (r ∷ rs) db = serve env rs (handle env r db)

pub committed_induction {κ} :
    {A : Type 0} (P : Tables → Type κ) (db : Tables) (r : Result Error (A × Tables))
    → P db
    → ((a : A) (db' : Tables) → r ≡ ok (a, db') → P db')
    → P (committed db r)
committed_induction P db (ok (a, db')) h k = k a db' refl
committed_induction P db (err e) h k = h
