-- ===== src/Moderation/Lifecycle/Rows.antt =====
-- A case under any sequence of requests to the moderation (apps/api/src/talaqi/moderation/service.py).
use community_platform.Base.{
  find?-append_hit, find?-update_where, map_option, ℕ, ◌≡◌, refl, sym, ◌∙◌, ap, subst, Bool, true,
  false, some, List, [], ◌∷◌, find?, ◌==◌, arith, Bool-cases, inl, inr, if◌then◌else◌,
}
use community_platform.Moderation.{CaseStatus, dismissed, ModerationCase, Tables, Services}
use community_platform.Moderation.Repository.{is_case, get_case}
use community_platform.Moderation.Requests.{Request, handle, serve}
use community_platform.Moderation.Lifecycle.{
  CaseEdge, Leads, is_shaped, Kept, Advance, Step, Kept-same, handle-Step, acknowledges, drops,
  dismisses, acts_at_once, acts_on, acts_again, here, next, stays, files, moves,
}

-- What has become of a row: it is the same case, its status went along the edges, a dismissed one is
-- as it was, and its columns go with its status if they did.
pub record Continues (x y : ModerationCase) : Type 0 where
  pub kept : Kept x y
  pub path : Leads x.status y.status
  pub final : x.status ≡ dismissed → y ≡ x
  pub shaped : is_shaped x ≡ true → is_shaped y ≡ true

Continues-here : (x : ModerationCase) → Continues x x
Continues-here x = record { kept = Kept-same x; path = here; final = λ h. refl; shaped = λ h. h }

abbrev is_final : CaseStatus → Bool
is_final dismissed = true
is_final _ = false

CaseEdge-is_final : {s t : CaseStatus} → CaseEdge s t → is_final s ≡ false
CaseEdge-is_final acknowledges = refl
CaseEdge-is_final drops = refl
CaseEdge-is_final dismisses = refl
CaseEdge-is_final acts_at_once = refl
CaseEdge-is_final acts_on = refl
CaseEdge-is_final acts_again = refl

Continues-next : (x y z : ModerationCase) → Continues x y → Advance y z → Continues x z
Continues-next x y z l a = record {
  kept = record {
    id = a.kept.id ∙ l.kept.id;
    reporter = a.kept.reporter ∙ l.kept.reporter;
    target_type = a.kept.target_type ∙ l.kept.target_type;
    target_id = a.kept.target_id ∙ l.kept.target_id;
    category = a.kept.category ∙ l.kept.category;
    description = a.kept.description ∙ l.kept.description;
    priority = a.kept.priority ∙ l.kept.priority;
    created_at = a.kept.created_at ∙ l.kept.created_at;
  };
  path = next l.path a.edge;
  final = λ h.
      let ended : is_final y.status ≡ true = ap is_final (ap (λ c. c.status) (l.final h) ∙ h) in
      let moving = CaseEdge-is_final a.edge in cc;
  shaped = λ h. a.shaped;
}

abbrev pub Found : ℕ → ModerationCase → List ModerationCase → Type 0
Found k x cs = (y : ModerationCase) × (find? (is_case k) cs ≡ some y) × Continues x y

Step-Found :
    (k : ℕ) (x : ModerationCase) (cs cs' : List ModerationCase)
    → Step cs cs'
    → Found k x cs
    → Found k x cs'
Step-Found k x cs cs' (stays e) f = subst (Found k x) (sym e) f
Step-Found k x cs cs' (files c s e) (y, found, l) =
    subst (Found k x) (sym e) (y, find?-append_hit (is_case k) cs (c ∷ []) y found, l)
Step-Found k x cs cs' (moves p f i a e) (y, found, l) =
    let lookup : find? (is_case k) cs' ≡ some (if p y then f y else y) =
      ap (find? (is_case k)) e
      ∙ find?-update_where (is_case k) p f cs (λ z. ap (λ n. n == k) (i z))
      ∙ ap (map_option (λ z. if p z then f z else z)) found in
    elim (Bool-cases (p y)) [
      | inl h ↦ (f y, ground (arith, lookup), Continues-next x y (f y) l (a y h))
      | inr h ↦ (y, ground (arith, lookup), l)
    ]

serve-Found :
    (env : Services) (rs : List Request) (k : ℕ) (x : ModerationCase) (db : Tables)
    → Found k x db.cases
    → Found k x (serve env rs db).cases
unfolding serve
serve-Found env [] k x db f = f
serve-Found env (r ∷ rs) k x db f =
    serve-Found env rs k x (handle env r db)
      (Step-Found k x db.cases (handle env r db).cases (handle-Step env r db) f)

-- Under any sequence of reports, actions and steps of the workflow, those that raise rolled back, a
-- case stays in the table with its reporter, target, text, priority and time; its status goes only
-- from open to investigating and from both to actioned or dismissed, or stays; a dismissed case is
-- never changed again; and the columns that tell who took it, when, and how it ended go with its
-- status if they did before.
pub serve-Continues :
    (env : Services) (rs : List Request) (x : ModerationCase) (db : Tables)
    → get_case x.id db ≡ some x
    → (y : ModerationCase) × (get_case x.id (serve env rs db) ≡ some y) × Continues x y
unfolding get_case
serve-Continues env rs x db h = serve-Found env rs x.id x db (x, h, Continues-here x)
