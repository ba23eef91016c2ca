-- ===== src/Moderation/Lifecycle/Shapes.antt =====
-- The columns of the cases under any sequence of requests to the moderation
-- (apps/api/src/talaqi/moderation/service.py).
use community_platform.Base.{
  ◌≡◌, refl, ◌∙◌, ap, Bool, true, ◌&&◌, List, [], ◌∷◌, ◌++◌, update_where, arith,
}
use community_platform.Moderation.{ModerationCase, Tables, Services}
use community_platform.Moderation.Requests.{Request, handle, serve}
use community_platform.Moderation.Lifecycle.{is_shaped, Step, handle-Step, stays, files, moves}

-- every case has the columns of its status
unfoldable pub all_shaped : List ModerationCase → Bool
unfolding is_shaped
all_shaped [] = true
all_shaped (c ∷ cs) = is_shaped c && all_shaped cs

all_shaped-append :
    (cs : List ModerationCase) (c : ModerationCase)
    → all_shaped cs ≡ true
    → is_shaped c ≡ true
    → all_shaped (cs ++ c ∷ []) ≡ true
unfolding all_shaped
all_shaped-append [] c h k = ground arith
all_shaped-append (x ∷ xs) c h k = ground (arith, all_shaped-append xs c)

all_shaped-update_where :
    (p : ModerationCase → Bool) (f : ModerationCase → ModerationCase) (cs : List ModerationCase)
    → ((x : ModerationCase) → p x ≡ true → is_shaped (f x) ≡ true)
    → all_shaped cs ≡ true
    → all_shaped (update_where p f cs) ≡ true
unfolding all_shaped
all_shaped-update_where p f [] a h = refl
all_shaped-update_where p f (x ∷ xs) a h = ground (arith, a x, all_shaped-update_where p f xs a)

Step-all_shaped :
    (cs cs' : List ModerationCase) → Step cs cs' → all_shaped cs ≡ true → all_shaped cs' ≡ true
Step-all_shaped cs cs' (stays e) h = ap all_shaped e ∙ h
Step-all_shaped cs cs' (files c s e) h = ap all_shaped e ∙ all_shaped-append cs c h s
Step-all_shaped cs cs' (moves p f i a e) h =
    ap all_shaped e ∙ all_shaped-update_where p f cs (λ x k. (a x k).shaped) h

-- The columns that go with the statuses of the cases are kept so under any sequence of requests: an
-- open case has no administrator and no end, one under investigation has an administrator and the time
-- when it was taken, and one that is actioned or dismissed has a reason and a time of its end, too.
pub serve-all_shaped :
    (env : Services) (rs : List Request) (db : Tables)
    → all_shaped db.cases ≡ true
    → all_shaped (serve env rs db).cases ≡ true
unfolding serve
serve-all_shaped env [] db h = h
serve-all_shaped env (r ∷ rs) db h =
    serve-all_shaped env rs (handle env r db)
      (Step-all_shaped db.cases (handle env r db).cases (handle-Step env r db) h)
