-- ===== src/Registrations/Validity.antt =====
-- The invariant of the registrations table that its constraints state, and its preservation.
use community_platform.Base.{
  ℕ, ◌≡◌, refl, Bool, true, false, ◌||◌, Option, none, some, List, [], ◌∷◌, ◌++◌, find?, any, All,
  ◌==◌, option_eq, count, ok, arith, Bool-cases, inl, inr, All-append, All-replace_first,
}
use community_platform.Registrations.{Registration}
use community_platform.Registrations.Database.{row_ok, clashes, same_active, same_place}
use community_platform.Registrations.Repository.{
  has_id, clashes_with_other, replace_row, first_by_place, one_or_none,
}
use community_platform.Registrations.Creation.{takes_seat}

abbrev pub RowOk : Registration → Type 0
RowOk r = row_ok r ≡ true

-- No two rows stand in each other's way: identifiers, active registrations of a member for an
-- event, and places in a queue are unique.
abbrev pub Distinct : List Registration → Type 0
Distinct [] = Unit
Distinct (r ∷ rs) = (any (clashes r) rs ≡ false) × Distinct rs

pub record IsValid (rs : List Registration) : Type 0 where
  pub rows : All RowOk rs
  pub distinct : Distinct rs

==_comm : (a b : ℕ) → (a == b) ≡ (b == a)
==_comm a b = ground arith

option_eq_comm : (a b : Option ℕ) → option_eq a b ≡ option_eq b a
option_eq_comm none none = refl
option_eq_comm none (some b) = refl
option_eq_comm (some a) none = refl
option_eq_comm (some a) (some b) = ==_comm a b

same_active_comm : (r s : Registration) → same_active r s ≡ same_active s r
unfolding same_active
same_active_comm r s = ground arith

same_place_comm : (r s : Registration) → same_place r s ≡ same_place s r
unfolding same_place
same_place_comm r s = rw (option_eq_comm r.waitlist_sequence s.waitlist_sequence) (ground arith)

-- `clashes` with its two indexes shut
pub clashes_shut :
    (r s : Registration) → clashes r s ≡ (r.id == s.id || same_active r s || same_place r s)
unfolding clashes
clashes_shut r s = refl

pub clashes_comm : (r s : Registration) → clashes r s ≡ clashes s r
clashes_comm r s =
    ground (arith, clashes_shut r s, clashes_shut s r, same_active_comm r s, same_place_comm r s)

pub any-false {ℓ} :
    {A : Type ℓ} (q p : A → Bool) (xs : List A) (a : A)
    → any q xs ≡ false
    → find? p xs ≡ some a
    → q a ≡ false
any-false q p [] a h k = ground arith
any-false q p (x ∷ xs) a h k = ground (arith, any-false q p xs a)

any-append {ℓ} :
    {A : Type ℓ} (p : A → Bool) (xs ys : List A) → any p (xs ++ ys) ≡ (any p xs || any p ys)
any-append p [] ys = refl
any-append p (x ∷ xs) ys = ground (arith, any-append p xs ys)

Distinct-append_row :
    (rs : List Registration) (new : Registration)
    → Distinct rs
    → any (clashes new) rs ≡ false
    → Distinct (rs ++ new ∷ [])
Distinct-append_row [] new d h = (refl, tt)
Distinct-append_row (r ∷ rs) new d h = (
  rw (any-append (clashes r) rs (new ∷ [])) (ground (arith, clashes_comm r new)),
  Distinct-append_row rs new d.1 (ground arith),
)

-- A row that no other row clashes with may be written over the row with its identifier.
any-replace_row :
    (rs : List Registration) (new r : Registration)
    → any (clashes r) rs ≡ false
    → clashes r new ≡ false
    → any (clashes r) (replace_row new.id new rs) ≡ false
any-replace_row [] new r h k = refl
any-replace_row (s ∷ rs) new r h k = ground (arith, any-replace_row rs new r)

clashes-id : (r s : Registration) → clashes r s ≡ false → (r.id == s.id) ≡ false
clashes-id r s h = ground (arith, clashes_shut r s)

any-clashes_tail :
    (rs : List Registration) (new r : Registration)
    → r.id ≡ new.id
    → any (clashes r) rs ≡ false
    → any (clashes_with_other new) rs ≡ false
    → any (clashes new) rs ≡ false
any-clashes_tail [] new r e h k = refl
any-clashes_tail (s ∷ rs) new r e h k =
    ground (arith, clashes_shut r s, any-clashes_tail rs new r e)

Distinct-replace_row :
    (rs : List Registration) (new : Registration)
    → Distinct rs
    → any (clashes_with_other new) rs ≡ false
    → Distinct (replace_row new.id new rs)
Distinct-replace_row [] new d h = tt
Distinct-replace_row (r ∷ rs) new d h = elim (Bool-cases (has_id new.id r)) [
  | inl e ↦ rw e (any-clashes_tail rs new r (ground arith) d.0 (ground arith), d.1)
  | inr e ↦ rw e (
    any-replace_row rs new r d.0 (ground (arith, clashes_comm r new)),
    Distinct-replace_row rs new d.1 (ground arith),
  )
]

-- In a table without clashes the row that a search returns is found by its identifier.
has_id-tail :
    (rs : List Registration) (x r : Registration)
    → any (clashes x) rs ≡ false
    → find? (has_id r.id) rs ≡ some r
    → has_id r.id x ≡ false
has_id-tail rs x r h k =
    ground (arith, clashes-id x r (any-false (clashes x) (has_id r.id) rs r h k))

pub find?-self :
    (p : Registration → Bool) (rs : List Registration) (r : Registration)
    → Distinct rs
    → find? p rs ≡ some r
    → find? (has_id r.id) rs ≡ some r
find?-self p [] r d h = ground arith
find?-self p (x ∷ rs) r d h = ground (arith, find?-self p rs r d.1, has_id-tail rs x r d.0)

pub one_or_none-find? :
    (p : Registration → Bool) (rs : List Registration) (found : Option Registration)
    → one_or_none p rs ≡ ok found
    → find? p rs ≡ found
unfolding one_or_none
one_or_none-find? p [] found h = ground arith
one_or_none-find? p (x ∷ rs) found h = ground (arith, one_or_none-find? p rs found)

pub first_by_place-holds :
    (p : Registration → Bool) (rs : List Registration) (r : Registration)
    → first_by_place p rs ≡ some r
    → p r ≡ true
unfolding first_by_place
first_by_place-holds p [] r h = ground arith
first_by_place-holds p (x ∷ rs) r h = ground (arith, first_by_place-holds p rs r)

pub first_by_place-none :
    (p : Registration → Bool) (rs : List Registration) → first_by_place p rs ≡ none → count p rs ≡ 0
unfolding first_by_place
first_by_place-none p [] h = refl
first_by_place-none p (x ∷ rs) h = ground (arith, first_by_place-none p rs)

pub find?-first_by_place :
    (p : Registration → Bool) (rs : List Registration) (r : Registration)
    → Distinct rs
    → first_by_place p rs ≡ some r
    → find? (has_id r.id) rs ≡ some r
unfolding first_by_place
find?-first_by_place p [] r d h = ground arith
find?-first_by_place p (x ∷ rs) r d h =
    ground (arith, find?-first_by_place p rs r d.1, has_id-tail rs x r d.0)

pub IsValid-append_row :
    (rs : List Registration) (new : Registration)
    → IsValid rs
    → row_ok new ≡ true
    → any (clashes new) rs ≡ false
    → IsValid (rs ++ new ∷ [])
IsValid-append_row rs new v h k = record {
  rows = All-append RowOk rs (new ∷ []) v.rows (h, tt);
  distinct = Distinct-append_row rs new v.distinct k;
}

pub IsValid-replace_row :
    (rs : List Registration) (new : Registration)
    → IsValid rs
    → row_ok new ≡ true
    → any (clashes_with_other new) rs ≡ false
    → IsValid (replace_row new.id new rs)
IsValid-replace_row rs new v h k = record {
  rows = All-replace_first RowOk (has_id new.id) new rs v.rows h;
  distinct = Distinct-replace_row rs new v.distinct k;
}

-- In a valid row a seat is held exactly in the states that take one.
pub seat_held-row_ok : (r : Registration) → row_ok r ≡ true → r.seat_held ≡ takes_seat r.state
unfolding row_ok
seat_held-row_ok r h = ground arith
