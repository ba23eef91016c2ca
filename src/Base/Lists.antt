-- ===== src/Base/Lists.antt =====
-- Lists read as tables: counting, searching and replacing rows.
use Prim.Native.Nat.{ℕ, suc, ◌+◌}
use mathlib.Core.Path.{◌≡◌, refl}
use mathlib.Core.Bool.{Bool, true, false}
use mathlib.Core.Option.{Option, none, some}
use mathlib.Core.Logic.{inl, inr}
use mathlib.Core.List.{List, [], ◌∷◌, ◌++◌}
use native.Mathlib.Omega.{arith}
use community_platform.Base.Tests.{if◌then◌else◌, Bool-cases}

abbrev pub indicator : Bool → ℕ
indicator true = 1
indicator false = 0

module _ {ℓ} {A : Type ℓ} where
  abbrev pub length : List A → ℕ
  length [] = 0
  length (x ∷ xs) = suc (length xs)

  abbrev pub count : (A → Bool) → List A → ℕ
  count p [] = 0
  count p (x ∷ xs) = if p x then suc (count p xs) else count p xs

  abbrev pub find? : (A → Bool) → List A → Option A
  find? p [] = none
  find? p (x ∷ xs) = if p x then some x else find? p xs

  abbrev pub any : (A → Bool) → List A → Bool
  any p [] = false
  any p (x ∷ xs) = if p x then true else any p xs

  -- The first row that fits gives way to a new one.
  abbrev pub replace_first : (A → Bool) → A → List A → List A
  replace_first p new [] = []
  replace_first p new (x ∷ xs) = if p x then new ∷ xs else x ∷ replace_first p new xs

  abbrev pub All {κ} : (A → Type κ) → List A → Type κ
  All P [] = Unit
  All P (x ∷ xs) = P x × All P xs

module _ {ℓ} {A : Type ℓ} where
  pub find?-holds : (p : A → Bool) (xs : List A) (a : A) → find? p xs ≡ some a → p a ≡ true
  find?-holds p [] a h = ground arith
  find?-holds p (x ∷ xs) a h = ground (arith, find?-holds p xs a)

  -- A stronger test that the row found passes finds the same row.
  pub find?-also :
      (p q : A → Bool) (xs : List A) (a : A)
      → find? p xs ≡ some a
      → q a ≡ true
      → ((x : A) → q x ≡ true → p x ≡ true)
      → find? q xs ≡ some a
  find?-also p q [] a h k imp = ground arith
  find?-also p q (x ∷ xs) a h k imp = ground (arith, imp x, find?-also p q xs a)

  pub find?-All {κ} :
      (P : A → Type κ) (p : A → Bool) (xs : List A) (a : A) → All P xs → find? p xs ≡ some a → P a
  find?-All P p [] a all h = ground arith
  find?-All P p (x ∷ xs) a all h = ground (arith, find?-All P p xs a all.1)

  pub All-append {κ} : (P : A → Type κ) (xs ys : List A) → All P xs → All P ys → All P (xs ++ ys)
  All-append P [] ys hx hy = hy
  All-append P (x ∷ xs) ys hx hy = (hx.0, All-append P xs ys hx.1 hy)

  pub All-replace_first {κ} :
      (P : A → Type κ) (p : A → Bool) (new : A) (xs : List A)
      → All P xs
      → P new
      → All P (replace_first p new xs)
  All-replace_first P p new [] all h = tt
  All-replace_first P p new (x ∷ xs) all h = elim (Bool-cases (p x)) [
    | inl e ↦ rw e (h, all.1)
    | inr e ↦ rw e (all.0, All-replace_first P p new xs all.1 h)
  ]

  pub count-append : (p : A → Bool) (xs ys : List A) → count p (xs ++ ys) ≡ count p xs + count p ys
  count-append p [] ys = omega arith
  count-append p (x ∷ xs) ys = ground (arith, count-append p xs ys)

  -- Replacing a row changes a count by what the two rows differ in.
  pub count-replace_first :
      (q p : A → Bool) (old new : A) (xs : List A)
      → find? p xs ≡ some old
      → count q (replace_first p new xs) + indicator (q old) ≡ count q xs + indicator (q new)
  count-replace_first q p old new [] h = ground arith
  count-replace_first q p old new (x ∷ xs) h = ground (arith, count-replace_first q p old new xs)

  pub find?-replace_first_self :
      (p : A → Bool) (old new : A) (xs : List A)
      → find? p xs ≡ some old
      → p new ≡ true
      → find? p (replace_first p new xs) ≡ some new
  find?-replace_first_self p old new [] h k = ground arith
  find?-replace_first_self p old new (x ∷ xs) h k =
      ground (arith, find?-replace_first_self p old new xs)

  pub find?-append_miss :
      (p : A → Bool) (xs ys : List A) → find? p xs ≡ none → find? p (xs ++ ys) ≡ find? p ys
  find?-append_miss p [] ys h = refl
  find?-append_miss p (x ∷ xs) ys h = ground (arith, find?-append_miss p xs ys)

  pub find?-append_hit :
      (p : A → Bool) (xs ys : List A) (a : A) → find? p xs ≡ some a → find? p (xs ++ ys) ≡ some a
  find?-append_hit p [] ys a h = ground arith
  find?-append_hit p (x ∷ xs) ys a h = ground (arith, find?-append_hit p xs ys a)

  -- Replacing rows of one kind by a row of that kind leaves a search for another kind alone.
  pub find?-replace_first_ne :
      (p q : A → Bool) (new : A) (xs : List A)
      → q new ≡ false
      → ((x : A) → p x ≡ true → q x ≡ false)
      → find? q (replace_first p new xs) ≡ find? q xs
  find?-replace_first_ne p q new [] h k = refl
  find?-replace_first_ne p q new (x ∷ xs) h k =
      ground (arith, k x, find?-replace_first_ne p q new xs h k)
