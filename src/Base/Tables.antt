-- ===== src/Base/Tables.antt =====
-- UPDATE and DELETE of the rows of a table that pass a test, and the rows of a selection.
use Prim.Native.Nat.{ℕ, ◌+◌, ◌≤◌}
use mathlib.Core.Path.{◌≡◌, refl}
use mathlib.Core.Bool.{Bool, true, false, ◌&&◌}
use mathlib.Core.Option.{Option, none, some}
use mathlib.Core.Logic.{inl, inr}
use mathlib.Core.List.{List, [], ◌∷◌, ◌++◌}
use native.Mathlib.Omega.{arith}
use community_platform.Base.Tests.{if◌then◌else◌, ◌==◌, Bool-cases}
use community_platform.Base.Lists.{indicator, count, find?, any}

module _ {ℓ} {A : Type ℓ} where
  abbrev pub update_where : (A → Bool) → (A → A) → List A → List A
  update_where p f [] = []
  update_where p f (x ∷ xs) = (if p x then f x else x) ∷ update_where p f xs

  abbrev pub remove_where : (A → Bool) → List A → List A
  remove_where p [] = []
  remove_where p (x ∷ xs) = if p x then remove_where p xs else x ∷ remove_where p xs

  abbrev pub select : (A → Bool) → List A → List A
  select p [] = []
  select p (x ∷ xs) = if p x then x ∷ select p xs else select p xs

  abbrev pub map_option : (A → A) → Option A → Option A
  map_option f none = none
  map_option f (some a) = some (f a)

  -- No two rows have the same key.
  abbrev pub Distinct : (A → ℕ) → List A → Type 0
  Distinct key [] = Unit
  Distinct key (x ∷ xs) = (any (λ y. key y == key x) xs ≡ false) × Distinct key xs

  -- A search over an update that leaves what is searched for as it is.
  pub find?-update_where :
      (p q : A → Bool) (f : A → A) (xs : List A)
      → ((x : A) → p (f x) ≡ p x)
      → find? p (update_where q f xs) ≡ map_option (λ x. if q x then f x else x) (find? p xs)
  find?-update_where p q f [] h = refl
  find?-update_where p q f (x ∷ xs) h = ground (arith, h x, find?-update_where p q f xs h)

  pub find?-remove_where :
      (p q : A → Bool) (xs : List A)
      → ((x : A) → p x ≡ true → q x ≡ false)
      → find? p (remove_where q xs) ≡ find? p xs
  find?-remove_where p q [] h = refl
  find?-remove_where p q (x ∷ xs) h = ground (arith, h x, find?-remove_where p q xs h)

  pub select-append_other :
      (p : A → Bool) (xs : List A) (new : A)
      → p new ≡ false
      → select p (xs ++ new ∷ []) ≡ select p xs
  select-append_other p [] new h = ground arith
  select-append_other p (x ∷ xs) new h = ground (arith, select-append_other p xs new h)

  -- A selection does not see an update of rows outside it.
  pub select-update_where :
      (p q : A → Bool) (f : A → A) (xs : List A)
      → ((x : A) → q x ≡ true → p x ≡ false)
      → ((x : A) → p (f x) ≡ p x)
      → select p (update_where q f xs) ≡ select p xs
  select-update_where p q f [] h k = refl
  select-update_where p q f (x ∷ xs) h k =
      ground (arith, h x, k x, select-update_where p q f xs h k)

  pub select-remove_where :
      (p q : A → Bool) (xs : List A)
      → ((x : A) → q x ≡ true → p x ≡ false)
      → select p (remove_where q xs) ≡ select p xs
  select-remove_where p q [] h = refl
  select-remove_where p q (x ∷ xs) h = ground (arith, h x, select-remove_where p q xs h)

  pub count-and : (p q : A → Bool) (xs : List A) → count (λ x. p x && q x) xs ≤ count p xs
  count-and p q [] = omega arith
  count-and p q (x ∷ xs) = ground (arith, count-and p q xs)

-- Rows under a key that no two of them share.
module _ {ℓ} {A : Type ℓ} (key : A → ℕ) where
  pub find?-any_key :
      (k : ℕ) (xs : List A) → any (λ y. key y == k) xs ≡ false → find? (λ y. key y == k) xs ≡ none
  find?-any_key k [] h = refl
  find?-any_key k (x ∷ xs) h = ground (arith, find?-any_key k xs)

  pub any_key-find? :
      (k : ℕ) (xs : List A) → find? (λ y. key y == k) xs ≡ none → any (λ y. key y == k) xs ≡ false
  any_key-find? k [] h = refl
  any_key-find? k (x ∷ xs) h = ground (arith, any_key-find? k xs)

  any-update_where :
      (k : ℕ) (p : A → Bool) (f : A → A) (xs : List A)
      → ((x : A) → key (f x) ≡ key x)
      → any (λ y. key y == k) xs ≡ false
      → any (λ y. key y == k) (update_where p f xs) ≡ false
  any-update_where k p f [] h n = refl
  any-update_where k p f (x ∷ xs) h n = ground (arith, h x, any-update_where k p f xs h)

  pub Distinct-update_where :
      (p : A → Bool) (f : A → A) (xs : List A)
      → ((x : A) → key (f x) ≡ key x)
      → Distinct key xs
      → Distinct key (update_where p f xs)
  Distinct-update_where p f [] h d = tt
  Distinct-update_where p f (x ∷ xs) h d = elim (Bool-cases (p x)) [
    | inl e ↦
        rw e (rw (h x) (any-update_where (key x) p f xs h d.0), Distinct-update_where p f xs h d.1)
    | inr e ↦ rw e (any-update_where (key x) p f xs h d.0, Distinct-update_where p f xs h d.1)
  ]

  any-remove_where :
      (k : ℕ) (p : A → Bool) (xs : List A)
      → any (λ y. key y == k) xs ≡ false
      → any (λ y. key y == k) (remove_where p xs) ≡ false
  any-remove_where k p [] n = refl
  any-remove_where k p (x ∷ xs) n = ground (arith, any-remove_where k p xs)

  pub Distinct-remove_where :
      (p : A → Bool) (xs : List A) → Distinct key xs → Distinct key (remove_where p xs)
  Distinct-remove_where p [] d = tt
  Distinct-remove_where p (x ∷ xs) d = elim (Bool-cases (p x)) [
    | inl e ↦ rw e (Distinct-remove_where p xs d.1)
    | inr e ↦ rw e (any-remove_where (key x) p xs d.0, Distinct-remove_where p xs d.1)
  ]

  any-append_key :
      (k : ℕ) (xs : List A) (new : A)
      → any (λ y. key y == k) xs ≡ false
      → (key new == k) ≡ false
      → any (λ y. key y == k) (xs ++ new ∷ []) ≡ false
  any-append_key k [] new n m = ground arith
  any-append_key k (x ∷ xs) new n m = ground (arith, any-append_key k xs new)

  pub Distinct-append :
      (xs : List A) (new : A)
      → any (λ y. key y == key new) xs ≡ false
      → Distinct key xs
      → Distinct key (xs ++ new ∷ [])
  Distinct-append [] new n d = (refl, tt)
  Distinct-append (x ∷ xs) new n d =
      (any-append_key (key x) xs new d.0 (ground arith), Distinct-append xs new (ground arith) d.1)

  update_where_absent :
      (k : ℕ) (p : A → Bool) (f : A → A) (xs : List A)
      → any (λ y. key y == k) xs ≡ false
      → ((x : A) → p x ≡ true → key x ≡ k)
      → update_where p f xs ≡ xs
  update_where_absent k p f [] n h = refl
  update_where_absent k p f (x ∷ xs) n h = ground (arith, h x, update_where_absent k p f xs)

  remove_where_absent :
      (k : ℕ) (xs : List A)
      → any (λ y. key y == k) xs ≡ false
      → remove_where (λ y. key y == k) xs ≡ xs
  remove_where_absent k [] n = refl
  remove_where_absent k (x ∷ xs) n = ground (arith, remove_where_absent k xs)

  -- An update of one row changes a count by what the row changes by.
  pub count-update_where :
      (k : ℕ) (p q : A → Bool) (f : A → A) (m : A) (xs : List A)
      → Distinct key xs
      → find? (λ y. key y == k) xs ≡ some m
      → ((x : A) → p x ≡ true → key x ≡ k)
      → p m ≡ true
      → count q (update_where p f xs) + indicator (q m) ≡ count q xs + indicator (q (f m))
  count-update_where k p q f m [] d h i g = ground arith
  count-update_where k p q f m (x ∷ xs) d h i g = elim (Bool-cases (key x == k)) [
    | inl e ↦
        let same : x ≡ m = ground arith in
        let absent : any (λ y. key y == k) xs ≡ false = ground (arith, d.0) in
        ground (arith, update_where_absent k p f xs absent i)
    | inr e ↦ ground (arith, i x, count-update_where k p q f m xs d.1 (ground arith) i g)
  ]

  pub count-remove_where :
      (k : ℕ) (q : A → Bool) (m : A) (xs : List A)
      → Distinct key xs
      → find? (λ y. key y == k) xs ≡ some m
      → count q (remove_where (λ y. key y == k) xs) + indicator (q m) ≡ count q xs
  count-remove_where k q m [] d h = ground arith
  count-remove_where k q m (x ∷ xs) d h = elim (Bool-cases (key x == k)) [
    | inl e ↦
        let same : x ≡ m = ground arith in
        let absent : any (λ y. key y == k) xs ≡ false = ground (arith, d.0) in
        ground (arith, remove_where_absent k xs absent)
    | inr e ↦ ground (arith, count-remove_where k q m xs d.1 (ground arith))
  ]

  -- A selection does not see an update or a removal of one row outside it.
  pub select-update_key :
      (k : ℕ) (p q : A → Bool) (f : A → A) (m : A) (xs : List A)
      → Distinct key xs
      → find? (λ y. key y == k) xs ≡ some m
      → ((x : A) → q x ≡ true → key x ≡ k)
      → p m ≡ false
      → p (f m) ≡ false
      → select p (update_where q f xs) ≡ select p xs
  select-update_key k p q f m [] d h i n n' = refl
  select-update_key k p q f m (x ∷ xs) d h i n n' = elim (Bool-cases (key x == k)) [
    | inl e ↦
        let same : x ≡ m = ground arith in
        let absent : any (λ y. key y == k) xs ≡ false = ground (arith, d.0) in
        ground (arith, update_where_absent k q f xs absent i)
    | inr e ↦ ground (arith, i x, select-update_key k p q f m xs d.1 (ground arith) i n n')
  ]

  pub select-remove_key :
      (k : ℕ) (p : A → Bool) (m : A) (xs : List A)
      → Distinct key xs
      → find? (λ y. key y == k) xs ≡ some m
      → p m ≡ false
      → select p (remove_where (λ y. key y == k) xs) ≡ select p xs
  select-remove_key k p m [] d h n = refl
  select-remove_key k p m (x ∷ xs) d h n = elim (Bool-cases (key x == k)) [
    | inl e ↦
        let same : x ≡ m = ground arith in
        let absent : any (λ y. key y == k) xs ≡ false = ground (arith, d.0) in
        ground (arith, remove_where_absent k xs absent)
    | inr e ↦ ground (arith, select-remove_key k p m xs d.1 (ground arith) n)
  ]

  -- A row that some test finds is the one under its key.
  pub find?-key :
      (p : A → Bool) (m : A) (xs : List A)
      → Distinct key xs
      → find? p xs ≡ some m
      → find? (λ y. key y == key m) xs ≡ some m
  find?-key p m [] d h = ground arith
  find?-key p m (x ∷ xs) d h = elim (Bool-cases (p x)) [
    | inl e ↦ ground arith
    | inr e ↦
        let rest = find?-key p m xs d.1 (ground arith) in
        elim (Bool-cases (key x == key m)) [
          | inl k ↦
              let absent : any (λ y. key y == key m) xs ≡ false = ground (arith, d.0) in
              ground (arith, find?-any_key (key m) xs absent)
          | inr k ↦ ground arith
        ]
  ]
