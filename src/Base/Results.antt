-- ===== src/Base/Results.antt =====
-- Calls that may raise, alone and over a database. A raise rolls the transaction back, so the
-- state does not come back beside an error.
use mathlib.Core.Path.{◌≡◌, refl, sym, subst}
use mathlib.Core.Logic.{◌⊎◌, inl, inr}
use mathlib.Core.Bool.{Bool, true, false}
use mathlib.Core.Option.{Option, none, some}

pub data Result {ℓ} (E A : Type ℓ) : Type ℓ where
  ok : A → Result E A
  err : E → Result E A

abbrev pub Action {ℓ} : Type ℓ → Type ℓ → Type ℓ → Type ℓ
Action E S A = S → Result E (A × S)

module _ {ℓ} {E S : Type ℓ} where
  abbrev pub pure : {A : Type ℓ} → A → Action E S A
  pure a s = ok (a, s)

  abbrev pub raise : {A : Type ℓ} → E → Action E S A
  raise e s = err e

  abbrev pub lift : {A : Type ℓ} → Result E A → Action E S A
  lift (ok a) s = ok (a, s)
  lift (err e) s = err e

  abbrev pub gets : {A : Type ℓ} → (S → A) → Action E S A
  gets f s = ok (f s, s)

  abbrev pub modify : (S → S) → Action E S (Unit {ℓ})
  modify f s = ok (tt, f s)

  abbrev pub raise_if : Bool → E → Action E S (Unit {ℓ})
  raise_if true e s = err e
  raise_if false e s = ok (tt, s)

  abbrev pub or_raise : {A : Type ℓ} → Option A → E → Action E S A
  or_raise none e s = err e
  or_raise (some a) e s = ok (a, s)

  -- What follows a call, by how the call ended.
  abbrev pub continue : {A B : Type ℓ} → Result E (A × S) → (A → Action E S B) → Result E (B × S)
  continue (ok (a, s)) f = f a s
  continue (err e) f = err e

  infixl 5 ◌>>=◌ ◌>>◌
  abbrev pub ◌>>=◌ : {A B : Type ℓ} → Action E S A → (A → Action E S B) → Action E S B
  ◌>>=◌ m f s = continue (m s) f

  abbrev pub ◌>>◌ : {A B : Type ℓ} → Action E S A → Action E S B → Action E S B
  m >> k = m >>= λ _. k

-- Inversion of a chain that returned: its first call returned, and so did the rest.
pub continue_elim {ℓ κ} :
    {E S A B : Type ℓ} {P : Type κ} (r : Result E (A × S)) (f : A → Action E S B) {b : B × S}
    → continue r f ≡ ok b
    → ((a : A) (s : S) → r ≡ ok (a, s) → f a s ≡ ok b → P)
    → P
continue_elim (ok (a, s)) f h k = k a s refl h
continue_elim (err e) f h k = cc

-- A chain returns if its first call does and the rest does after it.
pub continue_intro {ℓ} :
    {E S A B : Type ℓ} (r : Result E (A × S)) (f : A → Action E S B) {a : A} {s : S}
    → r ≡ ok (a, s)
    → ((b : B × S) × (f a s ≡ ok b))
    → (b : B × S) × (continue r f ≡ ok b)
continue_intro r f h k = subst (λ x. (b : _) × (continue x f ≡ ok b)) (sym h) k

pub Result-cases {ℓ} :
    {E A : Type ℓ} (r : Result E A) → ((a : A) × (r ≡ ok a)) ⊎ ((e : E) × (r ≡ err e))
Result-cases (ok a) = inl (a, refl)
Result-cases (err e) = inr (e, refl)

-- The same for the actions that leave the state alone.
module _ {ℓ κ} {E S B : Type ℓ} {P : Type κ} where
  pub raise_if_elim :
      (b : Bool) (e : E) (s : S) (f : Unit {ℓ} → Action E S B) {r : B × S}
      → continue (raise_if b e s) f ≡ ok r
      → (b ≡ false → f tt s ≡ ok r → P)
      → P
  raise_if_elim true e s f h k = cc
  raise_if_elim false e s f h k = k refl h

  pub or_raise_elim :
      {A : Type ℓ} (o : Option A) (e : E) (s : S) (f : A → Action E S B) {r : B × S}
      → continue (or_raise o e s) f ≡ ok r
      → ((a : A) → o ≡ some a → f a s ≡ ok r → P)
      → P
  or_raise_elim none e s f h k = cc
  or_raise_elim (some a) e s f h k = k a refl h

  pub lift_elim :
      {A : Type ℓ} (x : Result E A) (s : S) (f : A → Action E S B) {r : B × S}
      → continue (lift x s) f ≡ ok r
      → ((a : A) → x ≡ ok a → f a s ≡ ok r → P)
      → P
  lift_elim (err e) s f h k = cc
  lift_elim (ok a) s f h k = k a refl h

-- A last call.
pub or_raise_last {ℓ} :
    {E S A : Type ℓ} (o : Option A) (e : E) (s : S) {a : A} {s' : S}
    → or_raise o e s ≡ ok (a, s')
    → (o ≡ some a) × (s ≡ s')
or_raise_last none e s h = cc
or_raise_last (some a) e s h = (cc, cc)

pub ok_eq {ℓ} :
    {E A S : Type ℓ} {a b : A} {s t : S}
    → ◌≡◌ {A = Result E (A × S)} (ok (a, s)) (ok (b, t))
    → (a ≡ b) × (s ≡ t)
ok_eq h = (cc, cc)
