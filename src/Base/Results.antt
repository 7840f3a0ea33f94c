-- ===== src/Base/Results.antt =====
-- Results of code that may raise: the exception is the value of `err`.
use mathlib.Core.Path.{◌≡◌, refl}
use mathlib.Core.Bool.{Bool, true, false}

pub data Result {ℓ κ} (E : Type ℓ) (A : Type κ) : Type (ℓ ⊔ κ) where
  err : E → Result E A
  ok : A → Result E A

module _ {ℓ} {E : Type ℓ} where
  -- `if test: raise e`
  abbrev pub reject_if : Bool → E → Result E (Unit {0})
  reject_if false _ = ok tt
  reject_if true e = err e

  -- `if not test: raise e`
  abbrev pub guard : Bool → E → Result E (Unit {0})
  guard false e = err e
  guard true _ = ok tt

  infixl 5 ◌>>=◌ ◌>>◌
  abbrev pub ◌>>=◌ {κ λ'} : {A : Type κ} {B : Type λ'} → Result E A → (A → Result E B) → Result E B
  err e >>= next = err e
  ok value >>= next = next value

  abbrev pub ◌>>◌ {κ} : {B : Type κ} → Result E (Unit {0}) → Result E B → Result E B
  first >> last = first >>= (λ _. last)

  -- A chain that succeeds has a first part that does.
  pub >>=-eq-ok {κ λ'} :
      {A : Type κ} {B : Type λ'} (m : Result E A) (f : A → Result E B) {b : B}
      → (m >>= f) ≡ ok b
      → (a : A) × (m ≡ ok a) × (f a ≡ ok b)
  >>=-eq-ok (err e) f h = cc
  >>=-eq-ok (ok a) f h = (a, refl, h)

  -- A chain whose first part succeeds goes on with its value.
  pub ok->>= {κ λ'} :
      {A : Type κ} {B : Type λ'} (m : Result E A) (f : A → Result E B) {a : A} {r : Result E B}
      → m ≡ ok a
      → f a ≡ r
      → (m >>= f) ≡ r
  ok->>= m f e h = rw e h

  pub then-ok {κ} :
      {B : Type κ} (m : Result E (Unit {0})) (k : Result E B) {b : B}
      → (m >> k) ≡ ok b
      → (m ≡ ok tt) × (k ≡ ok b)
  then-ok (err e) k h = cc
  then-ok (ok tt) k h = (refl, h)

  pub ok-injective {κ} : {A : Type κ} {a b : A} → ◌≡◌ {A = Result E A} (ok a) (ok b) → a ≡ b
  ok-injective h = cc

  pub err_not_ok {κ} : {A : Type κ} {e : E} {a : A} → ◌≡◌ {A = Result E A} (err e) (ok a) → ⊥
  err_not_ok h = cc

  pub guard-ok : (b : Bool) (e : E) → guard b e ≡ ok tt → b ≡ true
  guard-ok true e h = refl
  guard-ok false e h = cc

  pub reject_if-ok : (b : Bool) (e : E) → reject_if b e ≡ ok tt → b ≡ false
  reject_if-ok false e h = refl
  reject_if-ok true e h = cc
