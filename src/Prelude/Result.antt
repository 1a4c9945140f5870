-- ===== src/Prelude/Result.antt =====
-- Results of code that raises: a value, or the error.
use mathlib.Core.Path.{◌≡◌, refl, subst}
use mathlib.Core.Bool.{Bool, true, false}
use mathlib.Core.Option.{Option, none, some}

pub data Result {ℓ κ} (E : Type ℓ) (A : Type κ) : Type (ℓ ⊔ κ) where
  ok : A → Result E A
  err : E → Result E A

module _ {ℓ} {E : Type ℓ} where
  infixl 5 ◌>>=◌ ◌>>◌
  abbrev pub ◌>>=◌ {κ μ} : {A : Type κ} {B : Type μ} → Result E A → (A → Result E B) → Result E B
  ok a >>= f = f a
  err e >>= f = err e

  abbrev pub ◌>>◌ {κ} : {B : Type κ} → Result E (Unit {0}) → Result E B → Result E B
  m >> k = m >>= λ _. k

  -- `if not b: raise e`
  abbrev pub guard : Bool → E → Result E (Unit {0})
  guard true e = ok tt
  guard false e = err e

  -- `if x is None: raise e`
  abbrev pub require {κ} : {A : Type κ} → Option A → E → Result E A
  require none e = err e
  require (some a) e = ok a

  -- The parts of a successful sequence.
  pub >>=-eq_ok {κ μ} :
      {A : Type κ} {B : Type μ} (m : Result E A) (f : A → Result E B) {b : B}
      → (m >>= f) ≡ ok b
      → (a : A) × (m ≡ ok a) × (f a ≡ ok b)
  >>=-eq_ok (ok a) f h = (a, refl, h)
  >>=-eq_ok (err e) f h = cc

  pub guard-eq_ok {κ} :
      {B : Type κ} (b : Bool) (e : E) (k : Result E B) {r : B}
      → (guard b e >> k) ≡ ok r
      → (b ≡ true) × (k ≡ ok r)
  guard-eq_ok true e k h = (refl, h)
  guard-eq_ok false e k h = cc

  pub require-eq_ok {κ μ} :
      {A : Type κ} {B : Type μ} (o : Option A) (e : E) (f : A → Result E B) {r : B}
      → (require o e >>= f) ≡ ok r
      → (a : A) × (o ≡ some a) × (f a ≡ ok r)
  require-eq_ok none e f h = cc
  require-eq_ok (some a) e f h = (a, refl, h)

-- the injectivity of `ok`
pub ok-injective {ℓ κ} :
    {E : Type ℓ} {A : Type κ} {a b : A} → ◌≡◌ {A = Result E A} (ok a) (ok b) → a ≡ b
ok-injective h = cc

-- Each error of a result satisfies `P`.
module _ {ℓ μ} {E : Type ℓ} (P : E → Type μ) where
  abbrev pub Raises {κ} : {A : Type κ} → Result E A → Type μ
  Raises (ok a) = Unit
  Raises (err e) = P e

  pub Raises->>= {κ ν} :
      {A : Type κ} {B : Type ν} (m : Result E A) (f : A → Result E B)
      → Raises m
      → ((a : A) → Raises (f a))
      → Raises (m >>= f)
  Raises->>= (ok a) f h k = k a
  Raises->>= (err e) f h k = h

  pub Raises-require {κ} : {A : Type κ} (o : Option A) (e : E) → P e → Raises (require o e)
  Raises-require none e h = h
  Raises-require (some a) e h = tt

  pub Raises-guard : (b : Bool) (e : E) → P e → Raises (guard b e)
  Raises-guard true e h = tt
  Raises-guard false e h = h

  pub Raises-eq_err {κ} : {A : Type κ} (m : Result E A) (e : E) → Raises m → m ≡ err e → P e
  Raises-eq_err m e h k = subst (λ n. Raises n) k h
