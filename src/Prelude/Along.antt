-- ===== src/Prelude/Along.antt =====
-- Two lists related position by position, and look-ups by position.
use Prim.Native.Nat.{ℕ, zero, suc, ◌≤◌}
use mathlib.Core.Path.{◌≡◌, subst}
use mathlib.Core.Option.{some, some-injective}
use mathlib.Core.List.{List, [], ◌∷◌}
use native.Mathlib.Omega.{arith}
use roborecon.Prelude.Lists.{All, length, get_elem?}

-- `R` relates the two lists position by position, and `S` holds for the outcomes that are left.
abbrev pub Along {ℓ κ} :
    {A : Type ℓ} {B : Type κ} → (A → B → Type 0) → (B → Type 0) → List A → List B → Type 0
Along R S [] os = All S os
Along R S (e ∷ es) [] = ⊥
Along R S (e ∷ es) (o ∷ os) = R e o × Along R S es os

pub Along-get {ℓ κ} :
    {A : Type ℓ} {B : Type κ} (R : A → B → Type 0) (S : B → Type 0) (es : List A) (os : List B)
    (i : ℕ) {e : A} {o : B}
    → Along R S es os
    → get_elem? es i ≡ some e
    → get_elem? os i ≡ some o
    → R e o
Along-get R S [] os i h p q = cc
Along-get R S (x ∷ es) [] i h p q = absurd h
Along-get R S (x ∷ es) (y ∷ os) zero {e} h p q =
    subst (λ b. R e b) (some-injective _ _ q) (subst (λ a. R a y) (some-injective _ _ p) h.0)
Along-get R S (x ∷ es) (y ∷ os) (suc i) h p q = Along-get R S es os i h.1 p q

pub All-get {ℓ} :
    {B : Type ℓ} (S : B → Type 0) (os : List B) (i : ℕ) {o : B}
    → All S os
    → get_elem? os i ≡ some o
    → S o
All-get S [] i h q = cc
All-get S (y ∷ os) zero h q = subst S (some-injective _ _ q) h.0
All-get S (y ∷ os) (suc i) h q = All-get S os i h.1 q

pub Along-rest {ℓ κ} :
    {A : Type ℓ} {B : Type κ} (R : A → B → Type 0) (S : B → Type 0) (es : List A) (os : List B)
    (i : ℕ) {o : B}
    → Along R S es os
    → length es ≤ i
    → get_elem? os i ≡ some o
    → S o
Along-rest R S [] os i h le q = All-get S os i h q
Along-rest R S (x ∷ es) [] i h le q = absurd h
Along-rest R S (x ∷ es) (y ∷ os) zero h le q = absurd (omega arith)
Along-rest R S (x ∷ es) (y ∷ os) (suc i) h le q = Along-rest R S es os i h.1 (omega arith) q

pub Along-length {ℓ κ} :
    {A : Type ℓ} {B : Type κ} (R : A → B → Type 0) (S : B → Type 0) (es : List A) (os : List B)
    → Along R S es os
    → length es ≤ length os
Along-length R S [] os h = omega arith
Along-length R S (x ∷ es) [] h = absurd h
Along-length R S (x ∷ es) (y ∷ os) h = omega (arith, Along-length R S es os h.1)
