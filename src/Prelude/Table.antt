-- ===== src/Prelude/Table.antt =====
-- Tables of rows: the first row that satisfies a test, and a change of the rows that satisfy one.
use mathlib.Core.Path.{◌≡◌}
use mathlib.Core.Bool.{Bool, true, false}
use mathlib.Core.Option.{Option, none, some}
use mathlib.Core.List.{List, [], ◌∷◌}
use native.Mathlib.Omega.{arith}
use roborecon.Prelude.Tests.{if◌then◌else◌}
use roborecon.Prelude.Lists.{Member, All}

module _ {ℓ} {A : Type ℓ} where
  unfoldable pub find : (A → Bool) → List A → Option A
  find p [] = none
  find p (x ∷ xs) = if p x then some x else find p xs

  unfoldable pub update : (A → Bool) → (A → A) → List A → List A
  update p f [] = []
  update p f (x ∷ xs) = (if p x then f x else x) ∷ update p f xs

  pub find-eq_some :
      (p : A → Bool) (xs : List A) (x : A) → find p xs ≡ some x → Member x xs × (p x ≡ true)
  unfolding find
  find-eq_some p [] x h = cc
  find-eq_some p (y ∷ ys) x h = ground (arith, find-eq_some p ys x)

  pub find-eq_none : (p : A → Bool) (xs : List A) → find p xs ≡ none → All (λ x. p x ≡ false) xs
  unfolding find
  find-eq_none p [] h = tt
  find-eq_none p (y ∷ ys) h = ground (arith, find-eq_none p ys)

  -- A change that keeps the test is found.
  pub find-update :
      (p : A → Bool) (f : A → A)
      → ((x : A) → p (f x) ≡ p x)
      → (xs : List A) (x : A) → find p xs ≡ some x
      → find p (update p f xs) ≡ some (f x)
  unfolding find update
  find-update p f keeps [] x h = cc
  find-update p f keeps (y ∷ ys) x h = ground (arith, keeps y, find-update p f keeps ys x)
