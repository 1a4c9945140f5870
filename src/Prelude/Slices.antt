-- ===== src/Prelude/Slices.antt =====
-- Slices of a list: `take` and `drop` together.
use mathlib.Core.Path.{◌≡◌, refl, sym, ap, ◌∙◌}
use mathlib.Core.List.{List, [], ◌∷◌, ◌++◌}
use Prim.Native.Nat.{ℕ, zero, suc, ◌+◌, ◌≤◌}
use native.Mathlib.Omega.{arith}
use roborecon.Prelude.Lists.{length, take, drop}

module _ {ℓ} {A : Type ℓ} where
  pub take-short : (n : ℕ) (xs : List A) → length xs ≤ n → take n xs ≡ xs
  unfolding take
  take-short zero [] h = refl
  take-short zero (x ∷ xs) h = absurd (omega (arith, h))
  take-short (suc n) [] h = refl
  take-short (suc n) (x ∷ xs) h = ap (λ ys. x ∷ ys) (take-short n xs (omega (arith, h)))

  pub take-append-drop : (n : ℕ) (xs : List A) → take n xs ++ drop n xs ≡ xs
  unfolding take drop
  take-append-drop zero xs = refl
  take-append-drop (suc n) [] = refl
  take-append-drop (suc n) (x ∷ xs) = ap (λ ys. x ∷ ys) (take-append-drop n xs)

  drop-nil : (n : ℕ) → drop {A = A} n [] ≡ []
  unfolding drop
  drop-nil zero = refl
  drop-nil (suc n) = refl

  pub drop-drop : (m n : ℕ) (xs : List A) → drop n (drop m xs) ≡ drop (m + n) xs
  unfolding drop
  drop-drop zero n xs = ap (λ k. drop k xs) (omega arith)
  drop-drop (suc m) n [] = drop-nil n ∙ sym (drop-nil (suc m + n))
  drop-drop (suc m) n (x ∷ xs) = drop-drop m n xs ∙ ap (λ k. drop k (x ∷ xs)) (shift m n)
    where
      shift : (a b : ℕ) → suc (a + b) ≡ suc a + b
      shift a b = omega arith

  take-nil : (n : ℕ) → take {A = A} n [] ≡ []
  unfolding take
  take-nil zero = refl
  take-nil (suc n) = refl

  pub take_add : (m n : ℕ) (xs : List A) → take m xs ++ take n (drop m xs) ≡ take (m + n) xs
  unfolding take drop
  take_add zero n xs = ap (λ k. take k xs) (omega arith)
  take_add (suc m) n [] = take-nil n ∙ sym (take-nil (suc m + n))
  take_add (suc m) n (x ∷ xs) =
      ap (λ ys. x ∷ ys) (take_add m n xs) ∙ ap (λ k. take k (x ∷ xs)) (shift m n)
    where
      shift : (a b : ℕ) → suc (a + b) ≡ suc a + b
      shift a b = omega arith
