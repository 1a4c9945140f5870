-- ===== src/Prelude/Order.antt =====
-- Python's `sorted` and `list.sort`: a stable sort by a Boolean `<` on keys.
use mathlib.Core.Path.{◌≡◌, refl}
use mathlib.Core.Logic.{◌⊎◌, inl, inr}
use mathlib.Core.Bool.{Bool, true, false}
use mathlib.Core.List.{List, [], ◌∷◌}
use Prim.Native.Nat.{suc}
use native.Mathlib.Omega.{arith}
use roborecon.Prelude.Tests.{if◌then◌else◌, Bool-cases}
use roborecon.Prelude.Lists.{Member, All, length}

module _ {ℓ} {A : Type ℓ} (lt : A → A → Bool) where
  -- before the first element that is not smaller
  unfoldable pub insert : A → List A → List A
  insert x [] = x ∷ []
  insert x (y ∷ ys) = if lt y x then y ∷ insert x ys else x ∷ y ∷ ys

  unfoldable pub sort : List A → List A
  unfolding insert
  sort [] = []
  sort (x ∷ xs) = insert x (sort xs)

  length-insert : (x : A) (xs : List A) → length (insert x xs) ≡ suc (length xs)
  unfolding insert
  length-insert x [] = refl
  length-insert x (y ∷ ys) = ground (arith, length-insert x ys)

  pub length-sort : (xs : List A) → length (sort xs) ≡ length xs
  unfolding sort
  length-sort [] = refl
  length-sort (x ∷ xs) = ground (arith, length-sort xs, length-insert x (sort xs))

  Member-insert : (z x : A) (xs : List A) → Member z (insert x xs) → (z ≡ x) ⊎ Member z xs
  unfolding insert
  Member-insert z x [] (inl e) = inl e
  Member-insert z x [] (inr m) = absurd m.1
  Member-insert z x (y ∷ ys) m = ground (arith, Member-insert z x ys)

  insert-Member : (z x : A) (xs : List A) → (z ≡ x) ⊎ Member z xs → Member z (insert x xs)
  unfolding insert
  insert-Member z x [] (inl e) = inl e
  insert-Member z x [] (inr m) = absurd m.1
  insert-Member z x (y ∷ ys) m = ground (arith, insert-Member z x ys)

  -- Sorting keeps the elements, in both directions.
  pub Member-sort : (z : A) (xs : List A) → Member z (sort xs) → Member z xs
  unfolding sort
  Member-sort z [] m = m
  Member-sort z (x ∷ xs) m = ground (arith, Member-insert z x (sort xs), Member-sort z xs)

  pub sort-Member : (z : A) (xs : List A) → Member z xs → Member z (sort xs)
  unfolding sort
  sort-Member z [] m = m
  sort-Member z (x ∷ xs) m = ground (arith, insert-Member z x (sort xs), sort-Member z xs)

  module _ {κ} (P : A → Type κ) where
    All-insert : (x : A) (xs : List A) → P x → All P xs → All P (insert x xs)
    unfolding insert
    All-insert x [] p h = (p, tt)
    All-insert x (y ∷ ys) p h = ground (arith, All-insert x ys p)

    pub All-sort : (xs : List A) → All P xs → All P (sort xs)
    unfolding sort
    All-sort [] h = tt
    All-sort (x ∷ xs) h = All-insert x (sort xs) h.0 (All-sort xs h.1)

  -- Each element is followed by elements that are not smaller.
  abbrev pub IsSorted : List A → Type 0
  IsSorted [] = Unit
  IsSorted (x ∷ xs) = All (λ y. lt y x ≡ false) xs × IsSorted xs

  module _ (asym : (x y : A) → lt x y ≡ true → lt y x ≡ false)
      (trans : (x y z : A) → lt y x ≡ false → lt z y ≡ false → lt z x ≡ false) where
    All-trans :
        (x y : A) (xs : List A)
        → lt y x ≡ false
        → All (λ z. lt z y ≡ false) xs
        → All (λ z. lt z x ≡ false) xs
    All-trans x y [] h a = tt
    All-trans x y (z ∷ zs) h a = (trans x y z h a.0, All-trans x y zs h a.1)

    insert-IsSorted : (x : A) (xs : List A) → IsSorted xs → IsSorted (insert x xs)
    unfolding insert
    insert-IsSorted x [] s = (tt, tt)
    insert-IsSorted x (y ∷ ys) s = elim (Bool-cases (lt y x)) [
      | inl t ↦
          rw t (All-insert (λ z. lt z y ≡ false) x ys (asym y x t) s.0, insert-IsSorted x ys s.1)
      | inr f ↦ rw f ((f, All-trans x y ys f s.0), (s.0, s.1))
    ]

    pub sort-IsSorted : (xs : List A) → IsSorted (sort xs)
    unfolding sort
    sort-IsSorted [] = tt
    sort-IsSorted (x ∷ xs) = insert-IsSorted x (sort xs) (sort-IsSorted xs)

    -- No other element of the list is smaller than the first of the sorted list.
    pub head-sort : (x : A) (xs rest : List A) → sort xs ≡ x ∷ rest → All (λ y. lt y x ≡ false) rest
    head-sort x xs rest e = (rw e at (sort-IsSorted xs)).0
