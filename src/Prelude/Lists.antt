-- ===== src/Prelude/Lists.antt =====
-- Lists with Boolean tests, and membership and universal predicates by recursion.
use Prim.Native.Nat.{ℕ, zero, suc, ◌+◌, ◌-◌, min}
use mathlib.Core.Path.{◌≡◌, refl, ap}
use mathlib.Core.Logic.{◌⊎◌, inl, inr}
use mathlib.Core.Bool.{Bool, true, false, ◌&&◌, ◌||◌, false≢true}
use mathlib.Core.Option.{Option, none, some}
use mathlib.Core.List.{List, [], ◌∷◌, ◌++◌, map}
use native.Mathlib.Omega.{arith}
use roborecon.Prelude.Tests.{if◌then◌else◌, Bool-cases, is_empty}

-- One of the elements.
abbrev pub Member {ℓ} : {A : Type ℓ} → A → List A → Type ℓ
Member x [] = Unit × ⊥
Member x (y ∷ ys) = (x ≡ y) ⊎ Member x ys

-- Each element satisfies `P`.
abbrev pub All {ℓ κ} : {A : Type ℓ} → (A → Type κ) → List A → Type κ
All P [] = Unit
All P (x ∷ xs) = P x × All P xs

module _ {ℓ} {A : Type ℓ} where
  abbrev pub length : List A → ℕ
  length [] = 0
  length (x ∷ xs) = suc (length xs)

  unfoldable pub filter : (A → Bool) → List A → List A
  filter p [] = []
  filter p (x ∷ xs) = if p x then x ∷ filter p xs else filter p xs

  unfoldable pub any : (A → Bool) → List A → Bool
  any p [] = false
  any p (x ∷ xs) = p x || any p xs

  unfoldable pub all : (A → Bool) → List A → Bool
  all p [] = true
  all p (x ∷ xs) = p x && all p xs

  unfoldable pub take : ℕ → List A → List A
  take zero xs = []
  take (suc n) [] = []
  take (suc n) (x ∷ xs) = x ∷ take n xs

  unfoldable pub drop : ℕ → List A → List A
  drop zero xs = xs
  drop (suc n) [] = []
  drop (suc n) (x ∷ xs) = drop n xs

  abbrev pub get_elem? : List A → ℕ → Option A
  get_elem? [] i = none
  get_elem? (x ∷ xs) zero = some x
  get_elem? (x ∷ xs) (suc i) = get_elem? xs i

  pub length-take : (n : ℕ) (xs : List A) → length (take n xs) ≡ min n (length xs)
  unfolding take
  length-take zero xs = omega arith
  length-take (suc n) [] = omega arith
  length-take (suc n) (x ∷ xs) = omega (arith, length-take n xs)

  pub length-drop : (n : ℕ) (xs : List A) → length (drop n xs) ≡ length xs - n
  unfolding drop
  length-drop zero xs = omega arith
  length-drop (suc n) [] = omega arith
  length-drop (suc n) (x ∷ xs) = omega (arith, length-drop n xs)

  pub is_empty-append :
      (xs ys : List A) → is_empty (xs ++ ys) ≡ true → (is_empty xs ≡ true) × (is_empty ys ≡ true)
  is_empty-append [] ys h = (refl, h)
  is_empty-append (x ∷ xs) ys h = ground arith

  pub length-append : (xs ys : List A) → length (xs ++ ys) ≡ length xs + length ys
  length-append [] ys = omega arith
  length-append (x ∷ xs) ys = omega (arith, length-append xs ys)

  pub Member-filter :
      (p : A → Bool) (x : A) (xs : List A) → Member x (filter p xs) → Member x xs × (p x ≡ true)
  unfolding filter
  Member-filter p x [] m = absurd m.1
  Member-filter p x (y ∷ ys) m = ground (arith, Member-filter p x ys)

  pub filter-Member :
      (p : A → Bool) (x : A) (xs : List A) → Member x xs → p x ≡ true → Member x (filter p xs)
  unfolding filter
  filter-Member p x [] m h = m
  filter-Member p x (y ∷ ys) m h = ground (arith, filter-Member p x ys)

  pub filter-All : (p : A → Bool) (xs : List A) → All (λ x. p x ≡ true) (filter p xs)
  unfolding filter
  filter-All p [] = tt
  filter-All p (x ∷ xs) = ground (arith, filter-All p xs)

  pub filter-nil : (p : A → Bool) (xs : List A) → filter p xs ≡ [] → All (λ x. p x ≡ false) xs
  unfolding filter
  filter-nil p [] e = tt
  filter-nil p (x ∷ xs) e = ground (arith, filter-nil p xs)

  pub All-nil_filter : (p : A → Bool) (xs : List A) → All (λ x. p x ≡ false) xs → filter p xs ≡ []
  unfolding filter
  All-nil_filter p [] h = refl
  All-nil_filter p (x ∷ xs) h = ground (arith, All-nil_filter p xs)

  pub any-false : (p : A → Bool) (xs : List A) → any p xs ≡ false → All (λ x. p x ≡ false) xs
  unfolding any
  any-false p [] h = tt
  any-false p (x ∷ xs) h = ground (arith, any-false p xs)

  pub all-true : (p : A → Bool) (xs : List A) → all p xs ≡ true → All (λ x. p x ≡ true) xs
  unfolding all
  all-true p [] h = tt
  all-true p (x ∷ xs) h = ground (arith, all-true p xs)

  pub any-Member : (p : A → Bool) (x : A) (xs : List A) → Member x xs → p x ≡ true → any p xs ≡ true
  unfolding any
  any-Member p x [] m h = absurd m.1
  any-Member p x (y ∷ ys) m h = ground (arith, any-Member p x ys)

  pub all-Member : (p : A → Bool) (x : A) (xs : List A) → all p xs ≡ true → Member x xs → p x ≡ true
  unfolding all
  all-Member p x [] h m = absurd m.1
  all-Member p x (y ∷ ys) h m = ground (arith, all-Member p x ys)

  pub Member-append : (x : A) (xs ys : List A) → Member x (xs ++ ys) → Member x xs ⊎ Member x ys
  Member-append x [] ys m = inr m
  Member-append x (z ∷ zs) ys m = ground (arith, Member-append x zs ys)

  pub append-Member : (x : A) (xs ys : List A) → Member x xs ⊎ Member x ys → Member x (xs ++ ys)
  append-Member x [] ys (inl m) = absurd m.1
  append-Member x [] ys (inr m) = m
  append-Member x (z ∷ zs) ys (inl (inl e)) = inl e
  append-Member x (z ∷ zs) ys (inl (inr m)) = inr (append-Member x zs ys (inl m))
  append-Member x (z ∷ zs) ys (inr m) = inr (append-Member x zs ys (inr m))

  pub any-cases :
      (p : A → Bool) (xs : List A) → any p xs ≡ true → (x : A) × Member x xs × (p x ≡ true)
  unfolding any
  any-cases p [] h = absurd (false≢true h)
  any-cases p (x ∷ xs) h = elim (Bool-cases (p x)) [
    | inl t ↦ (x, inl refl, t)
    | inr f ↦ let r = any-cases p xs (rw f at h) in (r.0, inr r.1, r.2)
  ]

module _ {ℓ κ} {A : Type ℓ} (P : A → Type κ) where
  pub All-member : (x : A) (xs : List A) → All P xs → Member x xs → P x
  All-member x [] h m = absurd m.1
  All-member x (y ∷ ys) h (inl e) = rw e h.0
  All-member x (y ∷ ys) h (inr m) = All-member x ys h.1 m

  pub All-filter : (p : A → Bool) (xs : List A) → All P xs → All P (filter p xs)
  unfolding filter
  All-filter p [] h = tt
  All-filter p (x ∷ xs) h = ground (arith, All-filter p xs)

  pub all-All : (xs : List A) → ((x : A) → Member x xs → P x) → All P xs
  all-All [] h = tt
  all-All (x ∷ xs) h = (h x (inl refl), all-All xs (λ y m. h y (inr m)))

  pub All-append : (xs ys : List A) → All P xs → All P ys → All P (xs ++ ys)
  All-append [] ys h k = k
  All-append (x ∷ xs) ys h k = (h.0, All-append xs ys h.1 k)

module _ {ℓ κ μ} {A : Type ℓ} {B : Type κ} (P : B → Type μ) (f : A → B) where
  pub All-map : (xs : List A) → All (λ x. P (f x)) xs → All P (map f xs)
  All-map [] h = tt
  All-map (x ∷ xs) h = (h.0, All-map xs h.1)

module _ {ℓ κ} {A : Type ℓ} {B : Type κ} (f : A → B) where
  pub length-map : (xs : List A) → length (map f xs) ≡ length xs
  length-map [] = refl
  length-map (x ∷ xs) = ap suc (length-map xs)

  pub Member-map : (y : B) (xs : List A) → Member y (map f xs) → (x : A) × Member x xs × (y ≡ f x)
  Member-map y [] m = absurd m.1
  Member-map y (x ∷ xs) (inl e) = (x, inl refl, e)
  Member-map y (x ∷ xs) (inr m) = let r = Member-map y xs m in (r.0, inr r.1, r.2)

  pub map-Member : (x : A) (xs : List A) → Member x xs → Member (f x) (map f xs)
  map-Member x [] m = absurd m.1
  map-Member x (y ∷ ys) (inl e) = inl (ap f e)
  map-Member x (y ∷ ys) (inr m) = inr (map-Member x ys m)

module _ {ℓ κ μ} {A : Type ℓ} {P : A → Type κ} {Q : A → Type μ} (f : (x : A) → P x → Q x) where
  pub All-imp : (xs : List A) → All P xs → All Q xs
  All-imp [] h = tt
  All-imp (x ∷ xs) h = (f x h.0, All-imp xs h.1)

module _ {ℓ κ μ} {A : Type ℓ} (P : A → Type κ) (Q : A → Type μ) where
  pub All-both : (xs : List A) → All P xs → All Q xs → All (λ x. P x × Q x) xs
  All-both [] h k = tt
  All-both (x ∷ xs) h k = ((h.0, k.0), All-both xs h.1 k.1)
