-- ===== src/Prelude/Dict.antt =====
-- Python dicts as association lists: comprehensions, `setdefault(k, []).append(x)` and `.get`.
use mathlib.Core.Path.{◌≡◌, refl, sym, ap, ◌∙◌}
use mathlib.Core.Logic.{◌⊎◌, inl, inr}
use mathlib.Core.Bool.{Bool, true, false}
use mathlib.Core.Option.{Option, none, some, some-injective}
use mathlib.Core.List.{List, [], ◌∷◌, ◌++◌, append-nil, append_assoc}
use native.Mathlib.Omega.{arith}
use roborecon.Prelude.Tests.{if◌then◌else◌, Bool-cases}
use roborecon.Prelude.Lists.{Member, All, filter}

module _ {ℓ κ} {K : Type ℓ} {V : Type κ} (eq : K → K → Bool) where
  -- `d.get(k)`
  unfoldable pub lookup : K → List (K × V) → Option V
  lookup k [] = none
  lookup k ((j, v) ∷ d) = if eq k j then some v else lookup k d

  -- `d[k] = v`
  unfoldable pub insert : K → V → List (K × V) → List (K × V)
  insert k v [] = (k, v) ∷ []
  insert k v ((j, w) ∷ d) = if eq k j then (j, v) ∷ d else (j, w) ∷ insert k v d

  -- `{key(v): v for v in vs}`: a later value replaces an earlier one
  index_into : (V → K) → List V → List (K × V) → List (K × V)
  index_into key [] d = d
  index_into key (v ∷ vs) d = index_into key vs (insert (key v) v d)

  unfoldable pub index : (V → K) → List V → List (K × V)
  unfolding index_into insert
  index key vs = index_into key vs []

module _ {ℓ κ} {K : Type ℓ} {A : Type κ} (eq : K → K → Bool) where
  -- `d.get(k, [])`
  unfoldable pub get : K → List (K × List A) → List A
  get k [] = []
  get k ((j, xs) ∷ d) = if eq k j then xs else get k d

  -- `d.setdefault(k, []).append(x)`
  unfoldable pub append_to : K → A → List (K × List A) → List (K × List A)
  append_to k x [] = (k, x ∷ []) ∷ []
  append_to k x ((j, xs) ∷ d) = if eq k j then (j, xs ++ x ∷ []) ∷ d else (j, xs) ∷ append_to k x d

  module _ (key : A → K) where
    -- the loop `for x in xs: d.setdefault(key(x), []).append(x)`
    group_into : List A → List (K × List A) → List (K × List A)
    group_into [] d = d
    group_into (x ∷ xs) d = group_into xs (append_to (key x) x d)

    unfoldable pub group : List A → List (K × List A)
    unfolding group_into append_to
    group xs = group_into xs []

  module _ (same : (a b : K) → eq a b ≡ true → a ≡ b) (reflexive : (a : K) → eq a a ≡ true) where
    get-append_to :
        (k j : K) (x : A) (d : List (K × List A))
        → get k (append_to j x d) ≡ (if eq k j then get k d ++ x ∷ [] else get k d)
    unfolding get append_to
    get-append_to k j x [] = elim (Bool-cases (eq k j)) [ inl t ↦ rw t | inr f ↦ rw f ]
    get-append_to k j x ((i, xs) ∷ d) =
        ground (arith, same j i, same k j, same k i, get-append_to k j x d)

    module _ (key : A → K) where
      get-group_into :
          (k : K) (xs : List A) (d : List (K × List A))
          → get k (group_into key xs d) ≡ get k d ++ filter (λ x. eq k (key x)) xs
      unfolding group_into filter
      get-group_into k [] d = sym (append-nil (get k d))
      get-group_into k (x ∷ xs) d =
          rw (get-group_into k xs (append_to (key x) x d), get-append_to k (key x) x d)
            (elim (Bool-cases (eq k (key x))) [
              | inl t ↦ rw t (append_assoc (get k d) (x ∷ []) (filter (λ y. eq k (key y)) xs))
              | inr f ↦ rw f
            ])

      -- What a key of the grouped dict holds: the elements with that key, in their order.
      pub get-group : (k : K) (xs : List A) → get k (group key xs) ≡ filter (λ x. eq k (key x)) xs
      unfolding group get
      get-group k xs = get-group_into k xs []

-- No two elements have the same key.
abbrev pub DistinctKeys {ℓ κ} :
    {K : Type ℓ} {V : Type κ} → (K → K → Bool) → (V → K) → List V → Type 0
DistinctKeys eq key [] = Unit
DistinctKeys eq key (v ∷ vs) = All (λ w. eq (key v) (key w) ≡ false) vs × DistinctKeys eq key vs

module _ {ℓ κ} {K : Type ℓ} {V : Type κ} (eq : K → K → Bool)
    (same : (a b : K) → eq a b ≡ true → a ≡ b) (reflexive : (a : K) → eq a a ≡ true) where
  lookup-insert :
      (k j : K) (v : V) (d : List (K × V))
      → lookup eq k (insert eq j v d) ≡ (if eq k j then some v else lookup eq k d)
  unfolding lookup insert
  lookup-insert k j v [] = refl
  lookup-insert k j v ((i, w) ∷ d) =
      ground (arith, same j i, same k j, same k i, reflexive i, lookup-insert k j v d)

  -- A key that is present stays present.
  lookup-insert-some :
      (k j : K) (v w : V) (d : List (K × V))
      → lookup eq k d ≡ some w
      → (u : V) × (lookup eq k (insert eq j v d) ≡ some u)
  lookup-insert-some k j v w d h = elim (Bool-cases (eq k j)) [
    | inl t ↦ (v, rw (lookup-insert k j v d, t) refl)
    | inr f ↦ (w, rw (lookup-insert k j v d, f) h)
  ]

  module _ (key : V → K) where
    lookup-index_into_other :
        (k : K) (vs : List V) (d : List (K × V))
        → All (λ w. eq k (key w) ≡ false) vs
        → lookup eq k (index_into eq key vs d) ≡ lookup eq k d
    unfolding index_into
    lookup-index_into_other k [] d h = refl
    lookup-index_into_other k (v ∷ vs) d h =
        lookup-index_into_other k vs (insert eq (key v) v d) h.1
        ∙ rw (lookup-insert k (key v) v d, h.0) refl

    lookup-index_into :
        (v : V) (vs : List V) (d : List (K × V))
        → DistinctKeys eq key vs
        → Member v vs
        → lookup eq (key v) (index_into eq key vs d) ≡ some v
    unfolding index_into
    lookup-index_into v [] d h m = absurd m.1
    lookup-index_into v (w ∷ vs) d h (inl e) = rw e (
        lookup-index_into_other (key w) vs (insert eq (key w) w d) h.0
        ∙ rw (lookup-insert (key w) (key w) w d, reflexive (key w)) refl)
    lookup-index_into v (w ∷ vs) d h (inr m) = lookup-index_into v vs (insert eq (key w) w d) h.1 m

    lookup-index_into-some :
        (k : K) (w : V) (vs : List V) (d : List (K × V))
        → lookup eq k d ≡ some w
        → (u : V) × (lookup eq k (index_into eq key vs d) ≡ some u)
    unfolding index_into
    lookup-index_into-some k w [] d h = (w, h)
    lookup-index_into-some k w (v ∷ vs) d h =
        let next = lookup-insert-some k (key v) v w d h in
        lookup-index_into-some k next.0 vs (insert eq (key v) v d) next.1

    lookup-index_into-Member :
        (v : V) (vs : List V) (d : List (K × V))
        → Member v vs
        → (u : V) × (lookup eq (key v) (index_into eq key vs d) ≡ some u)
    unfolding index_into
    lookup-index_into-Member v [] d m = absurd m.1
    lookup-index_into-Member v (w ∷ vs) d (inl e) =
        lookup-index_into-some (key v) w vs (insert eq (key w) w d)
          (rw (lookup-insert (key v) (key w) w d, e, reflexive (key w)) refl)
    lookup-index_into-Member v (w ∷ vs) d (inr m) =
        lookup-index_into-Member v vs (insert eq (key w) w d) m

    -- With distinct keys the dict holds each element under its key.
    pub lookup-index :
        (v : V) (vs : List V)
        → DistinctKeys eq key vs
        → Member v vs
        → lookup eq (key v) (index eq key vs) ≡ some v
    unfolding index
    lookup-index v vs h m = lookup-index_into v vs [] h m

    -- The key of each element is present.
    pub lookup-index-Member :
        (v : V) (vs : List V)
        → Member v vs
        → (u : V) × (lookup eq (key v) (index eq key vs) ≡ some u)
    unfolding index
    lookup-index-Member v vs m = lookup-index_into-Member v vs [] m

    index_into-Member :
        (k : K) (v : V) (vs : List V) (d : List (K × V))
        → lookup eq k (index_into eq key vs d) ≡ some v
        → Member v vs ⊎ (lookup eq k d ≡ some v)
    unfolding index_into
    index_into-Member k v [] d h = inr h
    index_into-Member k v (w ∷ vs) d h = elim (index_into-Member k v vs (insert eq (key w) w d) h) [
      | inl m ↦ inl (inr m)
      | inr l ↦ elim (Bool-cases (eq k (key w))) [
        | inl t ↦
            inl
              (inl (sym (some-injective _ _ (sym (rw (lookup-insert k (key w) w d, t) refl) ∙ l))))
        | inr f ↦ inr (sym (rw (lookup-insert k (key w) w d, f) refl) ∙ l)
      ]
    ]

    -- The dict holds nothing but the elements it was made of.
    pub index-Member :
        (k : K) (v : V) (vs : List V) → lookup eq k (index eq key vs) ≡ some v → Member v vs
    unfolding index lookup
    index-Member k v vs h = elim (index_into-Member k v vs [] h) [ inl m ↦ m | inr n ↦ cc ]

module _ {ℓ κ} {K : Type ℓ} {V : Type κ} (eq : K → K → Bool) where
  Member-insert :
      (k : K) (v : V) (d : List (K × V)) (e : K × V)
      → Member e (insert eq k v d)
      → (e.1 ≡ v) ⊎ Member e d
  unfolding insert
  Member-insert k v [] e (inl h) = inl (ap (λ p. p.1) h)
  Member-insert k v [] e (inr m) = absurd m.1
  Member-insert k v ((j, w) ∷ d) e m = elim (Bool-cases (eq k j)) [
    | inl t ↦
        let n : (e ≡ (j, v)) ⊎ Member e d = rw (insert, t) at m in
        elim n [ inl h ↦ inl (ap (λ p. p.1) h) | inr l ↦ inr (inr l) ]
    | inr f ↦
        let n : (e ≡ (j, w)) ⊎ Member e (insert eq k v d) = rw (insert, f) at m in
        elim n [
          | inl h ↦ inr (inl h)
          | inr l ↦ elim (Member-insert k v d e l) [ inl h ↦ inl h | inr i ↦ inr (inr i) ]
        ]
  ]

  Member-index_into :
      (key : V → K) (vs : List V) (d : List (K × V)) (e : K × V)
      → Member e (index_into eq key vs d)
      → Member e.1 vs ⊎ Member e d
  unfolding index_into
  Member-index_into key [] d e m = inr m
  Member-index_into key (v ∷ vs) d e m =
      elim (Member-index_into key vs (insert eq (key v) v d) e m) [
        | inl k ↦ inl (inr k)
        | inr k ↦ elim (Member-insert (key v) v d e k) [ inl h ↦ inl (inl h) | inr i ↦ inr i ]
      ]

  -- The values of the dict are elements of the list.
  pub Member-index :
      (key : V → K) (vs : List V) (e : K × V) → Member e (index eq key vs) → Member e.1 vs
  unfolding index
  Member-index key vs e m = elim (Member-index_into key vs [] e m) [
    | inl k ↦ k
    | inr k ↦ absurd k.1
  ]
