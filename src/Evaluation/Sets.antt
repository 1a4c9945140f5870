-- ===== src/Evaluation/Sets.antt =====
-- Lists of ids as sets, and the ids that the predictions of a case select.
use roborecon.Prelude.{
  ℕ, ◌==◌, ==→≡, Bool, true, false, &&-eq_true, ◌≡◌, refl, inl, inr, List, [], ◌∷◌, any, any-cases,
  any-Member, ==_refl, filter, all, all-Member, Member, Member-append, append-Member, is_empty,
}
use roborecon.Engine.StageA.Outcome.{contains_id}
use roborecon.Evaluation.{Prediction, all_selected, is_subset, difference}

pub contains_id-Member : (ids : List ℕ) (n : ℕ) → contains_id ids n ≡ true → Member n ids
unfolding contains_id
contains_id-Member ids n h =
    let (m, there, same) = any-cases (λ k. n == k) ids h in rw (==→≡ n m same) there

pub is_subset-Member : (xs ys : List ℕ) (n : ℕ) → is_subset xs ys ≡ true → Member n xs → Member n ys
unfolding is_subset
is_subset-Member xs ys n h m = contains_id-Member ys n (all-Member (contains_id ys) n xs h m)

pub Member-all_selected :
    (n : ℕ) (ps : List Prediction)
    → Member n (all_selected ps)
    → (p : Prediction) × Member p ps × Member n p.selected_ids
unfolding all_selected
Member-all_selected n [] m = absurd m.1
Member-all_selected n (p ∷ ps) m = elim (Member-append n p.selected_ids (all_selected ps) m) [
  | inl k ↦ (p, inl refl, k)
  | inr k ↦ let (q, there, own) = Member-all_selected n ps k in (q, inr there, own)
]

pub all_selected-Member :
    (n : ℕ) (p : Prediction) (ps : List Prediction)
    → Member p ps
    → Member n p.selected_ids
    → Member n (all_selected ps)
unfolding all_selected
all_selected-Member n p [] m k = absurd m.1
all_selected-Member n p (q ∷ ps) (inl e) k =
    append-Member n q.selected_ids (all_selected ps) (inl (rw e at k))
all_selected-Member n p (q ∷ ps) (inr m) k =
    append-Member n q.selected_ids (all_selected ps) (inr (all_selected-Member n p ps m k))

pub Member-all :
    {A : Type 0} (p : A → Bool) (xs : List A)
    → ((x : A) → Member x xs → p x ≡ true)
    → all p xs ≡ true
unfolding all
Member-all p [] f = refl
Member-all p (x ∷ xs) f = rw (f x (inl refl), Member-all p xs (λ y m. f y (inr m))) refl

pub Member-none :
    {A : Type 0} (p : A → Bool) (xs : List A)
    → ((x : A) → Member x xs → p x ≡ false)
    → any p xs ≡ false
unfolding any
Member-none p [] f = refl
Member-none p (x ∷ xs) f = rw (f x (inl refl), Member-none p xs (λ y m. f y (inr m))) refl

pub all-imp :
    {A : Type 0} (p q : A → Bool)
    → ((x : A) → p x ≡ true → q x ≡ true)
    → (xs : List A) → all p xs ≡ true
    → all q xs ≡ true
unfolding all
all-imp p q f [] h = refl
all-imp p q f (x ∷ xs) h =
    let (first, rest) = &&-eq_true (p x) (all p xs) h in rw (f x first, all-imp p q f xs rest) refl

pub Member-contains_id : (ids : List ℕ) (n : ℕ) → Member n ids → contains_id ids n ≡ true
unfolding contains_id
Member-contains_id ids n m = any-Member (λ k. n == k) n ids m (==_refl n)

pub Member-is_subset :
    (xs ys : List ℕ) → ((n : ℕ) → Member n xs → Member n ys) → is_subset xs ys ≡ true
unfolding is_subset
Member-is_subset xs ys f = Member-all (contains_id ys) xs (λ n m. Member-contains_id ys n (f n m))

-- Nothing is left of a list that is a part of another.
pub difference-nil :
    (xs ys : List ℕ) → ((n : ℕ) → Member n xs → Member n ys) → is_empty (difference xs ys) ≡ true
unfolding difference filter
difference-nil [] ys f = refl
difference-nil (x ∷ xs) ys f =
    rw (Member-contains_id ys x (f x (inl refl))) (difference-nil xs ys (λ n m. f n (inr m)))
