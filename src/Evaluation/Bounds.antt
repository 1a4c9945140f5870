-- ===== src/Evaluation/Bounds.antt =====
-- The bounds of the counts and the rates.
use mathlib.Core.Path.{subst}
use roborecon.Prelude.{
  ℕ, ◌+◌, ◌-◌, ◌≤◌, ◌<◌, ◌==◌, Text, Bool, true, not, Bool-cases, &&-eq_true, ◌≡◌, refl, inl, inr,
  List, [], ◌∷◌, filter, length, length-map, arith,
}
use roborecon.Evaluation.{
  TruthCase, Prediction, is_text, distinct, stage_case_is_correct, stage_case_is_autonomous,
  exception_is_recalled,
}
use roborecon.Evaluation.Metrics.{
  Rounding, StageMetrics, count, predictions_of, percentage, stage_metrics, is_recalled,
  is_matchable,
}
use roborecon.Evaluation.Report.{Evaluated, ids_with, rates}

count-le_length : {A : Type 0} (p : A → Bool) (xs : List A) → count p xs ≤ length xs
unfolding count
count-le_length p [] = omega arith
count-le_length p (x ∷ xs) = ground (arith, count-le_length p xs)

count-le_count :
    {A : Type 0} (p q : A → Bool)
    → ((x : A) → p x ≡ true → q x ≡ true)
    → (xs : List A) → count p xs ≤ count q xs
unfolding count
count-le_count p q h [] = omega arith
count-le_count p q h (x ∷ xs) = ground (arith, h x, count-le_count p q h xs)

length-filter-le : {A : Type 0} (p : A → Bool) (xs : List A) → length (filter p xs) ≤ length xs
unfolding filter
length-filter-le p [] = omega arith
length-filter-le p (x ∷ xs) = ground (arith, length-filter-le p xs)

length-filter-count : {A : Type 0} (p : A → Bool) (xs : List A) → length (filter p xs) ≡ count p xs
unfolding filter count
length-filter-count p [] = refl
length-filter-count p (x ∷ xs) = ground (arith, length-filter-count p xs)

length-distinct-le : (xs : List ℕ) → length (distinct xs) ≤ length xs
unfolding distinct
length-distinct-le [] = omega arith
length-distinct-le (x ∷ xs) =
    omega (arith, length-distinct-le xs, length-filter-le (λ y. not (x == y)) (distinct xs))

split : (a b : ℕ) → a ≤ b → a + (b - a) ≡ b
split a b h = omega arith

less : (a b : ℕ) → a - b ≤ a
less a b = omega arith

-- Each case that is recalled is an exception.
recalled-le :
    (e : Evaluated)
    → length (distinct (ids_with (is_recalled e.predictions) e.truth))
      ≤ count (λ c. not (TruthCase.matchable c)) e.truth
unfolding ids_with is_recalled exception_is_recalled
recalled-le e =
    let recalled = is_recalled e.predictions in
    omega (
      arith,
      length-distinct-le (ids_with recalled e.truth),
      length-map (λ c. TruthCase.case_id c) (filter recalled e.truth),
      length-filter-count recalled e.truth,
      count-le_count recalled (λ c. not (TruthCase.matchable c))
          (recalled-unmatchable e.predictions) e.truth,
    )
  where
    recalled-unmatchable :
        (ps : List Prediction) (c : TruthCase) → is_recalled ps c ≡ true → not c.matchable ≡ true
    recalled-unmatchable ps c h = (&&-eq_true (not c.matchable) _ h).0

-- The counts and the rates of a stage agree.
abbrev pub IsConsistent : StageMetrics → Type 0
IsConsistent m =
    (m.correctly_resolved + m.unresolved_cases ≡ m.eligible_cases)
    × (m.autonomous_cases ≤ m.correctly_resolved)
    × (m.autonomy_rate ≤ m.correctness_rate)
    × (m.correctness_rate ≤ 10000)
    × (m.precision ≤ 10000)

module _ (rounding : Rounding) where
  percentage-bound : (n d : ℕ) → n ≤ d → percentage rounding n d ≤ 10000
  unfolding percentage
  percentage-bound n d h = elim (Bool-cases (d == 0)) [
    | inl t ↦ rw t (omega arith)
    | inr f ↦
        let positive : 0 < d = ground arith in
        rw f (
          subst (λ k. Rounding.percent rounding n d ≤ k) (rounding.percent_whole d positive)
            (rounding.percent_monotone n d d positive h))
  ]

  percentage-monotone : (m n d : ℕ) → m ≤ n → percentage rounding m d ≤ percentage rounding n d
  unfolding percentage
  percentage-monotone m n d h = elim (Bool-cases (d == 0)) [
    | inl t ↦ rw t (omega arith)
    | inr f ↦
        let positive : 0 < d = ground arith in rw f (rounding.percent_monotone m n d positive h)
  ]

  -- In the metrics of a stage each eligible case is resolved correctly or unresolved, the autonomous
  -- cases are among the correct ones, the autonomy rate is at most the correctness rate, and this and
  -- the precision are at most 100 per cent.
  pub stage_metrics-IsConsistent :
      (truth : List TruthCase) (ps : List Prediction) (stage : Text)
      → IsConsistent (stage_metrics rounding truth ps stage)
  unfolding stage_metrics stage_case_is_autonomous
  stage_metrics-IsConsistent truth ps stage =
      let positive = filter is_matchable truth in
      let stage_predictions = filter (λ p. is_text (Prediction.stage p) stage) ps in
      let own = λ (c : TruthCase). predictions_of stage_predictions c.case_id in
      let correct = count (λ c. stage_case_is_correct c (own c) stage) positive in
      let autonomous = count (λ c. stage_case_is_autonomous c (own c) stage) positive in
      let le = count-le_length (λ c. stage_case_is_correct c (own c) stage) positive in
      let fewer =
        count-le_count (λ c. stage_case_is_autonomous c (own c) stage)
          (λ c. stage_case_is_correct c (own c) stage)
          (λ c h. (&&-eq_true (stage_case_is_correct c (own c) stage) _ h).0) positive in
      (
        split correct (length positive) le,
        fewer,
        percentage-monotone autonomous correct (length positive) fewer,
        percentage-bound correct (length positive) le,
        percentage-bound _ _ (less _ _),
      )

  -- The precision, the match rate and the recall of a report are at most 100 per cent.
  pub rates-bound :
      (e : Evaluated)
      → let r = rates rounding e in
        (r.precision ≤ 10000) × (r.match_rate ≤ 10000) × (r.exception_recall ≤ 10000)
  unfolding rates
  rates-bound e = (
    percentage-bound _ _ (less _ _),
    percentage-bound _ _ (count-le_length _ (filter is_matchable e.truth)),
    percentage-bound _ _ (recalled-le e),
  )
