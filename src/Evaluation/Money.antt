-- ===== src/Evaluation/Money.antt =====
-- The money of a report.
use roborecon.Prelude.{
  Bool, true, not, Bool-cases, inl, inr, ◌≡◌, refl, sym, ap, ◌∙◌, Option, some, List, [], ◌∷◌, map,
  filter, ℕ,
}
use roborecon.Prelude.Int.{ℤ, ◌+ℤ◌, sum_ℤ, int_laws}
use roborecon.Engine.StageA.Outcome.{contains_id}
use roborecon.Evaluation.{TruthCase, Prediction}
use roborecon.Evaluation.Associate.{truth_case}
use roborecon.Evaluation.Metrics.{Rounding}
use roborecon.Evaluation.Report.{
  EvaluationReport, evaluated, financial_ids, money_reconciled, money_unresolved,
  evaluate_predictions,
}

sum_filter :
    {A : Type 0} (f : A → ℤ) (p : A → Bool) (xs : List A)
    → sum_ℤ (map f (filter p xs)) +ℤ sum_ℤ (map f (filter (λ x. not (p x)) xs)) ≡ sum_ℤ (map f xs)
unfolding filter sum_ℤ
sum_filter f p [] = grind int_laws
sum_filter f p (x ∷ xs) = elim (Bool-cases (p x)) [
  | inl t ↦ rw (t, sym (sum_filter f p xs)) (first (f x) _ _)
  | inr n ↦ rw (n, sym (sum_filter f p xs)) (second (f x) _ _)
]
  where
    first : (a b c : ℤ) → (a +ℤ b) +ℤ c ≡ a +ℤ (b +ℤ c)
    first a b c = grind int_laws

    second : (a b c : ℤ) → b +ℤ (a +ℤ c) ≡ a +ℤ (b +ℤ c)
    second a b c = grind int_laws

truth_case-amount :
    (cases : List TruthCase)
    → map (λ c. TruthCase.amount c) (map truth_case cases) ≡ map (λ c. TruthCase.amount c) cases
unfolding truth_case
truth_case-amount [] = refl
truth_case-amount (c ∷ cases) = ap (λ zs. c.amount ∷ zs) (truth_case-amount cases)

-- The reconciled and the unresolved money are together the amounts of the cases.
abbrev pub AddsUp : List TruthCase → EvaluationReport → Type 0
AddsUp cases report =
    (reconciled : ℤ) × (unresolved : ℤ) × (report.money_reconciled ≡ some reconciled)
    × (report.money_unresolved ≡ some unresolved)
    × (reconciled +ℤ unresolved ≡ sum_ℤ (map (λ c. TruthCase.amount c) cases))

-- If the benchmark is available, the money that a report counts as reconciled and the money that it
-- counts as unresolved are together the amounts of all cases.
pub evaluate_predictions-money :
    (rounding : Rounding) (throughput : ℕ → ℕ → ℕ) (cases : List TruthCase)
    (predictions : List Prediction) (duration_ms : ℕ) (source_count opened : Option ℕ)
    → AddsUp cases (
        evaluate_predictions rounding throughput cases predictions duration_ms source_count true
          opened)
unfolding evaluate_predictions money_reconciled money_unresolved evaluated
evaluate_predictions-money rounding throughput cases predictions duration_ms source_count opened =
    let e = evaluated cases predictions in
    (
      money_reconciled e,
      money_unresolved e,
      refl,
      refl,
      sum_filter (λ c. TruthCase.amount c)
            (λ c. contains_id (financial_ids e) (TruthCase.case_id c)) e.truth
          ∙ ap sum_ℤ (truth_case-amount cases),
    )
