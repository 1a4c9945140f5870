-- ===== src/Evaluation/Acceptance.antt =====
-- `_acceptance_checks` of apps/api/app/evaluation/service.py. The checks are in the order of
-- `ACCEPTANCE_CHECK_KEYS`.
use roborecon.Prelude.{
  ℕ, ltb, leb, ◌==◌, Bool, true, false, not, ◌&&◌, Option, none, some, List, [], ◌∷◌, filter, all,
  is_empty,
}
use roborecon.Evaluation.Metrics.{StageMetrics, ClassMetrics}

-- the targets and limits, rates in hundredths of a per cent
abbrev pub match_rate_target : ℕ
match_rate_target = 9000

abbrev pub precision_target : ℕ
precision_target = 9800

abbrev pub false_positive_limit : ℕ
false_positive_limit = 8

abbrev pub end_to_end_autonomy_target : ℕ
end_to_end_autonomy_target = 9000

abbrev pub stage_correctness_target : ℕ
stage_correctness_target = 9000

abbrev pub class_accuracy_target : ℕ
class_accuracy_target = 9000

abbrev pub exception_recall_target : ℕ
exception_recall_target = 10000

abbrev pub runtime_limit_ms : ℕ
runtime_limit_ms = 5000

-- `value is not None and value >= target`
abbrev pub at_least : ℕ → Option ℕ → Bool
at_least target none = false
at_least target (some n) = leb target n

abbrev pub at_most : ℕ → Option ℕ → Bool
at_most limit none = false
at_most limit (some n) = leb n limit

abbrev pub stage_is_correct : Option StageMetrics → Bool
stage_is_correct none = false
stage_is_correct (some m) = leb stage_correctness_target m.correctness_rate

-- `_acceptance_checks`
unfoldable pub acceptance_checks :
    Bool
    → Option ℕ
    → Option ℕ
    → Option ℕ
    → Option ℕ
    → Option StageMetrics
    → Option StageMetrics
    → List ClassMetrics
    → Option ℕ
    → ℕ
    → List Bool
unfolding filter all
acceptance_checks false precision false_positives match_rate autonomy stage_a stage_b per_class
      recall duration_ms =
    false ∷ false ∷ false ∷ false ∷ false ∷ false ∷ false ∷ false ∷ false ∷ false ∷ []
acceptance_checks true precision false_positives match_rate autonomy stage_a stage_b per_class
      recall duration_ms =
    let positive = filter (λ m. ltb 0 (ClassMetrics.matchable_cases m)) per_class in
    true
    ∷ at_least precision_target precision
    ∷ at_most false_positive_limit false_positives
    ∷ at_least match_rate_target match_rate
    ∷ at_least end_to_end_autonomy_target autonomy
    ∷ stage_is_correct stage_a
    ∷ stage_is_correct stage_b
    ∷ (not (is_empty positive)
        && all (λ m. leb class_accuracy_target (ClassMetrics.match_rate m)) positive)
    ∷ elim recall [ some n ↦ n == exception_recall_target | none ↦ false ]
    ∷ leb duration_ms runtime_limit_ms
    ∷ []
