-- ===== src/Evaluation/Accepted.antt =====
-- What an accepted report guarantees.
use mathlib.Core.Bool.{false≢true}
use roborecon.Prelude.{
  ℕ, ◌≤◌, ◌<◌, ltb, leb, leb→le, ◌==◌, ==→≡, Bool, true, false, not, ◌&&◌, &&-eq_true, ◌≡◌, refl,
  ap, Option, some, List, map, filter, filter-Member, all, all-Member, Member, is_empty, arith,
}
use roborecon.Evaluation.{TruthCase, Prediction, ledger_to_razorpay, razorpay_to_settlement}
use roborecon.Evaluation.Metrics.{
  Rounding, StageMetrics, ClassMetrics, stage_metrics, class_metrics,
}
use roborecon.Evaluation.Acceptance.{acceptance_checks, class_accuracy_target}
use roborecon.Evaluation.Report.{
  EvaluationReport, evaluated, class_names, rates, report_checks, evaluate_predictions,
}

-- the classes that must be accurate
classes-accurate :
    (ms : List ClassMetrics) (m : ClassMetrics)
    → all
        (λ k. leb class_accuracy_target (ClassMetrics.match_rate k))
        (filter (λ k. ltb 0 (ClassMetrics.matchable_cases k)) ms)
      ≡ true
    → Member m ms
    → 0 < m.matchable_cases
    → class_accuracy_target ≤ m.match_rate
classes-accurate ms m h there positive = leb→le class_accuracy_target m.match_rate (
    all-Member (λ k. leb class_accuracy_target (ClassMetrics.match_rate k)) m _ h
      (filter-Member (λ k. ltb 0 (ClassMetrics.matchable_cases k)) m ms there (ground arith)))

-- The checks of a benchmark that all hold.
acceptance_checks-parts :
    (precision false_positives match_rate autonomy recall duration : ℕ) (a b : StageMetrics)
    (ms : List ClassMetrics)
    → all
        (λ c. c)
        (acceptance_checks true
          (some precision)
          (some false_positives)
          (some match_rate)
          (some autonomy)
          (some a)
          (some b)
          ms
          (some recall)
          duration)
      ≡ true
    → (9800 ≤ precision)
      × (false_positives ≤ 8)
      × (9000 ≤ match_rate)
      × (9000 ≤ autonomy)
      × (9000 ≤ a.correctness_rate)
      × (9000 ≤ b.correctness_rate)
      × ((m : ClassMetrics) → Member m ms → 0 < m.matchable_cases → 9000 ≤ m.match_rate)
      × (recall ≡ 10000)
      × (duration ≤ 5000)
unfolding acceptance_checks all
acceptance_checks-parts precision false_positives match_rate autonomy recall duration a b ms h =
    let (h1, k1) = &&-eq_true (leb 9800 precision) _ h in
    let (h2, k2) = &&-eq_true (leb false_positives 8) _ k1 in
    let (h3, k3) = &&-eq_true (leb 9000 match_rate) _ k2 in
    let (h4, k4) = &&-eq_true (leb 9000 autonomy) _ k3 in
    let (h5, k5) = &&-eq_true (leb 9000 a.correctness_rate) _ k4 in
    let (h6, k6) = &&-eq_true (leb 9000 b.correctness_rate) _ k5 in
    let positive = filter (λ m. ltb 0 (ClassMetrics.matchable_cases m)) ms in
    let (h7, k7) =
      &&-eq_true
        (not (is_empty positive) && all (λ m. leb 9000 (ClassMetrics.match_rate m)) positive) _
        k6 in
    let (h8, k8) = &&-eq_true (recall == 10000) _ k7 in
    let (h9, k9) = &&-eq_true (leb duration 5000) _ k8 in
    (
      leb→le 9800 precision h1,
      leb→le false_positives 8 h2,
      leb→le 9000 match_rate h3,
      leb→le 9000 autonomy h4,
      leb→le 9000 a.correctness_rate h5,
      leb→le 9000 b.correctness_rate h6,
      (λ m. classes-accurate ms m (&&-eq_true (not (is_empty positive)) _ h7).1),
      ==→≡ recall 10000 h8,
      leb→le duration 5000 h9,
    )

-- The targets and the limits.
abbrev pub MeetsTargets : Bool → EvaluationReport → Type 0
MeetsTargets benchmark report =
    (benchmark ≡ true)
    × ((n : ℕ) × (report.precision ≡ some n) × (9800 ≤ n))
    × ((n : ℕ) × (report.false_positives ≡ some n) × (n ≤ 8))
    × ((n : ℕ) × (report.match_rate ≡ some n) × (9000 ≤ n))
    × ((n : ℕ) × (report.end_to_end_autonomy_rate ≡ some n) × (9000 ≤ n))
    × ((m : StageMetrics) × (report.stage_a ≡ some m) × (9000 ≤ m.correctness_rate))
    × ((m : StageMetrics) × (report.stage_b ≡ some m) × (9000 ≤ m.correctness_rate))
    × ((ms : List ClassMetrics) × (report.per_class ≡ some ms)
        × ((m : ClassMetrics) → Member m ms → 0 < m.matchable_cases → 9000 ≤ m.match_rate))
    × (report.exception_recall ≡ some 10000)
    × (report.duration_ms ≤ 5000)

-- If a report is accepted, then the benchmark is available and the report holds a precision of at
-- least 98 per cent, at most 8 false positives, a match rate, an autonomy rate and two stages'
-- correctness of at least 90 per cent, the same match rate in each class that has matchable cases, a
-- full recall of the exceptions, and a run of at most 5 seconds.
pub evaluate_predictions-accepted :
    (rounding : Rounding) (throughput : ℕ → ℕ → ℕ) (cases : List TruthCase)
    (predictions : List Prediction) (duration_ms : ℕ) (source_count : Option ℕ) (benchmark : Bool)
    (opened : Option ℕ)
    → let report =
        evaluate_predictions rounding throughput cases predictions duration_ms source_count
          benchmark opened in
      report.acceptance_passed ≡ true → MeetsTargets benchmark report
unfolding evaluate_predictions report_checks
evaluate_predictions-accepted rounding throughput cases predictions duration_ms source_count false
      opened h =
    absurd (false≢true h)
evaluate_predictions-accepted rounding throughput cases predictions duration_ms source_count true
      opened h =
    let e = evaluated cases predictions in
    let r = rates rounding e in
    let a = stage_metrics rounding e.truth e.predictions ledger_to_razorpay in
    let b = stage_metrics rounding e.truth e.predictions razorpay_to_settlement in
    let ms = map (class_metrics rounding e.truth e.predictions) (class_names e.truth) in
    let p =
      acceptance_checks-parts r.precision r.false_positives r.match_rate r.autonomy_rate
        r.exception_recall duration_ms a b ms h in
    (
      refl,
      (r.precision, refl, p.0),
      (r.false_positives, refl, p.1),
      (r.match_rate, refl, p.2),
      (r.autonomy_rate, refl, p.3),
      (a, refl, p.4),
      (b, refl, p.5),
      (ms, refl, p.6),
      ap some p.7,
      p.8,
    )
