-- ===== src/Evaluation/Report.antt =====
-- `evaluate_predictions` of apps/api/app/evaluation/service.py.
use roborecon.Prelude.{
  ℕ, ◌+◌, ◌-◌, ltb, ◌==◌, Text, codes, text_eq, Bool, true, false, not, ◌&&◌, ◌||◌, Option, none,
  some, List, [], ◌∷◌, ◌++◌, map, any, all, filter, length, if◌then◌else◌,
}
use roborecon.Prelude.Int.{ℤ, ◌==ℤ◌, sum_ℤ}
use roborecon.Prelude.Dict.{insert}
use roborecon.Prelude.Order.{sort}
use roborecon.Engine.StageA.Outcome.{contains_id}
use roborecon.Evaluation.{
  TruthCase, Prediction, distinct, ledger_to_razorpay, razorpay_to_settlement,
  autonomous_false_positive_count,
}
use roborecon.Evaluation.Associate.{truth_case, prediction_of, associate_predictions}
use roborecon.Evaluation.Metrics.{
  Rounding, StageMetrics, ClassMetrics, sum_of, count, case_of, is_closed, is_open_prediction,
  is_matchable, percentage, autonomous_of, links_of, stage_metrics, is_resolved, is_autonomous,
  is_financial, is_recalled, class_metrics,
}
use roborecon.Evaluation.Acceptance.{acceptance_checks}

pub record ReviewAdjusted : Type 0 where
  pub closed_cases : ℕ
  pub reviewed_cases : ℕ
  pub approved_cases : ℕ
  pub rejected_cases : ℕ
  pub resolved_cases : ℕ
  pub match_rate : Option ℕ
  pub money_reconciled : Option ℤ

pub record EvaluationReport : Type 0 where
  pub benchmark_available : Bool
  pub precision : Option ℕ
  pub false_positives : Option ℕ
  pub false_positive_rate : Option ℕ
  pub match_rate : Option ℕ
  pub end_to_end_autonomy_rate : Option ℕ
  pub exception_recall : Option ℕ
  pub correctly_resolved : Option ℕ
  pub matchable_cases : Option ℕ
  pub autonomous_cases : Option ℕ
  pub open_exceptions : ℕ
  pub financially_unresolved_cases : Option ℕ
  pub money_reconciled : Option ℤ
  pub money_unresolved : Option ℤ
  pub settlement_net : ℤ
  pub records_processed : ℕ
  pub duration_ms : ℕ
  pub throughput : ℕ
  pub per_class : Option (List ClassMetrics)
  pub stage_a : Option StageMetrics
  pub stage_b : Option StageMetrics
  pub review_adjusted : ReviewAdjusted
  pub acceptance_checks : List Bool
  pub acceptance_passed : Bool

-- the order of Python's texts
unfoldable pub text_before : Text → Text → Bool
text_before [] [] = false
text_before [] (d ∷ t) = true
text_before (c ∷ s) [] = false
text_before (c ∷ s) (d ∷ t) = ltb c d || ((c == d) && text_before s t)

unfoldable pub distinct_classes : List Text → List Text
unfolding filter text_eq
distinct_classes [] = []
distinct_classes (t ∷ ts) = t ∷ filter (λ u. not (text_eq t u)) (distinct_classes ts)

-- `sorted(per_class_counts.items())`
unfoldable pub class_names : List TruthCase → List Text
unfolding sort distinct_classes text_before
class_names truth =
    sort text_before (distinct_classes (map (λ c. TruthCase.scenario_class c) truth))

-- `reviewed_cases`
unfoldable pub reviewed_cases : List Prediction → List (ℕ × Text) → List (ℕ × Text)
unfolding insert text_eq
reviewed_cases [] d = d
reviewed_cases (p ∷ ps) d = reviewed_cases ps (elim p.case_id [
  | none ↦ d
  | some id ↦ elim p.review_status [
    | none ↦ d
    | some status ↦ if is_closed p then insert (λ a b. a == b) id status d else d
  ]
])

-- the distinct nets, each counted once for a case
abbrev pub Net : Type 0
Net = Option ℕ × ℤ

abbrev same_net : Net → Net → Bool
same_net (none, n) (none, m) = n ==ℤ m
same_net (some a, n) (some b, m) = (a == b) && (n ==ℤ m)
same_net _ _ = false

unfoldable pub settlement_nets : List Net → List Prediction → List ℤ
unfolding any
settlement_nets seen [] = []
settlement_nets seen (p ∷ ps) =
    let net = elim p.settlement_net as (λ _. Option Net) [
      | none ↦ none
      | some n ↦ some (p.case_id, n)
    ] in
    let is_new = elim net as (λ _. Bool) [ none ↦ false | some k ↦ not (any (same_net k) seen) ] in
    let rest =
      settlement_nets (elim net as (λ _. List Net) [ none ↦ seen | some k ↦ k ∷ seen ]) ps in
    elim net [ none ↦ rest | some k ↦ if is_new then k.1 ∷ rest else rest ]

unfoldable pub ids_with : (TruthCase → Bool) → List TruthCase → List ℕ
unfolding filter
ids_with p truth = map (λ c. TruthCase.case_id c) (filter p truth)

abbrev with_status : Text → List (ℕ × Text) → List ℕ
with_status status d = map (λ e. e.0) (filter (λ e. text_eq e.1 status) d)

abbrev pub when {ℓ} : {A : Type ℓ} → Bool → A → Option A
when true a = some a
when false a = none

-- The cases and the predictions, as the loops see them.
pub record Evaluated : Type 0 where
  pub truth : List TruthCase
  pub predictions : List Prediction

unfoldable pub evaluated : List TruthCase → List Prediction → Evaluated
unfolding truth_case prediction_of associate_predictions
evaluated cases predictions =
    let truth = map truth_case cases in
    record {
      truth = truth;
      predictions = associate_predictions truth (map prediction_of predictions);
    }

-- `financially_resolved_cases`
unfoldable pub financial_ids : Evaluated → List ℕ
unfolding is_financial ids_with
financial_ids e = ids_with (is_financial e.predictions) e.truth

unfoldable pub money_reconciled : Evaluated → ℤ
unfolding financial_ids filter contains_id
money_reconciled e = sum_ℤ (
    map (λ c. TruthCase.amount c)
      (filter (λ c. contains_id (financial_ids e) (TruthCase.case_id c)) e.truth))

unfoldable pub money_unresolved : Evaluated → ℤ
unfolding financial_ids filter contains_id
money_unresolved e = sum_ℤ (
    map (λ c. TruthCase.amount c)
      (filter (λ c. not (contains_id (financial_ids e) (TruthCase.case_id c))) e.truth))

unfoldable pub review_adjusted : Rounding → Bool → Evaluated → ReviewAdjusted
unfolding financial_ids reviewed_cases distinct filter contains_id count percentage text_eq
review_adjusted rounding benchmark e =
    let financial = financial_ids e in
    let reviewed = reviewed_cases e.predictions [] in
    let approved = with_status (codes "approved") reviewed in
    let rejected = with_status (codes "rejected") reviewed in
    let resolved = length (distinct (financial ++ approved)) in
    let matchable = filter is_matchable e.truth in
    record {
      closed_cases = resolved + count (λ id. not (contains_id financial id)) rejected;
      reviewed_cases = length reviewed;
      approved_cases = length approved;
      rejected_cases = length rejected;
      resolved_cases = resolved;
      match_rate = when benchmark (
          percentage rounding
            (count
              (λ c.
                contains_id financial (TruthCase.case_id c)
                || contains_id approved (TruthCase.case_id c))
              matchable)
            (length matchable));
      money_reconciled = when benchmark (money_reconciled e);
    }

-- the rates of the report
pub record Rates : Type 0 where
  pub autonomous_links : ℕ
  pub false_positives : ℕ
  pub precision : ℕ
  pub correctly_resolved : ℕ
  pub matchable_cases : ℕ
  pub match_rate : ℕ
  pub autonomous_cases : ℕ
  pub autonomy_rate : ℕ
  pub exception_recall : ℕ

unfoldable pub rates : Rounding → Evaluated → Rates
unfolding count sum_of percentage filter contains_id distinct ids_with case_of
    autonomous_false_positive_count is_resolved is_autonomous is_recalled
rates rounding e =
    let links = links_of e.predictions in
    let false_positives =
      sum_of (λ p. autonomous_false_positive_count (case_of e.truth (Prediction.case_id p)) p)
        (autonomous_of e.predictions) in
    let matchable = filter is_matchable e.truth in
    let resolved_ids = ids_with (is_resolved e.predictions) e.truth in
    let resolved = count (λ c. contains_id resolved_ids (TruthCase.case_id c)) matchable in
    let autonomous = length (distinct (ids_with (is_autonomous e.predictions) e.truth)) in
    let recalled = length (distinct (ids_with (is_recalled e.predictions) e.truth)) in
    let exceptions = count (λ c. not (TruthCase.matchable c)) e.truth in
    record {
      autonomous_links = links;
      false_positives = false_positives;
      precision = percentage rounding (links - false_positives) links;
      correctly_resolved = resolved;
      matchable_cases = length matchable;
      match_rate = percentage rounding resolved (length matchable);
      autonomous_cases = autonomous;
      autonomy_rate = percentage rounding autonomous (length matchable);
      exception_recall = percentage rounding recalled exceptions;
    }

unfoldable pub report_checks : Rounding → Bool → ℕ → Evaluated → List Bool
unfolding acceptance_checks rates stage_metrics class_metrics class_names
report_checks rounding benchmark duration_ms e =
    let r = rates rounding e in
    acceptance_checks benchmark (when benchmark r.precision) (when benchmark r.false_positives)
      (when benchmark r.match_rate) (when benchmark r.autonomy_rate)
      (when benchmark (stage_metrics rounding e.truth e.predictions ledger_to_razorpay))
      (when benchmark (stage_metrics rounding e.truth e.predictions razorpay_to_settlement))
      (if benchmark
        then map (class_metrics rounding e.truth e.predictions) (class_names e.truth)
        else [])
      (when benchmark r.exception_recall) duration_ms

unfoldable pub evaluate_predictions :
    Rounding
    → (ℕ → ℕ → ℕ)
    → List TruthCase
    → List Prediction
    → ℕ
    → Option ℕ
    → Bool
    → Option ℕ
    → EvaluationReport
unfolding evaluated rates report_checks review_adjusted money_reconciled money_unresolved
    settlement_nets percentage stage_metrics class_metrics class_names count contains_id
    financial_ids filter all
evaluate_predictions rounding throughput cases predictions duration_ms source_count benchmark
      open_exception_count =
    let e = evaluated cases predictions in
    let r = rates rounding e in
    let processed : ℕ = elim source_count [ some n ↦ n | none ↦ length e.predictions ] in
    record {
      benchmark_available = benchmark;
      precision = when benchmark r.precision;
      false_positives = when benchmark r.false_positives;
      false_positive_rate =
          when benchmark (percentage rounding r.false_positives r.autonomous_links);
      match_rate = when benchmark r.match_rate;
      end_to_end_autonomy_rate = when benchmark r.autonomy_rate;
      exception_recall = when benchmark r.exception_recall;
      correctly_resolved = when benchmark r.correctly_resolved;
      matchable_cases = when benchmark r.matchable_cases;
      autonomous_cases = when benchmark r.autonomous_cases;
      open_exceptions = elim open_exception_count [
        | some n ↦ n
        | none ↦ count is_open_prediction e.predictions
      ];
      financially_unresolved_cases = when benchmark (
          count (λ c. not (contains_id (financial_ids e) (TruthCase.case_id c)))
            (filter is_matchable e.truth));
      money_reconciled = when benchmark (money_reconciled e);
      money_unresolved = when benchmark (money_unresolved e);
      settlement_net = sum_ℤ (settlement_nets [] e.predictions);
      records_processed = processed;
      duration_ms = duration_ms;
      throughput = if duration_ms == 0 then 0 else throughput processed duration_ms;
      per_class =
          when benchmark (map (class_metrics rounding e.truth e.predictions) (class_names e.truth));
      stage_a = when benchmark (stage_metrics rounding e.truth e.predictions ledger_to_razorpay);
      stage_b =
          when benchmark (stage_metrics rounding e.truth e.predictions razorpay_to_settlement);
      review_adjusted = review_adjusted rounding benchmark e;
      acceptance_checks = report_checks rounding benchmark duration_ms e;
      acceptance_passed =
          benchmark && all (λ b. b) (report_checks rounding benchmark duration_ms e);
    }
