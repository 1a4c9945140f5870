-- ===== src/Evaluation/Metrics.antt =====
-- The counts over predictions and cases in `evaluate_predictions` of
-- apps/api/app/evaluation/service.py. A rate is a number of hundredths of a per cent.
use roborecon.Prelude.{
  ℕ, ◌+◌, ◌-◌, ◌≤◌, ◌<◌, ◌≡◌, ◌==◌, Text, codes, text_eq, Bool, false, not, ◌&&◌, ◌||◌, Option,
  none, some, List, [], ◌∷◌, map, filter, length, if◌then◌else◌,
}
use roborecon.Prelude.Int.{ℤ, sum_ℤ}
use roborecon.Prelude.Dict.{lookup, index}
use roborecon.Evaluation.{
  TruthCase, Prediction, is_text, autonomous_false_positive_count,
  autonomous_stage_false_positive_count, stage_case_is_correct, stage_case_is_autonomous,
  case_is_correct, case_is_autonomously_resolved, case_is_financially_resolved,
  exception_is_recalled,
}

-- Python's `round(n * 100 / d, 2)` for a `d` that is not 0: division and rounding are monotone, and
-- exact on 100 per cent.
pub record Rounding : Type 0 where
  pub percent : ℕ → ℕ → ℕ
  pub percent_monotone : (m n d : ℕ) → 0 < d → m ≤ n → percent m d ≤ percent n d
  pub percent_whole : (d : ℕ) → 0 < d → percent d d ≡ 10000

unfoldable pub sum_of : {A : Type 0} → (A → ℕ) → List A → ℕ
sum_of f [] = 0
sum_of f (x ∷ xs) = f x + sum_of f xs

-- `sum(p(x) for x in xs)`
unfoldable pub count : {A : Type 0} → (A → Bool) → List A → ℕ
count p [] = 0
count p (x ∷ xs) = if p x then 1 + count p xs else count p xs

-- `truth_by_id.get(prediction.case_id or "")`
unfoldable pub case_of : List TruthCase → Option ℕ → Option TruthCase
unfolding lookup index
case_of truth none = none
case_of truth (some id) =
    lookup (λ a b. a == b) id (index (λ a b. a == b) (λ c. TruthCase.case_id c) truth)

-- `predictions_by_case.get(case_id, [])`
unfoldable pub predictions_of : List Prediction → ℕ → List Prediction
unfolding filter
predictions_of ps id =
    filter (λ p. elim (Prediction.case_id p) [ some n ↦ n == id | none ↦ false ]) ps

abbrev pub is_closed : Prediction → Bool
is_closed p =
    is_text p.review_status (codes "approved") || is_text p.review_status (codes "rejected")

abbrev pub is_open_prediction : Prediction → Bool
is_open_prediction p = not p.autonomous && not (is_closed p)

abbrev pub is_matchable : TruthCase → Bool
is_matchable case = case.matchable

-- `_percentage`
unfoldable pub percentage : Rounding → ℕ → ℕ → ℕ
percentage rounding n d = if d == 0 then 0 else Rounding.percent rounding n d

pub record StageMetrics : Type 0 where
  pub eligible_cases : ℕ
  pub correctly_resolved : ℕ
  pub correctness_rate : ℕ
  pub autonomous_cases : ℕ
  pub autonomy_rate : ℕ
  pub autonomous_links : ℕ
  pub false_positives : ℕ
  pub precision : ℕ
  pub unresolved_cases : ℕ
  pub open_exceptions : ℕ
  pub records_processed : ℕ

pub record ClassMetrics : Type 0 where
  pub scenario_class : Text
  pub cases : ℕ
  pub matchable_cases : ℕ
  pub correctly_resolved : ℕ
  pub match_rate : ℕ
  pub autonomous_cases : ℕ
  pub false_positives : ℕ
  pub precision : ℕ
  pub open_exceptions : ℕ
  pub financially_unresolved_cases : ℕ
  pub money_reconciled : ℤ
  pub money_unresolved : ℤ

abbrev pub autonomous_of : List Prediction → List Prediction
autonomous_of ps = filter (λ p. Prediction.autonomous p) ps

abbrev pub links_of : List Prediction → ℕ
links_of ps = sum_of (λ p. length (Prediction.selected_ids p)) (autonomous_of ps)

-- the metrics of one stage
unfoldable pub stage_metrics : Rounding → List TruthCase → List Prediction → Text → StageMetrics
unfolding filter percentage sum_of count case_of predictions_of text_eq
    autonomous_stage_false_positive_count stage_case_is_correct stage_case_is_autonomous
stage_metrics rounding truth ps stage =
    let positive_cases = filter is_matchable truth in
    let stage_predictions = filter (λ p. is_text (Prediction.stage p) stage) ps in
    let eligible = length positive_cases in
    let correct =
      count
        (λ c.
          stage_case_is_correct c (predictions_of stage_predictions (TruthCase.case_id c)) stage)
        positive_cases in
    let autonomous =
      count
        (λ c.
          stage_case_is_autonomous c (predictions_of stage_predictions (TruthCase.case_id c)) stage)
        positive_cases in
    let false_positives =
      sum_of
        (λ p. autonomous_stage_false_positive_count (case_of truth (Prediction.case_id p)) p stage)
        (autonomous_of stage_predictions) in
    let links = links_of stage_predictions in
    record {
      eligible_cases = eligible;
      correctly_resolved = correct;
      correctness_rate = percentage rounding correct eligible;
      autonomous_cases = autonomous;
      autonomy_rate = percentage rounding autonomous eligible;
      autonomous_links = links;
      false_positives = false_positives;
      precision = percentage rounding (links - false_positives) links;
      unresolved_cases = eligible - correct;
      open_exceptions = count is_open_prediction stage_predictions;
      records_processed = length stage_predictions;
    }

-- `case.matchable and _case_is_correct(case, case_predictions)`
unfoldable pub is_resolved : List Prediction → TruthCase → Bool
unfolding predictions_of case_is_correct
is_resolved ps case = case.matchable && case_is_correct case (predictions_of ps case.case_id)

unfoldable pub is_autonomous : List Prediction → TruthCase → Bool
unfolding predictions_of case_is_autonomously_resolved
is_autonomous ps case = case_is_autonomously_resolved case (predictions_of ps case.case_id)

unfoldable pub is_financial : List Prediction → TruthCase → Bool
unfolding predictions_of case_is_financially_resolved
is_financial ps case = case_is_financially_resolved case (predictions_of ps case.case_id)

unfoldable pub is_recalled : List Prediction → TruthCase → Bool
unfolding predictions_of exception_is_recalled
is_recalled ps case = exception_is_recalled case (predictions_of ps case.case_id)

-- the prediction's case is known and of the class
abbrev pub is_of_class : List TruthCase → Text → Prediction → Bool
is_of_class truth name p = elim (case_of truth p.case_id) [
  | some c ↦ text_eq c.scenario_class name
  | none ↦ false
]

-- the counters of one class, and its metrics
unfoldable pub class_metrics : Rounding → List TruthCase → List Prediction → Text → ClassMetrics
unfolding filter percentage sum_of count case_of predictions_of text_eq
    autonomous_false_positive_count is_resolved is_autonomous is_financial
class_metrics rounding truth ps name =
    let cases = filter (λ c. text_eq (TruthCase.scenario_class c) name) truth in
    let matchable = count is_matchable cases in
    let correct = count (is_resolved ps) cases in
    let predictions = filter (is_of_class truth name) (autonomous_of ps) in
    let links = links_of predictions in
    let false_positives =
      sum_of (λ p. autonomous_false_positive_count (case_of truth (Prediction.case_id p)) p)
        predictions in
    record {
      scenario_class = name;
      cases = length cases;
      matchable_cases = matchable;
      correctly_resolved = correct;
      match_rate = percentage rounding correct matchable;
      autonomous_cases = count (is_autonomous ps) cases;
      false_positives = false_positives;
      precision = percentage rounding (links - false_positives) links;
      open_exceptions =
          sum_of (λ c. count is_open_prediction (predictions_of ps (TruthCase.case_id c))) cases;
      financially_unresolved_cases =
          count (λ c. TruthCase.matchable c && not (is_financial ps c)) cases;
      money_reconciled = sum_ℤ (map (λ c. TruthCase.amount c) (filter (is_financial ps) cases));
      money_unresolved =
          sum_ℤ (map (λ c. TruthCase.amount c) (filter (λ c. not (is_financial ps c)) cases));
    }
