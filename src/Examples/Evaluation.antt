-- ===== src/Examples/Evaluation.antt =====
-- A matchable case that both stages resolve, and an exception that is recalled.
use native.Mathlib.Nat.{div-mul-le_self, le-div_iff_mul-le, mul-div_cancel_left}
use roborecon.Prelude.{
  ℕ, ◌*◌, ◌/◌, ◌<◌, ◌≤◌, Text, codes, text_eq, Bool, true, false, ◌≡◌, ◌↔◌, map, refl, none, some,
  List, [], ◌∷◌, arith,
}
use roborecon.Prelude.Int.{pos}
use roborecon.Evaluation.{
  TruthSource, TruthCase, Prediction, matched, ledger_to_razorpay, razorpay_to_settlement,
  case_is_autonomously_resolved, case_is_financially_resolved,
}
use roborecon.Evaluation.Metrics.{Rounding, stage_metrics}
use roborecon.Evaluation.Report.{evaluated, rates, evaluate_predictions}
use roborecon.Evaluation.Money.{AddsUp, evaluate_predictions-money}
use roborecon.Evaluation.Bounds.{IsConsistent, stage_metrics-IsConsistent, rates-bound}
use roborecon.Evaluation.Cases.{
  IsExact, case_is_autonomously_resolved-financial, case_is_financially_resolved-IsExact,
}
use roborecon.Evaluation.Accepted.{MeetsTargets, evaluate_predictions-accepted}

-- rounding down
abbrev percent_of : ℕ → ℕ → ℕ
percent_of n d = n * 10000 / d

percent_of-monotone : (m n d : ℕ) → 0 < d → m ≤ n → percent_of m d ≤ percent_of n d
percent_of-monotone m n d positive h =
    (le-div_iff_mul-le positive).1 (omega (arith, div-mul-le_self (m * 10000) d, h))

percent_of-whole : (d : ℕ) → 0 < d → percent_of d d ≡ 10000
percent_of-whole d positive = mul-div_cancel_left 10000 positive

abbrev rounding : Rounding
rounding = record {
  percent = percent_of;
  percent_monotone = percent_of-monotone;
  percent_whole = percent_of-whole;
}

abbrev source : Text → ℕ → TruthSource
source source_type id = record { source_type = source_type; source_id = id }

abbrev good_case : TruthCase
good_case = record {
  case_id = 1;
  scenario_class = codes "clean";
  amount = pos 500;
  matchable = true;
  expected_status = matched;
  sources =
      source (codes "ledger") 11
      ∷ source (codes "razorpay_payment") 12
      ∷ source (codes "settlement") 13
      ∷ [];
}

abbrev bad_case : TruthCase
bad_case = record {
  case_id = 2;
  scenario_class = codes "lost";
  amount = pos 70;
  matchable = false;
  expected_status = codes "missing_razorpay";
  sources = source (codes "ledger") 21 ∷ [];
}

abbrev prediction : ℕ → Text → List ℕ → Bool → Text → Prediction
prediction id status selected autonomous stage = record {
  case_id = some id;
  status = status;
  selected_ids = selected;
  autonomous = autonomous;
  amount = none;
  settlement_net = none;
  stage = some stage;
  review_status = none;
}

abbrev good_predictions : List Prediction
good_predictions =
    prediction 1 matched (11 ∷ 12 ∷ []) true ledger_to_razorpay
    ∷ prediction 1 matched (12 ∷ 13 ∷ []) true razorpay_to_settlement
    ∷ []

abbrev predictions : List Prediction
predictions =
    prediction 2 (codes "missing_razorpay") (21 ∷ []) false ledger_to_razorpay ∷ good_predictions

abbrev cases : List TruthCase
cases = good_case ∷ bad_case ∷ []

evaluate_predictions-money_example :
    AddsUp cases
      (evaluate_predictions rounding (λ n d. n * 1000 / d) cases predictions 40 none true none)
evaluate_predictions-money_example =
    evaluate_predictions-money rounding (λ n d. n * 1000 / d) cases predictions 40 none none

stage_metrics-IsConsistent_example :
    IsConsistent (stage_metrics rounding cases predictions ledger_to_razorpay)
stage_metrics-IsConsistent_example =
    stage_metrics-IsConsistent rounding cases predictions ledger_to_razorpay

rates-bound_example :
    ((rates rounding (evaluated cases predictions)).precision ≤ 10000)
    × ((rates rounding (evaluated cases predictions)).match_rate ≤ 10000)
    × ((rates rounding (evaluated cases predictions)).exception_recall ≤ 10000)
rates-bound_example = rates-bound rounding (evaluated cases predictions)

autonomous_test : case_is_autonomously_resolved good_case good_predictions ≡ true
unfolding case_is_autonomously_resolved text_eq
autonomous_test = refl

case_is_autonomously_resolved-financial_example :
    case_is_financially_resolved good_case good_predictions ≡ true
case_is_autonomously_resolved-financial_example =
    case_is_autonomously_resolved-financial good_case good_predictions autonomous_test

case_is_financially_resolved-IsExact_example :
    (case_is_financially_resolved good_case good_predictions ≡ true)
    ↔ IsExact good_case good_predictions
case_is_financially_resolved-IsExact_example =
    case_is_financially_resolved-IsExact good_case good_predictions

-- a prediction that is not autonomous, approved by a human
abbrev approve_prediction : Prediction → Prediction
approve_prediction p = record p { autonomous = false; review_status = some (codes "approved") }

abbrev approved_predictions : List Prediction
approved_predictions = map approve_prediction good_predictions

approved_test :
    (case_is_financially_resolved good_case approved_predictions ≡ true)
    × (case_is_autonomously_resolved good_case approved_predictions ≡ false)
unfolding case_is_financially_resolved case_is_autonomously_resolved text_eq
approved_test = (refl, refl)

accepted_test :
    (evaluate_predictions rounding
      (λ n d. n * 1000 / d)
      cases
      predictions
      40
      none
      true
      none).acceptance_passed
    ≡ true
unfolding evaluate_predictions text_eq
accepted_test = refl

evaluate_predictions-accepted_example :
    MeetsTargets true
      (evaluate_predictions rounding (λ n d. n * 1000 / d) cases predictions 40 none true none)
evaluate_predictions-accepted_example =
    evaluate_predictions-accepted rounding (λ n d. n * 1000 / d) cases predictions 40 none true none
      accepted_test
