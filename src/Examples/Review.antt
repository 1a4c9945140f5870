-- ===== src/Examples/Review.antt =====
-- An exception that is approved, and one that is rejected.
use roborecon.Prelude.{
  ℕ, ◌*◌, ◌/◌, Text, codes, true, false, ◌≡◌, refl, none, some, List, [], ◌∷◌, text_eq,
}
use roborecon.Prelude.Int.{pos, pos_part}
use roborecon.Prelude.Result.{ok, err}
use roborecon.Enums.{
  ReconciliationStage, ResultStatus, RunStatus, open_status, ReviewAction, approve, reject,
}
use roborecon.Json.{
  Json, null, number, text, object, Fields, no_fields, field, get_field, is_truthy,
}
use roborecon.Rows.{
  ReconciliationRun, ReconciliationResult, MatchLink, ReconciliationException, human_approved,
  system,
}
use roborecon.Review.{
  review_conflict, ReviewTables, ReviewRequest, ReviewDecision, Strings, SourceRow,
}
use roborecon.Review.Metrics.{Numerals, adjust_metrics, money_reconciled, money_unresolved}
use roborecon.Review.Metrics.Money.{adjust_metrics-moves_money}
use roborecon.Review.Decision.{review_exception}
use roborecon.Review.Decision.Conflict.{review_exception-once}
use roborecon.Review.Decision.Errors.{Classified, review_exception-errors}
use roborecon.Review.Decision.Effects.{Audited, review_exception-Audited}
use roborecon.Review.Decision.Rejection.{Rejected, review_exception-rejects}
use roborecon.Examples.{noon, evening}

abbrev numerals : Numerals
numerals = record { parse_int = λ t. none; percent = λ n d. pos (pos_part n * 10000 / pos_part d) }

-- A UUID's text is one character.
abbrev strings : Strings
strings = record { str_json = λ v. elim v [ text t ↦ t | _ ↦ [] ]; str_uuid = λ n. n ∷ [] }

abbrev metrics : Fields
metrics = field (codes "open_exceptions") (number (pos 2)) (
    field (codes "matchable_cases") (number (pos 4)) (
      field money_reconciled (number (pos 100))
        (field money_unresolved (number (pos 800)) no_fields)))

abbrev run : ReconciliationRun
run = record {
  id = 3;
  batch_id = 7;
  status = RunStatus.completed;
  started_at = noon;
  completed_at = some noon;
  duration_ms = some 40;
  throughput = none;
  source_row_count = 2;
  source_counts = null;
  metrics = object metrics;
  error_message = none;
}

abbrev result : ReconciliationResult Json
result = record {
  id = 2;
  run_id = 3;
  batch_id = 7;
  stage = ReconciliationStage.ledger_to_razorpay;
  status = ResultStatus.ambiguous;
  primary_source_type = codes "ledger";
  primary_source_id = some 1;
  amount = some (pos 500);
  currency = none;
  score = 50;
  runner_up_score = 45;
  margin = pos 5;
  autonomous = false;
  selected_ids = 11 ∷ [];
  evidence = [];
  candidates = object (field (codes "candidate_id") (text (11 ∷ [])) no_fields) ∷ [];
}

abbrev link : ℕ → Text → Text → MatchLink
link id role actor = record {
  id = id;
  run_id = 3;
  result_id = 2;
  source_type = codes "razorpay_payment";
  source_id = 11;
  role = role;
  autonomous = false;
  actor = actor;
}

abbrev exception : ReconciliationException
exception = record {
  id = 1;
  run_id = 3;
  result_id = some 2;
  batch_id = 7;
  status = open_status;
  exception_type = codes "ambiguous";
  source_type = some (codes "ledger");
  source_id = some 1;
  amount = some (pos 500);
  message = [];
  review_note = none;
  reviewed_by = none;
  reviewed_at = none;
}

abbrev tables : ReviewTables
tables = record {
  exceptions = exception ∷ [];
  results = result ∷ [];
  links = link 81 (codes "selected") system ∷ link 82 human_approved (codes "ann") ∷ [];
  runs = run ∷ [];
  briefs = [];
  sources = λ name. elim (text_eq name (codes "razorpay_payment")) as (λ _. List SourceRow) [
    | true ↦ record { id = 11; batch_id = 7 } ∷ []
    | false ↦ []
  ];
  audit = record { batches = 7 ∷ []; events = [] };
}

abbrev request : ReviewAction → ReviewRequest
request action = record {
  exception_id = 1;
  action = action;
  candidate_id = some 11;
  note = some (codes "seen");
  actor = codes "ann";
  reviewed_at = noon;
  logged_at = evening;
  link_id = 90;
}

approval_test :
    (d : ReviewDecision) × (after : ReviewTables) × (review_exception numerals strings
        (request approve)
        tables
      ≡ ok (d, after))
unfolding review_exception text_eq is_truthy
approval_test = (_, _, refl)

rejection_test :
    (d : ReviewDecision) × (after : ReviewTables) × (review_exception numerals strings
        (request reject)
        tables
      ≡ ok (d, after))
unfolding review_exception text_eq is_truthy
rejection_test = (_, _, refl)

review_exception-rejects_example : Rejected (request reject) tables rejection_test.1
review_exception-rejects_example =
    review_exception-rejects numerals strings (request reject) tables rejection_test.1
      rejection_test.0 refl rejection_test.2

review_exception-Audited_example : Audited (request approve) tables approval_test.1
review_exception-Audited_example =
    review_exception-Audited numerals strings (request approve) tables approval_test.1
      approval_test.0 tt approval_test.2

-- An approved exception cannot be rejected.
review_exception-once_example :
    review_exception numerals strings (request reject) approval_test.1 ≡ err review_conflict
review_exception-once_example =
    review_exception-once numerals strings (request approve) (request reject) tables approval_test.1
      approval_test.0 refl approval_test.2

review_exception-errors_example : Classified numerals strings (request approve) tables
review_exception-errors_example = review_exception-errors numerals strings (request approve) tables

adjusted_test :
    (m : Json) × (adjust_metrics numerals approve (some (pos 500)) none (object metrics) ≡ some m)
unfolding adjust_metrics text_eq is_truthy
adjusted_test = (_, refl)

adjust_metrics-moves_money_example :
    (e : Fields) × (adjusted_test.0 ≡ object e)
    × (get_field money_reconciled e ≡ some (number (pos 600)))
    × (get_field money_unresolved e ≡ some (number (pos 300)))
unfolding get_field text_eq
adjust_metrics-moves_money_example =
    adjust_metrics-moves_money numerals 100 800 500 none metrics adjusted_test.0 refl refl
      adjusted_test.1
