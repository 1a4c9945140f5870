-- ===== src/Service/Results.antt =====
-- The results and the exceptions of a run: `_outcome_result` and the loops over the outcomes in
-- `run_reconciliation` of apps/api/app/reconciliation/service.py.
use roborecon.Prelude.{ℕ, suc, Text, codes, Option, none, some, List, [], ◌∷◌, ◌++◌, ◌>>=◌}
use roborecon.Prelude.Dict.{lookup}
use roborecon.Enums.{open_status, ResultStatus}
use roborecon.Records.{LedgerEntry, RazorpayPayment}
use roborecon.Rows.{ReconciliationResult, MatchLink, ReconciliationException}
use roborecon.Engine.Model.{ScoredCandidate, EngineOutcome}
use roborecon.Engine.Reference.{CharTables}
use roborecon.Engine.StageA.Run.{reconcile_stage_a}
use roborecon.Engine.StageB.Run.{captured_payments, reconcile_stage_b}
use roborecon.Service.{
  Source, ledger_source, payment_source, source_type_of, source_id_of, source_amount,
  source_currency, Snapshot, SourceIndex, id_eq, source_index, exception_message,
}
use roborecon.Service.Links.{NewIds, result_links, result_exceptions}

abbrev pub ResultRow : Type 0
ResultRow = ReconciliationResult ScoredCandidate

-- A result that waits for its links.
abbrev pub Pending : Type 0
Pending = ResultRow × EngineOutcome

-- the primary source: its type, and the record if there is one
abbrev pub Primary : Type 0
Primary = Text × Option Source

abbrev map_option {ℓ κ} : {A : Type ℓ} {B : Type κ} → (A → B) → Option A → Option B
map_option f none = none
map_option f (some a) = some (f a)

-- `_outcome_result`; `none` is a null in the column `stage`, which the database refuses
unfoldable pub outcome_result : ℕ → ℕ → ℕ → EngineOutcome → Primary → Option Pending
outcome_result id run_id batch_id outcome primary = do
  stage ← outcome.stage
  some (
    record {
      id = id;
      run_id = run_id;
      batch_id = batch_id;
      stage = stage;
      status = outcome.status;
      primary_source_type = primary.0;
      primary_source_id = map_option source_id_of primary.1;
      amount = map_option source_amount primary.1;
      currency = map_option source_currency primary.1;
      score = outcome.score;
      runner_up_score = outcome.runner_up_score;
      margin = outcome.margin;
      autonomous = outcome.autonomous;
      selected_ids = outcome.selected_ids;
      evidence = outcome.evidence;
      candidates = outcome.candidates;
    },
    outcome,
  )

abbrev first_source : SourceIndex → List ℕ → Option Source
first_source index [] = none
first_source index (id ∷ ids) = lookup id_eq id index

-- the primary source of an outcome that belongs to no ledger entry
unfoldable pub leftover_primary : SourceIndex → EngineOutcome → Primary
unfolding lookup
leftover_primary index outcome = elim (first_source index outcome.selected_ids) [
  | some s ↦ (source_type_of s, some s)
  | none ↦ (codes "source", none)
]

unfoldable pub stage_a_primaries :
    SourceIndex → List LedgerEntry → List EngineOutcome → List (Primary × EngineOutcome)
unfolding leftover_primary
stage_a_primaries index ledger [] = []
stage_a_primaries index [] (o ∷ os) = (leftover_primary index o, o) ∷ stage_a_primaries index [] os
stage_a_primaries index (e ∷ es) (o ∷ os) =
    ((codes "ledger", some (ledger_source e)), o) ∷ stage_a_primaries index es os

-- `zip(captured_payments, stage_b_outcomes)`
unfoldable pub stage_b_primaries :
    List RazorpayPayment → List EngineOutcome → List (Primary × EngineOutcome)
stage_b_primaries (p ∷ ps) (o ∷ os) =
    ((codes "razorpay_payment", some (payment_source p)), o) ∷ stage_b_primaries ps os
stage_b_primaries _ _ = []

-- the results, numbered from `n` on
unfoldable pub pending_results :
    (ℕ → ℕ) → ℕ → ℕ → ℕ → List (Primary × EngineOutcome) → Option (List Pending)
unfolding outcome_result
pending_results result_id run_id batch_id n [] = some []
pending_results result_id run_id batch_id n ((primary, outcome) ∷ rest) = do
  pending ← outcome_result (result_id n) run_id batch_id outcome primary
  others ← pending_results result_id run_id batch_id (suc n) rest
  some (pending ∷ others)

unfoldable pub pending_links : NewIds → SourceIndex → List Pending → List MatchLink
unfolding result_links
pending_links ids index [] = []
pending_links ids index ((result, outcome) ∷ rest) =
    result_links ids index result outcome ++ pending_links ids index rest

unfoldable pub pending_exceptions : NewIds → List Pending → List ReconciliationException
unfolding result_exceptions
pending_exceptions ids [] = []
pending_exceptions ids ((result, outcome) ∷ rest) =
    result_exceptions ids result outcome ++ pending_exceptions ids rest

unfoldable pub quarantine_exception : NewIds → ℕ → ℕ → ℕ → ReconciliationException
unfolding exception_message
quarantine_exception ids run_id batch_id record_id = record {
  id = ids.quarantine_id record_id;
  run_id = run_id;
  result_id = none;
  batch_id = batch_id;
  status = open_status;
  exception_type = codes "malformed";
  source_type = some (codes "quarantine");
  source_id = none;
  amount = none;
  message = exception_message ResultStatus.malformed;
  review_note = none;
  reviewed_by = none;
  reviewed_at = none;
}

-- the results of both stages; `none` stands for an exception
unfoldable pub run_stages : CharTables → NewIds → ℕ → Snapshot → Option (List Pending)
unfolding reconcile_stage_a reconcile_stage_b stage_a_primaries stage_b_primaries captured_payments
    pending_results source_index
run_stages tables ids batch_id s = do
  stage_b_outcomes ← reconcile_stage_b tables s.payments s.refunds s.settlements s.lines s.credits
  pending_results ids.result_id ids.run_id batch_id 0 (
      stage_a_primaries (source_index s) s.ledger
        (reconcile_stage_a tables s.ledger s.orders s.payments s.refunds)
      ++ stage_b_primaries (captured_payments s.payments) stage_b_outcomes)
