-- ===== src/Engine/Staged.antt =====
-- Each outcome of the engine names its stage.
use mathlib.Core.Path.{subst}
use roborecon.Prelude.{
  ℕ, ◌≡◌, refl, sym, inl, inr, some, List, [], ◌∷◌, Bool-cases, All, All-append, All-map, all-All,
  Text,
}
use mathlib.Core.Option.{some-injective}
use roborecon.Enums.{ReconciliationStage, ledger_to_razorpay, razorpay_to_settlement}
use roborecon.Records.{
  LedgerEntry, RazorpayOrder, RazorpayPayment, RazorpayRefund, Settlement, SettlementLine,
  BankCredit,
}
use roborecon.Engine.Model.{ScoredCandidate, EngineOutcome, Resource}
use roborecon.Engine.Reference.{CharTables}
use roborecon.Engine.StageA.Pool.{StageACandidate}
use roborecon.Engine.StageA.Outcome.{
  outcome_of_sorted, outcome_from_stage_a_candidates, no_candidate_outcome, below_minimum_outcome,
  settled_outcome, below_minimum,
}
use roborecon.Engine.StageA.Run.{
  entry_outcome, run_entries, missing_ledger_outcome, missing_ledger_outcomes, reconcile_stage_a,
}
use roborecon.Engine.StageB.Release.{LinesBySettlement}
use roborecon.Engine.StageB.Run.{
  FactsById, missing_settlement_outcome, stage_b_outcome, step_of, run_payments, captured_payments,
  reconcile_stage_b,
}
use roborecon.Engine.StageB.Run.Steps.{payment_step-cases, run_payments-cons}

abbrev pub IsOfStage : ReconciliationStage → EngineOutcome → Type 0
IsOfStage stage o = o.stage ≡ some stage

module _ (tables : CharTables) where
  outcome_of_sorted-IsOfStage :
      (entry : LedgerEntry) (cs : List ScoredCandidate) (n : ℕ) (sorted : List ScoredCandidate)
      → IsOfStage ledger_to_razorpay (outcome_of_sorted tables entry cs n sorted)
  unfolding outcome_of_sorted no_candidate_outcome below_minimum_outcome settled_outcome
  outcome_of_sorted-IsOfStage entry cs n [] = refl
  outcome_of_sorted-IsOfStage entry cs n (selected ∷ rest) =
      elim (Bool-cases (below_minimum tables selected)) [ inl t ↦ rw t refl | inr f ↦ rw f refl ]

  entry_outcome-IsOfStage :
      (entry : LedgerEntry) (pool : List StageACandidate) (ids : List Resource)
      → IsOfStage ledger_to_razorpay (entry_outcome tables entry pool ids)
  unfolding entry_outcome outcome_from_stage_a_candidates
  entry_outcome-IsOfStage entry pool ids = outcome_of_sorted-IsOfStage entry _ _ _

  run_entries-IsOfStage :
      (pool : List StageACandidate) (ledger : List LedgerEntry) (considered : List ℕ)
      (ids : List Resource)
      → All (IsOfStage ledger_to_razorpay) (run_entries tables pool ledger considered ids).0
  unfolding run_entries
  run_entries-IsOfStage pool [] considered ids = tt
  run_entries-IsOfStage pool (entry ∷ ledger) considered ids =
      (entry_outcome-IsOfStage entry pool ids, run_entries-IsOfStage pool ledger _ _)

  pub reconcile_stage_a-IsOfStage :
      (ledger : List LedgerEntry) (orders : List RazorpayOrder) (payments : List RazorpayPayment)
      (refunds : List RazorpayRefund)
      → All (IsOfStage ledger_to_razorpay) (reconcile_stage_a tables ledger orders payments refunds)
  unfolding reconcile_stage_a missing_ledger_outcomes missing_ledger_outcome
  reconcile_stage_a-IsOfStage ledger orders payments refunds =
      All-append (IsOfStage ledger_to_razorpay) _ _ (run_entries-IsOfStage _ ledger [] []) (
        All-map (IsOfStage ledger_to_razorpay) missing_ledger_outcome _ (all-All _ _ (λ c m. refl)))

module _ (tables : CharTables) (settlements : List Settlement) (by_settlement : LinesBySettlement)
    (facts : FactsById) (refunds_by_payment : List (Text × List RazorpayRefund))
    (credits : List BankCredit) where
  run_payments-IsOfStage :
      (ps : List RazorpayPayment) (ids : List Resource) (os : List EngineOutcome)
      → run_payments tables settlements by_settlement facts refunds_by_payment credits ps ids
        ≡ some os
      → All (IsOfStage razorpay_to_settlement) os
  unfolding missing_settlement_outcome stage_b_outcome step_of run_payments
  run_payments-IsOfStage [] ids os h =
      subst (All (IsOfStage razorpay_to_settlement)) (some-injective _ _ h) tt
  run_payments-IsOfStage (p ∷ ps) ids os h =
      let (step, rest, stepped, next, whole) =
        run_payments-cons tables settlements by_settlement facts refunds_by_payment credits p ps ids
          os h in
      subst (All (IsOfStage razorpay_to_settlement)) (sym whole) (
        elim (payment_step-cases tables settlements by_settlement facts refunds_by_payment credits p
            ids step stepped) [
              | inl missing ↦ subst (λ s. IsOfStage razorpay_to_settlement s.0) (sym missing) refl
              | inr (es, made, selected) ↦
                  subst (λ s. IsOfStage razorpay_to_settlement s.0) (sym selected.is_step) refl
            ],
        run_payments-IsOfStage ps _ rest next,
      )

pub reconcile_stage_b-IsOfStage :
    (tables : CharTables) (payments : List RazorpayPayment) (refunds : List RazorpayRefund)
    (settlements : List Settlement) (lines : List SettlementLine) (credits : List BankCredit)
    (os : List EngineOutcome)
    → reconcile_stage_b tables payments refunds settlements lines credits ≡ some os
    → All (IsOfStage razorpay_to_settlement) os
unfolding reconcile_stage_b
reconcile_stage_b-IsOfStage tables payments refunds settlements lines credits os h =
    run_payments-IsOfStage tables settlements _ _ _ credits (captured_payments payments) [] os h
