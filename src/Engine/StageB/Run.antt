-- ===== src/Engine/StageB/Run.antt =====
-- `reconcile_stage_b` of engine.py: the loop over the captured payments.
pub mod Inside
pub mod Steps
pub mod Total
pub mod Settled
pub mod Balanced
pub mod Identity
pub mod Status
use roborecon.Prelude.{
  ℕ, Text, text_eq, Bool, true, false, not, ◌&&◌, Option, none, some, List, [], ◌∷◌, ◌++◌, map,
  is_empty, filter, any, ◌>>=◌, if◌then◌else◌,
}
use roborecon.Prelude.Int.{pos, sub_ℕ, ltb_ℤ}
use roborecon.Prelude.Order.{sort}
use roborecon.Prelude.Dict.{lookup, index, get, group}
use roborecon.Enums.{ReconciliationStage, ResultStatus, SettlementLineType, is_ambiguous}
use roborecon.Records.{RazorpayPayment, RazorpayRefund, Settlement, SettlementLine, BankCredit}
use roborecon.Engine.Model.{
  RuleCode, fail, Contradiction, ScoredCandidate, EngineOutcome, Resource, provider_payment,
  evidence_of,
}
use roborecon.Engine.Policy.{score_of, can_auto_resolve}
use roborecon.Engine.Reference.{CharTables}
use roborecon.Engine.Candidates.{before, batch_collision_ids, mark_batch_collision}
use roborecon.Engine.StageA.Pool.{payment_captured}
use roborecon.Engine.StageA.Outcome.{contains_id, or_else, head_of}
use roborecon.Engine.StageB.Facts.{SettlementFacts, settlement_facts}
use roborecon.Engine.StageB.Release.{
  id_eq, LinesBySettlement, lines_by_settlement, lines_of, release_settlements,
}
use roborecon.Engine.StageB.Checks.{Related, has, with_facts, is_line_of}
use roborecon.Engine.StageB.Candidate.{
  stage_b_candidate, stage_b_selected_ids, stage_b_resource_ids,
}

-- What the loop over the base settlements keeps of a candidate, under its id, in
-- `selected_ids_by_candidate`, `resource_ids_by_candidate` and `candidate_contradictions`.
pub record Entry : Type 0 where
  pub candidate : ScoredCandidate
  pub selected_ids : List ℕ
  pub resource_ids : List Resource
  pub collides : Bool

abbrev pub entry_id : Entry → ℕ
entry_id e = (e.candidate).candidate_id

abbrev pub candidates_of : List Entry → List ScoredCandidate
candidates_of = map (λ e. Entry.candidate e)

abbrev pub FactsById : Type 0
FactsById = List (ℕ × SettlementFacts)

-- `facts_by_id`
unfoldable pub facts_by_id : List Settlement → LinesBySettlement → FactsById
unfolding index settlement_facts lines_of
facts_by_id settlements by_settlement =
    index id_eq (λ f. (SettlementFacts.settlement f).id)
      (map (λ s. settlement_facts s (lines_of by_settlement s)) settlements)

-- the branches for the status of the selected candidate, on its contradictions as they were kept
unfoldable pub stage_b_status :
    ScoredCandidate → List Contradiction → Option ScoredCandidate → ResultStatus
stage_b_status selected contradictions runner_up =
    if selected.duplicate
    then ResultStatus.duplicate
    else if has Contradiction.hold_release_missing contradictions
    then ResultStatus.missing_settlement
    else if has Contradiction.bank_credit_missing contradictions
    then ResultStatus.missing_bank_credit
    else if not (is_empty contradictions)
    then ResultStatus.amount_mismatch
    else elim runner_up [
      | none ↦ ResultStatus.matched
      | some r ↦
          if ltb_ℤ (sub_ℕ selected.score r.score) (pos 15)
          then ResultStatus.ambiguous
          else ResultStatus.matched
    ]

abbrev stage_b : Option ReconciliationStage
stage_b = some ReconciliationStage.razorpay_to_settlement

unfoldable pub missing_settlement_outcome : RazorpayPayment → EngineOutcome
missing_settlement_outcome p = record {
  status = ResultStatus.missing_settlement;
  selected_ids = [];
  score = 0;
  runner_up_score = 0;
  margin = pos 0;
  evidence =
      evidence_of RuleCode.missing_settlement (provider_payment p.provider_payment_id) 0 fail ∷ [];
  candidates = [];
  autonomous = false;
  stage = stage_b;
}

unfoldable pub stage_b_outcome :
    List ScoredCandidate → ScoredCandidate → Option ScoredCandidate → Entry → EngineOutcome
unfolding stage_b_status
stage_b_outcome candidates selected runner_up kept =
    let status = stage_b_status selected (kept.candidate).contradictions runner_up in
    record {
      status = status;
      selected_ids = kept.selected_ids;
      score = selected.score;
      runner_up_score = score_of runner_up;
      margin = sub_ℕ selected.score (score_of runner_up);
      evidence = selected.evidence;
      candidates = candidates;
      autonomous = not (is_ambiguous status) && can_auto_resolve selected runner_up;
      stage = stage_b;
    }

-- An outcome, and the resources that it adds to `reserved_ids`.
abbrev pub Step : Type 0
Step = EngineOutcome × List Resource

unfoldable pub step_of : EngineOutcome → Entry → Step
step_of outcome kept = (outcome, if outcome.autonomous then kept.resource_ids else [])

-- The entry that the dicts hold for the selected candidate; a missing key is `none`. The
-- selectable candidates are sorted; there are none exactly if there is no base settlement.
unfoldable pub select_entry : RazorpayPayment → List Entry → List ScoredCandidate → Option Step
unfolding missing_settlement_outcome stage_b_outcome step_of lookup index sort
select_entry p entries [] = some (missing_settlement_outcome p, [])
select_entry p entries (selected ∷ rest) = do
  kept ← lookup id_eq selected.candidate_id (index id_eq entry_id entries)
  some (
      step_of (stage_b_outcome (sort before (candidates_of entries)) selected (head_of rest) kept)
        kept)

unfoldable pub collision_ids : List Entry → List ℕ
unfolding filter
collision_ids entries = map entry_id (filter (λ e. Entry.collides e) entries)

unfoldable pub selectable_entries : List Entry → List ScoredCandidate
unfolding collision_ids filter contains_id
selectable_entries entries =
    or_else
      (filter (λ c. not (contains_id (collision_ids entries) (ScoredCandidate.candidate_id c)))
        (candidates_of entries))
      (candidates_of entries)

module _ (tables : CharTables) (settlements : List Settlement) (by_settlement : LinesBySettlement)
    (facts : FactsById) (refunds_by_payment : List (Text × List RazorpayRefund))
    (credits : List BankCredit) where
  unfoldable pub refunds_of : RazorpayPayment → List RazorpayRefund
  unfolding get
  refunds_of p = get text_eq p.provider_payment_id refunds_by_payment

  unfoldable pub base_settlements : RazorpayPayment → List Settlement
  unfolding filter any lines_of
  base_settlements p =
      filter (λ s. any (is_line_of tables SettlementLineType.payment p) (lines_of by_settlement s))
        settlements

  abbrev pub related_settlements : Settlement → List Settlement
  related_settlements base = base ∷ release_settlements tables base settlements by_settlement

  unfoldable pub entry_of : RazorpayPayment → List Resource → Settlement → List Related → Entry
  entry_of p reserved_ids base related =
      let refunds = refunds_of p in
      let candidate = stage_b_candidate tables p base related by_settlement refunds credits in
      let resource_ids =
        stage_b_resource_ids tables p (related_settlements base) by_settlement refunds in
      record {
        candidate = mark_batch_collision candidate reserved_ids resource_ids;
        selected_ids = stage_b_selected_ids tables p base related by_settlement refunds credits;
        resource_ids = resource_ids;
        collides = not (is_empty (batch_collision_ids candidate reserved_ids resource_ids));
      }

  -- the loop over the base settlements
  unfoldable pub entries_of :
      RazorpayPayment → List Resource → List Settlement → Option (List Entry)
  unfolding entry_of with_facts
  entries_of p reserved_ids [] = some []
  entries_of p reserved_ids (base ∷ bases) = do
    related ← with_facts facts (related_settlements base)
    entries ← entries_of p reserved_ids bases
    some (entry_of p reserved_ids base related ∷ entries)

  -- the body of the loop over the payments
  unfoldable pub payment_step : RazorpayPayment → List Resource → Option Step
  unfolding entries_of base_settlements select_entry selectable_entries sort
  payment_step p reserved_ids = do
    entries ← entries_of p reserved_ids (base_settlements p)
    select_entry p entries (sort before (selectable_entries entries))

  unfoldable pub run_payments : List RazorpayPayment → List Resource → Option (List EngineOutcome)
  unfolding payment_step
  run_payments [] reserved_ids = some []
  run_payments (p ∷ ps) reserved_ids = do
    step ← payment_step p reserved_ids
    outcomes ← run_payments ps (reserved_ids ++ step.1)
    some (step.0 ∷ outcomes)

unfoldable pub captured_payments : List RazorpayPayment → List RazorpayPayment
unfolding filter payment_captured
captured_payments payments = filter payment_captured payments

-- `none` stands for a `KeyError`
unfoldable pub reconcile_stage_b :
    CharTables
    → List RazorpayPayment
    → List RazorpayRefund
    → List Settlement
    → List SettlementLine
    → List BankCredit
    → Option (List EngineOutcome)
unfolding run_payments captured_payments lines_by_settlement facts_by_id group
reconcile_stage_b tables payments refunds settlements lines credits =
    let by_settlement = lines_by_settlement lines in
    run_payments tables settlements by_settlement (facts_by_id settlements by_settlement)
      (group text_eq (λ r. RazorpayRefund.provider_payment_id r) refunds) credits
      (captured_payments payments) []
