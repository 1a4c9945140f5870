-- ===== src/Engine/Model.antt =====
-- The engine's results (apps/api/app/reconciliation/model.py) and `_evidence` of engine.py. The
-- values that a rule observed are a constructor for each rule. The explanations are constant texts
-- that nothing reads, and are left out.
use roborecon.Prelude.{ℕ, Text, Bool, Option, List}
use roborecon.Prelude.Int.{ℤ}
use roborecon.Enums.{ReconciliationStage, ResultStatus, SettlementLineType}

pub data RuleCode : Type 0 where
  currency reference amount date lifecycle order_payment_chain : RuleCode
  missing_razorpay minimum_evidence missing_ledger batch_collision : RuleCode
  settlement_math bank_utr bank_credit bank_amount_date : RuleCode
  captured_payment line_identity refund_direction hold_release missing_settlement : RuleCode

pub data EvidenceResult : Type 0 where
  pass weak fail : EvidenceResult

pub data CandidateKind : Type 0 where
  payment refund : CandidateKind

-- An identity that two records of one batch cannot both consume. In stage A it is a record's id;
-- in stage B the constructors are the prefixes of the source's texts.
pub data Resource : Type 0 where
  record_id payment_id refund_id line_id : ℕ → Resource
  payment_reference refund_reference : Text → Resource
  line_reference : SettlementLineType → Text → Resource

-- `observed_values` of a "REFERENCE" observation; `matched` is the identifier that was matched,
-- and its normal form.
pub record ReferenceValues : Type 0 where
  pub ledger_reference : Text
  pub provider_reference : Text
  pub normalized_ledger_reference : Text
  pub normalized_provider_reference : Text
  pub numeric_only : Bool
  pub matched : Option (Text × Text)

-- `observed_values` of a "SETTLEMENT_MATH" observation, without the totals by line type
pub record SettlementTotals : Type 0 where
  pub captured_credits : ℤ
  pub refund_debits : ℤ
  pub fee_debits : ℤ
  pub tax_debits : ℤ
  pub held_amount : ℤ
  pub release_adjustments : ℤ
  pub explicit_adjustments : ℤ

pub data Observed : Type 0 where
  currencies : Text → Text → Observed
  reference_values : ReferenceValues → Observed
  amounts : ℤ → ℤ → Observed
  distance : ℕ → Observed
  lifecycle_of : Bool → CandidateKind → Observed
  chain_verified : Bool → Observed
  ledger_record : ℕ → Text → Observed
  minimum_score : ℕ → Observed
  provider_record : ℕ → Text → Observed
  consumed_ids : ℕ → List Resource → Observed
  settlement_totals : SettlementTotals → ℤ → ℤ → Observed
  bank_values : Text → Text → ℤ → ℤ → Observed
  settlement_utr : Text → Observed
  settlement_currencies : Text → List Text → Observed
  line_amounts : Text → ℤ → List ℤ → Observed
  duplicate_references : List Text → Observed
  refund_amounts : List ℤ → List ℤ → Observed
  release_values : ℕ → ℤ → ℤ → List ℕ → Observed
  provider_payment : Text → Observed

pub record CriterionEvidence : Type 0 where
  pub rule_code : RuleCode
  pub observed_values : Observed
  pub points : ℕ
  pub result : EvidenceResult

-- The tags that block an autonomous resolution.
pub data Contradiction : Type 0 where
  currency_contradiction amount_contradiction date_contradiction : Contradiction
  lifecycle_contradiction batch_collision : Contradiction
  line_currency_contradiction payment_direction_contradiction : Contradiction
  refund_direction_contradiction fee_direction_contradiction : Contradiction
  tax_direction_contradiction hold_direction_contradiction : Contradiction
  release_direction_contradiction settlement_amount_contradiction : Contradiction
  settlement_fee_contradiction settlement_tax_contradiction : Contradiction
  settlement_hold_contradiction bank_duplicate_contradiction : Contradiction
  bank_currency_contradiction bank_amount_contradiction : Contradiction
  payment_amount_contradiction duplicate_line_reference : Contradiction
  refund_currency_contradiction refund_amount_contradiction : Contradiction
  hold_release_missing bank_credit_missing : Contradiction

pub record ScoredCandidate : Type 0 where
  pub candidate_id : ℕ
  pub score : ℕ
  pub evidence : List CriterionEvidence
  pub contradictions : List Contradiction
  pub duplicate : Bool
  pub exact_identifier_chain : Bool
  pub verified_settlement_math : Bool

pub record EngineOutcome : Type 0 where
  pub status : ResultStatus
  pub selected_ids : List ℕ
  pub score : ℕ
  pub runner_up_score : ℕ
  pub margin : ℤ
  pub evidence : List CriterionEvidence
  pub candidates : List ScoredCandidate
  pub autonomous : Bool
  pub stage : Option ReconciliationStage

abbrev pub evidence_of : RuleCode → Observed → ℕ → EvidenceResult → CriterionEvidence
evidence_of rule_code observed_values points result = record {
  rule_code = rule_code;
  observed_values = observed_values;
  points = points;
  result = result;
}
