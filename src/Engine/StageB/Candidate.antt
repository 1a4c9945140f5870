-- ===== src/Engine/StageB/Candidate.antt =====
-- The observations and the score of `_stage_b_candidate` of engine.py, and
-- `_stage_b_resource_ids`.
pub mod Policy
pub mod Consumed
use roborecon.Prelude.{
  ℕ, ◌+◌, min, Text, text_eq, Bool, true, false, not, ◌&&◌, ◌||◌, Option, none, some, List, [], ◌∷◌,
  ◌++◌, map, ltb, ◌==◌, is_empty, length, filter, any, all, if◌then◌else◌,
}
use roborecon.Prelude.Int.{ℤ, pos}
use roborecon.Prelude.Dict.{get}
use roborecon.Enums.{SettlementLineType, line_type_eq}
use roborecon.Records.{RazorpayPayment, RazorpayRefund, Settlement, SettlementLine, BankCredit}
use roborecon.Engine.Model.{
  RuleCode, pass, fail, Observed, CriterionEvidence, Contradiction, ScoredCandidate, Resource,
  settlement_currencies, line_amounts, duplicate_references, refund_amounts, release_values,
  evidence_of,
}
use roborecon.Engine.Reference.{CharTables, normalize_reference}
use roborecon.Engine.Candidates.{is_reserved}
use roborecon.Engine.Candidates.Resources.{resource_eq, contradiction_eq}
use roborecon.Engine.StageB.Facts.{SettlementFacts}
use roborecon.Engine.StageB.Bank.{BankMatch, bank_match}
use roborecon.Engine.StageB.Release.{LinesBySettlement, lines_of, related_lines}
use roborecon.Engine.StageB.Checks.{
  has, Related, settlements_of, is_line_of, currency_matches, payment_lines, refund_lines,
  payment_lines_agree, duplicate_line_references, releases_of, released_amount, release_ok,
  hold_settlements, bank_is_verified, after_payment, after_refunds, all_contradictions,
}

-- `points if ok else 0`, and `"pass" if ok else "fail"`
abbrev judged : RuleCode → Observed → ℕ → Bool → CriterionEvidence
judged rule observed points ok =
    if ok then evidence_of rule observed points pass else evidence_of rule observed 0 fail

amounts_of : List SettlementLine → List ℤ
amounts_of lines = map (λ l. SettlementLine.amount l) lines

abbrev concat_ids : List (List ℕ) → List ℕ
concat_ids [] = []
concat_ids (n ∷ ns) = n ++ concat_ids ns

abbrev concat_evidence : List (List CriterionEvidence) → List CriterionEvidence
concat_evidence [] = []
concat_evidence (e ∷ es) = e ++ concat_evidence es

module _ (tables : CharTables) where
  distinct_ids : List ℕ → List ℕ
  unfolding filter
  distinct_ids [] = []
  distinct_ids (n ∷ ns) = n ∷ filter (λ m. not (n == m)) (distinct_ids ns)

  release_evidence : List Settlement → LinesBySettlement → Related → CriterionEvidence
  unfolding release_ok distinct_ids
  release_evidence related by_settlement held =
      let entries = releases_of tables held.0 related by_settlement in
      let observed =
        release_values (held.0).id (held.1).totals.held_amount (released_amount tables entries)
          (distinct_ids (map (λ r. (r.0).id) entries)) in
      judged RuleCode.hold_release observed 10 (release_ok tables held related by_settlement)

  abbrev selected_credit : List BankCredit → Settlement → List ℕ
  selected_credit credits s = elim (bank_match tables s credits).selected [
    | none ↦ []
    | some c ↦ BankCredit.id c ∷ []
  ]

  currency_evidence : RazorpayPayment → List Settlement → CriterionEvidence
  currency_evidence p related =
      judged RuleCode.currency
        (settlement_currencies p.currency (map (λ s. Settlement.currency s) related)) 0
        (currency_matches tables p related)

  captured_evidence : RazorpayPayment → List SettlementLine → List Contradiction → CriterionEvidence
  unfolding amounts_of
  captured_evidence p lines contradictions =
      judged RuleCode.captured_payment
        (line_amounts p.provider_payment_id p.amount (amounts_of lines)) 10
        (not (is_empty lines)
          && not (has Contradiction.payment_amount_contradiction contradictions))

  line_identity_evidence : List (List ℕ) → List CriterionEvidence
  line_identity_evidence [] = []
  line_identity_evidence (r ∷ rs) =
      evidence_of RuleCode.line_identity (duplicate_references (r ∷ rs)) 0 fail ∷ []

  refund_evidence :
      List RazorpayRefund → List SettlementLine → List Contradiction → List CriterionEvidence
  unfolding amounts_of
  refund_evidence [] lines contradictions = []
  refund_evidence (r ∷ rs) lines contradictions =
      judged RuleCode.refund_direction
        (refund_amounts (map (λ f. RazorpayRefund.amount f) (r ∷ rs)) (amounts_of lines)) 10
        (not (has Contradiction.refund_amount_contradiction contradictions))
      ∷ []

  -- `bank_verified` and `exact_utr`, counted over the related settlements
  unfoldable pub exact_bank_count : List BankCredit → List Settlement → ℕ
  exact_bank_count credits [] = 0
  exact_bank_count credits (s ∷ ss) =
      (if bank_is_verified tables credits s then 1 else 0) + exact_bank_count credits ss

  -- no contradiction but a missing bank credit
  unfoldable pub math_verified : List Contradiction → Bool
  unfolding any
  math_verified contradictions =
      not (any (λ c. not (contradiction_eq c Contradiction.bank_credit_missing)) contradictions)

  module _ (p : RazorpayPayment) (base : Settlement) (related : List Related)
      (by_settlement : LinesBySettlement) (refunds : List RazorpayRefund)
      (credits : List BankCredit) where
    abbrev settlements : List Settlement
    settlements = settlements_of related

    unfoldable pub stage_b_score : List Contradiction → ℕ
    unfolding exact_bank_count math_verified
    stage_b_score contradictions =
        let count = exact_bank_count credits settlements in
        let has_lines = not (is_empty (payment_lines tables p settlements by_settlement)) in
        min
          ((if math_verified contradictions then 50 else 0)
            + (if has_lines && not (has Contradiction.payment_amount_contradiction contradictions)
                then 10
                else 0)
            + (if count == length related then 25 else if ltb 0 count then 15 else 0)
            + (if not (is_empty (hold_settlements tables related))
                  && not (has Contradiction.hold_release_missing contradictions)
                then 10
                else 0))
          100

    stage_b_evidence : List CriterionEvidence
    unfolding release_evidence currency_evidence captured_evidence line_identity_evidence
        refund_evidence
    stage_b_evidence =
        let refund_lines = refund_lines tables p settlements by_settlement in
        currency_evidence p settlements
          ∷ captured_evidence p (payment_lines tables p settlements by_settlement)
              (after_payment tables p related by_settlement refunds credits)
          ∷ line_identity_evidence
              (duplicate_line_references tables (related_lines by_settlement settlements))
        ++ refund_evidence refunds refund_lines
            (after_refunds tables p related by_settlement refunds credits)
        ++ concat_evidence (map (λ r. SettlementFacts.evidence r.1) related)
        ++ map (release_evidence settlements by_settlement) (hold_settlements tables related)
        ++ concat_evidence (map (λ s. BankMatch.evidence (bank_match tables s credits)) settlements)

    unfoldable pub stage_b_candidate : ScoredCandidate
    unfolding stage_b_score stage_b_evidence
    stage_b_candidate =
        let contradictions = all_contradictions tables p related by_settlement refunds credits in
        record {
          candidate_id = base.id;
          score = stage_b_score contradictions;
          evidence = stage_b_evidence;
          contradictions = contradictions;
          duplicate = false;
          exact_identifier_chain = false;
          verified_settlement_math =
              math_verified contradictions
              && (exact_bank_count credits settlements == length related);
        }

    -- the settlements, the refunds and the bank credits of the candidate
    unfoldable pub stage_b_selected_ids : List ℕ
    stage_b_selected_ids =
        map (λ s. Settlement.id s) settlements
        ++ map (λ r. RazorpayRefund.id r) refunds
        ++ concat_ids (map (selected_credit credits) settlements)

-- `resources.add(r)`
abbrev add_resource : Resource → List Resource → List Resource
add_resource r rs = if is_reserved rs r then rs else rs ++ r ∷ []

unfoldable pub add_resources : List Resource → List Resource → List Resource
add_resources [] rs = rs
add_resources (q ∷ qs) rs = add_resources qs (add_resource q rs)

module _ (tables : CharTables) where
  pub refund_resources : List RazorpayRefund → List Resource
  refund_resources [] = []
  refund_resources (r ∷ rs) =
      Resource.refund_id r.id
      ∷ Resource.refund_reference (normalize_reference tables r.provider_refund_id)
      ∷ refund_resources rs

  pub consumes : RazorpayPayment → SettlementLine → Bool
  consumes p l =
      is_line_of tables SettlementLineType.payment p l
      || is_line_of tables SettlementLineType.refund p l

  pub line_resources : List SettlementLine → List Resource
  line_resources [] = []
  line_resources (l ∷ ls) =
      Resource.line_id l.id
      ∷ Resource.line_reference l.line_type (normalize_reference tables l.reference)
      ∷ line_resources ls

  unfoldable pub stage_b_resource_ids :
      RazorpayPayment → List Settlement → LinesBySettlement → List RazorpayRefund → List Resource
  unfolding add_resources refund_resources line_resources consumes filter
  stage_b_resource_ids p related by_settlement refunds =
      add_resources
        (refund_resources refunds
          ++ line_resources (filter (consumes p) (related_lines by_settlement related)))
        (Resource.payment_id p.id
          ∷ Resource.payment_reference (normalize_reference tables p.provider_payment_id)
          ∷ [])
