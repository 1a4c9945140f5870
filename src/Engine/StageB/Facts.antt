-- ===== src/Engine/StageB/Facts.antt =====
-- `_SettlementFacts` and `_settlement_facts` of engine.py.
pub mod Balance
use roborecon.Prelude.{
  Text, text_eq, Bool, true, false, not, List, [], ◌∷◌, ◌++◌, is_empty, if◌then◌else◌,
}
use roborecon.Prelude.Int.{ℤ, pos, ◌+ℤ◌, ◌-ℤ◌, neg, ltb_ℤ, ◌==ℤ◌}
use roborecon.Enums.{SettlementLineType, transfer, fee, tax, hold, release, adjustment}
use roborecon.Records.{Settlement, SettlementLine}
use roborecon.Engine.Model.{
  RuleCode, pass, fail, CriterionEvidence, Contradiction, SettlementTotals, settlement_totals,
  evidence_of,
}
use roborecon.Engine.Candidates.{distinct}

pub record SettlementFacts : Type 0 where
  pub settlement : Settlement
  pub totals : SettlementTotals
  pub expected_amount : ℤ
  pub contradictions : List Contradiction
  pub evidence : List CriterionEvidence

-- The variables of the loop over the lines.
pub record Tally : Type 0 where
  pub totals : SettlementTotals
  pub contradictions : List Contradiction

abbrev pub no_totals : SettlementTotals
no_totals = record {
  captured_credits = pos 0;
  refund_debits = pos 0;
  fee_debits = pos 0;
  tax_debits = pos 0;
  held_amount = pos 0;
  release_adjustments = pos 0;
  explicit_adjustments = pos 0;
}

abbrev flag : Contradiction → Tally → Tally
flag c t = record t { contradictions = t.contradictions ++ c ∷ [] }

-- the branch for a line's type
unfoldable pub add_kind : SettlementLineType → ℤ → Tally → Tally
add_kind SettlementLineType.payment amount t =
    let counted = record t {
      totals = record t.totals { captured_credits = t.totals.captured_credits +ℤ amount };
    } in
    if ltb_ℤ amount (pos 0)
    then flag Contradiction.payment_direction_contradiction counted
    else counted
add_kind SettlementLineType.refund amount t =
    if ltb_ℤ (pos 0) amount then flag Contradiction.refund_direction_contradiction t else record t {
      totals = record t.totals { refund_debits = t.totals.refund_debits +ℤ neg amount };
    }
add_kind transfer amount t = t
add_kind fee amount t =
    if ltb_ℤ (pos 0) amount
    then flag Contradiction.fee_direction_contradiction t
    else record t { totals = record t.totals { fee_debits = t.totals.fee_debits +ℤ neg amount } }
add_kind tax amount t =
    if ltb_ℤ (pos 0) amount
    then flag Contradiction.tax_direction_contradiction t
    else record t { totals = record t.totals { tax_debits = t.totals.tax_debits +ℤ neg amount } }
add_kind hold amount t =
    if ltb_ℤ (pos 0) amount
    then flag Contradiction.hold_direction_contradiction t
    else record t { totals = record t.totals { held_amount = t.totals.held_amount +ℤ neg amount } }
add_kind release amount t =
    if ltb_ℤ amount (pos 0)
    then flag Contradiction.release_direction_contradiction t
    else record t {
      totals = record t.totals { release_adjustments = t.totals.release_adjustments +ℤ amount };
    }
add_kind adjustment amount t = record t {
  totals = record t.totals { explicit_adjustments = t.totals.explicit_adjustments +ℤ amount };
}

unfoldable pub add_line : Text → SettlementLine → Tally → Tally
unfolding add_kind
add_line currency line t =
    add_kind line.line_type line.amount (
      if text_eq line.currency currency
      then t
      else flag Contradiction.line_currency_contradiction t)

unfoldable pub tally_lines : Text → List SettlementLine → Tally → Tally
unfolding add_line
tally_lines currency [] t = t
tally_lines currency (line ∷ lines) t = tally_lines currency lines (add_line currency line t)

unfoldable pub expected_of : SettlementTotals → ℤ
expected_of t =
    t.captured_credits -ℤ t.refund_debits -ℤ t.fee_debits -ℤ t.tax_debits -ℤ t.held_amount
    +ℤ t.release_adjustments +ℤ t.explicit_adjustments

abbrev pub unless_equal : ℤ → ℤ → Contradiction → List Contradiction
unless_equal a b c = if a ==ℤ b then [] else c ∷ []

-- the contradictions of the reported values
unfoldable pub reported_contradictions : Settlement → SettlementTotals → List Contradiction
unfolding expected_of
reported_contradictions s t =
    unless_equal s.amount (expected_of t) Contradiction.settlement_amount_contradiction
    ++ unless_equal s.fee t.fee_debits Contradiction.settlement_fee_contradiction
    ++ unless_equal s.tax t.tax_debits Contradiction.settlement_tax_contradiction
    ++ unless_equal s.held_amount t.held_amount Contradiction.settlement_hold_contradiction

unfoldable pub settlement_facts : Settlement → List SettlementLine → SettlementFacts
unfolding tally_lines reported_contradictions expected_of distinct
settlement_facts s lines =
    let tally = tally_lines s.currency lines (record { totals = no_totals; contradictions = [] }) in
    let contradictions = tally.contradictions ++ reported_contradictions s tally.totals in
    let expected_amount = expected_of tally.totals in
    let observed = settlement_totals tally.totals expected_amount s.amount in
    record {
      settlement = s;
      totals = tally.totals;
      expected_amount = expected_amount;
      contradictions = distinct contradictions;
      evidence =
          (if is_empty contradictions
            then evidence_of RuleCode.settlement_math observed 50 pass
            else evidence_of RuleCode.settlement_math observed 0 fail)
          ∷ [];
    }
