-- ===== src/Examples/Settled.antt =====
-- Stage B on the small batch.
use roborecon.Prelude.{
  ℕ, ◌≡◌, refl, true, Option, none, some, List, [], ◌∷◌, arith, get_elem?, length, is_empty,
}
use roborecon.Records.{BankCredit}
use roborecon.Engine.Model.{EngineOutcome, ScoredCandidate}
use roborecon.Engine.StageB.Facts.Balance.{Balances, settlement_facts-Balances}
use roborecon.Engine.StageB.Bank.Verified.{Credited, bank_match-Credited}
use roborecon.Engine.StageB.Checks.{Related}
use roborecon.Engine.StageB.Candidate.Policy.{Backed, stage_b_candidate-Backed}
use roborecon.Engine.StageB.Run.Balanced.{Settled, own_lines, reconcile_stage_b-Settled}
use roborecon.Engine.StageB.Run.Total.{reconcile_stage_b-total}
use roborecon.Engine.StageB.Run.Identity.{reconcile_stage_b-distinct_payments}
use roborecon.Engine.StageB.Run.Status.{reconcile_stage_b-matched}
use roborecon.Enums.{ResultStatus}
use roborecon.Examples.{
  ascii, payments, first_payment, second_payment, refunds, settlements, first_settlement, lines,
  credits,
}
use roborecon.Prelude.{text_eq}
use roborecon.Prelude.{filter, any, all, take, drop}
use roborecon.Prelude.Int.{◌+ℤ◌, ◌-ℤ◌, neg}
use roborecon.Prelude.Order.{sort}
use roborecon.Prelude.Dict.{lookup, index, get, append_to, group}
use roborecon.Enums.{is_captured, line_type_value, line_type_eq, is_ambiguous}
use roborecon.Engine.Policy.{can_auto_resolve}
use roborecon.Engine.Reference.{normalize_reference, digits_of, without_digits, same_reference}
use roborecon.Engine.Time.{utc, date_distance}
use roborecon.Engine.Candidates.{
  before, has_reference_evidence, has_numeric_reference_evidence, distinct, resources_of,
  is_reserved, batch_collision_ids, mark, mark_batch_collision,
}
use roborecon.Engine.Candidates.Resources.{
  contradiction_eq, text_lt, resource_eq, labelled, resource_lt,
}
use roborecon.Engine.StageA.Pool.{
  payment_captured, verified_chain, payment_candidate, refund_candidate_of, refund_candidate,
  stage_a_pool,
}
use roborecon.Engine.StageA.Outcome.{
  contains_id, selectable_of, contains_candidate, exact_candidates_of, mark_exact_duplicates,
  selected_status, no_candidate_outcome, below_minimum_outcome, settled_outcome, below_minimum,
  outcome_of_sorted, outcome_from_stage_a_candidates,
}
use roborecon.Engine.StageB.Facts.{
  add_kind, add_line, tally_lines, expected_of, reported_contradictions, settlement_facts,
}
use roborecon.Engine.StageB.Bank.{
  by_distance, exact_contradictions, exact_match, fallback_match, is_eligible, match_sorted,
  bank_match,
}
use roborecon.Engine.StageB.Release.{
  lines_by_settlement, lines_of, related_lines, is_release_of, release_lines, release_settlements,
}
use roborecon.Engine.StageB.Checks.{
  has, with_facts, is_line_of, currency_matches, payment_lines, refund_lines, payment_lines_agree,
  duplicate_line_references, refund_contradictions, releases_of, release_ok, hold_settlements,
  bank_contradictions, bank_is_verified, after_currency, after_payment, after_lines, after_refunds,
  after_facts, after_holds, all_contradictions,
}
use roborecon.Engine.StageB.Candidate.{
  exact_bank_count, math_verified, stage_b_score, stage_b_candidate, stage_b_selected_ids,
  add_resources, stage_b_resource_ids,
}
use roborecon.Engine.StageB.Run.{
  facts_by_id, stage_b_status, missing_settlement_outcome, stage_b_outcome, step_of, select_entry,
  collision_ids, selectable_entries, refunds_of, base_settlements, entry_of, entries_of,
  payment_step, run_payments, captured_payments, reconcile_stage_b,
}

-- The outcomes of stage B, if it returns any.
abbrev outcomes_of : Option (List EngineOutcome) → List EngineOutcome
outcomes_of none = []
outcomes_of (some os) = os

abbrev outcomes : List EngineOutcome
outcomes = outcomes_of (reconcile_stage_b ascii payments refunds settlements lines credits)

abbrev nth : List EngineOutcome → ℕ → EngineOutcome
nth os i = elim (get_elem? os i) [ none ↦ missing_settlement_outcome first_payment | some o ↦ o ]

abbrev first_related : List Related
first_related =
    (
      first_settlement,
      settlement_facts first_settlement (lines_of (lines_by_settlement lines) first_settlement),
    )
    ∷ []

abbrev first_candidate : ScoredCandidate
first_candidate =
    stage_b_candidate ascii first_payment first_settlement first_related (lines_by_settlement lines)
      [] credits

outcomes_test :
    (reconcile_stage_b ascii payments refunds settlements lines credits ≡ some outcomes)
    × (get_elem? outcomes 0 ≡ some (nth outcomes 0))
    × (get_elem? outcomes 1 ≡ some (nth outcomes 1))
    × ((nth outcomes 0).autonomous ≡ true)
    × ((nth outcomes 1).autonomous ≡ true)
    × ((nth outcomes 1).selected_ids ≡ 42 ∷ 62 ∷ [])
    × (get_elem? (captured_payments payments) 0 ≡ some first_payment)
    × (get_elem? (captured_payments payments) 1 ≡ some second_payment)
    × (can_auto_resolve first_candidate none ≡ true)
    × ((bank_match ascii first_settlement credits).verified ≡ true)
    × (is_empty
          (settlement_facts first_settlement (own_lines lines first_settlement)).contradictions
        ≡ true)
unfolding text_eq filter any all take drop ◌+ℤ◌ ◌-ℤ◌ neg sort lookup index get append_to group
    is_captured line_type_value line_type_eq is_ambiguous can_auto_resolve normalize_reference
    digits_of without_digits same_reference utc date_distance before has_reference_evidence
    has_numeric_reference_evidence distinct resources_of is_reserved batch_collision_ids mark
    mark_batch_collision contradiction_eq text_lt resource_eq labelled resource_lt payment_captured
    verified_chain payment_candidate refund_candidate_of refund_candidate stage_a_pool contains_id
    selectable_of contains_candidate exact_candidates_of mark_exact_duplicates selected_status
    no_candidate_outcome below_minimum_outcome settled_outcome below_minimum outcome_of_sorted
    outcome_from_stage_a_candidates add_kind add_line tally_lines expected_of
    reported_contradictions settlement_facts by_distance exact_contradictions exact_match
    fallback_match is_eligible match_sorted bank_match lines_by_settlement lines_of related_lines
    is_release_of release_lines release_settlements has with_facts is_line_of currency_matches
    payment_lines refund_lines payment_lines_agree duplicate_line_references refund_contradictions
    releases_of release_ok hold_settlements bank_contradictions bank_is_verified after_currency
    after_payment after_lines after_refunds after_facts after_holds all_contradictions
    exact_bank_count math_verified stage_b_score stage_b_candidate stage_b_selected_ids
    add_resources stage_b_resource_ids facts_by_id stage_b_status missing_settlement_outcome
    stage_b_outcome step_of select_entry collision_ids selectable_entries refunds_of
    base_settlements entry_of entries_of payment_step run_payments captured_payments
    reconcile_stage_b
outcomes_test = (refl, refl, refl, refl, refl, refl, refl, refl, refl, refl, refl)

reconcile_stage_b-Settled_example :
    Settled ascii payments refunds settlements lines credits second_payment
reconcile_stage_b-Settled_example =
    reconcile_stage_b-Settled ascii payments refunds settlements lines credits 1
      (((refl, tt), (tt, tt))) outcomes_test.0 outcomes_test.7 outcomes_test.2 outcomes_test.4

reconcile_stage_b-distinct_payments_example : ¬ (
    normalize_reference ascii first_payment.provider_payment_id
    ≡ normalize_reference ascii second_payment.provider_payment_id)
reconcile_stage_b-distinct_payments_example =
    reconcile_stage_b-distinct_payments ascii payments refunds settlements lines credits 0 1
      (omega arith) outcomes_test.0 outcomes_test.6 outcomes_test.7 outcomes_test.1 outcomes_test.2
      outcomes_test.3 outcomes_test.4

reconcile_stage_b-total_example :
    (os : List EngineOutcome) × (reconcile_stage_b ascii payments refunds settlements lines credits
      ≡ some os)
    × (length os ≡ length (captured_payments payments))
reconcile_stage_b-total_example =
    reconcile_stage_b-total ascii payments refunds settlements lines credits

stage_b_candidate-Backed_example :
    Backed ascii first_payment first_settlement first_related (lines_by_settlement lines) [] credits
stage_b_candidate-Backed_example =
    stage_b_candidate-Backed ascii first_payment first_settlement first_related
      (lines_by_settlement lines) [] credits none outcomes_test.8

bank_match-Credited_example :
    (c : BankCredit) × ((bank_match ascii first_settlement credits).selected ≡ some c)
    × ((bank_match ascii first_settlement credits).exact_utr ≡ true)
    × Credited ascii first_settlement credits c
bank_match-Credited_example = bank_match-Credited ascii first_settlement credits outcomes_test.9

settlement_facts-Balances_example : Balances first_settlement (own_lines lines first_settlement)
settlement_facts-Balances_example =
    settlement_facts-Balances first_settlement (own_lines lines first_settlement) outcomes_test.10

reconcile_stage_b-matched_example : (nth outcomes 1).status ≡ ResultStatus.matched
reconcile_stage_b-matched_example =
    reconcile_stage_b-matched ascii payments refunds settlements lines credits 1
      (((refl, tt), (tt, tt))) outcomes_test.0 outcomes_test.2 outcomes_test.4
