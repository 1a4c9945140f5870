-- ===== src/Examples/Ledger.antt =====
-- Stage A on the small batch.
use roborecon.Prelude.{◌≡◌, refl, true, some, inl, [], ◌∷◌, arith, Member, get_elem?, is_empty, min}
use roborecon.Enums.{ResultStatus}
use roborecon.Engine.Model.{EngineOutcome}
use roborecon.Engine.StageA.Run.Safety.{SafeMatch, reconcile_stage_a-SafeMatch}
use roborecon.Engine.StageA.Run.Accounted.{Accounted, reconcile_stage_a-Accounted}
use roborecon.Engine.StageA.Run.Reuse.{reconcile_stage_a-Apart}
use roborecon.Engine.StageA.Run.Leftover.{reconcile_stage_a-not_missing}
use roborecon.Engine.StageA.Score.Facts.{Agrees, stage_a_score-Agrees}
use roborecon.Engine.StageA.Score.Bounds.{total_points, stage_a_score-eq-points}
use roborecon.Examples.{
  ledger_entry, order, payment, ascii, ledger, first_entry, second_entry, orders, payments,
  first_payment, refunds, left_refund,
}
use roborecon.Prelude.{text_eq, codes}
use roborecon.Prelude.{filter, any, all, take, drop}
use roborecon.Prelude.Int.{pos, ◌+ℤ◌, ◌-ℤ◌, neg}
use roborecon.Prelude.Order.{sort}
use roborecon.Prelude.Dict.{lookup, index, get, append_to, group}
use roborecon.Enums.{is_captured, line_type_value, line_type_eq, is_ambiguous}
use roborecon.Engine.Policy.{can_auto_resolve}
use roborecon.Engine.Reference.{normalize_reference, digits_of, without_digits, same_reference}
use roborecon.Engine.Similarity.{at_least, less, ratio}
use roborecon.Engine.Time.{utc, date_distance}
use roborecon.Engine.Candidates.{
  before, has_reference_evidence, has_numeric_reference_evidence, distinct, resources_of,
  is_reserved, batch_collision_ids, mark, mark_batch_collision,
}
use roborecon.Engine.Candidates.Resources.{
  contradiction_eq, text_lt, resource_eq, labelled, resource_lt,
}
use roborecon.Engine.StageA.Pool.{
  StageACandidate, payment_captured, verified_chain, payment_candidate, refund_candidate_of,
  refund_candidate, stage_a_pool,
}
use roborecon.Engine.StageA.Eligible.{
  amount_window, refund_amount_matches, amount_compatible_of, amount_compatible,
  matching_identifier, reference_similarity, numeric_reference_key, eligible_stage_a,
}
use roborecon.Engine.StageA.Score.{
  currency_criterion, reference_criterion, amount_matches, amount_criterion, date_criterion,
  lifecycle_criterion, chain_criterion, stage_a_score,
}
use roborecon.Engine.StageA.Outcome.{
  contains_id, selectable_of, contains_candidate, exact_candidates_of, mark_exact_duplicates,
  selected_status, no_candidate_outcome, below_minimum_outcome, settled_outcome, below_minimum,
  outcome_of_sorted, outcome_from_stage_a_candidates,
}
use roborecon.Engine.StageA.Run.{
  expected_kind, kind_eq, keep_in_mind, consider, consumed, eligible_of, has_duplicate_key,
  pair_with_score, scored_pairs, collision_candidate_ids, mark_pair, entry_pairs, entry_outcome,
  run_entries, missing_ledger_outcome, missing_ledger_outcomes, reconcile_stage_a,
}

abbrev first_outcome : EngineOutcome
first_outcome = entry_outcome ascii first_entry (stage_a_pool orders payments refunds) []

abbrev second_outcome : EngineOutcome
second_outcome =
    entry_outcome ascii second_entry (stage_a_pool orders payments refunds) (consumed first_outcome)

abbrev leftover : StageACandidate
leftover = refund_candidate [] [] left_refund

abbrev third_outcome : EngineOutcome
third_outcome = missing_ledger_outcome leftover

abbrev first_candidate : StageACandidate
first_candidate = payment_candidate [] first_payment

-- A similar invoice number with the payment of its order, and two other payments that share the
-- number of the entry's invoice.
abbrev doubled_outcome : EngineOutcome
doubled_outcome =
    entry_outcome ascii (ledger_entry 1 (codes "INVOICE-100") (pos 500))
      (stage_a_pool (order 21 (codes "ORD-A") (codes "INVOICE-101") (pos 500) ∷ [])
        (payment 11 (codes "PAY-A") (codes "ORD-A") (codes "INVOICE-101") (pos 500)
          ∷ payment 12 (codes "PAY-B") (codes "ORD-B") (codes "XQZ-100") (pos 500)
          ∷ payment 13 (codes "PAY-C") (codes "ORD-C") (codes "WKJ-100") (pos 500)
          ∷ [])
        [])
      []

-- The last three: the candidate that resolves, 11, is not among the selected ones.
outcomes_test :
    (first_outcome.autonomous ≡ true)
    × (first_outcome.status ≡ ResultStatus.matched)
    × (first_outcome.selected_ids ≡ 11 ∷ [])
    × (second_outcome.autonomous ≡ true)
    × (second_outcome.selected_ids ≡ 12 ∷ [])
    × (get_elem? (reconcile_stage_a ascii ledger orders payments refunds) 2 ≡ some third_outcome)
    × (is_empty (stage_a_score ascii first_entry first_candidate).contradictions ≡ true)
    × (doubled_outcome.autonomous ≡ true)
    × (doubled_outcome.status ≡ ResultStatus.duplicate)
    × (doubled_outcome.selected_ids ≡ 12 ∷ 13 ∷ [])
unfolding text_eq filter any all take drop ◌+ℤ◌ ◌-ℤ◌ neg sort lookup index get append_to group
    is_captured line_type_value line_type_eq is_ambiguous can_auto_resolve normalize_reference
    digits_of without_digits same_reference at_least less ratio utc date_distance before
    has_reference_evidence has_numeric_reference_evidence distinct resources_of is_reserved
    batch_collision_ids mark mark_batch_collision contradiction_eq text_lt resource_eq labelled
    resource_lt payment_captured verified_chain payment_candidate refund_candidate_of
    refund_candidate stage_a_pool amount_window refund_amount_matches amount_compatible_of
    amount_compatible matching_identifier reference_similarity numeric_reference_key
    eligible_stage_a currency_criterion reference_criterion amount_matches amount_criterion
    date_criterion lifecycle_criterion chain_criterion stage_a_score contains_id selectable_of
    contains_candidate exact_candidates_of mark_exact_duplicates selected_status
    no_candidate_outcome below_minimum_outcome settled_outcome below_minimum outcome_of_sorted
    outcome_from_stage_a_candidates expected_kind kind_eq keep_in_mind consider consumed eligible_of
    has_duplicate_key pair_with_score scored_pairs collision_candidate_ids mark_pair entry_pairs
    entry_outcome run_entries missing_ledger_outcome missing_ledger_outcomes reconcile_stage_a
outcomes_test = (refl, refl, refl, refl, refl, refl, refl, refl, refl, refl)

reconcile_stage_a-SafeMatch_example :
    SafeMatch ascii (stage_a_pool orders payments refunds) second_entry second_outcome
unfolding reconcile_stage_a
reconcile_stage_a-SafeMatch_example =
    reconcile_stage_a-SafeMatch ascii ledger orders payments refunds 1 refl refl outcomes_test.3

reconcile_stage_a-Apart_example : ¬ Member 11 second_outcome.selected_ids
unfolding reconcile_stage_a
reconcile_stage_a-Apart_example =
    reconcile_stage_a-Apart ascii ledger orders payments refunds 0 1 11 (omega arith) refl refl
      outcomes_test.0 outcomes_test.3 (rw outcomes_test.2 (inl refl))

reconcile_stage_a-not_missing_example : ¬ Member 11 third_outcome.selected_ids
unfolding reconcile_stage_a
reconcile_stage_a-not_missing_example =
    reconcile_stage_a-not_missing ascii ledger orders payments refunds 0 2 refl (omega arith) refl
      outcomes_test.5 outcomes_test.0 outcomes_test.1 11 (rw outcomes_test.2 (inl refl))

reconcile_stage_a-Accounted_example :
    Accounted ascii
      (stage_a_pool orders payments refunds)
      ledger
      (reconcile_stage_a ascii ledger orders payments refunds)
reconcile_stage_a-Accounted_example =
    reconcile_stage_a-Accounted ascii ledger orders payments refunds

stage_a_score-Agrees_example : Agrees first_entry first_candidate
stage_a_score-Agrees_example =
    stage_a_score-Agrees ascii first_entry first_candidate outcomes_test.6

stage_a_score-eq-points_example :
    (stage_a_score ascii first_entry first_candidate).score
    ≡ min (total_points (stage_a_score ascii first_entry first_candidate).evidence) 100
stage_a_score-eq-points_example = stage_a_score-eq-points ascii first_entry first_candidate
