-- ===== src/Engine/StageA/Score.antt =====
-- `_stage_a_score` of engine.py: each criterion is a function of its own; `stage_a_score` adds them
-- up.
pub mod Bounds
pub mod Facts
use mathlib.Core.Option.{Option, none, some}
use roborecon.Prelude.{
  ℕ, ◌+◌, ◌*◌, ◌/◌, min, max, Text, text_eq, Bool, true, false, not, ◌&&◌, ◌||◌, List, [], ◌∷◌,
  ◌++◌, map, leb, is_empty, if◌then◌else◌,
}
use roborecon.Prelude.Int.{ℤ, pos, ◌-ℤ◌, abs, leb_ℤ, ltb_ℤ, ◌==ℤ◌}
use roborecon.Records.{LedgerEntry}
use roborecon.Engine.Model.{
  RuleCode, Observed, EvidenceResult, pass, weak, fail, CandidateKind, payment, refund,
  CriterionEvidence, Contradiction, ScoredCandidate, currencies, reference_values, amounts,
  distance, lifecycle_of, chain_verified, evidence_of, currency_contradiction, amount_contradiction,
  date_contradiction, lifecycle_contradiction,
}
use roborecon.Engine.Reference.{CharTables, normalize_reference, digits_of, without_digits}
use roborecon.Engine.Similarity.{Fraction, at_least, less, ratio}
use roborecon.Engine.Time.{day, date_distance}
use roborecon.Engine.StageA.Pool.{StageACandidate, is_some}
use roborecon.Engine.StageA.Eligible.{
  stage_a_date_window, stage_a_minimum_score, amount_window, refund_amount_matches,
  amount_compatible_of, amount_compatible, matching_identifier, reference_similarity,
  numeric_reference_key, eligible_stage_a,
}

-- What one rule adds: its points, its observation and its contradiction, if it found one.
pub record Criterion : Type 0 where
  pub points : ℕ
  pub evidence : CriterionEvidence
  pub contradiction : List Contradiction

module _ (tables : CharTables) where
  unfoldable pub currency_criterion : LedgerEntry → StageACandidate → Criterion
  currency_criterion entry candidate =
      let observed = currencies entry.currency candidate.currency in
      if text_eq candidate.currency entry.currency
      then record {
        points = 0;
        evidence = evidence_of RuleCode.currency observed 0 pass;
        contradiction = [];
      }
      else record {
        points = 0;
        evidence = evidence_of RuleCode.currency observed 0 fail;
        contradiction = currency_contradiction ∷ [];
      }

  reference_criterion_of :
      LedgerEntry → StageACandidate → Option (Text × Text) → Bool → ℕ → EvidenceResult → Criterion
  reference_criterion_of entry candidate matched numeric_only points result = record {
    points = points;
    evidence =
        evidence_of RuleCode.reference
          (reference_values (record {
            ledger_reference = entry.reference;
            provider_reference = candidate.original_reference;
            normalized_ledger_reference = normalize_reference tables entry.reference;
            normalized_provider_reference = normalize_reference tables candidate.original_reference;
            numeric_only = numeric_only;
            matched = matched;
          }))
          points result;
    contradiction = [];
  }

  similar_criterion : LedgerEntry → StageACandidate → Fraction → Bool → Criterion
  unfolding reference_criterion_of
  similar_criterion entry candidate similarity numeric_reference =
      let criterion = reference_criterion_of entry candidate none in
      if at_least 9 10 similarity
      then criterion false 30 pass
      else if at_least 3 4 similarity
      then criterion false 20 weak
      else if numeric_reference
      then criterion true 20 weak
      else criterion false 0 fail

  unfoldable pub reference_criterion : LedgerEntry → StageACandidate → Option Text → Criterion
  unfolding similar_criterion
  reference_criterion entry candidate none =
      similar_criterion entry candidate (reference_similarity tables entry candidate)
        (not (is_empty (numeric_reference_key tables entry candidate)))
  reference_criterion entry candidate (some identifier) =
      reference_criterion_of entry candidate
        (some (identifier, normalize_reference tables identifier)) false 45 pass

  unfoldable pub amount_matches : CandidateKind → LedgerEntry → StageACandidate → Bool
  unfolding refund_amount_matches
  amount_matches payment entry candidate = candidate.amount ==ℤ entry.amount
  amount_matches refund entry candidate =
      refund_amount_matches entry.amount candidate.amount candidate.parent_amount

  unfoldable pub amount_criterion : LedgerEntry → StageACandidate → Criterion
  amount_criterion entry candidate =
      let observed = amounts entry.amount candidate.amount in
      if amount_matches candidate.kind entry candidate
      then record {
        points = 35;
        evidence = evidence_of RuleCode.amount observed 35 pass;
        contradiction = [];
      }
      else record {
        points = 0;
        evidence = evidence_of RuleCode.amount observed 0 fail;
        contradiction = amount_contradiction ∷ [];
      }

  unfoldable pub date_criterion : LedgerEntry → StageACandidate → Criterion
  date_criterion entry candidate =
      let date_distance = date_distance entry.business_at candidate.business_at in
      let observed = distance date_distance in
      if leb date_distance day
      then record {
        points = 10;
        evidence = evidence_of RuleCode.date observed 10 pass;
        contradiction = [];
      }
      else if leb date_distance stage_a_date_window
      then record {
        points = 5;
        evidence = evidence_of RuleCode.date observed 5 weak;
        contradiction = [];
      }
      else record {
        points = 0;
        evidence = evidence_of RuleCode.date observed 0 fail;
        contradiction = date_contradiction ∷ [];
      }

  unfoldable pub lifecycle_criterion : LedgerEntry → StageACandidate → Criterion
  lifecycle_criterion entry candidate =
      let observed = lifecycle_of candidate.captured candidate.kind in
      if candidate.captured
      then record {
        points = 10;
        evidence = evidence_of RuleCode.lifecycle observed 10 pass;
        contradiction = [];
      }
      else record {
        points = 0;
        evidence = evidence_of RuleCode.lifecycle observed 0 fail;
        contradiction = lifecycle_contradiction ∷ [];
      }

  unfoldable pub chain_criterion : LedgerEntry → StageACandidate → Criterion
  chain_criterion entry candidate =
      let chain = candidate.order_payment_chain in
      let chain_points : ℕ = if chain then 20 else 0 in
      record {
        points = chain_points;
        evidence =
            evidence_of RuleCode.order_payment_chain (chain_verified chain) chain_points
              (if chain then pass else fail);
        contradiction = [];
      }

  unfoldable pub stage_a_score : LedgerEntry → StageACandidate → ScoredCandidate
  stage_a_score entry candidate =
      let matched_identifier = matching_identifier tables entry candidate in
      let by_currency = currency_criterion entry candidate in
      let by_reference = reference_criterion entry candidate matched_identifier in
      let by_amount = amount_criterion entry candidate in
      let by_date = date_criterion entry candidate in
      let by_lifecycle = lifecycle_criterion entry candidate in
      let by_chain = chain_criterion entry candidate in
      record {
        candidate_id = candidate.record_id;
        score =
            min
              (by_reference.points + by_amount.points + by_date.points + by_lifecycle.points
                + by_chain.points)
              100;
        evidence =
            by_currency.evidence ∷ by_reference.evidence ∷ by_amount.evidence ∷ by_date.evidence
            ∷ by_lifecycle.evidence ∷ by_chain.evidence ∷ [];
        contradictions =
            by_currency.contradiction ++ by_amount.contradiction ++ by_date.contradiction
            ++ by_lifecycle.contradiction;
        duplicate = false;
        exact_identifier_chain = is_some matched_identifier;
        verified_settlement_math = false;
      }
