-- ===== src/Engine/StageA/Outcome.antt =====
-- `_outcome_from_stage_a_candidates` of engine.py.
pub mod Selection
use native.Mathlib.Decide.{ℕ_discrete}
use mathlib.Core.Bool.{decide}
use roborecon.Prelude.{
  ℕ, ◌<◌, Bool, true, false, not, ◌&&◌, ◌||◌, Option, none, some, List, [], ◌∷◌, ◌++◌, map, ltb,
  ◌==◌, is_empty, length, filter, any, if◌then◌else◌,
}
use roborecon.Prelude.Int.{ℤ, pos, sub_ℕ, ltb_ℤ}
use roborecon.Prelude.Order.{sort}
use roborecon.Enums.{ReconciliationStage, ResultStatus, is_ambiguous}
use roborecon.Records.{LedgerEntry}
use roborecon.Engine.Model.{
  RuleCode, fail, ScoredCandidate, EngineOutcome, ledger_record, minimum_score, evidence_of,
}
use roborecon.Engine.Policy.{score_of, can_auto_resolve}
use roborecon.Engine.Reference.{CharTables}
use roborecon.Engine.Candidates.{before, has_reference_evidence, has_numeric_reference_evidence}
use roborecon.Engine.StageA.Eligible.{stage_a_minimum_score}

-- `x or y` of lists
abbrev pub or_else {ℓ} : {A : Type ℓ} → List A → List A → List A
or_else [] ys = ys
or_else (x ∷ xs) ys = x ∷ xs

unfoldable pub contains_id : List ℕ → ℕ → Bool
unfolding any
contains_id ids n = any (λ m. n == m) ids

unfoldable pub selectable_of : List ℕ → List ScoredCandidate → List ScoredCandidate
unfolding filter contains_id
selectable_of reserved_candidate_ids candidates =
    or_else
      (filter (λ c. not (contains_id reserved_candidate_ids (ScoredCandidate.candidate_id c)))
        candidates)
      candidates

-- equality of frozen dataclasses, field by field
ScoredCandidate-discrete : Discrete ScoredCandidate
ScoredCandidate-discrete = hlevel ℕ_discrete

unfoldable pub contains_candidate : List ScoredCandidate → ScoredCandidate → Bool
unfolding any ScoredCandidate-discrete
contains_candidate candidates c = any (λ d. decide (ScoredCandidate-discrete c d)) candidates

unfoldable pub exact_candidates_of : List ScoredCandidate → List ScoredCandidate
unfolding filter
exact_candidates_of = filter (λ c. ScoredCandidate.exact_identifier_chain c)

mark_duplicate : List ScoredCandidate → ScoredCandidate → ScoredCandidate
mark_duplicate exact_candidates c =
    if contains_candidate exact_candidates c then record c { duplicate = true } else c

-- Two or more exact candidates are marked as duplicates of one another.
unfoldable pub mark_exact_duplicates :
    List ScoredCandidate → List ScoredCandidate → List ScoredCandidate
unfolding mark_duplicate
mark_exact_duplicates exact_candidates candidates =
    if ltb 1 (length exact_candidates)
    then map (mark_duplicate exact_candidates) candidates
    else candidates

abbrev pub head_of : List ScoredCandidate → Option ScoredCandidate
head_of [] = none
head_of (c ∷ cs) = some c

unfoldable pub duplicates_of : List ScoredCandidate → List ScoredCandidate
unfolding filter
duplicates_of = filter (λ c. ScoredCandidate.duplicate c)

unfoldable pub selected_status : Bool → ScoredCandidate → Option ScoredCandidate → ResultStatus
selected_status duplicate selected runner_up =
    if duplicate
    then ResultStatus.duplicate
    else if not (is_empty selected.contradictions)
    then ResultStatus.amount_mismatch
    else if not (has_reference_evidence selected)
    then ResultStatus.ambiguous
    else elim runner_up [
      | none ↦ ResultStatus.matched
      | some r ↦
          if ltb_ℤ (sub_ℕ selected.score r.score) (pos 15)
          then ResultStatus.ambiguous
          else ResultStatus.matched
    ]

abbrev stage_a : Option ReconciliationStage
stage_a = some ReconciliationStage.ledger_to_razorpay

-- the `if not candidates` outcome
unfoldable pub no_candidate_outcome : LedgerEntry → EngineOutcome
no_candidate_outcome entry = record {
  status = ResultStatus.missing_razorpay;
  selected_ids = [];
  score = 0;
  runner_up_score = 0;
  margin = pos 0;
  evidence =
      evidence_of RuleCode.missing_razorpay (ledger_record entry.id entry.reference) 0 fail ∷ [];
  candidates = [];
  autonomous = false;
  stage = stage_a;
}

-- the outcome below the minimum evidence bar
unfoldable pub below_minimum_outcome :
    List ScoredCandidate → ScoredCandidate → Option ScoredCandidate → EngineOutcome
below_minimum_outcome candidates selected runner_up = record {
  status = ResultStatus.missing_razorpay;
  selected_ids = [];
  score = selected.score;
  runner_up_score = score_of runner_up;
  margin = sub_ℕ selected.score (score_of runner_up);
  evidence =
      selected.evidence
      ++ evidence_of RuleCode.minimum_evidence (minimum_score stage_a_minimum_score) 0 fail ∷ [];
  candidates = candidates;
  autonomous = false;
  stage = stage_a;
}

-- the last return, from the statuses on
unfoldable pub settled_outcome :
    List ScoredCandidate → Bool → List ℕ → ScoredCandidate → Option ScoredCandidate → EngineOutcome
unfolding selected_status
settled_outcome candidates duplicate duplicate_ids selected runner_up =
    let status = selected_status duplicate selected runner_up in
    record {
      status = status;
      selected_ids = if duplicate then duplicate_ids else selected.candidate_id ∷ [];
      score = selected.score;
      runner_up_score = score_of runner_up;
      margin = sub_ℕ selected.score (score_of runner_up);
      evidence = selected.evidence;
      candidates = candidates;
      autonomous = not (is_ambiguous status) && can_auto_resolve selected runner_up;
      stage = stage_a;
    }

module _ (tables : CharTables) where
  unfoldable pub below_minimum : ScoredCandidate → Bool
  below_minimum selected =
      not selected.exact_identifier_chain
      && not (has_reference_evidence selected)
      && not (has_numeric_reference_evidence tables selected)
      && ltb selected.score stage_a_minimum_score

  -- The selectable candidates are sorted; there are none exactly if there are no candidates.
  unfoldable pub outcome_of_sorted :
      LedgerEntry → List ScoredCandidate → ℕ → List ScoredCandidate → EngineOutcome
  unfolding no_candidate_outcome below_minimum_outcome settled_outcome below_minimum duplicates_of
  outcome_of_sorted entry candidates exact_count [] = no_candidate_outcome entry
  outcome_of_sorted entry candidates exact_count (selected ∷ rest) =
      let duplicate_candidates = duplicates_of (selected ∷ rest) in
      if below_minimum selected
      then below_minimum_outcome candidates selected (head_of rest)
      else settled_outcome candidates (not (is_empty duplicate_candidates) || ltb 1 exact_count)
          (map (λ c. ScoredCandidate.candidate_id c) duplicate_candidates) selected (head_of rest)

  unfoldable pub outcome_from_stage_a_candidates :
      LedgerEntry → List ScoredCandidate → List ℕ → EngineOutcome
  unfolding sort
  outcome_from_stage_a_candidates entry candidates reserved_candidate_ids =
      let exact_candidates =
        exact_candidates_of (selectable_of reserved_candidate_ids candidates) in
      let marked = mark_exact_duplicates exact_candidates candidates in
      outcome_of_sorted entry (sort before marked) (length exact_candidates)
        (sort before (selectable_of reserved_candidate_ids marked))
