-- ===== src/Engine/StageA/Run.antt =====
-- `reconcile_stage_a` of engine.py: the loop over the ledger, and the provider records left over.
pub mod Scored
pub mod Guard
pub mod Safety
pub mod Reuse
pub mod Leftover
pub mod Accounted
use roborecon.Prelude.{
  ℕ, Text, text_eq, Bool, true, false, not, ◌&&◌, ◌||◌, Option, none, some, List, [], ◌∷◌, ◌++◌,
  map, ltb, leb, ◌==◌, is_empty, length, filter, any, if◌then◌else◌,
}
use roborecon.Prelude.Int.{pos}
use roborecon.Enums.{LedgerEntryType, ReconciliationStage, ResultStatus}
use roborecon.Records.{LedgerEntry, RazorpayOrder, RazorpayPayment, RazorpayRefund}
use roborecon.Engine.Model.{
  RuleCode, fail, CandidateKind, ScoredCandidate, EngineOutcome, Resource, provider_record,
  evidence_of,
}
use roborecon.Engine.Reference.{CharTables}
use roborecon.Engine.Candidates.{has_reference_evidence, batch_collision_ids, mark_batch_collision}
use roborecon.Engine.StageA.Pool.{StageACandidate, stage_a_pool}
use roborecon.Engine.StageA.Eligible.{
  stage_a_minimum_score, numeric_reference_key, eligible_stage_a,
}
use roborecon.Engine.StageA.Score.{stage_a_score}
use roborecon.Engine.StageA.Outcome.{contains_id, outcome_from_stage_a_candidates}

unfoldable pub expected_kind : LedgerEntryType → CandidateKind
expected_kind LedgerEntryType.refund = CandidateKind.refund
expected_kind LedgerEntryType.payment = CandidateKind.payment

unfoldable pub kind_eq : CandidateKind → CandidateKind → Bool
kind_eq CandidateKind.payment CandidateKind.payment = true
kind_eq CandidateKind.refund CandidateKind.refund = true
kind_eq _ _ = false

-- A candidate of the pool with its score.
abbrev pub Pairing : Type 0
Pairing = StageACandidate × ScoredCandidate

abbrev pub scores : List Pairing → List ScoredCandidate
scores = map (λ p. p.1)

abbrev pub scored_id : Pairing → ℕ
scored_id p = (p.1).candidate_id

unfoldable pub keep_in_mind : ScoredCandidate → Bool
keep_in_mind c =
    c.exact_identifier_chain || has_reference_evidence c || leb stage_a_minimum_score c.score

abbrev pub parent_ids : Option ℕ → List ℕ
parent_ids none = []
parent_ids (some n) = n ∷ []

-- the loop that fills `considered_ids`
unfoldable pub consider : List Pairing → List ℕ → List ℕ
unfolding keep_in_mind
consider [] considered_ids = considered_ids
consider ((source, scored) ∷ ps) considered_ids = consider ps (
    if keep_in_mind scored
    then scored.candidate_id ∷ parent_ids source.parent_record_id ++ considered_ids
    else considered_ids)

-- The ids that an outcome consumes, if it is autonomous.
unfoldable pub consumed : EngineOutcome → List Resource
consumed outcome =
    if outcome.autonomous then map (λ n. Resource.record_id n) outcome.selected_ids else []

module _ (tables : CharTables) where
  abbrev pub is_candidate_of : LedgerEntry → StageACandidate → Bool
  is_candidate_of entry c =
      kind_eq c.kind (expected_kind entry.entry_type) && eligible_stage_a tables entry c

  unfoldable pub eligible_of : LedgerEntry → List StageACandidate → List StageACandidate
  unfolding filter kind_eq expected_kind
  eligible_of entry pool = filter (is_candidate_of entry) pool

  -- `reference_counts[key] > 1` for a key that is not empty
  unfoldable pub has_duplicate_key : LedgerEntry → List StageACandidate → Text → Bool
  unfolding filter
  has_duplicate_key entry eligible key =
      not (is_empty key)
      && ltb 1 (length (filter (λ c. text_eq (numeric_reference_key tables entry c) key) eligible))

  unfoldable pub pair_with_score : LedgerEntry → List StageACandidate → StageACandidate → Pairing
  unfolding has_duplicate_key
  pair_with_score entry eligible c =
      let scored = stage_a_score tables entry c in
      (
        c,
        if has_duplicate_key entry eligible (numeric_reference_key tables entry c)
            then record scored { duplicate = true }
            else scored,
      )

  unfoldable pub scored_pairs : LedgerEntry → List StageACandidate → List Pairing
  unfolding eligible_of pair_with_score
  scored_pairs entry pool =
      let eligible = eligible_of entry pool in map (pair_with_score entry eligible) eligible

  unfoldable pub collision_candidate_ids : List Resource → List Pairing → List ℕ
  unfolding filter
  collision_candidate_ids reserved_ids pairs =
      map scored_id (filter (λ p. not (is_empty (batch_collision_ids p.1 reserved_ids []))) pairs)

  unfoldable pub mark_pair : List Resource → Pairing → Pairing
  mark_pair reserved_ids p = (p.0, mark_batch_collision p.1 reserved_ids [])

  -- the candidates of an entry, all marks set
  unfoldable pub entry_pairs : LedgerEntry → List StageACandidate → List Resource → List Pairing
  unfolding scored_pairs mark_pair
  entry_pairs entry pool reserved_ids = map (mark_pair reserved_ids) (scored_pairs entry pool)

  unfoldable pub entry_outcome : LedgerEntry → List StageACandidate → List Resource → EngineOutcome
  unfolding entry_pairs collision_candidate_ids
  entry_outcome entry pool reserved_ids =
      outcome_from_stage_a_candidates tables entry (scores (entry_pairs entry pool reserved_ids))
        (collision_candidate_ids reserved_ids (scored_pairs entry pool))

  -- The outcomes of the entries, and `considered_ids` at the end.
  unfoldable pub run_entries :
      List StageACandidate → List LedgerEntry → List ℕ → List Resource → List EngineOutcome × List ℕ
  unfolding entry_outcome entry_pairs consider consumed
  run_entries pool [] considered_ids reserved_ids = ([], considered_ids)
  run_entries pool (entry ∷ ledger) considered_ids reserved_ids =
      let outcome = entry_outcome entry pool reserved_ids in
      let (outcomes, considered) =
        run_entries pool ledger (consider (entry_pairs entry pool reserved_ids) considered_ids)
          (reserved_ids ++ consumed outcome) in
      (outcome ∷ outcomes, considered)

unfoldable pub missing_ledger_outcome : StageACandidate → EngineOutcome
missing_ledger_outcome candidate = record {
  status = ResultStatus.missing_ledger;
  selected_ids = candidate.record_id ∷ [];
  score = 0;
  runner_up_score = 0;
  margin = pos 0;
  evidence =
      evidence_of RuleCode.missing_ledger
        (provider_record candidate.record_id candidate.original_reference) 0 fail
      ∷ [];
  candidates =
      record {
        candidate_id = candidate.record_id;
        score = 0;
        evidence = [];
        contradictions = [];
        duplicate = false;
        exact_identifier_chain = false;
        verified_settlement_math = false;
      }
      ∷ [];
  autonomous = false;
  stage = some ReconciliationStage.ledger_to_razorpay;
}

unfoldable pub missing_ledger_outcomes : List StageACandidate → List ℕ → List EngineOutcome
unfolding missing_ledger_outcome filter contains_id
missing_ledger_outcomes pool considered_ids =
    map missing_ledger_outcome
      (filter (λ c. not (contains_id considered_ids (StageACandidate.record_id c))) pool)

unfoldable pub reconcile_stage_a :
    CharTables
    → List LedgerEntry
    → List RazorpayOrder
    → List RazorpayPayment
    → List RazorpayRefund
    → List EngineOutcome
unfolding run_entries missing_ledger_outcomes stage_a_pool
reconcile_stage_a tables ledger orders payments refunds =
    let pool = stage_a_pool orders payments refunds in
    let (outcomes, considered_ids) = run_entries tables pool ledger [] [] in
    outcomes ++ missing_ledger_outcomes pool considered_ids
