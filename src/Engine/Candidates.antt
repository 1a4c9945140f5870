-- ===== src/Engine/Candidates.antt =====
-- What both stages of engine.py do with scored candidates: the order by score, the reference
-- evidence, and the collisions with records that the batch has consumed.
pub mod Resources
pub mod Marks
use roborecon.Prelude.{
  ℕ, suc, ◌<◌, Text, text_eq, Bool, true, false, not, ◌&&◌, ◌||◌, Option, none, some, List, [], ◌∷◌,
  ◌++◌, ltb, ◌==◌, is_empty, filter, any, if◌then◌else◌,
}
use roborecon.Prelude.Order.{sort}
use roborecon.Engine.Model.{
  RuleCode, Observed, EvidenceResult, fail, CriterionEvidence, Contradiction, ScoredCandidate,
  Resource, reference_values, consumed_ids, evidence_of,
}
use roborecon.Engine.Reference.{CharTables, digits_of}
use Resources.{resource_eq, resource_lt, contradiction_eq}

-- the sort key `(-score, candidate_id)`
unfoldable pub before : ScoredCandidate → ScoredCandidate → Bool
before a b = ltb b.score a.score || ((a.score == b.score) && ltb a.candidate_id b.candidate_id)

is_reference : RuleCode → Bool
is_reference RuleCode.reference = true
is_reference _ = false

-- `observed_values.get("numeric_only", False)`
numeric_only_of : Observed → Bool
numeric_only_of (reference_values values) = values.numeric_only
numeric_only_of _ = false

reference_evidence : CriterionEvidence → Bool
unfolding is_reference numeric_only_of
reference_evidence e =
    is_reference e.rule_code && ltb 0 e.points && not (numeric_only_of e.observed_values)

unfoldable pub has_reference_evidence : ScoredCandidate → Bool
unfolding any reference_evidence
has_reference_evidence candidate = any reference_evidence candidate.evidence

module _ (tables : CharTables) where
  equal_digits : Observed → Bool
  equal_digits (reference_values values) =
      let ledger_digits = digits_of tables values.normalized_ledger_reference in
      not (is_empty ledger_digits)
      && text_eq ledger_digits (digits_of tables values.normalized_provider_reference)
  equal_digits _ = false

  numeric_evidence : CriterionEvidence → Bool
  unfolding is_reference numeric_only_of equal_digits
  numeric_evidence e =
      is_reference e.rule_code
      && (numeric_only_of e.observed_values || equal_digits e.observed_values)

  unfoldable pub has_numeric_reference_evidence : ScoredCandidate → Bool
  unfolding any numeric_evidence
  has_numeric_reference_evidence candidate = any numeric_evidence candidate.evidence

-- `dict.fromkeys`: the first of each
unfoldable pub distinct : List Contradiction → List Contradiction
unfolding filter
distinct [] = []
distinct (c ∷ cs) = c ∷ filter (λ d. not (contradiction_eq c d)) (distinct cs)

-- `resource_ids or (candidate.candidate_id,)`
unfoldable pub resources_of : ScoredCandidate → List Resource → List Resource
resources_of candidate [] = Resource.record_id candidate.candidate_id ∷ []
resources_of candidate (r ∷ rs) = r ∷ rs

unfoldable pub is_reserved : List Resource → Resource → Bool
unfolding any
is_reserved reserved_ids r = any (resource_eq r) reserved_ids

unfoldable pub batch_collision_ids : ScoredCandidate → List Resource → List Resource → List Resource
unfolding filter is_reserved resources_of sort
batch_collision_ids candidate reserved_ids resource_ids =
    sort resource_lt (filter (is_reserved reserved_ids) (resources_of candidate resource_ids))

unfoldable pub mark : ScoredCandidate → List Resource → ScoredCandidate
unfolding distinct
mark candidate [] = candidate
mark candidate (r ∷ rs) = record candidate {
  contradictions = distinct (candidate.contradictions ++ Contradiction.batch_collision ∷ []);
  duplicate = true;
  evidence =
      candidate.evidence
      ++ evidence_of RuleCode.batch_collision (consumed_ids candidate.candidate_id (r ∷ rs)) 0 fail
        ∷ [];
}

unfoldable pub mark_batch_collision :
    ScoredCandidate → List Resource → List Resource → ScoredCandidate
unfolding mark
mark_batch_collision candidate reserved_ids resource_ids =
    mark candidate (batch_collision_ids candidate reserved_ids resource_ids)
