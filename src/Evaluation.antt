-- ===== src/Evaluation.antt =====
-- The cases of apps/api/app/evaluation: the dataclasses of model.py, and the predicates on one case in
-- service.py. A UUID's text is the UUID; the statuses, stages and classes are texts.
pub mod Associate
pub mod Metrics
pub mod Acceptance
pub mod Report
pub mod Money
pub mod Bounds
pub mod Cases
pub mod Sets
pub mod Accepted
use roborecon.Prelude.{
  ℕ, ◌==◌, Text, codes, text_eq, Bool, true, false, not, ◌&&◌, ◌||◌, Option, none, some, List, [],
  ◌∷◌, ◌++◌, map, any, all, filter, length, is_empty, if◌then◌else◌,
}
use roborecon.Prelude.Int.{ℤ}
use roborecon.Engine.StageA.Outcome.{contains_id, or_else}

pub record TruthSource : Type 0 where
  pub source_type : Text
  pub source_id : ℕ

pub record TruthCase : Type 0 where
  pub case_id : ℕ
  pub scenario_class : Text
  pub amount : ℤ
  pub matchable : Bool
  pub expected_status : Text
  pub sources : List TruthSource

pub record Prediction : Type 0 where
  pub case_id : Option ℕ
  pub status : Text
  pub selected_ids : List ℕ
  pub autonomous : Bool
  pub amount : Option ℤ
  pub settlement_net : Option ℤ
  pub stage : Option Text
  pub review_status : Option Text

-- `TruthCase.source_ids`
abbrev pub source_ids : TruthCase → List ℕ
source_ids case = map (λ s. TruthSource.source_id s) case.sources

abbrev pub matched : Text
matched = codes "matched"

abbrev pub ledger_to_razorpay : Text
ledger_to_razorpay = codes "ledger_to_razorpay"

abbrev pub razorpay_to_settlement : Text
razorpay_to_settlement = codes "razorpay_to_settlement"

-- `value == text` of an optional text
abbrev pub is_text : Option Text → Text → Bool
is_text none t = false
is_text (some s) t = text_eq s t

-- the stage is one of `_REQUIRED_STAGES`
abbrev pub has_required_stage : Prediction → Bool
has_required_stage p = is_text p.stage ledger_to_razorpay || is_text p.stage razorpay_to_settlement

-- `_case_status_correct`
unfoldable pub case_status_correct : TruthCase → List Prediction → Bool
unfolding text_eq any all
case_status_correct case [] = false
case_status_correct case (p ∷ ps) =
    if not (text_eq case.expected_status matched)
    then any (λ q. text_eq (Prediction.status q) case.expected_status) (p ∷ ps)
    else all (λ q. text_eq (Prediction.status q) matched) (p ∷ ps)
      && all has_required_stage (p ∷ ps)
      && any (λ q. is_text (Prediction.stage q) ledger_to_razorpay) (p ∷ ps)
      && any (λ q. is_text (Prediction.stage q) razorpay_to_settlement) (p ∷ ps)

-- the set comprehension over the predictions
unfoldable pub all_selected : List Prediction → List ℕ
all_selected [] = []
all_selected (p ∷ ps) = p.selected_ids ++ all_selected ps

-- `xs.issubset(ys)`
unfoldable pub is_subset : List ℕ → List ℕ → Bool
unfolding all contains_id
is_subset xs ys = all (contains_id ys) xs

-- `_case_source_coverage`
unfoldable pub case_source_coverage : TruthCase → List Prediction → Bool
unfolding is_subset all_selected
case_source_coverage case ps =
    is_subset (source_ids case) (all_selected ps) && is_subset (all_selected ps) (source_ids case)

-- `xs.difference(ys)` of sets
unfoldable pub difference : List ℕ → List ℕ → List ℕ
unfolding filter contains_id
difference xs ys = filter (λ x. not (contains_id ys x)) xs

-- `_case_has_selected_false_positive`
unfoldable pub case_has_selected_false_positive : TruthCase → List Prediction → Bool
unfolding any difference
case_has_selected_false_positive case ps =
    any (λ p. not (is_empty (difference (Prediction.selected_ids p) (source_ids case)))) ps

-- `_case_is_correct`
unfoldable pub case_is_correct : TruthCase → List Prediction → Bool
unfolding case_status_correct case_has_selected_false_positive case_source_coverage text_eq
case_is_correct case ps =
    if not (case_status_correct case ps)
    then false
    else if not (text_eq case.expected_status matched)
    then true
    else if case_has_selected_false_positive case ps
    then false
    else case_source_coverage case ps

abbrev pub is_unreviewed : Option Text → Bool
is_unreviewed none = true
is_unreviewed (some s) = false

-- `_case_is_autonomously_resolved`
unfoldable pub case_is_autonomously_resolved : TruthCase → List Prediction → Bool
unfolding case_is_correct all text_eq
case_is_autonomously_resolved case ps =
    text_eq case.expected_status matched
    && case_is_correct case ps
    && not (is_empty ps)
    && all (λ p. Prediction.autonomous p && is_unreviewed (Prediction.review_status p)) ps

-- `_case_is_financially_resolved`
unfoldable pub case_is_financially_resolved : TruthCase → List Prediction → Bool
unfolding case_is_correct all text_eq
case_is_financially_resolved case ps =
    if not (text_eq case.expected_status matched) || not (case_is_correct case ps)
    then false
    else not (is_empty ps)
      && all
          (λ p. Prediction.autonomous p || is_text (Prediction.review_status p) (codes "approved"))
          ps

-- the elements without repetitions, as a set has them
unfoldable pub distinct : List ℕ → List ℕ
unfolding filter
distinct [] = []
distinct (x ∷ xs) = x ∷ filter (λ y. not (x == y)) (distinct xs)

-- `n or int(not selected_ids)`
abbrev pub count_or_missing : List ℕ → List ℕ → ℕ
count_or_missing [] [] = 1
count_or_missing [] (s ∷ selected) = 0
count_or_missing (w ∷ wrong) selected = length (w ∷ wrong)

-- `_autonomous_false_positive_count`
unfoldable pub autonomous_false_positive_count : Option TruthCase → Prediction → ℕ
unfolding distinct difference
autonomous_false_positive_count case p =
    let selected = distinct p.selected_ids in
    let expected : List ℕ = elim case [ some c ↦ source_ids c | none ↦ [] ] in
    if p.autonomous then count_or_missing (difference selected expected) selected else 0

-- the ids of the sources of a type
unfoldable pub ids_of_type : TruthCase → Text → List ℕ
unfolding filter text_eq
ids_of_type case t =
    map (λ s. TruthSource.source_id s)
      (filter (λ s. text_eq (TruthSource.source_type s) t) case.sources)

-- `_expected_stage_ids`
unfoldable pub expected_stage_ids : TruthCase → Text → List ℕ
unfolding ids_of_type text_eq
expected_stage_ids case stage =
    if text_eq stage ledger_to_razorpay
    then ids_of_type case (codes "ledger")
      ++ ids_of_type case (codes "razorpay_order")
      ++ or_else (ids_of_type case (codes "razorpay_refund"))
          (ids_of_type case (codes "razorpay_payment"))
    else if text_eq stage razorpay_to_settlement
    then ids_of_type case (codes "razorpay_payment")
      ++ ids_of_type case (codes "razorpay_refund")
      ++ ids_of_type case (codes "settlement")
      ++ ids_of_type case (codes "bank_credit")
    else []

-- `_stage_case_is_correct`
unfoldable pub stage_case_is_correct : TruthCase → List Prediction → Text → Bool
unfolding text_eq any is_subset all_selected expected_stage_ids
stage_case_is_correct case ps stage =
    not (is_empty ps)
    && text_eq case.expected_status matched
    && not (any (λ p. not (text_eq (Prediction.status p) matched)) ps)
    && is_subset (all_selected ps) (expected_stage_ids case stage)
    && is_subset (expected_stage_ids case stage) (all_selected ps)

-- `_stage_case_is_autonomous`
unfoldable pub stage_case_is_autonomous : TruthCase → List Prediction → Text → Bool
unfolding stage_case_is_correct all
stage_case_is_autonomous case ps stage =
    stage_case_is_correct case ps stage && all (λ p. Prediction.autonomous p) ps

-- `_autonomous_stage_false_positive_count`
unfoldable pub autonomous_stage_false_positive_count : Option TruthCase → Prediction → Text → ℕ
unfolding distinct difference expected_stage_ids
autonomous_stage_false_positive_count case p stage =
    let selected = distinct p.selected_ids in
    let expected : List ℕ = elim case [ some c ↦ expected_stage_ids c stage | none ↦ [] ] in
    if p.autonomous then count_or_missing (difference selected expected) selected else 0

-- `_exception_is_recalled`
unfoldable pub exception_is_recalled : TruthCase → List Prediction → Bool
unfolding any text_eq
exception_is_recalled case ps =
    not case.matchable
    && any
        (λ p. not (Prediction.autonomous p) && text_eq (Prediction.status p) case.expected_status)
        ps
