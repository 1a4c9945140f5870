-- ===== src/Evaluation/Associate.antt =====
-- `_associate_predictions` of apps/api/app/evaluation/service.py, and the normal form that
-- `_truth_sources` and `_ids` give to the arguments.
use roborecon.Prelude.{
  ℕ, ltb, ◌==◌, text_eq, Bool, false, not, ◌&&◌, ◌||◌, Option, none, some, List, [], ◌∷◌, map, any,
  filter, length, is_empty, if◌then◌else◌,
}
use roborecon.Prelude.Order.{sort}
use roborecon.Engine.StageA.Outcome.{contains_id}
use roborecon.Evaluation.{TruthSource, TruthCase, Prediction, source_ids, distinct}

-- `tuple(dict.fromkeys(sources))`
unfoldable pub distinct_sources : List TruthSource → List TruthSource
unfolding filter text_eq
distinct_sources [] = []
distinct_sources (s ∷ ss) =
    s
    ∷ filter (λ t. not (text_eq s.source_type t.source_type && (s.source_id == t.source_id)))
        (distinct_sources ss)

-- `_truth_case` of a case
unfoldable pub truth_case : TruthCase → TruthCase
unfolding distinct_sources
truth_case case = record case { sources = distinct_sources case.sources }

-- `_prediction` of a prediction
unfoldable pub prediction_of : Prediction → Prediction
unfolding distinct
prediction_of p = record p { selected_ids = distinct p.selected_ids }

-- a case that overlaps, with the size of the overlap
abbrev pub Overlap : Type 0
Overlap = ℕ × TruthCase

unfoldable pub overlap_of : List ℕ → TruthCase → Overlap
unfolding filter contains_id distinct
overlap_of selected case =
    (length (filter (contains_id (source_ids case)) (distinct selected)), case)

unfoldable pub overlaps_of : List ℕ → List TruthCase → List Overlap
unfolding overlap_of filter
overlaps_of selected truth = filter (λ o. ltb 0 o.0) (map (overlap_of selected) truth)

-- the sort key: `(-count, case_id)`
unfoldable pub overlap_before : Overlap → Overlap → Bool
overlap_before a b = ltb b.0 a.0 || ((a.0 == b.0) && ltb (a.1).case_id (b.1).case_id)

-- the branches on the sorted overlaps
unfoldable pub best_case : List Overlap → Prediction → Prediction
best_case [] p = p
best_case (best ∷ []) p = record p { case_id = some ((best.1).case_id) }
best_case (best ∷ second ∷ rest) p =
    if ltb second.0 best.0 then record p { case_id = some ((best.1).case_id) } else p

abbrev is_known : List TruthCase → Option ℕ → Bool
is_known truth none = false
is_known truth (some id) = any (λ c. TruthCase.case_id c == id) truth

unfoldable pub associate : List TruthCase → Prediction → Prediction
unfolding best_case overlaps_of sort overlap_before any
associate truth p =
    if is_known truth p.case_id || is_empty p.selected_ids
    then p
    else best_case (sort overlap_before (overlaps_of p.selected_ids truth)) p

unfoldable pub associate_predictions : List TruthCase → List Prediction → List Prediction
unfolding associate
associate_predictions truth ps = map (associate truth) ps
