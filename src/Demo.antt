-- ===== src/Demo.antt =====
-- The plan of the benchmark's cases: apps/api/app/demo/dataset.py, from `_amount` to
-- `_expected_status`. A tag is a constructor in place of its text.
pub mod Plan
use roborecon.Prelude.{
  ℕ, ◌+◌, ◌*◌, ◌%◌, Bool, true, false, ◌&&◌, ◌||◌, List, [], ◌∷◌, ◌++◌, ltb, leb, ◌==◌, any,
  if◌then◌else◌,
}
use roborecon.Enums.{ResultStatus}

pub data ScenarioTag : Type 0 where
  exact_id fee_gst date_shift fuzzy_reference : ScenarioTag
  duplicate missing_razorpay missing_settlement missing_bank_credit : ScenarioTag
  amount_mismatch refund held_release ambiguous standard : ScenarioTag

unfoldable pub tag_eq : ScenarioTag → ScenarioTag → Bool
tag_eq exact_id exact_id = true
tag_eq fee_gst fee_gst = true
tag_eq date_shift date_shift = true
tag_eq fuzzy_reference fuzzy_reference = true
tag_eq ScenarioTag.duplicate ScenarioTag.duplicate = true
tag_eq ScenarioTag.missing_razorpay ScenarioTag.missing_razorpay = true
tag_eq ScenarioTag.missing_settlement ScenarioTag.missing_settlement = true
tag_eq ScenarioTag.missing_bank_credit ScenarioTag.missing_bank_credit = true
tag_eq ScenarioTag.amount_mismatch ScenarioTag.amount_mismatch = true
tag_eq refund refund = true
tag_eq held_release held_release = true
tag_eq ScenarioTag.ambiguous ScenarioTag.ambiguous = true
tag_eq standard standard = true
tag_eq _ _ = false

-- `tag in tags`
unfoldable pub has_tag : ScenarioTag → List ScenarioTag → Bool
unfolding any tag_eq
has_tag tag tags = any (tag_eq tag) tags

-- `_EQUAL_AMOUNT_SOURCES.get(index, index)`
unfoldable pub equal_amount_source : ℕ → ℕ
equal_amount_source index = if index == 10 then 9 else if index == 108 then 20 else index

unfoldable pub amount : ℕ → ℕ
unfolding equal_amount_source
amount index = 10000 + (equal_amount_source index * 7919) % 190000

-- `low <= index < high`
abbrev pub within : ℕ → ℕ → ℕ → Bool
within low high index = leb low index && ltb index high

abbrev pub tag_if : Bool → ScenarioTag → List ScenarioTag
tag_if b tag = if b then tag ∷ [] else []

unfoldable pub scenario_tags : ℕ → List ScenarioTag
scenario_tags index =
    tag_if (ltb index 40) exact_id
    ++ tag_if (ltb index 24) fee_gst
    ++ tag_if (within 10 26 index) date_shift
    ++ tag_if (within 20 34 index) fuzzy_reference
    ++ tag_if (within 40 48 index) ScenarioTag.duplicate
    ++ tag_if (within 80 88 index) ScenarioTag.missing_razorpay
    ++ tag_if (within 50 56 index) ScenarioTag.missing_settlement
    ++ tag_if (within 56 60 index || within 68 70 index) ScenarioTag.missing_bank_credit
    ++ tag_if (within 60 68 index) ScenarioTag.amount_mismatch
    ++ tag_if (within 70 80 index) refund
    ++ tag_if (within 90 96 index) held_release
    ++ tag_if (within 100 108 index) ScenarioTag.ambiguous

-- `next((tag for tag in priority if tag in tags), "standard")`
first_tag : List ScenarioTag → List ScenarioTag → ScenarioTag
unfolding has_tag
first_tag [] tags = standard
first_tag (tag ∷ priority) tags = if has_tag tag tags then tag else first_tag priority tags

unfoldable pub scenario_class : List ScenarioTag → ScenarioTag
unfolding first_tag
scenario_class tags =
    first_tag
      (ScenarioTag.missing_razorpay ∷ ScenarioTag.missing_settlement
        ∷ ScenarioTag.missing_bank_credit ∷ ScenarioTag.duplicate ∷ ScenarioTag.amount_mismatch
        ∷ ScenarioTag.ambiguous ∷ refund ∷ held_release ∷ fuzzy_reference ∷ date_shift ∷ fee_gst
        ∷ exact_id ∷ [])
      tags

unfoldable pub expected_status : List ScenarioTag → ResultStatus
unfolding has_tag
expected_status tags =
    if has_tag ScenarioTag.missing_razorpay tags
    then ResultStatus.missing_razorpay
    else if has_tag ScenarioTag.missing_settlement tags
    then ResultStatus.missing_settlement
    else if has_tag ScenarioTag.missing_bank_credit tags
    then ResultStatus.missing_bank_credit
    else if has_tag ScenarioTag.duplicate tags
    then ResultStatus.duplicate
    else if has_tag ScenarioTag.amount_mismatch tags
    then ResultStatus.amount_mismatch
    else if has_tag ScenarioTag.ambiguous tags
    then ResultStatus.ambiguous
    else ResultStatus.matched
