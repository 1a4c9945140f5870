-- ===== src/Review/Metrics.antt =====
-- `_adjust_metrics` of apps/api/app/exception/service.py: what a review changes in the metrics of
-- its run. The dict is changed in place; an exception of `int` is `none`.
pub mod Counters
pub mod Money
use roborecon.Prelude.{ℕ, Text, codes, Bool, true, false, Option, none, some, ◌>>=◌, if◌then◌else◌}
use mathlib.Core.Option
use roborecon.Prelude.Int.{ℤ, pos, negsuc, pos_part, neg, ◌+ℤ◌, ◌==ℤ◌}
use roborecon.Enums.{ReviewAction, approve, reject}
use roborecon.Json.{
  Json, null, number, decimal, object, Fields, no_fields, get_field, set_field, is_truthy, int_of,
}

-- The names of the counters, in both spellings.
abbrev pub open_exceptions : Text
open_exceptions = codes "open_exceptions"

abbrev pub financially_unresolved_cases : Text
financially_unresolved_cases = codes "financially_unresolved_cases"

abbrev pub money_reconciled : Text
money_reconciled = codes "money_reconciled"

abbrev pub money_unresolved : Text
money_unresolved = codes "money_unresolved"

-- `amount or 0`
abbrev pub amount_or_zero : Option ℤ → ℤ
amount_or_zero none = pos 0
amount_or_zero (some amount) = amount

-- `review_adjusted`, a new dict if there is none
unfoldable pub review_of : Option Json → Fields
review_of (some (object d)) = d
review_of _ = no_fields

-- the counter of the action
abbrev pub outcome_key : ReviewAction → Text
outcome_key approve = codes "approvedCases"
outcome_key reject = codes "rejectedCases"

-- Python's `int` on a text, and `round(n * 100 / d, 2)` in hundredths for a `d` that is not 0
pub record Numerals : Type 0 where
  pub parse_int : Text → Option ℤ
  pub percent : ℤ → ℤ → ℤ

module _ (numerals : Numerals) where
  open numerals use {parse_int, percent}

  -- `max(0, int(value) + delta)` in place of the value
  unfoldable pub add_to : Text → ℤ → Json → Fields → Option Fields
  unfolding set_field int_of
  add_to key delta value d = do
    n ← int_of parse_int value
    some (set_field key (number (pos (pos_part (n +ℤ delta)))) d)

  -- one round of the loop in `increment`: a key that is missing or null is left
  unfoldable pub increment_value : Text → ℤ → Option Json → Fields → Option Fields
  unfolding add_to
  increment_value key delta none d = some d
  increment_value key delta (some null) d = some d
  increment_value key delta (some value) d = add_to key delta value d

  unfoldable pub increment_key : Text → ℤ → Fields → Option Fields
  unfolding increment_value get_field
  increment_key key delta d = increment_value key delta (get_field key d) d

  -- `increment`: both spellings
  unfoldable pub increment : Text → Text → ℤ → Fields → Option Fields
  unfolding increment_key
  increment snake camel delta d = do
    changed ← increment_key snake delta d
    increment_key camel delta changed

  unfoldable pub adjust_counters : ReviewAction → ℤ → Fields → Option Fields
  unfolding increment
  adjust_counters reject amount d = increment open_exceptions (codes "openExceptions") (negsuc 0) d
  adjust_counters approve amount d = do
    opened ← increment open_exceptions (codes "openExceptions") (negsuc 0) d
    cases ←
        increment financially_unresolved_cases (codes "financiallyUnresolvedCases") (negsuc 0)
          opened
    reconciled ← increment money_reconciled (codes "moneyReconciled") amount cases
    increment money_unresolved (codes "moneyUnresolved") (neg amount) reconciled

  -- `int(d.get(key, 0))`
  unfoldable pub counter_of : Option Json → Option ℤ
  counter_of none = some (pos 0)
  counter_of (some value) = int_of parse_int value

  -- `d[key] = int(d.get(key, 0)) + 1`
  unfoldable pub bump : Text → Fields → Option Fields
  unfolding counter_of get_field set_field
  bump key d = do n ← counter_of (get_field key d); some (set_field key (number (n +ℤ pos 1)) d)

  rate : ℤ → ℤ → Option ℤ
  rate resolved total = if total ==ℤ pos 0 then none else some (percent resolved total)

  set_rate : Json → Fields → Option Fields
  unfolding rate counter_of get_field set_field
  set_rate cases review = do
    resolved ← counter_of (get_field (codes "resolvedCases") review)
    total ← int_of parse_int cases
    h ← rate resolved total
    some (set_field (codes "matchRate") (decimal h) review)

  -- the match rate, if the matchable cases are known; a division by 0 raises
  match_rate : Option Json → Fields → Option Fields
  unfolding set_rate
  match_rate none review = some review
  match_rate (some cases) review = if is_truthy cases then set_rate cases review else some review

  add_money : ℤ → Option Json → Fields → Option Fields
  add_money amount none review = some review
  add_money amount (some null) review = some review
  add_money amount (some value) review = do
    n ← int_of parse_int value
    some (set_field (codes "moneyReconciled") (number (n +ℤ amount)) review)

  -- the part for approvals
  unfoldable pub approve_review : ReviewAction → ℤ → Fields → Fields → Option Fields
  unfolding match_rate add_money
  approve_review reject amount d review = some review
  approve_review approve amount d review = do
    resolved ← bump (codes "resolvedCases") review
    rated ← match_rate (get_field (codes "matchable_cases") d) resolved
    add_money amount (get_field (codes "moneyReconciled") rated) rated

  unfoldable pub adjust_review : ReviewAction → ℤ → Fields → Option Fields
  unfolding bump review_of approve_review get_field set_field
  adjust_review action amount d = do
    closed ← bump (codes "closedCases") (review_of (get_field (codes "review_adjusted") d))
    reviewed ← bump (codes "reviewedCases") closed
    counted ← bump (outcome_key action) reviewed
    review ← approve_review action amount d counted
    some (set_field (codes "review_adjusted") (object review) d)

  -- `if key in d: d[key] = max(0, int(d[key]) - 1)`
  decrease_value : Text → Option Json → Fields → Option Fields
  unfolding add_to
  decrease_value key none d = some d
  decrease_value key (some value) d = add_to key (negsuc 0) value d

  decrease : Text → Fields → Option Fields
  unfolding decrease_value get_field
  decrease key d = decrease_value key (get_field key d) d

  decrease_cases : ReviewAction → Fields → Option Fields
  unfolding decrease
  decrease_cases reject d = some d
  decrease_cases approve d = do
    snake ← decrease (codes "unresolved_cases") d
    decrease (codes "unresolvedCases") snake

  -- the metrics of one stage
  unfoldable pub adjust_stage_metric : ReviewAction → Option Json → Option Json
  unfolding decrease decrease_cases
  adjust_stage_metric action (some (object d)) = do
    snake ← decrease open_exceptions d
    camel ← decrease (codes "openExceptions") snake
    adjusted ← decrease_cases action camel
    some (object adjusted)
  adjust_stage_metric action (some v) = some v
  adjust_stage_metric action none = some null

  -- `stage in stage_metrics`
  unfoldable pub adjust_stage_in : ReviewAction → Text → Fields → Option Fields
  adjust_stage_in action stage d = elim (get_field stage d) [
    | none ↦ some d
    | some v ↦ Option.map (λ w. set_field stage w d) (adjust_stage_metric action (some v))
  ]

  unfoldable pub adjust_stages :
      Text → ReviewAction → Option Text → Option Json → Fields → Option Fields
  unfolding adjust_stage_in adjust_stage_metric set_field
  adjust_stages key action (some stage) (some (object stages)) d = do
    adjusted ← adjust_stage_in action stage stages
    some (set_field key (object adjusted) d)
  adjust_stages key action _ _ d = some d

  -- `metrics.get("stage_metrics", metrics.get("stageMetrics"))`
  unfoldable pub adjust_stage : ReviewAction → Option Text → Fields → Option Fields
  unfolding adjust_stages get_field
  adjust_stage action stage d = elim (get_field (codes "stage_metrics") d) [
    | none ↦
        adjust_stages (codes "stageMetrics") action stage (get_field (codes "stageMetrics") d) d
    | some v ↦ adjust_stages (codes "stage_metrics") action stage (some v) d
  ]

  unfoldable pub adjust_fields : ReviewAction → ℤ → Option Text → Fields → Option Fields
  unfolding adjust_counters adjust_review adjust_stage
  adjust_fields action amount stage d = do
    counted ← adjust_counters action amount d
    reviewed ← adjust_review action amount counted
    adjust_stage action stage reviewed

  -- metrics that are no dict are left
  unfoldable pub adjust_metrics : ReviewAction → Option ℤ → Option Text → Json → Option Json
  unfolding adjust_fields
  adjust_metrics action amount stage (object d) =
      Option.map (λ e. object e) (adjust_fields action (amount_or_zero amount) stage d)
  adjust_metrics action amount stage v = some v
