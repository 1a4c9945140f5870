-- ===== src/Review.antt =====
-- `review_exception` of apps/api/app/exception/service.py. The transaction is a function on the
-- tables: what raises writes nothing, as the rollback does. `_adjust_metrics` and the stale close
-- brief are in the child modules.
pub mod Metrics
pub mod Brief
pub mod Decision
use roborecon.Prelude.{
  ℕ, ◌==◌, Text, codes, text_eq, Bool, true, false, not, ◌&&◌, Option, none, some, List, [], ◌∷◌,
  ◌++◌, filter, is_empty, if◌then◌else◌,
}
use roborecon.Prelude.Int.{ℤ}
use roborecon.Prelude.Result.{Result, ok, err, ◌>>=◌, ◌>>◌, guard, require}
use roborecon.Prelude.Table.{find, update}
use roborecon.Enums.{
  AuditEventType, ExceptionStatus, open_status, approved, rejected, ReviewAction, approve, reject,
  ResultStatus, confirmed_no_match, stage_value,
}
use roborecon.Json.{Json, null, text, object, no_fields, field, get_field}
use roborecon.Records.{Datetime}
use roborecon.Rows.{
  ReconciliationRun, BatchCloseBrief, ReconciliationResult, MatchLink, ReconciliationException,
  human_approved, system,
}
use roborecon.Audit.{AuditEvent, AuditTables, AuditRequest, append_event}
use roborecon.Review.Metrics.{Numerals, adjust_metrics}
use roborecon.Review.Brief.{mark_latest_brief_stale}

-- The errors: the three classes, and what `append_event` and `_adjust_metrics` raise.
pub data ReviewError : Type 0 where
  review_not_found review_conflict invalid_review_candidate : ReviewError
  batch_not_found metrics_error : ReviewError

-- What the review reads of a source record.
pub record SourceRow : Type 0 where
  pub id : ℕ
  pub batch_id : ℕ

pub record ReviewTables : Type 0 where
  pub exceptions : List ReconciliationException
  pub results : List (ReconciliationResult Json)
  pub links : List MatchLink
  pub runs : List ReconciliationRun
  pub briefs : List BatchCloseBrief
  -- the table of each source model, by its name
  pub sources : Text → List SourceRow
  pub audit : AuditTables Json

-- the arguments, with the new link's id and the two clock readings
pub record ReviewRequest : Type 0 where
  pub exception_id : ℕ
  pub action : ReviewAction
  pub candidate_id : Option ℕ
  pub note : Option Text
  pub actor : Text
  pub reviewed_at : Datetime
  pub logged_at : Datetime
  pub link_id : ℕ

pub record ReviewDecision : Type 0 where
  pub id : ℕ
  pub result_id : Option ℕ
  pub action : ReviewAction
  pub status : ExceptionStatus
  pub candidate_id : Option ℕ
  pub note : Option Text
  pub actor : Text
  pub reviewed_at : Datetime
  pub link_id : Option ℕ

-- Python's `str` on the values of JSON and on a UUID
pub record Strings : Type 0 where
  pub str_json : Json → Text
  pub str_uuid : ℕ → Text

-- `_SOURCE_MODELS`
abbrev pub source_models : List Text
source_models =
    codes "ledger"
    ∷ codes "razorpay_order"
    ∷ codes "razorpay_payment"
    ∷ codes "razorpay_refund"
    ∷ codes "settlement"
    ∷ codes "settlement_line"
    ∷ codes "bank_credit"
    ∷ []

-- `d.get(key, d.get(other))`
abbrev pub get_either : Text → Text → Json → Json
get_either key other (object d) = elim (get_field key d) [
  | some v ↦ v
  | none ↦ elim (get_field other d) [ some v ↦ v | none ↦ null ]
]
get_either key other _ = null

abbrev is_object : Json → Bool
is_object (object d) = true
is_object _ = false

-- `source_type is None or item[0] == source_type`
abbrev pub is_type : Json → Text → Bool
is_type null name = true
is_type (text t) name = text_eq name t
is_type _ name = false

unfoldable pub find_in : (Text → List SourceRow) → ℕ → ℕ → List Text → Option (Text × SourceRow)
unfolding find
find_in sources batch_id source_id [] = none
find_in sources batch_id source_id (name ∷ names) =
    let rest = find_in sources batch_id source_id names in
    elim (find (λ r. (r.id == source_id) && (r.batch_id == batch_id)) (sources name)) [
      | some r ↦ some (name, r)
      | none ↦ rest
    ]

-- `_find_source`
unfoldable pub find_source : (Text → List SourceRow) → ℕ → ℕ → Json → Option (Text × SourceRow)
unfolding find_in filter text_eq
find_source sources batch_id source_id source_type =
    find_in sources batch_id source_id (filter (is_type source_type) source_models)

unfoldable pub is_open : ExceptionStatus → Bool
is_open open_status = true
is_open _ = false

-- the result must be of the same batch and run as the exception
unfoldable pub own_result :
    ReviewTables
    → ReconciliationException
    → Option ℕ
    → Result ReviewError (Option (ReconciliationResult Json))
unfolding find
own_result db exception none = ok none
own_result db exception (some result_id) = do
  result ← require (find (λ r. r.id == result_id) db.results) invalid_review_candidate
  guard ((result.batch_id == exception.batch_id) && (result.run_id == exception.run_id))
      invalid_review_candidate
  ok (some result)

-- the exception's result, if it has one
unfoldable pub exception_result :
    ReviewTables → ReconciliationException → Result ReviewError (Option (ReconciliationResult Json))
unfolding own_result
exception_result db exception = own_result db exception exception.result_id

module _ (strings : Strings) where
  open strings use {str_json, str_uuid}

  -- the test of `_candidate_row`
  unfoldable pub is_candidate : ℕ → Json → Bool
  unfolding text_eq
  is_candidate candidate_id candidate =
      is_object candidate
      && text_eq (str_json (get_either (codes "candidate_id") (codes "candidateId") candidate))
          (str_uuid candidate_id)

  -- `_candidate_row`
  unfoldable pub candidate_row : ReconciliationResult Json → ℕ → Option Json
  unfolding find is_candidate
  candidate_row result candidate_id = find (is_candidate candidate_id) result.candidates

  -- the source of an approved candidate
  unfoldable pub approved_source :
      ReviewTables
      → ReconciliationException
      → Option (ReconciliationResult Json)
      → Option ℕ
      → Result ReviewError (Text × SourceRow)
  unfolding candidate_row find_source
  approved_source db exception (some result) (some candidate_id) = do
    candidate ← require (candidate_row result candidate_id) invalid_review_candidate
    source ←
        require
          (find_source db.sources exception.batch_id candidate_id
            (get_either (codes "source_type") (codes "sourceType") candidate))
          invalid_review_candidate
    guard (source.1.batch_id == exception.batch_id) invalid_review_candidate
    ok source
  approved_source db exception _ _ = err invalid_review_candidate

  unfoldable pub candidate_source :
      ReviewAction
      → ReviewTables
      → ReconciliationException
      → Option (ReconciliationResult Json)
      → Option ℕ
      → Result ReviewError (Option (Text × SourceRow))
  unfolding approved_source
  candidate_source reject db exception result candidate_id = ok none
  candidate_source approve db exception result candidate_id = do
    source ← approved_source db exception result candidate_id
    ok (some source)
