-- ===== src/Review/Decision.antt =====
-- What `review_exception` of apps/api/app/exception/service.py writes, and the whole transaction.
pub mod Parts
pub mod Conflict
pub mod Errors
pub mod Candidate
pub mod Effects
pub mod Rejection
use roborecon.Prelude.{
  ℕ, ◌==◌, Text, codes, text_eq, Bool, true, false, not, ◌&&◌, Option, none, some, List, [], ◌∷◌,
  ◌++◌, filter, is_empty, if◌then◌else◌,
}
use mathlib.Core.Option
use roborecon.Prelude.Result.{Result, ok, err, ◌>>=◌, ◌>>◌, guard, require}
use roborecon.Prelude.Table.{find, update}
use roborecon.Enums.{
  AuditEventType, ExceptionStatus, approved, rejected, ReviewAction, approve, reject, ResultStatus,
  confirmed_no_match, stage_value,
}
use roborecon.Json.{Json, text, object, no_fields, field}
use roborecon.Rows.{
  ReconciliationRun, ReconciliationResult, MatchLink, ReconciliationException, human_approved,
  system,
}
use roborecon.Audit.{AuditRequest, append_event}
use roborecon.Review.Metrics.{Numerals, adjust_metrics}
use roborecon.Review.Brief.{mark_latest_brief_stale}
use roborecon.Review.{
  ReviewError, review_not_found, review_conflict, batch_not_found, metrics_error, SourceRow,
  ReviewTables, ReviewRequest, ReviewDecision, Strings, is_open, exception_result, candidate_source,
}

-- a link that a rejection deletes
unfoldable pub is_removed : ℕ → MatchLink → Bool
unfolding text_eq
is_removed result_id l =
    (l.result_id == result_id) && text_eq l.actor system && not (text_eq l.role human_approved)

unfoldable pub remaining_links :
    ReviewAction → Option (ReconciliationResult Json) → List MatchLink → List MatchLink
unfolding filter is_removed
remaining_links reject (some result) links = filter (λ l. not (is_removed result.id l)) links
remaining_links _ _ links = links

unfoldable pub status_of : ReviewAction → ExceptionStatus
status_of approve = approved
status_of reject = rejected

unfoldable pub close_exception : ReviewRequest → ReconciliationException → ReconciliationException
unfolding status_of
close_exception r e = record e {
  status = status_of r.action;
  review_note = r.note;
  reviewed_by = some r.actor;
  reviewed_at = some r.reviewed_at;
}

unfoldable pub reviewed_results :
    ReviewAction
    → Option (ReconciliationResult Json)
    → List (ReconciliationResult Json)
    → List (ReconciliationResult Json)
unfolding update
reviewed_results reject (some result) results =
    update (λ r. r.id == result.id) (λ r. record r { status = confirmed_no_match }) results
reviewed_results _ _ results = results

unfoldable pub approved_link :
    ReviewRequest → ReconciliationException → ℕ → Text × SourceRow → MatchLink
approved_link r e result_id source = record {
  id = r.link_id;
  run_id = e.run_id;
  result_id = result_id;
  source_type = source.0;
  source_id = source.1.id;
  role = human_approved;
  autonomous = false;
  actor = r.actor;
}

unfoldable pub new_links :
    ReviewRequest → ReconciliationException → Option (Text × SourceRow) → List MatchLink
unfolding approved_link
new_links r e (some source) = elim e.result_id [
  | some result_id ↦ approved_link r e result_id source ∷ []
  | none ↦ []
]
new_links r e none = []

-- the id of the new link
unfoldable pub link_id_of : List MatchLink → Option ℕ
link_id_of [] = none
link_id_of (l ∷ ls) = some l.id

-- everything but the run and the audit event
unfoldable pub review_rows :
    ReviewRequest
    → ReconciliationException
    → Option (ReconciliationResult Json)
    → Option (Text × SourceRow)
    → ReviewTables
    → ReviewTables
unfolding close_exception update reviewed_results remaining_links new_links
review_rows r e result source db = record db {
  exceptions = update (λ x. x.id == e.id) (close_exception r) db.exceptions;
  results = reviewed_results r.action result db.results;
  links = remaining_links r.action result db.links ++ new_links r e source;
}

unfoldable pub stage_of : Option (ReconciliationResult Json) → Option Text
unfolding stage_value
stage_of result = Option.map (λ r. stage_value r.stage) result

unfoldable pub adjust_run :
    Numerals
    → ReviewRequest
    → ReconciliationException
    → Option (ReconciliationResult Json)
    → Option ReconciliationRun
    → ReviewTables
    → Result ReviewError ReviewTables
unfolding adjust_metrics stage_of update mark_latest_brief_stale
adjust_run numerals r e result none db = ok db
adjust_run numerals r e result (some run) db = do
  metrics ←
      require (adjust_metrics numerals r.action e.amount (stage_of result) run.metrics)
        metrics_error
  ok record db {
    runs = update (λ x. x.id == run.id) (λ x. record x { metrics = metrics }) db.runs;
    briefs = mark_latest_brief_stale run.id r.reviewed_at db.briefs;
  }

-- the metrics of the run and its close brief, if there is a run
unfoldable pub review_run :
    Numerals
    → ReviewRequest
    → ReconciliationException
    → Option (ReconciliationResult Json)
    → ReviewTables
    → Result ReviewError ReviewTables
unfolding adjust_run find
review_run numerals r e result db =
    adjust_run numerals r e result (find (λ x. x.id == e.run_id) db.runs) db

-- `{"note": note} if note else None`
tool_trace : Option Text → Option Json
tool_trace (some (c ∷ note)) = some (object (field (codes "note") (text (c ∷ note)) no_fields))
tool_trace _ = none

event_type_of : ReviewAction → AuditEventType
event_type_of approve = AuditEventType.review_approved
event_type_of reject = AuditEventType.review_rejected

summary_of : ReviewAction → Text
summary_of approve = codes "Exception approved by human review"
summary_of reject = codes "Exception rejected by human review"

unfoldable pub review_event :
    ReviewRequest → ReconciliationException → Option (Text × SourceRow) → AuditRequest Json
unfolding tool_trace event_type_of summary_of
review_event r e source = record {
  batch_id = some e.batch_id;
  event_type = event_type_of r.action;
  entity_type = codes "reconciliation_exception";
  entity_id = some e.id;
  summary = summary_of r.action;
  actor = r.actor;
  source_type = elim source [ some s ↦ some s.0 | none ↦ e.source_type ];
  source_id = elim source [ some s ↦ some s.1.id | none ↦ e.source_id ];
  tool_trace = tool_trace r.note;
}

unfoldable pub review_audit :
    ReviewRequest
    → ReconciliationException
    → Option (Text × SourceRow)
    → ReviewTables
    → Result ReviewError ReviewTables
unfolding append_event review_event
review_audit r e source db = do
  logged ← require (append_event (review_event r e source) r.logged_at db.audit) batch_not_found
  ok record db { audit = logged.1 }

unfoldable pub decision_of :
    ReviewRequest → ReconciliationException → List MatchLink → ReviewDecision
unfolding link_id_of status_of
decision_of r e links = record {
  id = e.id;
  result_id = e.result_id;
  action = r.action;
  status = status_of r.action;
  candidate_id = r.candidate_id;
  note = r.note;
  actor = r.actor;
  reviewed_at = r.reviewed_at;
  link_id = link_id_of links;
}

-- the exception that is to be reviewed
unfoldable pub open_exception :
    ReviewRequest → ReviewTables → Result ReviewError ReconciliationException
unfolding find is_open
open_exception r db = do
  exception ← require (find (λ x. x.id == r.exception_id) db.exceptions) review_not_found
  guard (is_open exception.status) review_conflict
  ok exception

unfoldable pub review_exception :
    Numerals
    → Strings
    → ReviewRequest
    → ReviewTables
    → Result ReviewError (ReviewDecision × ReviewTables)
unfolding open_exception exception_result candidate_source review_rows review_run review_audit
    decision_of new_links
review_exception numerals strings r db = do
  exception ← open_exception r db
  result ← exception_result db exception
  source ← candidate_source strings r.action db exception result r.candidate_id
  adjusted ← review_run numerals r exception result (review_rows r exception result source db)
  logged ← review_audit r exception source adjusted
  ok (decision_of r exception (new_links r exception source), logged)
