-- ===== src/Service/Run.antt =====
-- `run_reconciliation` of apps/api/app/reconciliation/service.py, without the investigation that
-- starts after the commit. The transaction is a function on the tables. The first two checks read
-- tables that another request may have changed before the transaction starts.
use roborecon.Prelude.{
  ℕ, Text, codes, Bool, not, none, some, List, [], ◌∷◌, ◌++◌, map, any, ◌==◌, ◌&&◌, if◌then◌else◌,
}
use roborecon.Prelude.Int.{pos}
use roborecon.Prelude.Result.{Result, ok, err, guard, require, ◌>>=◌, ◌>>◌}
use roborecon.Enums.{completed, failed, is_running, AuditEventType}
use roborecon.Records.{Datetime}
use roborecon.Json.{Json, null, number, object, Fields, no_fields, field}
use roborecon.Audit.{AuditTables, AuditRequest, append_event, batch_exists}
use roborecon.Rows.{ReconciliationRun, MatchLink, ReconciliationException, system}
use roborecon.Engine.Reference.{CharTables}
use roborecon.Service.{SourceTables, Snapshot, load_snapshot, source_counts, total_of, source_index}
use roborecon.Service.Links.{NewIds}
use roborecon.Service.Results.{
  ResultRow, Pending, pending_links, pending_exceptions, quarantine_exception, run_stages,
}

pub record ServiceTables : Type 0 where
  pub sources : SourceTables
  pub runs : List ReconciliationRun
  pub results : List ResultRow
  pub links : List MatchLink
  pub exceptions : List ReconciliationException
  pub audit : AuditTables Json

-- the clock readings; `logged n` is the time of the n-th audit event
pub record RunClock : Type 0 where
  pub started_at : Datetime
  pub completed_at : Datetime
  pub failed_at : Datetime
  pub elapsed_ms : ℕ
  pub failed_elapsed_ms : ℕ
  pub logged : ℕ → Datetime

-- `run_failed` stands for each other exception.
pub data RunError : Type 0 where
  batch_not_found run_already_running run_failed : RunError

counts_fields : List (Text × ℕ) → ℕ → Fields
counts_fields [] total = field (codes "total") (number (pos total)) no_fields
counts_fields ((name, n) ∷ counts) total = field name (number (pos n)) (counts_fields counts total)

-- the request of `_audit`
unfoldable pub run_event : ℕ → AuditEventType → ℕ → Text → AuditRequest Json
run_event batch_id event_type run_id summary = record {
  batch_id = some batch_id;
  event_type = event_type;
  entity_type = codes "reconciliation_run";
  entity_id = some run_id;
  summary = summary;
  actor = system;
  source_type = none;
  source_id = none;
  tool_trace = none;
}

-- a run that is running in the batch
unfoldable pub is_active : ℕ → ReconciliationRun → Bool
unfolding is_running
is_active batch_id run = (run.batch_id == batch_id) && is_running run.status

module _ (tables : CharTables) (throughput : ℕ → ℕ → ℕ) (ids : NewIds) (clock : RunClock)
    (batch_id : ℕ) where
  unfoldable pub completed_run : Snapshot → ReconciliationRun
  unfolding source_counts total_of counts_fields
  completed_run s =
      let total = total_of (source_counts s) in
      record {
        id = ids.run_id;
        batch_id = batch_id;
        status = completed;
        started_at = clock.started_at;
        completed_at = some clock.completed_at;
        duration_ms = some clock.elapsed_ms;
        throughput = some (if clock.elapsed_ms == 0 then 0 else throughput total clock.elapsed_ms);
        source_row_count = total;
        source_counts = object (counts_fields (source_counts s) total);
        metrics = null;
        error_message = none;
      }

  -- an audit event; a batch that is gone raises `ValueError`
  unfoldable pub log_run :
      AuditEventType → ℕ → Text → ℕ → AuditTables Json → Result RunError (AuditTables Json)
  unfolding run_event append_event
  log_run event_type run_id summary n audit = do
    logged ←
        require (append_event (run_event batch_id event_type run_id summary) (clock.logged n) audit)
          batch_not_found
    ok logged.1

  failed_run : ReconciliationRun
  failed_run = record {
    id = ids.failed_run_id;
    batch_id = batch_id;
    status = failed;
    started_at = clock.started_at;
    completed_at = some clock.failed_at;
    duration_ms = some clock.failed_elapsed_ms;
    throughput = none;
    source_row_count = 0;
    source_counts = object no_fields;
    metrics = null;
    error_message = some (codes "Reconciliation failed before completion.");
  }

  -- the rows that the transaction writes
  unfoldable pub write_results :
      Snapshot → List Pending → AuditTables Json → ServiceTables → ServiceTables
  unfolding completed_run pending_links pending_exceptions quarantine_exception source_index
  write_results s pending audit db = record db {
    runs = db.runs ++ completed_run s ∷ [];
    results = db.results ++ map (λ p. p.0) pending;
    links = db.links ++ pending_links ids (source_index s) pending;
    exceptions =
        db.exceptions
        ++ (pending_exceptions ids pending
            ++ map (quarantine_exception ids ids.run_id batch_id) s.quarantine);
    audit = audit;
  }

  -- The transaction. The flush of the new run violates the foreign key of a batch that is gone, or the
  -- unique index for the active runs of a batch; the code takes either for a run that is active.
  unfoldable pub run_transaction :
      ServiceTables → Result RunError (ReconciliationRun × ServiceTables)
  unfolding log_run load_snapshot run_stages write_results completed_run any is_active batch_exists
  run_transaction db = do
    guard (batch_exists db.audit.batches (some batch_id)) run_already_running
    guard (not (any (is_active batch_id) db.runs)) run_already_running
    started ←
        log_run AuditEventType.run_started ids.run_id (codes "Reconciliation run started") 0
          db.audit
    let s = load_snapshot batch_id db.sources
    pending ← require (run_stages tables ids batch_id s) run_failed
    persisted ←
        log_run AuditEventType.result_persisted ids.run_id
          (codes "Deterministic reconciliation results persisted") 1 started
    finished ←
        log_run AuditEventType.run_completed ids.run_id (codes "Reconciliation run completed") 2
          persisted
    ok (completed_run s, write_results s pending finished db)

  -- what is committed after another exception
  unfoldable pub record_failure : ServiceTables → ServiceTables
  unfolding failed_run log_run
  record_failure db =
      elim (log_run AuditEventType.run_failed ids.failed_run_id (codes "Reconciliation run failed")
        3 db.audit) [
          | ok audit ↦ record db { runs = db.runs ++ failed_run ∷ []; audit = audit }
          | err e ↦ db
        ]

  unfoldable pub settle_run :
      ServiceTables
      → Result RunError (ReconciliationRun × ServiceTables)
      → Result RunError ReconciliationRun × ServiceTables
  unfolding record_failure
  settle_run db (ok (run, after)) = (ok run, after)
  settle_run db (err run_failed) = (err run_failed, record_failure db)
  settle_run db (err e) = (err e, db)

  -- the checks before the transaction, on the tables as they are `seen`
  unfoldable pub check_run : ServiceTables → Result RunError (Unit {0})
  unfolding batch_exists any is_active
  check_run seen = do
    guard (batch_exists seen.audit.batches (some batch_id)) batch_not_found
    guard (not (any (is_active batch_id) seen.runs)) run_already_running

  unfoldable pub run_reconciliation :
      ServiceTables → ServiceTables → Result RunError ReconciliationRun × ServiceTables
  unfolding check_run run_transaction settle_run
  run_reconciliation seen db = settle_run db (check_run seen >> run_transaction db)
