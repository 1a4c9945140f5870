-- ===== src/Service/Outcome.antt =====
-- How `run_reconciliation` ends.
use roborecon.Prelude.{
  ℕ, true, false, not, ◌≡◌, ◌⊎◌, some, List, [], ◌∷◌, ◌++◌, map, filter, any, All,
}
use roborecon.Prelude.Result.{ok, err}
use roborecon.Enums.{AuditEventType, completed}
use roborecon.Json.{Json}
use roborecon.Rows.{ReconciliationRun, ReconciliationResult, ReconciliationException}
use roborecon.Audit.{AuditEvent, batch_exists}
use roborecon.Engine.Reference.{CharTables}
use roborecon.Engine.StageA.Run.{reconcile_stage_a}
use roborecon.Engine.StageB.Run.{reconcile_stage_b}
use roborecon.Prelude.Along.{Along}
use roborecon.Engine.Model.{EngineOutcome}
use roborecon.Service.{load_snapshot, source_index}
use roborecon.Service.Links.{NewIds}
use roborecon.Service.Results.{Pending, pending_links}
use roborecon.Service.Run.{
  batch_not_found, run_already_running, ServiceTables, RunClock, is_active, run_reconciliation,
}
use roborecon.Service.Accounts.{Recorded, Opens, Quarantines}

module _ (tables : CharTables) (throughput : ℕ → ℕ → ℕ) (ids : NewIds) (clock : RunClock)
    (batch_id : ℕ) where
  abbrev Logs : AuditEventType → ℕ → AuditEvent Json → Type 0
  Logs t run_id e = (e.event_type ≡ t) × (e.batch_id ≡ some batch_id) × (e.entity_id ≡ some run_id)

  -- What a completed run has written: a result for each outcome of both stages, with its stage,
  -- status, flag, selected ids, score and candidates; the links of these results; an open exception
  -- for each result that is not autonomous, with the result's id, source and amount, and then one for
  -- each quarantined record; and three audit events of the run.
  abbrev pub Completed : ServiceTables → ReconciliationRun → ServiceTables → Type 0
  Completed db run after =
      let s = load_snapshot batch_id db.sources in
      (pending : List Pending) × (outcomes : List EngineOutcome) × (opened : List
        ReconciliationException)
      × (quarantined : List ReconciliationException) × (started : AuditEvent Json)
      × (persisted : AuditEvent Json) × (finished : AuditEvent Json) × (run.id ≡ ids.run_id)
      × (run.batch_id ≡ batch_id)
      × (run.status ≡ completed)
      × (after.runs ≡ db.runs ++ run ∷ [])
      × (reconcile_stage_b tables s.payments s.refunds s.settlements s.lines s.credits
          ≡ some outcomes)
      × (map (λ p. p.1) pending
          ≡ reconcile_stage_a tables s.ledger s.orders s.payments s.refunds ++ outcomes)
      × All (Recorded ids.run_id batch_id) pending
      × (after.results ≡ db.results ++ map (λ p. p.0) pending)
      × (after.links ≡ db.links ++ pending_links ids (source_index s) pending)
      × (after.exceptions ≡ db.exceptions ++ (opened ++ quarantined))
      × Along (Opens ids.run_id batch_id) (λ _. ⊥)
          (filter (λ r. not (ReconciliationResult.autonomous r)) (map (λ p. p.0) pending)) opened
      × Along (λ _. Quarantines ids.run_id batch_id) (λ _. ⊥) s.quarantine quarantined
      × (after.audit.events ≡ db.audit.events ++ started ∷ persisted ∷ finished ∷ [])
      × Logs AuditEventType.run_started ids.run_id started
      × Logs AuditEventType.result_persisted ids.run_id persisted
      × Logs AuditEventType.run_completed ids.run_id finished

  -- The ways in which a run ends.
  abbrev pub Ended : ServiceTables → ServiceTables → Type 0
  Ended seen db =
      let result = run_reconciliation tables throughput ids clock batch_id seen db in
      ((batch_exists seen.audit.batches (some batch_id) ≡ false)
        × (result ≡ (err batch_not_found, db)))
      ⊎ ((any (is_active batch_id) seen.runs ≡ true) × (result ≡ (err run_already_running, db)))
      ⊎ (((batch_exists db.audit.batches (some batch_id) ≡ false)
            ⊎ (any (is_active batch_id) db.runs ≡ true))
          × (result ≡ (err run_already_running, db)))
      ⊎ ((any (is_active batch_id) seen.runs ≡ false)
          × (any (is_active batch_id) db.runs ≡ false)
          × ((run : ReconciliationRun) × (after : ServiceTables) × (result ≡ (ok run, after))
              × Completed db run after))
