-- ===== src/Engine/StageA/Run/Safety.antt =====
-- What the autonomous outcomes of stage A rest on, entry by entry.
use roborecon.Prelude.{
  true, false, ◌≡◌, ◌⊎◌, refl, some, ℕ, get_elem?, List, [], ◌∷◌, ◌++◌, Member, All, All-map,
  all-All,
}
use roborecon.Prelude.Along.{Along, Along-get}
use roborecon.Enums.{ResultStatus}
use roborecon.Records.{LedgerEntry, RazorpayOrder, RazorpayPayment, RazorpayRefund}
use roborecon.Engine.Model.{EngineOutcome, Resource}
use roborecon.Engine.Policy.{auto_clean}
use roborecon.Engine.Reference.{CharTables}
use roborecon.Engine.StageA.Pool.{StageACandidate, stage_a_pool}
use roborecon.Engine.StageA.Eligible.{eligible_stage_a}
use roborecon.Engine.StageA.Score.Facts.{Agrees, stage_a_score-Agrees}
use roborecon.Engine.StageA.Run.{
  kind_eq, expected_kind, consider, consumed, entry_pairs, entry_outcome, run_entries,
  missing_ledger_outcome, missing_ledger_outcomes, reconcile_stage_a,
}
use roborecon.Engine.StageA.Run.Guard.{entry_outcome-Selection}

-- The record that an autonomous outcome rests on: it is in the pool, of the kind of the entry,
-- eligible, and agrees with the entry. The outcome is a match with that record alone, or it
-- reports duplicates.
pub record SafeMatch (tables : CharTables) (pool : List StageACandidate) (entry : LedgerEntry)
    (o : EngineOutcome) : Type 0 where
  pub source : StageACandidate
  pub in_pool : Member source pool
  pub kind : kind_eq source.kind (expected_kind entry.entry_type) ≡ true
  pub eligible : eligible_stage_a tables entry source ≡ true
  pub agrees : Agrees entry source
  pub outcome :
      ((o.status ≡ ResultStatus.matched) × (o.selected_ids ≡ source.record_id ∷ []))
      ⊎ (o.status ≡ ResultStatus.duplicate)

with_source :
    (o : EngineOutcome) {m n : ℕ}
    → m ≡ n
    → ((o.status ≡ ResultStatus.matched) × (o.selected_ids ≡ m ∷ []))
      ⊎ (o.status ≡ ResultStatus.duplicate)
    → ((o.status ≡ ResultStatus.matched) × (o.selected_ids ≡ n ∷ []))
      ⊎ (o.status ≡ ResultStatus.duplicate)
with_source o e h = rw e at h

module _ (tables : CharTables) (pool : List StageACandidate) where
  entry_outcome-SafeMatch :
      (entry : LedgerEntry) (reserved_ids : List Resource)
      → (entry_outcome tables entry pool reserved_ids).autonomous ≡ true
      → SafeMatch tables pool entry (entry_outcome tables entry pool reserved_ids)
  entry_outcome-SafeMatch entry reserved_ids e =
      let s = entry_outcome-Selection tables reserved_ids entry pool e in
      let k = s.holds in
      record {
        source = k.source;
        in_pool = k.in_pool;
        kind = k.kind;
        eligible = k.eligible;
        agrees =
            stage_a_score-Agrees tables entry k.source
              (k.clean (auto_clean s.selected s.runner_up s.resolves));
        outcome = with_source (entry_outcome tables entry pool reserved_ids) k.same_id s.outcome;
      }

  abbrev IfAutonomous : LedgerEntry → EngineOutcome → Type 0
  IfAutonomous entry o = o.autonomous ≡ true → SafeMatch tables pool entry o

  abbrev IsMissingLedger : EngineOutcome → Type 0
  IsMissingLedger o = (o.status ≡ ResultStatus.missing_ledger) × (o.autonomous ≡ false)

  run_entries-SafeMatch :
      (ledger : List LedgerEntry) (considered_ids : List ℕ) (reserved_ids : List Resource)
      (rest : List EngineOutcome)
      → All IsMissingLedger rest
      → Along IfAutonomous IsMissingLedger ledger
          ((run_entries tables pool ledger considered_ids reserved_ids).0 ++ rest)
  unfolding run_entries
  run_entries-SafeMatch [] considered_ids reserved_ids rest h = h
  run_entries-SafeMatch (entry ∷ ledger) considered_ids reserved_ids rest h = (
    entry_outcome-SafeMatch entry reserved_ids,
    run_entries-SafeMatch ledger
        (consider (entry_pairs tables entry pool reserved_ids) considered_ids)
        (reserved_ids ++ consumed (entry_outcome tables entry pool reserved_ids)) rest h,
  )

  missing_ledger_outcomes-IsMissingLedger :
      (considered_ids : List ℕ) → All IsMissingLedger (missing_ledger_outcomes pool considered_ids)
  unfolding missing_ledger_outcomes
  missing_ledger_outcomes-IsMissingLedger considered_ids =
      All-map IsMissingLedger missing_ledger_outcome _ (all-All _ _ (λ c m. (refl, refl)))

module _ (tables : CharTables) (ledger : List LedgerEntry) (orders : List RazorpayOrder)
    (payments : List RazorpayPayment) (refunds : List RazorpayRefund) where
  all_outcomes :
      Along
        (IfAutonomous tables (stage_a_pool orders payments refunds))
        (IsMissingLedger tables (stage_a_pool orders payments refunds))
        ledger
        (reconcile_stage_a tables ledger orders payments refunds)
  unfolding reconcile_stage_a
  all_outcomes =
      let pool = stage_a_pool orders payments refunds in
      run_entries-SafeMatch tables pool ledger [] [] _
        (missing_ledger_outcomes-IsMissingLedger tables pool _)

  -- If the outcome at the place of a ledger entry is autonomous, then it rests on a record of the
  -- pool with the kind that the entry expects, which is eligible for the entry, has its currency
  -- and an agreeing amount, lies at most seven days away and is captured. The outcome is a match
  -- that selects this record alone, or it has the status `duplicate`.
  pub reconcile_stage_a-SafeMatch :
      (i : ℕ) {entry : LedgerEntry} {o : EngineOutcome}
      → get_elem? ledger i ≡ some entry
      → get_elem? (reconcile_stage_a tables ledger orders payments refunds) i ≡ some o
      → o.autonomous ≡ true
      → SafeMatch tables (stage_a_pool orders payments refunds) entry o
  reconcile_stage_a-SafeMatch i p q e =
      Along-get (IfAutonomous tables (stage_a_pool orders payments refunds)) _ ledger _ i
        all_outcomes p q e
