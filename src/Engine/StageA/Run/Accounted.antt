-- ===== src/Engine/StageA/Run/Accounted.antt =====
-- Every ledger entry and every provider record is accounted for in the outcomes of stage A.
use roborecon.Prelude.{
  ℕ, suc, Bool, map, true, false, not, ◌≡◌, ◌⊎◌, inl, inr, refl, ap, Option, none, some, List, [],
  ◌∷◌, ◌++◌, arith, Bool-cases, Member, All, All-map, All-append, all-All, All-member,
  Member-filter, filter, filter-Member, map-Member, length, &&-eq_true, any-cases, ◌==◌, ==→≡,
}
use roborecon.Enums.{ResultStatus}
use roborecon.Records.{LedgerEntry, RazorpayOrder, RazorpayPayment, RazorpayRefund}
use roborecon.Engine.Model.{ScoredCandidate, EngineOutcome, Resource}
use roborecon.Engine.Reference.{CharTables}
use roborecon.Engine.Candidates.{batch_collision_ids, mark_batch_collision}
use roborecon.Engine.Candidates.Marks.{mark-same}
use roborecon.Engine.StageA.Pool.{StageACandidate, stage_a_pool}
use roborecon.Engine.StageA.Eligible.{eligible_stage_a, numeric_reference_key}
use roborecon.Engine.StageA.Score.{stage_a_score}
use roborecon.Engine.StageA.Outcome.{
  contains_id, selected_status, no_candidate_outcome, below_minimum_outcome, settled_outcome,
  below_minimum, outcome_of_sorted, outcome_from_stage_a_candidates,
}
use roborecon.Engine.StageA.Run.{
  Pairing, kind_eq, expected_kind, keep_in_mind, parent_ids, consider, is_candidate_of, eligible_of,
  has_duplicate_key, pair_with_score, mark_pair, entry_pairs, entry_outcome, run_entries,
  missing_ledger_outcome, missing_ledger_outcomes, reconcile_stage_a,
}

-- The outcome of an entry does not report a missing entry.
abbrev IsEntryOutcome : EngineOutcome → Type 0
IsEntryOutcome o = ¬ (o.status ≡ ResultStatus.missing_ledger)

selected_status-present :
    (duplicate : Bool) (s : ScoredCandidate) (r : Option ScoredCandidate)
    → ¬ (selected_status duplicate s r ≡ ResultStatus.missing_ledger)
unfolding selected_status
selected_status-present duplicate s none h = ground arith
selected_status-present duplicate s (some r) h = ground arith

-- The outcome reports the record as missing from the ledger.
abbrev pub Reports : StageACandidate → EngineOutcome → Type 0
Reports c o =
    (o.status ≡ ResultStatus.missing_ledger)
    × (o.selected_ids ≡ c.record_id ∷ [])
    × (o.autonomous ≡ false)

module _ (tables : CharTables) (pool : List StageACandidate) where
  outcome_of_sorted-IsEntryOutcome :
      (entry : LedgerEntry) (cs : List ScoredCandidate) (n : ℕ) (sorted : List ScoredCandidate)
      → IsEntryOutcome (outcome_of_sorted tables entry cs n sorted)
  unfolding outcome_of_sorted no_candidate_outcome below_minimum_outcome settled_outcome
  outcome_of_sorted-IsEntryOutcome entry cs n [] = λ h. cc
  outcome_of_sorted-IsEntryOutcome entry cs n (selected ∷ rest) =
      elim (Bool-cases (below_minimum tables selected)) [
        | inl t ↦ rw t (λ h. cc)
        | inr f ↦ rw f (selected_status-present _ selected _)
      ]

  run_entries-IsEntryOutcome :
      (ledger : List LedgerEntry) (considered : List ℕ) (ids : List Resource)
      → All IsEntryOutcome (run_entries tables pool ledger considered ids).0
  unfolding run_entries entry_outcome outcome_from_stage_a_candidates
  run_entries-IsEntryOutcome [] considered ids = tt
  run_entries-IsEntryOutcome (entry ∷ ledger) considered ids =
      (outcome_of_sorted-IsEntryOutcome entry _ _ _, run_entries-IsEntryOutcome ledger _ _)

  length-run_entries :
      (ledger : List LedgerEntry) (considered : List ℕ) (ids : List Resource)
      → length (run_entries tables pool ledger considered ids).0 ≡ length ledger
  unfolding run_entries
  length-run_entries [] considered ids = refl
  length-run_entries (entry ∷ ledger) considered ids = ap suc (length-run_entries ledger _ _)

  -- The id is that of a record which is a candidate of an entry, or of the parent of one.
  abbrev pub IsKnown : List LedgerEntry → ℕ → Type 0
  IsKnown ledger n =
      (entry : LedgerEntry) × Member entry ledger
      × (c : StageACandidate) × Member c pool
      × (kind_eq c.kind (expected_kind entry.entry_type) ≡ true)
      × (eligible_stage_a tables entry c ≡ true)
      × ((n ≡ c.record_id) ⊎ (c.parent_record_id ≡ some n))

  -- a candidate of the entry with its score
  abbrev IsPaired : LedgerEntry → Pairing → Type 0
  IsPaired entry p =
      Member p.0 pool
      × (is_candidate_of tables entry p.0 ≡ true)
      × ((p.1).candidate_id ≡ (p.0).record_id)

  pair-IsPaired :
      (entry : LedgerEntry) (ids : List Resource) (eligible : List StageACandidate)
      (c : StageACandidate)
      → Member c pool
      → is_candidate_of tables entry c ≡ true
      → IsPaired entry (mark_pair tables ids (pair_with_score tables entry eligible c))
  unfolding mark_pair pair_with_score stage_a_score mark_batch_collision
  pair-IsPaired entry ids eligible c m k =
      let same = λ (s : ScoredCandidate). (mark-same s (batch_collision_ids s ids [])).0 in
      elim (Bool-cases
        (has_duplicate_key tables entry eligible (numeric_reference_key tables entry c))) [
          | inl t ↦ rw t (m, k, same (record (stage_a_score tables entry c) { duplicate = true }))
          | inr f ↦ rw f (m, k, same (stage_a_score tables entry c))
        ]

  entry_pairs-IsPaired :
      (entry : LedgerEntry) (ids : List Resource)
      → All (IsPaired entry) (entry_pairs tables entry pool ids)
  unfolding entry_pairs eligible_of
  entry_pairs-IsPaired entry ids =
      let eligible = eligible_of tables entry pool in
      All-map (IsPaired entry) (mark_pair tables ids)
        (map (pair_with_score tables entry eligible) eligible)
        (All-map (λ p. IsPaired entry (mark_pair tables ids p))
          (pair_with_score tables entry eligible) eligible
          (all-All
            (λ c. IsPaired entry (mark_pair tables ids (pair_with_score tables entry eligible c)))
            eligible
            (λ c m.
              let found = Member-filter (is_candidate_of tables entry) c pool m in
              pair-IsPaired entry ids eligible c found.0 found.1)))

  candidate-IsKnown :
      (full : List LedgerEntry) (entry : LedgerEntry) (p : Pairing)
      → Member entry full
      → IsPaired entry p
      → (n : ℕ) → (n ≡ (p.0).record_id) ⊎ ((p.0).parent_record_id ≡ some n)
      → IsKnown full n
  candidate-IsKnown full entry p m h n e =
      let (kind, eligible) = &&-eq_true _ _ h.1 in (entry, m, p.0, h.0, kind, eligible, e)

  parent-IsKnown :
      (full : List LedgerEntry) (entry : LedgerEntry) (p : Pairing)
      → Member entry full
      → IsPaired entry p
      → All (IsKnown full) (parent_ids (p.0).parent_record_id)
  parent-IsKnown full entry p m h =
      go (p.0).parent_record_id (λ n e. candidate-IsKnown full entry p m h n (inr e))
    where
      go :
          (parent : Option ℕ)
          → ((n : ℕ) → parent ≡ some n → IsKnown full n)
          → All (IsKnown full) (parent_ids parent)
      go none f = tt
      go (some n) f = (f n refl, tt)

  consider-IsKnown :
      (full : List LedgerEntry) (entry : LedgerEntry) (ps : List Pairing) (ids : List ℕ)
      → Member entry full
      → All (IsPaired entry) ps
      → All (IsKnown full) ids
      → All (IsKnown full) (consider ps ids)
  unfolding consider
  consider-IsKnown full entry [] ids m h k = k
  consider-IsKnown full entry ((source, scored) ∷ ps) ids m h k =
      consider-IsKnown full entry ps _ m h.1 (elim (Bool-cases (keep_in_mind scored)) [
        | inl t ↦ rw t (
          candidate-IsKnown full entry (source, scored) m h.0 scored.candidate_id (inl ((h.0).2)),
          All-append (IsKnown full) (parent_ids source.parent_record_id) ids
              (parent-IsKnown full entry (source, scored) m h.0) k,
        )
        | inr f ↦ rw f k
      ])

  run_entries-IsKnown :
      (full ledger : List LedgerEntry) (considered : List ℕ) (ids : List Resource)
      → ((e : LedgerEntry) → Member e ledger → Member e full)
      → All (IsKnown full) considered
      → All (IsKnown full) (run_entries tables pool ledger considered ids).1
  unfolding run_entries
  run_entries-IsKnown full [] considered ids f k = k
  run_entries-IsKnown full (entry ∷ ledger) considered ids f k =
      run_entries-IsKnown full ledger _ _ (λ e m. f e (inr m))
        (consider-IsKnown full entry (entry_pairs tables entry pool ids) considered
          (f entry (inl refl)) (entry_pairs-IsPaired entry ids) k)

contains_id-member : (ids : List ℕ) (n : ℕ) → contains_id ids n ≡ true → Member n ids
unfolding contains_id
contains_id-member ids n h =
    let (m, there, same) = any-cases (λ k. n == k) ids h in rw (==→≡ n m same) there

-- Every outcome and every record of the pool is accounted for.
abbrev pub Accounted :
    CharTables → List StageACandidate → List LedgerEntry → List EngineOutcome → Type 0
Accounted tables pool ledger outcomes =
    (first : List EngineOutcome) × (left : List EngineOutcome) × (outcomes ≡ first ++ left)
    × (length first ≡ length ledger)
    × All IsEntryOutcome first
    × All (λ o. (c : StageACandidate) × Member c pool × Reports c o) left
    × ((c : StageACandidate)
        → Member c pool
        → ((o : EngineOutcome) × Member o left × Reports c o)
          ⊎ IsKnown tables pool ledger c.record_id)

-- The outcomes of stage A are one for each ledger entry, none of which has the status
-- `missing_ledger`, and after them outcomes that are not autonomous and each report one record of the
-- pool as missing from the ledger. No record of the pool is lost: it is reported as missing, or it is
-- a candidate of a ledger entry, of the expected kind and eligible, or the parent of one.
pub reconcile_stage_a-Accounted :
    (tables : CharTables) (ledger : List LedgerEntry) (orders : List RazorpayOrder)
    (payments : List RazorpayPayment) (refunds : List RazorpayRefund)
    → Accounted tables
        (stage_a_pool orders payments refunds)
        ledger
        (reconcile_stage_a tables ledger orders payments refunds)
unfolding reconcile_stage_a missing_ledger_outcomes missing_ledger_outcome
reconcile_stage_a-Accounted tables ledger orders payments refunds =
    let pool = stage_a_pool orders payments refunds in
    let (first, considered) = run_entries tables pool ledger [] [] in
    let is_left = λ (c : StageACandidate). not (contains_id considered c.record_id) in
    (
      first,
      map missing_ledger_outcome (filter is_left pool),
      refl,
      length-run_entries tables pool ledger [] [],
      run_entries-IsEntryOutcome tables pool ledger [] [],
      All-map (λ o. (c : StageACandidate) × Member c pool × Reports c o) missing_ledger_outcome
          (filter is_left pool)
          (all-All _ (filter is_left pool)
            (λ c m. (c, (Member-filter is_left c pool m).0, (refl, refl, refl)))),
      (λ c m. elim (Bool-cases (contains_id considered c.record_id)) [
        | inl t ↦ inr (
            All-member (IsKnown tables pool ledger) c.record_id considered
              (run_entries-IsKnown tables pool ledger ledger [] [] (λ e k. k) tt)
              (contains_id-member considered c.record_id t))
        | inr f ↦ inl (
          missing_ledger_outcome c,
          map-Member missing_ledger_outcome c (filter is_left pool)
              (filter-Member is_left c pool m (ap not f)),
          (refl, refl, refl),
        )
      ]),
    )
