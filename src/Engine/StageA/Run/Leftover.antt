-- ===== src/Engine/StageA/Run/Leftover.antt =====
-- The provider records that stage A has matched are not reported again as missing from the ledger.
use mathlib.Core.Bool.{false≢true}
use roborecon.Prelude.{
  ℕ, ◌≤◌, Bool, true, false, not, ◌≡◌, inl, inr, refl, sym, ◌∙◌, Option, some, List, [], ◌∷◌, ◌++◌,
  arith, Bool-cases, Member, All, All-map, All-imp, All-member, All-both, filter, filter-All,
  get_elem?, length, ==_refl,
}
use roborecon.Prelude.Along.{Along, Along-get, Along-rest}
use roborecon.Enums.{ResultStatus}
use roborecon.Records.{LedgerEntry, RazorpayOrder, RazorpayPayment, RazorpayRefund}
use roborecon.Engine.Model.{ScoredCandidate, EngineOutcome, Resource}
use roborecon.Engine.Policy.{can_auto_resolve}
use roborecon.Engine.Reference.{CharTables}
use roborecon.Engine.Candidates.{has_reference_evidence}
use roborecon.Engine.StageA.Pool.{StageACandidate, stage_a_pool}
use roborecon.Engine.StageA.Outcome.{contains_id}
use roborecon.Engine.StageA.Outcome.Selection.{Selection, outcome-Selection}
use roborecon.Engine.StageA.Run.{
  Pairing, scores, keep_in_mind, consider, consumed, scored_pairs, collision_candidate_ids,
  entry_pairs, entry_outcome, run_entries, missing_ledger_outcome, missing_ledger_outcomes,
  reconcile_stage_a,
}
use roborecon.Engine.StageA.Run.Scored.{IsScored, entry_pairs-IsScored}

contains-cons : (ids : List ℕ) (m n : ℕ) → contains_id ids n ≡ true → contains_id (m ∷ ids) n ≡ true
unfolding contains_id
contains-cons ids m n h = ground arith

contains-append :
    (ms ids : List ℕ) (n : ℕ) → contains_id ids n ≡ true → contains_id (ms ++ ids) n ≡ true
contains-append [] ids n h = h
contains-append (m ∷ ms) ids n h = contains-cons (ms ++ ids) m n (contains-append ms ids n h)

contains-head : (ids : List ℕ) (n : ℕ) → contains_id (n ∷ ids) n ≡ true
unfolding contains_id
contains-head ids n = ground (arith, ==_refl n)

consider-keeps :
    (ps : List Pairing) (ids : List ℕ) (n : ℕ)
    → contains_id ids n ≡ true
    → contains_id (consider ps ids) n ≡ true
unfolding consider
consider-keeps [] ids n h = h
consider-keeps ((source, scored) ∷ ps) ids n h =
    consider-keeps ps _ n (elim (Bool-cases (keep_in_mind scored)) [
      | inl t ↦ rw t (contains-cons _ scored.candidate_id n (contains-append _ ids n h))
      | inr f ↦ rw f h
    ])

-- A candidate that is kept in mind is considered.
abbrev Considered : List ℕ → ScoredCandidate → Type 0
Considered ids c = keep_in_mind c ≡ true → contains_id ids c.candidate_id ≡ true

consider-Considered :
    (ps : List Pairing) (ids : List ℕ) → All (Considered (consider ps ids)) (scores ps)
unfolding consider
consider-Considered [] ids = tt
consider-Considered ((source, scored) ∷ ps) ids = (
  λ t. consider-keeps ps _ scored.candidate_id (rw t (contains-head _ scored.candidate_id)),
  consider-Considered ps _,
)

auto_kept :
    (c : ScoredCandidate) (r : Option ScoredCandidate)
    → c.verified_settlement_math ≡ false
    → can_auto_resolve c r ≡ true
    → keep_in_mind c ≡ true
unfolding can_auto_resolve keep_in_mind
auto_kept c r u h = ground arith

-- The records that a match selects are considered.
abbrev MatchIn : List ℕ → EngineOutcome → Type 0
MatchIn ids o =
    o.autonomous ≡ true
    → o.status ≡ ResultStatus.matched
    → All (λ n. contains_id ids n ≡ true) o.selected_ids

abbrev NotIn : List ℕ → EngineOutcome → Type 0
NotIn ids o = All (λ n. contains_id ids n ≡ false) o.selected_ids

abbrev Known : List ℕ → ScoredCandidate → Type 0
Known ids c = Considered ids c × (c.verified_settlement_math ≡ false)

duplicate_unmatched : (s : ResultStatus) → s ≡ ResultStatus.duplicate → s ≡ ResultStatus.matched → ⊥
duplicate_unmatched s h k = cc

Selection-MatchIn : (ids : List ℕ) (o : EngineOutcome) → Selection (Known ids) o → MatchIn ids o
Selection-MatchIn ids o s e matched = elim s.outcome [
  | inl m ↦ rw m.1 (s.holds.0 (auto_kept s.selected s.runner_up s.holds.1 s.resolves), tt)
  | inr d ↦ absurd (duplicate_unmatched o.status d matched)
]

module _ (tables : CharTables) (pool : List StageACandidate) where
  entry_outcome-MatchIn :
      (entry : LedgerEntry) (considered_ids : List ℕ) (reserved_ids : List Resource)
      → MatchIn
          (consider (entry_pairs tables entry pool reserved_ids) considered_ids)
          (entry_outcome tables entry pool reserved_ids)
  unfolding entry_outcome keep_in_mind has_reference_evidence
  entry_outcome-MatchIn entry considered_ids reserved_ids e matched =
      let pairs = entry_pairs tables entry pool reserved_ids in
      let ids = consider pairs considered_ids in
      let o = entry_outcome tables entry pool reserved_ids in
      let known : All (Known ids) (scores pairs) =
        All-both (Considered ids) (λ c. c.verified_settlement_math ≡ false) (scores pairs)
          (consider-Considered pairs considered_ids)
          (All-map (λ c. c.verified_settlement_math ≡ false) (λ p. p.1) pairs
            (All-imp (λ p s. IsScored.unverified s) pairs
              (entry_pairs-IsScored tables entry pool reserved_ids))) in
      Selection-MatchIn ids o
        (outcome-Selection tables (Known ids) (λ c k. k) entry (scores pairs)
          (collision_candidate_ids tables reserved_ids (scored_pairs tables entry pool)) known e)
        e matched

  run-keeps :
      (ledger : List LedgerEntry) (considered_ids : List ℕ) (reserved_ids : List Resource) (n : ℕ)
      → contains_id considered_ids n ≡ true
      → contains_id (run_entries tables pool ledger considered_ids reserved_ids).1 n ≡ true
  unfolding run_entries
  run-keeps [] considered_ids reserved_ids n h = h
  run-keeps (entry ∷ ledger) considered_ids reserved_ids n h =
      run-keeps ledger _ _ n
        (consider-keeps (entry_pairs tables entry pool reserved_ids) considered_ids n h)

  run-MatchIn :
      (ledger : List LedgerEntry) (considered_ids : List ℕ) (reserved_ids : List Resource)
      (final : List ℕ) (rest : List EngineOutcome)
      → (run_entries tables pool ledger considered_ids reserved_ids).1 ≡ final
      → All (NotIn final) rest
      → Along
          (λ (entry : LedgerEntry) o. MatchIn final o)
          (NotIn final)
          ledger
          ((run_entries tables pool ledger considered_ids reserved_ids).0 ++ rest)
  unfolding run_entries
  run-MatchIn [] considered_ids reserved_ids final rest same h = h
  run-MatchIn (entry ∷ ledger) considered_ids reserved_ids final rest same h =
      let ids = consider (entry_pairs tables entry pool reserved_ids) considered_ids in
      let o = entry_outcome tables entry pool reserved_ids in
      (
        λ e matched.
            All-imp (λ n k. rw⁻¹ same (run-keeps ledger ids (reserved_ids ++ consumed o) n k))
              o.selected_ids (entry_outcome-MatchIn entry considered_ids reserved_ids e matched),
        run-MatchIn ledger ids (reserved_ids ++ consumed o) final rest same h,
      )

not_in : (b : Bool) → not b ≡ true → b ≡ false
not_in b h = ground arith

missing-NotIn :
    (pool : List StageACandidate) (ids : List ℕ)
    → All (NotIn ids) (missing_ledger_outcomes pool ids)
unfolding missing_ledger_outcomes missing_ledger_outcome
missing-NotIn pool ids =
    All-map (NotIn ids) missing_ledger_outcome
      (filter (λ c. not (contains_id ids (StageACandidate.record_id c))) pool)
      (All-imp (λ c h. (not_in _ h, tt)) _
        (filter-All (λ c. not (contains_id ids (StageACandidate.record_id c))) pool))

module _ (tables : CharTables) (ledger : List LedgerEntry) (orders : List RazorpayOrder)
    (payments : List RazorpayPayment) (refunds : List RazorpayRefund) where
  -- If the outcome at the place of a ledger entry is autonomous with the status `matched`, and
  -- another outcome stands after those of the ledger entries, then no record is selected by both.
  pub reconcile_stage_a-not_missing :
      (i j : ℕ) {entry : LedgerEntry} {o u : EngineOutcome}
      → get_elem? ledger i ≡ some entry
      → length ledger ≤ j
      → get_elem? (reconcile_stage_a tables ledger orders payments refunds) i ≡ some o
      → get_elem? (reconcile_stage_a tables ledger orders payments refunds) j ≡ some u
      → o.autonomous ≡ true
      → o.status ≡ ResultStatus.matched
      → (n : ℕ) → Member n o.selected_ids
      → ¬ Member n u.selected_ids
  unfolding reconcile_stage_a
  reconcile_stage_a-not_missing i j {entry} {o} {u} x le y z e matched n m k =
      let pool = stage_a_pool orders payments refunds in
      let final = (run_entries tables pool ledger [] []).1 in
      let along =
        run-MatchIn tables pool ledger [] [] final (missing_ledger_outcomes pool final) refl
          (missing-NotIn pool final) in
      let yes =
        All-member (λ k. contains_id final k ≡ true) n o.selected_ids
          (Along-get (λ (a : LedgerEntry) b. MatchIn final b) (NotIn final) ledger _ i along x y e
            matched)
          m in
      let no =
        All-member (λ k. contains_id final k ≡ false) n u.selected_ids
          (Along-rest (λ (a : LedgerEntry) b. MatchIn final b) (NotIn final) ledger _ j along le z)
          k in
      false≢true (sym no ∙ yes)
