-- ===== src/Engine/StageB/Run/Status.antt =====
-- The status of the autonomous outcomes of stage B.
use mathlib.Core.Bool.{false≢true}
use mathlib.Core.Option.{some-injective}
use mathlib.Core.Path.{subst}
use roborecon.Prelude.{
  ℕ, Text, Bool, true, false, not, ◌&&◌, ◌≡◌, sym, ap, ◌∙◌, inl, inr, Option, some, List, [], ◌∷◌,
  ◌++◌, arith, is_empty, filter, any, All, All-filter, Bool-cases, >>=-eq_some, ==→≡, ==_refl,
  get_elem?,
}
use roborecon.Prelude.Along.{All-get}
use roborecon.Prelude.Order.{sort, Member-sort}
use roborecon.Prelude.Dict.{lookup, index, DistinctKeys, lookup-index}
use roborecon.Enums.{ResultStatus, is_ambiguous}
use roborecon.Records.{RazorpayPayment, RazorpayRefund, Settlement, SettlementLine, BankCredit}
use roborecon.Engine.Model.{ScoredCandidate, EngineOutcome, Resource, Contradiction}
use roborecon.Engine.Policy.{can_auto_resolve}
use roborecon.Engine.Reference.{CharTables}
use roborecon.Engine.Candidates.{before, batch_collision_ids, mark_batch_collision}
use roborecon.Engine.Candidates.Marks.{mark-same}
use roborecon.Engine.StageB.Release.{id_eq, LinesBySettlement}
use roborecon.Engine.StageB.Checks.{Related, has, with_facts}
use roborecon.Engine.StageB.Candidate.{stage_b_candidate, stage_b_resource_ids}
use roborecon.Engine.StageB.Run.{
  Entry, entry_id, candidates_of, FactsById, Step, missing_settlement_outcome, stage_b_status,
  stage_b_outcome, step_of, selectable_entries, base_settlements, related_settlements, refunds_of,
  entry_of, entries_of, payment_step, run_payments, captured_payments, reconcile_stage_b,
}
use roborecon.Engine.StageB.Run.Steps.{
  Selected, Member-selectable, select_entry-cases, run_payments-cons,
}

clean_status :
    (c : ScoredCandidate) (cs : List Contradiction) (r : Option ScoredCandidate)
    → is_empty cs ≡ true
    → c.duplicate ≡ false
    → not (is_ambiguous (stage_b_status c cs r)) ≡ true
    → stage_b_status c cs r ≡ ResultStatus.matched
unfolding stage_b_status is_ambiguous has any
clean_status c [] r h d a = ground arith
clean_status c (x ∷ xs) r h d a = absurd (false≢true h)

resolved :
    (c : ScoredCandidate) (r : Option ScoredCandidate)
    → can_auto_resolve c r ≡ true
    → (is_empty c.contradictions ≡ true) × (c.duplicate ≡ false)
unfolding can_auto_resolve
resolved c r h = ground arith

both : (a b : Bool) → (a && b) ≡ true → (a ≡ true) × (b ≡ true)
both a b h = ground arith

-- A step that keeps the selected candidate's own contradictions is a match if it is autonomous.
step-matched :
    (cs : List ScoredCandidate) (c : ScoredCandidate) (r : Option ScoredCandidate) (k : Entry)
    → k.candidate ≡ c
    → (step_of (stage_b_outcome cs c r k) k).0.autonomous ≡ true
    → (step_of (stage_b_outcome cs c r k) k).0.status ≡ ResultStatus.matched
unfolding step_of stage_b_outcome
step-matched cs c r k same h =
    let parts = both (not (is_ambiguous (stage_b_status c (k.candidate).contradictions r))) _ h in
    let clean = resolved c r parts.1 in
    clean_status c (k.candidate).contradictions r
      (ap (λ (d : ScoredCandidate). is_empty d.contradictions) same ∙ clean.0) clean.1 parts.0

filter-DistinctKeys :
    (p : Settlement → Bool) (ss : List Settlement)
    → DistinctKeys id_eq (λ t. Settlement.id t) ss
    → DistinctKeys id_eq (λ t. Settlement.id t) (filter p ss)
unfolding filter
filter-DistinctKeys p [] d = tt
filter-DistinctKeys p (s ∷ ss) d = elim (Bool-cases (p s)) [
  | inl t ↦ rw t (
    All-filter (λ w. id_eq s.id (Settlement.id w) ≡ false) p ss d.0,
    filter-DistinctKeys p ss d.1,
  )
  | inr f ↦ rw f (filter-DistinctKeys p ss d.1)
]

module _ (tables : CharTables) (settlements : List Settlement) (by_settlement : LinesBySettlement)
    (facts : FactsById) (refunds_by_payment : List (Text × List RazorpayRefund))
    (credits : List BankCredit) where
  entry_of-id :
      (p : RazorpayPayment) (reserved_ids : List Resource) (b : Settlement) (rs : List Related)
      → entry_id (
          entry_of tables settlements by_settlement facts refunds_by_payment credits p reserved_ids
            b rs)
        ≡ b.id
  unfolding entry_of mark_batch_collision stage_b_candidate
  entry_of-id p reserved_ids b rs =
      let refunds =
        refunds_of tables settlements by_settlement facts refunds_by_payment credits p in
      let c = stage_b_candidate tables p b rs by_settlement refunds credits in
      (mark-same c (
        batch_collision_ids c reserved_ids (
          stage_b_resource_ids tables p
            (related_settlements tables settlements by_settlement facts refunds_by_payment credits
              b)
            by_settlement refunds))).0

  entries_of-All :
      (P : ℕ → Type 0) (p : RazorpayPayment) (reserved_ids : List Resource)
      (bases : List Settlement) (es : List Entry)
      → entries_of tables settlements by_settlement facts refunds_by_payment credits p reserved_ids
          bases
        ≡ some es
      → All (λ b. P (Settlement.id b)) bases
      → All (λ e. P (entry_id e)) es
  unfolding entries_of
  entries_of-All P p reserved_ids [] es h k =
      subst (All (λ e. P (entry_id e))) (some-injective _ _ h) tt
  entries_of-All P p reserved_ids (b ∷ bs) es h k =
      let (related, looked_up, next) =
        >>=-eq_some
          (with_facts facts (
            related_settlements tables settlements by_settlement facts refunds_by_payment credits
              b))
          _ h in
      let (rest, more, last) =
        >>=-eq_some
          (entries_of tables settlements by_settlement facts refunds_by_payment credits p
            reserved_ids bs)
          _ next in
      subst (All (λ e. P (entry_id e))) (some-injective _ _ last) (
        subst P (sym (entry_of-id p reserved_ids b related)) k.0,
        entries_of-All P p reserved_ids bs rest more k.1,
      )

  entries_of-DistinctKeys :
      (p : RazorpayPayment) (reserved_ids : List Resource) (bases : List Settlement)
      (es : List Entry)
      → entries_of tables settlements by_settlement facts refunds_by_payment credits p reserved_ids
          bases
        ≡ some es
      → DistinctKeys id_eq (λ t. Settlement.id t) bases
      → DistinctKeys id_eq entry_id es
  unfolding entries_of
  entries_of-DistinctKeys p reserved_ids [] es h d =
      subst (DistinctKeys id_eq entry_id) (some-injective _ _ h) tt
  entries_of-DistinctKeys p reserved_ids (b ∷ bs) es h d =
      let (related, looked_up, next) =
        >>=-eq_some
          (with_facts facts (
            related_settlements tables settlements by_settlement facts refunds_by_payment credits
              b))
          _ h in
      let (rest, more, last) =
        >>=-eq_some
          (entries_of tables settlements by_settlement facts refunds_by_payment credits p
            reserved_ids bs)
          _ next in
      subst (DistinctKeys id_eq entry_id) (some-injective _ _ last) (
        subst (λ n. All (λ e. id_eq n (entry_id e) ≡ false) rest)
            (sym (entry_of-id p reserved_ids b related))
            (entries_of-All (λ m. id_eq b.id m ≡ false) p reserved_ids bs rest more d.0),
        entries_of-DistinctKeys p reserved_ids bs rest more d.1,
      )

  -- The entry that is kept under the id of the selected candidate is the candidate's own.
  kept-own :
      (es : List Entry) (step : Step) (s : Selected es step)
      → DistinctKeys id_eq entry_id es
      → (s.kept).candidate ≡ s.selected
  kept-own es step s d =
      let own = lookup-index id_eq ==→≡ ==_refl entry_id s.entry es d s.in_entries in
      let at_selected =
        ap (λ (c : ScoredCandidate). lookup id_eq c.candidate_id (index id_eq entry_id es))
          s.same in
      let same : s.kept ≡ s.entry = some-injective _ _ (sym s.found ∙ at_selected ∙ own) in
      ap (λ (e : Entry). e.candidate) same ∙ sym s.same

  payment_step-matched :
      (p : RazorpayPayment) (reserved_ids : List Resource) (step : Step)
      → DistinctKeys id_eq (λ t. Settlement.id t) settlements
      → payment_step tables settlements by_settlement facts refunds_by_payment credits p
          reserved_ids
        ≡ some step
      → step.0.autonomous ≡ true
      → step.0.status ≡ ResultStatus.matched
  unfolding payment_step base_settlements missing_settlement_outcome
  payment_step-matched p reserved_ids step d h e =
      let bases =
        base_settlements tables settlements by_settlement facts refunds_by_payment credits p in
      let (es, made, next) =
        >>=-eq_some
          (entries_of tables settlements by_settlement facts refunds_by_payment credits p
            reserved_ids bases)
          _ h in
      elim (select_entry-cases p es (sort before (selectable_entries es)) step
        (λ c m. Member-selectable c es (Member-sort before c _ m)) next) [
          | inl missing ↦ absurd (false≢true (sym (ap (λ (s : Step). s.0.autonomous) missing) ∙ e))
          | inr s ↦
              let keys =
                entries_of-DistinctKeys p reserved_ids bases es made
                  (filter-DistinctKeys _ settlements d) in
              rw s.is_step (
                step-matched (sort before (candidates_of es)) s.selected s.runner_up s.kept
                  (kept-own es step s keys) (rw s.is_step at e))
        ]

  run-matched :
      (ps : List RazorpayPayment) (reserved_ids : List Resource) (os : List EngineOutcome)
      → DistinctKeys id_eq (λ t. Settlement.id t) settlements
      → run_payments tables settlements by_settlement facts refunds_by_payment credits ps
          reserved_ids
        ≡ some os
      → All (λ o. EngineOutcome.autonomous o ≡ true → o.status ≡ ResultStatus.matched) os
  unfolding run_payments
  run-matched [] reserved_ids os d h =
      subst (All (λ o. EngineOutcome.autonomous o ≡ true → o.status ≡ ResultStatus.matched))
        (some-injective _ _ h) tt
  run-matched (p ∷ ps) reserved_ids os d h =
      let (step, rest, stepped, more, same) =
        run_payments-cons tables settlements by_settlement facts refunds_by_payment credits p ps
          reserved_ids os h in
      rw same (
        payment_step-matched p reserved_ids step d stepped,
        run-matched ps (reserved_ids ++ step.1) rest d more,
      )

-- If stage B returns outcomes, and settlement ids are distinct, then every autonomous outcome has
-- the status `matched`.
pub reconcile_stage_b-matched :
    (tables : CharTables) (payments : List RazorpayPayment) (refunds : List RazorpayRefund)
    (settlements : List Settlement) (lines : List SettlementLine) (credits : List BankCredit)
    (i : ℕ) {o : EngineOutcome} {os : List EngineOutcome}
    → DistinctKeys id_eq (λ t. Settlement.id t) settlements
    → reconcile_stage_b tables payments refunds settlements lines credits ≡ some os
    → get_elem? os i ≡ some o
    → o.autonomous ≡ true
    → o.status ≡ ResultStatus.matched
unfolding reconcile_stage_b
reconcile_stage_b-matched tables payments refunds settlements lines credits i {o} {os} d h x e =
    All-get (λ u. EngineOutcome.autonomous u ≡ true → u.status ≡ ResultStatus.matched) os i
      (run-matched tables settlements _ _ _ credits (captured_payments payments) [] os d h) x e
