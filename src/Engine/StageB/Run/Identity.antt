-- ===== src/Engine/StageB/Run/Identity.antt =====
-- No payment is settled twice by stage B under one reference.
use mathlib.Core.Bool.{false≢true}
use mathlib.Core.Option.{some-injective}
use mathlib.Core.Path.{subst}
use roborecon.Prelude.{
  ℕ, zero, suc, ◌<◌, Text, true, false, ◌≡◌, refl, sym, ap, ◌∙◌, inl, inr, some, List, [], ◌∷◌,
  ◌++◌, arith, Member, All-member, get_elem?, ==→≡, ==_refl,
}
use roborecon.Prelude.Order.{sort}
use roborecon.Records.{RazorpayPayment, RazorpayRefund, Settlement, SettlementLine, BankCredit}
use roborecon.Engine.Model.{EngineOutcome, Resource}
use roborecon.Engine.Reference.{CharTables, normalize_reference}
use roborecon.Engine.Candidates.{before}
use roborecon.Engine.StageB.Release.{id_eq, LinesBySettlement}
use roborecon.Engine.StageB.Candidate.{stage_b_candidate, stage_b_resource_ids}
use roborecon.Engine.StageB.Run.{
  Entry, entry_id, candidates_of, FactsById, Step, missing_settlement_outcome, stage_b_outcome,
  step_of, base_settlements, related_settlements, refunds_of, entry_of, payment_step, run_payments,
  captured_payments, reconcile_stage_b,
}
use roborecon.Engine.StageB.Run.Steps.{IsEntry, payment_step-cases, run_payments-cons}
use roborecon.Engine.StageB.Run.Settled.{Resolves, payment_step-Resolves}
use roborecon.Prelude.{append-Member}
use roborecon.Prelude.Dict.{index-Member}
use roborecon.Engine.StageB.Candidate.Consumed.{reference_of, reference-consumed, free-Member}

module _ (tables : CharTables) (settlements : List Settlement) (by_settlement : LinesBySettlement)
    (facts : FactsById) (refunds_by_payment : List (Text × List RazorpayRefund))
    (credits : List BankCredit) where
  Resolves-unreserved :
      (p : RazorpayPayment) (reserved_ids : List Resource)
      → Resolves tables settlements by_settlement facts refunds_by_payment credits p reserved_ids
      → Member (reference_of tables p) reserved_ids
      → ⊥
  Resolves-unreserved p reserved_ids r m =
      let related =
        related_settlements tables settlements by_settlement facts refunds_by_payment credits
          r.base in
      let refunds =
        refunds_of tables settlements by_settlement facts refunds_by_payment credits p in
      free-Member (stage_b_candidate tables p r.base r.related by_settlement refunds credits)
        reserved_ids (stage_b_resource_ids tables p related by_settlement refunds)
        (reference_of tables p) r.free (reference-consumed tables p related by_settlement refunds) m

  -- An autonomous step consumes the reference of its payment.
  step-consumes :
      (p : RazorpayPayment) (reserved_ids : List Resource) (step : Step)
      → payment_step tables settlements by_settlement facts refunds_by_payment credits p
          reserved_ids
        ≡ some step
      → step.0.autonomous ≡ true
      → Member (reference_of tables p) step.1
  unfolding missing_settlement_outcome step_of entry_of
  step-consumes p reserved_ids step h e =
      elim (payment_step-cases tables settlements by_settlement facts refunds_by_payment credits p
        reserved_ids step h) [
          | inl missing ↦ absurd (false≢true (sym (rw missing (idle p)) ∙ e))
          | inr (es, known, s) ↦ rw (s.is_step) (
              kept_consumes
                (stage_b_outcome (sort before (candidates_of es)) s.selected s.runner_up s.kept)
                s.kept (rw s.is_step at e)
                (kept_names s.kept (
                  All-member
                    (IsEntry tables settlements by_settlement facts refunds_by_payment credits p
                      reserved_ids _)
                    s.kept es known
                    (index-Member id_eq ==→≡ ==_refl entry_id (s.selected).candidate_id s.kept es
                      s.found))))
        ]
    where
      idle : (q : RazorpayPayment) → (missing_settlement_outcome q).autonomous ≡ false
      idle q = refl

      kept_consumes :
          (o : EngineOutcome) (k : Entry)
          → (step_of o k).0.autonomous ≡ true
          → Member (reference_of tables p) k.resource_ids
          → Member (reference_of tables p) (step_of o k).1
      kept_consumes o k a m = rw a m

      kept_names :
          (k : Entry)
          → IsEntry tables settlements by_settlement facts refunds_by_payment credits p reserved_ids
              (base_settlements tables settlements by_settlement facts refunds_by_payment credits p)
              k
          → Member (reference_of tables p) k.resource_ids
      kept_names k i = rw i.is_entry (
          reference-consumed tables p
            (related_settlements tables settlements by_settlement facts refunds_by_payment credits
              i.base)
            by_settlement
            (refunds_of tables settlements by_settlement facts refunds_by_payment credits p))

  run-unreserved :
      (j : ℕ) (ps : List RazorpayPayment) (reserved_ids : List Resource) (os : List EngineOutcome)
      (p : RazorpayPayment) (o : EngineOutcome)
      → run_payments tables settlements by_settlement facts refunds_by_payment credits ps
          reserved_ids
        ≡ some os
      → get_elem? ps j ≡ some p
      → get_elem? os j ≡ some o
      → o.autonomous ≡ true
      → Member (reference_of tables p) reserved_ids
      → ⊥
  run-unreserved j [] reserved_ids os p o h x y e m = cc
  run-unreserved zero (q ∷ ps) reserved_ids os p o h x y e m =
      let (step, rest, stepped, more, same) =
        run_payments-cons tables settlements by_settlement facts refunds_by_payment credits q ps
          reserved_ids os h in
      let head : step.0 ≡ o = some-injective _ _ (sym (rw same refl) ∙ y) in
      Resolves-unreserved q reserved_ids
        (payment_step-Resolves tables settlements by_settlement facts refunds_by_payment credits q
          reserved_ids step stepped (rw head e))
        (rw (some-injective q p x) m)
  run-unreserved (suc j) (q ∷ ps) reserved_ids os p o h x y e m =
      let (step, rest, stepped, more, same) =
        run_payments-cons tables settlements by_settlement facts refunds_by_payment credits q ps
          reserved_ids os h in
      run-unreserved j ps (reserved_ids ++ step.1) rest p o more x (rw same at y) e
        (append-Member (reference_of tables p) reserved_ids step.1 (inl m))

  run-distinct :
      (i j : ℕ) (ps : List RazorpayPayment) (reserved_ids : List Resource) (os : List EngineOutcome)
      (p q : RazorpayPayment) (o u : EngineOutcome)
      → i < j
      → run_payments tables settlements by_settlement facts refunds_by_payment credits ps
          reserved_ids
        ≡ some os
      → get_elem? ps i ≡ some p
      → get_elem? ps j ≡ some q
      → get_elem? os i ≡ some o
      → get_elem? os j ≡ some u
      → o.autonomous ≡ true
      → u.autonomous ≡ true
      → reference_of tables p ≡ reference_of tables q
      → ⊥
  run-distinct i j [] reserved_ids os p q o u lt h x y v w e f same_ref = cc
  run-distinct i zero (r ∷ ps) reserved_ids os p q o u lt h x y v w e f same_ref =
      absurd (omega arith)
  run-distinct zero (suc j) (r ∷ ps) reserved_ids os p q o u lt h x y v w e f same_ref =
      let (step, rest, stepped, more, same) =
        run_payments-cons tables settlements by_settlement facts refunds_by_payment credits r ps
          reserved_ids os h in
      let head : step.0 ≡ o = some-injective _ _ (sym (rw same refl) ∙ v) in
      let consumed = step-consumes r reserved_ids step stepped (rw head e) in
      let first : reference_of tables r ≡ reference_of tables q =
        ap (reference_of tables) (some-injective r p x) ∙ same_ref in
      run-unreserved j ps (reserved_ids ++ step.1) rest q u more y (rw same at w) f (
        append-Member (reference_of tables q) reserved_ids step.1
          (inr (subst (λ k. Member k step.1) first consumed)))
  run-distinct (suc i) (suc j) (r ∷ ps) reserved_ids os p q o u lt h x y v w e f same_ref =
      let (step, rest, stepped, more, same) =
        run_payments-cons tables settlements by_settlement facts refunds_by_payment credits r ps
          reserved_ids os h in
      run-distinct i j ps (reserved_ids ++ step.1) rest p q o u (omega arith) more x y
        (rw same at v) (rw same at w) e f same_ref

-- If stage B returns outcomes, then the captured payments of two autonomous ones, at different
-- places, have different normalized references.
pub reconcile_stage_b-distinct_payments :
    (tables : CharTables) (payments : List RazorpayPayment) (refunds : List RazorpayRefund)
    (settlements : List Settlement) (lines : List SettlementLine) (credits : List BankCredit)
    (i j : ℕ) {p q : RazorpayPayment} {o u : EngineOutcome} {os : List EngineOutcome}
    → i < j
    → reconcile_stage_b tables payments refunds settlements lines credits ≡ some os
    → get_elem? (captured_payments payments) i ≡ some p
    → get_elem? (captured_payments payments) j ≡ some q
    → get_elem? os i ≡ some o
    → get_elem? os j ≡ some u
    → o.autonomous ≡ true
    → u.autonomous ≡ true
    → ¬ (
        normalize_reference tables p.provider_payment_id
        ≡ normalize_reference tables q.provider_payment_id)
unfolding reconcile_stage_b
reconcile_stage_b-distinct_payments tables payments refunds settlements lines credits i j {p} {q}
      {o} {u} {os} lt h x y v w e f same =
    run-distinct tables settlements _ _ _ credits i j (captured_payments payments) [] os p q o u lt
      h x y v w e f (ap (λ t. Resource.payment_reference t) same)
