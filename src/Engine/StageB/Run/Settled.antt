-- ===== src/Engine/StageB/Run/Settled.antt =====
-- What the autonomous outcomes of stage B rest on, payment by payment.
use mathlib.Core.Bool.{false≢true}
use roborecon.Prelude.{
  Text, true, false, ◌≡◌, refl, sym, ◌∙◌, inl, inr, Option, some, List, [], arith, is_empty, Member,
  All-member,
}
use roborecon.Records.{RazorpayPayment, RazorpayRefund, Settlement, BankCredit}
use roborecon.Engine.Model.{ScoredCandidate, EngineOutcome, Resource}
use roborecon.Engine.Policy.{can_auto_resolve, auto_clean}
use roborecon.Engine.Reference.{CharTables}
use roborecon.Engine.Candidates.{batch_collision_ids, mark, mark_batch_collision}
use roborecon.Engine.Candidates.Marks.{mark-clean, mark-empty}
use roborecon.Engine.StageB.Release.{LinesBySettlement}
use roborecon.Engine.StageB.Checks.{Related, with_facts}
use roborecon.Engine.StageB.Candidate.{stage_b_candidate, stage_b_resource_ids}
use roborecon.Engine.StageB.Candidate.Policy.{Backed, stage_b_candidate-Backed}
use roborecon.Engine.StageB.Run.{
  Entry, FactsById, Step, missing_settlement_outcome, stage_b_outcome, step_of, base_settlements,
  related_settlements, refunds_of, entry_of, payment_step,
}
use roborecon.Engine.StageB.Run.Steps.{IsEntry, payment_step-cases}

auto_of_step :
    (cs : List ScoredCandidate) (c : ScoredCandidate) (r : Option ScoredCandidate) (k : Entry)
    → (step_of (stage_b_outcome cs c r k) k).0.autonomous ≡ true
    → can_auto_resolve c r ≡ true
unfolding step_of stage_b_outcome
auto_of_step cs c r k h = ground arith

module _ (tables : CharTables) (settlements : List Settlement) (by_settlement : LinesBySettlement)
    (facts : FactsById) (refunds_by_payment : List (Text × List RazorpayRefund))
    (credits : List BankCredit) where
  -- An entry whose candidate resolves: the payment is backed by its base settlement and the
  -- releases, and none of its resources was consumed before.
  pub record Resolves (p : RazorpayPayment) (reserved_ids : List Resource) : Type 0 where
    pub base : Settlement
    pub in_bases :
        Member base
          (base_settlements tables settlements by_settlement facts refunds_by_payment credits p)
    pub related : List Related
    pub looked_up :
        with_facts facts (
          related_settlements tables settlements by_settlement facts refunds_by_payment credits
            base)
        ≡ some related
    pub backed :
        Backed tables p base related by_settlement
          (refunds_of tables settlements by_settlement facts refunds_by_payment credits p)
          credits
    pub free :
        is_empty (
          batch_collision_ids
            (stage_b_candidate tables p base related by_settlement
              (refunds_of tables settlements by_settlement facts refunds_by_payment credits p)
              credits)
            reserved_ids
            (stage_b_resource_ids tables p
              (related_settlements tables settlements by_settlement facts refunds_by_payment credits
                base)
              by_settlement
              (refunds_of tables settlements by_settlement facts refunds_by_payment credits p)))
        ≡ true

  entry-Resolves :
      (p : RazorpayPayment) (reserved_ids : List Resource) (e : Entry) (r : Option ScoredCandidate)
      → IsEntry tables settlements by_settlement facts refunds_by_payment credits p reserved_ids
          (base_settlements tables settlements by_settlement facts refunds_by_payment credits p)
          e
      → can_auto_resolve e.candidate r ≡ true
      → Resolves p reserved_ids
  unfolding entry_of mark_batch_collision
  entry-Resolves p reserved_ids e r k h =
      let refunds =
        refunds_of tables settlements by_settlement facts refunds_by_payment credits p in
      let c = stage_b_candidate tables p k.base k.related by_settlement refunds credits in
      let ids = batch_collision_ids c reserved_ids (
        stage_b_resource_ids tables p
          (related_settlements tables settlements by_settlement facts refunds_by_payment credits
            k.base)
          by_settlement refunds) in
      let auto : can_auto_resolve (mark c ids) r ≡ true = rw k.is_entry at h in
      let clean = auto_clean (mark c ids) r auto in
      record {
        base = k.base;
        in_bases = k.in_bases;
        related = k.related;
        looked_up = k.looked_up;
        backed =
            stage_b_candidate-Backed tables p k.base k.related by_settlement refunds credits r
              (rw (mark-clean c ids clean) at auto);
        free = (mark-empty c ids clean).1;
      }

  -- An autonomous step resolves its payment.
  pub payment_step-Resolves :
      (p : RazorpayPayment) (reserved_ids : List Resource) (step : Step)
      → payment_step tables settlements by_settlement facts refunds_by_payment credits p
          reserved_ids
        ≡ some step
      → (step.0).autonomous ≡ true
      → Resolves p reserved_ids
  payment_step-Resolves p reserved_ids step h e =
      elim (payment_step-cases tables settlements by_settlement facts refunds_by_payment credits p
        reserved_ids step h) [
          | inl missing ↦ absurd (
              missing_not (missing_settlement_outcome p) missing
                (unfold missing_settlement_outcome in refl))
          | inr (es, known, s) ↦
              entry-Resolves p reserved_ids s.entry s.runner_up
                (All-member
                  (IsEntry tables settlements by_settlement facts refunds_by_payment credits p
                    reserved_ids _)
                  s.entry es known s.in_entries)
                (rw s.same at (auto_of_step _ s.selected s.runner_up s.kept (rw s.is_step at e)))
        ]
    where
      missing_not : (o : EngineOutcome) → step ≡ (o, []) → o.autonomous ≡ false → ⊥
      missing_not o q f = false≢true (sym f ∙ (rw q at e))
