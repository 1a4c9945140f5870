-- ===== src/Engine/StageB/Run/Total.antt =====
-- Stage B raises no `KeyError`, and returns one outcome for each captured payment.
use roborecon.Prelude.{
  suc, Text, ◌≡◌, refl, ap, ◌∙◌, inl, inr, Option, some, List, [], ◌∷◌, ◌++◌, map, length, Member,
  Member-filter, Member-map, map-Member, ◌>>=◌, ==→≡, ==_refl,
}
use roborecon.Prelude.Order.{sort, Member-sort}
use roborecon.Engine.StageB.Run.Inside.{release-Member}
use roborecon.Prelude.Dict.{lookup, index, lookup-index-Member}
use roborecon.Records.{RazorpayPayment, RazorpayRefund, Settlement, SettlementLine, BankCredit}
use roborecon.Engine.Model.{ScoredCandidate, EngineOutcome, Resource}
use roborecon.Engine.Reference.{CharTables}
use roborecon.Engine.Candidates.{before}
use roborecon.Engine.StageA.Outcome.{head_of}
use roborecon.Engine.StageB.Facts.{SettlementFacts, settlement_facts}
use roborecon.Engine.StageB.Release.{
  id_eq, LinesBySettlement, lines_by_settlement, lines_of, release_settlements,
}
use roborecon.Engine.StageB.Checks.{Related, with_facts}
use roborecon.Engine.StageB.Run.{
  Entry, entry_id, candidates_of, FactsById, Step, missing_settlement_outcome, stage_b_outcome,
  step_of, select_entry, selectable_entries, base_settlements, entry_of, entries_of, payment_step,
  run_payments, captured_payments, facts_by_id, reconcile_stage_b,
}
use roborecon.Engine.StageB.Run.Steps.{Member-selectable}

module _ (tables : CharTables) (settlements : List Settlement) (by_settlement : LinesBySettlement)
    (facts : FactsById) (refunds_by_payment : List (Text × List RazorpayRefund))
    (credits : List BankCredit)
    (known : (s : Settlement)
      → Member s settlements
      → (f : SettlementFacts) × (lookup id_eq s.id facts ≡ some f)) where
  with_facts-total :
      (ss : List Settlement)
      → ((s : Settlement) → Member s ss → Member s settlements)
      → (rs : List Related) × (with_facts facts ss ≡ some rs)
  unfolding with_facts
  with_facts-total [] inside = ([], refl)
  with_facts-total (s ∷ ss) inside =
      let (f, found) = known s (inside s (inl refl)) in
      let (rs, more) = with_facts-total ss (λ t m. inside t (inr m)) in
      ((s, f) ∷ rs, rw (found, more) refl)

  entries_of-total :
      (p : RazorpayPayment) (reserved_ids : List Resource) (bases : List Settlement)
      → ((s : Settlement) → Member s bases → Member s settlements)
      → (es : List Entry) × (entries_of tables settlements by_settlement facts refunds_by_payment
            credits p reserved_ids bases
          ≡ some es)
  unfolding entries_of
  entries_of-total p reserved_ids [] inside = ([], refl)
  entries_of-total p reserved_ids (b ∷ bs) inside =
      let (rs, looked_up) =
        with_facts-total (b ∷ release_settlements tables b settlements by_settlement)
          (related_inside b (inside b (inl refl))) in
      let (es, more) = entries_of-total p reserved_ids bs (λ t m. inside t (inr m)) in
      (
        entry_of tables settlements by_settlement facts refunds_by_payment credits p reserved_ids b
              rs
            ∷ es,
        rw (looked_up, more) refl,
      )
    where
      related_inside :
          (c : Settlement)
          → Member c settlements
          → (s : Settlement) → Member s (c ∷ release_settlements tables c settlements by_settlement)
          → Member s settlements
      related_inside c m s (inl e) = rw e m
      related_inside c m s (inr n) = release-Member tables c settlements by_settlement s n

  select_entry-total :
      (p : RazorpayPayment) (es : List Entry) (cs : List ScoredCandidate)
      → ((c : ScoredCandidate) → Member c cs → Member c (candidates_of es))
      → (step : Step) × (select_entry p es cs ≡ some step)
  unfolding select_entry
  select_entry-total p es [] inside = ((missing_settlement_outcome p, []), refl)
  select_entry-total p es (c ∷ cs) inside =
      let (e, m, same) = Member-map (λ e. Entry.candidate e) c es (inside c (inl refl)) in
      let (kept, found) = lookup-index-Member id_eq ==→≡ ==_refl entry_id e es m in
      let found_selected : lookup id_eq c.candidate_id (index id_eq entry_id es) ≡ some kept =
        ap (λ (d : ScoredCandidate). lookup id_eq d.candidate_id (index id_eq entry_id es)) same
        ∙ found in
      (step_with kept, ap (λ (o : Option Entry). o >>= (λ k. some (step_with k))) found_selected)
    where
      step_with : Entry → Step
      step_with k = step_of (stage_b_outcome (sort before (candidates_of es)) c (head_of cs) k) k

  payment_step-total :
      (p : RazorpayPayment) (reserved_ids : List Resource)
      → (step : Step) × (payment_step tables settlements by_settlement facts refunds_by_payment
            credits p reserved_ids
          ≡ some step)
  unfolding payment_step base_settlements
  payment_step-total p reserved_ids =
      let (es, made) =
        entries_of-total p reserved_ids
          (base_settlements tables settlements by_settlement facts refunds_by_payment credits p)
          (λ s m. (Member-filter _ s settlements m).0) in
      let (step, selected) =
        select_entry-total p es (sort before (selectable_entries es))
          (λ c m. Member-selectable c es (Member-sort before c _ m)) in
      (step, rw made selected)

  run_payments-total :
      (ps : List RazorpayPayment) (reserved_ids : List Resource)
      → (os : List EngineOutcome) × (run_payments tables settlements by_settlement facts
            refunds_by_payment credits ps reserved_ids
          ≡ some os)
        × (length os ≡ length ps)
  unfolding run_payments
  run_payments-total [] reserved_ids = ([], refl, refl)
  run_payments-total (p ∷ ps) reserved_ids =
      let (step, stepped) = payment_step-total p reserved_ids in
      let (os, more, count) = run_payments-total ps (reserved_ids ++ step.1) in
      (step.0 ∷ os, rw (stepped, more) refl, ap suc count)

facts_known :
    (settlements : List Settlement) (by_settlement : LinesBySettlement) (s : Settlement)
    → Member s settlements
    → (f : SettlementFacts) × (lookup id_eq s.id (facts_by_id settlements by_settlement) ≡ some f)
unfolding facts_by_id settlement_facts
facts_known settlements by_settlement s m =
    lookup-index-Member id_eq ==→≡ ==_refl (λ f. (SettlementFacts.settlement f).id)
      (settlement_facts s (lines_of by_settlement s))
      (map (λ t. settlement_facts t (lines_of by_settlement t)) settlements)
      (map-Member (λ t. settlement_facts t (lines_of by_settlement t)) s settlements m)

-- Stage B always returns, with no key missing, and returns exactly one outcome for each captured
-- payment.
pub reconcile_stage_b-total :
    (tables : CharTables) (payments : List RazorpayPayment) (refunds : List RazorpayRefund)
    (settlements : List Settlement) (lines : List SettlementLine) (credits : List BankCredit)
    → (os : List EngineOutcome) × (reconcile_stage_b tables payments refunds settlements lines
          credits
        ≡ some os)
      × (length os ≡ length (captured_payments payments))
unfolding reconcile_stage_b
reconcile_stage_b-total tables payments refunds settlements lines credits =
    run_payments-total tables settlements _ _ _ credits
      (facts_known settlements (lines_by_settlement lines)) (captured_payments payments) []
