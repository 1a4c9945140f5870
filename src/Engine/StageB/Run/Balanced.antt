-- ===== src/Engine/StageB/Run/Balanced.antt =====
-- An autonomous outcome of stage B: the money is in the bank, and each settlement balances.
use mathlib.Core.Option.{some-injective}
use mathlib.Core.Path.{subst}
use roborecon.Prelude.{
  ℕ, Text, text_eq, true, false, ◌≡◌, refl, sym, ap, ◌∙◌, inl, inr, some, List, [], ◌∷◌, ◌++◌, map,
  is_empty, filter, any, Member, All, all-All, All-imp, Member-filter, map-Member, get_elem?,
  >>=-eq_some, ==→≡, ==_refl,
}
use roborecon.Prelude.Along.{Along, Along-get}
use roborecon.Prelude.Dict.{lookup, get, group, get-group, DistinctKeys, lookup-index}
use roborecon.Enums.{SettlementLineType}
use roborecon.Records.{RazorpayPayment, RazorpayRefund, Settlement, SettlementLine, BankCredit}
use roborecon.Engine.Model.{EngineOutcome, Resource}
use roborecon.Engine.Reference.{CharTables}
use roborecon.Engine.StageB.Facts.{SettlementFacts, settlement_facts}
use roborecon.Engine.StageB.Facts.Balance.{Balances, settlement_facts-Balances}
use roborecon.Engine.StageB.Release.{
  id_eq, LinesBySettlement, lines_by_settlement, lines_of, release_settlements,
}
use roborecon.Engine.StageB.Checks.{Related, settlements_of, with_facts, is_line_of}
use roborecon.Engine.StageB.Candidate.Policy.{Backed}
use roborecon.Engine.StageB.Run.{
  FactsById, base_settlements, related_settlements, refunds_of, run_payments, captured_payments,
  facts_by_id, reconcile_stage_b,
}
use roborecon.Engine.StageB.Run.Steps.{run_payments-cons}
use roborecon.Engine.StageB.Run.Inside.{release-Member}
use roborecon.Engine.StageB.Run.Settled.{Resolves, payment_step-Resolves}

with_facts-inv :
    (d : FactsById) (ss : List Settlement) (rs : List Related)
    → with_facts d ss ≡ some rs
    → (settlements_of rs ≡ ss) × All (λ r. lookup id_eq (r.0).id d ≡ some r.1) rs
unfolding with_facts
with_facts-inv d [] rs h =
    subst (λ q. (settlements_of q ≡ []) × All (λ r. lookup id_eq (r.0).id d ≡ some r.1) q)
      (some-injective _ _ h) (refl, tt)
with_facts-inv d (s ∷ ss) rs h =
    let (f, found, next) = >>=-eq_some (lookup id_eq s.id d) _ h in
    let (rest, more, last) = >>=-eq_some (with_facts d ss) _ next in
    let tail = with_facts-inv d ss rest more in
    subst (λ q. (settlements_of q ≡ s ∷ ss) × All (λ r. lookup id_eq (r.0).id d ≡ some r.1) q)
      (some-injective _ _ last) (ap (λ t. s ∷ t) tail.0, (found, tail.1))

module _ (settlements : List Settlement) (by_settlement : LinesBySettlement) where
  abbrev facts_of : Settlement → SettlementFacts
  facts_of s = settlement_facts s (lines_of by_settlement s)

  All-facts :
      (s : Settlement) (ss : List Settlement)
      → All (λ t. id_eq s.id (Settlement.id t) ≡ false) ss
      → All
          (λ f.
            id_eq (SettlementFacts.settlement (facts_of s)).id (SettlementFacts.settlement f).id
            ≡ false)
          (map facts_of ss)
  unfolding settlement_facts
  All-facts s [] h = tt
  All-facts s (t ∷ ts) h = (h.0, All-facts s ts h.1)

  DistinctKeys-facts :
      (ss : List Settlement)
      → DistinctKeys id_eq (λ s. Settlement.id s) ss
      → DistinctKeys id_eq (λ f. (SettlementFacts.settlement f).id) (map facts_of ss)
  DistinctKeys-facts [] h = tt
  DistinctKeys-facts (s ∷ ss) h = (All-facts s ss h.0, DistinctKeys-facts ss h.1)

  -- With distinct settlement ids the dict holds the facts of each settlement under its id.
  facts_by_id-lookup :
      (s : Settlement)
      → DistinctKeys id_eq (λ t. Settlement.id t) settlements
      → Member s settlements
      → lookup id_eq s.id (facts_by_id settlements by_settlement) ≡ some (facts_of s)
  unfolding facts_by_id settlement_facts
  facts_by_id-lookup s d m =
      lookup-index id_eq ==→≡ ==_refl (λ f. (SettlementFacts.settlement f).id) (facts_of s)
        (map facts_of settlements) (DistinctKeys-facts settlements d)
        (map-Member facts_of s settlements m)

  balanced_facts :
      (ss : List Settlement) (rs : List Related)
      → DistinctKeys id_eq (λ t. Settlement.id t) settlements
      → ((s : Settlement) → Member s ss → Member s settlements)
      → settlements_of rs ≡ ss
      → All (λ r. lookup id_eq (r.0).id (facts_by_id settlements by_settlement) ≡ some r.1) rs
      → All (λ r. is_empty (SettlementFacts.contradictions r.1) ≡ true) rs
      → All (λ s. Balances s (lines_of by_settlement s)) ss
  balanced_facts ss rs d inside e found clean =
      subst (All (λ s. Balances s (lines_of by_settlement s))) e
        (balanced rs (λ s m. inside s (rw e at m)) found clean)
    where
      balances_of :
          (s : Settlement) (f : SettlementFacts)
          → Member s settlements
          → lookup id_eq s.id (facts_by_id settlements by_settlement) ≡ some f
          → is_empty f.contradictions ≡ true
          → Balances s (lines_of by_settlement s)
      balances_of s f m found clean =
          settlement_facts-Balances s (lines_of by_settlement s)
            (rw (some-injective _ _ (sym (facts_by_id-lookup s d m) ∙ found)) clean)

      balanced :
          (qs : List Related)
          → ((s : Settlement) → Member s (settlements_of qs) → Member s settlements)
          → All (λ r. lookup id_eq (r.0).id (facts_by_id settlements by_settlement) ≡ some r.1) qs
          → All (λ r. is_empty (SettlementFacts.contradictions r.1) ≡ true) qs
          → All (λ s. Balances s (lines_of by_settlement s)) (settlements_of qs)
      balanced [] inside found clean = tt
      balanced (q ∷ qs) inside found clean = (
        balances_of q.0 q.1 (inside q.0 (inl refl)) found.0 clean.0,
        balanced qs (λ s m. inside s (inr m)) found.1 clean.1,
      )

pub lines_of-filter :
    (lines : List SettlementLine) (s : Settlement)
    → lines_of (lines_by_settlement lines) s
      ≡ filter (λ l. id_eq s.id (SettlementLine.settlement_id l)) lines
unfolding lines_of lines_by_settlement
lines_of-filter lines s =
    get-group id_eq ==→≡ ==_refl (λ l. SettlementLine.settlement_id l) s.id lines

-- The lines of a settlement in the batch.
abbrev pub own_lines : List SettlementLine → Settlement → List SettlementLine
own_lines lines s = filter (λ l. id_eq s.id (SettlementLine.settlement_id l)) lines

module _ (tables : CharTables) (payments : List RazorpayPayment) (refunds : List RazorpayRefund)
    (settlements : List Settlement) (lines : List SettlementLine) (credits : List BankCredit) where
  abbrev by_settlement : LinesBySettlement
  by_settlement = lines_by_settlement lines

  abbrev facts : FactsById
  facts = facts_by_id settlements by_settlement

  abbrev refunds_by_payment : List (Text × List RazorpayRefund)
  refunds_by_payment = group text_eq (λ r. RazorpayRefund.provider_payment_id r) refunds

  -- How a payment is settled: a settlement of the batch holds a line of it. With the settlements
  -- that release what was held there it backs the payment, and each of these balances over its own
  -- lines.
  pub record Settled (p : RazorpayPayment) : Type 0 where
    pub base : Settlement
    pub in_batch : Member base settlements
    pub linked : any (is_line_of tables SettlementLineType.payment p) (own_lines lines base) ≡ true
    pub related : List Related
    pub are_related :
        settlements_of related ≡ base ∷ release_settlements tables base settlements by_settlement
    pub backed :
        Backed tables p base related by_settlement
          (get text_eq p.provider_payment_id refunds_by_payment)
          credits
    pub balances : All (λ s. Balances s (own_lines lines s)) (settlements_of related)

  resolved-Settled :
      (p : RazorpayPayment) (reserved_ids : List Resource)
      → DistinctKeys id_eq (λ t. Settlement.id t) settlements
      → Resolves tables settlements by_settlement facts refunds_by_payment credits p reserved_ids
      → Settled p
  unfolding refunds_of base_settlements
  resolved-Settled p reserved_ids d r =
      let base_found =
        Member-filter
          (λ s. any (is_line_of tables SettlementLineType.payment p) (lines_of by_settlement s))
          r.base settlements r.in_bases in
      let inv = with_facts-inv facts _ r.related r.looked_up in
      record {
        base = r.base;
        in_batch = base_found.0;
        linked = rw (lines_of-filter lines r.base) at base_found.1;
        related = r.related;
        are_related = inv.0;
        backed = r.backed;
        balances = rw inv.0 (
            All-imp {P = λ s. Balances s (lines_of by_settlement s)}
              (λ s b. rw (lines_of-filter lines s) at b)
              (related_settlements tables settlements by_settlement facts refunds_by_payment credits
                r.base)
              (balanced_facts settlements by_settlement _ r.related d (inside r.base base_found.0)
                inv.0 inv.1 r.backed.facts));
      }
    where
      inside :
          (b : Settlement)
          → Member b settlements
          → (s : Settlement) → Member s (b ∷ release_settlements tables b settlements by_settlement)
          → Member s settlements
      inside b m s (inl e) = rw e m
      inside b m s (inr n) = release-Member tables b settlements by_settlement s n

  run-Resolves :
      (ps : List RazorpayPayment) (reserved_ids : List Resource) (os : List EngineOutcome)
      → run_payments tables settlements by_settlement facts refunds_by_payment credits ps
          reserved_ids
        ≡ some os
      → Along
          (λ p o.
            o.autonomous ≡ true
            → (rs : List Resource) × Resolves tables settlements by_settlement facts
                refunds_by_payment credits p rs)
          (λ o. Unit)
          ps
          os
  run-Resolves [] reserved_ids os h = all-All (λ o. Unit) os (λ o m. tt)
  run-Resolves (p ∷ ps) reserved_ids os h =
      let (step, rest, stepped, more, same) =
        run_payments-cons tables settlements by_settlement facts refunds_by_payment credits p ps
          reserved_ids os h in
      rw same (
        λ e. (
          reserved_ids,
          payment_step-Resolves tables settlements by_settlement facts refunds_by_payment credits p
              reserved_ids step stepped e,
        ),
        run-Resolves ps (reserved_ids ++ step.1) rest more,
      )

  -- If stage B returns outcomes, and settlement ids are distinct, then an autonomous outcome at the
  -- place of a captured payment shows that this payment is settled.
  pub reconcile_stage_b-Settled :
      (i : ℕ) {p : RazorpayPayment} {o : EngineOutcome} {os : List EngineOutcome}
      → DistinctKeys id_eq (λ t. Settlement.id t) settlements
      → reconcile_stage_b tables payments refunds settlements lines credits ≡ some os
      → get_elem? (captured_payments payments) i ≡ some p
      → get_elem? os i ≡ some o
      → o.autonomous ≡ true
      → Settled p
  unfolding reconcile_stage_b
  reconcile_stage_b-Settled i {p} {o} {os} d h x y e =
      let (rs, r) =
        Along-get _ _ (captured_payments payments) os i
          (run-Resolves (captured_payments payments) [] os h) x y e in
      resolved-Settled p rs d r
