-- ===== src/Engine/StageB/Run/Steps.antt =====
-- The loops of stage B taken apart: what the entries of a payment are, and what a step selects.
use mathlib.Core.Option.{some-injective}
use mathlib.Core.Path.{subst}
use roborecon.Prelude.{
  Text, not, ◌≡◌, refl, sym, ◌⊎◌, inl, inr, Option, some, List, [], ◌∷◌, ◌++◌, Member, All,
  Member-filter, Member-map, >>=-eq_some,
}
use roborecon.Prelude.Order.{sort, Member-sort}
use roborecon.Prelude.Dict.{lookup, index}
use roborecon.Records.{RazorpayPayment, RazorpayRefund, Settlement, BankCredit}
use roborecon.Engine.Model.{ScoredCandidate, EngineOutcome, Resource}
use roborecon.Engine.Reference.{CharTables}
use roborecon.Engine.Candidates.{before}
use roborecon.Engine.StageA.Outcome.{or_else, contains_id, head_of}
use roborecon.Engine.StageB.Release.{id_eq, LinesBySettlement}
use roborecon.Engine.StageB.Checks.{Related, with_facts}
use roborecon.Engine.StageB.Run.{
  Entry, entry_id, candidates_of, FactsById, Step, missing_settlement_outcome, stage_b_outcome,
  step_of, select_entry, collision_ids, selectable_entries, base_settlements, related_settlements,
  entry_of, entries_of, payment_step, run_payments,
}

Member-or_else :
    (c : ScoredCandidate) (xs ys : List ScoredCandidate)
    → ((d : ScoredCandidate) → Member d xs → Member d ys)
    → Member c (or_else xs ys)
    → Member c ys
Member-or_else c [] ys f m = m
Member-or_else c (x ∷ xs) ys f m = f c m

pub Member-selectable :
    (c : ScoredCandidate) (es : List Entry)
    → Member c (selectable_entries es)
    → Member c (candidates_of es)
unfolding selectable_entries
Member-selectable c es = Member-or_else c _ (candidates_of es) (λ d m.
    (Member-filter (λ x. not (contains_id (collision_ids es) (ScoredCandidate.candidate_id x))) d
      (candidates_of es) m).0)

-- What a step has selected: a candidate of an entry, first in the order, and the entry that was
-- kept under its id.
pub record Selected (es : List Entry) (step : Step) : Type 0 where
  pub entry : Entry
  pub in_entries : Member entry es
  pub selected : ScoredCandidate
  pub same : selected ≡ entry.candidate
  pub runner_up : Option ScoredCandidate
  pub kept : Entry
  pub found : lookup id_eq selected.candidate_id (index id_eq entry_id es) ≡ some kept
  pub is_step :
      step ≡ step_of (stage_b_outcome (sort before (candidates_of es)) selected runner_up kept) kept

pub select_entry-cases :
    (p : RazorpayPayment) (es : List Entry) (cs : List ScoredCandidate) (step : Step)
    → ((c : ScoredCandidate) → Member c cs → Member c (candidates_of es))
    → select_entry p es cs ≡ some step
    → (step ≡ (missing_settlement_outcome p, [])) ⊎ Selected es step
unfolding select_entry
select_entry-cases p es [] step f h = inl (sym (some-injective _ _ h))
select_entry-cases p es (c ∷ cs) step f h =
    let (e, m, same) = Member-map (λ e. Entry.candidate e) c es (f c (inl refl)) in
    let (kept, found, last) =
      >>=-eq_some (lookup id_eq c.candidate_id (index id_eq entry_id es)) _ h in
    inr (record {
      entry = e;
      in_entries = m;
      selected = c;
      same = same;
      runner_up = head_of cs;
      kept = kept;
      found = found;
      is_step = sym (some-injective _ _ last);
    })

module _ (tables : CharTables) (settlements : List Settlement) (by_settlement : LinesBySettlement)
    (facts : FactsById) (refunds_by_payment : List (Text × List RazorpayRefund))
    (credits : List BankCredit) where
  -- An entry of the loop over the base settlements.
  pub record IsEntry (p : RazorpayPayment) (reserved_ids : List Resource) (bases : List Settlement)
      (e : Entry) : Type 0 where
    pub base : Settlement
    pub in_bases : Member base bases
    pub related : List Related
    pub looked_up :
        with_facts facts (
          related_settlements tables settlements by_settlement facts refunds_by_payment credits
            base)
        ≡ some related
    pub is_entry :
        e
        ≡ entry_of tables settlements by_settlement facts refunds_by_payment credits p reserved_ids
            base related

  entries_of-IsEntry :
      (p : RazorpayPayment) (reserved_ids : List Resource) (bases all_bases : List Settlement)
      (es : List Entry)
      → ((s : Settlement) → Member s bases → Member s all_bases)
      → entries_of tables settlements by_settlement facts refunds_by_payment credits p reserved_ids
          bases
        ≡ some es
      → All (IsEntry p reserved_ids all_bases) es
  unfolding entries_of
  entries_of-IsEntry p reserved_ids [] all_bases es f h =
      subst (All (IsEntry p reserved_ids all_bases)) (some-injective _ _ h) tt
  entries_of-IsEntry p reserved_ids (b ∷ bs) all_bases es f h =
      let (related, looked_up, next) =
        >>=-eq_some
          (with_facts facts (
            related_settlements tables settlements by_settlement facts refunds_by_payment credits
              b))
          _ h in
      let (rest, more, last) =
        >>=-eq_some
          (entries_of tables settlements by_settlement facts refunds_by_payment credits p
            reserved_ids bs)
          _ next in
      subst (All (IsEntry p reserved_ids all_bases)) (some-injective _ _ last) (
        record {
          base = b;
          in_bases = f b (inl refl);
          related = related;
          looked_up = looked_up;
          is_entry = refl;
        },
        entries_of-IsEntry p reserved_ids bs all_bases rest (λ s m. f s (inr m)) more,
      )

  -- A step of the loop over the payments has no base settlement to select from, or selects among
  -- the entries of the base settlements.
  pub payment_step-cases :
      (p : RazorpayPayment) (reserved_ids : List Resource) (step : Step)
      → payment_step tables settlements by_settlement facts refunds_by_payment credits p
          reserved_ids
        ≡ some step
      → (step ≡ (missing_settlement_outcome p, []))
        ⊎ ((es : List Entry) × All
              (IsEntry p reserved_ids (
                base_settlements tables settlements by_settlement facts refunds_by_payment credits
                  p))
              es
            × Selected es step)
  unfolding payment_step
  payment_step-cases p reserved_ids step h =
      let bases =
        base_settlements tables settlements by_settlement facts refunds_by_payment credits p in
      let (es, made, next) =
        >>=-eq_some
          (entries_of tables settlements by_settlement facts refunds_by_payment credits p
            reserved_ids bases)
          _ h in
      elim (select_entry-cases p es (sort before (selectable_entries es)) step
        (λ c m. Member-selectable c es (Member-sort before c _ m)) next) [
          | inl missing ↦ inl missing
          | inr selected ↦
              inr (es, entries_of-IsEntry p reserved_ids bases bases es (λ s m. m) made, selected)
        ]

  -- A run takes a step for the first payment and goes on with what it consumed.
  pub run_payments-cons :
      (p : RazorpayPayment) (ps : List RazorpayPayment) (reserved_ids : List Resource)
      (os : List EngineOutcome)
      → run_payments tables settlements by_settlement facts refunds_by_payment credits
          (p ∷ ps)
          reserved_ids
        ≡ some os
      → (step : Step) × (rest : List EngineOutcome) × (payment_step tables settlements by_settlement
            facts refunds_by_payment credits p reserved_ids
          ≡ some step)
        × (run_payments tables settlements by_settlement facts refunds_by_payment credits ps
              (reserved_ids ++ step.1)
            ≡ some rest)
        × (os ≡ step.0 ∷ rest)
  unfolding run_payments
  run_payments-cons p ps reserved_ids os h =
      let (step, stepped, next) =
        >>=-eq_some
          (payment_step tables settlements by_settlement facts refunds_by_payment credits p
            reserved_ids)
          _ h in
      let (rest, more, last) =
        >>=-eq_some
          (run_payments tables settlements by_settlement facts refunds_by_payment credits ps
            (reserved_ids ++ step.1))
          _ next in
      (step, rest, stepped, more, sym (some-injective _ _ last))
