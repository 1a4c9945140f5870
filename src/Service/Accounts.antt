-- ===== src/Service/Accounts.antt =====
-- The stages of a run never fail, and each case that is left open gets one exception.
use mathlib.Core.Path.{subst}
use roborecon.Prelude.{
  ℕ, suc, not, Bool-cases, ◌≡◌, refl, sym, ap, ◌∙◌, none, some, codes, List, [], ◌∷◌, ◌++◌, map,
  inl, inr, filter, length, All, All-append, All-imp, arith,
}
use roborecon.Enums.{ReconciliationStage, open_status, result_status_value}
use roborecon.Records.{LedgerEntry, RazorpayPayment}
use roborecon.Rows.{ReconciliationResult, ReconciliationException}
use roborecon.Prelude.Along.{Along}
use roborecon.Engine.Model.{EngineOutcome}
use roborecon.Engine.Reference.{CharTables}
use roborecon.Engine.StageA.Run.{reconcile_stage_a}
use roborecon.Engine.StageB.Run.{captured_payments, reconcile_stage_b}
use roborecon.Engine.StageB.Run.Total.{reconcile_stage_b-total}
use roborecon.Engine.Staged.{IsOfStage, reconcile_stage_a-IsOfStage, reconcile_stage_b-IsOfStage}
use roborecon.Service.{Snapshot, SourceIndex, source_index}
use roborecon.Service.Links.{NewIds, exception_of, result_exceptions}
use roborecon.Service.Results.{
  Pending, Primary, outcome_result, stage_a_primaries, stage_b_primaries, pending_results,
  pending_exceptions, quarantine_exception, run_stages, ResultRow,
}

-- an outcome that the database accepts
abbrev HasStage : EngineOutcome → Type 0
HasStage o = (stage : ReconciliationStage) × IsOfStage stage o

-- The outcomes with their primary sources are the outcomes, in their order.
stage_a_primaries-outcomes :
    (index : SourceIndex) (ledger : List LedgerEntry) (os : List EngineOutcome)
    → map (λ p. p.1) (stage_a_primaries index ledger os) ≡ os
unfolding stage_a_primaries
stage_a_primaries-outcomes index [] [] = refl
stage_a_primaries-outcomes index (e ∷ es) [] = refl
stage_a_primaries-outcomes index [] (o ∷ os) =
    ap (λ x. o ∷ x) (stage_a_primaries-outcomes index [] os)
stage_a_primaries-outcomes index (e ∷ es) (o ∷ os) =
    ap (λ x. o ∷ x) (stage_a_primaries-outcomes index es os)

stage_b_primaries-outcomes :
    (ps : List RazorpayPayment) (os : List EngineOutcome)
    → length os ≡ length ps
    → map (λ p. p.1) (stage_b_primaries ps os) ≡ os
unfolding stage_b_primaries
stage_b_primaries-outcomes [] [] h = refl
stage_b_primaries-outcomes [] (o ∷ os) h = absurd (omega (arith, h))
stage_b_primaries-outcomes (p ∷ ps) [] h = absurd (omega (arith, h))
stage_b_primaries-outcomes (p ∷ ps) (o ∷ os) h =
    ap (λ x. o ∷ x) (stage_b_primaries-outcomes ps os (omega (arith, h)))

map-append {ℓ κ} :
    {A : Type ℓ} {B : Type κ} (f : A → B) (xs ys : List A) → map f (xs ++ ys) ≡ map f xs ++ map f ys
map-append f [] ys = refl
map-append f (x ∷ xs) ys = ap (λ zs. f x ∷ zs) (map-append f xs ys)

-- A result of the run, with what the engine said in its outcome.
abbrev pub Recorded : ℕ → ℕ → Pending → Type 0
Recorded run_id batch_id p =
    ((p.0).run_id ≡ run_id)
    × ((p.0).batch_id ≡ batch_id)
    × ((p.1).stage ≡ some (p.0).stage)
    × ((p.0).status ≡ (p.1).status)
    × ((p.0).autonomous ≡ (p.1).autonomous)
    × ((p.0).selected_ids ≡ (p.1).selected_ids)
    × ((p.0).score ≡ (p.1).score)
    × ((p.0).candidates ≡ (p.1).candidates)

outcome_result-total :
    (id run_id batch_id : ℕ) (o : EngineOutcome) (primary : Primary)
    → HasStage o
    → (p : Pending) × (outcome_result id run_id batch_id o primary ≡ some p)
      × (p.1 ≡ o)
      × Recorded run_id batch_id p
unfolding outcome_result
outcome_result-total id run_id batch_id o primary (stage, h) =
    rw h (_, refl, refl, (refl, refl, refl, refl, refl, refl, refl, refl))

pending_results-total :
    (result_id : ℕ → ℕ) (run_id batch_id n : ℕ) (drafts : List (Primary × EngineOutcome))
    → All (λ d. HasStage d.1) drafts
    → (ps : List Pending) × (pending_results result_id run_id batch_id n drafts ≡ some ps)
      × (map (λ p. p.1) ps ≡ map (λ d. d.1) drafts)
      × All (Recorded run_id batch_id) ps
unfolding pending_results
pending_results-total result_id run_id batch_id n [] h = ([], refl, refl, tt)
pending_results-total result_id run_id batch_id n ((primary, o) ∷ drafts) h =
    let (p, made, same, agrees) =
      outcome_result-total (result_id n) run_id batch_id o primary h.0 in
    let (ps, others, outcomes, agree) =
      pending_results-total result_id run_id batch_id (suc n) drafts h.1 in
    (p ∷ ps, rw (made, others) refl, rw (same, outcomes) refl, (agrees, agree))

All-outcomes :
    (drafts : List (Primary × EngineOutcome))
    → All HasStage (map (λ d. d.1) drafts)
    → All (λ d. HasStage d.1) drafts
All-outcomes [] h = tt
All-outcomes (d ∷ drafts) h = (h.0, All-outcomes drafts h.1)

-- Both stages return, and the results are their outcomes.
pub run_stages-total :
    (tables : CharTables) (ids : NewIds) (batch_id : ℕ) (s : Snapshot)
    → (ps : List Pending) × (os : List EngineOutcome) × (run_stages tables ids batch_id s ≡ some ps)
      × (reconcile_stage_b tables s.payments s.refunds s.settlements s.lines s.credits ≡ some os)
      × (length os ≡ length (captured_payments s.payments))
      × (map (λ p. p.1) ps ≡ reconcile_stage_a tables s.ledger s.orders s.payments s.refunds ++ os)
      × All (Recorded ids.run_id batch_id) ps
unfolding run_stages
run_stages-total tables ids batch_id s =
    let (os, returned, count) =
      reconcile_stage_b-total tables s.payments s.refunds s.settlements s.lines s.credits in
    let first = reconcile_stage_a tables s.ledger s.orders s.payments s.refunds in
    let drafts =
      stage_a_primaries (source_index s) s.ledger first
      ++ stage_b_primaries (captured_payments s.payments) os in
    let outcomes =
      map-append (λ d. d.1) (stage_a_primaries (source_index s) s.ledger first)
        (stage_b_primaries (captured_payments s.payments) os)
      ∙ rw
          (
            stage_a_primaries-outcomes (source_index s) s.ledger first,
            stage_b_primaries-outcomes (captured_payments s.payments) os count,
          )
          refl in
    let staged =
      All-append HasStage first os
        (All-imp (λ o h. (_, h)) first
          (reconcile_stage_a-IsOfStage tables s.ledger s.orders s.payments s.refunds))
        (All-imp (λ o h. (_, h)) os
          (reconcile_stage_b-IsOfStage tables s.payments s.refunds s.settlements s.lines s.credits
            os returned)) in
    let (ps, made, same, agree) =
      pending_results-total ids.result_id ids.run_id batch_id 0 drafts
        (All-outcomes drafts (subst (All HasStage) (sym outcomes) staged)) in
    (ps, os, rw returned made, returned, count, same ∙ outcomes, agree)

-- An exception of the run that waits for a review.
abbrev IsOpen : ℕ → ℕ → ReconciliationException → Type 0
IsOpen run_id batch_id e =
    (e.run_id ≡ run_id)
    × (e.batch_id ≡ batch_id)
    × (e.status ≡ open_status)
    × (e.reviewed_by ≡ none)
    × (e.reviewed_at ≡ none)

-- The exception asks for a review of the result.
abbrev pub Opens : ℕ → ℕ → ResultRow → ReconciliationException → Type 0
Opens run_id batch_id r e =
    IsOpen run_id batch_id e
    × (e.result_id ≡ some r.id)
    × (e.exception_type ≡ result_status_value r.status)
    × (e.source_type ≡ some r.primary_source_type)
    × (e.source_id ≡ r.primary_source_id)
    × (e.amount ≡ r.amount)

-- The exception reports a quarantined record.
abbrev pub Quarantines : ℕ → ℕ → ReconciliationException → Type 0
Quarantines run_id batch_id e =
    IsOpen run_id batch_id e
    × (e.result_id ≡ none)
    × (e.exception_type ≡ codes "malformed")
    × (e.source_type ≡ some (codes "quarantine"))

exception_of-Opens :
    (ids : NewIds) (run_id batch_id : ℕ) (p : Pending)
    → Recorded run_id batch_id p
    → Opens run_id batch_id p.0 (exception_of ids p.0 p.1)
unfolding exception_of
exception_of-Opens ids run_id batch_id p (run, batch, _, status, _, _, _, _) =
    ((run, batch, refl, refl, refl), refl, ap result_status_value (sym status), refl, refl, refl)

-- One open exception for each result that is not autonomous, in their order.
pub pending_exceptions-Opens :
    (ids : NewIds) (run_id batch_id : ℕ) (ps : List Pending)
    → All (Recorded run_id batch_id) ps
    → Along
        (Opens run_id batch_id)
        (λ _. ⊥)
        (filter (λ r. not (ReconciliationResult.autonomous r)) (map (λ p. p.0) ps))
        (pending_exceptions ids ps)
unfolding pending_exceptions result_exceptions filter
pending_exceptions-Opens ids run_id batch_id [] h = tt
pending_exceptions-Opens ids run_id batch_id ((r, o) ∷ ps) h =
    let flag : r.autonomous ≡ o.autonomous = (h.0).4 in
    elim (Bool-cases o.autonomous) [
      | inl t ↦ rw (t, flag ∙ t) (pending_exceptions-Opens ids run_id batch_id ps h.1)
      | inr f ↦
          rw (f, flag ∙ f)
            (
              exception_of-Opens ids run_id batch_id (r, o) h.0,
              pending_exceptions-Opens ids run_id batch_id ps h.1,
            )
    ]

-- One open exception for each quarantined record.
pub quarantine_exception-Quarantines :
    (ids : NewIds) (run_id batch_id : ℕ) (records : List ℕ)
    → Along
        (λ _. Quarantines run_id batch_id)
        (λ _. ⊥)
        records
        (map (quarantine_exception ids run_id batch_id) records)
unfolding quarantine_exception
quarantine_exception-Quarantines ids run_id batch_id [] = tt
quarantine_exception-Quarantines ids run_id batch_id (n ∷ ns) = (
  ((refl, refl, refl, refl, refl), refl, refl, refl),
  quarantine_exception-Quarantines ids run_id batch_id ns,
)
