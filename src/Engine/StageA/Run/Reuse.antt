-- ===== src/Engine/StageA/Run/Reuse.antt =====
-- No provider record is consumed by two autonomous outcomes of stage A.
use mathlib.Core.Bool.{false≢true}
use roborecon.Prelude.{
  ℕ, zero, suc, ◌<◌, Bool, true, false, ◌||◌, ◌≡◌, refl, sym, ◌∙◌, some, List, [], ◌∷◌, ◌++◌, arith,
  any, any-Member, Member, All, All-map, All-imp, all-All, All-member, map-Member, get_elem?,
}
use roborecon.Records.{LedgerEntry, RazorpayOrder, RazorpayPayment, RazorpayRefund}
use roborecon.Engine.Model.{EngineOutcome, Resource}
use roborecon.Engine.Reference.{CharTables}
use roborecon.Engine.Candidates.{is_reserved}
use roborecon.Engine.Candidates.Resources.{resource_eq, resource_eq_refl}
use roborecon.Engine.StageA.Pool.{StageACandidate, stage_a_pool}
use roborecon.Engine.StageA.Run.{
  consider, consumed, entry_pairs, entry_outcome, run_entries, missing_ledger_outcome,
  reconcile_stage_a,
}
use roborecon.Engine.Candidates.Marks.{taken}
use roborecon.Engine.StageA.Run.Guard.{entry_outcome-free}
use roborecon.Prelude.Along.{All-get}
use mathlib.Core.Option.{some-injective}
use mathlib.Core.Path.{subst}

any-append {ℓ} :
    {A : Type ℓ} (p : A → Bool) (xs ys : List A) → any p (xs ++ ys) ≡ any p xs || any p ys
unfolding any
any-append p [] ys = refl
any-append p (x ∷ xs) ys = ground (arith, any-append p xs ys)

or_left : (a b : Bool) → (a || b) ≡ false → a ≡ false
or_left a b h = ground arith

or_right : (a b : Bool) → b ≡ true → (a || b) ≡ true
or_right a b h = ground arith

untaken_before :
    (reserved_ids more : List Resource) (n : ℕ)
    → taken (reserved_ids ++ more) n ≡ false
    → taken reserved_ids n ≡ false
unfolding is_reserved
untaken_before reserved_ids more n h =
    or_left _ _ (sym (any-append (resource_eq (Resource.record_id n)) reserved_ids more) ∙ h)

consumed-taken :
    (reserved_ids : List Resource) (o : EngineOutcome) (n : ℕ)
    → o.autonomous ≡ true
    → Member n o.selected_ids
    → taken (reserved_ids ++ consumed o) n ≡ true
unfolding is_reserved consumed
consumed-taken reserved_ids o n e m =
    any-append (resource_eq (Resource.record_id n)) reserved_ids _
    ∙ or_right (any (resource_eq (Resource.record_id n)) reserved_ids)
        (any (resource_eq (Resource.record_id n)) (consumed o))
        (rw e (
          any-Member (resource_eq (Resource.record_id n)) (Resource.record_id n) _
            (map-Member (λ k. Resource.record_id k) n o.selected_ids m)
            (resource_eq_refl (Resource.record_id n))))

-- An autonomous outcome names ids that are not taken.
abbrev Untaken : List Resource → EngineOutcome → Type 0
Untaken reserved_ids o =
    o.autonomous ≡ true → All (λ n. taken reserved_ids n ≡ false) o.selected_ids

-- Two autonomous outcomes name no id in common.
abbrev pub Apart : EngineOutcome → EngineOutcome → Type 0
Apart o p =
    o.autonomous ≡ true
    → p.autonomous ≡ true
    → (n : ℕ) → Member n o.selected_ids
    → Member n p.selected_ids
    → ⊥

abbrev AllApart : List EngineOutcome → Type 0
AllApart [] = Unit
AllApart (o ∷ os) = All (Apart o) os × AllApart os

Untaken-Apart :
    (reserved_ids : List Resource) (o p : EngineOutcome)
    → Untaken (reserved_ids ++ consumed o) p
    → Apart o p
Untaken-Apart reserved_ids o p h eo ep n mo mp = false≢true (
    sym (All-member (λ k. taken (reserved_ids ++ consumed o) k ≡ false) n p.selected_ids (h ep) mp)
    ∙ consumed-taken reserved_ids o n eo mo)

Untaken-before :
    (reserved_ids more : List Resource) (o : EngineOutcome)
    → Untaken (reserved_ids ++ more) o
    → Untaken reserved_ids o
Untaken-before reserved_ids more o h e =
    All-imp (untaken_before reserved_ids more) o.selected_ids (h e)

module _ (tables : CharTables) (pool : List StageACandidate) (rest : List EngineOutcome)
    (idle : All (λ o. EngineOutcome.autonomous o ≡ false) rest) where
  run_entries-Untaken :
      (ledger : List LedgerEntry) (considered_ids : List ℕ) (reserved_ids : List Resource)
      → All
          (Untaken reserved_ids)
          ((run_entries tables pool ledger considered_ids reserved_ids).0 ++ rest)
  unfolding run_entries
  run_entries-Untaken [] considered_ids reserved_ids =
      All-imp (λ o h e. absurd (false≢true (sym h ∙ e))) rest idle
  run_entries-Untaken (entry ∷ ledger) considered_ids reserved_ids =
      let o = entry_outcome tables entry pool reserved_ids in
      (
        entry_outcome-free tables reserved_ids entry pool,
        All-imp (Untaken-before reserved_ids (consumed o)) _ (
            run_entries-Untaken ledger
              (consider (entry_pairs tables entry pool reserved_ids) considered_ids)
              (reserved_ids ++ consumed o)),
      )

  run_entries-AllApart :
      (ledger : List LedgerEntry) (considered_ids : List ℕ) (reserved_ids : List Resource)
      → AllApart ((run_entries tables pool ledger considered_ids reserved_ids).0 ++ rest)
  unfolding run_entries
  run_entries-AllApart [] considered_ids reserved_ids = idle-AllApart rest idle
    where
      idle-AllApart :
          (os : List EngineOutcome) → All (λ o. EngineOutcome.autonomous o ≡ false) os → AllApart os
      idle-AllApart [] h = tt
      idle-AllApart (o ∷ os) h =
          (all-All (Apart o) os (λ p _ e _ n _ _. false≢true (sym h.0 ∙ e)), idle-AllApart os h.1)
  run_entries-AllApart (entry ∷ ledger) considered_ids reserved_ids =
      let o = entry_outcome tables entry pool reserved_ids in
      let considered = consider (entry_pairs tables entry pool reserved_ids) considered_ids in
      (
        All-imp (Untaken-Apart reserved_ids o) _
            (run_entries-Untaken ledger considered (reserved_ids ++ consumed o)),
        run_entries-AllApart ledger considered (reserved_ids ++ consumed o),
      )

AllApart-get :
    (os : List EngineOutcome) (i j : ℕ) {o p : EngineOutcome}
    → AllApart os
    → i < j
    → get_elem? os i ≡ some o
    → get_elem? os j ≡ some p
    → Apart o p
AllApart-get [] i j h lt x y = cc
AllApart-get (o ∷ os) i zero h lt x y = absurd (omega arith)
AllApart-get (o ∷ os) zero (suc j) {p = q} h lt x y =
    subst (λ a. Apart a q) (some-injective _ _ x) (All-get (Apart o) os j h.0 y)
AllApart-get (o ∷ os) (suc i) (suc j) h lt x y = AllApart-get os i j h.1 (omega arith) x y

module _ (tables : CharTables) (ledger : List LedgerEntry) (orders : List RazorpayOrder)
    (payments : List RazorpayPayment) (refunds : List RazorpayRefund) where
  -- Two autonomous outcomes of a run of stage A, at different places, have no selected id in
  -- common: no provider record is consumed twice.
  pub reconcile_stage_a-Apart :
      (i j : ℕ) {o p : EngineOutcome} (n : ℕ)
      → i < j
      → get_elem? (reconcile_stage_a tables ledger orders payments refunds) i ≡ some o
      → get_elem? (reconcile_stage_a tables ledger orders payments refunds) j ≡ some p
      → o.autonomous ≡ true
      → p.autonomous ≡ true
      → Member n o.selected_ids
      → ¬ Member n p.selected_ids
  unfolding reconcile_stage_a
  reconcile_stage_a-Apart i j n lt x y eo ep mo mp =
      let pool = stage_a_pool orders payments refunds in
      AllApart-get _ i j
        (run_entries-AllApart tables pool _
          (All-map (λ o. EngineOutcome.autonomous o ≡ false) missing_ledger_outcome _
            (all-All _ _ (λ c m. refl)))
          ledger [] [])
        lt x y eo ep n mo mp
