-- ===== src/Evaluation/Cases.antt =====
-- What it means that a case is resolved.
use mathlib.Core.Bool.{true≢false}
use roborecon.Prelude.{
  ℕ, text_eq, text_eq→≡, text_eq_refl, Bool, true, false, not, ◌&&◌, ◌||◌, &&-eq_true, ◌≡◌, refl,
  ◌⊎◌, ◌↔◌, List, [], ◌∷◌, any, any-cases, any-Member, all, all-Member, Member, is_empty,
  if◌then◌else◌, arith,
}
use roborecon.Evaluation.{
  TruthCase, Prediction, source_ids, matched, ledger_to_razorpay, razorpay_to_settlement, is_text,
  has_required_stage, is_unreviewed, case_status_correct, all_selected, case_source_coverage,
  difference, case_has_selected_false_positive, case_is_correct, case_is_autonomously_resolved,
  case_is_financially_resolved,
}
use roborecon.Prelude.{codes}
use roborecon.Evaluation.Sets.{
  is_subset-Member, Member-all_selected, all_selected-Member, Member-all, Member-none, all-imp,
  Member-is_subset, difference-nil,
}

-- a correct case that is expected to match
case_is_correct-matched :
    (case : TruthCase) (ps : List Prediction)
    → text_eq case.expected_status matched ≡ true
    → (case_is_correct case ps ≡ true) ↔ (
        (case_status_correct case ps ≡ true)
        × (case_has_selected_false_positive case ps ≡ false)
        × (case_source_coverage case ps ≡ true))
unfolding case_is_correct
case_is_correct-matched case ps e =
    parts (case_status_correct case ps) (text_eq case.expected_status matched)
      (case_has_selected_false_positive case ps) (case_source_coverage case ps) e
  where
    parts :
        (a b c d : Bool)
        → b ≡ true
        → ((if not a then false else if not b then true else if c then false else d) ≡ true)
          ↔ ((a ≡ true) × (c ≡ false) × (d ≡ true))
    parts a b c d k = ground (arith, k)

case_status_correct-matched :
    (case : TruthCase) (p : Prediction) (ps : List Prediction)
    → text_eq case.expected_status matched ≡ true
    → (case_status_correct case (p ∷ ps) ≡ true) ↔ (
        (all (λ q. text_eq (Prediction.status q) matched) (p ∷ ps) ≡ true)
        × (all has_required_stage (p ∷ ps) ≡ true)
        × (any (λ q. is_text (Prediction.stage q) ledger_to_razorpay) (p ∷ ps) ≡ true)
        × (any (λ q. is_text (Prediction.stage q) razorpay_to_settlement) (p ∷ ps) ≡ true))
unfolding case_status_correct
case_status_correct-matched case p ps e =
    parts (text_eq case.expected_status matched)
      (any (λ q. text_eq (Prediction.status q) case.expected_status) (p ∷ ps))
      (all (λ q. text_eq (Prediction.status q) matched) (p ∷ ps)) (all has_required_stage (p ∷ ps))
      (any (λ q. is_text (Prediction.stage q) ledger_to_razorpay) (p ∷ ps))
      (any (λ q. is_text (Prediction.stage q) razorpay_to_settlement) (p ∷ ps)) e
  where
    parts :
        (m x a b c d : Bool)
        → m ≡ true
        → ((if not m then x else a && b && c && d) ≡ true)
          ↔ ((a ≡ true) × (b ≡ true) × (c ≡ true) × (d ≡ true))
    parts m x a b c d k = ground (arith, k)

case_status_correct-nil : (case : TruthCase) → case_status_correct case [] ≡ false
unfolding case_status_correct
case_status_correct-nil case = refl

-- the tests of the two predicates on one prediction
abbrev is_settled : Prediction → Bool
is_settled p = p.autonomous || is_text p.review_status (codes "approved")

abbrev is_autonomous : Prediction → Bool
is_autonomous p = p.autonomous && is_unreviewed p.review_status

is_autonomous-settled : (p : Prediction) → is_autonomous p ≡ true → is_settled p ≡ true
is_autonomous-settled p h = rw ((&&-eq_true p.autonomous _ h).0) refl

-- A case that is resolved autonomously is resolved financially.
pub case_is_autonomously_resolved-financial :
    (case : TruthCase) (ps : List Prediction)
    → case_is_autonomously_resolved case ps ≡ true
    → case_is_financially_resolved case ps ≡ true
unfolding case_is_autonomously_resolved case_is_financially_resolved
case_is_autonomously_resolved-financial case ps h =
    parts (text_eq case.expected_status matched) (case_is_correct case ps) (not (is_empty ps))
      (all is_autonomous ps) (all is_settled ps)
      (all-imp is_autonomous is_settled is_autonomous-settled ps) h
  where
    parts :
        (m c e a b : Bool)
        → (a ≡ true → b ≡ true)
        → (m && c && e && a) ≡ true
        → (if not m || not c then false else e && b) ≡ true
    parts m c e a b f h = ground (arith, f, h)

-- the parts of a financially resolved case
case_is_financially_resolved-parts :
    (case : TruthCase) (ps : List Prediction)
    → (case_is_financially_resolved case ps ≡ true) ↔ (
        (text_eq case.expected_status matched ≡ true)
        × (case_is_correct case ps ≡ true)
        × (is_empty ps ≡ false)
        × (all is_settled ps ≡ true))
unfolding case_is_financially_resolved
case_is_financially_resolved-parts case ps =
    parts (text_eq case.expected_status matched) (case_is_correct case ps) (is_empty ps)
      (all is_settled ps)
  where
    parts :
        (m c e b : Bool)
        → ((if not m || not c then false else not e && b) ≡ true)
          ↔ ((m ≡ true) × (c ≡ true) × (e ≡ false) × (b ≡ true))
    parts m c e b = ground arith

-- The prediction is matched, of one of the two stages, and autonomous or approved by a human.
abbrev Settles : Prediction → Type 0
Settles p =
    (p.status ≡ matched)
    × ((is_text p.stage ledger_to_razorpay ≡ true)
        ⊎ (is_text p.stage razorpay_to_settlement ≡ true))
    × ((p.autonomous ≡ true) ⊎ (is_text p.review_status (codes "approved") ≡ true))

-- The case is expected to match, and its predictions agree with its truth.
abbrev pub IsExact : TruthCase → List Prediction → Type 0
IsExact case ps =
    (case.expected_status ≡ matched)
    × ((n : ℕ)
        → Member n (source_ids case) ↔ ((p : Prediction) × Member p ps × Member n p.selected_ids))
    × ((p : Prediction) → Member p ps → Settles p)
    × ((p : Prediction) × Member p ps × (is_text p.stage ledger_to_razorpay ≡ true))
    × ((p : Prediction) × Member p ps × (is_text p.stage razorpay_to_settlement ≡ true))

or_cases : (a b : Bool) → (a || b) ≡ true → (a ≡ true) ⊎ (b ≡ true)
or_cases a b h = ground (arith, h)

cases_or : (a b : Bool) → (a ≡ true) ⊎ (b ≡ true) → (a || b) ≡ true
cases_or a b h = ground (arith, h)

resolved-IsExact :
    (case : TruthCase) (ps : List Prediction)
    → case_is_financially_resolved case ps ≡ true
    → IsExact case ps
unfolding case_source_coverage
resolved-IsExact case [] h =
    let (expected, correct, filled, settled) = (case_is_financially_resolved-parts case []).0 h in
    absurd (true≢false filled)
resolved-IsExact case (p ∷ ps) h =
    let (expected, correct, filled, settled) =
      (case_is_financially_resolved-parts case (p ∷ ps)).0 h in
    let (status, clean, coverage) = (case_is_correct-matched case (p ∷ ps) expected).0 correct in
    let (same, staged, first, second) = (case_status_correct-matched case p ps expected).0 status in
    let (covered, exact) = &&-eq_true _ _ coverage in
    (
      text_eq→≡ case.expected_status matched expected,
      (λ n. (
        (λ m.
            Member-all_selected n (p ∷ ps)
              (is_subset-Member (source_ids case) (all_selected (p ∷ ps)) n covered m)),
        (λ q.
            is_subset-Member (all_selected (p ∷ ps)) (source_ids case) n exact
              (all_selected-Member n q.0 (p ∷ ps) q.1 q.2)),
      )),
      (λ q m. (
        text_eq→≡ q.status matched
            (all-Member (λ q. text_eq (Prediction.status q) matched) q (p ∷ ps) same m),
        or_cases _ _ (all-Member has_required_stage q (p ∷ ps) staged m),
        or_cases q.autonomous _ (all-Member is_settled q (p ∷ ps) settled m),
      )),
      any-cases (λ q. is_text (Prediction.stage q) ledger_to_razorpay) (p ∷ ps) first,
      any-cases (λ q. is_text (Prediction.stage q) razorpay_to_settlement) (p ∷ ps) second,
    )

IsExact-clean :
    (case : TruthCase) (ps : List Prediction)
    → IsExact case ps
    → case_has_selected_false_positive case ps ≡ false
unfolding case_has_selected_false_positive
IsExact-clean case ps exact =
    Member-none (λ p. not (is_empty (difference (Prediction.selected_ids p) (source_ids case)))) ps
      (λ p m.
        rw (difference-nil p.selected_ids (source_ids case) (λ n k. (exact.1 n).1 (p, m, k))) refl)

IsExact-coverage :
    (case : TruthCase) (ps : List Prediction)
    → IsExact case ps
    → case_source_coverage case ps ≡ true
unfolding case_source_coverage
IsExact-coverage case ps exact =
    rw
      (
        Member-is_subset (source_ids case) (all_selected ps)
            (λ n m. let (p, there, own) = (exact.1 n).0 m in all_selected-Member n p ps there own),
        Member-is_subset (all_selected ps) (source_ids case)
            (λ n m. (exact.1 n).1 (Member-all_selected n ps m)),
      )
      refl

IsExact-resolved :
    (case : TruthCase) (ps : List Prediction)
    → IsExact case ps
    → case_is_financially_resolved case ps ≡ true
IsExact-resolved case [] exact = absurd ((exact.3).1).1
IsExact-resolved case (p ∷ ps) exact =
    let expected : text_eq case.expected_status matched ≡ true =
      rw exact.0 (text_eq_refl matched) in
    let (_, there, first) = exact.3 in
    let (_, here, second) = exact.4 in
    let status = (case_status_correct-matched case p ps expected).1 (
      Member-all (λ q. text_eq (Prediction.status q) matched) (p ∷ ps)
          (λ q m. rw ((exact.2 q m).0) (text_eq_refl matched)),
      Member-all has_required_stage (p ∷ ps) (λ q m. cases_or _ _ (exact.2 q m).1),
      any-Member (λ q. is_text (Prediction.stage q) ledger_to_razorpay) _ (p ∷ ps) there first,
      any-Member (λ q. is_text (Prediction.stage q) razorpay_to_settlement) _ (p ∷ ps) here second,
    ) in
    let correct =
      (case_is_correct-matched case (p ∷ ps) expected).1
        (status, IsExact-clean case (p ∷ ps) exact, IsExact-coverage case (p ∷ ps) exact) in
    (case_is_financially_resolved-parts case (p ∷ ps)).1 (
      expected,
      correct,
      refl,
      Member-all is_settled (p ∷ ps) (λ q m. cases_or q.autonomous _ (exact.2 q m).2),
    )

-- A case is resolved financially if and only if it is expected to match, its predictions select
-- exactly the sources of the truth, each of them is matched, of one of the two stages, and autonomous
-- or approved by a human, and both stages have one.
pub case_is_financially_resolved-IsExact :
    (case : TruthCase) (ps : List Prediction)
    → (case_is_financially_resolved case ps ≡ true) ↔ IsExact case ps
case_is_financially_resolved-IsExact case ps = (resolved-IsExact case ps, IsExact-resolved case ps)
