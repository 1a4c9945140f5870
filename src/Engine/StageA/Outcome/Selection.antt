-- ===== src/Engine/StageA/Outcome/Selection.antt =====
-- Which candidate an autonomous outcome of stage A has selected, and which ids it names.
use mathlib.Core.Bool.{false≢true}
use roborecon.Prelude.{
  ℕ, Bool, true, false, not, ◌||◌, sym, ◌∙◌, All-both, ◌≡◌, ◌⊎◌, inl, inr, refl, Option, List, [],
  ◌∷◌, map, arith, All, All-filter, All-map, Bool-cases, is_empty, filter, filter-All, filter-nil,
  All-imp, length, ltb,
}
use roborecon.Prelude.Order.{sort, All-sort}
use roborecon.Enums.{ResultStatus, is_ambiguous}
use roborecon.Records.{LedgerEntry}
use roborecon.Engine.Model.{ScoredCandidate, EngineOutcome}
use roborecon.Engine.Policy.{can_auto_resolve}
use roborecon.Engine.Reference.{CharTables}
use roborecon.Engine.Candidates.{before}
use roborecon.Engine.StageA.Outcome.{
  or_else, contains_id, selectable_of, contains_candidate, mark_duplicate, mark_exact_duplicates,
  exact_candidates_of, head_of, duplicates_of, below_minimum, outcome_of_sorted, settled_outcome,
  no_candidate_outcome, below_minimum_outcome, outcome_from_stage_a_candidates,
}

abbrev id_of : ScoredCandidate → ℕ
id_of c = c.candidate_id

module _ {κ} (P : ScoredCandidate → Type κ) where
  All-or_else : (xs ys : List ScoredCandidate) → All P xs → All P ys → All P (or_else xs ys)
  All-or_else [] ys h k = k
  All-or_else (x ∷ xs) ys h k = h

  pub All-selectable_of :
      (ids : List ℕ) (cs : List ScoredCandidate) → All P cs → All P (selectable_of ids cs)
  unfolding selectable_of
  All-selectable_of ids cs h = All-or_else _ cs (All-filter P _ cs h) h

  mark_duplicate_keeps :
      ((c : ScoredCandidate) → P c → P (record c { duplicate = true }))
      → (exact : List ScoredCandidate) (c : ScoredCandidate) → P c
      → P (mark_duplicate exact c)
  unfolding mark_duplicate
  mark_duplicate_keeps marked exact c h = elim (Bool-cases (contains_candidate exact c)) [
    | inl t ↦ rw t (marked c h)
    | inr f ↦ rw f h
  ]

  All-mark_exact_duplicates :
      ((c : ScoredCandidate) → P c → P (record c { duplicate = true }))
      → (exact cs : List ScoredCandidate) → All P cs
      → All P (mark_exact_duplicates exact cs)
  unfolding mark_exact_duplicates
  All-mark_exact_duplicates marked exact cs h = elim (Bool-cases (ltb 1 (length exact))) [
    | inl several ↦ rw several (
        All-map P (mark_duplicate exact) cs
          (All-imp (λ c. mark_duplicate_keeps marked exact c) cs h))
    | inr few ↦ rw few h
  ]

not_is_true : (b : Bool) → not b ≡ true → b ≡ false
not_is_true b h = ground arith

not_is_false : (b : Bool) → not b ≡ false → b ≡ true
not_is_false b h = ground arith

or_else-free :
    (ids : List ℕ) (cs xs : List ScoredCandidate)
    → filter (λ c. not (contains_id ids (id_of c))) cs ≡ xs
    → All (λ c. contains_id ids (id_of c) ≡ false) (or_else xs cs)
      ⊎ All (λ c. contains_id ids (id_of c) ≡ true) cs
or_else-free ids cs [] e = inr (All-imp (λ c h. not_is_false _ h) cs (filter-nil _ cs e))
or_else-free ids cs (x ∷ xs) e = inl (
    All-imp (λ c h. not_is_true _ h) (x ∷ xs)
      (rw e at (filter-All (λ c. not (contains_id ids (id_of c))) cs)))

-- Either no selectable candidate has a reserved id, or every candidate has one.
selectable_of-free :
    (ids : List ℕ) (cs : List ScoredCandidate)
    → All (λ c. contains_id ids (id_of c) ≡ false) (selectable_of ids cs)
      ⊎ All (λ c. contains_id ids (id_of c) ≡ true) cs
unfolding selectable_of filter
selectable_of-free ids cs =
    or_else-free ids cs (filter (λ c. not (contains_id ids (id_of c))) cs) refl

-- The candidate that an autonomous outcome rests on. The outcome is a match with its id alone, or
-- it lists the duplicates among the selectable candidates.
pub record Selection {κ} (P : ScoredCandidate → Type κ) (o : EngineOutcome) : Type κ where
  pub selected : ScoredCandidate
  pub runner_up : Option ScoredCandidate
  pub holds : P selected
  pub resolves : can_auto_resolve selected runner_up ≡ true
  pub outcome :
      ((o.status ≡ ResultStatus.matched) × (o.selected_ids ≡ selected.candidate_id ∷ []))
      ⊎ (o.status ≡ ResultStatus.duplicate)

settled_outcome-autonomous :
    (candidates : List ScoredCandidate) (duplicate : Bool) (ids : List ℕ) (c : ScoredCandidate)
    (r : Option ScoredCandidate)
    → let o = settled_outcome candidates duplicate ids c r in
      o.autonomous ≡ true
      → (can_auto_resolve c r ≡ true)
        × (((o.status ≡ ResultStatus.matched) × (o.selected_ids ≡ c.candidate_id ∷ []))
            ⊎ (o.status ≡ ResultStatus.duplicate))
unfolding settled_outcome is_ambiguous can_auto_resolve
settled_outcome-autonomous candidates duplicate ids c r h = ground arith

settled_outcome-ids {κ} :
    (Q : ℕ → Type κ) (candidates : List ScoredCandidate) (duplicate : Bool) (ids : List ℕ)
    (c : ScoredCandidate) (r : Option ScoredCandidate)
    → Q c.candidate_id
    → All Q ids
    → All Q (settled_outcome candidates duplicate ids c r).selected_ids
unfolding settled_outcome
settled_outcome-ids Q candidates true ids c r h k = k
settled_outcome-ids Q candidates false ids c r h k = (h, tt)

module _ {κ} (tables : CharTables) (P : ScoredCandidate → Type κ) where
  outcome_of_sorted-autonomous :
      (entry : LedgerEntry) (candidates : List ScoredCandidate) (exact_count : ℕ)
      (selectable : List ScoredCandidate)
      → All P selectable
      → (outcome_of_sorted tables entry candidates exact_count selectable).autonomous ≡ true
      → Selection P (outcome_of_sorted tables entry candidates exact_count selectable)
  unfolding outcome_of_sorted no_candidate_outcome
  outcome_of_sorted-autonomous entry candidates n [] h e = absurd (false≢true e)
  outcome_of_sorted-autonomous entry candidates n (c ∷ cs) h e =
      elim (Bool-cases (below_minimum tables c)) [
        | inl low ↦ absurd (false≢true (rw low at e))
        | inr fine ↦ rw fine (
            let facts =
              settled_outcome-autonomous candidates
                (not (is_empty (duplicates_of (c ∷ cs))) || ltb 1 n)
                (map id_of (duplicates_of (c ∷ cs))) c (head_of cs) (rw fine at e) in
            record {
              selected = c;
              runner_up = head_of cs;
              holds = h.0;
              resolves = facts.0;
              outcome = facts.1;
            })
      ]

  -- An autonomous outcome selects a candidate for which `P` holds, if it holds for the candidates
  -- and does not depend on the duplicate mark.
  pub outcome-Selection :
      ((c : ScoredCandidate) → P c → P (record c { duplicate = true }))
      → (entry : LedgerEntry) (cs : List ScoredCandidate) (ids : List ℕ) → All P cs
      → (outcome_from_stage_a_candidates tables entry cs ids).autonomous ≡ true
      → Selection P (outcome_from_stage_a_candidates tables entry cs ids)
  unfolding outcome_from_stage_a_candidates
  outcome-Selection marked entry cs ids h e =
      let exact = exact_candidates_of (selectable_of ids cs) in
      outcome_of_sorted-autonomous entry _ (length exact) _
        (All-sort before P _
          (All-selectable_of P ids _ (All-mark_exact_duplicates P marked exact cs h)))
        e

module _ {κ} (tables : CharTables) (Q : ℕ → Type κ) where
  outcome_of_sorted-ids :
      (entry : LedgerEntry) (candidates : List ScoredCandidate) (n : ℕ)
      (selectable : List ScoredCandidate)
      → All (λ c. Q (id_of c)) selectable
      → All Q (outcome_of_sorted tables entry candidates n selectable).selected_ids
  unfolding outcome_of_sorted no_candidate_outcome below_minimum_outcome
  outcome_of_sorted-ids entry candidates n [] h = tt
  outcome_of_sorted-ids entry candidates n (c ∷ cs) h = elim (Bool-cases (below_minimum tables c)) [
    | inl low ↦ rw low tt
    | inr fine ↦ rw fine (
        settled_outcome-ids Q candidates _ _ c (head_of cs) h.0 (
          All-map Q id_of (duplicates_of (c ∷ cs)) (
            unfold duplicates_of in
            All-filter (λ d. Q (id_of d)) ScoredCandidate.duplicate (c ∷ cs) h)))
  ]

auto_no_contradiction :
    (c : ScoredCandidate) (r : Option ScoredCandidate)
    → is_empty c.contradictions ≡ false
    → can_auto_resolve c r ≡ false
unfolding can_auto_resolve
auto_no_contradiction c r h = ground arith

-- What is known of a candidate's id: it is taken only if it is reserved, and a reserved candidate
-- has a contradiction.
abbrev pub Guarded : (ℕ → Bool) → List ℕ → ScoredCandidate → Type 0
Guarded taken ids c =
    (taken c.candidate_id ≡ true → contains_id ids c.candidate_id ≡ true)
    × (contains_id ids c.candidate_id ≡ true → is_empty c.contradictions ≡ false)

abbrev Blocked : (ℕ → Bool) → List ℕ → ScoredCandidate → Type 0
Blocked taken ids c = Guarded taken ids c × (contains_id ids c.candidate_id ≡ true)

Guarded-free :
    (taken : ℕ → Bool) (ids : List ℕ) (c : ScoredCandidate)
    → Guarded taken ids c × (contains_id ids c.candidate_id ≡ false)
    → taken c.candidate_id ≡ false
Guarded-free taken ids c h = ground arith

module _ (tables : CharTables) (taken : ℕ → Bool) where
  -- An autonomous outcome names no id that is taken.
  pub outcome-ids_free :
      (entry : LedgerEntry) (cs : List ScoredCandidate) (ids : List ℕ)
      → All (Guarded taken ids) cs
      → (outcome_from_stage_a_candidates tables entry cs ids).autonomous ≡ true
      → All
          (λ n. taken n ≡ false)
          (outcome_from_stage_a_candidates tables entry cs ids).selected_ids
  unfolding outcome_from_stage_a_candidates
  outcome-ids_free entry cs ids h e =
      let exact = exact_candidates_of (selectable_of ids cs) in
      let marked = mark_exact_duplicates exact cs in
      let guarded = All-mark_exact_duplicates (Guarded taken ids) (λ c g. g) exact cs h in
      elim (selectable_of-free ids marked) [
        | inl free ↦
            outcome_of_sorted-ids tables (λ n. taken n ≡ false) entry _ (length exact) _
              (All-sort before (λ c. taken (id_of c) ≡ false) (selectable_of ids marked)
                (All-imp (Guarded-free taken ids) (selectable_of ids marked) (
                  All-both (Guarded taken ids) (λ c. contains_id ids (id_of c) ≡ false)
                    (selectable_of ids marked)
                    (All-selectable_of (Guarded taken ids) ids marked guarded) free)))
        | inr blocked ↦
            let s =
              outcome_of_sorted-autonomous tables (Blocked taken ids) entry (sort before marked)
                (length exact) (sort before (selectable_of ids marked))
                (All-sort before (Blocked taken ids) (selectable_of ids marked) (
                  All-selectable_of (Blocked taken ids) ids marked (
                    All-both (Guarded taken ids) (λ c. contains_id ids (id_of c) ≡ true) marked
                      guarded blocked)))
                e in
            absurd (
              false≢true (
                sym (auto_no_contradiction s.selected s.runner_up (s.holds.0.1 s.holds.1))
                ∙ s.resolves))
      ]
