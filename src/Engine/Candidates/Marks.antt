-- ===== src/Engine/Candidates/Marks.antt =====
-- What the mark of a batch collision changes.
use mathlib.Core.Bool.{false≢true}
use roborecon.Prelude.{
  ℕ, Bool, true, false, not, ◌≡◌, refl, sym, ◌∙◌, List, [], ◌∷◌, ◌++◌, arith, is_empty,
}
use roborecon.Engine.Model.{ScoredCandidate, Contradiction, Resource}
use roborecon.Engine.Candidates.{distinct, is_reserved, batch_collision_ids, mark}

abbrev pub taken : List Resource → ℕ → Bool
taken reserved_ids n = is_reserved reserved_ids (Resource.record_id n)

distinct-append :
    (cs : List Contradiction) (c : Contradiction) → is_empty (distinct (cs ++ c ∷ [])) ≡ false
unfolding distinct
distinct-append [] c = refl
distinct-append (d ∷ cs) c = refl

pub not_is_true : (b : Bool) → not b ≡ true → b ≡ false
not_is_true b h = ground arith

-- A mark is left exactly where the candidate's own id is reserved.
pub collision-taken :
    (s : ScoredCandidate) (reserved_ids : List Resource)
    → is_empty (batch_collision_ids s reserved_ids []) ≡ not (taken reserved_ids s.candidate_id)
unfolding batch_collision_ids
collision-taken s reserved_ids = ground arith

pub mark-empty :
    (s : ScoredCandidate) (ids : List Resource)
    → is_empty (mark s ids).contradictions ≡ true
    → (is_empty s.contradictions ≡ true) × (is_empty ids ≡ true)
unfolding mark
mark-empty s [] h = (h, refl)
mark-empty s (r ∷ rs) h =
    absurd (false≢true (sym (distinct-append s.contradictions Contradiction.batch_collision) ∙ h))

pub mark-same :
    (s : ScoredCandidate) (ids : List Resource)
    → ((mark s ids).candidate_id ≡ s.candidate_id)
      × ((mark s ids).score ≡ s.score)
      × ((mark s ids).exact_identifier_chain ≡ s.exact_identifier_chain)
      × ((mark s ids).verified_settlement_math ≡ s.verified_settlement_math)
unfolding mark
mark-same s [] = (refl, refl, refl, refl)
mark-same s (r ∷ rs) = (refl, refl, refl, refl)

-- A mark that leaves no contradiction has left the candidate as it was.
pub mark-clean :
    (s : ScoredCandidate) (ids : List Resource)
    → is_empty (mark s ids).contradictions ≡ true
    → mark s ids ≡ s
unfolding mark
mark-clean s [] h = refl
mark-clean s (r ∷ rs) h =
    absurd (false≢true (sym (distinct-append s.contradictions Contradiction.batch_collision) ∙ h))

-- Two lists whose distinct elements are none are empty.
pub distinct-empty :
    (xs ys : List Contradiction)
    → is_empty (distinct (xs ++ ys)) ≡ true
    → (is_empty xs ≡ true) × (is_empty ys ≡ true)
unfolding distinct
distinct-empty [] [] h = (refl, refl)
distinct-empty [] (y ∷ ys) h = absurd (false≢true h)
distinct-empty (x ∷ xs) ys h = absurd (false≢true h)
