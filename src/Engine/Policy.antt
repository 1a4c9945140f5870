-- ===== src/Engine/Policy.antt =====
-- apps/api/app/reconciliation/policy.py
use roborecon.Prelude.{
  ℕ, ◌≡◌, arith, Option, none, some, Bool, true, not, ◌&&◌, ◌||◌, leb, is_empty,
}
use roborecon.Prelude.Int.{pos, leb_ℤ, sub_ℕ}
use roborecon.Engine.Model.{ScoredCandidate}

abbrev pub autonomous_score : ℕ
autonomous_score = 90

abbrev pub autonomous_margin : ℕ
autonomous_margin = 15

-- `runner_up.score if runner_up else 0`
abbrev pub score_of : Option ScoredCandidate → ℕ
score_of none = 0
score_of (some candidate) = candidate.score

unfoldable pub can_auto_resolve : ScoredCandidate → Option ScoredCandidate → Bool
can_auto_resolve candidate runner_up =
    let margin = sub_ℕ candidate.score (score_of runner_up) in
    is_empty candidate.contradictions
    && not candidate.duplicate
    && (candidate.exact_identifier_chain
        || candidate.verified_settlement_math
        || (leb autonomous_score candidate.score && leb_ℤ (pos autonomous_margin) margin))

-- A candidate that resolves has no contradiction.
pub auto_clean :
    (c : ScoredCandidate) (r : Option ScoredCandidate)
    → can_auto_resolve c r ≡ true
    → is_empty c.contradictions ≡ true
unfolding can_auto_resolve
auto_clean c r h = ground arith
