-- ===== src/Engine/StageA/Score/Bounds.antt =====
-- The score against its evidence.
use roborecon.Prelude.{ℕ, ◌+◌, min, ◌≡◌, refl, Option, none, some, List, [], ◌∷◌, arith}
use roborecon.Records.{LedgerEntry}
use roborecon.Engine.Model.{CriterionEvidence}
use roborecon.Engine.Reference.{CharTables}
use roborecon.Engine.StageA.Pool.{StageACandidate}
use roborecon.Engine.StageA.Eligible.{matching_identifier}
use roborecon.Engine.StageA.Score.{
  currency_criterion, reference_criterion, amount_criterion, date_criterion, lifecycle_criterion,
  chain_criterion, stage_a_score,
}

abbrev pub total_points : List CriterionEvidence → ℕ
total_points [] = 0
total_points (e ∷ es) = e.points + total_points es

module _ (tables : CharTables) (entry : LedgerEntry) (c : StageACandidate) where
  currency_criterion-points : (currency_criterion tables entry c).evidence.points ≡ 0
  unfolding currency_criterion
  currency_criterion-points = ground arith

  reference_criterion-points :
      (o : Option (List ℕ))
      → (reference_criterion tables entry c o).evidence.points
        ≡ (reference_criterion tables entry c o).points
  unfolding reference_criterion
  reference_criterion-points none = ground arith
  reference_criterion-points (some i) = refl

  amount_criterion-points :
      (amount_criterion tables entry c).evidence.points ≡ (amount_criterion tables entry c).points
  unfolding amount_criterion
  amount_criterion-points = ground arith

  date_criterion-points :
      (date_criterion tables entry c).evidence.points ≡ (date_criterion tables entry c).points
  unfolding date_criterion
  date_criterion-points = ground arith

  lifecycle_criterion-points :
      (lifecycle_criterion tables entry c).evidence.points
      ≡ (lifecycle_criterion tables entry c).points
  unfolding lifecycle_criterion
  lifecycle_criterion-points = ground arith

  -- The score of stage A is explained by its evidence: it is the sum of the points of the
  -- observations, cut off at 100.
  pub stage_a_score-eq-points :
      (stage_a_score tables entry c).score
      ≡ min (total_points (stage_a_score tables entry c).evidence) 100
  unfolding stage_a_score chain_criterion
  stage_a_score-eq-points = omega (
    arith,
    currency_criterion-points,
    reference_criterion-points (matching_identifier tables entry c),
    amount_criterion-points,
    date_criterion-points,
    lifecycle_criterion-points,
  )
