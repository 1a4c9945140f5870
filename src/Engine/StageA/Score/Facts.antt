-- ===== src/Engine/StageA/Score/Facts.antt =====
-- What a score with no contradiction says of the ledger entry and the provider record.
use roborecon.Prelude.{
  ◌*◌, ◌≤◌, ◌≡◌, ◌⊎◌, refl, true, Option, none, some, ◌++◌, arith, is_empty, is_empty-append,
  text_eq, text_eq→≡,
}
use roborecon.Prelude.Int.{ℤ, ◌≤ℤ◌}
use roborecon.Records.{LedgerEntry}
use roborecon.Engine.Model.{CandidateKind, payment, refund}
use roborecon.Engine.Reference.{CharTables}
use roborecon.Engine.Time.{day, date_distance}
use roborecon.Engine.StageA.Pool.{StageACandidate}
use roborecon.Engine.StageA.Eligible.{refund_amount_matches}
use roborecon.Engine.StageA.Score.{
  amount_matches, currency_criterion, amount_criterion, date_criterion, lifecycle_criterion,
  stage_a_score,
}

-- A payment has the entry's amount. A refund is at most its payment, and the entry has the amount
-- of the one or of the other.
abbrev pub AmountAgrees : CandidateKind → ℤ → ℤ → Option ℤ → Type 0
AmountAgrees payment entry_amount amount parent_amount = amount ≡ entry_amount
AmountAgrees refund entry_amount amount parent_amount =
    (parent : ℤ) × (parent_amount ≡ some parent)
    × (amount ≤ℤ parent)
    × ((entry_amount ≡ amount) ⊎ (entry_amount ≡ parent))

pub record Agrees (entry : LedgerEntry) (c : StageACandidate) : Type 0 where
  pub currency : c.currency ≡ entry.currency
  pub amount : AmountAgrees c.kind entry.amount c.amount c.parent_amount
  pub date : date_distance entry.business_at c.business_at ≤ 7 * day
  pub captured : c.captured ≡ true

refund_amount_matches-agrees :
    (e a : ℤ) (p : Option ℤ) → refund_amount_matches e a p ≡ true → AmountAgrees refund e a p
unfolding refund_amount_matches
refund_amount_matches-agrees e a none h = ground arith
refund_amount_matches-agrees e a (some p) h = (p, refl, ground arith, ground arith)

amount_matches-agrees :
    (k : CandidateKind) (tables : CharTables) (entry : LedgerEntry) (c : StageACandidate)
    → amount_matches tables k entry c ≡ true
    → AmountAgrees k entry.amount c.amount c.parent_amount
unfolding amount_matches
amount_matches-agrees payment tables entry c h = ground arith
amount_matches-agrees refund tables entry c h = refund_amount_matches-agrees _ _ _ h

module _ (tables : CharTables) (entry : LedgerEntry) (c : StageACandidate) where
  currency_criterion-clean :
      is_empty (currency_criterion tables entry c).contradiction ≡ true
      → text_eq c.currency entry.currency ≡ true
  unfolding currency_criterion
  currency_criterion-clean h = ground arith

  amount_criterion-clean :
      is_empty (amount_criterion tables entry c).contradiction ≡ true
      → amount_matches tables c.kind entry c ≡ true
  unfolding amount_criterion
  amount_criterion-clean h = ground arith

  date_criterion-clean :
      is_empty (date_criterion tables entry c).contradiction ≡ true
      → date_distance entry.business_at c.business_at ≤ 7 * day
  unfolding date_criterion
  date_criterion-clean h = ground arith

  lifecycle_criterion-clean :
      is_empty (lifecycle_criterion tables entry c).contradiction ≡ true → c.captured ≡ true
  unfolding lifecycle_criterion
  lifecycle_criterion-clean h = ground arith

  -- If a record is scored without a contradiction, its currency, amount, date and lifecycle agree
  -- with the ledger entry.
  pub stage_a_score-Agrees :
      is_empty (stage_a_score tables entry c).contradictions ≡ true → Agrees entry c
  unfolding stage_a_score
  stage_a_score-Agrees h =
      let by_currency = (currency_criterion tables entry c).contradiction in
      let by_amount = (amount_criterion tables entry c).contradiction in
      let by_date = (date_criterion tables entry c).contradiction in
      let last = is_empty-append (by_currency ++ by_amount ++ by_date) _ h in
      let third = is_empty-append (by_currency ++ by_amount) by_date last.0 in
      let second = is_empty-append by_currency by_amount third.0 in
      record {
        currency = text_eq→≡ _ _ (currency_criterion-clean second.0);
        amount = amount_matches-agrees c.kind tables entry c (amount_criterion-clean second.1);
        date = date_criterion-clean third.1;
        captured = lifecycle_criterion-clean last.1;
      }
