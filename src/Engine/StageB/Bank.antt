-- ===== src/Engine/StageB/Bank.antt =====
-- `_bank_match` of engine.py.
pub mod Verified
use roborecon.Prelude.{
  ℕ, ◌*◌, Text, text_eq, Bool, true, false, not, ◌&&◌, ◌||◌, Option, none, some, List, [], ◌∷◌,
  ◌++◌, ltb, leb, ◌==◌, is_empty, length, filter, if◌then◌else◌,
}
use roborecon.Prelude.Int.{◌==ℤ◌}
use roborecon.Prelude.Order.{sort}
use roborecon.Records.{Settlement, BankCredit}
use roborecon.Engine.Model.{
  RuleCode, pass, fail, CriterionEvidence, Contradiction, bank_values, settlement_utr, evidence_of,
}
use roborecon.Engine.Reference.{CharTables, normalize_reference}
use roborecon.Engine.Time.{day, date_distance}

abbrev pub stage_b_date_window : ℕ
stage_b_date_window = 7 * day

-- the five results of `_bank_match`
pub record BankMatch : Type 0 where
  pub selected : Option BankCredit
  pub exact_utr : Bool
  pub verified : Bool
  pub evidence : List CriterionEvidence
  pub contradictions : List Contradiction

abbrev pub by_id : BankCredit → BankCredit → Bool
by_id a b = ltb a.id b.id

-- the order by distance to the settlement, then by id
unfoldable pub by_distance : Settlement → BankCredit → BankCredit → Bool
by_distance s a b =
    let left = date_distance a.business_at s.business_at in
    let right = date_distance b.business_at s.business_at in
    ltb left right || ((left == right) && ltb a.id b.id)

abbrev pub is_single {ℓ} : {A : Type ℓ} → List A → Bool
is_single xs = length xs == 1

abbrev pub unless : Bool → Contradiction → List Contradiction
unless b c = if b then [] else c ∷ []

abbrev values_of : Settlement → BankCredit → RuleCode → Bool → ℕ → CriterionEvidence
values_of s credit rule clean points =
    let observed = bank_values s.utr credit.utr s.amount credit.amount in
    if clean then evidence_of rule observed points pass else evidence_of rule observed 0 fail

unfoldable pub exact_contradictions : Settlement → Bool → BankCredit → List Contradiction
exact_contradictions s single selected =
    unless single Contradiction.bank_duplicate_contradiction
    ++ unless (text_eq selected.currency s.currency) Contradiction.bank_currency_contradiction
    ++ unless (selected.amount ==ℤ s.amount) Contradiction.bank_amount_contradiction

-- the credits have the UTR of the settlement
unfoldable pub exact_match : Settlement → Bool → BankCredit → BankMatch
unfolding exact_contradictions
exact_match s single selected =
    let contradictions = exact_contradictions s single selected in
    record {
      selected = some selected;
      exact_utr = true;
      verified = single && is_empty contradictions;
      evidence = values_of s selected RuleCode.bank_utr (is_empty contradictions) 25 ∷ [];
      contradictions = contradictions;
    }

-- the fallback on amount and date, over the sorted eligible credits
unfoldable pub fallback_match : Settlement → Bool → List BankCredit → BankMatch
fallback_match s single [] = record {
  selected = none;
  exact_utr = false;
  verified = false;
  evidence = evidence_of RuleCode.bank_credit (settlement_utr s.utr) 0 fail ∷ [];
  contradictions = [];
}
fallback_match s single (selected ∷ rest) = record {
  selected = some selected;
  exact_utr = false;
  verified = false;
  evidence = values_of s selected RuleCode.bank_amount_date single 15 ∷ [];
  contradictions = unless single Contradiction.bank_duplicate_contradiction;
}

unfoldable pub is_eligible : Settlement → BankCredit → Bool
is_eligible s credit =
    text_eq credit.currency s.currency
    && (credit.amount ==ℤ s.amount)
    && leb (date_distance credit.business_at s.business_at) stage_b_date_window

unfoldable pub match_sorted : Settlement → List BankCredit → List BankCredit → BankMatch
unfolding fallback_match exact_match filter is_eligible sort by_distance
match_sorted s credits [] =
    let eligible = filter (is_eligible s) credits in
    fallback_match s (is_single eligible) (sort (by_distance s) eligible)
match_sorted s credits (selected ∷ rest) = exact_match s (is_single (selected ∷ rest)) selected

module _ (tables : CharTables) where
  abbrev pub same_utr : Settlement → BankCredit → Bool
  same_utr s credit =
      text_eq (normalize_reference tables credit.utr) (normalize_reference tables s.utr)

  unfoldable pub bank_match : Settlement → List BankCredit → BankMatch
  unfolding match_sorted filter sort
  bank_match s credits = match_sorted s credits (sort by_id (filter (same_utr s) credits))
