-- ===== src/Engine/StageB/Bank/Verified.antt =====
-- What a verified bank match says.
use mathlib.Core.Bool.{false≢true}
use roborecon.Prelude.{
  text_eq, text_eq→≡, text_eq_refl, Bool, true, false, ◌≡◌, inl, inr, refl, sym, ◌∙◌, some, List,
  [], ◌∷◌, arith, filter, Member, Member-filter, filter-Member,
}
use roborecon.Prelude.Int.{◌==ℤ◌, ==ℤ→≡}
use roborecon.Prelude.Order.{sort, Member-sort, sort-Member}
use roborecon.Records.{Settlement, BankCredit}
use roborecon.Engine.Reference.{CharTables, normalize_reference}
use roborecon.Engine.StageB.Bank.{
  by_id, is_single, exact_match, fallback_match, match_sorted, same_utr, bank_match,
}

-- The one credit of the batch with the settlement's UTR, of its currency and amount.
pub record Credited (tables : CharTables) (s : Settlement) (credits : List BankCredit)
    (c : BankCredit) : Type 0 where
  pub in_batch : Member c credits
  pub utr : normalize_reference tables c.utr ≡ normalize_reference tables s.utr
  pub currency : c.currency ≡ s.currency
  pub amount : c.amount ≡ s.amount
  pub only :
      (d : BankCredit)
      → Member d credits
      → normalize_reference tables d.utr ≡ normalize_reference tables s.utr
      → d ≡ c

exact_match-agrees :
    (s : Settlement) (single : Bool) (c : BankCredit)
    → (exact_match s single c).verified ≡ true
    → (single ≡ true) × (text_eq c.currency s.currency ≡ true) × ((c.amount ==ℤ s.amount) ≡ true)
unfolding exact_match
exact_match-agrees s single c h = ground arith

fallback-unverified :
    (s : Settlement) (single : Bool) (cs : List BankCredit)
    → (fallback_match s single cs).verified ≡ false
unfolding fallback_match
fallback-unverified s single [] = refl
fallback-unverified s single (c ∷ cs) = refl

single-Member :
    (c d : BankCredit) (cs : List BankCredit)
    → is_single (c ∷ cs) ≡ true
    → Member d (c ∷ cs)
    → d ≡ c
single-Member c d [] h (inl e) = e
single-Member c d [] h (inr m) = absurd m.1
single-Member c d (x ∷ cs) h m = ground arith

module _ (tables : CharTables) (s : Settlement) (credits : List BankCredit) where
  match_sorted-Credited :
      (exact : List BankCredit)
      → ((c : BankCredit) → Member c exact → Member c credits × (same_utr tables s c ≡ true))
      → ((d : BankCredit) → Member d credits → same_utr tables s d ≡ true → Member d exact)
      → (match_sorted s credits exact).verified ≡ true
      → (c : BankCredit) × ((match_sorted s credits exact).selected ≡ some c)
        × ((match_sorted s credits exact).exact_utr ≡ true)
        × Credited tables s credits c
  unfolding match_sorted exact_match
  match_sorted-Credited [] from to h = absurd (false≢true (sym (fallback-unverified s _ _) ∙ h))
  match_sorted-Credited (c ∷ cs) from to h =
      let agrees = exact_match-agrees s (is_single (c ∷ cs)) c h in
      let found = from c (inl refl) in
      (
        c,
        refl,
        refl,
        record {
          in_batch = found.0;
          utr = text_eq→≡ _ _ found.1;
          currency = text_eq→≡ _ _ agrees.1;
          amount = ==ℤ→≡ _ _ agrees.2;
          only = λ d m e. single-Member c d cs agrees.0 (to d m (rw e (text_eq_refl _)));
        },
      )

  -- If the bank match of a settlement is verified, then its credit was selected by UTR. It is the
  -- only credit of the batch with the settlement's normalized UTR, and has its currency and amount.
  pub bank_match-Credited :
      (bank_match tables s credits).verified ≡ true
      → (c : BankCredit) × ((bank_match tables s credits).selected ≡ some c)
        × ((bank_match tables s credits).exact_utr ≡ true)
        × Credited tables s credits c
  unfolding bank_match
  bank_match-Credited =
      match_sorted-Credited (sort by_id (filter (same_utr tables s) credits))
        (λ c m. Member-filter (same_utr tables s) c credits (Member-sort by_id c _ m))
        (λ d m e. sort-Member by_id d _ (filter-Member (same_utr tables s) d credits m e))
