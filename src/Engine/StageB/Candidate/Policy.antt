-- ===== src/Engine/StageB/Candidate/Policy.antt =====
-- What the policy demands of a candidate of stage B.
use roborecon.Prelude.{
  ◌+◌, ◌≤◌, min, text_eq→≡, Bool, true, false, not, ◌&&◌, ◌≡◌, refl, sym, ◌∙◌, Option, List, [],
  ◌∷◌, map, arith, leb, ◌==◌, ==→≡, is_empty, is_empty-append, length, length-map, any-false,
  all-true, All, All-imp, if◌then◌else◌, Bool-cases, inl, inr,
}
use roborecon.Prelude.Int.{==ℤ→≡}
use roborecon.Records.{RazorpayPayment, RazorpayRefund, Settlement, SettlementLine, BankCredit}
use roborecon.Engine.Model.{Contradiction, ScoredCandidate}
use roborecon.Engine.Policy.{can_auto_resolve, auto_clean}
use roborecon.Engine.Reference.{CharTables}
use roborecon.Engine.Candidates.Marks.{distinct-empty}
use roborecon.Engine.StageB.Facts.{SettlementFacts}
use roborecon.Engine.StageB.Bank.{unless}
use roborecon.Engine.StageB.Bank.Verified.{Credited, bank_match-Credited}
use roborecon.Engine.StageB.Release.{LinesBySettlement}
use roborecon.Engine.StageB.Checks.{
  Related, settlements_of, concat, currency_matches, payment_lines, payment_lines_agree, release_ok,
  hold_settlements, bank_is_verified, after_currency, after_payment, after_lines, after_refunds,
  after_facts, after_holds, all_contradictions,
}
use roborecon.Engine.StageB.Candidate.{exact_bank_count, stage_b_score, stage_b_candidate}

-- A sum of these parts reaches 90 only with the 25 points of the bank.
score_needs_bank :
    (math lines every some_bank held : Bool)
    → leb 90 (
        min
          ((if math then 50 else 0)
            + (if lines then 10 else 0)
            + (if every then 25 else if some_bank then 15 else 0)
            + (if held then 10 else 0))
          100)
      ≡ true
    → every ≡ true
score_needs_bank math lines every some_bank held h = ground arith

auto_needs :
    (c : ScoredCandidate) (r : Option ScoredCandidate)
    → can_auto_resolve c r ≡ true
    → c.exact_identifier_chain ≡ false
    → c.verified_settlement_math ≡ false
    → leb 90 c.score ≡ true
unfolding can_auto_resolve
auto_needs c r h x v = ground arith

and_right : (a b : Bool) → (a && b) ≡ true → b ≡ true
and_right a b h = ground arith

not_is_true : (b : Bool) → not b ≡ false → b ≡ true
not_is_true b h = ground arith

both_not : (a b : Bool) → (not a && not b) ≡ true → (a ≡ false) × (b ≡ false)
both_not a b h = ground arith

and_false : (a b : Bool) → b ≡ false → (a && b) ≡ false
and_false a b h = ground arith

concat-empty {ℓ} :
    {A : Type ℓ} (f : A → List Contradiction) (xs : List A)
    → is_empty (concat (map f xs)) ≡ true
    → All (λ x. is_empty (f x) ≡ true) xs
concat-empty f [] h = tt
concat-empty f (x ∷ xs) h =
    let parts = is_empty-append (f x) (concat (map f xs)) h in (parts.0, concat-empty f xs parts.1)

unless-empty : (b : Bool) (c : Contradiction) → is_empty (unless b c) ≡ true → b ≡ true
unless-empty b c h = ground arith

module _ (tables : CharTables) (credits : List BankCredit) where
  exact_bank_count-le : (ss : List Settlement) → exact_bank_count tables credits ss ≤ length ss
  unfolding exact_bank_count
  exact_bank_count-le [] = omega arith
  exact_bank_count-le (s ∷ ss) = ground (arith, exact_bank_count-le ss)

  -- The count reaches the number of settlements only if each is verified.
  exact_bank_count-All :
      (ss : List Settlement)
      → exact_bank_count tables credits ss ≡ length ss
      → All (λ s. bank_is_verified tables credits s ≡ true) ss
  unfolding exact_bank_count
  exact_bank_count-All [] h = tt
  exact_bank_count-All (s ∷ ss) h = ground (arith, exact_bank_count-le ss, exact_bank_count-All ss)

module _ (tables : CharTables) (p : RazorpayPayment) (base : Settlement) (related : List Related)
    (by_settlement : LinesBySettlement) (refunds : List RazorpayRefund)
    (credits : List BankCredit) where
  abbrev settlements : List Settlement
  settlements = settlements_of related

  -- What backs a payment: the settlements are in its currency, and each has one bank credit, by its
  -- UTR, of its currency and amount; the lines of the payment are there and have its amount; the
  -- facts of each settlement have no contradiction; each held amount has been released.
  pub record Backed : Type 0 where
    pub currency : All (λ s. p.currency ≡ Settlement.currency s) settlements
    pub has_line : is_empty (payment_lines tables p settlements by_settlement) ≡ false
    pub line_amounts :
        All
          (λ l. SettlementLine.amount l ≡ p.amount)
          (payment_lines tables p settlements by_settlement)
    pub facts : All (λ r. is_empty (SettlementFacts.contradictions r.1) ≡ true) related
    pub released :
        All
          (λ h. release_ok tables h settlements by_settlement ≡ true)
          (hold_settlements tables related)
    pub banks : All (λ s. (c : BankCredit) × Credited tables s credits c) settlements

  lines_agree :
      (lines : List SettlementLine)
      → payment_lines_agree tables p lines ≡ true
      → (is_empty lines ≡ false) × All (λ l. SettlementLine.amount l ≡ p.amount) lines
  unfolding payment_lines_agree
  lines_agree lines h =
      let parts = both_not _ _ h in
      (parts.0, All-imp (λ l e. ==ℤ→≡ _ _ (not_is_true _ e)) lines (any-false _ lines parts.1))

  credited :
      (s : Settlement)
      → bank_is_verified tables credits s ≡ true
      → (c : BankCredit) × Credited tables s credits c
  unfolding bank_is_verified
  credited s e =
      let found = bank_match-Credited tables s credits (and_right _ _ e) in (found.0, found.3)

  every_bank :
      (r : Option ScoredCandidate)
      → can_auto_resolve (stage_b_candidate tables p base related by_settlement refunds credits) r
        ≡ true
      → (exact_bank_count tables credits settlements == length related) ≡ true
  unfolding stage_b_candidate stage_b_score
  every_bank r h =
      elim (Bool-cases (exact_bank_count tables credits settlements == length related)) [
        | inl t ↦ t
        | inr f ↦ score_needs_bank _ _ _ _ _ (
            auto_needs (stage_b_candidate tables p base related by_settlement refunds credits) r h
              refl (and_false _ _ f))
      ]

  -- A candidate of stage B that the policy resolves is backed, whatever the runner-up.
  pub stage_b_candidate-Backed :
      (r : Option ScoredCandidate)
      → can_auto_resolve (stage_b_candidate tables p base related by_settlement refunds credits) r
        ≡ true
      → Backed
  unfolding stage_b_candidate all_contradictions currency_matches
  stage_b_candidate-Backed r h =
      let clean =
        auto_clean (stage_b_candidate tables p base related by_settlement refunds credits) r h in
      let ends =
        distinct-empty (after_holds tables p related by_settlement refunds credits) _ clean in
      let held =
        is_empty-append (after_facts tables p related by_settlement refunds credits) _ ends.0 in
      let facts =
        is_empty-append (after_refunds tables p related by_settlement refunds credits) _ held.0 in
      let refunded =
        is_empty-append (after_lines tables p related by_settlement refunds credits) _ facts.0 in
      let lined =
        is_empty-append (after_payment tables p related by_settlement refunds credits) _
          refunded.0 in
      let paid =
        is_empty-append (after_currency tables p related by_settlement refunds credits) _ lined.0 in
      let lines = payment_lines tables p settlements by_settlement in
      let agree = lines_agree lines (unless-empty _ _ paid.1) in
      record {
        currency =
            All-imp (λ s e. text_eq→≡ _ _ e) settlements
              (all-true _ settlements (unless-empty _ _ paid.0));
        has_line = agree.0;
        line_amounts = agree.1;
        facts = concat-empty (λ q. SettlementFacts.contradictions q.1) related facts.1;
        released =
            All-imp (λ q e. unless-empty _ _ e) (hold_settlements tables related)
              (concat-empty _ (hold_settlements tables related) held.1);
        banks =
            All-imp (λ s e. credited s e) settlements
              (exact_bank_count-All tables credits settlements
                (==→≡ _ _ (every_bank r h) ∙ sym (length-map _ related)));
      }
