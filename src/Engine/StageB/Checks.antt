-- ===== src/Engine/StageB/Checks.antt =====
-- The checks of `_stage_b_candidate` of engine.py, and the contradictions that they leave. The facts
-- of the related settlements are looked up first: a missing key, Python's `KeyError`, is `none`.
use roborecon.Prelude.{
  ℕ, ◌+◌, Text, text_eq, Bool, not, ◌&&◌, Option, none, some, List, [], ◌∷◌, ◌++◌, map, ltb, ◌==◌,
  is_empty, filter, any, all, ◌>>=◌, if◌then◌else◌,
}
use roborecon.Prelude.Int.{ℤ, pos, neg, ltb_ℤ, ◌==ℤ◌, sum_ℤ}
use roborecon.Prelude.Order.{sort}
use roborecon.Prelude.Dict.{lookup}
use roborecon.Enums.{SettlementLineType, line_type_eq}
use roborecon.Records.{RazorpayPayment, RazorpayRefund, Settlement, SettlementLine, BankCredit}
use roborecon.Engine.Model.{Contradiction}
use roborecon.Engine.Reference.{CharTables, normalize_reference, same_reference}
use roborecon.Engine.Candidates.{distinct}
use roborecon.Engine.Candidates.Resources.{contradiction_eq, labelled, text_lt}
use roborecon.Engine.StageB.Facts.{SettlementFacts}
use roborecon.Engine.StageB.Bank.{bank_match, unless}
use roborecon.Engine.StageB.Release.{id_eq, LinesBySettlement, related_lines, release_lines}

-- `c in contradictions`
unfoldable pub has : Contradiction → List Contradiction → Bool
unfolding any
has c contradictions = any (contradiction_eq c) contradictions

abbrev pub concat : List (List Contradiction) → List Contradiction
concat [] = []
concat (cs ∷ css) = cs ++ concat css

-- A related settlement with its facts.
abbrev pub Related : Type 0
Related = Settlement × SettlementFacts

-- `facts_by_id[settlement.id]` for each related settlement
unfoldable pub with_facts : List (ℕ × SettlementFacts) → List Settlement → Option (List Related)
unfolding lookup
with_facts facts_by_id [] = some []
with_facts facts_by_id (s ∷ ss) = do
  facts ← lookup id_eq s.id facts_by_id
  rest ← with_facts facts_by_id ss
  some ((s, facts) ∷ rest)

abbrev pub settlements_of : List Related → List Settlement
settlements_of = map (λ r. r.0)

-- one distinct key after another
count_keys : List (SettlementLineType × Text) → SettlementLineType × Text → ℕ
count_keys [] key = 0
count_keys (k ∷ ks) key =
    (if line_type_eq key.0 k.0 && text_eq key.1 k.1 then 1 else 0) + count_keys ks key

distinct_texts : List Text → List Text
unfolding filter
distinct_texts [] = []
distinct_texts (t ∷ ts) = t ∷ filter (λ u. not (text_eq t u)) (distinct_texts ts)

module _ (tables : CharTables) where
  unfoldable pub is_line_of : SettlementLineType → RazorpayPayment → SettlementLine → Bool
  is_line_of kind p line =
      line_type_eq line.line_type kind && same_reference tables line.reference p.provider_payment_id

  unfoldable pub currency_matches : RazorpayPayment → List Settlement → Bool
  unfolding all
  currency_matches p = all (λ s. text_eq p.currency (Settlement.currency s))

  unfoldable pub payment_lines :
      RazorpayPayment → List Settlement → LinesBySettlement → List SettlementLine
  unfolding filter
  payment_lines p related by_settlement =
      filter (is_line_of SettlementLineType.payment p) (related_lines by_settlement related)

  unfoldable pub refund_lines :
      RazorpayPayment → List Settlement → LinesBySettlement → List SettlementLine
  unfolding filter
  refund_lines p related by_settlement =
      filter (is_line_of SettlementLineType.refund p) (related_lines by_settlement related)

  -- there is a line of the payment, and each has its amount
  unfoldable pub payment_lines_agree : RazorpayPayment → List SettlementLine → Bool
  unfolding any
  payment_lines_agree p lines =
      not (is_empty lines) && not (any (λ l. not (SettlementLine.amount l ==ℤ p.amount)) lines)

  reference_keys : List SettlementLine → List (SettlementLineType × Text)
  reference_keys [] = []
  reference_keys (l ∷ ls) =
      let reference = normalize_reference tables l.reference in
      if is_empty reference then reference_keys ls else (l.line_type, reference) ∷ reference_keys ls

  unfoldable pub duplicate_line_references : List SettlementLine → List Text
  unfolding reference_keys count_keys distinct_texts filter sort
  duplicate_line_references lines =
      let keys = reference_keys lines in
      sort text_lt (
        distinct_texts (map (λ k. labelled k.0 k.1) (filter (λ k. ltb 1 (count_keys keys k)) keys)))

  -- the body of the loop over the payment's refunds
  unfoldable pub refund_contradictions :
      RazorpayPayment → List SettlementLine → RazorpayRefund → List Contradiction
  unfolding any
  refund_contradictions p lines r =
      unless (text_eq r.currency p.currency) Contradiction.refund_currency_contradiction
      ++ unless (not (ltb_ℤ p.amount r.amount)) Contradiction.refund_amount_contradiction
      ++ unless (any (λ l. SettlementLine.amount l ==ℤ neg r.amount) lines)
          Contradiction.refund_amount_contradiction

  -- the release lines of a held settlement among the other related settlements
  unfoldable pub releases_of :
      Settlement → List Settlement → LinesBySettlement → List (Settlement × SettlementLine)
  unfolding release_lines filter
  releases_of held related by_settlement =
      release_lines tables held (filter (λ s. not (Settlement.id s == held.id)) related)
        by_settlement

  abbrev pub released_amount : List (Settlement × SettlementLine) → ℤ
  released_amount entries = sum_ℤ (map (λ r. (r.1).amount) entries)

  unfoldable pub release_ok : Related → List Settlement → LinesBySettlement → Bool
  release_ok held related by_settlement =
      let entries = releases_of held.0 related by_settlement in
      not (is_empty entries) && (released_amount entries ==ℤ (held.1).totals.held_amount)

  unfoldable pub hold_settlements : List Related → List Related
  unfolding filter
  hold_settlements = filter (λ r. ltb_ℤ (pos 0) (SettlementFacts.totals r.1).held_amount)

  -- the body of the loop over the related settlements' bank credits
  unfoldable pub bank_contradictions : List BankCredit → Settlement → List Contradiction
  bank_contradictions credits s =
      let m = bank_match tables s credits in
      m.contradictions
      ++ elim m.selected [ none ↦ Contradiction.bank_credit_missing ∷ [] | some _ ↦ [] ]

  unfoldable pub bank_is_verified : List BankCredit → Settlement → Bool
  bank_is_verified credits s = let m = bank_match tables s credits in m.exact_utr && m.verified

  module _ (p : RazorpayPayment) (related : List Related) (by_settlement : LinesBySettlement)
      (refunds : List RazorpayRefund) (credits : List BankCredit) where
    -- The contradictions up to each point of the source.
    unfoldable pub after_currency : List Contradiction
    after_currency =
        unless (currency_matches p (settlements_of related)) Contradiction.currency_contradiction

    unfoldable pub after_payment : List Contradiction
    unfolding after_currency
    after_payment =
        after_currency
        ++ unless (payment_lines_agree p (payment_lines p (settlements_of related) by_settlement))
            Contradiction.payment_amount_contradiction

    unfoldable pub after_lines : List Contradiction
    unfolding after_payment
    after_lines =
        after_payment
        ++ unless
            (is_empty
              (duplicate_line_references (related_lines by_settlement (settlements_of related))))
            Contradiction.duplicate_line_reference

    unfoldable pub after_refunds : List Contradiction
    unfolding after_lines
    after_refunds =
        after_lines
        ++ concat (
            map (refund_contradictions p (refund_lines p (settlements_of related) by_settlement))
              refunds)

    unfoldable pub after_facts : List Contradiction
    unfolding after_refunds
    after_facts = after_refunds ++ concat (map (λ r. SettlementFacts.contradictions r.1) related)

    unfoldable pub after_holds : List Contradiction
    unfolding after_facts
    after_holds =
        after_facts
        ++ concat (
            map
              (λ h.
                unless (release_ok h (settlements_of related) by_settlement)
                  Contradiction.hold_release_missing)
              (hold_settlements related))

    unfoldable pub all_contradictions : List Contradiction
    unfolding after_holds distinct
    all_contradictions =
        distinct
          (after_holds ++ concat (map (bank_contradictions credits) (settlements_of related)))
