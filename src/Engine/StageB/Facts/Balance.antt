-- ===== src/Engine/StageB/Facts/Balance.antt =====
-- The arithmetic of a settlement whose facts have no contradiction.
use mathlib.Core.Bool.{false≢true}
use roborecon.Prelude.{
  Text, text_eq, text_eq→≡, Bool, true, false, ◌≡◌, refl, sym, ◌∙◌, inl, inr, List, [], ◌∷◌, ◌++◌,
  arith, is_empty, Bool-cases, All, is_empty-append, if◌then◌else◌,
}
use roborecon.Prelude.Int.{ℤ, pos, ◌+ℤ◌, ltb_ℤ, int_laws}
use roborecon.Enums.{SettlementLineType, transfer, fee, tax, hold, release, adjustment}
use roborecon.Records.{Settlement, SettlementLine}
use roborecon.Engine.Model.{Contradiction, SettlementTotals}
use roborecon.Engine.Candidates.Marks.{distinct-empty}
use roborecon.Engine.StageB.Facts.{
  Tally, no_totals, flag, add_kind, add_line, tally_lines, expected_of, unless_equal,
  reported_contradictions, settlement_facts,
}

-- The amount of a line as it counts for the settlement: transfer lines do not count.
abbrev pub counted : SettlementLineType → ℤ → ℤ
counted transfer amount = pos 0
counted _ amount = amount

-- The sum of the lines, and the sums of the debits by type, as independent recursions.
abbrev pub net_of : List SettlementLine → ℤ
net_of [] = pos 0
net_of (l ∷ ls) = counted l.line_type l.amount +ℤ net_of ls

abbrev fee_part : SettlementLineType → ℤ → ℤ
fee_part fee amount = amount
fee_part _ amount = pos 0

abbrev tax_part : SettlementLineType → ℤ → ℤ
tax_part tax amount = amount
tax_part _ amount = pos 0

abbrev hold_part : SettlementLineType → ℤ → ℤ
hold_part hold amount = amount
hold_part _ amount = pos 0

abbrev pub sum_part : (SettlementLineType → ℤ → ℤ) → List SettlementLine → ℤ
sum_part part [] = pos 0
sum_part part (l ∷ ls) = part l.line_type l.amount +ℤ sum_part part ls

-- What one line adds to a tally that stays without contradictions.
record Adds (t u : Tally) (k : SettlementLineType) (amount : ℤ) : Type 0 where
  before : is_empty t.contradictions ≡ true
  net : expected_of u.totals ≡ expected_of t.totals +ℤ counted k amount
  fees : u.totals.fee_debits +ℤ fee_part k amount ≡ t.totals.fee_debits
  taxes : u.totals.tax_debits +ℤ tax_part k amount ≡ t.totals.tax_debits
  holds : u.totals.held_amount +ℤ hold_part k amount ≡ t.totals.held_amount

snoc-empty : (cs : List Contradiction) (c : Contradiction) → is_empty (cs ++ c ∷ []) ≡ false
snoc-empty [] c = refl
snoc-empty (d ∷ cs) c = refl

guarded_branch :
    (b : Bool) (c : Contradiction) (t u : Tally)
    → is_empty (if b then flag c t else u).contradictions ≡ true
    → b ≡ false
guarded_branch true c t u h = absurd (false≢true (sym (snoc-empty t.contradictions c) ∙ h))
guarded_branch false c t u h = refl

add_kind-Adds :
    (k : SettlementLineType) (amount : ℤ) (t : Tally)
    → is_empty (add_kind k amount t).contradictions ≡ true
    → Adds t (add_kind k amount t) k amount
unfolding add_kind expected_of
add_kind-Adds SettlementLineType.payment amount t h =
    let right : ltb_ℤ amount (pos 0) ≡ false =
      guarded_branch _ Contradiction.payment_direction_contradiction _ _ h in
    rw right (record {
      before = rw right at h;
      net = omega int_laws;
      fees = omega int_laws;
      taxes = omega int_laws;
      holds = omega int_laws;
    })
add_kind-Adds SettlementLineType.refund amount t h =
    let right : ltb_ℤ (pos 0) amount ≡ false =
      guarded_branch _ Contradiction.refund_direction_contradiction t _ h in
    rw right (record {
      before = rw right at h;
      net = omega int_laws;
      fees = omega int_laws;
      taxes = omega int_laws;
      holds = omega int_laws;
    })
add_kind-Adds transfer amount t h = record {
  before = h;
  net = omega int_laws;
  fees = omega int_laws;
  taxes = omega int_laws;
  holds = omega int_laws;
}
add_kind-Adds fee amount t h =
    let right : ltb_ℤ (pos 0) amount ≡ false =
      guarded_branch _ Contradiction.fee_direction_contradiction t _ h in
    rw right (record {
      before = rw right at h;
      net = omega int_laws;
      fees = omega int_laws;
      taxes = omega int_laws;
      holds = omega int_laws;
    })
add_kind-Adds tax amount t h =
    let right : ltb_ℤ (pos 0) amount ≡ false =
      guarded_branch _ Contradiction.tax_direction_contradiction t _ h in
    rw right (record {
      before = rw right at h;
      net = omega int_laws;
      fees = omega int_laws;
      taxes = omega int_laws;
      holds = omega int_laws;
    })
add_kind-Adds hold amount t h =
    let right : ltb_ℤ (pos 0) amount ≡ false =
      guarded_branch _ Contradiction.hold_direction_contradiction t _ h in
    rw right (record {
      before = rw right at h;
      net = omega int_laws;
      fees = omega int_laws;
      taxes = omega int_laws;
      holds = omega int_laws;
    })
add_kind-Adds release amount t h =
    let right : ltb_ℤ amount (pos 0) ≡ false =
      guarded_branch _ Contradiction.release_direction_contradiction t _ h in
    rw right (record {
      before = rw right at h;
      net = omega int_laws;
      fees = omega int_laws;
      taxes = omega int_laws;
      holds = omega int_laws;
    })
add_kind-Adds adjustment amount t h = record {
  before = h;
  net = omega int_laws;
  fees = omega int_laws;
  taxes = omega int_laws;
  holds = omega int_laws;
}

-- The sums over the lines from a tally to another, all lines being in the currency.
record Sums (currency : Text) (t u : Tally) (lines : List SettlementLine) : Type 0 where
  before : is_empty t.contradictions ≡ true
  net : expected_of u.totals ≡ expected_of t.totals +ℤ net_of lines
  fees : u.totals.fee_debits +ℤ sum_part fee_part lines ≡ t.totals.fee_debits
  taxes : u.totals.tax_debits +ℤ sum_part tax_part lines ≡ t.totals.tax_debits
  holds : u.totals.held_amount +ℤ sum_part hold_part lines ≡ t.totals.held_amount
  currencies : All (λ l. SettlementLine.currency l ≡ currency) lines

add_line-Adds :
    (currency : Text) (l : SettlementLine) (t : Tally)
    → is_empty (add_line currency l t).contradictions ≡ true
    → Adds t (add_line currency l t) l.line_type l.amount × (l.currency ≡ currency)
unfolding add_line
add_line-Adds currency l t h = elim (Bool-cases (text_eq l.currency currency)) [
  | inl same ↦ (rw same (add_kind-Adds l.line_type l.amount t (rw same at h)), text_eq→≡ _ _ same)
  | inr other ↦
      let adds =
        add_kind-Adds l.line_type l.amount (flag Contradiction.line_currency_contradiction t)
          (rw other at h) in
      absurd (false≢true (sym (snoc-empty t.contradictions _) ∙ adds.before))
]

Sums-cons :
    (currency : Text) (l : SettlementLine) (ls : List SettlementLine) (t u v : Tally)
    → Adds t u l.line_type l.amount
    → l.currency ≡ currency
    → Sums currency u v ls
    → Sums currency t v (l ∷ ls)
Sums-cons currency l ls t u v a c r = record {
  before = a.before;
  net = rw (r.net, a.net) (omega int_laws);
  fees = rw (← a.fees, ← r.fees) (omega int_laws);
  taxes = rw (← a.taxes, ← r.taxes) (omega int_laws);
  holds = rw (← a.holds, ← r.holds) (omega int_laws);
  currencies = (c, r.currencies);
}

tally_lines-Sums :
    (currency : Text) (lines : List SettlementLine) (t : Tally)
    → is_empty (tally_lines currency lines t).contradictions ≡ true
    → Sums currency t (tally_lines currency lines t) lines
unfolding tally_lines
tally_lines-Sums currency [] t h = record {
  before = h;
  net = omega int_laws;
  fees = omega int_laws;
  taxes = omega int_laws;
  holds = omega int_laws;
  currencies = tt;
}
tally_lines-Sums currency (l ∷ ls) t h =
    let rest = tally_lines-Sums currency ls (add_line currency l t) h in
    let first = add_line-Adds currency l t rest.before in
    Sums-cons currency l ls t (add_line currency l t)
      (tally_lines currency ls (add_line currency l t)) first.0 first.1 rest

unless_equal-agrees : (a b : ℤ) (c : Contradiction) → is_empty (unless_equal a b c) ≡ true → a ≡ b
unless_equal-agrees a b c h = ground arith

reported-agrees :
    (s : Settlement) (t : SettlementTotals)
    → is_empty (reported_contradictions s t) ≡ true
    → (s.amount ≡ expected_of t)
      × (s.fee ≡ t.fee_debits)
      × (s.tax ≡ t.tax_debits)
      × (s.held_amount ≡ t.held_amount)
unfolding reported_contradictions
reported-agrees s t h =
    let amount =
      unless_equal s.amount (expected_of t) Contradiction.settlement_amount_contradiction in
    let fees = unless_equal s.fee t.fee_debits Contradiction.settlement_fee_contradiction in
    let taxes = unless_equal s.tax t.tax_debits Contradiction.settlement_tax_contradiction in
    let last = is_empty-append (amount ++ fees ++ taxes) _ h in
    let third = is_empty-append (amount ++ fees) taxes last.0 in
    let second = is_empty-append amount fees third.0 in
    (
      unless_equal-agrees _ _ _ second.0,
      unless_equal-agrees _ _ _ second.1,
      unless_equal-agrees _ _ _ third.1,
      unless_equal-agrees _ _ _ last.1,
    )

-- A settlement that balances: its amount is the sum of its lines, transfers aside; its fee, tax and
-- held amount are the sums of the lines of these types, taken as debits; and every line is in its
-- currency.
pub record Balances (s : Settlement) (lines : List SettlementLine) : Type 0 where
  pub amount : s.amount ≡ net_of lines
  pub fee : s.fee +ℤ sum_part fee_part lines ≡ pos 0
  pub tax : s.tax +ℤ sum_part tax_part lines ≡ pos 0
  pub held : s.held_amount +ℤ sum_part hold_part lines ≡ pos 0
  pub currencies : All (λ l. SettlementLine.currency l ≡ s.currency) lines

-- If the facts of a settlement have no contradiction, then the settlement balances.
pub settlement_facts-Balances :
    (s : Settlement) (lines : List SettlementLine)
    → is_empty (settlement_facts s lines).contradictions ≡ true
    → Balances s lines
unfolding settlement_facts expected_of
settlement_facts-Balances s lines h =
    let tally = tally_lines s.currency lines (record { totals = no_totals; contradictions = [] }) in
    let parts = distinct-empty tally.contradictions _ h in
    let sums = tally_lines-Sums s.currency lines _ parts.0 in
    let reported = reported-agrees s tally.totals parts.1 in
    record {
      amount = rw (reported.0, sums.net) (omega int_laws);
      fee = rw reported.1 sums.fees;
      tax = rw reported.2 sums.taxes;
      held = rw reported.3 sums.holds;
      currencies = sums.currencies;
    }
