-- ===== src/Examples.antt =====
-- Test data: the ASCII part of the character tables, and a small batch in which two ledger entries
-- match, a refund is left over, and the two payments are settled and credited.
pub mod Ledger
pub mod Settled
pub mod Other
pub mod Review
pub mod Evaluation
pub mod Service
pub mod Sources
use roborecon.Prelude.{
  ℕ, ◌+◌, ◌-◌, Text, codes, Bool, true, ◌&&◌, ◌||◌, none, List, [], ◌∷◌, leb, ◌==◌, if◌then◌else◌,
}
use roborecon.Prelude.Int.{ℤ, pos, negsuc}
use roborecon.Enums.{LedgerEntryType, RazorpayPaymentStatus, SettlementLineType}
use roborecon.Records.{
  Datetime, LedgerEntry, RazorpayOrder, RazorpayPayment, RazorpayRefund, Settlement, SettlementLine,
  BankCredit,
}
use roborecon.Engine.Reference.{CharTables}

abbrev between : ℕ → ℕ → ℕ → Bool
between low high c = leb low c && leb c high

abbrev pub ascii : CharTables
ascii = record {
  upper = λ c. if between 97 122 c then (c - 32) ∷ [] else c ∷ [];
  is_alnum = λ c. between 48 57 c || between 65 90 c || between 97 122 c;
  is_space = λ c. (c == 32) || between 9 13 c || between 28 31 c;
  is_digit = λ c. between 48 57 c;
}

abbrev rupees : Text
rupees = codes "INR"

abbrev pub noon : Datetime
noon = record { wall = 43200000000; utc_offset = none }

abbrev pub evening : Datetime
evening = record { wall = 72000000000; utc_offset = none }

abbrev pub ledger_entry : ℕ → Text → ℤ → LedgerEntry
ledger_entry id reference amount = record {
  id = id;
  reference = reference;
  entry_type = LedgerEntryType.payment;
  amount = amount;
  currency = rupees;
  business_at = noon;
}

abbrev pub first_entry : LedgerEntry
first_entry = ledger_entry 1 (codes "PAY-A") (pos 500)

abbrev pub second_entry : LedgerEntry
second_entry = ledger_entry 2 (codes "PAY-B") (pos 90000)

abbrev pub ledger : List LedgerEntry
ledger = first_entry ∷ second_entry ∷ []

abbrev pub order : ℕ → Text → Text → ℤ → RazorpayOrder
order id provider_order_id receipt amount = record {
  id = id;
  provider_order_id = provider_order_id;
  receipt = receipt;
  amount = amount;
  currency = rupees;
  status = codes "paid";
  business_at = noon;
}

abbrev pub orders : List RazorpayOrder
orders =
    order 21 (codes "ORD-A") (codes "R-A") (pos 500)
    ∷ order 22 (codes "ORD-B") (codes "R-B") (pos 90000)
    ∷ []

abbrev pub payment : ℕ → Text → Text → Text → ℤ → RazorpayPayment
payment id provider_payment_id provider_order_id receipt amount = record {
  id = id;
  provider_payment_id = provider_payment_id;
  provider_order_id = provider_order_id;
  receipt = receipt;
  amount = amount;
  currency = rupees;
  status = RazorpayPaymentStatus.captured;
  captured = true;
  business_at = noon;
}

abbrev pub first_payment : RazorpayPayment
first_payment = payment 11 (codes "PAY-A") (codes "ORD-A") (codes "R-A") (pos 500)

abbrev pub second_payment : RazorpayPayment
second_payment = payment 12 (codes "PAY-B") (codes "ORD-B") (codes "R-B") (pos 90000)

abbrev pub payments : List RazorpayPayment
payments = first_payment ∷ second_payment ∷ []

-- a refund of a payment that is not in the batch
abbrev pub left_refund : RazorpayRefund
left_refund = record {
  id = 31;
  provider_refund_id = codes "RF-Z";
  provider_payment_id = codes "PAY-Z";
  amount = pos 40;
  currency = rupees;
  status = codes "processed";
  business_at = noon;
}

abbrev pub refunds : List RazorpayRefund
refunds = left_refund ∷ []

abbrev settlement : ℕ → Text → ℤ → Text → Settlement
settlement id provider_settlement_id amount utr = record {
  id = id;
  provider_settlement_id = provider_settlement_id;
  amount = amount;
  fee = pos 10;
  tax = pos 0;
  held_amount = pos 0;
  currency = rupees;
  utr = utr;
  status = codes "processed";
  business_at = noon;
}

abbrev pub first_settlement : Settlement
first_settlement = settlement 41 (codes "SET-A") (pos 490) (codes "UTR-A")

abbrev pub second_settlement : Settlement
second_settlement = settlement 42 (codes "SET-B") (pos 89990) (codes "UTR-B")

abbrev pub settlements : List Settlement
settlements = first_settlement ∷ second_settlement ∷ []

abbrev line : ℕ → ℕ → SettlementLineType → Text → ℤ → SettlementLine
line id settlement_id line_type reference amount = record {
  id = id;
  settlement_id = settlement_id;
  line_type = line_type;
  reference = reference;
  amount = amount;
  currency = rupees;
  business_at = noon;
}

-- The fee lines hold -10.
abbrev pub lines : List SettlementLine
lines =
    line 51 41 SettlementLineType.payment (codes "PAY-A") (pos 500)
    ∷ line 52 41 SettlementLineType.fee (codes "FEE-A") (negsuc 9)
    ∷ line 53 42 SettlementLineType.payment (codes "PAY-B") (pos 90000)
    ∷ line 54 42 SettlementLineType.fee (codes "FEE-B") (negsuc 9)
    ∷ []

abbrev credit : ℕ → ℕ → Text → ℤ → BankCredit
credit id settlement_id utr amount = record {
  id = id;
  settlement_id = settlement_id;
  utr = utr;
  amount = amount;
  currency = rupees;
  business_at = evening;
}

abbrev pub credits : List BankCredit
credits = credit 61 41 (codes "UTR-A") (pos 490) ∷ credit 62 42 (codes "UTR-B") (pos 89990) ∷ []
