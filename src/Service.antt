-- ===== src/Service.antt =====
-- The snapshot of apps/api/app/reconciliation/service.py: `_load_snapshot`, `_source_counts`,
-- `_seed_sources`, `_source_index` and `_exception_message`. A row of a source table is its record
-- with the id of its batch, so that `_seed_sources` drops the batch.
pub mod Links
pub mod Results
pub mod Run
pub mod Accounts
pub mod Outcome
use roborecon.Prelude.{
  ℕ, ◌+◌, ltb, ◌==◌, Text, codes, Bool, Option, none, some, List, [], ◌∷◌, ◌++◌, map, filter,
  length,
}
use roborecon.Prelude.Int.{ℤ}
use roborecon.Prelude.Dict.{index}
use roborecon.Prelude.Order.{sort}
use roborecon.Enums.{ResultStatus}
use roborecon.Records.{
  LedgerEntry, RazorpayOrder, RazorpayPayment, RazorpayRefund, Settlement, SettlementLine,
  BankCredit,
}

-- A row of a table with batches.
pub record InBatch (A : Type 0) : Type 0 where
  pub batch_id : ℕ
  pub content : A

pub record SourceTables : Type 0 where
  pub ledger : List (InBatch LedgerEntry)
  pub orders : List (InBatch RazorpayOrder)
  pub payments : List (InBatch RazorpayPayment)
  pub refunds : List (InBatch RazorpayRefund)
  pub settlements : List (InBatch Settlement)
  pub lines : List (InBatch SettlementLine)
  pub credits : List (InBatch BankCredit)
  -- the ids of the ingestion records
  pub quarantine : List (InBatch ℕ)

-- `source_rows`, after `_seed_sources`
pub record Snapshot : Type 0 where
  pub ledger : List LedgerEntry
  pub orders : List RazorpayOrder
  pub payments : List RazorpayPayment
  pub refunds : List RazorpayRefund
  pub settlements : List Settlement
  pub lines : List SettlementLine
  pub credits : List BankCredit
  pub quarantine : List ℕ

-- `load`: the rows of the batch in the order of their ids
unfoldable pub load : {A : Type 0} → (A → ℕ) → ℕ → List (InBatch A) → List A
unfolding filter sort
load id batch_id rows =
    sort (λ a b. ltb (id a) (id b))
      (map (λ r. InBatch.content r) (filter (λ r. InBatch.batch_id r == batch_id) rows))

unfoldable pub load_snapshot : ℕ → SourceTables → Snapshot
unfolding load
load_snapshot batch_id t = record {
  ledger = load (λ r. LedgerEntry.id r) batch_id t.ledger;
  orders = load (λ r. RazorpayOrder.id r) batch_id t.orders;
  payments = load (λ r. RazorpayPayment.id r) batch_id t.payments;
  refunds = load (λ r. RazorpayRefund.id r) batch_id t.refunds;
  settlements = load (λ r. Settlement.id r) batch_id t.settlements;
  lines = load (λ r. SettlementLine.id r) batch_id t.lines;
  credits = load (λ r. BankCredit.id r) batch_id t.credits;
  quarantine = load (λ r. r) batch_id t.quarantine;
}

-- the counts by name
unfoldable pub source_counts : Snapshot → List (Text × ℕ)
source_counts s =
    (codes "ledger", length s.ledger)
    ∷ (codes "razorpayOrders", length s.orders)
    ∷ (codes "razorpayPayments", length s.payments)
    ∷ (codes "razorpayRefunds", length s.refunds)
    ∷ (codes "settlements", length s.settlements)
    ∷ (codes "bankCredits", length s.credits)
    ∷ (codes "quarantined", length s.quarantine)
    ∷ []

unfoldable pub total_of : List (Text × ℕ) → ℕ
total_of [] = 0
total_of ((name, n) ∷ counts) = n + total_of counts

-- A row of any source table.
pub data Source : Type 0 where
  ledger_source : LedgerEntry → Source
  order_source : RazorpayOrder → Source
  payment_source : RazorpayPayment → Source
  refund_source : RazorpayRefund → Source
  settlement_source : Settlement → Source
  line_source : SettlementLine → Source
  credit_source : BankCredit → Source

abbrev pub source_type_of : Source → Text
source_type_of (ledger_source r) = codes "ledger"
source_type_of (order_source r) = codes "razorpay_order"
source_type_of (payment_source r) = codes "razorpay_payment"
source_type_of (refund_source r) = codes "razorpay_refund"
source_type_of (settlement_source r) = codes "settlement"
source_type_of (line_source r) = codes "settlement_line"
source_type_of (credit_source r) = codes "bank_credit"

abbrev pub source_id_of : Source → ℕ
source_id_of (ledger_source r) = r.id
source_id_of (order_source r) = r.id
source_id_of (payment_source r) = r.id
source_id_of (refund_source r) = r.id
source_id_of (settlement_source r) = r.id
source_id_of (line_source r) = r.id
source_id_of (credit_source r) = r.id

abbrev pub source_amount : Source → ℤ
source_amount (ledger_source r) = r.amount
source_amount (order_source r) = r.amount
source_amount (payment_source r) = r.amount
source_amount (refund_source r) = r.amount
source_amount (settlement_source r) = r.amount
source_amount (line_source r) = r.amount
source_amount (credit_source r) = r.amount

abbrev pub source_currency : Source → Text
source_currency (ledger_source r) = r.currency
source_currency (order_source r) = r.currency
source_currency (payment_source r) = r.currency
source_currency (refund_source r) = r.currency
source_currency (settlement_source r) = r.currency
source_currency (line_source r) = r.currency
source_currency (credit_source r) = r.currency

unfoldable pub sources_of : Snapshot → List Source
sources_of s =
    map (λ r. ledger_source r) s.ledger
    ++ map (λ r. order_source r) s.orders
    ++ map (λ r. payment_source r) s.payments
    ++ map (λ r. refund_source r) s.refunds
    ++ map (λ r. settlement_source r) s.settlements
    ++ map (λ r. line_source r) s.lines
    ++ map (λ r. credit_source r) s.credits

abbrev pub SourceIndex : Type 0
SourceIndex = List (ℕ × Source)

abbrev pub id_eq : ℕ → ℕ → Bool
id_eq a b = a == b

-- `_source_index`
unfoldable pub source_index : Snapshot → SourceIndex
unfolding index sources_of
source_index s = index id_eq source_id_of (sources_of s)

-- `_exception_message`
unfoldable pub exception_message : ResultStatus → Text
exception_message ResultStatus.matched = codes "A possible match was found, but it needs review."
exception_message ResultStatus.ambiguous =
    codes "More than one possible match was found. Review the evidence."
exception_message ResultStatus.duplicate =
    codes "More than one source record matched. Review the evidence."
exception_message ResultStatus.missing_razorpay = codes "No matching Razorpay record was found."
exception_message ResultStatus.missing_ledger = codes "No matching ledger record was found."
exception_message ResultStatus.missing_settlement = codes "No matching settlement was found."
exception_message ResultStatus.missing_bank_credit = codes "No matching bank credit was found."
exception_message ResultStatus.amount_mismatch =
    codes "The amounts do not match. Review the evidence."
exception_message ResultStatus.malformed =
    codes "This source record could not be read. Review the source data."
exception_message ResultStatus.confirmed_no_match =
    codes "No match was confirmed. Review the evidence."
