-- ===== src/Ledger.antt =====
-- The source rows of apps/api/app/ledger/read_model.py: `_source_filters`, `_source_select` and
-- `_source_selects`. The database keeps an enum as its name, which is its value in the enums here.
pub mod Asked
pub mod Select
pub mod Filters
use roborecon.Prelude.{
  ℕ, ◌==◌, Text, codes, text_eq, Bool, true, false, not, ◌&&◌, Option, none, some, List, [], ◌∷◌,
  ◌++◌, if◌then◌else◌,
}
use roborecon.Prelude.Int.{ℤ}
use roborecon.Enums.{LedgerEntryType, RazorpayPaymentStatus, line_type_value}
use roborecon.Records.{
  Datetime, LedgerEntry, RazorpayOrder, RazorpayPayment, RazorpayRefund, Settlement, SettlementLine,
  BankCredit,
}
use roborecon.Service.{InBatch, SourceTables}

-- the columns of a row but its type and its batch
pub record SourceColumns : Type 0 where
  pub source_id : Option ℕ
  pub reference : Option Text
  pub amount : Option ℤ
  pub currency : Option Text
  pub status : Text
  pub business_at : Option Datetime
  pub parse_error : Option Text
  pub ordering_id : ℕ

-- A row of the read model.
pub record SourceRow : Type 0 where
  pub source_type : Text
  pub batch_id : ℕ
  pub columns : SourceColumns

pub record IngestionRecord : Type 0 where
  pub id : ℕ
  pub parse_status : Text

-- the arguments of `_source_selects`
pub record SourceQuery : Type 0 where
  pub batch_id : Option ℕ
  pub source_type : Option Text
  pub source_id : Option ℕ
  pub status : Option Text

unfoldable pub is_batch : Option ℕ → ℕ → Bool
is_batch none id = true
is_batch (some batch) id = id == batch

unfoldable pub is_source : Option ℕ → ℕ → Bool
is_source none id = true
is_source (some wanted) id = id == wanted

unfoldable pub is_status : Option Text → Text → Bool
unfolding text_eq
is_status none status = true
is_status (some wanted) status = text_eq status wanted

-- on the model's columns `batch_id`, `id` and the one that holds the status
unfoldable pub source_filters : Option ℕ → Option ℕ → Option Text → ℕ → ℕ → Text → Bool
unfolding is_batch is_source is_status
source_filters batch_id source_id status row_batch_id row_id row_status =
    is_batch batch_id row_batch_id && is_source source_id row_id && is_status status row_status

-- The `where` keeps rows of the table by its own columns, and the `select` projects what is kept.
unfoldable pub source_select :
    {A : Type 0} → Text → (ℕ → A → Bool) → (A → SourceColumns) → List (InBatch A) → List SourceRow
source_select name kept columns_of [] = []
source_select name kept columns_of (r ∷ rs) =
    let rest = source_select name kept columns_of rs in
    if kept r.batch_id r.content
    then record { source_type = name; batch_id = r.batch_id; columns = columns_of r.content } ∷ rest
    else rest

-- `source_type in (None, name)`
unfoldable pub is_wanted : Option Text → Text → Bool
unfolding text_eq
is_wanted none name = true
is_wanted (some wanted) name = text_eq wanted name

-- one `if source_type in ...`, with the columns of the id and of the status
unfoldable pub selected_rows :
    {A : Type 0}
    → Text
    → (A → ℕ)
    → (A → Text)
    → (A → SourceColumns)
    → SourceQuery
    → List (InBatch A)
    → List SourceRow
unfolding is_wanted source_select source_filters
selected_rows name id_of status_of columns_of q rows =
    if is_wanted q.source_type name
    then source_select name
        (λ batch r. source_filters q.batch_id q.source_id q.status batch (id_of r) (status_of r))
        columns_of rows
    else []

-- the columns of a source record
unfoldable pub columns_with : ℕ → Text → ℤ → Text → Text → Datetime → SourceColumns
columns_with id reference amount currency status business_at = record {
  source_id = some id;
  reference = some reference;
  amount = some amount;
  currency = some currency;
  status = status;
  business_at = some business_at;
  parse_error = none;
  ordering_id = id;
}

unfoldable pub entry_type_value : LedgerEntryType → Text
entry_type_value LedgerEntryType.payment = codes "payment"
entry_type_value LedgerEntryType.refund = codes "refund"

unfoldable pub payment_status_value : RazorpayPaymentStatus → Text
payment_status_value RazorpayPaymentStatus.created = codes "created"
payment_status_value RazorpayPaymentStatus.authorized = codes "authorized"
payment_status_value RazorpayPaymentStatus.captured = codes "captured"
payment_status_value RazorpayPaymentStatus.failed = codes "failed"
payment_status_value RazorpayPaymentStatus.refunded = codes "refunded"
payment_status_value RazorpayPaymentStatus.partially_refunded = codes "partially_refunded"

unfoldable pub ledger_columns : LedgerEntry → SourceColumns
unfolding columns_with entry_type_value
ledger_columns r =
    columns_with r.id r.reference r.amount r.currency (entry_type_value r.entry_type) r.business_at

unfoldable pub order_columns : RazorpayOrder → SourceColumns
unfolding columns_with
order_columns r = columns_with r.id r.receipt r.amount r.currency r.status r.business_at

unfoldable pub payment_columns : RazorpayPayment → SourceColumns
unfolding columns_with payment_status_value
payment_columns r =
    columns_with r.id r.provider_payment_id r.amount r.currency (payment_status_value r.status)
      r.business_at

unfoldable pub refund_columns : RazorpayRefund → SourceColumns
unfolding columns_with
refund_columns r = columns_with r.id r.provider_refund_id r.amount r.currency r.status r.business_at

unfoldable pub settlement_columns : Settlement → SourceColumns
unfolding columns_with
settlement_columns r =
    columns_with r.id r.provider_settlement_id r.amount r.currency r.status r.business_at

unfoldable pub line_columns : SettlementLine → SourceColumns
unfolding columns_with line_type_value
line_columns r =
    columns_with r.id r.reference r.amount r.currency (line_type_value r.line_type) r.business_at

unfoldable pub credit_columns : BankCredit → SourceColumns
unfolding columns_with
credit_columns r = columns_with r.id r.utr r.amount r.currency (codes "credited") r.business_at

-- `MALFORMED_RECORD_MESSAGE`
abbrev pub malformed_record_message : Text
malformed_record_message = codes "This source record could not be read. Review the source data."

unfoldable pub quarantine_columns : IngestionRecord → SourceColumns
quarantine_columns r = record {
  source_id = none;
  reference = none;
  amount = none;
  currency = none;
  status = r.parse_status;
  business_at = none;
  parse_error = some malformed_record_message;
  ordering_id = r.id;
}

unfoldable pub is_given : {A : Type 0} → Option A → Bool
is_given none = false
is_given (some _) = true

-- The quarantined rows are filtered without the source id, and by `false()` if there is one.
unfoldable pub quarantine_rows : SourceQuery → List (InBatch IngestionRecord) → List SourceRow
unfolding is_wanted is_given source_select source_filters quarantine_columns
quarantine_rows q ingested =
    if is_wanted q.source_type (codes "quarantine")
    then source_select (codes "quarantine")
        (λ batch r.
          source_filters q.batch_id none q.status batch (IngestionRecord.id r)
            (IngestionRecord.parse_status r)
          && not (is_given q.source_id))
        quarantine_columns ingested
    else []

unfoldable pub ledger_rows : SourceQuery → List (InBatch LedgerEntry) → List SourceRow
unfolding selected_rows ledger_columns entry_type_value
ledger_rows =
    selected_rows (codes "ledger") (λ r. LedgerEntry.id r)
      (λ r. entry_type_value (LedgerEntry.entry_type r)) ledger_columns

unfoldable pub order_rows : SourceQuery → List (InBatch RazorpayOrder) → List SourceRow
unfolding selected_rows order_columns
order_rows =
    selected_rows (codes "razorpay_order") (λ r. RazorpayOrder.id r) (λ r. RazorpayOrder.status r)
      order_columns

unfoldable pub payment_rows : SourceQuery → List (InBatch RazorpayPayment) → List SourceRow
unfolding selected_rows payment_columns payment_status_value
payment_rows =
    selected_rows (codes "razorpay_payment") (λ r. RazorpayPayment.id r)
      (λ r. payment_status_value (RazorpayPayment.status r)) payment_columns

unfoldable pub refund_rows : SourceQuery → List (InBatch RazorpayRefund) → List SourceRow
unfolding selected_rows refund_columns
refund_rows =
    selected_rows (codes "razorpay_refund") (λ r. RazorpayRefund.id r)
      (λ r. RazorpayRefund.status r) refund_columns

unfoldable pub settlement_rows : SourceQuery → List (InBatch Settlement) → List SourceRow
unfolding selected_rows settlement_columns
settlement_rows =
    selected_rows (codes "settlement") (λ r. Settlement.id r) (λ r. Settlement.status r)
      settlement_columns

unfoldable pub line_rows : SourceQuery → List (InBatch SettlementLine) → List SourceRow
unfolding selected_rows line_columns line_type_value
line_rows =
    selected_rows (codes "settlement_line") (λ r. SettlementLine.id r)
      (λ r. line_type_value (SettlementLine.line_type r)) line_columns

unfoldable pub credit_rows : SourceQuery → List (InBatch BankCredit) → List SourceRow
unfolding selected_rows credit_columns
credit_rows =
    selected_rows (codes "bank_credit") (λ r. BankCredit.id r) (λ r. codes "credited")
      credit_columns

-- `_source_selects`, and the union of its parts
unfoldable pub source_selects :
    SourceQuery → SourceTables → List (InBatch IngestionRecord) → List SourceRow
unfolding ledger_rows order_rows payment_rows refund_rows settlement_rows line_rows credit_rows
    quarantine_rows
source_selects q t ingested =
    ledger_rows q t.ledger
    ++ order_rows q t.orders
    ++ payment_rows q t.payments
    ++ refund_rows q t.refunds
    ++ settlement_rows q t.settlements
    ++ line_rows q t.lines
    ++ credit_rows q t.credits
    ++ quarantine_rows q ingested
