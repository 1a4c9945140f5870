-- ===== src/Records.antt =====
-- The source records of apps/api/app/demo/dataset.py. A UUID is its 128-bit value, whose order is
-- that of its text; a time is its wall clock in microseconds and its offset from UTC, if it has one.
use roborecon.Prelude.{ℕ, Text, Bool, Option}
use roborecon.Prelude.Int.{ℤ}
use roborecon.Enums.{LedgerEntryType, RazorpayPaymentStatus, SettlementLineType}

pub record Datetime : Type 0 where
  pub wall : ℕ
  pub utc_offset : Option ℤ

pub record LedgerEntry : Type 0 where
  pub id : ℕ
  pub reference : Text
  pub entry_type : LedgerEntryType
  pub amount : ℤ
  pub currency : Text
  pub business_at : Datetime

pub record RazorpayOrder : Type 0 where
  pub id : ℕ
  pub provider_order_id : Text
  pub receipt : Text
  pub amount : ℤ
  pub currency : Text
  pub status : Text
  pub business_at : Datetime

pub record RazorpayPayment : Type 0 where
  pub id : ℕ
  pub provider_payment_id : Text
  pub provider_order_id : Text
  pub receipt : Text
  pub amount : ℤ
  pub currency : Text
  pub status : RazorpayPaymentStatus
  pub captured : Bool
  pub business_at : Datetime

pub record RazorpayRefund : Type 0 where
  pub id : ℕ
  pub provider_refund_id : Text
  pub provider_payment_id : Text
  pub amount : ℤ
  pub currency : Text
  pub status : Text
  pub business_at : Datetime

pub record Settlement : Type 0 where
  pub id : ℕ
  pub provider_settlement_id : Text
  pub amount : ℤ
  pub fee : ℤ
  pub tax : ℤ
  pub held_amount : ℤ
  pub currency : Text
  pub utr : Text
  pub status : Text
  pub business_at : Datetime

pub record SettlementLine : Type 0 where
  pub id : ℕ
  pub settlement_id : ℕ
  pub line_type : SettlementLineType
  pub reference : Text
  pub amount : ℤ
  pub currency : Text
  pub business_at : Datetime

pub record BankCredit : Type 0 where
  pub id : ℕ
  pub settlement_id : ℕ
  pub utr : Text
  pub amount : ℤ
  pub currency : Text
  pub business_at : Datetime
