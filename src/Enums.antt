-- ===== src/Enums.antt =====
-- apps/api/app/common/enums.py
use roborecon.Prelude.{Text, codes, Bool, true, false}

pub data LedgerEntryType : Type 0 where
  payment refund : LedgerEntryType

pub data RazorpayPaymentStatus : Type 0 where
  created authorized captured failed refunded partially_refunded : RazorpayPaymentStatus

pub data SettlementLineType : Type 0 where
  payment refund transfer fee tax hold release adjustment : SettlementLineType

pub data ReconciliationStage : Type 0 where
  ledger_to_razorpay razorpay_to_settlement : ReconciliationStage

pub data ResultStatus : Type 0 where
  matched ambiguous duplicate missing_razorpay missing_ledger : ResultStatus
  missing_settlement missing_bank_credit amount_mismatch : ResultStatus
  malformed confirmed_no_match : ResultStatus

pub data RunStatus : Type 0 where
  running completed failed : RunStatus

-- `open` is a reserved word here
pub data ExceptionStatus : Type 0 where
  open_status approved rejected : ExceptionStatus

pub data ReviewAction : Type 0 where
  approve reject : ReviewAction

pub data AuditEventType : Type 0 where
  batch_created demo_reset_completed : AuditEventType
  razorpay_sync_started razorpay_sync_completed razorpay_sync_failed : AuditEventType
  run_started run_completed run_failed result_persisted : AuditEventType
  batch_close_brief_generated ai_tool_called ai_recommendation : AuditEventType
  review_approved review_rejected : AuditEventType

-- `status == "captured"`
unfoldable pub is_captured : RazorpayPaymentStatus → Bool
is_captured RazorpayPaymentStatus.captured = true
is_captured _ = false

-- `.value`
unfoldable pub line_type_value : SettlementLineType → Text
line_type_value SettlementLineType.payment = codes "payment"
line_type_value SettlementLineType.refund = codes "refund"
line_type_value transfer = codes "transfer"
line_type_value fee = codes "fee"
line_type_value tax = codes "tax"
line_type_value hold = codes "hold"
line_type_value release = codes "release"
line_type_value adjustment = codes "adjustment"

-- equality of two line types
unfoldable pub line_type_eq : SettlementLineType → SettlementLineType → Bool
line_type_eq SettlementLineType.payment SettlementLineType.payment = true
line_type_eq SettlementLineType.refund SettlementLineType.refund = true
line_type_eq transfer transfer = true
line_type_eq fee fee = true
line_type_eq tax tax = true
line_type_eq hold hold = true
line_type_eq release release = true
line_type_eq adjustment adjustment = true
line_type_eq _ _ = false

-- `result_status is ResultStatus.ambiguous`
unfoldable pub is_ambiguous : ResultStatus → Bool
is_ambiguous ambiguous = true
is_ambiguous _ = false

-- `.value`
unfoldable pub stage_value : ReconciliationStage → Text
stage_value ledger_to_razorpay = codes "ledger_to_razorpay"
stage_value razorpay_to_settlement = codes "razorpay_to_settlement"

-- `.value`
unfoldable pub result_status_value : ResultStatus → Text
result_status_value matched = codes "matched"
result_status_value ambiguous = codes "ambiguous"
result_status_value duplicate = codes "duplicate"
result_status_value missing_razorpay = codes "missing_razorpay"
result_status_value missing_ledger = codes "missing_ledger"
result_status_value missing_settlement = codes "missing_settlement"
result_status_value missing_bank_credit = codes "missing_bank_credit"
result_status_value amount_mismatch = codes "amount_mismatch"
result_status_value malformed = codes "malformed"
result_status_value confirmed_no_match = codes "confirmed_no_match"

-- `status == "running"`
unfoldable pub is_running : RunStatus → Bool
is_running running = true
is_running _ = false

-- `.value`
unfoldable pub event_type_value : AuditEventType → Text
event_type_value AuditEventType.batch_created = codes "batch.created"
event_type_value AuditEventType.demo_reset_completed = codes "demo.reset.completed"
event_type_value AuditEventType.razorpay_sync_started = codes "razorpay.sync.started"
event_type_value AuditEventType.razorpay_sync_completed = codes "razorpay.sync.completed"
event_type_value AuditEventType.razorpay_sync_failed = codes "razorpay.sync.failed"
event_type_value AuditEventType.run_started = codes "run.started"
event_type_value AuditEventType.run_completed = codes "run.completed"
event_type_value AuditEventType.run_failed = codes "run.failed"
event_type_value AuditEventType.result_persisted = codes "result.persisted"
event_type_value AuditEventType.batch_close_brief_generated = codes "batch.close_brief.generated"
event_type_value AuditEventType.ai_tool_called = codes "ai.tool.called"
event_type_value AuditEventType.ai_recommendation = codes "ai.recommendation"
event_type_value AuditEventType.review_approved = codes "review.approved"
event_type_value AuditEventType.review_rejected = codes "review.rejected"
