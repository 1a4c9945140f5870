-- ===== src/Engine/StageA.antt =====
-- Stage A of engine.py: ledger entries against captured Razorpay payments and refunds.
pub mod Pool
pub mod Eligible
pub mod Score
pub mod Outcome
pub mod Run
