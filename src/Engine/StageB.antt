-- ===== src/Engine/StageB.antt =====
-- Stage B of engine.py: captured payments through settlement arithmetic and bank credits.
pub mod Facts
pub mod Bank
pub mod Release
pub mod Checks
pub mod Candidate
pub mod Run
