-- ===== src/Engine.antt =====
-- apps/api/app/reconciliation/engine.py: the two deterministic stages.
pub mod Model
pub mod Policy
pub mod Reference
pub mod Similarity
pub mod Time
pub mod Candidates
pub mod StageA
pub mod StageB
pub mod Staged
