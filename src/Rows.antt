-- ===== src/Rows.antt =====
-- The rows that the reconciliation service writes: apps/api/app/reconciliation/model.py, with the
-- ids of `Base`. The name of a source's table is the text in the column `source_type`.
use roborecon.Prelude.{ℕ, Text, codes, Bool, Option, List}
use roborecon.Prelude.Int.{ℤ}
use roborecon.Enums.{ReconciliationStage, ResultStatus, RunStatus, ExceptionStatus}
use roborecon.Engine.Model.{CriterionEvidence}
use roborecon.Json.{Json}
use roborecon.Records.{Datetime}

pub record ReconciliationRun : Type 0 where
  pub id : ℕ
  pub batch_id : ℕ
  pub status : RunStatus
  pub started_at : Datetime
  pub completed_at : Option Datetime
  pub duration_ms : Option ℕ
  -- in hundredths
  pub throughput : Option ℕ
  pub source_row_count : ℕ
  pub source_counts : Json
  pub metrics : Json
  pub error_message : Option Text

pub record BatchCloseBrief : Type 0 where
  pub id : ℕ
  pub created_at : Datetime
  pub run_id : ℕ
  pub batch_id : ℕ
  pub generation_status : Text
  pub posture : Text
  pub mode : Text
  pub provider : Option Text
  pub model : Option Text
  pub actor : Text
  pub source_row_count : ℕ
  pub result_count : ℕ
  pub open_exception_count : ℕ
  pub ai_exception_count : ℕ
  pub money_reconciled : ℤ
  pub money_unresolved : ℤ
  pub financial_records_changed : ℕ
  pub deterministic_coverage : Json
  pub ai_coverage : Json
  pub themes : Json
  pub review_plan : Json
  pub citations : Json
  pub generation_duration_ms : ℕ
  pub error_code : Option Text
  pub error_message : Option Text
  pub generated_at : Option Datetime
  pub stale_at : Option Datetime

-- `C` is the type of the JSON of a candidate.
pub record ReconciliationResult (C : Type 0) : Type 0 where
  pub id : ℕ
  pub run_id : ℕ
  pub batch_id : ℕ
  pub stage : ReconciliationStage
  pub status : ResultStatus
  pub primary_source_type : Text
  pub primary_source_id : Option ℕ
  pub amount : Option ℤ
  pub currency : Option Text
  pub score : ℕ
  pub runner_up_score : ℕ
  pub margin : ℤ
  pub autonomous : Bool
  pub selected_ids : List ℕ
  pub evidence : List CriterionEvidence
  pub candidates : List C

pub record MatchLink : Type 0 where
  pub id : ℕ
  pub run_id : ℕ
  pub result_id : ℕ
  pub source_type : Text
  pub source_id : ℕ
  pub role : Text
  pub autonomous : Bool
  pub actor : Text

pub record ReconciliationException : Type 0 where
  pub id : ℕ
  pub run_id : ℕ
  pub result_id : Option ℕ
  pub batch_id : ℕ
  pub status : ExceptionStatus
  pub exception_type : Text
  pub source_type : Option Text
  pub source_id : Option ℕ
  pub amount : Option ℤ
  pub message : Text
  pub review_note : Option Text
  pub reviewed_by : Option Text
  pub reviewed_at : Option Datetime

-- the values of the column `role`, and the actor of the autonomous writes
abbrev pub human_approved : Text
human_approved = codes "human_approved"

abbrev pub system : Text
system = codes "system"
