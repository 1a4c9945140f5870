-- ===== src/Audit.antt =====
-- The audit trail: apps/api/app/audit/model.py and `append_event` of
-- apps/api/app/audit/service.py. A transaction runs alone here: the code takes a lock on the batch, or
-- a global one, before it reads the sequence.
pub mod Sequence
pub mod Listing
use roborecon.Prelude.{
  ℕ, ◌+◌, max, Text, Bool, true, false, Option, none, some, List, [], ◌∷◌, ◌++◌, filter, any, ◌==◌,
  is_empty, if◌then◌else◌,
}
use roborecon.Enums.{AuditEventType}
use roborecon.Records.{Datetime}

-- A row of `audit_events`; `T` is the type of the JSON in `tool_trace`.
pub record AuditEvent (T : Type 0) : Type 0 where
  pub batch_id : Option ℕ
  pub event_type : AuditEventType
  pub sequence : ℕ
  pub actor : Text
  pub entity_type : Text
  pub entity_id : Option ℕ
  pub source_type : Option Text
  pub source_id : Option ℕ
  pub occurred_at : Datetime
  pub summary : Text
  pub tool_trace : Option T

-- The tables that the service reads: the ids of the batches, and the events.
pub record AuditTables (T : Type 0) : Type 0 where
  pub batches : List ℕ
  pub events : List (AuditEvent T)

-- the arguments of `append_event`
pub record AuditRequest (T : Type 0) : Type 0 where
  pub batch_id : Option ℕ
  pub event_type : AuditEventType
  pub entity_type : Text
  pub entity_id : Option ℕ
  pub summary : Text
  pub actor : Text
  pub source_type : Option Text
  pub source_id : Option ℕ
  pub tool_trace : Option T

-- the `where` of the query; the events without a batch are one scope
unfoldable pub same_batch : Option ℕ → Option ℕ → Bool
same_batch none none = true
same_batch (some a) (some b) = a == b
same_batch _ _ = false

-- `coalesce(max(sequence), 0)` over the events of a batch
unfoldable pub last_sequence : {T : Type 0} → Option ℕ → List (AuditEvent T) → ℕ
unfolding same_batch
last_sequence batch [] = 0
last_sequence batch (e ∷ es) =
    let rest = last_sequence batch es in
    if same_batch batch e.batch_id then max e.sequence rest else rest

unfoldable pub batch_exists : List ℕ → Option ℕ → Bool
unfolding any
batch_exists batches none = true
batch_exists batches (some b) = any (λ c. b == c) batches

unfoldable pub new_event : {T : Type 0} → AuditRequest T → ℕ → Datetime → AuditEvent T
new_event r sequence now = record {
  batch_id = r.batch_id;
  event_type = r.event_type;
  sequence = sequence;
  actor = r.actor;
  entity_type = r.entity_type;
  entity_id = r.entity_id;
  source_type = r.source_type;
  source_id = r.source_id;
  occurred_at = now;
  summary = r.summary;
  tool_trace = r.tool_trace;
}

-- `none` stands for the `ValueError` of a batch that does not exist
unfoldable pub append_event :
    {T : Type 0} → AuditRequest T → Datetime → AuditTables T → Option (AuditEvent T × AuditTables T)
unfolding batch_exists last_sequence new_event
append_event r now db =
    let event = new_event r (last_sequence r.batch_id db.events + 1) now in
    if batch_exists db.batches r.batch_id
    then some (event, record db { events = db.events ++ event ∷ [] })
    else none
