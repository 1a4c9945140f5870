-- ===== src/Audit/Listing.antt =====
-- `list_events` of apps/api/app/audit/service.py.
pub mod Pages
use roborecon.Prelude.{
  ℕ, ◌-◌, ◌*◌, ltb, ◌==◌, Text, text_eq, Bool, true, false, ◌&&◌, ◌||◌, Option, none, some, List,
  filter, length, take, drop,
}
use roborecon.Prelude.Int.{ℤ, ltb_ℤ, ◌==ℤ◌}
use roborecon.Prelude.Order.{sort}
use roborecon.Enums.{AuditEventType, event_type_value}
use roborecon.Engine.Time.{utc}
use roborecon.Audit.{AuditEvent}

-- A row of `audit_events` with the id that the table gives it.
pub record StoredEvent (T : Type 0) : Type 0 where
  pub id : ℕ
  pub event : AuditEvent T

-- the arguments of `list_events` that filter
pub record EventQuery : Type 0 where
  pub batch_id : Option ℕ
  pub entity_type : Option Text
  pub entity_id : Option ℕ
  pub event_type : Option AuditEventType

-- a filter by an id; a row without the id never equals it
unfoldable pub id_matches : Option ℕ → Option ℕ → Bool
id_matches none b = true
id_matches (some a) (some b) = b == a
id_matches (some a) none = false

unfoldable pub entity_type_matches : Option Text → Text → Bool
unfolding text_eq
entity_type_matches none b = true
entity_type_matches (some a) b = text_eq b a

unfoldable pub event_type_matches : Option AuditEventType → AuditEventType → Bool
unfolding text_eq event_type_value
event_type_matches none b = true
event_type_matches (some a) b = text_eq (event_type_value b) (event_type_value a)

-- all of `filters`
unfoldable pub event_matches : {T : Type 0} → EventQuery → StoredEvent T → Bool
unfolding id_matches entity_type_matches event_type_matches
event_matches q row =
    id_matches q.batch_id row.event.batch_id
    && entity_type_matches q.entity_type row.event.entity_type
    && id_matches q.entity_id row.event.entity_id
    && event_type_matches q.event_type row.event.event_type

-- the order of the columns `occurred_at`, `sequence`, `id`
unfoldable pub key_before : ℤ → ℕ → ℕ → ℤ → ℕ → ℕ → Bool
key_before at sequence id at' sequence' id' =
    ltb_ℤ at at'
    || ((at ==ℤ at') && (ltb sequence sequence' || ((sequence == sequence') && ltb id id')))

-- the `order_by`
unfoldable pub occurs_before : {T : Type 0} → StoredEvent T → StoredEvent T → Bool
unfolding key_before utc
occurs_before a b =
    key_before (utc a.event.occurred_at) a.event.sequence a.id (utc b.event.occurred_at)
      b.event.sequence b.id

-- the rows of the page, which the routes count from 1, and the number of all rows that match
unfoldable pub list_events :
    {T : Type 0} → EventQuery → ℕ → ℕ → List (StoredEvent T) → List (StoredEvent T) × ℕ
unfolding event_matches occurs_before filter sort take drop
list_events q page page_size rows = (
  take page_size
      (drop ((page - 1) * page_size) (sort occurs_before (filter (event_matches q) rows))),
  length (filter (event_matches q) rows),
)
