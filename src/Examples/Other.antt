-- ===== src/Examples/Other.antt =====
-- Money, the audit trail and the benchmark's plan on concrete inputs.
use roborecon.Prelude.{
  List, map, ℕ, ◌+◌, ◌*◌, ◌<◌, ◌≤◌, ◌≡◌, refl, codes, true, false, ◌⊎◌, none, some, [], ◌∷◌, ◌++◌,
  arith,
}
use roborecon.Prelude.Int.{ℤ, pos, ◌+ℤ◌, ◌-ℤ◌}
use roborecon.Enums.{AuditEventType}
use roborecon.Money.{
  basis_points, calculate_net, basis_points_nearest, calculate_net-IsNearest, IsNearest,
}
use roborecon.Audit.{AuditEvent, AuditTables, AuditRequest, new_event, batch_exists, append_event}
use roborecon.Audit.Listing.{StoredEvent, EventQuery, list_events}
use roborecon.Audit.Listing.Pages.{pages, IsListing, list_events-IsListing}
use roborecon.Audit.Sequence.{Rising, append_event-Rising}
use roborecon.Demo.{scenario_tags, scenario_class, expected_status}
use roborecon.Demo.Plan.{status_of_class, expected_status-scenario_class}
use roborecon.Examples.{noon, evening}

basis_points_nearest_example :
    (n : ℕ) × (basis_points (pos 12345) (pos 200) ≡ some (pos n))
    × (2 * (12345 * 200) < 20000 * n + 10000)
    × (20000 * n ≤ 2 * (12345 * 200) + 10000)
basis_points_nearest_example = basis_points_nearest 12345 200

-- 100.00 rupees, a fee of 2 per cent and 18 per cent of GST on it
calculate_net-IsNearest_example :
    (net : ℤ) × (fee : ℕ) × (gst : ℕ) × (calculate_net (pos 10000) (pos 200) (pos 1800)
      ≡ some (net, pos fee, pos gst))
    × IsNearest fee 10000 200
    × IsNearest gst fee 1800
    × (net +ℤ pos fee +ℤ pos gst ≡ pos 10000)
calculate_net-IsNearest_example = calculate_net-IsNearest 10000 200 1800

net_test : calculate_net (pos 10000) (pos 200) (pos 1800) ≡ some (pos 9764, pos 200, pos 36)
unfolding calculate_net ◌-ℤ◌
net_test = refl

abbrev request : AuditRequest ℕ
request = record {
  batch_id = some 7;
  event_type = AuditEventType.run_started;
  entity_type = codes "run";
  entity_id = some 3;
  summary = codes "started";
  actor = codes "system";
  source_type = none;
  source_id = none;
  tool_trace = none;
}

abbrev audit_tables : AuditTables ℕ
audit_tables = record {
  batches = 7 ∷ 8 ∷ [];
  events = new_event request 1 noon ∷ new_event request 4 noon ∷ [];
}

audit_tables-Rising : Rising audit_tables.events
unfolding new_event
audit_tables-Rising = ((λ _. omega arith, tt), (tt, tt))

append_event-Rising_example :
    ((batch_exists audit_tables.batches request.batch_id ≡ false)
      × (append_event request evening audit_tables ≡ none))
    ⊎ ((e : AuditEvent ℕ) × (after : AuditTables ℕ) × (batch_exists audit_tables.batches
            request.batch_id
          ≡ true)
        × (append_event request evening audit_tables ≡ some (e, after))
        × (after.events ≡ audit_tables.events ++ e ∷ [])
        × Rising after.events)
append_event-Rising_example = append_event-Rising request evening audit_tables audit_tables-Rising

expected_status-scenario_class_example :
    expected_status (scenario_tags 45) ≡ status_of_class (scenario_class (scenario_tags 45))
expected_status-scenario_class_example = expected_status-scenario_class (scenario_tags 45)

-- three events of two batches, the last one earlier than the others
abbrev stored_events : List (StoredEvent ℕ)
stored_events =
    record { id = 31; event = new_event request 2 evening }
    ∷ record { id = 32; event = new_event (record request { batch_id = some 8 }) 1 noon }
    ∷ record { id = 33; event = new_event request 1 noon }
    ∷ []

-- the started runs of batch 7
abbrev started_query : EventQuery
started_query = record {
  batch_id = some 7;
  entity_type = none;
  entity_id = none;
  event_type = some AuditEventType.run_started;
}

started_test : map StoredEvent.id (pages started_query stored_events 1 2) ≡ 33 ∷ 31 ∷ []
unfolding pages list_events new_event
started_test = refl

started_count : (list_events started_query 1 1 stored_events).1 ≤ 2 * 1
unfolding list_events new_event
started_count = omega arith

list_events-IsListing_example :
    IsListing started_query stored_events
      (pages started_query stored_events 1 2)
      (list_events started_query 1 1 stored_events).1
list_events-IsListing_example = list_events-IsListing started_query 1 stored_events 2 started_count
