-- ===== src/Examples/Sources.antt =====
-- The source rows of the read model.
use roborecon.Prelude.{ℕ, codes, ◌≡◌, refl, inl, none, some, List, [], ◌∷◌, map, Member, ◌↔◌}
use roborecon.Service.{InBatch}
use roborecon.Ledger.{IngestionRecord, SourceQuery, SourceRow, quarantine_columns, source_selects}
use roborecon.Ledger.Asked.{Asked, everything}
use roborecon.Ledger.Filters.{source_selects-Asked}
use roborecon.Examples.Service.{source_tables}

abbrev ingested : List (InBatch IngestionRecord)
ingested =
    record { batch_id = 7; content = record { id = 71; parse_status = codes "malformed" } } ∷ []

-- the quarantined rows of batch 7
abbrev quarantine_query : SourceQuery
quarantine_query = record {
  batch_id = some 7;
  source_type = some (codes "quarantine");
  source_id = none;
  status = some (codes "malformed");
}

ordering_ids : SourceQuery → List ℕ
ordering_ids q = map (λ r. r.columns.ordering_id) (source_selects q source_tables ingested)

quarantine_test : ordering_ids quarantine_query ≡ 71 ∷ []
unfolding ordering_ids source_selects
quarantine_test = refl

-- by an id no quarantined row is found
quarantine_id_test : ordering_ids (record quarantine_query { source_id = some 71 }) ≡ []
unfolding ordering_ids source_selects
quarantine_id_test = refl

abbrev quarantine_row : SourceRow
quarantine_row = record {
  source_type = codes "quarantine";
  batch_id = 7;
  columns = quarantine_columns (record { id = 71; parse_status = codes "malformed" });
}

-- the row that the theorem is applied to
quarantine_row_test : Member quarantine_row (source_selects quarantine_query source_tables ingested)
unfolding source_selects quarantine_columns
quarantine_row_test = inl refl

source_selects-Asked_example :
    Member quarantine_row (source_selects quarantine_query source_tables ingested) ↔ (
      Member quarantine_row (source_selects everything source_tables ingested)
      × Asked quarantine_query quarantine_row)
source_selects-Asked_example =
    source_selects-Asked quarantine_query source_tables ingested quarantine_row
