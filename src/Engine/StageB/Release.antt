-- ===== src/Engine/StageB/Release.antt =====
-- The lines of settlements, and `_release_lines` and `_release_settlements` of engine.py.
use roborecon.Prelude.{
  ℕ, text_eq, Bool, ◌&&◌, List, [], ◌∷◌, ◌++◌, map, ◌==◌, filter, any, if◌then◌else◌,
}
use roborecon.Prelude.Int.{ltb_ℤ}
use roborecon.Prelude.Dict.{get, group}
use roborecon.Enums.{SettlementLineType, line_type_eq}
use roborecon.Records.{Settlement, SettlementLine}
use roborecon.Engine.Reference.{CharTables, normalize_reference}
use roborecon.Engine.Time.{utc}

abbrev pub id_eq : ℕ → ℕ → Bool
id_eq a b = a == b

abbrev pub LinesBySettlement : Type 0
LinesBySettlement = List (ℕ × List SettlementLine)

-- the loop at the start of `reconcile_stage_b`
unfoldable pub lines_by_settlement : List SettlementLine → LinesBySettlement
unfolding group
lines_by_settlement lines = group id_eq (λ l. SettlementLine.settlement_id l) lines

-- `lines_by_settlement.get(settlement.id, [])`
unfoldable pub lines_of : LinesBySettlement → Settlement → List SettlementLine
unfolding get
lines_of by_settlement s = get id_eq s.id by_settlement

-- the lines of several settlements, in order
unfoldable pub related_lines : LinesBySettlement → List Settlement → List SettlementLine
unfolding lines_of
related_lines by_settlement [] = []
related_lines by_settlement (s ∷ ss) = lines_of by_settlement s ++ related_lines by_settlement ss

module _ (tables : CharTables) where
  unfoldable pub is_release_of : Settlement → SettlementLine → Bool
  is_release_of held line =
      line_type_eq line.line_type SettlementLineType.release
      && text_eq (normalize_reference tables line.reference)
          (normalize_reference tables held.provider_settlement_id)
      && ltb_ℤ (utc held.business_at) (utc line.business_at)

  unfoldable pub release_lines :
      Settlement → List Settlement → LinesBySettlement → List (Settlement × SettlementLine)
  unfolding is_release_of filter lines_of
  release_lines held [] by_settlement = []
  release_lines held (s ∷ ss) by_settlement =
      (if s.id == held.id
        then []
        else map (λ l. (s, l)) (filter (is_release_of held) (lines_of by_settlement s)))
      ++ release_lines held ss by_settlement

  unfoldable pub release_settlements :
      Settlement → List Settlement → LinesBySettlement → List Settlement
  unfolding release_lines filter any
  release_settlements held settlements by_settlement =
      filter
        (λ s. any (λ r. Settlement.id s == (r.0).id) (release_lines held settlements by_settlement))
        settlements
