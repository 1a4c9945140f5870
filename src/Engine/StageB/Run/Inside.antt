-- ===== src/Engine/StageB/Run/Inside.antt =====
-- The settlements that release a held amount are among those given.
use roborecon.Prelude.{List, Member, Member-filter}
use roborecon.Records.{Settlement}
use roborecon.Engine.Reference.{CharTables}
use roborecon.Engine.StageB.Release.{LinesBySettlement, release_settlements}

pub release-Member :
    (tables : CharTables) (held : Settlement) (settlements : List Settlement)
    (by_settlement : LinesBySettlement) (s : Settlement)
    → Member s (release_settlements tables held settlements by_settlement)
    → Member s settlements
unfolding release_settlements
release-Member tables held settlements by_settlement s m = (Member-filter _ s settlements m).0
