-- ===== src/Review/Brief.antt =====
-- The latest completed close brief of a run, and `mark_latest_brief_stale` of
-- apps/api/app/reconciliation/close_brief.py.
use roborecon.Prelude.{
  ℕ, ltb, ◌==◌, codes, text_eq, Bool, true, false, ◌&&◌, ◌||◌, Option, none, some, List, [], ◌∷◌,
  if◌then◌else◌,
}
use roborecon.Prelude.Int.{ltb_ℤ, ◌==ℤ◌}
use roborecon.Prelude.Table.{update}
use roborecon.Engine.Time.{utc}
use roborecon.Records.{Datetime}
use roborecon.Rows.{BatchCloseBrief}

-- the order of a descending column of times in the database, where a null is the first
unfoldable pub is_before : Option Datetime → Option Datetime → Bool
unfolding utc
is_before none (some b) = true
is_before (some a) (some b) = ltb_ℤ (utc b) (utc a)
is_before _ none = false

unfoldable pub is_tie : Option Datetime → Option Datetime → Bool
unfolding utc
is_tie none none = true
is_tie (some a) (some b) = utc a ==ℤ utc b
is_tie _ _ = false

-- the `order_by`
unfoldable pub is_later : BatchCloseBrief → BatchCloseBrief → Bool
unfolding is_before is_tie
is_later a b =
    is_before a.generated_at b.generated_at
    || (is_tie a.generated_at b.generated_at
        && (is_before (some a.created_at) (some b.created_at)
            || (is_tie (some a.created_at) (some b.created_at) && ltb b.id a.id)))

-- the `where`
unfoldable pub is_completed_of : ℕ → BatchCloseBrief → Bool
unfolding text_eq
is_completed_of run_id b = (b.run_id == run_id) && text_eq b.generation_status (codes "completed")

later_of : BatchCloseBrief → Option BatchCloseBrief → BatchCloseBrief
unfolding is_later
later_of b none = b
later_of b (some c) = if is_later c b then c else b

-- `latest_close_brief`
unfoldable pub latest_close_brief : ℕ → List BatchCloseBrief → Option BatchCloseBrief
unfolding is_completed_of later_of
latest_close_brief run_id [] = none
latest_close_brief run_id (b ∷ bs) =
    let rest = latest_close_brief run_id bs in
    if is_completed_of run_id b then some (later_of b rest) else rest

mark_stale : Datetime → BatchCloseBrief → BatchCloseBrief
mark_stale at b = elim b.stale_at [ none ↦ record b { stale_at = some at } | some _ ↦ b ]

mark_brief : Datetime → Option BatchCloseBrief → List BatchCloseBrief → List BatchCloseBrief
unfolding mark_stale update
mark_brief at none bs = bs
mark_brief at (some b) bs = update (λ c. c.id == b.id) (mark_stale at) bs

unfoldable pub mark_latest_brief_stale : ℕ → Datetime → List BatchCloseBrief → List BatchCloseBrief
unfolding mark_brief latest_close_brief
mark_latest_brief_stale run_id stale_at bs = mark_brief stale_at (latest_close_brief run_id bs) bs
