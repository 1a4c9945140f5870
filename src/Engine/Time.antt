-- ===== src/Engine/Time.antt =====
-- `_utc` and `_date_distance` of engine.py, in microseconds.
use roborecon.Prelude.{ℕ, ◌*◌, ◌≡◌, none, some, arith}
use roborecon.Prelude.Int.{ℤ, pos, ◌-ℤ◌, abs}
use roborecon.Records.{Datetime}

abbrev pub day : ℕ
day = 24 * 60 * 60 * 1000000

-- the instant: a time with no offset counts as UTC
unfoldable pub utc : Datetime → ℤ
utc value = elim value.utc_offset [ none ↦ pos value.wall | some offset ↦ pos value.wall -ℤ offset ]

unfoldable pub date_distance : Datetime → Datetime → ℕ
date_distance left right = abs (utc left -ℤ utc right)

pub date_distance_comm :
    (left right : Datetime) → date_distance left right ≡ date_distance right left
unfolding date_distance ◌-ℤ◌
date_distance_comm left right = ground arith
