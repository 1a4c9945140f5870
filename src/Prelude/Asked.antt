-- ===== src/Prelude/Asked.antt =====
-- What an optional argument of a query asks for.
use mathlib.Core.Path.{◌≡◌}
use mathlib.Core.Option.{Option, none, some}

-- The value is the one asked for, if one is asked for.
abbrev pub IsAsked : {A : Type 0} → Option A → A → Type 0
IsAsked none a = Unit
IsAsked (some wanted) a = a ≡ wanted
