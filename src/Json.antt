-- ===== src/Json.antt =====
-- The JSON values that the services read and write. A float is rounded to two places, so it is a
-- number of hundredths.
pub mod Laws
use roborecon.Prelude.{
  ℕ, ◌/◌, Text, text_eq, Bool, true, false, not, Option, none, some, ◌==◌, is_empty, if◌then◌else◌,
}
use roborecon.Prelude.Int.{ℤ, pos, pos_part, neg_part, sub_ℕ, ◌==ℤ◌}

mutual
  pub data Json : Type 0 where
    null : Json
    boolean : Bool → Json
    number : ℤ → Json
    decimal : ℤ → Json
    text : Text → Json
    array : Items → Json
    object : Fields → Json

  pub data Items : Type 0 where
    end_items : Items
    item : Json → Items → Items

  pub data Fields : Type 0 where
    no_fields : Fields
    field : Text → Json → Fields → Fields

-- `d.get(key)`; `none` if the key is missing
unfoldable pub get_field : Text → Fields → Option Json
get_field key no_fields = none
get_field key (field k v d) = if text_eq key k then some v else get_field key d

-- `d[key] = v`
unfoldable pub set_field : Text → Json → Fields → Fields
set_field key v no_fields = field key v no_fields
set_field key v (field k w d) = if text_eq key k then field k v d else field k w (set_field key v d)

-- `bool(value)`
unfoldable pub is_truthy : Json → Bool
is_truthy null = false
is_truthy (boolean b) = b
is_truthy (number n) = not (n ==ℤ pos 0)
is_truthy (decimal h) = not (h ==ℤ pos 0)
is_truthy (text s) = not (is_empty s)
is_truthy (array end_items) = false
is_truthy (array (item v vs)) = true
is_truthy (object no_fields) = false
is_truthy (object (field k v d)) = true

-- `int(value)`: a float is cut off towards zero, a text is read by `parse`; all else raises.
unfoldable pub int_of : (Text → Option ℤ) → Json → Option ℤ
int_of parse null = none
int_of parse (boolean b) = some (if b then pos 1 else pos 0)
int_of parse (number n) = some n
int_of parse (decimal h) = some (sub_ℕ (pos_part h / 100) (neg_part h / 100))
int_of parse (text s) = parse s
int_of parse (array vs) = none
int_of parse (object d) = none
