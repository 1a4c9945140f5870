-- ===== src/Json/Laws.antt =====
-- Reading a JSON object after a write.
use roborecon.Prelude.{
  Text, text_eq, text_eq→≡, text_eq_refl, false, ◌≡◌, refl, some, arith, if◌then◌else◌,
}
use roborecon.Json.{Json, Fields, no_fields, field, get_field, set_field}

pub get_field-set_field :
    (j k : Text) (v : Json) (d : Fields)
    → get_field j (set_field k v d) ≡ (if text_eq j k then some v else get_field j d)
unfolding get_field set_field
get_field-set_field j k v no_fields = refl
get_field-set_field j k v (field i w d) = ground (
  arith,
  text_eq→≡ k i,
  text_eq→≡ j k,
  text_eq→≡ j i,
  text_eq_refl i,
  get_field-set_field j k v d,
)

pub get_field-set_field_self :
    (k : Text) (v : Json) (d : Fields) → get_field k (set_field k v d) ≡ some v
get_field-set_field_self k v d = rw (get_field-set_field k k v d, text_eq_refl k) refl

pub get_field-set_field_other :
    (j k : Text) (v : Json) (d : Fields)
    → text_eq j k ≡ false
    → get_field j (set_field k v d) ≡ get_field j d
get_field-set_field_other j k v d h = rw (get_field-set_field j k v d, h) refl
