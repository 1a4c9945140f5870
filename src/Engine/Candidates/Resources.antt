-- ===== src/Engine/Candidates/Resources.antt =====
-- Equality of the contradictions' tags and of the resource texts, and the order of these texts.
use roborecon.Prelude.{
  ℕ, Text, text_eq, text_eq_refl, Bool, true, false, ◌&&◌, ◌||◌, [], ◌∷◌, ◌++◌, ◌≡◌, arith, ltb,
  ◌==◌,
}
use roborecon.Enums.{SettlementLineType, line_type_value, line_type_eq}
use roborecon.Engine.Model.{Contradiction, Resource}

code : Contradiction → ℕ
code Contradiction.currency_contradiction = 0
code Contradiction.amount_contradiction = 1
code Contradiction.date_contradiction = 2
code Contradiction.lifecycle_contradiction = 3
code Contradiction.batch_collision = 4
code Contradiction.line_currency_contradiction = 5
code Contradiction.payment_direction_contradiction = 6
code Contradiction.refund_direction_contradiction = 7
code Contradiction.fee_direction_contradiction = 8
code Contradiction.tax_direction_contradiction = 9
code Contradiction.hold_direction_contradiction = 10
code Contradiction.release_direction_contradiction = 11
code Contradiction.settlement_amount_contradiction = 12
code Contradiction.settlement_fee_contradiction = 13
code Contradiction.settlement_tax_contradiction = 14
code Contradiction.settlement_hold_contradiction = 15
code Contradiction.bank_duplicate_contradiction = 16
code Contradiction.bank_currency_contradiction = 17
code Contradiction.bank_amount_contradiction = 18
code Contradiction.payment_amount_contradiction = 19
code Contradiction.duplicate_line_reference = 20
code Contradiction.refund_currency_contradiction = 21
code Contradiction.refund_amount_contradiction = 22
code Contradiction.hold_release_missing = 23
code Contradiction.bank_credit_missing = 24

unfoldable pub contradiction_eq : Contradiction → Contradiction → Bool
unfolding code
contradiction_eq a b = code a == code b

-- the order of texts
unfoldable pub text_lt : Text → Text → Bool
text_lt [] [] = false
text_lt [] (d ∷ t) = true
text_lt (c ∷ s) [] = false
text_lt (c ∷ s) (d ∷ t) = ltb c d || ((c == d) && text_lt s t)

unfoldable pub resource_eq : Resource → Resource → Bool
resource_eq (Resource.record_id m) (Resource.record_id n) = m == n
resource_eq (Resource.payment_id m) (Resource.payment_id n) = m == n
resource_eq (Resource.refund_id m) (Resource.refund_id n) = m == n
resource_eq (Resource.line_id m) (Resource.line_id n) = m == n
resource_eq (Resource.payment_reference s) (Resource.payment_reference t) = text_eq s t
resource_eq (Resource.refund_reference s) (Resource.refund_reference t) = text_eq s t
resource_eq (Resource.line_reference k s) (Resource.line_reference l t) =
    line_type_eq k l && text_eq s t
resource_eq _ _ = false

-- the place of the prefix of a resource among the prefixes
rank : Resource → ℕ
rank (Resource.record_id n) = 0
rank (Resource.line_id n) = 1
rank (Resource.line_reference k s) = 2
rank (Resource.payment_id n) = 3
rank (Resource.payment_reference s) = 4
rank (Resource.refund_id n) = 5
rank (Resource.refund_reference s) = 6

-- a line type and a reference, joined by a colon
unfoldable pub labelled : SettlementLineType → Text → Text
labelled kind reference = line_type_value kind ++ b':' ∷ reference

unfoldable pub resource_lt : Resource → Resource → Bool
unfolding rank labelled text_lt
resource_lt (Resource.record_id m) (Resource.record_id n) = ltb m n
resource_lt (Resource.payment_id m) (Resource.payment_id n) = ltb m n
resource_lt (Resource.refund_id m) (Resource.refund_id n) = ltb m n
resource_lt (Resource.line_id m) (Resource.line_id n) = ltb m n
resource_lt (Resource.payment_reference s) (Resource.payment_reference t) = text_lt s t
resource_lt (Resource.refund_reference s) (Resource.refund_reference t) = text_lt s t
resource_lt (Resource.line_reference k s) (Resource.line_reference l t) =
    text_lt (labelled k s) (labelled l t)
resource_lt a b = ltb (rank a) (rank b)

pub line_type_eq_refl : (k : SettlementLineType) → line_type_eq k k ≡ true
unfolding line_type_eq
line_type_eq_refl k = ground arith

pub line_type_eq→≡ : (k l : SettlementLineType) → line_type_eq k l ≡ true → k ≡ l
unfolding line_type_eq
line_type_eq→≡ k l h = ground arith

pub resource_eq_refl : (r : Resource) → resource_eq r r ≡ true
unfolding resource_eq
resource_eq_refl (Resource.record_id n) = ground arith
resource_eq_refl (Resource.payment_id n) = ground arith
resource_eq_refl (Resource.refund_id n) = ground arith
resource_eq_refl (Resource.line_id n) = ground arith
resource_eq_refl (Resource.payment_reference s) = text_eq_refl s
resource_eq_refl (Resource.refund_reference s) = text_eq_refl s
resource_eq_refl (Resource.line_reference k s) = ground (arith, line_type_eq_refl k, text_eq_refl s)
