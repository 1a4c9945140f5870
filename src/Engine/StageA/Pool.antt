-- ===== src/Engine/StageA/Pool.antt =====
-- `_StageACandidate` and `_stage_a_pool` of engine.py.
use roborecon.Prelude.{
  ℕ, Text, text_eq, codes, Bool, true, false, ◌&&◌, Option, none, some, List, [], ◌∷◌, ◌++◌, map,
}
use roborecon.Prelude.Int.{ℤ, ◌==ℤ◌}
use roborecon.Prelude.Dict.{lookup, index}
use roborecon.Enums.{is_captured}
use roborecon.Records.{Datetime, RazorpayOrder, RazorpayPayment, RazorpayRefund}
use roborecon.Engine.Model.{CandidateKind, payment, refund}

pub record StageACandidate : Type 0 where
  pub record_id : ℕ
  pub kind : CandidateKind
  pub amount : ℤ
  pub currency : Text
  pub business_at : Datetime
  pub references : List Text
  pub original_reference : Text
  pub captured : Bool
  pub parent_amount : Option ℤ
  pub parent_record_id : Option ℕ
  pub order_payment_chain : Bool
  pub has_linked_order : Bool

-- `p.captured and p.status == "captured"`
unfoldable pub payment_captured : RazorpayPayment → Bool
payment_captured p = p.captured && is_captured p.status

unfoldable pub verified_chain : Option RazorpayOrder → RazorpayPayment → Bool
unfolding payment_captured
verified_chain none p = false
verified_chain (some o) p =
    text_eq o.provider_order_id p.provider_order_id
    && (o.amount ==ℤ p.amount)
    && text_eq o.currency p.currency
    && text_eq o.status (codes "paid")
    && payment_captured p

abbrev order_references : Option RazorpayOrder → List Text
order_references none = []
order_references (some o) = o.receipt ∷ o.provider_order_id ∷ []

abbrev pub is_some {ℓ} : {A : Type ℓ} → Option A → Bool
is_some none = false
is_some (some a) = true

unfoldable pub payment_candidate : List (Text × RazorpayOrder) → RazorpayPayment → StageACandidate
unfolding payment_captured verified_chain lookup
payment_candidate orders_by_provider_id p =
    let linked_order = lookup text_eq p.provider_order_id orders_by_provider_id in
    record {
      record_id = p.id;
      kind = payment;
      amount = p.amount;
      currency = p.currency;
      business_at = p.business_at;
      references =
          p.provider_payment_id ∷ p.provider_order_id ∷ p.receipt ∷ order_references linked_order;
      original_reference = p.receipt;
      captured = payment_captured p;
      parent_amount = none;
      parent_record_id = none;
      order_payment_chain = verified_chain linked_order p;
      has_linked_order = is_some linked_order;
    }

-- The fields of a refund's candidate that depend on its payment.
unfoldable pub refund_candidate_of :
    List (Text × RazorpayOrder) → RazorpayRefund → Option RazorpayPayment → StageACandidate
unfolding payment_captured verified_chain lookup
refund_candidate_of orders_by_provider_id r none = record {
  record_id = r.id;
  kind = refund;
  amount = r.amount;
  currency = r.currency;
  business_at = r.business_at;
  references = r.provider_refund_id ∷ r.provider_payment_id ∷ [];
  original_reference = r.provider_refund_id;
  captured = false;
  parent_amount = none;
  parent_record_id = none;
  order_payment_chain = false;
  has_linked_order = false;
}
refund_candidate_of orders_by_provider_id r (some p) =
    let parent_order = lookup text_eq p.provider_order_id orders_by_provider_id in
    record {
      record_id = r.id;
      kind = refund;
      amount = r.amount;
      currency = r.currency;
      business_at = r.business_at;
      references =
          r.provider_refund_id ∷ r.provider_payment_id ∷ p.receipt ∷ p.provider_order_id ∷ [];
      original_reference = r.provider_refund_id;
      captured = payment_captured p;
      parent_amount = some p.amount;
      parent_record_id = some p.id;
      order_payment_chain = verified_chain parent_order p;
      has_linked_order = is_some parent_order;
    }

unfoldable pub refund_candidate :
    List (Text × RazorpayOrder) → List (Text × RazorpayPayment) → RazorpayRefund → StageACandidate
unfolding refund_candidate_of
refund_candidate orders_by_provider_id payments_by_provider_id r =
    refund_candidate_of orders_by_provider_id r
      (lookup text_eq r.provider_payment_id payments_by_provider_id)

unfoldable pub stage_a_pool :
    List RazorpayOrder → List RazorpayPayment → List RazorpayRefund → List StageACandidate
unfolding payment_candidate refund_candidate index
stage_a_pool orders payments refunds =
    let orders_by_provider_id = index text_eq (λ o. RazorpayOrder.provider_order_id o) orders in
    let payments_by_provider_id =
      index text_eq (λ p. RazorpayPayment.provider_payment_id p) payments in
    map (payment_candidate orders_by_provider_id) payments
    ++ map (refund_candidate orders_by_provider_id payments_by_provider_id) refunds
