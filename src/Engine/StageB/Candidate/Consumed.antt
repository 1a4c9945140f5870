-- ===== src/Engine/StageB/Candidate/Consumed.antt =====
-- What `_stage_b_resource_ids` always names: the payment itself, by its reference.
use roborecon.Prelude.{
  true, ◌≡◌, refl, inl, inr, List, [], ◌∷◌, ◌++◌, is_empty, filter, Member, append-Member,
  filter-Member, any-Member, Bool-cases,
}
use mathlib.Core.Bool.{false≢true}
use roborecon.Prelude.Order.{sort-Member}
use roborecon.Records.{RazorpayPayment, RazorpayRefund, Settlement}
use roborecon.Engine.Model.{ScoredCandidate, Resource}
use roborecon.Engine.Reference.{CharTables, normalize_reference}
use roborecon.Engine.Candidates.{is_reserved, resources_of, batch_collision_ids}
use roborecon.Engine.Candidates.Resources.{resource_eq, resource_eq_refl, resource_lt}
use roborecon.Engine.StageB.Release.{LinesBySettlement, related_lines}
use roborecon.Engine.StageB.Candidate.{
  add_resources, refund_resources, consumes, line_resources, stage_b_resource_ids,
}

add_resources-Member :
    (r : Resource) (qs rs : List Resource) → Member r rs → Member r (add_resources qs rs)
unfolding add_resources
add_resources-Member r [] rs m = m
add_resources-Member r (q ∷ qs) rs m = elim (Bool-cases (is_reserved rs q)) [
  | inl t ↦ rw t (add_resources-Member r qs rs m)
  | inr f ↦ rw f (add_resources-Member r qs (rs ++ q ∷ []) (append-Member r rs (q ∷ []) (inl m)))
]

abbrev pub reference_of : CharTables → RazorpayPayment → Resource
reference_of tables p =
    Resource.payment_reference (normalize_reference tables p.provider_payment_id)

pub reference-consumed :
    (tables : CharTables) (p : RazorpayPayment) (related : List Settlement)
    (by_settlement : LinesBySettlement) (refunds : List RazorpayRefund)
    → Member (reference_of tables p) (stage_b_resource_ids tables p related by_settlement refunds)
unfolding stage_b_resource_ids
reference-consumed tables p related by_settlement refunds =
    add_resources-Member _
      (refund_resources tables refunds
        ++ line_resources tables (filter (consumes tables p) (related_lines by_settlement related)))
      (Resource.payment_id p.id
        ∷ Resource.payment_reference (normalize_reference tables p.provider_payment_id)
        ∷ [])
      (inr (inl refl))

Member-resources_of :
    (c : ScoredCandidate) (r : Resource) (ids : List Resource)
    → Member r ids
    → Member r (resources_of c ids)
unfolding resources_of
Member-resources_of c r [] m = absurd m.1
Member-resources_of c r (q ∷ qs) m = m

Member-nonempty : (r : Resource) (ids : List Resource) → is_empty ids ≡ true → Member r ids → ⊥
Member-nonempty r [] e m = m.1
Member-nonempty r (q ∷ qs) e m = false≢true e

-- A candidate without a collision names no resource that is reserved.
pub free-Member :
    (c : ScoredCandidate) (reserved_ids ids : List Resource) (r : Resource)
    → is_empty (batch_collision_ids c reserved_ids ids) ≡ true
    → Member r ids
    → Member r reserved_ids
    → ⊥
unfolding batch_collision_ids is_reserved
free-Member c reserved_ids ids r e m n = Member-nonempty r _ e (
    sort-Member resource_lt r _ (
      filter-Member (is_reserved reserved_ids) r (resources_of c ids)
        (Member-resources_of c r ids m)
        (any-Member (resource_eq r) r reserved_ids n (resource_eq_refl r))))
