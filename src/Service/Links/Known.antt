-- ===== src/Service/Links/Known.antt =====
-- What the drafts of one result refer to.
use roborecon.Prelude.{
  ℕ, Text, codes, ==→≡, ==_refl, ◌≡◌, refl, ◌⊎◌, inl, inr, Option, none, some, List, [], ◌∷◌,
  Option-cases, Member, All, All-append, All-imp,
}
use roborecon.Prelude.Dict.{lookup, index-Member, Member-index}
use roborecon.Prelude.Table.{find-eq_some}
use roborecon.Enums.{ReconciliationStage}
use roborecon.Rows.{ReconciliationResult}
use roborecon.Service.{
  Source, source_type_of, source_id_of, Snapshot, sources_of, id_eq, source_index,
}
use roborecon.Service.Links.{
  LinkDraft, draft_of, selected_drafts, find_order, order_draft, provider_order_id_of, is_order,
  related_order, related_orders, primary_ids, primary_drafts, stage_drafts, link_drafts,
}

-- A draft or a link is of the record.
abbrev pub IsOf : Source → LinkDraft → Type 0
IsOf src d = (d.source_type ≡ source_type_of src) × (d.source_id ≡ source_id_of src)

module _ (s : Snapshot) where
  -- The draft is of a source in the snapshot.
  abbrev pub Known : LinkDraft → Type 0
  Known d = (src : Source) × Member src (sources_of s) × IsOf src d

  lookup-Known :
      (role : Text) (id : ℕ) (src : Source)
      → lookup id_eq id (source_index s) ≡ some src
      → Known (draft_of role src)
  unfolding source_index
  lookup-Known role id src h =
      (src, index-Member id_eq ==→≡ ==_refl source_id_of id src (sources_of s) h, (refl, refl))

  selected_drafts-Known : (ids : List ℕ) → All Known (selected_drafts (source_index s) ids)
  unfolding selected_drafts
  selected_drafts-Known [] = tt
  selected_drafts-Known (id ∷ ids) = elim (Option-cases (lookup id_eq id (source_index s))) [
    | inl missing ↦ rw (selected_drafts, missing) (selected_drafts-Known ids)
    | inr (src, found) ↦
        rw (selected_drafts, found)
          (lookup-Known (codes "selected") id src found, selected_drafts-Known ids)
  ]

  order_draft-Known :
      (o : Option (ℕ × Source))
      → ((e : ℕ × Source) → o ≡ some e → Member e (source_index s))
      → All Known (order_draft o)
  unfolding order_draft source_index
  order_draft-Known none h = tt
  order_draft-Known (some (id, src)) h = (
    (
      src,
      Member-index id_eq source_id_of (sources_of s) (id, src) (h (id, src) refl),
      (refl, refl),
    ),
    tt,
  )

  find_order-Member :
      (o : Option Text) (e : ℕ × Source)
      → find_order (source_index s) o ≡ some e
      → Member e (source_index s)
  unfolding find_order
  find_order-Member none e h = cc
  find_order-Member (some t) e h = (find-eq_some (is_order t) (source_index s) e h).0

  related_order-Known : (src : Source) → All Known (related_order (source_index s) src)
  unfolding related_order
  related_order-Known src =
      let o = provider_order_id_of (source_index s) src in
      order_draft-Known (find_order (source_index s) o) (find_order-Member o)

  related_orders-Known : (ids : List ℕ) → All Known (related_orders (source_index s) ids)
  unfolding related_orders
  related_orders-Known [] = tt
  related_orders-Known (id ∷ ids) = elim (Option-cases (lookup id_eq id (source_index s))) [
    | inl missing ↦ rw (related_orders, missing) (related_orders-Known ids)
    | inr (src, found) ↦
        rw (related_orders, found)
          (All-append Known _ _ (related_order-Known src) (related_orders-Known ids))
  ]

  stage_drafts-Known :
      (stage : ReconciliationStage) (primary : Option ℕ) (ids : List ℕ)
      → All Known (stage_drafts stage (source_index s) primary ids)
  unfolding stage_drafts
  stage_drafts-Known ReconciliationStage.ledger_to_razorpay primary ids =
      All-append Known _ _ (related_orders-Known (primary_ids primary)) (related_orders-Known ids)
  stage_drafts-Known ReconciliationStage.razorpay_to_settlement primary ids = tt

  -- what the links of a result with these primary columns may refer to
  abbrev pub Referable : Text → Option ℕ → LinkDraft → Type 0
  Referable primary_type primary d =
      ((primary ≡ some d.source_id) × (d.source_type ≡ primary_type)) ⊎ Known d

  primary_drafts-Referable :
      (primary_type : Text) (primary : Option ℕ)
      → All (Referable primary_type primary) (primary_drafts primary_type primary)
  primary_drafts-Referable primary_type none = tt
  primary_drafts-Referable primary_type (some id) = (inl (refl, refl), tt)

  pub link_drafts-Referable :
      {C : Type 0} (result : ReconciliationResult C) (ids : List ℕ)
      → All
          (Referable result.primary_source_type result.primary_source_id)
          (link_drafts (source_index s) result ids)
  unfolding link_drafts
  link_drafts-Referable result ids =
      let P = Referable result.primary_source_type result.primary_source_id in
      All-append P _ _
        (All-append P _ _
          (primary_drafts-Referable result.primary_source_type result.primary_source_id)
          (All-imp (λ d h. inr h) (selected_drafts (source_index s) ids)
            (selected_drafts-Known ids)))
        (All-imp (λ d h. inr h)
          (stage_drafts result.stage (source_index s) result.primary_source_id ids)
          (stage_drafts-Known result.stage result.primary_source_id ids))
