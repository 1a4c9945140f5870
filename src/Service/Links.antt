-- ===== src/Service/Links.antt =====
-- `_add_links_and_exception` of apps/api/app/reconciliation/service.py. The ids of the new rows are
-- drawn by the database; they are a function of what the row is for.
pub mod Unseen
pub mod Known
pub mod Keys
use roborecon.Prelude.{
  ℕ, ◌==◌, Text, codes, text_eq, Bool, true, false, not, ◌&&◌, Option, none, some, List, [], ◌∷◌,
  ◌++◌, map, any, if◌then◌else◌,
}
use roborecon.Prelude.Dict.{lookup}
use roborecon.Prelude.Table.{find}
use roborecon.Enums.{ReconciliationStage, ExceptionStatus, open_status, result_status_value}
use roborecon.Records.{RazorpayOrder, RazorpayPayment, RazorpayRefund}
use roborecon.Engine.Model.{ScoredCandidate, EngineOutcome}
use roborecon.Rows.{ReconciliationResult, MatchLink, ReconciliationException, system}
use roborecon.Service.{
  Source, ledger_source, order_source, payment_source, refund_source, settlement_source,
  line_source, credit_source, source_type_of, source_id_of, SourceIndex, id_eq, exception_message,
}

-- an element of `links`: type, id and role
pub record LinkDraft : Type 0 where
  pub source_type : Text
  pub source_id : ℕ
  pub role : Text

-- The ids that the database draws.
pub record NewIds : Type 0 where
  pub run_id : ℕ
  pub failed_run_id : ℕ
  -- of the n-th result
  pub result_id : ℕ → ℕ
  pub link_id : ℕ → Text → ℕ → ℕ
  pub exception_id : ℕ → ℕ
  pub quarantine_id : ℕ → ℕ

abbrev pub draft_of : Text → Source → LinkDraft
draft_of role s = record { source_type = source_type_of s; source_id = source_id_of s; role = role }

-- `source_index.get(str(id))` for each id, as drafts
unfoldable pub selected_drafts : SourceIndex → List ℕ → List LinkDraft
unfolding lookup
selected_drafts index [] = []
selected_drafts index (id ∷ ids) =
    let rest = selected_drafts index ids in
    elim (lookup id_eq id index) [ some s ↦ draft_of (codes "selected") s ∷ rest | none ↦ rest ]

unfoldable pub is_parent : RazorpayRefund → ℕ × Source → Bool
unfolding text_eq
is_parent refund (id, payment_source p) = text_eq p.provider_payment_id refund.provider_payment_id
is_parent refund _ = false

unfoldable pub order_id_of_parent : Option (ℕ × Source) → Option Text
order_id_of_parent (some (id, payment_source p)) = some p.provider_order_id
order_id_of_parent _ = none

unfoldable pub provider_order_id_of : SourceIndex → Source → Option Text
unfolding find is_parent order_id_of_parent
provider_order_id_of index (payment_source p) = some p.provider_order_id
provider_order_id_of index (refund_source r) = order_id_of_parent (find (is_parent r) index)
provider_order_id_of index _ = none

unfoldable pub is_order : Text → ℕ × Source → Bool
unfolding text_eq
is_order provider_order_id (id, order_source o) = text_eq o.provider_order_id provider_order_id
is_order provider_order_id _ = false

unfoldable pub find_order : SourceIndex → Option Text → Option (ℕ × Source)
unfolding find is_order
find_order index none = none
find_order index (some provider_order_id) = find (is_order provider_order_id) index

unfoldable pub order_draft : Option (ℕ × Source) → List LinkDraft
order_draft none = []
order_draft (some (id, s)) = draft_of (codes "related") s ∷ []

-- `add_related_order`
unfoldable pub related_order : SourceIndex → Source → List LinkDraft
unfolding order_draft find_order provider_order_id_of
related_order index source = order_draft (find_order index (provider_order_id_of index source))

unfoldable pub related_orders : SourceIndex → List ℕ → List LinkDraft
unfolding lookup related_order
related_orders index [] = []
related_orders index (id ∷ ids) =
    let rest = related_orders index ids in
    elim (lookup id_eq id index) [ some s ↦ related_order index s ++ rest | none ↦ rest ]

abbrev pub primary_ids : Option ℕ → List ℕ
primary_ids none = []
primary_ids (some id) = id ∷ []

abbrev pub primary_drafts : Text → Option ℕ → List LinkDraft
primary_drafts source_type none = []
primary_drafts source_type (some id) =
    record { source_type = source_type; source_id = id; role = codes "primary" } ∷ []

unfoldable pub stage_drafts : ReconciliationStage → SourceIndex → Option ℕ → List ℕ → List LinkDraft
unfolding related_orders
stage_drafts ReconciliationStage.ledger_to_razorpay index primary selected =
    related_orders index (primary_ids primary) ++ related_orders index selected
stage_drafts ReconciliationStage.razorpay_to_settlement index primary selected = []

-- the list `links`
unfoldable pub link_drafts :
    {C : Type 0} → SourceIndex → ReconciliationResult C → List ℕ → List LinkDraft
unfolding selected_drafts stage_drafts
link_drafts index result selected_ids =
    primary_drafts result.primary_source_type result.primary_source_id
    ++ selected_drafts index selected_ids
    ++ stage_drafts result.stage index result.primary_source_id selected_ids

-- equality of the keys
unfoldable pub same_key : LinkDraft → LinkDraft → Bool
unfolding text_eq
same_key a b = text_eq a.source_type b.source_type && (a.source_id == b.source_id)

-- the loop with `seen`: the first draft of each key
unfoldable pub unseen : List LinkDraft → List LinkDraft → List LinkDraft
unfolding any same_key
unseen seen [] = []
unseen seen (d ∷ ds) =
    let known = any (same_key d) seen in
    let rest = unseen (if known then seen else d ∷ seen) ds in if known then rest else d ∷ rest

unfoldable pub link_of :
    {C : Type 0} → NewIds → ReconciliationResult C → EngineOutcome → LinkDraft → MatchLink
link_of ids result outcome d = record {
  id = ids.link_id result.id d.source_type d.source_id;
  run_id = result.run_id;
  result_id = result.id;
  source_type = d.source_type;
  source_id = d.source_id;
  role = d.role;
  autonomous = outcome.autonomous;
  actor = system;
}

unfoldable pub result_links :
    {C : Type 0} → NewIds → SourceIndex → ReconciliationResult C → EngineOutcome → List MatchLink
unfolding link_of unseen link_drafts
result_links ids index result outcome =
    map (link_of ids result outcome) (unseen [] (link_drafts index result outcome.selected_ids))

unfoldable pub exception_of :
    {C : Type 0} → NewIds → ReconciliationResult C → EngineOutcome → ReconciliationException
unfolding result_status_value exception_message
exception_of ids result outcome = record {
  id = ids.exception_id result.id;
  run_id = result.run_id;
  result_id = some result.id;
  batch_id = result.batch_id;
  status = open_status;
  exception_type = result_status_value outcome.status;
  source_type = some result.primary_source_type;
  source_id = result.primary_source_id;
  amount = result.amount;
  message = exception_message outcome.status;
  review_note = none;
  reviewed_by = none;
  reviewed_at = none;
}

unfoldable pub result_exceptions :
    {C : Type 0} → NewIds → ReconciliationResult C → EngineOutcome → List ReconciliationException
unfolding exception_of
result_exceptions ids result outcome =
    if outcome.autonomous then [] else exception_of ids result outcome ∷ []
