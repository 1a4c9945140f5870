-- ===== src/Ledger/Filters.antt =====
-- The filters of `_source_selects` on the rows that it returns.
use mathlib.Core.Path.{subst}
use mathlib.Core.Option.{none-ne-some}
use mathlib.Core.Bool.{true≢false}
use roborecon.Prelude.{
  ℕ, Text, codes, Bool, true, false, not, ◌&&◌, &&-eq_true, ◌≡◌, refl, sym, ◌↔◌, inl, inr, Option,
  none, some, List, Member, Bool-cases, arith,
}
use roborecon.Service.{InBatch, SourceTables}
use roborecon.Ledger.{
  SourceColumns, SourceRow, IngestionRecord, SourceQuery, source_filters, is_wanted, is_given,
  selected_rows, ledger_columns, order_columns, payment_columns, refund_columns, settlement_columns,
  line_columns, credit_columns, quarantine_columns, columns_with, ledger_rows, order_rows,
  payment_rows, refund_rows, settlement_rows, line_rows, credit_rows, quarantine_rows,
  source_selects,
}
use roborecon.Prelude.Asked.{IsAsked}
use roborecon.Ledger.Asked.{IsAskedId, Asked, everything, is_wanted-IsAsked, filters-IsAsked}
use roborecon.Ledger.Select.{
  row_of, Restricts, Restricts-append, source_select-Member, Member-source_select,
}

module _ {A : Type 0} (q : SourceQuery) (name : Text) (id_of : A → ℕ) (status_of : A → Text)
    (columns_of : A → SourceColumns) (ids : (r : A) → (columns_of r).source_id ≡ some (id_of r))
    (statuses : (r : A) → (columns_of r).status ≡ status_of r) where
  abbrev is_kept : SourceQuery → ℕ → A → Bool
  is_kept p batch r = source_filters p.batch_id p.source_id p.status batch (id_of r) (status_of r)

  kept-Asked :
      (r : InBatch A)
      → is_wanted q.source_type name ≡ true
      → is_kept q r.batch_id r.content ≡ true
      → Asked q (row_of name columns_of r)
  kept-Asked r w k =
      let (batch, id, status) =
        (filters-IsAsked q r.batch_id (id_of r.content) (status_of r.content)).0 k in
      (
        (is_wanted-IsAsked q.source_type name).0 w,
        batch,
        subst (IsAskedId q.source_id) (sym (ids r.content)) id,
        subst (IsAsked q.status) (sym (statuses r.content)) status,
      )

  Asked-kept :
      (r : InBatch A)
      → Asked q (row_of name columns_of r)
      → (is_wanted q.source_type name ≡ true) × (is_kept q r.batch_id r.content ≡ true)
  Asked-kept r a = (
    (is_wanted-IsAsked q.source_type name).1 a.0,
    (filters-IsAsked q r.batch_id (id_of r.content) (status_of r.content)).1 (
      a.1,
      subst (IsAskedId q.source_id) (ids r.content) a.2,
      subst (IsAsked q.status) (statuses r.content) a.3,
    ),
  )

  selected_rows-Restricts :
      (rows : List (InBatch A))
      → Restricts
          (Asked q)
          (selected_rows name id_of status_of columns_of q rows)
          (selected_rows name id_of status_of columns_of everything rows)
  unfolding selected_rows
  selected_rows-Restricts rows row = (
    (λ m. elim (Bool-cases (is_wanted q.source_type name)) [
      | inl w ↦
          let (r, there, k, e) =
            source_select-Member name (is_kept q) columns_of row rows (rw w at m) in
          (
            rw e (
                Member-source_select name (is_kept everything) columns_of r rows there (
                  (filters-IsAsked everything r.batch_id (id_of r.content) (status_of r.content)).1
                    (tt, tt, tt))),
            rw e (kept-Asked r w k),
          )
      | inr f ↦ absurd (rw f at m).1
    ]),
    (λ m.
        let (r, there, k, e) =
          source_select-Member name (is_kept everything) columns_of row rows m.0 in
        let (w, wanted) = Asked-kept r (subst (Asked q) e m.1) in
        rw (w, e) (Member-source_select name (is_kept q) columns_of r rows there wanted)),
  )

-- a row without an id is asked for only if no id is
given-IsAskedId : (wanted : Option ℕ) → (is_given wanted ≡ false) ↔ IsAskedId wanted none
unfolding is_given
given-IsAskedId none = ((λ _. tt), (λ _. refl))
given-IsAskedId (some wanted) = ((λ h. absurd (true≢false h)), (λ e. absurd (none-ne-some _ e)))

abbrev is_quarantined : SourceQuery → ℕ → IngestionRecord → Bool
is_quarantined q batch r =
    source_filters q.batch_id none q.status batch r.id r.parse_status && not (is_given q.source_id)

quarantined-Asked :
    (q : SourceQuery) (r : InBatch IngestionRecord)
    → ((is_wanted q.source_type (codes "quarantine") ≡ true)
        × (is_quarantined q r.batch_id r.content ≡ true))
      ↔ Asked q (row_of (codes "quarantine") quarantine_columns r)
unfolding quarantine_columns
quarantined-Asked q r =
    let unfiltered = record q { source_id = none } in
    let filters = filters-IsAsked unfiltered r.batch_id r.content.id r.content.parse_status in
    let given = given-IsAskedId q.source_id in
    let wanted = is_wanted-IsAsked q.source_type (codes "quarantine") in
    (
      (λ h.
          let (k, g) = &&-eq_true _ (not (is_given q.source_id)) h.1 in
          let (batch, _, status) = filters.0 k in
          (wanted.0 h.0, batch, given.0 (not_true (is_given q.source_id) g), status)),
      (λ a. (wanted.1 a.0, rw (filters.1 (a.1, tt, a.3), given.1 a.2) refl)),
    )
  where
    not_true : (b : Bool) → not b ≡ true → b ≡ false
    not_true b h = ground (arith, h)

quarantine_rows-Restricts :
    (q : SourceQuery) (rows : List (InBatch IngestionRecord))
    → Restricts (Asked q) (quarantine_rows q rows) (quarantine_rows everything rows)
unfolding quarantine_rows
quarantine_rows-Restricts q rows row =
    let name = codes "quarantine" in
    (
      (λ m. elim (Bool-cases (is_wanted q.source_type name)) [
        | inl w ↦
            let (r, there, k, e) =
              source_select-Member name (is_quarantined q) quarantine_columns row rows
                (rw w at m) in
            (
              rw e (
                  Member-source_select name (is_quarantined everything) quarantine_columns r rows
                    there ((quarantined-Asked everything r).1 (tt, tt, tt, tt)).1),
              rw e ((quarantined-Asked q r).0 (w, k)),
            )
        | inr f ↦ absurd (rw f at m).1
      ]),
      (λ m.
          let (r, there, k, e) =
            source_select-Member name (is_quarantined everything) quarantine_columns row rows m.0 in
          let (w, wanted) = (quarantined-Asked q r).1 (subst (Asked q) e m.1) in
          rw (w, e)
            (Member-source_select name (is_quarantined q) quarantine_columns r rows there wanted)),
    )

-- Selecting source rows with a query gives exactly the rows of the query without a filter that have
-- the type, the batch, the source id and the status that the query asks for. A quarantined row has no
-- source id, so a query for one never gives it.
pub source_selects-Asked :
    (q : SourceQuery) (t : SourceTables) (ingested : List (InBatch IngestionRecord))
    (row : SourceRow)
    → Member row (source_selects q t ingested)
      ↔ (Member row (source_selects everything t ingested) × Asked q row)
unfolding source_selects ledger_rows order_rows payment_rows refund_rows settlement_rows line_rows
    credit_rows ledger_columns order_columns payment_columns refund_columns settlement_columns
    line_columns credit_columns columns_with
source_selects-Asked q t ingested =
    let P = Asked q in
    Restricts-append P _ _ _ _
      (Restricts-append P _ _ _ _
        (Restricts-append P _ _ _ _
          (Restricts-append P _ _ _ _
            (Restricts-append P _ _ _ _
              (Restricts-append P _ _ _ _
                (Restricts-append P _ _ _ _
                  (selected_rows-Restricts q _ _ _ ledger_columns (λ _. refl) (λ _. refl) t.ledger)
                  (selected_rows-Restricts q _ _ _ order_columns (λ _. refl) (λ _. refl) t.orders))
                (selected_rows-Restricts q _ _ _ payment_columns (λ _. refl) (λ _. refl)
                  t.payments))
              (selected_rows-Restricts q _ _ _ refund_columns (λ _. refl) (λ _. refl) t.refunds))
            (selected_rows-Restricts q _ _ _ settlement_columns (λ _. refl) (λ _. refl)
              t.settlements))
          (selected_rows-Restricts q _ _ _ line_columns (λ _. refl) (λ _. refl) t.lines))
        (selected_rows-Restricts q _ _ _ credit_columns (λ _. refl) (λ _. refl) t.credits))
      (quarantine_rows-Restricts q ingested)
