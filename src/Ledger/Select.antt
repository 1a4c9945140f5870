-- ===== src/Ledger/Select.antt =====
-- `_source_select` keeps the rows of the records that its filter keeps.
use roborecon.Prelude.{
  ℕ, Text, Bool, true, ◌≡◌, refl, sym, ap, ◌∙◌, ◌↔◌, inl, inr, List, [], ◌∷◌, ◌++◌, Member,
  Member-append, append-Member, Bool-cases,
}
use roborecon.Service.{InBatch}
use roborecon.Ledger.{SourceColumns, SourceRow, source_select}

-- the row of a record
abbrev pub row_of : {A : Type 0} → Text → (A → SourceColumns) → InBatch A → SourceRow
row_of name columns_of r = record {
  source_type = name;
  batch_id = r.batch_id;
  columns = columns_of r.content;
}

-- A list holds the rows of another that a predicate allows.
abbrev pub Restricts : (SourceRow → Type 0) → List SourceRow → List SourceRow → Type 0
Restricts P some_rows all_rows =
    (row : SourceRow) → Member row some_rows ↔ (Member row all_rows × P row)

pub Restricts-append :
    (P : SourceRow → Type 0) (us vs xs ys : List SourceRow)
    → Restricts P us xs
    → Restricts P vs ys
    → Restricts P (us ++ vs) (xs ++ ys)
Restricts-append P us vs xs ys h k row = (
  (λ m. elim (Member-append row us vs m) [
    | inl n ↦ let (there, p) = (h row).0 n in (append-Member row xs ys (inl there), p)
    | inr n ↦ let (there, p) = (k row).0 n in (append-Member row xs ys (inr there), p)
  ]),
  (λ m. elim (Member-append row xs ys m.0) [
    | inl n ↦ append-Member row us vs (inl ((h row).1 (n, m.1)))
    | inr n ↦ append-Member row us vs (inr ((k row).1 (n, m.1)))
  ]),
)

module _ {A : Type 0} (name : Text) (kept : ℕ → A → Bool) (columns_of : A → SourceColumns) where
  -- A selected row is the row of a record that is kept.
  pub source_select-Member :
      (row : SourceRow) (rows : List (InBatch A))
      → Member row (source_select name kept columns_of rows)
      → (r : InBatch A) × Member r rows
        × (kept r.batch_id r.content ≡ true)
        × (row ≡ row_of name columns_of r)
  unfolding source_select
  source_select-Member row [] m = absurd m.1
  source_select-Member row (r ∷ rs) m = elim (Bool-cases (kept r.batch_id r.content)) [
    | inl t ↦ elim (rw t at m) [
      | inl e ↦ (r, inl refl, t, e)
      | inr n ↦ let (s, there, k, e) = source_select-Member row rs n in (s, inr there, k, e)
    ]
    | inr f ↦ let (s, there, k, e) = source_select-Member row rs (rw f at m) in (s, inr there, k, e)
  ]

  pub Member-source_select :
      (r : InBatch A) (rows : List (InBatch A))
      → Member r rows
      → kept r.batch_id r.content ≡ true
      → Member (row_of name columns_of r) (source_select name kept columns_of rows)
  unfolding source_select
  Member-source_select r [] m k = absurd m.1
  Member-source_select r (s ∷ ss) (inl e) k =
      rw (ap (λ x. kept x.batch_id x.content) (sym e) ∙ k) (inl (ap (row_of name columns_of) e))
  Member-source_select r (s ∷ ss) (inr m) k = elim (Bool-cases (kept s.batch_id s.content)) [
    | inl t ↦ rw t (inr (Member-source_select r ss m k))
    | inr f ↦ rw f (Member-source_select r ss m k)
  ]
