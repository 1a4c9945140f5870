-- ===== src/Ledger/Asked.antt =====
-- What a query of the read model asks of a row, and the filters on the columns of a table.
use mathlib.Core.Option.{some-injective}
use roborecon.Prelude.{
  ℕ, ==→≡, ==_refl, Text, text_eq→≡, text_eq_refl, true, &&-eq_true, ◌≡◌, refl, sym, ap, ◌↔◌,
  Option, none, some,
}
use roborecon.Prelude.Asked.{IsAsked}
use roborecon.Ledger.{
  SourceRow, SourceQuery, is_batch, is_source, is_status, source_filters, is_wanted,
}

-- The row has an id, and it is the one asked for, if one is asked for.
abbrev pub IsAskedId : Option ℕ → Option ℕ → Type 0
IsAskedId none id = Unit
IsAskedId (some wanted) id = id ≡ some wanted

-- What a query asks of a row of the result.
abbrev pub Asked : SourceQuery → SourceRow → Type 0
Asked q row =
    IsAsked q.source_type row.source_type
    × IsAsked q.batch_id row.batch_id
    × IsAskedId q.source_id row.columns.source_id
    × IsAsked q.status row.columns.status

-- the query without a filter
abbrev pub everything : SourceQuery
everything = record { batch_id = none; source_type = none; source_id = none; status = none }

pub is_wanted-IsAsked :
    (wanted : Option Text) (name : Text) → (is_wanted wanted name ≡ true) ↔ IsAsked wanted name
unfolding is_wanted
is_wanted-IsAsked none name = ((λ _. tt), (λ _. refl))
is_wanted-IsAsked (some wanted) name =
    ((λ h. sym (text_eq→≡ wanted name h)), (λ e. rw e (text_eq_refl wanted)))

is_batch-IsAsked : (wanted : Option ℕ) (id : ℕ) → (is_batch wanted id ≡ true) ↔ IsAsked wanted id
unfolding is_batch
is_batch-IsAsked none id = ((λ _. tt), (λ _. refl))
is_batch-IsAsked (some wanted) id = ((λ h. ==→≡ id wanted h), (λ e. rw e (==_refl wanted)))

is_source-IsAskedId :
    (wanted : Option ℕ) (id : ℕ) → (is_source wanted id ≡ true) ↔ IsAskedId wanted (some id)
unfolding is_source
is_source-IsAskedId none id = ((λ _. tt), (λ _. refl))
is_source-IsAskedId (some wanted) id =
    ((λ h. ap some (==→≡ id wanted h)), (λ e. rw (some-injective _ _ e) (==_refl wanted)))

is_status-IsAsked :
    (wanted : Option Text) (status : Text)
    → (is_status wanted status ≡ true) ↔ IsAsked wanted status
unfolding is_status
is_status-IsAsked none status = ((λ _. tt), (λ _. refl))
is_status-IsAsked (some wanted) status =
    ((λ h. text_eq→≡ status wanted h), (λ e. rw e (text_eq_refl wanted)))

pub filters-IsAsked :
    (q : SourceQuery) (batch id : ℕ) (status : Text)
    → (source_filters q.batch_id q.source_id q.status batch id status ≡ true)
      ↔ (IsAsked q.batch_id batch × IsAskedId q.source_id (some id) × IsAsked q.status status)
unfolding source_filters
filters-IsAsked q batch id status =
    let b = is_batch-IsAsked q.batch_id batch in
    let i = is_source-IsAskedId q.source_id id in
    let s = is_status-IsAsked q.status status in
    (
      (λ h.
          let (front, last) = &&-eq_true _ (is_status q.status status) h in
          let (first, second) = &&-eq_true (is_batch q.batch_id batch) _ front in
          (b.0 first, i.0 second, s.0 last)),
      (λ h. rw (b.1 h.0, i.1 h.1, s.1 h.2) refl),
    )
