-- ===== src/Review/Decision/Candidate.antt =====
-- The source of an approved candidate, and the result of an exception.
use mathlib.Core.Option.{some-injective}
use mathlib.Core.Path.{subst}
use roborecon.Prelude.{
  ℕ, ◌==◌, Text, codes, true, ◌&&◌, &&-eq_true, ◌≡◌, refl, sym, ap, inl, inr, Option, none, some,
  List, [], ◌∷◌, filter, Member, Member-filter, Option-cases, ==→≡,
}
use roborecon.Prelude.Result.{ok, >>=-eq_ok, guard-eq_ok, require-eq_ok}
use roborecon.Prelude.Table.{find, find-eq_some}
use roborecon.Enums.{approve}
use roborecon.Json.{Json}
use roborecon.Rows.{ReconciliationResult, ReconciliationException}
use roborecon.Review.{
  invalid_review_candidate, SourceRow, ReviewTables, Strings, get_either, is_type, source_models,
  find_in, find_source, own_result, is_candidate, candidate_row, approved_source, candidate_source,
}
use roborecon.Prelude.Result.{ok-injective}

-- A source that `_find_source` returns is a row of its table with this id and batch.
find_in-eq_some :
    (sources : Text → List SourceRow) (batch_id source_id : ℕ) (names : List Text)
    (s : Text × SourceRow)
    → find_in sources batch_id source_id names ≡ some s
    → Member s.0 names × Member s.1 (sources s.0) × (s.1.id ≡ source_id) × (s.1.batch_id ≡ batch_id)
unfolding find_in
find_in-eq_some sources batch_id source_id [] s h = cc
find_in-eq_some sources batch_id source_id (name ∷ names) s h =
    elim (Option-cases
      (find (λ r. (r.id == source_id) && (r.batch_id == batch_id)) (sources name))) [
        | inl missing ↦
            let m =
              find_in-eq_some sources batch_id source_id names s (rw (find_in, missing) at h) in
            (inr m.0, m.1, m.2, m.3)
        | inr (row, found) ↦
            let m =
              find-eq_some (λ r. (r.id == source_id) && (r.batch_id == batch_id)) (sources name) row
                found in
            let (same_id, same_batch) = &&-eq_true _ _ m.1 in
            subst
              (λ t.
                Member t.0 (name ∷ names)
                × Member t.1 (sources t.0)
                × (t.1.id ≡ source_id)
                × (t.1.batch_id ≡ batch_id))
              (some-injective _ _ (rw (find_in, found) at h))
              (inl refl, m.0, ==→≡ row.id source_id same_id, ==→≡ row.batch_id batch_id same_batch)
      ]

-- the result of an exception that has one
pub own_result-eq_some :
    (db : ReviewTables) (e : ReconciliationException) (id : Option ℕ)
    (result : ReconciliationResult Json)
    → own_result db e id ≡ ok (some result)
    → (id ≡ some result.id)
      × Member result db.results
      × (result.batch_id ≡ e.batch_id)
      × (result.run_id ≡ e.run_id)
unfolding own_result
own_result-eq_some db e none result h = cc
own_result-eq_some db e (some id) result h =
    let (x, found, k) =
      require-eq_ok (find (λ r. r.id == id) db.results) invalid_review_candidate _ h in
    let (own, last) =
      guard-eq_ok ((x.batch_id == e.batch_id) && (x.run_id == e.run_id)) invalid_review_candidate _
        k in
    let m = find-eq_some (λ r. r.id == id) db.results x found in
    let (same_batch, same_run) = &&-eq_true _ _ own in
    subst
      (λ y.
        (some id ≡ some y.id)
        × Member y db.results
        × (y.batch_id ≡ e.batch_id)
        × (y.run_id ≡ e.run_id))
      (some-injective _ _ (ok-injective last))
      (
        ap some (sym (==→≡ x.id id m.1)),
        m.0,
        ==→≡ x.batch_id e.batch_id same_batch,
        ==→≡ x.run_id e.run_id same_run,
      )

module _ (strings : Strings) where
  -- What an approved source is.
  abbrev pub IsCandidateOf :
      ReviewTables
      → ReconciliationException
      → Option (ReconciliationResult Json)
      → Option ℕ
      → Text × SourceRow
      → Type 0
  IsCandidateOf db e result id s =
      (x : ReconciliationResult Json) × (candidate_id : ℕ) × (candidate : Json) × (result ≡ some x)
      × (id ≡ some candidate_id)
      × Member candidate x.candidates
      × (is_candidate strings candidate_id candidate ≡ true)
      × Member s.0 source_models
      × Member s.1 (db.sources s.0)
      × (s.1.id ≡ candidate_id)
      × (s.1.batch_id ≡ e.batch_id)

  approved_source-IsCandidateOf :
      (db : ReviewTables) (e : ReconciliationException)
      (result : Option (ReconciliationResult Json)) (id : Option ℕ) (s : Text × SourceRow)
      → approved_source strings db e result id ≡ ok s
      → IsCandidateOf db e result id s
  unfolding approved_source find_source candidate_row
  approved_source-IsCandidateOf db e none id s h = cc
  approved_source-IsCandidateOf db e (some x) none s h = cc
  approved_source-IsCandidateOf db e (some x) (some id) s h =
      let (candidate, found, k) =
        require-eq_ok (candidate_row strings x id) invalid_review_candidate _ h in
      let source_type = get_either (codes "source_type") (codes "sourceType") candidate in
      let (source, stored, k2) =
        require-eq_ok (find_source db.sources e.batch_id id source_type) invalid_review_candidate _
          k in
      let (same_batch, last) =
        guard-eq_ok (source.1.batch_id == e.batch_id) invalid_review_candidate _ k2 in
      let m = find-eq_some (is_candidate strings id) x.candidates candidate found in
      let n =
        find_in-eq_some db.sources e.batch_id id (filter (is_type source_type) source_models) source
          stored in
      subst (λ t. IsCandidateOf db e (some x) (some id) t) (ok-injective last)
        (
          x,
          id,
          candidate,
          refl,
          refl,
          m.0,
          m.1,
          (Member-filter (is_type source_type) source.0 source_models n.0).0,
          n.1,
          n.2,
          n.3,
        )

  pub candidate_source-approve :
      (db : ReviewTables) (e : ReconciliationException)
      (result : Option (ReconciliationResult Json)) (id : Option ℕ) (o : Option (Text × SourceRow))
      → candidate_source strings approve db e result id ≡ ok o
      → (s : Text × SourceRow) × (o ≡ some s) × IsCandidateOf db e result id s
  unfolding candidate_source
  candidate_source-approve db e result id o h =
      let (s, k, last) = >>=-eq_ok (approved_source strings db e result id) _ h in
      (s, sym (ok-injective last), approved_source-IsCandidateOf db e result id s k)
