-- ===== src/Review/Decision/Errors.antt =====
-- The errors of a review.
use roborecon.Prelude.{
  ℕ, ◌==◌, Text, codes, Bool-cases, Option-cases, true, false, ◌≡◌, ◌≢◌, ◌&&◌, refl, ◌⊎◌, inl, inr,
  Option, none, some,
}
use roborecon.Prelude.Result.{
  ok, err, guard, require, Raises, Raises->>=, Raises-require, Raises-guard, Raises-eq_err,
}
use roborecon.Prelude.Table.{find}
use roborecon.Enums.{ReviewAction, approve, reject}
use roborecon.Rows.{ReconciliationException, ReconciliationResult, ReconciliationRun}
use roborecon.Review.{
  ReviewError, review_not_found, review_conflict, invalid_review_candidate, batch_not_found,
  metrics_error, own_result, exception_result, approved_source, candidate_source, candidate_row,
  find_source, get_either, SourceRow, ReviewTables, ReviewRequest, Strings, is_open,
}
use roborecon.Review.Metrics.{Numerals, adjust_metrics}
use roborecon.Audit.{append_event}
use roborecon.Json.{Json}
use roborecon.Review.Decision.{
  review_rows, open_exception, review_exception, adjust_run, review_run, review_audit, review_event,
  stage_of,
}
use roborecon.Review.Decision.Conflict.{open_exception-closed}

-- An error that is not of the first two checks.
abbrev Late : ReviewError → Type 0
Late e = (e ≢ review_not_found) × (e ≢ review_conflict)

invalid_review_candidate-Late : Late invalid_review_candidate
invalid_review_candidate-Late = (λ h. cc, λ h. cc)

batch_not_found-Late : Late batch_not_found
batch_not_found-Late = (λ h. cc, λ h. cc)

metrics_error-Late : Late metrics_error
metrics_error-Late = (λ h. cc, λ h. cc)

own_result-Late :
    (db : ReviewTables) (e : ReconciliationException) (id : Option ℕ)
    → Raises Late (own_result db e id)
unfolding own_result
own_result-Late db e none = tt
own_result-Late db e (some result_id) =
    Raises->>= Late (require (find (λ r. r.id == result_id) db.results) invalid_review_candidate) _
      (Raises-require Late (find (λ r. r.id == result_id) db.results) invalid_review_candidate
        invalid_review_candidate-Late)
      (λ result.
        Raises->>= Late
          (guard ((result.batch_id == e.batch_id) && (result.run_id == e.run_id))
            invalid_review_candidate)
          _
          (Raises-guard Late ((result.batch_id == e.batch_id) && (result.run_id == e.run_id))
            invalid_review_candidate invalid_review_candidate-Late)
          (λ u. tt))

approved_source-Late :
    (strings : Strings) (db : ReviewTables) (e : ReconciliationException)
    (result : Option (ReconciliationResult Json)) (candidate_id : Option ℕ)
    → Raises Late (approved_source strings db e result candidate_id)
unfolding approved_source
approved_source-Late strings db e none id = invalid_review_candidate-Late
approved_source-Late strings db e (some result) none = invalid_review_candidate-Late
approved_source-Late strings db e (some result) (some id) =
    Raises->>= Late (require (candidate_row strings result id) invalid_review_candidate) _
      (Raises-require Late (candidate_row strings result id) invalid_review_candidate
        invalid_review_candidate-Late)
      (λ candidate.
        let source =
          find_source db.sources e.batch_id id
            (get_either (codes "source_type") (codes "sourceType") candidate) in
        Raises->>= Late (require source invalid_review_candidate) _
          (Raises-require Late source invalid_review_candidate invalid_review_candidate-Late)
          (λ s.
            Raises->>= Late (guard (s.1.batch_id == e.batch_id) invalid_review_candidate) _
              (Raises-guard Late (s.1.batch_id == e.batch_id) invalid_review_candidate
                invalid_review_candidate-Late)
              (λ u. tt)))

candidate_source-Late :
    (strings : Strings) (action : ReviewAction) (db : ReviewTables) (e : ReconciliationException)
    (result : Option (ReconciliationResult Json)) (candidate_id : Option ℕ)
    → Raises Late (candidate_source strings action db e result candidate_id)
unfolding candidate_source
candidate_source-Late strings reject db e result id = tt
candidate_source-Late strings approve db e result id =
    Raises->>= Late (approved_source strings db e result id) _
      (approved_source-Late strings db e result id) (λ s. tt)

adjust_run-Late :
    (numerals : Numerals) (r : ReviewRequest) (e : ReconciliationException)
    (result : Option (ReconciliationResult Json)) (run : Option ReconciliationRun)
    (db : ReviewTables)
    → Raises Late (adjust_run numerals r e result run db)
unfolding adjust_run
adjust_run-Late numerals r e result none db = tt
adjust_run-Late numerals r e result (some run) db =
    let m = adjust_metrics numerals r.action e.amount (stage_of result) run.metrics in
    Raises->>= Late (require m metrics_error) _
      (Raises-require Late m metrics_error metrics_error-Late) (λ u. tt)

review_audit-Late :
    (r : ReviewRequest) (e : ReconciliationException) (source : Option (Text × SourceRow))
    (db : ReviewTables)
    → Raises Late (review_audit r e source db)
unfolding review_audit
review_audit-Late r e source db =
    let logged = append_event (review_event r e source) r.logged_at db.audit in
    Raises->>= Late (require logged batch_not_found) _
      (Raises-require Late logged batch_not_found batch_not_found-Late) (λ u. tt)

-- the error of an id that no row has
open_exception-missing :
    (r : ReviewRequest) (db : ReviewTables)
    → find (λ x. x.id == r.exception_id) db.exceptions ≡ none
    → open_exception r db ≡ err review_not_found
unfolding open_exception
open_exception-missing r db h = rw h refl

open_exception-open :
    (r : ReviewRequest) (db : ReviewTables) (e : ReconciliationException)
    → find (λ x. x.id == r.exception_id) db.exceptions ≡ some e
    → is_open e.status ≡ true
    → open_exception r db ≡ ok e
unfolding open_exception
open_exception-open r db e h k = rw (h, k) refl

-- The errors of the first two checks, and when they are raised.
abbrev pub Classified : Numerals → Strings → ReviewRequest → ReviewTables → Type 0
Classified numerals strings r db =
    ((find (λ x. x.id == r.exception_id) db.exceptions ≡ none)
      × (review_exception numerals strings r db ≡ err review_not_found))
    ⊎ ((e : ReconciliationException) × (find (λ x. x.id == r.exception_id) db.exceptions ≡ some e)
        × (is_open e.status ≡ false)
        × (review_exception numerals strings r db ≡ err review_conflict))
    ⊎ ((e : ReconciliationException) × (find (λ x. x.id == r.exception_id) db.exceptions ≡ some e)
        × (is_open e.status ≡ true)
        × (review_exception numerals strings r db ≢ err review_not_found)
        × (review_exception numerals strings r db ≢ err review_conflict))

module _ (numerals : Numerals) (strings : Strings) where
  review_exception-Late :
      (r : ReviewRequest) (db : ReviewTables) (e : ReconciliationException)
      → find (λ x. x.id == r.exception_id) db.exceptions ≡ some e
      → is_open e.status ≡ true
      → Raises Late (review_exception numerals strings r db)
  unfolding review_exception review_run exception_result
  review_exception-Late r db e found opened =
      Raises->>= Late (open_exception r db) _ (rw (open_exception-open r db e found opened) tt)
        (λ x.
          Raises->>= Late (exception_result db x) _ (own_result-Late db x x.result_id) (λ result.
            Raises->>= Late (candidate_source strings r.action db x result r.candidate_id) _
              (candidate_source-Late strings r.action db x result r.candidate_id)
              (λ source.
                let rows = review_rows r x result source db in
                Raises->>= Late (review_run numerals r x result rows) _
                  (adjust_run-Late numerals r x result (find (λ y. y.id == x.run_id) rows.runs)
                    rows)
                  (λ adjusted.
                    Raises->>= Late (review_audit r x source adjusted) _
                      (review_audit-Late r x source adjusted) (λ logged. tt)))))

  -- A review fails because the exception is not found, exactly if no row has its id; and with a
  -- conflict, exactly if the row with its id is not open.
  pub review_exception-errors :
      (r : ReviewRequest) (db : ReviewTables) → Classified numerals strings r db
  unfolding review_exception
  review_exception-errors r db =
      elim (Option-cases (find (λ x. x.id == r.exception_id) db.exceptions)) [
        | inl missing ↦ inl (missing, rw (open_exception-missing r db missing) refl)
        | inr (e, found) ↦ elim (Bool-cases (is_open e.status)) [
          | inl opened ↦
              let late = Raises-eq_err Late (review_exception numerals strings r db) in
              inr (
                inr (
                  e,
                  found,
                  opened,
                  (λ h.
                      (late review_not_found (review_exception-Late r db e found opened) h).0 refl),
                  (λ h.
                      (late review_conflict (review_exception-Late r db e found opened) h).1 refl),
                ))
          | inr closed ↦
              inr (inl (e, found, closed, rw (open_exception-closed r db e found closed) refl))
        ]
      ]
