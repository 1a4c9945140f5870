-- ===== src/Review/Decision/Parts.antt =====
-- The steps that a successful review took, and what its last two steps leave alone.
use mathlib.Core.Path.{subst}
use roborecon.Prelude.{◌==◌, Text, true, ◌≡◌, refl, sym, ap, ◌∙◌, Option, none, some, ==→≡, Member}
use roborecon.Prelude.Result.{ok, >>=-eq_ok, guard-eq_ok, require-eq_ok, ok-injective}
use roborecon.Prelude.Table.{find, find-eq_some}
use roborecon.Json.{Json}
use roborecon.Rows.{ReconciliationRun, ReconciliationResult, ReconciliationException}
use roborecon.Audit.{AuditEvent, AuditTables, append_event}
use roborecon.Review.{
  review_not_found, review_conflict, batch_not_found, metrics_error, SourceRow, ReviewTables,
  ReviewRequest, ReviewDecision, Strings, is_open, exception_result, candidate_source,
}
use roborecon.Review.Metrics.{Numerals, adjust_metrics}
use roborecon.Review.Decision.{
  review_rows, adjust_run, review_run, review_event, review_audit, decision_of, new_links,
  open_exception, review_exception, stage_of,
}

module _ (numerals : Numerals) (strings : Strings) where
  abbrev pub Steps : ReviewRequest → ReviewTables → ReviewDecision → ReviewTables → Type 0
  Steps r db d after =
      (e : ReconciliationException) × (result : Option (ReconciliationResult Json))
      × (source : Option (Text × SourceRow)) × (adjusted : ReviewTables) × (open_exception r db
          ≡ ok e)
      × (exception_result db e ≡ ok result)
      × (candidate_source strings r.action db e result r.candidate_id ≡ ok source)
      × (review_run numerals r e result (review_rows r e result source db) ≡ ok adjusted)
      × (review_audit r e source adjusted ≡ ok after)
      × (d ≡ decision_of r e (new_links r e source))

  pub review_exception-Steps :
      (r : ReviewRequest) (db : ReviewTables) (d : ReviewDecision) (after : ReviewTables)
      → review_exception numerals strings r db ≡ ok (d, after)
      → Steps r db d after
  unfolding review_exception
  review_exception-Steps r db d after h =
      let (e, h1, k1) = >>=-eq_ok (open_exception r db) _ h in
      let (result, h2, k2) = >>=-eq_ok (exception_result db e) _ k1 in
      let (source, h3, k3) =
        >>=-eq_ok (candidate_source strings r.action db e result r.candidate_id) _ k2 in
      let (adjusted, h4, k4) =
        >>=-eq_ok (review_run numerals r e result (review_rows r e result source db)) _ k3 in
      let (logged, h5, k5) = >>=-eq_ok (review_audit r e source adjusted) _ k4 in
      let same = ok-injective k5 in
      (
        e,
        result,
        source,
        adjusted,
        h1,
        h2,
        h3,
        h4,
        h5 ∙ ap ok (ap (λ p. p.1) same),
        sym (ap (λ p. p.0) same),
      )

  -- the tables that the last steps leave alone
  abbrev pub SameRows : ReviewTables → ReviewTables → Type 0
  SameRows db after =
      (after.exceptions ≡ db.exceptions)
      × (after.results ≡ db.results)
      × (after.links ≡ db.links)
      × (after.sources ≡ db.sources)

  adjust_run-SameRows :
      (r : ReviewRequest) (e : ReconciliationException)
      (result : Option (ReconciliationResult Json)) (run : Option ReconciliationRun)
      (db after : ReviewTables)
      → adjust_run numerals r e result run db ≡ ok after
      → SameRows db after × (after.audit ≡ db.audit)
  unfolding adjust_run
  adjust_run-SameRows r e result none db after h =
      subst (λ x. SameRows db x × (x.audit ≡ db.audit)) (ok-injective h)
        ((refl, refl, refl, refl), refl)
  adjust_run-SameRows r e result (some run) db after h =
      let (m, adjusted, last) =
        require-eq_ok (adjust_metrics numerals r.action e.amount (stage_of result) run.metrics)
          metrics_error _ h in
      subst (λ x. SameRows db x × (x.audit ≡ db.audit)) (ok-injective last)
        ((refl, refl, refl, refl), refl)

  pub review_run-SameRows :
      (r : ReviewRequest) (e : ReconciliationException)
      (result : Option (ReconciliationResult Json)) (db after : ReviewTables)
      → review_run numerals r e result db ≡ ok after
      → SameRows db after × (after.audit ≡ db.audit)
  unfolding review_run
  review_run-SameRows r e result db after h =
      adjust_run-SameRows r e result (find (λ x. x.id == e.run_id) db.runs) db after h

  pub review_audit-SameRows :
      (r : ReviewRequest) (e : ReconciliationException) (source : Option (Text × SourceRow))
      (db after : ReviewTables)
      → review_audit r e source db ≡ ok after
      → SameRows db after
        × ((logged : AuditEvent Json × AuditTables Json) × (append_event
                (review_event r e source)
                r.logged_at
                db.audit
              ≡ some logged)
            × (after.audit ≡ logged.1))
  unfolding review_audit
  review_audit-SameRows r e source db after h =
      let (logged, k, last) =
        require-eq_ok (append_event (review_event r e source) r.logged_at db.audit) batch_not_found
          _ h in
      subst
        (λ x.
          SameRows db x
          × ((l : AuditEvent Json × AuditTables Json) × (append_event (review_event r e source)
                  r.logged_at db.audit
                ≡ some l)
              × (x.audit ≡ l.1)))
        (ok-injective last) ((refl, refl, refl, refl), (logged, k, refl))

  -- What a successful review leaves of the tables of the first step.
  pub Steps-SameRows :
      (r : ReviewRequest) (db : ReviewTables) (d : ReviewDecision) (after : ReviewTables)
      (s : Steps r db d after)
      → SameRows (review_rows r s.0 s.1 s.2 db) after
  Steps-SameRows r db d after (e, result, source, adjusted, h1, h2, h3, h4, h5, h6) =
      let first =
        (review_run-SameRows r e result (review_rows r e result source db) adjusted h4).0 in
      let second = (review_audit-SameRows r e source adjusted after h5).0 in
      (second.0 ∙ first.0, second.1 ∙ first.1, second.2 ∙ first.2, second.3 ∙ first.3)

  -- the exception that was reviewed
  pub open_exception-eq_ok :
      (r : ReviewRequest) (db : ReviewTables) (e : ReconciliationException)
      → open_exception r db ≡ ok e
      → (find (λ x. x.id == r.exception_id) db.exceptions ≡ some e)
        × (is_open e.status ≡ true)
        × (e.id ≡ r.exception_id)
        × Member e db.exceptions
  unfolding open_exception
  open_exception-eq_ok r db e h =
      let (x, found, k) =
        require-eq_ok (find (λ x. x.id == r.exception_id) db.exceptions) review_not_found _ h in
      let (opened, last) = guard-eq_ok (is_open x.status) review_conflict _ k in
      let m = find-eq_some (λ x. x.id == r.exception_id) db.exceptions x found in
      subst
        (λ y.
          (find (λ x. x.id == r.exception_id) db.exceptions ≡ some y)
          × (is_open y.status ≡ true)
          × (y.id ≡ r.exception_id)
          × Member y db.exceptions)
        (ok-injective last) (found, opened, ==→≡ x.id r.exception_id m.1, m.0)
