-- ===== src/Review/Decision/Effects.antt =====
-- What a successful review writes.
use mathlib.Core.Option.{some-injective}
use mathlib.Core.Path.{subst}
use roborecon.Prelude.{Text, ◌≡◌, sym, ap, ◌∙◌, inl, inr, Option, some, [], ◌∷◌, ◌++◌, Member}
use roborecon.Prelude.Result.{ok}
use roborecon.Json.{Json}
use roborecon.Rows.{ReconciliationResult, ReconciliationException}
use roborecon.Audit.{AuditEvent, append_event, new_event}
use roborecon.Audit.Sequence.{Rising, append_event-Rising, append_event-new_event}
use roborecon.Review.{SourceRow, ReviewTables, ReviewRequest, ReviewDecision, Strings}
use roborecon.Review.Metrics.{Numerals}
use roborecon.Review.Decision.{approved_link, review_rows, review_event, review_exception}
use roborecon.Review.Decision.Parts.{
  review_exception-Steps, Steps-SameRows, review_run-SameRows, review_audit-SameRows,
  open_exception-eq_ok,
}
use roborecon.Review.Decision.Candidate.{IsCandidateOf}

-- What an approval did.
abbrev pub Approved : Strings → ReviewRequest → ReviewTables → ReviewTables → Type 0
Approved strings r db after =
    (e : ReconciliationException) × (result : ReconciliationResult Json) × (s : Text × SourceRow)
    × Member e db.exceptions
    × (e.id ≡ r.exception_id)
    × (e.result_id ≡ some result.id)
    × Member result db.results
    × (result.batch_id ≡ e.batch_id)
    × (result.run_id ≡ e.run_id)
    × IsCandidateOf strings db e (some result) r.candidate_id s
    × (after.links ≡ db.links ++ approved_link r e result.id s ∷ [])

-- What a review left in the audit trail.
abbrev pub Audited : ReviewRequest → ReviewTables → ReviewTables → Type 0
Audited r db after =
    (e : ReconciliationException) × (event : AuditEvent Json) × Member e db.exceptions
    × (e.id ≡ r.exception_id)
    × (event.batch_id ≡ some e.batch_id)
    × (event.entity_id ≡ some e.id)
    × (event.actor ≡ r.actor)
    × (after.audit.events ≡ db.audit.events ++ event ∷ [])
    × Rising after.audit.events
    × (after.sources ≡ db.sources)

module _ (numerals : Numerals) (strings : Strings) where
  -- If the sequence numbers of the audit trail rise, then a successful review appends one event, which
  -- has the exception's batch and id and the reviewer as its actor, and the sequence numbers still
  -- rise. No source record is changed.
  pub review_exception-Audited :
      (r : ReviewRequest) (db after : ReviewTables) (d : ReviewDecision)
      → Rising db.audit.events
      → review_exception numerals strings r db ≡ ok (d, after)
      → Audited r db after
  unfolding review_rows review_event new_event
  review_exception-Audited r db after d rising h =
      let steps = review_exception-Steps numerals strings r db d after h in
      let e = steps.0 in
      let source = steps.2 in
      let opened = open_exception-eq_ok numerals strings r db e steps.4 in
      let request = review_event r e source in
      let kept =
        (review_run-SameRows numerals strings r e steps.1 (review_rows r e steps.1 source db)
          steps.3 steps.7).1 in
      let logged = (review_audit-SameRows numerals strings r e source steps.3 after steps.8).1 in
      let appended =
        subst (λ a. append_event request r.logged_at a ≡ some logged.0) kept logged.1 in
      elim (append_event-Rising request r.logged_at db.audit rising) [
        | inl missing ↦ cc
        | inr (event, tables, exists, same, events, rises) ↦
            let pair = some-injective _ _ (sym same ∙ appended) in
            let trail = logged.2 ∙ sym (ap (λ p. p.1) pair) in
            let made = append_event-new_event request r.logged_at db.audit tables event same in
            (
              e,
              event,
              opened.3,
              opened.2,
              ap (λ x. x.batch_id) made,
              ap (λ x. x.entity_id) made,
              ap (λ x. x.actor) made,
              ap (λ x. x.events) trail ∙ events,
              subst (λ x. Rising x.events) (sym trail) rises,
              (Steps-SameRows numerals strings r db d after steps).3,
            )
      ]
