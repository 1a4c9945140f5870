-- ===== src/Review/Decision/Conflict.antt =====
-- A reviewed exception is closed.
use mathlib.Core.Path.{subst}
use roborecon.Prelude.{◌==◌, false, ◌≡◌, refl, sym, ap, ◌∙◌, some, List}
use roborecon.Prelude.Result.{ok, err}
use roborecon.Prelude.Table.{find, update, find-update}
use roborecon.Enums.{ReviewAction, approve, reject}
use roborecon.Rows.{ReconciliationException}
use roborecon.Review.{
  review_conflict, ReviewTables, ReviewRequest, ReviewDecision, Strings, is_open,
}
use roborecon.Review.Metrics.{Numerals}
use roborecon.Review.Decision.{
  close_exception, status_of, review_rows, open_exception, review_exception,
}
use roborecon.Review.Decision.Parts.{review_exception-Steps, Steps-SameRows, open_exception-eq_ok}

status_of-closed : (action : ReviewAction) → is_open (status_of action) ≡ false
unfolding is_open status_of
status_of-closed approve = refl
status_of-closed reject = refl

-- the error of a closed exception
pub open_exception-closed :
    (r : ReviewRequest) (db : ReviewTables) (e : ReconciliationException)
    → find (λ x. x.id == r.exception_id) db.exceptions ≡ some e
    → is_open e.status ≡ false
    → open_exception r db ≡ err review_conflict
unfolding open_exception
open_exception-closed r db e h k = rw (h, k) refl

find-closed :
    (r again : ReviewRequest) (xs : List ReconciliationException) (e : ReconciliationException)
    → again.exception_id ≡ r.exception_id
    → find (λ x. x.id == r.exception_id) xs ≡ some e
    → find
        (λ x. x.id == again.exception_id)
        (update (λ x. x.id == r.exception_id) (close_exception r) xs)
      ≡ some (close_exception r e)
unfolding close_exception
find-closed r again xs e same found =
    subst
      (λ n.
        find (λ x. x.id == n) (update (λ x. x.id == r.exception_id) (close_exception r) xs)
        ≡ some (close_exception r e))
      (sym same)
      (find-update (λ x. x.id == r.exception_id) (close_exception r) (λ x. refl) xs e found)

module _ (numerals : Numerals) (strings : Strings) where
  -- After a successful review of an exception, each further review of the same exception fails with
  -- a conflict.
  pub review_exception-once :
      (r again : ReviewRequest) (db after : ReviewTables) (d : ReviewDecision)
      → again.exception_id ≡ r.exception_id
      → review_exception numerals strings r db ≡ ok (d, after)
      → review_exception numerals strings again after ≡ err review_conflict
  unfolding review_exception review_rows close_exception
  review_exception-once r again db after d same h =
      let s = review_exception-Steps numerals strings r db d after h in
      let e = s.0 in
      let (found, opened, id, m) = open_exception-eq_ok numerals strings r db e s.4 in
      let rows = (Steps-SameRows numerals strings r db d after s).0 in
      let closed =
        subst (λ n. after.exceptions ≡ update (λ x. x.id == n) (close_exception r) db.exceptions) id
          rows in
      let conflict =
        open_exception-closed again after (close_exception r e)
          (ap (find (λ x. x.id == again.exception_id)) closed
            ∙ find-closed r again db.exceptions e same found)
          (status_of-closed r.action) in
      rw conflict refl
