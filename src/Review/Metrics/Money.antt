-- ===== src/Review/Metrics/Money.antt =====
-- An approval moves its amount from the unresolved to the reconciled money.
use mathlib.Core.Option.{some-injective}
use mathlib.Core.Option
use roborecon.Prelude.{
  ℕ, ◌+◌, ◌-◌, Text, codes, text_eq, false, ◌≡◌, refl, sym, ap, ◌∙◌, Option, none, some,
  >>=-eq_some, arith,
}
use roborecon.Prelude.Int.{pos, negsuc, neg, pos_part, ◌+ℤ◌}
use roborecon.Enums.{approve}
use roborecon.Json.{Json, number, object, Fields, get_field}
use roborecon.Review.Metrics.{
  Numerals, increment, adjust_counters, adjust_review, adjust_fields, adjust_metrics,
  open_exceptions, financially_unresolved_cases, money_reconciled, money_unresolved,
}
use roborecon.Review.Metrics.Counters.{
  increment-Keeps, increment-number, adjust_review-Keeps, adjust_stage-Keeps,
}

added : (r a : ℕ) → pos (pos_part (pos r +ℤ pos a)) ≡ pos (r + a)
unfolding ◌+ℤ◌
added r a = ground arith

subtracted : (u a : ℕ) → pos (pos_part (pos u +ℤ neg (pos a))) ≡ pos (u - a)
unfolding ◌+ℤ◌ neg
subtracted u a = ground arith

map-eq_some :
    (o : Option Fields) (m : Json)
    → Option.map (λ e. object e) o ≡ some m
    → (e : Fields) × (o ≡ some e) × (m ≡ object e)
map-eq_some none m h = cc
map-eq_some (some e) m h = (e, refl, sym (some-injective _ _ h))

module _ (numerals : Numerals) where
  adjust_counters-money :
      (r u a : ℕ) (d e : Fields)
      → get_field money_reconciled d ≡ some (number (pos r))
      → get_field money_unresolved d ≡ some (number (pos u))
      → adjust_counters numerals approve (pos a) d ≡ some e
      → (get_field money_reconciled e ≡ some (number (pos (r + a))))
        × (get_field money_unresolved e ≡ some (number (pos (u - a))))
  unfolding adjust_counters text_eq
  adjust_counters-money r u a d e hr hu h =
      let (opened, h1, k1) =
        >>=-eq_some (increment numerals open_exceptions (codes "openExceptions") (negsuc 0) d) _
          h in
      let (cases, h2, k2) =
        >>=-eq_some
          (increment numerals financially_unresolved_cases (codes "financiallyUnresolvedCases")
            (negsuc 0) opened)
          _ k1 in
      let (moved, h3, h4) =
        >>=-eq_some (increment numerals money_reconciled (codes "moneyReconciled") (pos a) cases) _
          k2 in
      let kept =
        λ (j : Text) (p : text_eq j open_exceptions ≡ false)
            (q : text_eq j (codes "openExceptions") ≡ false)
            (s : text_eq j financially_unresolved_cases ≡ false)
            (t : text_eq j (codes "financiallyUnresolvedCases") ≡ false).
          increment-Keeps numerals j financially_unresolved_cases
            (codes "financiallyUnresolvedCases") (negsuc 0) s t opened cases h2
          ∙ increment-Keeps numerals j open_exceptions (codes "openExceptions") (negsuc 0) p q d
              opened h1 in
      let reconciled =
        increment-number numerals money_reconciled (codes "moneyReconciled") (pos a) (pos r) cases
          moved refl (kept money_reconciled refl refl refl refl ∙ hr) h3 in
      let unresolved =
        increment-number numerals money_unresolved (codes "moneyUnresolved") (neg (pos a)) (pos u)
          moved e refl
          (increment-Keeps numerals money_unresolved money_reconciled (codes "moneyReconciled")
              (pos a) refl refl cases moved h3
            ∙ kept money_unresolved refl refl refl refl
            ∙ hu)
          h4 in
      (
        increment-Keeps numerals money_reconciled money_unresolved (codes "moneyUnresolved")
              (neg (pos a)) refl refl moved e h4
            ∙ reconciled
            ∙ ap (λ n. some (number n)) (added r a),
        unresolved ∙ ap (λ n. some (number n)) (subtracted u a),
      )

  -- If the metrics of a run hold the reconciled and the unresolved money as numbers, under their names
  -- in snake case, and the approved amount is not negative, then adjusting the metrics, when it
  -- returns, adds the amount to the reconciled money and takes it from the unresolved money, of which
  -- 0 is left if the amount is greater.
  pub adjust_metrics-moves_money :
      (r u a : ℕ) (stage : Option Text) (d : Fields) (m : Json)
      → get_field money_reconciled d ≡ some (number (pos r))
      → get_field money_unresolved d ≡ some (number (pos u))
      → adjust_metrics numerals approve (some (pos a)) stage (object d) ≡ some m
      → (e : Fields) × (m ≡ object e)
        × (get_field money_reconciled e ≡ some (number (pos (r + a))))
        × (get_field money_unresolved e ≡ some (number (pos (u - a))))
  unfolding adjust_metrics adjust_fields text_eq
  adjust_metrics-moves_money r u a stage d m hr hu h =
      let (e, adjusted, same) = map-eq_some (adjust_fields numerals approve (pos a) stage d) m h in
      let (counted, h1, k1) = >>=-eq_some (adjust_counters numerals approve (pos a) d) _ adjusted in
      let (reviewed, h2, h3) = >>=-eq_some (adjust_review numerals approve (pos a) counted) _ k1 in
      let money = adjust_counters-money r u a d counted hr hu h1 in
      (
        e,
        same,
        adjust_stage-Keeps numerals money_reconciled approve stage refl refl reviewed e h3
            ∙ adjust_review-Keeps numerals money_reconciled approve (pos a) refl counted reviewed h2
            ∙ money.0,
        adjust_stage-Keeps numerals money_unresolved approve stage refl refl reviewed e h3
            ∙ adjust_review-Keeps numerals money_unresolved approve (pos a) refl counted reviewed h2
            ∙ money.1,
      )
