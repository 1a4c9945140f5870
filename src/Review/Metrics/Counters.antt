-- ===== src/Review/Metrics/Counters.antt =====
-- What the steps of `_adjust_metrics` do to one key of the metrics.
use mathlib.Core.Option.{some-injective}
use mathlib.Core.Path.{subst}
use roborecon.Prelude.{
  Text, codes, text_eq, false, ◌≡◌, sym, ap, ◌∙◌, Option, none, some, ◌>>=◌, >>=-eq_some,
  Option-cases, inl, inr,
}
use roborecon.Prelude.Int.{ℤ, pos, pos_part, ◌+ℤ◌}
use roborecon.Enums.{ReviewAction}
use roborecon.Json.{
  Json, null, boolean, number, decimal, text, array, object, Fields, get_field, int_of,
}
use roborecon.Json.Laws.{get_field-set_field_self, get_field-set_field_other}
use roborecon.Review.Metrics.{
  Numerals, add_to, increment_value, increment_key, increment, bump, review_of, outcome_key,
  approve_review, adjust_review, adjust_stages, adjust_stage_in, adjust_stage,
}

-- A step that leaves a key alone.
abbrev pub Keeps : Text → (Fields → Option Fields) → Type 0
Keeps j f = (d e : Fields) → f d ≡ some e → get_field j e ≡ get_field j d

-- the sequence of two steps
Keeps->>= :
    (j : Text) (f g : Fields → Option Fields) → Keeps j f → Keeps j g → Keeps j (λ d. f d >>= g)
Keeps->>= j f g kf kg d e h =
    let (m, first, second) = >>=-eq_some (f d) g h in kg m e second ∙ kf d m first

module _ (numerals : Numerals) where
  add_to-Keeps :
      (j key : Text) (delta : ℤ) (v : Json)
      → text_eq j key ≡ false
      → Keeps j (add_to numerals key delta v)
  unfolding add_to
  add_to-Keeps j key delta v h d e r =
      let (n, read, last) = >>=-eq_some (int_of numerals.parse_int v) _ r in
      subst (λ x. get_field j x ≡ get_field j d) (some-injective _ _ last)
        (get_field-set_field_other j key (number (pos (pos_part (n +ℤ delta)))) d h)

  increment_value-Keeps :
      (j key : Text) (delta : ℤ) (o : Option Json)
      → text_eq j key ≡ false
      → Keeps j (increment_value numerals key delta o)
  unfolding increment_value
  increment_value-Keeps j key delta none h d e r = ap (get_field j) (sym (some-injective _ _ r))
  increment_value-Keeps j key delta (some null) h d e r =
      ap (get_field j) (sym (some-injective _ _ r))
  increment_value-Keeps j key delta (some (boolean b)) h d e r =
      add_to-Keeps j key delta (boolean b) h d e r
  increment_value-Keeps j key delta (some (number n)) h d e r =
      add_to-Keeps j key delta (number n) h d e r
  increment_value-Keeps j key delta (some (decimal n)) h d e r =
      add_to-Keeps j key delta (decimal n) h d e r
  increment_value-Keeps j key delta (some (text s)) h d e r =
      add_to-Keeps j key delta (text s) h d e r
  increment_value-Keeps j key delta (some (array vs)) h d e r =
      add_to-Keeps j key delta (array vs) h d e r
  increment_value-Keeps j key delta (some (object f)) h d e r =
      add_to-Keeps j key delta (object f) h d e r

  increment_key-Keeps :
      (j key : Text) (delta : ℤ)
      → text_eq j key ≡ false
      → Keeps j (increment_key numerals key delta)
  unfolding increment_key
  increment_key-Keeps j key delta h d = increment_value-Keeps j key delta (get_field key d) h d

  pub increment-Keeps :
      (j snake camel : Text) (delta : ℤ)
      → text_eq j snake ≡ false
      → text_eq j camel ≡ false
      → Keeps j (increment numerals snake camel delta)
  unfolding increment
  increment-Keeps j snake camel delta h k =
      Keeps->>= j (increment_key numerals snake delta) (increment_key numerals camel delta)
        (increment_key-Keeps j snake delta h) (increment_key-Keeps j camel delta k)

  -- A number under the key is changed by `delta`, and cut off at 0.
  increment_key-number :
      (key : Text) (delta n : ℤ) (d e : Fields)
      → get_field key d ≡ some (number n)
      → increment_key numerals key delta d ≡ some e
      → get_field key e ≡ some (number (pos (pos_part (n +ℤ delta))))
  unfolding increment_key increment_value add_to
  increment_key-number key delta n d e v h =
      subst (λ x. get_field key x ≡ some (number (pos (pos_part (n +ℤ delta)))))
        (some-injective _ _ (rw v at h))
        (get_field-set_field_self key (number (pos (pos_part (n +ℤ delta)))) d)

  pub increment-number :
      (snake camel : Text) (delta n : ℤ) (d e : Fields)
      → text_eq snake camel ≡ false
      → get_field snake d ≡ some (number n)
      → increment numerals snake camel delta d ≡ some e
      → get_field snake e ≡ some (number (pos (pos_part (n +ℤ delta))))
  unfolding increment
  increment-number snake camel delta n d e differ v h =
      let (m, first, second) = >>=-eq_some (increment_key numerals snake delta d) _ h in
      increment_key-Keeps snake camel delta differ m e second
      ∙ increment_key-number snake delta n d m v first

  pub adjust_review-Keeps :
      (j : Text) (action : ReviewAction) (amount : ℤ)
      → text_eq j (codes "review_adjusted") ≡ false
      → Keeps j (adjust_review numerals action amount)
  unfolding adjust_review
  adjust_review-Keeps j action amount h d e r =
      let old = review_of (get_field (codes "review_adjusted") d) in
      let (closed, a, r1) = >>=-eq_some (bump numerals (codes "closedCases") old) _ r in
      let (reviewed, b, r2) = >>=-eq_some (bump numerals (codes "reviewedCases") closed) _ r1 in
      let (counted, c, r3) = >>=-eq_some (bump numerals (outcome_key action) reviewed) _ r2 in
      let (review, f, r4) = >>=-eq_some (approve_review numerals action amount d counted) _ r3 in
      subst (λ x. get_field j x ≡ get_field j d) (some-injective _ _ r4)
        (get_field-set_field_other j (codes "review_adjusted") (object review) d h)

  adjust_stages-Keeps :
      (j key : Text) (action : ReviewAction) (stage : Option Text) (v : Option Json)
      → text_eq j key ≡ false
      → Keeps j (adjust_stages numerals key action stage v)
  unfolding adjust_stages
  adjust_stages-Keeps j key action (some stage) (some (object stages)) h d e r =
      let (adjusted, a, last) = >>=-eq_some (adjust_stage_in numerals action stage stages) _ r in
      subst (λ x. get_field j x ≡ get_field j d) (some-injective _ _ last)
        (get_field-set_field_other j key (object adjusted) d h)
  adjust_stages-Keeps j key action none v h d e r = ap (get_field j) (sym (some-injective _ _ r))
  adjust_stages-Keeps j key action (some stage) none h d e r =
      ap (get_field j) (sym (some-injective _ _ r))
  adjust_stages-Keeps j key action (some stage) (some null) h d e r =
      ap (get_field j) (sym (some-injective _ _ r))
  adjust_stages-Keeps j key action (some stage) (some (boolean b)) h d e r =
      ap (get_field j) (sym (some-injective _ _ r))
  adjust_stages-Keeps j key action (some stage) (some (number n)) h d e r =
      ap (get_field j) (sym (some-injective _ _ r))
  adjust_stages-Keeps j key action (some stage) (some (decimal n)) h d e r =
      ap (get_field j) (sym (some-injective _ _ r))
  adjust_stages-Keeps j key action (some stage) (some (text s)) h d e r =
      ap (get_field j) (sym (some-injective _ _ r))
  adjust_stages-Keeps j key action (some stage) (some (array vs)) h d e r =
      ap (get_field j) (sym (some-injective _ _ r))

  pub adjust_stage-Keeps :
      (j : Text) (action : ReviewAction) (stage : Option Text)
      → text_eq j (codes "stage_metrics") ≡ false
      → text_eq j (codes "stageMetrics") ≡ false
      → Keeps j (adjust_stage numerals action stage)
  unfolding adjust_stage
  adjust_stage-Keeps j action stage h k d e r =
      elim (Option-cases (get_field (codes "stage_metrics") d)) [
        | inl missing ↦
            adjust_stages-Keeps j (codes "stageMetrics") action stage _ k d e
              (rw (adjust_stage, missing) at r)
        | inr (v, found) ↦
            adjust_stages-Keeps j (codes "stage_metrics") action stage (some v) h d e
              (rw (adjust_stage, found) at r)
      ]
