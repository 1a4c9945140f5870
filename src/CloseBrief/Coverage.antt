-- ===== src/CloseBrief/Coverage.antt =====
-- What a validated response covers.
use mathlib.Core.Bool.{false≢true}
use mathlib.Core.Path.{subst}
use mathlib.Core.List.{append_assoc, append-nil}
use roborecon.Prelude.{
  ℕ, ◌==◌, ==_refl, Bool, true, false, not, ◌&&◌, &&-eq_true, ◌≡◌, refl, sym, ap, ◌∙◌, ◌⊎◌, inl,
  inr, ◌↔◌, Option, none, some, List, [], ◌∷◌, ◌++◌, any, any-cases, any-Member, all, length,
  Member, Member-append, All,
}
use roborecon.Prelude.Result.{ok, guard, >>=-eq_ok, guard-eq_ok, require-eq_ok, ok-injective}
use roborecon.Engine.StageA.Outcome.{contains_id}
use roborecon.Evaluation.{distinct, is_subset}
use roborecon.Evaluation.Sets.{contains_id-Member, is_subset-Member}
use roborecon.CloseBrief.{
  Citation, ExceptionContext, ProviderTheme, ValidationError, invalid_shape, duplicate_coverage,
  out_of_run_coverage, citation_outside_theme, invalid_citation, incomplete_coverage, key_error,
  expected_ids, context_of, is_same_source, add_ids, check_source, check_citations, check_theme,
  check_themes, validate_provider_response,
}

-- No id occurs twice.
abbrev pub NoRepeat : List ℕ → Type 0
NoRepeat [] = Unit
NoRepeat (x ∷ xs) = (¬ Member x xs) × NoRepeat xs

NoRepeat-append : (xs : List ℕ) (n : ℕ) → NoRepeat xs → ¬ Member n xs → NoRepeat (xs ++ n ∷ [])
NoRepeat-append [] n h k = ((λ m. m.1), tt)
NoRepeat-append (x ∷ xs) n h k = (
  (λ m. elim (Member-append x xs (n ∷ []) m) [
    | inl there ↦ h.0 there
    | inr (inl e) ↦ k (inl (sym e))
    | inr (inr never) ↦ never.1
  ]),
  NoRepeat-append xs n h.1 (λ m. k (inr m)),
)

-- the ids of all themes
unfoldable pub covered_ids : List ProviderTheme → List ℕ
covered_ids [] = []
covered_ids (t ∷ ts) = t.exception_ids ++ covered_ids ts

unseen-id : (ids : List ℕ) (n : ℕ) → not (contains_id ids n) ≡ true → ¬ Member n ids
unfolding contains_id
unseen-id ids n h m =
    absurd (false≢true (sym (ap not (any-Member (λ k. n == k) n ids m (==_refl n))) ∙ h))

guard-true : (b : Bool) (e : ValidationError) → guard b e ≡ ok tt → b ≡ true
guard-true true e h = refl
guard-true false e h = cc

add_ids-eq_ok :
    (seen ids added : List ℕ)
    → NoRepeat seen
    → add_ids seen ids ≡ ok added
    → (added ≡ seen ++ ids) × NoRepeat added
unfolding add_ids
add_ids-eq_ok seen [] added h k =
    let same = ok-injective k in (sym same ∙ sym (append-nil seen), subst NoRepeat same h)
add_ids-eq_ok seen (id ∷ ids) added h k =
    let (fresh, rest) = guard-eq_ok (not (contains_id seen id)) duplicate_coverage _ k in
    let (whole, distinct_ids) =
      add_ids-eq_ok (seen ++ id ∷ []) ids added
        (NoRepeat-append seen id h (unseen-id seen id fresh)) rest in
    (whole ∙ append_assoc seen (id ∷ []) ids, distinct_ids)

-- A citation of a theme is of an exception of the theme, and if it names a source, it is one of those
-- that the exception's context has.
abbrev pub Grounded : List ExceptionContext → ProviderTheme → Citation → Type 0
Grounded exceptions theme c =
    Member c.exception_id theme.exception_ids
    × ((c.source_id ≡ none)
        ⊎ ((e : ExceptionContext) × (item : Citation) × (context_of exceptions c.exception_id
              ≡ some e)
            × Member item e.citations
            × (is_same_source c item ≡ true)))

check_source-eq_ok :
    (exceptions : List ExceptionContext) (c : Citation) (source_id : Option ℕ)
    → check_source exceptions c source_id ≡ ok tt
    → (source_id ≡ none)
      ⊎ ((e : ExceptionContext) × (item : Citation) × (context_of exceptions c.exception_id
            ≡ some e)
          × Member item e.citations
          × (is_same_source c item ≡ true))
unfolding check_source
check_source-eq_ok exceptions c none h = inl refl
check_source-eq_ok exceptions c (some source_id) h =
    let (e, known, k) = require-eq_ok (context_of exceptions c.exception_id) key_error _ h in
    let allowed =
      any-cases (is_same_source c) e.citations
        (guard-true (any (is_same_source c) e.citations) invalid_citation k) in
    inr (e, allowed.0, known, allowed.1, allowed.2)

check_citations-eq_ok :
    (exceptions : List ExceptionContext) (theme : ProviderTheme) (cs : List Citation)
    → check_citations exceptions theme.exception_ids cs ≡ ok tt
    → All (Grounded exceptions theme) cs
unfolding check_citations
check_citations-eq_ok exceptions theme [] h = tt
check_citations-eq_ok exceptions theme (c ∷ cs) h =
    let (inside, k) =
      guard-eq_ok (contains_id theme.exception_ids c.exception_id) citation_outside_theme _ h in
    let (u, source, rest) = >>=-eq_ok (check_source exceptions c c.source_id) _ k in
    (
      (
        contains_id-Member theme.exception_ids c.exception_id inside,
        check_source-eq_ok exceptions c c.source_id source,
      ),
      check_citations-eq_ok exceptions theme cs rest,
    )

check_theme-eq_ok :
    (exceptions : List ExceptionContext) (seen added : List ℕ) (theme : ProviderTheme)
    → NoRepeat seen
    → check_theme exceptions seen theme ≡ ok added
    → (added ≡ seen ++ theme.exception_ids)
      × NoRepeat added
      × All (Grounded exceptions theme) theme.citations
unfolding check_theme
check_theme-eq_ok exceptions seen added theme h k =
    let (d, k1) =
      guard-eq_ok (length theme.exception_ids == length (distinct theme.exception_ids))
        duplicate_coverage _ k in
    let (known, k2) =
      guard-eq_ok (all (contains_id (expected_ids exceptions)) theme.exception_ids)
        out_of_run_coverage _ k1 in
    let (more, adds, k3) = >>=-eq_ok (add_ids seen theme.exception_ids) _ k2 in
    let (u, cited, last) =
      >>=-eq_ok (check_citations exceptions theme.exception_ids theme.citations) _ k3 in
    let (whole, once) = add_ids-eq_ok seen theme.exception_ids more h adds in
    let same = ok-injective last in
    (
      sym same ∙ whole,
      subst NoRepeat same once,
      check_citations-eq_ok exceptions theme theme.citations cited,
    )

check_themes-eq_ok :
    (exceptions : List ExceptionContext) (seen added : List ℕ) (themes : List ProviderTheme)
    → NoRepeat seen
    → check_themes exceptions seen themes ≡ ok added
    → (added ≡ seen ++ covered_ids themes)
      × NoRepeat added
      × All (λ t. All (Grounded exceptions t) (ProviderTheme.citations t)) themes
unfolding check_themes covered_ids
check_themes-eq_ok exceptions seen added [] h k =
    let same = ok-injective k in (sym same ∙ sym (append-nil seen), subst NoRepeat same h, tt)
check_themes-eq_ok exceptions seen added (t ∷ ts) h k =
    let (more, first, rest) = >>=-eq_ok (check_theme exceptions seen t) _ k in
    let (whole, once, cited) = check_theme-eq_ok exceptions seen more t h first in
    let (all_ids, none_twice, others) = check_themes-eq_ok exceptions more added ts once rest in
    (
      all_ids
          ∙ ap (λ xs. xs ++ covered_ids ts) whole
          ∙ append_assoc seen t.exception_ids (covered_ids ts),
      none_twice,
      (cited, others),
    )

-- What a validated response covers.
abbrev pub Covers :
    Option (List ProviderTheme) → List ExceptionContext → List ProviderTheme → Type 0
Covers response exceptions themes =
    (response ≡ some themes)
    × ((id : ℕ) → Member id (covered_ids themes) ↔ Member id (expected_ids exceptions))
    × NoRepeat (covered_ids themes)
    × All (λ t. All (Grounded exceptions t) (ProviderTheme.citations t)) themes

-- If a response passes the validation, then its themes are returned as they are; they cover exactly
-- the open exceptions, and none of them twice; and each citation is of an exception of its theme and,
-- if it names a source, names one that the context of this exception has.
pub validate_provider_response-Covers :
    (response : Option (List ProviderTheme)) (exceptions : List ExceptionContext)
    (themes : List ProviderTheme)
    → validate_provider_response response exceptions ≡ ok themes
    → Covers response exceptions themes
unfolding validate_provider_response
validate_provider_response-Covers response exceptions themes h =
    let (ts, shaped, k1) = require-eq_ok response invalid_shape _ h in
    let (seen, checked, k2) = >>=-eq_ok (check_themes exceptions [] ts) _ k1 in
    let (exact, last) =
      guard-eq_ok
        (is_subset seen (expected_ids exceptions) && is_subset (expected_ids exceptions) seen)
        incomplete_coverage _ k2 in
    let (inside, covered) = &&-eq_true _ _ exact in
    let (whole, once, cited) = check_themes-eq_ok exceptions [] seen ts tt checked in
    let same = ok-injective last in
    subst
      (λ us.
        (response ≡ some us)
        × ((id : ℕ) → Member id (covered_ids us) ↔ Member id (expected_ids exceptions))
        × NoRepeat (covered_ids us)
        × All (λ t. All (Grounded exceptions t) (ProviderTheme.citations t)) us)
      same
      (
        shaped,
        (λ id. (
          (λ m.
              is_subset-Member seen (expected_ids exceptions) id inside
                (subst (λ xs. Member id xs) (sym whole) m)),
          (λ m.
              subst (λ xs. Member id xs) whole
                (is_subset-Member (expected_ids exceptions) seen id covered m)),
        )),
        subst NoRepeat whole once,
        cited,
      )
