-- ===== src/CloseBrief.antt =====
-- `validate_provider_response` of apps/api/app/reconciliation/close_brief.py, on the classes of
-- apps/api/app/ai/model.py. That a response has the shape of `BatchCloseProviderResponse` is for
-- pydantic to say: a response is `none` if it has not.
pub mod Coverage
use roborecon.Prelude.{
  ℕ, ◌==◌, Text, text_eq, Bool, true, false, not, ◌&&◌, Option, none, some, List, [], ◌∷◌, ◌++◌,
  map, any, all, length,
}
use roborecon.Prelude.Int.{ℤ}
use roborecon.Prelude.Dict.{lookup, index}
use roborecon.Prelude.Result.{Result, ok, err, ◌>>=◌, ◌>>◌, guard, require}
use roborecon.Engine.StageA.Outcome.{contains_id}
use roborecon.Evaluation.{distinct, is_subset}

pub record Citation : Type 0 where
  pub exception_id : ℕ
  pub source_type : Option Text
  pub source_id : Option ℕ

pub record ExceptionContext : Type 0 where
  pub exception_id : ℕ
  pub exception_type : Text
  pub stage : Option Text
  pub status : Text
  pub amount : ℤ
  pub message : Text
  pub rule_codes : List Text
  pub contradiction_codes : List Text
  pub citations : List Citation

pub record ProviderTheme : Type 0 where
  pub title : Text
  pub summary : Text
  pub exception_ids : List ℕ
  pub review_action : Text
  pub citations : List Citation

-- the messages of `CloseBriefValidationError`, and the `KeyError` of `context_by_id`
pub data ValidationError : Type 0 where
  invalid_shape duplicate_coverage out_of_run_coverage : ValidationError
  citation_outside_theme invalid_citation incomplete_coverage key_error : ValidationError

-- `expected`
abbrev pub expected_ids : List ExceptionContext → List ℕ
expected_ids exceptions = map (λ e. ExceptionContext.exception_id e) exceptions

-- `context_by_id.get(id)`
unfoldable pub context_of : List ExceptionContext → ℕ → Option ExceptionContext
unfolding lookup index
context_of exceptions id =
    lookup (λ a b. a == b) id
      (index (λ a b. a == b) (λ e. ExceptionContext.exception_id e) exceptions)

-- equality of two optional texts and of two optional ids
abbrev pub same_text : Option Text → Option Text → Bool
same_text none none = true
same_text (some s) (some t) = text_eq s t
same_text _ _ = false

abbrev pub same_id : Option ℕ → Option ℕ → Bool
same_id none none = true
same_id (some a) (some b) = a == b
same_id _ _ = false

unfoldable pub is_same_source : Citation → Citation → Bool
unfolding text_eq
is_same_source citation item =
    same_id item.source_id citation.source_id && same_text item.source_type citation.source_type

-- the loop that adds the ids of a theme to `seen`
unfoldable pub add_ids : List ℕ → List ℕ → Result ValidationError (List ℕ)
unfolding contains_id
add_ids seen [] = ok seen
add_ids seen (id ∷ ids) = do
  guard (not (contains_id seen id)) duplicate_coverage
  add_ids (seen ++ id ∷ []) ids

-- the part for a citation that names a source
unfoldable pub check_source :
    List ExceptionContext → Citation → Option ℕ → Result ValidationError (Unit {0})
unfolding context_of any is_same_source
check_source exceptions citation none = ok tt
check_source exceptions citation (some source_id) = do
  exception ← require (context_of exceptions citation.exception_id) key_error
  guard (any (is_same_source citation) exception.citations) invalid_citation

unfoldable pub check_citations :
    List ExceptionContext → List ℕ → List Citation → Result ValidationError (Unit {0})
unfolding check_source contains_id
check_citations exceptions theme_ids [] = ok tt
check_citations exceptions theme_ids (c ∷ cs) = do
  guard (contains_id theme_ids c.exception_id) citation_outside_theme
  check_source exceptions c c.source_id
  check_citations exceptions theme_ids cs

-- the body of the loop over the themes
unfoldable pub check_theme :
    List ExceptionContext → List ℕ → ProviderTheme → Result ValidationError (List ℕ)
unfolding distinct all contains_id add_ids check_citations
check_theme exceptions seen theme = do
  guard (length theme.exception_ids == length (distinct theme.exception_ids)) duplicate_coverage
  guard (all (contains_id (expected_ids exceptions)) theme.exception_ids) out_of_run_coverage
  added ← add_ids seen theme.exception_ids
  check_citations exceptions theme.exception_ids theme.citations
  ok added

unfoldable pub check_themes :
    List ExceptionContext → List ℕ → List ProviderTheme → Result ValidationError (List ℕ)
unfolding check_theme
check_themes exceptions seen [] = ok seen
check_themes exceptions seen (theme ∷ themes) = do
  added ← check_theme exceptions seen theme
  check_themes exceptions added themes

-- `validate_provider_response`
unfoldable pub validate_provider_response :
    Option (List ProviderTheme)
    → List ExceptionContext
    → Result ValidationError (List ProviderTheme)
unfolding check_themes is_subset
validate_provider_response response exceptions = do
  themes ← require response invalid_shape
  seen ← check_themes exceptions [] themes
  guard (is_subset seen (expected_ids exceptions) && is_subset (expected_ids exceptions) seen)
      incomplete_coverage
  ok themes
