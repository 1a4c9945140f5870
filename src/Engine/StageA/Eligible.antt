-- ===== src/Engine/StageA/Eligible.antt =====
-- The bounded candidate search of stage A in engine.py: `_matching_identifier` to
-- `_eligible_stage_a`.
use mathlib.Core.Option.{Option, none, some}
use roborecon.Prelude.{
  ℕ, ◌*◌, ◌/◌, max, Text, text_eq, Bool, false, not, ◌&&◌, ◌||◌, List, [], ◌∷◌, map, leb, is_empty,
  if◌then◌else◌,
}
use roborecon.Prelude.Int.{ℤ, pos, ◌-ℤ◌, abs, leb_ℤ, ltb_ℤ, ◌==ℤ◌}
use roborecon.Records.{LedgerEntry}
use roborecon.Engine.Model.{CandidateKind, payment, refund}
use roborecon.Engine.Reference.{CharTables, normalize_reference, digits_of, without_digits}
use roborecon.Engine.Similarity.{Fraction, at_least, less, ratio}
use roborecon.Engine.Time.{day, date_distance}
use roborecon.Engine.StageA.Pool.{StageACandidate, is_some}

abbrev pub stage_a_date_window : ℕ
stage_a_date_window = 7 * day

abbrev pub stage_a_minimum_score : ℕ
stage_a_minimum_score = 65

unfoldable pub amount_window : ℤ → ℤ → ℕ
amount_window entry_amount candidate_amount =
    max 100 (max (abs entry_amount) (abs candidate_amount) * 5 / 1000)

-- `entry.amount in (candidate.amount, candidate.parent_amount)`, and the refund is not more than
-- its payment
unfoldable pub refund_amount_matches : ℤ → ℤ → Option ℤ → Bool
refund_amount_matches entry_amount amount none = false
refund_amount_matches entry_amount amount (some parent_amount) =
    leb_ℤ amount parent_amount && ((entry_amount ==ℤ amount) || (entry_amount ==ℤ parent_amount))

unfoldable pub amount_compatible_of : CandidateKind → LedgerEntry → StageACandidate → Bool
unfolding refund_amount_matches amount_window
amount_compatible_of refund entry candidate =
    ltb_ℤ (pos 0) candidate.amount
    && refund_amount_matches entry.amount candidate.amount candidate.parent_amount
amount_compatible_of payment entry candidate =
    leb (abs (candidate.amount -ℤ entry.amount)) (amount_window entry.amount candidate.amount)

-- `_amount_compatible`
unfoldable pub amount_compatible : LedgerEntry → StageACandidate → Bool
unfolding amount_compatible_of
amount_compatible entry candidate = amount_compatible_of candidate.kind entry candidate

max_similarity : Fraction → List Fraction → Fraction
max_similarity best [] = best
max_similarity best (x ∷ xs) = max_similarity (if less best x then x else best) xs

-- `max` of a list that is not empty; a candidate of the pool has two references or more
largest : List Fraction → Fraction
unfolding max_similarity
largest [] = record { upper = 0; lower = 1 }
largest (x ∷ xs) = max_similarity x xs

module _ (tables : CharTables) where
  first_matching : Text → List Text → Option Text
  first_matching normalized_entry [] = none
  first_matching normalized_entry (reference ∷ references) =
      if text_eq (normalize_reference tables reference) normalized_entry
      then some reference
      else first_matching normalized_entry references

  unfoldable pub matching_identifier : LedgerEntry → StageACandidate → Option Text
  unfolding first_matching
  matching_identifier entry candidate =
      let normalized_entry = normalize_reference tables entry.reference in
      if is_empty normalized_entry
      then none
      else first_matching normalized_entry candidate.references

  similarity_to : Text → Text → Fraction
  similarity_to normalized_entry normalized_reference =
      let entry_digits = digits_of tables normalized_entry in
      if not (is_empty entry_digits) && text_eq entry_digits (digits_of tables normalized_reference)
      then (let lexical_similarity =
            ratio (without_digits tables normalized_entry)
              (without_digits tables normalized_reference) in
          if at_least 1 2 lexical_similarity
          then record { upper = 85; lower = 100 }
          else lexical_similarity)
      else ratio normalized_entry normalized_reference

  unfoldable pub reference_similarity : LedgerEntry → StageACandidate → Fraction
  unfolding largest similarity_to
  reference_similarity entry candidate = largest (
      map
        (λ reference.
          similarity_to (normalize_reference tables entry.reference)
            (normalize_reference tables reference))
        candidate.references)

  key_in : Text → List Text → Text
  key_in entry_digits [] = []
  key_in entry_digits (reference ∷ references) =
      if text_eq (digits_of tables (normalize_reference tables reference)) entry_digits
      then entry_digits
      else key_in entry_digits references

  unfoldable pub numeric_reference_key : LedgerEntry → StageACandidate → Text
  unfolding key_in
  numeric_reference_key entry candidate =
      let entry_digits = digits_of tables (normalize_reference tables entry.reference) in
      if is_empty entry_digits then [] else key_in entry_digits candidate.references

  unfoldable pub eligible_stage_a : LedgerEntry → StageACandidate → Bool
  eligible_stage_a entry candidate =
      is_some (matching_identifier entry candidate)
      || (text_eq candidate.currency entry.currency
          && leb (date_distance entry.business_at candidate.business_at) stage_a_date_window
          && (amount_compatible entry candidate
              || (candidate.has_linked_order
                  && not (is_empty (numeric_reference_key entry candidate)))))
