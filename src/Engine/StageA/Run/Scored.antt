-- ===== src/Engine/StageA/Run/Scored.antt =====
-- What is known of the candidates of an entry when its outcome is decided.
use roborecon.Prelude.{
  true, false, ◌≡◌, refl, sym, ap, ◌∙◌, inl, inr, List, [], map, is_empty, Member, All, all-All,
  All-map, Member-filter, Bool-cases, &&-eq_true,
}
use roborecon.Records.{LedgerEntry}
use roborecon.Engine.Model.{ScoredCandidate, Resource}
use roborecon.Engine.Reference.{CharTables}
use roborecon.Engine.Candidates.{batch_collision_ids, mark_batch_collision}
use roborecon.Engine.Candidates.Marks.{taken, not_is_true, collision-taken, mark-empty, mark-same}
use roborecon.Engine.StageA.Pool.{StageACandidate}
use roborecon.Engine.StageA.Eligible.{eligible_stage_a, numeric_reference_key}
use roborecon.Engine.StageA.Score.{stage_a_score}
use roborecon.Engine.StageA.Run.{
  Pairing, kind_eq, expected_kind, eligible_of, has_duplicate_key, pair_with_score, is_candidate_of,
  mark_pair, entry_pairs,
}

-- A marked candidate keeps what was scored. If it has no contradiction then the record's own score
-- had none, and the record is not taken.
pub record IsScored (tables : CharTables) (entry : LedgerEntry) (pool : List StageACandidate)
    (reserved_ids : List Resource) (s : ScoredCandidate) : Type 0 where
  pub source : StageACandidate
  pub in_pool : Member source pool
  pub kind : kind_eq source.kind (expected_kind entry.entry_type) ≡ true
  pub eligible : eligible_stage_a tables entry source ≡ true
  pub same_id : s.candidate_id ≡ source.record_id
  pub same_score : s.score ≡ (stage_a_score tables entry source).score
  pub same_chain :
      s.exact_identifier_chain ≡ (stage_a_score tables entry source).exact_identifier_chain
  pub unverified : s.verified_settlement_math ≡ false
  pub clean :
      is_empty s.contradictions ≡ true
      → is_empty (stage_a_score tables entry source).contradictions ≡ true
  pub free : is_empty s.contradictions ≡ true → taken reserved_ids s.candidate_id ≡ false

module _ (tables : CharTables) (entry : LedgerEntry) (pool : List StageACandidate)
    (reserved_ids : List Resource) where
  -- what marking for a collision keeps
  mark-IsScored :
      (s : ScoredCandidate) (c : StageACandidate)
      → Member c pool
      → kind_eq c.kind (expected_kind entry.entry_type) ≡ true
      → eligible_stage_a tables entry c ≡ true
      → s.candidate_id ≡ c.record_id
      → s.score ≡ (stage_a_score tables entry c).score
      → s.exact_identifier_chain ≡ (stage_a_score tables entry c).exact_identifier_chain
      → s.verified_settlement_math ≡ false
      → s.contradictions ≡ (stage_a_score tables entry c).contradictions
      → IsScored tables entry pool reserved_ids (mark_batch_collision s reserved_ids [])
  unfolding mark_batch_collision
  mark-IsScored s c m k el i sc ch v co =
      let ids = batch_collision_ids s reserved_ids [] in
      let same = mark-same s ids in
      record {
        source = c;
        in_pool = m;
        kind = k;
        eligible = el;
        same_id = same.0 ∙ i;
        same_score = same.1 ∙ sc;
        same_chain = same.2 ∙ ch;
        unverified = same.3 ∙ v;
        clean = λ h. sym (ap is_empty co) ∙ (mark-empty s ids h).0;
        free = λ h.
            let untaken = sym (collision-taken s reserved_ids) ∙ (mark-empty s ids h).1 in
            rw same.0 (not_is_true (taken reserved_ids s.candidate_id) untaken);
      }

  pair-IsScored :
      (eligible : List StageACandidate) (c : StageACandidate)
      → Member c pool
      → kind_eq c.kind (expected_kind entry.entry_type) ≡ true
      → eligible_stage_a tables entry c ≡ true
      → IsScored tables entry pool reserved_ids
          (mark_pair tables reserved_ids (pair_with_score tables entry eligible c)).1
  unfolding mark_pair pair_with_score stage_a_score
  pair-IsScored eligible c m k el =
      elim (Bool-cases
        (has_duplicate_key tables entry eligible (numeric_reference_key tables entry c))) [
          | inl t ↦ rw t (
              mark-IsScored (record (stage_a_score tables entry c) { duplicate = true }) c m k el
                refl refl refl refl refl)
          | inr f ↦
              rw f (mark-IsScored (stage_a_score tables entry c) c m k el refl refl refl refl refl)
        ]

  abbrev pub HasScore : Pairing → Type 0
  HasScore p = IsScored tables entry pool reserved_ids p.1

  -- Every candidate of an entry is scored from an eligible record of the pool of its kind.
  pub entry_pairs-IsScored : All HasScore (entry_pairs tables entry pool reserved_ids)
  unfolding entry_pairs eligible_of
  entry_pairs-IsScored =
      let eligible = eligible_of tables entry pool in
      All-map HasScore (mark_pair tables reserved_ids)
        (map (pair_with_score tables entry eligible) eligible)
        (All-map (λ p. HasScore (mark_pair tables reserved_ids p))
          (pair_with_score tables entry eligible) eligible
          (all-All
            (λ c.
              HasScore (mark_pair tables reserved_ids (pair_with_score tables entry eligible c)))
            eligible
            (λ c m.
              let found = Member-filter (is_candidate_of tables entry) c pool m in
              let tests = &&-eq_true _ _ found.1 in
              pair-IsScored eligible c found.0 tests.0 tests.1)))
