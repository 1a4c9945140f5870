-- ===== src/Engine/StageA/Run/Guard.antt =====
-- The collision ids of an entry are the reserved ids among its candidates.
use roborecon.Prelude.{
  ℕ, Bool, true, false, not, ◌≡◌, ◌∙◌, List, [], arith, is_empty, Member, All, all-All, All-map,
  All-member, Member-filter, filter-Member, Member-map, map-Member, any-cases, any-Member, ==→≡,
  ==_refl, ◌==◌,
}
use roborecon.Records.{LedgerEntry}
use roborecon.Engine.Model.{ScoredCandidate, Resource}
use roborecon.Engine.Reference.{CharTables}
use roborecon.Engine.Candidates.{batch_collision_ids, mark_batch_collision}
use roborecon.Engine.Candidates.Marks.{taken, collision-taken, mark-same}
use roborecon.Engine.StageA.Pool.{StageACandidate}
use roborecon.Engine.StageA.Outcome.{contains_id}
use roborecon.Engine.StageA.Outcome.Selection.{
  Guarded, Selection, outcome-ids_free, outcome-Selection,
}
use roborecon.Engine.StageA.Run.{
  Pairing, scores, scored_id, scored_pairs, collision_candidate_ids, mark_pair, entry_pairs,
  entry_outcome,
}
use roborecon.Engine.StageA.Run.Scored.{IsScored, entry_pairs-IsScored, HasScore}

negated_twice : (b c : Bool) → b ≡ not c → not b ≡ true → c ≡ true
negated_twice b c e h = ground arith

not_of : (b c : Bool) → b ≡ not c → c ≡ true → not b ≡ true
not_of b c e h = ground arith

nonempty_of_taken : (b c : Bool) → (b ≡ true → c ≡ false) → c ≡ true → b ≡ false
nonempty_of_taken b c f h = ground arith

module _ (tables : CharTables) (reserved_ids : List Resource) where
  abbrev collides : Pairing → Bool
  collides p = not (is_empty (batch_collision_ids p.1 reserved_ids []))

  contains-taken :
      (pairs : List Pairing) (n : ℕ)
      → contains_id (collision_candidate_ids tables reserved_ids pairs) n ≡ true
      → taken reserved_ids n ≡ true
  unfolding contains_id collision_candidate_ids
  contains-taken pairs n h =
      let (m, in_ids, same) = any-cases (λ k. n == k) _ h in
      let (p, in_pairs, id) = Member-map scored_id m _ in_ids in
      let found = Member-filter collides p pairs in_pairs in
      rw (==→≡ n m same ∙ id) (negated_twice _ _ (collision-taken p.1 reserved_ids) found.1)

  taken-contains :
      (pairs : List Pairing) (p : Pairing)
      → Member p pairs
      → taken reserved_ids (scored_id p) ≡ true
      → contains_id (collision_candidate_ids tables reserved_ids pairs) (scored_id p) ≡ true
  unfolding contains_id collision_candidate_ids
  taken-contains pairs p m t =
      any-Member (λ k. scored_id p == k) (scored_id p) _
        (map-Member scored_id p _
          (filter-Member collides p pairs m (not_of _ _ (collision-taken p.1 reserved_ids) t)))
        (==_refl (scored_id p))

  module _ (entry : LedgerEntry) (pool : List StageACandidate) where
    abbrev IsKnown : Pairing → Type 0
    IsKnown = HasScore tables entry pool reserved_ids

    abbrev IsGuarded : Pairing → Type 0
    IsGuarded p =
        Guarded (taken reserved_ids)
          (collision_candidate_ids tables reserved_ids (scored_pairs tables entry pool)) p.1

    marked-IsGuarded :
        (p : Pairing)
        → Member p (scored_pairs tables entry pool)
        → IsKnown (mark_pair tables reserved_ids p)
        → IsGuarded (mark_pair tables reserved_ids p)
    unfolding mark_pair mark_batch_collision
    marked-IsGuarded p m k =
        let same = (mark-same p.1 (batch_collision_ids p.1 reserved_ids [])).0 in
        (
          rw same (taken-contains (scored_pairs tables entry pool) p m),
          λ h. nonempty_of_taken _ _ k.free (contains-taken (scored_pairs tables entry pool) _ h),
        )

    pub entry_pairs-IsGuarded : All IsGuarded (entry_pairs tables entry pool reserved_ids)
    unfolding entry_pairs
    entry_pairs-IsGuarded =
        All-map IsGuarded (mark_pair tables reserved_ids) (scored_pairs tables entry pool) (
          all-All (λ p. IsGuarded (mark_pair tables reserved_ids p))
            (scored_pairs tables entry pool)
            (λ p m. marked-IsGuarded p m (
              All-member IsKnown _ _ (entry_pairs-IsScored tables entry pool reserved_ids)
                (map-Member (mark_pair tables reserved_ids) p _ m))))

    -- An autonomous outcome of an entry names no record that an earlier outcome consumed.
    pub entry_outcome-free :
        (entry_outcome tables entry pool reserved_ids).autonomous ≡ true
        → All
            (λ n. taken reserved_ids n ≡ false)
            (entry_outcome tables entry pool reserved_ids).selected_ids
    unfolding entry_outcome
    entry_outcome-free e =
        outcome-ids_free tables (taken reserved_ids) entry
          (scores (entry_pairs tables entry pool reserved_ids)) _
          (All-map
            (Guarded (taken reserved_ids)
              (collision_candidate_ids tables reserved_ids (scored_pairs tables entry pool)))
            (λ p. p.1) (entry_pairs tables entry pool reserved_ids) entry_pairs-IsGuarded)
          e

    -- An autonomous outcome of an entry has selected a candidate that is scored from the pool.
    pub entry_outcome-Selection :
        (entry_outcome tables entry pool reserved_ids).autonomous ≡ true
        → Selection
            (IsScored tables entry pool reserved_ids)
            (entry_outcome tables entry pool reserved_ids)
    unfolding entry_outcome
    entry_outcome-Selection e =
        outcome-Selection tables (IsScored tables entry pool reserved_ids) keep entry
          (scores (entry_pairs tables entry pool reserved_ids)) _
          (All-map (IsScored tables entry pool reserved_ids) (λ p. p.1)
            (entry_pairs tables entry pool reserved_ids)
            (entry_pairs-IsScored tables entry pool reserved_ids))
          e
      where
        keep :
            (c : ScoredCandidate)
            → IsScored tables entry pool reserved_ids c
            → IsScored tables entry pool reserved_ids (record c { duplicate = true })
        keep c k = record {
          source = k.source;
          in_pool = k.in_pool;
          kind = k.kind;
          eligible = k.eligible;
          same_id = k.same_id;
          same_score = k.same_score;
          same_chain = k.same_chain;
          unverified = k.unverified;
          clean = k.clean;
          free = k.free;
        }
