-- ===== src/Review/Decision/Rejection.antt =====
-- The links that a rejection leaves.
use mathlib.Core.Option.{some-injective}
use mathlib.Core.Path.{subst}
use mathlib.Core.Option
use roborecon.Prelude.{
  ℕ, ◌==◌, ==→≡, ==_refl, Text, text_eq, text_eq→≡, text_eq_refl, Bool, true, false, not, ◌&&◌, ◌≡◌,
  refl, sym, ap, ◌∙◌, inl, inr, ◌↔◌, Option, none, some, List, [], ◌++◌, Member, Member-filter,
  filter-Member, Member-append, append-Member, arith,
}
use roborecon.Prelude.Result.{ok, require-eq_ok, guard-eq_ok}
use roborecon.Prelude.Table.{find}
use roborecon.Enums.{reject}
use roborecon.Json.{Json}
use roborecon.Rows.{
  ReconciliationResult, ReconciliationException, MatchLink, system, human_approved,
}
use roborecon.Review.{
  SourceRow, ReviewTables, ReviewRequest, ReviewDecision, Strings, invalid_review_candidate,
  own_result, exception_result, candidate_source,
}
use roborecon.Review.Metrics.{Numerals}
use roborecon.Review.Decision.{
  is_removed, remaining_links, new_links, review_rows, review_exception,
}
use roborecon.Review.Decision.Parts.{review_exception-Steps, Steps-SameRows, open_exception-eq_ok}
use roborecon.Prelude.Result.{ok-injective}
use roborecon.Review.Decision.Candidate.{own_result-eq_some}

-- A link that a rejection of an exception with this result leaves.
abbrev Left : Option ℕ → MatchLink → Type 0
Left result_id l = result_id ≡ some l.result_id → l.actor ≡ system → l.role ≡ human_approved

is_removed-false : (n : ℕ) (l : MatchLink) → is_removed n l ≡ false → Left (some n) l
unfolding is_removed
is_removed-false n l h same actor = ground (
  arith,
  ==_refl n,
  some-injective _ _ same,
  text_eq→≡ l.role human_approved,
  subst (λ t. text_eq l.actor t ≡ true) actor (text_eq_refl l.actor),
)

guarded : (a b c : Bool) → (a ≡ true → b ≡ true → c ≡ true) → not (a && b && not c) ≡ true
guarded a b c h = ground (arith, h)

Left-kept : (n : ℕ) (l : MatchLink) → Left (some n) l → not (is_removed n l) ≡ true
unfolding is_removed
Left-kept n l left =
    guarded (l.result_id == n) (text_eq l.actor system) (text_eq l.role human_approved) (λ a b.
      subst (λ t. text_eq t human_approved ≡ true)
        (sym (left (ap some (sym (==→≡ l.result_id n a))) (text_eq→≡ l.actor system b)))
        (text_eq_refl human_approved))

remaining_links-reject :
    (result : Option (ReconciliationResult Json)) (result_id : Option ℕ) (links : List MatchLink)
    (l : MatchLink)
    → result_id ≡ Option.map (λ x. x.id) result
    → Member l (remaining_links reject result links) ↔ (Member l links × Left result_id l)
unfolding remaining_links
remaining_links-reject none result_id links l h = (λ m. (m, λ same actor. cc), λ m. m.0)
remaining_links-reject (some x) result_id links l h = (
  (λ m.
      let p = Member-filter (λ k. not (is_removed x.id k)) l links m in
      (
        p.0,
        subst (λ o. Left o l) (sym h) (is_removed-false x.id l (unnot (is_removed x.id l) p.1)),
      )),
  (λ m.
      filter-Member (λ k. not (is_removed x.id k)) l links m.0
        (Left-kept x.id l (subst (λ o. Left o l) h m.1))),
)
  where
    unnot : (b : Bool) → not b ≡ true → b ≡ false
    unnot b k = ground arith

own_result-some :
    (db : ReviewTables) (e : ReconciliationException) (n : ℕ)
    → own_result db e (some n) ≡ ok none
    → Unit {0} × ⊥
unfolding own_result
own_result-some db e n h =
    let (x, found, k) =
      require-eq_ok (find (λ r. r.id == n) db.results) invalid_review_candidate _ h in
    let (own, last) =
      guard-eq_ok ((x.batch_id == e.batch_id) && (x.run_id == e.run_id)) invalid_review_candidate _
        k in
    cc

-- the id of the result that was read
own_result-id :
    (db : ReviewTables) (e : ReconciliationException) (id : Option ℕ)
    (result : Option (ReconciliationResult Json))
    → own_result db e id ≡ ok result
    → id ≡ Option.map (λ x. x.id) result
own_result-id db e id (some x) h = (own_result-eq_some db e id x h).0
own_result-id db e none none h = refl
own_result-id db e (some n) none h = absurd (own_result-some db e n h).1

candidate_source-reject :
    (strings : Strings) (db : ReviewTables) (e : ReconciliationException)
    (result : Option (ReconciliationResult Json)) (id : Option ℕ) (o : Option (Text × SourceRow))
    → candidate_source strings reject db e result id ≡ ok o
    → o ≡ none
unfolding candidate_source
candidate_source-reject strings db e result id o h = sym (ok-injective h)

Member-append_nil : (l : MatchLink) (ls : List MatchLink) → Member l (ls ++ []) ↔ Member l ls
Member-append_nil l ls = (
  (λ m. elim (Member-append l ls [] m) [ inl k ↦ k | inr k ↦ absurd k.1 ]),
  (λ m. append-Member l ls [] (inl m)),
)

-- What a rejection did.
abbrev pub Rejected : ReviewRequest → ReviewTables → ReviewTables → Type 0
Rejected r db after =
    (e : ReconciliationException) × Member e db.exceptions
    × (e.id ≡ r.exception_id)
    × ((l : MatchLink) → Member l after.links ↔ (Member l db.links × Left e.result_id l))

module _ (numerals : Numerals) (strings : Strings) where
  -- After a successful rejection the links are the ones that were there, less exactly those that the
  -- system made for the exception's result and that no human approved.
  pub review_exception-rejects :
      (r : ReviewRequest) (db after : ReviewTables) (d : ReviewDecision)
      → r.action ≡ reject
      → review_exception numerals strings r db ≡ ok (d, after)
      → Rejected r db after
  unfolding review_rows exception_result new_links
  review_exception-rejects r db after d rejected h =
      let steps = review_exception-Steps numerals strings r db d after h in
      let e = steps.0 in
      let result = steps.1 in
      let opened = open_exception-eq_ok numerals strings r db e steps.4 in
      let no_source =
        candidate_source-reject strings db e result r.candidate_id steps.2
          (rw rejected at steps.6) in
      let links =
        (Steps-SameRows numerals strings r db d after steps).2
        ∙ ap (λ o. remaining_links r.action result db.links ++ new_links r e o) no_source
        ∙ ap (λ a. remaining_links a result db.links ++ []) rejected in
      (
        e,
        opened.3,
        opened.2,
        (λ l.
            let kept =
              remaining_links-reject result e.result_id db.links l
                (own_result-id db e e.result_id result steps.5) in
            let same = Member-append_nil l (remaining_links reject result db.links) in
            (
              (λ m. kept.0 (same.0 (subst (λ ls. Member l ls) links m))),
              (λ m. subst (λ ls. Member l ls) (sym links) (same.1 (kept.1 m))),
            )),
      )
