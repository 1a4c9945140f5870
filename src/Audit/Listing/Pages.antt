-- ===== src/Audit/Listing/Pages.antt =====
-- The pages of `list_events`, one after the other.
use mathlib.Core.Bool.{false≢true}
use mathlib.Core.Option
use mathlib.Core.Option.{some-injective, none-ne-some}
use roborecon.Prelude.Asked.{IsAsked}
use roborecon.Enums.{AuditEventType, event_type_value}
use roborecon.Prelude.{
  Text, text_eq→≡, text_eq_refl, ==→≡, ==_refl, &&-eq_true, Option, none, some, ◌↔◌, refl, ℕ, zero,
  suc, ◌+◌, ◌-◌, ◌*◌, ◌≤◌, true, false, ◌≡◌, ap, ◌∙◌, List, [], ◌++◌, Member, Member-filter,
  filter-Member, filter, length, take, drop, arith,
}
use roborecon.Prelude.Int.{ℤ}
use roborecon.Prelude.Order.{sort, length-sort, Member-sort, sort-Member, IsSorted, sort-IsSorted}
use roborecon.Prelude.Slices.{take-short, take_add}
use roborecon.Engine.Time.{utc}
use roborecon.Audit.Listing.{
  StoredEvent, EventQuery, id_matches, entity_type_matches, event_type_matches, event_matches,
  key_before, occurs_before, list_events,
}

key_before_asym :
    (a : ℤ) (s i : ℕ) (b : ℤ) (t j : ℕ)
    → key_before a s i b t j ≡ true
    → key_before b t j a s i ≡ false
unfolding key_before
key_before_asym a s i b t j h = ground arith

key_before_trans :
    (a : ℤ) (s i : ℕ) (b : ℤ) (t j : ℕ) (c : ℤ) (u k : ℕ)
    → key_before b t j a s i ≡ false
    → key_before c u k b t j ≡ false
    → key_before c u k a s i ≡ false
unfolding key_before
key_before_trans a s i b t j c u k h g = ground arith

module _ {T : Type 0} where
  occurs_before_asym : (a b : StoredEvent T) → occurs_before a b ≡ true → occurs_before b a ≡ false
  unfolding occurs_before
  occurs_before_asym a b h =
      key_before_asym (utc a.event.occurred_at) a.event.sequence a.id (utc b.event.occurred_at)
        b.event.sequence b.id h

  occurs_before_trans :
      (a b c : StoredEvent T)
      → occurs_before b a ≡ false
      → occurs_before c b ≡ false
      → occurs_before c a ≡ false
  unfolding occurs_before
  occurs_before_trans a b c h g =
      key_before_trans (utc a.event.occurred_at) a.event.sequence a.id (utc b.event.occurred_at)
        b.event.sequence b.id (utc c.event.occurred_at) c.event.sequence c.id h g

-- The id is the one asked for, if one is asked for.
abbrev IsAskedId : Option ℕ → Option ℕ → Type 0
IsAskedId none id = Unit
IsAskedId (some wanted) id = id ≡ some wanted

-- What a query asks of an event; event types are compared by their values.
abbrev pub Asked : {T : Type 0} → EventQuery → StoredEvent T → Type 0
Asked q e =
    IsAskedId q.batch_id e.event.batch_id
    × IsAsked q.entity_type e.event.entity_type
    × IsAskedId q.entity_id e.event.entity_id
    × IsAsked (Option.map event_type_value q.event_type) (event_type_value e.event.event_type)

id_matches-IsAskedId : (wanted id : Option ℕ) → (id_matches wanted id ≡ true) ↔ IsAskedId wanted id
unfolding id_matches
id_matches-IsAskedId none id = ((λ _. tt), (λ _. refl))
id_matches-IsAskedId (some wanted) none =
    ((λ h. absurd (false≢true h)), (λ e. absurd (none-ne-some _ e)))
id_matches-IsAskedId (some wanted) (some id) =
    ((λ h. ap some (==→≡ id wanted h)), (λ e. rw (some-injective _ _ e) (==_refl wanted)))

entity_type_matches-IsAsked :
    (wanted : Option Text) (t : Text) → (entity_type_matches wanted t ≡ true) ↔ IsAsked wanted t
unfolding entity_type_matches
entity_type_matches-IsAsked none t = ((λ _. tt), (λ _. refl))
entity_type_matches-IsAsked (some wanted) t =
    ((λ h. text_eq→≡ t wanted h), (λ e. rw e (text_eq_refl wanted)))

event_type_matches-IsAsked :
    (wanted : Option AuditEventType) (t : AuditEventType)
    → (event_type_matches wanted t ≡ true)
      ↔ IsAsked (Option.map event_type_value wanted) (event_type_value t)
unfolding event_type_matches
event_type_matches-IsAsked none t = ((λ _. tt), (λ _. refl))
event_type_matches-IsAsked (some wanted) t = (
  (λ h. text_eq→≡ (event_type_value t) (event_type_value wanted) h),
  (λ e. rw e (text_eq_refl (event_type_value wanted))),
)

event_matches-Asked :
    {T : Type 0} (q : EventQuery) (e : StoredEvent T) → (event_matches q e ≡ true) ↔ Asked q e
unfolding event_matches
event_matches-Asked q e =
    let b = id_matches-IsAskedId q.batch_id e.event.batch_id in
    let n = entity_type_matches-IsAsked q.entity_type e.event.entity_type in
    let i = id_matches-IsAskedId q.entity_id e.event.entity_id in
    let t = event_type_matches-IsAsked q.event_type e.event.event_type in
    (
      (λ h.
          let (three, last) = &&-eq_true _ (event_type_matches q.event_type e.event.event_type) h in
          let (two, third) = &&-eq_true _ (id_matches q.entity_id e.event.entity_id) three in
          let (first, second) = &&-eq_true (id_matches q.batch_id e.event.batch_id) _ two in
          (b.0 first, n.0 second, i.0 third, t.0 last)),
      (λ h. rw (b.1 h.0, n.1 h.1, i.1 h.2, t.1 h.3) refl),
    )

module _ {T : Type 0} (q : EventQuery) (rows : List (StoredEvent T)) where
  listed : List (StoredEvent T)
  listed = sort occurs_before (filter (event_matches q) rows)

  -- `xs` lists the events that the query asks for: all of them, and no other, in the order of time,
  -- sequence and id.
  abbrev pub IsListing : List (StoredEvent T) → ℕ → Type 0
  IsListing xs total =
      (length xs ≡ total)
      × IsSorted occurs_before xs
      × ((e : StoredEvent T) → Member e xs ↔ (Member e rows × Asked q e))

  listed-IsListing : IsListing listed (length (filter (event_matches q) rows))
  unfolding listed
  listed-IsListing = (
    length-sort occurs_before (filter (event_matches q) rows),
    sort-IsSorted occurs_before occurs_before_asym occurs_before_trans
        (filter (event_matches q) rows),
    λ e. (
      (λ m.
          let (there, h) =
            Member-filter (event_matches q) e rows
              (Member-sort occurs_before e (filter (event_matches q) rows) m) in
          (there, (event_matches-Asked q e).0 h)),
      (λ m.
          sort-Member occurs_before e (filter (event_matches q) rows)
            (filter-Member (event_matches q) e rows m.0 ((event_matches-Asked q e).1 m.1))),
    ),
  )

  module _ (page_size : ℕ) where
    -- the first `n` pages
    unfoldable pub pages : ℕ → List (StoredEvent T)
    unfolding list_events
    pages zero = []
    pages (suc n) = pages n ++ (list_events q (suc n) page_size rows).0

    pages-take : (n : ℕ) → pages n ≡ take (n * page_size) listed
    unfolding pages list_events take listed
    pages-take zero =
        let none_yet : 0 ≡ 0 * page_size = omega arith in ap (λ k. take k listed) none_yet
    pages-take (suc n) =
        let before : suc n - 1 ≡ n = omega arith in
        let next : n * page_size + page_size ≡ suc n * page_size = omega arith in
        ap (λ k. pages n ++ take page_size (drop (k * page_size) listed)) before
        ∙ ap (λ ys. ys ++ take page_size (drop (n * page_size) listed)) (pages-take n)
        ∙ take_add (n * page_size) page_size listed
        ∙ ap (λ k. take k listed) next

    pages-all : (n : ℕ) → length (filter (event_matches q) rows) ≤ n * page_size → pages n ≡ listed
    unfolding listed
    pages-all n h =
        pages-take n
        ∙ take-short (n * page_size) listed
            (omega (arith, h, length-sort occurs_before (filter (event_matches q) rows)))

-- If `n` pages have room for the number of events that the first page reports, then the first `n`
-- pages, one after the other, are a listing: their length is that number, they are in the order of
-- time, sequence and id, and they hold the events that match every filter, all of them and no other.
pub list_events-IsListing :
    {T : Type 0} (q : EventQuery) (page_size : ℕ) (rows : List (StoredEvent T)) (n : ℕ)
    → (list_events q 1 page_size rows).1 ≤ n * page_size
    → IsListing q rows (pages q rows page_size n) (list_events q 1 page_size rows).1
unfolding list_events
list_events-IsListing q page_size rows n h =
    rw (pages-all q rows page_size n h) (listed-IsListing q rows)
