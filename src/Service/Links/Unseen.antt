-- ===== src/Service/Links/Unseen.antt =====
-- The loop that keeps the first draft of each key.
use mathlib.Core.Bool.{false≢true}
use roborecon.Prelude.{
  ==→≡, ==_refl, text_eq→≡, text_eq_refl, Bool, true, false, ◌||◌, Bool-cases, &&-eq_true, ◌≡◌,
  refl, sym, ◌∙◌, ◌⊎◌, inl, inr, List, [], ◌∷◌, any, Member, All, All-imp, arith,
}
use roborecon.Prelude.Dict.{DistinctKeys}
use roborecon.Service.Links.{LinkDraft, same_key, unseen}

pub same_key→≡ :
    (a b : LinkDraft)
    → same_key a b ≡ true
    → (a.source_type ≡ b.source_type) × (a.source_id ≡ b.source_id)
unfolding same_key
same_key→≡ a b h =
    let (t, i) = &&-eq_true _ _ h in
    (text_eq→≡ a.source_type b.source_type t, ==→≡ a.source_id b.source_id i)

same_key_refl : (a : LinkDraft) → same_key a a ≡ true
unfolding same_key
same_key_refl a = ground (arith, text_eq_refl a.source_type)

same_key_sym : (a b : LinkDraft) → same_key b a ≡ true → same_key a b ≡ true
unfolding same_key
same_key_sym a b h =
    let (t, i) = same_key→≡ b a h in rw (t, i, text_eq_refl a.source_type, ==_refl a.source_id) refl

same_key_comm : (a b : LinkDraft) → same_key a b ≡ false → same_key b a ≡ false
same_key_comm a b h = elim (Bool-cases (same_key b a)) [
  | inr f ↦ f
  | inl t ↦ absurd (false≢true (sym h ∙ same_key_sym a b t))
]

-- No two of the drafts that are kept have the same key, and none has one that was seen.
pub unseen-distinct :
    (seen ds : List LinkDraft)
    → DistinctKeys same_key (λ d. d) (unseen seen ds)
      × All (λ d. any (same_key d) seen ≡ false) (unseen seen ds)
unfolding unseen any
unseen-distinct seen [] = (tt, tt)
unseen-distinct seen (d ∷ ds) = elim (Bool-cases (any (same_key d) seen)) [
  | inl t ↦ rw t (unseen-distinct seen ds)
  | inr f ↦
      let (distinct, fresh) = unseen-distinct (d ∷ seen) ds in
      rw f (
        (
          All-imp (λ e h. same_key_comm e d (first (same_key e d) (any (same_key e) seen) h))
              (unseen (d ∷ seen) ds) fresh,
          distinct,
        ),
        (
          f,
          All-imp (λ e h. second (same_key e d) (any (same_key e) seen) h) (unseen (d ∷ seen) ds)
              fresh,
        ),
      )
]
  where
    first : (a b : Bool) → (a || b) ≡ false → a ≡ false
    first a b h = ground arith

    second : (a b : Bool) → (a || b) ≡ false → b ≡ false
    second a b h = ground arith

pub unseen-Member :
    (d : LinkDraft) (seen ds : List LinkDraft) → Member d (unseen seen ds) → Member d ds
unfolding unseen
unseen-Member d seen [] m = m
unseen-Member d seen (e ∷ ds) m = elim (Bool-cases (any (same_key e) seen)) [
  | inl t ↦ inr (unseen-Member d seen ds (rw (unseen, t) at m))
  | inr f ↦
      let n : (d ≡ e) ⊎ Member d (unseen (e ∷ seen) ds) = rw (unseen, f) at m in
      elim n [ inl h ↦ inl h | inr k ↦ inr (unseen-Member d (e ∷ seen) ds k) ]
]

-- The key of each draft was seen or is kept.
pub unseen-keeps :
    (d : LinkDraft) (seen ds : List LinkDraft)
    → Member d ds
    → (any (same_key d) seen ≡ true)
      ⊎ ((e : LinkDraft) × Member e (unseen seen ds) × (same_key d e ≡ true))
unfolding unseen any
unseen-keeps d seen [] m = absurd m.1
unseen-keeps d seen (e ∷ ds) (inl h) = elim (Bool-cases (any (same_key e) seen)) [
  | inl t ↦ inl (rw h t)
  | inr f ↦ inr (e, rw f (inl refl), rw h (same_key_refl e))
]
unseen-keeps d seen (e ∷ ds) (inr m) = elim (Bool-cases (any (same_key e) seen)) [
  | inl t ↦ rw t (unseen-keeps d seen ds m)
  | inr f ↦ rw f (elim (unseen-keeps d (e ∷ seen) ds m) [
    | inr (x, n, k) ↦ inr (x, inr n, k)
    | inl k ↦ elim (Bool-cases (same_key d e)) [
      | inl t ↦ inr (e, inl refl, t)
      | inr g ↦ inl (rw g at k)
    ]
  ])
]
