-- ===== src/Razorpay/Pages.antt =====
-- Fetching a collection from a provider that pages a list.
use mathlib.Core.List.{append_assoc}
use roborecon.Prelude.{
  ℕ, zero, suc, ◌+◌, ◌-◌, ◌*◌, ◌<◌, ◌≤◌, min, ltb, ◌==◌, ==_refl, true, false, Bool-cases, ◌≡◌,
  refl, sym, ap, ◌∙◌, ◌⊎◌, Option, some, List, [], ◌++◌, inl, inr, length, length-take, length-drop,
  take, drop, if◌then◌else◌, arith,
}
use roborecon.Prelude.Slices.{take-short, take-append-drop, drop-drop}
use roborecon.Prelude.Result.{ok, err}
use roborecon.Razorpay.{
  Collection, page_limit, page_size_of, max_pages_of, fetch_page, fetch_pages, fetch_collection,
}

lt→ltb : (a b : ℕ) → a < b → ltb a b ≡ true
lt→ltb a b h = ground arith

ge→ltb : (a b : ℕ) → b ≤ a → ltb a b ≡ false
ge→ltb a b h = ground arith

module _ {A : Type 0} (answer : ℕ → ℕ → Option (Collection A)) (page_size : ℕ)
    (positive : 0 < page_size) (all : List A)
    (paged : (count skip : ℕ)
      → answer count skip
        ≡ some (record {
          count = length (take count (drop skip all));
          items = take count (drop skip all);
        })) where
  fetch_page-paged :
      (skip : ℕ) → fetch_page answer page_size skip ≡ ok (take page_size (drop skip all))
  unfolding fetch_page
  fetch_page-paged skip =
      rw (paged page_size skip, ==_refl (length (take page_size (drop skip all)))) refl

  page_at : ℕ → List A
  page_at skip = take page_size (drop skip all)

  page-length : (skip : ℕ) → length (page_at skip) ≡ min page_size (length all - skip)
  unfolding page_at
  page-length skip =
      length-take page_size (drop skip all) ∙ ap (min page_size) (length-drop skip all)

  -- a short page is the last one
  fetch_pages-short :
      (pages skip : ℕ) (items : List A)
      → length all < skip + page_size
      → fetch_pages answer page_size (suc pages) skip items ≡ ok (items ++ drop skip all)
  unfolding fetch_pages page_at
  fetch_pages-short pages skip items h =
      let short : ltb (length (page_at skip)) page_size ≡ true =
        lt→ltb _ _ (omega (arith, page-length skip, h, positive)) in
      let whole = take-short page_size (drop skip all) (omega (arith, length-drop skip all, h)) in
      rw (fetch_page-paged skip, short) (ap (λ ys. ok (items ++ ys)) whole)

  -- after a full page the loop goes on, or fails on the last page
  fetch_pages-full :
      (pages skip : ℕ) (items : List A)
      → skip + page_size ≤ length all
      → fetch_pages answer page_size (suc pages) skip items ≡ (
          if pages == 0
          then err page_limit
          else fetch_pages answer page_size pages (skip + page_size) (items ++ page_at skip))
  unfolding fetch_pages page_at
  fetch_pages-full pages skip items h =
      let size : length (page_at skip) ≡ page_size = omega (arith, page-length skip, h) in
      let long : ltb (length (page_at skip)) page_size ≡ false = ge→ltb _ _ (omega (arith, size)) in
      rw (fetch_page-paged skip, long, size) refl

  fetch_pages-next :
      (pages skip : ℕ) (items : List A)
      → skip + page_size ≤ length all
      → fetch_pages answer page_size (suc (suc pages)) skip items
        ≡ fetch_pages answer page_size (suc pages) (skip + page_size) (items ++ page_at skip)
  fetch_pages-next pages skip items h =
      fetch_pages-full (suc pages) skip items h ∙ rw (more pages) refl
    where
      more : (n : ℕ) → (suc n == 0) ≡ false
      more n = ground arith

  -- the list is read from `skip` on
  rest-page :
      (skip : ℕ) (items : List A)
      → items ++ page_at skip ++ drop (skip + page_size) all ≡ items ++ drop skip all
  unfolding page_at
  rest-page skip items =
      append_assoc items (take page_size (drop skip all)) (drop (skip + page_size) all)
      ∙ ap (λ ys. items ++ (take page_size (drop skip all) ++ ys))
          (sym (drop-drop skip page_size all))
      ∙ ap (λ ys. items ++ ys) (take-append-drop page_size (drop skip all))

  fetch_pages-fits :
      (pages skip : ℕ) (items : List A)
      → length all < skip + page_size * suc pages
      → fetch_pages answer page_size (suc pages) skip items ≡ ok (items ++ drop skip all)
  fetch_pages-fits zero skip items h = fetch_pages-short zero skip items (omega (arith, h))
  fetch_pages-fits (suc pages) skip items h =
      elim (Bool-cases (ltb (length all) (skip + page_size))) [
        | inl t ↦ fetch_pages-short (suc pages) skip items (ground (arith, t))
        | inr f ↦
            fetch_pages-next pages skip items (ground (arith, f))
            ∙ fetch_pages-fits pages (skip + page_size) (items ++ page_at skip) (omega (arith, h))
            ∙ ap (λ ys. ok ys) (rest-page skip items)
      ]

  fetch_pages-exceeds :
      (pages skip : ℕ) (items : List A)
      → skip + page_size * suc pages ≤ length all
      → fetch_pages answer page_size (suc pages) skip items ≡ err page_limit
  fetch_pages-exceeds zero skip items h = fetch_pages-full zero skip items (omega (arith, h))
  fetch_pages-exceeds (suc pages) skip items h =
      fetch_pages-next pages skip items (omega (arith, h))
      ∙ fetch_pages-exceeds pages (skip + page_size) (items ++ page_at skip) (omega (arith, h))

  fetch_collection-cases :
      (max_pages : ℕ)
      → 0 < max_pages
      → ((length all < page_size * max_pages)
          × (fetch_collection answer page_size max_pages ≡ ok all))
        ⊎ ((page_size * max_pages ≤ length all)
            × (fetch_collection answer page_size max_pages ≡ err page_limit))
  unfolding fetch_collection drop
  fetch_collection-cases zero h = absurd (omega (arith, h))
  fetch_collection-cases (suc pages) h =
      elim (Bool-cases (ltb (length all) (page_size * suc pages))) [
        | inl t ↦
            let fits : length all < page_size * suc pages = ground (arith, t) in
            inl (fits, fetch_pages-fits pages 0 [] (omega (arith, fits)))
        | inr f ↦
            let exceeds : page_size * suc pages ≤ length all = ground (arith, f) in
            inr (exceeds, fetch_pages-exceeds pages 0 [] (omega (arith, exceeds)))
      ]

-- If the provider pages a list, then for each configured page size and number of pages, fetching the
-- collection returns the whole list if the list is smaller than the pages that may be read, and
-- otherwise fails with the page limit: it never returns a part of the list.
pub fetch_collection-whole :
    {A : Type 0} (answer : ℕ → ℕ → Option (Collection A)) (all : List A)
    (paged : (count skip : ℕ)
      → answer count skip
        ≡ some (record {
          count = length (take count (drop skip all));
          items = take count (drop skip all);
        }))
    (page_size max_pages : ℕ)
    → let size = page_size_of page_size in
      let pages = max_pages_of max_pages in
      ((length all < size * pages) × (fetch_collection answer size pages ≡ ok all))
      ⊎ ((size * pages ≤ length all) × (fetch_collection answer size pages ≡ err page_limit))
fetch_collection-whole answer all paged page_size max_pages =
    fetch_collection-cases answer (page_size_of page_size) (omega arith) all paged
      (max_pages_of max_pages) (omega arith)
