-- ===== src/Razorpay.antt =====
-- `_fetch_collection` of apps/api/app/razorpay/adapter.py. The provider is a parameter: what it answers
-- to a request for `count` items from `skip` on, if the answer is a valid collection.
pub mod Pages
use roborecon.Prelude.{
  ℕ, zero, suc, ◌+◌, ltb, ◌==◌, min, max, Bool, not, Option, none, some, List, [], ◌∷◌, ◌++◌,
  length, if◌then◌else◌,
}
use roborecon.Prelude.Result.{Result, ok, err, ◌>>=◌, ◌>>◌, guard, require}

-- a validated `_Collection`
pub record Collection (A : Type 0) : Type 0 where
  pub count : ℕ
  pub items : List A

-- the messages of `RazorpayAdapterError`
pub data AdapterError : Type 0 where
  invalid_response invalid_count page_limit : AdapterError

-- the bounds of the constructor
abbrev pub page_size_of : ℕ → ℕ
page_size_of page_size = min (max page_size 1) 100

abbrev pub max_pages_of : ℕ → ℕ
max_pages_of max_pages = min (max max_pages 1) 50

module _ {A : Type 0} (answer : ℕ → ℕ → Option (Collection A)) (page_size : ℕ) where
  -- one request: the items of the page
  unfoldable pub fetch_page : ℕ → Result AdapterError (List A)
  fetch_page skip = do
    collection ← require (answer page_size skip) invalid_response
    guard (collection.count == length collection.items) invalid_count
    ok collection.items

  -- the loop, with the pages that are left
  unfoldable pub fetch_pages : ℕ → ℕ → List A → Result AdapterError (List A)
  unfolding fetch_page
  fetch_pages zero skip items = ok items
  fetch_pages (suc pages) skip items = do
    page ← fetch_page skip
    let rest = fetch_pages pages (skip + length page) (items ++ page)
    if ltb (length page) page_size
        then ok (items ++ page)
        else if pages == 0
        then err page_limit
        else rest

  -- `_fetch_collection`
  unfoldable pub fetch_collection : ℕ → Result AdapterError (List A)
  unfolding fetch_pages
  fetch_collection max_pages = fetch_pages max_pages 0 []
