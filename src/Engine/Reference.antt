-- ===== src/Engine/Reference.antt =====
-- References of engine.py. What Python's Unicode tables say of a code point is a parameter.
use roborecon.Prelude.{
  ℕ, Text, text_eq, Bool, not, ◌&&◌, [], ◌∷◌, ◌++◌, filter, is_empty, if◌then◌else◌,
}
use mathlib.Core.List.{reverse}

-- `str.upper` of one character, `str.isalnum`, the whitespace of `str.strip` and the `\d` of `re`
pub record CharTables : Type 0 where
  pub upper : ℕ → Text
  pub is_alnum : ℕ → Bool
  pub is_space : ℕ → Bool
  pub is_digit : ℕ → Bool

pub drop_while : (ℕ → Bool) → Text → Text
drop_while p [] = []
drop_while p (c ∷ s) = if p c then drop_while p s else c ∷ s

-- `s.strip()`
pub strip : (ℕ → Bool) → Text → Text
unfolding drop_while
strip p s = reverse (drop_while p (reverse (drop_while p s)))

-- `s.upper()`
pub upper_all : (ℕ → Text) → Text → Text
upper_all upper [] = []
upper_all upper (c ∷ s) = upper c ++ upper_all upper s

module _ (tables : CharTables) where
  open tables use {upper, is_alnum, is_space, is_digit}

  unfoldable pub normalize_reference : Text → Text
  unfolding strip upper_all filter
  normalize_reference value = filter is_alnum (upper_all upper (strip is_space value))

  -- `"".join(re.findall(r"\d+", s))`
  unfoldable pub digits_of : Text → Text
  unfolding filter
  digits_of s = filter is_digit s

  -- `re.sub(r"\d+", "", s)`
  unfoldable pub without_digits : Text → Text
  unfolding filter
  without_digits s = filter (λ c. not (is_digit c)) s

  unfoldable pub same_reference : Text → Text → Bool
  same_reference left right =
      let normalized_left = normalize_reference left in
      not (is_empty normalized_left) && text_eq normalized_left (normalize_reference right)
