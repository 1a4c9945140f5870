-- ===== src/Engine/Similarity.antt =====
-- `SequenceMatcher(None, a, b).ratio()` of difflib, over texts, and fractions for its floats. The
-- source compares a ratio only with decimal constants, which the exact fractions decide alike.
use roborecon.Prelude.{
  ℕ, zero, suc, ◌+◌, ◌-◌, ◌*◌, ◌/◌, ◌≡◌, refl, Text, Bool, true, not, ◌&&◌, [], ◌∷◌, ◌==◌, ltb, leb,
  length, take, drop, if◌then◌else◌,
}
use mathlib.Core.List.{reverse}

-- A fraction of two numbers, the lower one not zero.
pub record Fraction : Type 0 where
  pub upper : ℕ
  pub lower : ℕ

-- `x >= n / d`
unfoldable pub at_least : ℕ → ℕ → Fraction → Bool
at_least n d x = leb (n * x.lower) (d * x.upper)

-- `x < y`
unfoldable pub less : Fraction → Fraction → Bool
less x y = ltb (x.upper * y.lower) (y.upper * x.lower)

occurrences : ℕ → Text → ℕ
occurrences c [] = 0
occurrences c (d ∷ s) = if c == d then occurrences c s + 1 else occurrences c s

-- The autojunk heuristic: in a text of 200 characters or more, a character of more than one per
-- cent of it starts no block.
is_popular : Text → ℕ → Bool
unfolding occurrences
is_popular b c = leb 200 (length b) && ltb (length b / 100 + 1) (occurrences c b)

-- How many pairs at the front are equal and seeds.
run_length : (ℕ → Bool) → Text → Text → ℕ
run_length seed [] b = 0
run_length seed (x ∷ a) [] = 0
run_length seed (x ∷ a) (y ∷ b) = if (x == y) && seed y then suc (run_length seed a b) else 0

-- A block: the two positions where it starts, and its size.
record Block : Type 0 where
  at_a : ℕ
  at_b : ℕ
  size : ℕ

abbrev longer : Block → Block → Block
longer best new = if ltb best.size new.size then new else best

-- The longest run for one position of `a`, the first of its size.
scan_b : (ℕ → Bool) → Text → ℕ → ℕ → Text → Block → Block
scan_b seed a i j [] best = best
scan_b seed a i j (y ∷ b) best =
    scan_b seed a i (suc j) b
      (longer best (record { at_a = i; at_b = j; size = run_length seed a (y ∷ b) }))

scan_a : (ℕ → Bool) → ℕ → Text → Text → Block → Block
scan_a seed i [] b best = best
scan_a seed i (x ∷ a) b best = scan_a seed (suc i) a b (scan_b seed (x ∷ a) i 0 b best)

abbrev any_seed : ℕ → Bool
any_seed c = true

-- The longest run of seeds, extended on both sides by equal characters, seeds or not.
find_longest_match : (ℕ → Bool) → Text → Text → Block
unfolding scan_a scan_b run_length
find_longest_match seed a b =
    let best = scan_a seed 0 a b (record { at_a = 0; at_b = 0; size = 0 }) in
    let back = run_length any_seed (reverse (take best.at_a a)) (reverse (take best.at_b b)) in
    let ahead =
      run_length any_seed (drop (best.at_a + best.size) a) (drop (best.at_b + best.size) b) in
    record { at_a = best.at_a - back; at_b = best.at_b - back; size = back + best.size + ahead }

-- The sum of the sizes of the matching blocks; the fuel bounds how deep the blocks nest.
matched_size : ℕ → (ℕ → Bool) → Text → Text → ℕ
matched_size zero seed a b = 0
matched_size (suc fuel) seed a b =
    let m = find_longest_match seed a b in
    elim m.size [
      | zero ↦ 0
      | suc k ↦
          suc k
          + matched_size fuel seed (take m.at_a a) (take m.at_b b)
          + matched_size fuel seed (drop (m.at_a + suc k) a) (drop (m.at_b + suc k) b)
    ]

-- `ratio()`: 2 * M / T, and 1 for two empty texts
unfoldable pub ratio : Text → Text → Fraction
unfolding matched_size find_longest_match is_popular
ratio a b =
    let total = length a + length b in
    if total == 0 then record { upper = 1; lower = 1 } else record {
      upper = 2 * matched_size (suc (length a)) (λ c. not (is_popular b c)) a b;
      lower = total;
    }

-- the example of difflib's manual: "abcd" and "bcde" have the ratio 0.75
ratio_test :
    ratio (98 ∷ 99 ∷ 100 ∷ 101 ∷ []) (97 ∷ 98 ∷ 99 ∷ 100 ∷ []) ≡ record { upper = 6; lower = 8 }
unfolding ratio take drop
ratio_test = refl
