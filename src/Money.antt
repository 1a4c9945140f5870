-- ===== src/Money.antt =====
-- apps/api/app/common/money.py: fees and GST in basis points, rounded half up; a negative argument
-- raises `ValueError`, which is `none`.
use roborecon.Prelude.{
  ℕ, ◌+◌, ◌*◌, ◌/◌, ◌≤◌, ◌<◌, ◌≡◌, refl, Option, none, some, ◌||◌, arith, if◌then◌else◌,
}
use roborecon.Prelude.Int.{ℤ, pos, ltb_ℤ, ◌-ℤ◌, ◌+ℤ◌, pos_part, int_laws}

-- the floor division of a number that is not negative
half_up : ℤ → ℤ → ℕ
half_up amount bps = (pos_part amount * pos_part bps + 5000) / 10000

pub basis_points : ℤ → ℤ → Option ℤ
unfolding half_up
basis_points amount bps =
    if ltb_ℤ amount (pos 0) || ltb_ℤ bps (pos 0) then none else some (pos (half_up amount bps))

pub calculate_fee : ℤ → ℤ → Option ℤ
unfolding basis_points
calculate_fee amount fee_bps = basis_points amount fee_bps

pub calculate_gst : ℤ → ℤ → Option ℤ
unfolding basis_points
calculate_gst fee gst_bps = basis_points fee gst_bps

-- the net amount, the fee and the tax
calculate_net_from : ℤ → ℤ → Option ℤ → Option (ℤ × ℤ × ℤ)
calculate_net_from amount fee none = none
calculate_net_from amount fee (some gst) = some (amount -ℤ fee -ℤ gst, fee, gst)

with_fee : ℤ → ℤ → Option ℤ → Option (ℤ × ℤ × ℤ)
unfolding calculate_net_from calculate_gst
with_fee amount gst_bps none = none
with_fee amount gst_bps (some fee) = calculate_net_from amount fee (calculate_gst fee gst_bps)

unfoldable pub calculate_net : ℤ → ℤ → ℤ → Option (ℤ × ℤ × ℤ)
unfolding with_fee calculate_fee
calculate_net amount fee_bps gst_bps = with_fee amount gst_bps (calculate_fee amount fee_bps)

-- `n` is the integer nearest to `a * b / 10000`, and exactly one half is rounded up.
abbrev pub IsNearest : ℕ → ℕ → ℕ → Type 0
IsNearest n a b = (2 * (a * b) < 20000 * n + 10000) × (20000 * n ≤ 2 * (a * b) + 10000)

-- For an amount and a rate that are not negative `basis_points` returns the nearest integer to
-- amount * bps / 10000: the error is at most one half, and exactly one half rounds up.
pub basis_points_nearest :
    (a b : ℕ)
    → (n : ℕ) × (basis_points (pos a) (pos b) ≡ some (pos n))
      × (2 * (a * b) < 20000 * n + 10000)
      × (20000 * n ≤ 2 * (a * b) + 10000)
unfolding basis_points
basis_points_nearest a b = (half_up (pos a) (pos b), ground arith, omega arith, omega arith)

-- For an amount and rates that are not negative the fee is the nearest integer to the fee rate on the
-- amount, the tax is the nearest integer to the tax rate on that fee, and the net amount, the fee and
-- the tax are together the amount.
pub calculate_net-IsNearest :
    (a fee_bps gst_bps : ℕ)
    → (net : ℤ) × (fee : ℕ) × (gst : ℕ) × (calculate_net (pos a) (pos fee_bps) (pos gst_bps)
        ≡ some (net, pos fee, pos gst))
      × IsNearest fee a fee_bps
      × IsNearest gst fee gst_bps
      × (net +ℤ pos fee +ℤ pos gst ≡ pos a)
unfolding calculate_net with_fee calculate_fee calculate_gst calculate_net_from
calculate_net-IsNearest a fee_bps gst_bps =
    let (fee, rounded_fee, fee_above, fee_below) = basis_points_nearest a fee_bps in
    let (gst, rounded_gst, gst_above, gst_below) = basis_points_nearest fee gst_bps in
    let net = pos a -ℤ pos fee -ℤ pos gst in
    (
      net,
      fee,
      gst,
      rw (rounded_fee, rounded_gst) refl,
      (fee_above, fee_below),
      (gst_above, gst_below),
      net_sum (pos a) (pos fee) (pos gst),
    )
  where
    net_sum : (a b c : ℤ) → a -ℤ b -ℤ c +ℤ b +ℤ c ≡ a
    net_sum a b c = grind int_laws
