-- ===== src/Plan/Lattice.antt =====
-- The common grid of two voltage sources, `split_increment` of crates/iv-core/src/lib.rs: the least
-- increment of a voltage whose parts, in a given ratio, are on the grids of both sources. An `i128`
-- is a natural number below 2^127, since the resolutions are positive; the operations of
-- `rust_decimal::Decimal` on the result are the parameter Quotients.
pub mod Divisors
pub mod Split
use kohdalab_iv.Common.Results.{◌>>=◌, ◌>>◌}
use kohdalab_iv.Common.{
  ℕ, zero, suc, ◌+◌, ◌-◌, ◌*◌, ◌/◌, ◌%◌, ◌^◌, max, Bool, false, Option, none, some, Result, ok, err,
  if◌then◌else◌, require, ltb, ok_or,
}

pub data SplitError : Type 0 where
  scale_too_large scale_overflow resolution_overflow ratio_too_large not_representable inexact :
      SplitError
  -- The panic of a division by zero.
  division_by_zero : SplitError

-- `mantissa()` and `scale()` of a positive decimal.
pub record Resolution : Type 0 where
  pub mantissa : ℕ
  pub scale : ℕ

-- The operations of `Decimal` on the increment.
pub record Quotients (N : Type 0) : Type 0 where
  -- `try_from_i128_with_scale(.., 0)`.
  pub from_integer : ℕ → Option N
  pub checked_div : N → N → Option N
  pub checked_mul : N → N → Option N
  pub eq : N → N → Bool
  pub normalize : N → N

-- The loop of `gcd_i128`, for `fuel` rounds.
unfoldable pub euclid : ℕ → ℕ → ℕ → ℕ
euclid zero left right = left
euclid (suc fuel) left zero = left
euclid (suc fuel) left (suc right) = euclid fuel (suc right) (left % suc right)

-- Each round makes the second number smaller.
unfoldable pub gcd : ℕ → ℕ → ℕ
gcd left right = euclid (suc right) left right

-- A checked operation with this result.
unfoldable pub fits : SplitError → ℕ → Result ℕ SplitError
fits e n = if ltb n (2 ^ 127) then ok n else err e

unfoldable pub divide_both : ℕ → ℕ → ℕ → Result (ℕ × ℕ) SplitError
divide_both n d zero = err division_by_zero
divide_both n d (suc divisor) = ok (n / suc divisor, d / suc divisor)

unfoldable pub divide : ℕ → ℕ → Result ℕ SplitError
divide n zero = err resolution_overflow
divide n (suc divisor) = ok (n / suc divisor)

-- `fraction`, with `10 ^ scale` as the denominator.
unfoldable pub fraction : ℕ → ℕ → ℕ → Resolution → ℕ → Result (ℕ × ℕ) SplitError
fraction scale denominator total r part = do
  power ← fits scale_overflow (10 ^ (scale - r.scale))
  scaled ← fits resolution_overflow (r.mantissa * power)
  n ← fits resolution_overflow (scaled * total)
  d ← fits ratio_too_large (denominator * part)
  divide_both n d (gcd n d)

-- The least common multiple of two fractions in lowest terms.
unfoldable pub common_multiple : ℕ × ℕ → ℕ × ℕ → Result (ℕ × ℕ) SplitError
common_multiple (a, b) (c, d) = do
  quotient ← divide a (gcd a c)
  n ← fits resolution_overflow (quotient * c)
  ok (n, gcd b d)

-- The increment as a fraction.
unfoldable pub lattice : Resolution → Resolution → ℕ × ℕ → Result (ℕ × ℕ) SplitError
lattice first second (part, other_part) = do
  denominator ← fits scale_too_large (10 ^ max first.scale second.scale)
  left ← fraction (max first.scale second.scale) denominator (part + other_part) first part
  right ←
      fraction (max first.scale second.scale) denominator (part + other_part) second
        (part + other_part - part)
  common_multiple left right

module _ {N : Type 0} (q : Quotients N) where
  -- `increment.checked_mul(d) != Some(n)`.
  unfoldable pub is_exact : N → N → N → Bool
  is_exact increment d n = elim (q.checked_mul increment d) [ none ↦ false | some v ↦ q.eq v n ]

  unfoldable pub quotient_of : ℕ → ℕ → Result N SplitError
  quotient_of numerator denominator = do
    n ← ok_or resolution_overflow (q.from_integer numerator)
    d ← ok_or resolution_overflow (q.from_integer denominator)
    increment ← ok_or not_representable (q.checked_div n d)
    require (is_exact increment d n) inexact
    ok (q.normalize increment)

  unfoldable pub split_increment : Resolution → Resolution → ℕ × ℕ → Result N SplitError
  split_increment first second ratio = do
    fraction ← lattice first second ratio
    quotient_of fraction.0 fraction.1

  -- The part of a voltage that a source gets.
  unfoldable pub scaled_decimal : N → N → N → Result N SplitError
  scaled_decimal value part total = do
    product ← ok_or not_representable (q.checked_mul value part)
    divided ← ok_or not_representable (q.checked_div product total)
    require (is_exact divided total product) inexact
    ok divided
