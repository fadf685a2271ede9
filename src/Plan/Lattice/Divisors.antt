-- ===== src/Plan/Lattice/Divisors.antt =====
-- The loop of `gcd_i128` in crates/iv-core/src/lib.rs.
use Prim.Native.Nat.{◌∣◌}
use native.Mathlib.Nat
use kohdalab_iv.Common.{ℕ, zero, suc, ◌*◌, ◌/◌, ◌%◌, ◌<◌, refl, sym, subst, arith}
use kohdalab_iv.Plan.Lattice.{euclid, gcd}

pub euclid-dvd :
    (fuel left right : ℕ)
    → right < fuel
    → (euclid fuel left right ∣ left) × (euclid fuel left right ∣ right)
unfolding euclid
euclid-dvd zero left right few = absurd (omega arith)
euclid-dvd (suc fuel) left zero few = (Nat.dvd_refl left, Nat.dvd-zero left)
euclid-dvd (suc fuel) left (suc right) few =
    let (before, rest) = euclid-dvd fuel (suc right) (left % suc right) (omega arith) in
    ((Nat.dvd-mod_iff _ before).0 rest, before)

-- The greatest common divisor divides both numbers.
pub gcd-dvd : (left right : ℕ) → (gcd left right ∣ left) × (gcd left right ∣ right)
unfolding gcd
gcd-dvd left right = euclid-dvd (suc right) left right (omega arith)

remainder-dvd : (k c left right : ℕ) → k ∣ left * c → k ∣ right * c → k ∣ left % right * c
remainder-dvd k c left right hl hr =
    (Nat.dvd-add_iff_right k (Nat.dvd-mul_left_of_dvd k hr (left / right))).1 (
      subst (◌∣◌ k)
        (sym (
          rw
            (
              ← Nat.mul_assoc (left / right) right c,
              ← Nat.add-mul,
              Nat.mul_comm (left / right) right,
              Nat.div-add-mod,
            )
            refl))
        hl)

pub dvd-euclid :
    (k c fuel left right : ℕ) → k ∣ left * c → k ∣ right * c → k ∣ euclid fuel left right * c
unfolding euclid
dvd-euclid k c zero left right hl hr = hl
dvd-euclid k c (suc fuel) left zero hl hr = hl
dvd-euclid k c (suc fuel) left (suc right) hl hr =
    dvd-euclid k c fuel (suc right) (left % suc right) hr (remainder-dvd k c left (suc right) hl hr)

-- What divides the same multiple of two numbers divides this multiple of their greatest common
-- divisor.
pub dvd-gcd : (k c left right : ℕ) → k ∣ left * c → k ∣ right * c → k ∣ gcd left right * c
unfolding gcd
dvd-gcd k c left right hl hr = dvd-euclid k c (suc right) left right hl hr
