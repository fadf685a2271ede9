-- ===== src/Examples/PlanExamples.antt =====
-- The theorems on the sweep planner and on the instruments' replies at concrete inputs.
use kohdalab_iv.Plan.Lattice.{
  Resolution, lattice, fraction, fits, divide_both, gcd, euclid, common_multiple, divide,
}
use kohdalab_iv.Plan.Lattice.Split.{IsMultiple, OnGrid, lattice-OnGrid}
use kohdalab_iv.Common.{
  ◌↔◌, ok, ℕ, ◌+◌, ◌-◌, ◌*◌, ◌≤◌, ◌≡◌, refl, Bool, true, some, arith, ltb, ◌==◌, if◌then◌else◌,
}
use kohdalab_iv.Common.Text.{Text, text_of, uppercase, contains}
use kohdalab_iv.Plan.Decimal.{Decimal, IsGrid}
use kohdalab_iv.Plan.Sweep.{forward_points}
use kohdalab_iv.Plan.Sweep.Range.{Gives, climb, forward_points_up}
use kohdalab_iv.Transport.Replies.{
  numeric_reading, is_overload, skip_header, find_start, number_token, take_digits, take_sign,
  take_exponent, take_fraction,
}

-- Steps from minus to plus two million; the number `a` stands for `a - 2000000`.
abbrev centre : ℕ
centre = 2000000

abbrev steps : Decimal ℕ
steps = record {
  zero = centre;
  add = λ a b. a + b - centre;
  sub = λ a b. a + centre - b;
  neg = λ a. 2 * centre - a;
  abs = λ a. if ltb a centre then 2 * centre - a else a;
  lt = ltb;
  eq = ◌==◌;
  is_sign_negative = λ a. ltb a centre;
}

abbrev On : ℕ → Type 0
On a = a ≤ 2 * centre

abbrev place : ℕ → ℕ
place a = a

steps-IsGrid : IsGrid steps On place centre
steps-IsGrid = record {
  place_bounded = λ a on. on;
  zero_on = omega arith;
  zero_place = refl;
  add_on = λ a b oa ob lo hi. omega arith;
  add_place = λ a b oa ob lo hi. omega arith;
  sub_on = λ a b oa ob lo hi. omega arith;
  sub_place = λ a b oa ob lo hi. omega arith;
  neg_on = λ a oa. omega arith;
  neg_place = λ a oa. omega arith;
  abs_on = λ a oa. ground arith;
  abs_place_above = λ a oa le. ground arith;
  abs_place_below = λ a oa le. ground arith;
  lt_place = λ a b oa ob. refl;
  eq_place = λ a b oa ob. refl;
  negative_place = λ a oa. refl;
}

-- From -3 to 4 in steps of 3, though the step is given as -3.
forward_points_up_example :
    Gives steps-IsGrid (forward_points steps 1999997 2000004 1999997) (climb 3 1999997 3 2000004)
forward_points_up_example =
    forward_points_up steps-IsGrid 1999997 2000004 1999997 3 3 (omega arith) (omega arith)
      (omega arith) refl (omega arith) (omega arith) (omega arith) (omega arith, omega arith)
      (omega arith)

abbrev header_reply : Text
header_reply = text_of "F1R4S+1.25E-3\r\n"

abbrev any_size : Text → Bool
any_size token = true

read_there : numeric_reading any_size header_reply ≡ some (text_of "+1.25E-3")
unfolding numeric_reading is_overload contains uppercase find_start skip_header number_token
    take_digits take_sign take_exponent take_fraction
read_there = refl

-- Sources with resolutions of 0.1 mV and 0.02 mV, and a voltage that is divided in the ratio 3 : 7.
abbrev coarse : Resolution
coarse = record { mantissa = 1; scale = 4 }

abbrev fine : Resolution
fine = record { mantissa = 2; scale = 5 }

-- The increment is 1 mV.
lattice_found : lattice coarse fine (3, 7) ≡ ok (1, 1000)
unfolding lattice fraction fits divide_both gcd euclid common_multiple divide
lattice_found = refl

lowest : gcd 1 10 ≡ 1
unfolding gcd euclid
lowest = refl

lattice-OnGrid_example :
    IsMultiple 1 1000 1 10 ↔ (OnGrid 5 10 coarse 3 1 10 × OnGrid 5 10 fine 7 1 10)
lattice-OnGrid_example = lattice-OnGrid coarse fine 3 7 1 1000 1 10 lattice_found lowest
