-- ===== src/Plan/Lattice/Split.antt =====
-- What `split_increment` of crates/iv-core/src/lib.rs computes: the voltages that it divides between
-- two sources are exactly the multiples of the increment.
use Prim.Native.Nat.{◌∣◌}
use native.Mathlib.Nat
use kohdalab_iv.Common.Results.{and_then}
use kohdalab_iv.Common.{
  ℕ, zero, suc, ◌+◌, ◌-◌, ◌*◌, ◌/◌, ◌^◌, max, ◌<◌, ◌≡◌, ◌↔◌, refl, sym, ap, ◌∙◌, subst, arith,
  Result, ok, err, Bool-cases, inl, inr, ltb,
}
use kohdalab_iv.Plan.Lattice.{
  SplitError, Resolution, gcd, fits, divide_both, divide, fraction, common_multiple, lattice,
}
use kohdalab_iv.Plan.Lattice.Divisors.{gcd-dvd, dvd-gcd}

and_then-ok :
    {A B E : Type 0} (r : Result A E) (f : A → Result B E) (b : B)
    → and_then r f ≡ ok b
    → (a : A) × (r ≡ ok a) × (f a ≡ ok b)
and_then-ok (ok a) f b h = (a, refl, h)
and_then-ok (err e) f b h = absurd (ground (arith, h))

ok-eq : {A E : Type 0} (x y : A) → ◌≡◌ {A = Result A E} (ok x) (ok y) → x ≡ y
ok-eq x y h = ground (arith, h)

fits-ok : (e : SplitError) (n m : ℕ) → fits e n ≡ ok m → n ≡ m
unfolding fits
fits-ok e n m h = elim (Bool-cases (ltb n (2 ^ 127))) [
  | inl small ↦ ground (arith, small, h)
  | inr large ↦ absurd (ground (arith, large, h))
]

-- What divides two numbers divides their greatest common divisor.
dvd_of_both : (k n d : ℕ) → k ∣ n → k ∣ d → k ∣ gcd n d
dvd_of_both k n d hn hd =
    subst (◌∣◌ k) (Nat.mul-one (gcd n d))
      (dvd-gcd k 1 n d (Nat.dvd-mul_right_of_dvd k hn 1) (Nat.dvd-mul_right_of_dvd k hd 1))

-- What divides a multiple of one of two numbers without a common divisor, and the same multiple of
-- the other, divides the factor.
dvd_of_coprime : (k c n d : ℕ) → gcd n d ≡ 1 → k ∣ n * c → k ∣ d * c → k ∣ c
dvd_of_coprime k c n d q hn hd =
    subst (◌∣◌ k) (ap (λ v. v * c) q ∙ Nat.one-mul c) (dvd-gcd k c n d hn hd)

scale_back : (k g v : ℕ) → g ∣ v → k ∣ v / g → k * g ∣ v
scale_back k g v hg hk =
    subst (◌∣◌ (k * g)) (Nat.div-mul_cancel g hg) (Nat.mul-dvd-mul_right k hk g)

-- Divided by their greatest common divisor, two numbers have no common divisor but one.
gcd-div : (n d g : ℕ) → gcd n d ≡ g → 0 < g → gcd (n / g) (d / g) ≡ 1
gcd-div n d g q positive =
    let r = gcd (n / g) (d / g) in
    let below_n =
      scale_back r g n (subst (λ v. v ∣ n) q (gcd-dvd n d).0) (gcd-dvd (n / g) (d / g)).0 in
    let below_d =
      scale_back r g d (subst (λ v. v ∣ d) q (gcd-dvd n d).1) (gcd-dvd (n / g) (d / g)).1 in
    Nat.eq-one_of_dvd-one (
      Nat.dvd_of_mul-dvd-mul_right {k = g} r positive
        (subst (◌∣◌ (r * g)) (q ∙ sym (Nat.one-mul g)) (dvd_of_both (r * g) n d below_n below_d)))

-- The fraction `a / b` is `n / d` in lowest terms.
record Lowest (n d a b : ℕ) : Type 0 where
  divisor : ℕ
  positive : 0 < divisor
  over : divisor * a ≡ n
  under : divisor * b ≡ d
  reduced : gcd a b ≡ 1

divide_both-Lowest : (n d g a b : ℕ) → gcd n d ≡ g → divide_both n d g ≡ ok (a, b) → Lowest n d a b
unfolding divide_both
divide_both-Lowest n d zero a b q h = absurd (ground (arith, h))
divide_both-Lowest n d (suc g) a b q h =
    let left : n / suc g ≡ a = ground (arith, h) in
    let right : d / suc g ≡ b = ground (arith, h) in
    record {
      divisor = suc g;
      positive = omega arith;
      over =
          ap (λ v. suc g * v) (sym left)
          ∙ Nat.mul-div_cancel' (suc g) (subst (λ v. v ∣ n) q (gcd-dvd n d).0);
      under =
          ap (λ v. suc g * v) (sym right)
          ∙ Nat.mul-div_cancel' (suc g) (subst (λ v. v ∣ d) q (gcd-dvd n d).1);
      reduced = rw (← left, ← right) (gcd-div n d (suc g) q (omega arith));
    }

-- The voltage `m / e` is a multiple of the fraction `n / d`.
abbrev pub IsMultiple : ℕ → ℕ → ℕ → ℕ → Type 0
IsMultiple n d m e = n * e ∣ m * d

dvd_eq : {x x' y y' : ℕ} → x ≡ x' → y ≡ y' → x ∣ y → x' ∣ y'
dvd_eq {x' = x'} {y = y} p q h = subst (◌∣◌ x') q (subst (λ v. v ∣ y) p h)

-- A fraction has the same multiples in lowest terms.
Lowest-IsMultiple :
    {n d a b : ℕ} (m e : ℕ) → Lowest n d a b → IsMultiple n d m e ↔ IsMultiple a b m e
Lowest-IsMultiple {n} {d} {a} {b} m e f =
    let top : n * e ≡ f.divisor * (a * e) =
      ap (λ v. v * e) (sym f.over) ∙ Nat.mul_assoc f.divisor a e in
    let bottom : m * d ≡ f.divisor * (m * b) =
      ap (λ v. m * v) (sym f.under) ∙ Nat.mul_left_comm m f.divisor b in
    (
      λ h. Nat.dvd_of_mul-dvd-mul_left {k = f.divisor} (a * e) f.positive (dvd_eq top bottom h),
      λ h. dvd_eq (sym top) (sym bottom) (Nat.mul-dvd-mul_left (a * e) f.divisor h),
    )

over_divides : (a b m e : ℕ) → gcd a b ≡ 1 → IsMultiple a b m e → a ∣ m
over_divides a b m e q h =
    dvd_of_coprime a m a b q (Nat.dvd-mul_right a m)
      (subst (◌∣◌ a) (Nat.mul_comm m b) (Nat.dvd_trans a (Nat.dvd-mul_right a e) h))

under_divides : (a b m e : ℕ) → gcd m e ≡ 1 → IsMultiple a b m e → e ∣ b
under_divides a b m e q h =
    dvd_of_coprime e b m e q (Nat.dvd_trans e (Nat.dvd-mul_left e a) h) (Nat.dvd-mul_right e b)

-- `n` is the least common multiple of `a` and `c`.
record Least (a c n : ℕ) : Type 0 where
  first : a ∣ n
  second : c ∣ n
  least : (m : ℕ) → a ∣ m → c ∣ m → n ∣ m

gcd-Least : (a c g : ℕ) → gcd a c ≡ g → 0 < g → Least a c (a / g * c)
gcd-Least a c g q positive =
    let on_a : g ∣ a = subst (λ v. v ∣ a) q (gcd-dvd a c).0 in
    let on_c : g ∣ c = subst (λ v. v ∣ c) q (gcd-dvd a c).1 in
    let turned : a * (c / g) ≡ a / g * c =
      ap (λ v. v * (c / g)) (sym (Nat.div-mul_cancel g on_a))
      ∙ Nat.mul_assoc (a / g) g (c / g)
      ∙ ap (λ v. a / g * v) (Nat.mul-div_cancel' g on_c) in
    let product : a * c ≡ g * (a / g * c) =
      ap (λ v. v * c) (sym (Nat.mul-div_cancel' g on_a)) ∙ Nat.mul_assoc g (a / g) c in
    record {
      first = subst (◌∣◌ a) turned (Nat.dvd-mul_right a (c / g));
      second = Nat.dvd-mul_left c (a / g);
      least = λ m ha hc. Nat.dvd_of_mul-dvd-mul_left {k = g} (a / g * c) positive (
          dvd_eq product (ap (λ v. v * m) q) (
            dvd-gcd (a * c) m a c (Nat.mul-dvd-mul_left c a hc)
              (dvd_eq (Nat.mul_comm c a) refl (Nat.mul-dvd-mul_left a c ha))));
    }

divide-Least : (a c g k : ℕ) → gcd a c ≡ g → divide a g ≡ ok k → Least a c (k * c)
unfolding divide
divide-Least a c zero k q h = absurd (ground (arith, h))
divide-Least a c (suc g) k q h =
    let found : a / suc g ≡ k = ground (arith, h) in
    subst (λ v. Least a c (v * c)) found (gcd-Least a c (suc g) q (omega arith))

-- The multiples of the least common fraction of two are those of both.
Least-IsMultiple :
    (a b c d n m e : ℕ)
    → Least a c n
    → gcd a b ≡ 1
    → gcd c d ≡ 1
    → gcd m e ≡ 1
    → IsMultiple n (gcd b d) m e ↔ (IsMultiple a b m e × IsMultiple c d m e)
Least-IsMultiple a b c d n m e l left right whole =
    let (low_b, low_d) = gcd-dvd b d in
    (
      λ h. (
        Nat.dvd_trans (a * e) (Nat.mul-dvd-mul_right a l.first e)
            (Nat.dvd_trans (n * e) h (Nat.mul-dvd-mul_left (gcd b d) m low_b)),
        Nat.dvd_trans (c * e) (Nat.mul-dvd-mul_right c l.second e)
            (Nat.dvd_trans (n * e) h (Nat.mul-dvd-mul_left (gcd b d) m low_d)),
      ),
      λ h.
          Nat.mul-dvd-mul n e
            (l.least m (over_divides a b m e left h.0) (over_divides c d m e right h.1))
            (dvd_of_both e b d (under_divides a b m e whole h.0) (under_divides c d m e whole h.1)),
    )

-- What `common_multiple` computes.
common_multiple-Least :
    (a b c d n k : ℕ) → common_multiple (a, b) (c, d) ≡ ok (n, k) → Least a c n × (k ≡ gcd b d)
unfolding common_multiple
common_multiple-Least a b c d n k h =
    let (quotient, divided, rest) = and_then-ok (divide a (gcd a c)) _ (n, k) h in
    let (product, small, last) = and_then-ok (fits _ (quotient * c)) _ (n, k) rest in
    let same : quotient * c ≡ n =
      fits-ok _ (quotient * c) product small ∙ ap (λ v. v.0) (ok-eq _ _ last) in
    (
      subst (Least a c) same (divide-Least a c (gcd a c) quotient refl divided),
      sym (ap (λ v. v.1) (ok-eq _ _ last)),
    )

fraction-Lowest :
    (scale denominator total : ℕ) (r : Resolution) (part a b : ℕ)
    → fraction scale denominator total r part ≡ ok (a, b)
    → Lowest (r.mantissa * 10 ^ (scale - r.scale) * total) (denominator * part) a b
unfolding fraction
fraction-Lowest scale denominator total r part a b h =
    let (power, small₁, rest₁) = and_then-ok (fits _ (10 ^ (scale - r.scale))) _ (a, b) h in
    let (scaled, small₂, rest₂) = and_then-ok (fits _ (r.mantissa * power)) _ (a, b) rest₁ in
    let (n, small₃, rest₃) = and_then-ok (fits _ (scaled * total)) _ (a, b) rest₂ in
    let (d, small₄, rest₄) = and_then-ok (fits _ (denominator * part)) _ (a, b) rest₃ in
    let over : n ≡ r.mantissa * 10 ^ (scale - r.scale) * total = sym (
      ap (λ v. r.mantissa * v * total) (fits-ok _ (10 ^ (scale - r.scale)) power small₁)
      ∙ ap (λ v. v * total) (fits-ok _ (r.mantissa * power) scaled small₂)
      ∙ fits-ok _ (scaled * total) n small₃) in
    let under : d ≡ denominator * part = sym (fits-ok _ (denominator * part) d small₄) in
    subst (λ v. Lowest v (denominator * part) a b) over
      (subst (λ v. Lowest n v a b) under (divide_both-Lowest n d (gcd n d) a b refl rest₄))

-- The numerator of the resolution times the sum of the ratio.
abbrev pub numerator : ℕ → ℕ → Resolution → ℕ
numerator scale total r = r.mantissa * 10 ^ (scale - r.scale) * total

-- With the ratio `part / total`, the part of the voltage `m / e` is on the grid of a source, whose
-- resolution has at most `scale` decimals.
abbrev pub OnGrid : ℕ → ℕ → Resolution → ℕ → ℕ → ℕ → Type 0
OnGrid scale total r part m e = IsMultiple (numerator scale total r) (10 ^ scale * part) m e

-- The parts of `lattice`, in lowest terms.
record Reduced (first second : Resolution) (part other n k : ℕ) : Type 0 where
  left : ℕ × ℕ
  right : ℕ × ℕ
  combined : common_multiple left right ≡ ok (n, k)
  on_first :
      Lowest
        (numerator (max first.scale second.scale) (part + other) first)
        (10 ^ max first.scale second.scale * part)
        left.0
        left.1
  on_second :
      Lowest
        (numerator (max first.scale second.scale) (part + other) second)
        (10 ^ max first.scale second.scale * other)
        right.0
        right.1

lattice-Reduced :
    (first second : Resolution) (part other n k : ℕ)
    → lattice first second (part, other) ≡ ok (n, k)
    → Reduced first second part other n k
unfolding lattice
lattice-Reduced first second part other n k h =
    let scale = max first.scale second.scale in
    let (denominator, small, rest) = and_then-ok (fits _ (10 ^ scale)) _ (n, k) h in
    let power : denominator ≡ 10 ^ scale = sym (fits-ok _ (10 ^ scale) denominator small) in
    let (left, found_left, rest₁) =
      and_then-ok (fraction scale denominator (part + other) first part) _ (n, k) rest in
    let (right, found_right, rest₂) =
      and_then-ok (fraction scale denominator (part + other) second (part + other - part)) _ (n, k)
        rest₁ in
    record {
      left = left;
      right = right;
      combined = rest₂;
      on_first =
          subst (λ v. Lowest (numerator scale (part + other) first) (v * part) left.0 left.1) power
            (fraction-Lowest scale denominator (part + other) first part left.0 left.1 found_left);
      on_second =
          subst (λ v. Lowest (numerator scale (part + other) second) (v * other) right.0 right.1)
            power
            (subst
              (λ v.
                Lowest (numerator scale (part + other) second) (denominator * v) right.0 right.1)
              (Nat.add-sub_cancel_left part other)
              (fraction-Lowest scale denominator (part + other) second (part + other - part) right.0
                right.1 found_right));
    }

-- A voltage `m / e` in lowest terms is a multiple of the increment that is found for two sources
-- exactly if its parts, in the ratio of the sources, are on the grids of both.
pub lattice-OnGrid :
    (first second : Resolution) (part other n k m e : ℕ)
    → lattice first second (part, other) ≡ ok (n, k)
    → gcd m e ≡ 1
    → IsMultiple n k m e ↔ (
        OnGrid (max first.scale second.scale) (part + other) first part m e
        × OnGrid (max first.scale second.scale) (part + other) second other m e)
lattice-OnGrid first second part other n k m e h whole =
    let r = lattice-Reduced first second part other n k h in
    let (least, same) =
      common_multiple-Least r.left.0 r.left.1 r.right.0 r.right.1 n k r.combined in
    let both =
      Least-IsMultiple r.left.0 r.left.1 r.right.0 r.right.1 n m e least r.on_first.reduced
        r.on_second.reduced whole in
    let one = Lowest-IsMultiple m e r.on_first in
    let two = Lowest-IsMultiple m e r.on_second in
    rw same (λ q. let (a, b) = both.0 q in (one.1 a, two.1 b), λ q. both.1 (one.0 q.0, two.0 q.1))
