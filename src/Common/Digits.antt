-- ===== src/Common/Digits.antt =====
-- `u64` in decimal.
use Prim.Native.Nat.{ℕ, zero, suc, ◌+◌, ◌-◌, ◌*◌, ◌/◌, ◌%◌, ◌≤◌, ◌<◌}
use mathlib.Core.Path.{◌≡◌, refl, ◌∙◌}
use mathlib.Core.Logic.{◌⊎◌, inl, inr}
use mathlib.Core.Bool.{true, ◌&&◌}
use mathlib.Core.Option.{Option, none, some}
use mathlib.Core.List.{[], ◌∷◌}
use native.Mathlib.Omega.{arith}
use kohdalab_iv.Common.Tests.{ltb, leb, ◌==◌, if◌then◌else◌, Bool-cases}
use kohdalab_iv.Common.Lists.{all}
use kohdalab_iv.Common.Text.{Text, is_digit}

abbrev pub u64_max : ℕ
u64_max = 18446744073709551615

-- The digits of `n` before `rest`; a `u64` has 20 of them at most.
unfoldable pub show_digits : ℕ → ℕ → Text → Text
show_digits zero n rest = rest
show_digits (suc places) n rest =
    let longer = show_digits places (n / 10) ((b'0' + n % 10) ∷ rest) in
    if ltb n 10 then (b'0' + n) ∷ rest else longer

unfoldable pub show_u64 : ℕ → Text
unfolding show_digits
show_u64 n = show_digits 20 n []

unfoldable pub parse_digits_u64 : ℕ → Text → Option ℕ
parse_digits_u64 n [] = some n
parse_digits_u64 n (c ∷ s) =
    let m = n * 10 + (c - b'0') in
    let rest = parse_digits_u64 m s in if is_digit c && leb m u64_max then rest else none

-- `text.parse::<u64>().ok()`.
unfoldable pub parse_u64 : Text → Option ℕ
unfolding parse_digits_u64
parse_u64 [] = none
parse_u64 (c ∷ []) = parse_digits_u64 0 (c ∷ [])
parse_u64 (c ∷ d ∷ s) =
    if c == b'+' then parse_digits_u64 0 (d ∷ s) else parse_digits_u64 0 (c ∷ d ∷ s)

abbrev HasPlaces : ℕ → ℕ → Type 0
HasPlaces zero n = ⊥
HasPlaces (suc places) n = (n < 10) ⊎ HasPlaces places (n / 10)

parse_digits_u64-show_digits :
    (places n : ℕ) (rest : Text)
    → HasPlaces places n
    → n ≤ u64_max
    → parse_digits_u64 0 (show_digits places n rest) ≡ parse_digits_u64 n rest
unfolding show_digits parse_digits_u64
parse_digits_u64-show_digits zero n rest h le = absurd h
parse_digits_u64-show_digits (suc places) n rest h le = elim (Bool-cases (ltb n 10)) [
  | inl small ↦ rw small (ground arith)
  | inr large ↦ rw large (elim h [
    | inl p ↦ absurd (ground arith)
    | inr p ↦
        parse_digits_u64-show_digits places (n / 10) ((b'0' + n % 10) ∷ rest) p (omega arith)
        ∙ ground arith
  ])
]

-- A text of digits is not empty and has no sign.
abbrev pub IsDigits : Text → Type 0
IsDigits [] = ⊥
IsDigits (c ∷ s) = (b'0' ≤ c) × (c ≤ b'9')

show_digits-IsDigits :
    (places n : ℕ) (rest : Text) → HasPlaces places n → IsDigits (show_digits places n rest)
unfolding show_digits
show_digits-IsDigits zero n rest h = absurd h
show_digits-IsDigits (suc places) n rest h = elim (Bool-cases (ltb n 10)) [
  | inl small ↦ rw small (ground arith, ground arith)
  | inr large ↦ rw large (elim h [
    | inl p ↦ absurd (ground arith)
    | inr p ↦ show_digits-IsDigits places (n / 10) ((b'0' + n % 10) ∷ rest) p
  ])
]

parse_u64-eq : (s : Text) → IsDigits s → parse_u64 s ≡ parse_digits_u64 0 s
unfolding parse_u64
parse_u64-eq [] h = absurd h
parse_u64-eq (c ∷ []) h = refl
parse_u64-eq (c ∷ d ∷ s) h = ground arith

HasPlaces-small : (n : ℕ) → n < 1000000 → HasPlaces 20 n
HasPlaces-small n h = elim (Bool-cases (ltb n 10)) [
  | inl p ↦ inl (ground arith)
  | inr _ ↦ inr (elim (Bool-cases (ltb (n / 10) 10)) [
    | inl p ↦ inl (ground arith)
    | inr _ ↦ inr (elim (Bool-cases (ltb (n / 10 / 10) 10)) [
      | inl p ↦ inl (ground arith)
      | inr _ ↦ inr (elim (Bool-cases (ltb (n / 10 / 10 / 10) 10)) [
        | inl p ↦ inl (ground arith)
        | inr _ ↦ inr (inr (inl (omega arith)))
      ])
    ])
  ])
]

-- A number below a million comes back from its decimal digits.
pub parse_u64-show_u64 : (n : ℕ) → n < 1000000 → parse_u64 (show_u64 n) ≡ some n
unfolding show_u64
parse_u64-show_u64 n h =
    let places = HasPlaces-small n h in
    parse_u64-eq (show_digits 20 n []) (show_digits-IsDigits 20 n [] places)
    ∙ parse_digits_u64-show_digits 20 n [] places (omega arith)
    ∙ unfold parse_digits_u64 in refl

pub show_u64-IsDigits : (n : ℕ) → n < 1000000 → IsDigits (show_u64 n)
unfolding show_u64
show_u64-IsDigits n h = show_digits-IsDigits 20 n [] (HasPlaces-small n h)

show_digits-all :
    (places n : ℕ) (rest : Text)
    → all is_digit rest ≡ true
    → all is_digit (show_digits places n rest) ≡ true
unfolding show_digits all
show_digits-all zero n rest h = h
show_digits-all (suc places) n rest h =
    ground (arith, show_digits-all places (n / 10) ((b'0' + n % 10) ∷ rest))

pub show_u64-all : (n : ℕ) → all is_digit (show_u64 n) ≡ true
unfolding show_u64 all
show_u64-all n = show_digits-all 20 n [] refl
