-- ===== src/Transport/Replies.antt =====
-- The instruments' replies in crates/iv-transport/src/instruments.rs: status bytes, panel fields and
-- numeric readings, read from texts. Whether a token is a finite number below 1e30 as an `f64` is a
-- parameter.
pub mod Tokens
use Prim.Native.Nat.{bit_and}
use kohdalab_iv.Common.{
  ℕ, ◌≡◌, Bool, true, false, not, ◌&&◌, ◌||◌, Option, none, some, List, [], ◌∷◌, ◌++◌,
  if◌then◌else◌, all, any, ◌==◌, Result, ok, err,
}
use kohdalab_iv.Common.Text.{
  Text, text_of, text_eq, is_digit, uppercase, contains, parse_u8, strip_prefix,
}
use kohdalab_iv.Protocol.{is_whitespace}

unfoldable pub trim_start : Text → Text
unfolding is_whitespace
trim_start [] = []
trim_start (c ∷ s) = if is_whitespace c then trim_start s else c ∷ s

unfoldable pub trim_end : Text → Text
unfolding is_whitespace
trim_end [] = []
trim_end (c ∷ s) = elim (trim_end s) [
  | [] ↦ if is_whitespace c then [] else c ∷ []
  | d ∷ r ↦ c ∷ d ∷ r
]

unfoldable pub trim : Text → Text
unfolding trim_start trim_end
trim s = trim_start (trim_end s)

abbrev pub is_sign : ℕ → Bool
is_sign c = c == b'+' || c == b'-'

unfoldable pub is_number : Text → Bool
unfolding all
is_number [] = false
is_number (c ∷ s) = all is_digit (c ∷ s)

-- The digits at the end of a text, with a sign before them.
unfoldable pub status_token : Text → Option Text
unfolding is_number
status_token [] = none
status_token (c ∷ s) =
    if is_number (c ∷ s) || (is_sign c && is_number s) then some (c ∷ s) else status_token s

unfoldable pub legacy_status : Text → Option ℕ
unfolding status_token trim
legacy_status reply = elim (status_token (trim reply)) [ none ↦ none | some t ↦ parse_u8 t ]

unfoldable pub legacy_output : Text → Option Bool
unfolding legacy_status
legacy_output reply = elim (legacy_status reply) [
  | none ↦ none
  | some n ↦ some (not (bit_and n 16 == 0))
]

-- The longest prefix of digits, and what follows it.
unfoldable pub take_digits : Text → Text × Text
take_digits [] = ([], [])
take_digits (c ∷ s) =
    let (digits, rest) = take_digits s in if is_digit c then (c ∷ digits, rest) else ([], c ∷ s)

-- The digits after the first `key` that a digit follows.
unfoldable pub panel_value : ℕ → Text → Option Text
unfolding take_digits
panel_value key [] = none
panel_value key (c ∷ []) = none
panel_value key (c ∷ x ∷ s) =
    let rest = panel_value key (x ∷ s) in
    if c == key && is_digit x then some (take_digits (x ∷ s)).0 else rest

unfoldable pub starts_with : Text → Text → Bool
starts_with p s = elim (strip_prefix p s) [ none ↦ false | some r ↦ true ]

unfoldable pub is_overload : Text → Bool
unfolding starts_with
is_overload upper = contains (text_of "OVER") upper || starts_with (text_of "OV") upper

-- What follows the first `S`, or the whole text.
unfoldable pub after_s : Text → Option Text
after_s [] = none
after_s (c ∷ s) = if c == b'S' then some s else after_s s

unfoldable pub skip_header : Text → Text
unfolding starts_with after_s
skip_header s =
    if starts_with (text_of "F") s && contains (text_of "R") s
    then elim (after_s s) [ none ↦ s | some r ↦ r ]
    else s

unfoldable pub find_start : Text → Option Text
find_start [] = none
find_start (c ∷ s) = if is_digit c || is_sign c || c == b'.' then some (c ∷ s) else find_start s

-- An optional sign.
unfoldable pub take_sign : Text → Text × Text
take_sign [] = ([], [])
take_sign (c ∷ s) = if is_sign c then (c ∷ [], s) else ([], c ∷ s)

-- A point with the digits after it: the token, the digits alone, and the rest.
unfoldable pub take_fraction : Text → Text × Text × Text
unfolding take_digits
take_fraction [] = ([], [], [])
take_fraction (c ∷ s) =
    let (digits, rest) = take_digits s in
    if c == b'.' then (c ∷ digits, digits, rest) else ([], [], c ∷ s)

-- An exponent; `none` if it has no digits.
unfoldable pub take_exponent : Text → Option Text
take_exponent [] = some []
take_exponent (c ∷ s) =
    let (sign, t) = take_sign s in
    let (digits, rest) = take_digits t in
    if c == b'e' || c == b'E'
    then elim digits [ [] ↦ none | x ∷ xs ↦ some (c ∷ sign ++ (x ∷ xs)) ]
    else some []

-- The token of a number at the start of a text.
unfoldable pub number_token : Text → Option Text
number_token s =
    let (sign, s₁) = take_sign s in
    let (whole, s₂) = take_digits s₁ in
    let (fraction, digits, s₃) = take_fraction s₂ in
    elim (whole ++ digits) [
      | [] ↦ none
      | x ∷ xs ↦ elim (take_exponent s₃) [
        | none ↦ none
        | some e ↦ some (sign ++ (whole ++ (fraction ++ e)))
      ]
    ]

-- `in_bounds` is whether the token is a finite `f64` of magnitude below 1e30.
unfoldable pub numeric_reading : (Text → Bool) → Text → Option Text
unfolding trim
numeric_reading in_bounds reply =
    let text = trim reply in
    if is_overload (uppercase text) then none else elim (find_start (skip_header text)) [
      | none ↦ none
      | some s ↦ elim (number_token s) [
        | none ↦ none
        | some token ↦ if in_bounds token then some token else none
      ]
    ]
