-- ===== src/Common/Text.antt =====
-- Texts as lists of code points, with the `str` operations of the standard library that the program
-- uses: `lines`, `strip_prefix`, `strip_suffix`, `trim`, ASCII classes, and `u8` and `u16` in decimal.
use kohdalab_iv.Common.Tests.{ltb, leb, ◌==◌, if◌then◌else◌}
use Prim.Native.Nat.{ℕ, ◌+◌, ◌-◌, ◌*◌, ◌/◌, ◌%◌}
use mathlib.Core.Bool.{Bool, true, false, ◌&&◌}
use mathlib.Core.Option.{Option, none, some}
use mathlib.Core.List.{List, [], ◌∷◌, ◌++◌}
use mathlib.Core.Path.{◌≡◌, refl}
use mathlib.Core.Logic.{◌⊎◌, inr}
use native.Mathlib.Omega.{arith}
use Prim.Native.Char.{code}
use Prim.Native.String.{String}

abbrev pub Text : Type 0
Text = List ℕ

-- The code points of a literal.
abbrev pub text_of : String → Text
text_of String.[] = []
text_of (String.◌∷◌ letter rest) = code letter ∷ text_of rest

unfoldable pub text_eq : Text → Text → Bool
text_eq [] [] = true
text_eq (a ∷ s) (b ∷ t) = a == b && text_eq s t
text_eq _ _ = false

unfoldable pub strip_prefix : Text → Text → Option Text
strip_prefix [] s = some s
strip_prefix (p ∷ ps) [] = none
strip_prefix (p ∷ ps) (c ∷ s) = if c == p then strip_prefix ps s else none

-- `s.strip_suffix(p)`.
unfoldable pub strip_suffix : Text → Text → Option Text
unfolding text_eq
strip_suffix p [] = if text_eq [] p then some [] else none
strip_suffix p (c ∷ s) =
    let rest = strip_suffix p s in
    if text_eq (c ∷ s) p then some [] else elim rest [ none ↦ none | some r ↦ some (c ∷ r) ]

abbrev starts_with_newline : Text → Bool
starts_with_newline [] = false
starts_with_newline (c ∷ s) = c == 10

abbrev pub push_front : ℕ → List Text → List Text
push_front c [] = (c ∷ []) ∷ []
push_front c (l ∷ ls) = (c ∷ l) ∷ ls

-- `s.lines()`: split after each line feed, which goes with a carriage return before it.
unfoldable pub lines : Text → List Text
lines [] = []
lines (c ∷ s) =
    let rest = lines s in
    if c == 10
    then [] ∷ rest
    else (if c == 13 && starts_with_newline s then rest else push_front c rest)

abbrev pub is_digit : ℕ → Bool
is_digit c = leb b'0' c && leb c b'9'

abbrev pub is_ascii_uppercase : ℕ → Bool
is_ascii_uppercase c = leb b'A' c && leb c b'Z'

abbrev pub to_upper : ℕ → ℕ
to_upper c = if leb b'a' c && leb c b'z' then c - 32 else c

-- `to_ascii_uppercase`.
unfoldable pub uppercase : Text → Text
uppercase [] = []
uppercase (c ∷ s) = to_upper c ∷ uppercase s

-- `text.contains(p)`.
unfoldable pub contains : Text → Text → Bool
unfolding strip_prefix
contains p [] = elim (strip_prefix p []) [ none ↦ false | some r ↦ true ]
contains p (c ∷ s) = elim (strip_prefix p (c ∷ s)) [ none ↦ contains p s | some r ↦ true ]

-- Decimal digits, with an overflow beyond 255 refused at once.
unfoldable pub parse_digits : ℕ → Text → Option ℕ
parse_digits n [] = some n
parse_digits n (c ∷ s) =
    let m = n * 10 + (c - b'0') in
    let rest = parse_digits m s in if is_digit c && leb m 255 then rest else none

-- `text.parse::<u8>().ok()`: an optional plus sign and at least one digit.
unfoldable pub parse_u8 : Text → Option ℕ
unfolding parse_digits
parse_u8 [] = none
parse_u8 (c ∷ []) = parse_digits 0 (c ∷ [])
parse_u8 (c ∷ d ∷ s) = if c == b'+' then parse_digits 0 (d ∷ s) else parse_digits 0 (c ∷ d ∷ s)

-- `u8::to_string`.
unfoldable pub show_u8 : ℕ → Text
show_u8 n =
    if ltb n 10
    then (b'0' + n) ∷ []
    else (if ltb n 100
        then (b'0' + n / 10) ∷ (b'0' + n % 10) ∷ []
        else (b'0' + n / 100) ∷ (b'0' + n / 10 % 10) ∷ (b'0' + n % 10) ∷ [])

abbrev pub to_lower : ℕ → ℕ
to_lower c = if is_ascii_uppercase c then c + 32 else c

-- `to_ascii_lowercase`.
unfoldable pub lowercase : Text → Text
lowercase [] = []
lowercase (c ∷ s) = to_lower c ∷ lowercase s

unfoldable pub parse_digits_u16 : ℕ → Text → Option ℕ
parse_digits_u16 n [] = some n
parse_digits_u16 n (c ∷ s) =
    let m = n * 10 + (c - b'0') in
    let rest = parse_digits_u16 m s in if is_digit c && leb m 65535 then rest else none

-- `text.parse::<u16>().ok()`.
unfoldable pub parse_u16 : Text → Option ℕ
unfolding parse_digits_u16
parse_u16 [] = none
parse_u16 (c ∷ []) = parse_digits_u16 0 (c ∷ [])
parse_u16 (c ∷ d ∷ s) =
    if c == b'+' then parse_digits_u16 0 (d ∷ s) else parse_digits_u16 0 (c ∷ d ∷ s)

abbrev utf8_width : ℕ → ℕ
utf8_width c = if ltb c 128 then 1 else (if ltb c 2048 then 2 else (if ltb c 65536 then 3 else 4))

-- `text.len()`, in bytes.
unfoldable pub byte_length : Text → ℕ
byte_length [] = 0
byte_length (c ∷ s) = utf8_width c + byte_length s

-- `trim_start_matches(c)`.
unfoldable pub trim_start_of : ℕ → Text → Text
trim_start_of d [] = []
trim_start_of d (c ∷ s) = if c == d then trim_start_of d s else c ∷ s

-- `split_once(d)`, with the whole text and nothing if `d` is not in it.
unfoldable pub split_at : ℕ → Text → Text × Text
split_at d [] = ([], [])
split_at d (c ∷ s) =
    let (before, after) = split_at d s in if c == d then ([], s) else (c ∷ before, after)

pub text_eq_sound : (s t : Text) → text_eq s t ≡ true → s ≡ t
unfolding text_eq
text_eq_sound [] [] h = refl
text_eq_sound (a ∷ s) (b ∷ t) h = ground (arith, text_eq_sound s t)
text_eq_sound [] (b ∷ t) h = absurd (ground arith)
text_eq_sound (a ∷ s) [] h = absurd (ground arith)

-- What a text is split into: all of it, or the parts before and after a separator.
pub split_at-append :
    (d : ℕ) (s : Text) → ((split_at d s).0 ++ d ∷ (split_at d s).1 ≡ s) ⊎ ((split_at d s).1 ≡ [])
unfolding split_at
split_at-append d [] = inr refl
split_at-append d (c ∷ s) = ground (arith, split_at-append d s)
