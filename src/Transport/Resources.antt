-- ===== src/Transport/Resources.antt =====
-- The resource names of crates/iv-transport/src/lib.rs: `ResourceKind`, what it is parsed from, and
-- the key of its lock.
pub mod Locks
pub mod Parsing
pub mod Symmetry
use kohdalab_iv.Common.{
  ℕ, ◌+◌, ◌-◌, ◌*◌, ◌/◌, ◌%◌, Bool, true, false, not, ◌&&◌, ◌||◌, Option, none, some, List, [], ◌∷◌,
  ◌++◌, if◌then◌else◌, all, leb, ltb, ◌==◌, Result, ok, err,
}
use kohdalab_iv.Common.Text.{
  Text, text_of, text_eq, push_front, strip_prefix, uppercase, is_digit, is_ascii_uppercase,
  parse_u8,
}
use kohdalab_iv.Transport.Replies.{starts_with}

pub data ResourceKind : Type 0 where
  visa : Text → ResourceKind → ResourceKind
  gpib : Text → ℕ → ResourceKind
  usb : Text → Text → ℕ → ℕ → ResourceKind

-- `value.split("::")`.
unfoldable pub split_fields : Text → List Text
split_fields [] = [] ∷ []
split_fields (c ∷ []) = (c ∷ []) ∷ []
split_fields (c ∷ d ∷ s) = elim (c == b':' && d == b':') [
  | true ↦ [] ∷ split_fields s
  | false ↦ push_front c (split_fields (d ∷ s))
]

-- `eq_ignore_ascii_case`; `word` has no lower-case letter.
unfoldable pub is_word : Text → Text → Bool
is_word word s = text_eq (uppercase s) word

unfoldable pub hex_value : ℕ → Option ℕ
hex_value c =
    if is_digit c
    then some (c - b'0')
    else (if leb b'a' c && leb c b'f'
        then some (c - b'a' + 10)
        else (if leb b'A' c && leb c b'F' then some (c - b'A' + 10) else none))

unfoldable pub parse_hex_digits : ℕ → Text → Option ℕ
parse_hex_digits n [] = some n
parse_hex_digits n (c ∷ s) = elim (hex_value c) [
  | none ↦ none
  | some v ↦
      let rest = parse_hex_digits (n * 16 + v) s in if leb (n * 16 + v) 65535 then rest else none
]

-- `u16::from_str_radix(value, 16)`.
unfoldable pub from_hex : Text → Option ℕ
unfolding parse_hex_digits
from_hex [] = none
from_hex (c ∷ []) = parse_hex_digits 0 (c ∷ [])
from_hex (c ∷ d ∷ s) =
    if c == b'+' then parse_hex_digits 0 (d ∷ s) else parse_hex_digits 0 (c ∷ d ∷ s)

unfoldable pub parse_hex_u16 : Text → Option ℕ
unfolding from_hex
parse_hex_u16 value = elim (strip_prefix (text_of "0x") value) [
  | some digits ↦ from_hex digits
  | none ↦ elim (strip_prefix (text_of "0X") value) [
    | some digits ↦ from_hex digits
    | none ↦ from_hex value
  ]
]

abbrev pub is_serial_character : ℕ → Bool
is_serial_character c =
    is_digit c || (is_ascii_uppercase c || ((leb b'a' c && leb c b'z') || (c == b'_' || c == b'-')))

unfoldable pub is_serial : Text → Bool
unfolding all
is_serial [] = false
is_serial (c ∷ s) = all is_serial_character (c ∷ s)

unfoldable pub gpib_of : Text → Option ℕ → Result ResourceKind (Unit {0})
gpib_of value none = err tt
gpib_of value (some a) = if leb 1 a && leb a 30 then ok (gpib value a) else err tt

unfoldable pub parse_gpib : Text → Text → Result ResourceKind (Unit {0})
unfolding gpib_of
parse_gpib value address = gpib_of value (parse_u8 address)

unfoldable pub parse_usb : Text → Text → Text → Text → Result ResourceKind (Unit {0})
unfolding is_serial
parse_usb value vid pid serial = elim (parse_hex_u16 vid) [
  | none ↦ err tt
  | some v ↦ elim (parse_hex_u16 pid) [
    | none ↦ err tt
    | some p ↦ if is_serial serial then ok (usb value serial v p) else err tt
  ]
]

unfoldable pub parse_fields : Text → List Text → Result ResourceKind (Unit {0})
unfolding parse_gpib parse_usb is_word
parse_fields value (bus ∷ address ∷ end ∷ []) =
    if is_word (text_of "GPIB0") bus && is_word (text_of "INSTR") end
    then parse_gpib value address
    else err tt
parse_fields value (bus ∷ vid ∷ pid ∷ serial ∷ end ∷ []) =
    if is_word (text_of "USB0") bus && is_word (text_of "INSTR") end
    then parse_usb value vid pid serial
    else err tt
parse_fields value _ = err tt

-- A name with one `VISA::` in front has a native name behind it, so `parse` calls itself once at
-- most.
unfoldable pub parse : Text → Result ResourceKind (Unit {0})
unfolding parse_fields
parse value = elim (strip_prefix (text_of "VISA::") value) [
  | none ↦ parse_fields value (split_fields value)
  | some inner ↦
      if starts_with (text_of "VISA::") inner
      then err tt
      else elim (parse_fields inner (split_fields inner)) [
        | err e ↦ err e
        | ok native ↦ ok (visa value native)
      ]
]

unfoldable pub is_gpib : ResourceKind → Bool
is_gpib (visa name native) = is_gpib native
is_gpib (gpib name address) = true
is_gpib (usb name serial vid pid) = false

unfoldable pub resource : ResourceKind → Text
resource (visa name native) = name
resource (gpib name address) = name
resource (usb name serial vid pid) = name

abbrev pub hex_digit : ℕ → ℕ
hex_digit n = if ltb n 10 then b'0' + n else b'a' + (n - 10)

-- `{:04x}` of a `u16`.
unfoldable pub show_hex4 : ℕ → Text
show_hex4 n =
    hex_digit (n / 4096 % 16)
    ∷ hex_digit (n / 256 % 16)
    ∷ hex_digit (n / 16 % 16)
    ∷ hex_digit (n % 16)
    ∷ []

unfoldable pub lock_key : ResourceKind → Text
unfolding show_hex4
lock_key (visa name native) = lock_key native
lock_key (gpib name address) = text_of "gpib-adapter"
lock_key (usb name serial vid pid) =
    text_of "usb-" ++ (show_hex4 vid ++ (b'-' ∷ (show_hex4 pid ++ (b'-' ∷ serial))))

-- `same_physical` of a native resource and any other.
unfoldable pub same_native : ResourceKind → ResourceKind → Bool
same_native this (visa name native) = same_native this native
same_native (gpib _ left) (gpib _ right) = left == right
same_native (usb _ left v p) (usb _ right w q) = text_eq left right && (v == w && p == q)
same_native _ _ = false

unfoldable pub same_physical : ResourceKind → ResourceKind → Bool
unfolding same_native
same_physical (visa name native) other = same_physical native other
same_physical (gpib name address) other = same_native (gpib name address) other
same_physical (usb name serial vid pid) other = same_native (usb name serial vid pid) other

unfoldable pub gpib_address : ResourceKind → Result ℕ (Unit {0})
gpib_address (gpib name address) = ok address
gpib_address (visa name native) = err tt
gpib_address (usb name serial vid pid) = err tt
