-- ===== src/Transport/Resources/Parsing.antt =====
-- What a parsed resource name of crates/iv-transport/src/lib.rs stands for.
use kohdalab_iv.Common.{
  ℕ, ◌+◌, ◌*◌, ◌≤◌, ◌≡◌, refl, if◌then◌else◌, Bool, true, false, ◌&&◌, Option, none, some, List, [],
  ◌∷◌, leb, arith, Result, ok, err, inl, inr, Option-cases,
}
use kohdalab_iv.Common.Text.{Text, text_of, strip_prefix, parse_u8}
use kohdalab_iv.Transport.Resources.{
  ResourceKind, visa, gpib, usb, parse_hex_digits, from_hex, parse_hex_u16, hex_value, is_serial,
  gpib_of, parse_gpib, parse_usb, parse_fields, parse, split_fields, resource,
}

-- The numbers of a resource name within their ranges, and one `VISA::` at most.
abbrev pub IsNative : ResourceKind → Type 0
IsNative (visa name native) = ⊥
IsNative (gpib name address) = (1 ≤ address) × (address ≤ 30)
IsNative (usb name serial vid pid) = (vid ≤ 65535) × (pid ≤ 65535) × (is_serial serial ≡ true)

abbrev pub IsValid : ResourceKind → Type 0
IsValid (visa name native) = IsNative native
IsValid (gpib name address) = IsNative (gpib name address)
IsValid (usb name serial vid pid) = IsNative (usb name serial vid pid)

parse_hex_digits-bounded :
    (n : ℕ) (s : Text) (r : ℕ) → n ≤ 65535 → parse_hex_digits n s ≡ some r → r ≤ 65535
unfolding parse_hex_digits
parse_hex_digits-bounded n [] r le h = ground arith
parse_hex_digits-bounded n (c ∷ s) r le h = elim (Option-cases (hex_value c)) [
  | inl q ↦ absurd (ground arith)
  | inr (v, q) ↦ ground (arith, parse_hex_digits-bounded (n * 16 + v) s r)
]

from_hex-bounded : (s : Text) (r : ℕ) → from_hex s ≡ some r → r ≤ 65535
unfolding from_hex
from_hex-bounded [] r h = absurd (ground arith)
from_hex-bounded (c ∷ []) r h = parse_hex_digits-bounded 0 (c ∷ []) r (omega arith) h
from_hex-bounded (c ∷ d ∷ s) r h =
    ground (arith, parse_hex_digits-bounded 0 (d ∷ s) r, parse_hex_digits-bounded 0 (c ∷ d ∷ s) r)

parse_hex_u16-bounded : (s : Text) (r : ℕ) → parse_hex_u16 s ≡ some r → r ≤ 65535
unfolding parse_hex_u16
parse_hex_u16-bounded s r h = elim (Option-cases (strip_prefix (text_of "0x") s)) [
  | inr (t, q) ↦ from_hex-bounded t r (ground arith)
  | inl q ↦ elim (Option-cases (strip_prefix (text_of "0X") s)) [
    | inr (t, q') ↦ from_hex-bounded t r (ground arith)
    | inl q' ↦ from_hex-bounded s r (ground arith)
  ]
]

-- A parse that gives this name and a native resource within its ranges.
abbrev GivesNative : Text → Result ResourceKind (Unit {0}) → Type 0
GivesNative value (err e) = Unit {0}
GivesNative value (ok k) = (resource k ≡ value) × IsNative k

gpib_of-Native : (value : Text) (address : Option ℕ) → GivesNative value (gpib_of value address)
unfolding gpib_of resource
gpib_of-Native value none = tt
gpib_of-Native value (some a) = by_range (leb 1 a && leb a 30) refl
  where
    by_range :
        (b : Bool)
        → (leb 1 a && leb a 30) ≡ b
        → GivesNative value (if b then ok (gpib value a) else err tt)
    by_range true p = (refl, (ground arith, ground arith))
    by_range false p = tt

parse_gpib-Native : (value address : Text) → GivesNative value (parse_gpib value address)
unfolding parse_gpib
parse_gpib-Native value address = gpib_of-Native value (parse_u8 address)

parse_usb-Native :
    (value vid pid serial : Text) → GivesNative value (parse_usb value vid pid serial)
unfolding parse_usb resource parse_hex_u16 strip_prefix
parse_usb-Native value vid pid serial = elim (Option-cases (parse_hex_u16 vid)) [
  | inl q ↦ rw q tt
  | inr (v, q) ↦ rw q (elim (Option-cases (parse_hex_u16 pid)) [
    | inl q' ↦ rw q' tt
    | inr (p, q') ↦ rw q' (
        by_serial v p (parse_hex_u16-bounded vid v q) (parse_hex_u16-bounded pid p q')
          (is_serial serial) refl)
  ])
]
  where
    by_serial :
        (v p : ℕ)
        → v ≤ 65535
        → p ≤ 65535
        → (b : Bool) → is_serial serial ≡ b
        → GivesNative value (if b then ok (usb value serial v p) else err tt)
    by_serial v p le le' true e = (refl, (le, le', e))
    by_serial v p le le' false e = tt

if-Native :
    (b : Bool) (value : Text) (r : Result ResourceKind (Unit {0}))
    → GivesNative value r
    → GivesNative value (if b then r else err tt)
if-Native true value r h = h
if-Native false value r h = tt

parse_fields-Native :
    (value : Text) (fields : List Text) → GivesNative value (parse_fields value fields)
unfolding parse_fields
parse_fields-Native value [] = tt
parse_fields-Native value (a ∷ []) = tt
parse_fields-Native value (a ∷ b ∷ []) = tt
parse_fields-Native value (a ∷ b ∷ c ∷ []) = if-Native _ value _ (parse_gpib-Native value b)
parse_fields-Native value (a ∷ b ∷ c ∷ d ∷ []) = tt
parse_fields-Native value (a ∷ b ∷ c ∷ d ∷ e ∷ []) =
    if-Native _ value _ (parse_usb-Native value b c d)
parse_fields-Native value (a ∷ b ∷ c ∷ d ∷ e ∷ f ∷ rest) = tt

parsed-Native :
    (value : Text) (k : ResourceKind)
    → parse_fields value (split_fields value) ≡ ok k
    → (resource k ≡ value) × IsNative k
parsed-Native value k h = rw h at (parse_fields-Native value (split_fields value))

native-Valid : (k : ResourceKind) → IsNative k → IsValid k
native-Valid (visa name native) v = absurd v
native-Valid (gpib name address) v = v
native-Valid (usb name serial vid pid) v = v

-- A name that is parsed is kept; its address is of 1 to 30, its vendor and product numbers have 16
-- bits, its serial number is not empty and has only letters, digits, `_` and `-`; and a VISA name
-- has a native name in it.
pub parse-Valid :
    (value : Text) (k : ResourceKind) → parse value ≡ ok k → (resource k ≡ value) × IsValid k
unfolding parse resource
parse-Valid value k h = elim (Option-cases (strip_prefix (text_of "VISA::") value)) [
  | inl q ↦
      let (kept, native) = parsed-Native value k (ground arith) in (kept, native-Valid k native)
  | inr (inner, q) ↦ by_inner inner q (parse_fields inner (split_fields inner)) refl
]
  where
    by_inner :
        (inner : Text)
        → strip_prefix (text_of "VISA::") value ≡ some inner
        → (r : Result ResourceKind (Unit {0})) → parse_fields inner (split_fields inner) ≡ r
        → (resource k ≡ value) × IsValid k
    by_inner inner q (err e) p = absurd (ground arith)
    by_inner inner q (ok native) p =
        let same : visa value native ≡ k = ground arith in
        let (kept, valid) = parsed-Native inner native p in rw (← same) (refl, valid)
