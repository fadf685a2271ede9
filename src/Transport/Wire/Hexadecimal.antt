-- ===== src/Transport/Wire/Hexadecimal.antt =====
-- What is read back from the frames of crates/iv-transport/src/lib.rs.
use kohdalab_iv.Common.{
  ℕ, ◌*◌, ◌/◌, ◌%◌, ◌≤◌, ◌<◌, ◌≡◌, refl, ap, Bool, true, false, some, List, [], ◌∷◌, All, length,
  le→leb, arith, if◌then◌else◌, Result, ok, err,
}
use kohdalab_iv.Common.Text.{Text, text_eq}
use kohdalab_iv.Transport.Fault.{Fault, malformed_frame, reported}
use kohdalab_iv.Transport.Resources.{hex_digit}
use kohdalab_iv.Transport.Wire.{
  hex, hex_nibble, decode_pairs, decode_hex, parse_kiv, into_payload, kiv_line, max_payload,
}

abbrev pub AreBytes : List ℕ → Type 0
AreBytes = All (λ b. b < 256)

pub hex_nibble-hex_digit : (n : ℕ) → n < 16 → hex_nibble (hex_digit n) ≡ some n
unfolding hex_nibble
hex_nibble-hex_digit n h = ground arith

decode_pairs-hex : (p : List ℕ) → AreBytes p → decode_pairs (hex p) ≡ ok p
unfolding decode_pairs hex
decode_pairs-hex [] h = refl
decode_pairs-hex (b ∷ p) h = rw (hex_nibble-hex_digit (b / 16) (omega arith)) (
    rw (hex_nibble-hex_digit (b % 16) (omega arith))
      (rw (decode_pairs-hex p h.1) (ap (λ (n : ℕ). ok (n ∷ p)) (omega arith))))

pub length-hex : (p : List ℕ) → length (hex p) ≡ 2 * length p
unfolding hex
length-hex [] = refl
length-hex (b ∷ p) = omega (arith, length-hex p)

pub decode_hex-hex : (p : List ℕ) → AreBytes p → length p ≤ max_payload → decode_hex (hex p) ≡ ok p
unfolding decode_hex hex
decode_hex-hex [] h le = refl
decode_hex-hex (b ∷ p) h le = ground (arith, decode_pairs-hex (b ∷ p) h, length-hex p)

-- What the application makes of a reply line of the service's client.
abbrev pub received : (Text → Bool) → Text → Result Text Fault
received is_utf8 line = elim (parse_kiv line) [
  | ok frame ↦ into_payload is_utf8 frame
  | err e ↦ err e
]

parse_kiv-kiv_line :
    (is_ok : Bool) (p : List ℕ)
    → length p ≤ max_payload
    → parse_kiv (kiv_line is_ok p) ≡ ok (record { is_ok = is_ok; payload = hex p })
unfolding parse_kiv kiv_line text_eq
parse_kiv-kiv_line true p le = ground (arith, length-hex p)
parse_kiv-kiv_line false p le = ground (arith, length-hex p)

-- A payload of up to 16 KiB comes back from the line of a reply if it is UTF-8, and an error comes
-- back as an error.
pub received-kiv_line :
    (is_utf8 : Text → Bool) (is_ok : Bool) (p : List ℕ)
    → AreBytes p
    → length p ≤ max_payload
    → received is_utf8 (kiv_line is_ok p)
      ≡ (if is_ok then (if is_utf8 p then ok p else err malformed_frame) else err reported)
unfolding into_payload
received-kiv_line is_utf8 is_ok p h le =
    rw (parse_kiv-kiv_line is_ok p le, received)
      (rw (decode_hex-hex p h le, into_payload) (rw (le→leb (length p) max_payload le) refl))
