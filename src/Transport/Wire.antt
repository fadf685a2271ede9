-- ===== src/Transport/Wire.antt =====
-- The lines between crates/iv-transport/src/lib.rs and its helper processes. A line is the list of its
-- bytes; whether bytes are UTF-8 is a parameter.
pub mod Hexadecimal
use kohdalab_iv.Common.Results.{◌>>=◌, ◌>>◌}
use kohdalab_iv.Common.{
  ℕ, ◌+◌, ◌-◌, ◌*◌, ◌/◌, ◌%◌, Bool, true, false, not, ◌&&◌, Option, none, some, List, [], ◌∷◌, ◌++◌,
  if◌then◌else◌, leb, ltb, ◌==◌, length, Result, ok, err, require, ok_or,
}
use kohdalab_iv.Common.Text.{Text, text_of, text_eq}
use kohdalab_iv.Common.Digits.{show_u64}
use kohdalab_iv.Transport.Fault.{Fault, malformed_frame, oversized_frame, reported}
use kohdalab_iv.Transport.Resources.{hex_digit}

abbrev pub max_line : ℕ
max_line = 65536

abbrev pub max_payload : ℕ
max_payload = 16384

unfoldable pub hex : List ℕ → Text
hex [] = []
hex (b ∷ payload) = hex_digit (b / 16) ∷ hex_digit (b % 16) ∷ hex payload

unfoldable pub hex_nibble : ℕ → Option ℕ
hex_nibble c =
    if leb b'0' c && leb c b'9'
    then some (c - b'0')
    else (if leb b'a' c && leb c b'f' then some (c - b'a' + 10) else none)

-- Pairs of digits; the length of the text is even.
unfoldable pub decode_pairs : Text → Result (List ℕ) Fault
unfolding hex_nibble
decode_pairs [] = ok []
decode_pairs (h ∷ []) = ok []
decode_pairs (h ∷ l ∷ s) =
    let rest = decode_pairs s in
    do
      high ← ok_or malformed_frame (hex_nibble h)
      low ← ok_or malformed_frame (hex_nibble l)
      bytes ← rest
      ok ((high * 16 + low) ∷ bytes)

unfoldable pub decode_hex : Text → Result (List ℕ) Fault
unfolding decode_pairs
decode_hex [] = ok []
decode_hex (c ∷ s) =
    let size = length (c ∷ s) in
    do
      require (size % 2 == 0) malformed_frame
      require (leb (size / 2) max_payload) oversized_frame
      decode_pairs (c ∷ s)

pub record KivFrame : Type 0 where
  pub is_ok : Bool
  pub payload : Text

-- The text before the first `d` and the text after it.
unfoldable pub split_once : ℕ → Text → Option (Text × Text)
split_once d [] = none
split_once d (c ∷ s) =
    let rest = split_once d s in
    if c == d
    then some ([], s)
    else elim rest [ none ↦ none | some (before, after) ↦ some (c ∷ before, after) ]

unfoldable pub status_of : Text → Option Bool
status_of s =
    if text_eq s (text_of "OK")
    then some true
    else (if text_eq s (text_of "ERR") then some false else none)

unfoldable pub parse_kiv : Text → Result KivFrame Fault
unfolding split_once status_of
parse_kiv line = do
  (tag, rest) ← ok_or malformed_frame (split_once 9 line)
  require (text_eq tag (text_of "KIV")) malformed_frame
  (status, payload) ← ok_or malformed_frame (split_once 9 rest)
  is_ok ← ok_or malformed_frame (status_of status)
  require (leb (length payload) (max_line * 2)) oversized_frame
  ok (record { is_ok = is_ok; payload = payload })

-- An error that the helper reports keeps no text.
unfoldable pub into_payload : (Text → Bool) → KivFrame → Result Text Fault
into_payload is_utf8 frame = do
  decoded ← decode_hex frame.payload
  require (leb (length decoded) max_payload) oversized_frame
  (if frame.is_ok
      then (if is_utf8 decoded then ok decoded else err malformed_frame)
      else err reported)

-- No payload is written as `-`.
unfoldable pub encode_payload : List ℕ → Text
unfolding hex
encode_payload [] = text_of "-"
encode_payload (b ∷ payload) = hex (b ∷ payload)

-- The line of a request.
unfoldable pub request_line : Text → ℕ → ℕ → List ℕ → Text
unfolding encode_payload
request_line operation address timeout_ms payload =
    operation
    ++ b' '
      ∷ (show_u64 address
          ++ b' ' ∷ (show_u64 timeout_ms ++ b' ' ∷ (encode_payload payload ++ 10 ∷ [])))

-- The line that `kiv` of crates/instrument-hub/src/main.rs prints, without its end.
unfoldable pub kiv_line : Bool → List ℕ → Text
unfolding hex
kiv_line is_ok payload =
    text_of "KIV" ++ 9 ∷ (text_of (if is_ok then "OK" else "ERR") ++ 9 ∷ hex payload)
