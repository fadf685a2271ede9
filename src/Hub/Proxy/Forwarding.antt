-- ===== src/Hub/Proxy/Forwarding.antt =====
-- Requests of crates/iv-transport/src/lib.rs as crates/instrument-hub/src/main.rs reads them.
use kohdalab_iv.Common.{
  ℕ, zero, suc, inl, inr, Option-cases, Bool-cases, ◌*◌, ◌/◌, ◌%◌, ◌≤◌, ◌<◌, ◌≡◌, refl, ap, ◌∙◌,
  String, Bool, true, false, Option, none, some, List, [], ◌∷◌, all, length, ltb, ◌==◌, ◌&&◌, arith,
  ok,
}
use kohdalab_iv.Common.Text.{Text, text_of, text_eq, is_digit, parse_u8}
use kohdalab_iv.Common.Digits.{
  IsDigits, show_u64, parse_u64-show_u64, show_u64-IsDigits, show_u64-all,
}
use kohdalab_iv.Protocol.{transfer, SafetyPolicy, validate_request, is_whitespace, in_range}
use kohdalab_iv.Transport.Resources.{hex_digit, hex_value}
use kohdalab_iv.Transport.Words.{is_ink, IsWord, split_whitespace, split_whitespace-word}
use kohdalab_iv.Transport.Wire.{hex, encode_payload, request_line, max_payload}
use kohdalab_iv.Transport.Wire.Hexadecimal.{AreBytes, length-hex}
use kohdalab_iv.Hub.Proxy.{
  pair_value, unhex_pairs, unhex, forward, choose_request, choose, choose_fields, parse_line,
}

digits-ink : (s : Text) → all is_digit s ≡ true → all is_ink s ≡ true
unfolding all is_whitespace
digits-ink [] h = refl
digits-ink (c ∷ s) h = ground (arith, digits-ink s)

digits-IsWord : (s : Text) → IsDigits s → all is_digit s ≡ true → IsWord s
digits-IsWord [] h d = absurd h
digits-IsWord (c ∷ s) h d = digits-ink (c ∷ s) d

hex_digit-ink : (n : ℕ) → n < 16 → is_ink (hex_digit n) ≡ true
unfolding is_whitespace
hex_digit-ink n h = ground arith

hex-ink : (p : List ℕ) → AreBytes p → all is_ink (hex p) ≡ true
unfolding hex all
hex-ink [] h = refl
hex-ink (b ∷ p) h =
    rw (hex_digit-ink (b / 16) (omega arith))
      (rw (hex_digit-ink (b % 16) (omega arith)) (hex-ink p h.1))

encode_payload-IsWord : (p : List ℕ) → AreBytes p → IsWord (encode_payload p)
unfolding encode_payload hex
encode_payload-IsWord [] h = unfold all is_whitespace in refl
encode_payload-IsWord (b ∷ p) h = hex-ink (b ∷ p) h

pair_value-hex_digit :
    (b : ℕ) → b < 256 → pair_value (hex_digit (b / 16)) (hex_digit (b % 16)) ≡ some b
unfolding pair_value hex_value
pair_value-hex_digit b h = ground arith

unhex_pairs-hex : (p : List ℕ) → AreBytes p → unhex_pairs (hex p) ≡ some p
unfolding unhex_pairs hex
unhex_pairs-hex [] h = refl
unhex_pairs-hex (b ∷ p) h =
    rw (pair_value-hex_digit b h.0, unhex_pairs) (rw (unhex_pairs-hex p h.1) refl)

hex-ascii : (p : List ℕ) → AreBytes p → all (λ c. ltb c 128) (hex p) ≡ true
unfolding hex all
hex-ascii [] h = refl
hex-ascii (b ∷ p) h = ground (arith, hex-ascii p h.1)

-- What `unhex` does with an even number of ASCII characters.
unhex-even :
    (s : Text) (n : ℕ)
    → text_eq s (text_of "-") ≡ false
    → length s ≡ 2 * n
    → n ≤ max_payload
    → all (λ c. ltb c 128) s ≡ true
    → unhex s ≡ unhex_pairs s
unfolding unhex
unhex-even s n minus even le ascii = rw minus (
    rw ascii (elim (Bool-cases (length s % 2 == 0)) [
      | inr odd ↦ absurd (ground arith)
      | inl p ↦ rw p (elim (Bool-cases (ltb 32768 (length s))) [
        | inl large ↦ absurd (ground arith)
        | inr small ↦ rw small refl
      ])
    ]))

hex-ne-minus : (b : ℕ) (p : List ℕ) → text_eq (hex (b ∷ p)) (text_of "-") ≡ false
unfolding hex text_eq
hex-ne-minus b p = ground arith

unhex-encode_payload :
    (p : List ℕ) → AreBytes p → length p ≤ max_payload → unhex (encode_payload p) ≡ some p
unfolding encode_payload
unhex-encode_payload [] h le = unfold unhex text_eq in refl
unhex-encode_payload (b ∷ p) h le =
    unhex-even (hex (b ∷ p)) (length (b ∷ p)) (hex-ne-minus b p) (length-hex (b ∷ p)) le
      (hex-ascii (b ∷ p) h)
    ∙ unhex_pairs-hex (b ∷ p) h

-- The addresses of the bus, one by one.
reads_back : ℕ → Bool
reads_back a = elim (parse_u8 (show_u64 a)) [ none ↦ false | some n ↦ n == a ]

all_below : ℕ → Bool
all_below zero = true
all_below (suc n) = reads_back n && all_below n

all_below_sound : (n a : ℕ) → all_below n ≡ true → a < n → reads_back a ≡ true
unfolding all_below
all_below_sound zero a h lt = absurd (omega arith)
all_below_sound (suc n) a h lt = ground (arith, all_below_sound n a)

addresses_read_back : all_below 31 ≡ true
unfolding all_below reads_back parse_u8 show_u64
addresses_read_back = refl

parse_u8-show_u64 : (a : ℕ) → a ≤ 30 → parse_u8 (show_u64 a) ≡ some a
unfolding reads_back
parse_u8-show_u64 a le =
    let read = all_below_sound 31 a addresses_read_back (omega arith) in
    elim (Option-cases (parse_u8 (show_u64 a))) [
      | inl p ↦ absurd (ground arith)
      | inr (n, p) ↦ ground arith
    ]

-- The operations of a transfer that a helper knows.
pub data Operation : Type 0 where
  write query read clear local : Operation

abbrev pub name_of : Operation → String
name_of write = "WRITE"
name_of query = "QUERY"
name_of read = "READ"
name_of clear = "CLEAR"
name_of local = "LOCAL"

name_of-IsWord : (op : Operation) → IsWord (text_of (name_of op))
unfolding all is_whitespace
name_of-IsWord write = refl
name_of-IsWord query = refl
name_of-IsWord read = refl
name_of-IsWord clear = refl
name_of-IsWord local = refl

split_whitespace-request_line :
    (op : Operation) (a t : ℕ) (p : List ℕ)
    → a ≤ 30
    → t ≤ 30000
    → AreBytes p
    → split_whitespace (request_line (text_of (name_of op)) a t p)
      ≡ text_of (name_of op) ∷ show_u64 a ∷ show_u64 t ∷ encode_payload p ∷ []
unfolding request_line
split_whitespace-request_line op a t p la lt bytes =
    split_whitespace-word (text_of (name_of op)) b' ' _ (name_of-IsWord op) blank
    ∙ ap (◌∷◌ (text_of (name_of op))) (
        split_whitespace-word (show_u64 a) b' ' _ (number a (omega arith)) blank
        ∙ ap (◌∷◌ (show_u64 a)) (
            split_whitespace-word (show_u64 t) b' ' _ (number t (omega arith)) blank
            ∙ ap (◌∷◌ (show_u64 t)) (
                split_whitespace-word (encode_payload p) 10 [] (encode_payload-IsWord p bytes)
                  line_end
                ∙ ap (◌∷◌ (encode_payload p)) none_left)))
  where
    blank : is_whitespace b' ' ≡ true
    blank = unfold is_whitespace in refl

    line_end : is_whitespace 10 ≡ true
    line_end = unfold is_whitespace in refl

    none_left : split_whitespace [] ≡ []
    none_left = unfold split_whitespace in refl

    number : (n : ℕ) → n < 1000000 → IsWord (show_u64 n)
    number n h = digits-IsWord (show_u64 n) (show_u64-IsDigits n h) (show_u64-all n)

module _ (parse_policy : List ℕ → Option SafetyPolicy) where
  choose_request-transfer :
      (op : Operation) (a t : ℕ) (p : List ℕ)
      → 1 ≤ t
      → choose_request parse_policy (text_of (name_of op)) a t p
        ≡ ok (forward (transfer (name_of op) a t p) t false)
  unfolding choose_request text_eq
  choose_request-transfer write a t p h = ground arith
  choose_request-transfer query a t p h = ground arith
  choose_request-transfer read a t p h = ground arith
  choose_request-transfer clear a t p h = ground arith
  choose_request-transfer local a t p h = ground arith

  -- A transfer that the application writes as a line, to an address of 1 to 30, with a time limit of 1
  -- to 30000 ms and up to 16 KiB of bytes, is forwarded as just this transfer with this limit, and the
  -- protocol accepts it.
  pub parse_line-request_line :
      (op : Operation) (a t : ℕ) (p : List ℕ)
      → 1 ≤ a
      → a ≤ 30
      → 1 ≤ t
      → t ≤ 30000
      → AreBytes p
      → length p ≤ max_payload
      → (parse_line parse_policy (request_line (text_of (name_of op)) a t p)
          ≡ ok (forward (transfer (name_of op) a t p) t false))
        × (validate_request (transfer (name_of op) a t p) ≡ ok tt)
  unfolding parse_line
  parse_line-request_line op a t p ga la gt lt bytes few = (
    rw (split_whitespace-request_line op a t p la lt bytes) (
        rw (parse_u8-show_u64 a la, choose_fields, choose)
          (rw (parse_u64-show_u64 t (omega arith), choose_fields, choose)
            (rw (in_both, choose_fields, choose)
              (rw (unhex-encode_payload p bytes few, choose_fields, choose)
                (choose_request-transfer op a t p gt))))),
    accepted op,
  )
    where
      in_both : (in_range 1 30 a && in_range 1 30000 t) ≡ true
      in_both = unfold in_range in ground arith

      accepted : (o : Operation) → validate_request (transfer (name_of o) a t p) ≡ ok tt
      accepted write = unfold validate_request in ground arith
      accepted query = unfold validate_request in ground arith
      accepted read = unfold validate_request in ground arith
      accepted clear = unfold validate_request in ground arith
      accepted local = unfold validate_request in ground arith
