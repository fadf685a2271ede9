-- ===== src/Transport/Replies/Tokens.antt =====
-- The token that `numeric_reading` of crates/iv-transport/src/instruments.rs returns.
use mathlib.Core.List.{append_assoc}
use kohdalab_iv.Common.{
  ℕ, ◌≡◌, refl, ap, ◌∙◌, ◌⊎◌, inl, inr, Bool, true, false, Option, none, some, [], ◌∷◌, ◌++◌, arith,
  all, Option-cases, Bool-cases, ◌==◌, ◌||◌,
}
use kohdalab_iv.Common.Text.{Text, is_digit, uppercase}
use kohdalab_iv.Transport.Replies.{
  take_digits, take_sign, take_fraction, take_exponent, number_token, numeric_reading, find_start,
  is_overload, skip_header, trim, is_sign,
}

take_digits-digits : (s : Text) → all is_digit (take_digits s).0 ≡ true
unfolding take_digits all
take_digits-digits [] = refl
take_digits-digits (c ∷ s) = ground (arith, take_digits-digits s)

take_digits-append : (s : Text) → (take_digits s).0 ++ (take_digits s).1 ≡ s
unfolding take_digits
take_digits-append [] = refl
take_digits-append (c ∷ s) = ground (arith, take_digits-append s)

take_sign-append : (s : Text) → (take_sign s).0 ++ (take_sign s).1 ≡ s
unfolding take_sign
take_sign-append [] = refl
take_sign-append (c ∷ s) = ground arith

take_fraction-append : (s : Text) → (take_fraction s).0 ++ (take_fraction s).2 ≡ s
unfolding take_fraction
take_fraction-append [] = refl
take_fraction-append (c ∷ s) = ground (arith, take_digits-append s)

exponent_cases :
    (c : ℕ) (s e : Text)
    → take_exponent (c ∷ s) ≡ some e
    → (e ≡ []) ⊎ (e ≡ c ∷ ((take_sign s).0 ++ (take_digits (take_sign s).1).0))
unfolding take_exponent
exponent_cases c s e h = by_digits (take_digits (take_sign s).1).0 refl
  where
    by_digits :
        (digits : Text)
        → (take_digits (take_sign s).1).0 ≡ digits
        → (e ≡ []) ⊎ (e ≡ c ∷ ((take_sign s).0 ++ (take_digits (take_sign s).1).0))
    by_digits [] p = ground arith
    by_digits (x ∷ xs) p = ground arith

take_exponent-prefix : (s e : Text) → take_exponent s ≡ some e → (rest : Text) × (e ++ rest ≡ s)
take_exponent-prefix [] e h = unfold take_exponent in ([], ground arith)
take_exponent-prefix (c ∷ s) e h = elim (exponent_cases c s e h) [
  | inl none_there ↦ (c ∷ s, ap (λ (t : Text). t ++ c ∷ s) none_there)
  | inr there ↦
      let (sign, s₁) = take_sign s in
      let (digits, s₂) = take_digits s₁ in
      (
        s₂,
        ap (λ (t : Text). t ++ s₂) there
            ∙ ap (◌∷◌ c) (
                append_assoc sign digits s₂
                ∙ ap (◌++◌ sign) (take_digits-append s₁)
                ∙ take_sign-append s),
      )
]

number_cases :
    (s token : Text)
    → number_token s ≡ some token
    → (e : Text) × (take_exponent (take_fraction (take_digits (take_sign s).1).1).2 ≡ some e)
      × (token
          ≡ (take_sign s).0
            ++ ((take_digits (take_sign s).1).0
                ++ ((take_fraction (take_digits (take_sign s).1).1).0 ++ e)))
unfolding number_token
number_cases s token h =
    by_parts ((take_digits s₁).0 ++ (take_fraction s₂).1) refl (take_exponent s₃) refl
  where
    s₁ : Text
    s₁ = (take_sign s).1

    s₂ : Text
    s₂ = (take_digits s₁).1

    s₃ : Text
    s₃ = (take_fraction s₂).2

    by_parts :
        (digits : Text)
        → (take_digits s₁).0 ++ (take_fraction s₂).1 ≡ digits
        → (o : Option Text) → take_exponent s₃ ≡ o
        → (e : Text) × (take_exponent s₃ ≡ some e)
          × (token ≡ (take_sign s).0 ++ ((take_digits s₁).0 ++ ((take_fraction s₂).0 ++ e)))
    by_parts [] p o q = absurd (ground arith)
    by_parts (x ∷ xs) p none q = absurd (ground arith)
    by_parts (x ∷ xs) p (some e) q = (e, q, ground arith)

-- A token is what a text begins with.
number_token-prefix :
    (s token : Text) → number_token s ≡ some token → (rest : Text) × (token ++ rest ≡ s)
number_token-prefix s token h =
    let (e, found, parts) = number_cases s token h in
    let (sign, s₁) = take_sign s in
    let (whole, s₂) = take_digits s₁ in
    let point = (take_fraction s₂).0 in
    let s₃ = (take_fraction s₂).2 in
    let (rest, joined) = take_exponent-prefix s₃ e found in
    (
      rest,
      ap (λ (t : Text). t ++ rest) parts
          ∙ append_assoc sign (whole ++ (point ++ e)) rest
          ∙ ap (◌++◌ sign) (
              append_assoc whole (point ++ e) rest
              ∙ ap (◌++◌ whole)
                  (append_assoc point e rest ∙ ap (◌++◌ point) joined ∙ take_fraction-append s₂)
              ∙ take_digits-append s₁)
          ∙ take_sign-append s,
    )

find_start-suffix : (s t : Text) → find_start s ≡ some t → (before : Text) × (before ++ t ≡ s)
unfolding find_start
find_start-suffix [] t h = absurd (ground arith)
find_start-suffix (c ∷ s) t h = elim (Bool-cases (is_digit c || is_sign c || c == b'.')) [
  | inl here ↦ ([], ground arith)
  | inr later ↦
      let (before, joined) = find_start-suffix s t (ground arith) in
      (c ∷ before, ground (arith, joined))
]

-- A reading is a token within the bounds, without a gap in the trimmed reply and after its header; and
-- the reply does not say that the instrument is overloaded.
pub numeric_reading-Token :
    (in_bounds : Text → Bool) (reply token : Text)
    → numeric_reading in_bounds reply ≡ some token
    → (in_bounds token ≡ true)
      × (is_overload (uppercase (trim reply)) ≡ false)
      × (before : Text) × (rest : Text) × (before ++ (token ++ rest) ≡ skip_header (trim reply))
unfolding numeric_reading
numeric_reading-Token in_bounds reply token h =
    by_start (find_start (skip_header (trim reply))) refl
  where
    by_start :
        (o : Option Text)
        → find_start (skip_header (trim reply)) ≡ o
        → (in_bounds token ≡ true)
          × (is_overload (uppercase (trim reply)) ≡ false)
          × (before : Text) × (rest : Text) × (before ++ (token ++ rest) ≡ skip_header (trim reply))
    by_start none p = absurd (ground arith)
    by_start (some s) p = elim (Option-cases (number_token s)) [
      | inl q ↦ absurd (ground arith)
      | inr (found, q) ↦
          let same : found ≡ token = ground arith in
          let (before, joined) = find_start-suffix (skip_header (trim reply)) s p in
          let (rest, from) = number_token-prefix s token (q ∙ ap some same) in
          (ground arith, ground arith, before, rest, ap (◌++◌ before) from ∙ joined)
    ]
