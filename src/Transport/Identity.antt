-- ===== src/Transport/Identity.antt =====
-- `verify_model` and `identity_command` of crates/iv-transport/src/instruments.rs: whether the reply
-- to an identity query is that of the selected model.
use kohdalab_iv.Common.{
  ℕ, ◌≡◌, refl, String, Bool, true, false, not, ◌&&◌, ◌||◌, List, [], ◌∷◌, if◌then◌else◌, any, leb,
  ◌==◌, arith, Result, ok, err,
}
use kohdalab_iv.Common.Text.{Text, text_of, text_eq, lines, uppercase, is_digit, is_ascii_uppercase}
use kohdalab_iv.Catalog.{InstrumentDialect, scpi, yokogawa7651, adc7461, agilent34401, simulation}
use kohdalab_iv.Transport.Instruments.{Role, dialect, valid_model, is_source_role}
use kohdalab_iv.Transport.Replies.{trim, starts_with}

unfoldable pub first_line : Text → Text
unfolding lines trim
first_line identity = elim (lines identity) [ [] ↦ [] | l ∷ ls ↦ uppercase (trim l) ]

-- `is_ascii_alphanumeric`.
abbrev pub is_alphanumeric : ℕ → Bool
is_alphanumeric c = is_digit c || (is_ascii_uppercase c || (leb b'a' c && leb c b'z'))

-- The pieces of a text between the characters that `keep` refuses, the empty ones too.
unfoldable pub split : (ℕ → Bool) → Text → List Text
split keep [] = [] ∷ []
split keep (c ∷ s) = elim (split keep s) [
  | [] ↦ []
  | w ∷ ws ↦ if keep c then (c ∷ w) ∷ ws else [] ∷ w ∷ ws
]

unfoldable pub has : Text → Text → Bool
unfolding split any
has first word = any (λ t. text_eq t word && not (text_eq t [])) (split is_alphanumeric first)

-- `model.rsplit('_').next()`.
unfoldable pub last_piece : List Text → Text
last_piece [] = []
last_piece (w ∷ []) = w
last_piece (w ∷ v ∷ ws) = last_piece (v ∷ ws)

unfoldable pub is_agilent : Text → String → Bool
unfolding has last_piece split
is_agilent first model =
    (has first (text_of "AGILENT")
      || (has first (text_of "KEYSIGHT")
          || (has first (text_of "HEWLETT") || has first (text_of "HP"))))
    && has first (last_piece (split (λ c. not (c == b'_')) (text_of model)))

unfoldable pub is_accepted : InstrumentDialect → Role → String → Text → Bool
unfolding is_agilent starts_with
is_accepted yokogawa7651 role model first =
    (starts_with (text_of "7651") first || starts_with (text_of "YOKOGAWA") first)
    && has first (text_of "7651")
is_accepted scpi role model first =
    if is_source_role role
    then has first (text_of "YOKOGAWA") && has first (text_of "GS210")
    else is_agilent first model
is_accepted adc7461 role model first =
    (has first (text_of "ADC") || (has first (text_of "ADCMT") || has first (text_of "ADVANTEST")))
    && (has first (text_of "7461A") || has first (text_of "AD7461A"))
is_accepted agilent34401 role model first = is_agilent first model
is_accepted simulation role model first = false

unfoldable pub verify_model : Role → String → Text → Result (Unit {0}) (Unit {0})
verify_model role model identity = elim (dialect role model) [
  | err e ↦ err tt
  | ok d ↦ if is_accepted d role model (first_line identity) then ok tt else err tt
]

unfoldable pub identity_command : Role → String → Result Text (Unit {0})
identity_command role model = elim (dialect role model) [
  | err e ↦ err tt
  | ok yokogawa7651 ↦ ok (text_of "OS;E\n")
  | ok d ↦ ok (text_of "*IDN?\n")
]

dialect-valid_model :
    (role : Role) (model : String) (d : InstrumentDialect)
    → dialect role model ≡ ok d
    → valid_model role model ≡ true
unfolding dialect valid_model
dialect-valid_model role model d h = ground arith

-- A reply is accepted as the identity of a model only if the role takes that model.
pub verify_model-valid_model :
    (role : Role) (model : String) (identity : Text)
    → verify_model role model identity ≡ ok tt
    → valid_model role model ≡ true
unfolding verify_model
verify_model-valid_model role model identity h = by_dialect (dialect role model) refl
  where
    by_dialect :
        (r : Result InstrumentDialect (Unit {0}))
        → dialect role model ≡ r
        → valid_model role model ≡ true
    by_dialect (ok d) p = dialect-valid_model role model d p
    by_dialect (err e) p = absurd (ground arith)
