-- ===== src/Desktop/Safety.antt =====
-- crates/iv-desktop/src/engine/safety.rs: the checks of what a source says about its settings. Those
-- of floating-point replies are in Desktop/Engine/Readings.
pub mod Conditions
use Prim.Native.Nat.{bit_and}
use kohdalab_iv.Common.{
  ℕ, String, Bool, true, false, not, ◌&&◌, ◌||◌, none, some, List, [], ◌∷◌, if◌then◌else◌, ◌==◌,
  Result, ok, err,
}
use kohdalab_iv.Common.Text.{Text, text_of, text_eq, uppercase, parse_u16}
use kohdalab_iv.Transport.Replies.{trim}
use kohdalab_iv.Desktop.States.{OutputState, on, off}

pub data Mode : Type 0 where
  iv vi : Mode

-- `trim_matches('"')`.
unfoldable pub trim_quotes_start : Text → Text
trim_quotes_start [] = []
trim_quotes_start (c ∷ s) = if c == b'"' then trim_quotes_start s else c ∷ s

unfoldable pub trim_quotes_end : Text → Text
trim_quotes_end [] = []
trim_quotes_end (c ∷ s) = elim (trim_quotes_end s) [
  | [] ↦ if c == b'"' then [] else c ∷ []
  | d ∷ r ↦ c ∷ d ∷ r
]

unfoldable pub plain : Text → Text
unfolding trim_quotes_start trim_quotes_end
plain reply = uppercase (trim_quotes_start (trim_quotes_end (trim reply)))

unfoldable pub is_function : Mode → Text → Bool
is_function iv t = text_eq t (text_of "VOLT") || text_eq t (text_of "VOLTAGE")
is_function vi t = text_eq t (text_of "CURR") || text_eq t (text_of "CURRENT")

unfoldable pub verify_function : Text → Mode → Result (Unit {0}) (Unit {0})
unfolding is_function
verify_function reply mode = if is_function mode (plain reply) then ok tt else err tt

unfoldable pub says_off : Text → Bool
says_off t = text_eq t (text_of "0") || (text_eq t (text_of "+0") || text_eq t (text_of "OFF"))

unfoldable pub says_on : Text → Bool
says_on t = text_eq t (text_of "1") || (text_eq t (text_of "+1") || text_eq t (text_of "ON"))

unfoldable pub output_state : Text → Result OutputState (Unit {0})
output_state reply =
    if says_off (plain reply) then ok off else (if says_on (plain reply) then ok on else err tt)

-- `SourceProtectionProfile` of crates/iv-core/src/instrument_specs.rs: the masks.
pub record SourceProtectionProfile : Type 0 where
  pub low_limiter_mask : ℕ
  pub high_limiter_mask : ℕ
  pub emergency_mask : ℕ

pub record SourceCondition : Type 0 where
  pub register : ℕ
  pub low_limiter : Bool
  pub high_limiter : Bool
  pub emergency : Bool

unfoldable pub stopped : SourceCondition → Bool
stopped c = c.low_limiter || (c.high_limiter || c.emergency)

unfoldable pub indicator : SourceCondition → String
indicator c =
    if c.emergency
    then "EMR"
    else (if c.low_limiter && c.high_limiter
        then "H+L"
        else (if c.high_limiter then "H" else (if c.low_limiter then "L" else "none")))

-- `register & mask != 0`.
abbrev pub has_bits : ℕ → ℕ → Bool
has_bits register mask = not (bit_and register mask == 0)

unfoldable pub condition_of : SourceProtectionProfile → ℕ → SourceCondition
condition_of p register = record {
  register = register;
  low_limiter = has_bits register p.low_limiter_mask;
  high_limiter = has_bits register p.high_limiter_mask;
  emergency = has_bits register p.emergency_mask;
}

unfoldable pub source_condition : Text → SourceProtectionProfile → Result SourceCondition (Unit {0})
unfolding condition_of
source_condition reply p = elim (parse_u16 (trim reply)) [
  | none ↦ err tt
  | some register ↦ ok (condition_of p register)
]
