-- ===== src/Transport/Commands.antt =====
-- `source_write` and `adc_configuration` of crates/iv-transport/src/instruments.rs: the commands of
-- the program in the dialects of the 7651 source and the ADC meter. Floating-point numbers are a
-- parameter.
pub mod Switching
use kohdalab_iv.Common.Results.{◌>>=◌, ◌>>◌}
use kohdalab_iv.Common.{
  ℕ, Bool, true, false, not, ◌&&◌, ◌||◌, Option, none, some, List, [], ◌∷◌, ◌++◌, if◌then◌else◌,
  String, Result, ok, err, require, ok_or,
}
use kohdalab_iv.Common.Text.{Text, text_of, text_eq, uppercase, contains, trim_start_of, split_at}
use kohdalab_iv.Common.Float.{Float}
use kohdalab_iv.Transport.Fault.{Fault, unsupported_command, invalid_value}
use kohdalab_iv.Transport.Replies.{trim, starts_with}
use kohdalab_iv.Transport.Words.{split_whitespace, last_word}

-- `command.trim().trim_start_matches(':').to_ascii_uppercase()`.
unfoldable pub canonical : Text → Text
canonical command = uppercase (trim_start_of b':' (trim command))

unfoldable pub output_switch : Text → Result Text Fault
output_switch value =
    if text_eq value (text_of "ON") || text_eq value (text_of "1")
    then ok (text_of "O1;E")
    else (if text_eq value (text_of "OFF") || text_eq value (text_of "0")
        then ok (text_of "O0;E")
        else err invalid_value)

unfoldable pub function_switch : Text → Result Text Fault
function_switch value =
    if text_eq value (text_of "VOLT")
    then ok (text_of "H0;F1;E")
    else (if text_eq value (text_of "CURR") then ok (text_of "H0;F5;E") else err invalid_value)

module _ {F : Type 0} (f : Float F) where
  -- `(low..=high).contains(&n)`.
  unfoldable pub in_bounds : String → String → F → Bool
  in_bounds low high n = f.le (f.literal low) n && f.le n (f.literal high)

  unfoldable pub range_code : Text → Result Text Fault
  unfolding in_bounds
  range_code value = do
    n ← ok_or invalid_value (f.parse value)
    require (not (f.has_fraction n || not (in_bounds "2.0" "6.0" n))) invalid_value
    ok (text_of "R" ++ (f.show_integer n ++ text_of ";E"))

  unfoldable pub level : Text → Result Text Fault
  level value = do
    n ← ok_or invalid_value (f.parse value)
    require (f.is_finite n) invalid_value
    ok (text_of "S" ++ (f.show_scientific n ++ text_of ";E"))

  unfoldable pub current_limit : Text → Result Text Fault
  unfolding in_bounds
  current_limit value = do
    n ← ok_or invalid_value (f.parse value)
    require (not (not (f.is_finite n) || not (in_bounds "0.005" "0.12" n))) invalid_value
    ok (text_of "LA" ++ (f.show_integer (f.mul n (f.literal "1e3")) ++ text_of ";E"))

  unfoldable pub voltage_limit : Text → Result Text Fault
  unfolding in_bounds
  voltage_limit value = do
    n ← ok_or invalid_value (f.parse value)
    require (not (not (f.is_finite n) || not (in_bounds "1.0" "30.0" n))) invalid_value
    ok (text_of "LV" ++ (f.show_integer n ++ text_of ";E"))

  -- The `match` on the name of a command that is not `*CLS`.
  unfoldable pub translate : Text → Text → Result Text Fault
  unfolding output_switch function_switch range_code level current_limit voltage_limit
  translate name value =
      if text_eq name (text_of "OUTP")
      then output_switch value
      else (if text_eq name (text_of "SOUR:FUNC")
          then function_switch value
          else (if text_eq name (text_of "SOUR:RANG")
              then range_code value
              else (if text_eq name (text_of "SOUR:LEV:FIX")
                  then level value
                  else (if text_eq name (text_of "SOUR:PROT:CURR")
                      then current_limit value
                      else (if text_eq name (text_of "SOUR:PROT:VOLT")
                          then voltage_limit value
                          else err unsupported_command)))))

  unfoldable pub source_write : Text → Result (Option Text) Fault
  unfolding translate canonical split_at
  source_write command =
      let (name, value) = split_at b' ' (canonical command) in
      if text_eq name (text_of "*CLS")
      then ok none
      else do wire ← translate name value; ok (some wire)

  abbrev pub rate_of : F → Text
  rate_of n =
      if f.le n (f.literal "0.02")
      then text_of "FAST"
      else (if f.le n (f.literal "0.2")
          then text_of "MED"
          else (if f.le n (f.literal "1.0") then text_of "SLOW" else text_of "SSLOW"))

  unfoldable pub integration_time : Bool → Text → Result (List Text) Fault
  unfolding in_bounds
  integration_time over_usb upper = do
    n ← ok_or invalid_value (f.parse (last_word (split_whitespace upper)))
    require (not (not (f.is_finite n) || not (in_bounds "0.02" "100.0" n))) invalid_value
    let function =
        if contains (text_of "VOLT") upper then text_of "VOLTAGE:DC" else text_of "CURRENT:DC"
    ok (
        (if over_usb
          then text_of "ITP" ++ f.show_scientific n
          else text_of ":SENSE:" ++ (function ++ (text_of ":SRATE " ++ rate_of n)))
        ∷ [])

  unfoldable pub configure_function : Bool → Text → Result (List Text) Fault
  configure_function over_usb upper =
      let voltage = text_eq upper (text_of "CONF:VOLT:DC") in
      if not voltage && not (text_eq upper (text_of "CONF:CURR:DC"))
      then err unsupported_command
      else (if over_usb
          then ok (
              text_of "*RST"
              ∷ text_of "H0"
              ∷ (if voltage then text_of "F1" else text_of "F5")
              ∷ text_of "R0"
              ∷ [])
          else ok (
              text_of "*RST"
              ∷ (text_of ":SENSE:FUNCTION '"
                  ++ ((if voltage then text_of "VOLTAGE:DC" else text_of "CURRENT:DC")
                      ++ text_of "'"))
              ∷ []))

  -- `none` for a command that is sent as it is.
  unfoldable pub adc_configuration : Text → Bool → Result (Option (List Text)) Fault
  unfolding integration_time configure_function canonical
  adc_configuration command over_usb =
      let upper = canonical command in
      if starts_with (text_of "CONF:") upper
      then (do commands ← configure_function over_usb upper; ok (some commands))
      else (if contains (text_of ":NPLC ") upper
          then (do commands ← integration_time over_usb upper; ok (some commands))
          else (if contains (text_of ":RANG:AUTO ") upper
                || (contains (text_of ":ZERO:AUTO ") upper
                    || text_eq upper (text_of "TRIG:SOUR IMM"))
              then ok (some [])
              else ok none))
