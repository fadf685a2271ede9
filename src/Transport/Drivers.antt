-- ===== src/Transport/Drivers.antt =====
-- crates/iv-transport/src/drivers.rs: the exchanges of each dialect over a narrow interface to one
-- instrument.
pub mod Recording
pub mod Panels
use Prim.Native.Nat.{bit_and}
use kohdalab_iv.Common.Exec.{Exec, ◌>>=◌, ◌>>◌, pure, fail, lift, gets, check}
use kohdalab_iv.Common.{
  ℕ, zero, suc, ◌+◌, String, Bool, true, false, not, ◌&&◌, ◌||◌, Option, none, some, List, [], ◌∷◌,
  ◌++◌, if◌then◌else◌, any, ltb, ◌==◌, Result, ok, err,
}
use kohdalab_iv.Common.Text.{Text, text_of, text_eq, uppercase, contains, lines, byte_length}
use kohdalab_iv.Common.Float.{Float}
use kohdalab_iv.Catalog.{InstrumentDialect, scpi, yokogawa7651, adc7461, agilent34401, simulation}
use kohdalab_iv.Transport.Instruments.{Role, is_source_role}
use kohdalab_iv.Transport.Instruments
use kohdalab_iv.Transport.Identity.{identity_command}
use kohdalab_iv.Transport.Replies.{trim, panel_value, numeric_reading, legacy_status, legacy_output}
use kohdalab_iv.Transport.Commands.{canonical, source_write, adc_configuration}
use kohdalab_iv.Transport.Fault.{
  Fault, unsupported_model, unsupported_command, invalid_reply, oversized_panel, incomplete_panel,
}

-- The trait `InstrumentIo` over the state `S` of what carries it out, with the clock that the drivers
-- read beside it. Durations and points in time are nanoseconds.
pub record InstrumentIo (S : Type 0) : Type 0 where
  pub request : String → Text → Exec S Fault Text
  pub request_before : String → Text → ℕ → Exec S Fault Text
  pub wait : ℕ → S → S
  pub now : S → ℕ

unfoldable pub dialect : Role → String → Result InstrumentDialect Fault
dialect role model = elim (Instruments.dialect role model) [
  | ok d ↦ ok d
  | err _ ↦ err unsupported_model
]

unfoldable pub dialect_eq : InstrumentDialect → InstrumentDialect → Bool
dialect_eq scpi scpi = true
dialect_eq yokogawa7651 yokogawa7651 = true
dialect_eq agilent34401 agilent34401 = true
dialect_eq adc7461 adc7461 = true
dialect_eq simulation simulation = true
dialect_eq _ _ = false

unfoldable pub is_dialect : Role → String → InstrumentDialect → Bool
unfolding dialect dialect_eq
is_dialect role model expected = elim (dialect role model) [
  | ok actual ↦ dialect_eq actual expected
  | err e ↦ false
]

unfoldable pub is_adc_meter : String → Bool
unfolding is_dialect
is_adc_meter model = is_dialect Role.meter model adc7461

unfoldable pub is_legacy_source : String → Bool
unfolding is_dialect
is_legacy_source model = is_dialect Role.source model yokogawa7651

abbrev pub as_list : Option Text → List Text
as_list none = []
as_list (some wire) = wire ∷ []

abbrev pub or_itself : Text → Option (List Text) → List Text
or_itself command none = command ∷ []
or_itself command (some commands) = commands

module _ {F : Type 0} (f : Float F) where
  unfoldable pub commands_in : InstrumentDialect → Bool → Text → Result (List Text) Fault
  commands_in yokogawa7651 over_usb command = elim (source_write f command) [
    | ok wire ↦ ok (as_list wire)
    | err e ↦ err e
  ]
  commands_in adc7461 over_usb command = elim (adc_configuration f command over_usb) [
    | ok wire ↦ ok (or_itself command wire)
    | err e ↦ err e
  ]
  commands_in agilent34401 over_usb command =
      if contains (text_of ":ZERO:AUTO ") (uppercase command) then ok [] else ok (command ∷ [])
  commands_in scpi over_usb command = ok (command ∷ [])
  commands_in simulation over_usb command = err unsupported_model

  unfoldable pub write_commands : Role → String → Bool → Text → Result (List Text) Fault
  unfolding dialect commands_in
  write_commands role model over_usb command = elim (dialect role model) [
    | ok d ↦ commands_in d over_usb command
    | err e ↦ err e
  ]

unfoldable pub source_write_marks_adc_discard : Role → String → Text → Bool
unfolding is_adc_meter
source_write_marks_adc_discard role meter_model command =
    is_source_role role
    && (is_adc_meter meter_model && contains (text_of "SOUR:LEV:FIX ") (uppercase command))

abbrev pub is_line_end : ℕ → Bool
is_line_end c = c == 13 || c == 10

-- `trim_end_matches(['\r', '\n'])`.
unfoldable pub trim_line_ends : Text → Text
trim_line_ends [] = []
trim_line_ends (c ∷ s) = elim (trim_line_ends s) [
  | [] ↦ if is_line_end c then [] else c ∷ []
  | d ∷ r ↦ c ∷ d ∷ r
]

unfoldable pub terminated : Text → Text
unfolding trim_line_ends
terminated command = trim_line_ends command ++ 10 ∷ []

-- Whether one of the lines is `END`.
unfoldable pub has_end : Text → Bool
unfolding any
has_end panel = any (λ line. text_eq (trim line) (text_of "END")) (lines panel)

-- The first line of a panel, trimmed.
unfoldable pub panel_head : Text → Text
panel_head panel = elim (lines panel) [ [] ↦ [] | line ∷ rest ↦ trim line ]

abbrev pub from_option : {A : Type 0} → Option A → Result A Fault
from_option none = err invalid_reply
from_option (some a) = ok a

unfoldable pub function_name : Text → Result Text Fault
function_name digit =
    if text_eq digit (text_of "1")
    then ok (text_of "VOLT")
    else (if text_eq digit (text_of "5") then ok (text_of "CURR") else err invalid_reply)

module _ {S : Type 0} (io : InstrumentIo S) where
  -- The loop of `legacy_panel`, by the rounds that are left.
  unfoldable pub panel_rounds : ℕ → ℕ → Text → Exec S Fault Text
  unfolding has_end
  panel_rounds zero deadline panel = fail incomplete_panel
  panel_rounds (suc rounds) deadline panel =
      if has_end panel
      then pure panel
      else (if ltb 4096 (byte_length panel) then fail oversized_panel else (do
        reply ← io.request_before "READ" [] deadline
        panel_rounds rounds deadline (panel ++ 10 ∷ reply)))

  unfoldable pub legacy_panel : Exec S Fault Text
  unfolding panel_rounds
  legacy_panel = do
    start ← gets io.now
    let deadline = start + 6000000000
    panel ← io.request_before "QUERY" (text_of "OS;E\n") deadline
    panel_rounds 5 deadline panel

  unfoldable pub identify : Role → String → Exec S Fault Text
  unfolding legacy_panel
  identify role model =
      if is_legacy_source model
      then (do panel ← legacy_panel; pure (panel_head panel))
      else elim (identity_command role model) [
        | ok command ↦ io.request "QUERY" command
        | err _ ↦ fail unsupported_model
      ]

  unfoldable pub panel_field : ℕ → Exec S Fault Text
  unfolding legacy_panel
  panel_field key = do panel ← legacy_panel; lift (from_option (panel_value key panel))

  -- `in_bounds` is whether a token is a finite `f64` of magnitude below 1e30.
  module _ (in_bounds : Text → Bool) where
    unfoldable pub legacy_query : Text → Exec S Fault Text
    unfolding legacy_panel panel_field function_name
    legacy_query upper =
        if text_eq upper (text_of "*IDN?")
        then (do panel ← legacy_panel; pure (panel_head panel))
        else (if text_eq upper (text_of "SOUR:FUNC?")
            then (do digit ← panel_field b'F'; lift (function_name digit))
            else (if text_eq upper (text_of "SOUR:RANG?")
                then panel_field b'R'
                else (if text_eq upper (text_of "SOUR:LEV?")
                      || (text_eq upper (text_of "SOUR:LEV:FIX?")
                          || text_eq upper (text_of "SOUR:LEV:AUTO?"))
                    then (do
                      reply ← io.request "QUERY" (text_of "OD;E\n")
                      lift (from_option (numeric_reading in_bounds reply)))
                    else (if text_eq upper (text_of "OUTP?")
                        then (do
                          reply ← io.request "QUERY" (text_of "OC;E\n")
                          output ← lift (from_option (legacy_output reply))
                          pure (text_of (if output then "1" else "0")))
                        else (if text_eq upper (text_of "SYST:ERR?")
                            then (do
                              reply ← io.request "QUERY" (text_of "OC;E\n")
                              status ← lift (from_option (legacy_status reply))
                              pure (
                                  text_of (
                                    if bit_and status 4 == 0
                                    then "0,No error"
                                    else "1,7651 command error")))
                            else fail unsupported_command)))))

    -- The closure `read` of `adc_query`.
    unfoldable pub adc_read : Bool → Exec S Fault Text
    adc_read true s =
        (do reply ← io.request "READ" []; lift (from_option (numeric_reading in_bounds reply)))
          (io.wait 20000000 s)
    adc_read false s =
        (do
          reply ← io.request "QUERY" (text_of "READ?\n")
          lift (from_option (numeric_reading in_bounds reply)))
          s

    abbrev pub with_flag : Bool → S × Result Text Fault → S × (Bool × Result Text Fault)
    with_flag discard (s, r) = (s, (discard, r))

    -- A reading; while `discard` is set, the first one is thrown away.
    unfoldable pub adc_reading : Bool → Bool → S → S × (Bool × Result Text Fault)
    unfolding adc_read
    adc_reading over_usb false s = with_flag false (adc_read over_usb s)
    adc_reading over_usb true s =
        let (s', r) = adc_read over_usb s in
        elim r [ err e ↦ (s', (true, err e)) | ok _ ↦ with_flag false (adc_read over_usb s') ]

    unfoldable pub adc_error : Bool → Exec S Fault Text
    adc_error true = do
      _ ← io.request "WRITE" (text_of "ERR?\n")
      λ s. io.request "READ" [] (io.wait 20000000 s)
    adc_error false = io.request "QUERY" (text_of ":SYSTem:ERRor?\n")

    -- The second component is `*meter_discard` afterwards.
    unfoldable pub adc_query : Bool → Bool → Text → Text → S → S × (Bool × Result Text Fault)
    unfolding adc_reading adc_error terminated
    adc_query over_usb discard upper original s =
        if text_eq upper (text_of "READ?")
        then adc_reading over_usb discard s
        else with_flag discard (
            (if text_eq upper (text_of "SYST:ERR?")
                then adc_error over_usb
                else io.request "QUERY" (terminated original))
              s)

    unfoldable pub query_in :
        InstrumentDialect → Bool → Bool → Text → S → S × (Bool × Result Text Fault)
    unfolding legacy_query adc_query terminated canonical
    query_in yokogawa7651 over_usb discard command s =
        with_flag discard (legacy_query (canonical command) s)
    query_in adc7461 over_usb discard command s =
        adc_query over_usb discard (canonical command) command s
    query_in scpi over_usb discard command s =
        with_flag discard (io.request "QUERY" (terminated command) s)
    query_in agilent34401 over_usb discard command s =
        with_flag discard (io.request "QUERY" (terminated command) s)
    query_in simulation over_usb discard command s = (s, (discard, err unsupported_model))

    unfoldable pub query : Role → String → Bool → Bool → Text → S → S × (Bool × Result Text Fault)
    unfolding dialect query_in
    query role model over_usb discard command s = elim (dialect role model) [
      | ok d ↦ query_in d over_usb discard command s
      | err e ↦ (s, (discard, err e))
    ]
