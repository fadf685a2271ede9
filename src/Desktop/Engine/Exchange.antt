-- ===== src/Desktop/Engine/Exchange.antt =====
-- The exchanges with one source, which crates/iv-desktop/src/engine/gate.rs makes with the gate and
-- source_dc.rs, in the same words, with the two ordinary sources.
pub mod Confirmed
pub mod Ranges
use kohdalab_iv.Common.Exec.{Exec, ◌>>=◌, ◌>>◌, pure, lift, gets, check}
use kohdalab_iv.Common.{String, Bool, Option, not, ◌||◌, none, some, ◌++◌, ok_or}
use kohdalab_iv.Common.Text.{Text, text_of, text_eq, split_at}
use kohdalab_iv.Transport.Replies.{trim}
use kohdalab_iv.Desktop.States.{OutputState}
use kohdalab_iv.Desktop.Safety.{
  SourceProtectionProfile, Mode, iv, vi, verify_function, output_state, source_condition, stopped,
}
use kohdalab_iv.Desktop.Engine.{
  EngineFault, identity_changed, bad_function, bad_range, bad_limit, bad_state, bad_condition,
  bad_level, bad_number, limiter_reached, instrument_error, not_on, planner, DcLimits, DevicePair,
  Planned, Setup, on_pair, or_fault, is_on,
}
use kohdalab_iv.Desktop.Engine.Readings.{verify_range, verify_hardware_limit}
use kohdalab_iv.Transport.Instruments.{Role}

-- `0`, `+0` or `-0` before the first comma.
unfoldable pub is_clear : Text → Bool
is_clear reply =
    let code = trim (split_at b',' (trim reply)).0 in
    text_eq code (text_of "0") || (text_eq code (text_of "+0") || text_eq code (text_of "-0"))

abbrev pub protection_query : Mode → String
protection_query iv = ":SOUR:PROT:CURR?"
protection_query vi = ":SOUR:PROT:VOLT?"

module _ {F W : Type 0} (x : Setup F W) where
  -- Whether a level is off by half a step of the hardware at most.
  unfoldable pub is_near : F → F → F → Bool
  is_near actual expected resolution = not (
      x.numbers.lt
        (x.numbers.add (x.numbers.mul (x.numbers.abs resolution) (x.numbers.literal "0.5"))
          (x.numbers.literal "1e-12"))
        (x.numbers.abs (x.numbers.sub actual expected)))

  module _ (d : DevicePair W) (role : Role) where
    abbrev pub ask : String → Exec W EngineFault Text
    ask command = on_pair (d.query role (text_of command))

    abbrev pub tell : Text → Exec W EngineFault (Unit {0})
    tell command = on_pair (d.write role command)

    abbrev pub tell_number : String → F → Exec W EngineFault (Unit {0})
    tell_number head value = tell (text_of head ++ x.numbers.show_scientific value)

    unfoldable pub verify_identity : Exec W EngineFault (Unit {0})
    verify_identity = do
      expected ← gets (λ w. trim (d.identity role w))
      actual ← ask "*IDN?"
      check (text_eq (trim actual) expected) identity_changed

    -- The function, the range and the protection that the instrument tells.
    unfoldable pub verify_settings : Mode → F → F → Exec W EngineFault F
    verify_settings mode range compliance = do
      function ← ask ":SOUR:FUNC?"
      lift (or_fault bad_function (verify_function function mode))
      model ← gets (d.model role)
      special ← lift (or_fault planner (x.planner.source_range_query model))
      reply ←
          on_pair
            (d.query role (elim special [ none ↦ text_of ":SOUR:RANG?" | some query ↦ query ]))
      resolution ←
          lift (or_fault bad_range (verify_range x.numbers x.planner model mode range reply))
      profile ← lift (or_fault planner (x.planner.source_protection_profile model))
      (elim profile [
        | none ↦ pure resolution
        | some _ ↦ do
          limit ← ask (protection_query mode)
          lift (or_fault bad_limit (verify_hardware_limit x.numbers compliance limit))
          pure resolution
      ])

    unfoldable pub verify_existing_settings : Mode → Planned F → Exec W EngineFault F
    verify_existing_settings mode planned =
        verify_settings mode planned.source_range planned.hardware_compliance

    unfoldable pub verify_held_settings : Mode → DcLimits F → F → Exec W EngineFault (Unit {0})
    verify_held_settings mode held compliance = do
      _ ← verify_settings mode held.range compliance
      pure tt

    unfoldable pub check_condition :
        Option (Text × SourceProtectionProfile) → Exec W EngineFault (Unit {0})
    check_condition none = pure tt
    check_condition (some (query, masks)) = do
      reply ← on_pair (d.query role query)
      condition ← lift (or_fault bad_condition (source_condition reply masks))
      check (not (stopped condition)) limiter_reached

    unfoldable pub check_limiter : Exec W EngineFault (Unit {0})
    unfolding check_condition
    check_limiter = do
      model ← gets (d.model role)
      profile ← lift (or_fault planner (x.planner.source_protection_profile model))
      check_condition profile

    unfoldable pub set_level : F → Exec W EngineFault (Unit {0})
    set_level level = do tell_number ":SOUR:LEV:FIX " level; check_limiter

    unfoldable pub verify_error_queue_clear : Exec W EngineFault (Unit {0})
    verify_error_queue_clear = do reply ← ask "SYST:ERR?"; check (is_clear reply) instrument_error

    -- `safety::output_state` of the answer to `:OUTP?`.
    unfoldable pub read_output : Exec W EngineFault OutputState
    read_output = do reply ← ask ":OUTP?"; lift (or_fault bad_state (output_state reply))

    unfoldable pub verify_on : EngineFault → Exec W EngineFault (Unit {0})
    verify_on fault = do output ← read_output; check (is_on output) fault

    -- A level as the instrument tells it.
    unfoldable pub read_number : Exec W EngineFault F
    read_number = do
      reply ← ask ":SOUR:LEV?"
      lift (ok_or bad_number (x.numbers.parse (trim reply)))

    unfoldable pub read_level : Exec W EngineFault F
    read_level = do actual ← read_number; check (x.numbers.is_finite actual) bad_number; pure actual

    unfoldable pub verify_final_level : F → F → Exec W EngineFault (Unit {0})
    verify_final_level expected resolution = do
      actual ← read_level
      check (is_near actual expected resolution) bad_level
      verify_on not_on
      verify_error_queue_clear
      check_limiter
