-- ===== src/Desktop/Engine/Gate.antt =====
-- The gate bias, crates/iv-desktop/src/engine/gate.rs.
pub mod Limits
pub mod Setting
pub mod Checked
pub mod Settled
pub mod Steps
pub mod Kept
pub mod Closed
use kohdalab_iv.Common.Exec.{Exec, ◌>>=◌, ◌>>◌, pure, fail, lift, gets, check}
use kohdalab_iv.Common.{
  ℕ, ◌+◌, ◌%◌, ◌^◌, String, Bool, true, false, not, ◌&&◌, ◌||◌, Option, none, some, [], ◌∷◌, ◌++◌,
  Result, ok, err, ok_or, if◌then◌else◌, ◌==◌,
}
use kohdalab_iv.Common.Text.{Text, text_of, text_eq, split_at}
use kohdalab_iv.Transport.Instruments.{gate}
use kohdalab_iv.Transport.Replies.{trim}
use kohdalab_iv.Transport.Pair.Shutdown.{OutputOffReport}
use kohdalab_iv.Desktop.States.{OutputState, unknown, off, on, is_empty}
use kohdalab_iv.Desktop.Safety.{Mode, iv, verify_function, output_state, source_condition, stopped}
use kohdalab_iv.Desktop.Engine.{
  EngineFault, not_connected, previous_error, no_transport, no_identity, identity_changed,
  cancelled, range_change, compliance_change, range_unknown, bad_function, bad_range, bad_zero,
  bad_limit, bad_state, bad_condition, bad_level, bad_number, limiter_reached, instrument_error,
  not_on, went_off, not_off, planner, off_failed, DcLimits, Snapshot, Bench, DevicePair, Planned,
  Setup, M, in_world, update, on_pair, ensure_not_cancelled, or_fault, some_or, is_on, is_some,
  warn,
}
use kohdalab_iv.Desktop.Engine.Ramp.{ramp, approach_target}
use kohdalab_iv.Desktop.Engine.Readings.{nought, verify_range, verify_zero, verify_hardware_limit}
use kohdalab_iv.Desktop.Engine.Gate.Limits.{
  same_setting, range_limits, validate_held_value, fits, gate_plan,
}
use kohdalab_iv.Desktop.Engine.Exchange.{read_output, check_limiter, verify_error_queue_clear}

abbrev pub next_revision : ℕ → ℕ
next_revision n = (n + 1) % 2 ^ 64

abbrev pub lost : {F : Type 0} → Snapshot F → Snapshot F
lost s = record s { gate_output = unknown; gate_dc_limits = none }

-- The error of an operation after the output-off that followed it.
abbrev pub after_off :
    {F W A : Type 0}
    → EngineFault
    → Bench F W × Result (Unit {0}) EngineFault
    → Bench F W × Result A EngineFault
after_off fault (b, ok _) = (b, err fault)
after_off fault (b, err off_fault) =
    (record b { state = lost b.state }, err (off_failed fault off_fault))

module _ {F W : Type 0} (x : Setup F W) where
  abbrev pub switched_off : Snapshot F → Snapshot F
  switched_off s = record s {
    gate_output = off;
    gate_voltage = some (nought x.numbers);
    gate_dc_limits = none;
    gate_revision = next_revision s.gate_revision;
  }

  unfoldable pub record_off : OutputOffReport → M F W (Unit {0})
  record_off report =
      if report.output_off_verified
      then update (λ s. warn gate report (switched_off s))
      else (do update lost; fail not_off)

  unfoldable pub force_off : Option (DevicePair W) → M F W (Unit {0})
  unfolding record_off
  force_off pair = do
    simulated ← gets (λ b. b.state.gate_simulation)
    (if simulated then update switched_off else (do
      d ← some_or no_transport pair
      report ← in_world (on_pair (d.force_output_off_role gate))
      record_off report))

  unfoldable pub fail_closed : {A : Type 0} → Option (DevicePair W) → EngineFault → M F W A
  fail_closed pair fault b = after_off fault (force_off pair b)

  unfoldable pub output_off : Option (DevicePair W) → M F W (Unit {0})
  output_off pair = do
    connected ← gets (λ b. b.state.gate_connected)
    check connected not_connected
    force_off pair

  -- `if let Err(error) = .. { return fail_closed(..) }`.
  abbrev pub or_close :
      DevicePair W
      → M F W (Unit {0})
      → Bench F W × Result (Unit {0}) EngineFault
      → Bench F W × Result (Unit {0}) EngineFault
  or_close d next (b, ok _) = next b
  or_close d next (b, err fault) = fail_closed (some d) fault b

  unfoldable pub check_health : DevicePair W → M F W (Unit {0})
  check_health d b =
      or_close d (λ b'. or_close d (pure tt) (in_world (check_limiter x d gate) b'))
        (in_world (verify_error_queue_clear x d gate) b)

  -- What follows a query of the output that was answered.
  unfoldable pub check_state : DevicePair W → OutputState → M F W (Unit {0})
  unfolding check_health
  check_state d output = if is_on output then check_health d else fail_closed (some d) went_off

  unfoldable pub check_gate : Option (DevicePair W) → M F W (Unit {0})
  check_gate pair b =
      if not b.state.gate_connected || (b.state.gate_simulation || not (is_on b.state.gate_output))
      then (b, ok tt)
      else ((do
        d ← some_or no_transport pair
        output ← in_world (read_output x d gate)
        check_state d output)
          b)
