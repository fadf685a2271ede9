-- ===== src/Examples/EngineExamples.antt =====
-- The theorems on the outputs of the engine at concrete inputs.
use kohdalab_iv.Transport.Drivers
use kohdalab_iv.Transport.Instruments
use kohdalab_iv.Catalog.{instrument_descriptor, find_descriptor, instrument_catalog}
use kohdalab_iv.Transport.Drivers.{is_legacy_source, dialect_eq, is_dialect}
use kohdalab_iv.Transport.Pair.Endpoints.{request_before}
use kohdalab_iv.Desktop.Engine.{limiter_reached, cancelled}
use kohdalab_iv.Desktop.Engine.SourceDc
use kohdalab_iv.Desktop.Engine.SourceDc.{connected, simulation}
use kohdalab_iv.Desktop.Engine.SourceDc.Planning.{dc_plan}
use kohdalab_iv.Desktop.Engine.SourceDc.Setting.{set}
use kohdalab_iv.Desktop.Engine.SourceDc.Settled.{set-Settled}
use kohdalab_iv.Desktop.Engine.Shutdown.{
  shutdown_sweep_sources, clean_output, protection_output_off, clean_single, clean_source,
  maybe_ramp_down, ramp_down, wait_step, note_off, note_verified,
}
use kohdalab_iv.Desktop.Engine.Shutdown
use kohdalab_iv.Desktop.Engine.Shutdown.Verified.{Verdict, shutdown_sweep_sources-Verdict}
use kohdalab_iv.Desktop.Engine.Shutdown.Accounted.{
  Cleaned, Stopped, clean_output-Cleaned, protection_output_off-Stopped,
}
use kohdalab_iv.Desktop.Engine.Hardware.{hardware, IsOffOrUnknown, set_voltage-SwitchedOff}
use kohdalab_iv.Transport.Pair.{Pair, new, is_connected, slot, endpoint_of}
use kohdalab_iv.Examples.PairExamples.{sessions, connected as adapter_at}
use kohdalab_iv.Desktop.Engine.Gate.Limits.{
  gate_plan, finite, finite_positive, fixed_range, same_setting, find_range, range_limits,
  validate_held_value, fits,
}
use kohdalab_iv.Protocol.{is_whitespace}
use kohdalab_iv.Desktop.Engine.Readings.{
  positive_number, verify_hardware_limit, verify_range, verify_zero,
}
use kohdalab_iv.Desktop.Engine.Exchange.{
  check_condition, check_limiter, is_clear, is_near, read_level, read_number, read_output,
  set_level, verify_error_queue_clear, verify_existing_settings, verify_final_level,
  verify_identity, verify_on, verify_settings,
}
use kohdalab_iv.Common.{
  ℕ, ◌+◌, ◌-◌, ◌*◌, ◌/◌, max, ◌≡◌, refl, Bool, true, false, ◌||◌, none, some, List, [], ◌∷◌, Result,
  ok, err, if◌then◌else◌, ltb, leb, ◌==◌, str_eq,
}
use kohdalab_iv.Common.Text.{
  Text, text_of, parse_u16, parse_digits_u16, split_at, uppercase, text_eq, strip_prefix, parse_u8,
  parse_digits,
}
use kohdalab_iv.Common.Float.{Float}
use kohdalab_iv.Examples.TransportExamples.{answer}
use kohdalab_iv.Transport.Instruments.{Role, gate, source, catalog_role, is_usable}
use kohdalab_iv.Transport.Replies.{
  trim, trim_end, trim_start, legacy_output, status_token, legacy_status, starts_with,
}
use kohdalab_iv.Transport.Pair.Shutdown.{
  force_output_off_role, shut_down, check_before_off, needs_check, output_off_with_recovery,
  output_off_once, output_off_dispatch, output_off_verify_and_zero, verify_and_zero, is_off,
  zero_level, mark_failed, read_output as told_output,
}
use kohdalab_iv.Desktop.States.{OutputState, unknown, off, on, idle, is_empty}
use kohdalab_iv.Desktop.States
use kohdalab_iv.Desktop.Safety.{
  iv, condition_of, is_function, output_state, plain, says_off, says_on, source_condition, stopped,
  trim_quotes_end, trim_quotes_start, verify_function,
}
use kohdalab_iv.Desktop.Engine.{
  EngineFault, DcOutputState, Snapshot, Bench, DevicePair, Planner, Setup,
}
use kohdalab_iv.Desktop.Engine.Ramp.{is_away, next_level, ramp}
use kohdalab_iv.Desktop.Engine.Gate.{
  check_gate, force_off, record_off, fail_closed, check_state, check_health,
}
use kohdalab_iv.Desktop.Engine.Gate.Setting.{
  set_voltage, set_pair, set_hardware, ensure_gate, operation, start_up, configure, finish,
  initial_level, planned_result, apply_plan, prepare, ramp_gate, switch_on,
}
use kohdalab_iv.Desktop.Engine.Gate.Settled.{Settled, set_voltage-Settled}
use kohdalab_iv.Desktop.Engine.Gate.Checked.{Polled, check_gate-Polled}

-- The whole numbers from zero on, in which the difference of two is the distance between them.
abbrev pub whole : Float ℕ
whole = record {
  literal = λ s. if str_eq s "1.0" || str_eq s "1e-6" then 1 else 0;
  parse = parse_u16;
  is_finite = λ a. true;
  has_fraction = λ a. false;
  le = leb;
  lt = ltb;
  eq = λ a b. a == b;
  add = λ a b. a + b;
  sub = λ a b. (a - b) + (b - a);
  mul = λ a b. a * b;
  div = λ a b. a / b;
  max = max;
  abs = λ a. a;
  signum = λ a. if a == 0 then 0 else 1;
  show_integer = λ a. [];
  show_scientific = λ a. [];
}

-- Every source has one range, up to 12 in steps of 1, and a condition register.
abbrev pub planner : Planner ℕ
planner = record {
  nudge_source_value = λ value delta resolution maximum. ok value;
  manual_source_range = λ model mode value compliance.
      ok (record { command_value = 10; maximum = 12; resolution = 1 });
  fixed_manual_source_range = λ model mode value compliance range.
      ok (record { command_value = 10; maximum = 12; resolution = 1 });
  prepare_config = λ c. ok c.step;
  plan = λ c. ok (record { source_range = 10; hardware_compliance = c.source_compliance });
  source_ranges =
      λ model mode. ok (some (record { command_value = 10; maximum = 12; resolution = 1 } ∷ []));
  source_range_query = λ model. ok none;
  source_display_resolution = λ model mode range. ok (some 1);
  source_protection_profile = λ model. ok (
      some (
        text_of ":STAT:COND?",
        record { low_limiter_mask = 1; high_limiter_mask = 2; emergency_mask = 4 },
      ));
}

abbrev pub setup : {W : Type 0} → Bool → Setup ℕ W
setup cancel = record {
  numbers = whole;
  planner = planner;
  cancelled = λ w. (w, cancel);
  off_requested = λ w. (w, false);
  is_late = λ start w. false;
  wait = λ time w. w;
  steps = 10;
}

-- A pair that takes every command, answers with the texts of a list, and switches off.
abbrev pub device : DevicePair (List Text)
device = record {
  write = λ role command w. (w, ok tt);
  query = λ role command. answer;
  force_output_off_role =
      λ role w. (w, ok (record { output_off_verified = true; zeroing_warning = none }));
  force_sources_output_off =
      λ w. (w, (source, ok (record { output_off_verified = true; zeroing_warning = none })) ∷ []);
  is_connected = λ role w. true;
  identity = λ role w. text_of "GS210";
  model = λ role w. "YOKOGAWA_GS210";
}

abbrev pub snapshot : OutputState → Snapshot ℕ
snapshot output = record {
  source_dc = none;
  source_dc_limits = none;
  source2_dc = none;
  source2_dc_limits = none;
  source2_connected = false;
  source2_simulation = false;
  source2_output = off;
  source2_level = none;
  gate_connected = true;
  gate_simulation = false;
  gate_output = output;
  gate_voltage = none;
  gate_compliance = none;
  gate_revision = 0;
  gate_dc_limits = none;
  phase = idle;
  source_connected = true;
  source_simulation = false;
  output = output;
  error = none;
  activity = States.Activity.idle;
  warnings = [];
}

-- The answers to the setting of a gate that is off to 2 in steps of 1, with a protection of 5.
abbrev ready : Bench ℕ (List Text)
ready = record {
  world =
      text_of "GS210"
      ∷ text_of "VOLT"
      ∷ text_of "10"
      ∷ text_of "5"
      ∷ text_of "0"
      ∷ text_of "0"
      ∷ text_of "1"
      ∷ text_of "0"
      ∷ text_of "0"
      ∷ text_of "2"
      ∷ text_of "1"
      ∷ text_of "0,none"
      ∷ text_of "0"
      ∷ [];
  state = snapshot off;
}

named : is_empty (trim (text_of "GS210")) ≡ false
unfolding trim trim_end trim_start is_whitespace is_empty
named = refl

set_on : (set_voltage (setup false) 2 5 1 none (some device) ready).1 ≡ ok tt
unfolding parse_digits_u16 parse_u16 split_at uppercase text_eq check_condition check_limiter
    is_clear is_near read_level read_number read_output set_level verify_error_queue_clear
    verify_existing_settings verify_final_level verify_identity verify_on verify_settings
    positive_number verify_hardware_limit verify_range verify_zero condition_of is_function
    output_state plain says_off says_on source_condition stopped trim_quotes_end trim_quotes_start
    verify_function trim trim_end trim_start is_whitespace is_empty is_away next_level ramp
    gate_plan finite finite_positive fixed_range same_setting find_range range_limits
    validate_held_value fits set_voltage set_pair set_hardware ensure_gate operation start_up
    configure finish initial_level planned_result apply_plan prepare ramp_gate switch_on force_off
    record_off fail_closed
set_on = refl

set_voltage-Settled_example :
    Settled
      (setup false)
      device
      (gate_plan {W = List Text} (setup false) (device.model gate ready.world) 2 5 1 none)
      2
      (set_voltage (setup false) 2 5 1 none (some device) ready)
set_voltage-Settled_example =
    set_voltage-Settled (setup false) device 2 5 1 none ready refl refl refl refl named

-- A poll of a gate whose limiter is active.
abbrev polled : Bench ℕ (List Text)
polled = record { world = text_of "1" ∷ text_of "0,none" ∷ text_of "2" ∷ []; state = snapshot on }

limited : (check_gate (setup false) (some device) polled).1 ≡ err limiter_reached
unfolding parse_digits_u16 parse_u16 split_at uppercase text_eq check_condition check_limiter
    is_clear is_near read_level read_number read_output set_level verify_error_queue_clear
    verify_existing_settings verify_final_level verify_identity verify_on verify_settings
    positive_number verify_hardware_limit verify_range verify_zero condition_of is_function
    output_state plain says_off says_on source_condition stopped trim_quotes_end trim_quotes_start
    verify_function trim trim_end trim_start is_whitespace is_empty is_away next_level ramp
    gate_plan finite finite_positive fixed_range same_setting find_range range_limits
    validate_held_value fits check_gate check_state check_health force_off record_off fail_closed
limited = refl

check_gate-Polled_example :
    Polled (setup false) device polled (check_gate (setup false) (some device) polled)
check_gate-Polled_example = check_gate-Polled (setup false) device polled refl refl refl

-- A source 2 that does not take the function which was asked for.
abbrev second : Bench ℕ (List Text)
second = record {
  world = text_of "GS210" ∷ text_of "CURR" ∷ [];
  state = record (snapshot off) { source2_connected = true };
}

abbrev request : DcOutputState ℕ
request = record { mode = iv; value = 2; compliance = 5; ramp_step = 1; range = none }

connected_2 : connected true second.state ≡ true
unfolding connected simulation
connected_2 = refl

real_2 : simulation true second.state ≡ false
unfolding connected simulation
real_2 = refl

set-Settled_example :
    SourceDc.Settled.Settled
      (setup false)
      device
      true
      request
      (dc_plan {W = List Text}
        (setup false)
        (device.model (SourceDc.role true) second.world)
        true
        request)
      (set (setup false) true request (some device) second)
set-Settled_example =
    set-Settled (setup false) device true request second connected_2 refl real_2 refl named

-- Both sources are connected, and the pair reports on the first only.
shutdown_sweep_sources-Verdict_example :
    Verdict
      (setup false)
      (some device)
      second
      (shutdown_sweep_sources (setup false) (some device) second)
shutdown_sweep_sources-Verdict_example =
    shutdown_sweep_sources-Verdict (setup false) (some device) second

-- A single source that is on, brought down from 3 in steps of 1.
abbrev pub running : Bench ℕ (List Text)
running = record { world = []; state = snapshot on }

cleaned_off : (clean_output (setup false) (some device) (some (1, 0, 3)) running).state.output ≡ off
unfolding clean_output clean_single clean_source maybe_ramp_down ramp_down Shutdown.set_level
    wait_step note_off note_verified ramp is_away next_level
cleaned_off = refl

clean_output-Cleaned_example :
    Cleaned
      (setup false)
      (some device)
      running
      (clean_output (setup false) (some device) (some (1, 0, 3)) running)
clean_output-Cleaned_example =
    clean_output-Cleaned (setup false) (some device) (some (1, 0, 3)) running

protection_output_off-Stopped_example :
    Stopped
      (setup false)
      (some device)
      running
      (protection_output_off (setup false) (some device) running)
protection_output_off-Stopped_example =
    protection_output_off-Stopped (setup false) (some device) running

-- The gate of a real pair, a 7651 on an adapter, and a request that is cancelled at once.
abbrev with_gate : Bench ℕ (Pair (List Text))
with_gate = record {
  world = record (new ([] ∷ text_of "STS1=0" ∷ [] ∷ [])) { gate_slot = adapter_at 1 };
  state = snapshot off;
}

abbrev on_hardware : Bench ℕ (Pair (List Text)) × Result (Unit {0}) EngineFault
on_hardware =
    set_voltage (setup true) 2 5 1 none (some (hardware whole (λ s. true) sessions)) with_gate

attached : is_connected gate with_gate.world ≡ true
unfolding slot is_connected new
attached = refl

known : is_empty (trim (slot gate with_gate.world).identity) ≡ false
unfolding slot is_connected new trim trim_end trim_start is_whitespace is_empty
known = refl

refused : on_hardware.1 ≡ err cancelled
unfolding set_voltage set_pair set_hardware ensure_gate is_connected is_empty trim trim_start
    trim_end is_whitespace gate_plan finite finite_positive fixed_range same_setting planned_result
    apply_plan operation fail_closed force_off record_off slot new text_eq verify_identity
    force_output_off_role shut_down check_before_off needs_check output_off_with_recovery
    output_off_once output_off_dispatch endpoint_of request_before output_off_verify_and_zero
    verify_and_zero is_legacy_source dialect_eq is_dialect instrument_descriptor find_descriptor
    instrument_catalog legacy_output status_token legacy_status strip_prefix starts_with is_off
    zero_level mark_failed catalog_role parse_u8 parse_digits is_usable Drivers.dialect
    Instruments.dialect told_output
refused = refl

set_voltage-SwitchedOff_example : IsOffOrUnknown whole (λ s. true) sessions on_hardware.0
set_voltage-SwitchedOff_example =
    set_voltage-SwitchedOff whole (λ s. true) sessions (setup true) 2 5 1 none with_gate cancelled
      refl refl refl attached known refused
