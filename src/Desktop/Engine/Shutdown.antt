-- ===== src/Desktop/Engine/Shutdown.antt =====
-- The shutdown of the outputs in crates/iv-desktop/src/engine.rs: after a run, after a protection
-- stop, and of the gate. The functions that return nothing change the bench.
pub mod Verified
pub mod Accounted
use kohdalab_iv.Common.Exec.{Exec, ◌>>=◌, ◌>>◌, pure, fail, lift, gets, check}
use kohdalab_iv.Common.{
  Bool, true, false, not, ◌&&◌, ◌||◌, Option, none, some, List, [], ◌∷◌, ◌++◌, Result, ok, err,
  if◌then◌else◌,
}
use kohdalab_iv.Common.Text.{text_of}
use kohdalab_iv.Transport.Instruments.{Role, source}
use kohdalab_iv.Transport.Fault.{Fault}
use kohdalab_iv.Transport.Pair.Shutdown.{OutputOffReport}
use kohdalab_iv.Desktop.States.{
  OutputState, unknown, off, cleaning_up, failed, returning_to_zero, verifying_output_off,
}
use kohdalab_iv.Desktop.Engine.{
  EngineFault, not_connected, no_transport, not_off, unverified_sources, transport, joined,
  Snapshot, Bench, DevicePair, Setup, M, in_world, update, on_pair, some_or, is_on, warn,
}
use kohdalab_iv.Desktop.Engine.Ramp.{ramp, return_to_zero}
use kohdalab_iv.Desktop.Engine.Readings.{nought}
use kohdalab_iv.Desktop.Engine.Gate

-- `errors.push(..)`, with the errors joined.
abbrev pub push : EngineFault → Option EngineFault → Option EngineFault
push fault none = some fault
push fault (some before) = some (joined before fault)

abbrev pub result_of : Option EngineFault → Result (Unit {0}) EngineFault
result_of none = ok tt
result_of (some fault) = err fault

-- `if role == Role::Source { 0 } else { 1 }`.
unfoldable pub is_second : Role → Bool
is_second source = false
is_second _ = true

-- The state of the loop over the reports.
pub record Tally (F : Type 0) : Type 0 where
  pub first : Bool
  pub second : Bool
  pub fault : Option EngineFault
  pub state : Snapshot F

module _ {F : Type 0} where
  unfoldable pub tally_verified : Role → OutputOffReport → Tally F → Tally F
  unfolding is_second
  tally_verified role report t =
      if is_second role
      then record t {
        second = true;
        state = warn role report (record t.state { source2_output = off });
      }
      else record t { first = true; state = warn role report t.state }

  unfoldable pub tally_result : Role → Result OutputOffReport Fault → Tally F → Tally F
  unfolding tally_verified
  tally_result role (err e) t = record t { fault = push (transport e) t.fault }
  tally_result role (ok report) t =
      if report.output_off_verified
      then tally_verified role report t
      else record t { fault = push not_off t.fault }

  unfoldable pub tally_all : List (Role × Result OutputOffReport Fault) → Tally F → Tally F
  unfolding tally_result
  tally_all [] t = t
  tally_all ((role, r) ∷ rest) t = tally_all rest (tally_result role r t)

  -- What is known before anything was asked: a source that is absent or simulated counts as off.
  unfoldable pub initial_tally : Snapshot F → Tally F
  initial_tally s = record {
    first = not s.source_connected || s.source_simulation && s.source_connected;
    second = not s.source2_connected || s.source2_simulation && s.source2_connected;
    fault = none;
    state = record s {
      output = unknown;
      source2_output =
          if s.source2_connected
          then (if s.source2_simulation then off else unknown)
          else s.source2_output;
    };
  }

-- The snapshot after the source was asked to switch off, with the errors until then.
module _ {F : Type 0} where
  unfoldable pub note_verified : OutputOffReport → Option EngineFault → Snapshot F → Snapshot F
  note_verified report none s =
      warn source report (record s { output = off; source_dc = none; source_dc_limits = none })
  note_verified report (some fault) s =
      record (warn source report
        (record s { output = off; source_dc = none; source_dc_limits = none })) {
          error = some fault;
        }

  unfoldable pub note_off :
      Result OutputOffReport Fault → Option EngineFault → Snapshot F → Snapshot F
  unfolding note_verified
  note_off (err e) faults s = record s { error = push (transport e) faults }
  note_off (ok report) faults s =
      if report.output_off_verified
      then note_verified report faults s
      else record s { error = push not_off faults }

abbrev pub swept : {F W : Type 0} → Bench F W × Result (Unit {0}) EngineFault → Bench F W
swept (b, ok _) = b
swept (b, err fault) = record b { state = record b.state { error = some fault } }

unfoldable pub sweep_results :
    {W : Type 0} → Option (DevicePair W) → W → W × List (Role × Result OutputOffReport Fault)
sweep_results none w = (w, [])
sweep_results (some d) w = d.force_sources_output_off w

module _ {F W : Type 0} (x : Setup F W) where
  abbrev pub all_off : Snapshot F → Snapshot F
  all_off s = record s {
    output = off;
    source2_level = some (nought x.numbers);
    source_dc = none;
    source2_dc = none;
    source_dc_limits = none;
    source2_dc_limits = none;
  }

  unfoldable pub conclude_tally : Tally F → Snapshot F × Result (Unit {0}) EngineFault
  conclude_tally t =
      if t.first && t.second
      then (all_off t.state, result_of t.fault)
      else (t.state, elim t.fault [ none ↦ err unverified_sources | some fault ↦ err fault ])

  unfoldable pub shutdown_sweep_sources : Option (DevicePair W) → M F W (Unit {0})
  unfolding sweep_results conclude_tally
  shutdown_sweep_sources pair b =
      let (w, results) = sweep_results pair b.world in
      let (s, r) = conclude_tally (tally_all results (initial_tally b.state)) in
      (record { world = w; state = s }, r)

  unfoldable pub shutdown_gate : Option (DevicePair W) → M F W (Unit {0})
  shutdown_gate pair b = if not b.state.gate_connected then (b, ok tt) else Gate.output_off x pair b

  abbrev pub record_failure : Bench F W × Result (Unit {0}) EngineFault → Bench F W
  record_failure (b, ok _) = b
  record_failure (b, err fault) = record b {
    state = record b.state { error = push fault b.state.error; phase = failed };
  }

  unfoldable pub shutdown_gate_for_recording_failure : Option (DevicePair W) → Bench F W → Bench F W
  shutdown_gate_for_recording_failure pair b =
      if not b.state.gate_connected || not (is_on b.state.gate_output)
      then b
      else record_failure (shutdown_gate pair b)

  -- `set_level` of engine.rs, which does not ask for the limiter.
  unfoldable pub set_level : DevicePair W → F → Exec W EngineFault (Unit {0})
  set_level d level =
      on_pair (d.write source (text_of ":SOUR:LEV:FIX " ++ x.numbers.show_scientific level))

  unfoldable pub wait_step : F → W → W
  wait_step wait w =
      if x.numbers.lt (nought x.numbers) wait
      then x.wait
          (if x.numbers.le wait (x.numbers.literal "0.1") then wait else x.numbers.literal "0.1") w
      else w

  -- The way back to zero from the level `current`, for ten seconds at most.
  unfoldable pub ramp_down : DevicePair W → F → F → F → Exec W EngineFault Bool
  unfolding set_level wait_step
  ramp_down d ramp_step wait current start =
      let ((w, _), r) =
        ramp x.numbers x.steps return_to_zero (nought x.numbers) ramp_step
          (λ w. if x.is_late start w then (w, true) else x.off_requested w)
          (λ level w.
            let (w', r) = set_level d level w in
            elim r as (λ _. W × Result Bool EngineFault) [
              | ok _ ↦ (wait_step wait w', ok true)
              | err fault ↦ (w', err fault)
            ])
          (start, current) in
      (w, r)

  -- The step, the wait and the level of a ramp.
  unfoldable pub maybe_ramp_down :
      DevicePair W → Option (F × F × F) → Bench F W → Bench F W × Option EngineFault
  unfolding ramp_down
  maybe_ramp_down d none b = (b, none)
  maybe_ramp_down d (some (ramp_step, wait, current)) b =
      let (w, requested) = x.off_requested b.world in
      let (w', r) = ramp_down d ramp_step wait current w in
      let s : Snapshot F = record b.state { activity = returning_to_zero } in
      if requested
      then (record b { world = w }, none)
      else (record { world = w'; state = s }, elim r [ ok _ ↦ none | err fault ↦ some fault ])

  unfoldable pub clean_source : DevicePair W → Option (F × F × F) → Bench F W → Bench F W
  unfolding maybe_ramp_down note_off
  clean_source d level b =
      let (b', faults) = maybe_ramp_down d level b in
      let (w, r) = d.force_output_off_role source b'.world in
      let s : Snapshot F = record b'.state { activity = verifying_output_off } in
      record { world = w; state = note_off r faults s }

  -- The cleanup without a second source.
  unfoldable pub clean_single : Option (DevicePair W) → Option (F × F × F) → Bench F W → Bench F W
  unfolding clean_source
  clean_single pair level b =
      if b.state.source_simulation && b.state.source_connected
      then record b {
        state = record b.state { output = off; source_dc = none; source_dc_limits = none };
      }
      else (if not b.state.source_connected
          then record b { state = record b.state { error = some not_connected } }
          else elim pair [
            | none ↦ record b { state = record b.state { error = some no_transport } }
            | some d ↦ clean_source d level b
          ])

  unfoldable pub clean_output : Option (DevicePair W) → Option (F × F × F) → Bench F W → Bench F W
  unfolding clean_single
  clean_output pair level b =
      let s : Snapshot F = record b.state { phase = cleaning_up; output = unknown } in
      let cleaning : Bench F W = record b { state = s } in
      if s.source2_connected
      then swept (shutdown_sweep_sources pair cleaning)
      else clean_single pair level cleaning

  unfoldable pub protect_single : Option (DevicePair W) → M F W (Unit {0})
  protect_single pair = do
    d ← some_or no_transport pair
    report ← in_world (on_pair (d.force_output_off_role source))
    check report.output_off_verified not_off
    update (λ s. warn source report (record s { output = off }))

  unfoldable pub protection_output_off : Option (DevicePair W) → M F W (Unit {0})
  unfolding protect_single
  protection_output_off pair = do
    update (λ s. record s { activity = verifying_output_off; output = unknown })
    second ← gets (λ b. b.state.source2_connected)
    simulated ← gets (λ b. b.state.source_simulation)
    (if second
        then shutdown_sweep_sources pair
        else (if simulated then update (λ s. record s { output = off }) else protect_single pair))
