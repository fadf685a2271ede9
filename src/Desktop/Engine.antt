-- ===== src/Desktop/Engine.antt =====
-- The measurement engine, crates/iv-desktop/src/engine.rs and engine/: what its parts share. They
-- act on a world `W`, in which the instruments and the requests of other threads live, and on the
-- snapshot, over numbers `F`. `Option<&mut DevicePair>` is an optional record of the operations of
-- the pair. The wording of errors is not modelled, and an error is kept as its cause.
pub mod Ramp
pub mod Readings
pub mod Exchange
pub mod Gate
pub mod SourceDc
pub mod Shutdown
pub mod Protection
pub mod Hardware
pub mod Evidence
use kohdalab_iv.Common.Exec.{Exec}
use kohdalab_iv.Common.{
  ℕ, String, Bool, true, false, Option, none, some, List, [], ◌∷◌, ◌++◌, Result, ok, err,
  if◌then◌else◌,
}
use kohdalab_iv.Common.Text.{Text}
use kohdalab_iv.Common.Float.{Float}
use kohdalab_iv.Transport.Instruments.{Role}
use kohdalab_iv.Transport.Pair.Shutdown.{OutputOffReport}
use kohdalab_iv.Transport.Fault.{Fault}
use kohdalab_iv.Desktop.States.{OutputState, Phase, Activity}
use kohdalab_iv.Desktop.Safety.{Mode, SourceProtectionProfile}

pub data EngineFault : Type 0 where
  transport : Fault → EngineFault
  not_connected previous_error no_transport no_identity identity_changed : EngineFault
  cancelled not_finite not_positive off_grid weaker_protection voltage_only : EngineFault
  unknown_profile unknown_range range_change compliance_change range_unknown : EngineFault
  bad_function bad_range bad_zero bad_limit bad_state bad_condition bad_level bad_number :
      EngineFault
  limiter_reached instrument_error not_on went_off not_off unverified_sources endless : EngineFault
  planner : EngineFault
  -- An error, and the one of the shutdown after it.
  off_failed : EngineFault → EngineFault → EngineFault
  emergency : EngineFault
  -- Messages that are joined by a dot.
  joined : EngineFault → EngineFault → EngineFault

-- `DcLimits` and `DcOutputState` of crates/iv-desktop/src/protocol.rs.
pub record DcLimits (F : Type 0) : Type 0 where
  pub range : F
  pub maximum : F
  pub resolution : F

pub record DcOutputState (F : Type 0) : Type 0 where
  pub mode : Mode
  pub value : F
  pub compliance : F
  pub ramp_step : F
  pub range : Option F

pub data Warning : Type 0 where
  zeroing : Role → Fault → Warning

-- The fields of `Snapshot` that the outputs use; the error is none if its message is empty.
pub record Snapshot (F : Type 0) : Type 0 where
  pub source_dc : Option (DcOutputState F)
  pub source_dc_limits : Option (DcLimits F)
  pub source2_dc : Option (DcOutputState F)
  pub source2_dc_limits : Option (DcLimits F)
  pub source2_connected : Bool
  pub source2_simulation : Bool
  pub source2_output : OutputState
  pub source2_level : Option F
  pub gate_connected : Bool
  pub gate_simulation : Bool
  pub gate_output : OutputState
  pub gate_voltage : Option F
  pub gate_compliance : Option F
  pub gate_revision : ℕ
  pub gate_dc_limits : Option (DcLimits F)
  pub phase : Phase
  pub source_connected : Bool
  pub source_simulation : Bool
  pub output : OutputState
  pub error : Option EngineFault
  pub activity : Activity
  pub warnings : List Warning

pub record Bench (F W : Type 0) : Type 0 where
  pub world : W
  pub state : Snapshot F

-- The operations of `DevicePair` that the engine calls.
pub record DevicePair (W : Type 0) : Type 0 where
  pub write : Role → Text → Exec W Fault (Unit {0})
  pub query : Role → Text → Exec W Fault Text
  pub force_output_off_role : Role → Exec W Fault OutputOffReport
  pub force_sources_output_off : W → W × List (Role × Result OutputOffReport Fault)
  pub is_connected : Role → W → Bool
  pub identity : Role → W → Text
  pub model : Role → W → String

-- A source range, `SourceRangeProfile` of crates/iv-core/src/lib.rs.
pub record SourceRange (F : Type 0) : Type 0 where
  pub command_value : F
  pub maximum : F
  pub resolution : F

-- The fields of `RunConfig` that differ from the default where an output is planned.
pub record DcConfig (F : Type 0) : Type 0 where
  pub source_model : String
  pub mode : Mode
  pub stop : F
  pub step : F
  pub source_limit : F
  pub compliance : F
  pub source_compliance : F
  pub ramp_step : F

-- The fields of a plan that an output uses.
pub record Planned (F : Type 0) : Type 0 where
  pub source_range : F
  pub hardware_compliance : F

-- What the engine calls of crates/iv-core/src: the planner, and the profiles of the instruments.
pub record Planner (F : Type 0) : Type 0 where
  pub nudge_source_value : F → F → F → F → Result F (Unit {0})
  pub manual_source_range : String → Mode → F → F → Result (SourceRange F) (Unit {0})
  pub fixed_manual_source_range : String → Mode → F → F → F → Result (SourceRange F) (Unit {0})
  -- The step of the prepared configuration.
  pub prepare_config : DcConfig F → Result F (Unit {0})
  pub plan : DcConfig F → Result (Planned F) (Unit {0})
  -- The ranges of the source with this model, for voltages and for currents.
  pub source_ranges : String → Mode → Result (Option (List (SourceRange F))) (Unit {0})
  pub source_range_query : String → Result (Option Text) (Unit {0})
  pub source_display_resolution : String → Mode → F → Result (Option F) (Unit {0})
  -- With the query of the condition register.
  pub source_protection_profile :
      String → Result (Option (Text × SourceProtectionProfile)) (Unit {0})

-- The surroundings of the engine. `cancelled` is `Control::cancelled`, and `off_requested` the flag
-- `off`: other threads may set them between two calls. A ramp makes `steps` steps at most.
pub record Setup (F W : Type 0) : Type 0 where
  pub numbers : Float F
  pub planner : Planner F
  pub cancelled : W → W × Bool
  pub off_requested : W → W × Bool
  -- Whether the ten seconds of a cleanup that began at the first world are over, and the wait after
  -- a step.
  pub is_late : W → W → Bool
  pub wait : F → W → W
  pub steps : ℕ

-- Actions on the bench, and those of the pair and the other threads.
abbrev pub M : Type 0 → Type 0 → Type 0 → Type 0
M F W A = Exec (Bench F W) EngineFault A

-- An action of the pair, with its error as the engine's.
abbrev pub as_engine_fault : {A : Type 0} → Result A Fault → Result A EngineFault
as_engine_fault (ok a) = ok a
as_engine_fault (err e) = err (transport e)

abbrev pub on_pair : {W A : Type 0} → Exec W Fault A → Exec W EngineFault A
on_pair m w = let (w', r) = m w in (w', as_engine_fault r)

abbrev pub or_fault : {A : Type 0} → EngineFault → Result A (Unit {0}) → Result A EngineFault
or_fault fault (ok a) = ok a
or_fault fault (err _) = err fault

-- `.ok_or(..)?`.
abbrev pub some_or : {S A : Type 0} → EngineFault → Option A → Exec S EngineFault A
some_or fault none s = (s, err fault)
some_or fault (some a) s = (s, ok a)

module _ {F W : Type 0} where
  abbrev pub in_world : {A : Type 0} → Exec W EngineFault A → M F W A
  in_world m b = let (w, r) = m b.world in (record b { world = w }, r)

  abbrev pub update : (Snapshot F → Snapshot F) → M F W (Unit {0})
  update f b = (record b { state = f b.state }, ok tt)

  -- `if control.cancelled() { Err(..) }`.
  abbrev pub ensure_not_cancelled : Setup F W → Exec W EngineFault (Unit {0})
  ensure_not_cancelled x w =
      let (w', stop) = x.cancelled w in (w', if stop then err cancelled else ok tt)

abbrev pub is_on : OutputState → Bool
is_on OutputState.on = true
is_on _ = false

abbrev pub is_some : {A : Type 0} → Option A → Bool
is_some none = false
is_some (some _) = true

-- The warning of a shutdown that was verified.
abbrev pub warn : {F : Type 0} → Role → OutputOffReport → Snapshot F → Snapshot F
warn role report s = elim report.zeroing_warning [
  | none ↦ s
  | some fault ↦ record s { warnings = s.warnings ++ zeroing role fault ∷ [] }
]
