-- ===== src/Desktop/Engine/Shutdown/Verified.antt =====
-- The sources that `shutdown_sweep_sources` of crates/iv-desktop/src/engine.rs reports as off.
use kohdalab_iv.Common.{
  ◌≡◌, refl, ◌∙◌, ◌⊎◌, inl, inr, Bool, true, false, not, ◌&&◌, ◌||◌, Option, List, [], ◌∷◌, arith,
  Result, ok, err, Bool-cases, Option-cases,
}
use kohdalab_iv.Transport.Instruments.{Role}
use kohdalab_iv.Transport.Fault.{Fault}
use kohdalab_iv.Transport.Pair.Shutdown.{OutputOffReport}
use kohdalab_iv.Desktop.States.{unknown, off}
use kohdalab_iv.Desktop.Engine.{
  EngineFault, unverified_sources, Snapshot, Bench, DevicePair, Setup, warn,
}
use kohdalab_iv.Desktop.Engine.Shutdown.{
  is_second, Tally, tally_verified, tally_result, tally_all, initial_tally, conclude_tally,
  sweep_results, shutdown_sweep_sources,
}

-- One of the reports is of the first (or the second) source, and it is verified.
pub data Reported (second : Bool) : List (Role × Result OutputOffReport Fault) → Type 0 where
  here :
      {role : Role} {report : OutputOffReport} {rest : List (Role × Result OutputOffReport Fault)}
      → is_second role ≡ second
      → report.output_off_verified ≡ true
      → Reported second ((role, ok report) ∷ rest)
  there :
      {entry : Role × Result OutputOffReport Fault}
      {rest : List (Role × Result OutputOffReport Fault)}
      → Reported second rest
      → Reported second (entry ∷ rest)

abbrev of_tally : {F : Type 0} → Bool → Tally F → Bool
of_tally true t = t.second
of_tally false t = t.first

module _ {F : Type 0} where
  -- One report marks its own source only.
  tally_result-marks :
      (second : Bool) (role : Role) (r : Result OutputOffReport Fault)
      (rest : List (Role × Result OutputOffReport Fault)) (t : Tally F)
      → of_tally second (tally_result role r t) ≡ true
      → (of_tally second t ≡ true) ⊎ Reported second ((role, r) ∷ rest)
  unfolding tally_result tally_verified
  tally_result-marks true role (err e) rest t h = inl h
  tally_result-marks false role (err e) rest t h = inl h
  tally_result-marks true role (ok report) rest t h = elim (Bool-cases report.output_off_verified) [
    | inr no_report ↦ inl (ground arith)
    | inl verified ↦ elim (Bool-cases (is_second role)) [
      | inl second ↦ inr (here second verified)
      | inr first ↦ inl (ground arith)
    ]
  ]
  tally_result-marks false role (ok report) rest t h =
      elim (Bool-cases report.output_off_verified) [
        | inr no_report ↦ inl (ground arith)
        | inl verified ↦ elim (Bool-cases (is_second role)) [
          | inl second ↦ inl (ground arith)
          | inr first ↦ inr (here first verified)
        ]
      ]

  tally_all-marks :
      (second : Bool) (results : List (Role × Result OutputOffReport Fault)) (t : Tally F)
      → of_tally second (tally_all results t) ≡ true
      → (of_tally second t ≡ true) ⊎ Reported second results
  unfolding tally_all
  tally_all-marks second [] t h = inl h
  tally_all-marks second ((role, r) ∷ rest) t h =
      elim (tally_all-marks second rest (tally_result role r t) h) [
        | inl marked ↦ tally_result-marks second role r rest t marked
        | inr later ↦ inr (there later)
      ]

  warn-output :
      (role : Role) (report : OutputOffReport) (s : Snapshot F)
      → (warn role report s).output ≡ s.output
  warn-output role report s = elim (Option-cases report.zeroing_warning) [
    | inl q ↦ ground arith
    | inr (w, q) ↦ ground arith
  ]

  -- The aggregate output is not touched before the end.
  tally_result-output :
      (role : Role) (r : Result OutputOffReport Fault) (t : Tally F)
      → (tally_result role r t).state.output ≡ t.state.output
  unfolding tally_result tally_verified
  tally_result-output role (err e) t = refl
  tally_result-output role (ok report) t = elim (Bool-cases report.output_off_verified) [
    | inr no_report ↦ ground arith
    | inl verified ↦ elim (Bool-cases (is_second role)) [
      | inl second ↦
          ground (arith, warn-output role report (record t.state { source2_output = off }))
      | inr first ↦ ground (arith, warn-output role report t.state)
    ]
  ]

  tally_all-output :
      (results : List (Role × Result OutputOffReport Fault)) (t : Tally F)
      → (tally_all results t).state.output ≡ t.state.output
  unfolding tally_all
  tally_all-output [] t = refl
  tally_all-output ((role, r) ∷ rest) t =
      tally_all-output rest (tally_result role r t) ∙ tally_result-output role r t

-- A source that was counted as off before anything was asked.
initial_marked :
    (connected simulated : Bool)
    → not connected || simulated && connected ≡ true
    → (connected ≡ false) ⊎ (simulated ≡ true)
initial_marked false simulated h = inl refl
initial_marked true true h = inr refl
initial_marked true false h = absurd (ground arith)

-- An ordinary source is absent, or simulated, or one of the reports is on it and verified.
abbrev pub IsCovered : Bool → Bool → Bool → List (Role × Result OutputOffReport Fault) → Type 0
IsCovered second connected simulated results =
    (connected ≡ false) ⊎ ((simulated ≡ true) ⊎ Reported second results)

-- The reports of the pair on all its sources cover both ordinary sources.
abbrev pub Covers : {F W : Type 0} → Option (DevicePair W) → Bench F W → Type 0
Covers pair b =
    IsCovered false b.state.source_connected b.state.source_simulation
      (sweep_results pair b.world).1
    × IsCovered true b.state.source2_connected b.state.source2_simulation
        (sweep_results pair b.world).1

covered :
    (second connected simulated : Bool) (results : List (Role × Result OutputOffReport Fault))
    → (not connected || simulated && connected ≡ true) ⊎ Reported second results
    → IsCovered second connected simulated results
covered second connected simulated results (inr reported) = inr (inr reported)
covered second connected simulated results (inl marked) =
    elim (initial_marked connected simulated marked) [
      | inl absent ↦ inl absent
      | inr simulation ↦ inr (inl simulation)
    ]

module _ {F W : Type 0} (x : Setup F W) where
  conclude_tally-verdict :
      (t : Tally F)
      → t.state.output ≡ unknown
      → (((conclude_tally x t).0.output ≡ off) × (t.first && t.second ≡ true))
        ⊎ (((conclude_tally x t).0.output ≡ unknown)
            × ((fault : EngineFault) × ((conclude_tally x t).1 ≡ err fault)))
  unfolding conclude_tally
  conclude_tally-verdict t q = elim (Bool-cases (t.first && t.second)) [
    | inl both ↦ inl (ground arith, both)
    | inr lacks ↦ elim (Option-cases t.fault) [
      | inl none_of ↦ inr (ground arith, (unverified_sources, ground arith))
      | inr (fault, is_some) ↦ inr (ground arith, (fault, ground arith))
    ]
  ]

  -- The ways in which a shutdown of the sweep's sources may end.
  abbrev pub Verdict :
      Option (DevicePair W) → Bench F W → Bench F W × Result (Unit {0}) EngineFault → Type 0
  Verdict pair b z =
      ((z.0.state.output ≡ off) × Covers pair b)
      ⊎ ((z.0.state.output ≡ unknown) × ((fault : EngineFault) × (z.1 ≡ err fault)))

  -- The shutdown of the sweep's sources says that the output is off, and then each of the two
  -- ordinary sources is not connected, or is simulated, or the pair has reported that its
  -- output-off was verified; or it says that the output is unknown, and fails.
  pub shutdown_sweep_sources-Verdict :
      (pair : Option (DevicePair W)) (b : Bench F W)
      → Verdict pair b (shutdown_sweep_sources x pair b)
  unfolding shutdown_sweep_sources initial_tally
  shutdown_sweep_sources-Verdict pair b =
      let results = (sweep_results pair b.world).1 in
      let start : Tally F = initial_tally b.state in
      let t : Tally F = tally_all results start in
      elim (conclude_tally-verdict t (tally_all-output results start)) [
        | inr fails ↦ inr fails
        | inl (is_off, both) ↦ inl (
          is_off,
          (
            covered false b.state.source_connected b.state.source_simulation results
                (tally_all-marks false results start (ground arith)),
            covered true b.state.source2_connected b.state.source2_simulation results
                (tally_all-marks true results start (ground arith)),
          ),
        )
      ]
