-- ===== src/Desktop/Engine/Shutdown/Accounted.antt =====
-- What the shutdowns of crates/iv-desktop/src/engine.rs leave in the snapshot: an output that is
-- off, with what shows it, or an error.
use kohdalab_iv.Common.{
  ◌≡◌, refl, sym, ap, ◌∙◌, subst, ◌⊎◌, inl, inr, true, false, ◌&&◌, Option, none, some, arith,
  Result, ok, err, Bool-cases, Option-cases, Result-cases,
}
use kohdalab_iv.Transport.Instruments.{source}
use kohdalab_iv.Transport.Fault.{Fault}
use kohdalab_iv.Transport.Pair.Shutdown.{OutputOffReport}
use kohdalab_iv.Desktop.States.{unknown, off, cleaning_up, verifying_output_off}
use kohdalab_iv.Desktop.Engine.{
  EngineFault, no_transport, not_connected, transport, joined, not_off, Snapshot, Bench, DevicePair,
  Setup, warn,
}
use kohdalab_iv.Desktop.Engine.Evidence.{ForcedOff}
use kohdalab_iv.Desktop.Engine.Shutdown.{
  push, note_verified, shutdown_sweep_sources, maybe_ramp_down, note_off, clean_source,
  protect_single, clean_single, swept, clean_output, protection_output_off,
}
use kohdalab_iv.Desktop.Engine.Shutdown.Verified.{Covers, Verdict, shutdown_sweep_sources-Verdict}

some_pushed :
    (fault : EngineFault) (faults : Option EngineFault)
    → (both : EngineFault) × (push fault faults ≡ some both)
some_pushed fault none = (fault, refl)
some_pushed fault (some before) = (joined before fault, refl)

module _ {F : Type 0} where
  -- The snapshot says that the output is off, and `P` shows it; or it says that the output is
  -- unknown, and has an error.
  abbrev pub IsAccounted : Type 0 → Snapshot F → Type 0
  IsAccounted P s =
      ((s.output ≡ off) × P)
      ⊎ ((s.output ≡ unknown) × ((fault : EngineFault) × (s.error ≡ some fault)))

  warn-output :
      (report : OutputOffReport) (s : Snapshot F) → (warn source report s).output ≡ s.output
  warn-output report s = elim (Option-cases report.zeroing_warning) [
    | inl q ↦ ground arith
    | inr (w, q) ↦ ground arith
  ]

  note_verified-output :
      (report : OutputOffReport) (faults : Option EngineFault) (s : Snapshot F)
      → (note_verified report faults s).output ≡ off
  unfolding note_verified
  note_verified-output report none s = warn-output report _
  note_verified-output report (some fault) s = warn-output report _

  note_off-IsAccounted :
      (r : Result OutputOffReport Fault) (faults : Option EngineFault) (s : Snapshot F)
      → s.output ≡ unknown
      → IsAccounted
          ((report : OutputOffReport) × (r ≡ ok report) × (report.output_off_verified ≡ true))
          (note_off r faults s)
  unfolding note_off
  note_off-IsAccounted (err e) faults s q = inr (q, some_pushed (transport e) faults)
  note_off-IsAccounted (ok report) faults s q = elim (Bool-cases report.output_off_verified) [
    | inr no_report ↦ rw no_report (inr (q, some_pushed not_off faults))
    | inl verified ↦
        inl (ground (arith, note_verified-output report faults s), (report, refl, verified))
  ]

module _ {F W : Type 0} (x : Setup F W) where
  maybe_ramp_down-output :
      (d : DevicePair W) (level : Option (F × F × F)) (b : Bench F W)
      → (maybe_ramp_down x d level b).0.state.output ≡ b.state.output
  unfolding maybe_ramp_down
  maybe_ramp_down-output d none b = refl
  maybe_ramp_down-output d (some (ramp_step, wait, current)) b =
      elim (Bool-cases (x.off_requested b.world).1) [ inl q ↦ ground arith | inr q ↦ ground arith ]

  clean_source-IsAccounted :
      (d : DevicePair W) (level : Option (F × F × F)) (b : Bench F W)
      → b.state.output ≡ unknown
      → IsAccounted
          (ForcedOff d source (clean_source x d level b).world)
          (clean_source x d level b).state
  unfolding clean_source
  clean_source-IsAccounted d level b q =
      let (b', faults) = maybe_ramp_down x d level b in
      let (w, r) = d.force_output_off_role source b'.world in
      let s : Snapshot F = record b'.state { activity = verifying_output_off } in
      elim (note_off-IsAccounted r faults s (maybe_ramp_down-output d level b ∙ q)) [
        | inr failed ↦ inr failed
        | inl (is_off, (report, given, verified)) ↦ inl (
          is_off,
          record {
            before = b'.world;
            report = report;
            forced = ap (λ r. (w, r)) given;
            verified = verified;
          },
        )
      ]

  -- What shows that the output is off: with a second source, the reports of the pair on all sources;
  -- without one, that the source is simulated, or that the last thing done to the pair was its
  -- output-off, verified.
  abbrev pub IsShown : Option (DevicePair W) → Bench F W → W → Type 0
  IsShown pair b w =
      ((b.state.source2_connected ≡ true) × Covers pair b)
      ⊎ ((b.state.source2_connected ≡ false)
          × ((b.state.source_simulation ≡ true)
              ⊎ ((d : DevicePair W) × (pair ≡ some d) × ForcedOff d source w)))

  -- What the cleanup of an output leaves.
  abbrev pub Cleaned : Option (DevicePair W) → Bench F W → Bench F W → Type 0
  Cleaned pair b b' = IsAccounted (IsShown pair b b'.world) b'.state

  abbrev cleaning : Bench F W → Bench F W
  cleaning b = record b { state = record b.state { phase = cleaning_up; output = unknown } }

  swept-Cleaned :
      (pair : Option (DevicePair W)) (b : Bench F W)
      → b.state.source2_connected ≡ true
      → (z : Bench F W × Result (Unit {0}) EngineFault) → Verdict x pair b z
      → Cleaned pair b (swept z)
  swept-Cleaned pair b second (b', ok u) (inl (is_off, covers)) = inl (is_off, inl (second, covers))
  swept-Cleaned pair b second (b', err e) (inl (is_off, covers)) =
      inl (is_off, inl (second, covers))
  swept-Cleaned pair b second (b', ok u) (inr (is_unknown, (fault, q))) = absurd (ground arith)
  swept-Cleaned pair b second (b', err e) (inr (is_unknown, (fault, q))) =
      inr (is_unknown, (e, refl))

  clean_single-Cleaned :
      (pair : Option (DevicePair W)) (level : Option (F × F × F)) (b : Bench F W)
      → b.state.source2_connected ≡ false
      → Cleaned pair b (clean_single x pair level (cleaning b))
  unfolding clean_single
  clean_single-Cleaned none level b single =
      elim (Bool-cases (b.state.source_simulation && b.state.source_connected)) [
        | inl simulated ↦ rw simulated (inl (refl, inr (single, inl (ground arith))))
        | inr real ↦ rw real (elim (Bool-cases b.state.source_connected) [
          | inl connected ↦ rw connected (inr (refl, (no_transport, refl)))
          | inr absent ↦ rw absent (inr (refl, (not_connected, refl)))
        ])
      ]
  clean_single-Cleaned (some d) level b single =
      elim (Bool-cases (b.state.source_simulation && b.state.source_connected)) [
        | inl simulated ↦ rw simulated (inl (refl, inr (single, inl (ground arith))))
        | inr real ↦ elim (Bool-cases b.state.source_connected) [
          | inl connected ↦
              let run : clean_single x (some d) level (cleaning b)
                  ≡ clean_source x d level (cleaning b) =
                ground arith in
              subst (Cleaned (some d) b) (sym run)
                (elim (clean_source-IsAccounted d level (cleaning b) refl) [
                  | inl (is_off, forced) ↦ inl (is_off, inr (single, inr (d, refl, forced)))
                  | inr failed ↦ inr failed
                ])
          | inr absent ↦ rw (real, absent) (inr (refl, (not_connected, refl)))
        ]
      ]

  -- The cleanup of the output says that it is off, and then this was shown: with a second source,
  -- by the reports of the pair on all sources; without one, the source is simulated, or the last
  -- thing done to the pair was the output-off of the source, verified. Or it says that the output
  -- is unknown, and the snapshot has an error.
  pub clean_output-Cleaned :
      (pair : Option (DevicePair W)) (level : Option (F × F × F)) (b : Bench F W)
      → Cleaned pair b (clean_output x pair level b)
  unfolding clean_output
  clean_output-Cleaned pair level b = elim (Bool-cases b.state.source2_connected) [
    | inl second ↦
        let z = shutdown_sweep_sources x pair (cleaning b) in
        let run : clean_output x pair level b ≡ swept z = ground arith in
        subst (Cleaned pair b) (sym run)
          (swept-Cleaned pair b second z (shutdown_sweep_sources-Verdict x pair (cleaning b)))
    | inr single ↦
        let run : clean_output x pair level b ≡ clean_single x pair level (cleaning b) =
          ground arith in
        subst (Cleaned pair b) (sym run) (clean_single-Cleaned pair level b single)
  ]

  -- The ways in which a protection stop may end.
  abbrev pub Stopped :
      Option (DevicePair W) → Bench F W → Bench F W × Result (Unit {0}) EngineFault → Type 0
  Stopped pair b z =
      ((z.0.state.output ≡ off) × IsShown pair b z.0.world)
      ⊎ ((z.0.state.output ≡ unknown) × ((fault : EngineFault) × (z.1 ≡ err fault)))

  abbrev requested : Bench F W → Bench F W
  requested b = record b {
    state = record b.state { activity = verifying_output_off; output = unknown };
  }

  abbrev simulated_off : Bench F W → Bench F W
  simulated_off b = record b {
    state = record b.state { activity = verifying_output_off; output = off };
  }

  protect_single-Stopped :
      (pair : Option (DevicePair W)) (b : Bench F W)
      → b.state.source2_connected ≡ false
      → Stopped pair b (protect_single x pair (requested b))
  unfolding protect_single
  protect_single-Stopped none b single = inr (refl, (no_transport, refl))
  protect_single-Stopped (some d) b single =
      let (w, r) = d.force_output_off_role source b.world in
      elim (Result-cases r) [
        | inr (e, q) ↦ inr (ground arith, (transport e, ground arith))
        | inl (report, q) ↦ elim (Bool-cases report.output_off_verified) [
          | inr no_report ↦ inr (ground arith, (not_off, ground arith))
          | inl verified ↦
              let s : Snapshot F = record (requested b).state { output = off } in
              let run : protect_single x (some d) (requested b)
                  ≡ (record { world = w; state = warn source report s }, ok tt) =
                ground arith in
              subst (Stopped (some d) b) (sym run) (
                inl (
                  warn-output report s,
                  inr (
                    single,
                    inr (
                      d,
                      refl,
                      record {
                        before = b.world;
                        report = report;
                        forced = ap (λ r. (w, r)) q;
                        verified = verified;
                      },
                    ),
                  ),
                ))
        ]
      ]

  -- A protection stop says that the output is off, and then this was shown: with a second source,
  -- by the reports of the pair on all sources; without one, the source is simulated, or the last
  -- thing done to the pair was the output-off of the source, verified. Or it says that the output
  -- is unknown, and fails.
  pub protection_output_off-Stopped :
      (pair : Option (DevicePair W)) (b : Bench F W)
      → Stopped pair b (protection_output_off x pair b)
  unfolding protection_output_off
  protection_output_off-Stopped pair b = elim (Bool-cases b.state.source2_connected) [
    | inl second ↦
        let run : protection_output_off x pair b ≡ shutdown_sweep_sources x pair (requested b) =
          ground arith in
        subst (Stopped pair b) (sym run)
          (elim (shutdown_sweep_sources-Verdict x pair (requested b)) [
            | inl (is_off, covers) ↦ inl (is_off, inl (second, covers))
            | inr failed ↦ inr failed
          ])
    | inr single ↦ elim (Bool-cases b.state.source_simulation) [
      | inl simulated ↦
          let run : protection_output_off x pair b ≡ (simulated_off b, ok tt) = ground arith in
          subst (Stopped pair b) (sym run) (inl (refl, inr (single, inl simulated)))
      | inr real ↦
          let run : protection_output_off x pair b ≡ protect_single x pair (requested b) =
            ground arith in
          subst (Stopped pair b) (sym run) (protect_single-Stopped pair b single)
    ]
  ]
