-- ===== src/Desktop/Engine/Protection/Stopping.antt =====
-- When a check of the source's protection in crates/iv-desktop/src/engine.rs stops a run.
use kohdalab_iv.Common.{
  ℕ, ◌≡◌, refl, sym, subst, ◌⊎◌, inl, inr, true, false, Option, none, some, arith, Result, ok, err,
  Bool-cases, Result-cases, Option-cases,
}
use kohdalab_iv.Desktop.States.{off}
use kohdalab_iv.Common.Text.{Text}
use kohdalab_iv.Transport.Instruments.{source}
use kohdalab_iv.Desktop.Safety.{SourceProtectionProfile, SourceCondition, stopped}
use kohdalab_iv.Desktop.Engine.{EngineFault, Bench, DevicePair, Setup}
use kohdalab_iv.Desktop.Engine.Shutdown.{protection_output_off}
use kohdalab_iv.Desktop.Engine.Shutdown.Accounted.{IsShown, Stopped, protection_output_off-Stopped}
use kohdalab_iv.Desktop.Engine.Protection.{
  DeferredMeterEvidence, SourceProtectionStop, Recorder, error_of, push_error, unsafe_status,
  is_emergency, Status, stop_of, faults_of, conclude_stop, output_is_off, persist_evidence, protect,
  check_status, check_source_protection, check_profile, ask_status,
}

none_pushed :
    (o faults : Option EngineFault) → push_error o faults ≡ none → (o ≡ none) × (faults ≡ none)
none_pushed none faults h = (refl, h)
none_pushed (some fault) none h = absurd (ground arith)
none_pushed (some fault) (some before) h = absurd (ground arith)

not_emergency : (c : SourceCondition) → stopped c ≡ false → c.emergency ≡ false
unfolding stopped
not_emergency c h = ground (arith, h)

safe_condition :
    {T : Type 0} (q : Status T)
    → unsafe_status q.parsed ≡ false
    → (c : SourceCondition) × (q.parsed ≡ ok c) × (stopped c ≡ false)
unfolding unsafe_status
safe_condition q safe = elim (Result-cases q.parsed) [
  | inl (c, parsed) ↦ (c, parsed, subst (λ r. unsafe_status r ≡ false) parsed safe)
  | inr (fault, parsed) ↦ absurd (ground (arith, subst (λ r. unsafe_status r ≡ false) parsed safe))
]

module _ {F T W : Type 0} (x : Setup F W) (a : Recorder F T W) (d : DevicePair W) (point : ℕ)
    (target : F) (pending : Option (Option ℕ × DeferredMeterEvidence T)) where
  -- What a check of a source that answered with a condition without a limit leaves.
  abbrev pub Passed :
      Status T
      → Bench F W
      → Bench F W × Result (Option (SourceProtectionStop F T)) EngineFault
      → Type 0
  Passed q b z =
      let (w, evidence) = persist_evidence x a point target pending q none b.world in
      (z.0 ≡ record b { world = w })
      × (((evidence ≡ none) × (z.1 ≡ ok none))
          ⊎ ((fault : EngineFault) × (evidence ≡ some fault) × (z.1 ≡ err fault)))

  -- What a check of a source leaves that did not answer with a condition, or with one that has a
  -- limit.
  pub record Protected (q : Status T) (b : Bench F W)
      (z : Bench F W × Result (Option (SourceProtectionStop F T)) EngineFault) : Type 0 where
    -- The bench after the output-off, which was the first thing done.
    pub secured : Bench F W
    pub result : Result (Unit {0}) EngineFault
    pub requested : protection_output_off x (some d) b ≡ (secured, result)
    pub ended : Stopped x (some d) b (secured, result)
    -- After it the evidence was written.
    pub persisted : z.0 ≡ record secured {
      world =
          (persist_evidence x a point target pending q
            (some (output_is_off secured.state.output))
            secured.world).0;
    }
    pub reported :
        ((stop : SourceProtectionStop F T) × (z.1 ≡ ok (some stop))
          × (q.parsed ≡ ok stop.condition)
          × (stop.failure ≡ none)
          × (secured.state.output ≡ off)
          × IsShown x (some d) b secured.world)
        ⊎ (((stop : SourceProtectionStop F T) × (fault : EngineFault) × (z.1 ≡ ok (some stop))
              × (q.parsed ≡ ok stop.condition)
              × (stop.failure ≡ some fault))
            ⊎ ((fault : EngineFault) × (z.1 ≡ err fault)))

  abbrev pub Guarded :
      Status T
      → Bench F W
      → Bench F W × Result (Option (SourceProtectionStop F T)) EngineFault
      → Type 0
  Guarded q b z =
      ((condition : SourceCondition) × (q.parsed ≡ ok condition)
        × (stopped condition ≡ false)
        × Passed q b z)
      ⊎ ((unsafe_status q.parsed ≡ true) × Protected q b z)

  -- The result of a check without a fault but those of the evidence.
  written :
      (evidence : Option EngineFault)
      → ((evidence ≡ none)
          × (conclude_stop {F = F} {T = T} (push_error evidence none) none ≡ ok none))
        ⊎ ((fault : EngineFault) × (evidence ≡ some fault)
            × (conclude_stop {F = F} {T = T} (push_error evidence none) none ≡ err fault))
  unfolding conclude_stop
  written none = inl (refl, refl)
  written (some fault) = inr (fault, refl, refl)

  no_stop :
      (q : Status T) (c : SourceCondition)
      → q.parsed ≡ ok c
      → stopped c ≡ false
      → stop_of {F = F} point target q ≡ none
  unfolding stop_of
  no_stop q c parsed free = rw (parsed, free) refl

  no_fault :
      (q : Status T) (c : SourceCondition) (evidence : Option EngineFault)
      → q.parsed ≡ ok c
      → stopped c ≡ false
      → faults_of q none evidence ≡ push_error evidence none
  unfolding faults_of is_emergency
  no_fault q c evidence parsed free = rw (parsed, not_emergency c free) refl

  is_safe :
      (q : Status T) (c : SourceCondition)
      → q.parsed ≡ ok c
      → stopped c ≡ false
      → unsafe_status q.parsed ≡ false
  unfolding unsafe_status
  is_safe q c parsed free = rw parsed free

  safe-Passed :
      (q : Status T) (b : Bench F W) (c : SourceCondition)
      → q.parsed ≡ ok c
      → stopped c ≡ false
      → Passed q b (check_status x a point target pending d q b)
  unfolding check_status protect
  safe-Passed q b c parsed free =
      let (w, evidence) = persist_evidence x a point target pending q none b.world in
      let run : check_status x a point target pending d q b
          ≡ (record b { world = w }, conclude_stop (push_error evidence none) none) =
        ground (
          arith,
          is_safe q c parsed free,
          no_stop q c parsed free,
          no_fault q c evidence parsed free,
        ) in
      subst (Passed q b) (sym run) (refl, written evidence)

  -- The ways in which a check reports a stop, where `off_error` is the error of the output-off.
  abbrev Reported :
      Result SourceCondition EngineFault
      → Result (Option (SourceProtectionStop F T)) EngineFault
      → Option EngineFault
      → Type 0
  Reported parsed r off_error =
      ((stop : SourceProtectionStop F T) × (r ≡ ok (some stop))
        × (parsed ≡ ok stop.condition)
        × (stop.failure ≡ none)
        × (off_error ≡ none))
      ⊎ (((stop : SourceProtectionStop F T) × (fault : EngineFault) × (r ≡ ok (some stop))
            × (parsed ≡ ok stop.condition)
            × (stop.failure ≡ some fault))
          ⊎ ((fault : EngineFault) × (r ≡ err fault)))

  stop_known :
      (q : Status T)
      → unsafe_status q.parsed ≡ true
      → ((stop : SourceProtectionStop F T) × (stop_of point target q ≡ some stop)
          × (q.parsed ≡ ok stop.condition)
          × (stop.failure ≡ none))
        ⊎ ((fault : EngineFault) × (q.parsed ≡ err fault) × (stop_of {F = F} point target q ≡ none))
  unfolding stop_of unsafe_status
  stop_known q found = elim (Result-cases q.parsed) [
    | inl (c, parsed) ↦
        rw (parsed, subst (λ r. unsafe_status r ≡ true) parsed found) (inl (_, refl, refl, refl))
    | inr (fault, parsed) ↦ inr (fault, parsed, rw parsed refl)
  ]

  reports :
      (q : Status T) (off_error evidence : Option EngineFault)
      → unsafe_status q.parsed ≡ true
      → Reported q.parsed
          (conclude_stop (faults_of q off_error evidence) (stop_of point target q))
          off_error
  unfolding conclude_stop faults_of
  reports q off_error evidence found = elim (Option-cases (faults_of q off_error evidence)) [
    | inl q_none ↦
        let (no_evidence, before) = none_pushed evidence _ q_none in
        let (no_off, asked) = none_pushed off_error _ before in
        let (calm, parsed_none) = none_pushed (is_emergency q.parsed) _ asked in
        elim (stop_known q found) [
          | inl (stop, known, read, no_failure) ↦
              rw (q_none, known) (inl (stop, refl, read, no_failure, no_off))
          | inr (fault, parsed, none_known) ↦
              absurd (ground (arith, parsed, (none_pushed (error_of q.parsed) none parsed_none).0))
        ]
    | inr (fault, q_some) ↦ elim (stop_known q found) [
      | inl (stop, known, read, no_failure) ↦
          rw (q_some, known) (inr (inl (_, fault, refl, read, refl)))
      | inr (_, parsed, none_known) ↦ rw (q_some, none_known) (inr (inr (fault, refl)))
    ]
  ]

  protection_output_off-ok :
      (b : Bench F W) (z : Bench F W × Result (Unit {0}) EngineFault)
      → Stopped x (some d) b z
      → error_of z.1 ≡ none
      → (z.0.state.output ≡ off) × IsShown x (some d) b z.0.world
  protection_output_off-ok b z (inl shown) h = shown
  protection_output_off-ok b z (inr (_, (fault, failed))) h = absurd (ground (arith, failed, h))

  unsafe-Protected :
      (q : Status T) (b : Bench F W)
      → unsafe_status q.parsed ≡ true
      → Protected q b (check_status x a point target pending d q b)
  unfolding check_status protect
  unsafe-Protected q b found =
      let (b', r) = protection_output_off x (some d) b in
      let (w, evidence) =
        persist_evidence x a point target pending q (some (output_is_off b'.state.output))
          b'.world in
      let run : check_status x a point target pending d q b ≡ (
        record b' { world = w },
        conclude_stop (faults_of q (error_of r) evidence) (stop_of point target q),
      ) =
        ground arith in
      subst (Protected q b) (sym run) (record {
        secured = b';
        result = r;
        requested = refl;
        ended = protection_output_off-Stopped x (some d) b;
        persisted = refl;
        reported = elim (reports q (error_of r) evidence found) [
          | inl (stop, given, read, no_failure, no_off) ↦
              let (is_off, shown) =
                protection_output_off-ok b (b', r) (protection_output_off-Stopped x (some d) b)
                  no_off in
              inl (stop, given, read, no_failure, is_off, shown)
          | inr rest ↦ inr rest
        ];
      })

  check_status-Guarded :
      (q : Status T) (b : Bench F W) → Guarded q b (check_status x a point target pending d q b)
  check_status-Guarded q b = elim (Bool-cases (unsafe_status q.parsed)) [
    | inl found ↦ inr (found, unsafe-Protected q b found)
    | inr safe ↦
        let (c, parsed, free) = safe_condition q safe in
        inl (c, parsed, free, safe-Passed q b c parsed free)
  ]

  -- A check of the source's protection, where the source has a condition register, asks for the
  -- register first. If the answer is a condition without a limit, the snapshot stays as it was,
  -- and the check passes, or fails because its evidence could not be written. Otherwise the next
  -- thing done is the output-off of a protection stop, and only then the evidence is written; and
  -- the check reports a stop with the condition that was read, and then the output is off, with
  -- what shows it, or such a stop with a failure, or it fails.
  pub check_source_protection-Guarded :
      (command : Text) (profile : SourceProtectionProfile) (b : Bench F W)
      → x.planner.source_protection_profile (d.model source b.world) ≡ ok (some (command, profile))
      → let (w, q) = ask_status x a command profile b.world in
        Guarded q (record b { world = w }) (check_source_protection x a point target pending d b)
  unfolding check_source_protection check_profile
  check_source_protection-Guarded command profile b known =
      let (w, q) = ask_status x a command profile b.world in
      let asked : Bench F W = record b { world = w } in
      let run : check_source_protection x a point target pending d b
          ≡ check_status x a point target pending d q asked =
        rw known refl in
      subst (Guarded q asked) (sym run) (check_status-Guarded q asked)
