-- ===== src/Desktop/Engine/Protection.antt =====
-- The protection stops of crates/iv-desktop/src/engine.rs and their evidence:
-- `check_source_protection`, `protect_and_persist_meter_evidence` and what they append to the audit of
-- a run. The file of the audit, the pair's queries that keep their exchanges and the clock of the
-- host are the parameter Recorder; an event is data, and its JSON is not modelled.
pub mod Stopping
use kohdalab_iv.Common.Exec.{Exec, ◌>>=◌, ◌>>◌, pure, lift, gets}
use kohdalab_iv.Common.{
  ℕ, suc, String, Bool, true, false, Option, none, some, List, [], ◌∷◌, Result, ok, err,
  if◌then◌else◌,
}
use kohdalab_iv.Common.Text.{Text, text_of}
use kohdalab_iv.Common.Float.{Float}
use kohdalab_iv.Transport.Instruments.{Role, source}
use kohdalab_iv.Transport.Fault.{Fault}
use kohdalab_iv.Transport.Replies.{trim}
use kohdalab_iv.Transport.Drivers.Recording.{TransportExchange}
use kohdalab_iv.Desktop.States.{OutputState, off}
use kohdalab_iv.Desktop.Safety.{SourceProtectionProfile, SourceCondition, source_condition, stopped}
use kohdalab_iv.Desktop.Engine.{
  EngineFault, planner, bad_condition, emergency, is_some, in_world, Bench, DevicePair, Setup, M,
  or_fault, as_engine_fault,
}
use kohdalab_iv.Desktop.Engine.Shutdown.{push, protection_output_off}

-- `HostTiming`, with the type of an observation of the clock of the host.
pub record HostTiming (T : Type 0) : Type 0 where
  pub started : T
  pub completed : T

pub record DeferredMeterEvidence (T : Type 0) : Type 0 where
  pub reply : Option Text
  pub query_error : Option Fault
  pub timing : HostTiming T
  pub exchanges : List TransportExchange

pub record TransportEvent (T : Type 0) : Type 0 where
  pub point_index : ℕ
  pub reading_index : Option ℕ
  pub role : String
  pub logical_command : Text
  pub exchange_index : ℕ
  pub exchange : TransportExchange
  pub timing : HostTiming T

pub record MeterEvent (F T : Type 0) : Type 0 where
  pub point_index : ℕ
  pub reading_index : Option ℕ
  pub normalized_response : Option Text
  pub query_error : Option Fault
  pub parsed_value : Option F
  pub timing : HostTiming T

pub record StatusEvent (F T : Type 0) : Type 0 where
  pub is_stop : Bool
  pub point_index : ℕ
  pub command : Text
  pub raw_response : Option Text
  pub error : Option EngineFault
  pub condition : Option SourceCondition
  pub source_target : F
  pub timing : HostTiming T
  pub output_off_verified : Option Bool
  pub analysis_point_excluded : Bool

-- The events that a protection stop appends to the audit.
pub data AuditEvent (F T : Type 0) : Type 0 where
  transport_exchange : TransportEvent T → AuditEvent F T
  meter_reading : MeterEvent F T → AuditEvent F T
  source_status : StatusEvent F T → AuditEvent F T

pub record SourceProtectionStop (F T : Type 0) : Type 0 where
  pub point_index : ℕ
  pub source_target : F
  pub observed_at : T
  pub condition : SourceCondition
  pub failure : Option EngineFault

pub record Recorder (F T W : Type 0) : Type 0 where
  pub query_recorded : Role → Text → W → W × (Result Text Fault × List TransportExchange)
  pub observe : W → W × T
  -- `RawWriter::append`.
  pub append : AuditEvent F T → Exec W EngineFault (Unit {0})

-- An `Option` of a result's value, and of its error.
abbrev pub value_of : {A E : Type 0} → Result A E → Option A
value_of (ok a) = some a
value_of (err e) = none

abbrev pub error_of : {A E : Type 0} → Result A E → Option E
error_of (ok a) = none
error_of (err e) = some e

abbrev pub push_error : Option EngineFault → Option EngineFault → Option EngineFault
push_error none faults = faults
push_error (some fault) faults = push fault faults

-- An action whose error is kept among those before it.
abbrev pub attempt :
    {W : Type 0} → Exec W EngineFault (Unit {0}) → W × Option EngineFault → W × Option EngineFault
attempt m (w, faults) = let (w', r) = m w in (w', push_error (error_of r) faults)

-- Without a readable condition, or with one that stopped the source, the source is not safe.
unfoldable pub unsafe_status : {E : Type 0} → Result SourceCondition E → Bool
unsafe_status (ok condition) = stopped condition
unsafe_status (err _) = true

unfoldable pub is_emergency : {E : Type 0} → Result SourceCondition E → Option EngineFault
is_emergency (ok condition) = if condition.emergency then some emergency else none
is_emergency (err _) = none

unfoldable pub parse_condition :
    SourceProtectionProfile → Result Text Fault → Result SourceCondition EngineFault
parse_condition profile (ok reply) = or_fault bad_condition (source_condition reply profile)
parse_condition profile (err e) = as_engine_fault (err e)

-- The status of a source that was asked for, as the check uses it.
pub record Status (T : Type 0) : Type 0 where
  pub command : Text
  pub response : Result Text Fault
  pub exchanges : List TransportExchange
  pub timing : HostTiming T
  pub parsed : Result SourceCondition EngineFault

abbrev pub output_is_off : OutputState → Bool
output_is_off OutputState.off = true
output_is_off _ = false

-- The errors of a check, with those of the output-off and of the evidence.
unfoldable pub faults_of :
    {T : Type 0} → Status T → Option EngineFault → Option EngineFault → Option EngineFault
faults_of q off_error evidence = push_error evidence (
    push_error off_error (push_error (is_emergency q.parsed) (push_error (error_of q.parsed) none)))

module _ {F T : Type 0} (point : ℕ) (target : F) where
  unfoldable pub stop_of : Status T → Option (SourceProtectionStop F T)
  stop_of q = elim q.parsed [
    | err _ ↦ none
    | ok condition ↦
        if stopped condition
        then some (record {
          point_index = point;
          source_target = target;
          observed_at = q.timing.completed;
          condition = condition;
          failure = none;
        })
        else none
  ]

unfoldable pub conclude_stop :
    {F T : Type 0}
    → Option EngineFault
    → Option (SourceProtectionStop F T)
    → Result (Option (SourceProtectionStop F T)) EngineFault
conclude_stop none stop = ok stop
conclude_stop (some fault) none = err fault
conclude_stop (some fault) (some stop) = ok (some (record stop { failure = some fault }))

module _ {F T W : Type 0} (x : Setup F W) (a : Recorder F T W) where
  -- `append_transport_exchanges`, from the exchange with this index.
  unfoldable pub append_transport_exchanges :
      String
      → Text
      → ℕ
      → Option ℕ
      → HostTiming T
      → ℕ
      → List TransportExchange
      → Exec W EngineFault (Unit {0})
  append_transport_exchanges role command point reading timing index [] = pure tt
  append_transport_exchanges role command point reading timing index (exchange ∷ rest) = do
    a.append (
        transport_exchange (record {
          point_index = point;
          reading_index = reading;
          role = role;
          logical_command = command;
          exchange_index = index;
          exchange = exchange;
          timing = timing;
        }))
    append_transport_exchanges role command point reading timing (suc index) rest

  abbrev pub parse_reply : Option Text → Option F
  parse_reply none = none
  parse_reply (some reply) = x.numbers.parse (trim reply)

  unfoldable pub append_meter_reading_audit :
      ℕ → Option ℕ → DeferredMeterEvidence T → Exec W EngineFault (Unit {0})
  append_meter_reading_audit point reading e = do
    append_transport_exchanges "meter" (text_of "READ?") point reading e.timing 0 e.exchanges
    a.append (
        meter_reading (record {
          point_index = point;
          reading_index = reading;
          normalized_response = e.reply;
          query_error = e.query_error;
          parsed_value = parse_reply e.reply;
          timing = e.timing;
        }))

  unfoldable pub append_pending :
      ℕ → Option (Option ℕ × DeferredMeterEvidence T) → Exec W EngineFault (Unit {0})
  append_pending point none = pure tt
  append_pending point (some (reading, evidence)) =
      append_meter_reading_audit point reading evidence

  unfoldable pub query_without_audit :
      Role → Text → W → W × ((Result Text Fault × List TransportExchange) × HostTiming T)
  query_without_audit role command w =
      let (w₁, started) = a.observe w in
      let (w₂, recorded) = a.query_recorded role command w₁ in
      let (w₃, completed) = a.observe w₂ in
      (w₃, (recorded, record { started = started; completed = completed }))

  unfoldable pub protect_and_persist_meter_evidence :
      Option (DevicePair W) → ℕ → Option ℕ → DeferredMeterEvidence T → M F W (Unit {0})
  protect_and_persist_meter_evidence pair point reading evidence b =
      let (b', protection) = protection_output_off x pair b in
      let (w, faults) =
        attempt (append_meter_reading_audit point reading evidence)
          (b'.world, push_error (error_of protection) none) in
      (record b' { world = w }, elim faults [ none ↦ ok tt | some fault ↦ err fault ])

  unfoldable pub ask_status : Text → SourceProtectionProfile → W → W × Status T
  ask_status command profile w =
      let (w', ((response, exchanges), timing)) = query_without_audit source command w in
      (
        w',
        record {
          command = command;
          response = response;
          exchanges = exchanges;
          timing = timing;
          parsed = parse_condition profile response;
        },
      )

  unfoldable pub protect : DevicePair W → Status T → Bench F W → Bench F W × Option EngineFault
  protect d q b =
      let (b', r) = protection_output_off x (some d) b in
      if unsafe_status q.parsed then (b', error_of r) else (b, none)

  module _ (point : ℕ) (target : F) (pending : Option (Option ℕ × DeferredMeterEvidence T)) where
    unfoldable pub status_event : Status T → Option Bool → AuditEvent F T
    status_event q verified = source_status (record {
      is_stop = is_some (stop_of point target q);
      point_index = point;
      command = q.command;
      raw_response = value_of q.response;
      error = error_of q.parsed;
      condition = value_of q.parsed;
      source_target = target;
      timing = q.timing;
      output_off_verified = verified;
      analysis_point_excluded = is_some (stop_of point target q);
    })

    -- What a check writes, in this order, and the errors of the writing.
    unfoldable pub persist_evidence : Status T → Option Bool → W → W × Option EngineFault
    persist_evidence q verified w = attempt (a.append (status_event q verified)) (
        attempt (append_transport_exchanges "source" q.command point none q.timing 0 q.exchanges)
          (attempt (append_pending point pending) (w, none)))

    module _ (d : DevicePair W) where
      unfoldable pub check_status :
          Status T → Bench F W → Bench F W × Result (Option (SourceProtectionStop F T)) EngineFault
      check_status q b =
          let (b', off_error) = protect d q b in
          let verified =
            if unsafe_status q.parsed then some (output_is_off b'.state.output) else none in
          let (w, evidence) = persist_evidence q verified b'.world in
          (
            record b' { world = w },
            conclude_stop (faults_of q off_error evidence) (stop_of point target q),
          )

      unfoldable pub check_profile :
          Option (Text × SourceProtectionProfile) → M F W (Option (SourceProtectionStop F T))
      check_profile none = do in_world (append_pending point pending); pure none
      check_profile (some (command, profile)) = λ b.
          let (w, q) = ask_status command profile b.world in check_status q (record b { world = w })

      unfoldable pub check_source_protection : M F W (Option (SourceProtectionStop F T))
      check_source_protection = do
        model ← gets (λ b. d.model source b.world)
        profile ← lift (or_fault planner (x.planner.source_protection_profile model))
        check_profile profile
