-- ===== src/Examples/ProtectionExamples.antt =====
-- The protection stops of crates/iv-desktop/src/engine.rs at concrete inputs.
use kohdalab_iv.Common.{ℕ, ◌≡◌, refl, true, none, List, [], ◌∷◌, ◌++◌, ok}
use kohdalab_iv.Common.Text.{Text, text_of, parse_u16, parse_digits_u16}
use kohdalab_iv.Desktop.Engine.Shutdown.{protection_output_off, protect_single}
use kohdalab_iv.Desktop.Safety.{SourceProtectionProfile, source_condition, condition_of, stopped}
use kohdalab_iv.Transport.Replies.{trim, trim_start, trim_end}
use kohdalab_iv.Protocol.{is_whitespace}
use kohdalab_iv.Desktop.States.{on, off}
use kohdalab_iv.Desktop.Engine.{Bench}
use kohdalab_iv.Desktop.Engine.Protection.{
  Recorder, Status, ask_status, check_source_protection, check_profile, query_without_audit,
  parse_condition, check_status, protect, unsafe_status, persist_evidence, status_event,
  append_transport_exchanges, append_pending, faults_of, is_emergency, stop_of, conclude_stop,
}
use kohdalab_iv.Desktop.Engine.Protection.Stopping.{Guarded, check_source_protection-Guarded}
use kohdalab_iv.Examples.EngineExamples.{setup, device, snapshot}
use kohdalab_iv.Examples.TransportExamples.{answer}

-- The replies of the source, and after them a row for each event.
abbrev recorder : Recorder ℕ ℕ (List Text)
recorder = record {
  query_recorded = λ role command w. let (w', r) = answer w in (w', (r, []));
  observe = λ w. (w, 0);
  append = λ event w. (w ++ text_of "row" ∷ [], ok tt);
}

-- A source that tells that its lower limit is reached.
abbrev limited : Bench ℕ (List Text)
limited = record { world = text_of "1\n" ∷ []; state = snapshot on }

abbrev masks : SourceProtectionProfile
masks = record { low_limiter_mask = 1; high_limiter_mask = 2; emergency_mask = 4 }

abbrev asked : List Text × Status ℕ
asked = ask_status (setup true) recorder (text_of ":STAT:COND?") masks limited.world

stopped_off :
    (check_source_protection (setup true) recorder 3 2 none device limited).0.state.output ≡ off
unfolding check_source_protection check_profile ask_status query_without_audit parse_condition
    check_status protect unsafe_status persist_evidence status_event append_transport_exchanges
    append_pending faults_of is_emergency stop_of conclude_stop protection_output_off protect_single
    source_condition condition_of stopped parse_u16 parse_digits_u16 trim trim_start trim_end
    is_whitespace
stopped_off = refl

stopped_rows :
    (check_source_protection (setup true) recorder 3 2 none device limited).0.world
    ≡ text_of "row" ∷ []
unfolding check_source_protection check_profile ask_status query_without_audit parse_condition
    check_status protect unsafe_status persist_evidence status_event append_transport_exchanges
    append_pending faults_of is_emergency stop_of conclude_stop protection_output_off protect_single
    source_condition condition_of stopped parse_u16 parse_digits_u16 trim trim_start trim_end
    is_whitespace
stopped_rows = refl

check_source_protection-Guarded_example :
    Guarded
      (setup true)
      recorder
      device
      3
      2
      none
      asked.1
      (record limited { world = asked.0 })
      (check_source_protection (setup true) recorder 3 2 none device limited)
check_source_protection-Guarded_example =
    check_source_protection-Guarded (setup true) recorder device 3 2 none (text_of ":STAT:COND?")
      masks limited refl
