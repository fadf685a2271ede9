-- ===== src/Examples/PairExamples.antt =====
-- The theorems on the emergency shutdown at concrete inputs.
use kohdalab_iv.Transport.Pair.Recorded.{Agrees, write_recorded, write_recorded-write}
use kohdalab_iv.Transport.Pair.Endpoints.{write}
use kohdalab_iv.Transport.Pair.Connecting.{
  connect_preferred, is_other_model, preferred_kind, prefer, is_visa, discover_visa, official_kind,
  connect_kind, connect_new, check_others, check_other, attach, open_endpoint, is_native_gpib,
  find_endpoint, share_or_open, open_single_endpoint, lease_for, adapter_lease, claim_and_identify,
  on_error, accept_identity, identify_endpoint, is_native_usb,
}
use kohdalab_iv.Transport.Resources.{
  parse, split_fields, is_gpib, parse_fields, parse_gpib, gpib_of, is_word,
}
use kohdalab_iv.Transport.Pair.Endpoints.{io_of, request}
use kohdalab_iv.Transport.Identity.{verify_model, identity_command, is_accepted, first_line}
use kohdalab_iv.Transport.Pair.{same_role}
use kohdalab_iv.Common.Text.{uppercase}
use kohdalab_iv.Transport.Pair.Connecting.{connect_model}
use kohdalab_iv.Transport.Pair.Kinds.{kind_at}
use kohdalab_iv.Transport.Pair.Distinct.{
  Distinct, Change, connect, disconnect, run, run-new-Distinct,
}
use kohdalab_iv.Transport.Pair.Accepted.{Accepted, connect_model-Accepted}
use kohdalab_iv.Transport.Pair.Endpoints.{request_before}
use kohdalab_iv.Common.{
  ℕ, ◌≡◌, refl, ◌⊎◌, true, false, none, some, List, [], ◌∷◌, map, any, Result, ok, err,
}
use kohdalab_iv.Common.Text.{Text, text_of}
use kohdalab_iv.Examples.TransportExamples.{no_numbers, answer}
use kohdalab_iv.Transport.Instruments.{Role, source, source2}
use kohdalab_iv.Transport.Resources.{gpib}
use kohdalab_iv.Transport.Fault.{Fault, lease_missing, spawn_failed}
use kohdalab_iv.Transport.Pair.{Pair, Slot, Sessions, new, is_connected, endpoint_of}
use kohdalab_iv.Transport.Pair.Shutdown.{
  OutputOffReport, force_output_off_role, force_sources_output_off, shut_down, check_before_off,
  needs_check, output_off_with_recovery, output_off_once, output_off_dispatch,
  output_off_verify_and_zero, verify_and_zero, output_off_recover, recover_once,
  replace_source_helper, abandon,
}
use kohdalab_iv.Transport.Pair.Confirmed.{Confirms, force_output_off_role-Confirms}
use kohdalab_iv.Transport.Pair.Locked.{
  IsLocked, is_err, swept_sources, force_output_off_role-IsLocked, force_sources_output_off-results,
}
use kohdalab_iv.Transport.Drivers
use kohdalab_iv.Transport.Instruments
use kohdalab_iv.Transport.Drivers.{is_legacy_source, dialect_eq, is_dialect}
use kohdalab_iv.Catalog.{instrument_descriptor, find_descriptor, instrument_catalog}
use kohdalab_iv.Transport.Replies.{
  legacy_output, status_token, legacy_status, trim, trim_start, trim_end, starts_with,
}
use kohdalab_iv.Common.Text.{strip_prefix, text_eq, parse_u8, parse_digits}
use kohdalab_iv.Protocol.{is_whitespace}
use kohdalab_iv.Transport.Instruments.{catalog_role, is_usable}
use kohdalab_iv.Transport.Pair.{slot}
use kohdalab_iv.Transport.Pair.Shutdown.{read_output, is_off, zero_level, mark_failed}

-- Sessions whose helpers answer with the texts of a list, one after the other, then not at all, and
-- cannot be replaced.
abbrev pub sessions : Sessions (List Text) (Unit {0})
sessions = record {
  request = λ session op address timeout_ms payload limit. answer;
  claim = λ session address role model w. (w, ok tt);
  release = λ session address w. (w, ok tt);
  close = λ session w. (w, ok tt);
  is_hub = λ session w. false;
  lease_of = λ session w. none;
  acquire = λ key w. (w, ok tt);
  spawn = λ kind lease deadline w. (w, err spawn_failed);
  abandon = λ session w. (w, none);
  now = λ w. 0;
  sleep = λ duration w. w;
  drop = λ session w. w;
  hub_config = λ w. (w, ok false);
  discover_visa = λ w. (w, []);
}

-- A pair with two 7651 sources on one adapter.
abbrev pub connected : ℕ → Slot
connected address = record {
  identity = text_of "MDL7651";
  model = "YOKOGAWA_7651";
  kind = some (gpib (text_of "GPIB0::1::INSTR") address);
  endpoint = some (record { resource = text_of "GPIB0::1::INSTR"; address = address; session = 0 });
  is_pending = false;
}

abbrev two_sources : List Text → Pair (List Text)
two_sources replies = record (new replies) { source_slot = connected 1; source2_slot = connected 2 }

-- The source takes the command, tells that its output is off, and takes the level of zero.
abbrev obedient : Pair (List Text)
obedient = two_sources ([] ∷ text_of "STS1=0" ∷ [] ∷ [])

switched_off :
    (force_output_off_role sessions source obedient).1
    ≡ ok (record { output_off_verified = true; zeroing_warning = none })
unfolding force_output_off_role is_connected shut_down check_before_off needs_check new
    output_off_with_recovery output_off_once output_off_dispatch endpoint_of request_before
    output_off_verify_and_zero verify_and_zero read_output is_legacy_source dialect_eq is_dialect
    instrument_descriptor find_descriptor instrument_catalog legacy_output status_token
    legacy_status trim trim_start trim_end strip_prefix starts_with is_off text_eq zero_level
    mark_failed is_whitespace catalog_role slot parse_u8 parse_digits is_usable Drivers.dialect
    Instruments.dialect
switched_off = refl

force_output_off_role-Confirms_example :
    Confirms sessions source (force_output_off_role sessions source obedient)
force_output_off_role-Confirms_example = force_output_off_role-Confirms sessions source obedient

-- The source does not answer.
abbrev mute : Pair (List Text)
mute = two_sources ([] ∷ [])

not_switched_off : (force_output_off_role sessions source mute).1 ≡ err lease_missing
unfolding force_output_off_role is_connected shut_down check_before_off needs_check new
    output_off_with_recovery output_off_once output_off_dispatch endpoint_of request_before
    output_off_verify_and_zero verify_and_zero output_off_recover recover_once replace_source_helper
    abandon
not_switched_off = refl

mute_connected : is_connected source mute ≡ true
unfolding is_connected
mute_connected = refl

force_output_off_role-IsLocked_example :
    IsLocked sessions no_numbers (λ s. true) (force_output_off_role sessions source mute).0
force_output_off_role-IsLocked_example =
    force_output_off_role-IsLocked sessions no_numbers (λ s. true) source mute lease_missing refl
      mute_connected not_switched_off

force_sources_output_off-results_example :
    (map
        (λ (r : Role × Result OutputOffReport Fault). r.0)
        (force_sources_output_off sessions mute).1
      ≡ swept_sources sessions no_numbers (λ s. true) mute)
    × ((any is_err (force_sources_output_off sessions mute).1 ≡ false)
        ⊎ IsLocked sessions no_numbers (λ s. true) (force_sources_output_off sessions mute).0)
force_sources_output_off-results_example =
    force_sources_output_off-results sessions no_numbers (λ s. true) mute

-- Sessions whose helpers can be started.
abbrev startable : Sessions (List Text) (Unit {0})
startable = record sessions { spawn = λ kind lease deadline w. (w, ok 0) }

abbrev gs210 : Text
gs210 = text_of "YOKOGAWA,GS210,91N123456,2.02"

abbrev first_address : Text
first_address = text_of "GPIB0::1::INSTR"

-- A locked pair without instruments.
abbrev locked : Pair (List Text)
locked = record (new (gs210 ∷ [])) { is_usable = false }

locked_empty : kind_at source locked ≡ none
unfolding slot new
locked_empty = refl

connected_again : (connect_model startable source first_address "YOKOGAWA_GS210" locked).1 ≡ ok tt
unfolding connect_model slot Instruments.valid_model instrument_descriptor is_other_model
    is_connected new preferred_kind parse strip_prefix split_fields text_eq uppercase parse_u8
    parse_digits prefer is_visa discover_visa official_kind connect_preferred Drivers.is_adc_meter
    is_dialect dialect_eq Drivers.dialect Instruments.dialect connect_kind connect_new check_others
    check_other same_role attach open_endpoint is_native_gpib find_endpoint share_or_open
    open_single_endpoint lease_for adapter_lease claim_and_identify on_error accept_identity
    identify_endpoint Drivers.identify is_legacy_source io_of request verify_model identity_command
    is_gpib catalog_role is_usable instrument_catalog find_descriptor is_native_usb parse_fields
    parse_gpib gpib_of is_word starts_with is_accepted first_line
connected_again = refl

connect_model-Accepted_example :
    Accepted source "YOKOGAWA_GS210"
      (connect_model startable source first_address "YOKOGAWA_GS210" locked).0
connect_model-Accepted_example =
    connect_model-Accepted startable source first_address "YOKOGAWA_GS210" locked locked_empty
      connected_again

-- The second source asks for the address of the first, and gets it once the first has left.
abbrev changes : List Change
changes =
    connect source first_address "YOKOGAWA_GS210"
    ∷ connect source2 first_address "YOKOGAWA_GS210"
    ∷ disconnect source
    ∷ connect source2 first_address "YOKOGAWA_GS210"
    ∷ []

run-new-Distinct_example : Distinct (run startable changes (new (gs210 ∷ [] ∷ gs210 ∷ [])))
run-new-Distinct_example = run-new-Distinct startable changes (gs210 ∷ [] ∷ gs210 ∷ [])

-- A write that the source takes.
write_recorded-write_example :
    Agrees sessions no_numbers
      (λ s. true)
      source
      (text_of ":OUTP ON")
      (write_recorded sessions no_numbers (λ s. true) source (text_of ":OUTP ON") obedient)
      (write sessions no_numbers (λ s. true) source (text_of ":OUTP ON") obedient)
write_recorded-write_example =
    write_recorded-write sessions no_numbers (λ s. true) source (text_of ":OUTP ON") obedient
