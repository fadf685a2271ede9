-- ===== src/Examples/HubExamples.antt =====
-- The theorems on the hub's core at concrete inputs: two applications, a source at address 5 and a
-- meter at address 7.
use kohdalab_iv.Common.{
  ◌≡◌, refl, String, false, none, some, List, [], ◌∷◌, arith, ok, is_ok, filter, take,
}
use kohdalab_iv.Common.Map.{Map, lookup, insert, remove, contains_key}
use kohdalab_iv.Transport.Instruments.{valid_model}
use kohdalab_iv.Catalog.{instrument_descriptor}
use kohdalab_iv.Protocol.{SafetyPolicy, instrument, source, claim, transfer, close, Envelope}
use kohdalab_iv.Hub.Journal.{Disk, write_journal, replace_file, load_journal}
use kohdalab_iv.Hub.Listing.{format_listing}
use kohdalab_iv.Hub.Controller.{Controller}
use kohdalab_iv.Hub.Core.Inventory.{Listed, list_request-Listed}
use kohdalab_iv.Hub.State.{Core, Owner, empty, valid_source, matches_policy, matches_model}
use kohdalab_iv.Hub.Core.{
  request, new, claim_request, release_address, recover_request, disconnect, transfer_request,
  release_request, list_request,
}
use kohdalab_iv.Hub.Core.Ownership.{Safe}
use kohdalab_iv.Hub.Core.Isolation.{Untouched, request-Untouched}
use kohdalab_iv.Hub.Core.Granting.{
  Granted, claim_request-Granted, Released, release_address-Released, release_address-quarantined,
}
use kohdalab_iv.Hub.Core.Faults.{Frozen, request-Frozen}
use kohdalab_iv.Hub.Core.Recovery.{Recovered, recover_request-Recovered}
use kohdalab_iv.Hub.Core.Restart.{Call, requests, run, perform, run-new-Safe, restart_quarantines}
use kohdalab_iv.Examples.Bench.{Bench, bench, calls_at, bench-IsLocal}
use kohdalab_iv.Examples.Drive.{Drive, drive, drive-IsDisk, blank_drive}

-- What an evaluation of the hub has to open.
evaluate : Unit {0}
unfolding claim_request recover_request transfer_request release_request list_request disconnect new
    valid_source valid_model instrument_descriptor load_journal run perform request release_address
    matches_policy matches_model lookup insert remove contains_key replace_file write_journal take
    filter
evaluate = tt

abbrev gs210 : String
gs210 = "YOKOGAWA_GS210"

abbrev device_map : Map SafetyPolicy
device_map = (5, source gs210) ∷ (7, instrument) ∷ []

abbrev started : Core Bench Drive
started = record {
  backend = [];
  disk = blank_drive;
  owners = [];
  unknown = [];
  inventory = [];
  fault = none;
  devices = device_map;
}

started-new : new drive [] blank_drive device_map ≡ ok started
unfolding evaluate
started-new = refl

abbrev iv : Owner
iv = record { session = "s1"; app = "IV"; policy = source gs210 }

-- The source is claimed by the first application.
abbrev claimed : Core Bench Drive
claimed = record started {
  backend = (5, "OFF") ∷ (5, "IDENTITY") ∷ [];
  disk = record { journal = some (5 ∷ 0 ∷ []); temporary = none };
  owners = (5, iv) ∷ [];
  unknown = (5, gs210) ∷ [];
}

abbrev calls : List Call
calls = requests "s1" "IV" (claim 5 (source gs210)) 1000000000 ∷ []

calls-claimed : run bench drive calls started ≡ claimed
unfolding evaluate
calls-claimed = refl

-- The service after the power was lost while the source was owned.
abbrev restarted : Core Bench Drive
restarted = record started {
  disk = record { journal = some (5 ∷ 0 ∷ []); temporary = none };
  unknown = (5, gs210) ∷ [];
}

restart_quarantines_example :
    (lookup 5 restarted.unknown ≡ some gs210)
    × (is_ok (claim_request bench drive "s2" "TRKR" 5 (source gs210) restarted).1 ≡ false)
    × ((claim_request bench drive "s2" "TRKR" 5 (source gs210) restarted).0 ≡ restarted)
unfolding evaluate
restart_quarantines_example =
    restart_quarantines bench drive-IsDisk [] [] blank_drive device_map device_map started restarted
      calls 5 iv gs210 "s2" "TRKR" (source gs210) refl refl refl refl

run-new-Safe_example : Safe bench drive-IsDisk (run bench drive calls started) 5
unfolding evaluate
run-new-Safe_example =
    run-new-Safe bench drive-IsDisk [] blank_drive device_map started calls 5 refl

request-Untouched_example :
    Untouched bench drive
      (calls_at 5)
      5
      iv
      (bench-IsLocal 5)
      claimed
      (request bench drive "s2" "TRKR" (claim 7 instrument) 1000000000 claimed).0
unfolding evaluate
request-Untouched_example =
    request-Untouched bench drive (calls_at 5) 5 iv (bench-IsLocal 5) "s2" "TRKR"
      (claim 7 instrument) 1000000000 claimed (tt, tt) refl refl

claim_request-Granted_example :
    Granted bench drive-IsDisk "s1" "IV" 5 gs210 started
      (claim_request bench drive "s1" "IV" 5 (source gs210) started).0
unfolding evaluate
claim_request-Granted_example =
    claim_request-Granted bench drive-IsDisk "s1" "IV" 5 gs210 started {r = empty} refl refl

release_address-Released_example :
    Released bench drive-IsDisk 5 gs210 claimed (release_address bench drive 5 false claimed).0
unfolding evaluate
release_address-Released_example =
    release_address-Released bench drive-IsDisk 5 false gs210 iv claimed refl refl refl

-- A controller that is in a fault.
abbrev faulted : Core Bench Drive
faulted = record claimed { fault = some "GPIB adapter removed" }

release_address-quarantined_example :
    (lookup 5 (release_address bench drive 5 false faulted).0.unknown ≡ some gs210)
    × (lookup 5 (release_address bench drive 5 false faulted).0.owners ≡ none)
unfolding evaluate
release_address-quarantined_example =
    release_address-quarantined bench drive-IsDisk 5 false gs210 iv faulted refl refl refl refl

request-Frozen_example :
    Frozen bench drive "GPIB adapter removed" faulted
      (request bench drive "s1" "IV" close 1000000000 faulted).0
request-Frozen_example =
    request-Frozen bench drive "GPIB adapter removed" "s1" "IV" close 1000000000 faulted refl

recover_request-Recovered_example :
    Recovered bench drive-IsDisk 5 gs210 restarted (recover_request bench drive 5 gs210 restarted).0
unfolding evaluate
recover_request-Recovered_example =
    recover_request-Recovered bench drive-IsDisk 5 gs210 restarted {r = empty} refl

-- A disk that is full: the temporary file cannot be written.
abbrev full : Disk Drive
full = record drive { write_all = λ s b. (s, false) }

abbrev meter_user : Owner
meter_user = record { session = "s2"; app = "TRKR"; policy = instrument }

abbrev shared : Core Bench Drive
shared = record claimed { owners = (5, iv) ∷ (7, meter_user) ∷ [] }

-- A controller that finds three listeners, one of them twice.
abbrev probing : Controller Bench
probing = record bench {
  transfer = λ b op a timeout payload. ((a, op) ∷ b, ok (format_listing (22 ∷ 5 ∷ 22 ∷ 7 ∷ [])));
}

list_request-Listed_example :
    Listed probing drive (22 ∷ 5 ∷ 22 ∷ 7 ∷ []) (list_request probing drive 1000000000 started)
list_request-Listed_example =
    list_request-Listed probing drive 1000000000 started ((1, "LIST") ∷ []) (22 ∷ 5 ∷ 22 ∷ 7 ∷ [])
      refl refl refl (omega arith)

abbrev write_off : Envelope
write_off = record {
  id = 1;
  timeout_ms = 1000;
  request_nonce = "n1";
  request = transfer "WRITE" 5 500 [];
}
