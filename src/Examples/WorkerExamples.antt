-- ===== src/Examples/WorkerExamples.antt =====
-- The theorems on the hub's worker and its connections at concrete inputs.
use kohdalab_iv.Common.{ℕ, ◌≡◌, refl, ◌⊎◌, true, none, some, List, [], ◌∷◌, arith, ok}
use kohdalab_iv.Common.Map.{lookup}
use kohdalab_iv.Common.Text.{text_of}
use kohdalab_iv.Protocol.{instrument, transfer, status, validate_request, validate_request_nonce}
use kohdalab_iv.Protocol.Client
use kohdalab_iv.Protocol.Client.{Client}
use kohdalab_iv.Hub.State.{Core, Owner, valid_address}
use kohdalab_iv.Hub.Core.{request, transfer_request}
use kohdalab_iv.Hub.Sessions.{Sessions, is_registered, find_app}
use kohdalab_iv.Hub.Worker.{
  Worker, Observed, Event, Command, command, iterate, finish, select, is_safety, lost_sessions,
}
use kohdalab_iv.Hub.Worker.Queue.{Selected, select-Selected}
use kohdalab_iv.Hub.Worker.Registered.{iterate-Registered, finish-no_owners}
use kohdalab_iv.Hub.Connection.{Connection}
use kohdalab_iv.Hub.Connection.Lockstep.{Service, service, InStep, answered, request-InStep}
use kohdalab_iv.Examples.Bench.{Bench, bench}
use kohdalab_iv.Examples.Drive.{Drive, drive, blank_drive}

abbrev poll : Command
poll = record {
  session = "s1";
  envelope = record {
    id = 4;
    timeout_ms = 1000;
    request_nonce = "n4";
    request = transfer "QUERY" 7 500 (text_of "READ?\n");
  };
  received = 100;
}

abbrev switch_off : Command
switch_off = record {
  session = "s2";
  envelope = record {
    id = 9;
    timeout_ms = 1000;
    request_nonce = "n9";
    request = transfer "WRITE" 5 500 (text_of ":OUTP OFF\n");
  };
  received = 200;
}

abbrev sessions : Sessions
sessions = ("s1", "IV") ∷ ("s2", "TRKR") ∷ []

abbrev queue : List Event
queue = command poll ∷ command switch_off ∷ []

select-Selected_example :
    ((select sessions queue ≡ none) × (queue ≡ []))
    ⊎ ((e : Event) × (rest : List Event) × (select sessions queue ≡ some (e, rest))
        × Selected sessions queue e rest)
select-Selected_example = select-Selected sessions queue

abbrev meter_user : Owner
meter_user = record { session = "s2"; app = "TRKR"; policy = instrument }

abbrev core : Core Bench Drive
core = record {
  backend = [];
  disk = blank_drive;
  owners = (7, meter_user) ∷ [];
  unknown = [];
  inventory = [];
  fault = none;
  devices = (7, instrument) ∷ [];
}

-- Both clients are alive.
abbrev quiet : Observed
quiet = record {
  alive_at_sweep = λ i. true;
  alive_at_dispatch = λ i. true;
  now_at_check = 1000;
  now_at_request = 1100;
}

abbrev worker : Worker Bench Drive
worker = record { core = core; sessions = sessions; pending = []; inbox = queue }

core-owner : (a : ℕ) (o : Owner) → lookup a core.owners ≡ some o → o ≡ meter_user
unfolding lookup
core-owner a o e = ground arith

core-Registered :
    (a : ℕ) (o : Owner) → lookup a core.owners ≡ some o → is_registered o.session sessions ≡ true
unfolding is_registered
core-Registered a o e = rw (core-owner a o e) refl

iterate-Registered_example : is_registered "s2" (iterate bench drive quiet worker).0.sessions ≡ true
unfolding iterate lookup is_safety is_registered lost_sessions find_app request transfer_request
    valid_address
iterate-Registered_example =
    iterate-Registered bench drive quiet worker 7 meter_user core-Registered refl

finish-no_owners_example : lookup 7 (finish bench drive worker).owners ≡ none
finish-no_owners_example = finish-no_owners bench drive worker 7 core-Registered

abbrev connection : Connection
connection = record { session = "s1"; expected_nonce = some "n1"; last_id = 0; alive = true }

abbrev served : Service
served = record { connection = connection; has_room = true; script = ("n2", ok "1") ∷ [] }

abbrev client : Client Service
client = record { stream = some served; session_id = "s1"; request_nonce = "n1"; next_id = 1 }

client-InStep : InStep client served
unfolding validate_request_nonce
client-InStep = record {
  connected = refl;
  alive = refl;
  turn = refl;
  nonce_valid = refl;
  id_new = omega arith;
}

request-InStep_example :
    ((Client.request service client status 1000000000).1 ≡ ok "1")
    × InStep (Client.request service client status 1000000000).0 (answered client served "n2" [])
unfolding validate_request validate_request_nonce
request-InStep_example =
    request-InStep client served status 1000000000 "n2" (ok "1") [] client-InStep refl refl refl
      (omega arith) (omega arith) refl refl
