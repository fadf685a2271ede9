-- ===== src/Hub/Connection/Lockstep.antt =====
-- The client of crates/instrument-protocol/src/lib.rs against the connection handler of
-- crates/instrument-hub/src/server.rs: the ids and the nonces of the two ends stay in step.
use kohdalab_iv.Common.{
  ℕ, ◌+◌, ◌*◌, ◌<◌, ◌≤◌, ◌≡◌, refl, String, Bool, true, false, none, some, List, [], ◌∷◌, arith,
  Result, ok, err, eq_refl, if◌then◌else◌,
}
use kohdalab_iv.Protocol.{
  ErrorCode, connection_lost, Envelope, Request, Reply, validate_request, validate_request_nonce,
  validate_envelope, in_range, max_transfer_timeout,
}
use kohdalab_iv.Protocol.Client.{Client, Network, clamp_millis, request, is_fatal, u64_limit}
use kohdalab_iv.Hub.Connection.{Connection, is_turn, accept_envelope, write_reply}

-- A service behind a stream: the connection, whether the worker's queue has room, and for each
-- request to come the nonce that is drawn and the result that the worker returns.
pub record Service : Type 0 where
  pub connection : Connection
  pub has_room : Bool
  pub script : List (String × Result String ErrorCode)

abbrev pub reply_of : ℕ → Result String ErrorCode → Reply
reply_of i (ok payload) = record { id = i; payload = payload; request_nonce = ""; error = none }
reply_of i (err e) = record { id = i; payload = ""; request_nonce = ""; error = some e }

abbrev answer :
    Service
    → Connection
    → ℕ
    → List (String × Result String ErrorCode)
    → Service × Result Reply ErrorCode
answer t s i [] = (t, err connection_lost)
answer t s i ((nonce, outcome) ∷ rest) =
    let (s', reply) = write_reply nonce (reply_of i outcome) s in
    (record t { connection = s'; script = rest }, ok reply)

pub serve_exchange : Service → Envelope → Service × Result Reply ErrorCode
serve_exchange t e = elim (accept_envelope t.has_room e t.connection) [
  | none ↦ (t, err connection_lost)
  | some s ↦ answer t s e.id t.script
]

abbrev pub service : Network Service
service = record {
  open_stream = λ e. err connection_lost;
  greet = λ t h. (t, err connection_lost);
  exchange = serve_exchange;
}

-- The client may send: it holds the nonce that the connection expects, and its next id is new.
pub record InStep (c : Client Service) (t : Service) : Type 0 where
  pub connected : c.stream ≡ some t
  pub alive : t.connection.alive ≡ true
  pub turn : t.connection.expected_nonce ≡ some c.request_nonce
  pub nonce_valid : validate_request_nonce c.request_nonce ≡ ok tt
  pub id_new : t.connection.last_id < c.next_id

abbrev pub survives : Result String ErrorCode → Bool
survives (ok payload) = true
survives (err e) = if is_fatal e then false else true

clamp_millis-in_range :
    (timeout : ℕ) → in_range 1 max_transfer_timeout (clamp_millis timeout) ≡ true
unfolding in_range clamp_millis
clamp_millis-in_range timeout = ground arith

-- What the client sends is accepted.
accept_sent :
    (c : Client Service) (t : Service) (r : Request) (timeout : ℕ)
    → InStep c t
    → t.has_room ≡ true
    → validate_request r ≡ ok tt
    → accept_envelope t.has_room
        (record {
          id = c.next_id;
          timeout_ms = clamp_millis timeout;
          request_nonce = c.request_nonce;
          request = r;
        })
        t.connection
      ≡ some (record t.connection { expected_nonce = none; last_id = c.next_id })
unfolding accept_envelope validate_envelope is_turn
accept_sent c t r timeout h queued v =
    ground (arith, queued, clamp_millis-in_range timeout, eq_refl c.request_nonce)

abbrev sent : Client Service → Request → ℕ → Envelope
sent c r timeout = record {
  id = c.next_id;
  timeout_ms = clamp_millis timeout;
  request_nonce = c.request_nonce;
  request = r;
}

-- The service after it has answered.
abbrev pub answered :
    Client Service → Service → String → List (String × Result String ErrorCode) → Service
answered c t nonce rest = record t {
  connection = record t.connection { expected_nonce = some nonce; last_id = c.next_id };
  script = rest;
}

exchange_sent :
    (c : Client Service) (t : Service) (r : Request) (timeout : ℕ) (nonce : String)
    (outcome : Result String ErrorCode) (rest : List (String × Result String ErrorCode))
    → InStep c t
    → t.has_room ≡ true
    → t.script ≡ (nonce, outcome) ∷ rest
    → validate_request r ≡ ok tt
    → serve_exchange t (sent c r timeout) ≡ (
      answered c t nonce rest,
      ok (record (reply_of c.next_id outcome) { request_nonce = nonce }),
    )
unfolding serve_exchange write_reply
exchange_sent c t r timeout nonce outcome rest h queued script v =
    rw (accept_sent c t r timeout h queued v, serve_exchange) (rw script refl)

-- If the worker's queue has room, a valid request of a client in step, with a time limit of up to
-- 30 s and an id below 2^64 - 1, is accepted and returns exactly the result that the worker gives,
-- if the next nonce is well formed and the result is not a fatal error; and then the client is in
-- step again with the same service.
pub request-InStep :
    (c : Client Service) (t : Service) (r : Request) (timeout : ℕ) (nonce : String)
    (outcome : Result String ErrorCode) (rest : List (String × Result String ErrorCode))
    → InStep c t
    → t.has_room ≡ true
    → t.script ≡ (nonce, outcome) ∷ rest
    → validate_request r ≡ ok tt
    → (0 < timeout) × (timeout ≤ max_transfer_timeout * 1000000)
    → c.next_id + 1 < u64_limit
    → validate_request_nonce nonce ≡ ok tt
    → survives outcome ≡ true
    → ((request service c r timeout).1 ≡ outcome)
      × InStep (request service c r timeout).0 (answered c t nonce rest)
unfolding request
request-InStep c t r timeout nonce (ok payload) rest h queued script v bounds room valid alive =
    let x = exchange_sent c t r timeout nonce (ok payload) rest h queued script v in
    (ground (arith, x), ground (arith, x))
request-InStep c t r timeout nonce (err e) rest h queued script v bounds room valid alive =
    let x = exchange_sent c t r timeout nonce (err e) rest h queued script v in
    (ground (arith, x), ground (arith, x))
