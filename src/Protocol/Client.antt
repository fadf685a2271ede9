-- ===== src/Protocol/Client.antt =====
-- `Client` of crates/instrument-protocol/src/lib.rs: connecting, and one request at a time. The
-- stream with its frames is a parameter: a state `T` with an exchange that writes one message and
-- reads one. Durations are nanoseconds.
use Prim.Native.String.{len}
use kohdalab_iv.Common.Results.{◌>>=◌, ◌>>◌}
use kohdalab_iv.Common.{
  ℕ, ◌+◌, ◌*◌, ◌/◌, String, Bool, true, false, not, ◌||◌, Option, none, some, ltb, min, max, ◌==◌,
  if◌then◌else◌, Result, ok, err, require,
}
use kohdalab_iv.Protocol.{
  ErrorCode, resource_in_use, deadline, cancelled, connection_lost, state_unknown,
  incompatible_version, invalid_request, controller_fault, internal, protocol_version,
  max_transfer_timeout, Request, Envelope, Reply, Hello, HelloReply, validate_request,
  validate_request_nonce, is_blank, has_line_break, is_empty,
}

-- The service's address: whether its IP is a loopback address, and its port.
pub record Endpoint : Type 0 where
  pub protocol : ℕ
  pub is_loopback : Bool
  pub port : ℕ
  pub token : String

unfoldable pub validate_endpoint : Endpoint → Result (Unit {0}) ErrorCode
unfolding is_blank has_line_break
validate_endpoint e = do
  require (e.protocol == protocol_version) incompatible_version
  require (not (not e.is_loopback || e.port == 0)) invalid_request
  require (not (is_blank e.token || ltb 512 (len e.token) || has_line_break e.token))
      invalid_request

-- The streams that a client may use.
pub record Network (T : Type 0) : Type 0 where
  pub open_stream : Endpoint → Result T ErrorCode
  pub greet : T → Hello → T × Result HelloReply ErrorCode
  pub exchange : T → Envelope → T × Result Reply ErrorCode

-- `none` for the stream after `close_transport`.
pub record Client (T : Type 0) : Type 0 where
  pub stream : Option T
  pub session_id : String
  pub request_nonce : String
  pub next_id : ℕ

abbrev pub u64_limit : ℕ
u64_limit = 18446744073709551616

-- The errors after which a session cannot go on.
unfoldable pub is_fatal : ErrorCode → Bool
is_fatal controller_fault = true
is_fatal connection_lost = true
is_fatal incompatible_version = true
is_fatal resource_in_use = false
is_fatal deadline = false
is_fatal cancelled = false
is_fatal state_unknown = false
is_fatal invalid_request = false
is_fatal internal = false

unfoldable pub close_transport : {T : Type 0} → Client T → Client T
close_transport c = record c { stream = none }

-- `timeout.as_millis().clamp(1, 30000)`.
unfoldable pub clamp_millis : ℕ → ℕ
clamp_millis timeout = min (max (timeout / 1000000) 1) max_transfer_timeout

-- What the client makes of the service's first answer.
unfoldable pub accept_hello : {T : Type 0} → T → HelloReply → Result (Client T) ErrorCode
unfolding is_empty validate_request_nonce
accept_hello t r =
    if not (r.protocol == protocol_version) then err incompatible_version else elim r.error [
      | some e ↦ err e
      | none ↦ do
        require (not (is_empty r.session_id || ltb 128 (len r.session_id))) invalid_request
        validate_request_nonce r.request_nonce
        ok (record {
          stream = some t;
          session_id = r.session_id;
          request_nonce = r.request_nonce;
          next_id = 1;
        })
    ]

module _ {T : Type 0} (n : Network T) where
  unfoldable pub connect : Endpoint → String → Result (Client T) ErrorCode
  unfolding validate_endpoint is_blank has_line_break accept_hello
  connect endpoint app = do
    validate_endpoint endpoint
    require (not (is_blank app || ltb 128 (len app) || has_line_break app)) invalid_request
    t ← n.open_stream endpoint
    let (t', r) =
        n.greet t (record { protocol = protocol_version; token = endpoint.token; app = app })
    reply ← r
    accept_hello t' reply

  -- The exchange over an open stream; a reply to another request is refused.
  unfoldable pub exchange_over : Option T → Envelope → Option T × Result Reply ErrorCode
  exchange_over none e = (none, err connection_lost)
  exchange_over (some t) e =
      let (t', r) = n.exchange t e in
      (
        some t',
        elim r [
          | err x ↦ err x
          | ok reply ↦ if reply.id == e.id then ok reply else err connection_lost
        ],
      )

  -- What the client does with a reply to its request.
  unfoldable pub accept_reply : Client T → Reply → Client T × Result String ErrorCode
  unfolding close_transport
  accept_reply c reply = elim (validate_request_nonce reply.request_nonce) [
    | err e ↦ (close_transport c, err e)
    | ok _ ↦
        let c' : Client T = record c { request_nonce = reply.request_nonce } in
        elim reply.error [
          | none ↦ (c', ok reply.payload)
          | some e ↦ (if is_fatal e then close_transport c' else c', err e)
        ]
  ]

  -- The part of `request` that follows the checks.
  unfoldable pub send : Client T → Request → ℕ → Client T × Result String ErrorCode
  unfolding exchange_over accept_reply clamp_millis close_transport
  send c r timeout =
      let e : Envelope = record {
        id = c.next_id;
        timeout_ms = clamp_millis timeout;
        request_nonce = c.request_nonce;
        request = r;
      } in
      let (stream', result) = exchange_over c.stream e in
      let c' : Client T = record c { stream = stream'; next_id = c.next_id + 1 } in
      elim result [ ok reply ↦ accept_reply c' reply | err x ↦ (close_transport c', err x) ]

  -- `Client::request`.
  unfoldable pub request : Client T → Request → ℕ → Client T × Result String ErrorCode
  unfolding send
  request c r timeout =
      if timeout == 0 || ltb (max_transfer_timeout * 1000000) timeout
      then (c, err invalid_request)
      else elim (validate_request r) [
        | err e ↦ (c, err e)
        | ok _ ↦ if ltb (c.next_id + 1) u64_limit then send c r timeout else (c, err internal)
      ]
