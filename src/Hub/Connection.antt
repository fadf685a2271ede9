-- ===== src/Hub/Connection.antt =====
-- `serve_client` of crates/instrument-hub/src/server.rs: the greeting of a client, the reader's check
-- of each envelope, and the writer's answer. Nonces are fresh random texts and come from outside.
pub mod Lockstep
use Prim.Native.String.{len}
use kohdalab_iv.Common.{
  ℕ, ◌≡◌, String, Bool, true, false, not, ◌&&◌, ◌||◌, Option, none, some, ltb, leb, ◌==◌, str_eq,
  if◌then◌else◌, Result, ok, err, is_ok,
}
use kohdalab_iv.Protocol.{
  ErrorCode, invalid_request, incompatible_version, protocol_version, Envelope, Reply, Hello,
  HelloReply, validate_envelope, is_blank, has_line_break,
}

-- The state that the reader and the writer of one connection share. The nonce is there only while
-- it is the client's turn.
pub record Connection : Type 0 where
  pub session : String
  pub expected_nonce : Option String
  pub last_id : ℕ
  pub alive : Bool

-- Why a greeting is refused, if it is.
unfoldable pub hello_problem : String → Hello → Option ErrorCode
unfolding is_blank has_line_break
hello_problem token h =
    if not (h.protocol == protocol_version)
    then some incompatible_version
    else (if not (str_eq h.token token)
          || is_blank h.app
          || ltb 128 (len h.app)
          || has_line_break h.app
        then some invalid_request
        else none)

-- The reply to a greeting, with the connection if it is accepted.
unfoldable pub greet : String → String → String → Hello → HelloReply × Option Connection
unfolding hello_problem
greet token session nonce h = elim (hello_problem token h) [
  | some e ↦ (
    record { protocol = protocol_version; session_id = ""; request_nonce = ""; error = some e },
    none,
  )
  | none ↦ (
    record {
      protocol = protocol_version;
      session_id = session;
      request_nonce = nonce;
      error = none;
    },
    some (record { session = session; expected_nonce = some nonce; last_id = 0; alive = true }),
  )
]

unfoldable pub is_turn : Option String → String → Bool
is_turn none nonce = false
is_turn (some expected) nonce = str_eq expected nonce

-- The reader's loop body. `queued` is whether the worker's channel had room. `none` ends the
-- connection; otherwise the envelope is on its way to the worker.
unfoldable pub accept_envelope : Bool → Envelope → Connection → Option Connection
unfolding is_turn
accept_envelope queued e s =
    if s.alive
      && is_ok (validate_envelope e)
      && ltb s.last_id e.id
      && is_turn s.expected_nonce e.request_nonce
      && queued
    then some (record s { expected_nonce = none; last_id = e.id })
    else none

-- The writer's loop body: a fresh nonce goes out with the reply, and is the next to be expected.
unfoldable pub write_reply : String → Reply → Connection → Connection × Reply
write_reply nonce r s =
    (record s { expected_nonce = some nonce }, record r { request_nonce = nonce })
