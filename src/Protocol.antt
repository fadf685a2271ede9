-- ===== src/Protocol.antt =====
-- crates/instrument-protocol/src/lib.rs: the requests of the instrument service and the checks that
-- both ends make of them. An error keeps its code; the wording of its message is not modelled.
pub mod Bounds
pub mod Client
use kohdalab_iv.Common.Text.{text_of}
use Prim.Native.String.{len}
use kohdalab_iv.Common.Results.{◌>>◌}
use kohdalab_iv.Common.{
  ℕ, zero, suc, ◌+◌, ◌*◌, String, Bool, true, false, not, ◌&&◌, ◌||◌, Option, none, some, List, [],
  ◌∷◌, ◌≡◌, leb, ltb, ◌==◌, str_eq, if◌then◌else◌, length, any, all, Result, ok, err, require,
}

abbrev pub protocol_version : ℕ
protocol_version = 2

abbrev pub max_frame : ℕ
max_frame = 65536

abbrev pub max_payload : ℕ
max_payload = 16384

-- Milliseconds.
abbrev pub max_transfer_timeout : ℕ
max_transfer_timeout = 30000

pub data ErrorCode : Type 0 where
  resource_in_use deadline cancelled connection_lost state_unknown : ErrorCode
  incompatible_version invalid_request controller_fault internal : ErrorCode

pub data SafetyPolicy : Type 0 where
  instrument : SafetyPolicy
  source : String → SafetyPolicy

pub data Request : Type 0 where
  claim : ℕ → SafetyPolicy → Request
  -- The operation, the address, the time limit in milliseconds, and the payload.
  transfer : String → ℕ → ℕ → List ℕ → Request
  release : ℕ → Request
  list : Request
  close : Request
  recover : ℕ → String → Request
  status : Request

pub record Envelope : Type 0 where
  pub id : ℕ
  pub timeout_ms : ℕ
  pub request_nonce : String
  pub request : Request

pub record Reply : Type 0 where
  pub id : ℕ
  pub payload : String
  pub request_nonce : String
  pub error : Option ErrorCode

pub record Hello : Type 0 where
  pub protocol : ℕ
  pub token : String
  pub app : String

pub record HelloReply : Type 0 where
  pub protocol : ℕ
  pub session_id : String
  pub request_nonce : String
  pub error : Option ErrorCode

-- `char::is_whitespace`, the Unicode property White_Space.
unfoldable pub is_whitespace : ℕ → Bool
is_whitespace c =
    (leb 9 c && leb c 13)
    || c == 32
    || c == 0x85
    || c == 0xa0
    || c == 0x1680
    || (leb 0x2000 c && leb c 0x200a)
    || c == 0x2028
    || c == 0x2029
    || c == 0x202f
    || c == 0x205f
    || c == 0x3000

-- `text.trim().is_empty()`.
unfoldable pub is_blank : String → Bool
unfolding is_whitespace all
is_blank s = all is_whitespace (text_of s)

-- `text.contains(['\r', '\n'])`.
unfoldable pub has_line_break : String → Bool
unfolding any
has_line_break s = any (λ c. c == 13 || c == 10) (text_of s)

unfoldable pub is_empty : String → Bool
is_empty String.[] = true
is_empty (String.◌∷◌ c s) = false

unfoldable pub in_range : ℕ → ℕ → ℕ → Bool
in_range lo hi x = leb lo x && leb x hi

unfoldable pub validate_address : ℕ → Result (Unit {0}) ErrorCode
unfolding in_range
validate_address a = require (in_range 1 30 a) invalid_request

unfoldable pub validate_model : String → Result (Unit {0}) ErrorCode
unfolding is_blank has_line_break
validate_model model =
    require (not (is_blank model || ltb 128 (len model) || has_line_break model)) invalid_request

unfoldable pub validate_request_nonce : String → Result (Unit {0}) ErrorCode
unfolding is_empty has_line_break
validate_request_nonce nonce =
    require (not (is_empty nonce || ltb 128 (len nonce) || has_line_break nonce)) invalid_request

unfoldable pub is_transfer_operation : String → Bool
is_transfer_operation op =
    str_eq op "WRITE"
    || str_eq op "QUERY"
    || str_eq op "READ"
    || str_eq op "CLEAR"
    || str_eq op "LOCAL"
    || str_eq op "REN"

unfoldable pub validate_policy : SafetyPolicy → Result (Unit {0}) ErrorCode
unfolding validate_model
validate_policy instrument = ok tt
validate_policy (source model) = validate_model model

unfoldable pub validate_request : Request → Result (Unit {0}) ErrorCode
unfolding validate_address validate_policy validate_model in_range is_transfer_operation
validate_request (claim a policy) = do validate_address a; validate_policy policy
validate_request (transfer op a timeout_ms payload) = do
  validate_address a
  require (in_range 1 max_transfer_timeout timeout_ms) invalid_request
  require (leb (length payload) max_payload) invalid_request
  require (is_transfer_operation op) invalid_request
validate_request (release a) = validate_address a
validate_request (recover a model) = do validate_address a; validate_model model
validate_request list = ok tt
validate_request close = ok tt
validate_request status = ok tt

unfoldable pub validate_envelope : Envelope → Result (Unit {0}) ErrorCode
unfolding validate_request validate_request_nonce in_range
validate_envelope e = do
  require (in_range 1 max_transfer_timeout e.timeout_ms) invalid_request
  validate_request_nonce e.request_nonce
  validate_request e.request
