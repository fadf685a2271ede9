-- ===== src/Protocol/Bounds.antt =====
-- What the checks of crates/instrument-protocol/src/lib.rs guarantee of an accepted envelope.
use kohdalab_iv.Common.{◌≤◌, ◌≡◌, true, ok, length, arith}
use kohdalab_iv.Protocol.{
  Envelope, Request, claim, transfer, release, list, close, recover, status, max_payload,
  max_transfer_timeout, validate_envelope, validate_request, validate_address, in_range,
  is_transfer_operation,
}

-- The bounds that a request of each kind is to meet.
abbrev pub InBounds : Request → Type 0
InBounds (claim a policy) = (1 ≤ a) × (a ≤ 30)
InBounds (transfer op a timeout_ms payload) =
    ((1 ≤ a) × (a ≤ 30))
    × ((1 ≤ timeout_ms) × (timeout_ms ≤ max_transfer_timeout))
    × (length payload ≤ max_payload)
    × (is_transfer_operation op ≡ true)
InBounds (release a) = (1 ≤ a) × (a ≤ 30)
InBounds (recover a model) = (1 ≤ a) × (a ≤ 30)
InBounds list = Unit
InBounds close = Unit
InBounds status = Unit

validate_request-InBounds : (r : Request) → validate_request r ≡ ok tt → InBounds r
unfolding validate_request validate_address in_range
validate_request-InBounds (claim a policy) h = ground arith
validate_request-InBounds (transfer op a timeout_ms payload) h = ground arith
validate_request-InBounds (release a) h = ground arith
validate_request-InBounds (recover a model) h = ground arith
validate_request-InBounds list h = tt
validate_request-InBounds close h = tt
validate_request-InBounds status h = tt

-- An envelope that passes validation has a time limit of 1 to 30000 ms, an address of 1 to 30, and,
-- if it transfers, a transfer time limit of 1 to 30000 ms, at most 16 KiB of payload and one of the
-- six operations.
pub validate_envelope-InBounds :
    (e : Envelope)
    → validate_envelope e ≡ ok tt
    → (1 ≤ e.timeout_ms) × (e.timeout_ms ≤ max_transfer_timeout) × InBounds e.request
unfolding validate_envelope in_range
validate_envelope-InBounds e h = ground (arith, validate_request-InBounds e.request)
