-- ===== src/Hub/Proxy.antt =====
-- `proxy_request` of crates/instrument-hub/src/main.rs: the client of the service that stands in for
-- a helper process, and turns its lines into requests.
pub mod Forwarding
use kohdalab_iv.Common.Results.{◌>>=◌, ◌>>◌}
use kohdalab_iv.Common.{
  ℕ, ◌+◌, ◌*◌, ◌%◌, String, Bool, true, false, not, ◌&&◌, ◌||◌, Option, none, some, List, [], ◌∷◌,
  if◌then◌else◌, all, leb, ltb, ◌==◌, length, max, Result, ok, err, require, ok_or,
}
use kohdalab_iv.Common.Text.{Text, text_of, text_eq, parse_u8}
use kohdalab_iv.Common.Digits.{parse_u64}
use kohdalab_iv.Protocol.{
  Request, claim, transfer, release, list, close, SafetyPolicy, ErrorCode, invalid_request,
  in_range,
}
use kohdalab_iv.Protocol.Client
use kohdalab_iv.Protocol.Client.{Client, Network}
use kohdalab_iv.Transport.Resources.{hex_value}
use kohdalab_iv.Transport.Words.{split_whitespace}

-- `u8::from_str_radix` of two characters; a plus sign may stand before one digit.
unfoldable pub pair_value : ℕ → ℕ → Option ℕ
unfolding hex_value
pair_value a b = if a == b'+' then hex_value b else elim (hex_value a) [
  | none ↦ none
  | some high ↦ elim (hex_value b) [ none ↦ none | some low ↦ some (high * 16 + low) ]
]

unfoldable pub unhex_pairs : Text → Option (List ℕ)
unfolding pair_value
unhex_pairs [] = some []
unhex_pairs (a ∷ []) = some []
unhex_pairs (a ∷ b ∷ s) =
    let rest = unhex_pairs s in
    elim (pair_value a b) [
      | none ↦ none
      | some v ↦ elim rest [ none ↦ none | some bytes ↦ some (v ∷ bytes) ]
    ]

unfoldable pub unhex : Text → Option (List ℕ)
unhex s =
    if text_eq s (text_of "-")
    then some []
    else (if not (length s % 2 == 0) || (ltb 32768 (length s) || not (all (λ c. ltb c 128) s))
        then none
        else unhex_pairs s)

-- What a line asks for: a request with its time limit, and whether the client stops after it; or
-- nothing that the service has to do.
pub data Proxied : Type 0 where
  forward : Request → ℕ → Bool → Proxied
  silent : Proxied

unfoldable pub transfer_operation : Text → Option String
transfer_operation op =
    if text_eq op (text_of "WRITE")
    then some "WRITE"
    else (if text_eq op (text_of "QUERY")
        then some "QUERY"
        else (if text_eq op (text_of "READ")
            then some "READ"
            else (if text_eq op (text_of "CLEAR")
                then some "CLEAR"
                else (if text_eq op (text_of "LOCAL") then some "LOCAL" else none))))

-- `parse_policy` is the JSON of a safety policy.
module _ (parse_policy : List ℕ → Option SafetyPolicy) where
  unfoldable pub choose_request : Text → ℕ → ℕ → List ℕ → Result Proxied ErrorCode
  unfolding transfer_operation
  choose_request op a timeout_ms payload =
      if text_eq op (text_of "CLAIM")
      then elim (parse_policy payload) [
        | none ↦ err invalid_request
        | some policy ↦ ok (forward (claim a policy) (max timeout_ms 10000) false)
      ]
      else (if text_eq op (text_of "RELEASE")
          then ok (forward (release a) (max timeout_ms 10000) false)
          else (if text_eq op (text_of "LIST")
              then ok (forward list (max timeout_ms 1) false)
              else (if text_eq op (text_of "EXIT")
                  then ok (forward close (max timeout_ms 10000) true)
                  else (if text_eq op (text_of "REN") && text_eq payload (text_of "0")
                      then ok silent
                      else elim (transfer_operation op) [
                        | none ↦ err invalid_request
                        | some name ↦
                            ok (
                              forward (transfer name a timeout_ms payload) (max timeout_ms 1) false)
                      ]))))

  unfoldable pub choose : Text → Text → Text → Text → Result Proxied ErrorCode
  unfolding choose_request in_range
  choose op address timeout encoded = do
    a ← ok_or invalid_request (parse_u8 address)
    timeout_ms ← ok_or invalid_request (parse_u64 timeout)
    require (in_range 1 30 a && in_range 1 30000 timeout_ms) invalid_request
    payload ← ok_or invalid_request (unhex encoded)
    choose_request op a timeout_ms payload

  unfoldable pub choose_fields : List Text → Result Proxied ErrorCode
  unfolding choose
  choose_fields (op ∷ address ∷ timeout ∷ encoded ∷ []) = choose op address timeout encoded
  choose_fields _ = err invalid_request

  unfoldable pub parse_line : Text → Result Proxied ErrorCode
  unfolding choose_fields
  parse_line line = choose_fields (split_whitespace line)

  -- The reply, and whether the client stops.
  unfoldable pub proxy_request :
      {T : Type 0} → Network T → Client T → Text → Client T × Result (String × Bool) ErrorCode
  unfolding parse_line
  proxy_request n c line = elim (parse_line line) [
    | err e ↦ (c, err e)
    | ok silent ↦ (c, ok ("", false))
    | ok (forward r timeout_ms closing) ↦
        let (c', result) = Client.request n c r (timeout_ms * 1000000) in
        elim result [ ok reply ↦ (c', ok (reply, closing)) | err e ↦ (c', err e) ]
  ]
