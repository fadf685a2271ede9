-- ===== src/Transport/Session.antt =====
-- `HelperSession` of crates/iv-transport/src/lib.rs: the exchanges with one helper process. The
-- process with its pipes and the clock are a parameter, over the state `W`; a lease is a value of
-- `L`. Durations are nanoseconds.
pub mod Frames
pub mod Poisoning
use kohdalab_iv.Common.Exec.{Exec, ◌>>=◌, ◌>>◌, pure, fail, lift, gets, modify, check}
use kohdalab_iv.Common.{
  ℕ, zero, suc, ◌+◌, ◌-◌, ◌*◌, ◌≡◌, String, Bool, true, false, not, ◌&&◌, ◌||◌, Option, none, some,
  List, [], ◌∷◌, if◌then◌else◌, leb, ltb, length, str_eq, Result, ok, err,
}
use kohdalab_iv.Common.Text.{Text, text_of}
use kohdalab_iv.Protocol.{SafetyPolicy, instrument, source}
use kohdalab_iv.Transport.Fault.{
  Fault, closed, poisoned, oversized_payload, send_failed, pipe_lost, timed_out, malformed_frame,
  oversized_frame,
}
use kohdalab_iv.Transport.Instruments.{Role, is_source_role}
use kohdalab_iv.Transport.Replies.{starts_with}
use kohdalab_iv.Transport.Wire.{KivFrame, parse_kiv, into_payload, request_line, max_payload}

-- What `recv_timeout` gives.
pub data Received : Type 0 where
  line : Text → Received
  read_error eof timeout disconnected : Received

pub record Helper (W : Type 0) : Type 0 where
  pub send_line : W → Text → W × Bool
  pub receive : W → ℕ → W × Received
  pub now : W → ℕ
  -- The process and its reader have ended.
  pub finish : W → W
  pub is_utf8 : Text → Bool
  -- The JSON of a safety policy.
  pub policy_json : SafetyPolicy → List ℕ

pub record HelperSession (W L : Type 0) : Type 0 where
  pub process : W
  pub has_lines : Bool
  pub lease : Option L
  pub exit_address : ℕ
  pub is_poisoned : Bool
  pub is_closed : Bool
  pub hub : Bool

abbrev pub startup_limit : ℕ
startup_limit = 65536

unfoldable pub is_scpi : String → Bool
is_scpi op = str_eq op "WRITE" || str_eq op "QUERY" || str_eq op "READ"

unfoldable pub is_diagnostic : Text → Bool
is_diagnostic = starts_with (text_of "gpib: ")

abbrev pub M : Type 0 → Type 0 → Type 0 → Type 0
M W L A = Exec (HelperSession W L) Fault A

module _ {W L : Type 0} where
  unfoldable pub poison : HelperSession W L → HelperSession W L
  poison s = record s { is_poisoned = true }

  -- What a received event means for a session.
  unfoldable pub read_event : Received → M W L Text
  unfolding poison
  read_event (line text) s = (s, ok text)
  read_event read_error s = (s, err malformed_frame)
  read_event eof s = (s, err pipe_lost)
  read_event timeout s = (poison s, err timed_out)
  read_event disconnected s = (s, err pipe_lost)

  -- A failed transfer poisons the session.
  unfoldable pub poison_if : {A : Type 0} → Bool → M W L A → M W L A
  unfolding poison
  poison_if scpi m s =
      let (s', r) = m s in
      elim r [ ok a ↦ (s', ok a) | err e ↦ (if scpi then poison s' else s', err e) ]

module _ {W L : Type 0} (h : Helper W) where
  unfoldable pub next_line : ℕ → M W L Text
  unfolding read_event
  next_line deadline s =
      if s.has_lines
      then (let (w, event) = h.receive s.process (deadline - h.now s.process) in
          read_event event (record s { process = w }))
      else (s, err pipe_lost)

  -- The loop of `next_protocol_frame`, after `used` bytes of diagnostics. Each turn uses one byte at
  -- least, so `fuel` turns are enough where they exceed the bytes that are left.
  unfoldable pub next_frame : ℕ → ℕ → ℕ → M W L KivFrame
  next_frame zero used deadline = fail oversized_frame
  next_frame (suc fuel) used deadline = do
    text ← next_line deadline
    (if is_diagnostic text
        then (if ltb startup_limit (used + length text)
            then fail oversized_frame
            else next_frame fuel (used + length text) deadline)
        else lift (parse_kiv text))

  unfoldable pub next_protocol_frame : ℕ → M W L KivFrame
  unfolding next_frame
  next_protocol_frame deadline = next_frame (suc startup_limit) 0 deadline

  unfoldable pub send : Text → M W L (Unit {0})
  unfolding poison
  send text s =
      let (w, sent) = h.send_line s.process text in
      let s' = record s { process = w } in
      if sent then (s', ok tt) else (poison s', err send_failed)

  unfoldable pub decode_reply : Bool → KivFrame → M W L Text
  decode_reply scpi frame = poison_if scpi (lift (into_payload h.is_utf8 frame))

  unfoldable pub read_reply : Bool → ℕ → M W L Text
  read_reply scpi limit s =
      (poison_if scpi (next_protocol_frame (h.now s.process + limit)) >>= decode_reply scpi) s

  -- What follows the checks of a request.
  unfoldable pub exchange : String → ℕ → ℕ → List ℕ → ℕ → M W L Text
  exchange op address timeout_ms payload limit =
      send (request_line (text_of op) address timeout_ms payload) >>= λ _.
      read_reply (is_scpi op) limit

  unfoldable pub request : String → ℕ → ℕ → List ℕ → ℕ → M W L Text
  request op address timeout_ms payload limit = do
    is_over ← gets (λ s. s.is_closed)
    check (not is_over) closed
    is_bad ← gets (λ s. s.is_poisoned)
    check (not (is_bad && is_scpi op)) poisoned
    check (leb (length payload) max_payload) oversized_payload
    exchange op address timeout_ms payload limit

  unfoldable pub claim : ℕ → Role → String → M W L (Unit {0})
  unfolding request
  claim address role model s =
      if not s.hub
      then (s, ok tt)
      else (do
        let policy = if is_source_role role then source model else instrument
        _ ← request "CLAIM" address 15000 (h.policy_json policy) 17000000000
        pure tt)
          s

  unfoldable pub release : ℕ → M W L (Unit {0})
  unfolding request
  release address s =
      if not s.hub
      then (s, ok tt)
      else (do _ ← request "RELEASE" address 10000 [] 12000000000; pure tt) s

  unfoldable pub finish_process : Bool → HelperSession W L → HelperSession W L
  finish_process release_lease s = record s {
    process = h.finish s.process;
    has_lines = false;
    lease = if release_lease then none else s.lease;
  }

  unfoldable pub close : M W L (Unit {0})
  unfolding request finish_process
  close s =
      let (s', reply) = request "EXIT" s.exit_address 2000 [] 2000000000 s in
      if s.is_closed then (s, ok tt) else (
        finish_process true (record s' { is_closed = true }),
        elim reply [ ok _ ↦ ok tt | err e ↦ err e ],
      )

  -- The lease of the session, which has ended.
  unfoldable pub abandon_for_recovery : HelperSession W L → HelperSession W L × Option L
  unfolding finish_process
  abandon_for_recovery s =
      let s' = finish_process false (record s { is_poisoned = true; is_closed = true }) in
      (record s' { lease = none }, s'.lease)
