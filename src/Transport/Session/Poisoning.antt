-- ===== src/Transport/Session/Poisoning.antt =====
-- What a failed transfer leaves of a session of crates/iv-transport/src/lib.rs.
use kohdalab_iv.Common.Exec.{◌>>=◌, lift}
use kohdalab_iv.Common.{
  ℕ, zero, suc, ◌+◌, ◌≤◌, ◌≡◌, refl, ◌∙◌, inl, inr, String, Bool, true, false, List, [], ◌∷◌,
  length, arith, err, Result-cases,
}
use kohdalab_iv.Common.Text.{Text, text_of}
use kohdalab_iv.Transport.Fault.{Fault, poisoned}
use kohdalab_iv.Transport.Wire.{KivFrame, into_payload, request_line, max_payload}
use kohdalab_iv.Transport.Session.{
  Helper, Received, HelperSession, M, startup_limit, is_scpi, poison, read_event, next_line,
  next_frame, next_protocol_frame, poison_if, send, decode_reply, read_reply, exchange, request,
}

-- A session is as open as before, and stays poisoned.
pub record Kept {W L : Type 0} (s s' : HelperSession W L) : Type 0 where
  pub as_open : s'.is_closed ≡ s.is_closed
  pub still_poisoned : s.is_poisoned ≡ true → s'.is_poisoned ≡ true

module _ {W L : Type 0} where
  read_event-Kept : (event : Received) (s : HelperSession W L) → Kept s (read_event event s).0
  unfolding read_event
  read_event-Kept event s = ground arith

  poison_if-Kept :
      {A : Type 0} (scpi : Bool) (m : M W L A) (s : HelperSession W L)
      → Kept s (m s).0
      → Kept s (poison_if scpi m s).0
  unfolding poison_if
  poison_if-Kept scpi m s k = ground arith

  poison_if-poisons :
      {A : Type 0} (m : M W L A) (s : HelperSession W L) (e : Fault)
      → (poison_if true m s).1 ≡ err e
      → (poison_if true m s).0.is_poisoned ≡ true
  unfolding poison_if
  poison_if-poisons m s e failed = ground arith

module _ {W L A B : Type 0} where
  Kept-bind :
      (m : M W L A) (f : A → M W L B) (s : HelperSession W L)
      → Kept s (m s).0
      → ((a : A) (s' : HelperSession W L) → Kept s' (f a s').0)
      → Kept s ((m >>= f) s).0
  Kept-bind m f s k each = elim (Result-cases (m s).1) [
    | inr (e, r) ↦ ground arith
    | inl (a, r) ↦ ground (arith, each a (m s).0)
  ]

module _ {W L : Type 0} (h : Helper W) where
  next_line-Kept : (deadline : ℕ) (s : HelperSession W L) → Kept s (next_line h deadline s).0
  unfolding next_line
  next_line-Kept deadline s = ground arith

  next_frame-Kept :
      (fuel used deadline : ℕ) (s : HelperSession W L)
      → Kept s (next_frame h fuel used deadline s).0
  unfolding next_frame
  next_frame-Kept zero used deadline s = record { as_open = refl; still_poisoned = λ k. k }
  next_frame-Kept (suc fuel) used deadline s = elim (Result-cases (next_line h deadline s).1) [
    | inr (e, r) ↦ ground (arith, next_line-Kept deadline s)
    | inl (text, r) ↦ ground (
      arith,
      next_line-Kept deadline s,
      next_frame-Kept fuel (used + length text) deadline (next_line h deadline s).0,
    )
  ]

  next_protocol_frame-Kept :
      (deadline : ℕ) (s : HelperSession W L) → Kept s (next_protocol_frame h deadline s).0
  unfolding next_protocol_frame
  next_protocol_frame-Kept deadline s = next_frame-Kept (suc startup_limit) 0 deadline s

  send-Kept : (text : Text) (s : HelperSession W L) → Kept s (send h text s).0
  unfolding send poison
  send-Kept text s = ground arith

  send-poisons :
      (text : Text) (s : HelperSession W L) (e : Fault)
      → (send h text s).1 ≡ err e
      → (send h text s).0.is_poisoned ≡ true
  unfolding send poison
  send-poisons text s e failed = ground arith

  decode_reply-Kept :
      (scpi : Bool) (frame : KivFrame) (s : HelperSession W L)
      → Kept s (decode_reply h scpi frame s).0
  unfolding decode_reply
  decode_reply-Kept scpi frame s =
      poison_if-Kept scpi (lift (into_payload h.is_utf8 frame)) s
        (record { as_open = refl; still_poisoned = λ k. k })

  read_reply-Kept :
      (scpi : Bool) (limit : ℕ) (s : HelperSession W L) → Kept s (read_reply h scpi limit s).0
  unfolding read_reply
  read_reply-Kept scpi limit s =
      let frame = next_protocol_frame h (h.now s.process + limit) in
      Kept-bind (poison_if scpi frame) (decode_reply h scpi) s
        (poison_if-Kept scpi frame s (next_protocol_frame-Kept (h.now s.process + limit) s))
        (decode_reply-Kept scpi)

  exchange-Kept :
      (op : String) (a t : ℕ) (p : List ℕ) (limit : ℕ) (s : HelperSession W L)
      → Kept s (exchange h op a t p limit s).0
  unfolding exchange
  exchange-Kept op a t p limit s =
      Kept-bind (send h (request_line (text_of op) a t p)) (λ _. read_reply h (is_scpi op) limit) s
        (send-Kept (request_line (text_of op) a t p) s) (λ _. read_reply-Kept (is_scpi op) limit)

  read_reply-poisons :
      (limit : ℕ) (s : HelperSession W L) (e : Fault)
      → (read_reply h true limit s).1 ≡ err e
      → (read_reply h true limit s).0.is_poisoned ≡ true
  unfolding read_reply decode_reply
  read_reply-poisons limit s e failed =
      let frames = next_protocol_frame h (h.now s.process + limit) in
      elim (Result-cases (poison_if true frames s).1) [
        | inr (e', r) ↦ ground (arith, poison_if-poisons frames s e')
        | inl (frame, r) ↦ ground (
          arith,
          poison_if-poisons (lift (into_payload h.is_utf8 frame)) (poison_if true frames s).0 e,
        )
      ]

  -- An exchange of a transfer that fails poisons the session.
  exchange-poisons :
      (op : String) (a t : ℕ) (p : List ℕ) (limit : ℕ) (s : HelperSession W L) (e : Fault)
      → is_scpi op ≡ true
      → (exchange h op a t p limit s).1 ≡ err e
      → (exchange h op a t p limit s).0.is_poisoned ≡ true
  unfolding exchange
  exchange-poisons op a t p limit s e scpi failed =
      let text = request_line (text_of op) a t p in
      elim (Result-cases (send h text s).1) [
        | inr (e', r) ↦ ground (arith, send-poisons text s e')
        | inl (u, r) ↦ ground (arith, read_reply-poisons limit (send h text s).0 e)
      ]

  request-Kept :
      (op : String) (a t : ℕ) (p : List ℕ) (limit : ℕ) (s : HelperSession W L)
      → Kept s (request h op a t p limit s).0
  unfolding request
  request-Kept op a t p limit s = ground (arith, exchange-Kept op a t p limit s)

  -- A transfer over an open session fails before anything is sent, or by an oversized payload, or the
  -- session is poisoned.
  request-poisons :
      (op : String) (a t : ℕ) (p : List ℕ) (limit : ℕ) (s : HelperSession W L) (e : Fault)
      → is_scpi op ≡ true
      → s.is_closed ≡ false
      → length p ≤ max_payload
      → (request h op a t p limit s).1 ≡ err e
      → (request h op a t p limit s).0.is_poisoned ≡ true
  unfolding request
  request-poisons op a t p limit s e scpi open_yet few failed =
      ground (arith, exchange-poisons op a t p limit s e)

  request-poisoned :
      (op : String) (a t : ℕ) (p : List ℕ) (limit : ℕ) (s : HelperSession W L)
      → is_scpi op ≡ true
      → s.is_closed ≡ false
      → s.is_poisoned ≡ true
      → request h op a t p limit s ≡ (s, err poisoned)
  unfolding request
  request-poisoned op a t p limit s scpi open_yet bad = ground arith

pub record Call : Type 0 where
  pub operation : String
  pub address : ℕ
  pub timeout_ms : ℕ
  pub payload : List ℕ
  pub limit : ℕ

module _ {W L : Type 0} (h : Helper W) where
  abbrev pub perform : Call → M W L Text
  perform c = request h c.operation c.address c.timeout_ms c.payload c.limit

  -- The session after some requests.
  abbrev pub run : List Call → HelperSession W L → HelperSession W L
  run [] s = s
  run (c ∷ cs) s = run cs (perform c s).0

  run-Kept : (cs : List Call) (s : HelperSession W L) → Kept s (run cs s)
  run-Kept [] s = record { as_open = refl; still_poisoned = λ k. k }
  run-Kept (c ∷ cs) s =
      let k = request-Kept h c.operation c.address c.timeout_ms c.payload c.limit s in
      ground (arith, k, run-Kept cs (perform c s).0)

  -- After a transfer of up to 16 KiB has failed on an open session, whatever requests are made next,
  -- any later transfer is refused and leaves the session and its helper as they are.
  pub perform-poisoned :
      (failed : Call) (later : List Call) (next : Call) (s : HelperSession W L) (e : Fault)
      → is_scpi failed.operation ≡ true
      → s.is_closed ≡ false
      → length failed.payload ≤ max_payload
      → (perform failed s).1 ≡ err e
      → is_scpi next.operation ≡ true
      → perform next (run later (perform failed s).0)
        ≡ (run later (perform failed s).0, err poisoned)
  perform-poisoned c later next s e scpi open_yet few failed scpi' =
      let first = request-Kept h c.operation c.address c.timeout_ms c.payload c.limit s in
      let bad =
        request-poisons h c.operation c.address c.timeout_ms c.payload c.limit s e scpi open_yet few
          failed in
      let rest = run-Kept later (perform c s).0 in
      request-poisoned h next.operation next.address next.timeout_ms next.payload next.limit
        (run later (perform c s).0) scpi' (rest.as_open ∙ first.as_open ∙ open_yet)
        (rest.still_poisoned bad)
