-- ===== src/Desktop/Control/Cancelled.antt =====
-- The cancellation by a safety request of crates/iv-desktop/src/engine.rs, where no request comes
-- before the one of its kind before it was acknowledged.
use kohdalab_iv.Common.{
  ℕ, ◌+◌, ◌≤◌, ◌≡◌, refl, ap, Bool, true, false, ◌||◌, ◌&&◌, not, Option, none, some, List, [], ◌∷◌,
  ◌++◌, arith, Bool-cases, inl, inr, if◌then◌else◌,
}
use kohdalab_iv.Desktop.Control.{
  SafetyBit, safety_stop, safety_gate_off, safety_source_off, safety_source2_off, safety_all_off,
  heartbeat, shut_down, same_bit, latch, unlatch, safety_bit, command_of, is_finished,
  output_operation, is_pending, Mask, Item, Reader, idle, finished, latched, sending, reserving,
  submitting, Engine, waiting, receiving, left, executing, acknowledged, clearing, releasing,
  Control, new, cancelled, latch_or_admit, admit, read_command, can_send, safety_unsent,
  reader_step, receive, acknowledge, engine_step, Event, input, input_ends, output_lost,
  reader_runs, engine_runs, when_idle, step, run_steps,
}
use kohdalab_iv.Desktop.Control.Exclusive.{as_number}
use kohdalab_iv.Desktop.Control.Latched
use kohdalab_iv.Desktop.Control.Latched.{asks, safety_bit-command_of}
use kohdalab_iv.Desktop.Control.Cases.{either_case, reject_case}

-- A mask with a bit that is set is not zero.
pending_bit : (b : SafetyBit) (mask : Mask) → mask b ≡ true → is_pending mask ≡ true
unfolding is_pending
pending_bit safety_stop mask h = ground (arith, h)
pending_bit safety_gate_off mask h = ground (arith, h)
pending_bit safety_source_off mask h = ground (arith, h)
pending_bit safety_source2_off mask h = ground (arith, h)
pending_bit safety_all_off mask h = ground (arith, h)

one_more :
    (same asked : Bool) (q e : ℕ)
    → not (same && asked) ≡ true
    → 0 + q + e ≤ as_number asked
    → as_number same + q + e ≤ as_number (same || asked)
one_more true true q e quiet h = absurd (ground (arith, quiet))
one_more true false q e quiet h = omega (arith, h)
one_more false asked q e quiet h = h

taken_back :
    (r q : ℕ) (same asked : Bool)
    → r + q + as_number same ≤ as_number asked
    → r + q + 0 ≤ as_number (not same && asked)
taken_back r q true true h = omega (arith, h)
taken_back r q true false h = absurd (omega (arith, h))
taken_back r q false asked h = h

both : (a c : Bool) → a && c ≡ true → (a ≡ true) × (c ≡ true)
both true c h = (refl, h)
both false c h = absurd (ground (arith, h))

later : (a c : Bool) → a || c ≡ true → a ≡ false → c ≡ true
later a c h k = ground (arith, h, k)

is_set : (asked : Bool) (r q e : ℕ) → r + q + e ≤ as_number asked → 1 ≤ q → asked ≡ true
is_set true r q e h k = refl
is_set false r q e h k = absurd (omega (arith, h, k))

module _ {J P : Type 0} (b : SafetyBit) where
  abbrev pub is_quiet : Event J P → Control J P → Bool
  is_quiet (input item) s = not (asks b (safety_bit item.1) && s.pending_safety b)
  is_quiet _ s = true

  -- Whether every request with this bit finds the bit clear.
  unfoldable pub is_patient : List (Event J P) → Control J P → Bool
  is_patient [] s = true
  is_patient (event ∷ events) s = is_quiet event s && is_patient events (step event s)

  abbrev counted : Item J P → ℕ
  counted item = as_number (asks b (safety_bit item.1))

  -- The commands with this bit that are queued, about to be queued or in their handler.
  abbrev in_queue : List (Item J P) → ℕ
  in_queue [] = 0
  in_queue (item ∷ queue) = counted item + in_queue queue

  abbrev in_reader : Reader J P → ℕ
  in_reader (latched c) = as_number (same_bit b c)
  in_reader (sending c) = as_number (same_bit b c)
  in_reader (reserving item) = counted item
  in_reader (submitting item) = counted item
  in_reader _ = 0

  abbrev in_engine : Engine J P → ℕ
  in_engine (executing item) = counted item
  in_engine _ = 0

  abbrev Counts : Bool → Reader J P → List (Item J P) → Engine J P → Type 0
  Counts asked reader queue engine =
      in_reader reader + in_queue queue + in_engine engine ≤ as_number asked

  abbrev IsAlone : Control J P → Type 0
  IsAlone s = Counts (s.pending_safety b) s.reader s.queue s.engine

  in_queue-append :
      (queue : List (Item J P)) (item : Item J P)
      → in_queue (queue ++ item ∷ []) ≡ in_queue queue + counted item
  in_queue-append [] item = omega arith
  in_queue-append (x ∷ queue) item = ground (arith, in_queue-append queue item)

  latch_new :
      (c : SafetyBit) (asked : Bool) (queue : List (Item J P)) (engine : Engine J P)
      → not (same_bit b c && asked) ≡ true
      → Counts asked idle queue engine
      → Counts (same_bit b c || asked) (latched c) queue engine
  latch_new c asked queue engine quiet h =
      one_more (same_bit b c) asked (in_queue queue) (in_engine engine) quiet h

  none_counted : (item : Item J P) → safety_bit item.1 ≡ none → counted item ≡ 0
  none_counted item q = ap (λ bit. as_number (asks b bit)) q

  admit-IsAlone :
      (item : Item J P) (s : Control J P)
      → safety_bit item.1 ≡ none
      → IsAlone s
      → IsAlone (record s { reader = idle })
      → IsAlone (admit item s)
  unfolding admit
  admit-IsAlone item s plain h k =
      let none_new = none_counted item plain in
      either_case IsAlone (output_operation item.1) _ _
        (λ _.
          either_case IsAlone (s.running || is_pending s.pending_safety) _ _
            (λ _. reject_case IsAlone item s h h h k) (λ _. ground (arith, k, none_new)))
        (λ _. ground (arith, k, none_new))

  latch_or_admit-IsAlone :
      (bit : Option SafetyBit) (item : Item J P) (s : Control J P)
      → safety_bit item.1 ≡ bit
      → not (asks b bit && s.pending_safety b) ≡ true
      → IsAlone s
      → IsAlone (record s { reader = idle })
      → IsAlone (latch_or_admit bit item s)
  unfolding latch_or_admit latch
  latch_or_admit-IsAlone none item s q quiet h k = admit-IsAlone item s q h k
  latch_or_admit-IsAlone (some c) item s q quiet h k =
      latch_new c (s.pending_safety b) s.queue s.engine quiet k

  read_command-IsAlone :
      (item : Item J P) (s : Control J P)
      → not (asks b (safety_bit item.1) && s.pending_safety b) ≡ true
      → IsAlone s
      → IsAlone (record s { reader = idle })
      → IsAlone (read_command item s)
  unfolding read_command
  read_command-IsAlone (job, heartbeat) s quiet h k = h
  read_command-IsAlone (job, shut_down) s quiet h k = k
  read_command-IsAlone (job, command) s quiet h k =
      latch_or_admit-IsAlone (safety_bit command) (job, command) s refl quiet h k

  safety_unsent-IsAlone :
      (c : SafetyBit) (s : Control J P)
      → IsAlone (record s { reader = idle })
      → IsAlone (safety_unsent c s)
  unfolding safety_unsent
  safety_unsent-IsAlone safety_stop s h = h
  safety_unsent-IsAlone _ s h = h

  sent :
      (asked : Bool) (item : Item J P) (queue : List (Item J P)) (engine : Engine J P)
      → counted item + in_queue queue + in_engine engine ≤ as_number asked
      → Counts asked idle (queue ++ item ∷ []) engine
  sent asked item queue engine h = ground (arith, h, in_queue-append queue item)

  reader_step-IsAlone :
      (reader : Reader J P) (s : Control J P)
      → Counts (s.pending_safety b) reader s.queue s.engine
      → IsAlone s
      → IsAlone (reader_step reader s)
  unfolding reader_step
  reader_step-IsAlone idle s h k = k
  reader_step-IsAlone finished s h k = k
  reader_step-IsAlone (latched c) s h k = h
  reader_step-IsAlone (sending c) s h k =
      either_case IsAlone (can_send s) _ _
        (λ _.
          sent (s.pending_safety b) (none, command_of c) s.queue s.engine
            (ground (arith, h, ap (λ bit. as_number (asks b bit)) (safety_bit-command_of P c))))
        (λ _. safety_unsent-IsAlone c s (ground (arith, h)))
  reader_step-IsAlone (reserving item) s h k = h
  reader_step-IsAlone (submitting item) s h k =
      either_case IsAlone (can_send s) _ _ (λ _. sent (s.pending_safety b) item s.queue s.engine h)
        (λ _. ground (arith, h))

  acknowledge-IsAlone :
      (bit : Option SafetyBit) (item : Item J P) (s : Control J P)
      → in_reader s.reader + in_queue s.queue + as_number (asks b bit)
        ≤ as_number (s.pending_safety b)
      → IsAlone (acknowledge bit item s)
  unfolding acknowledge unlatch
  acknowledge-IsAlone none item s h = h
  acknowledge-IsAlone (some c) item s h =
      taken_back (in_reader s.reader) (in_queue s.queue) (same_bit b c) (s.pending_safety b) h

  idle_engine :
      (test : Bool) (engine engine' : Engine J P)
      → in_engine engine ≡ 0
      → in_engine engine' ≡ 0
      → in_engine (if test then engine else engine') ≡ 0
  idle_engine true engine engine' h k = h
  idle_engine false engine engine' h k = k

  receive-IsAlone :
      (queue : List (Item J P)) (s : Control J P)
      → Counts (s.pending_safety b) s.reader queue receiving
      → Counts (s.pending_safety b) s.reader s.queue receiving
      → IsAlone (receive queue s)
  unfolding receive
  receive-IsAlone [] s h k =
      ground (arith, k, idle_engine (is_finished s.reader) left waiting refl refl)
  receive-IsAlone (item ∷ queue) s h k = ground (arith, h)

  engine_step-IsAlone :
      (engine : Engine J P) (s : Control J P)
      → Counts (s.pending_safety b) s.reader s.queue engine
      → IsAlone s
      → IsAlone (engine_step engine s)
  unfolding engine_step
  engine_step-IsAlone waiting s h k =
      ground (arith, h, idle_engine s.closed left receiving refl refl)
  engine_step-IsAlone receiving s h k = receive-IsAlone s.queue s h h
  engine_step-IsAlone left s h k = k
  engine_step-IsAlone (executing item) s h k = acknowledge-IsAlone (safety_bit item.1) item s h
  engine_step-IsAlone (acknowledged item) s h k = ground (
    arith,
    h,
    idle_engine (is_pending s.pending_safety) (releasing item) (clearing item) refl refl,
  )
  engine_step-IsAlone (clearing item) s h k = h
  engine_step-IsAlone (releasing item) s h k = h

  when_idle-IsAlone :
      (reader : Reader J P) (next s : Control J P)
      → Counts (s.pending_safety b) reader s.queue s.engine
      → IsAlone s
      → (IsAlone (record s { reader = idle }) → IsAlone next)
      → IsAlone (when_idle reader next s)
  unfolding when_idle
  when_idle-IsAlone idle next s h k f = f h
  when_idle-IsAlone _ next s h k f = k

  step-IsAlone :
      (event : Event J P) (s : Control J P)
      → is_quiet event s ≡ true
      → IsAlone s
      → IsAlone (step event s)
  unfolding step
  step-IsAlone (input item) s quiet h =
      when_idle-IsAlone s.reader _ s h h (read_command-IsAlone item s quiet h)
  step-IsAlone input_ends s quiet h = when_idle-IsAlone s.reader _ s h h (λ k. k)
  step-IsAlone output_lost s quiet h = h
  step-IsAlone reader_runs s quiet h = reader_step-IsAlone s.reader s h h
  step-IsAlone engine_runs s quiet h = engine_step-IsAlone s.engine s h h

  run_steps-IsAlone :
      (events : List (Event J P)) (s : Control J P)
      → is_patient events s ≡ true
      → IsAlone s
      → IsAlone (run_steps events s)
  unfolding run_steps is_patient
  run_steps-IsAlone [] s patient h = h
  run_steps-IsAlone (event ∷ events) s patient h =
      let (quiet, rest) = both (is_quiet event s) (is_patient events (step event s)) patient in
      run_steps-IsAlone events (step event s) rest (step-IsAlone event s quiet h)

  waits : (queue : List (Item J P)) → Latched.in_queue b queue ≡ true → 1 ≤ in_queue queue
  waits [] h = absurd (ground (arith, h))
  waits (item ∷ queue) h = elim (Bool-cases (asks b (safety_bit item.1))) [
    | inl asked ↦ ground (arith, ap as_number asked)
    | inr other ↦ ground (arith, waits queue (later _ _ h other))
  ]

  -- If every safety request of a kind arrives when the one before it was acknowledged, then while
  -- such a request is in the queue, whatever the engine does is cancelled.
  pub run_steps-cancelled :
      (events : List (Event J P))
      → is_patient events new ≡ true
      → Latched.in_queue b (run_steps events new).queue ≡ true
      → (late : Bool) → cancelled late (run_steps events new) ≡ true
  unfolding cancelled
  run_steps-cancelled events patient queued late =
      let z : Control J P = run_steps events new in
      let alone : IsAlone z = run_steps-IsAlone events new patient (omega arith) in
      let set : z.pending_safety b ≡ true = is_set _ _ _ _ alone (waits z.queue queued) in
      ground (arith, pending_bit b z.pending_safety set)
