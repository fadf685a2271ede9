-- ===== src/Desktop/Control/Latched.antt =====
-- The safety requests of crates/iv-desktop/src/engine.rs.
use kohdalab_iv.Common.{
  ◌≡◌, refl, Bool, true, false, ◌||◌, ◌&&◌, not, Option, none, some, List, [], ◌∷◌, ◌++◌, arith,
  if◌then◌else◌,
}
use kohdalab_iv.Desktop.Control.{
  SafetyBit, safety_stop, safety_gate_off, safety_source_off, safety_source2_off, safety_all_off,
  heartbeat, shut_down, same_bit, latch, unlatch, safety_bit, command_of, is_finished,
  output_operation, is_pending, Item, Reader, idle, finished, latched, sending, reserving,
  submitting, Engine, waiting, receiving, left, executing, acknowledged, clearing, releasing,
  Control, new, latch_or_admit, admit, read_command, can_send, safety_unsent, reader_step, receive,
  acknowledge, engine_step, Event, input, input_ends, output_lost, reader_runs, engine_runs,
  when_idle, step, run_steps, close_input,
}
use kohdalab_iv.Desktop.Control.Cases.{either_case, reject_case, run_steps_case}

abbrev pub asks : SafetyBit → Option SafetyBit → Bool
asks b none = false
asks b (some c) = same_bit b c

when_closed : (asked r q e : Bool) → (not asked || (r || (q || (e || true)))) ≡ true
when_closed asked r q e = ground arith

-- The disjunctions below, whose parts are: asked, by the reader, by the queue, by the engine, closed.
weaken :
    (asked r q e c : Bool)
    → (not asked || (r || (q || (false || c)))) ≡ true
    → (not asked || (r || (q || (e || c)))) ≡ true
weaken asked r q e c h = ground (arith, h)

move_on :
    (asked r x q c : Bool)
    → (not asked || (r || ((x || q) || (false || c)))) ≡ true
    → (not asked || (r || (q || (x || c)))) ≡ true
move_on asked r x q c h = ground (arith, h)

take_back :
    (asked r q x c : Bool)
    → (not asked || (r || (q || (x || c)))) ≡ true
    → (not (not x && asked) || (r || (q || (false || c)))) ≡ true
take_back asked r q x c h = ground (arith, h)

append_last :
    (asked x q e c : Bool)
    → (not asked || (x || (q || (e || c)))) ≡ true
    → (not asked || (false || ((q || x) || (e || c)))) ≡ true
append_last asked x q e c h = ground (arith, h)

queued :
    (asked x q e c : Bool)
    → (not asked || (false || (q || (e || c)))) ≡ true
    → (not asked || (x || (q || (e || c)))) ≡ true
queued asked x q e c h = ground (arith, h)

implied : (asked acts : Bool) → (not asked || acts) ≡ true → asked ≡ true → acts ≡ true
implied asked acts h k = ground (arith, h, k)

latch_new :
    (asked x q e c : Bool)
    → (not asked || (false || (q || (e || c)))) ≡ true
    → (not (x || asked) || (x || (q || (e || c)))) ≡ true
latch_new asked x q e c h = ground (arith, h)

pub safety_bit-command_of :
    (P : Type 0) (b : SafetyBit) → safety_bit (command_of {P = P} b) ≡ some b
unfolding safety_bit command_of
safety_bit-command_of P safety_stop = refl
safety_bit-command_of P safety_gate_off = refl
safety_bit-command_of P safety_source_off = refl
safety_bit-command_of P safety_source2_off = refl
safety_bit-command_of P safety_all_off = refl

module _ {J P : Type 0} (b : SafetyBit) where
  -- Whether the command of the request is still to come.
  abbrev pub in_queue : List (Item J P) → Bool
  in_queue [] = false
  in_queue (item ∷ queue) = asks b (safety_bit item.1) || in_queue queue

  abbrev pub in_reader : Reader J P → Bool
  in_reader (latched c) = same_bit b c
  in_reader (sending c) = same_bit b c
  in_reader _ = false

  abbrev pub in_engine : Engine J P → Bool
  in_engine (executing item) = asks b (safety_bit item.1)
  in_engine left = true
  in_engine _ = false

  abbrev pub will_act : Reader J P → List (Item J P) → Engine J P → Bool → Bool
  will_act reader queue engine closed =
      in_reader reader || (in_queue queue || (in_engine engine || closed))

  abbrev Acts : Bool → Reader J P → List (Item J P) → Engine J P → Bool → Type 0
  Acts asked reader queue engine closed = (not asked || will_act reader queue engine closed) ≡ true

  abbrev IsKept : Control J P → Type 0
  IsKept s = Acts (s.pending_safety b) s.reader s.queue s.engine s.closed

  in_queue-append :
      (queue : List (Item J P)) (item : Item J P)
      → in_queue (queue ++ item ∷ []) ≡ (in_queue queue || asks b (safety_bit item.1))
  in_queue-append [] item = ground arith
  in_queue-append (x ∷ queue) item = ground (arith, in_queue-append queue item)

  closed-IsKept : (s : Control J P) → IsKept (close_input s)
  closed-IsKept s = when_closed (s.pending_safety b) false (in_queue s.queue) (in_engine s.engine)

  admit-IsKept :
      (item : Item J P) (s : Control J P)
      → IsKept s
      → IsKept (record s { reader = idle })
      → IsKept (admit item s)
  unfolding admit
  admit-IsKept item s h k =
      either_case IsKept (output_operation item.1) _ _
        (λ _.
          either_case IsKept (s.running || is_pending s.pending_safety) _ _
            (λ _. reject_case IsKept item s h h h (closed-IsKept s)) (λ _. k))
        (λ _. k)

  latch_or_admit-IsKept :
      (bit : Option SafetyBit) (item : Item J P) (s : Control J P)
      → IsKept s
      → IsKept (record s { reader = idle })
      → IsKept (latch_or_admit bit item s)
  unfolding latch_or_admit latch
  latch_or_admit-IsKept none item s h k = admit-IsKept item s h k
  latch_or_admit-IsKept (some c) item s h k =
      latch_new (s.pending_safety b) (same_bit b c) (in_queue s.queue) (in_engine s.engine) s.closed
        k

  read_command-IsKept :
      (item : Item J P) (s : Control J P)
      → IsKept s
      → IsKept (record s { reader = idle })
      → IsKept (read_command item s)
  unfolding read_command
  read_command-IsKept (job, heartbeat) s h k = h
  read_command-IsKept (job, shut_down) s h k = closed-IsKept s
  read_command-IsKept (job, command) s h k =
      latch_or_admit-IsKept (safety_bit command) (job, command) s h k

  safety_unsent-IsKept : (c : SafetyBit) (s : Control J P) → IsKept (safety_unsent c s)
  unfolding safety_unsent
  safety_unsent-IsKept safety_stop s = closed-IsKept s
  safety_unsent-IsKept _ s = closed-IsKept s

  sent :
      (asked : Bool) (item : Item J P) (queue : List (Item J P)) (engine : Engine J P)
      (closed : Bool)
      → (not asked
          || (asks b (safety_bit item.1) || (in_queue queue || (in_engine engine || closed))))
        ≡ true
      → Acts asked idle (queue ++ item ∷ []) engine closed
  sent asked item queue engine closed h =
      rw (in_queue-append queue item) (
        append_last asked (asks b (safety_bit item.1)) (in_queue queue) (in_engine engine) closed h)

  reader_step-IsKept :
      (reader : Reader J P) (s : Control J P)
      → Acts (s.pending_safety b) reader s.queue s.engine s.closed
      → IsKept s
      → IsKept (reader_step reader s)
  unfolding reader_step
  reader_step-IsKept idle s h k = k
  reader_step-IsKept finished s h k = k
  reader_step-IsKept (latched c) s h k = h
  reader_step-IsKept (sending c) s h k =
      either_case IsKept (can_send s) _ _
        (λ _.
          sent (s.pending_safety b) (none, command_of c) s.queue s.engine s.closed
            (rw (safety_bit-command_of P c) h))
        (λ _. safety_unsent-IsKept c s)
  reader_step-IsKept (reserving item) s h k = h
  reader_step-IsKept (submitting item) s h k =
      either_case IsKept (can_send s) _ _
        (λ _. sent (s.pending_safety b) item s.queue s.engine s.closed (
          queued (s.pending_safety b) (asks b (safety_bit item.1)) (in_queue s.queue)
            (in_engine s.engine) s.closed h))
        (λ _. closed-IsKept s)

  receive-IsKept :
      (queue : List (Item J P)) (s : Control J P)
      → Acts (s.pending_safety b) s.reader queue receiving s.closed
      → Acts (s.pending_safety b) s.reader s.queue receiving s.closed
      → IsKept (receive queue s)
  unfolding receive
  receive-IsKept [] s h k =
      weaken (s.pending_safety b) (in_reader s.reader) (in_queue s.queue)
        (in_engine (if is_finished s.reader then left else waiting)) s.closed k
  receive-IsKept (item ∷ queue) s h k =
      move_on (s.pending_safety b) (in_reader s.reader) (asks b (safety_bit item.1))
        (in_queue queue) s.closed h

  acknowledge-IsKept :
      (bit : Option SafetyBit) (item : Item J P) (s : Control J P)
      → (not (s.pending_safety b)
          || (in_reader s.reader || (in_queue s.queue || (asks b bit || s.closed))))
        ≡ true
      → IsKept (acknowledge bit item s)
  unfolding acknowledge unlatch
  acknowledge-IsKept none item s h = h
  acknowledge-IsKept (some c) item s h =
      take_back (s.pending_safety b) (in_reader s.reader) (in_queue s.queue) (same_bit b c) s.closed
        h

  engine_step-IsKept :
      (engine : Engine J P) (s : Control J P)
      → Acts (s.pending_safety b) s.reader s.queue engine s.closed
      → IsKept s
      → IsKept (engine_step engine s)
  unfolding engine_step
  engine_step-IsKept waiting s h k =
      weaken (s.pending_safety b) (in_reader s.reader) (in_queue s.queue) _ s.closed h
  engine_step-IsKept receiving s h k = receive-IsKept s.queue s h h
  engine_step-IsKept left s h k = k
  engine_step-IsKept (executing item) s h k = acknowledge-IsKept (safety_bit item.1) item s h
  engine_step-IsKept (acknowledged item) s h k =
      weaken (s.pending_safety b) (in_reader s.reader) (in_queue s.queue) _ s.closed h
  engine_step-IsKept (clearing item) s h k = h
  engine_step-IsKept (releasing item) s h k = h

  when_idle-IsKept :
      (reader : Reader J P) (next s : Control J P)
      → Acts (s.pending_safety b) reader s.queue s.engine s.closed
      → IsKept s
      → (IsKept (record s { reader = idle }) → IsKept next)
      → IsKept (when_idle reader next s)
  unfolding when_idle
  when_idle-IsKept idle next s h k f = f h
  when_idle-IsKept _ next s h k f = k

  step-IsKept : (event : Event J P) (s : Control J P) → IsKept s → IsKept (step event s)
  unfolding step
  step-IsKept (input item) s h = when_idle-IsKept s.reader _ s h h (read_command-IsKept item s h)
  step-IsKept input_ends s h = when_idle-IsKept s.reader _ s h h (λ _. closed-IsKept s)
  step-IsKept output_lost s h =
      when_closed (s.pending_safety b) (in_reader s.reader) (in_queue s.queue) (in_engine s.engine)
  step-IsKept reader_runs s h = reader_step-IsKept s.reader s h h
  step-IsKept engine_runs s h = engine_step-IsKept s.engine s h h

  -- Whatever the order in which the threads take their steps: while the bit of a safety request is
  -- set, a command with this bit is about to be sent, in the queue or in its handler, or the engine
  -- ends: the input is closed, or the engine has left its loop.
  pub run_steps-will_act :
      (events : List (Event J P))
      → (run_steps events new).pending_safety b ≡ true
      → will_act
          (run_steps events new).reader
          (run_steps events new).queue
          (run_steps events new).engine
          (run_steps events new).closed
        ≡ true
  run_steps-will_act events asked =
      implied _ _ (run_steps_case IsKept step-IsKept events new refl) asked
