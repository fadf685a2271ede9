-- ===== src/Desktop/Control/Exclusive.antt =====
-- The admission of output operations in crates/iv-desktop/src/engine.rs.
use kohdalab_iv.Common.{
  ℕ, ◌+◌, ◌≤◌, ◌≡◌, refl, ap, Bool, true, false, ◌||◌, ◌&&◌, not, Option, none, some, List, [], ◌∷◌,
  ◌++◌, arith, Bool-cases, inl, inr, if◌then◌else◌,
}
use kohdalab_iv.Desktop.Control.{
  SafetyBit, safety_stop, heartbeat, shut_down, safety_bit, command_of, is_finished,
  output_operation, is_pending, Item, Reader, idle, finished, latched, sending, reserving,
  submitting, Engine, waiting, receiving, left, executing, acknowledged, clearing, releasing,
  Control, new, latch_or_admit, admit, read_command, can_send, safety_unsent, reader_step, receive,
  acknowledge, engine_step, Event, input, input_ends, output_lost, reader_runs, engine_runs,
  when_idle, step, run_steps, is_finished,
}
use kohdalab_iv.Desktop.Control.Cases.{either_case, reject_case, run_steps_case}

abbrev pub as_number : Bool → ℕ
as_number false = 0
as_number true = 1

not_running : (running asked : Bool) → running || asked ≡ false → running ≡ false
not_running false asked q = refl
not_running true asked q = q

as_number_few : (test : Bool) → as_number test ≤ 1
as_number_few true = omega arith
as_number_few false = omega arith

no_owner : (P : Type 0) (b : SafetyBit) → output_operation (command_of {P = P} b) ≡ false
unfolding output_operation command_of
no_owner P safety_stop = refl
no_owner P _ = refl

module _ {J P : Type 0} where
  -- One for an output operation.
  abbrev pub owned : Item J P → ℕ
  owned item = as_number (output_operation item.1)

  abbrev pub in_queue : List (Item J P) → ℕ
  in_queue [] = 0
  in_queue (item ∷ queue) = owned item + in_queue queue

  abbrev pub in_reader : Reader J P → ℕ
  in_reader (submitting item) = owned item
  in_reader _ = 0

  abbrev pub in_engine : Engine J P → ℕ
  in_engine (executing item) = owned item
  in_engine (acknowledged item) = owned item
  in_engine (clearing item) = owned item
  in_engine (releasing item) = owned item
  in_engine _ = 0

  -- The output operations that are admitted and not finished.
  abbrev pub owners : Control J P → ℕ
  owners s = in_reader s.reader + in_queue s.queue + in_engine s.engine

  abbrev Free : Reader J P → Bool → Type 0
  Free (reserving item) running = running ≡ false
  Free _ running = Unit {0}

  abbrev Owned : Reader J P → List (Item J P) → Engine J P → Bool → Type 0
  Owned reader queue engine running =
      (in_reader reader + in_queue queue + in_engine engine ≤ as_number running)
      × Free reader running

  abbrev IsExclusive : Control J P → Type 0
  IsExclusive s = Owned s.reader s.queue s.engine s.running

  in_queue-append :
      (queue : List (Item J P)) (item : Item J P)
      → in_queue (queue ++ item ∷ []) ≡ in_queue queue + owned item
  in_queue-append [] item = omega arith
  in_queue-append (x ∷ queue) item = ground (arith, in_queue-append queue item)

  no_output : (item : Item J P) → output_operation item.1 ≡ false → owned item ≡ 0
  no_output item q = ap as_number q

  admit-IsExclusive :
      (item : Item J P) (s : Control J P)
      → IsExclusive s
      → Owned idle s.queue s.engine s.running
      → IsExclusive (admit item s)
  unfolding admit
  admit-IsExclusive item s h k =
      either_case IsExclusive (output_operation item.1) _ _
        (λ owns.
          either_case IsExclusive (s.running || is_pending s.pending_safety) _ _
            (λ _. reject_case IsExclusive item s h h h (k.0, tt))
            (λ calm. (k.0, not_running s.running (is_pending s.pending_safety) calm)))
        (λ plain. (ground (arith, k.0, no_output item plain), tt))

  latch_or_admit-IsExclusive :
      (bit : Option SafetyBit) (item : Item J P) (s : Control J P)
      → IsExclusive s
      → Owned idle s.queue s.engine s.running
      → IsExclusive (latch_or_admit bit item s)
  unfolding latch_or_admit
  latch_or_admit-IsExclusive none item s h k = admit-IsExclusive item s h k
  latch_or_admit-IsExclusive (some b) item s h k = k

  read_command-IsExclusive :
      (item : Item J P) (s : Control J P)
      → IsExclusive s
      → Owned idle s.queue s.engine s.running
      → IsExclusive (read_command item s)
  unfolding read_command
  read_command-IsExclusive (job, heartbeat) s h k = h
  read_command-IsExclusive (job, shut_down) s h k = k
  read_command-IsExclusive (job, command) s h k =
      latch_or_admit-IsExclusive (safety_bit command) (job, command) s h k

  safety_unsent-IsExclusive :
      (b : SafetyBit) (s : Control J P)
      → Owned idle s.queue s.engine s.running
      → IsExclusive (safety_unsent b s)
  unfolding safety_unsent
  safety_unsent-IsExclusive safety_stop s h = h
  safety_unsent-IsExclusive _ s h = h

  sent :
      (item : Item J P) (queue : List (Item J P)) (engine : Engine J P) (running : Bool)
      → owned item + in_queue queue + in_engine engine ≤ as_number running
      → Owned idle (queue ++ item ∷ []) engine running
  sent item queue engine running h = (ground (arith, h, in_queue-append queue item), tt)

  unsent :
      (item : Item J P) (queue : List (Item J P)) (engine : Engine J P) (running : Bool)
      → owned item + in_queue queue + in_engine engine ≤ as_number running
      → Owned finished queue engine (not (output_operation item.1) && running)
  unsent item queue engine running h = elim (Bool-cases (output_operation item.1)) [
    | inl owns ↦ rw owns (ground (arith, h, as_number_few running, ap as_number owns), tt)
    | inr plain ↦ rw plain (ground (arith, h), tt)
  ]

  reader_step-IsExclusive :
      (reader : Reader J P) (s : Control J P)
      → Owned reader s.queue s.engine s.running
      → IsExclusive s
      → IsExclusive (reader_step reader s)
  unfolding reader_step
  reader_step-IsExclusive idle s h k = k
  reader_step-IsExclusive finished s h k = k
  reader_step-IsExclusive (latched b) s h k = h
  reader_step-IsExclusive (sending b) s h k =
      either_case IsExclusive (can_send s) _ _
        (λ _.
          sent (none, command_of b) s.queue s.engine s.running
            (ground (arith, h.0, no_output (none, command_of b) (no_owner P b))))
        (λ _. safety_unsent-IsExclusive b _ h)
  reader_step-IsExclusive (reserving item) s h k =
      (ground (arith, h, ap as_number h.1, as_number_few (output_operation item.1)), tt)
  reader_step-IsExclusive (submitting item) s h k =
      either_case IsExclusive (can_send s) _ _ (λ _. sent item s.queue s.engine s.running h.0)
        (λ _. unsent item s.queue s.engine s.running h.0)

  output_operation-Free :
      (reader : Reader J P) (running test : Bool)
      → Free reader running
      → Free reader (not test && running)
  output_operation-Free (reserving item) running true h = refl
  output_operation-Free (reserving item) running false h = h
  output_operation-Free _ running test h = tt

  released :
      (reader : Reader J P) (queue : List (Item J P)) (item : Item J P) (running : Bool)
      → Owned reader queue (releasing item) running
      → Owned reader queue waiting (not (output_operation item.1) && running)
  released reader queue item running h = elim (Bool-cases (output_operation item.1)) [
    | inl owns ↦ rw owns (
      ground (arith, h.0, as_number_few running, ap as_number owns),
      output_operation-Free reader running true h.1,
    )
    | inr plain ↦ rw plain (ground (arith, h.0), h.1)
  ]

  idle_engine :
      (test : Bool) (engine engine' : Engine J P)
      → in_engine engine ≡ 0
      → in_engine engine' ≡ 0
      → in_engine (if test then engine else engine') ≡ 0
  idle_engine true engine engine' h k = h
  idle_engine false engine engine' h k = k

  receive-IsExclusive :
      (queue : List (Item J P)) (s : Control J P)
      → Owned s.reader queue receiving s.running
      → IsExclusive s
      → IsExclusive (receive queue s)
  unfolding receive
  receive-IsExclusive [] s h k =
      (ground (arith, h.0, idle_engine (is_finished s.reader) left waiting refl refl), h.1)
  receive-IsExclusive (item ∷ queue) s h k = (ground (arith, h.0), h.1)

  acknowledge-IsExclusive :
      (bit : Option SafetyBit) (item : Item J P) (s : Control J P)
      → Owned s.reader s.queue (executing item) s.running
      → IsExclusive (acknowledge bit item s)
  unfolding acknowledge
  acknowledge-IsExclusive none item s h = h
  acknowledge-IsExclusive (some b) item s h = h

  busy_engine :
      (test : Bool) (item : Item J P)
      → in_engine (if test then releasing item else clearing item) ≡ owned item
  busy_engine true item = refl
  busy_engine false item = refl

  engine_step-IsExclusive :
      (engine : Engine J P) (s : Control J P)
      → Owned s.reader s.queue engine s.running
      → IsExclusive s
      → IsExclusive (engine_step engine s)
  unfolding engine_step
  engine_step-IsExclusive waiting s h k =
      (ground (arith, h.0, idle_engine s.closed left receiving refl refl), h.1)
  engine_step-IsExclusive receiving s h k = receive-IsExclusive s.queue s h k
  engine_step-IsExclusive left s h k = k
  engine_step-IsExclusive (executing item) s h k =
      acknowledge-IsExclusive (safety_bit item.1) item s h
  engine_step-IsExclusive (acknowledged item) s h k =
      (ground (arith, h.0, busy_engine (is_pending s.pending_safety) item), h.1)
  engine_step-IsExclusive (clearing item) s h k = h
  engine_step-IsExclusive (releasing item) s h k = released s.reader s.queue item s.running h

  when_idle-IsExclusive :
      (reader : Reader J P) (next s : Control J P)
      → Owned reader s.queue s.engine s.running
      → IsExclusive s
      → (Owned idle s.queue s.engine s.running → IsExclusive next)
      → IsExclusive (when_idle reader next s)
  unfolding when_idle
  when_idle-IsExclusive idle next s h k f = f h
  when_idle-IsExclusive _ next s h k f = k

  step-IsExclusive :
      (event : Event J P) (s : Control J P) → IsExclusive s → IsExclusive (step event s)
  unfolding step
  step-IsExclusive (input item) s h =
      when_idle-IsExclusive s.reader _ s h h (read_command-IsExclusive item s h)
  step-IsExclusive input_ends s h = when_idle-IsExclusive s.reader _ s h h (λ k. k)
  step-IsExclusive output_lost s h = h
  step-IsExclusive reader_runs s h = reader_step-IsExclusive s.reader s h h
  step-IsExclusive engine_runs s h = engine_step-IsExclusive s.engine s h h

  -- Whatever the order in which the threads take their steps, at most one output operation is
  -- queued, about to be queued or in the engine; and if there is one, `running` is set.
  pub run_steps-owners :
      (events : List (Event J P))
      → owners (run_steps events new) ≤ as_number (run_steps events new).running
  run_steps-owners events =
      (run_steps_case IsExclusive step-IsExclusive events new (omega arith, tt)).0
