-- ===== src/Desktop/Control.antt =====
-- How the measurement engine admits commands, `Control` and `serve` of
-- crates/iv-desktop/src/engine.rs. The thread that reads the commands and the engine share the flags
-- of `Control` and a queue. A step of either is one access to what they share, or a few in a row:
-- the test before an admission, whose flags nobody but the reader sets; the two stores after a latch;
-- a send that fails with the stores after it; those that clear `stop` and `off`; and those at the
-- end of a round. What a command does to the outputs is not part of this state, nor is the
-- heartbeat.
pub mod Cases
pub mod Exclusive
pub mod Latched
pub mod Cancelled
use kohdalab_iv.Common.{
  ℕ, zero, suc, Bool, true, false, not, ◌&&◌, ◌||◌, Option, none, some, List, [], ◌∷◌, ◌++◌,
  if◌then◌else◌,
}

pub data SafetyBit : Type 0 where
  safety_stop safety_gate_off safety_source_off safety_source2_off safety_all_off : SafetyBit

-- The commands, with `P` for the fields of those that act later; `other` is any of the rest.
pub data Command (P : Type 0) : Type 0 where
  heartbeat stop_run gate_output_off output_off shut_down : Command P
  source_dc_off : Bool → Command P
  run set_gate_voltage set_source_dc other : P → Command P

unfoldable pub same_bit : SafetyBit → SafetyBit → Bool
same_bit safety_stop safety_stop = true
same_bit safety_gate_off safety_gate_off = true
same_bit safety_source_off safety_source_off = true
same_bit safety_source2_off safety_source2_off = true
same_bit safety_all_off safety_all_off = true
same_bit _ _ = false

-- `pending_safety`, a byte with one bit for each request.
abbrev pub Mask : Type 0
Mask = SafetyBit → Bool

unfoldable pub latch : SafetyBit → Mask → Mask
latch b mask = λ c. same_bit c b || mask c

unfoldable pub unlatch : SafetyBit → Mask → Mask
unlatch b mask = λ c. not (same_bit c b) && mask c

unfoldable pub is_pending : Mask → Bool
is_pending mask =
    mask safety_stop
    || (mask safety_gate_off
        || (mask safety_source_off || (mask safety_source2_off || mask safety_all_off)))

-- The requests that also set `off`.
abbrev pub turns_off : SafetyBit → Bool
turns_off safety_stop = false
turns_off _ = true

module _ {P : Type 0} where
  unfoldable pub safety_bit : Command P → Option SafetyBit
  safety_bit stop_run = some safety_stop
  safety_bit gate_output_off = some safety_gate_off
  safety_bit (source_dc_off false) = some safety_source_off
  safety_bit (source_dc_off true) = some safety_source2_off
  safety_bit output_off = some safety_all_off
  safety_bit _ = none

  unfoldable pub command_of : SafetyBit → Command P
  command_of safety_stop = stop_run
  command_of safety_gate_off = gate_output_off
  command_of safety_source_off = source_dc_off false
  command_of safety_source2_off = source_dc_off true
  command_of safety_all_off = output_off

  unfoldable pub output_operation : Command P → Bool
  output_operation (run _) = true
  output_operation (set_gate_voltage _) = true
  output_operation (set_source_dc _) = true
  output_operation _ = false

module _ {P : Type 0} where
  abbrev pub is_run : Command P → Bool
  is_run (run _) = true
  is_run _ = false

  abbrev pub is_set_source_dc : Command P → Bool
  is_set_source_dc (set_source_dc _) = true
  is_set_source_dc _ = false

-- A command with the job of the interface that it is part of.
abbrev pub Item : Type 0 → Type 0 → Type 0
Item J P = Option J × Command P

-- Where the reader is: before the next command, after a latch, before the command of a latch is
-- sent, before `running` is set for a command, before a command is sent, or at the end.
pub data Reader (J P : Type 0) : Type 0 where
  idle finished : Reader J P
  latched sending : SafetyBit → Reader J P
  reserving submitting : Item J P → Reader J P

-- Where the engine is: before the test of `closed`, before it receives, in the handler of a command,
-- after it took the bit of the command back, before it clears `stop` and `off`, at the end of the
-- round, or after the loop.
pub data Engine (J P : Type 0) : Type 0 where
  waiting receiving left : Engine J P
  executing acknowledged clearing releasing : Item J P → Engine J P

pub record Control (J P : Type 0) : Type 0 where
  pub stop : Bool
  pub off : Bool
  pub gate_request_rejected : Option (Option J)
  pub source_dc_request_rejected : Option (Option J)
  pub run_request_rejected : Option (Option J)
  pub pending_safety : Mask
  pub running : Bool
  pub closed : Bool
  pub queue : List (Item J P)
  pub reader : Reader J P
  pub engine : Engine J P

-- What happens next: a command arrives, the input ends, the thread that writes the states loses its
-- reader, or the reader or the engine goes on.
pub data Event (J P : Type 0) : Type 0 where
  input : Item J P → Event J P
  input_ends output_lost reader_runs engine_runs : Event J P

module _ {J P : Type 0} where
  abbrev pub new : Control J P
  new = record {
    stop = false;
    off = false;
    gate_request_rejected = none;
    source_dc_request_rejected = none;
    run_request_rejected = none;
    pending_safety = λ _. false;
    running = false;
    closed = false;
    queue = [];
    reader = idle;
    engine = waiting;
  }

  -- With whether two seconds have passed since the last command.
  unfoldable pub cancelled : Bool → Control J P → Bool
  cancelled late s = s.stop || (is_pending s.pending_safety || (s.closed || late))

  -- After the loop of the reader.
  abbrev pub close_input : Control J P → Control J P
  close_input s = record s { closed = true; stop = true; reader = finished }

  abbrev pub latch_safety : SafetyBit → Control J P → Control J P
  latch_safety b s = record s { pending_safety = latch b s.pending_safety; reader = latched b }

  -- A slot for a rejected request keeps one job.
  unfoldable pub fill_slot : Option (Option J) → Control J P → Control J P → Control J P
  fill_slot none next s = next
  fill_slot (some _) next s = close_input s

  -- A request for an output that is not admitted.
  unfoldable pub reject : Item J P → Control J P → Control J P
  reject item s =
      if is_run item.1
      then fill_slot s.run_request_rejected (record s { run_request_rejected = some item.0 }) s
      else (if is_set_source_dc item.1
          then fill_slot s.source_dc_request_rejected
              (record s { source_dc_request_rejected = some item.0 }) s
          else fill_slot s.gate_request_rejected (record s { gate_request_rejected = some item.0 })
              s)

  unfoldable pub admit : Item J P → Control J P → Control J P
  admit item s =
      if output_operation item.1
      then (if s.running || is_pending s.pending_safety
          then reject item s
          else record s { reader = reserving item })
      else record s { reader = submitting item }

  unfoldable pub latch_or_admit : Option SafetyBit → Item J P → Control J P → Control J P
  latch_or_admit (some b) item s = latch_safety b s
  latch_or_admit none item s = admit item s

  unfoldable pub read_command : Item J P → Control J P → Control J P
  read_command item s = elim item.1 [
    | heartbeat ↦ s
    | shut_down ↦ close_input s
    | command ↦ latch_or_admit (safety_bit command) item s
  ]

  -- The queue is bounded, and nobody receives after the loop of the engine.
  unfoldable pub has_room : List (Item J P) → ℕ → Bool
  has_room _ zero = false
  has_room [] (suc n) = true
  has_room (_ ∷ queue) (suc n) = has_room queue n

  abbrev pub is_left : Engine J P → Bool
  is_left left = true
  is_left _ = false

  unfoldable pub can_send : Control J P → Bool
  can_send s = not (is_left s.engine) && has_room s.queue 8

  -- The command of a latch could not be sent.
  unfoldable pub safety_unsent : SafetyBit → Control J P → Control J P
  safety_unsent safety_stop s = close_input s
  safety_unsent _ s = record s { closed = true; reader = idle }

  -- The next step of the reader on a command that it has begun.
  unfoldable pub reader_step : Reader J P → Control J P → Control J P
  reader_step idle s = s
  reader_step finished s = s
  reader_step (latched b) s = record s {
    off = s.off || turns_off b;
    stop = true;
    reader = sending b;
  }
  reader_step (sending b) s =
      if can_send s
      then record s { queue = s.queue ++ (none, command_of b) ∷ []; reader = idle }
      else safety_unsent b s
  reader_step (reserving item) s = record s { running = true; reader = submitting item }
  reader_step (submitting item) s =
      if can_send s
      then record s { queue = s.queue ++ item ∷ []; reader = idle }
      else close_input (record s { running = not (output_operation item.1) && s.running })

  abbrev pub is_finished : Reader J P → Bool
  is_finished finished = true
  is_finished _ = false

  unfoldable pub receive : List (Item J P) → Control J P → Control J P
  receive [] s = record s { engine = (if is_finished s.reader then left else waiting) }
  receive (item ∷ queue) s = record s { queue = queue; engine = executing item }

  -- `acknowledge_safety`, up to its test.
  unfoldable pub acknowledge : Option SafetyBit → Item J P → Control J P → Control J P
  acknowledge none item s = record s { engine = releasing item }
  acknowledge (some b) item s = record s {
    pending_safety = unlatch b s.pending_safety;
    engine = acknowledged item;
  }

  unfoldable pub engine_step : Engine J P → Control J P → Control J P
  engine_step waiting s = record s { engine = (if s.closed then left else receiving) }
  engine_step receiving s = receive s.queue s
  engine_step left s = s
  engine_step (executing item) s = acknowledge (safety_bit item.1) item s
  engine_step (acknowledged item) s = record s {
    engine = (if is_pending s.pending_safety then releasing item else clearing item);
  }
  engine_step (clearing item) s = record s { stop = false; off = false; engine = releasing item }
  engine_step (releasing item) s = record s {
    running = not (output_operation item.1) && s.running;
    gate_request_rejected = none;
    source_dc_request_rejected = none;
    run_request_rejected = none;
    engine = waiting;
  }

  unfoldable pub when_idle : Reader J P → Control J P → Control J P → Control J P
  when_idle idle next s = next
  when_idle _ next s = s

  unfoldable pub step : Event J P → Control J P → Control J P
  step (input item) s = when_idle s.reader (read_command item s) s
  step input_ends s = when_idle s.reader (close_input s) s
  step output_lost s = record s { closed = true; stop = true }
  step reader_runs s = reader_step s.reader s
  step engine_runs s = engine_step s.engine s

  unfoldable pub run_steps : List (Event J P) → Control J P → Control J P
  run_steps [] s = s
  run_steps (event ∷ events) s = run_steps events (step event s)
