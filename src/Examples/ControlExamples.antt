-- ===== src/Examples/ControlExamples.antt =====
-- The admission of commands of crates/iv-desktop/src/engine.rs, at concrete interleavings.
use kohdalab_iv.Common.{ℕ, zero, suc, ◌≡◌, ◌≤◌, refl, true, false, none, List, [], ◌∷◌, ◌++◌}
use kohdalab_iv.Desktop.Control.{
  safety_stop, Command, stop_run, run, new, executing, Event, input, reader_runs, engine_runs,
  run_steps, step, when_idle, read_command, latch_or_admit, admit, reject, fill_slot, reader_step,
  can_send, has_room, safety_unsent, engine_step, receive, acknowledge, latch, unlatch, same_bit,
  is_pending, safety_bit, command_of, output_operation, cancelled,
}
use kohdalab_iv.Desktop.Control.Exclusive.{owners, as_number, run_steps-owners}
use kohdalab_iv.Desktop.Control.Latched
use kohdalab_iv.Desktop.Control.Cancelled.{is_patient, run_steps-cancelled}
use kohdalab_iv.Desktop.Control.Latched.{will_act, run_steps-will_act}

abbrev repeat : ℕ → Event ℕ ℕ → List (Event ℕ ℕ)
repeat zero event = []
repeat (suc n) event = event ∷ repeat n event

-- A command that is read and sent.
abbrev sends : Command ℕ → List (Event ℕ ℕ)
sends command = input (none, command) ∷ repeat 2 reader_runs

-- A run is requested twice, the first time it is on its way to the engine.
abbrev two_runs : List (Event ℕ ℕ)
two_runs = sends (run 1) ++ repeat 2 engine_runs ++ sends (run 2)

run_steps-owners_example :
    owners (run_steps two_runs new) ≤ as_number (run_steps two_runs new).running
run_steps-owners_example = run_steps-owners two_runs

-- A stop during a run.
abbrev stopped_run : List (Event ℕ ℕ)
stopped_run = sends (run 1) ++ repeat 2 engine_runs ++ sends stop_run

run_steps-will_act_example :
    will_act safety_stop
      (run_steps stopped_run new).reader
      (run_steps stopped_run new).queue
      (run_steps stopped_run new).engine
      (run_steps stopped_run new).closed
    ≡ true
unfolding run_steps step when_idle read_command latch_or_admit admit reject fill_slot reader_step
    can_send has_room safety_unsent engine_step receive acknowledge latch unlatch same_bit
    is_pending safety_bit command_of output_operation cancelled
run_steps-will_act_example = run_steps-will_act safety_stop stopped_run refl

stopped_patient : is_patient safety_stop stopped_run new ≡ true
unfolding is_patient run_steps step when_idle read_command latch_or_admit admit reject fill_slot
    reader_step can_send has_room safety_unsent engine_step receive acknowledge latch unlatch
    same_bit is_pending safety_bit command_of output_operation cancelled
stopped_patient = refl

stopped_queue : Latched.in_queue safety_stop (run_steps stopped_run new).queue ≡ true
unfolding run_steps step when_idle read_command latch_or_admit admit reject fill_slot reader_step
    can_send has_room safety_unsent engine_step receive acknowledge latch unlatch same_bit
    is_pending safety_bit command_of output_operation cancelled
stopped_queue = refl

run_steps-cancelled_example : cancelled false (run_steps stopped_run new) ≡ true
run_steps-cancelled_example =
    run_steps-cancelled safety_stop stopped_run stopped_patient stopped_queue false

-- Two stops; the first one is done and the second one in its handler when a run is admitted, and a
-- third stop follows. The end of the second stop takes back the bit of the third.
abbrev late_stop : List (Event ℕ ℕ)
late_stop =
    sends stop_run
    ++ sends stop_run
    ++ repeat 8 engine_runs
    ++ sends (run 1)
    ++ sends stop_run
    ++ repeat 6 engine_runs

lost_stop_engine : (run_steps late_stop new).engine ≡ executing (none, run 1)
unfolding run_steps step when_idle read_command latch_or_admit admit reject fill_slot reader_step
    can_send has_room safety_unsent engine_step receive acknowledge latch unlatch same_bit
    is_pending safety_bit command_of output_operation cancelled
lost_stop_engine = refl

lost_stop_queue : (run_steps late_stop new).queue ≡ (none, stop_run) ∷ []
unfolding run_steps step when_idle read_command latch_or_admit admit reject fill_slot reader_step
    can_send has_room safety_unsent engine_step receive acknowledge latch unlatch same_bit
    is_pending safety_bit command_of output_operation cancelled
lost_stop_queue = refl

lost_stop_cancelled : cancelled false (run_steps late_stop new) ≡ false
unfolding run_steps step when_idle read_command latch_or_admit admit reject fill_slot reader_step
    can_send has_room safety_unsent engine_step receive acknowledge latch unlatch same_bit
    is_pending safety_bit command_of output_operation cancelled
lost_stop_cancelled = refl

late_impatient : is_patient safety_stop late_stop new ≡ false
unfolding is_patient run_steps step when_idle read_command latch_or_admit admit reject fill_slot
    reader_step can_send has_room safety_unsent engine_step receive acknowledge latch unlatch
    same_bit is_pending safety_bit command_of output_operation cancelled
late_impatient = refl
