-- ===== src/Desktop/Control/Cases.antt =====
-- What holds after the parts of a step of crates/iv-desktop/src/engine.rs, if it holds in each of
-- their cases: for the invariants of the admission.
use kohdalab_iv.Common.{
  ◌≡◌, refl, Bool, true, false, Option, none, some, List, [], ◌∷◌, if◌then◌else◌,
}
use kohdalab_iv.Desktop.Control.{
  Item, Control, reject, fill_slot, is_run, is_set_source_dc, Event, step, run_steps, close_input,
}

module _ {J P : Type 0} (Q : Control J P → Type 0) where
  pub either_case :
      (test : Bool) (s z : Control J P)
      → (test ≡ true → Q s)
      → (test ≡ false → Q z)
      → Q (if test then s else z)
  either_case true s z h k = h refl
  either_case false s z h k = k refl

  pub fill_slot_case :
      (slot : Option (Option J)) (next s : Control J P)
      → Q next
      → Q (close_input s)
      → Q (fill_slot slot next s)
  unfolding fill_slot
  fill_slot_case none next s h k = h
  fill_slot_case (some _) next s h k = k

  pub reject_case :
      (item : Item J P) (s : Control J P)
      → Q (record s { run_request_rejected = some item.0 })
      → Q (record s { source_dc_request_rejected = some item.0 })
      → Q (record s { gate_request_rejected = some item.0 })
      → Q (close_input s)
      → Q (reject item s)
  unfolding reject
  reject_case item s run_kept source_kept gate_kept k =
      either_case (is_run item.1) _ _ (λ _. fill_slot_case s.run_request_rejected _ s run_kept k)
        (λ _.
          either_case (is_set_source_dc item.1) _ _
            (λ _. fill_slot_case s.source_dc_request_rejected _ s source_kept k)
            (λ _. fill_slot_case s.gate_request_rejected _ s gate_kept k))

  pub run_steps_case :
      ((event : Event J P) (s : Control J P) → Q s → Q (step event s))
      → (events : List (Event J P)) (s : Control J P) → Q s
      → Q (run_steps events s)
  unfolding run_steps
  run_steps_case each [] s h = h
  run_steps_case each (event ∷ events) s h =
      run_steps_case each events (step event s) (each event s h)
