-- ===== src/Transport/Fault.antt =====
-- The errors of crates/iv-transport/src. Their wording is not modelled: one constructor stands for
-- the messages of one cause.
pub data Fault : Type 0 where
  unsupported_model unsupported_command invalid_value invalid_reply : Fault
  oversized_panel incomplete_panel : Fault
  closed poisoned oversized_payload send_failed pipe_lost timed_out : Fault
  malformed_frame oversized_frame reported : Fault
  deadline_expired spawn_failed lease_refused lease_missing : Fault
  not_connected incomplete_connection unusable identity_changed not_off shared_controller : Fault
  other_model other_resource same_instrument mixed_backends adc_over_usb not_a_source : Fault
  invalid_resource : Fault
