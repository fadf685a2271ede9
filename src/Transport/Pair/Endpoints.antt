-- ===== src/Transport/Pair/Endpoints.antt =====
-- Ordinary input and output of `DevicePair` in crates/iv-transport/src/lib.rs, and the check of an
-- instrument after its helper was replaced.
use kohdalab_iv.Common.Exec.{Exec, ◌>>=◌, ◌>>◌, pure, fail, lift, gets, modify, check}
use kohdalab_iv.Common.{
  ℕ, ◌+◌, ◌-◌, ◌/◌, min, String, Bool, true, false, not, ◌||◌, Option, none, some, List, [], ◌∷◌,
  ◌++◌, map, if◌then◌else◌, ◌==◌, Result, ok, err,
}
use kohdalab_iv.Common.Text.{Text, text_of, text_eq}
use kohdalab_iv.Common.Float.{Float}
use kohdalab_iv.Transport.Instruments.{
  Role, source, source2, gate, meter, reference_meter, is_source_role,
}
use kohdalab_iv.Transport.Identity.{verify_model, identity_command, split}
use kohdalab_iv.Transport.Replies.{trim}
use kohdalab_iv.Transport.Resources.{ResourceKind, visa, gpib, usb}
use kohdalab_iv.Transport.Fault.{
  Fault, unsupported_model, deadline_expired, unusable, identity_changed,
}
use kohdalab_iv.Transport.Drivers.{
  InstrumentIo, panel_rounds, panel_head, write_commands, query, terminated, is_legacy_source,
  source_write_marks_adc_discard,
}
use kohdalab_iv.Transport.Pair.{Pair, Endpoint, Sessions, M, slot, put_slot, in_world, endpoint_of}

-- `split(',').map(trim).join(",")`.
abbrev join : List Text → Text
join [] = []
join (w ∷ []) = w
join (w ∷ v ∷ ws) = w ++ b',' ∷ join (v ∷ ws)

unfoldable pub normalize_identity : Text → Text
normalize_identity identity = join (map trim (split (λ c. not (c == b',')) (trim identity)))

unfoldable pub is_usb : ResourceKind → Bool
is_usb (usb name serial vid pid) = true
is_usb (gpib name address) = false
is_usb (visa name native) = false

unfoldable pub is_over_usb : Option ResourceKind → Bool
unfolding is_usb
is_over_usb none = false
is_over_usb (some (usb name serial vid pid)) = true
is_over_usb (some (gpib name address)) = false
is_over_usb (some (visa name native)) = is_usb native

abbrev pub lift_result : {W A : Type 0} → Result A (Unit {0}) → M W A
lift_result (ok a) p = (p, ok a)
lift_result (err _) p = (p, err unsupported_model)

module _ {W L : Type 0} (x : Sessions W L) where
  -- `Endpoint::request`.
  unfoldable pub request : Endpoint → String → Text → Exec W Fault Text
  request e op command = x.request e.session op e.address 5000 command 6000000000

  -- `Endpoint::request_before`.
  unfoldable pub request_before : Endpoint → String → Text → ℕ → Exec W Fault Text
  request_before e op command deadline w =
      let remaining = deadline - x.now w in
      let timeout_ms = min (remaining / 1000000) 5000 in
      if timeout_ms == 0
      then (w, err deadline_expired)
      else x.request e.session op e.address timeout_ms command remaining w

  -- `EndpointIo`.
  unfoldable pub io_of : Endpoint → InstrumentIo W
  unfolding request request_before
  io_of e = record {
    request = request e;
    request_before = request_before e;
    wait = x.sleep;
    now = x.now;
  }

  unfoldable pub legacy_panel_before : Endpoint → ℕ → Exec W Fault Text
  legacy_panel_before e deadline = do
    panel ← request_before e "QUERY" (text_of "OS;E\n") deadline
    panel_rounds (io_of e) 5 deadline panel

  unfoldable pub identify_endpoint_before : Endpoint → Role → String → ℕ → Exec W Fault Text
  identify_endpoint_before e role model deadline =
      if is_legacy_source model
      then (do panel ← legacy_panel_before e deadline; pure (panel_head panel))
      else elim (identity_command role model) [
        | ok command ↦ request_before e "QUERY" command deadline
        | err _ ↦ fail unsupported_model
      ]

  unfoldable pub ensure_usable : M W (Unit {0})
  ensure_usable p = if p.is_usable then (p, ok tt) else (p, err unusable)

  unfoldable pub verify_recovered_role : Role → ℕ → M W (Unit {0})
  verify_recovered_role role deadline = do
    e ← endpoint_of role
    model ← gets (λ p. (slot role p).model)
    identity ← in_world (identify_endpoint_before e role model deadline)
    lift_result (verify_model role model identity)
    expected ← gets (λ p. (slot role p).identity)
    check (text_eq (normalize_identity identity) (normalize_identity expected)) identity_changed

  unfoldable pub set_pending : Role → Bool → Pair W → Pair W
  unfolding slot put_slot
  set_pending role pending p = put_slot role (record (slot role p) { is_pending = pending }) p

  unfoldable pub validate_recovery : Role → M W (Unit {0})
  validate_recovery role p =
      if (slot role p).is_pending
      then (let (p', r) = verify_recovered_role role (x.now p.world + 5000000000) p in
          elim r [
            | ok _ ↦ (set_pending role false p', ok tt)
            | err e ↦ (record p' { is_usable = false }, err e)
          ])
      else (p, ok tt)

  -- The loop over the commands of a write.
  unfoldable pub write_all : Role → List Text → M W (Unit {0})
  write_all role [] = pure tt
  write_all role (command ∷ commands) = do
    e ← endpoint_of role
    _ ← in_world (request e "WRITE" (terminated command))
    write_all role commands

  unfoldable pub mark_adc_discards : Role → Text → Pair W → Pair W
  mark_adc_discards role command p = if not (is_source_role role) then p else (record p {
    meter_discard =
        source_write_marks_adc_discard role p.meter_slot.model command || p.meter_discard;
    reference_meter_discard =
        source_write_marks_adc_discard role p.reference_slot.model command
        || p.reference_meter_discard;
  })

  -- `*meter_discard_mut(role)`.
  unfoldable pub discard_of : Role → Pair W → Bool
  discard_of reference_meter p = p.reference_meter_discard
  discard_of meter p = p.meter_discard
  discard_of source p = p.meter_discard
  discard_of source2 p = p.meter_discard
  discard_of gate p = p.meter_discard

  unfoldable pub set_discard : Role → Bool → Pair W → Pair W
  set_discard reference_meter b p = record p { reference_meter_discard = b }
  set_discard meter b p = record p { meter_discard = b }
  set_discard source b p = record p { meter_discard = b }
  set_discard source2 b p = record p { meter_discard = b }
  set_discard gate b p = record p { meter_discard = b }

  module _ {F : Type 0} (f : Float F) (in_bounds : Text → Bool) where
    -- A write after the check that the pair is usable.
    unfoldable pub write_usable : Role → Text → M W (Unit {0})
    write_usable role command = do
      validate_recovery role
      model ← gets (λ p. (slot role p).model)
      over_usb ← gets (λ p. is_over_usb (slot role p).kind)
      commands ← lift (write_commands f role model over_usb command)
      write_all role commands
      modify (mark_adc_discards role command)

    unfoldable pub write : Role → Text → M W (Unit {0})
    write role command = do ensure_usable; write_usable role command

    -- The query of a connected instrument.
    unfoldable pub query_endpoint : Role → Endpoint → Text → M W Text
    unfolding discard_of set_discard
    query_endpoint role e command p =
        let s = slot role p in
        let (w, result) =
          query (io_of e) in_bounds role s.model (is_over_usb s.kind) (discard_of role p) command
            p.world in
        (set_discard role result.0 (record p { world = w }), result.1)

    -- A query after the check that the pair is usable.
    unfoldable pub query_usable : Role → Text → M W Text
    query_usable role command = do
      validate_recovery role
      e ← endpoint_of role
      query_endpoint role e command

    unfoldable pub query_role : Role → Text → M W Text
    query_role role command = do ensure_usable; query_usable role command
