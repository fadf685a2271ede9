-- ===== src/Transport/Pair/Shutdown.antt =====
-- The emergency shutdown of sources in `DevicePair` of crates/iv-transport/src/lib.rs.
use kohdalab_iv.Common.Exec.{◌>>=◌, ◌>>◌, pure, lift, gets, modify, check}
use kohdalab_iv.Common.{
  ℕ, zero, suc, ◌+◌, min, Bool, true, false, not, ◌||◌, Option, none, some, List, [], ◌∷◌,
  if◌then◌else◌, leb, ◌==◌, Result, ok, err,
}
use kohdalab_iv.Common.Text.{Text, text_of, text_eq}
use kohdalab_iv.Transport.Instruments.{Role, source, source2, is_source_role}
use kohdalab_iv.Transport.Replies.{trim, legacy_output}
use kohdalab_iv.Transport.Fault.{
  Fault, not_a_source, not_connected, shared_controller, incomplete_connection, lease_missing,
  not_off, invalid_reply,
}
use kohdalab_iv.Transport.Drivers.{is_legacy_source}
use kohdalab_iv.Transport.Pair.{
  Pair, Slot, Endpoint, Sessions, M, slot, in_world, endpoint_of, is_connected,
}
use kohdalab_iv.Transport.Pair.Endpoints.{request_before, verify_recovered_role, set_pending}

pub record OutputOffReport : Type 0 where
  pub output_off_verified : Bool
  pub zeroing_warning : Option Fault

-- The commands of a source, in the dialect of the 7651 or in SCPI.
abbrev pub off_command : Bool → Text
off_command legacy = text_of (if legacy then "O0;E\n" else ":OUTP OFF\n")

abbrev pub output_query : Bool → Text
output_query legacy = text_of (if legacy then "OC;E\n" else ":OUTP?\n")

abbrev pub zero_command : Bool → Text
zero_command legacy = text_of (if legacy then "S0;E\n" else ":SOUR:LEV:FIX 0\n")

-- The output as the reply tells it: `0` or `1` for a 7651, the text itself otherwise.
unfoldable pub read_output : Bool → Text → Result Text Fault
read_output false reply = ok reply
read_output true reply = elim (legacy_output reply) [
  | none ↦ err invalid_reply
  | some output ↦ ok (text_of (if output then "1" else "0"))
]

unfoldable pub is_off : Text → Bool
is_off output = let text = trim output in text_eq text (text_of "0") || text_eq text (text_of "OFF")

abbrev pub warning_of : Result Text Fault → Option Fault
warning_of (ok _) = none
warning_of (err e) = some e

module _ {W L : Type 0} (x : Sessions W L) where
  unfoldable pub output_off_dispatch : Role → ℕ → M W (Unit {0})
  output_off_dispatch role deadline = do
    e ← endpoint_of role
    model ← gets (λ p. (slot role p).model)
    _ ← in_world (request_before x e "WRITE" (off_command (is_legacy_source model)) deadline)
    pure tt

  -- The level is set to zero last; that this failed is only a warning.
  unfoldable pub zero_level : Endpoint → Bool → ℕ → M W OutputOffReport
  zero_level e legacy deadline p =
      let (w, r) = request_before x e "WRITE" (zero_command legacy) deadline p.world in
      (
        record p { world = w },
        ok (record { output_off_verified = true; zeroing_warning = warning_of r }),
      )

  unfoldable pub verify_and_zero : Endpoint → Bool → ℕ → M W OutputOffReport
  verify_and_zero e legacy deadline = do
    reply ← in_world (request_before x e "QUERY" (output_query legacy) deadline)
    output ← lift (read_output legacy reply)
    check (is_off output) not_off
    zero_level e legacy deadline

  unfoldable pub output_off_verify_and_zero : Role → ℕ → M W OutputOffReport
  output_off_verify_and_zero role deadline = do
    e ← endpoint_of role
    model ← gets (λ p. (slot role p).model)
    verify_and_zero e (is_legacy_source model) deadline

  unfoldable pub output_off_once : Role → ℕ → M W OutputOffReport
  output_off_once role deadline = do
    output_off_dispatch role deadline
    output_off_verify_and_zero role deadline

  -- A role on the old session gets the fresh one, and waits for its check.
  unfoldable pub move_slot : ℕ → ℕ → Slot → Slot
  move_slot old fresh s = elim s.endpoint [
    | none ↦ s
    | some e ↦
        if e.session == old
        then record s { endpoint = some (record e { session = fresh }); is_pending = true }
        else s
  ]

  unfoldable pub move_session : ℕ → ℕ → Pair W → Pair W
  unfolding move_slot
  move_session old fresh p = record p {
    source_slot = move_slot old fresh p.source_slot;
    source2_slot = move_slot old fresh p.source2_slot;
    gate_slot = move_slot old fresh p.gate_slot;
    meter_slot = move_slot old fresh p.meter_slot;
    reference_slot = move_slot old fresh p.reference_slot;
  }

  abbrev pub some_or : {A : Type 0} → Fault → Option A → M W A
  some_or e none p = (p, err e)
  some_or e (some a) p = (p, ok a)

  -- `old.abandon_for_recovery()`.
  unfoldable pub abandon : ℕ → M W (Option L)
  abandon session p =
      let (w, lease) = x.abandon session p.world in (record p { world = w }, ok lease)

  unfoldable pub replace_source_helper : Role → ℕ → M W (Unit {0})
  replace_source_helper role deadline = do
    e ← endpoint_of role
    hub ← gets (λ p. x.is_hub e.session p.world)
    check (not hub) shared_controller
    found ← gets (λ p. (slot role p).kind)
    kind ← some_or incomplete_connection found
    left ← abandon e.session
    lease ← some_or lease_missing left
    fresh ← in_world (x.spawn kind lease deadline)
    modify (move_session e.session fresh)
    verify_recovered_role x role deadline
    modify (set_pending x role false)

  unfoldable pub recover_once : Role → ℕ → M W OutputOffReport
  recover_once role deadline = do replace_source_helper role deadline; output_off_once role deadline

  -- The loop of `output_off_recover` with the attempts that are left, after an error.
  unfoldable pub recover_loop : ℕ → Role → ℕ → Fault → M W OutputOffReport
  recover_loop zero role deadline last p = (p, err last)
  recover_loop (suc attempts) role deadline last p =
      if leb deadline (x.now p.world)
      then (p, err last)
      else (let (p', r) = recover_once role deadline p in
          elim r [ ok report ↦ (p', ok report) | err e ↦ recover_loop attempts role deadline e p' ])

  unfoldable pub output_off_recover : Role → ℕ → Fault → M W OutputOffReport
  unfolding recover_loop
  output_off_recover role deadline initial = recover_loop 2 role deadline initial

  unfoldable pub output_off_with_recovery : Role → ℕ → M W OutputOffReport
  output_off_with_recovery role deadline p =
      let (p', r) = output_off_once role deadline p in
      elim r [ ok report ↦ (p', ok report) | err e ↦ output_off_recover role deadline e p' ]

  -- The identity is checked first after a failure, or after the helper was replaced.
  unfoldable pub needs_check : Role → Pair W → Bool
  needs_check role p = not p.is_usable || (slot role p).is_pending

  unfoldable pub check_before_off : Role → ℕ → M W (Unit {0})
  check_before_off role deadline p =
      if needs_check role p then verify_recovered_role x role deadline p else (p, ok tt)

  unfoldable pub shut_down : Role → ℕ → M W OutputOffReport
  shut_down role deadline p =
      let (p', r) = check_before_off role (min deadline (x.now p.world + 5000000000)) p in
      elim r [
        | ok _ ↦ output_off_with_recovery role deadline p'
        | err e ↦ output_off_recover role deadline e p'
      ]

  unfoldable pub mark_failed : {A : Type 0} → Result A Fault → Pair W → Pair W
  mark_failed (ok a) p = p
  mark_failed (err e) p = record p { is_usable = false }

  unfoldable pub force_output_off_role : Role → M W OutputOffReport
  force_output_off_role role p =
      if not (is_source_role role)
      then (p, err not_a_source)
      else (if not (is_connected role p)
          then (p, err not_connected)
          else (let (p', r) = shut_down role (x.now p.world + 28000000000) p in
              (mark_failed r p', r)))

  -- The first pass of `force_sources_output_off`: every source gets the command before any reply is
  -- waited for.
  unfoldable pub dispatch_all :
      List Role → ℕ → Pair W → Pair W × List (Role × Result (Unit {0}) Fault)
  dispatch_all [] deadline p = (p, [])
  dispatch_all (role ∷ rest) deadline p =
      let (p₁, r) = (do check_before_off role deadline; output_off_dispatch role deadline) p in
      let (p₂, results) = dispatch_all rest deadline p₁ in (p₂, (role, r) ∷ results)

  unfoldable pub settle : Role → Result (Unit {0}) Fault → ℕ → M W OutputOffReport
  settle role (err e) deadline p = output_off_recover role deadline e p
  settle role (ok _) deadline p =
      let (p', r) = output_off_verify_and_zero role deadline p in
      elim r [ ok report ↦ (p', ok report) | err e ↦ output_off_recover role deadline e p' ]

  -- The second pass, with whether any source failed.
  unfoldable pub settle_all :
      List (Role × Result (Unit {0}) Fault)
      → ℕ
      → Pair W
      → Pair W × Bool × List (Role × Result OutputOffReport Fault)
  unfolding settle
  settle_all [] deadline p = (p, false, [])
  settle_all ((role, dispatched) ∷ rest) deadline p =
      let (p₁, r) = settle role dispatched deadline p in
      let (p₂, failed, results) = settle_all rest deadline p₁ in
      (p₂, (elim r [ ok _ ↦ failed | err e ↦ true ]), (role, r) ∷ results)

  abbrev pub connected_sources : Pair W → List Role
  connected_sources p =
      let second = if is_connected source2 p then source2 ∷ [] else [] in
      if is_connected source p then source ∷ second else second

  unfoldable pub force_sources_output_off :
      Pair W → Pair W × List (Role × Result OutputOffReport Fault)
  force_sources_output_off p =
      let deadline = x.now p.world + 28000000000 in
      let (p₁, dispatched) = dispatch_all (connected_sources p) deadline p in
      let (p₂, failed, results) = settle_all dispatched deadline p₁ in
      (if failed then record p₂ { is_usable = false } else p₂, results)
