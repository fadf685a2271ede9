-- ===== src/Transport/Pair/Disconnecting.antt =====
-- `disconnect` and `close` of `DevicePair` in crates/iv-transport/src/lib.rs: an instrument is handed
-- back to its front panel.
use kohdalab_iv.Common.Exec.{◌>>=◌, ◌>>◌, pure, gets, modify}
use kohdalab_iv.Common.{
  String, Bool, true, false, not, ◌&&◌, Option, none, some, List, [], ◌∷◌, filter, if◌then◌else◌,
  ok, err,
}
use kohdalab_iv.Common.Text.{Text, text_of}
use kohdalab_iv.Transport.Instruments.{Role, source, source2, gate, meter, reference_meter}
use kohdalab_iv.Transport.Fault.{Fault}
use kohdalab_iv.Transport.Drivers.{is_adc_meter}
use kohdalab_iv.Transport.Pair.{
  Pair, Endpoint, Sessions, M, roles, same_role, slot, put_slot, in_world,
}
use kohdalab_iv.Transport.Pair.Endpoints.{is_over_usb}
use kohdalab_iv.Transport.Pair.Connecting.{session_is_attached}

unfoldable pub is_meter_role : Role → Bool
is_meter_role source = false
is_meter_role source2 = false
is_meter_role gate = false
is_meter_role meter = true
is_meter_role reference_meter = true

module _ {W L : Type 0} (x : Sessions W L) where
  -- A request with a limit of two seconds.
  unfoldable pub brief : Endpoint → String → Text → M W (Unit {0})
  brief e op payload = do
    _ ← in_world (x.request e.session op e.address 2000 payload 2000000000)
    pure tt

  unfoldable pub stop_adc : Endpoint → Bool → M W (Unit {0})
  stop_adc e over_usb = do
    brief e "CLEAR" []
    brief e "WRITE" (text_of (if over_usb then "H0\n" else ":ABORt\n"))
    brief e "WRITE" (text_of "*CLS\n")

  unfoldable pub is_adc_meter_role : Role → Pair W → Bool
  is_adc_meter_role role p = is_meter_role role && is_adc_meter (slot role p).model

  unfoldable pub stop_meter : Role → Endpoint → M W (Unit {0})
  stop_meter role e = do
    adc ← gets (is_adc_meter_role role)
    over_usb ← gets (λ p. is_over_usb (slot role p).kind)
    (if adc then stop_adc e over_usb else pure tt)

  unfoldable pub end_discard : Role → Pair W → Pair W
  end_discard source p = p
  end_discard source2 p = p
  end_discard gate p = p
  end_discard meter p = p
  end_discard reference_meter p = record p { reference_meter_discard = false }

  unfoldable pub clear_role : Role → Pair W → Pair W
  clear_role role p =
      end_discard role
        (put_slot role (record (slot role p) { endpoint = none; kind = none; identity = [] }) p)

  -- The session of the last role on it is closed; the role is cleared even if this fails.
  unfoldable pub close_session : Role → Endpoint → M W (Unit {0})
  close_session role e p =
      let (w, r) = x.close e.session p.world in (clear_role role (record p { world = w }), r)

  unfoldable pub other_roles : Role → List Role
  other_roles role = filter (λ r. not (same_role r role)) roles

  unfoldable pub detach : Role → Endpoint → M W (Unit {0})
  detach role e = do
    attached ← gets (session_is_attached x e.session (other_roles role))
    (if attached
        then modify (clear_role role)
        else (do brief e "REN" (text_of "0"); close_session role e))

  unfoldable pub leave : Role → Endpoint → M W (Unit {0})
  leave role e = do
    stop_meter role e
    brief e "LOCAL" []
    in_world (x.release e.session e.address)
    detach role e

  unfoldable pub disconnect : Role → M W (Unit {0})
  disconnect role p = elim (slot role p).endpoint [ none ↦ (p, ok tt) | some e ↦ leave role e p ]

  -- The roles in turn; the first error stands for all.
  unfoldable pub close_roles : List Role → Pair W → Pair W × Option Fault
  close_roles [] p = (p, none)
  close_roles (role ∷ rest) p =
      let (p₁, r) = disconnect role p in
      let (p₂, later) = close_roles rest p₁ in (p₂, elim r [ ok _ ↦ later | err e ↦ some e ])

  unfoldable pub close : M W (Unit {0})
  close p =
      let (p', failed) = close_roles roles p in (p', elim failed [ none ↦ ok tt | some e ↦ err e ])
