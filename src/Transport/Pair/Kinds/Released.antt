-- ===== src/Transport/Pair/Kinds/Released.antt =====
-- No role gets an instrument by `disconnect` of crates/iv-transport/src/lib.rs.
use kohdalab_iv.Common.Exec.{gets, modify}
use kohdalab_iv.Common.{
  ◌≡◌, refl, inl, inr, String, Bool, none, [], if◌then◌else◌, arith, ok, Option-cases,
}
use kohdalab_iv.Common.Text.{Text, text_of}
use kohdalab_iv.Transport.Instruments.{Role, source, source2, gate, meter, reference_meter}
use kohdalab_iv.Transport.Pair.{Pair, Endpoint, Sessions, slot, put_slot, in_world}
use kohdalab_iv.Transport.Pair.Endpoints.{is_over_usb}
use kohdalab_iv.Transport.Pair.Connecting.{session_is_attached}
use kohdalab_iv.Transport.Pair.Disconnecting
use kohdalab_iv.Transport.Pair.Disconnecting.{
  brief, stop_adc, is_adc_meter_role, stop_meter, end_discard, clear_role, close_session, detach,
  other_roles, leave,
}
use kohdalab_iv.Transport.Pair.Kinds.{
  slot-same, Shrunk, Shrunk-same, Shrunk-world, Shrunk-put, Shrinks, Shrinks-world, Shrinks-lift,
  Shrinks-gets, Shrinks-bind, Shrinks-if,
}

module _ {W L : Type 0} (x : Sessions W L) where
  brief-Shrinks : (e : Endpoint) (op : String) (payload : Text) → Shrinks (brief x e op payload)
  unfolding brief
  brief-Shrinks e op payload =
      Shrinks-bind (in_world (x.request e.session op e.address 2000 payload 2000000000)) _
        (Shrinks-world (x.request e.session op e.address 2000 payload 2000000000))
        (λ reply. Shrinks-lift (ok tt))

  stop_adc-Shrinks : (e : Endpoint) (over_usb : Bool) → Shrinks (stop_adc x e over_usb)
  unfolding stop_adc
  stop_adc-Shrinks e over_usb =
      Shrinks-bind (brief x e "CLEAR" []) _ (brief-Shrinks e "CLEAR" []) (λ _.
        Shrinks-bind (brief x e "WRITE" (text_of (if over_usb then "H0\n" else ":ABORt\n"))) _
          (brief-Shrinks e "WRITE" (text_of (if over_usb then "H0\n" else ":ABORt\n")))
          (λ _. brief-Shrinks e "WRITE" (text_of "*CLS\n")))

  stop_meter-Shrinks : (role : Role) (e : Endpoint) → Shrinks (stop_meter x role e)
  unfolding stop_meter
  stop_meter-Shrinks role e =
      Shrinks-bind (gets (is_adc_meter_role x role)) _ (Shrinks-gets (is_adc_meter_role x role))
        (λ adc.
          Shrinks-bind (gets (λ p. is_over_usb (slot role p).kind)) _
            (Shrinks-gets (λ p. is_over_usb (slot role p).kind))
            (λ over_usb. Shrinks-if adc (stop_adc-Shrinks e over_usb) (Shrinks-lift (ok tt))))

  clear_role-Shrunk : (role : Role) (p : Pair W) → Shrunk p (clear_role x role p)
  unfolding clear_role end_discard
  clear_role-Shrunk role p =
      let s = record (slot role p) { endpoint = none; kind = none; identity = [] } in
      let put = put_slot role s p in
      λ role' kind now.
        Shrunk-put role s p (λ k h. absurd (ground arith)) role' kind
          (Shrunk-same put (clear_role x role p) (λ r. end_discard-slot role r put) role' kind now)
    where
      end_discard-slot : (role r : Role) (p : Pair W) → slot r (end_discard x role p) ≡ slot r p
      end_discard-slot source r p = refl
      end_discard-slot source2 r p = refl
      end_discard-slot gate r p = refl
      end_discard-slot meter r p = refl
      end_discard-slot reference_meter r p = slot-same r p _ refl refl refl refl refl

  detach-Shrinks : (role : Role) (e : Endpoint) → Shrinks (detach x role e)
  unfolding detach close_session
  detach-Shrinks role e =
      Shrinks-bind (gets (session_is_attached x e.session (other_roles x role))) _
        (Shrinks-gets (session_is_attached x e.session (other_roles x role)))
        (λ attached.
          Shrinks-if attached {m = modify (clear_role x role)}
            (record { shrunk = clear_role-Shrunk role })
            (Shrinks-bind (brief x e "REN" (text_of "0")) (λ _. close_session x role e)
              (brief-Shrinks e "REN" (text_of "0")) (λ _. close_session-Shrinks)))
    where
      close_session-Shrinks : Shrinks (close_session x role e)
      close_session-Shrinks = record {
        shrunk = λ p role' kind now. Shrunk-world p (x.close e.session p.world).0 role' kind (
            clear_role-Shrunk role (record p { world = (x.close e.session p.world).0 }) role' kind
              now);
      }

  leave-Shrinks : (role : Role) (e : Endpoint) → Shrinks (leave x role e)
  unfolding leave
  leave-Shrinks role e = Shrinks-bind (stop_meter x role e) _ (stop_meter-Shrinks role e) (λ _.
      Shrinks-bind (brief x e "LOCAL" []) _ (brief-Shrinks e "LOCAL" []) (λ _.
        Shrinks-bind (in_world (x.release e.session e.address)) _
          (Shrinks-world (x.release e.session e.address)) (λ _. detach-Shrinks role e)))

  pub disconnect-Shrinks : (role : Role) → Shrinks (Disconnecting.disconnect x role)
  unfolding Disconnecting.disconnect
  disconnect-Shrinks role = record {
    shrunk = λ p. elim (Option-cases (slot role p).endpoint) [
      | inl q ↦ rw (q, Disconnecting.disconnect) (λ r kind h. h)
      | inr (e, q) ↦ rw (q, Disconnecting.disconnect) ((leave-Shrinks role e).shrunk p)
    ];
  }
