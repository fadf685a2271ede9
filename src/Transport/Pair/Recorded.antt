-- ===== src/Transport/Pair/Recorded.antt =====
-- `write_recorded` of `DevicePair` in crates/iv-transport/src/lib.rs against `write`.
use kohdalab_iv.Common.Exec.{◌>>◌, modify}
use kohdalab_iv.Common.{
  ◌≡◌, refl, sym, ap, subst, ◌∙◌, ◌⊎◌, inl, inr, Bool, false, none, some, List, [], ◌∷◌, arith,
  Result, ok, err, Result-cases, Option-cases,
}
use kohdalab_iv.Common.Text.{Text}
use kohdalab_iv.Common.Float.{Float}
use kohdalab_iv.Transport.Instruments.{Role}
use kohdalab_iv.Transport.Fault.{Fault, not_connected}
use kohdalab_iv.Transport.Drivers.{write_commands, terminated}
use kohdalab_iv.Transport.Drivers.Recording.{Log, exchange_of}
use kohdalab_iv.Transport.Pair.{Pair, Slot, Endpoint, Sessions, M, slot, is_connected, endpoint_of}
use kohdalab_iv.Transport.Pair.Endpoints.{
  request, ensure_usable, validate_recovery, is_over_usb, write_all, mark_adc_discards,
  write_usable, write,
}
use kohdalab_iv.Transport.Pair.Kinds.{slot-same}

module _ {W L : Type 0} (x : Sessions W L) where
  -- The loop over the commands, with the exchanges that it makes.
  unfoldable pub record_all : Endpoint → List Text → W → (W × Result (Unit {0}) Fault) × Log
  unfolding exchange_of
  record_all e [] w = ((w, ok tt), [])
  record_all e (command ∷ commands) w =
      let (w', r) = request x e "WRITE" (terminated command) w in
      let (rest, log) = record_all e commands w' in
      let made = exchange_of "WRITE" (terminated command) r in
      elim r [ ok _ ↦ (rest, made ∷ log) | err fault ↦ ((w', err fault), made ∷ []) ]

  module _ {F : Type 0} (f : Float F) (in_bounds : Text → Bool) where
    -- What follows the translation of a command.
    unfoldable pub send_recorded :
        Role → Text → List Text → Pair W → (Pair W × Result (Unit {0}) Fault) × Log
    send_recorded role command commands p = elim (slot role p).endpoint [
      | none ↦ ((p, err not_connected), [])
      | some e ↦
          let ((w, r), log) = record_all e commands p.world in
          let p' = record p { world = w } in
          (
            elim r [
              | ok _ ↦ (mark_adc_discards x role command p', ok tt)
              | err fault ↦ (p', err fault)
            ],
            log,
          )
    ]

    unfoldable pub write_recorded : Role → Text → Pair W → (Pair W × Result (Unit {0}) Fault) × Log
    write_recorded role command p =
        let (p', r) = (ensure_usable x >> validate_recovery x role) p in
        let s = slot role p' in
        elim r [
          | err fault ↦ ((p', err fault), [])
          | ok _ ↦ elim (write_commands f role s.model (is_over_usb s.kind) command) [
            | err fault ↦ ((p', err fault), [])
            | ok commands ↦ send_recorded role command commands p'
          ]
        ]

    write_all-record_all :
        (role : Role) (e : Endpoint) (commands : List Text) (p : Pair W)
        → (slot role p).endpoint ≡ some e
        → write_all x role commands p ≡ (
          record p { world = (record_all e commands p.world).0.0 },
          (record_all e commands p.world).0.1,
        )
    unfolding write_all endpoint_of record_all
    write_all-record_all role e [] p there = refl
    write_all-record_all role e (command ∷ commands) p there =
        let p₁ : Pair W = record p {
          world = (request x e "WRITE" (terminated command) p.world).0;
        } in
        let kept : (slot role p₁).endpoint ≡ some e =
          ap (λ (s : Slot). s.endpoint) (slot-same role p p₁ refl refl refl refl refl) ∙ there in
        elim (Result-cases (request x e "WRITE" (terminated command) p.world).1) [
          | inr (fault, r) ↦ ground arith
          | inl (reply, r) ↦ ground (arith, write_all-record_all role e commands p₁ kept)
        ]

    -- What the write does with its commands.
    abbrev send_all : Role → Text → List Text → M W (Unit {0})
    send_all role command commands =
        write_all x role commands >> modify (mark_adc_discards x role command)

    -- The role has no connection and the command comes to nothing to send: the recorded run `a`
    -- fails with an empty log, and the plain run `b` succeeds.
    pub record SendsNothing (role : Role) (command : Text)
        (a : (Pair W × Result (Unit {0}) Fault) × Log) (b : Pair W × Result (Unit {0}) Fault)
        : Type 0 where
      pub after : Pair W
      pub absent : is_connected role after ≡ false
      pub nothing :
          write_commands f role (slot role after).model (is_over_usb (slot role after).kind) command
          ≡ ok []
      pub failed : a ≡ ((after, err not_connected), [])
      pub succeeded : b ≡ (mark_adc_discards x role command after, ok tt)

    -- The recorded run of an action.
    abbrev pub Agrees :
        Role
        → Text
        → (Pair W × Result (Unit {0}) Fault) × Log
        → Pair W × Result (Unit {0}) Fault
        → Type 0
    Agrees role command a b = (a.0 ≡ b) ⊎ SendsNothing role command a b

    send_recorded-connected :
        (role : Role) (command : Text) (commands : List Text) (e : Endpoint) (p : Pair W)
        → (slot role p).endpoint ≡ some e
        → (send_recorded role command commands p).0 ≡ send_all role command commands p
    unfolding send_recorded
    send_recorded-connected role command commands e p there =
        let all = write_all-record_all role e commands p there in
        elim (Result-cases (record_all e commands p.world).0.1) [
          | inr (fault, r) ↦ ground arith
          | inl (u, r) ↦ ground arith
        ]

    -- The commands of a command, for the pair as it is.
    abbrev commands_of : Role → Text → Pair W → Result (List Text) Fault
    commands_of role command p =
        write_commands f role (slot role p).model (is_over_usb (slot role p).kind) command

    send_recorded-absent :
        (role : Role) (command : Text) (commands : List Text) (p : Pair W)
        → commands_of role command p ≡ ok commands
        → (slot role p).endpoint ≡ none
        → Agrees role command
            (send_recorded role command commands p)
            (send_all role command commands p)
    unfolding send_recorded write_all endpoint_of is_connected
    send_recorded-absent role command [] p nothing absent = inr (record {
      after = p;
      absent = ground arith;
      nothing = nothing;
      failed = ground arith;
      succeeded = refl;
    })
    send_recorded-absent role command (c ∷ commands) p some_left absent = inl (ground arith)

    send_recorded-Agrees :
        (role : Role) (command : Text) (commands : List Text) (p : Pair W)
        → commands_of role command p ≡ ok commands
        → Agrees role command
            (send_recorded role command commands p)
            (send_all role command commands p)
    send_recorded-Agrees role command commands p given =
        elim (Option-cases (slot role p).endpoint) [
          | inl absent ↦ send_recorded-absent role command commands p given absent
          | inr (e, there) ↦ inl (send_recorded-connected role command commands e p there)
        ]

    -- A recorded write leaves the pair as the write does, with the same result; except that where
    -- the role has no connection and the command comes to nothing to send, it fails, with an empty
    -- log, and the write succeeds.
    pub write_recorded-write :
        (role : Role) (command : Text) (p : Pair W)
        → Agrees role command (write_recorded role command p) (write x f in_bounds role command p)
    unfolding write_recorded write write_usable
    write_recorded-write role command p = elim (Result-cases (ensure_usable x p).1) [
      | inr (fault, a) ↦ inl (ground arith)
      | inl (u, a) ↦
          let p₁ = (ensure_usable x p).0 in
          let p₂ = (validate_recovery x role p₁).0 in
          elim (Result-cases (validate_recovery x role p₁).1) [
            | inr (fault, b) ↦ inl (ground arith)
            | inl (u', b) ↦ elim (Result-cases (commands_of role command p₂)) [
              | inr (fault, c) ↦ inl (ground arith)
              | inl (commands, c) ↦
                  let recorded : write_recorded role command p
                      ≡ send_recorded role command commands p₂ =
                    ground arith in
                  let plain : write x f in_bounds role command p
                      ≡ send_all role command commands p₂ =
                    ground arith in
                  subst (Agrees role command (write_recorded role command p)) (sym plain) (
                    subst (λ a. Agrees role command a (send_all role command commands p₂))
                      (sym recorded) (send_recorded-Agrees role command commands p₂ c))
            ]
          ]
    ]
