-- ===== src/Transport/Pair/Confirmed.antt =====
-- What a reported output-off of `DevicePair` in crates/iv-transport/src/lib.rs rests on.
use kohdalab_iv.Common.{
  ℕ, zero, suc, ◌+◌, min, ◌≡◌, refl, sym, ap, subst, ◌∙◌, inl, inr, Bool, true, some, leb, arith,
  Result, ok, err, Bool-cases, Option-cases, Result-cases,
}
use kohdalab_iv.Common.Text.{Text}
use kohdalab_iv.Transport.Instruments.{
  Role, source, source2, gate, meter, reference_meter, is_source_role,
}
use kohdalab_iv.Transport.Fault.{Fault}
use kohdalab_iv.Transport.Drivers.{is_legacy_source}
use kohdalab_iv.Transport.Pair.{Pair, Slot, Endpoint, Sessions, slot, endpoint_of, is_connected}
use kohdalab_iv.Transport.Pair.Endpoints.{request_before}
use kohdalab_iv.Transport.Pair.Shutdown.{
  OutputOffReport, off_command, output_query, zero_command, read_output, is_off, zero_level,
  verify_and_zero, output_off_dispatch, output_off_verify_and_zero, output_off_once, recover_once,
  recover_loop, replace_source_helper, output_off_recover, output_off_with_recovery,
  check_before_off, shut_down, mark_failed, force_output_off_role,
}

slot-world :
    {W : Type 0} (role : Role) (p : Pair W) (w : W)
    → slot role (record p { world = w }) ≡ slot role p
unfolding slot
slot-world source p w = refl
slot-world source2 p w = refl
slot-world gate p w = refl
slot-world meter p w = refl
slot-world reference_meter p w = refl

module _ {W L : Type 0} (x : Sessions W L) where
  -- The two exchanges over an endpoint, one right after the other: the command that switches the
  -- output off, and the query whose reply tells that it is off.
  pub record Switched (e : Endpoint) (legacy : Bool) : Type 0 where
    pub before : W
    pub deadline : ℕ
    pub sent : Text
    pub reply : Text
    pub output : Text
    pub commanded : (request_before x e "WRITE" (off_command legacy) deadline before).1 ≡ ok sent
    pub answered :
        (request_before x e "QUERY"
          (output_query legacy)
          deadline
          (request_before x e "WRITE" (off_command legacy) deadline before).0).1
        ≡ ok reply
    pub told : read_output legacy reply ≡ ok output
    pub off : is_off output ≡ true

  -- The endpoint of a role was switched off, and the report says so.
  abbrev pub SwitchedOff : Role → Pair W → OutputOffReport → Type 0
  SwitchedOff role p report =
      (e : Endpoint) × ((slot role p).endpoint ≡ some e)
      × Switched e (is_legacy_source (slot role p).model)
      × (report.output_off_verified ≡ true)

  -- What a successful check of the output gives.
  verify_and_zero-off :
      (e : Endpoint) (legacy : Bool) (deadline : ℕ) (p : Pair W) (report : OutputOffReport)
      → (verify_and_zero x e legacy deadline p).1 ≡ ok report
      → (reply : Text) × (output : Text) × (w : W) × ((request_before x e "QUERY"
            (output_query legacy)
            deadline
            p.world).1
          ≡ ok reply)
        × (read_output legacy reply ≡ ok output)
        × (is_off output ≡ true)
        × ((verify_and_zero x e legacy deadline p).0 ≡ record p { world = w })
        × (report.output_off_verified ≡ true)
  unfolding verify_and_zero zero_level
  verify_and_zero-off e legacy deadline p report h =
      let asked = request_before x e "QUERY" (output_query legacy) deadline p.world in
      elim (Result-cases asked.1) [
        | inr (e', r) ↦ absurd (ground arith)
        | inl (reply, r) ↦ elim (Result-cases (read_output legacy reply)) [
          | inr (e', q) ↦ absurd (ground arith)
          | inl (output, q) ↦ elim (Bool-cases (is_off output)) [
            | inr on ↦ absurd (ground arith)
            | inl off ↦ (
              reply,
              output,
              (request_before x e "WRITE" (zero_command legacy) deadline asked.0).0,
              r,
              q,
              off,
              ground arith,
              ground arith,
            )
          ]
        ]
      ]

  -- The dispatch of the command, and the endpoint that it went to.
  dispatch-sent :
      (role : Role) (deadline : ℕ) (p : Pair W)
      → (output_off_dispatch x role deadline p).1 ≡ ok tt
      → (e : Endpoint) × (sent : Text) × ((slot role p).endpoint ≡ some e)
        × ((request_before x e "WRITE"
              (off_command (is_legacy_source (slot role p).model))
              deadline
              p.world).1
            ≡ ok sent)
        × ((output_off_dispatch x role deadline p).0 ≡ record p {
          world =
              (request_before x e "WRITE"
                (off_command (is_legacy_source (slot role p).model))
                deadline
                p.world).0;
        })
  unfolding output_off_dispatch endpoint_of
  dispatch-sent role deadline p h = elim (Option-cases (slot role p).endpoint) [
    | inl q ↦ absurd (ground arith)
    | inr (e, q) ↦
        let legacy = is_legacy_source (slot role p).model in
        elim (Result-cases (request_before x e "WRITE" (off_command legacy) deadline p.world).1) [
          | inr (e', r) ↦ absurd (ground arith)
          | inl (sent, r) ↦ (e, sent, q, r, ground arith)
        ]
  ]

  verify_and_zero-of_role :
      (role : Role) (deadline : ℕ) (p : Pair W) (e : Endpoint)
      → (slot role p).endpoint ≡ some e
      → output_off_verify_and_zero x role deadline p
        ≡ verify_and_zero x e (is_legacy_source (slot role p).model) deadline p
  unfolding output_off_verify_and_zero endpoint_of
  verify_and_zero-of_role role deadline p e q = ground arith

  -- `SwitchedOff` at a pair that differs in the world only.
  SwitchedOff-world :
      (role : Role) (p : Pair W) (w : W) (report : OutputOffReport)
      → SwitchedOff role p report
      → SwitchedOff role (record p { world = w }) report
  SwitchedOff-world role p w report (e, at, switched, verified) = (
    e,
    ap (λ (s : Slot). s.endpoint) (slot-world role p w) ∙ at,
    subst (λ (s : Slot). Switched e (is_legacy_source s.model)) (sym (slot-world role p w))
        switched,
    verified,
  )

  once-verify :
      (role : Role) (deadline : ℕ) (p : Pair W) (u : Unit {0})
      → (output_off_dispatch x role deadline p).1 ≡ ok u
      → output_off_once x role deadline p
        ≡ output_off_verify_and_zero x role deadline (output_off_dispatch x role deadline p).0
  unfolding output_off_once
  once-verify role deadline p u r = ground arith

  output_off_once-SwitchedOff :
      (role : Role) (deadline : ℕ) (p : Pair W) (report : OutputOffReport)
      → (output_off_once x role deadline p).1 ≡ ok report
      → SwitchedOff role (output_off_once x role deadline p).0 report
  unfolding output_off_once
  output_off_once-SwitchedOff role deadline p report h =
      elim (Result-cases (output_off_dispatch x role deadline p).1) [
        | inr (e', r) ↦ absurd (ground arith)
        | inl (u, r) ↦
            let (e, sent, at, commanded, moved) = dispatch-sent role deadline p r in
            let legacy = is_legacy_source (slot role p).model in
            let w₁ = (request_before x e "WRITE" (off_command legacy) deadline p.world).0 in
            let p₁ : Pair W = record p { world = w₁ } in
            let same_slot = slot-world role p w₁ in
            let there : (slot role p₁).endpoint ≡ some e =
              ap (λ (s : Slot). s.endpoint) same_slot ∙ at in
            let run : output_off_verify_and_zero x role deadline p₁
                ≡ verify_and_zero x e legacy deadline p₁ =
              verify_and_zero-of_role role deadline p₁ e there
              ∙ ap (λ (s : Slot). verify_and_zero x e (is_legacy_source s.model) deadline p₁)
                  same_slot in
            let all_run : output_off_once x role deadline p
                ≡ verify_and_zero x e legacy deadline p₁ =
              once-verify role deadline p u r
              ∙ ap (output_off_verify_and_zero x role deadline) moved
              ∙ run in
            let (reply, output, w, answered, told, off, ended, verified) =
              verify_and_zero-off e legacy deadline p₁ report (ap (λ r. r.1) (sym all_run) ∙ h) in
            rw (ap (λ r. r.0) all_run ∙ ended) (
              SwitchedOff-world role p w report (
                e,
                at,
                record {
                  before = p.world;
                  deadline = deadline;
                  sent = sent;
                  reply = reply;
                  output = output;
                  commanded = commanded;
                  answered = answered;
                  told = told;
                  off = off;
                },
                verified,
              ))
      ]

  -- A run that gives a report has switched the role off.
  abbrev pub Confirms : Role → Pair W × Result OutputOffReport Fault → Type 0
  Confirms role (p, ok report) = SwitchedOff role p report
  Confirms role (p, err e) = Unit {0}

  Confirms-intro :
      (role : Role) (m : Pair W × Result OutputOffReport Fault)
      → ((report : OutputOffReport) → m.1 ≡ ok report → SwitchedOff role m.0 report)
      → Confirms role m
  Confirms-intro role (p, ok report) h = h report refl
  Confirms-intro role (p, err e) h = tt

  -- A run with another one in the case of an error.
  Confirms-or_else :
      (role : Role) (m : Pair W × Result OutputOffReport Fault)
      (k : Fault → Pair W → Pair W × Result OutputOffReport Fault)
      → Confirms role m
      → ((e : Fault) (p : Pair W) → Confirms role (k e p))
      → Confirms role (elim m.1 [ ok report ↦ (m.0, ok report) | err e ↦ k e m.0 ])
  Confirms-or_else role (p, ok report) k h each = h
  Confirms-or_else role (p, err e) k h each = each e p

  -- A run after a step without a report.
  Confirms-after :
      (role : Role) (m : Pair W × Result (Unit {0}) Fault)
      (k : Pair W → Pair W × Result OutputOffReport Fault)
      (k' : Fault → Pair W → Pair W × Result OutputOffReport Fault)
      → ((p : Pair W) → Confirms role (k p))
      → ((e : Fault) (p : Pair W) → Confirms role (k' e p))
      → Confirms role (elim m.1 [ ok _ ↦ k m.0 | err e ↦ k' e m.0 ])
  Confirms-after role (p, ok _) k k' h each = h p
  Confirms-after role (p, err e) k k' h each = each e p

  output_off_once-Confirms :
      (role : Role) (deadline : ℕ) (p : Pair W) → Confirms role (output_off_once x role deadline p)
  output_off_once-Confirms role deadline p =
      Confirms-intro role (output_off_once x role deadline p)
        (λ report h. output_off_once-SwitchedOff role deadline p report h)

  recover_loop-Confirms :
      (attempts : ℕ) (role : Role) (deadline : ℕ) (last : Fault) (p : Pair W)
      → Confirms role (recover_loop x attempts role deadline last p)
  unfolding recover_loop recover_once
  recover_loop-Confirms zero role deadline last p = tt
  recover_loop-Confirms (suc attempts) role deadline last p =
      elim (Bool-cases (leb deadline (x.now p.world))) [
        | inl late ↦ rw late tt
        | inr early ↦ rw early (
            Confirms-or_else role (recover_once x role deadline p)
              (λ e p'. recover_loop x attempts role deadline e p')
              (Confirms-after role (replace_source_helper x role deadline p)
                (output_off_once x role deadline) (λ e p'. (p', err e))
                (output_off_once-Confirms role deadline) (λ e p'. tt))
              (λ e p'. recover_loop-Confirms attempts role deadline e p'))
      ]

  output_off_with_recovery-Confirms :
      (role : Role) (deadline : ℕ) (p : Pair W)
      → Confirms role (output_off_with_recovery x role deadline p)
  unfolding output_off_with_recovery output_off_recover
  output_off_with_recovery-Confirms role deadline p =
      Confirms-or_else role (output_off_once x role deadline p) (output_off_recover x role deadline)
        (output_off_once-Confirms role deadline p) (recover_loop-Confirms 2 role deadline)

  shut_down-Confirms :
      (role : Role) (deadline : ℕ) (p : Pair W) → Confirms role (shut_down x role deadline p)
  unfolding shut_down output_off_recover
  shut_down-Confirms role deadline p =
      Confirms-after role (check_before_off x role (min deadline (x.now p.world + 5000000000)) p)
        (output_off_with_recovery x role deadline) (output_off_recover x role deadline)
        (output_off_with_recovery-Confirms role deadline) (recover_loop-Confirms 2 role deadline)

  mark_failed-Confirms :
      (role : Role) (m : Pair W × Result OutputOffReport Fault)
      → Confirms role m
      → Confirms role (mark_failed x m.1 m.0, m.1)
  unfolding mark_failed
  mark_failed-Confirms role (p, ok report) h = h
  mark_failed-Confirms role (p, err e) h = tt

  -- A report of a forced output-off comes only from a source that was sent the command to switch off
  -- and whose very next reply told that its output is off, over the endpoint that the role has
  -- afterwards; and the report says that this was verified.
  pub force_output_off_role-Confirms :
      (role : Role) (p : Pair W) → Confirms role (force_output_off_role x role p)
  unfolding force_output_off_role
  force_output_off_role-Confirms role p = elim (Bool-cases (is_source_role role)) [
    | inr other ↦ rw other tt
    | inl ours ↦ rw ours (elim (Bool-cases (is_connected role p)) [
      | inr absent ↦ rw absent tt
      | inl there ↦ rw there (
          let deadline = x.now p.world + 28000000000 in
          mark_failed-Confirms role (shut_down x role deadline p)
            (shut_down-Confirms role deadline p))
    ])
  ]
