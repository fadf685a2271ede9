-- ===== src/Transport/Drivers/Recording/Equivalence.antt =====
-- A recorded query of crates/iv-transport/src/lib.rs against a plain one.
use mathlib.Core.List.{append_assoc, append-nil}
use kohdalab_iv.Common.Exec.{Exec, ◌>>=◌, pure, fail, lift}
use kohdalab_iv.Common.{
  ℕ, zero, suc, ◌+◌, ◌==◌, ◌≡◌, refl, sym, ap, subst, ◌∙◌, String, Bool, true, false, [], ◌∷◌, ◌++◌,
  if◌then◌else◌, ltb, Result, ok, err,
}
use kohdalab_iv.Common.Text.{Text, text_of, text_eq, byte_length}
use Prim.Native.Nat.{bit_and}
use kohdalab_iv.Transport.Replies.{numeric_reading, panel_value, legacy_output, legacy_status}
use kohdalab_iv.Catalog.{InstrumentDialect, scpi, yokogawa7651, adc7461, agilent34401, simulation}
use kohdalab_iv.Transport.Fault.{
  Fault, unsupported_model, unsupported_command, incomplete_panel, oversized_panel,
}
use kohdalab_iv.Transport.Instruments.{Role}
use kohdalab_iv.Transport.Commands.{canonical}
use kohdalab_iv.Transport.Drivers.{
  InstrumentIo, panel_rounds, legacy_panel, panel_field, legacy_query, adc_read, adc_reading,
  adc_error, adc_query, query_in, query, dialect, with_flag, has_end, from_option, function_name,
  panel_head, terminated,
}
use kohdalab_iv.Transport.Drivers.Recording.{
  Log, recording, exchange_of, waited, Leads, Leads-append, requested, requested_before, pause,
}

module _ {S : Type 0} (io : InstrumentIo S) where
  -- The recorded run `b` of what gives `a` from the state `s`, with the log `log`.
  abbrev Recorded : {A : Type 0} → S → Log → S × A → (S × Log) × A → Type 0
  Recorded s log a b = (kept : Log) × (b ≡ ((a.0, log ++ kept), a.1)) × Leads io s kept a.0

  abbrev Same : {A : Type 0} → Exec S Fault A → Exec (S × Log) Fault A → Type 0
  Same m m' = (s : S) (log : Log) → Recorded s log (m s) (m' (s, log))

  Recorded-none : {A : Type 0} (s : S) (log : Log) (a : A) → Recorded s log (s, a) ((s, log), a)
  Recorded-none s log a = ([], ap (λ (l : Log). ((s, l), a)) (sym (append-nil log)), refl)

  Same-pure : {A : Type 0} (a : A) → Same (pure a) (pure a)
  Same-pure a s log = Recorded-none s log (ok a)

  Same-lift : {A : Type 0} (r : Result A Fault) → Same (lift r) (lift r)
  Same-lift r s log = Recorded-none s log r

  Same-fail : {A : Type 0} (e : Fault) → Same {A = A} (fail e) (fail e)
  Same-fail e s log = Recorded-none s log (err e)

  -- More exchanges after those of the first part.
  Recorded-append :
      {A : Type 0} (s s' : S) (log first : Log) (a : S × A) (b : (S × Log) × A)
      → Leads io s first s'
      → Recorded s' (log ++ first) a b
      → Recorded s log a b
  Recorded-append s s' log first a b real (kept, same, really) = (
    first ++ kept,
    same ∙ ap (λ (l : Log). ((a.0, l), a.1)) (append_assoc log first kept),
    Leads-append io first kept s s' a.0 real really,
  )

  Same-bind :
      {A B : Type 0} (m : Exec S Fault A) (m' : Exec (S × Log) Fault A) (k : A → Exec S Fault B)
      (k' : A → Exec (S × Log) Fault B)
      → Same m m'
      → ((a : A) → Same (k a) (k' a))
      → Same (m >>= k) (m' >>= k')
  Same-bind {A} {B} m m' k k' h hk s log =
      let (kept, same, real) = h s log in
      subst
        (λ (x : (S × Log) × Result A Fault).
          Recorded {A = Result B Fault} s log ((m >>= k) s)
            (elim x.1 [ ok a ↦ k' a x.0 | err e ↦ (x.0, err e) ]))
        (sym same) (continue (m s).0 (m s).1 kept real)
    where
      continue :
          (s' : S) (r : Result A Fault) (kept : Log)
          → Leads io s kept s'
          → Recorded {A = Result B Fault} s log
              (elim r [ ok a ↦ k a s' | err e ↦ (s', err e) ])
              (elim r [ ok a ↦ k' a (s', log ++ kept) | err e ↦ ((s', log ++ kept), err e) ])
      continue s' (ok a) kept real =
          Recorded-append s s' log kept (k a s') (k' a (s', log ++ kept)) real
            (hk a s' (log ++ kept))
      continue s' (err e) kept real = (kept, refl, real)

  Same-if :
      {A : Type 0} (b : Bool) (m n : Exec S Fault A) (m' n' : Exec (S × Log) Fault A)
      → Same m m'
      → Same n n'
      → Same (if b then m else n) (if b then m' else n')
  Same-if true m n m' n' h k = h
  Same-if false m n m' n' h k = k

  Same-request :
      (op : String) (command : Text)
      → Same (io.request op command) ((recording io).request op command)
  unfolding recording
  Same-request op command s log =
      let (s', r) = io.request op command s in
      (exchange_of op command r ∷ [], refl, (s', requested op command s, refl))

  Same-request_before :
      (op : String) (command : Text) (deadline : ℕ)
      → Same
          (io.request_before op command deadline)
          ((recording io).request_before op command deadline)
  unfolding recording
  Same-request_before op command deadline s log =
      let (s', r) = io.request_before op command deadline s in
      (exchange_of op command r ∷ [], refl, (s', requested_before op command deadline s, refl))

  -- What follows a wait.
  Recorded-wait :
      {A : Type 0} (duration : ℕ) (m : Exec S Fault A) (m' : Exec (S × Log) Fault A)
      → Same m m'
      → Same (λ s. m (io.wait duration s)) (λ e. m' ((recording io).wait duration e))
  unfolding recording
  Recorded-wait duration m m' h s log =
      let later = log ++ waited duration ∷ [] in
      Recorded-append s (io.wait duration s) log (waited duration ∷ []) (m (io.wait duration s))
        (m' (io.wait duration s, later)) (io.wait duration s, pause duration s, refl)
        (h (io.wait duration s) later)

  panel_rounds-Same :
      (rounds deadline : ℕ) (panel : Text)
      → Same
          (panel_rounds io rounds deadline panel)
          (panel_rounds (recording io) rounds deadline panel)
  unfolding panel_rounds
  panel_rounds-Same zero deadline panel = Same-fail incomplete_panel
  panel_rounds-Same (suc rounds) deadline panel =
      Same-if (has_end panel) (pure panel) _ (pure panel) _ (Same-pure panel) (
        Same-if (ltb 4096 (byte_length panel)) (fail oversized_panel) _ (fail oversized_panel) _
          (Same-fail oversized_panel)
          (Same-bind (io.request_before "READ" [] deadline)
            ((recording io).request_before "READ" [] deadline)
            (λ reply. panel_rounds io rounds deadline (panel ++ 10 ∷ reply))
            (λ reply. panel_rounds (recording io) rounds deadline (panel ++ 10 ∷ reply))
            (Same-request_before "READ" [] deadline)
            (λ reply. panel_rounds-Same rounds deadline (panel ++ 10 ∷ reply))))

  legacy_panel-Same : Same (legacy_panel io) (legacy_panel (recording io))
  unfolding legacy_panel recording
  legacy_panel-Same s log =
      let deadline = io.now s + 6000000000 in
      Same-bind (io.request_before "QUERY" (text_of "OS;E\n") deadline)
        ((recording io).request_before "QUERY" (text_of "OS;E\n") deadline)
        (panel_rounds io 5 deadline) (panel_rounds (recording io) 5 deadline)
        (Same-request_before "QUERY" (text_of "OS;E\n") deadline) (panel_rounds-Same 5 deadline) s
        log

  -- A pure step after an action.
  Same-map :
      {A B : Type 0} (m : Exec S Fault A) (m' : Exec (S × Log) Fault A) (g : A → Result B Fault)
      → Same m m'
      → Same (m >>= λ a. lift (g a)) (m' >>= λ a. lift (g a))
  Same-map m m' g h = Same-bind m m' (λ a. lift (g a)) (λ a. lift (g a)) h (λ a. Same-lift (g a))

  -- A request whose reply is read, perhaps in two steps.
  Same-read :
      {A B : Type 0} (op : String) (command : Text) (g : Text → Result A Fault) (k : A → B)
      → Same
          (io.request op command >>= λ reply. lift (g reply) >>= λ a. pure (k a))
          ((recording io).request op command >>= λ reply. lift (g reply) >>= λ a. pure (k a))
  Same-read op command g k =
      Same-bind (io.request op command) ((recording io).request op command)
        (λ reply. lift (g reply) >>= λ a. pure (k a)) (λ reply. lift (g reply) >>= λ a. pure (k a))
        (Same-request op command)
        (λ reply. Same-map (lift (g reply)) (lift (g reply)) (λ a. ok (k a)) (Same-lift (g reply)))

  panel_field-Same : (key : ℕ) → Same (panel_field io key) (panel_field (recording io) key)
  unfolding panel_field
  panel_field-Same key =
      Same-map (legacy_panel io) (legacy_panel (recording io))
        (λ panel. from_option (panel_value key panel)) legacy_panel-Same

  module _ (in_bounds : Text → Bool) where
    legacy_query-Same :
        (upper : Text)
        → Same (legacy_query io in_bounds upper) (legacy_query (recording io) in_bounds upper)
    unfolding legacy_query
    legacy_query-Same upper =
        Same-if _ _ _ _ _
          (Same-map (legacy_panel io) (legacy_panel (recording io)) (λ panel. ok (panel_head panel))
            legacy_panel-Same)
          (Same-if _ _ _ _ _
            (Same-map (panel_field io b'F') (panel_field (recording io) b'F') function_name
              (panel_field-Same b'F'))
            (Same-if _ _ _ _ _ (panel_field-Same b'R') (
              Same-if _ _ _ _ _
                (Same-map (io.request "QUERY" (text_of "OD;E\n"))
                  ((recording io).request "QUERY" (text_of "OD;E\n"))
                  (λ reply. from_option (numeric_reading in_bounds reply))
                  (Same-request "QUERY" (text_of "OD;E\n")))
                (Same-if _ _ _ _ _
                  (Same-read "QUERY" (text_of "OC;E\n") (λ reply. from_option (legacy_output reply))
                    (λ output. text_of (if output then "1" else "0")))
                  (Same-if _ _ _ _ _
                    (Same-read "QUERY" (text_of "OC;E\n")
                      (λ reply. from_option (legacy_status reply))
                      (λ status.
                        text_of
                          (if bit_and status 4 == 0 then "0,No error" else "1,7651 command error")))
                    (Same-fail unsupported_command))))))

    adc_read-Same :
        (over_usb : Bool)
        → Same (adc_read io in_bounds over_usb) (adc_read (recording io) in_bounds over_usb)
    unfolding adc_read
    adc_read-Same true =
        Recorded-wait 20000000
          (io.request "READ" [] >>= λ reply. lift (from_option (numeric_reading in_bounds reply)))
          ((recording io).request "READ" [] >>= λ reply.
            lift (from_option (numeric_reading in_bounds reply)))
          (Same-map (io.request "READ" []) ((recording io).request "READ" [])
            (λ reply. from_option (numeric_reading in_bounds reply)) (Same-request "READ" []))
    adc_read-Same false =
        Same-map (io.request "QUERY" (text_of "READ?\n"))
          ((recording io).request "QUERY" (text_of "READ?\n"))
          (λ reply. from_option (numeric_reading in_bounds reply))
          (Same-request "QUERY" (text_of "READ?\n"))

    Recorded-flag :
        (discard : Bool) (s : S) (log : Log) (a : S × Result Text Fault)
        (b : (S × Log) × Result Text Fault)
        → Recorded s log a b
        → Recorded {A = Bool × Result Text Fault} s log
            (with_flag io in_bounds discard a)
            (with_flag (recording io) in_bounds discard b)
    Recorded-flag discard s log a b (kept, same, real) =
        (kept, ap (with_flag (recording io) in_bounds discard) same, real)

    adc_reading-Same :
        (over_usb discard : Bool) (s : S) (log : Log)
        → Recorded s log
            (adc_reading io in_bounds over_usb discard s)
            (adc_reading (recording io) in_bounds over_usb discard (s, log))
    unfolding adc_reading
    adc_reading-Same over_usb false s log =
        Recorded-flag false s log _ _ (adc_read-Same over_usb s log)
    adc_reading-Same over_usb true s log =
        let (kept, same, real) = adc_read-Same over_usb s log in
        let (s', r) = adc_read io in_bounds over_usb s in
        subst
          (λ (x : (S × Log) × Result Text Fault).
            Recorded {A = Bool × Result Text Fault} s log (adc_reading io in_bounds over_usb true s)
              (elim x.1 [
                | err e ↦ (x.0, (true, err e))
                | ok _ ↦
                    with_flag (recording io) in_bounds false
                      (adc_read (recording io) in_bounds over_usb x.0)
              ]))
          (sym same) (continue s' r kept real)
      where
        continue :
            (s' : S) (r : Result Text Fault) (kept : Log)
            → Leads io s kept s'
            → Recorded {A = Bool × Result Text Fault} s log
                (elim r [
                  | err e ↦ (s', (true, err e))
                  | ok _ ↦ with_flag io in_bounds false (adc_read io in_bounds over_usb s')
                ])
                (elim r [
                  | err e ↦ ((s', log ++ kept), (true, err e))
                  | ok _ ↦
                      with_flag
                        (recording io)
                        in_bounds
                        false
                        (adc_read (recording io) in_bounds over_usb (s', log ++ kept))
                ])
        continue s' (err e) kept real = (kept, refl, real)
        continue s' (ok _) kept real =
            Recorded-append s s' log kept _ _ real
              (Recorded-flag false s' (log ++ kept) _ _ (adc_read-Same over_usb s' (log ++ kept)))

    adc_error-Same :
        (over_usb : Bool)
        → Same (adc_error io in_bounds over_usb) (adc_error (recording io) in_bounds over_usb)
    unfolding adc_error
    adc_error-Same true =
        Same-bind (io.request "WRITE" (text_of "ERR?\n"))
          ((recording io).request "WRITE" (text_of "ERR?\n"))
          (λ _ s. io.request "READ" [] (io.wait 20000000 s))
          (λ _ e. (recording io).request "READ" [] ((recording io).wait 20000000 e))
          (Same-request "WRITE" (text_of "ERR?\n"))
          (λ _.
            Recorded-wait 20000000 (io.request "READ" []) ((recording io).request "READ" [])
              (Same-request "READ" []))
    adc_error-Same false = Same-request "QUERY" (text_of ":SYSTem:ERRor?\n")

    Recorded-if :
        (b : Bool) (s : S) (log : Log) (x y : S × (Bool × Result Text Fault))
        (x' y' : (S × Log) × (Bool × Result Text Fault))
        → Recorded s log x x'
        → Recorded s log y y'
        → Recorded {A = Bool × Result Text Fault} s log (if b then x else y) (if b then x' else y')
    Recorded-if true s log x y x' y' h k = h
    Recorded-if false s log x y x' y' h k = k

    adc_query-Same :
        (over_usb discard : Bool) (upper original : Text) (s : S) (log : Log)
        → Recorded s log
            (adc_query io in_bounds over_usb discard upper original s)
            (adc_query (recording io) in_bounds over_usb discard upper original (s, log))
    unfolding adc_query
    adc_query-Same over_usb discard upper original s log =
        Recorded-if (text_eq upper (text_of "READ?")) s log _ _ _ _
          (adc_reading-Same over_usb discard s log)
          (Recorded-flag discard s log _ _ (
            Same-if (text_eq upper (text_of "SYST:ERR?")) (adc_error io in_bounds over_usb)
              (io.request "QUERY" (terminated original))
              (adc_error (recording io) in_bounds over_usb)
              ((recording io).request "QUERY" (terminated original)) (adc_error-Same over_usb)
              (Same-request "QUERY" (terminated original)) s log))

    query_in-Same :
        (d : InstrumentDialect) (over_usb discard : Bool) (command : Text) (s : S) (log : Log)
        → Recorded s log
            (query_in io in_bounds d over_usb discard command s)
            (query_in (recording io) in_bounds d over_usb discard command (s, log))
    unfolding query_in
    query_in-Same yokogawa7651 over_usb discard command s log =
        Recorded-flag discard s log _ _ (legacy_query-Same (canonical command) s log)
    query_in-Same adc7461 over_usb discard command s log =
        adc_query-Same over_usb discard (canonical command) command s log
    query_in-Same scpi over_usb discard command s log =
        Recorded-flag discard s log _ _ (Same-request "QUERY" (terminated command) s log)
    query_in-Same agilent34401 over_usb discard command s log =
        Recorded-flag discard s log _ _ (Same-request "QUERY" (terminated command) s log)
    query_in-Same simulation over_usb discard command s log =
        Recorded-none s log (discard, err unsupported_model)

    -- A query through the recording interface is the plain query: the instrument's state, the discard
    -- flag and the result are the same. It appends to the log exactly the exchanges and waits that were
    -- carried out, in their order, with the results that they gave: each was carried out in the
    -- state that those before it left, and the last one left the state in which the query ends.
    pub query-recording :
        (role : Role) (model : String) (over_usb discard : Bool) (command : Text) (s : S)
        (log : Log)
        → (kept : Log) × (query
              (recording io)
              in_bounds
              role
              model
              over_usb
              discard
              command
              (s, log)
            ≡ (
              ((query io in_bounds role model over_usb discard command s).0, log ++ kept),
              (query io in_bounds role model over_usb discard command s).1,
            ))
          × Leads io s kept (query io in_bounds role model over_usb discard command s).0
    unfolding query
    query-recording role model over_usb discard command s log = by_dialect (dialect role model)
      where
        by_dialect :
            (r : Result InstrumentDialect Fault)
            → Recorded {A = Bool × Result Text Fault} s log
                (elim r [
                  | ok d ↦ query_in io in_bounds d over_usb discard command s
                  | err e ↦ (s, (discard, err e))
                ])
                (elim r [
                  | ok d ↦ query_in (recording io) in_bounds d over_usb discard command (s, log)
                  | err e ↦ ((s, log), (discard, err e))
                ])
        by_dialect (ok d) = query_in-Same d over_usb discard command s log
        by_dialect (err e) = Recorded-none s log (discard, err e)
