-- ===== src/Examples/TransportExamples.antt =====
-- The theorems on the drivers, the wire and the helper sessions at concrete inputs.
use kohdalab_iv.Transport.Replies.{trim}
use kohdalab_iv.Common.{
  String, ◌≡◌, refl, true, false, none, some, List, [], ◌∷◌, ◌++◌, arith, ok, err,
}
use kohdalab_iv.Common.Exec.{Exec}
use kohdalab_iv.Common.Text.{Text, text_of, text_eq, uppercase, trim_start_of, lines, byte_length}
use kohdalab_iv.Common.Float.{Float}
use kohdalab_iv.Protocol.{transfer, validate_request}
use kohdalab_iv.Transport.Instruments.{meter}
use kohdalab_iv.Transport.Fault.{Fault, timed_out, poisoned}
use kohdalab_iv.Transport.Commands.{source_write}
use kohdalab_iv.Transport.Drivers.{InstrumentIo, query, legacy_panel}
use kohdalab_iv.Transport.Drivers.Recording.{Log, recording, Leads}
use kohdalab_iv.Transport.Drivers.Recording.Equivalence.{query-recording}
use kohdalab_iv.Transport.Wire.{request_line}
use kohdalab_iv.Transport.Session.{
  Helper, Received, HelperSession, line, timeout, next_protocol_frame, request, exchange, send,
  read_reply, poison_if, next_line, is_scpi,
}
use kohdalab_iv.Transport.Session.Poisoning.{Call, perform, run, perform-poisoned}
use kohdalab_iv.Hub.Proxy.{forward, parse_line}
use kohdalab_iv.Hub.Proxy.Forwarding.{write, parse_line-request_line}

-- Numbers that nothing is known of.
abbrev pub no_numbers : Float (Unit {0})
no_numbers = record {
  literal = λ s. tt;
  parse = λ s. none;
  is_finite = λ a. true;
  has_fraction = λ a. false;
  le = λ a b. true;
  lt = λ a b. false;
  eq = λ a b. true;
  add = λ a b. tt;
  sub = λ a b. tt;
  mul = λ a b. tt;
  div = λ a b. tt;
  max = λ a b. tt;
  abs = λ a. tt;
  signum = λ a. tt;
  show_integer = λ a. [];
  show_scientific = λ a. [];
}

-- An instrument that answers with the texts of a list, one after the other.
abbrev pub answer : Exec (List Text) Fault Text
answer [] = ([], err timed_out)
answer (reply ∷ replies) = (replies, ok reply)

abbrev scripted : InstrumentIo (List Text)
scripted = record {
  request = λ op command. answer;
  request_before = λ op command deadline. answer;
  wait = λ duration s. s;
  now = λ s. 0;
}

abbrev switch_on : Text
switch_on = text_of " :outp on\n"

switched_on : source_write no_numbers switch_on ≡ ok (some (text_of "O1;E"))
unfolding source_write text_eq uppercase trim_start_of trim
switched_on = refl

-- A meter on USB whose first reading after a change of the level is thrown away.
query-recording_example :
    (kept : Log) × (query
        (recording scripted)
        (λ s. true)
        meter
        "ADCMT_7461A"
        true
        true
        (text_of "READ?")
        (text_of "+1.0E-3" ∷ text_of "+2.0E-3" ∷ [], [])
      ≡ (
        (
          (query scripted
              (λ s. true)
              meter
              "ADCMT_7461A"
              true
              true
              (text_of "READ?")
              (text_of "+1.0E-3" ∷ text_of "+2.0E-3" ∷ [])).0,
          [] ++ kept,
        ),
        (query scripted
            (λ s. true)
            meter
            "ADCMT_7461A"
            true
            true
            (text_of "READ?")
            (text_of "+1.0E-3" ∷ text_of "+2.0E-3" ∷ [])).1,
      ))
    × Leads scripted
        (text_of "+1.0E-3" ∷ text_of "+2.0E-3" ∷ [])
        kept
        (query scripted
          (λ s. true)
          meter
          "ADCMT_7461A"
          true
          true
          (text_of "READ?")
          (text_of "+1.0E-3" ∷ text_of "+2.0E-3" ∷ [])).0
query-recording_example =
    query-recording scripted (λ s. true) meter "ADCMT_7461A" true true (text_of "READ?")
      (text_of "+1.0E-3" ∷ text_of "+2.0E-3" ∷ []) []

abbrev panel_lines : List Text
panel_lines = text_of "MDL7651REV1.05" ∷ text_of "F1R4S1.0E0" ∷ text_of " END\r" ∷ []

abbrev panel : Text
panel = text_of "MDL7651REV1.05\nF1R4S1.0E0\n END\r"

panel_read : (legacy_panel scripted panel_lines).1 ≡ ok panel
unfolding legacy_panel lines text_eq trim byte_length
panel_read = refl

parse_line-request_line_example :
    (parse_line (λ p. none) (request_line (text_of "WRITE") 9 1500 (79 ∷ 10 ∷ []))
      ≡ ok (forward (transfer "WRITE" 9 1500 (79 ∷ 10 ∷ [])) 1500 false))
    × (validate_request (transfer "WRITE" 9 1500 (79 ∷ 10 ∷ [])) ≡ ok tt)
parse_line-request_line_example =
    parse_line-request_line (λ p. none) write 9 1500 (79 ∷ 10 ∷ []) (omega arith) (omega arith)
      (omega arith) (omega arith) (omega arith, (omega arith, tt)) (omega arith)

-- A helper that takes a line and then prints the lines of a list, and nothing after them.
abbrev printed : List Text → List Text × Received
printed [] = ([], timeout)
printed (text ∷ texts) = (texts, line text)

abbrev helper : Helper (List Text)
helper = record {
  send_line = λ texts text. (texts, true);
  receive = λ texts limit. printed texts;
  now = λ texts. 0;
  finish = λ texts. [];
  is_utf8 = λ s. true;
  policy_json = λ p. [];
}

abbrev session : List Text → HelperSession (List Text) (Unit {0})
session texts = record {
  process = texts;
  has_lines = true;
  lease = some tt;
  exit_address = 1;
  is_poisoned = false;
  is_closed = false;
  hub = false;
}

abbrev noisy : HelperSession (List Text) (Unit {0})
noisy = session (text_of "gpib: ready" ∷ text_of "KIV\tOK\t31" ∷ [])

abbrev call : String → Call
call op = record {
  operation = op;
  address = 9;
  timeout_ms = 5000;
  payload = 79 ∷ 67 ∷ [];
  limit = 6000000000;
}

-- The reply does not come.
silence : (perform helper (call "QUERY") (session [])).1 ≡ err timed_out
unfolding request exchange send read_reply poison_if next_protocol_frame next_line
silence = refl

perform-poisoned_example :
    perform helper
      (call "WRITE")
      (run helper (call "CLEAR" ∷ []) (perform helper (call "QUERY") (session [])).0)
    ≡ (run helper (call "CLEAR" ∷ []) (perform helper (call "QUERY") (session [])).0, err poisoned)
unfolding is_scpi
perform-poisoned_example =
    perform-poisoned helper (call "QUERY") (call "CLEAR" ∷ []) (call "WRITE") (session []) timed_out
      refl refl (omega arith) silence refl
