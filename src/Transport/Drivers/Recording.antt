-- ===== src/Transport/Drivers/Recording.antt =====
-- `RecordingEndpointIo` of crates/iv-transport/src/lib.rs: the drivers over an interface that keeps
-- every exchange.
pub mod Equivalence
use kohdalab_iv.Common.Exec.{Exec, ◌>>=◌, ◌>>◌, pure, fail, lift, gets}
use kohdalab_iv.Common.{
  ℕ, zero, suc, ◌+◌, ◌/◌, ◌≡◌, refl, sym, ap, subst, ◌∙◌, ◌⊎◌, inl, inr, String, Bool, true, false,
  ◌||◌, Option, none, some, List, [], ◌∷◌, ◌++◌, All, All-append, if◌then◌else◌, arith, Result, ok,
  err,
}
use kohdalab_iv.Common.Text.{Text, text_of, text_eq}
use kohdalab_iv.Common.Digits.{show_u64}
use kohdalab_iv.Transport.Fault.{Fault}
use kohdalab_iv.Transport.Drivers.{InstrumentIo}

pub record TransportExchange : Type 0 where
  pub operation : String
  pub command : Text
  pub response : Option Text
  pub error : Option Fault

-- `response` and `error` of a result.
unfoldable pub exchange_of : String → Text → Result Text Fault → TransportExchange
exchange_of op command (ok reply) = record {
  operation = op;
  command = command;
  response = some reply;
  error = none;
}
exchange_of op command (err e) = record {
  operation = op;
  command = command;
  response = none;
  error = some e;
}

-- The exchange that stands for a wait.
unfoldable pub waited : ℕ → TransportExchange
waited duration = record {
  operation = "WAIT";
  command = show_u64 (duration / 1000000) ++ text_of "ms";
  response = none;
  error = none;
}

abbrev pub Log : Type 0
Log = List TransportExchange

module _ {S : Type 0} (io : InstrumentIo S) where
  abbrev pub keep : String → Text → Log → S × Result Text Fault → (S × Log) × Result Text Fault
  keep op command log (s, r) = ((s, log ++ exchange_of op command r ∷ []), r)

  unfoldable pub recording : InstrumentIo (S × Log)
  recording = record {
    request = λ op command e. keep op command e.1 (io.request op command e.0);
    request_before =
        λ op command deadline e. keep op command e.1 (io.request_before op command deadline e.0);
    wait = λ duration e. (io.wait duration e.0, e.1 ++ waited duration ∷ []);
    now = λ e. io.now e.0;
  }

  -- An exchange that the interface below carries out, with the result that it gives, or a wait:
  -- from the state before it to the state after it.
  pub data IsStep : S → TransportExchange → S → Type 0 where
    requested :
        (op : String) (command : Text) (s : S)
        → IsStep s (exchange_of op command (io.request op command s).1) (io.request op command s).0
    requested_before :
        (op : String) (command : Text) (deadline : ℕ) (s : S)
        → IsStep s
            (exchange_of op command (io.request_before op command deadline s).1)
            (io.request_before op command deadline s).0
    pause : (duration : ℕ) (s : S) → IsStep s (waited duration) (io.wait duration s)

  -- The exchanges of a log, carried out one after the other, lead from one state to the other.
  abbrev pub Leads : S → Log → S → Type 0
  Leads s [] s' = s ≡ s'
  Leads s (e ∷ log) s' = (next : S) × IsStep s e next × Leads next log s'

  pub Leads-append :
      (first : Log) (log : Log) (s s' s'' : S)
      → Leads s first s'
      → Leads s' log s''
      → Leads s (first ++ log) s''
  Leads-append [] log s s' s'' same rest = subst (λ v. Leads v log s'') (sym same) rest
  Leads-append (e ∷ first) log s s' s'' (next, step, leads) rest =
      (next, step, Leads-append first log next s' s'' leads rest)
