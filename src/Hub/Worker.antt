-- ===== src/Hub/Worker.antt =====
-- The worker of `run` in crates/instrument-hub/src/server.rs: the one thread that owns the core. An
-- iteration of its loop is a function of its state and of what it observes: which clients are alive,
-- and the clock. `inbox` is the bounded channel that the readers fill.
pub mod Queue
pub mod Registered
use kohdalab_iv.Common.{
  ℕ, zero, suc, ◌+◌, ◌-◌, String, Bool, true, false, not, ◌&&◌, ◌||◌, Option, none, some, List, [],
  ◌∷◌, ◌++◌, leb, ltb, if◌then◌else◌, length, filter, map, str_eq, Result, ok, err,
}
use kohdalab_iv.Common.Text.{Text, text_of, text_eq}
use kohdalab_iv.Protocol.{
  Envelope, Request, transfer, claim, release, list, close, recover, status, ErrorCode, cancelled,
  deadline, connection_lost,
}
use kohdalab_iv.Hub.Controller.{Controller}
use kohdalab_iv.Hub.Journal.{Disk}
use kohdalab_iv.Hub.State.{Core, Response, from_millis}
use kohdalab_iv.Hub.Core.{request, disconnect}
use kohdalab_iv.Hub.Sessions.{Sessions, find_app, is_registered, register, forget}

pub record Command : Type 0 where
  pub session : String
  pub envelope : Envelope
  pub received : ℕ

pub data Event : Type 0 where
  register_client : String → String → Event
  command : Command → Event

-- What the worker observes in one iteration: the clients' `alive` flags when it looks for lost ones
-- and when it dispatches, and the two readings of the clock, in nanoseconds.
pub record Observed : Type 0 where
  pub alive_at_sweep : String → Bool
  pub alive_at_dispatch : String → Bool
  pub now_at_check : ℕ
  pub now_at_request : ℕ

pub record Worker (B D : Type 0) : Type 0 where
  pub core : Core B D
  pub sessions : Sessions
  pub pending : List Event
  pub inbox : List Event

-- The answer to a command: the session and the id that it carries, and the core's result.
pub record Answer : Type 0 where
  pub to : String
  pub id : ℕ
  pub result : Result Response ErrorCode

-- A write that switches an output off, in the form of either source dialect.
unfoldable pub is_off_request : Request → Bool
unfolding text_eq
is_off_request (transfer op a t payload) =
    str_eq op "WRITE"
    && (text_eq payload (text_of ":OUTP OFF\n") || text_eq payload (text_of "O0;E\n"))
is_off_request (claim a p) = false
is_off_request (release a) = false
is_off_request list = false
is_off_request close = false
is_off_request (recover a m) = false
is_off_request status = false

-- The events that pass the queue.
unfoldable pub is_safety : Sessions → Event → Bool
unfolding is_off_request
is_safety sessions (register_client i app) = false
is_safety sessions (command m) =
    is_registered m.session sessions && is_off_request m.envelope.request

-- `pending.iter().position(p)` and `pending.remove(..)` at once: the first event that passes, and
-- the others in order.
unfoldable pub remove_first : (Event → Bool) → List Event → Option (Event × List Event)
remove_first p [] = none
remove_first p (e ∷ es) =
    let rest = remove_first p es in
    if p e then some (e, es) else elim rest [ none ↦ none | some (f, fs) ↦ some (f, e ∷ fs) ]

unfoldable pub remove_head : List Event → Option (Event × List Event)
remove_head [] = none
remove_head (e ∷ es) = some (e, es)

unfoldable pub select : Sessions → List Event → Option (Event × List Event)
unfolding remove_first remove_head
select sessions pending = elim (remove_first (is_safety sessions) pending) [
  | none ↦ remove_head pending
  | some r ↦ some r
]

-- The ids of the clients that are no longer alive.
unfoldable pub lost_sessions : (String → Bool) → Sessions → List String
unfolding filter
lost_sessions alive sessions =
    map (λ e. e.0) (filter (λ (e : String × String). not (alive e.0)) sessions)

-- `while pending.len() < 64`: what `room` allows to move from the inbox.
unfoldable pub drain : ℕ → List Event → List Event → List Event × List Event
drain zero pending inbox = (pending, inbox)
drain (suc room) pending [] = (pending, [])
drain (suc room) pending (e ∷ inbox) = drain room (pending ++ (e ∷ [])) inbox

abbrev pub queue_limit : ℕ
queue_limit = 64

-- If nothing is pending the worker waits for one event first.
unfoldable pub fill : List Event → List Event → List Event × List Event
unfolding drain
fill [] [] = ([], [])
fill [] (e ∷ inbox) = drain (queue_limit - 1) (e ∷ []) inbox
fill (p ∷ pending) inbox = drain (queue_limit - length (p ∷ pending)) (p ∷ pending) inbox

module _ {B D : Type 0} (c : Controller B) (d : Disk D) where
  unfoldable pub disconnect_all : List String → Core B D → Sessions → Core B D × Sessions
  disconnect_all [] core sessions = (core, sessions)
  disconnect_all (i ∷ rest) core sessions =
      disconnect_all rest (disconnect c d i true core).0 (forget i sessions)

  unfoldable pub sweep : Observed → Worker B D → Worker B D
  unfolding disconnect_all
  sweep o w =
      let (core', sessions') =
        disconnect_all (lost_sessions o.alive_at_sweep w.sessions) w.core w.sessions in
      record w { core = core'; sessions = sessions' }

  -- The result of a command, and the core after it.
  unfoldable pub answer :
      Observed → Sessions → Command → Core B D → Core B D × Result Response ErrorCode
  answer o sessions m core =
      let limit = m.received + from_millis m.envelope.timeout_ms in
      elim (find_app m.session sessions) [
        | none ↦ (core, err connection_lost)
        | some app ↦
            if not (o.alive_at_dispatch m.session)
            then (core, err cancelled)
            else (if leb limit o.now_at_check
                then (core, err deadline)
                else request c d m.session app m.envelope.request (limit - o.now_at_request) core)
      ]

  unfoldable pub dispatch : Observed → Event → Worker B D → Worker B D × Option Answer
  unfolding answer
  dispatch o (register_client i app) w = (record w { sessions = register i app w.sessions }, none)
  dispatch o (command m) w =
      let (core', r) = answer o w.sessions m w.core in
      (record w { core = core' }, some (record { to = m.session; id = m.envelope.id; result = r }))

  -- The queue's part of an iteration: fill it, take an event, and handle it.
  unfoldable pub serve : Observed → Worker B D → Worker B D × Option Answer
  unfolding fill select dispatch
  serve o w =
      let (pending, inbox) = fill w.pending w.inbox in
      elim (select w.sessions pending) [
        | none ↦ (record w { pending = pending; inbox = inbox }, none)
        | some (e, rest) ↦ dispatch o e (record w { pending = rest; inbox = inbox })
      ]

  -- One iteration of the loop.
  unfoldable pub iterate : Observed → Worker B D → Worker B D × Option Answer
  unfolding sweep serve
  iterate o w = serve o (sweep o w)

  -- What follows the loop: every session that is left is disconnected.
  unfoldable pub finish : Worker B D → Core B D
  unfolding disconnect_all
  finish w = (disconnect_all (map (λ e. e.0) w.sessions) w.core w.sessions).0
