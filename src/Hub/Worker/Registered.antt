-- ===== src/Hub/Worker/Registered.antt =====
-- The worker of crates/instrument-hub/src/server.rs keeps no owner without a session, and stops with
-- no owner at all.
use kohdalab_iv.Common.{
  ℕ, ◌+◌, ◌-◌, ◌≡◌, refl, inl, inr, String, Bool, true, false, none, some, List, [], ◌∷◌, map,
  arith, eq_iff, Option-cases,
}
use kohdalab_iv.Common.Map.{lookup}
use kohdalab_iv.Hub.Controller.{Controller}
use kohdalab_iv.Hub.Journal.{Disk}
use kohdalab_iv.Hub.State.{Owner, Core, from_millis}
use kohdalab_iv.Hub.Core.{disconnect}
use kohdalab_iv.Hub.Core.Shutdown.{disconnect-clears, request-owner}
use kohdalab_iv.Hub.Sessions.{
  Sessions, find_app, is_registered, forget, find_app-is_registered, is_registered-register,
  is_registered-forget,
}
use kohdalab_iv.Hub.Worker.{
  Worker, Observed, Event, register_client, command, Command, disconnect_all, lost_sessions, sweep,
  answer, dispatch, serve, iterate, finish, select, fill,
}

module _ {B D : Type 0} (c : Controller B) (d : Disk D) where
  -- Every owner is a registered session.
  abbrev pub Registered : Core B D → Sessions → Type 0
  Registered core sessions =
      (a : ℕ) (o : Owner) → lookup a core.owners ≡ some o → is_registered o.session sessions ≡ true

  disconnect-Registered :
      (i : String) (lost : Bool) (core : Core B D) (sessions : Sessions)
      → Registered core sessions
      → Registered (disconnect c d i lost core).0 (forget i sessions)
  disconnect-Registered i lost core sessions v a o e =
      let (other, before) = disconnect-clears c d i lost core a o e in
      ground (
        arith,
        v a o before,
        is_registered-forget i o.session sessions,
        eq_iff o.session i,
        eq_iff i o.session,
        other,
      )

  disconnect_all-Registered :
      (is : List String) (core : Core B D) (sessions : Sessions)
      → Registered core sessions
      → Registered (disconnect_all c d is core sessions).0 (disconnect_all c d is core sessions).1
  unfolding disconnect_all
  disconnect_all-Registered [] core sessions v = v
  disconnect_all-Registered (i ∷ is) core sessions v =
      disconnect_all-Registered is _ _ (disconnect-Registered i true core sessions v)

  answer-Registered :
      (o : Observed) (sessions : Sessions) (m : Command) (core : Core B D)
      → Registered core sessions
      → Registered (answer c d o sessions m core).0 sessions
  unfolding answer
  answer-Registered o sessions m core v a owner e =
      elim (Option-cases (find_app m.session sessions)) [
        | inl gone ↦ v a owner (rw (gone, answer) at e)
        | inr (app, here) ↦
            let limit = m.received + from_millis m.envelope.timeout_ms in
            ground (
              arith,
              v a owner,
              find_app-is_registered m.session sessions here,
              request-owner c d m.session app m.envelope.request (limit - o.now_at_request) core a
                  owner,
            )
      ]

  dispatch-Registered :
      (o : Observed) (e : Event) (w : Worker B D)
      → Registered w.core w.sessions
      → Registered (dispatch c d o e w).0.core (dispatch c d o e w).0.sessions
  unfolding dispatch
  dispatch-Registered o (register_client i app) w v a owner e =
      ground (arith, v a owner e, is_registered-register i owner.session app w.sessions)
  dispatch-Registered o (command m) w v a owner e =
      answer-Registered o w.sessions m w.core v a owner e

  serve-Registered :
      (o : Observed) (w : Worker B D)
      → Registered w.core w.sessions
      → Registered (serve c d o w).0.core (serve c d o w).0.sessions
  unfolding serve
  serve-Registered o w v =
      let q = fill w.pending w.inbox in
      elim (Option-cases (select w.sessions q.0)) [
        | inl idle ↦ rw (idle, serve) v
        | inr ((e, rest), taken) ↦
            rw (taken, serve) (dispatch-Registered o e (record w { pending = rest; inbox = q.1 }) v)
      ]

  -- An iteration of the worker keeps every owner's session registered: a lost client's instruments
  -- are released before its session is forgotten, and only a registered session can become an owner.
  pub iterate-Registered :
      (o : Observed) (w : Worker B D) (a : ℕ) (owner : Owner)
      → Registered w.core w.sessions
      → lookup a (iterate c d o w).0.core.owners ≡ some owner
      → is_registered owner.session (iterate c d o w).0.sessions ≡ true
  unfolding iterate sweep
  iterate-Registered o w a owner v e =
      serve-Registered o (sweep c d o w)
        (disconnect_all-Registered (lost_sessions o.alive_at_sweep w.sessions) w.core w.sessions v)
        a owner e

  disconnect_all-unregisters :
      (is : Sessions) (core : Core B D) (sessions : Sessions)
      → ((j : String) → is_registered j is ≡ false → is_registered j sessions ≡ false)
      → (j : String)
      → is_registered j (disconnect_all c d (map (λ e. e.0) is) core sessions).1 ≡ false
  unfolding disconnect_all is_registered
  disconnect_all-unregisters [] core sessions h j = h j refl
  disconnect_all-unregisters ((i, app) ∷ is) core sessions h j =
      disconnect_all-unregisters is (disconnect c d i true core).0 (forget i sessions)
        (λ k f. ground (arith, is_registered-forget i k sessions, h k, f)) j

  -- When the worker stops, every session is disconnected and no address has an owner.
  pub finish-no_owners :
      (w : Worker B D) (a : ℕ)
      → Registered w.core w.sessions
      → lookup a (finish c d w).owners ≡ none
  unfolding finish
  finish-no_owners w a v =
      let ids = map (λ (e : String × String). e.0) w.sessions in
      elim (Option-cases (lookup a (disconnect_all c d ids w.core w.sessions).0.owners)) [
        | inl free ↦ free
        | inr (o, owned) ↦ absurd (
            ground (
              arith,
              disconnect_all-Registered ids w.core w.sessions v a o owned,
              disconnect_all-unregisters w.sessions w.core w.sessions (λ j f. f) o.session,
            ))
      ]
