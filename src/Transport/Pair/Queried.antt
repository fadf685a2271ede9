-- ===== src/Transport/Pair/Queried.antt =====
-- `query_recorded` of `DevicePair` in crates/iv-transport/src/lib.rs against `query`.
use kohdalab_iv.Common.Exec.{◌>>◌}
use kohdalab_iv.Common.{
  ◌≡◌, ap, inl, inr, Bool, none, some, [], arith, Result, ok, err, Result-cases, Option-cases,
}
use kohdalab_iv.Common.Text.{Text}
use kohdalab_iv.Common.Float.{Float}
use kohdalab_iv.Transport.Instruments.{Role}
use kohdalab_iv.Transport.Fault.{Fault, not_connected}
use kohdalab_iv.Transport.Drivers.{query}
use kohdalab_iv.Transport.Drivers.Recording.{Log, recording}
use kohdalab_iv.Transport.Drivers.Recording.Equivalence.{query-recording}
use kohdalab_iv.Transport.Pair.{Pair, Endpoint, Sessions, slot, endpoint_of}
use kohdalab_iv.Transport.Pair.Endpoints.{
  io_of, ensure_usable, validate_recovery, is_over_usb, discard_of, set_discard, query_endpoint,
  query_usable, query_role,
}

module _ {W L : Type 0} (x : Sessions W L) (in_bounds : Text → Bool) where
  -- The pair after a run of a driver, with its result and its exchanges.
  abbrev concluded :
      Role → Pair W → (W × Log) × (Bool × Result Text Fault) → (Pair W × Result Text Fault) × Log
  concluded role p ((w, log), (discard, r)) =
      ((set_discard x role discard (record p { world = w }), r), log)

  unfoldable pub query_endpoint_recorded :
      Role → Endpoint → Text → Pair W → (Pair W × Result Text Fault) × Log
  query_endpoint_recorded role e command p =
      let s = slot role p in
      concluded role p (
        query (recording (io_of x e)) in_bounds role s.model (is_over_usb s.kind)
          (discard_of x role p) command (p.world, []))

  unfoldable pub query_recorded : Role → Text → Pair W → (Pair W × Result Text Fault) × Log
  query_recorded role command p =
      let (p', r) = (ensure_usable x >> validate_recovery x role) p in
      elim r [
        | err fault ↦ ((p', err fault), [])
        | ok _ ↦ elim (slot role p').endpoint [
          | none ↦ ((p', err not_connected), [])
          | some e ↦ query_endpoint_recorded role e command p'
        ]
      ]

  module _ {F : Type 0} (f : Float F) where
    query_endpoint_recorded-query :
        (role : Role) (e : Endpoint) (command : Text) (p : Pair W)
        → (query_endpoint_recorded role e command p).0
          ≡ query_endpoint x f in_bounds role e command p
    unfolding query_endpoint_recorded query_endpoint
    query_endpoint_recorded-query role e command p =
        let s = slot role p in
        let (kept, same, real) =
          query-recording (io_of x e) in_bounds role s.model (is_over_usb s.kind)
            (discard_of x role p) command p.world [] in
        ap (λ (m : (W × Log) × (Bool × Result Text Fault)). (concluded role p m).0) same

    -- A recorded query leaves the pair as the query does, with the same result.
    pub query_recorded-query :
        (role : Role) (command : Text) (p : Pair W)
        → (query_recorded role command p).0 ≡ query_role x f in_bounds role command p
    unfolding query_recorded query_role query_usable endpoint_of
    query_recorded-query role command p = elim (Result-cases (ensure_usable x p).1) [
      | inr (fault, a) ↦ ground arith
      | inl (u, a) ↦
          let p₁ = (ensure_usable x p).0 in
          let p₂ = (validate_recovery x role p₁).0 in
          elim (Result-cases (validate_recovery x role p₁).1) [
            | inr (fault, b) ↦ ground arith
            | inl (u', b) ↦ elim (Option-cases (slot role p₂).endpoint) [
              | inl absent ↦ ground arith
              | inr (e, there) ↦ ground (arith, query_endpoint_recorded-query role e command p₂)
            ]
          ]
    ]
