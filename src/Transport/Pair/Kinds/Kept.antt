-- ===== src/Transport/Pair/Kinds/Kept.antt =====
-- No role gets an instrument while `connect_model` of crates/iv-transport/src/lib.rs opens it.
use kohdalab_iv.Common.Exec.{Exec, ◌>>=◌, pure, lift, gets}
use kohdalab_iv.Common.{◌+◌, String, Bool, Option, none, some, [], Result, ok, err, ok_or}
use kohdalab_iv.Common.Text.{Text, text_of}
use kohdalab_iv.Transport.Instruments.{Role}
use kohdalab_iv.Transport.Resources.{ResourceKind, resource, parse, is_gpib, lock_key}
use kohdalab_iv.Transport.Identity.{verify_model}
use kohdalab_iv.Transport.Fault.{Fault, lease_missing, unsupported_model}
use kohdalab_iv.Transport.Drivers.{identify}
use kohdalab_iv.Transport.Pair.{Endpoint, Sessions, M, roles, in_world}
use kohdalab_iv.Transport.Pair.Endpoints.{io_of, lift_result}
use kohdalab_iv.Transport.Pair.Connecting.{
  parsed, bare, discover_visa, prefer, preferred_kind, official_kind, lease_for,
  open_single_endpoint, open_endpoint, claim_and_identify, accept_identity, identify_endpoint,
  reject, on_error, drop_endpoint, adapter_lease, share_or_open, find_endpoint, session_is_attached,
  is_native_gpib, address_of, ignore,
}
use kohdalab_iv.Transport.Pair.Kinds.{
  Shrunk-world, Shrinks, Shrinks-world, Shrinks-lift, Shrinks-gets, Shrinks-bind, Shrinks-if,
  Shrinks-after,
}

module _ {W L : Type 0} (x : Sessions W L) where
  pub discover_visa-Shrinks : Shrinks (discover_visa x)
  unfolding discover_visa
  discover_visa-Shrinks = record { shrunk = λ p. Shrunk-world p (x.discover_visa p.world).0 }

  pub prefer-Shrinks : (shared : Bool) (native : ResourceKind) → Shrinks (prefer x shared native)
  unfolding prefer
  prefer-Shrinks shared native = Shrinks-if _ (Shrinks-lift (ok (bare native))) (
      Shrinks-if _ (Shrinks-lift (ok native)) (
        Shrinks-bind (discover_visa x) (λ names. lift (official_kind native names))
          discover_visa-Shrinks (λ names. Shrinks-lift (official_kind native names))))

  pub preferred_kind-Shrinks : (name : Text) → Shrinks (preferred_kind x name)
  unfolding preferred_kind
  preferred_kind-Shrinks name =
      Shrinks-bind (lift (parsed (parse name)))
        (λ native. in_world x.hub_config >>= λ shared. prefer x shared native)
        (Shrinks-lift (parsed (parse name)))
        (λ native.
          Shrinks-bind (in_world x.hub_config) (λ shared. prefer x shared native)
            (Shrinks-world x.hub_config) (λ shared. prefer-Shrinks shared native))

  pub adapter_lease-Shrinks : (found : Option Endpoint) → Shrinks (adapter_lease x found)
  unfolding adapter_lease
  adapter_lease-Shrinks none = Shrinks-world (x.acquire (text_of "gpib-adapter"))
  adapter_lease-Shrinks (some e) =
      Shrinks-bind (gets (λ p. x.lease_of e.session p.world))
        (λ lease. lift (ok_or lease_missing lease))
        (Shrinks-gets (λ p. x.lease_of e.session p.world))
        (λ lease. Shrinks-lift (ok_or lease_missing lease))

  pub lease_for-Shrinks : (kind : ResourceKind) → Shrinks (lease_for x kind)
  unfolding lease_for
  lease_for-Shrinks kind =
      Shrinks-if (is_gpib kind)
        (Shrinks-bind (gets (find_endpoint x is_gpib roles)) (adapter_lease x)
          (Shrinks-gets (find_endpoint x is_gpib roles)) adapter_lease-Shrinks)
        (Shrinks-world (x.acquire (lock_key kind)))

  pub open_single_endpoint-Shrinks : (kind : ResourceKind) → Shrinks (open_single_endpoint x kind)
  unfolding open_single_endpoint
  open_single_endpoint-Shrinks kind =
      Shrinks-bind (lease_for x kind) _ (lease_for-Shrinks kind) (λ lease.
        Shrinks-bind (gets (λ p. x.now p.world)) _ (Shrinks-gets (λ p. x.now p.world)) (λ now.
          Shrinks-bind (in_world (x.spawn kind lease (now + 10000000000))) _
            (Shrinks-world (x.spawn kind lease (now + 10000000000)))
            (λ session. Shrinks-lift (
              ok (record {
                resource = resource kind;
                address = address_of kind;
                session = session;
              })))))

  pub open_endpoint-Shrinks :
      (name : Text) (kind : ResourceKind) → Shrinks (open_endpoint x name kind)
  unfolding open_endpoint share_or_open
  open_endpoint-Shrinks name kind =
      Shrinks-if (is_native_gpib kind)
        (Shrinks-bind (gets (find_endpoint x is_native_gpib roles)) (share_or_open x name kind)
          (Shrinks-gets (find_endpoint x is_native_gpib roles)) shared)
        (open_single_endpoint-Shrinks kind)
    where
      shared : (found : Option Endpoint) → Shrinks (share_or_open x name kind found)
      shared none = open_single_endpoint-Shrinks kind
      shared (some e) = Shrinks-lift (ok _)

  pub lift_result-Shrinks : {A : Type 0} (r : Result A (Unit {0})) → Shrinks (lift_result {W = W} r)
  lift_result-Shrinks (ok a) = Shrinks-lift (ok a)
  lift_result-Shrinks (err _) = Shrinks-lift (err unsupported_model)

  pub identify_endpoint-Shrinks :
      (e : Endpoint) (role : Role) (model : String) → Shrinks (identify_endpoint x e role model)
  unfolding identify_endpoint
  identify_endpoint-Shrinks e role model =
      Shrinks-bind (in_world (identify (io_of x e) role model))
        (λ identity. lift_result (verify_model role model identity) >>= λ _. pure identity)
        (Shrinks-world (identify (io_of x e) role model))
        (λ identity.
          Shrinks-bind (lift_result (verify_model role model identity)) (λ _. pure identity)
            (lift_result-Shrinks (verify_model role model identity))
            (λ _. Shrinks-lift (ok identity)))

  pub ignore-Shrinks : {A : Type 0} (m : Exec W Fault A) → Shrinks (ignore x m)
  ignore-Shrinks m = record { shrunk = λ p. Shrunk-world p (m p.world).0 }

  pub reject-Shrinks : (e : Endpoint) → Shrinks (reject x e)
  unfolding reject
  reject-Shrinks e =
      Shrinks-bind (gets (λ p. x.is_hub e.session p.world)) _
        (Shrinks-gets (λ p. x.is_hub e.session p.world))
        (λ hub.
          Shrinks-bind (gets (session_is_attached x e.session roles)) _
            (Shrinks-gets (session_is_attached x e.session roles))
            (λ attached. Shrinks-if hub (ignore-Shrinks (x.release e.session e.address)) (
              Shrinks-if attached
                (ignore-Shrinks (x.request e.session "LOCAL" e.address 2000 [] 2000000000))
                (ignore-Shrinks (x.close e.session)))))

  pub on_error-Shrinks :
      {A : Type 0} (m : M W A) (clean : M W (Unit {0}))
      → Shrinks m
      → Shrinks clean
      → Shrinks (on_error x m clean)
  unfolding on_error
  on_error-Shrinks m clean h k = record { shrunk = λ p. Shrinks-after m clean p h k (m p).1 }

  pub drop_endpoint-Shrinks : (e : Endpoint) → Shrinks (drop_endpoint x e)
  unfolding drop_endpoint
  drop_endpoint-Shrinks e =
      Shrinks-bind (gets (session_is_attached x e.session roles)) _
        (Shrinks-gets (session_is_attached x e.session roles))
        (λ attached.
          Shrinks-if attached (Shrinks-lift (ok tt))
            (Shrinks-world (λ w. (x.drop e.session w, ok tt))))

  pub claim_and_identify-Shrinks :
      (e : Endpoint) (role : Role) (model : String) → Shrinks (claim_and_identify x e role model)
  unfolding claim_and_identify accept_identity
  claim_and_identify-Shrinks e role model =
      on_error-Shrinks _ (drop_endpoint x e)
        (Shrinks-bind (in_world (x.claim e.session e.address role model))
          (λ _. accept_identity x e role model)
          (Shrinks-world (x.claim e.session e.address role model))
          (λ _.
            on_error-Shrinks (identify_endpoint x e role model) (reject x e)
              (identify_endpoint-Shrinks e role model) (reject-Shrinks e)))
        (drop_endpoint-Shrinks e)
