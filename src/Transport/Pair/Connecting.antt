-- ===== src/Transport/Pair/Connecting.antt =====
-- `connect_model` of `DevicePair` in crates/iv-transport/src/lib.rs: an instrument is connected in a
-- role.
use kohdalab_iv.Common.Exec.{Exec, ◌>>=◌, ◌>>◌, pure, lift, gets, modify, check}
use kohdalab_iv.Common.{
  ℕ, ◌+◌, String, Bool, true, false, not, ◌&&◌, ◌||◌, Option, none, some, List, [], ◌∷◌, ◌++◌, any,
  if◌then◌else◌, ◌==◌, str_eq, Result, ok, err, ok_or,
}
use kohdalab_iv.Common.Text.{Text, text_of}
use kohdalab_iv.Transport.Instruments.{
  Role, source, source2, gate, meter, reference_meter, valid_model,
}
use kohdalab_iv.Transport.Identity.{verify_model}
use kohdalab_iv.Transport.Resources.{
  ResourceKind, visa, gpib, usb, parse, resource, is_gpib, lock_key, same_physical,
}
use kohdalab_iv.Transport.Fault.{
  Fault, unsupported_model, other_model, adc_over_usb, other_resource, same_instrument,
  mixed_backends, lease_missing, invalid_resource,
}
use kohdalab_iv.Transport.Drivers.{identify, is_adc_meter}
use kohdalab_iv.Transport.Pair.{
  Pair, Endpoint, Sessions, M, roles, same_role, slot, put_slot, in_world, is_connected,
}
use kohdalab_iv.Transport.Pair.Endpoints.{io_of, lift_result}

unfoldable pub is_visa : ResourceKind → Bool
is_visa (visa name native) = true
is_visa (gpib name address) = false
is_visa (usb name serial vid pid) = false

unfoldable pub is_native_gpib : ResourceKind → Bool
is_native_gpib (visa name native) = false
is_native_gpib (gpib name address) = true
is_native_gpib (usb name serial vid pid) = false

unfoldable pub is_native_usb : ResourceKind → Bool
is_native_usb (visa name native) = false
is_native_usb (gpib name address) = false
is_native_usb (usb name serial vid pid) = true

abbrev pub bare : ResourceKind → ResourceKind
bare (visa name native) = native
bare (gpib name address) = gpib name address
bare (usb name serial vid pid) = usb name serial vid pid

abbrev pub address_of : ResourceKind → ℕ
address_of (visa name native) = 0
address_of (gpib name address) = address
address_of (usb name serial vid pid) = 0

abbrev pub parsed : Result ResourceKind (Unit {0}) → Result ResourceKind Fault
parsed (ok kind) = ok kind
parsed (err _) = err invalid_resource

-- The loop of `preferred_kind` over the resources of the official VISA.
unfoldable pub official_kind : ResourceKind → List Text → Result ResourceKind Fault
official_kind native [] = ok native
official_kind native (name ∷ names) =
    let rest = official_kind native names in
    elim (parsed (parse name)) [
      | err e ↦ err e
      | ok official ↦
          if same_physical official native
          then ok official
          else (if is_gpib native && is_gpib official
              then ok (visa (text_of "VISA::" ++ resource native) native)
              else rest)
    ]

module _ {W L : Type 0} (x : Sessions W L) where
  unfoldable pub discover_visa : M W (List Text)
  discover_visa p = let (w, names) = x.discover_visa p.world in (record p { world = w }, ok names)

  unfoldable pub prefer : Bool → ResourceKind → M W ResourceKind
  prefer shared native =
      if shared && is_gpib native
      then pure (bare native)
      else (if is_visa native
          then pure native
          else (do names ← discover_visa; lift (official_kind native names)))

  unfoldable pub preferred_kind : Text → M W ResourceKind
  preferred_kind name = do
    native ← lift (parsed (parse name))
    shared ← in_world x.hub_config
    prefer shared native

  -- A kind against the instrument of another role.
  unfoldable pub check_other : ResourceKind → Option ResourceKind → Result (Unit {0}) Fault
  check_other kind none = ok tt
  check_other kind (some other) =
      if same_physical kind other
      then err same_instrument
      else (if is_gpib kind
            && (is_gpib other
                && (is_visa kind && not (is_visa other) || not (is_visa kind) && is_visa other))
          then err mixed_backends
          else ok tt)

  unfoldable pub check_others : Role → ResourceKind → List Role → Pair W → Result (Unit {0}) Fault
  check_others role kind [] p = ok tt
  check_others role kind (existing ∷ rest) p =
      let later = check_others role kind rest p in
      if same_role existing role
      then later
      else elim (check_other kind (slot existing p).kind) [ ok _ ↦ later | err e ↦ err e ]

  -- The endpoint of the first role whose instrument passes the test.
  unfoldable pub find_endpoint : (ResourceKind → Bool) → List Role → Pair W → Option Endpoint
  find_endpoint test [] p = none
  find_endpoint test (role ∷ rest) p =
      let later = find_endpoint test rest p in
      elim (slot role p).endpoint [
        | none ↦ later
        | some e ↦ elim (slot role p).kind [
          | none ↦ later
          | some kind ↦ if test kind then some e else later
        ]
      ]

  -- The roles on GPIB share the lease of the adapter.
  unfoldable pub adapter_lease : Option Endpoint → M W L
  adapter_lease none = in_world (x.acquire (text_of "gpib-adapter"))
  adapter_lease (some e) = do
    lease ← gets (λ p. x.lease_of e.session p.world)
    lift (ok_or lease_missing lease)

  unfoldable pub lease_for : ResourceKind → M W L
  lease_for kind =
      if is_gpib kind
      then (do found ← gets (find_endpoint is_gpib roles); adapter_lease found)
      else in_world (x.acquire (lock_key kind))

  unfoldable pub open_single_endpoint : ResourceKind → M W Endpoint
  open_single_endpoint kind = do
    lease ← lease_for kind
    now ← gets (λ p. x.now p.world)
    session ← in_world (x.spawn kind lease (now + 10000000000))
    pure (record { resource = resource kind; address = address_of kind; session = session })

  -- The session that is shared, or a fresh one.
  unfoldable pub share_or_open : Text → ResourceKind → Option Endpoint → M W Endpoint
  share_or_open name kind none = open_single_endpoint kind
  share_or_open name kind (some e) =
      pure (record { resource = name; address = address_of kind; session = e.session })

  unfoldable pub open_endpoint : Text → ResourceKind → M W Endpoint
  open_endpoint name kind =
      if is_native_gpib kind
      then (do found ← gets (find_endpoint is_native_gpib roles); share_or_open name kind found)
      else open_single_endpoint kind

  unfoldable pub session_is_attached : ℕ → List Role → Pair W → Bool
  session_is_attached session rs p =
      any
        (λ (role : Role). elim (slot role p).endpoint [
          | none ↦ false
          | some e ↦ e.session == session
        ])
        rs

  unfoldable pub identify_endpoint : Endpoint → Role → String → M W Text
  identify_endpoint e role model = do
    identity ← in_world (identify (io_of x e) role model)
    lift_result (verify_model role model identity)
    pure identity

  abbrev pub ignore : {A : Type 0} → Exec W Fault A → M W (Unit {0})
  ignore m p = (record p { world = (m p.world).0 }, ok tt)

  -- An action with a clean-up after an error.
  unfoldable pub on_error : {A : Type 0} → M W A → M W (Unit {0}) → M W A
  on_error m clean p =
      let (p', r) = m p in elim r [ ok a ↦ (p', ok a) | err e ↦ ((clean p').0, err e) ]

  -- What is done for an instrument that is not the expected one.
  unfoldable pub reject : Endpoint → M W (Unit {0})
  reject e = do
    hub ← gets (λ p. x.is_hub e.session p.world)
    attached ← gets (session_is_attached e.session roles)
    (if hub
        then ignore (x.release e.session e.address)
        else (if attached
            then ignore (x.request e.session "LOCAL" e.address 2000 [] 2000000000)
            else ignore (x.close e.session)))

  unfoldable pub accept_identity : Endpoint → Role → String → M W Text
  accept_identity e role model = on_error (identify_endpoint e role model) (reject e)

  -- A session that no role refers to ends with the endpoint.
  unfoldable pub drop_endpoint : Endpoint → M W (Unit {0})
  drop_endpoint e = do
    attached ← gets (session_is_attached e.session roles)
    (if attached then pure tt else in_world (λ w. (x.drop e.session w, ok tt)))

  unfoldable pub claim_and_identify : Endpoint → Role → String → M W Text
  claim_and_identify e role model =
      on_error (do in_world (x.claim e.session e.address role model); accept_identity e role model)
        (drop_endpoint e)

  unfoldable pub start_discard : Role → String → Pair W → Pair W
  start_discard source model p = p
  start_discard source2 model p = p
  start_discard gate model p = p
  start_discard meter model p = record p { meter_discard = is_adc_meter model }
  start_discard reference_meter model p = record p { reference_meter_discard = is_adc_meter model }

  unfoldable pub install : Role → ResourceKind → Endpoint → String → Text → Pair W → Pair W
  install role kind e model identity p =
      let s = record (slot role p) {
        identity = identity;
        model = model;
        kind = some kind;
        endpoint = some e;
      } in
      record (start_discard role model (put_slot role s p)) { is_usable = true }

  unfoldable pub attach : Role → Text → String → ResourceKind → M W (Unit {0})
  attach role name model kind = do
    e ← open_endpoint name kind
    identity ← claim_and_identify e role model
    modify (install role kind e model identity)

  -- The checks against the instruments that are connected.
  unfoldable pub connect_new : Role → Text → String → ResourceKind → M W (Unit {0})
  connect_new role name model kind p = elim (check_others role kind roles p) [
    | err e ↦ (p, err e)
    | ok _ ↦ attach role name model kind p
  ]

  unfoldable pub connect_kind : Role → Text → String → ResourceKind → M W (Unit {0})
  connect_kind role name model kind p = elim (slot role p).kind [
    | some current ↦ if same_physical current kind then (p, ok tt) else (p, err other_resource)
    | none ↦ connect_new role name model kind p
  ]

  -- What follows the choice of a resource.
  unfoldable pub connect_preferred : Role → Text → String → ResourceKind → M W (Unit {0})
  connect_preferred role name model kind = do
    check (not (is_adc_meter model && is_native_usb kind)) adc_over_usb
    connect_kind role name model kind

  unfoldable pub is_other_model : Role → String → Pair W → Bool
  is_other_model role model p = is_connected role p && not (str_eq (slot role p).model model)

  unfoldable pub connect_model : Role → Text → String → M W (Unit {0})
  connect_model role name model = do
    check (valid_model role model) unsupported_model
    changed ← gets (is_other_model role model)
    check (not changed) other_model
    kind ← preferred_kind name
    connect_preferred role name model kind
