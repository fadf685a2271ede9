-- ===== src/Transport/Pair.antt =====
-- The state of `DevicePair` in crates/iv-transport/src/lib.rs, and its connections to the helper
-- sessions. The sessions, which the roles on one adapter share, live in a world `W` and are named by
-- numbers. A lock of a session that a stopped thread poisoned is not modelled. Points in time are
-- nanoseconds.
pub mod Endpoints
pub mod Shutdown
pub mod Connecting
pub mod Disconnecting
pub mod Locked
pub mod Kinds
pub mod Distinct
pub mod Accepted
pub mod Recorded
pub mod Queried
pub mod Confirmed
use kohdalab_iv.Common.Exec.{Exec, ◌>>=◌, ◌>>◌, pure, fail, lift, gets, modify, check}
use kohdalab_iv.Common.{
  ℕ, String, Bool, true, false, Option, none, some, List, [], ◌∷◌, Result, ok, err,
}
use kohdalab_iv.Common.Text.{Text}
use kohdalab_iv.Transport.Instruments.{
  Role, source, source2, gate, meter, reference_meter, default_model,
}
use kohdalab_iv.Transport.Resources.{ResourceKind}
use kohdalab_iv.Transport.Fault.{Fault, not_connected}

pub record Endpoint : Type 0 where
  pub resource : Text
  pub address : ℕ
  pub session : ℕ

-- The fields of one role.
pub record Slot : Type 0 where
  pub identity : Text
  pub model : String
  pub kind : Option ResourceKind
  pub endpoint : Option Endpoint
  pub is_pending : Bool

pub record Pair (W : Type 0) : Type 0 where
  pub world : W
  pub source_slot : Slot
  pub source2_slot : Slot
  pub gate_slot : Slot
  pub meter_slot : Slot
  pub reference_slot : Slot
  pub meter_discard : Bool
  pub reference_meter_discard : Bool
  pub is_usable : Bool

-- What the pair uses of the helper sessions, over leases `L`.
pub record Sessions (W L : Type 0) : Type 0 where
  -- The session, the operation, the address, the time limit in ms, the payload, and the limit for
  -- the whole exchange.
  pub request : ℕ → String → ℕ → ℕ → Text → ℕ → Exec W Fault Text
  pub claim : ℕ → ℕ → Role → String → Exec W Fault (Unit {0})
  pub release : ℕ → ℕ → Exec W Fault (Unit {0})
  pub close : ℕ → Exec W Fault (Unit {0})
  pub is_hub : ℕ → W → Bool
  pub lease_of : ℕ → W → Option L
  pub acquire : Text → Exec W Fault L
  pub spawn : ResourceKind → L → ℕ → Exec W Fault ℕ
  pub abandon : ℕ → W → W × Option L
  pub now : W → ℕ
  pub sleep : ℕ → W → W
  -- The end of a session that nothing refers to.
  pub drop : ℕ → W → W
  -- Whether a shared service is configured, and the resources of the official VISA.
  pub hub_config : Exec W Fault Bool
  pub discover_visa : W → W × List Text

abbrev pub M : Type 0 → Type 0 → Type 0
M W A = Exec (Pair W) Fault A

abbrev pub roles : List Role
roles = source ∷ source2 ∷ gate ∷ meter ∷ reference_meter ∷ []

unfoldable pub same_role : Role → Role → Bool
same_role source source = true
same_role source2 source2 = true
same_role gate gate = true
same_role meter meter = true
same_role reference_meter reference_meter = true
same_role _ _ = false

module _ {W : Type 0} where
  unfoldable pub slot : Role → Pair W → Slot
  slot source p = p.source_slot
  slot source2 p = p.source2_slot
  slot gate p = p.gate_slot
  slot meter p = p.meter_slot
  slot reference_meter p = p.reference_slot

  unfoldable pub put_slot : Role → Slot → Pair W → Pair W
  put_slot source x p = record p { source_slot = x }
  put_slot source2 x p = record p { source2_slot = x }
  put_slot gate x p = record p { gate_slot = x }
  put_slot meter x p = record p { meter_slot = x }
  put_slot reference_meter x p = record p { reference_slot = x }

  -- An action of the world.
  abbrev pub in_world : {A : Type 0} → Exec W Fault A → M W A
  in_world m p = let (w, r) = m p.world in (record p { world = w }, r)

  unfoldable pub endpoint_of : Role → M W Endpoint
  unfolding slot
  endpoint_of role p = elim (slot role p).endpoint [
    | none ↦ (p, err not_connected)
    | some e ↦ (p, ok e)
  ]

  unfoldable pub is_connected : Role → Pair W → Bool
  unfolding slot
  is_connected role p = elim (slot role p).endpoint [ none ↦ false | some e ↦ true ]

abbrev blank_slot : Role → Slot
blank_slot role = record {
  identity = [];
  model = default_model role;
  kind = none;
  endpoint = none;
  is_pending = false;
}

unfoldable pub new : {W : Type 0} → W → Pair W
new w = record {
  world = w;
  source_slot = blank_slot source;
  source2_slot = blank_slot source2;
  gate_slot = blank_slot gate;
  meter_slot = blank_slot meter;
  reference_slot = blank_slot reference_meter;
  meter_discard = false;
  reference_meter_discard = false;
  is_usable = true;
}
