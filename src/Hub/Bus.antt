-- ===== src/Hub/Bus.antt =====
-- The steps of crates/instrument-hub/src/core.rs that call the backend or write the journal.
use kohdalab_iv.Common.{ℕ, String, some, List, if◌then◌else◌, Result, ok, err, map_err}
use kohdalab_iv.Common.Map.{insert}
use kohdalab_iv.Common.Text.{Text}
use kohdalab_iv.Protocol.{
  state_unknown, invalid_request, controller_fault, SafetyPolicy, instrument, source,
}
use kohdalab_iv.Hub.Controller.{Controller}
use kohdalab_iv.Hub.Journal.{Disk, write_journal}
use kohdalab_iv.Hub.State.{valid_source, M, ◌>>◌, pure, lift, modify, healthy}

module _ {B D : Type 0} (c : Controller B) (d : Disk D) where
  unfoldable pub persist : M B D (Unit {0})
  persist s = let (disk', r) = write_journal d s.disk s.unknown in (record s { disk = disk' }, r)

  -- A call of the backend whose error leaves the controller usable.
  unfoldable pub backend_call : (B → B × Result (Unit {0}) String) → M B D (Unit {0})
  backend_call f s =
      let (b, r) = f s.backend in (record s { backend = b }, map_err (λ _. state_unknown) r)

  -- An error of a transfer fails the complete controller.
  unfoldable pub transfer_raw : String → ℕ → ℕ → List ℕ → M B D Text
  transfer_raw op a timeout payload s =
      let (b, r) = c.transfer s.backend op a timeout payload in
      elim r [
        | ok reply ↦ (record s { backend = b }, ok reply)
        | err e ↦ (record s { backend = b; fault = some e }, err controller_fault)
      ]

  unfoldable pub transfer_bus : String → ℕ → ℕ → List ℕ → M B D Text
  unfolding transfer_raw healthy
  transfer_bus op a timeout payload = do healthy; transfer_raw op a timeout payload

  unfoldable pub prepare : M B D (Unit {0})
  prepare s =
      let (b, r) = c.prepare s.backend in
      elim r [
        | ok _ ↦ (record s { backend = b }, ok tt)
        | err e ↦ (record s { backend = b; fault = some e }, err controller_fault)
      ]

  -- The part of a claim that a source needs: its identity, its output off, and the journal.
  unfoldable pub quarantine_source : ℕ → SafetyPolicy → M B D (Unit {0})
  unfolding backend_call persist
  quarantine_source a instrument = pure tt
  quarantine_source a (source model) = do
    lift (if valid_source model then ok tt else err invalid_request)
    backend_call (λ b. c.verify_source b a model)
    backend_call (λ b. c.source_off b a model)
    modify (λ s. record s { unknown = insert a model s.unknown })
    persist
