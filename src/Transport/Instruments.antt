-- ===== src/Transport/Instruments.antt =====
-- crates/iv-transport/src/instruments.rs: which models each role takes, and the dialect of each.
use kohdalab_iv.Common.{
  String, Bool, true, false, not, ◌&&◌, none, some, if◌then◌else◌, Result, ok, err,
}
use kohdalab_iv.Catalog.{
  InstrumentRole, InstrumentDialect, InstrumentDescriptor, role_eq, instrument_descriptor,
}

pub data Role : Type 0 where
  source source2 gate meter reference_meter : Role

abbrev pub is_source_role : Role → Bool
is_source_role source = true
is_source_role source2 = true
is_source_role gate = true
is_source_role meter = false
is_source_role reference_meter = false

unfoldable pub catalog_role : Role → InstrumentRole
catalog_role source = InstrumentRole.source
catalog_role source2 = InstrumentRole.source
catalog_role gate = InstrumentRole.source
catalog_role meter = InstrumentRole.meter
catalog_role reference_meter = InstrumentRole.meter

-- The filter that both functions below apply to a descriptor.
unfoldable pub is_usable : Role → InstrumentDescriptor → Bool
unfolding catalog_role
is_usable role d = not d.simulated && role_eq d.role (catalog_role role)

unfoldable pub default_model : Role → String
default_model source = "YOKOGAWA_GS210"
default_model source2 = "YOKOGAWA_GS210"
default_model gate = "YOKOGAWA_GS210"
default_model meter = "AGILENT_34411A"
default_model reference_meter = "AGILENT_34411A"

unfoldable pub valid_model : Role → String → Bool
unfolding is_usable
valid_model role model = elim (instrument_descriptor model) [
  | none ↦ false
  | some d ↦ is_usable role d
]

-- The message that an unsupported model gets is not modelled.
unfoldable pub dialect : Role → String → Result InstrumentDialect (Unit {0})
unfolding is_usable
dialect role model = elim (instrument_descriptor model) [
  | none ↦ err tt
  | some d ↦ if is_usable role d then ok d.dialect else err tt
]
