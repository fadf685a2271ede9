-- ===== src/Catalog.antt =====
-- crates/iv-core/src/catalog.rs: the instrument models, their roles and command dialects.
-- The capability flags of a descriptor are the same for every model of a role and are read only by
-- the user interface; they are not modelled.
use kohdalab_iv.Common.{
  String, Bool, true, false, Option, none, some, List, [], ◌∷◌, ◌++◌, str_eq, if◌then◌else◌,
}

pub data InstrumentRole : Type 0 where
  source meter : InstrumentRole

pub data InstrumentDialect : Type 0 where
  scpi yokogawa7651 agilent34401 adc7461 simulation : InstrumentDialect

pub record InstrumentDescriptor : Type 0 where
  pub id : String
  pub role : InstrumentRole
  pub dialect : InstrumentDialect
  pub simulated : Bool

abbrev pub role_eq : InstrumentRole → InstrumentRole → Bool
role_eq source source = true
role_eq meter meter = true
role_eq _ _ = false

abbrev describe : String → InstrumentRole → InstrumentDialect → Bool → InstrumentDescriptor
describe i r d s = record { id = i; role = r; dialect = d; simulated = s }

abbrev sources : List InstrumentDescriptor
sources =
    describe "YOKOGAWA_GS210" source scpi false
    ∷ describe "YOKOGAWA_7651" source yokogawa7651 false
    ∷ describe "SIMULATED_SOURCE" source simulation true
    ∷ []

abbrev meters : List InstrumentDescriptor
meters =
    describe "AGILENT_34401A" meter agilent34401 false
    ∷ describe "AGILENT_34411A" meter scpi false
    ∷ describe "KEYSIGHT_34411A" meter scpi false
    ∷ describe "KEYSIGHT_34465A" meter scpi false
    ∷ describe "ADCMT_7461A" meter adc7461 false
    ∷ describe "SIMULATED_METER" meter simulation true
    ∷ []

unfoldable pub instrument_catalog : InstrumentRole → List InstrumentDescriptor
instrument_catalog source = sources
instrument_catalog meter = meters

unfoldable pub find_descriptor : String → List InstrumentDescriptor → Option InstrumentDescriptor
find_descriptor i [] = none
find_descriptor i (d ∷ ds) = if str_eq d.id i then some d else find_descriptor i ds

unfoldable pub instrument_descriptor : String → Option InstrumentDescriptor
unfolding find_descriptor instrument_catalog
instrument_descriptor i = find_descriptor i (instrument_catalog source ++ instrument_catalog meter)
