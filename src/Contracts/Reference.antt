-- ===== src/Contracts/Reference.antt =====
-- src/gridlens/contracts/reference.py: bidding zones and production types, with their codes.
use gridlens.Prelude.{
  ◌≡◌, String, Bool, true, false, Option, none, some, List, [], ◌∷◌, str_eq, if◌then◌else◌,
}
pub mod Codes

pub data BiddingZone : Type 0 where
  fr be nl de_lu es pt ch at gb : BiddingZone

pub data ProductionType : Type 0 where
  biomass lignite coal_derived_gas gas hard_coal oil oil_shale peat geothermal : ProductionType
  hydro_pumped_storage hydro_run_of_river hydro_reservoir marine nuclear other_renewable :
      ProductionType
  solar waste wind_offshore wind_onshore other : ProductionType
  ac_link dc_link substation transformer energy_storage : ProductionType

-- `BiddingZone.value`
abbrev pub zone_value : BiddingZone → String
zone_value fr = "10YFR-RTE------C"
zone_value be = "10YBE----------2"
zone_value nl = "10YNL----------L"
zone_value de_lu = "10Y1001A1001A82H"
zone_value es = "10YES-REE------0"
zone_value pt = "10YPT-REN------W"
zone_value ch = "10YCH-SWISSGRIDZ"
zone_value at = "10YAT-APG------L"
zone_value gb = "10YGB----------A"

-- `ProductionType.value`
abbrev pub type_value : ProductionType → String
type_value biomass = "B01"
type_value lignite = "B02"
type_value coal_derived_gas = "B03"
type_value gas = "B04"
type_value hard_coal = "B05"
type_value oil = "B06"
type_value oil_shale = "B07"
type_value peat = "B08"
type_value geothermal = "B09"
type_value hydro_pumped_storage = "B10"
type_value hydro_run_of_river = "B11"
type_value hydro_reservoir = "B12"
type_value marine = "B13"
type_value nuclear = "B14"
type_value other_renewable = "B15"
type_value solar = "B16"
type_value waste = "B17"
type_value wind_offshore = "B18"
type_value wind_onshore = "B19"
type_value other = "B20"
type_value ac_link = "B21"
type_value dc_link = "B22"
type_value substation = "B23"
type_value transformer = "B24"
type_value energy_storage = "B25"

abbrev pub zones : List BiddingZone
zones = fr ∷ be ∷ nl ∷ de_lu ∷ es ∷ pt ∷ ch ∷ at ∷ gb ∷ []

abbrev pub types : List ProductionType
types =
    biomass ∷ lignite ∷ coal_derived_gas ∷ gas ∷ hard_coal ∷ oil ∷ oil_shale ∷ peat ∷ geothermal
    ∷ hydro_pumped_storage ∷ hydro_run_of_river ∷ hydro_reservoir ∷ marine ∷ nuclear
    ∷ other_renewable ∷ solar ∷ waste ∷ wind_offshore ∷ wind_onshore ∷ other ∷ ac_link ∷ dc_link
    ∷ substation ∷ transformer ∷ energy_storage ∷ []

-- The member of an enumeration with a value: `Enum(value)`.
pub find_value : {A : Type 0} → (A → String) → String → List A → Option A
find_value value s [] = none
find_value value s (a ∷ rest) = if str_eq (value a) s then some a else find_value value s rest

-- `BiddingZone(s)`
unfoldable pub zone_of_value : String → Option BiddingZone
unfolding find_value
zone_of_value s = find_value zone_value s zones

-- `ProductionType(s)`
unfoldable pub type_of_value : String → Option ProductionType
unfolding find_value
type_of_value s = find_value type_value s types
