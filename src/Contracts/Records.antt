-- ===== src/Contracts/Records.antt =====
-- src/gridlens/contracts/records.py: the record of one settlement period, and what pydantic checks
-- of its fields: the declared types first, each field by itself, then the validator of the whole
-- model if every field passed.
pub mod Fields
pub mod Contract
use gridlens.Prelude.{
  ℕ, suc, ◌+◌, ◌-◌, ◌*◌, ◌%◌, ◌^◌, String, Bool, true, false, not, ◌&&◌, ◌||◌, Option, none, some,
  List, [], ◌∷◌, ◌++◌, Result, ok, err, ◌>>=◌, ltb, leb, ◌==◌, str_eq, if◌then◌else◌,
}
use gridlens.Prelude.Int.{ℤ, pos, negsuc, eqb_ℤ}
use gridlens.Timeaxis.{minute_us, day_us}
use gridlens.Contracts.Reference.{BiddingZone, ProductionType, zone_of_value, type_of_value}

-- A `Decimal`: sign, coefficient and exponent, or NaN and the infinities.
pub data Decimal : Type 0 where
  finite : Bool → ℕ → ℤ → Decimal
  special : Decimal

-- A `datetime`: its wall clock reading, and the offset where it has a `tzinfo`.
pub data Moment : Type 0 where
  naive : ℕ → Moment
  aware : ℕ → ℤ → Moment

pub data Source : Type 0 where
  entsoe rte : Source

pub data Direction : Type 0 where
  generation consumption : Direction

pub data Measure : Type 0 where
  megawatt : Measure

-- The dict that `GenerationRecord(**candidate)` is called with.
pub record Candidate : Type 0 where
  pub source : String
  pub source_document_id : Option String
  pub zone : String
  pub production_type : String
  pub direction : String
  pub unit : String
  pub resolution_minutes : ℕ
  pub valid_time : Moment
  pub known_at : Moment
  pub source_updated_at : Option Moment
  pub quantity_mw : Decimal

-- `GenerationRecord`; its times are UTC instants.
pub record GenerationRecord : Type 0 where
  pub source : Source
  pub source_document_id : Option String
  pub zone : BiddingZone
  pub production_type : ProductionType
  pub direction : Direction
  pub unit : Measure
  pub resolution_minutes : ℕ
  pub valid_time : ℕ
  pub known_at : ℕ
  pub source_updated_at : Option ℕ
  pub quantity_mw : Decimal

-- One entry of `exc.errors()`: where, and what.
pub record FieldError : Type 0 where
  pub loc : String
  pub msg : String

abbrev pub max_quantity_mw : ℕ
max_quantity_mw = 150000

abbrev pub max_scale : ℕ
max_scale = 3

-- `Literal` fields
unfoldable pub source_of : String → Option Source
source_of s = if str_eq s "entsoe" then some entsoe else if str_eq s "rte" then some rte else none

unfoldable pub direction_of : String → Option Direction
direction_of s =
    if str_eq s "generation"
    then some generation
    else if str_eq s "consumption"
    then some consumption
    else none

unfoldable pub unit_of : String → Option Measure
unit_of s = if str_eq s "MW" then some megawatt else none

-- `Annotated[int, Field(gt=0, le=1440)]`
unfoldable pub minutes_of : ℕ → Option ℕ
minutes_of n = if ltb 0 n && leb n 1440 then some n else none

-- `_must_be_utc`
unfoldable pub must_be_utc : Moment → Result String ℕ
must_be_utc (naive reading) = err "naive datetime"
must_be_utc (aware reading offset) = if eqb_ℤ offset (pos 0) then ok reading else err "expected utc"

unfoldable pub optional_utc : Option Moment → Result String (Option ℕ)
optional_utc none = ok none
optional_utc (some m) = do u ← must_be_utc m; ok (some u)

-- `value < 0` and `value > n` of a finite decimal
abbrev pub is_negative : Bool → ℕ → Bool
is_negative sign coefficient = sign && ltb 0 coefficient

abbrev pub exceeds : ℕ → Bool → ℕ → ℤ → Bool
exceeds n sign coefficient (pos e) = not sign && ltb n (coefficient * 10 ^ e)
exceeds n sign coefficient (negsuc e) = not sign && ltb (n * 10 ^ suc e) coefficient

-- `-exponent > MAX_SCALE`
abbrev pub too_fine : ℤ → Bool
too_fine (pos e) = false
too_fine (negsuc e) = ltb max_scale (suc e)

-- `_plausible_quantity`; pydantic has refused the values that are not finite before it runs.
unfoldable pub plausible_quantity : Decimal → Result String Decimal
plausible_quantity special = err "finite_number"
plausible_quantity (finite sign coefficient exponent) =
    if is_negative sign coefficient
    then err "negative generation"
    else if exceeds max_quantity_mw sign coefficient exponent
    then err "beyond anything a zone produces"
    else if too_fine exponent
    then err "too many decimal places"
    else ok (finite sign coefficient exponent)

-- `_consistent`
unfoldable pub consistent : GenerationRecord → Result String GenerationRecord
consistent r =
    if not (r.valid_time % day_us % (r.resolution_minutes * minute_us) == 0)
    then err "not on a resolution boundary"
    else if ltb r.known_at r.valid_time
    then err "realised value known before the period it describes"
    else ok r

abbrev pub error_of : {A : Type 0} → String → Result String A → List FieldError
error_of loc (ok a) = []
error_of loc (err msg) = record { loc = loc; msg = msg } ∷ []

abbrev pub required : {A : Type 0} → String → Option A → Result String A
required msg none = err msg
required msg (some a) = ok a

-- Every field that is refused, in the order of the declarations.
unfoldable pub field_errors : Candidate → List FieldError
field_errors c =
    error_of "source" (required "literal_error" (source_of c.source))
    ++ (error_of "zone" (required "enum" (zone_of_value c.zone))
        ++ (error_of "production_type" (required "enum" (type_of_value c.production_type))
            ++ (error_of "direction" (required "literal_error" (direction_of c.direction))
                ++ (error_of "unit" (required "literal_error" (unit_of c.unit))
                    ++ (error_of "resolution_minutes"
                          (required "out of range" (minutes_of c.resolution_minutes))
                        ++ (error_of "valid_time" (must_be_utc c.valid_time)
                            ++ (error_of "known_at" (must_be_utc c.known_at)
                                ++ (error_of "source_updated_at" (optional_utc c.source_updated_at)
                                    ++ error_of "quantity_mw"
                                        (plausible_quantity c.quantity_mw)))))))))

-- The record, if every field passes.
unfoldable pub fields : Candidate → Result String GenerationRecord
fields c = do
  source ← required "literal_error" (source_of c.source)
  zone ← required "enum" (zone_of_value c.zone)
  production_type ← required "enum" (type_of_value c.production_type)
  direction ← required "literal_error" (direction_of c.direction)
  unit ← required "literal_error" (unit_of c.unit)
  resolution_minutes ← required "out of range" (minutes_of c.resolution_minutes)
  valid_time ← must_be_utc c.valid_time
  known_at ← must_be_utc c.known_at
  source_updated_at ← optional_utc c.source_updated_at
  quantity_mw ← plausible_quantity c.quantity_mw
  ok (record {
    source = source;
    source_document_id = c.source_document_id;
    zone = zone;
    production_type = production_type;
    direction = direction;
    unit = unit;
    resolution_minutes = resolution_minutes;
    valid_time = valid_time;
    known_at = known_at;
    source_updated_at = source_updated_at;
    quantity_mw = quantity_mw;
  })

-- `GenerationRecord(**candidate)`: the record, or the errors of the ValidationError.
unfoldable pub validate : Candidate → Result (List FieldError) GenerationRecord
validate c = elim (fields c) [
  | err _ ↦ err (field_errors c)
  | ok r ↦ elim (consistent r) [
    | ok r' ↦ ok r'
    | err msg ↦ err (record { loc = ""; msg = msg } ∷ [])
  ]
]
