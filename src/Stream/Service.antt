-- ===== src/Stream/Service.antt =====
-- src/gridlens/stream/: the key and the avro record of a message, the registration of the schema, and
-- the loop of `run`. The registry's answers, the signals and the clock are parameters.
use gridlens.Prelude.{
  ℕ, zero, suc, ◌+◌, ◌-◌, ◌*◌, ◌/◌, ◌%◌, ◌^◌, String, ◌<>◌, Bool, Option, none, some, [], ◌∷◌,
  Result, ok, err, ◌>>=◌, ◌>>◌, raise_if, join, leb, ltb, ◌==◌, ◌&&◌, ◌||◌, if◌then◌else◌,
}
use gridlens.Prelude.Int.{ℤ, pos, negsuc}
use gridlens.Exceptions.{Exception, invalid_operation}
use gridlens.Contracts.Reference.{zone_value, type_value}
use gridlens.Contracts.Records.{Decimal, finite, special, GenerationRecord}
use gridlens.Contracts.Gate.{direction_name}
use gridlens.Lake.Staging.{source_name}

-- `key`, before its encoding
unfoldable pub series_key : GenerationRecord → String
series_key r = join "|" (
    source_name r.source
    ∷ zone_value r.zone
    ∷ type_value r.production_type
    ∷ direction_name r.direction
    ∷ [])

-- Division by a power of ten that rounds half to even.
unfoldable pub round_half_even : ℕ → ℕ → ℕ
round_half_even coefficient unit =
    let whole = coefficient / unit in
    let rest = coefficient % unit in
    if ltb unit (2 * rest) || (2 * rest == unit && whole % 2 == 1) then whole + 1 else whole

-- The coefficient of `quantize(Decimal("0.001"))`: it may have 28 digits.
unfoldable pub quantized : ℕ → ℤ → ℕ
quantized coefficient (pos e) = coefficient * 10 ^ (e + 3)
quantized coefficient (negsuc k) =
    if leb k 2 then coefficient * 10 ^ (2 - k) else round_half_even coefficient (10 ^ (k - 2))

-- The contract lets no other than a finite quantity into a record.
unfoldable pub quantize : Decimal → Result Exception Decimal
quantize special = err invalid_operation
quantize (finite sign coefficient exponent) = do
  raise_if (leb (10 ^ 28) (quantized coefficient exponent)) invalid_operation
  ok (finite sign (quantized coefficient exponent) (negsuc 2))

-- The record that the avro writer is given.
pub record AvroRecord : Type 0 where
  pub source : String
  pub source_document_id : Option String
  pub zone : String
  pub production_type : String
  pub direction : String
  pub unit : String
  pub resolution_minutes : ℕ
  pub valid_time : ℕ
  pub known_at : ℕ
  pub source_updated_at : Option ℕ
  pub quantity_mw : Decimal

-- `to_avro`
unfoldable pub to_avro : GenerationRecord → Result Exception AvroRecord
to_avro r = do
  quantity ← quantize r.quantity_mw
  ok (record {
    source = source_name r.source;
    source_document_id = r.source_document_id;
    zone = zone_value r.zone;
    production_type = type_value r.production_type;
    direction = direction_name r.direction;
    unit = "MW";
    resolution_minutes = r.resolution_minutes;
    valid_time = r.valid_time;
    known_at = r.known_at;
    source_updated_at = r.source_updated_at;
    quantity_mw = quantity;
  })

-- The registry: what its answers to a PUT and a POST raise, and the id of the latter.
pub record Registry (W : Type 0) : Type 0 where
  pub put_config : String → W → Result Exception (Unit {0}) × W
  pub post_schema : String → W → Result Exception ℕ × W

-- `register`: compatibility is set before the schema is sent.
unfoldable pub register : {W : Type 0} → Registry W → String → String → W → Result Exception ℕ × W
register registry registry_url subject w =
    let (configured, w') = registry.put_config (registry_url <> "/config/" <> subject) w in
    elim configured [
      | err e ↦ (err e, w')
      | ok _ ↦ registry.post_schema (registry_url <> "/subjects/" <> subject <> "/versions") w'
    ]

-- What the loop of `run` calls: whether a signal has come, one poll, a second's sleep and a flush.
pub record Running (W : Type 0) : Type 0 where
  pub stopping : W → Bool
  pub poll : W → Result Exception (Unit {0}) × W
  pub sleep_second : W → W
  pub flush : W → W

module _ {W : Type 0} (service : Running W) where
  -- the wait between polls, at most so many seconds
  unfoldable pub wait_seconds : ℕ → W → W
  wait_seconds zero w = w
  wait_seconds (suc n) w =
      let slept = wait_seconds n (service.sleep_second w) in if service.stopping w then w else slept

  -- The loop; `none`: no signal came in so many rounds.
  unfoldable pub rounds : ℕ → Bool → ℕ → W → Option (Result Exception (Unit {0}) × W)
  rounds zero once interval w = none
  rounds (suc fuel) once interval w =
      let (polled, w') = service.poll w in
      let later = rounds fuel once interval (wait_seconds interval w') in
      if service.stopping w then some (ok tt, w) else if once then some (polled, w') else later

  -- `run`, from its loop on: an exception of a single poll skips the flush.
  unfoldable pub run : ℕ → Bool → ℕ → W → Option (Result Exception (Unit {0}) × W)
  run fuel once interval w = elim (rounds fuel once interval w) [
    | none ↦ none
    | some (err e, w') ↦ some (err e, w')
    | some (ok _, w') ↦ some (ok tt, service.flush w')
  ]
