-- ===== src/Ingest/RteParse.antt =====
-- src/gridlens/ingest/rte_parse.py: an RTE payload as contract records. The payload is what
-- `json.loads` makes of the body, as records whose keys may be missing; the readers of times and
-- decimals are parameters. The grid of a window is a loop on fuel.
mod Tests
pub mod Grid
pub mod Moments
pub mod Account
pub mod Totals
use gridlens.Prelude.{
  ℕ, zero, suc, ◌+◌, ◌/◌, String, Bool, false, not, ◌&&◌, Option, none, some, List, [], ◌∷◌, ◌++◌,
  any, Result, ok, err, ◌>>=◌, ◌>>◌, raise_if, or_raise, fold_ok, ltb, ◌==◌, str_eq, if◌then◌else◌,
}
use gridlens.Prelude.Int.{ℤ, pos, negsuc, eqb_ℤ, sub_ℕ}
use gridlens.Exceptions.{Exception, value_error, key_error, invalid_operation, overflow_error}
use gridlens.Timeaxis.{sub_offset, minute_us}
use gridlens.Contracts.Reference.{ProductionType, BiddingZone, type_value, zone_value}
use gridlens.Contracts.Records.{
  Decimal, finite, special, Moment, naive, aware, generation, consumption,
}
use gridlens.Contracts.Gate.{
  GateResult, no_result, build_record, sort_out, direction_name, rte_type, unknown_production_type,
  mixed_resolution,
}

pub record Value : Type 0 where
  pub start_date : Option String
  pub end_date : Option String
  pub value : Option String
  pub updated_date : Option String

pub record Entry : Type 0 where
  pub production_type : Option String
  pub start_date : Option String
  pub end_date : Option String
  pub values : List Value

-- `PRODUCTION_TYPES`
abbrev pub production_types : List (String × ProductionType)
production_types =
    ("BIOMASS", ProductionType.biomass)
    ∷ ("FOSSIL_GAS", ProductionType.gas)
    ∷ ("FOSSIL_HARD_COAL", ProductionType.hard_coal)
    ∷ ("FOSSIL_OIL", ProductionType.oil)
    ∷ ("FOSSIL_BROWN_COAL", ProductionType.lignite)
    ∷ ("HYDRO_PUMPED_STORAGE", ProductionType.hydro_pumped_storage)
    ∷ ("HYDRO_RUN_OF_RIVER_AND_POUNDAGE", ProductionType.hydro_run_of_river)
    ∷ ("HYDRO_WATER_RESERVOIR", ProductionType.hydro_reservoir)
    ∷ ("NUCLEAR", ProductionType.nuclear)
    ∷ ("SOLAR", ProductionType.solar)
    ∷ ("WASTE", ProductionType.waste)
    ∷ ("WIND_OFFSHORE", ProductionType.wind_offshore)
    ∷ ("WIND_ONSHORE", ProductionType.wind_onshore)
    ∷ ("EXCHANGE", ProductionType.other)
    ∷ []

pub look_up : {A : Type 0} → String → List (String × A) → Option A
look_up k [] = none
look_up k ((name, a) ∷ rest) = if str_eq name k then some a else look_up k rest

-- `_expected` for a resolution that is not negative: `none` means that the fuel ran out, as it does
-- if the resolution is zero.
pub expected_moments : ℕ → ℕ → ℕ → ℕ → Option (List ℕ)
expected_moments zero moment end resolution = none
expected_moments (suc fuel) moment end resolution =
    let later = expected_moments fuel (moment + resolution) end resolution in
    if ltb moment end then (elim later [ none ↦ none | some ms ↦ some (moment ∷ ms) ]) else some []

-- a difference of two instants, into a set of them
abbrev pub add_span : List ℤ → ℤ → List ℤ
add_span spans d = if any (λ s. eqb_ℤ s d) spans then spans else d ∷ spans

abbrev pub is_total : Entry → Bool
is_total e = elim e.production_type [ none ↦ false | some t ↦ str_eq t "TOTAL" ]

abbrev pub negative : Decimal → Bool
negative special = false
negative (finite sign coefficient exponent) = sign && not (coefficient == 0)

abbrev pub magnitude : Decimal → Decimal
magnitude special = special
magnitude (finite sign coefficient exponent) = finite false coefficient exponent

pub present_at : ℕ → List (ℕ × Value) → Option Value
present_at t [] = none
present_at t ((u, v) ∷ rest) = if u == t then some v else present_at t rest

module _ (read_moment : String → Option Moment) (read_decimal : String → Option Decimal)
    (zone : BiddingZone) (known_at : Moment) where
  -- `_instant` of rte_parse.py
  pub utc_instant : String → Result Exception ℕ
  utc_instant text = elim (read_moment text) [
    | none ↦ err (value_error "invalid isoformat string")
    | some m ↦ elim m [
      | naive r ↦ err (value_error "timestamp without an offset")
      | aware r o ↦ ok (sub_offset r o)
    ]
  ]

  pub instant_at : String → Option String → Result Exception ℕ
  instant_at key text = do t ← or_raise text (key_error key); utc_instant t

  -- `_optional_instant`
  pub optional_instant : Option String → Result Exception (Option Moment)
  optional_instant none = ok none
  optional_instant (some text) =
      if str_eq text "" then ok none else (do t ← utc_instant text; ok (some (aware t (pos 0))))

  -- the spans of the values that have an end
  pub span_of : List ℤ → Value → Result Exception (List ℤ)
  span_of spans v = elim v.end_date [
    | none ↦ ok spans
    | some e ↦ do
      end ← utc_instant e
      start ← instant_at "start_date" v.start_date
      ok (add_span spans (sub_ℕ end start))
  ]

  -- `present`, newest value first, so that a later one replaces an earlier one
  pub add_present : List (ℕ × Value) → Value → Result Exception (List (ℕ × Value))
  add_present present v = do t ← instant_at "start_date" v.start_date; ok ((t, v) ∷ present)

  -- the loop over the moments of the grid
  pub add_moment :
      ProductionType → ℕ → List (ℕ × Value) → GateResult → ℕ → Result Exception GateResult
  add_moment production_type resolution present g moment = elim (present_at moment present) [
    | none ↦ ok (record g {
      gaps =
          g.gaps
          ++ (record {
            zone = zone_value zone;
            production_type = type_value production_type;
            direction = generation;
            valid_time = moment;
            position = 0;
          })
            ∷ [];
    })
    | some v ↦ do
      text ← or_raise v.value (key_error "value")
      quantity ← or_raise (read_decimal text) invalid_operation
      updated ← optional_instant v.updated_date
      ok (
          sort_out g (
            build_record (record {
              source = "rte";
              source_document_id = none;
              zone = zone_value zone;
              production_type = type_value production_type;
              direction = direction_name (if negative quantity then consumption else generation);
              unit = "MW";
              resolution_minutes = resolution / minute_us;
              valid_time = aware moment (pos 0);
              known_at = known_at;
              source_updated_at = updated;
              quantity_mw = magnitude quantity;
            })))
  ]

  -- the values by their start, and the window
  abbrev pub grid_window : Entry → Result Exception (List (ℕ × Value) × (ℕ × ℕ))
  grid_window e = do
    present ← fold_ok add_present [] e.values
    start ← instant_at "start_date" e.start_date
    end ← instant_at "end_date" e.end_date
    ok (present, (start, end))

  -- The part of `_normalise_entry` behind the check of the spans, for one that is not negative;
  -- `none`: the fuel ran out.
  pub fill_grid : ℕ → ProductionType → ℕ → Entry → GateResult → Option (Result Exception GateResult)
  fill_grid fuel production_type resolution e g = elim (grid_window e) [
    | err x ↦ some (err x)
    | ok (present, (start, end)) ↦ elim (expected_moments fuel start end resolution) [
      | none ↦ none
      | some moments ↦ some (fold_ok (add_moment production_type resolution present) g moments)
    ]
  ]

  -- That part for a negative span: in a window that is not empty the moments go back until a date
  -- cannot hold them.
  pub go_back : Entry → GateResult → Result Exception GateResult
  go_back e g = do window ← grid_window e; raise_if (ltb window.1.0 window.1.1) overflow_error; ok g

  -- `_normalise_entry`
  pub normalise_entry : ℕ → Entry → GateResult → Option (Result Exception GateResult)
  normalise_entry fuel e g =
      let raw_type : String = elim e.production_type [ none ↦ "" | some t ↦ t ] in
      elim (look_up raw_type production_types) [
        | none ↦ some (
            ok (record g {
              violations =
                  g.violations
                  ++ (record { reason = unknown_production_type; payload = rte_type raw_type })
                    ∷ [];
            }))
        | some production_type ↦ elim e.values [
          | [] ↦ some (ok g)
          | v ∷ vs ↦ elim (fold_ok span_of [] e.values) [
            | err x ↦ some (err x)
            | ok (pos resolution ∷ []) ↦ fill_grid fuel production_type resolution e g
            | ok (negsuc _ ∷ []) ↦ some (go_back e g)
            | ok _ ↦ some (
                ok (record g {
                  violations =
                      g.violations
                      ++ (record { reason = mixed_resolution; payload = rte_type raw_type }) ∷ [];
                }))
          ]
        ]
      ]

  -- the loop of `parse_actual_generation`
  pub normalise_entries : ℕ → List Entry → GateResult → Option (Result Exception GateResult)
  normalise_entries fuel [] g = some (ok g)
  normalise_entries fuel (e ∷ rest) g =
      elim (if is_total e then some (ok g) else normalise_entry fuel e g) [
        | none ↦ none
        | some (err x) ↦ some (err x)
        | some (ok g') ↦ normalise_entries fuel rest g'
      ]

  -- `parse_actual_generation`, from the payload's resource if it has one
  pub parse_actual_generation : ℕ → Option (List Entry) → Option (Result Exception GateResult)
  parse_actual_generation fuel none = some (err (value_error "expected a payload of the resource"))
  parse_actual_generation fuel (some entries) = normalise_entries fuel entries no_result
