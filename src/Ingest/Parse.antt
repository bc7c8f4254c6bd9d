-- ===== src/Ingest/Parse.antt =====
-- src/gridlens/ingest/entsoe_parse.py: an A75 document as series with a time on every point.
mod Tests
pub mod Counting
pub mod Positions
pub mod Grid
pub mod Periods
use mathlib.Core.List.{foldl}
use gridlens.Prelude.{
  ℕ, zero, suc, ◌+◌, String, Bool, true, false, not, ◌&&◌, ◌||◌, Option, none, some, List, [], ◌∷◌,
  ◌++◌, Result, ok, err, ◌>>=◌, ◌>>◌, raise_if, or_raise, fold_ok, any, keep, str_eq, if◌then◌else◌,
  ◌==◌,
}
use gridlens.Prelude.Int.{ℤ, pos, leb_ℤ, ltb_ℤ, eqb_ℤ}
use gridlens.Exceptions.{Exception, value_error, key_error, invalid_operation}
use gridlens.Timeaxis.{period_count, position_time}
use gridlens.Timeaxis.Duration.{parse_resolution}
use gridlens.Contracts.Records.{Decimal, Direction, generation, consumption}
use gridlens.Ingest.Xml.{Element, Readers, children, tag_of, stripped, local_name, instant}
use gridlens.Ingest.Document.{Observation, GenerationSeries, Document}

abbrev pub Quantities : Type 0
Quantities = List (ℤ × Decimal)

-- `position in quantities`
unfoldable pub has_position : ℤ → Quantities → Bool
has_position p = any (λ q. eqb_ℤ q.0 p)

-- `range(first, first + count)`
unfoldable pub range : ℕ → ℕ → List ℕ
range first zero = []
range first (suc count) = first ∷ range (suc first) count

-- `sorted(quantities)`, each position with its quantity
unfoldable pub insert_sorted : ℤ × Decimal → Quantities → Quantities
insert_sorted q [] = q ∷ []
insert_sorted q (r ∷ rest) =
    let later = insert_sorted q rest in if leb_ℤ q.0 r.0 then q ∷ (r ∷ rest) else r ∷ later

unfoldable pub sort_positions : Quantities → Quantities
sort_positions [] = []
sort_positions (q ∷ rest) = insert_sorted q (sort_positions rest)

unfoldable pub observe : ℕ → ℕ → Quantities → Result Exception (List Observation)
observe start resolution [] = ok []
observe start resolution ((p, v) ∷ rest) = do
  t ← position_time start resolution p
  later ← observe start resolution rest
  ok ((record { valid_time = t; position = p; quantity = v }) ∷ later)

-- The state of the loop over a Period's children.
pub record PeriodParts : Type 0 where
  pub resolution : Option ℕ
  pub start : Option ℕ
  pub end : Option ℕ
  pub quantities : Quantities

-- The part of `_parse_period` behind its loop.
unfoldable pub build_period :
    String → String → Direction → String → PeriodParts → Result Exception GenerationSeries
build_period zone production_type direction unit parts = do
  resolution ← or_raise parts.resolution (value_error "Period missing resolution or timeInterval")
  start ← or_raise parts.start (value_error "Period missing resolution or timeInterval")
  end ← or_raise parts.end (value_error "Period missing resolution or timeInterval")
  expected ← period_count start end resolution
  raise_if (any (λ q. ltb_ℤ (pos expected) q.0) parts.quantities)
      (value_error "positions past the end of the interval")
  observations ← observe start resolution (sort_positions parts.quantities)
  ok (record {
    zone = zone;
    production_type = production_type;
    direction = direction;
    unit = unit;
    resolution = resolution;
    interval_start = start;
    interval_end = end;
    observations = observations;
    missing_positions = keep (λ p. not (has_position (pos p) parts.quantities)) (range 1 expected);
  })

unfoldable pub add_point : PeriodParts → ℤ × Decimal → Result Exception PeriodParts
add_point parts point = do
  raise_if (has_position point.0 parts.quantities) (value_error "position appears twice")
  ok (record parts { quantities = parts.quantities ++ point ∷ [] })

abbrev pub no_parts : PeriodParts
no_parts = record { resolution = none; start = none; end = none; quantities = [] }

-- What the loop of `_parse_series` collects.
pub record SeriesParts : Type 0 where
  pub production_type : String
  pub unit : String
  pub in_zone : String
  pub out_zone : String
  pub periods : List Element

abbrev pub no_series : SeriesParts
no_series = record { production_type = ""; unit = ""; in_zone = ""; out_zone = ""; periods = [] }

abbrev pub is_empty : {A : Type 0} → List A → Bool
is_empty [] = true
is_empty (_ ∷ _) = false

-- The direction and the zone that a series names.
unfoldable pub name_zone : SeriesParts → Result Exception (Direction × String)
name_zone parts =
    let has_in = not (str_eq parts.in_zone "") in
    let has_out = not (str_eq parts.out_zone "") in
    if has_in && has_out
    then err (value_error "TimeSeries claims both directions")
    else if has_in
    then ok (generation, parts.in_zone)
    else if has_out
    then ok (consumption, parts.out_zone)
    else err (value_error "TimeSeries names no bidding zone")

-- `dict` of the document's plain fields; a later one replaces an earlier one.
unfoldable pub header_get : String → List (String × String) → Option String
header_get key [] = none
header_get key ((k, v) ∷ rest) = if str_eq k key then some v else header_get key rest

abbrev pub or_else : String → Option String → String
or_else fallback none = fallback
or_else fallback (some s) = s

module _ (readers : Readers) where
  -- `_parse_point`, one child and the whole
  unfoldable pub point_child :
      Option ℤ × Option Decimal → Element → Result Exception (Option ℤ × Option Decimal)
  point_child (position, quantity) child =
      let name = local_name (tag_of child) in
      if str_eq name "position"
      then (do
        p ←
            or_raise (readers.read_int (stripped readers child))
              (value_error "invalid literal for int()")
        ok (some p, quantity))
      else if str_eq name "quantity"
      then (do
        q ← or_raise (readers.read_decimal (stripped readers child)) invalid_operation
        ok (position, some q))
      else ok (position, quantity)

  unfoldable pub parse_point : Element → Result Exception (ℤ × Decimal)
  parse_point node = do
    found ← fold_ok point_child (none, none) (children node)
    p ← or_raise found.0 (value_error "Point missing position or quantity")
    q ← or_raise found.1 (value_error "Point missing position or quantity")
    ok (p, q)

  -- the loop over a `timeInterval`
  unfoldable pub interval_child : PeriodParts → Element → Result Exception PeriodParts
  interval_child parts sub =
      let name = local_name (tag_of sub) in
      if str_eq name "start"
      then (do t ← instant readers (stripped readers sub); ok (record parts { start = some t }))
      else if str_eq name "end"
      then (do t ← instant readers (stripped readers sub); ok (record parts { end = some t }))
      else ok parts

  unfoldable pub period_child : PeriodParts → Element → Result Exception PeriodParts
  period_child parts child =
      let name = local_name (tag_of child) in
      if str_eq name "resolution"
      then (do
        r ← parse_resolution readers.digit (stripped readers child)
        ok (record parts { resolution = some r }))
      else if str_eq name "timeInterval"
      then fold_ok interval_child parts (children child)
      else if str_eq name "Point"
      then (do point ← parse_point child; add_point parts point)
      else ok parts

  unfoldable pub parse_period :
      Element → String → String → Direction → String → Result Exception GenerationSeries
  parse_period node zone production_type direction unit = do
    parts ← fold_ok period_child no_parts (children node)
    build_period zone production_type direction unit parts

  unfoldable pub psr_child : String → List Element → String
  psr_child production_type [] = production_type
  psr_child production_type (sub ∷ rest) =
      psr_child
        (if str_eq (local_name (tag_of sub)) "psrType"
          then stripped readers sub
          else production_type)
        rest

  unfoldable pub series_child : SeriesParts → Element → SeriesParts
  unfolding psr_child
  series_child parts child =
      let name = local_name (tag_of child) in
      if str_eq name "MktPSRType"
      then record parts { production_type = psr_child parts.production_type (children child) }
      else if str_eq name "inBiddingZone_Domain.mRID"
      then record parts { in_zone = stripped readers child }
      else if str_eq name "outBiddingZone_Domain.mRID"
      then record parts { out_zone = stripped readers child }
      else if str_eq name "quantity_Measure_Unit.name"
      then record parts { unit = stripped readers child }
      else if str_eq name "Period"
      then record parts { periods = parts.periods ++ child ∷ [] }
      else parts

  unfoldable pub parse_periods :
      List Element → String → String → Direction → String → Result Exception (List GenerationSeries)
  parse_periods [] zone production_type direction unit = ok []
  parse_periods (p ∷ rest) zone production_type direction unit = do
    s ← parse_period p zone production_type direction unit
    later ← parse_periods rest zone production_type direction unit
    ok (s ∷ later)

  unfoldable pub parse_series : Element → Result Exception (List GenerationSeries)
  parse_series node = do
    let parts = foldl series_child no_series (children node)
    raise_if (is_empty parts.periods) (value_error "TimeSeries with no Period")
    named ← name_zone parts
    parse_periods parts.periods named.1 parts.production_type named.0 parts.unit

  -- The loop of `parse_generation`: the header, newest field first, and the series.
  unfoldable pub document_child :
      List (String × String) × List GenerationSeries
      → Element
      → Result Exception (List (String × String) × List GenerationSeries)
  document_child (header, series) child =
      let name = local_name (tag_of child) in
      if str_eq name "TimeSeries"
      then (do found ← parse_series child; ok (header, series ++ found))
      else if is_empty (children child)
      then ok ((name, stripped readers child) ∷ header, series)
      else ok (header, series)

  unfoldable pub parse_generation : String → Result Exception Document
  parse_generation body = do
    root ← readers.fromstring body
    raise_if (not (str_eq (local_name (tag_of root)) "GL_MarketDocument"))
        (value_error "expected GL_MarketDocument")
    found ← fold_ok document_child ([], []) (children root)
    revision ←
        or_raise (readers.read_int (or_else "0" (header_get "revisionNumber" found.0)))
          (value_error "invalid literal for int()")
    created ← or_raise (header_get "createdDateTime" found.0) (key_error "createdDateTime")
    created_at ← instant readers created
    ok (record {
      mrid = or_else "" (header_get "mRID" found.0);
      revision_number = revision;
      document_type = or_else "" (header_get "type" found.0);
      process_type = or_else "" (header_get "process.processType" found.0);
      created_at = created_at;
      series = found.1;
    })
