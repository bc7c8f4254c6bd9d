-- ===== src/Contracts/Records/Contract.antt =====
-- What the contract of src/gridlens/contracts/records.py lets through.
use gridlens.Prelude.{
  ℕ, suc, ◌*◌, ◌%◌, ◌^◌, ◌≤◌, ◌<◌, ◌≡◌, ◌≢◌, ◌↔◌, ◌⊎◌, refl, sym, String, true, false, Option, none,
  some, List, [], ok, err, eq_iff, arith,
}
use gridlens.Prelude.Int.{pos, negsuc}
use gridlens.Timeaxis.{minute_us, day_us}
use gridlens.Contracts.Reference.{zone_value, type_value}
use gridlens.Contracts.Reference.Codes.{of_value_exact}
use gridlens.Contracts.Records.{
  Decimal, finite, special, Moment, aware, Source, entsoe, rte, Direction, generation, consumption,
  Measure, Candidate, GenerationRecord, FieldError, source_of, direction_of, unit_of, minutes_of,
  must_be_utc, optional_utc, plausible_quantity, consistent, fields, field_errors, validate,
}
use gridlens.Contracts.Records.Fields.{ReadFrom, fields-ReadFrom, ReadFrom-fields}

abbrev pub source_text : Source → String
source_text entsoe = "entsoe"
source_text rte = "rte"

abbrev pub direction_text : Direction → String
direction_text generation = "generation"
direction_text consumption = "consumption"

abbrev pub optional_aware : Option ℕ → Option Moment
optional_aware none = none
optional_aware (some t) = some (aware t (pos 0))

-- The dict that spells a record.
abbrev pub spell : GenerationRecord → Candidate
spell r = record {
  source = source_text r.source;
  source_document_id = r.source_document_id;
  zone = zone_value r.zone;
  production_type = type_value r.production_type;
  direction = direction_text r.direction;
  unit = "MW";
  resolution_minutes = r.resolution_minutes;
  valid_time = aware r.valid_time (pos 0);
  known_at = aware r.known_at (pos 0);
  source_updated_at = optional_aware r.source_updated_at;
  quantity_mw = r.quantity_mw;
}

-- A finite value between 0 and 150000 with three decimal places at most.
abbrev pub IsPlausible : Decimal → Type 0
IsPlausible special = ⊥
IsPlausible (finite sign c (pos e)) =
    ((sign ≡ false) ⊎ (c ≡ 0)) × ((sign ≡ true) ⊎ (c * 10 ^ e ≤ 150000))
IsPlausible (finite sign c (negsuc e)) =
    ((sign ≡ false) ⊎ (c ≡ 0)) × ((sign ≡ true) ⊎ (c ≤ 150000 * 10 ^ suc e)) × (suc e ≤ 3)

-- What the contract promises of a record.
pub record IsContract (r : GenerationRecord) : Type 0 where
  pub minutes_positive : 0 < r.resolution_minutes
  pub minutes_in_day : r.resolution_minutes ≤ 1440
  pub on_boundary : r.valid_time % day_us % (r.resolution_minutes * minute_us) ≡ 0
  pub realised : r.valid_time ≤ r.known_at
  pub plausible : IsPlausible r.quantity_mw

source_iff : (s : String) (x : Source) → (source_of s ≡ some x) ↔ (s ≡ source_text x)
unfolding source_of
source_iff s entsoe = (λ h. ground (arith, eq_iff s "entsoe", eq_iff s "rte"), λ e. rw e refl)
source_iff s rte = (λ h. ground (arith, eq_iff s "entsoe", eq_iff s "rte"), λ e. rw e refl)

direction_iff : (s : String) (x : Direction) → (direction_of s ≡ some x) ↔ (s ≡ direction_text x)
unfolding direction_of
direction_iff s generation =
    (λ h. ground (arith, eq_iff s "generation", eq_iff s "consumption"), λ e. rw e refl)
direction_iff s consumption =
    (λ h. ground (arith, eq_iff s "generation", eq_iff s "consumption"), λ e. rw e refl)

unit_iff : (s : String) (x : Measure) → (unit_of s ≡ some x) ↔ (s ≡ "MW")
unfolding unit_of
unit_iff s x = ground (arith, eq_iff s "MW")

minutes_iff : (n m : ℕ) → (minutes_of n ≡ some m) ↔ ((n ≡ m) × (0 < m) × (m ≤ 1440))
unfolding minutes_of
minutes_iff n m = ground arith

utc_iff : (m : Moment) (t : ℕ) → (must_be_utc m ≡ ok t) ↔ (m ≡ aware t (pos 0))
unfolding must_be_utc
utc_iff m t = ground arith

optional_iff : (m : Option Moment) (t : Option ℕ) → (optional_utc m ≡ ok t) ↔ (m ≡ optional_aware t)
unfolding optional_utc must_be_utc
optional_iff m t = ground arith

IsPlausible-iff : (q p : Decimal) → (plausible_quantity q ≡ ok p) ↔ ((q ≡ p) × IsPlausible p)
unfolding plausible_quantity
IsPlausible-iff q p = ground arith

consistent_iff :
    (r r' : GenerationRecord)
    → (consistent r ≡ ok r') ↔ (
        (r ≡ r')
        × (r.valid_time % day_us % (r.resolution_minutes * minute_us) ≡ 0)
        × (r.valid_time ≤ r.known_at))
unfolding consistent
consistent_iff r r' = ground arith

ReadFrom-spell : (r : GenerationRecord) → IsContract r → ReadFrom (spell r) r
ReadFrom-spell r h = record {
  source = (source_iff _ r.source).1 refl;
  document = refl;
  zone = ((of_value_exact (zone_value r.zone)).0 r.zone).1 refl;
  production_type = ((of_value_exact (type_value r.production_type)).1 r.production_type).1 refl;
  direction = (direction_iff _ r.direction).1 refl;
  unit = (unit_iff "MW" r.unit).1 refl;
  minutes = (minutes_iff _ _).1 (refl, h.minutes_positive, h.minutes_in_day);
  valid_time = (utc_iff _ _).1 refl;
  known_at = (utc_iff _ _).1 refl;
  updated = (optional_iff _ r.source_updated_at).1 refl;
  quantity = (IsPlausible-iff _ _).1 (refl, h.plausible);
}

ReadFrom-eq : (c : Candidate) (r : GenerationRecord) → ReadFrom c r → c ≡ spell r
ReadFrom-eq c r h = λ i. record {
  source = (source_iff _ r.source).0 h.source i;
  source_document_id = h.document i;
  zone = sym (((of_value_exact c.zone).0 r.zone).0 h.zone) i;
  production_type =
      sym (((of_value_exact c.production_type).1 r.production_type).0 h.production_type) i;
  direction = (direction_iff _ r.direction).0 h.direction i;
  unit = (unit_iff _ r.unit).0 h.unit i;
  resolution_minutes = ((minutes_iff _ _).0 h.minutes).0 i;
  valid_time = (utc_iff _ _).0 h.valid_time i;
  known_at = (utc_iff _ _).0 h.known_at i;
  source_updated_at = (optional_iff _ _).0 h.updated i;
  quantity_mw = ((IsPlausible-iff _ _).0 h.quantity).0 i;
}

validate_parts :
    (c : Candidate) (r : GenerationRecord)
    → validate c ≡ ok r
    → (r' : GenerationRecord) × (fields c ≡ ok r') × (consistent r' ≡ ok r)
unfolding validate
validate_parts c r h = ground arith

validate_of_parts :
    (c : Candidate) (r : GenerationRecord)
    → fields c ≡ ok r
    → consistent r ≡ ok r
    → validate c ≡ ok r
unfolding validate
validate_of_parts c r h k = ground arith

field_errors-ne-nil : (c : Candidate) (e : String) → fields c ≡ err e → field_errors c ≢ []
unfolding fields field_errors
field_errors-ne-nil c e h = ground arith

-- `GenerationRecord(**candidate)` gives a record exactly if the candidate spells it, field by
-- field, and the record meets the contract: minutes in 1 to 1440, a period on a boundary of its
-- resolution and not in the future of `known_at`, and a finite quantity between 0 and 150000 with
-- at most three decimal places.
pub validate_exact :
    (c : Candidate) (r : GenerationRecord) → (validate c ≡ ok r) ↔ ((c ≡ spell r) × IsContract r)
validate_exact c r = (
  λ h.
      let (r', f, k) = validate_parts c r h in
      let (same, boundary, realised) = (consistent_iff r' r).0 k in
      let read : ReadFrom c r = rw same at (fields-ReadFrom c r' f) in
      let m = (minutes_iff _ _).0 read.minutes in
      (
        ReadFrom-eq c r read,
        record {
          minutes_positive = m.1;
          minutes_in_day = m.2;
          on_boundary = rw same at boundary;
          realised = rw same at realised;
          plausible = ((IsPlausible-iff _ _).0 read.quantity).1;
        },
      ),
  λ (e, k). rw e (
      validate_of_parts (spell r) r (ReadFrom-fields (spell r) r (ReadFrom-spell r k))
        ((consistent_iff r r).1 (refl, k.on_boundary, k.realised))),
)

-- A refusal names at least one field or rule.
pub validate_errors : (c : Candidate) (es : List FieldError) → validate c ≡ err es → es ≢ []
unfolding validate
validate_errors c es h = grind (arith, field_errors-ne-nil)
