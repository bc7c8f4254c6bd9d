-- ===== src/Contracts/Records/Fields.antt =====
-- What each field of a record was read from.
use gridlens.Prelude.{◌≡◌, ap, ◌∙◌, String, Option, none, some, Result, ok, err, arith, >>=-eq-ok}
use gridlens.Contracts.Reference.{ProductionType, zone_of_value, type_of_value}
use gridlens.Contracts.Records.{
  Candidate, GenerationRecord, required, source_of, direction_of, unit_of, minutes_of, must_be_utc,
  optional_utc, plausible_quantity, fields,
}

-- What each field was read from.
pub record ReadFrom (c : Candidate) (r : GenerationRecord) : Type 0 where
  pub source : source_of c.source ≡ some r.source
  pub document : c.source_document_id ≡ r.source_document_id
  pub zone : zone_of_value c.zone ≡ some r.zone
  pub production_type : type_of_value c.production_type ≡ some r.production_type
  pub direction : direction_of c.direction ≡ some r.direction
  pub unit : unit_of c.unit ≡ some r.unit
  pub minutes : minutes_of c.resolution_minutes ≡ some r.resolution_minutes
  pub valid_time : must_be_utc c.valid_time ≡ ok r.valid_time
  pub known_at : must_be_utc c.known_at ≡ ok r.known_at
  pub updated : optional_utc c.source_updated_at ≡ ok r.source_updated_at
  pub quantity : plausible_quantity c.quantity_mw ≡ ok r.quantity_mw

required_sound :
    {A : Type 0} (msg : String) (o : Option A) (a : A) → required msg o ≡ ok a → o ≡ some a
required_sound msg none a h = cc
required_sound msg (some b) a h = cc

abbrev type_made : Result String GenerationRecord → Option ProductionType
type_made (ok r) = some r.production_type
type_made (err _) = none

module _ (c : Candidate) (r : GenerationRecord) (h : fields c ≡ ok r) where
  fields-source : source_of c.source ≡ some r.source
  unfolding fields
  fields-source = ground arith

  fields-document : c.source_document_id ≡ r.source_document_id
  unfolding fields
  fields-document = ground arith

  fields-zone : zone_of_value c.zone ≡ some r.zone
  unfolding fields
  fields-zone = ground arith

  fields-production_type : type_of_value c.production_type ≡ some r.production_type
  unfolding fields
  fields-production_type =
      let (source, p0, h0) = >>=-eq-ok (required "literal_error" (source_of c.source)) _ h in
      let (zone, p1, h1) = >>=-eq-ok (required "enum" (zone_of_value c.zone)) _ h0 in
      let (kind, p2, h2) = >>=-eq-ok (required "enum" (type_of_value c.production_type)) _ h1 in
      let (d, _, h3) = >>=-eq-ok (required "literal_error" (direction_of c.direction)) _ h2 in
      let (u, _, h4) = >>=-eq-ok (required "literal_error" (unit_of c.unit)) _ h3 in
      let (n, _, h5) = >>=-eq-ok (required "out of range" (minutes_of c.resolution_minutes)) _ h4 in
      let (v, _, h6) = >>=-eq-ok (must_be_utc c.valid_time) _ h5 in
      let (k, _, h7) = >>=-eq-ok (must_be_utc c.known_at) _ h6 in
      let (s, _, h8) = >>=-eq-ok (optional_utc c.source_updated_at) _ h7 in
      let (q, _, h9) = >>=-eq-ok (plausible_quantity c.quantity_mw) _ h8 in
      required_sound _ (type_of_value c.production_type) kind p2 ∙ ap type_made h9

  fields-direction : direction_of c.direction ≡ some r.direction
  unfolding fields
  fields-direction = ground arith

  fields-unit : unit_of c.unit ≡ some r.unit
  unfolding fields
  fields-unit = ground arith

  fields-minutes : minutes_of c.resolution_minutes ≡ some r.resolution_minutes
  unfolding fields
  fields-minutes = ground arith

  fields-valid_time : must_be_utc c.valid_time ≡ ok r.valid_time
  unfolding fields
  fields-valid_time = ground arith

  fields-known_at : must_be_utc c.known_at ≡ ok r.known_at
  unfolding fields
  fields-known_at = ground arith

  fields-updated : optional_utc c.source_updated_at ≡ ok r.source_updated_at
  unfolding fields
  fields-updated = ground arith

  fields-quantity : plausible_quantity c.quantity_mw ≡ ok r.quantity_mw
  unfolding fields
  fields-quantity = ground arith

  pub fields-ReadFrom : ReadFrom c r
  fields-ReadFrom = record {
    source = fields-source;
    document = fields-document;
    zone = fields-zone;
    production_type = fields-production_type;
    direction = fields-direction;
    unit = fields-unit;
    minutes = fields-minutes;
    valid_time = fields-valid_time;
    known_at = fields-known_at;
    updated = fields-updated;
    quantity = fields-quantity;
  }

pub ReadFrom-fields : (c : Candidate) (r : GenerationRecord) → ReadFrom c r → fields c ≡ ok r
unfolding fields
ReadFrom-fields c r h = ground arith
