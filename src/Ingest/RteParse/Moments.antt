-- ===== src/Ingest/RteParse/Moments.antt =====
-- What becomes of one moment of an entry's grid, in `_normalise_entry` of
-- src/gridlens/ingest/rte_parse.py.
use gridlens.Prelude.{
  ℕ, ◌/◌, ◌≡◌, refl, sym, ap, ◌∙◌, ◌⊎◌, inl, inr, String, Bool, true, false, Option, none, some,
  List, [], ◌∷◌, ◌++◌, ok, err, >>=-eq-ok, ok-injective, or_raise, Option-cases, Result-cases,
  if◌then◌else◌,
}
use gridlens.Prelude.Int.{pos}
use gridlens.Exceptions.{Exception}
use gridlens.Timeaxis.{minute_us}
use gridlens.Contracts.Reference.{ProductionType, BiddingZone, type_value, zone_value}
use gridlens.Contracts.Records.{
  Decimal, Moment, aware, generation, consumption, Candidate, FieldError, GenerationRecord,
  validate,
}
use gridlens.Contracts.Records.Contract.{spell, IsContract, validate_exact}
use gridlens.Contracts.Gate.{
  GateResult, Gap, Violation, contract_violation, direction_name, build_record, sort_out,
}
use gridlens.Ingest.RteParse.{Value, negative, magnitude, present_at, optional_instant, add_moment}

or_raise-some :
    {A : Type 0} (o : Option A) (e : Exception) (a : A) → or_raise o e ≡ ok a → o ≡ some a
or_raise-some none e a h = cc h
or_raise-some (some b) e a h = ap some (ok-injective h)

direction_of_sign :
    (b : Bool)
    → direction_name (if b then consumption else generation)
      ≡ (if b then "consumption" else "generation")
direction_of_sign true = refl
direction_of_sign false = refl

module _ (read_moment : String → Option Moment) (read_decimal : String → Option Decimal)
    (zone : BiddingZone) (known_at : Moment) (production_type : ProductionType) (resolution : ℕ)
    (present : List (ℕ × Value)) where
  -- Whether a value starts at the moment, and the gap where none does.
  abbrev pub is_held : ℕ → Bool
  is_held m = elim (present_at m present) [ none ↦ false | some v ↦ true ]

  abbrev pub gap_for : ℕ → Gap
  gap_for m = record {
    zone = zone_value zone;
    production_type = type_value production_type;
    direction = generation;
    valid_time = m;
    position = 0;
  }

  -- The candidate says what the value of the moment says: its magnitude, and its sign as a direction.
  pub record Reads (m : ℕ) (v : Value) (c : Candidate) : Type 0 where
    pub text : String
    pub quantity : Decimal
    pub value : v.value ≡ some text
    pub number : read_decimal text ≡ some quantity
    pub quantity_mw : c.quantity_mw ≡ magnitude quantity
    pub direction : c.direction ≡ (if negative quantity then "consumption" else "generation")
    pub valid_time : c.valid_time ≡ aware m (pos 0)
    pub known : c.known_at ≡ known_at
    pub source : c.source ≡ "rte"
    pub of_zone : c.zone ≡ zone_value zone
    pub of_type : c.production_type ≡ type_value production_type
    pub minutes : c.resolution_minutes ≡ resolution / minute_us

  -- A record, or a violation, of the value that starts at a moment.
  abbrev pub RecordAt : ℕ → GenerationRecord → Type 0
  RecordAt m r = (v : Value) × (present_at m present ≡ some v) × Reads m v (spell r) × IsContract r

  abbrev pub RefusedAt : ℕ → Violation → Type 0
  RefusedAt m u =
      (v : Value) × (c : Candidate) × (es : List FieldError) × (present_at m present ≡ some v)
      × Reads m v c
      × (validate c ≡ err es)
      × (u ≡ contract_violation c es)

  -- One moment more: a gap, a record or a violation.
  abbrev pub Becomes : ℕ → GateResult → GateResult → Type 0
  Becomes m g g' =
      ((is_held m ≡ false) × (g' ≡ record g { gaps = g.gaps ++ gap_for m ∷ [] }))
      ⊎ (((r : GenerationRecord) × (is_held m ≡ true)
            × RecordAt m r
            × (g' ≡ record g { records = g.records ++ r ∷ [] }))
          ⊎ ((u : Violation) × (is_held m ≡ true)
              × RefusedAt m u
              × (g' ≡ record g { violations = g.violations ++ u ∷ [] })))

  sorted_out :
      (m : ℕ) (v : Value) (c : Candidate) (g g' : GateResult)
      → present_at m present ≡ some v
      → Reads m v c
      → sort_out g (build_record c) ≡ g'
      → Becomes m g g'
  unfolding build_record sort_out
  sorted_out m v c g g' held reads h = elim (Result-cases (validate c)) [
    | inl (r, e) ↦
        let (same, contract) = (validate_exact c r).0 e in
        inr (
          inl (
            r,
            rw (held, is_held) refl,
            (v, held, rw same at reads, contract),
            sym h ∙ rw (e, sort_out) refl,
          ))
    | inr (es, e) ↦ inr (
        inr (
          contract_violation c es,
          rw (held, is_held) refl,
          (v, c, es, held, reads, e, refl),
          sym h ∙ rw (e, sort_out) refl,
        ))
  ]

  pub add_moment-Becomes :
      (g g' : GateResult) (m : ℕ)
      → add_moment read_moment read_decimal zone known_at production_type resolution present g m
        ≡ ok g'
      → Becomes m g g'
  unfolding add_moment
  add_moment-Becomes g g' m h = elim (Option-cases (present_at m present)) [
    | inl missing ↦
        inl (rw (missing, is_held) refl, sym (ok-injective (rw (missing, add_moment) at h)))
    | inr (v, held) ↦
        let (text, given, h1) = >>=-eq-ok (or_raise v.value _) _ (rw (held, add_moment) at h) in
        let (quantity, number, h2) = >>=-eq-ok (or_raise (read_decimal text) _) _ h1 in
        let (updated, _, h3) =
          >>=-eq-ok (optional_instant read_moment read_decimal zone known_at v.updated_date) _ h2 in
        sorted_out m v _ g g' held
          (record {
            text = text;
            quantity = quantity;
            value = or_raise-some v.value _ text given;
            number = or_raise-some (read_decimal text) _ quantity number;
            quantity_mw = refl;
            direction = direction_of_sign (negative quantity);
            valid_time = refl;
            known = refl;
            source = refl;
            of_zone = refl;
            of_type = refl;
            minutes = refl;
          })
          (ok-injective h3)
  ]
