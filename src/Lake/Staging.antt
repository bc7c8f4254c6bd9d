-- ===== src/Lake/Staging.antt =====
-- src/gridlens/lake/staging.py: a batch of records as rows of the staging table. A row is what the
-- statement of lake/bronze.py casts the texts of `serialise` to; the batch's id, a uuid, and the
-- store's answer are parameters.
use gridlens.Prelude.{
  ℕ, Bool, zero, suc, ◌*◌, ◌/◌, ◌^◌, ◌≡◌, refl, sym, ap, ◌∙◌, String, true, false, inl, inr, List,
  [], ◌∷◌, ◌++◌, map, Result, ok, err, length, str_eq, ◌==◌, Bool-cases, All, arith,
}
use text.Mathlib.TextPositions.{eq_refl}
use gridlens.Prelude.Int.{ℤ, pos, negsuc}
use gridlens.Exceptions.{Exception}
use gridlens.Contracts.Reference.{zone_value, type_value}
use gridlens.Contracts.Records.{Decimal, finite, special, Source, entsoe, rte, GenerationRecord}
use gridlens.Contracts.Gate.{direction_name}
use gridlens.Lake.Bronze.{Row, Lake, batch_rows}

abbrev pub source_name : Source → String
source_name entsoe = "entsoe"
source_name rte = "rte"

-- A quantity of at most three decimal places in thousandths.
abbrev pub thousandths : Decimal → ℕ
thousandths special = 0
thousandths (finite sign coefficient (pos e)) = coefficient * 10 ^ e * 1000
thousandths (finite sign coefficient (negsuc k)) = coefficient * 1000 / 10 ^ suc k

-- The sign of a figure; of what has none, the positive.
abbrev pub sign_of : Decimal → Bool
sign_of special = false
sign_of (finite sign coefficient exponent) = sign

abbrev pub signed : Bool → ℕ → ℤ
signed false n = pos n
signed true zero = pos 0
signed true (suc n) = negsuc n

-- a line of `serialise`, cast
unfoldable pub staged_row : GenerationRecord → Row
staged_row r = record {
  source = source_name r.source;
  source_document_id = r.source_document_id;
  zone = zone_value r.zone;
  production_type = type_value r.production_type;
  direction = direction_name r.direction;
  unit = "MW";
  resolution_minutes = r.resolution_minutes;
  valid_time = r.valid_time;
  known_at = r.known_at;
  source_updated_at = r.source_updated_at;
  quantity = signed (sign_of r.quantity_mw) (thousandths r.quantity_mw);
}

-- the lines of an object stand in the staging table under the batch id of its key
unfoldable pub staged_lines : String → List GenerationRecord → List (String × Row)
unfolding staged_row
staged_lines id records = map (λ r. (id, staged_row r)) records

-- `StagingArea.write`
unfoldable pub write :
    String
    → Result Exception (Unit {0})
    → List GenerationRecord
    → Lake
    → Result Exception (String × ℕ) × Lake
unfolding staged_lines
write id stored [] lake = (ok ("", 0), lake)
write id stored (r ∷ records) lake = elim stored [
  | err e ↦ (err e, lake)
  | ok _ ↦ (
    ok (id, length (r ∷ records)),
    record lake { staging = lake.staging ++ staged_lines id (r ∷ records) },
  )
]

batch_rows-append :
    (id : String) (xs ys : List (String × Row))
    → batch_rows id (xs ++ ys) ≡ batch_rows id xs ++ batch_rows id ys
unfolding batch_rows
batch_rows-append id [] ys = refl
batch_rows-append id ((i, r) ∷ xs) ys = elim (Bool-cases (str_eq i id)) [
  | inl y ↦ rw (y, batch_rows-append id xs ys) refl
  | inr n ↦ rw (n, batch_rows-append id xs ys) refl
]

batch_rows-lines :
    (id : String) (records : List GenerationRecord)
    → batch_rows id (staged_lines id records) ≡ map staged_row records
unfolding batch_rows staged_lines
batch_rows-lines id [] = refl
batch_rows-lines id (r ∷ records) =
    rw (eq_refl id) (ap (λ l. staged_row r ∷ l) (batch_rows-lines id records))

-- Under a batch id that is new the staging table holds exactly the rows of the records that were
-- written, in their order, and the table itself is as it was.
pub batch_rows-write :
    (id batch : String) (n : ℕ) (stored : Result Exception (Unit {0}))
    (records : List GenerationRecord) (lake lake' : Lake)
    → batch_rows id lake.staging ≡ []
    → write id stored records lake ≡ (ok (batch, n), lake')
    → (batch_rows id lake'.staging ≡ map staged_row records)
      × (lake'.table ≡ lake.table)
      × (n ≡ length records)
unfolding write
batch_rows-write id batch n stored [] lake lake' new h =
    let e : lake' ≡ lake = sym (ap (λ p. p.1) h) in
    let m : n ≡ 0 = ground arith in rw e (new, refl, m)
batch_rows-write id batch n (err e) (r ∷ records) lake lake' new h = cc (ap (λ p. p.0) h)
batch_rows-write id batch n (ok u) (r ∷ records) lake lake' new h =
    let e = sym (ap (λ p. p.1) h) in
    let m : n ≡ suc (length records) = ground arith in
    rw e (
      batch_rows-append id lake.staging (staged_lines id (r ∷ records))
          ∙ rw new (batch_rows-lines id (r ∷ records)),
      refl,
      m,
    )

-- A batch that is not empty is written under its id.
pub write-batch :
    (id batch : String) (n : ℕ) (stored : Result Exception (Unit {0}))
    (records : List GenerationRecord) (lake lake' : Lake)
    → write id stored records lake ≡ (ok (batch, n), lake')
    → n == 0 ≡ false
    → batch ≡ id
unfolding write
write-batch id batch n stored [] lake lake' h some_rows = ground arith
write-batch id batch n (err e) (r ∷ records) lake lake' h some_rows = cc (ap (λ p. p.0) h)
write-batch id batch n (ok u) (r ∷ records) lake lake' h some_rows = ground arith

pub no_records : (records : List GenerationRecord) → length records == 0 ≡ true → records ≡ []
no_records [] h = refl
no_records (r ∷ records) h = ground arith

-- What holds of the staged row of each record holds of every staged row.
pub All-staged :
    (P : Row → Type 0) (records : List GenerationRecord)
    → All (λ r. P (staged_row r)) records
    → All P (map staged_row records)
All-staged P [] h = tt
All-staged P (r ∷ records) h = (h.0, All-staged P records h.1)

pub staged_row_times :
    (r : GenerationRecord)
    → ((staged_row r).known_at ≡ r.known_at) × ((staged_row r).valid_time ≡ r.valid_time)
unfolding staged_row
staged_row_times r = (refl, refl)
