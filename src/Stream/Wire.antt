-- ===== src/Stream/Wire.antt =====
-- src/gridlens/stream/serialization.py: the five bytes before a message's body, `struct` of `>bI`.
-- The avro writer and reader are parameters; bytes are numbers.
use gridlens.Prelude.{
  ℕ, ◌+◌, ◌*◌, ◌/◌, ◌%◌, ◌<◌, ◌≡◌, refl, ap, not, true, List, [], ◌∷◌, ◌++◌, Result, ok, err, ◌>>=◌,
  ◌==◌, ltb, if◌then◌else◌, arith,
}
use gridlens.Exceptions.{Exception, value_error}
use gridlens.Contracts.Records.{GenerationRecord}
use gridlens.Contracts.Records.Contract.{IsContract}
use gridlens.Lake.Staging.{sign_of, staged_row}
use gridlens.Stream.Service.{AvroRecord, to_avro}
use gridlens.Stream.Figures.{avro_of, to_avro-staged_row}

-- `HEADER.pack(MAGIC, schema_id)`; `struct` refuses an id that four bytes do not hold.
unfoldable pub pack_header : ℕ → Result Exception (List ℕ)
pack_header schema_id =
    if ltb schema_id 4294967296
    then ok (
        0
        ∷ (schema_id / 16777216)
        ∷ (schema_id / 65536 % 256)
        ∷ (schema_id / 256 % 256)
        ∷ (schema_id % 256)
        ∷ [])
    else err (value_error "struct.error")

-- `encode`; what the writer is given is the record as `to_avro` makes it.
unfoldable pub encode : (AvroRecord → List ℕ) → GenerationRecord → ℕ → Result Exception (List ℕ)
encode write r schema_id = do
  header ← pack_header schema_id
  avro ← to_avro r
  ok (header ++ write avro)

-- `decode`; the reader gives the record, or what it raises
unfoldable pub decode :
    {A : Type 0} → (List ℕ → Result Exception A) → List ℕ → Result Exception (ℕ × A)
decode read (magic ∷ a ∷ b ∷ c ∷ d ∷ body) =
    if not (magic == 0)
    then err (value_error "magic byte")
    else elim (read body) [ err e ↦ err e | ok r ↦ ok (a * 16777216 + b * 65536 + c * 256 + d, r) ]
decode read _ = err (value_error "shorter than the header")

header_value :
    (n : ℕ) → n / 16777216 * 16777216 + n / 65536 % 256 * 65536 + n / 256 % 256 * 256 + n % 256 ≡ n
header_value n = omega arith

pack_header_small :
    (n : ℕ)
    → n < 4294967296
    → pack_header n ≡ ok (0 ∷ (n / 16777216) ∷ (n / 65536 % 256) ∷ (n / 256 % 256) ∷ (n % 256) ∷ [])
unfolding pack_header
pack_header_small n small = let fits : ltb n 4294967296 ≡ true = ground arith in rw fits refl

decode_parts :
    {A : Type 0} (read : List ℕ → Result Exception A) (body : List ℕ) (r : A) (n : ℕ)
    → read body ≡ ok r
    → decode read (0 ∷ (n / 16777216) ∷ (n / 65536 % 256) ∷ (n / 256 % 256) ∷ (n % 256) ∷ body)
      ≡ ok (n, r)
unfolding decode
decode_parts read body r n back = rw back (ap (λ v. ok (v, r)) (header_value n))

-- A record that meets the contract is written under an id that fits four bytes, and reading the message
-- back gives the id and the avro record that says what the record's row in the bronze table says, if
-- the avro reader reads back what the avro writer has written of that avro record.
pub decode-encode :
    (write : AvroRecord → List ℕ) (read : List ℕ → Result Exception AvroRecord)
    (r : GenerationRecord) (schema_id : ℕ)
    → IsContract r
    → schema_id < 4294967296
    → let avro = avro_of (sign_of r.quantity_mw) (staged_row r) in
      read (write avro) ≡ ok avro
      → (payload : List ℕ) × (encode write r schema_id ≡ ok payload)
        × (decode read payload ≡ ok (schema_id, avro))
unfolding encode
decode-encode write read r n contract small back =
    let avro = avro_of (sign_of r.quantity_mw) (staged_row r) in
    (
      0 ∷ (n / 16777216) ∷ (n / 65536 % 256) ∷ (n / 256 % 256) ∷ (n % 256) ∷ write avro,
      rw (pack_header_small n small, (to_avro-staged_row r contract).0) refl,
      decode_parts read (write avro) avro n back,
    )
