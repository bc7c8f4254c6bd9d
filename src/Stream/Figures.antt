-- ===== src/Stream/Figures.antt =====
-- The stream and the bronze table hold the same figures: `to_avro` against the staged row.
use gridlens.Prelude.{
  ℕ, zero, suc, ◌+◌, ◌*◌, ◌^◌, ◌≤◌, ◌≡◌, refl, inl, inr, Bool, true, false, ok, ◌⊎◌, leb, arith,
}
use gridlens.Prelude.Int.{ℤ, pos, negsuc, pos_part, ◌≤ℤ◌}
use native.Mathlib.Nat.{pow-suc}
use gridlens.Contracts.Records.{Decimal, finite, special, GenerationRecord}
use gridlens.Contracts.Records.Contract.{IsContract, IsPlausible}
use gridlens.Lake.Bronze.{Row}
use gridlens.Lake.Staging.{sign_of, signed, thousandths, staged_row}
use gridlens.Stream.Service.{quantized, quantize, AvroRecord, to_avro}

pow_thousand : (e : ℕ) → 10 ^ (e + 3) ≡ 10 ^ e * 1000
pow_thousand e =
    let e3 : e + 3 ≡ suc (suc (suc e)) = omega arith in
    rw e3 (omega (arith, pow-suc 10 (suc (suc e)), pow-suc 10 (suc e), pow-suc 10 e))

bounded :
    (sign : Bool) (c v m : ℕ)
    → (sign ≡ false) ⊎ (c ≡ 0)
    → (sign ≡ true) ⊎ (v ≤ m)
    → (c ≡ 0 → v ≡ 0)
    → v ≤ m
bounded sign c v m (inl a) (inl b) z = cc (a, b)
bounded sign c v m (inl a) (inr b) z = b
bounded sign c v m (inr a) (inl b) z = omega (arith, z a)
bounded sign c v m (inr a) (inr b) z = b

quantize-small :
    (sign : Bool) (c n : ℕ) (exponent : ℤ)
    → quantized c exponent ≡ n
    → n ≤ 150000000
    → quantize (finite sign c exponent) ≡ ok (finite sign n (negsuc 2))
unfolding quantize
quantize-small sign c n exponent e h =
    let small : leb (10 ^ 28) n ≡ false = ground arith in rw e (rw small refl)

-- What is plausible has a value in thousandths, at most 150000 units.
quantize-IsPlausible :
    (q : Decimal)
    → IsPlausible q
    → (quantize q ≡ ok (finite (sign_of q) (thousandths q) (negsuc 2)))
      × (thousandths q ≤ 150000000)
unfolding quantized
quantize-IsPlausible special h = absurd h
quantize-IsPlausible (finite sign c (pos e)) h =
    let bound : c * 10 ^ e ≤ 150000 =
      bounded sign c (c * 10 ^ e) 150000 h.0 h.1 (λ z. rw z (omega arith)) in
    let small : c * 10 ^ e * 1000 ≤ 150000000 = omega (arith, bound) in
    let same : c * 10 ^ (e + 3) ≡ c * 10 ^ e * 1000 = rw (pow_thousand e) (omega arith) in
    (quantize-small sign c (c * 10 ^ e * 1000) (pos e) same small, small)
quantize-IsPlausible (finite sign c (negsuc zero)) h =
    let bound : c ≤ 1500000 = bounded sign c c 1500000 h.0 h.1 (λ z. z) in
    (quantize-small sign c _ (negsuc zero) (omega arith) (omega arith), omega arith)
quantize-IsPlausible (finite sign c (negsuc (suc zero))) h =
    let bound : c ≤ 15000000 = bounded sign c c 15000000 h.0 h.1 (λ z. z) in
    (quantize-small sign c _ (negsuc (suc zero)) (omega arith) (omega arith), omega arith)
quantize-IsPlausible (finite sign c (negsuc (suc (suc zero)))) h =
    let bound : c ≤ 150000000 = bounded sign c c 150000000 h.0 h.1 (λ z. z) in
    (quantize-small sign c _ (negsuc (suc (suc zero))) (omega arith) (omega arith), omega arith)
quantize-IsPlausible (finite sign c (negsuc (suc (suc (suc k))))) h = absurd (omega (arith, h.2))

-- The record of a message that says what a row of the bronze table says.
abbrev pub avro_of : Bool → Row → AvroRecord
avro_of sign row = record {
  source = row.source;
  source_document_id = row.source_document_id;
  zone = row.zone;
  production_type = row.production_type;
  direction = row.direction;
  unit = row.unit;
  resolution_minutes = row.resolution_minutes;
  valid_time = row.valid_time;
  known_at = row.known_at;
  source_updated_at = row.source_updated_at;
  quantity_mw = finite sign (pos_part row.quantity) (negsuc 2);
}

signed-plausible : (sign : Bool) (n : ℕ) → (sign ≡ false) ⊎ (n ≡ 0) → signed sign n ≡ pos n
signed-plausible false n h = refl
signed-plausible true zero h = refl
signed-plausible true (suc n) (inl h) = cc h
signed-plausible true (suc n) (inr h) = absurd (omega (arith, h))

no_sign : (q : Decimal) → IsPlausible q → (sign_of q ≡ false) ⊎ (thousandths q ≡ 0)
no_sign special h = absurd h
no_sign (finite sign c (pos e)) (inl a, b) = inl a
no_sign (finite sign c (pos e)) (inr a, b) = inr (rw a (omega arith))
no_sign (finite sign c (negsuc k)) (inl a, b, e) = inl a
no_sign (finite sign c (negsuc k)) (inr a, b, e) = inr (rw a (omega arith))

-- A plausible figure's row has it without a sign.
pub quantity-IsPlausible :
    (q : Decimal) → IsPlausible q → signed (sign_of q) (thousandths q) ≡ pos (thousandths q)
quantity-IsPlausible q h = signed-plausible (sign_of q) (thousandths q) (no_sign q h)

-- The stream and the bronze table hold the same figures: of a record that meets the contract,
-- `to_avro` makes a message, without an error, whose every field is that of the row which the loader
-- stages, with the same thousandths of a megawatt, not below zero and at most 150000 megawatts, and
-- the record's own sign.
pub to_avro-staged_row :
    (r : GenerationRecord)
    → IsContract r
    → (to_avro r ≡ ok (avro_of (sign_of r.quantity_mw) (staged_row r)))
      × (pos 0 ≤ℤ (staged_row r).quantity)
      × ((staged_row r).quantity ≤ℤ pos 150000000)
unfolding to_avro staged_row
to_avro-staged_row r h =
    let (e, bound) = quantize-IsPlausible r.quantity_mw h.plausible in
    let plain = quantity-IsPlausible r.quantity_mw h.plausible in
    (rw (plain, e) refl, rw plain (omega arith), rw plain (omega (arith, bound)))
