-- ===== src/RateLimit/Pacing.antt =====
-- How many calls the bucket lets through in a time.
use native.Mathlib.Nat.{zero-add}
use gridlens.Prelude.{
  ℕ, suc, ◌+◌, ◌*◌, ◌≤◌, ◌<◌, ◌≡◌, List, [], ◌∷◌, length, refl, ◌∙◌, ◌↔◌, ok, arith,
}
use gridlens.Prelude.Int.{ℤ, pos, pos_part, neg_part, sub_ℕ, ◌≤ℤ◌, +ℤ_parts, -ℤ_parts, ◌-ℤ◌}
use gridlens.RateLimit.{TokenBucket, init, refill, acquire, acquire_all}

-- The refilled balance is no more than the old one and what the time has brought, nor than `burst`.
refill_bounds :
    (b : TokenBucket) (now : ℕ)
    → (pos_part (refill b now) + neg_part b.tokens + b.updated * b.rate
        ≤ neg_part (refill b now) + pos_part b.tokens + now * b.rate)
      × (pos_part (refill b now) ≤ b.burst * b.scale)
unfolding refill
refill_bounds b now = ground (arith, +ℤ_parts b.tokens (sub_ℕ (now * b.rate) (b.updated * b.rate)))

-- After `n` calls since the clock read `start`, the balance is covered by the burst and the time.
pub record IsCovered (start n : ℕ) (b : TokenBucket) : Type 0 where
  pub covered :
      pos_part b.tokens + n * b.scale + start * b.rate
      ≤ b.burst * b.scale + b.updated * b.rate + neg_part b.tokens

acquire-IsCovered :
    (start n now : ℕ) (b : TokenBucket)
    → IsCovered start n b
    → IsCovered start (suc n) (acquire b now).0
unfolding acquire
acquire-IsCovered start n now b h = record {
  covered = grind (arith, refill_bounds b now, -ℤ_parts (refill b now) (pos b.scale), h.covered);
}

acquire_all-IsCovered :
    (start n : ℕ) (b : TokenBucket) (times : List ℕ)
    → IsCovered start n b
    → IsCovered start (n + length times) (acquire_all b times)
unfolding acquire_all
acquire_all-IsCovered start n b [] h = record { covered = omega (arith, h.covered) }
acquire_all-IsCovered start n b (now ∷ rest) h =
    let ih =
      acquire_all-IsCovered start (suc n) (acquire b now).0 rest
        (acquire-IsCovered start n now b h) in
    let e : suc n + length rest ≡ n + suc (length rest) = omega arith in rw e at ih

-- What `acquire` leaves alone.
acquire_all_rate :
    (b : TokenBucket) (times : List ℕ)
    → ((acquire_all b times).rate ≡ b.rate)
      × ((acquire_all b times).scale ≡ b.scale)
      × ((acquire_all b times).burst ≡ b.burst)
unfolding acquire_all acquire
acquire_all_rate b [] = (refl, refl, refl)
acquire_all_rate b (now ∷ rest) = acquire_all_rate (acquire b now).0 rest

wait_covers :
    (start n now : ℕ) (b : TokenBucket)
    → IsCovered start n b
    → suc n * b.scale + start * b.rate ≤ b.burst * b.scale + now * b.rate + (acquire b now).1
unfolding acquire
wait_covers start n now b h =
    grind (arith, refill_bounds b now, -ℤ_parts (pos b.scale) (refill b now), h.covered)

init-IsCovered :
    (rate : ℤ) (scale burst start : ℕ) (b : TokenBucket)
    → init rate scale burst start ≡ ok b
    → IsCovered start 0 b × (b.rate ≡ pos_part rate) × (b.scale ≡ scale) × (b.burst ≡ burst)
unfolding init
init-IsCovered rate scale burst start b h = ground arith

-- Whatever the clock readings at which `acquire` is called on a new bucket: a call that comes after
-- `length times` others is let through no earlier than the refill of the tokens beyond `burst`
-- allows. In units of `1 / scale` token, the tokens taken so far, this one included, are at most
-- the burst and what has been refilled from the start until the call's wait is over.
pub acquire_pacing :
    (rate : ℤ) (scale burst start : ℕ) (b : TokenBucket) (times : List ℕ) (now : ℕ)
    → init rate scale burst start ≡ ok b
    → suc (length times) * scale + start * pos_part rate
      ≤ burst * scale + now * pos_part rate + (acquire (acquire_all b times) now).1
acquire_pacing rate scale burst start b times now h =
    let (c, er, es, eb) = init-IsCovered rate scale burst start b h in
    let (r, s, u) = acquire_all_rate b times in
    let done : IsCovered start (length times) (acquire_all b times) =
      rw zero-add at (acquire_all-IsCovered start 0 b times c) in
    let w = wait_covers start (length times) now (acquire_all b times) done in
    let r' = r ∙ er in let s' = s ∙ es in let u' = u ∙ eb in grind (arith, w, r', s', u')

-- Of two calls on a bucket, if the first has to wait, the second is let through at least one
-- token's refill later than the first, whatever the two clock readings.
pub acquire_spaced :
    (b : TokenBucket) (t u : ℕ)
    → 0 < (acquire b t).1
    → t * b.rate + (acquire b t).1 + b.scale ≤ u * b.rate + (acquire (acquire b t).0 u).1
unfolding acquire
acquire_spaced b t u h =
    let b' : TokenBucket = (acquire b t).0 in
    grind (
      arith,
      refill_bounds b' u,
      -ℤ_parts (pos b.scale) (refill b t),
      -ℤ_parts (refill b t) (pos b.scale),
      -ℤ_parts (pos b.scale) (refill b' u),
    )

-- A call waits exactly until the bucket has made up for the token it took: of the bucket that the call
-- leaves, the balance at a later clock reading is not below zero exactly if the call's wait, in the
-- units that time refills, has passed by then.
pub acquire_wait_exact :
    (b : TokenBucket) (now u : ℕ)
    → now ≤ u
    → (pos 0 ≤ℤ refill (acquire b now).0 u) ↔ (now * b.rate + (acquire b now).1 ≤ u * b.rate)
unfolding acquire refill
acquire_wait_exact b now u later =
    let left = refill b now -ℤ pos b.scale in
    let passed = sub_ℕ (u * b.rate) (now * b.rate) in
    let more : now * b.rate ≤ u * b.rate = grind (arith, later) in
    let a = -ℤ_parts (pos b.scale) (refill b now) in
    let c = -ℤ_parts (refill b now) (pos b.scale) in
    let d = +ℤ_parts left passed in
    (λ h. ground (arith, a, c, d, more, h), λ h. ground (arith, a, c, d, more, h))
