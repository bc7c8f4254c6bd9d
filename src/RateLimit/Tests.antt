-- ===== src/RateLimit/Tests.antt =====
-- Runs and witnesses of the token bucket: five tokens a second on a microsecond clock, burst two.
use gridlens.Prelude.{ℕ, suc, ◌+◌, ◌*◌, ◌≤◌, ◌<◌, ◌≡◌, ◌↔◌, refl, [], ◌∷◌, length, ok, arith}
use gridlens.Prelude.Int.{pos, pos_part, ◌≤ℤ◌, ◌+ℤ◌, ◌-ℤ◌}
use gridlens.RateLimit.{TokenBucket, init, refill, acquire, acquire_all}
use gridlens.RateLimit.Pacing.{acquire_pacing, acquire_wait_exact}

abbrev five_a_second : TokenBucket
five_a_second = record { rate = 5; scale = 1000000; burst = 2; tokens = pos 2000000; updated = 100 }

made : init (pos 5) 1000000 2 100 ≡ ok five_a_second
unfolding init
made = refl

abbrev emptied : TokenBucket
emptied = record { rate = 5; scale = 1000000; burst = 2; tokens = pos 0; updated = 100 }

two_taken : acquire_all five_a_second (100 ∷ 100 ∷ []) ≡ emptied
unfolding acquire_all acquire refill ◌+ℤ◌ ◌-ℤ◌
two_taken = refl

third_waits : (acquire emptied 100).1 ≡ 1000000
unfolding acquire refill ◌+ℤ◌ ◌-ℤ◌
third_waits = refl

acquire_pacing_example :
    suc (length {A = ℕ} (100 ∷ 100 ∷ [])) * 1000000 + 100 * pos_part (pos 5)
    ≤ 2 * 1000000
      + 100 * pos_part (pos 5)
      + (acquire (acquire_all five_a_second (100 ∷ 100 ∷ [])) 100).1
acquire_pacing_example =
    acquire_pacing (pos 5) 1000000 2 100 five_a_second (100 ∷ 100 ∷ []) 100 made

must_wait : 0 < (acquire emptied 100).1
unfolding acquire refill ◌+ℤ◌ ◌-ℤ◌
must_wait = omega arith

acquire_wait_exact_example :
    (pos 0 ≤ℤ refill (acquire emptied 100).0 200100)
    ↔ (100 * 5 + (acquire emptied 100).1 ≤ 200100 * 5)
acquire_wait_exact_example = acquire_wait_exact emptied 100 200100 (omega arith)
