-- ===== src/Timeaxis/Positions.antt =====
-- `period_count` and `position_time` of src/gridlens/timeaxis.py: the grid of an interval.
use gridlens.Prelude.{ℕ, suc, ◌+◌, ◌*◌, ◌<◌, ◌≡◌, refl, ok, arith}
use native.Mathlib.Nat.{div-add-mod}
use gridlens.Prelude.Int.{pos}
use gridlens.Timeaxis.{period_count, position_time}

-- A count that is returned fills the interval exactly: the interval is not empty, the resolution
-- is not zero, and count times resolution is its length.
pub period_count_exact :
    (start end resolution n : ℕ)
    → period_count start end resolution ≡ ok n
    → (start < end) × (0 < resolution) × (start + n * resolution ≡ end)
unfolding period_count
period_count_exact start end resolution n h = grind (arith, div-add-mod)

-- Whole periods in a positive resolution are counted.
pub period_count_whole :
    (start resolution n : ℕ)
    → 0 < resolution
    → 0 < n
    → period_count start (start + n * resolution) resolution ≡ ok n
unfolding period_count
period_count_whole start resolution n hr hn = grind (arith, div-add-mod)

pub position_time_lem :
    (start resolution k : ℕ)
    → position_time start resolution (pos (suc k)) ≡ ok (start + k * resolution)
unfolding position_time
position_time_lem start resolution k = refl
