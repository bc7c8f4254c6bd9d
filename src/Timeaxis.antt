-- ===== src/Timeaxis.antt =====
-- src/gridlens/timeaxis.py: settlement days, period counts and positions. An instant is the number
-- of microseconds from 0001-01-01T00:00Z, a wall clock reading the same count on the local clock,
-- and a date is its number of days from 0001-01-01. What would fall before year 1 is cut off at 0
-- (`datetime` raises OverflowError there).
mod Tests
pub mod Duration
pub mod Ambiguity
pub mod Positions
use gridlens.Prelude.{
  ℕ, zero, suc, ◌+◌, ◌-◌, ◌*◌, ◌/◌, ◌%◌, Bool, true, false, not, Option, none, some, Result, ok,
  err, ◌>>=◌, ◌>>◌, raise_if, leb, ◌==◌,
}
use gridlens.Prelude.Int.{ℤ, pos, negsuc, eqb_ℤ}
use gridlens.Exceptions.{Exception, value_error, zero_division, ambiguous_local_time}

abbrev pub second_us : ℕ
second_us = 1000000

abbrev pub minute_us : ℕ
minute_us = 60000000

abbrev pub hour_us : ℕ
hour_us = 3600000000

abbrev pub day_us : ℕ
day_us = 86400000000

-- A `ZoneInfo`, which is a parameter: the offset in microseconds of a reading under a `fold`, and
-- the reading of an instant.
pub record Zone : Type 0 where
  pub utcoffset : ℕ → Bool → ℤ
  pub fromutc : ℕ → ℕ

-- A reading less its offset.
abbrev pub sub_offset : ℕ → ℤ → ℕ
sub_offset reading (pos n) = reading - n
sub_offset reading (negsuc n) = reading + suc n

-- `moment.astimezone(UTC)`
abbrev pub to_utc : Zone → ℕ → Bool → ℕ
to_utc zone reading fold = sub_offset reading (zone.utcoffset reading fold)

unfoldable pub assert_unambiguous : Option Zone → ℕ → Bool → Result Exception (Unit {0})
assert_unambiguous none reading fold = err (value_error "naive datetime")
assert_unambiguous (some zone) reading fold = do
  raise_if (not (zone.fromutc (to_utc zone reading fold) == reading))
      (ambiguous_local_time "does not exist")
  raise_if (not (eqb_ℤ (zone.utcoffset reading fold) (zone.utcoffset reading true)))
      (ambiguous_local_time "happens twice")

-- Midnight of a date, `datetime.combine(day, datetime.min.time())`.
abbrev pub midnight : ℕ → ℕ
midnight day = day * day_us

-- the date in a zone at an instant
abbrev pub local_date : Zone → ℕ → ℕ
local_date zone instant = zone.fromutc instant / day_us

unfoldable pub settlement_day : ℕ → Zone → Result Exception (ℕ × ℕ)
settlement_day day zone = do
  assert_unambiguous (some zone) (midnight day) false
  assert_unambiguous (some zone) (midnight (day + 1)) false
  ok (to_utc zone (midnight day) false, to_utc zone (midnight (day + 1)) false)

-- A resolution is a `timedelta` that is not negative; `divmod` by zero raises.
unfoldable pub period_count : ℕ → ℕ → ℕ → Result Exception ℕ
period_count start end resolution = do
  raise_if (leb end start) (value_error "end must be after start")
  raise_if (resolution == 0) zero_division
  raise_if (not ((end - start) % resolution == 0))
      (value_error "does not divide into whole periods")
  ok ((end - start) / resolution)

unfoldable pub position_time : ℕ → ℕ → ℤ → Result Exception ℕ
position_time interval_start resolution (pos (suc k)) = ok (interval_start + k * resolution)
position_time interval_start resolution _ = err (value_error "positions are 1-based")
