-- ===== src/Timeaxis/Tests.antt =====
-- Runs and witnesses for src/gridlens/timeaxis.py: a zone that goes from one hour east to two at
-- 01:00 UTC on day 10.
use gridlens.Prelude.{
  ℕ, ◌+◌, ◌-◌, ◌*◌, ◌<◌, ◌≡◌, ◌≢◌, ◌↔◌, ◌⊎◌, inl, refl, Bool, true, false, Option, none, some, List,
  [], ◌∷◌, ◌++◌, ok, err, ltb, leb, if◌then◌else◌, arith,
}
use gridlens.Prelude.Int.{pos, pos_part}
use gridlens.Exceptions.{Exception, value_error, overflow_error, ambiguous_local_time}
use gridlens.Timeaxis.{
  Zone, day_us, hour_us, to_utc, assert_unambiguous, midnight, settlement_day, period_count,
}
use gridlens.Timeaxis.Ambiguity.{
  IsTimeZone, HappensOnce, assert_unambiguous-HappensOnce, settlement_day_midnights,
  settlement_day_length,
}
use gridlens.Timeaxis.Duration.{ascii_digit, total_us, parse_codes, parse_resolution}
use gridlens.Timeaxis.Duration.Grammar.{parse_codes-print}
use gridlens.Timeaxis.Duration.Printing.{
  LettersArePlain, group_value, time_value, print_group, print_time,
}

-- 01:00 UTC on day 10
abbrev switch_us : ℕ
switch_us = 867600000000

abbrev spring : Zone
spring = record {
  fromutc = λ u. if ltb u switch_us then u + hour_us else u + 2 * hour_us;
  utcoffset = λ r fold.
      if ltb r (switch_us + hour_us)
      then pos hour_us
      else if leb (switch_us + 2 * hour_us) r
      then pos (2 * hour_us)
      else if fold
      then pos (2 * hour_us)
      else pos hour_us;
}

spring-offset_small : (r : ℕ) (f : Bool) → pos_part (spring.utcoffset r f) < day_us
spring-offset_small r f = ground arith

spring-recovered :
    (u : ℕ)
    → (u ≡ to_utc spring (spring.fromutc u) false) ⊎ (u ≡ to_utc spring (spring.fromutc u) true)
spring-recovered u = inl (ground arith)

spring-fold_zero :
    (u : ℕ) → spring.fromutc (to_utc spring (spring.fromutc u) false) ≡ spring.fromutc u
spring-fold_zero u = ground arith

spring-fold_one :
    (r : ℕ) → spring.fromutc (to_utc spring r false) ≡ r → spring.fromutc (to_utc spring r true) ≡ r
spring-fold_one r h = ground arith

spring-IsTimeZone : IsTimeZone spring
spring-IsTimeZone = record {
  offset_small = spring-offset_small;
  recovered = spring-recovered;
  fold_zero = spring-fold_zero;
  fold_one = spring-fold_one;
}

-- 02:30 on day 10 is skipped.
skipped :
    assert_unambiguous (some spring) (10 * day_us + 9000000000) false
    ≡ err (ambiguous_local_time "does not exist")
unfolding assert_unambiguous
skipped = refl

assert_unambiguous-HappensOnce_example :
    (assert_unambiguous (some spring) (10 * day_us) false ≡ ok tt)
    ↔ HappensOnce spring (10 * day_us)
assert_unambiguous-HappensOnce_example =
    assert_unambiguous-HappensOnce spring spring-IsTimeZone (10 * day_us) (omega arith)

day_ten : settlement_day 10 spring ≡ ok (860400000000, 943200000000)
unfolding settlement_day assert_unambiguous
day_ten = refl

day_eleven : settlement_day (10 + 1) spring ≡ ok (943200000000, 1029600000000)
unfolding settlement_day assert_unambiguous
day_eleven = refl

settlement_day_midnights_example :
    (spring.fromutc 860400000000 ≡ midnight 10)
    × (spring.fromutc 943200000000 ≡ midnight (10 + 1))
    × ((v : ℕ) → spring.fromutc v ≡ midnight 10 → v ≡ 860400000000)
    × ((v : ℕ) → spring.fromutc v ≡ midnight (10 + 1) → v ≡ 943200000000)
    × (((x : Exception) × (settlement_day (10 + 1) spring ≡ err x))
        ⊎ ((e' : ℕ) × (settlement_day (10 + 1) spring ≡ ok (943200000000, e'))))
settlement_day_midnights_example =
    settlement_day_midnights spring 10 860400000000 943200000000 spring-IsTimeZone day_ten

settlement_day_length_example :
    ◌≡◌ {A = ℕ} (943200000000 - 860400000000 + 7200000000) (day_us + hour_us)
settlement_day_length_example =
    settlement_day_length spring 10 860400000000 943200000000 hour_us 7200000000 (omega arith) refl
      refl (omega arith) (omega arith) day_ten

quarters : period_count 860400000000 943200000000 900000000 ≡ ok 92
unfolding period_count
quarters = refl

ascii_plain : LettersArePlain ascii_digit
ascii_plain = record { d_plain = refl; t_plain = refl; h_plain = refl; m_plain = refl }

quarter_hour : parse_resolution ascii_digit "PT15M" ≡ ok 900000000
unfolding parse_resolution
quarter_hour = refl

no_years : parse_resolution ascii_digit "P1Y" ≡ err (value_error "unsupported resolution")
unfolding parse_resolution
no_years = refl

abbrev fifteen : Option (ℕ × List ℕ)
fifteen = some (b'1', b'5' ∷ [])

fifteen_minutes :
    total_us
      (group_value ascii_digit none)
      (time_value ascii_digit (some (none, fifteen))).0
      (time_value ascii_digit (some (none, fifteen))).1
    ≢ 0
unfolding parse_resolution
fifteen_minutes = omega arith

fifteen_below :
    total_us
      (group_value ascii_digit none)
      (time_value ascii_digit (some (none, fifteen))).0
      (time_value ascii_digit (some (none, fifteen))).1
    < 1000000000 * 86400000000
unfolding parse_resolution
fifteen_below = omega arith

-- one day more than a timedelta has
too_many_days : parse_resolution ascii_digit "P1000000000D" ≡ err overflow_error
unfolding parse_resolution
too_many_days = refl

parse_codes-print_example :
    parse_codes ascii_digit (b'P' ∷ (print_group b'D' none ++ print_time (some (none, fifteen))))
    ≡ ok (
        total_us
          (group_value ascii_digit none)
          (time_value ascii_digit (some (none, fifteen))).0
          (time_value ascii_digit (some (none, fifteen))).1)
parse_codes-print_example =
    parse_codes-print ascii_digit ascii_plain none (some (none, fifteen)) tt
      (tt, (refl, (refl, tt))) fifteen_minutes fifteen_below (omega arith)

abbrev one_day : List ℕ
one_day = b'P' ∷ b'1' ∷ b'D' ∷ 10 ∷ []

one_day_read : parse_codes ascii_digit one_day ≡ ok 86400000000
unfolding parse_resolution
one_day_read = refl
