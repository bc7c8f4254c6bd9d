-- ===== src/Quality/Queries/Completeness.antt =====
-- The row of COMPLETENESS against the calendar: its counts of distinct times are counts over a grid.
use gridlens.Prelude.{
  ℕ, suc, ◌+◌, ◌-◌, ◌*◌, ◌/◌, ◌%◌, ◌≤◌, ◌<◌, ◌≡◌, ◌↔◌, refl, ◌∙◌, inl, inr, String, Bool, true,
  ◌&&◌, List, [], ◌∷◌, map, any, any-keep, keep, keep_holds, eq_iff, All, All-map, All-keep,
  Bool-cases, arith, ◌==◌, ok, some, Option, count, count_congr, count_mono, count-length,
  count_full,
}
use gridlens.Timeaxis.{Zone, local_date, settlement_day, period_count}
use gridlens.Timeaxis.Positions.{period_count_exact}
use gridlens.Ingest.Parse.{range}
use gridlens.Ingest.Parse.Counting.{length-range}
use gridlens.Lake.Bronze.{Row}
use gridlens.Quality.Queries.Distinct.{length-distinct}
use gridlens.Quality.Queries.{maximum, same_day, same_series, periods_of, densest_series, day_row}
use gridlens.Quality.Bronze.{quarter_hour, expected_periods}

any-map :
    {A : Type 0} (q : ℕ → Bool) (g : A → ℕ) (xs : List A) → any q (map g xs) ≡ any (λ x. q (g x)) xs
any-map q g [] = refl
any-map q g (x ∷ xs) = rw (any-map q g xs) refl

All-of_map :
    {A : Type 0} (P : ℕ → Type 0) (g : A → ℕ) (xs : List A)
    → All (λ x. P (g x)) xs
    → All P (map g xs)
All-of_map P g [] h = tt
All-of_map P g (x ∷ xs) h = (h.0, All-of_map P g xs h.1)

any_mono :
    {A : Type 0} (p q : A → Bool) (xs : List A)
    → ((x : A) → p x ≡ true → q x ≡ true)
    → any p xs ≡ true
    → any q xs ≡ true
any_mono p q [] h e = e
any_mono p q (x ∷ xs) h e = elim (Bool-cases (p x)) [
  | inl y ↦ rw (h x y) refl
  | inr n ↦ let rest = any_mono p q xs h (ground arith) in ground arith
]

-- A time of the selected rows, as a hit of the whole table.
hits-selected :
    (f : ℕ → ℕ) (p : Row → Bool) (table : List Row) (k : ℕ)
    → any (λ x. x == f k) (map (λ r. r.valid_time) (keep p table))
      ≡ any (λ r. r.valid_time == f k && p r) table
hits-selected f p table k =
    any-map (λ x. x == f k) (λ r. r.valid_time) (keep p table)
    ∙ any-keep (λ r. r.valid_time == f k) p table

-- The count of periods over a grid that holds the times of the selected rows.
periods_on :
    (f : ℕ → ℕ) (n : ℕ)
    → ((a b : ℕ) → (f a == f b) ≡ (a == b))
    → (p : Row → Bool) (table : List Row)
    → All (λ r. (k : ℕ) × (k < n) × (r.valid_time ≡ f k)) (keep p table)
    → periods_of p table ≡ count (λ k. any (λ r. r.valid_time == f k && p r) table) (range 0 n)
unfolding periods_of
periods_on f n apart p table h =
    length-distinct f apart n (map (λ r. r.valid_time) (keep p table))
      (All-of_map _ (λ r. r.valid_time) (keep p table) h)
    ∙ count_congr _ _ (range 0 n) (λ k. hits-selected f p table k)

below-maximum : (xs : List ℕ) → All (λ x. x ≤ maximum xs) xs
below-maximum [] = tt
below-maximum (x ∷ xs) =
    (ground arith, All-map _ _ xs (λ y h. ground (arith, h)) (below-maximum xs))

All-unmap :
    {A : Type 0} (P : ℕ → Type 0) (g : A → ℕ) (xs : List A)
    → All P (map g xs)
    → All (λ x. P (g x)) xs
All-unmap P g [] h = tt
All-unmap P g (x ∷ xs) h = (h.0, All-unmap P g xs h.1)

maximum-bound :
    {A : Type 0} (g : A → ℕ) (b : ℕ) (xs : List A) → All (λ x. g x ≤ b) xs → maximum (map g xs) ≤ b
maximum-bound g b [] h = omega arith
maximum-bound g b (x ∷ xs) h = let rest = maximum-bound g b xs h.1 in ground (arith, h.0)

periods_mono :
    (p q : Row → Bool) (table : List Row)
    → ((r : Row) → p r ≡ true → q r ≡ true)
    → periods_of p table ≤ periods_of q table
periods_mono p q table h =
    let n = suc (maximum (map (λ r. r.valid_time) table)) in
    let each : All (λ r. (k : ℕ) × (k < n) × (r.valid_time ≡ k)) table =
      All-unmap (λ x. (k : ℕ) × (k < n) × (x ≡ k)) (λ r. r.valid_time) table
        (All-map _ _ (map (λ r. r.valid_time) table) (λ x b. (x, omega (arith, b), refl))
          (below-maximum (map (λ r. r.valid_time) table))) in
    rw
      (
        periods_on (λ k. k) n (λ a b. refl) p table (All-keep _ p table each),
        periods_on (λ k. k) n (λ a b. refl) q table (All-keep _ q table each),
      )
      (count_mono _ _ (range 0 n)
        (λ k. any_mono _ _ table (λ r e. let more = h r in ground (arith, e, more))))

pub same_day_trans :
    (paris : Zone) (a b c : Row)
    → same_day paris a b ≡ true
    → same_day paris b c ≡ true
    → same_day paris a c ≡ true
same_day_trans paris a b c h k =
    ground (arith, eq_iff a.zone b.zone, eq_iff b.zone c.zone, eq_iff a.zone c.zone)

-- The densest series of a day has no more periods than the day.
densest_series-bound :
    (paris : Zone) (table : List Row) (day : Row)
    → densest_series paris table day ≤ periods_of (λ r. same_day paris r day) table
unfolding densest_series
densest_series-bound paris table day = maximum-bound _ _ (keep (λ r. same_day paris r day) table) (
    All-map _ _ (keep (λ r. same_day paris r day) table)
      (λ s own.
        periods_mono (λ r. same_series paris r s) (λ r. same_day paris r day) table
          (λ r e. same_day_trans paris r s day (ground (arith, e)) own))
      (keep_holds (λ r. same_day paris r day) table))

-- A row of the day begins at a quarter hour of it.
abbrev pub OnQuarter : ℕ → ℕ → Row → Type 0
OnQuarter start end r =
    (start ≤ r.valid_time) × (r.valid_time < end) × ((r.valid_time - start) % quarter_hour ≡ 0)

-- What the suite of COMPLETENESS tells of a day: where the calendar gives the day a number of periods
-- and its rows begin at quarter hours of it, the densest series has no more periods than the day, the
-- day no more than the calendar, and the first expectation holds, the day's periods being as many as
-- the calendar's, exactly where each quarter hour of the day has a row of the zone.
pub day_row-exact :
    (read_date : String → Option ℕ) (paris : Zone) (text : String) (table : List Row) (day : Row)
    (start end n : ℕ)
    → read_date text ≡ some (local_date paris day.valid_time)
    → settlement_day (local_date paris day.valid_time) paris ≡ ok (start, end)
    → expected_periods read_date paris text ≡ ok n
    → All (OnQuarter start end) (keep (λ r. same_day paris r day) table)
    → ((day_row paris table day).densest ≤ (day_row paris table day).periods)
      × ((day_row paris table day).periods ≤ n)
      × (((day_row paris table day).periods ≡ n)
          ↔ All
              (λ k.
                any (λ r. r.valid_time == start + k * quarter_hour && same_day paris r day) table
                ≡ true)
              (range 0 n))
unfolding day_row expected_periods
day_row-exact read_date paris text table day start end n read bounds expected within =
    let counted : period_count start end quarter_hour ≡ ok n =
      rw (bounds, expected_periods) at (rw (read, expected_periods) at expected) in
    let (_, _, whole) = period_count_exact start end quarter_hour n counted in
    let f : ℕ → ℕ = λ k. start + k * quarter_hour in
    let exact =
      periods_on f n (λ a b. ground arith) (λ r. same_day paris r day) table
        (All-map _ _ (keep (λ r. same_day paris r day) table)
          (λ r h. (
            (r.valid_time - start) / quarter_hour,
            omega (arith, h.0, h.1, h.2, whole),
            omega (arith, h.0, h.1, h.2),
          ))
          within) in
    let p : ℕ → Bool = λ k. any (λ r. r.valid_time == f k && same_day paris r day) table in
    let size = length-range 0 n in
    let (to, from) = count_full p (range 0 n) in
    (
      densest_series-bound paris table day,
      omega (arith, exact, count-length p (range 0 n), size),
      (λ e. to (omega (arith, e, exact, size)), λ h. omega (arith, from h, exact, size)),
    )
