-- ===== src/Quality/Bronze/Passing.antt =====
-- When the run passes, every expectation of both suites held.
use gridlens.Prelude.{
  ℕ, ◌+◌, ◌≡◌, refl, sym, ap, ◌∙◌, inl, inr, String, true, Option, none, some, List, [], ◌∷◌, ◌++◌,
  length, All, Result, ok, err, Result-cases, Bool-cases, arith,
}
use gridlens.Exceptions.{Exception}
use gridlens.Timeaxis.{Zone}
use gridlens.Quality.Bronze.{
  Frame, Expectation, Checked, Suite, Verdict, failures_of, no_failures, run_suites, run,
}
use gridlens.Quality.Bronze.Suites.{
  Checkable, validate_invariants, validate_completeness, run_bronze,
}

abbrev pub AllHeld : List Checked → Type 0
AllHeld results = All (λ c. c.success ≡ true) results

some-injective : {A : Type 0} {a b : A} → ◌≡◌ {A = Option A} (some a) (some b) → a ≡ b
some-injective h = cc

ok-verdict :
    {v w : Verdict}
    → ◌≡◌ {A = Option (Result Exception Verdict)} (some (ok v)) (some (ok w))
    → v ≡ w
ok-verdict h = cc

failures_of-held :
    (name : String) (results : List Checked) → failures_of name results ≡ [] → AllHeld results
unfolding failures_of
failures_of-held name [] h = tt
failures_of-held name (c ∷ results) h = elim (Bool-cases c.success) [
  | inl y ↦ (y, failures_of-held name results (rw (y, failures_of) at h))
  | inr n ↦ cc (rw (n, failures_of) at h)
]

append_nothing : (xs ys : List String) → no_failures (xs ++ ys) ≡ true → (xs ≡ []) × (ys ≡ [])
append_nothing [] [] h = (refl, refl)
append_nothing [] (y ∷ ys) h = cc h
append_nothing (x ∷ xs) ys h = cc h

-- A suite that the run got past.
abbrev Past : Suite → List Suite → ℕ → ℕ → List String → Verdict → Type 0
Past s rest scanned checked failures v =
    (frame : Frame) × (bytes : ℕ) × (results : List Checked) × (s.fetched
      ≡ some (ok (frame, bytes)))
    × (s.validate_frame frame ≡ ok results)
    × (run_suites rest (scanned + bytes) (checked + length results)
          (failures ++ failures_of s.name results)
        ≡ some (ok v))

validated :
    (s : Suite) (rest : List Suite) (scanned checked : ℕ) (failures : List String) (v : Verdict)
    (frame : Frame) (bytes : ℕ)
    → s.fetched ≡ some (ok (frame, bytes))
    → run_suites (s ∷ rest) scanned checked failures ≡ some (ok v)
    → Past s rest scanned checked failures v
unfolding run_suites
validated s rest scanned checked failures v frame bytes e h =
    let h' = rw (e, run_suites) at h in
    elim (Result-cases (s.validate_frame frame)) [
      | inr (x, q) ↦ cc (rw q at h')
      | inl (results, q) ↦ (frame, bytes, results, e, q, rw q at h')
    ]

run_suites-step :
    (s : Suite) (rest : List Suite) (scanned checked : ℕ) (failures : List String) (v : Verdict)
    (o : Option (Result Exception (Frame × ℕ)))
    → s.fetched ≡ o
    → run_suites (s ∷ rest) scanned checked failures ≡ some (ok v)
    → Past s rest scanned checked failures v
unfolding run_suites
run_suites-step s rest scanned checked failures v none e h = cc (rw (e, run_suites) at h)
run_suites-step s rest scanned checked failures v (some (err x)) e h = cc (rw (e, run_suites) at h)
run_suites-step s rest scanned checked failures v (some (ok (frame, bytes))) e h =
    validated s rest scanned checked failures v frame bytes e h

-- When `run` returns a verdict that passes, both queries were answered with a frame, both frames could
-- be read as numbers and validated, every expectation of both suites held, and the verdict counts
-- the expectations and the scanned bytes of both.
pub run_bronze-passed :
    (validate : String → Checkable → List Expectation → List Checked)
    (to_number read_date : String → Option ℕ) (paris : Zone)
    (first second : Option (Result Exception (Frame × ℕ))) (v : Verdict)
    → run_bronze validate to_number read_date paris first second ≡ some (ok v)
    → v.passed ≡ true
    → (f : Frame) × (g : Frame) × (m : ℕ) × (n : ℕ) × (r : List Checked) × (s : List Checked)
      × (first ≡ some (ok (f, m)))
      × (second ≡ some (ok (g, n)))
      × (validate_invariants validate to_number read_date paris f ≡ ok r)
      × (validate_completeness validate to_number read_date paris g ≡ ok s)
      × AllHeld r
      × AllHeld s
      × (v.expectations ≡ length r + length s)
      × (v.scanned_bytes ≡ m + n)
unfolding run_bronze run run_suites
run_bronze-passed validate to_number read_date paris first second v h passed =
    let one : Suite = record {
      name = "invariants";
      fetched = first;
      validate_frame = validate_invariants validate to_number read_date paris;
    } in
    let two : Suite = record {
      name = "completeness";
      fetched = second;
      validate_frame = validate_completeness validate to_number read_date paris;
    } in
    let (f, m, r, e, p, later) = run_suites-step one (two ∷ []) 0 0 [] v first refl h in
    let (g, n, s, e', p', last) =
      run_suites-step two [] (0 + m) (0 + length r) ([] ++ failures_of "invariants" r) v second refl
        later in
    let made = ok-verdict last in
    let nothing =
      append_nothing (failures_of "invariants" r) (failures_of "completeness" s)
        (ap Verdict.passed made ∙ passed) in
    (
      f,
      g,
      m,
      n,
      r,
      s,
      e,
      e',
      p,
      p',
      failures_of-held "invariants" r nothing.0,
      failures_of-held "completeness" s nothing.1,
      sym (ap Verdict.expectations made) ∙ omega arith,
      sym (ap Verdict.scanned_bytes made) ∙ omega arith,
    )
