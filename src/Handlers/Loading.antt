-- ===== src/Handlers/Loading.antt =====
-- What a successful load does to the table.
use mathlib.Core.List.{append-nil}
use gridlens.Prelude.{
  ℕ, ◌≡◌, ◌≢◌, refl, sym, ap, ◌∙◌, inl, inr, String, Bool, true, false, some, List, [], map, Result,
  ok, err, Result-cases, Option-cases, Bool-cases, ◌==◌, arith,
}
use gridlens.Prelude.Int.{pos}
use gridlens.Exceptions.{Exception, bronze_load_failed}
use gridlens.Contracts.Records.{aware}
use gridlens.Contracts.Gate.{GateResult}
use gridlens.Ingest.Xml.{Readers}
use gridlens.Lake.Query.{Execution, wait_for}
use gridlens.Lake.Bronze.{
  Row, Lake, Stats, batch_rows, check_batch, require_utc, finish_merge, merge_batch, merge,
}
use gridlens.Lake.Staging.{staged_row, write, batch_rows-write, write-batch, no_records}
use gridlens.Handlers.{Outside, Summary, merged, load_staged, load}

merge_empty : (start end : ℕ) (table : List Row) → merge start end [] table ≡ table
unfolding merge
merge_empty start end table = append-nil table

check_batch_window :
    (is_alnum : ℕ → Bool) (batch : String) (start end : ℕ) (w : ℕ × ℕ)
    → check_batch is_alnum batch (aware start (pos 0)) (aware end (pos 0)) ≡ ok w
    → w ≡ (start, end)
unfolding check_batch require_utc
check_batch_window is_alnum batch start end w h = ground arith

-- A merge that returns has merged the batch's rows, and the batch stays staged.
merge_batch_table :
    (is_alnum : ℕ → Bool) (answers : ℕ → Execution) (fuel : ℕ) (batch : String) (start end : ℕ)
    (lake lake' : Lake) (stats : Stats)
    → merge_batch is_alnum answers fuel batch (aware start (pos 0)) (aware end (pos 0)) lake
      ≡ some (ok stats, lake')
    → lake'.table ≡ merge start end (batch_rows batch lake.staging) lake.table
unfolding merge_batch finish_merge
merge_batch_table is_alnum answers fuel batch start end lake lake' stats h =
    elim (Result-cases (check_batch is_alnum batch (aware start (pos 0)) (aware end (pos 0)))) [
      | inr (e, c) ↦ cc (rw (c, merge_batch) at h)
      | inl (w, c) ↦
          let c' = c ∙ ap ok (check_batch_window is_alnum batch start end w c) in
          elim (Option-cases (wait_for answers fuel bronze_load_failed "no reason given")) [
            | inl out ↦ cc (rw (out, merge_batch) at (rw (c', merge_batch) at h))
            | inr (r, ended) ↦ merged r (rw (ended, merge_batch) at (rw (c', merge_batch) at h))
          ]
    ]
  where
    merged :
        (r : Result Exception Execution)
        → some (finish_merge batch (start, end) lake r) ≡ some (ok stats, lake')
        → lake'.table ≡ merge start end (batch_rows batch lake.staging) lake.table
    merged (err e) h = cc h
    merged (ok done) h =
        let e : finish_merge batch (start, end) lake (ok done) ≡ (ok stats, lake') = cc h in
        ap (λ p. p.1.table) (sym e)

load_staged_table :
    (readers : Readers) (is_alnum : ℕ → Bool) (out : Outside) (start end : ℕ) (g : GateResult)
    (q : ℕ) (batch : String) (n : ℕ) (lake lake' : Lake) (s : Summary)
    → n == 0 ≡ false
    → load_staged readers is_alnum out start end g q (ok (batch, n)) lake ≡ some (ok s, lake')
    → lake'.table ≡ merge start end (batch_rows batch lake.staging) lake.table
unfolding load_staged merged
load_staged_table readers is_alnum out start end g q batch n lake lake' s some_staged h =
    elim (Option-cases (
      merge_batch is_alnum out.answers out.fuel batch (aware start (pos 0)) (aware end (pos 0))
        lake)) [
          | inl c ↦ cc (rw (some_staged, c) at h)
          | inr ((err e, lake1), c) ↦ cc (rw (some_staged, c) at h)
          | inr ((ok stats, lake1), c) ↦
              let same : lake1 ≡ lake' = cc (rw (some_staged, c) at h) in
              ap (λ l. l.table) (sym same)
              ∙ merge_batch_table is_alnum out.answers out.fuel batch start end lake lake1 stats c
        ]

load_staged_none :
    (readers : Readers) (is_alnum : ℕ → Bool) (out : Outside) (start end : ℕ) (g : GateResult)
    (q : ℕ) (batch : String) (n : ℕ) (lake lake' : Lake) (s : Summary)
    → n == 0 ≡ true
    → load_staged readers is_alnum out start end g q (ok (batch, n)) lake ≡ some (ok s, lake')
    → lake' ≡ lake
unfolding load_staged
load_staged_none readers is_alnum out start end g q batch n lake lake' s none_staged h =
    cc (rw none_staged at h)

load_staged_err :
    (readers : Readers) (is_alnum : ℕ → Bool) (out : Outside) (start end : ℕ) (g : GateResult)
    (q : ℕ) (e : Exception) (lake lake' : Lake) (s : Summary)
    → load_staged readers is_alnum out start end g q (err e) lake ≢ some (ok s, lake')
unfolding load_staged
load_staged_err readers is_alnum out start end g q e lake lake' s h = cc h

-- What a successful `load` does to the table.
pub load_table :
    (readers : Readers) (is_alnum : ℕ → Bool) (out : Outside) (start end : ℕ) (g : GateResult)
    (q : ℕ) (lake lake' : Lake) (s : Summary)
    → batch_rows out.batch_id lake.staging ≡ []
    → load readers is_alnum out start end g q lake ≡ some (ok s, lake')
    → lake'.table ≡ merge start end (map staged_row g.records) lake.table
unfolding load
load_table readers is_alnum out start end g q lake lake' s new h =
    let w = write out.batch_id out.put_batch g.records lake in
    elim (Result-cases w.0) [
      | inr (e, c) ↦
          elim (load_staged_err readers is_alnum out start end g q e w.1 lake' s (rw c at h)) [ ]
      | inl ((batch, n), c) ↦
          let written : w ≡ (ok (batch, n), w.1) = ap (λ r. (r, w.1)) c in
          let (rows, table, count) =
            batch_rows-write out.batch_id batch n out.put_batch g.records lake w.1 new written in
          let h' : load_staged readers is_alnum out start end g q (ok (batch, n)) w.1
              ≡ some (ok s, lake') =
            rw c at h in
          elim (Bool-cases (n == 0)) [
            | inl none_staged ↦
                let none_kept = no_records g.records (rw count at none_staged) in
                ap (λ l. l.table)
                  (load_staged_none readers is_alnum out start end g q batch n w.1 lake' s
                    none_staged h')
                ∙ table
                ∙ sym (rw none_kept (merge_empty start end lake.table))
            | inr some_staged ↦
                let id =
                  write-batch out.batch_id batch n out.put_batch g.records lake w.1 written
                    some_staged in
                load_staged_table readers is_alnum out start end g q batch n w.1 lake' s some_staged
                  h'
                ∙ ap (λ b. merge start end (batch_rows b w.1.staging) w.1.table) id
                ∙ rw (rows, table) refl
          ]
    ]
