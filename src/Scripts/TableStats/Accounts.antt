-- ===== src/Scripts/TableStats/Accounts.antt =====
-- The report accounts for every object under data/.
use gridlens.Prelude.{
  ℕ, ◌+◌, ◌≡◌, refl, sym, ap, ◌∙◌, String, Bool, not, ◌&&◌, Option, List, [], ◌∷◌, map, keep, any,
  length, length-map, ok, or_raise, dict_get, >>=-eq-ok, ok-injective, arith, str_eq,
}
use gridlens.Prelude.Int.{ℤ, pos, ◌+ℤ◌, ◌-ℤ◌, eq_of_parts, int_laws}
use gridlens.Exceptions.{key_error, value_error}
use gridlens.Scripts.TableStats.{
  insert_text, sort_texts, object_path, unmatched, classify, same_class, data_files, group_by_class,
}
use gridlens.Scripts.TableStats.Grouping.{of_class, group_by_class_exact}
use gridlens.Scripts.TableStats.Report.{Report, format_report, summary_number}

length-insert_text : (s : String) (xs : List String) → length (insert_text s xs) ≡ length xs + 1
unfolding insert_text
length-insert_text s [] = refl
length-insert_text s (x ∷ xs) = let rest = length-insert_text s xs in ground (arith, rest)

length-sort_texts : (xs : List String) → length (sort_texts xs) ≡ length xs
unfolding sort_texts
length-sort_texts [] = refl
length-sort_texts (x ∷ xs) =
    omega (arith, length-insert_text x (sort_texts xs), length-sort_texts xs)

-- the data objects that a live path names
abbrev pub named : String → List String → List (String × ℕ) → List (String × ℕ)
named bucket live objects =
    keep (λ o. any (λ p. str_eq p (object_path bucket o.0)) live) (of_class data_files objects)

length-split :
    {A : Type 0} (c n : A → Bool) (xs : List A)
    → length (keep (λ x. c x && not (n x)) xs) + length (keep n (keep c xs)) ≡ length (keep c xs)
length-split c n [] = refl
length-split c n (x ∷ xs) = let rest = length-split c n xs in ground (arith, rest)

unmatched-accounts :
    (bucket : String) (live : List String) (objects : List (String × ℕ))
    → length (unmatched bucket live objects) + length (named bucket live objects)
      ≡ length (of_class data_files objects)
unfolding unmatched
unmatched-accounts bucket live objects =
    let split =
      length-split (λ o. same_class (classify o.0) data_files)
        (λ o. any (λ p. str_eq p (object_path bucket o.0)) live) objects in
    omega (
      arith,
      split,
      length-sort_texts (
          map (λ o. object_path bucket o.0)
            (keep
              (λ o.
                same_class (classify o.0) data_files
                && not (any (λ p. str_eq p (object_path bucket o.0)) live))
              objects)),
      length-map (λ o. object_path bucket o.0)
          (keep
            (λ o.
              same_class (classify o.0) data_files
              && not (any (λ p. str_eq p (object_path bucket o.0)) live))
            objects),
    )

sum_back : (u n d : ℕ) (x : ℤ) → u + n ≡ d → ((pos u -ℤ x) +ℤ x) +ℤ pos n ≡ pos d
sum_back u n d x h = eq_of_parts _ _ (omega (int_laws, h))

-- The report accounts for every object under data/: when the figures are made, from a listing, the
-- paths of the live files and the paths that are not matched, the objects on disk are those of the
-- listing's data class, and they are the unaccounted ones, the delete files and the live ones together.
pub format_report-accounts :
    (read_int : String → Option ℤ) (files summary : List (String × String))
    (live_rows bucket : String) (live : List String) (objects : List (String × ℕ)) (report : Report)
    → format_report read_int files summary live_rows
        (group_by_class objects)
        (unmatched bucket live objects)
      ≡ ok report
    → (report.on_disk ≡ length (of_class data_files objects))
      × ((report.leftover +ℤ report.delete_files) +ℤ pos (length (named bucket live objects))
          ≡ pos report.on_disk)
unfolding format_report
format_report-accounts read_int files summary live_rows bucket live objects report h =
    let (deletes, a, h1) = >>=-eq-ok (summary_number read_int "total-delete-files" summary) _ h in
    let (positions, b, h2) =
      >>=-eq-ok (summary_number read_int "total-position-deletes" summary) _ h1 in
    let (written, c, h3) = >>=-eq-ok (or_raise (dict_get "rows" files) (key_error "rows")) _ h2 in
    let (in_files, d, h4) =
      >>=-eq-ok (or_raise (read_int written) (value_error "invalid literal for int()")) _ h3 in
    let (live_count, e, h5) =
      >>=-eq-ok (or_raise (read_int live_rows) (value_error "invalid literal for int()")) _ h4 in
    let made = ok-injective h5 in
    let disk : report.on_disk ≡ length (of_class data_files objects) =
      sym (ap Report.on_disk made) ∙ ap (λ t. t.0) (group_by_class_exact data_files objects) in
    let sum =
      sum_back (length (unmatched bucket live objects)) (length (named bucket live objects))
        (length (of_class data_files objects)) deletes (unmatched-accounts bucket live objects) in
    let left : pos (length (unmatched bucket live objects)) -ℤ deletes ≡ report.leftover =
      ap Report.leftover made in
    let deleted : deletes ≡ report.delete_files = ap Report.delete_files made in
    (disk, rw (sym left, sym deleted, disk) sum)
