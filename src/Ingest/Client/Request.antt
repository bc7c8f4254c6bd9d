-- ===== src/Ingest/Client/Request.antt =====
-- src/gridlens/ingest/entsoe.py: the parameters of a request. `strftime` is a parameter.
use gridlens.Prelude.{ℕ, String, List, [], ◌∷◌, Result, ok, err, ◌>>=◌}
use gridlens.Exceptions.{Exception, value_error}
use gridlens.Timeaxis.{sub_offset}
use gridlens.Contracts.Records.{Moment, naive, aware}

-- `format_period`
unfoldable pub format_period : (ℕ → String) → Moment → Result Exception String
format_period strftime (naive reading) = err (value_error "naive datetime")
format_period strftime (aware reading offset) = ok (strftime (sub_offset reading offset))

-- what `actual_generation_per_type` hands to `fetch`
unfoldable pub generation_parameters :
    (ℕ → String) → String → Moment → Moment → Result Exception (List (String × String))
generation_parameters strftime zone start end = do
  first ← format_period strftime start
  last ← format_period strftime end
  ok (
      ("documentType", "A75")
      ∷ ("processType", "A16")
      ∷ ("in_Domain", zone)
      ∷ ("periodStart", first)
      ∷ ("periodEnd", last)
      ∷ [])
