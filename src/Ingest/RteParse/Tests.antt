-- ===== src/Ingest/RteParse/Tests.antt =====
-- An entry of two hours, of which the second is missing.
use gridlens.Prelude.{
  ℕ, false, ◌≡◌, refl, String, [], ◌∷◌, Option, none, some, ◌⊎◌, ok, err, arith, str_eq,
  if◌then◌else◌, fold_ok,
}
use gridlens.Prelude.Int.{pos}
use gridlens.Exceptions.{Exception}
use gridlens.Timeaxis.{hour_us}
use gridlens.Contracts.Reference.{BiddingZone, ProductionType}
use gridlens.Contracts.Records.{Decimal, finite, Moment, aware}
use gridlens.Contracts.Gate.{GateResult, no_result}
use gridlens.Ingest.RteParse.{Value, Entry, utc_instant, instant_at, add_present, fill_grid}
use gridlens.Ingest.RteParse.Grid.{steps, Covers}
use gridlens.Ingest.RteParse.Account.{Window, Filled, fill_grid_accounts, fill_grid_endless}

abbrev read_moment : String → Option Moment
read_moment s =
    if str_eq s "a"
    then some (aware 864000000000 (pos 0))
    else if str_eq s "c"
    then some (aware 871200000000 (pos 0))
    else some (aware 867600000000 (pos 0))

abbrev read_decimal : String → Option Decimal
read_decimal s = some (finite false 40125 (pos 0))

abbrev hour_value : Value
hour_value = record {
  start_date = some "a";
  end_date = some "b";
  value = some "40125";
  updated_date = none;
}

abbrev entry : Entry
entry = record {
  production_type = some "NUCLEAR";
  start_date = some "a";
  end_date = some "c";
  values = hour_value ∷ [];
}

abbrev learned : Moment
learned = aware 950400000000 (pos 0)

entry_held :
    fold_ok (add_present read_moment read_decimal BiddingZone.fr learned) [] (hour_value ∷ [])
    ≡ ok ((864000000000, hour_value) ∷ [])
unfolding add_present instant_at utc_instant fold_ok
entry_held = refl

entry_from :
    instant_at read_moment read_decimal BiddingZone.fr learned "start_date" (some "a")
    ≡ ok 864000000000
unfolding instant_at utc_instant
entry_from = refl

entry_until :
    instant_at read_moment read_decimal BiddingZone.fr learned "end_date" (some "c")
    ≡ ok 871200000000
unfolding instant_at utc_instant
entry_until = refl

abbrev window : Window read_moment read_decimal BiddingZone.fr learned entry
window = record {
  present = (864000000000, hour_value) ∷ [];
  start = 864000000000;
  end = 871200000000;
  held = entry_held;
  from = entry_from;
  until = entry_until;
}

fill_grid_accounts_example :
    (n : ℕ) × Covers 864000000000 871200000000 hour_us n
    × (((x : Exception) × (fill_grid read_moment read_decimal BiddingZone.fr learned 7200000001
              ProductionType.nuclear hour_us entry no_result
            ≡ some (err x)))
        ⊎ ((g' : GateResult) × (fill_grid read_moment read_decimal BiddingZone.fr learned 7200000001
                ProductionType.nuclear hour_us entry no_result
              ≡ some (ok g'))
            × Filled read_moment read_decimal BiddingZone.fr learned ProductionType.nuclear hour_us
                ((864000000000, hour_value) ∷ [])
                (steps 864000000000 hour_us n)
                no_result
                g'))
fill_grid_accounts_example =
    fill_grid_accounts read_moment read_decimal BiddingZone.fr learned 7200000001
      ProductionType.nuclear hour_us entry no_result window (omega arith) (omega arith)

fill_grid_endless_example :
    fill_grid read_moment read_decimal BiddingZone.fr learned 50 ProductionType.nuclear 0 entry
      no_result
    ≡ none
fill_grid_endless_example =
    fill_grid_endless read_moment read_decimal BiddingZone.fr learned 50 ProductionType.nuclear
      entry no_result window (omega arith)
