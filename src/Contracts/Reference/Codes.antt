-- ===== src/Contracts/Reference/Codes.antt =====
-- A code names one member of its enumeration.
use gridlens.Prelude.{◌≡◌, refl, ◌↔◌, String, some, List, [], ◌∷◌, eq_iff, arith}
use gridlens.Contracts.Reference.{
  BiddingZone, ProductionType, fr, zone_value, type_value, zones, types, find_value, zone_of_value,
  type_of_value,
}

find_value_sound :
    {A : Type 0} (value : A → String) (s : String) (members : List A) (a : A)
    → find_value value s members ≡ some a
    → value a ≡ s
unfolding find_value
find_value_sound value s [] a h = cc
find_value_sound value s (b ∷ rest) a h =
    ground (arith, eq_iff (value b) s, find_value_sound value s rest a)

zone_of_value_self : (z : BiddingZone) → zone_of_value (zone_value z) ≡ some z
unfolding zone_of_value
zone_of_value_self fr = refl
zone_of_value_self _ = refl

type_of_value_self : (t : ProductionType) → type_of_value (type_value t) ≡ some t
unfolding type_of_value
type_of_value_self ProductionType.biomass = refl
type_of_value_self _ = refl

-- A text is read as a bidding zone exactly if it is that zone's code, and likewise for production
-- types.
pub of_value_exact :
    (s : String)
    → ((z : BiddingZone) → (zone_of_value s ≡ some z) ↔ (zone_value z ≡ s))
      × ((t : ProductionType) → (type_of_value s ≡ some t) ↔ (type_value t ≡ s))
unfolding zone_of_value type_of_value
of_value_exact s = (
  λ z. (find_value_sound zone_value s zones z, λ e. rw (← e) (zone_of_value_self z)),
  λ t. (find_value_sound type_value s types t, λ e. rw (← e) (type_of_value_self t)),
)
