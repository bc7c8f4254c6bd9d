-- ===== src/Prelude/Dicts.antt =====
-- A `dict` with texts for keys, in the order of its insertions: a key that is there keeps its place.
use Prim.Native.String.{String}
use mathlib.Core.Option.{Option, none, some}
use mathlib.Core.List.{List, [], ◌∷◌}
use text.Mathlib.Text.{◌==◌ as str_eq}
use gridlens.Prelude.Tests.{if◌then◌else◌}

module _ {ℓ} {A : Type ℓ} where
  abbrev pub dict_set : String → A → List (String × A) → List (String × A)
  dict_set key value [] = (key, value) ∷ []
  dict_set key value ((k, v) ∷ rest) =
      if str_eq k key then (k, value) ∷ rest else (k, v) ∷ dict_set key value rest

  abbrev pub dict_get : String → List (String × A) → Option A
  dict_get key [] = none
  dict_get key ((k, v) ∷ rest) = if str_eq k key then some v else dict_get key rest
