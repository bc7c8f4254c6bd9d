-- ===== src/Prelude/Texts.antt =====
-- Texts put together.
use Prim.Native.String
use Prim.Native.String.{String}
use mathlib.Core.List.{List, [], ◌∷◌}

infixl 65 ◌<>◌
abbrev pub ◌<>◌ : String → String → String
a <> b = String.◌++◌ a b

-- `sep.join(parts)`
abbrev pub join : String → List String → String
join sep [] = ""
join sep (s ∷ []) = s
join sep (s ∷ t ∷ rest) = s <> sep <> join sep (t ∷ rest)
