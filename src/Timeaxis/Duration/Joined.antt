-- ===== src/Timeaxis/Duration/Joined.antt =====
-- The code points of two texts put together.
use Prim.Native.Char.{code}
use text.Mathlib.TextLemmas.{nil-append, cons-append}
use gridlens.Prelude.{◌<>◌, ◌++◌, ◌≡◌, refl, ap, String, ◌∷◌}
use gridlens.Timeaxis.Duration.{codes}

pub codes-append : (a b : String) → codes (a <> b) ≡ codes a ++ codes b
codes-append String.[] b = rw (nil-append b) refl
codes-append (String.◌∷◌ c s) b = rw (cons-append c s b) (ap (λ r. code c ∷ r) (codes-append s b))
