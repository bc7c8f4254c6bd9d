-- ===== src/Ingest/Xml.antt =====
-- XML elements as src/gridlens/ingest/entsoe_parse.py walks them, and the readers of the standard
-- library that it applies to their texts, which are parameters of the model.
use Prim.Native.Char.{code}
use gridlens.Prelude.{
  ℕ, String, Bool, false, ◌||◌, Option, none, some, List, [], ◌∷◌, Result, ok, err, ◌==◌,
  if◌then◌else◌,
}
use gridlens.Prelude.Int.{ℤ, pos, eqb_ℤ}
use gridlens.Exceptions.{Exception, value_error}
use gridlens.Contracts.Records.{Decimal, Moment, naive, aware}

-- `ET.Element`: tag, text and children
mutual
  pub data Element : Type 0 where
    element : String → Option String → Elements → Element

  pub data Elements : Type 0 where
    nil : Elements
    cons : Element → Elements → Elements

abbrev pub children : Element → List Element
children (element tag text xs) = to_list xs
  where
    to_list : Elements → List Element
    to_list nil = []
    to_list (cons x rest) = x ∷ to_list rest

abbrev pub tag_of : Element → String
tag_of (element tag text xs) = tag

abbrev pub text_of : Element → String
text_of (element tag none xs) = ""
text_of (element tag (some text) xs) = text

-- `datetime.fromisoformat`, `int`, `Decimal`, `str.strip`, `ET.fromstring` and the decimal digits
pub record Readers : Type 0 where
  pub digit : ℕ → Option ℕ
  pub strip : String → String
  pub read_int : String → Option ℤ
  pub read_decimal : String → Option Decimal
  pub read_moment : String → Option Moment
  pub fromstring : String → Result Exception Element

unfoldable pub has_brace : String → Bool
has_brace String.[] = false
has_brace (String.◌∷◌ c s) = code c == b'}' || has_brace s

-- `_local`: what stands behind the last closing brace
unfoldable pub local_name : String → String
unfolding has_brace
local_name String.[] = String.[]
local_name (String.◌∷◌ c s) =
    let rest = local_name s in
    if has_brace s then rest else if code c == b'}' then s else String.◌∷◌ c s

module _ (readers : Readers) where
  -- `(child.text or "").strip()`
  abbrev pub stripped : Element → String
  stripped node = readers.strip (text_of node)

  -- `_instant`
  unfoldable pub instant : String → Result Exception ℕ
  instant text = elim (readers.read_moment text) [
    | none ↦ err (value_error "invalid isoformat string")
    | some m ↦ elim m [
      | naive r ↦ err (value_error "timestamp without an offset")
      | aware r o ↦ if eqb_ℤ o (pos 0) then ok r else err (value_error "expected utc")
    ]
  ]
