-- ===== src/Ingest/Client/Reason.antt =====
-- `_reason` of src/gridlens/ingest/entsoe.py: the code and the text of an acknowledgement's first Reason,
-- in the namespace of its root. `str.strip` is a parameter; the element is the parsed body.
mod Tests
use Prim.Native.Char.{code}
use gridlens.Prelude.{ℕ, String, ◌<>◌, Bool, Option, none, some, ◌==◌, str_eq, if◌then◌else◌}
use gridlens.Ingest.Xml.{Element, element, Elements, nil, cons, has_brace, tag_of}

-- `tag.partition("}")[0]`
unfoldable pub before_brace : String → String
before_brace String.[] = String.[]
before_brace (String.◌∷◌ c s) =
    let rest = before_brace s in if code c == b'}' then String.[] else String.◌∷◌ c rest

-- `.lstrip("{")`
unfoldable pub without_braces : String → String
without_braces String.[] = String.[]
without_braces (String.◌∷◌ c s) =
    let rest = without_braces s in if code c == b'{' then rest else String.◌∷◌ c s

unfoldable pub namespace_of : String → String
namespace_of tag = if has_brace tag then without_braces (before_brace tag) else ""

-- the tag of a local name in a namespace
unfoldable pub qualified : String → String → String
qualified namespace name = if str_eq namespace "" then name else "{" <> namespace <> "}" <> name

-- the text of the first child of a name; an element without a text has the empty one
unfoldable pub child_text : String → Elements → Option String
child_text name nil = none
child_text name (cons (element tag text xs) rest) =
    let later = child_text name rest in
    if str_eq tag name then some (elim text [ none ↦ "" | some t ↦ t ]) else later

abbrev pub first_found : Option String → Option String → Option String
first_found none later = later
first_found (some t) later = some t

-- `.//parent/child`, in the order of the document
unfoldable pub find_text : String → String → Elements → Option String
find_text parent child nil = none
find_text parent child (cons (element tag text xs) rest) =
    let here = child_text child xs in
    let inside = find_text parent child xs in
    let later = find_text parent child rest in
    first_found (if str_eq tag parent then here else none) (first_found inside later)

-- `findtext(…, default="")`
unfoldable pub text_below : String → String → Element → String
text_below parent child (element tag text xs) = elim (find_text parent child xs) [
  | none ↦ ""
  | some t ↦ t
]

unfoldable pub reason_of : (String → String) → Element → String × String
reason_of strip root =
    let namespace = namespace_of (tag_of root) in
    let parent = qualified namespace "Reason" in
    (
      strip (text_below parent (qualified namespace "code") root),
      strip (text_below parent (qualified namespace "text") root),
    )
