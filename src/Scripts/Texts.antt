-- ===== src/Scripts/Texts.antt =====
-- The methods of `str` that the scripts call, on the texts that they are called with.
use Prim.Native.Char.{code}
use gridlens.Prelude.{
  ℕ, String, Bool, false, ◌&&◌, ◌||◌, List, [], ◌∷◌, ◌==◌, str_eq, if◌then◌else◌,
}
use gridlens.Timeaxis.Duration.{codes}
use gridlens.Ingest.Client.{has_prefix}

-- `text.startswith(prefix)`
abbrev pub starts_with : String → String → Bool
starts_with text prefix = has_prefix (codes prefix) (codes text)

has_suffix : List ℕ → List ℕ → Bool
has_suffix suffix [] = has_prefix suffix []
has_suffix suffix (c ∷ s) =
    (has_prefix suffix (c ∷ s) && has_prefix (c ∷ s) suffix) || has_suffix suffix s

-- `text.endswith(suffix)`
unfoldable pub ends_with : String → String → Bool
unfolding has_suffix
ends_with text suffix = has_suffix (codes suffix) (codes text)

-- Whether a character stands in a text.
unfoldable pub occurs : ℕ → String → Bool
occurs c String.[] = false
occurs c (String.◌∷◌ d s) = code d == c || occurs c s

-- `text.rsplit(c, 1)[-1]`
unfoldable pub after_last : ℕ → String → String
after_last c String.[] = String.[]
after_last c (String.◌∷◌ d s) =
    let rest = after_last c s in
    if occurs c s then rest else if code d == c then s else String.◌∷◌ d s

-- `text.lstrip(c)`
unfoldable pub lstrip : ℕ → String → String
lstrip c String.[] = String.[]
lstrip c (String.◌∷◌ d s) = let rest = lstrip c s in if code d == c then rest else String.◌∷◌ d s

-- `text.rstrip(c)`
unfoldable pub rstrip : ℕ → String → String
rstrip c String.[] = String.[]
rstrip c (String.◌∷◌ d s) =
    let rest = rstrip c s in if code d == c && str_eq rest "" then String.[] else String.◌∷◌ d rest

-- `text.rsplit(word, 1)[0]` for a word that is not empty
unfoldable pub before_last : String → String → String
before_last word String.[] = String.[]
before_last word (String.◌∷◌ d s) =
    let rest = before_last word s in
    if found word s
    then String.◌∷◌ d rest
    else if starts_with (String.◌∷◌ d s) word
    then String.[]
    else String.◌∷◌ d rest
  where
    found : String → String → Bool
    found w String.[] = false
    found w (String.◌∷◌ c t) = starts_with (String.◌∷◌ c t) w || found w t
