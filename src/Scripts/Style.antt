-- ===== src/Scripts/Style.antt =====
-- scripts/check_style.py: what it finds in a text and in a commit message. The methods of `str` are
-- parameters, a message keeps its fixed words, and git's output is not modelled.
use gridlens.Prelude.{
  ℕ, ◌+◌, String, ◌<>◌, Bool, true, false, not, ◌&&◌, ◌||◌, List, [], ◌∷◌, ◌++◌, any, join, ltb,
  leb, ◌==◌, if◌then◌else◌,
}
use gridlens.Timeaxis.Duration.{codes}
use gridlens.Ingest.Client.{contains}
use gridlens.Scripts.Texts.{starts_with}
use gridlens.Scripts.TableStats.{codes_leb}

pub record Strings : Type 0 where
  pub splitlines : String → List String
  pub strip : String → String
  pub lower : String → String
  pub split : String → List String
  pub isupper : String → Bool
  pub is_upper : ℕ → Bool
  pub is_word : ℕ → Bool
  pub is_space : ℕ → Bool

abbrev pub banned_words : List String
banned_words =
    "comprehensive" ∷ "robust" ∷ "seamless" ∷ "seamlessly" ∷ "leverage" ∷ "streamline" ∷ "elegant"
    ∷ "powerful" ∷ "cutting-edge" ∷ "best-in-class" ∷ "delve" ∷ "crucial" ∷ "vital" ∷ "unlock"
    ∷ "empower" ∷ "harness" ∷ "journey" ∷ []

abbrev pub banned_phrases : List String
banned_phrases =
    "it's worth noting" ∷ "keep in mind" ∷ "in today's fast-paced" ∷ "at its core" ∷ "deep dive"
    ∷ []

abbrev pub banned_trailers : List String
banned_trailers = "generated with" ∷ "co-authored-by" ∷ []

-- The characters of DASHES and CURLY, with their names.
abbrev pub banned_characters : List (ℕ × String)
banned_characters =
    (8212, "em dash")
    ∷ (8211, "en dash")
    ∷ (8216, "curly quote")
    ∷ (8217, "curly quote")
    ∷ (8220, "curly quote")
    ∷ (8221, "curly quote")
    ∷ []

abbrev pub between : ℕ → ℕ → ℕ → Bool
between low high c = leb low c && leb c high

-- the class of the pattern EMOJI
unfoldable pub is_emoji : ℕ → Bool
is_emoji c =
    between 126976 129791 c || (between 9728 10175 c || (between 11008 11263 c || c == 65039))

-- A line number and a message.
abbrev pub Problem : Type 0
Problem = ℕ × String

unfoldable pub listed_characters : ℕ → List ℕ → List (ℕ × String) → List Problem
listed_characters n line [] = []
listed_characters n line ((c, name) ∷ rest) =
    let later = listed_characters n line rest in
    if any (λ d. d == c) line then (n, name) ∷ later else later

-- `_char_problems`, from a line number on
unfoldable pub char_problems : ℕ → List String → List Problem
char_problems n [] = []
char_problems n (line ∷ rest) =
    listed_characters n (codes line) banned_characters
    ++ (if any is_emoji (codes line) then (n, "emoji") ∷ [] else [])
    ++ char_problems (n + 1) rest

module _ (str : Strings) where
  -- `re.search(rf"\b{word}\b", text)` for a word that begins and ends with word characters; `before` is
  -- whether a word character stands before the text.
  unfoldable pub ends_word : List ℕ → Bool
  ends_word [] = true
  ends_word (c ∷ rest) = not (str.is_word c)

  unfoldable pub after_prefix : List ℕ → List ℕ → Bool
  after_prefix [] s = ends_word s
  after_prefix (c ∷ cs) [] = false
  after_prefix (c ∷ cs) (d ∷ s) = c == d && after_prefix cs s

  unfoldable pub has_word : Bool → List ℕ → List ℕ → Bool
  has_word before word [] = false
  has_word before word (c ∷ s) =
      (not before && after_prefix word (c ∷ s)) || has_word (str.is_word c) word s

  unfoldable pub line_words : ℕ → List ℕ → List String → List Problem
  line_words n lowered [] = []
  line_words n lowered (w ∷ rest) =
      let later = line_words n lowered rest in
      if has_word false (codes w) lowered then (n, "banned word: " <> w) ∷ later else later

  unfoldable pub line_phrases : ℕ → List ℕ → List String → List Problem
  line_phrases n lowered [] = []
  line_phrases n lowered (p ∷ rest) =
      let later = line_phrases n lowered rest in
      if contains (codes p) lowered then (n, "banned phrase: " <> p) ∷ later else later

  -- `_word_problems`, from a line number on
  unfoldable pub word_problems : ℕ → List String → List Problem
  word_problems n [] = []
  word_problems n (line ∷ rest) =
      line_words n (codes (str.lower line)) banned_words
      ++ line_phrases n (codes (str.lower line)) banned_phrases
      ++ word_problems (n + 1) rest

  abbrev pub problem_leb : Problem → Problem → Bool
  problem_leb p q = ltb p.0 q.0 || (p.0 == q.0 && codes_leb (codes p.1) (codes q.1))

  unfoldable pub insert_problem : Problem → List Problem → List Problem
  insert_problem p [] = p ∷ []
  insert_problem p (q ∷ rest) = if problem_leb p q then p ∷ q ∷ rest else q ∷ insert_problem p rest

  unfoldable pub sort_problems : List Problem → List Problem
  sort_problems [] = []
  sort_problems (p ∷ rest) = insert_problem p (sort_problems rest)

  -- `check_prose`, of the text
  unfoldable pub check_prose : String → List Problem
  check_prose text =
      let lines = str.splitlines text in
      sort_problems (char_problems 1 lines ++ word_problems 1 lines)

  -- `_strip_comments`
  unfoldable pub kept_lines : List String → List String
  kept_lines [] = []
  kept_lines (line ∷ rest) =
      let later = kept_lines rest in
      if starts_with line "# ------------------------ >8"
      then []
      else if starts_with line "#"
      then later
      else line ∷ later

  unfoldable pub strip_comments : String → String
  strip_comments raw = str.strip (join "\n" (kept_lines (str.splitlines raw)))
