-- ===== src/Scripts/Commit.antt =====
-- scripts/check_style.py: the check of a commit message. The label of a problem is left out, and a
-- problem of the subject has no line.
use gridlens.Prelude.{
  ℕ, String, ◌<>◌, Bool, true, false, not, ◌&&◌, ◌||◌, Option, none, some, List, [], ◌∷◌, ◌++◌, map,
  any, length, str_eq, ltb, ◌==◌, if◌then◌else◌,
}
use gridlens.Timeaxis.Duration.{codes}
use gridlens.Ingest.Client.{contains}
use gridlens.Scripts.Texts.{starts_with, ends_with}
use gridlens.Scripts.Style.{
  Strings, banned_trailers, between, char_problems, word_problems, strip_comments,
}

abbrev pub commit_types : List String
commit_types =
    "feat" ∷ "fix" ∷ "docs" ∷ "test" ∷ "chore" ∷ "ci" ∷ "refactor" ∷ "perf" ∷ "build" ∷ "revert"
    ∷ []

-- what is left of a text behind a prefix
unfoldable pub behind : List ℕ → List ℕ → Option (List ℕ)
behind [] s = some s
behind (c ∷ cs) [] = none
behind (c ∷ cs) (d ∷ s) = let rest = behind cs s in if c == d then rest else none

-- the class `[a-z0-9._/-]`
abbrev pub in_scope : ℕ → Bool
in_scope c =
    between b'a' b'z' c
    || (between b'0' b'9' c || (c == b'.' || (c == b'_' || (c == b'/' || c == b'-'))))

-- Behind the scope's characters, at least one of them, and its closing bracket.
unfoldable pub scope_end : Bool → List ℕ → Option (List ℕ)
scope_end met [] = none
scope_end met (c ∷ s) =
    let rest = scope_end true s in
    if in_scope c then rest else if met && c == b')' then some s else none

-- `(\(…\))?!?: \S`
unfoldable pub colon_matches : (ℕ → Bool) → List ℕ → Bool
colon_matches is_space (c ∷ d ∷ e ∷ rest) = c == b':' && (d == b' ' && not (is_space e))
colon_matches is_space _ = false

unfoldable pub bang_matches : (ℕ → Bool) → List ℕ → Bool
bang_matches is_space [] = false
bang_matches is_space (c ∷ rest) =
    if c == b'!' then colon_matches is_space rest else colon_matches is_space (c ∷ rest)

unfoldable pub scope_matches : (ℕ → Bool) → List ℕ → Bool
scope_matches is_space [] = false
scope_matches is_space (c ∷ rest) =
    if c == b'('
    then elim (scope_end false rest) [ none ↦ false | some s ↦ bang_matches is_space s ]
    else bang_matches is_space (c ∷ rest)

-- `CONVENTIONAL.match`
unfoldable pub conventional : (ℕ → Bool) → List ℕ → Bool
conventional is_space subject =
    any (λ t. elim (behind (codes t) subject) [ none ↦ false | some s ↦ scope_matches is_space s ])
      commit_types

module _ (str : Strings) where
  unfoldable pub trailer_problems : String → List String → List String
  trailer_problems lowered [] = []
  trailer_problems lowered (t ∷ rest) =
      let later = trailer_problems lowered rest in
      if contains (codes t) (codes lowered) then ("attribution trailer: " <> t) ∷ later else later

  -- `subject.split(": ", 1)[1]`
  unfoldable pub summary_of : List ℕ → List ℕ
  summary_of [] = []
  summary_of (c ∷ s) =
      let rest = summary_of s in
      elim (behind (b':' ∷ b' ' ∷ []) (c ∷ s)) [ none ↦ rest | some found ↦ found ]

  -- `summary[0].isupper() and not summary.split()[0].isupper()`, the first word given
  unfoldable pub starts_capital : List ℕ → Bool → Bool
  starts_capital [] word_upper = false
  starts_capital (c ∷ s) word_upper = str.is_upper c && not word_upper

  -- whether the first word is in capitals
  unfoldable pub first_upper : List String → Bool
  first_upper [] = false
  first_upper (w ∷ rest) = str.isupper w

  unfoldable pub form_problems : (List ℕ → String) → String → List String
  form_problems text_of subject =
      if conventional str.is_space (codes subject)
      then (if starts_capital (summary_of (codes subject))
            (first_upper (str.split (text_of (summary_of (codes subject)))))
          then "summary should not start with a capital" ∷ []
          else [])
      else "subject is not 'type(scope): summary' with a known type" ∷ []

  unfoldable pub subject_problems : (List ℕ → String) → String → List String
  subject_problems text_of subject =
      (if ltb 72 (length (codes subject)) then "subject is too long" ∷ [] else [])
      ++ (if ends_with subject "." then "subject ends with a period" ∷ [] else [])
      ++ form_problems text_of subject

  -- made by git itself
  unfoldable pub is_generated : String → Bool
  is_generated subject =
      starts_with subject "Merge "
      || (starts_with subject "Revert "
          || (starts_with subject "fixup!" || starts_with subject "squash!"))

  -- the line behind the subject
  unfoldable pub body_problems : List String → List String
  body_problems [] = []
  body_problems (line ∷ rest) =
      if str_eq (str.strip line) "" then [] else "no blank line between subject and body" ∷ []

  -- what is checked of a message's lines
  unfoldable pub line_problems : (List ℕ → String) → String → List String → List String
  line_problems text_of message [] = []
  line_problems text_of message (subject ∷ body) =
      let found =
        map (λ p. p.1) (char_problems 1 (subject ∷ body))
        ++ map (λ p. p.1) (word_problems str 1 (subject ∷ body))
        ++ trailer_problems (str.lower message) banned_trailers in
      if is_generated subject
      then found
      else found ++ subject_problems text_of subject ++ body_problems body

  -- `check_commit_message`; a text is put together from its characters by a parameter.
  unfoldable pub check_commit_message : (List ℕ → String) → String → List String
  check_commit_message text_of raw =
      let message = strip_comments str raw in
      if str_eq message ""
      then "empty commit message" ∷ []
      else line_problems text_of message (str.splitlines message)
