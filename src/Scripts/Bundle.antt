-- ===== src/Scripts/Bundle.antt =====
-- scripts/build_lambda.py and scripts/dev_env.py: which files go into the archive and in which order,
-- what the archive's check refuses, and the file that is written once. The staged tree is a parameter.
use gridlens.Prelude.{
  ℕ, String, ◌<>◌, Bool, true, false, not, ◌&&◌, ◌||◌, Option, none, some, List, [], ◌∷◌, map, keep,
  any, str_eq, ◌==◌, if◌then◌else◌,
}
use Prim.Native.Char.{code}
use gridlens.Timeaxis.Duration.{codes}
use gridlens.Scripts.Texts.{ends_with}
use gridlens.Scripts.TableStats.{codes_leb}

-- A path under the stage: its parts, its name and whether it is a file.
pub record StagedPath : Type 0 where
  pub parts : List String
  pub name : String
  pub relative : String
  pub is_file : Bool

abbrev pub exclude_dirs : List String
exclude_dirs = "bin" ∷ "Scripts" ∷ "__pycache__" ∷ []

abbrev pub exclude_files : List String
exclude_files = "RECORD" ∷ "INSTALLER" ∷ "direct_url.json" ∷ ".lock" ∷ []

abbrev pub in_texts : String → List String → Bool
in_texts s texts = any (λ t. str_eq t s) texts

-- `EXCLUDE_DIRS & set(parts)`
unfoldable pub in_excluded_dir : StagedPath → Bool
in_excluded_dir p = any (λ part. in_texts part exclude_dirs) p.parts

-- `arcname`
unfoldable pub arcname_text : String → String
arcname_text String.[] = String.[]
arcname_text (String.◌∷◌ c s) =
    if code c == b'\\' then "/" <> arcname_text s else String.◌∷◌ c (arcname_text s)

abbrev pub arcname : StagedPath → String
arcname p = arcname_text p.relative

unfoldable pub is_bundled : StagedPath → Bool
is_bundled p = p.is_file && (not (in_excluded_dir p) && not (in_texts p.name exclude_files))

-- `sorted(…, key=arcname)`
unfoldable pub insert_path : StagedPath → List StagedPath → List StagedPath
insert_path p [] = p ∷ []
insert_path p (q ∷ rest) =
    if codes_leb (codes (arcname p)) (codes (arcname q))
    then p ∷ q ∷ rest
    else q ∷ insert_path p rest

unfoldable pub sort_paths : List StagedPath → List StagedPath
sort_paths [] = []
sort_paths (p ∷ rest) = insert_path p (sort_paths rest)

-- An entry of the archive: its name and its bytes; time, mode and system are the same for all.
unfoldable pub write_zip : (StagedPath → List ℕ) → List StagedPath → List (String × List ℕ)
write_zip read_bytes staged =
    map (λ p. (arcname p, read_bytes p)) (sort_paths (keep is_bundled staged))

-- the check at the end of `main`
unfoldable pub is_windows_binary : StagedPath → Bool
is_windows_binary p =
    (ends_with p.name ".pyd" || (ends_with p.name ".exe" || ends_with p.name ".dll"))
    && not (in_excluded_dir p)

unfoldable pub check_bundle : Bool → Bool → List StagedPath → ℕ
check_bundle check_only has_pydantic_core staged =
    if check_only
    then 0
    else if any is_windows_binary staged
    then 1
    else if has_pydantic_core
    then 0
    else 1

-- `write_if_missing` of dev_env.py, for a path whose text may be there
unfoldable pub render : List (String × String) → String
render [] = ""
render ((name, value) ∷ rest) = name <> "=" <> value <> "\n" <> render rest

abbrev pub env_header : String
env_header =
    "# Local development only. Generated by scripts/dev_env.py and\n"
    <> "# gitignored. Delete this file and rerun make env to rotate.\n"

unfoldable pub write_if_missing : List (String × String) → Option String → Bool × String
write_if_missing generated (some text) = (false, text)
write_if_missing generated none = (true, env_header <> render generated)
