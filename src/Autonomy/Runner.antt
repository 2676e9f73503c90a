-- ===== src/Autonomy/Runner.antt =====
-- The commands with which src/crypto_alpha_agent/autonomy/cycle.py lets a change be verified: pytest
-- alone, on tests below the working directory. `split_command` is `shlex.split`. Paths are those of
-- POSIX.
pub mod Confinement
use Prim.Native.Char.{Char, code}
use text.Mathlib.Text.{starts_with}
use crypto_research_agent.Common.{
  ℕ, String, append_text, Bool, true, false, not, ◌&&◌, ◌||◌, Option, none, some, List, [], ◌∷◌,
  if◌then◌else◌, ◌==◌, any, is_blank, occurs_in, contains, ◌=?◌, string_eq, Outcome, ok, err,
}

-- `text.split(separator)` for a separator of one letter, whose code is given
abbrev pub add_letter : Char → List String → List String
add_letter c [] = String.◌∷◌ c String.[] ∷ []
add_letter c (t ∷ ts) = String.◌∷◌ c t ∷ ts

unfoldable pub split_at_code : ℕ → String → List String
split_at_code separator String.[] = "" ∷ []
split_at_code separator (String.◌∷◌ c s) =
    let rest = split_at_code separator s in
    if code c == separator then "" ∷ rest else add_letter c rest

abbrev pub keep_parts : List String → List String
keep_parts [] = []
keep_parts (t ∷ ts) =
    let rest = keep_parts ts in if is_blank t || (t =? ".") then rest else t ∷ rest

-- `Path(text).parts`, less the root of an absolute path
unfoldable pub path_parts : String → List String
path_parts text = keep_parts (split_at_code 47 text)

-- `Path(text).is_absolute()`
abbrev pub is_absolute : String → Bool
is_absolute text = starts_with text "/"

abbrev pub last_part : List String → String
last_part [] = ""
last_part (t ∷ []) = t
last_part (t ∷ u ∷ ts) = last_part (u ∷ ts)

unfoldable pub ends_with : String → String → Bool
ends_with String.[] token = is_blank token
ends_with (String.◌∷◌ c s) token = (String.◌∷◌ c s =? token) || ends_with s token

-- `Path(name).suffix == ".py"`: there is a letter before the dot
abbrev pub has_py_suffix : String → Bool
has_py_suffix String.[] = false
has_py_suffix (String.◌∷◌ c s) = ends_with s ".py"

-- `arg.split("::", 1)[0]`
unfoldable pub before_colons : String → String
before_colons String.[] = ""
before_colons (String.◌∷◌ c s) =
    let rest = before_colons s in
    if starts_with (String.◌∷◌ c s) "::" then "" else String.◌∷◌ c rest

abbrev pub starts_in_tests : List String → Bool
starts_in_tests [] = false
starts_in_tests (t ∷ ts) = t =? "tests"

-- `path.is_absolute() or ".." in path.parts`
unfoldable pub is_outside_path : String → Bool
is_outside_path text = is_absolute text || contains ".." (path_parts text)

-- `_is_test_selector`
unfoldable pub is_test_selector : String → Bool
is_test_selector arg =
    let path = before_colons arg in
    not (starts_with arg "-")
    && not (is_outside_path path)
    && (has_py_suffix (last_part (path_parts path)) || starts_in_tests (path_parts path))

abbrev pub tail_of : String → String
tail_of String.[] = ""
tail_of (String.◌∷◌ c s) = s

-- `_has_unsafe_short_option_cluster`
unfoldable pub has_unsafe_short_option_cluster : String → Bool
has_unsafe_short_option_cluster arg =
    starts_with arg "-"
    && not (starts_with arg "--")
    && (occurs_in "h" (tail_of arg) || occurs_in "V" (tail_of arg))

abbrev pub forbidden_prefixes : List String
forbidden_prefixes =
    "--basetemp" ∷ "--cache-show" ∷ "--collectonly" ∷ "--confcutdir"
    ∷ "--continue-on-collection-errors" ∷ "--cov" ∷ "--cov-report" ∷ "--fixtures" ∷ "--help"
    ∷ "--html" ∷ "--junitxml" ∷ "--override-ini" ∷ "--pyargs" ∷ "--rootdir" ∷ "--setup-only"
    ∷ "--setuponly" ∷ "--setup-plan" ∷ "--setupplan" ∷ "--setup-show" ∷ "--trace-config"
    ∷ "--version" ∷ []

abbrev pub forbidden_exact : List String
forbidden_exact =
    "--co" ∷ "--collect-only" ∷ "--fixtures-per-test" ∷ "--funcargs" ∷ "--markers" ∷ "--trace"
    ∷ "-c" ∷ "-o" ∷ "-p" ∷ "-V" ∷ "-h" ∷ []

-- the options that are refused wherever they stand
unfoldable pub is_forbidden_option : String → Bool
is_forbidden_option arg =
    contains arg forbidden_exact
    || any (λ prefix. starts_with arg prefix) ("-c" ∷ "-o" ∷ "-p" ∷ [])
    || any (λ prefix. starts_with arg prefix) forbidden_prefixes

-- The loop over the arguments, with the one before; at the first there is none.
unfoldable pub has_unsafe_from : Option String → List String → Bool
has_unsafe_from before [] = false
has_unsafe_from before (arg ∷ args) =
    is_forbidden_option arg
    || follows_forbidden before
    || has_unsafe_short_option_cluster arg
    || (not (starts_with arg "-") && is_outside_path arg)
    || has_unsafe_from (some arg) args
  where
    follows_forbidden : Option String → Bool
    follows_forbidden none = false
    follows_forbidden (some b) = contains b forbidden_exact

-- `_has_unsafe_pytest_args`
unfoldable pub has_unsafe_pytest_args : List String → Bool
has_unsafe_pytest_args args = not (any is_test_selector args) || has_unsafe_from none args

-- the arguments after the name of pytest; a later form replaces an earlier one, and no command has two
abbrev pub pytest_args_of : List String → Option (List String)
pytest_args_of (first ∷ second ∷ third ∷ rest) =
    if (first =? "uv") && (second =? "run") && (third =? "pytest")
    then some rest
    else if (first =? "python") && (second =? "-m") && (third =? "pytest")
    then some rest
    else if first =? "pytest"
    then some (second ∷ third ∷ rest)
    else none
pytest_args_of (first ∷ rest) = if first =? "pytest" then some rest else none
pytest_args_of [] = none

abbrev pub if_safe : Option (List String) → Option (List String)
if_safe none = none
if_safe (some args) = if has_unsafe_pytest_args args then none else some args

-- `_pytest_args_from_runner_argv`
unfoldable pub pytest_args_from_runner_argv : List String → Option (List String)
pytest_args_from_runner_argv argv = if_safe (pytest_args_of argv)

module _ (split_command : String → Outcome (List String)) where
  -- `_runner_argv`; `none` stands for a rejection, whose text is only reported
  abbrev pub runner_argv_of : Outcome (List String) → Option (List String)
  runner_argv_of (err e) = none
  runner_argv_of (ok argv) = pytest_args_from_runner_argv argv

  unfoldable pub runner_argv : String → Option (List String)
  runner_argv command = runner_argv_of (split_command command)
