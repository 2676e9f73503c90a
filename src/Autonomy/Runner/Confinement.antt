-- ===== src/Autonomy/Runner/Confinement.antt =====
-- What the arguments that are accepted cannot be.
use text.Mathlib.Text.{starts_with}
use crypto_research_agent.Common.{
  ◌≡◌, subst, String, Bool, true, false, not, ◌&&◌, ◌||◌, ◌=?◌, string_eq, Option, none, some, List,
  [], ◌∷◌, arith, any, All, contains, occurs_in, Outcome, ok, err,
}
use crypto_research_agent.Autonomy.Runner.{
  is_outside_path, is_test_selector, has_unsafe_short_option_cluster, is_forbidden_option,
  has_unsafe_from, has_unsafe_pytest_args, pytest_args_of, if_safe, pytest_args_from_runner_argv,
  runner_argv_of, runner_argv, path_parts, before_colons, last_part, has_py_suffix, starts_in_tests,
  tail_of, forbidden_prefixes, forbidden_exact,
}

any-none {ℓ} :
    {A : Type ℓ} (p : A → Bool) (xs : List A) → any p xs ≡ false → All (λ x. p x ≡ false) xs
any-none p [] h = tt
any-none p (x ∷ xs) h = (ground arith, any-none p xs (ground arith))

contains-none :
    (s : String) (strings : List String)
    → contains s strings ≡ false
    → All (λ t. (s =? t) ≡ false) strings
unfolding contains
contains-none s [] h = tt
contains-none s (t ∷ strings) h = (ground arith, contains-none s strings (ground arith))

-- An argument that begins with none of the refused options, is none of those that are refused as they
-- stand, has no `h` and no `V` among short options, and, unless it is an option, is no absolute path and
-- goes up to no parent. A path that an option carries is not looked at.
pub record IsVetted (arg : String) : Type 0 where
  pub beginnings :
      All
        (λ prefix. starts_with arg prefix ≡ false)
        ("-c" ∷ "-o" ∷ "-p" ∷ "--basetemp" ∷ "--cache-show" ∷ "--collectonly" ∷ "--confcutdir"
          ∷ "--continue-on-collection-errors" ∷ "--cov" ∷ "--cov-report" ∷ "--fixtures" ∷ "--help"
          ∷ "--html" ∷ "--junitxml" ∷ "--override-ini" ∷ "--pyargs" ∷ "--rootdir" ∷ "--setup-only"
          ∷ "--setuponly" ∷ "--setup-plan" ∷ "--setupplan" ∷ "--setup-show" ∷ "--trace-config"
          ∷ "--version" ∷ [])
  pub words :
      All
        (λ option. (arg =? option) ≡ false)
        ("--co" ∷ "--collect-only" ∷ "--fixtures-per-test" ∷ "--funcargs" ∷ "--markers" ∷ "--trace"
          ∷ "-c" ∷ "-o" ∷ "-p" ∷ "-V" ∷ "-h" ∷ [])
  pub cluster :
      starts_with arg "-" ≡ true
      → starts_with arg "--" ≡ false
      → (occurs_in "h" (tail_of arg) ≡ false) × (occurs_in "V" (tail_of arg) ≡ false)
  pub below :
      starts_with arg "-" ≡ false
      → (starts_with arg "/" ≡ false) × (contains ".." (path_parts arg) ≡ false)

-- the path of a test: no option, not outside, and a Python file or below `tests`
abbrev pub names_test : String → Bool
names_test arg =
    let path = before_colons arg in
    not (starts_with arg "-")
    && not (starts_with path "/" || contains ".." (path_parts path))
    && (has_py_suffix (last_part (path_parts path)) || starts_in_tests (path_parts path))

-- Arguments that are all vetted, with a test among them.
pub record AreVetted (args : List String) : Type 0 where
  pub each : All IsVetted args
  pub selects : any names_test args ≡ true

none_of_three : (a b c : Bool) → (a || b || c) ≡ false → (a ≡ false) × (b ≡ false) × (c ≡ false)
none_of_three a b c h = (ground arith, ground arith, ground arith)

neither : (a b : Bool) → (a || b) ≡ false → (a ≡ false) × (b ≡ false)
neither a b h = (ground arith, ground arith)

IsVetted-ok :
    (arg : String)
    → is_forbidden_option arg ≡ false
    → has_unsafe_short_option_cluster arg ≡ false
    → (not (starts_with arg "-") && is_outside_path arg) ≡ false
    → IsVetted arg
unfolding is_forbidden_option has_unsafe_short_option_cluster is_outside_path
IsVetted-ok arg allowed no_cluster inside =
    let begins = any-none (λ prefix. starts_with arg prefix) in
    let (word, short, long) =
      none_of_three (contains arg forbidden_exact)
        (any (λ prefix. starts_with arg prefix) ("-c" ∷ "-o" ∷ "-p" ∷ []))
        (any (λ prefix. starts_with arg prefix) forbidden_prefixes) allowed in
    let (c, (o, (p, _))) = begins ("-c" ∷ "-o" ∷ "-p" ∷ []) short in
    record {
      beginnings = (c, (o, (p, begins forbidden_prefixes long)));
      words = contains-none arg forbidden_exact word;
      cluster = λ dash single.
          neither (occurs_in "h" (tail_of arg)) (occurs_in "V" (tail_of arg))
            (rw (dash, single) at no_cluster);
      below = λ plain.
          neither (starts_with arg "/") (contains ".." (path_parts arg)) (rw plain at inside);
    }

safe_from-IsVetted :
    (before : Option String) (args : List String)
    → has_unsafe_from before args ≡ false
    → All IsVetted args
unfolding has_unsafe_from
safe_from-IsVetted before [] h = tt
safe_from-IsVetted before (arg ∷ args) h = (
  IsVetted-ok arg (ground arith) (ground arith) (ground arith),
  safe_from-IsVetted (some arg) args (ground arith),
)

if_safe-AreVetted :
    (found : Option (List String)) {args : List String} → if_safe found ≡ some args → AreVetted args
unfolding has_unsafe_pytest_args is_test_selector is_outside_path
if_safe-AreVetted none h = cc
if_safe-AreVetted (some found) {args = args} h =
    let safe : has_unsafe_pytest_args found ≡ false = ground arith in
    let same : found ≡ args = ground arith in
    subst AreVetted same
      (record { each = safe_from-IsVetted none found (ground arith); selects = ground arith })

runner_argv_of-AreVetted :
    (split_command : String → Outcome (List String)) (o : Outcome (List String))
    {args : List String}
    → runner_argv_of split_command o ≡ some args
    → AreVetted args
unfolding pytest_args_from_runner_argv
runner_argv_of-AreVetted split_command (err e) h = cc
runner_argv_of-AreVetted split_command (ok argv) h = if_safe-AreVetted (pytest_args_of argv) h

pub runner_argv-AreVetted :
    (split_command : String → Outcome (List String)) (command : String) {args : List String}
    → runner_argv split_command command ≡ some args
    → AreVetted args
unfolding runner_argv
runner_argv-AreVetted split_command command h =
    runner_argv_of-AreVetted split_command (split_command command) h
