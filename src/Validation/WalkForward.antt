-- ===== src/Validation/WalkForward.antt =====
-- src/crypto_alpha_agent/validation/walk_forward.py: rolling train and test windows over a history.
pub mod Layout
pub mod Windows
use crypto_research_agent.Common.{
  ℕ, zero, suc, ◌+◌, ◌-◌, String, Bool, true, false, not, ◌&&◌, ◌||◌, List, [], ◌∷◌, ltb, leb, ◌==◌,
  if◌then◌else◌, Option, none, some, length, take, drop, Outcome, ok, err, value_error,
  validation_error, ◌>>=◌, ◌>>◌, raise_if, padded_text, append_text,
}
use crypto_research_agent.Common.Int.{ℤ, pos}

pub record WalkForwardWindow : Type 0 where
  pub window_id : String
  pub train_start : ℕ
  pub train_end : ℕ
  pub test_start : ℕ
  pub test_end : ℕ

pub record WalkForwardSplit {ℓ} (A : Type ℓ) : Type ℓ where
  pub window : WalkForwardWindow
  pub train : List A
  pub test : List A

-- the model validator of `WalkForwardWindow`
unfoldable pub validate_bounds : WalkForwardWindow → Outcome WalkForwardWindow
validate_bounds w = do
  raise_if (leb w.train_end w.train_start)
      (value_error "train_end must be greater than train_start")
  raise_if (not (w.test_start == w.train_end)) (value_error "test_start must equal train_end")
  raise_if (leb w.test_end w.test_start) (value_error "test_end must be greater than test_start")
  ok w

unfoldable pub require_positive_int : String → ℤ → Outcome ℕ
require_positive_int name (pos (suc n)) = ok (suc n)
require_positive_int name _ = err (value_error (append_text name " must be a positive integer"))

-- The loop, whose fuel bounds the number of rounds.
unfoldable pub windows_from :
    (fuel total train_size test_size step train_start count : ℕ) → Outcome (List WalkForwardWindow)
unfolding validate_bounds
windows_from zero total train_size test_size step train_start count = ok []
windows_from (suc fuel) total train_size test_size step train_start count =
    let train_end = train_start + train_size in
    let test_start = train_end in
    let test_end = test_start + test_size in
    let rest = windows_from fuel total train_size test_size step (train_start + step) (count + 1) in
    if ltb total test_end then ok [] else do
      w ← validate_bounds (record {
        window_id = append_text "wf-" (padded_text count);
        train_start = train_start;
        train_end = train_end;
        test_start = test_start;
        test_end = test_end;
      })
      ws ← rest
      ok (w ∷ ws)

-- `test_size if step_size is None else step_size`
abbrev pub or_else {ℓ} : {A : Type ℓ} → Option A → A → A
or_else none a = a
or_else (some s) a = s

-- The step moves the start on by one at least, so `total_bars` rounds are enough.
unfoldable pub generate_walk_forward_windows :
    (total_bars train_size test_size : ℤ) → Option ℤ → Outcome (List WalkForwardWindow)
unfolding windows_from require_positive_int
generate_walk_forward_windows total_bars train_size test_size step_size = do
  let step = or_else step_size test_size
  total ← require_positive_int "total_bars" total_bars
  train ← require_positive_int "train_size" train_size
  test ← require_positive_int "test_size" test_size
  step ← require_positive_int "step_size" step
  raise_if (ltb total (train + test))
      (value_error "total_bars must be at least train_size + test_size")
  windows_from (total + 1) total train test step 0 0

unfoldable pub in_bounds : ℕ → WalkForwardWindow → Bool
in_bounds size w =
    ltb w.train_start w.train_end
    && leb w.train_end w.test_start
    && ltb w.test_start w.test_end
    && leb w.test_end size

unfoldable pub check_windows : ℕ → List WalkForwardWindow → Outcome (Unit {0})
unfolding in_bounds
check_windows size [] = ok tt
check_windows size (w ∷ ws) =
    let rest = check_windows size ws in
    if not (in_bounds size w)
    then err (value_error "window bounds exceed sequence length")
    else rest

module _ {ℓ} {A : Type ℓ} where
  -- `sequence[first:last]`
  unfoldable pub slice : List A → ℕ → ℕ → List A
  slice sequence first last = take (last - first) (drop first sequence)

  abbrev pub split_at : List A → WalkForwardWindow → WalkForwardSplit A
  split_at sequence w = record {
    window = w;
    train = slice sequence w.train_start w.train_end;
    test = slice sequence w.test_start w.test_end;
  }

  unfoldable pub splits_of : List A → List WalkForwardWindow → List (WalkForwardSplit A)
  splits_of sequence [] = []
  splits_of sequence (w ∷ ws) = split_at sequence w ∷ splits_of sequence ws

  unfoldable pub split_sequence :
      List A → List WalkForwardWindow → Outcome (List (WalkForwardSplit A))
  unfolding check_windows splits_of slice
  split_sequence sequence windows = elim (check_windows (length sequence) windows) [
    | ok _ ↦ ok (splits_of sequence windows)
    | err e ↦ err e
  ]
