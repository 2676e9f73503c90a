-- ===== src/Validation/WalkForward/Layout.antt =====
-- The windows as a list in closed form: the i-th one starts at i steps.
use crypto_research_agent.Common.{
  ℕ, zero, suc, ◌+◌, ◌-◌, ◌/◌, ◌≤◌, ◌<◌, ◌≡◌, refl, List, [], ◌∷◌, arith, ltb, if◌then◌else◌,
  length, ok, padded_text, append_text, All, Bool-cases, inl, inr, ap,
}
use crypto_research_agent.Validation.WalkForward.{WalkForwardWindow, validate_bounds, windows_from}
use native.Mathlib.Nat.{div-eq-sub-div, div-eq_of_lt}

module _ (train_size test_size step : ℕ) where
  abbrev pub window_at : ℕ → ℕ → WalkForwardWindow
  window_at start count = record {
    window_id = append_text "wf-" (padded_text count);
    train_start = start;
    train_end = start + train_size;
    test_start = start + train_size;
    test_end = start + train_size + test_size;
  }

  -- `n` windows, each a step after the one before
  unfoldable pub layout : ℕ → ℕ → ℕ → List WalkForwardWindow
  layout zero start count = []
  layout (suc n) start count = window_at start count ∷ layout n (start + step) (count + 1)

  pub length-layout : (n start count : ℕ) → length (layout n start count) ≡ n
  unfolding layout
  length-layout zero start count = refl
  length-layout (suc n) start count = ap suc (length-layout n (start + step) (count + 1))

  validate_bounds-window_at :
      (start count : ℕ)
      → 0 < train_size
      → 0 < test_size
      → validate_bounds (window_at start count) ≡ ok (window_at start count)
  unfolding validate_bounds
  validate_bounds-window_at start count p q = ground arith

  -- the number of windows that fit between `start` and `total`
  unfoldable pub window_count : ℕ → ℕ → ℕ
  window_count total start =
      if ltb total (start + train_size + test_size)
      then 0
      else (total - (start + train_size + test_size)) / step + 1

  window_count-step :
      (total start : ℕ)
      → 0 < step
      → start + train_size + test_size ≤ total
      → window_count total start ≡ suc (window_count total (start + step))
  unfolding window_count
  window_count-step total start p q =
      let room = total - (start + train_size + test_size) in
      elim (Bool-cases (ltb total (start + step + train_size + test_size))) [
        | inl last ↦ let one : room / step ≡ 0 = div-eq_of_lt (ground arith) in ground arith
        | inr more ↦
            let one : room / step ≡ (room - step) / step + 1 = div-eq-sub-div p (ground arith) in
            let same : room - step ≡ total - (start + step + train_size + test_size) =
              omega arith in
            ground arith
      ]

  pub window_count-start :
      (total : ℕ)
      → train_size + test_size ≤ total
      → window_count total 0 ≡ (total - (train_size + test_size)) / step + 1
  unfolding window_count
  window_count-start total h =
      let sum : 0 + train_size + test_size ≡ train_size + test_size = omega arith in
      rw sum (ground arith)

  window_count-full :
      (total start : ℕ) → total < start + train_size + test_size → window_count total start ≡ 0
  unfolding window_count
  window_count-full total start h = ground arith

  pub windows_from-layout :
      (fuel total start count : ℕ)
      → 0 < train_size
      → 0 < test_size
      → 0 < step
      → total < start + fuel
      → windows_from fuel total train_size test_size step start count
        ≡ ok (layout (window_count total start) start count)
  unfolding windows_from layout
  windows_from-layout zero total start count p q r h =
      rw (window_count-full total start (omega arith))
  windows_from-layout (suc fuel) total start count p q r h =
      elim (Bool-cases (ltb total (start + train_size + test_size))) [
        | inl last ↦ rw (last, window_count-full total start (ground arith))
        | inr more ↦ rw (
          more,
          validate_bounds-window_at start count p q,
          windows_from-layout fuel total (start + step) (count + 1) p q r (omega arith),
          window_count-step total start r (ground arith),
        )
      ]

  -- What holds of every window that ends within the total holds of all windows of the layout.
  pub layout-All {κ} :
      (P : WalkForwardWindow → Type κ) (total : ℕ)
      → 0 < step
      → ((start count : ℕ) → start + train_size + test_size ≤ total → P (window_at start count))
      → (n start count : ℕ) → n ≡ window_count total start
      → All P (layout n start count)
  unfolding layout window_count
  layout-All P total r each zero start count e = tt
  layout-All P total r each (suc n) start count e =
      let fits : start + train_size + test_size ≤ total = ground arith in
      (
        each start count fits,
        layout-All P total r each n (start + step) (count + 1)
            (omega (arith, window_count-step total start r fits)),
      )
