-- ===== src/Validation/WalkForward/Windows.antt =====
-- What the generated windows are, and that splitting a history by them never fails.
use crypto_research_agent.Common.{
  is_ok, ℕ, zero, suc, ◌+◌, ◌-◌, ◌/◌, ◌≤◌, ◌<◌, ◌≡◌, refl, ◌∙◌, ap, sym, true, false, List, [], ◌∷◌,
  arith, ltb, length, drop, length-take, length-drop, ok, ◌>>=◌, All, some, ◌↔◌,
}
use crypto_research_agent.Common.Int.{ℤ, pos, ◌≤ℤ◌, ◌+ℤ◌}
use crypto_research_agent.Validation.WalkForward.{
  WalkForwardWindow, WalkForwardSplit, generate_walk_forward_windows, check_windows, in_bounds,
  slice, split_at, splits_of, split_sequence,
}
use crypto_research_agent.Validation.WalkForward.Layout.{
  layout, length-layout, layout-All, window_at, windows_from-layout, window_count-start,
  window_count,
}

-- For positive sizes that fit the history the call succeeds, and its windows are the layout: the
-- i-th one starts i steps in, and they are all that fit.
pub generate-layout :
    (total train test step : ℕ)
    → 0 < train
    → 0 < test
    → 0 < step
    → train + test ≤ total
    → generate_walk_forward_windows (pos total) (pos train) (pos test) (some (pos step))
      ≡ ok (layout train test step ((total - (train + test)) / step + 1) 0 0)
unfolding generate_walk_forward_windows
generate-layout zero train test step p q r h = absurd (omega arith)
generate-layout total zero test step p q r h = absurd (omega arith)
generate-layout total train zero step p q r h = absurd (omega arith)
generate-layout total train test zero p q r h = absurd (omega arith)
generate-layout (suc total) (suc train) (suc test) (suc step) p q r h =
    let fits : ltb (suc total) (suc train + suc test) ≡ false = ground arith in
    rw (
      windows_from-layout (suc train) (suc test) (suc step) (suc total + 1) (suc total) 0 0 p q r
          (omega arith),
      window_count-start (suc train) (suc test) (suc step) (suc total) h,
      fits,
    )

-- The call succeeds exactly with positive sizes that fit the history.
pub generate_ok_iff :
    (total train test step : ℤ)
    → (is_ok (generate_walk_forward_windows total train test (some step)) ≡ true)
      ↔ ((pos 1 ≤ℤ train) × (pos 1 ≤ℤ test) × (pos 1 ≤ℤ step) × (train +ℤ test ≤ℤ total))
unfolding generate_walk_forward_windows ◌+ℤ◌
generate_ok_iff (pos (suc t)) (pos (suc a)) (pos (suc b)) (pos (suc s)) =
    ground (arith, windows_from-layout (suc a) (suc b) (suc s) (suc t + 1) (suc t) 0 0)
generate_ok_iff _ _ _ _ = ground arith

check_windows_ok :
    (size : ℕ) (ws : List WalkForwardWindow)
    → All (λ w. in_bounds size w ≡ true) ws
    → check_windows size ws ≡ ok tt
unfolding check_windows
check_windows_ok size [] h = refl
check_windows_ok size (w ∷ ws) h = ground (arith, check_windows_ok size ws)

window_in_bounds :
    (train test step total start count : ℕ)
    → 0 < train
    → 0 < test
    → start + train + test ≤ total
    → in_bounds total (window_at train test step start count) ≡ true
unfolding in_bounds
window_in_bounds train test step total start count p q h = ground arith

module _ {ℓ} {A : Type ℓ} where
  length-slice :
      (xs : List A) (first last : ℕ)
      → last ≤ length xs
      → length (slice xs first last) ≡ last - first
  unfolding slice
  length-slice xs first last h =
      omega (arith, length-take (last - first) (drop first xs), length-drop first xs)

  -- The windows of the layout lie inside the history, and their slices have the sizes asked for.
  abbrev pub HasSizes : ℕ → ℕ → WalkForwardSplit A → Type 0
  HasSizes train test s = (length s.train ≡ train) × (length s.test ≡ test)

  window-HasSizes :
      (xs : List A) (train test step start count : ℕ)
      → start + train + test ≤ length xs
      → HasSizes train test (split_at xs (window_at train test step start count))
  window-HasSizes xs train test step start count h = (
    length-slice xs start (start + train) (omega arith) ∙ omega arith,
    length-slice xs (start + train) (start + train + test) h ∙ omega arith,
  )

  splits_of-HasSizes :
      (xs : List A) (train test : ℕ) (ws : List WalkForwardWindow)
      → All (λ w. HasSizes train test (split_at xs w)) ws
      → All (HasSizes train test) (splits_of xs ws) × (length (splits_of xs ws) ≡ length ws)
  unfolding splits_of
  splits_of-HasSizes xs train test [] h = (tt, refl)
  splits_of-HasSizes xs train test (w ∷ ws) h =
      let (sizes, same) = splits_of-HasSizes xs train test ws h.1 in ((h.0, sizes), ap suc same)

  split_sequence-inside :
      (xs : List A) (ws : List WalkForwardWindow)
      → check_windows (length xs) ws ≡ ok tt
      → split_sequence xs ws ≡ ok (splits_of xs ws)
  unfolding split_sequence
  split_sequence-inside xs ws h = ground arith

  module _ (xs : List A) (train test step : ℕ) where
    abbrev windows : List WalkForwardWindow
    windows = layout train test step ((length xs - (train + test)) / step + 1) 0 0

    -- A history that is long enough is split without an error, into as many parts as windows fit,
    -- and every part has a train and a test slice of the sizes asked for.
    pub split_sequence-generated :
        0 < train
        → 0 < test
        → 0 < step
        → train + test ≤ length xs
        → let splits = splits_of xs windows in
          ((generate_walk_forward_windows (pos (length xs)) (pos train) (pos test) (some (pos step))
              >>= split_sequence xs)
            ≡ ok splits)
          × (length splits ≡ (length xs - (train + test)) / step + 1)
          × All (HasSizes train test) splits
    split_sequence-generated p q r h =
        let n = (length xs - (train + test)) / step + 1 in
        let count : n ≡ window_count train test step (length xs) 0 =
          sym (window_count-start train test step (length xs) h) in
        let inside = check_windows_ok (length xs) windows (
          layout-All train test step _ (length xs) r
            (λ start count. window_in_bounds train test step (length xs) start count p q) n 0 0
            count) in
        let (sizes, same) = splits_of-HasSizes xs train test windows (
          layout-All train test step _ (length xs) r (window-HasSizes xs train test step) n 0 0
            count) in
        (
          rw (generate-layout (length xs) train test step p q r h)
              (split_sequence-inside xs windows inside),
          same ∙ length-layout train test step n 0 0,
          sizes,
        )
