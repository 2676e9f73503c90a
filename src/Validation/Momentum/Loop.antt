-- ===== src/Validation/Momentum/Loop.antt =====
-- The loop that finds the signals of momentum: it ends, stays inside the history, and raises only at a
-- zero price.
use crypto_research_agent.Common.{
  ℕ, zero, suc, ◌+◌, ◌-◌, ◌≤◌, ◌<◌, ◌≡◌, refl, ap, ◌∙◌, Bool, true, false, ◌++◌, List, [], ◌∷◌,
  arith, inl, inr, ltb, Bool-cases, All, length, replicate, length-replicate, ok,
}
use crypto_research_agent.Common.Float.{Float}
use crypto_research_agent.Common.Division.{quotient_of}
use crypto_research_agent.Validation.Momentum.{
  Signals, set_at, price_at, raw_return, is_rising, book_signal, signals_from, momentum_signals,
}

price_at_total {ℓ} :
    {A : Type ℓ} {P : A → Type 0} (xs : List A) (i : ℕ)
    → All P xs
    → i < length xs
    → (x : A) × (price_at xs i ≡ ok x) × P x
price_at_total [] i h lt = absurd (omega arith)
price_at_total (x ∷ xs) zero h lt = (x, refl, h.0)
price_at_total (x ∷ xs) (suc i) h lt = price_at_total xs i h.1 (omega arith)

set_at_total :
    (i : ℕ) (bs : List Bool)
    → i < length bs
    → (cs : List Bool) × (set_at i bs ≡ ok cs) × (length cs ≡ length bs)
set_at_total i [] lt = absurd (omega arith)
set_at_total zero (b ∷ bs) lt = (true ∷ bs, refl, refl)
set_at_total (suc i) (b ∷ bs) lt =
    let (cs, e, same) = set_at_total i bs (omega arith) in (b ∷ cs, rw e refl, ap suc same)

module _ {F : Type 0} ⦃f : Float F⦄ (prices : List F)
    (nonzero : All (λ p. f.same p f.nought ≡ false) prices) where
  open f use {nought, same}

  -- one flag for each price
  record IsFlagged (s : Signals F) : Type 0 where
    entries : length s.entries ≡ length prices
    exits : length s.exits ≡ length prices

  is_rising_total :
      (lookback index : ℕ)
      → index < length prices
      → (b : Bool) × (is_rising prices lookback index ≡ ok b)
  unfolding is_rising
  is_rising_total lookback index lt =
      let (p, ep, _) = price_at_total prices index nonzero lt in
      let (q, eq, _) = price_at_total prices (index - lookback) nonzero (omega arith) in
      (f.lt q p, rw (ep, eq) refl)

  book_signal_total :
      (hold index : ℕ) (s : Signals F)
      → index + hold < length prices
      → IsFlagged s
      → (t : Signals F) × (book_signal prices hold index s ≡ ok t) × IsFlagged t
  unfolding book_signal raw_return quotient_of
  book_signal_total hold index s lt h =
      let (entries, ee, le) = set_at_total index s.entries (omega (arith, h.entries)) in
      let (exits, ex, lx) = set_at_total (index + hold) s.exits (omega (arith, h.exits)) in
      let (p, ep, np) = price_at_total prices index nonzero (omega arith) in
      let (q, eq, _) = price_at_total prices (index + hold) nonzero lt in
      (
        record {
          entries = entries;
          exits = exits;
          raw_returns = s.raw_returns ++ f.div (f.sub q p) p ∷ [];
        },
        rw (ee, ex, eq, ep, np) refl,
        record { entries = le ∙ h.entries; exits = lx ∙ h.exits },
      )

  signals_from_total :
      (lookback hold fuel index : ℕ) (s : Signals F)
      → length prices ≤ index + hold + fuel
      → IsFlagged s
      → (t : Signals F) × (signals_from prices lookback hold fuel index s ≡ ok t)
  unfolding signals_from
  signals_from_total lookback hold zero index s enough h =
      let done : ltb (index + hold) (length prices) ≡ false = ground arith in (s, rw done refl)
  signals_from_total lookback hold (suc fuel) index s enough h =
      elim (Bool-cases (ltb (index + hold) (length prices))) [
        | inr done ↦ (s, rw done refl)
        | inl inside ↦
            let within : index + hold < length prices = ground arith in
            let (b, er) = is_rising_total lookback index (omega arith) in
            elim (Bool-cases b) [
              | inr flat ↦
                  let (t, e) =
                    signals_from_total lookback hold fuel (index + 1) s (omega arith) h in
                  (t, rw (inside, er, flat) e)
              | inl rising ↦
                  let (u, eu, flagged) = book_signal_total hold index s within h in
                  let (t, e) =
                    signals_from_total lookback hold fuel (index + hold + 1) u (omega arith)
                      flagged in
                  (t, rw (inside, er, rising, eu) e)
            ]
      ]

  -- The signals of a history without a zero price are found: the loop ends in as many rounds as there are
  -- prices, looks up no place outside the history, and divides by no zero.
  pub momentum_signals_total :
      (lookback hold : ℕ) → (s : Signals F) × (momentum_signals prices lookback hold ≡ ok s)
  unfolding momentum_signals
  momentum_signals_total lookback hold =
      signals_from_total lookback hold (length prices) lookback
        (record {
          entries = replicate (length prices) false;
          exits = replicate (length prices) false;
          raw_returns = [];
        })
        (omega arith)
        (record {
          entries = length-replicate (length prices) false;
          exits = length-replicate (length prices) false;
        })
