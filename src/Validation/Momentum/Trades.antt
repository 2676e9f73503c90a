-- ===== src/Validation/Momentum/Trades.antt =====
-- The backtest trades on momentum signals just as they say.
use mathlib.Core.Path.{ap₂}
use crypto_research_agent.Common.{
  ℕ, zero, suc, ◌+◌, ◌≤◌, ◌<◌, ◌≡◌, refl, sym, ap, subst, ◌∙◌, Bool, true, false, none, some, List,
  [], ◌∷◌, map, arith, inl, inr, ◌==◌, ==_iff, Bool-cases, length, get_or, contains, nat_eq, ok,
  traverse,
}
use crypto_research_agent.Common.Float.{Float}
use crypto_research_agent.Backtest.{
  Trade, trade, zip_signals, gross_return, extract_from, extract_trades,
}
use crypto_research_agent.Validation.Momentum.{Signals, price_at, raw_return, momentum_signals}
use crypto_research_agent.Validation.Momentum.Marks.{
  marks, marks_before, IsSpaced, IsSpaced-weaken, later, momentum_signals-IsSignalled,
}

contains-spaced :
    (h end j k : ℕ) (is : List ℕ) → j < k → IsSpaced h end k is → contains j is ≡ false
unfolding contains
contains-spaced h end j k [] lt s = refl
contains-spaced h end j k (i ∷ is) lt s =
    let rest = contains-spaced h end j (i + h + 1) is (omega (arith, s.0)) s.2 in
    let low : k ≤ i = s.0 in ground arith

contains-later :
    (h end j k : ℕ) (is : List ℕ)
    → j < k + h
    → IsSpaced h end k is
    → contains j (later h is) ≡ false
unfolding contains
contains-later h end j k [] lt s = refl
contains-later h end j k (i ∷ is) lt s =
    let low : k ≤ i = s.0 in
    let rest = contains-later h end j (i + h + 1) is (omega (arith, s.0)) s.2 in ground arith

contains-head : (j : ℕ) (is : List ℕ) → contains j (j ∷ is) ≡ true
unfolding contains
contains-head j is = ground arith

contains-tail : (j i : ℕ) (is : List ℕ) → (j == i) ≡ false → contains j (i ∷ is) ≡ contains j is
unfolding contains
contains-tail j i is h = ground arith

price_at-get_or {ℓ} :
    {A : Type ℓ} (xs : List A) (i : ℕ) (d : A) → i < length xs → price_at xs i ≡ ok (get_or xs i d)
price_at-get_or [] i d lt = absurd (omega arith)
price_at-get_or (x ∷ xs) zero d lt = refl
price_at-get_or (x ∷ xs) (suc i) d lt = price_at-get_or xs i d (omega arith)

module _ {F : Type 0} ⦃f : Float F⦄ (prices : List F) (h : ℕ) where
  open f use {nought}

  -- The prices from `k` on.
  IsSuffix : ℕ → List F → Type 0
  IsSuffix k ps = (m : ℕ) → get_or ps m nought ≡ get_or prices (k + m) nought

  IsSuffix-tail : (k : ℕ) (p : F) (ps : List F) → IsSuffix k (p ∷ ps) → IsSuffix (suc k) ps
  unfolding IsSuffix
  IsSuffix-tail k p ps s m = s (suc m) ∙ ap (λ x. get_or prices x nought) (omega arith)

  IsSuffix-head : (k : ℕ) (p : F) (ps : List F) → IsSuffix k (p ∷ ps) → p ≡ get_or prices k nought
  unfolding IsSuffix
  IsSuffix-head k p ps s = s zero ∙ ap (λ x. get_or prices x nought) (omega arith)

  abbrev signalled_trade : ℕ → Trade F
  signalled_trade i = trade prices i (i + h)

  abbrev closed_trade : ℕ → ℕ → F → Trade F
  closed_trade i exit_index exit_price = record {
    entry_index = i;
    exit_index = exit_index;
    entry_price = get_or prices i nought;
    exit_price = exit_price;
  }

  abbrev rows : ℕ → List F → List ℕ → List ℕ → List (F × Bool × Bool)
  rows k ps is xs = zip_signals ps (marks k (length ps) is) (marks k (length ps) xs)

  module _ (end : ℕ) (held : 0 < h) where
    mutual
      unfolding extract_from contains

      -- no trade is open
      scan_closed :
          (k : ℕ) (ps : List F) (is : List ℕ)
          → IsSuffix k ps
          → k + length ps ≡ end
          → IsSpaced h end k is
          → extract_from prices k none (rows k ps is (later h is)) ≡ map signalled_trade is
      scan_closed k [] [] s all spaced = refl
      scan_closed k [] (i ∷ is) s all spaced = absurd (omega (arith, spaced.0, spaced.1))
      scan_closed k (p ∷ ps) [] s all spaced =
          scan_closed (suc k) ps [] (IsSuffix-tail k p ps s) (omega arith) tt
      scan_closed k (p ∷ ps) (i ∷ is) s all spaced = elim (Bool-cases (k == i)) [
        | inl here ↦
            let same : k ≡ i = (==_iff k i).0 here in
            let n = length ps in
            let opened : extract_from prices (suc k) (some i)
                  (rows (suc k) ps is ((i + h) ∷ later h is))
                ≡ signalled_trade i ∷ map signalled_trade is =
              scan_open (suc k) i ps is (IsSuffix-tail k p ps s) (omega arith) (omega arith)
                (omega arith) (ground arith) spaced.2 in
            let dropped : rows (suc k) ps (i ∷ is) (later h (i ∷ is))
                ≡ rows (suc k) ps is ((i + h) ∷ later h is) =
              ap (λ es. zip_signals ps es (marks (suc k) n ((i + h) ∷ later h is)))
                (marks_before i (suc k) n is (omega arith)) in
            let entered : contains k (i ∷ is) ≡ true = ground arith in
            rw (entered, dropped)
              (subst
                (λ o.
                  extract_from prices (suc k) (some o) (rows (suc k) ps is ((i + h) ∷ later h is))
                  ≡ signalled_trade i ∷ map signalled_trade is)
                (sym same) opened)
        | inr other ↦
            let low : k < i = ground (arith, spaced.0) in
            let idle : contains k (i ∷ is) ≡ false =
              contains-spaced h end k (suc k) (i ∷ is) (omega arith) (low, spaced.1, spaced.2) in
            rw idle (
              scan_closed (suc k) ps (i ∷ is) (IsSuffix-tail k p ps s) (omega arith)
                (low, spaced.1, spaced.2))
      ]

      -- the trade of `i` is open
      scan_open :
          (k i : ℕ) (ps : List F) (is : List ℕ)
          → IsSuffix k ps
          → k + length ps ≡ end
          → i < k
          → k ≤ i + h
          → i + h < end
          → IsSpaced h end (i + h + 1) is
          → extract_from prices k (some i) (rows k ps is ((i + h) ∷ later h is))
            ≡ signalled_trade i ∷ map signalled_trade is
      scan_open k i [] is s all opened low high spaced = absurd (omega arith)
      scan_open k i (p ∷ ps) is s all opened low high spaced = elim (Bool-cases (k == i + h)) [
        | inl here ↦
            let same : k ≡ i + h = (==_iff k (i + h)).0 here in
            let n = length ps in
            let left : contains k ((i + h) ∷ later h is) ≡ true = ground arith in
            let priced : p ≡ get_or prices (i + h) nought =
              IsSuffix-head k p ps s ∙ ap (λ x. get_or prices x nought) same in
            let dropped : rows (suc k) ps is ((i + h) ∷ later h is)
                ≡ rows (suc k) ps is (later h is) =
              ap (zip_signals ps (marks (suc k) n is))
                (marks_before (i + h) (suc k) n (later h is) (omega arith)) in
            let closed : extract_from prices (suc k) none (rows (suc k) ps is (later h is))
                ≡ map signalled_trade is =
              scan_closed (suc k) ps is (IsSuffix-tail k p ps s) (omega arith)
                (IsSpaced-weaken h end (suc k) (i + h + 1) is (omega arith) spaced) in
            rw left (
              ap₂ ◌∷◌ (ap₂ (closed_trade i) same priced)
                (ap (extract_from prices (suc k) none) dropped ∙ closed))
        | inr other ↦
            let low2 : suc k ≤ i + h = ground arith in
            let held_on : contains k ((i + h) ∷ later h is) ≡ false =
              contains-later h end k i (i ∷ is) (omega arith) (omega arith, high, spaced) in
            rw held_on (
              scan_open (suc k) i ps is (IsSuffix-tail k p ps s) (omega arith) (omega arith) low2
                high spaced)
      ]

  traverse-signalled :
      (k : ℕ) (is : List ℕ)
      → IsSpaced h (length prices) k is
      → traverse gross_return (map signalled_trade is) ≡ traverse (raw_return prices h) is
  unfolding gross_return raw_return
  traverse-signalled k [] spaced = refl
  traverse-signalled k (i ∷ is) (low, inside, spaced) =
      rw
        (
          price_at-get_or prices (i + h) nought inside,
          price_at-get_or prices i nought (omega arith),
          traverse-signalled (i + h + 1) is spaced,
        )
        refl

  -- Whenever the signals of a history are found, the trades that the backtest extracts from them are
  -- those of the signals: their gross returns, in order, are the raw returns of the signals. The holding
  -- time is positive.
  pub extract_trades-momentum_signals :
      (lookback : ℕ) {s : Signals F}
      → 0 < h
      → momentum_signals prices lookback h ≡ ok s
      → traverse gross_return (extract_trades prices s.entries s.exits) ≡ ok s.raw_returns
  unfolding extract_trades IsSuffix
  extract_trades-momentum_signals lookback {s = s} held e =
      let (is, spaced, signalled) = momentum_signals-IsSignalled prices h lookback e in
      let scanned : extract_from prices 0 none (rows 0 prices is (later h is))
          ≡ map signalled_trade is =
        scan_closed (length prices) held 0 prices is
          (λ m. ap (λ x. get_or prices x nought) (omega arith)) (omega arith)
          (IsSpaced-weaken h (length prices) 0 lookback is (omega arith) spaced) in
      rw (signalled.entries, signalled.exits, scanned)
        (traverse-signalled lookback is spaced ∙ signalled.raw_returns)
