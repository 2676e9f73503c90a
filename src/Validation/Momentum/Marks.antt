-- ===== src/Validation/Momentum/Marks.antt =====
-- The signals of momentum as lists of the places at which they stand.
use crypto_research_agent.Common.{
  ℕ, zero, suc, ◌+◌, ◌≤◌, ◌<◌, ◌≡◌, refl, sym, ap, subst, ◌∙◌, Bool, true, false, List, [], ◌∷◌,
  ◌++◌, map, arith, inl, inr, ltb, Bool-cases, length, replicate, contains, contains-append, nat_eq,
  if◌then◌else◌, Outcome, ok, err, traverse, bind-ok, ok_injective, ◌>>=◌,
}
use mathlib.Core.Path.{ap₂}
use mathlib.Core.List.{append-nil, append_assoc}
use crypto_research_agent.Common.Float.{Float}
use crypto_research_agent.Validation.Momentum.{
  Signals, set_at, raw_return, is_rising, book_signal, out_of_rounds, signals_from,
  momentum_signals,
}

-- The flags of the places from `k` on, true at those of a list.
abbrev pub marks : ℕ → ℕ → List ℕ → List Bool
marks k zero is = []
marks k (suc n) is = contains k is ∷ marks (suc k) n is

pub marks_before : (i k n : ℕ) (is : List ℕ) → i < k → marks k n (i ∷ is) ≡ marks k n is
unfolding contains
marks_before i k zero is h = refl
marks_before i k (suc n) is h = ap₂ ◌∷◌ (ground arith) (marks_before i (suc k) n is (omega arith))

marks_snoc_before : (i k n : ℕ) (is : List ℕ) → i < k → marks k n (is ++ i ∷ []) ≡ marks k n is
unfolding contains
marks_snoc_before i k zero is h = refl
marks_snoc_before i k (suc n) is h =
    ap₂ ◌∷◌ (ground (arith, contains-append k is (i ∷ [])))
      (marks_snoc_before i (suc k) n is (omega arith))

contains-snoc_here : (k : ℕ) (is : List ℕ) → contains k (is ++ k ∷ []) ≡ true
unfolding contains
contains-snoc_here k is = ground (arith, contains-append k is (k ∷ []))

contains-snoc_other : (k m : ℕ) (is : List ℕ) → k < m → contains k (is ++ m ∷ []) ≡ contains k is
unfolding contains
contains-snoc_other k m is h = ground (arith, contains-append k is (m ∷ []))

-- Setting one more flag is one more place.
set_at-marks :
    (i k m n : ℕ) (is : List ℕ)
    → k + i ≡ m
    → i < n
    → set_at i (marks k n is) ≡ ok (marks k n (is ++ m ∷ []))
set_at-marks i k m zero is e lt = absurd (omega arith)
set_at-marks zero k m (suc n) is e lt =
    let here : k ≡ m = omega arith in
    subst
      (λ x.
        ok (true ∷ marks (suc k) n is)
        ≡ ok (contains k (is ++ x ∷ []) ∷ marks (suc k) n (is ++ x ∷ [])))
      here
      (ap ok (
        ap₂ ◌∷◌ (sym (contains-snoc_here k is))
          (sym (marks_snoc_before k (suc k) n is (omega arith)))))
set_at-marks (suc i) k m (suc n) is e lt =
    rw (set_at-marks i (suc k) m n is (omega arith) (omega arith)) (
      ap (λ b. ok (b ∷ marks (suc k) n (is ++ m ∷ [])))
        (sym (contains-snoc_other k m is (omega arith))))

replicate-marks : (k n : ℕ) → replicate n false ≡ marks k n []
unfolding contains
replicate-marks k zero = refl
replicate-marks k (suc n) = ap₂ ◌∷◌ refl (replicate-marks (suc k) n)

-- Each place is at or after `k` and at least `h` before the end, and the next one is beyond the place
-- that is `h` after it.
abbrev pub IsSpaced : ℕ → ℕ → ℕ → List ℕ → Type 0
IsSpaced h end k [] = Unit
IsSpaced h end k (i ∷ is) = (k ≤ i) × (i + h < end) × IsSpaced h end (i + h + 1) is

pub IsSpaced-weaken :
    (h end j k : ℕ) (is : List ℕ) → j ≤ k → IsSpaced h end k is → IsSpaced h end j is
IsSpaced-weaken h end j k [] le s = tt
IsSpaced-weaken h end j k (i ∷ is) le s = (omega (arith, s.0), s.1, s.2)

abbrev pub later : ℕ → List ℕ → List ℕ
later h is = map (λ i. i + h) is

map-append {ℓ κ} :
    {A : Type ℓ} {B : Type κ} (f : A → B) (xs ys : List A) → map f (xs ++ ys) ≡ map f xs ++ map f ys
map-append f [] ys = refl
map-append f (x ∷ xs) ys = ap₂ ◌∷◌ refl (map-append f xs ys)

traverse-snoc {ℓ κ} :
    {A : Type ℓ} {B : Type κ} (f : A → Outcome B) (xs : List A) {ys : List B} (x : A) {y : B}
    → traverse f xs ≡ ok ys
    → f x ≡ ok y
    → traverse f (xs ++ x ∷ []) ≡ ok (ys ++ y ∷ [])
traverse-snoc f [] {ys = ys} x {y = y} h e =
    let empty : [] ≡ ys = cc in
    subst (λ l. traverse f (x ∷ []) ≡ ok (l ++ y ∷ [])) empty (rw e refl)
traverse-snoc f (a ∷ xs) {ys = ys} x {y = y} h e =
    let (b, eb, h) = bind-ok (f a) _ h in
    let (bs, ebs, h) = bind-ok (traverse f xs) _ h in
    let same : b ∷ bs ≡ ys = cc in
    let rest : traverse f (xs ++ x ∷ []) ≡ ok (bs ++ y ∷ []) = traverse-snoc f xs x ebs e in
    subst (λ l. traverse f (a ∷ (xs ++ x ∷ [])) ≡ ok (l ++ y ∷ [])) same (rw (eb, rest) refl)

module _ {F : Type 0} ⦃f : Float F⦄ where
  -- The signals are those of the places, and the raw returns theirs.
  pub record IsSignalled (prices : List F) (hold : ℕ) (is : List ℕ) (s : Signals F) : Type 0 where
    pub entries : s.entries ≡ marks 0 (length prices) is
    pub exits : s.exits ≡ marks 0 (length prices) (later hold is)
    pub raw_returns : traverse (raw_return prices hold) is ≡ ok s.raw_returns

  module _ (prices : List F) (hold : ℕ) where
    book_signal-IsSignalled :
        (index : ℕ) (js : List ℕ) (s : Signals F) {t : Signals F}
        → index + hold < length prices
        → IsSignalled prices hold js s
        → book_signal prices hold index s ≡ ok t
        → IsSignalled prices hold (js ++ index ∷ []) t
    unfolding book_signal
    book_signal-IsSignalled index js s {t = t} inside h e =
        let n = length prices in
        let (entries, ee, e) = bind-ok (set_at index s.entries) _ e in
        let (exits, ex, e) = bind-ok (set_at (index + hold) s.exits) _ e in
        let (r, er, last) = bind-ok (raw_return prices hold index) _ e in
        let entered : set_at index s.entries ≡ ok (marks 0 n (js ++ index ∷ [])) =
          ap (set_at index) h.entries
          ∙ set_at-marks index 0 index n js (omega arith) (omega arith) in
        let left : set_at (index + hold) s.exits
            ≡ ok (marks 0 n (later hold js ++ (index + hold) ∷ [])) =
          ap (set_at (index + hold)) h.exits
          ∙ set_at-marks (index + hold) 0 (index + hold) n (later hold js) (omega arith) inside in
        subst (IsSignalled prices hold (js ++ index ∷ [])) (ok_injective last) (record {
          entries = ok_injective (sym ee ∙ entered);
          exits =
              ok_injective (sym ex ∙ left)
              ∙ ap (marks 0 n) (sym (map-append (λ i. i + hold) js (index ∷ [])));
          raw_returns = traverse-snoc (raw_return prices hold) js index h.raw_returns er;
        })

    IsSignalled-ends :
        (index : ℕ) (js : List ℕ) (s : Signals F) {t : Signals F}
        → IsSignalled prices hold js s
        → ok s ≡ ok t
        → (is : List ℕ) × IsSpaced hold (length prices) index is
          × IsSignalled prices hold (js ++ is) t
    IsSignalled-ends index js s h e = (
      [],
      tt,
      subst (IsSignalled prices hold (js ++ [])) (ok_injective e)
          (subst (λ l. IsSignalled prices hold l s) (sym (append-nil js)) h),
    )

    signals_from-IsSignalled :
        (lookback fuel index : ℕ) (js : List ℕ) (s : Signals F) {t : Signals F}
        → IsSignalled prices hold js s
        → signals_from prices lookback hold fuel index s ≡ ok t
        → (is : List ℕ) × IsSpaced hold (length prices) index is
          × IsSignalled prices hold (js ++ is) t
    unfolding signals_from
    signals_from-IsSignalled lookback zero index js s {t = t} h e =
        elim (Bool-cases (ltb (index + hold) (length prices))) [
          | inr done ↦ IsSignalled-ends index js s h (rw done at e)
          | inl inside ↦ let stuck : err out_of_rounds ≡ ok t = rw inside at e in cc
        ]
    signals_from-IsSignalled lookback (suc fuel) index js s {t = t} h e =
        elim (Bool-cases (ltb (index + hold) (length prices))) [
          | inr done ↦ IsSignalled-ends index js s h (rw done at e)
          | inl inside ↦
              let (rising, er, e) =
                bind-ok (is_rising prices lookback index)
                  (λ rising. (if rising then book_signal prices hold index s else ok s) >>= λ u.
                    signals_from prices lookback hold fuel
                      (if rising then index + hold + 1 else index + 1) u)
                  (rw inside at e) in
              elim (Bool-cases rising) [
                | inr flat ↦
                    let more : signals_from prices lookback hold fuel (index + 1) s ≡ ok t =
                      rw flat at e in
                    let (is, spaced, signalled) =
                      signals_from-IsSignalled lookback fuel (index + 1) js s h more in
                    (
                      is,
                      IsSpaced-weaken hold (length prices) index (index + 1) is (omega arith)
                          spaced,
                      signalled,
                    )
                | inl up ↦
                    let more : (book_signal prices hold index s >>= λ u.
                    signals_from prices lookback hold fuel (index + hold + 1) u)
                        ≡ ok t =
                      rw up at e in
                    let (u, eu, e) = bind-ok (book_signal prices hold index s) _ more in
                    let within : index + hold < length prices = ground arith in
                    let (is, spaced, signalled) =
                      signals_from-IsSignalled lookback fuel (index + hold + 1) (js ++ index ∷ []) u
                        (book_signal-IsSignalled index js s within h eu) e in
                    (
                      index ∷ is,
                      (omega arith, within, spaced),
                      subst (λ l. IsSignalled prices hold l t) (append_assoc js (index ∷ []) is)
                          signalled,
                    )
              ]
        ]

    -- The signals of a history stand at places that are far enough apart.
    pub momentum_signals-IsSignalled :
        (lookback : ℕ) {s : Signals F}
        → momentum_signals prices lookback hold ≡ ok s
        → (is : List ℕ) × IsSpaced hold (length prices) lookback is × IsSignalled prices hold is s
    unfolding momentum_signals
    momentum_signals-IsSignalled lookback e =
        signals_from-IsSignalled lookback (length prices) lookback []
          (record {
            entries = replicate (length prices) false;
            exits = replicate (length prices) false;
            raw_returns = [];
          })
          (record {
            entries = replicate-marks 0 (length prices);
            exits = replicate-marks 0 (length prices);
            raw_returns = refl;
          })
          e
