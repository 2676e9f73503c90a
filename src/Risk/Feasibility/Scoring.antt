-- ===== src/Risk/Feasibility/Scoring.antt =====
-- What the feasibility score says.
use crypto_research_agent.Common.{
  ℕ, zero, suc, ◌-◌, ◌*◌, ◌≤◌, ◌≡◌, ◌↔◌, refl, subst, String, true, false, not, ◌&&◌, List, [], ◌∷◌,
  arith, inl, inr, if◌then◌else◌, ltb, is_none, is_empty, length, flags, flags-empty_iff,
  Bool-cases, ok, validation_error, bind-ok, ok_injective, ◌>>=◌, raise_if,
}
use crypto_research_agent.Common.Int.{ℤ, pos, negsuc}
use crypto_research_agent.Common.Float.{Float, larger}
use crypto_research_agent.Risk.Feasibility.{
  FeasibilityInput, FeasibilityScore, clamp_score, is_high, exceeds, feasibility_reasons, rounded,
  is_risky, feasibility_figure, calculate_score, is_optional_ge_zero, accepts_score, check_score,
  score_of, score_feasibility,
}

clamp_score-bounds : (z : ℤ) → (1 ≤ clamp_score z) × (clamp_score z ≤ 100)
clamp_score-bounds (negsuc n) = (omega arith, omega arith)
clamp_score-bounds (pos zero) = (omega arith, omega arith)
clamp_score-bounds (pos (suc n)) = (ground arith, ground arith)

module _ {F : Type 0} ⦃f : Float F⦄ where
  open f use {nought, is_finite, le, lt, same, mul}

  pub record IsFeasible (i : FeasibilityInput F) : Type 0 where
    pub affordable : lt i.current_capital_usd i.capital_required_usd ≡ false
    pub slow_enough : (is_high i.speed_dependency && not i.allow_high_speed) ≡ false
    pub plain_rpc : (is_high i.rpc_dependency && not i.allow_high_rpc) ≡ false
    pub pays :
        lt i.expected_net_pnl_usd
          (larger i.min_net_pnl_usd (mul i.capital_required_usd i.min_net_pnl_ratio))
        ≡ false
    pub repeats : (i.require_repeatable && not i.repeatable) ≡ false
    pub bounded : is_none i.max_downside_usd ≡ false
    pub small_downside : exceeds i.max_downside_usd i.max_allowed_downside_usd ≡ false

  reasons-IsFeasible_iff :
      (i : FeasibilityInput F) → (is_empty (flags (feasibility_reasons i)) ≡ true) ↔ IsFeasible i
  reasons-IsFeasible_iff i = (
    λ e.
        let c = (flags-empty_iff (feasibility_reasons i)).0 e in
        record {
          affordable = c.0;
          slow_enough = c.1.0;
          plain_rpc = c.1.1.0;
          pays = c.1.1.1.0;
          repeats = c.1.1.1.1.0;
          bounded = c.1.1.1.1.1.0;
          small_downside = c.1.1.1.1.1.1.0;
        },
    λ p. (flags-empty_iff (feasibility_reasons i)).1 (
      p.affordable,
      (p.slow_enough, (p.plain_rpc, (p.pays, (p.repeats, (p.bounded, (p.small_downside, tt)))))),
    ),
  )

  check_score-same :
      (s : FeasibilityScore F) {t : FeasibilityScore F} → check_score s ≡ ok t → s ≡ t
  unfolding check_score
  check_score-same s h =
      let (u, guard, last) =
        bind-ok (raise_if (not (accepts_score s)) (validation_error "FeasibilityScore")) _ h in
      ok_injective last

  calculate_score-bounds :
      (reasons : List String) (i : FeasibilityInput F) {n : ℕ}
      → calculate_score reasons i ≡ ok n
      → (n ≤ 100) × ((is_empty reasons ≡ true) → 1 ≤ n) × ((is_empty reasons ≡ false) → n ≤ 45)
  unfolding calculate_score
  calculate_score-bounds (r ∷ rs) i {n = n} h =
      let e : 60 - length (r ∷ rs) * 15 ≡ n = ok_injective h in
      (omega arith, λ x. cc, λ x. omega arith)
  calculate_score-bounds [] i {n = n} h = elim (Bool-cases (same i.current_capital_usd nought)) [
    | inl broke ↦
        let e : clamp_score
              (pos (if is_risky i.expected_net_pnl_usd i.max_downside_usd then 70 else 80))
            ≡ n =
          ok_injective (rw broke at h) in
        let (low, high) =
          clamp_score-bounds
            (pos (if is_risky i.expected_net_pnl_usd i.max_downside_usd then 70 else 80)) in
        (subst (λ x. x ≤ 100) e high, λ x. subst (λ x. 1 ≤ x) e low, λ x. cc)
    | inr funded ↦
        let more : (rounded (feasibility_figure i) >>= λ z. ok (clamp_score z)) ≡ ok n =
          rw funded at h in
        let (z, _, last) = bind-ok (rounded (feasibility_figure i)) _ more in
        let e : clamp_score z ≡ n = ok_injective last in
        let (low, high) = clamp_score-bounds z in
        (subst (λ x. x ≤ 100) e high, λ x. subst (λ x. 1 ≤ x) e low, λ x. cc)
  ]

  -- A score is given with its approval exactly to a feasible opportunity; it is at most 100, at least 1
  -- with the approval and at most 45 without.
  pub score_feasibility-IsFeasible_iff :
      (i : FeasibilityInput F) {s : FeasibilityScore F}
      → score_feasibility i ≡ ok s
      → ((s.approved ≡ true) ↔ IsFeasible i)
        × (s.score ≤ 100)
        × ((s.approved ≡ true) → 1 ≤ s.score)
        × ((s.approved ≡ false) → s.score ≤ 45)
  unfolding score_feasibility score_of
  score_feasibility-IsFeasible_iff i {s = s} h =
      let reasons = flags (feasibility_reasons i) in
      let (n, scored, h) = bind-ok (calculate_score reasons i) _ h in
      let result = score_of i reasons n in
      let (top, low, high) = calculate_score-bounds reasons i scored in
      subst
        (λ t.
          ((t.approved ≡ true) ↔ IsFeasible i)
          × (t.score ≤ 100)
          × ((t.approved ≡ true) → 1 ≤ t.score)
          × ((t.approved ≡ false) → t.score ≤ 45))
        (check_score-same result h) (reasons-IsFeasible_iff i, top, low, high)

  -- The figure behind a score is a finite number.
  pub record IsNumber (x : F) : Type 0 where
    pub finite : is_finite x ≡ true
    pub comparable : same x x ≡ true

  calculate_score_total :
      (reasons : List String) (i : FeasibilityInput F)
      → ((is_empty reasons ≡ true)
          → same i.current_capital_usd nought ≡ false
          → IsNumber (feasibility_figure i))
      → (n : ℕ) × (calculate_score reasons i ≡ ok n)
  unfolding calculate_score rounded
  calculate_score_total (r ∷ rs) i h = (60 - length (r ∷ rs) * 15, refl)
  calculate_score_total [] i h = elim (Bool-cases (same i.current_capital_usd nought)) [
    | inl broke ↦ (
      clamp_score (pos (if is_risky i.expected_net_pnl_usd i.max_downside_usd then 70 else 80)),
      rw broke refl,
    )
    | inr funded ↦
        let number = h refl funded in
        (
          clamp_score (f.round_int (feasibility_figure i)),
          rw (funded, number.comparable, number.finite) refl,
        )
  ]

  -- A score is given whenever the amounts are at least zero and the figure of an opportunity that is
  -- feasible, with a capital that is not zero, is a finite number.
  pub score_feasibility_total :
      (i : FeasibilityInput F)
      → le nought i.capital_required_usd ≡ true
      → le nought i.current_capital_usd ≡ true
      → is_optional_ge_zero i.max_downside_usd ≡ true
      → (IsFeasible i → same i.current_capital_usd nought ≡ false → IsNumber (feasibility_figure i))
      → (s : FeasibilityScore F) × (score_feasibility i ≡ ok s)
  unfolding score_feasibility check_score score_of
  score_feasibility_total i required current downside number =
      let reasons = flags (feasibility_reasons i) in
      let (n, scored) =
        calculate_score_total reasons i
          (λ none_left. number ((reasons-IsFeasible_iff i).0 none_left)) in
      let (top, _, _) = calculate_score-bounds reasons i scored in
      let small : ltb 100 n ≡ false = ground arith in
      (score_of i reasons n, rw (scored, small, required, current, downside) refl)
