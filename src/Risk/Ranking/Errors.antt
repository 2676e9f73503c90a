-- ===== src/Risk/Ranking/Errors.antt =====
-- What a ranking of accepted candidates can raise.
use crypto_research_agent.Common.{
  ◌≡◌, refl, subst, Bool, true, false, not, ◌||◌, ◌==◌, Option, none, some, List, [], ◌∷◌, arith,
  inl, inr, if◌then◌else◌, All, Bool-cases, Outcome, ok, err, validation_error, ◌>>=◌,
}
use crypto_research_agent.Common.Int.{ℤ}
use crypto_research_agent.Common.Float.{Float, IsOrdered, is_nonneg, is_positive, ◌≺◌, IsFinite}
use crypto_research_agent.Common.Division.{quotient_of}
use crypto_research_agent.Risk.Ranking.{
  RankingCandidate, RankedCandidate, top_of, holds_if_some, accepts_candidate, accepts_ranked,
  coerce_candidate, check_ranked, draws_down, score_with, score_funded, score_candidate, score_all,
  rank_candidate_ideas, drawdown_penalty, ranked,
}

-- The call gives a value, or a figure of a ranked candidate is not finite.
abbrev pub IsScored {ℓ} : {A : Type ℓ} → Outcome A → Type 0
IsScored (ok a) = Unit
IsScored (err e) = e ≡ validation_error "RankedCandidate"

bind-IsScored {ℓ κ} :
    {A : Type ℓ} {B : Type κ} (m : Outcome A) (k : A → Outcome B)
    → IsScored m
    → ((a : A) → IsScored (k a))
    → IsScored (m >>= k)
bind-IsScored (ok a) k p q = q a
bind-IsScored (err e) k p q = p

module _ {F : Type 0} ⦃f : Float F⦄ (laws : IsOrdered F) where
  open f use {nought, le, lt, same}

  quotient_of-IsScored : (x y : F) → same y nought ≡ false → IsScored (quotient_of x y)
  unfolding quotient_of
  quotient_of-IsScored x y e = rw e tt

  same-le : (x : F) → IsFinite x → le x nought ≡ false → same x nought ≡ false
  same-le x p e = ground (
    arith,
    laws.same_number x nought (laws.le_of_finite x p) (laws.le_of_finite nought laws.nought_finite),
  )

  le-positive : (x : F) → IsFinite x → nought ≺ x → le x nought ≡ false
  le-positive x p e = ground (
    arith,
    laws.lt_number nought x (laws.le_of_finite nought laws.nought_finite) (laws.le_of_finite x p),
  )

  draws_down-IsScored :
      (c : RankingCandidate F) (limit : F) (o : Option F)
      → same c.expected_net_value_usd nought ≡ false
      → IsScored (draws_down c limit o)
  unfolding draws_down
  draws_down-IsScored c limit none e = tt
  draws_down-IsScored c limit (some drawdown) e =
      bind-IsScored (quotient_of drawdown c.expected_net_value_usd) _
        (quotient_of-IsScored drawdown c.expected_net_value_usd e) (λ r. tt)

  drawdown_penalty-IsScored :
      (c : RankingCandidate F) (o : Option F) → IsScored (drawdown_penalty c o)
  unfolding drawdown_penalty
  drawdown_penalty-IsScored c none = tt
  drawdown_penalty-IsScored c (some drawdown) = elim (Bool-cases (same drawdown nought)) [
    | inl e ↦ rw e tt
    | inr e ↦ rw e (
        bind-IsScored (quotient_of c.expected_net_value_usd drawdown) _
          (quotient_of-IsScored c.expected_net_value_usd drawdown e) (λ r. tt))
  ]

  check_ranked-IsScored : (c : RankedCandidate F) → IsScored (check_ranked c)
  unfolding check_ranked
  check_ranked-IsScored c = elim (Bool-cases (accepts_ranked c)) [
    | inl e ↦ rw e tt
    | inr e ↦ rw e refl
  ]

  score_with-IsScored :
      (c : RankingCandidate F) (capital : F)
      → same capital nought ≡ false
      → IsScored (score_with c capital)
  unfolding score_with
  score_with-IsScored c capital e =
      bind-IsScored (quotient_of c.expected_net_value_usd capital) _
        (quotient_of-IsScored c.expected_net_value_usd capital e)
        (λ efficiency.
          bind-IsScored (drawdown_penalty c c.max_drawdown_usd) _
            (drawdown_penalty-IsScored c c.max_drawdown_usd)
            (λ penalty.
              bind-IsScored (check_ranked (ranked c capital efficiency penalty)) _
                (check_ranked-IsScored _) (λ r. tt)))

  score_funded-IsScored :
      (c : RankingCandidate F) (limit : F) (capital : Option F)
      → same c.expected_net_value_usd nought ≡ false
      → ((x : F) → capital ≡ some x → same x nought ≡ false)
      → IsScored (score_funded c limit capital)
  unfolding score_funded
  score_funded-IsScored c limit none e g = tt
  score_funded-IsScored c limit (some capital) e g =
      bind-IsScored (draws_down c limit c.max_drawdown_usd) _
        (draws_down-IsScored c limit c.max_drawdown_usd e) left_out_or_scored
    where
      left_out_or_scored :
          (beyond : Bool) → IsScored (if beyond then ok none else score_with c capital)
      left_out_or_scored true = tt
      left_out_or_scored false = score_with-IsScored c capital (g capital refl)

  funded :
      (c : RankingCandidate F)
      → accepts_candidate c ≡ true
      → (x : F) → c.capital_required_usd ≡ some x
      → same x nought ≡ false
  funded c accepted x e =
      let all : holds_if_some is_positive c.capital_required_usd ≡ true = ground arith in
      let given : is_positive x ≡ true = subst (λ o. holds_if_some is_positive o ≡ true) e all in
      same-le x (ground arith) (le-positive x (ground arith) (ground arith))

  score_candidate-IsScored :
      (limit : F) (c : RankingCandidate F)
      → accepts_candidate c ≡ true
      → IsScored (score_candidate limit c)
  unfolding score_candidate
  score_candidate-IsScored limit c accepted =
      elim (Bool-cases
        (not c.feasible || le c.expected_net_value_usd nought || le c.repeatability nought)) [
          | inl e ↦ rw e tt
          | inr e ↦ rw e (
              score_funded-IsScored c limit c.capital_required_usd
                (same-le c.expected_net_value_usd (ground arith) (ground arith))
                (funded c accepted))
        ]

  score_all-IsScored :
      (limit : F) (candidates : List (RankingCandidate F))
      → All (λ c. accepts_candidate c ≡ true) candidates
      → IsScored (score_all limit candidates)
  unfolding coerce_candidate
  score_all-IsScored limit [] h = tt
  score_all-IsScored limit (c ∷ candidates) (accepted, h) =
      bind-IsScored (coerce_candidate c >>= score_candidate limit) _
        (rw accepted (score_candidate-IsScored limit c accepted))
        (λ o.
          bind-IsScored (score_all limit candidates) _ (score_all-IsScored limit candidates h)
            (λ os. tt))

  -- A ranking of candidates that are accepted, for a limit that is finite and at least zero, gives a result
  -- or is refused because a figure of a ranked candidate is not finite: no division by zero is left.
  pub rank_candidate_ideas-IsScored :
      (candidates : List (RankingCandidate F)) (top_n : ℤ) (limit : F)
      → All (λ c. accepts_candidate c ≡ true) candidates
      → is_nonneg limit ≡ true
      → IsScored (rank_candidate_ideas candidates top_n limit)
  unfolding rank_candidate_ideas
  rank_candidate_ideas-IsScored candidates top_n limit h valid =
      let fine : (not (f.is_finite limit) || lt limit nought) ≡ false = ground (
        arith,
        laws.lt_number limit nought (laws.le_of_finite limit (ground arith))
            (laws.le_of_finite nought laws.nought_finite),
      ) in
      elim (Bool-cases (top_of top_n == 0)) [
        | inl e ↦ rw (fine, e) tt
        | inr e ↦
            rw (fine, e)
              (bind-IsScored (score_all limit candidates) _ (score_all-IsScored limit candidates h)
                (λ scored. tt))
      ]
