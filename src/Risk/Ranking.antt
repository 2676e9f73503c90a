-- ===== src/Risk/Ranking.antt =====
-- src/crypto_alpha_agent/risk/ranker.py: the best candidates, by their scores and then by further keys.
pub mod Order
pub mod Best
pub mod Errors
use Prim.Native.Char.{Char, code}
use crypto_research_agent.Common.{
  ℕ, zero, suc, String, Bool, true, false, not, ◌&&◌, ◌||◌, ◌==◌, Option, none, some, List, [], ◌∷◌,
  if◌then◌else◌, is_blank, any, take, ltb, Outcome, ok, err, value_error, validation_error,
  traverse, ◌>>=◌,
}
use crypto_research_agent.Common.TextOrder.{text_before}
use crypto_research_agent.Common.Int.{ℤ, pos, negsuc}
use crypto_research_agent.Common.Float.{Float, is_nonneg, is_positive, smaller}
use crypto_research_agent.Common.Division.{quotient_of}
use crypto_research_agent.Common.Sorting.{sort_by}

pub record RankingCandidate (F : Type 0) : Type 0 where
  pub idea_id : String
  pub expected_net_value_usd : F
  pub confidence : F
  pub repeatability : F
  pub capital_required_usd : Option F
  pub max_drawdown_usd : Option F
  pub feasible : Bool
  pub opportunity_id : Option String
  pub hypothesis_id : Option String
  pub backtest_id : Option String
  pub memory_key : Option String

pub record RankedCandidate (F : Type 0) : Type 0 where
  pub idea_id : String
  pub score : F
  pub expected_net_value_usd : F
  pub confidence : F
  pub repeatability : F
  pub capital_required_usd : F
  pub capital_efficiency : F
  pub max_drawdown_usd : Option F
  pub opportunity_id : Option String
  pub hypothesis_id : Option String
  pub backtest_id : Option String
  pub memory_key : Option String

abbrev pub top_of : ℤ → ℕ
top_of (pos n) = n
top_of (negsuc n) = zero

-- the candidates that are not none
abbrev pub present {ℓ} : {A : Type ℓ} → List (Option A) → List A
present [] = []
present (none ∷ os) = present os
present (some a ∷ os) = a ∷ present os

module _ {F : Type 0} ⦃f : Float F⦄ where
  open f use {nought, decimal, is_finite, le, lt, same, mul, div, neg, round_to}

  abbrev pub is_unit : F → Bool
  is_unit x = is_finite x && le nought x && le x (decimal 1 0)

  abbrev pub holds_if_some : (F → Bool) → Option F → Bool
  holds_if_some p none = true
  holds_if_some p (some x) = p x

  abbrev pub accepts_candidate : RankingCandidate F → Bool
  accepts_candidate c =
      not (is_blank c.idea_id)
      && is_finite c.expected_net_value_usd
      && is_unit c.confidence
      && is_unit c.repeatability
      && holds_if_some is_positive c.capital_required_usd
      && holds_if_some is_nonneg c.max_drawdown_usd

  -- `_coerce_candidate`; a candidate that was built before is built again without a change
  unfoldable pub coerce_candidate : RankingCandidate F → Outcome (RankingCandidate F)
  coerce_candidate c =
      if accepts_candidate c then ok c else err (validation_error "RankingCandidate")

  abbrev pub accepts_ranked : RankedCandidate F → Bool
  accepts_ranked c =
      is_finite c.score
      && is_finite c.expected_net_value_usd
      && is_finite c.confidence
      && is_finite c.repeatability
      && is_finite c.capital_required_usd
      && is_finite c.capital_efficiency
      && holds_if_some is_finite c.max_drawdown_usd

  unfoldable pub check_ranked : RankedCandidate F → Outcome (RankedCandidate F)
  check_ranked c = if accepts_ranked c then ok c else err (validation_error "RankedCandidate")

  -- the drawdown in proportion to the value is beyond the limit
  unfoldable pub draws_down : RankingCandidate F → F → Option F → Outcome Bool
  draws_down c limit none = ok false
  draws_down c limit (some drawdown) =
      quotient_of drawdown c.expected_net_value_usd >>= λ r. ok (lt limit r)

  -- `_drawdown_penalty`
  unfoldable pub drawdown_penalty : RankingCandidate F → Option F → Outcome F
  drawdown_penalty c none = ok (decimal 1 0)
  drawdown_penalty c (some drawdown) =
      if same drawdown nought
      then ok (decimal 1 0)
      else (quotient_of c.expected_net_value_usd drawdown >>= λ r. ok (smaller (decimal 1 0) r))

  abbrev pub ranked : RankingCandidate F → F → F → F → RankedCandidate F
  ranked c capital efficiency penalty = record {
    idea_id = c.idea_id;
    score =
        round_to
          (mul (mul (mul (mul c.expected_net_value_usd c.confidence) c.repeatability) efficiency)
            penalty)
          12;
    expected_net_value_usd = c.expected_net_value_usd;
    confidence = c.confidence;
    repeatability = c.repeatability;
    capital_required_usd = capital;
    capital_efficiency = efficiency;
    max_drawdown_usd = c.max_drawdown_usd;
    opportunity_id = c.opportunity_id;
    hypothesis_id = c.hypothesis_id;
    backtest_id = c.backtest_id;
    memory_key = c.memory_key;
  }

  unfoldable pub score_with : RankingCandidate F → F → Outcome (Option (RankedCandidate F))
  score_with c capital = quotient_of c.expected_net_value_usd capital >>= λ efficiency.
      drawdown_penalty c c.max_drawdown_usd >>= λ penalty.
      check_ranked (ranked c capital efficiency penalty) >>= λ r. ok (some r)

  unfoldable pub score_funded :
      RankingCandidate F → F → Option F → Outcome (Option (RankedCandidate F))
  score_funded c limit none = ok none
  score_funded c limit (some capital) = draws_down c limit c.max_drawdown_usd >>= λ beyond.
      if beyond then ok none else score_with c capital

  -- `_score_candidate`
  unfoldable pub score_candidate : F → RankingCandidate F → Outcome (Option (RankedCandidate F))
  score_candidate limit c =
      if not c.feasible || le c.expected_net_value_usd nought || le c.repeatability nought
      then ok none
      else score_funded c limit c.capital_required_usd

  -- the floats of the key of the sort
  abbrev pub keys_of : RankedCandidate F → List F
  keys_of c =
      neg c.score
      ∷ neg c.expected_net_value_usd
      ∷ neg c.confidence
      ∷ neg c.repeatability
      ∷ neg c.capital_efficiency
      ∷ []

  -- `x < y` for tuples: the first entries that are not equal decide, and after all of them `rest` does
  unfoldable pub keys_before : List F → List F → Bool → Bool
  keys_before [] ys rest = rest
  keys_before (x ∷ xs) [] rest = rest
  keys_before (x ∷ xs) (y ∷ ys) rest =
      let after = keys_before xs ys rest in if same x y then after else lt x y

  unfoldable pub ranks_before : RankedCandidate F → RankedCandidate F → Bool
  ranks_before a b = keys_before (keys_of a) (keys_of b) (text_before a.idea_id b.idea_id)

  abbrev pub score_all : F → List (RankingCandidate F) → Outcome (List (Option (RankedCandidate F)))
  score_all limit candidates =
      traverse (λ c. coerce_candidate c >>= score_candidate limit) candidates

  unfoldable pub rank_candidate_ideas :
      List (RankingCandidate F) → ℤ → F → Outcome (List (RankedCandidate F))
  rank_candidate_ideas candidates top_n limit =
      if not (is_finite limit) || lt limit nought
      then err (value_error "max_drawdown_to_value must be finite and non-negative")
      else if top_of top_n == 0
      then ok []
      else (score_all limit candidates >>= λ scored.
          ok (take (top_of top_n) (sort_by ranks_before (present scored))))
