-- ===== src/Examples/Ranking.antt =====
-- The ranking at concrete inputs.
use crypto_research_agent.Common.{
  ◌≡◌, refl, Bool, true, Option, none, some, List, [], ◌∷◌, take, count_if, All, ok,
}
use crypto_research_agent.Common.Int.{ℤ, pos}
use crypto_research_agent.Common.Float.Fixed.{fixed_float, fixed-IsOrdered}
use crypto_research_agent.Common.Sorting.{IsSorted}
use crypto_research_agent.Common.TextOrder.{text_before}
use crypto_research_agent.Risk.Ranking.{
  RankingCandidate, RankedCandidate, present, ranks_before, score_all, score_candidate,
  coerce_candidate, score_funded, score_with, drawdown_penalty, draws_down, check_ranked,
  rank_candidate_ideas, ranked, keys_before,
}
use crypto_research_agent.Risk.Ranking.Best.{IsWorthwhile, rank_candidate_ideas-IsSorted}
use crypto_research_agent.Risk.Ranking.Errors.{IsScored, rank_candidate_ideas-IsScored}
use crypto_research_agent.Common.Division.{quotient_of}
use crypto_research_agent.Common.Float.{smaller}

abbrev carry : RankingCandidate ℤ
carry = record {
  idea_id = "carry";
  expected_net_value_usd = pos 100000;
  confidence = pos 10000;
  repeatability = pos 10000;
  capital_required_usd = some (pos 1000000);
  max_drawdown_usd = none;
  feasible = true;
  opportunity_id = none;
  hypothesis_id = none;
  backtest_id = none;
  memory_key = none;
}

abbrev basis : RankingCandidate ℤ
basis = record carry { idea_id = "basis"; expected_net_value_usd = pos 200000 }

abbrev best : RankedCandidate ℤ
best = ranked basis (pos 1000000) (pos 2000) (pos 10000)

ranking_of_two : rank_candidate_ideas (carry ∷ basis ∷ []) (pos 1) (pos 20000) ≡ ok (best ∷ [])
unfolding rank_candidate_ideas score_candidate coerce_candidate score_funded score_with
    drawdown_penalty draws_down check_ranked keys_before text_before ranks_before fixed_float
    quotient_of smaller take
ranking_of_two = refl

rank_candidate_ideas-IsSorted_example :
    (scored : List (Option (RankedCandidate ℤ))) × (sorted : List (RankedCandidate ℤ)) × (score_all
        (pos 20000)
        (carry ∷ basis ∷ [])
      ≡ ok scored)
    × (best ∷ [] ≡ take 1 sorted)
    × ((p : RankedCandidate ℤ → Bool) → count_if p sorted ≡ count_if p (present scored))
    × IsSorted ranks_before sorted
    × All (IsWorthwhile (pos 20000)) (best ∷ [])
rank_candidate_ideas-IsSorted_example =
    rank_candidate_ideas-IsSorted fixed-IsOrdered (carry ∷ basis ∷ []) (pos 1) (pos 20000) refl
      ranking_of_two

rank_candidate_ideas-IsScored_example :
    IsScored (rank_candidate_ideas (carry ∷ basis ∷ []) (pos 1) (pos 20000))
unfolding fixed_float
rank_candidate_ideas-IsScored_example =
    rank_candidate_ideas-IsScored fixed-IsOrdered (carry ∷ basis ∷ []) (pos 1) (pos 20000)
      (refl, (refl, tt)) refl
