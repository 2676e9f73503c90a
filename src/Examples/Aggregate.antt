-- ===== src/Examples/Aggregate.antt =====
-- The aggregation of paper evidence at a concrete input.
use crypto_research_agent.Common.{
  ◌≡◌, refl, none, some, List, [], ◌∷◌, map, length, IsDistinct, string_eq, All, ok, traverse,
  contains,
}
use crypto_research_agent.Common.Int.{ℤ, pos}
use crypto_research_agent.Common.Float.{larger}
use crypto_research_agent.Common.Float.Fixed.{fixed_float}
use crypto_research_agent.Common.Sorting.{IsSorted}
use crypto_research_agent.Common.TextOrder.{text_before}
use crypto_research_agent.Evidence.Models.{PaperEvidencePackage}
use crypto_research_agent.Evidence.Aggregate.{
  closed, blocked, PaperEvidenceInput, PaperItem, evidence, coerce_input, family_figures,
  package_of, families_of, of_family, hit_rate_of, max_drawdown_from, aggregate_paper_evidence,
}
use crypto_research_agent.Evidence.Aggregate.Families.{
  sample_total, Accounts, aggregate_paper_evidence-Accounts,
}

abbrev won : PaperEvidenceInput ℤ
won = record {
  strategy_family = "carry";
  trade_id = none;
  symbol = none;
  status = closed;
  realized_net_pnl = some (pos 20000);
  max_drawdown_usd = none;
  notional_usd = pos 100000;
  gross_pnl_usd = pos 21000;
  fees_usd = pos 1000;
  slippage_usd = pos 0;
  cost_model_mode = some "measured";
  stale_signal_status = none;
  fill_status = none;
  failure_reasons = [];
}

abbrev stopped : PaperEvidenceInput ℤ
stopped = record won {
  strategy_family = "basis";
  status = blocked;
  realized_net_pnl = none;
  failure_reasons = "stale" ∷ [];
}

abbrev items : List (PaperItem ℤ)
items = evidence won ∷ evidence stopped ∷ evidence won ∷ []

abbrev packages : List (PaperEvidencePackage ℤ)
packages = family_figures "basis" (stopped ∷ []) ∷ family_figures "carry" (won ∷ won ∷ []) ∷ []

items_are_packaged : aggregate_paper_evidence items none ≡ ok packages
unfolding aggregate_paper_evidence coerce_input package_of families_of hit_rate_of max_drawdown_from
    fixed_float text_before contains larger
items_are_packaged = refl

aggregate_paper_evidence-Accounts_example :
    (inputs : List (PaperEvidenceInput ℤ)) × (traverse (coerce_input none) items ≡ ok inputs)
    × (map (λ p. p.strategy_family) packages ≡ families_of (of_family none inputs))
    × IsDistinct (families_of (of_family none inputs))
    × IsSorted text_before (families_of (of_family none inputs))
    × All (Accounts (of_family none inputs)) packages
    × (sample_total packages ≡ length (of_family none inputs))
aggregate_paper_evidence-Accounts_example =
    aggregate_paper_evidence-Accounts items none items_are_packaged
