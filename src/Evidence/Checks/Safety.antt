-- ===== src/Evidence/Checks/Safety.antt =====
-- Which strategy candidates are accepted: those that cannot reach live execution.
use crypto_research_agent.Common.{
  ◌≡◌, String, true, false, List, [], ◌∷◌, is_empty, any, All, is_blank, strip, lower, occurs_in,
  ok,
}
use crypto_research_agent.Common.Float.{Float, is_nonneg}
use crypto_research_agent.Common.Dedupe.{dedupe_nonempty}
use crypto_research_agent.Evidence.Json.{Value}
use crypto_research_agent.Evidence.Models.{StrategyCandidate}
use crypto_research_agent.Evidence.Checks.{alnum_only, freeze_parameters}

-- No name of a faster path to the chain stands in the letters and digits of the source.
abbrev pub IsSlowSource : String → Type 0
IsSlowSource v =
    any (λ token. occurs_in token (alnum_only (lower v)))
      ("mev" ∷ "mempool" ∷ "premiumrpc" ∷ "privaterpc" ∷ [])
    ≡ false

abbrev pub IsNonblankText : String → Type 0
IsNonblankText s = is_blank (strip s) ≡ false

-- There is a source, and each is slow.
abbrev pub AreSlowSources : List String → Type 0
AreSlowSources vs = (is_empty (dedupe_nonempty vs) ≡ false) × All IsSlowSource (dedupe_nonempty vs)

module _ {F : Type 0} ⦃f : Float F⦄ where
  open f use {lt}

  -- A candidate for paper alone.
  pub record IsPaperSafe (c : StrategyCandidate F) : Type 0 where
    pub candidate_id : IsNonblankText c.candidate_id
    pub strategy_family : IsNonblankText c.strategy_family
    pub symbol : IsNonblankText c.symbol
    pub venue : IsNonblankText c.venue
    pub timeframe : IsNonblankText c.timeframe
    pub parameters : (v : Value F) × (freeze_parameters c.parameters ≡ ok v)
    pub current_capital : is_nonneg c.current_capital_usd ≡ true
    pub min_capital : is_nonneg c.min_capital_usd ≡ true
    pub sources : AreSlowSources c.data_sources
    pub no_speed_edge : c.requires_speed_edge ≡ false
    pub no_premium_rpc : c.requires_premium_rpc ≡ false
    pub no_live_orders : c.live_order_routing ≡ false
    pub affordable : lt c.current_capital_usd c.min_capital_usd ≡ false
