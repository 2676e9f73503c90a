-- ===== src/Execution/Paper/Records.antt =====
-- The pydantic models of src/crypto_alpha_agent/execution/paper.py.
use crypto_research_agent.Common.{Eq, eq_of_discrete, String, Bool, Option}
use crypto_research_agent.Common.Dict.{Dict}

pub data OrderSide : Type 0 where
  buy sell : OrderSide

unfoldable pub OrderSide-discrete : Discrete OrderSide
OrderSide-discrete = hlevel

instance abbrev pub side_eq : Eq OrderSide
side_eq = eq_of_discrete OrderSide-discrete

pub record PaperOrder (F : Type 0) : Type 0 where
  pub symbol : String
  pub side : OrderSide
  pub quantity : F
  pub reference_price : F
  pub fee_rate : F
  pub slippage_rate : Option F
  pub slippage_bps : Option F
  pub latency_ms : F

pub record PaperFill (F : Type 0) : Type 0 where
  pub symbol : String
  pub side : OrderSide
  pub quantity : F
  pub reference_price : F
  pub fill_price : F
  pub gross_value : F
  pub fee : F
  pub slippage_rate : F
  pub latency_ms : F

pub record PaperTradeResult (F : Type 0) : Type 0 where
  pub fill : PaperFill F
  pub cash : F
  pub inventory : Dict F
  pub capital_used : F
  pub realized_gross_pnl : F
  pub realized_net_pnl : F
  pub touched_real_capital : Bool

pub record PaperMarkToMarket (F : Type 0) : Type 0 where
  pub cash : F
  pub inventory_value : F
  pub equity : F
  pub realized_gross_pnl : F
  pub realized_net_pnl : F
  pub unrealized_gross_pnl : F
  pub touched_real_capital : Bool

-- The last three fields are the private attributes of the account.
pub record PaperAccount (F : Type 0) : Type 0 where
  pub cash : F
  pub inventory : Dict F
  pub realized_gross_pnl : F
  pub realized_net_pnl : F
  pub touched_real_capital : Bool
  pub average_entry_price : Dict F
  pub entry_fees : Dict F
  pub capital_used : Dict F

-- the dict that `_execute_buy` and `_execute_sell` return
pub record TradeFigures (F : Type 0) : Type 0 where
  pub capital_used : F
  pub realized_gross_pnl : F
  pub realized_net_pnl : F

-- what the private attributes hold of one symbol
pub record CostBasis (F : Type 0) : Type 0 where
  pub average_entry : F
  pub entry_fee : F
  pub capital_used : F
