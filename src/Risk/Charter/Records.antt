-- ===== src/Risk/Charter/Records.antt =====
-- src/crypto_alpha_agent/risk/charter_guard.py: the ideas, the decision and the tables of the charter
-- guard.
use crypto_research_agent.Common.{
  ◌∷◌, Bool, false, true, List, [], Option, String, Eq, eq_of_discrete,
}
use crypto_research_agent.Common.Dict.{Dict}

pub data CharterRejectReason : Type 0 where
  mev_or_mempool premium_rpc_required bridge_race flash_loan_race : CharterRejectReason
  sub_second_arbitrage live_trading_required wallet_key_required : CharterRejectReason
  capital_above_budget large_balance_sheet_required : CharterRejectReason

unfoldable pub CharterRejectReason-discrete : Discrete CharterRejectReason
CharterRejectReason-discrete = hlevel

instance abbrev pub charter_reason_eq : Eq CharterRejectReason
charter_reason_eq = eq_of_discrete CharterRejectReason-discrete

-- The values that the guard tells apart: a model is the mapping that `model_dump` gives of it, a key the
-- text that `str` gives of it, and a value that is none of these has nothing to collect.
mutual
  pub data Idea (F : Type 0) : Type 0 where
    text : String → Idea F
    flag : Bool → Idea F
    number : F → Idea F
    mapping : Fields F → Idea F
    items : Ideas F → Idea F
    nothing : Idea F

  pub data Ideas (F : Type 0) : Type 0 where
    nil : Ideas F
    cons : Idea F → Ideas F → Ideas F

  pub data Fields (F : Type 0) : Type 0 where
    end : Fields F
    field : String → Idea F → Fields F → Fields F

-- the lists that `_collect_idea_fields` extends
pub record Collection (F : Type 0) : Type 0 where
  pub strings : List String
  pub capital_values : List F
  pub metadata_reasons : List CharterRejectReason

pub record Rule : Type 0 where
  pub reason : CharterRejectReason
  pub term : String
  pub allows_interstitial : Bool

-- the reasons, the terms and the capital values that `_scan_text` extends
pub record Scan (F : Type 0) : Type 0 where
  pub reason_codes : List CharterRejectReason
  pub matched_terms : List String
  pub amounts : List F

pub record CharterGuardDecision (F : Type 0) : Type 0 where
  pub approved : Bool
  pub reason_codes : List CharterRejectReason
  pub matched_terms : List String
  pub capital_required_usd : Option F
  pub max_capital_usd : F
  pub allowed_family : Option String

abbrev pub rule : CharterRejectReason → String → Rule
rule reason term = record { reason = reason; term = term; allows_interstitial = false }

abbrev pub text_rules : List Rule
text_rules =
    rule mev_or_mempool "mev"
    ∷ rule mev_or_mempool "mempool"
    ∷ rule mev_or_mempool "sandwich"
    ∷ rule premium_rpc_required "premium rpc"
    ∷ rule premium_rpc_required "private rpc"
    ∷ rule bridge_race "bridge race"
    ∷ rule bridge_race "bridge races"
    ∷ rule flash_loan_race "flash loan"
    ∷ rule flash_loan_race "flash loans"
    ∷ record {
      reason = sub_second_arbitrage;
      term = "sub-second arbitrage";
      allows_interstitial = true;
    }
    ∷ rule sub_second_arbitrage "cex-dex arbitrage"
    ∷ rule live_trading_required "live order"
    ∷ rule live_trading_required "live orders"
    ∷ rule live_trading_required "live execution"
    ∷ rule live_trading_required "order placement"
    ∷ rule live_trading_required "place order"
    ∷ rule wallet_key_required "private key"
    ∷ rule wallet_key_required "private keys"
    ∷ rule wallet_key_required "seed phrase"
    ∷ rule wallet_key_required "wallet key"
    ∷ rule wallet_key_required "wallet keys"
    ∷ rule large_balance_sheet_required "large balance sheet"
    ∷ rule large_balance_sheet_required "institutional balance sheet"
    ∷ []

abbrev pub capital_metadata_keys : List String
capital_metadata_keys =
    "capital_required_usd" ∷ "min_capital_usd" ∷ "max_capital_usd" ∷ "max_notional_usd"
    ∷ "required_capital_usd" ∷ "notional_usd" ∷ []

abbrev pub unsafe_metadata_keys : Dict CharterRejectReason
unsafe_metadata_keys =
    ("private_key_required", wallet_key_required)
    ∷ ("premium_rpc_required", premium_rpc_required)
    ∷ ("live_orders_required", live_trading_required)
    ∷ []

abbrev pub affirmative_texts : List String
affirmative_texts =
    "1" ∷ "enabled" ∷ "gated_live" ∷ "high" ∷ "live" ∷ "need" ∷ "needed" ∷ "required" ∷ "requires"
    ∷ "true" ∷ "yes" ∷ []
