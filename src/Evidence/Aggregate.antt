-- ===== src/Evidence/Aggregate.antt =====
-- `aggregate_paper_evidence` of src/crypto_alpha_agent/evidence/paper.py: one package for each strategy
-- family, of inputs and of results of the paper account. Mappings, which it takes too, are left out.
pub mod Names
pub mod Families
use crypto_research_agent.Common.{
  ℕ, String, Bool, true, false, not, ◌&&◌, ◌||◌, Option, none, some, List, [], ◌∷◌, ◌++◌, map,
  if◌then◌else◌, is_blank, is_empty, is_none, keep, count_if, length, contains, append_unique,
  string_eq, ◌=?◌, Outcome, ok, err, validation_error, raise_if, traverse, ◌>>=◌, ◌>>◌,
}
use crypto_research_agent.Common.Float.{Float, is_nonneg, larger}
use crypto_research_agent.Common.Sorting.{sort_by}
use crypto_research_agent.Common.TextOrder.{text_before}
use crypto_research_agent.Evidence.Models.{PaperEvidencePackage}
use crypto_research_agent.Execution.Paper.{PaperTradeResult}

pub data PaperEvidenceStatus : Type 0 where
  closed filled success failed rejected blocked : PaperEvidenceStatus

abbrev pub is_closed_status : PaperEvidenceStatus → Bool
is_closed_status closed = true
is_closed_status filled = true
is_closed_status success = true
is_closed_status _ = false

abbrev pub is_failed_status : PaperEvidenceStatus → Bool
is_failed_status failed = true
is_failed_status rejected = true
is_failed_status blocked = true
is_failed_status _ = false

abbrev pub is_blocked_status : PaperEvidenceStatus → Bool
is_blocked_status blocked = true
is_blocked_status _ = false

pub record PaperEvidenceInput (F : Type 0) : Type 0 where
  pub strategy_family : String
  pub trade_id : Option String
  pub symbol : Option String
  pub status : PaperEvidenceStatus
  pub realized_net_pnl : Option F
  pub max_drawdown_usd : Option F
  pub notional_usd : F
  pub gross_pnl_usd : F
  pub fees_usd : F
  pub slippage_usd : F
  pub cost_model_mode : Option String
  pub stale_signal_status : Option String
  pub fill_status : Option String
  pub failure_reasons : List String

pub data PaperItem (F : Type 0) : Type 0 where
  evidence : PaperEvidenceInput F → PaperItem F
  traded : PaperTradeResult F → PaperItem F

-- `_dedupe`, with the values kept so far
abbrev pub unique_from : List String → List String → List String
unique_from [] out = out
unique_from (v ∷ vs) out = unique_from vs (append_unique out v)

-- `strategy_family or default`
abbrev pub family_or : String → Option String → String
family_or other none = other
family_or other (some family) = if is_blank family then other else family

abbrev pub is_text : String → Option String → Bool
is_text wanted none = false
is_text wanted (some text) = text =? wanted

abbrev pub present_texts : List (Option String) → List String
present_texts [] = []
present_texts (none ∷ os) = present_texts os
present_texts (some text ∷ os) =
    let rest = present_texts os in if is_blank text then rest else text ∷ rest

module _ {F : Type 0} ⦃f : Float F⦄ where
  open f use {nought, is_finite, lt, add, abs, ratio, total}

  -- the family of an item, and its figures, of which a result of the account has but the profit
  abbrev pub traded_input : Option String → PaperTradeResult F → PaperEvidenceInput F
  traded_input family result = record {
    strategy_family = family_or "paper_execution" family;
    trade_id = none;
    symbol = some result.fill.symbol;
    status = closed;
    realized_net_pnl = some result.realized_net_pnl;
    max_drawdown_usd = none;
    notional_usd = nought;
    gross_pnl_usd = nought;
    fees_usd = nought;
    slippage_usd = nought;
    cost_model_mode = none;
    stale_signal_status = none;
    fill_status = none;
    failure_reasons = [];
  }

  -- `_coerce_input`
  unfoldable pub coerce_input : Option String → PaperItem F → Outcome (PaperEvidenceInput F)
  coerce_input family (evidence item) = ok item
  coerce_input family (traded result) =
      if is_finite result.realized_net_pnl
      then ok (traded_input family result)
      else err (validation_error "PaperEvidenceInput")

  abbrev pub is_win : PaperEvidenceInput F → Option F → Bool
  is_win item none = false
  is_win item (some pnl) = lt nought pnl

  abbrev pub is_closed_item : PaperEvidenceInput F → Bool
  is_closed_item item = is_closed_status item.status

  -- `_hit_rate`
  unfoldable pub hit_rate_of : List (PaperEvidenceInput F) → F
  hit_rate_of [] = nought
  hit_rate_of (item ∷ items) =
      ratio (count_if (λ i. is_win i i.realized_net_pnl) (item ∷ items)) (length (item ∷ items))

  -- the profits that are known
  abbrev pub pnl_values : List (PaperEvidenceInput F) → List F
  pnl_values [] = []
  pnl_values (item ∷ items) =
      let rest = pnl_values items in
      elim item.realized_net_pnl [ none ↦ rest | some pnl ↦ pnl ∷ rest ]

  abbrev pub with_drawdown : F → Option F → F
  with_drawdown worst none = worst
  with_drawdown worst (some drawdown) = larger worst drawdown

  abbrev pub with_loss : F → Option F → F
  with_loss worst none = worst
  with_loss worst (some pnl) = if lt pnl nought then larger worst (abs pnl) else worst

  unfoldable pub max_drawdown_from : F → List (PaperEvidenceInput F) → F
  max_drawdown_from worst [] = worst
  max_drawdown_from worst (item ∷ items) =
      max_drawdown_from
        (with_loss (with_drawdown worst item.max_drawdown_usd) item.realized_net_pnl) items

  -- `total += figure` over the items
  abbrev pub sum_from : (PaperEvidenceInput F → F) → F → List (PaperEvidenceInput F) → F
  sum_from figure sum [] = sum
  sum_from figure sum (item ∷ items) = sum_from figure (add sum (figure item)) items

  abbrev pub all_reasons : List (PaperEvidenceInput F) → List String
  all_reasons [] = []
  all_reasons (item ∷ items) = item.failure_reasons ++ all_reasons items

  abbrev pub family_figures : String → List (PaperEvidenceInput F) → PaperEvidencePackage F
  family_figures family items = record {
    strategy_family = family;
    sample_size = length items;
    closed_count = count_if is_closed_item items;
    failed_count = count_if (λ i. is_failed_status i.status) items;
    blocked_count = count_if (λ i. is_blocked_status i.status) items;
    net_pnl_usd = total (pnl_values items);
    hit_rate = hit_rate_of (keep is_closed_item items);
    max_drawdown_usd = max_drawdown_from nought items;
    total_notional_usd = sum_from (λ i. i.notional_usd) nought items;
    gross_pnl_usd = sum_from (λ i. i.gross_pnl_usd) nought items;
    total_fees_usd = sum_from (λ i. i.fees_usd) nought items;
    total_slippage_usd = sum_from (λ i. i.slippage_usd) nought items;
    stale_signal_count = count_if (λ i. is_text "stale" i.stale_signal_status) items;
    missed_fill_count = count_if (λ i. is_text "missed" i.fill_status) items;
    partial_fill_count = count_if (λ i. is_text "partial" i.fill_status) items;
    cost_model_modes = unique_from (present_texts (map (λ i. i.cost_model_mode) items)) [];
    failure_reasons = unique_from (all_reasons items) [];
    approved_for_review = false;
  }

  abbrev pub accepts_package : PaperEvidencePackage F → Bool
  accepts_package p =
      not (is_blank p.strategy_family)
      && is_finite p.net_pnl_usd
      && is_finite p.hit_rate
      && is_nonneg p.max_drawdown_usd
      && is_nonneg p.total_notional_usd
      && is_finite p.gross_pnl_usd
      && is_nonneg p.total_fees_usd
      && is_nonneg p.total_slippage_usd

  abbrev pub is_of : String → PaperEvidenceInput F → Bool
  is_of family item = item.strategy_family =? family

  unfoldable pub package_of :
      List (PaperEvidenceInput F) → String → Outcome (PaperEvidencePackage F)
  package_of items family =
      let p = family_figures family (keep (is_of family) items) in
      if accepts_package p then ok p else err (validation_error "PaperEvidencePackage")

  -- `sorted({item.strategy_family for item in items})`
  unfoldable pub families_of : List (PaperEvidenceInput F) → List String
  families_of items = sort_by text_before (unique_from (map (λ i. i.strategy_family) items) [])

  abbrev pub of_family : Option String → List (PaperEvidenceInput F) → List (PaperEvidenceInput F)
  of_family none items = items
  of_family (some family) items = keep (is_of family) items

  unfoldable pub aggregate_paper_evidence :
      List (PaperItem F) → Option String → Outcome (List (PaperEvidencePackage F))
  aggregate_paper_evidence items family = traverse (coerce_input family) items >>= λ inputs.
      traverse (package_of (of_family family inputs)) (families_of (of_family family inputs))
