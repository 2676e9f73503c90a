-- ===== src/Execution/Paper/Marking.antt =====
-- `PaperAccount.mark_to_market` of src/crypto_alpha_agent/execution/paper.py.
use crypto_research_agent.Common.{
  String, false, not, ◌&&◌, Option, none, some, List, [], ◌∷◌, if◌then◌else◌, append_text, Outcome,
  ok, err, value_error, validation_error, ◌>>=◌, ◌>>◌, raise_if,
}
use crypto_research_agent.Common.Dict.{Dict, lookup}
use crypto_research_agent.Common.Float.{Float, is_nonneg, is_positive}
use crypto_research_agent.Execution.Paper.{PaperAccount, PaperMarkToMarket}

module _ {F : Type 0} ⦃f : Float F⦄ where
  open f use {nought, is_finite, le, add, sub, mul}

  -- the value and the unrealized result of one position, added to those of the positions before it
  abbrev pub mark_at : String → F → F → F → Option F → Option F → Outcome (F × F)
  mark_at symbol quantity value pnl none _ =
      err (value_error (append_text "missing mark price for " symbol))
  mark_at symbol quantity value pnl (some _) none =
      err (value_error (append_text "missing paper cost basis for " symbol))
  mark_at symbol quantity value pnl (some mark) (some entry) = do
    raise_if (not (is_positive mark)) (validation_error "_RuntimePrice")
    ok (add value (mul quantity mark), add pnl (mul (sub mark entry) quantity))

  unfoldable pub mark_position : PaperAccount F → Dict F → String → F → F → F → Outcome (F × F)
  mark_position account prices symbol quantity value pnl =
      if le quantity nought
      then ok (value, pnl)
      else mark_at symbol quantity value pnl (lookup symbol prices)
          (lookup symbol account.average_entry_price)

  unfoldable pub mark_positions :
      PaperAccount F → Dict F → List (String × F) → F → F → Outcome (F × F)
  mark_positions account prices [] value pnl = ok (value, pnl)
  mark_positions account prices ((symbol, quantity) ∷ rest) value pnl = do
    marked ← mark_position account prices symbol quantity value pnl
    mark_positions account prices rest marked.0 marked.1

  unfoldable pub mark_to_market : PaperAccount F → Dict F → Outcome (PaperMarkToMarket F)
  mark_to_market account prices = do
    marked ← mark_positions account prices account.inventory nought nought
    let equity = add account.cash marked.0
    raise_if
        (not (
          is_nonneg account.cash
          && is_nonneg marked.0
          && is_nonneg equity
          && is_finite account.realized_gross_pnl
          && is_finite account.realized_net_pnl
          && is_finite marked.1))
        (validation_error "PaperMarkToMarket")
    ok (record {
      cash = account.cash;
      inventory_value = marked.0;
      equity = equity;
      realized_gross_pnl = account.realized_gross_pnl;
      realized_net_pnl = account.realized_net_pnl;
      unrealized_gross_pnl = marked.1;
      touched_real_capital = false;
    })
