-- ===== src/Examples/Account.antt =====
-- A paper account that buys ten units and sells four of them.
use crypto_research_agent.Common.{◌≡◌, refl, true, false, none, [], ◌∷◌, ok}
use crypto_research_agent.Common.Int.{ℤ, pos}
use crypto_research_agent.Common.Float.Fixed.{fixed_float, fixed-IsOrdered}
use crypto_research_agent.Common.Dict.{Dict, lookup, lookup_or, store}
use crypto_research_agent.Execution.Paper.{
  OrderSide, buy, sell, PaperOrder, PaperAccount, open_account, execute_order, fill_price_of,
  slippage_of, execute_sell, execute_buy, cost_basis, book_buy, close_position, reduce_position,
  OrderSide-discrete,
}
use crypto_research_agent.Execution.Paper.Basis.{IsSound}
use crypto_research_agent.Execution.Paper.Soundness.{
  IsReachable, opened, ordered, reachable-IsSound,
}
use crypto_research_agent.Execution.Paper.Orders.{
  position, execute_order-refused, execute_order-other,
}
use crypto_research_agent.Execution.Paper.Marking.{mark_to_market}
use crypto_research_agent.Execution.Paper.Valuation.{mark_to_market_lem}
use crypto_research_agent.Common.{is_ok, ◌↔◌}
use crypto_research_agent.Execution.Paper.{PaperFill}
use crypto_research_agent.Execution.Paper.RoundTrip.{
  paper_round_trip_to_backtest_result, IsRoundTrip, IsRoundTrip-ok_iff,
}
use crypto_research_agent.Execution.Paper.{check_order}

abbrev order : OrderSide → ℤ → PaperOrder ℤ
order side quantity = record {
  symbol = "BTC";
  side = side;
  quantity = quantity;
  reference_price = pos 20000;
  fee_rate = pos 100;
  slippage_rate = none;
  slippage_bps = none;
  latency_ms = pos 0;
}

abbrev start : PaperAccount ℤ
start = record {
  cash = pos 1000000;
  inventory = [];
  realized_gross_pnl = pos 0;
  realized_net_pnl = pos 0;
  touched_real_capital = false;
  average_entry_price = [];
  entry_fees = [];
  capital_used = [];
}

abbrev bought : PaperAccount ℤ
bought = (execute_order start (order buy (pos 100000))).1

abbrev sold : PaperAccount ℤ
sold = (execute_order bought (order sell (pos 40000))).1

bought-IsReachable : IsReachable bought
unfolding open_account fixed_float check_order
bought-IsReachable =
    ordered start (order buy (pos 100000)) refl
      (opened (pos 1000000) [] (pos 0) (pos 0) false start refl)

reachable-IsSound_example : IsSound sold
unfolding check_order fixed_float
reachable-IsSound_example =
    reachable-IsSound fixed-IsOrdered {account = sold}
      (ordered bought (order sell (pos 40000)) refl bought-IsReachable)

abbrev prices : Dict ℤ
prices = ("BTC", pos 25000) ∷ []

mark_to_market_lem_example :
    mark_to_market sold prices
    ≡ ok (record {
      cash = sold.cash;
      inventory_value = pos 150000;
      equity = pos 1027200;
      realized_gross_pnl = sold.realized_gross_pnl;
      realized_net_pnl = sold.realized_net_pnl;
      unrealized_gross_pnl = pos 30000;
      touched_real_capital = false;
    })
unfolding execute_order fill_price_of fixed_float OrderSide-discrete slippage_of execute_sell
    lookup_or execute_buy store cost_basis lookup book_buy close_position reduce_position
    mark_to_market check_order
mark_to_market_lem_example =
    mark_to_market_lem sold prices
      (reachable-IsSound fixed-IsOrdered {account = sold}
        (ordered bought (order sell (pos 40000)) refl bought-IsReachable))
      ((λ h. (pos 25000, refl, refl)), tt)

execute_order-refused_example : (execute_order bought (order sell (pos 110000))).1 ≡ bought
unfolding execute_order fill_price_of fixed_float OrderSide-discrete slippage_of execute_sell
    lookup_or execute_buy store
execute_order-refused_example =
    execute_order-refused bought (order sell (pos 110000)) "insufficient paper inventory" refl

execute_order-other_example :
    position (execute_order bought (order sell (pos 40000))).1 "ETH" ≡ position bought "ETH"
execute_order-other_example = execute_order-other bought (order sell (pos 40000)) "ETH" refl

abbrev fill : OrderSide → ℤ → PaperFill ℤ
fill side price = record {
  symbol = "BTC";
  side = side;
  quantity = pos 100000;
  reference_price = price;
  fill_price = price;
  gross_value = pos 200000;
  fee = pos 200;
  slippage_rate = pos 0;
  latency_ms = pos 0;
}

IsRoundTrip-ok_iff_example :
    (is_ok (
        paper_round_trip_to_backtest_result
          (fill buy (pos 20000))
          (fill sell (pos 25000))
          (pos 60000))
      ≡ true)
    ↔ IsRoundTrip (fill buy (pos 20000)) (fill sell (pos 25000)) (pos 60000)
IsRoundTrip-ok_iff_example =
    IsRoundTrip-ok_iff (fill buy (pos 20000)) (fill sell (pos 25000)) (pos 60000)
