-- ===== src/Execution/Paper.antt =====
-- src/crypto_alpha_agent/execution/paper.py: orders on a paper account. An operation gives what it
-- ends with and the account that it leaves, also where it raises: an assignment to a field is
-- validated on its own, so an order can raise with the private attributes already changed.
mod Records
pub mod Basis
pub mod Soundness
pub mod Orders
pub mod Marking
pub mod Valuation
pub mod RoundTrip
unfoldable pub use Records.*
use crypto_research_agent.Common.{
  String, Bool, true, false, not, ◌&&◌, ◌||◌, Option, none, some, List, [], ◌∷◌, if◌then◌else◌,
  is_none, is_empty, any, append_text, ◌=?◌, string_eq, Outcome, ok, err, value_error,
  validation_error, ◌>>=◌, ◌>>◌, raise_if,
}
use crypto_research_agent.Common.Dict.{Dict, lookup, lookup_or, store, discard}
use crypto_research_agent.Common.Float.{Float, is_nonneg, is_positive}

-- what an operation ends with, and the account that it leaves
abbrev pub Attempt : Type 0 → Type 0
Attempt F = Outcome (TradeFigures F) × PaperAccount F

module _ {F : Type 0} ⦃f : Float F⦄ where
  open f use {nought, decimal, is_finite, le, lt, same, add, sub, mul, div}

  abbrev pub is_nonneg_option : Option F → Bool
  is_nonneg_option none = true
  is_nonneg_option (some x) = is_nonneg x

  -- the fields' constraints and the validator of an order
  unfoldable pub check_order : PaperOrder F → Outcome (PaperOrder F)
  check_order order = do
    raise_if
        (not (
          not (order.symbol =? "")
          && is_positive order.quantity
          && is_positive order.reference_price
          && is_nonneg order.fee_rate
          && is_nonneg_option order.slippage_rate
          && is_nonneg_option order.slippage_bps
          && is_nonneg order.latency_ms))
        (validation_error "PaperOrder")
    raise_if (not (is_none order.slippage_rate) && not (is_none order.slippage_bps))
        (value_error "only one slippage unit may be provided")
    ok order

  unfoldable pub slippage_of : Option F → Option F → F
  slippage_of (some rate) _ = rate
  slippage_of none (some bps) = div bps (decimal 10000 0)
  slippage_of none none = nought

  abbrev pub effective_slippage_rate : PaperOrder F → F
  effective_slippage_rate order = slippage_of order.slippage_rate order.slippage_bps

  unfoldable pub fill_price_of : PaperOrder F → Outcome F
  fill_price_of order =
      let multiplier =
        if order.side =? sell
        then sub (decimal 1 0) (effective_slippage_rate order)
        else add (decimal 1 0) (effective_slippage_rate order) in
      let fill_price = mul order.reference_price multiplier in
      if le fill_price nought
      then err (value_error "paper fill price must be positive")
      else ok fill_price

  -- The constructor of `PaperAccount`. An inventory is refused unless it is empty, and so is the flag of
  -- real capital.
  unfoldable pub open_account : F → Dict F → F → F → Bool → Outcome (PaperAccount F)
  open_account cash inventory realized_gross_pnl realized_net_pnl touched_real_capital = do
    raise_if (not (is_nonneg cash)) (validation_error "PaperAccount")
    raise_if (not (is_empty inventory))
        (value_error "initial inventory is not supported for paper accounts")
    raise_if (not (is_finite realized_gross_pnl && is_finite realized_net_pnl))
        (validation_error "PaperAccount")
    raise_if touched_real_capital (value_error "paper execution cannot touch real capital")
    ok (record {
      cash = cash;
      inventory = inventory;
      realized_gross_pnl = realized_gross_pnl;
      realized_net_pnl = realized_net_pnl;
      touched_real_capital = touched_real_capital;
      average_entry_price = [];
      entry_fees = [];
      capital_used = [];
    })

  -- the private attributes as a buy leaves them
  unfoldable pub book_buy : PaperAccount F → PaperOrder F → F → F → PaperAccount F
  book_buy account order gross_value fee =
      let previous_quantity = lookup_or nought order.symbol account.inventory in
      let new_quantity = add previous_quantity order.quantity in
      let previous_cost =
        mul (lookup_or nought order.symbol account.average_entry_price) previous_quantity in
      record account {
        average_entry_price =
            store order.symbol (div (add previous_cost gross_value) new_quantity)
              account.average_entry_price;
        entry_fees =
            store order.symbol (add (lookup_or nought order.symbol account.entry_fees) fee)
              account.entry_fees;
        capital_used =
            store order.symbol
              (add (lookup_or nought order.symbol account.capital_used) (add gross_value fee))
              account.capital_used;
      }

  unfoldable pub execute_buy : PaperAccount F → PaperOrder F → F → F → Attempt F
  execute_buy account order gross_value fee =
      let total_cost = add gross_value fee in
      let booked = book_buy account order gross_value fee in
      let cash = sub account.cash total_cost in
      let new_quantity = add (lookup_or nought order.symbol account.inventory) order.quantity in
      if lt account.cash total_cost
      then (err (value_error "insufficient paper cash"), account)
      else (if not (is_nonneg cash) then (err (validation_error "PaperAccount"), booked) else (
        ok (record {
          capital_used = total_cost;
          realized_gross_pnl = nought;
          realized_net_pnl = nought;
        }),
        record booked {
          cash = cash;
          inventory = store order.symbol new_quantity account.inventory;
        },
      ))

  abbrev pub basis_of : Option F → Option F → Option F → Option (CostBasis F)
  basis_of (some price) (some fee) (some capital) =
      some (record { average_entry = price; entry_fee = fee; capital_used = capital })
  basis_of _ _ _ = none

  unfoldable pub cost_basis : PaperAccount F → String → Option (CostBasis F)
  cost_basis account symbol =
      basis_of (lookup symbol account.average_entry_price) (lookup symbol account.entry_fees)
        (lookup symbol account.capital_used)

  -- the position as a sale leaves it
  unfoldable pub reduce_position : PaperAccount F → PaperOrder F → CostBasis F → F → PaperAccount F
  reduce_position account order basis current_quantity =
      let fraction = div order.quantity current_quantity in
      let remaining = sub current_quantity order.quantity in
      let entry_fee = sub basis.entry_fee (mul basis.entry_fee fraction) in
      let capital = sub basis.capital_used (mul basis.capital_used fraction) in
      if same remaining nought
      then record account {
        inventory = store order.symbol nought account.inventory;
        average_entry_price = discard order.symbol account.average_entry_price;
        entry_fees = discard order.symbol account.entry_fees;
        capital_used = discard order.symbol account.capital_used;
      }
      else record account {
        inventory = store order.symbol remaining account.inventory;
        entry_fees = store order.symbol entry_fee account.entry_fees;
        capital_used = store order.symbol capital account.capital_used;
      }

  -- The rest of a sale once the cost basis is known: three validated assignments, then the position.
  unfoldable pub close_position :
      PaperAccount F → PaperOrder F → F → F → F → CostBasis F → Attempt F
  close_position account order fill_price gross_value fee basis =
      let current_quantity = lookup_or nought order.symbol account.inventory in
      let fraction = div order.quantity current_quantity in
      let gross_pnl = mul (sub fill_price basis.average_entry) order.quantity in
      let net_pnl = sub (sub gross_pnl (mul basis.entry_fee fraction)) fee in
      let paid = record account { cash = add account.cash (sub gross_value fee) } in
      let grossed = record paid { realized_gross_pnl = add account.realized_gross_pnl gross_pnl } in
      let netted = record grossed { realized_net_pnl = add account.realized_net_pnl net_pnl } in
      if not (is_nonneg paid.cash)
      then (err (validation_error "PaperAccount"), account)
      else (if not (is_finite grossed.realized_gross_pnl)
          then (err (validation_error "PaperAccount"), paid)
          else (if not (is_finite netted.realized_net_pnl)
              then (err (validation_error "PaperAccount"), grossed)
              else (
                ok (record {
                  capital_used = mul basis.capital_used fraction;
                  realized_gross_pnl = gross_pnl;
                  realized_net_pnl = net_pnl;
                }),
                reduce_position netted order basis current_quantity,
              )))

  abbrev pub sell_on : PaperAccount F → PaperOrder F → F → F → F → Option (CostBasis F) → Attempt F
  sell_on account order fill_price gross_value fee none =
      (err (value_error (append_text "missing paper cost basis for " order.symbol)), account)
  sell_on account order fill_price gross_value fee (some basis) =
      close_position account order fill_price gross_value fee basis

  unfoldable pub execute_sell : PaperAccount F → PaperOrder F → F → F → F → Attempt F
  execute_sell account order fill_price gross_value fee =
      if lt (lookup_or nought order.symbol account.inventory) order.quantity
      then (err (value_error "insufficient paper inventory"), account)
      else sell_on account order fill_price gross_value fee (cost_basis account order.symbol)

  -- the fill and the result of a trade, with the constraints of their models
  unfoldable pub trade_result :
      PaperOrder F → F → F → F → TradeFigures F → PaperAccount F → Outcome (PaperTradeResult F)
  trade_result order fill_price gross_value fee figures account = do
    raise_if
        (not (
          is_positive order.quantity
          && is_positive order.reference_price
          && is_positive fill_price
          && is_nonneg gross_value
          && is_nonneg fee
          && is_nonneg (effective_slippage_rate order)
          && is_nonneg order.latency_ms))
        (validation_error "PaperFill")
    raise_if
        (not (
          is_nonneg account.cash
          && not (any (λ e. not (is_nonneg e.1)) account.inventory)
          && is_nonneg figures.capital_used
          && is_finite figures.realized_gross_pnl
          && is_finite figures.realized_net_pnl))
        (validation_error "PaperTradeResult")
    ok (record {
      fill = record {
        symbol = order.symbol;
        side = order.side;
        quantity = order.quantity;
        reference_price = order.reference_price;
        fill_price = fill_price;
        gross_value = gross_value;
        fee = fee;
        slippage_rate = effective_slippage_rate order;
        latency_ms = order.latency_ms;
      };
      cash = account.cash;
      inventory = account.inventory;
      capital_used = figures.capital_used;
      realized_gross_pnl = figures.realized_gross_pnl;
      realized_net_pnl = figures.realized_net_pnl;
      touched_real_capital = false;
    })

  abbrev pub attempt : PaperAccount F → PaperOrder F → F → Attempt F
  attempt account order fill_price =
      let gross_value = mul order.quantity fill_price in
      let fee = mul gross_value order.fee_rate in
      if order.side =? buy
      then execute_buy account order gross_value fee
      else execute_sell account order fill_price gross_value fee

  abbrev pub finish : PaperOrder F → F → Attempt F → Outcome (PaperTradeResult F) × PaperAccount F
  finish order fill_price (err e, account) = (err e, account)
  finish order fill_price (ok figures, account) =
      let gross_value = mul order.quantity fill_price in
      (
        trade_result order fill_price gross_value (mul gross_value order.fee_rate) figures account,
        account,
      )

  abbrev pub execute_at :
      PaperAccount F → PaperOrder F → Outcome F → Outcome (PaperTradeResult F) × PaperAccount F
  execute_at account order (err e) = (err e, account)
  execute_at account order (ok fill_price) =
      finish order fill_price (attempt account order fill_price)

  -- The quantity of a checked order is positive, so the divisors, which are the quantity after a buy and
  -- the one held before a sale that it does not exceed, are not zero.
  unfoldable pub execute_order :
      PaperAccount F → PaperOrder F → Outcome (PaperTradeResult F) × PaperAccount F
  execute_order account order = execute_at account order (fill_price_of order)
