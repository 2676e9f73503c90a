-- ===== src/Execution/Paper/Orders.antt =====
-- What an order changes: nothing when it is refused, and never the position of another symbol.
use crypto_research_agent.Common.{
  ◌≡◌, refl, ◌∙◌, String, false, Option, arith, inl, inr, ◌=?◌, string_eq, Outcome-cases, ok, err,
  value_error, Bool-cases, Option-cases,
}
use crypto_research_agent.Common.Dict.{lookup, lookup_or, lookup-store, lookup-discard}
use crypto_research_agent.Common.Float.{Float, is_nonneg}
use crypto_research_agent.Execution.Paper.{
  Attempt, side_eq, PaperOrder, PaperAccount, CostBasis, buy, book_buy, execute_buy, cost_basis,
  reduce_position, close_position, execute_sell, attempt, finish, fill_price_of, trade_result,
  execute_order,
}
use crypto_research_agent.Execution.Paper.Soundness.{finish-account}

module _ {F : Type 0} ⦃f : Float F⦄ where
  buy-refused :
      (account : PaperAccount F) (order : PaperOrder F) (gross fee : F) (message : String)
      → (execute_buy account order gross fee).0 ≡ err (value_error message)
      → (execute_buy account order gross fee).1 ≡ account
  unfolding execute_buy
  buy-refused account order gross fee message e = ground arith

  sell-refused :
      (account : PaperAccount F) (order : PaperOrder F) (price gross fee : F) (message : String)
      → (execute_sell account order price gross fee).0 ≡ err (value_error message)
      → (execute_sell account order price gross fee).1 ≡ account
  unfolding execute_sell close_position
  sell-refused account order price gross fee message e = ground arith

  finish-refused :
      (order : PaperOrder F) (price : F) (r : Attempt F) (message : String)
      → (finish order price r).0 ≡ err (value_error message)
      → (r.0 ≡ err (value_error message)) × ((finish order price r).1 ≡ r.1)
  unfolding trade_result
  finish-refused order price (ok figures, account) message e = ground arith
  finish-refused order price (err e, account) message h = ground arith

  attempt-refused :
      (account : PaperAccount F) (order : PaperOrder F) (price : F) (message : String)
      → (attempt account order price).0 ≡ err (value_error message)
      → (attempt account order price).1 ≡ account
  attempt-refused account order price message e = ground (
    arith,
    buy-refused account order (f.mul order.quantity price)
        (f.mul (f.mul order.quantity price) order.fee_rate) message,
    sell-refused account order price (f.mul order.quantity price)
        (f.mul (f.mul order.quantity price) order.fee_rate) message,
  )

  -- An order that ends with a ValueError of the account's own, for the fill price, the cash, the inventory
  -- or the cost basis, leaves the account as it was. A ValidationError of pydantic is not meant.
  pub execute_order-refused :
      (account : PaperAccount F) (order : PaperOrder F) (message : String)
      → (execute_order account order).0 ≡ err (value_error message)
      → (execute_order account order).1 ≡ account
  unfolding execute_order
  execute_order-refused account order message e = elim (Outcome-cases (fill_price_of order)) [
    | inr (bad, refused) ↦ rw refused refl
    | inl (price, filled) ↦
        let (raised, left) =
          finish-refused order price (attempt account order price) message (rw filled at e) in
        rw filled (left ∙ attempt-refused account order price message raised)
  ]

  -- What an account holds of a symbol, and what it holds it for.
  abbrev pub position : PaperAccount F → String → Option F × Option F × Option F × Option F
  position account s = (
    lookup s account.inventory,
    lookup s account.average_entry_price,
    lookup s account.entry_fees,
    lookup s account.capital_used,
  )

  buy-other :
      (account : PaperAccount F) (order : PaperOrder F) (gross fee : F) (s : String)
      → (order.symbol =? s) ≡ false
      → position (execute_buy account order gross fee).1 s ≡ position account s
  unfolding execute_buy book_buy
  buy-other account order gross fee s n = elim (Bool-cases (f.lt account.cash (f.add gross fee))) [
    | inl short ↦ rw short refl
    | inr enough ↦ rw enough (elim (Bool-cases (is_nonneg (f.sub account.cash (f.add gross fee)))) [
      | inl solvent ↦ rw solvent (simp (lookup-store, n) refl)
      | inr broken ↦ rw broken (simp (lookup-store, n) refl)
    ])
  ]

  reduce-other :
      (account : PaperAccount F) (order : PaperOrder F) (basis : CostBasis F) (current : F)
      (s : String)
      → (order.symbol =? s) ≡ false
      → position (reduce_position account order basis current) s ≡ position account s
  unfolding reduce_position
  reduce-other account order basis current s n =
      elim (Bool-cases (f.same (f.sub current order.quantity) f.nought)) [
        | inl gone ↦ rw gone (simp (lookup-store, lookup-discard, n) refl)
        | inr left ↦ rw left (simp (lookup-store, n) refl)
      ]

  close-other :
      (account : PaperAccount F) (order : PaperOrder F) (price gross fee : F) (basis : CostBasis F)
      (s : String)
      → (order.symbol =? s) ≡ false
      → position (close_position account order price gross fee basis).1 s ≡ position account s
  unfolding close_position
  close-other account order price gross fee basis s n =
      let fraction = f.div order.quantity (lookup_or f.nought order.symbol account.inventory) in
      let gross_pnl = f.mul (f.sub price basis.average_entry) order.quantity in
      let net_pnl = f.sub (f.sub gross_pnl (f.mul basis.entry_fee fraction)) fee in
      elim (Bool-cases (is_nonneg (f.add account.cash (f.sub gross fee)))) [
        | inr broken ↦ rw broken refl
        | inl solvent ↦
            rw solvent
              (elim (Bool-cases (f.is_finite (f.add account.realized_gross_pnl gross_pnl))) [
                | inr broken ↦ rw broken refl
                | inl finite ↦
                    rw finite
                      (elim (Bool-cases (f.is_finite (f.add account.realized_net_pnl net_pnl))) [
                        | inr broken ↦ rw broken refl
                        | inl fine ↦ rw fine (reduce-other _ order basis _ s n)
                      ])
              ])
      ]

  sell-other :
      (account : PaperAccount F) (order : PaperOrder F) (price gross fee : F) (s : String)
      → (order.symbol =? s) ≡ false
      → position (execute_sell account order price gross fee).1 s ≡ position account s
  unfolding execute_sell
  sell-other account order price gross fee s n =
      elim (Bool-cases (f.lt (lookup_or f.nought order.symbol account.inventory) order.quantity)) [
        | inl short ↦ rw short refl
        | inr enough ↦ rw enough (elim (Option-cases (cost_basis account order.symbol)) [
          | inl missing ↦ rw missing refl
          | inr (basis, found) ↦ rw found (close-other account order price gross fee basis s n)
        ])
      ]

  attempt-other :
      (account : PaperAccount F) (order : PaperOrder F) (price : F) (s : String)
      → (order.symbol =? s) ≡ false
      → position (attempt account order price).1 s ≡ position account s
  attempt-other account order price s n = elim (Bool-cases (order.side =? buy)) [
    | inl buying ↦ rw buying (buy-other account order _ _ s n)
    | inr selling ↦ rw selling (sell-other account order price _ _ s n)
  ]

  -- An order leaves the position and the cost basis of every other symbol alone, also when it raises.
  pub execute_order-other :
      (account : PaperAccount F) (order : PaperOrder F) (s : String)
      → (order.symbol =? s) ≡ false
      → position (execute_order account order).1 s ≡ position account s
  unfolding execute_order
  execute_order-other account order s n = elim (Outcome-cases (fill_price_of order)) [
    | inr (bad, refused) ↦ rw refused refl
    | inl (price, filled) ↦
        rw (filled, finish-account order price (attempt account order price))
          (attempt-other account order price s n)
  ]
