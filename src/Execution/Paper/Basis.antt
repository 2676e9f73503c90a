-- ===== src/Execution/Paper/Basis.antt =====
-- The cost basis of what a paper account holds, and the steps that keep it.
use crypto_research_agent.Common.{
  ◌≡◌, sym, subst, String, true, false, not, ◌&&◌, ◌||◌, arith, inl, inr, if◌then◌else◌, All,
  All-imply, ◌=?◌, string_eq, is_none, Bool-cases,
}
use crypto_research_agent.Common.Dict.{Dict, lookup, store, lookup-store, lookup-discard, All-store}
use crypto_research_agent.Common.Float.{Float, IsFinite, ◌≼◌, is_nonneg}
use crypto_research_agent.Execution.Paper.{
  side_eq, PaperOrder, PaperAccount, CostBasis, book_buy, cost_basis, reduce_position,
}

module _ {F : Type 0} ⦃f : Float F⦄ where
  open f use {nought, le}

  -- An entry of the inventory that is held has a cost basis in all three private attributes.
  abbrev pub IsBased : PaperAccount F → String × F → Type 0
  IsBased account e = le e.1 nought ≡ false → is_none (cost_basis account e.0) ≡ false

  -- The account never touched real capital, its money is finite and its cash is not negative, and
  -- whatever it holds has a cost basis.
  pub record IsSound (account : PaperAccount F) : Type 0 where
    pub cash : is_nonneg account.cash ≡ true
    pub gross : IsFinite account.realized_gross_pnl
    pub net : IsFinite account.realized_net_pnl
    pub simulated : account.touched_real_capital ≡ false
    pub based : All (IsBased account) account.inventory

  missing_basis :
      (account : PaperAccount F) (s : String)
      → is_none (cost_basis account s) ≡ (
          is_none (lookup s account.average_entry_price)
          || is_none (lookup s account.entry_fees)
          || is_none (lookup s account.capital_used))
  unfolding cost_basis
  missing_basis account s = ground arith

  pub book_buy-basis :
      (account : PaperAccount F) (order : PaperOrder F) (gross fee : F) (s : String)
      → is_none (cost_basis (book_buy account order gross fee) s)
        ≡ (not (order.symbol =? s) && is_none (cost_basis account s))
  unfolding book_buy
  book_buy-basis account order gross fee s =
      rw (missing_basis account s)
        (rw (missing_basis (book_buy account order gross fee) s) (simp lookup-store (ground arith)))

  reduce-basis_other :
      (account : PaperAccount F) (order : PaperOrder F) (basis : CostBasis F) (current : F)
      (s : String)
      → (order.symbol =? s) ≡ false
      → is_none (cost_basis (reduce_position account order basis current) s)
        ≡ is_none (cost_basis account s)
  unfolding reduce_position
  reduce-basis_other account order basis current s n = rw (missing_basis account s) (
      rw (missing_basis (reduce_position account order basis current) s)
        (elim (Bool-cases (f.same (f.sub current order.quantity) nought)) [
          | inl gone ↦ rw gone (simp lookup-discard (ground arith))
          | inr left ↦ rw left (simp lookup-store (ground arith))
        ]))

  reduce-basis_same :
      (account : PaperAccount F) (order : PaperOrder F) (basis : CostBasis F) (current : F)
      → is_none (cost_basis account order.symbol) ≡ false
      → f.same (f.sub current order.quantity) nought ≡ false
      → is_none (cost_basis (reduce_position account order basis current) order.symbol) ≡ false
  unfolding reduce_position
  reduce-basis_same account order basis current h n =
      rw (missing_basis (reduce_position account order basis current) order.symbol) (
        rw n (
          simp lookup-store (
            ground (
              arith,
              missing_basis account order.symbol,
              string_eq.beq_iff order.symbol order.symbol,
            ))))

  -- A validated assignment to the cash, with another inventory.
  pub paid-IsSound :
      (account : PaperAccount F) (cash : F) (inventory : Dict F)
      → IsSound account
      → is_nonneg cash ≡ true
      → All (IsBased account) inventory
      → IsSound (record account { cash = cash; inventory = inventory })
  unfolding cost_basis
  paid-IsSound account cash inventory h c b = record {
    cash = c;
    gross = h.gross;
    net = h.net;
    simulated = h.simulated;
    based = b;
  }

  pub booked-IsSound :
      (account : PaperAccount F) (order : PaperOrder F) (gross fee : F)
      → IsSound account
      → IsSound (book_buy account order gross fee)
  unfolding book_buy
  booked-IsSound account order gross fee h = record {
    cash = h.cash;
    gross = h.gross;
    net = h.net;
    simulated = h.simulated;
    based =
        All-imply (IsBased account) (IsBased (book_buy account order gross fee)) _
          (λ e p held. ground (arith, p held, book_buy-basis account order gross fee e.0)) h.based;
  }

  reduced_inventory :
      (account : PaperAccount F) (order : PaperOrder F) (basis : CostBasis F) (current : F)
      → (reduce_position account order basis current).inventory ≡ (
          if f.same (f.sub current order.quantity) nought
          then store order.symbol nought account.inventory
          else store order.symbol (f.sub current order.quantity) account.inventory)
  unfolding reduce_position
  reduced_inventory account order basis current = ground arith

  reduced-IsBased :
      (account : PaperAccount F) (order : PaperOrder F) (basis : CostBasis F) (current : F)
      → nought ≼ nought
      → All (IsBased account) account.inventory
      → is_none (cost_basis account order.symbol) ≡ false
      → let reduced = reduce_position account order basis current in
        All (IsBased reduced) reduced.inventory
  reduced-IsBased account order basis current z h b =
      let reduced = reduce_position account order basis current in
      let kept : (j : String) (w : F)
          → (j =? order.symbol) ≡ false
          → IsBased account (j, w)
          → IsBased reduced (j, w) =
        λ j w n p held. ground (
          arith,
          p held,
          reduce-basis_other account order basis current j,
          string_eq.beq_iff j order.symbol,
          string_eq.beq_iff order.symbol j,
        ) in
      subst (All (IsBased reduced)) (sym (reduced_inventory account order basis current))
        (elim (Bool-cases (f.same (f.sub current order.quantity) nought)) [
          | inl gone ↦
              rw gone
                (All-store (IsBased account) (IsBased reduced) _ _ _ kept (λ held. ground arith) h)
          | inr left ↦ rw left (
              All-store (IsBased account) (IsBased reduced) _ _ _ kept
                (λ held. reduce-basis_same account order basis current b left) h)
        ])

  pub reduced-IsSound :
      (account : PaperAccount F) (order : PaperOrder F) (basis : CostBasis F) (current : F)
      → nought ≼ nought
      → IsSound account
      → is_none (cost_basis account order.symbol) ≡ false
      → IsSound (reduce_position account order basis current)
  reduced-IsSound account order basis current z h b = record {
    cash = unfold reduce_position in ground (arith, h.cash);
    gross = unfold reduce_position in ground (arith, h.gross);
    net = unfold reduce_position in ground (arith, h.net);
    simulated = unfold reduce_position in ground (arith, h.simulated);
    based = reduced-IsBased account order basis current z h.based b;
  }

  -- The three assignments of a sale.
  pub netted-IsSound :
      (account : PaperAccount F) (cash gross net : F)
      → IsSound account
      → is_nonneg cash ≡ true
      → IsFinite gross
      → IsFinite net
      → IsSound (record account { cash = cash; realized_gross_pnl = gross; realized_net_pnl = net })
  unfolding cost_basis
  netted-IsSound account cash gross net h c g n = record {
    cash = c;
    gross = g;
    net = n;
    simulated = h.simulated;
    based = h.based;
  }
