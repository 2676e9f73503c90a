-- ===== src/Execution/Paper/Soundness.antt =====
-- What every paper account satisfies, whatever orders it was given and however they ended.
use crypto_research_agent.Common.{
  Bool, String, true, not, ◌&&◌, [], ◌∷◌, subst, is_empty, bind-ok, ok_injective, raise_if,
  raise_if-ok, not-eq-false, ◌≡◌, refl, false, arith, inl, inr, All, ◌=?◌, string_eq, Outcome-cases,
  ok, err, is_none, Bool-cases, Option-cases,
}
use crypto_research_agent.Common.Dict.{Dict, lookup_or, store, All-store}
use crypto_research_agent.Common.Float.{Float, ◌≼◌, is_nonneg, IsOrdered}
use crypto_research_agent.Execution.Paper.{
  Attempt, side_eq, PaperOrder, PaperAccount, CostBasis, buy, open_account, check_order, book_buy,
  execute_buy, cost_basis, close_position, execute_sell, attempt, finish, fill_price_of,
  execute_order,
}
use crypto_research_agent.Execution.Paper.Basis.{
  IsBased, IsSound, book_buy-basis, paid-IsSound, booked-IsSound, reduced-IsSound, netted-IsSound,
}

module _ {F : Type 0} ⦃f : Float F⦄ where
  open f use {nought}

  -- The accounts that a run of orders leads to, those included that raised.
  pub data IsReachable : PaperAccount F → Type 0 where
    opened :
        (cash : F) (inventory : Dict F) (gross net : F) (touched : Bool) (account : PaperAccount F)
        → open_account cash inventory gross net touched ≡ ok account
        → IsReachable account
    ordered :
        (account : PaperAccount F) (order : PaperOrder F)
        → check_order order ≡ ok order
        → IsReachable account
        → IsReachable (execute_order account order).1

  none_held :
      (P : String × F → Type 0) (inventory : Dict F) → is_empty inventory ≡ true → All P inventory
  none_held P [] h = tt
  none_held P (e ∷ inventory) h = cc

  opened-IsSound :
      (cash : F) (inventory : Dict F) (gross net : F) (touched : Bool) {account : PaperAccount F}
      → open_account cash inventory gross net touched ≡ ok account
      → IsSound account
  unfolding open_account
  opened-IsSound cash inventory gross net touched e =
      let (_, paid, e) = bind-ok (raise_if (not (is_nonneg cash)) _) _ e in
      let (_, bare, e) = bind-ok (raise_if (not (is_empty inventory)) _) _ e in
      let finite = f.is_finite gross && f.is_finite net in
      let (_, whole, e) = bind-ok (raise_if (not finite) _) _ e in
      let (_, paper, e) = bind-ok (raise_if touched _) _ e in
      let numbers = not-eq-false finite (raise_if-ok (not finite) _ whole) in
      subst IsSound (ok_injective e) (record {
        cash = not-eq-false (is_nonneg cash) (raise_if-ok (not (is_nonneg cash)) _ paid);
        gross = ground arith;
        net = ground arith;
        simulated = raise_if-ok touched _ paper;
        based =
            none_held _ inventory
              (not-eq-false (is_empty inventory) (raise_if-ok (not (is_empty inventory)) _ bare));
      })

  buy-IsSound :
      (account : PaperAccount F) (order : PaperOrder F) (gross fee : F)
      → IsSound account
      → IsSound (execute_buy account order gross fee).1
  unfolding execute_buy
  buy-IsSound account order gross fee h =
      let booked = book_buy account order gross fee in
      let sound = booked-IsSound account order gross fee h in
      let added : (q : F) → All (IsBased booked) (store order.symbol q account.inventory) = λ q.
        All-store (IsBased booked) (IsBased booked) order.symbol q account.inventory (λ j w n p. p)
          (λ held. ground (
            arith,
            book_buy-basis account order gross fee order.symbol,
            string_eq.beq_iff order.symbol order.symbol,
          ))
          (unfold book_buy in sound.based) in
      elim (Bool-cases (f.lt account.cash (f.add gross fee))) [
        | inl short ↦ rw short h
        | inr enough ↦
            rw enough (elim (Bool-cases (is_nonneg (f.sub account.cash (f.add gross fee)))) [
              | inl solvent ↦ rw solvent (paid-IsSound booked _ _ sound solvent (added _))
              | inr broken ↦ rw broken sound
            ])
      ]

  close-IsSound :
      (account : PaperAccount F) (order : PaperOrder F) (price gross fee : F) (basis : CostBasis F)
      → nought ≼ nought
      → IsSound account
      → is_none (cost_basis account order.symbol) ≡ false
      → IsSound (close_position account order price gross fee basis).1
  unfolding close_position cost_basis
  close-IsSound account order price gross fee basis z h b =
      let fraction = f.div order.quantity (lookup_or nought order.symbol account.inventory) in
      let gross_pnl = f.mul (f.sub price basis.average_entry) order.quantity in
      let net_pnl = f.sub (f.sub gross_pnl (f.mul basis.entry_fee fraction)) fee in
      elim (Bool-cases (is_nonneg (f.add account.cash (f.sub gross fee)))) [
        | inr broken ↦ rw broken h
        | inl solvent ↦
            rw solvent
              (elim (Bool-cases (f.is_finite (f.add account.realized_gross_pnl gross_pnl))) [
                | inr broken ↦ rw broken (netted-IsSound account _ _ _ h solvent h.gross h.net)
                | inl finite ↦
                    rw finite
                      (elim (Bool-cases (f.is_finite (f.add account.realized_net_pnl net_pnl))) [
                        | inr broken ↦
                            rw broken (netted-IsSound account _ _ _ h solvent finite h.net)
                        | inl fine ↦ rw fine (
                            reduced-IsSound _ order basis _ z
                              (netted-IsSound account _ _ _ h solvent finite fine) b)
                      ])
              ])
      ]

  sell-IsSound :
      (account : PaperAccount F) (order : PaperOrder F) (price gross fee : F)
      → nought ≼ nought
      → IsSound account
      → IsSound (execute_sell account order price gross fee).1
  unfolding execute_sell
  sell-IsSound account order price gross fee z h =
      elim (Bool-cases (f.lt (lookup_or nought order.symbol account.inventory) order.quantity)) [
        | inl short ↦ rw short h
        | inr enough ↦ rw enough (elim (Option-cases (cost_basis account order.symbol)) [
          | inl missing ↦ rw missing h
          | inr (basis, found) ↦
              rw found (close-IsSound account order price gross fee basis z h (rw found refl))
        ])
      ]

  attempt-IsSound :
      (account : PaperAccount F) (order : PaperOrder F) (price : F)
      → nought ≼ nought
      → IsSound account
      → IsSound (attempt account order price).1
  attempt-IsSound account order price z h = elim (Bool-cases (order.side =? buy)) [
    | inl buying ↦ rw buying (buy-IsSound account order _ _ h)
    | inr selling ↦ rw selling (sell-IsSound account order price _ _ z h)
  ]

  pub finish-account :
      (order : PaperOrder F) (price : F) (r : Attempt F) → (finish order price r).1 ≡ r.1
  finish-account order price (ok figures, account) = refl
  finish-account order price (err e, account) = refl

  -- An order leaves a sound account sound, also when it raises.
  execute_order-IsSound :
      (account : PaperAccount F) (order : PaperOrder F)
      → nought ≼ nought
      → IsSound account
      → IsSound (execute_order account order).1
  unfolding execute_order
  execute_order-IsSound account order z h = elim (Outcome-cases (fill_price_of order)) [
    | inr (e, refused) ↦ rw refused h
    | inl (price, filled) ↦
        rw (filled, finish-account order price (attempt account order price))
          (attempt-IsSound account order price z h)
  ]

  -- However an account was opened and whatever orders it was given, also ones that raised, its cash is
  -- finite and not negative, its results are finite, it never touched real capital, and whatever it
  -- holds has a cost basis.
  pub reachable-IsSound :
      (laws : IsOrdered F) {account : PaperAccount F} → IsReachable account → IsSound account
  reachable-IsSound laws (opened cash inventory gross net touched account e) =
      opened-IsSound cash inventory gross net touched e
  reachable-IsSound laws (ordered account order c r) =
      execute_order-IsSound account order (laws.le_of_finite _ laws.nought_finite)
        (reachable-IsSound laws r)
