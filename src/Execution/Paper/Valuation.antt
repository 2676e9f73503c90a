-- ===== src/Execution/Paper/Valuation.antt =====
-- The value of a sound account at given prices.
use mathlib.Core.List.{foldl}
use crypto_research_agent.Common.{
  ◌≡◌, refl, String, Bool, true, false, not, ◌&&◌, some, List, [], ◌∷◌, arith, inl, inr,
  if◌then◌else◌, All, keep, is_none, ok, err, validation_error, Bool-cases, Option-cases,
}
use crypto_research_agent.Common.Dict.{Dict, lookup, lookup_or, lookup_or-eq}
use crypto_research_agent.Common.Float.{Float, is_nonneg, is_positive}
use crypto_research_agent.Execution.Paper.{PaperAccount, cost_basis}
use crypto_research_agent.Execution.Paper.Marking.{mark_position, mark_positions, mark_to_market}
use crypto_research_agent.Execution.Paper.Basis.{IsBased, IsSound}

module _ {F : Type 0} ⦃f : Float F⦄ where
  open f use {nought, le, add, sub, mul, is_finite}

  abbrev is_held : String × F → Bool
  is_held e = not (le e.1 nought)

  -- the sum of a figure of the entries that are held
  abbrev pub sum_held : F → (String × F → F) → List (String × F) → F
  sum_held start g entries = foldl (λ total e. add total (g e)) start (keep is_held entries)

  abbrev pub worth : Dict F → String × F → F
  worth prices e = mul e.1 (lookup_or nought e.0 prices)

  abbrev pub gain : PaperAccount F → Dict F → String × F → F
  gain account prices e =
      mul (sub (lookup_or nought e.0 prices) (lookup_or nought e.0 account.average_entry_price)) e.1

  -- Every held symbol has a price that is positive.
  abbrev pub IsPriced : Dict F → String × F → Type 0
  IsPriced prices e =
      le e.1 nought ≡ false
      → (mark : F) × (lookup e.0 prices ≡ some mark) × (is_positive mark ≡ true)

  average_known :
      (account : PaperAccount F) (s : String)
      → is_none (cost_basis account s) ≡ false
      → (price : F) × (lookup s account.average_entry_price ≡ some price)
  unfolding cost_basis
  average_known account s h = elim (Option-cases (lookup s account.average_entry_price)) [
    | inr known ↦ known
    | inl missing ↦ ground arith
  ]

  mark_position_lem :
      (account : PaperAccount F) (prices : Dict F) (s : String) (q value pnl : F)
      → IsBased account (s, q)
      → IsPriced prices (s, q)
      → mark_position account prices s q value pnl ≡ (
          if le q nought
          then ok (value, pnl)
          else ok (add value (worth prices (s, q)), add pnl (gain account prices (s, q))))
  unfolding mark_position
  mark_position_lem account prices s q value pnl b p = elim (Bool-cases (le q nought)) [
    | inl flat ↦ rw flat refl
    | inr held ↦
        let (mark, marked, positive) = p held in
        let (entry, known) = average_known account s (b held) in
        ground (
          arith,
          marked,
          known,
          positive,
          lookup_or-eq nought s prices mark marked,
          lookup_or-eq nought s account.average_entry_price entry known,
        )
  ]

  mark_positions_lem :
      (account : PaperAccount F) (prices : Dict F) (entries : List (String × F)) (value pnl : F)
      → All (IsBased account) entries
      → All (IsPriced prices) entries
      → mark_positions account prices entries value pnl
        ≡ ok (sum_held value (worth prices) entries, sum_held pnl (gain account prices) entries)
  unfolding mark_positions
  mark_positions_lem account prices [] value pnl b p = refl
  mark_positions_lem account prices ((s, q) ∷ entries) value pnl (b, bs) (p, ps) =
      rw (mark_position_lem account prices s q value pnl b p) (elim (Bool-cases (le q nought)) [
        | inl flat ↦ rw flat (mark_positions_lem account prices entries value pnl bs ps)
        | inr held ↦ rw held (mark_positions_lem account prices entries _ _ bs ps)
      ])

  -- A sound account is valued at any positive prices of the symbols that it holds: the inventory is worth
  -- the sum of quantity times price, and the unrealized result is the sum over the held symbols of the
  -- change in price times the quantity. The valuation fails exactly where the worth of the inventory, or
  -- it and the cash together, is negative or not finite, or the unrealized result is not finite.
  pub mark_to_market_lem :
      (account : PaperAccount F) (prices : Dict F)
      → IsSound account
      → All (IsPriced prices) account.inventory
      → let value = sum_held nought (worth prices) account.inventory in
        let pnl = sum_held nought (gain account prices) account.inventory in
        mark_to_market account prices ≡ (
          if is_nonneg value && is_nonneg (add account.cash value) && is_finite pnl
          then ok (record {
            cash = account.cash;
            inventory_value = value;
            equity = add account.cash value;
            realized_gross_pnl = account.realized_gross_pnl;
            realized_net_pnl = account.realized_net_pnl;
            unrealized_gross_pnl = pnl;
            touched_real_capital = false;
          })
          else err (validation_error "PaperMarkToMarket"))
  unfolding mark_to_market
  mark_to_market_lem account prices h p =
      rw (mark_positions_lem account prices account.inventory nought nought h.based p)
        (ground (arith, h.cash, h.gross, h.net))
