-- ===== src/Risk/Ranking/Best.antt =====
-- The ranking keeps the best of the candidates that are worth it, in order.
use crypto_research_agent.Common.{
  ◌≡◌, refl, sym, ap, subst, ◌∙◌, Bool, true, false, not, ◌||◌, ◌==◌, Option, none, some, List, [],
  ◌∷◌, arith, inl, inr, if◌then◌else◌, take, count_if, All, All-take, All-imply, Bool-cases, ok,
  bind-ok, if_err-ok, if_ok-err, ok_injective, ◌>>=◌,
}
use crypto_research_agent.Common.Int.{ℤ}
use crypto_research_agent.Common.Float.{Float, IsOrdered, ◌≼◌, IsFinite}
use crypto_research_agent.Common.Division.{quotient_of}
use crypto_research_agent.Common.Sorting.{
  sort_by, IsSorted, count_if-sort_by, All-sort_by, sort_by-IsSorted,
}
use crypto_research_agent.Risk.Ranking.{
  RankingCandidate, RankedCandidate, top_of, present, accepts_ranked, coerce_candidate,
  check_ranked, draws_down, score_with, score_funded, score_candidate, ranks_before, score_all,
  rank_candidate_ideas, drawdown_penalty, ranked,
}
use crypto_research_agent.Risk.Ranking.Order.{HasKeys, ranks_before_asym, ranks_before_trans}

module _ {F : Type 0} ⦃f : Float F⦄ where
  open f use {nought, le, lt, is_finite}

  -- The drawdown is not beyond the limit, in proportion to the value.
  abbrev pub IsBearable : F → F → Option F → Type 0
  IsBearable limit value none = Unit
  IsBearable limit value (some drawdown) = lt limit (f.div drawdown value) ≡ false

  -- The ranked candidate pays, can be repeated, and bears its drawdown.
  pub record IsWorthwhile (limit : F) (c : RankedCandidate F) : Type 0 where
    pub pays : le c.expected_net_value_usd nought ≡ false
    pub repeats : le c.repeatability nought ≡ false
    pub bearable : IsBearable limit c.expected_net_value_usd c.max_drawdown_usd
    pub accepted : accepts_ranked c ≡ true

  abbrev AllSome : (RankedCandidate F → Type 0) → Option (RankedCandidate F) → Type 0
  AllSome P none = Unit
  AllSome P (some c) = P c

  quotient_of-ok : (x y : F) {q : F} → quotient_of x y ≡ ok q → f.div x y ≡ q
  unfolding quotient_of
  quotient_of-ok x y h = ok_injective (if_err-ok (f.same y nought) _ (ok (f.div x y)) h).1

  score_with-IsWorthwhile :
      (limit : F) (c : RankingCandidate F) (capital : F) (o : Option (RankedCandidate F))
      → le c.expected_net_value_usd nought ≡ false
      → le c.repeatability nought ≡ false
      → IsBearable limit c.expected_net_value_usd c.max_drawdown_usd
      → score_with c capital ≡ ok o
      → AllSome (IsWorthwhile limit) o
  unfolding score_with check_ranked
  score_with-IsWorthwhile limit c capital o pays repeats bearable h =
      let (efficiency, _, h) = bind-ok (quotient_of c.expected_net_value_usd capital) _ h in
      let (penalty, _, h) = bind-ok (drawdown_penalty c c.max_drawdown_usd) _ h in
      let (r, checked, h) = bind-ok (check_ranked (ranked c capital efficiency penalty)) _ h in
      let (fine, same) =
        if_ok-err (accepts_ranked (ranked c capital efficiency penalty)) _ _ checked in
      subst (AllSome (IsWorthwhile limit)) (ok_injective h) (
        subst (IsWorthwhile limit) same
          (record { pays = pays; repeats = repeats; bearable = bearable; accepted = fine }))

  draws_down-IsBearable :
      (c : RankingCandidate F) (limit : F) (o : Option F)
      → draws_down c limit o ≡ ok false
      → IsBearable limit c.expected_net_value_usd o
  unfolding draws_down
  draws_down-IsBearable c limit none h = tt
  draws_down-IsBearable c limit (some drawdown) h =
      let (r, divided, h) = bind-ok (quotient_of drawdown c.expected_net_value_usd) _ h in
      ap (lt limit) (quotient_of-ok drawdown c.expected_net_value_usd divided) ∙ ok_injective h

  score_funded-IsWorthwhile :
      (limit : F) (c : RankingCandidate F) (capital : Option F) (o : Option (RankedCandidate F))
      → le c.expected_net_value_usd nought ≡ false
      → le c.repeatability nought ≡ false
      → score_funded c limit capital ≡ ok o
      → AllSome (IsWorthwhile limit) o
  unfolding score_funded
  score_funded-IsWorthwhile limit c none o pays repeats h =
      subst (AllSome (IsWorthwhile limit)) (ok_injective h) tt
  score_funded-IsWorthwhile limit c (some capital) o pays repeats h =
      let (beyond, drawn, h) = bind-ok (draws_down c limit c.max_drawdown_usd) _ h in
      beyond_or_scored beyond drawn h
    where
      beyond_or_scored :
          (beyond : Bool)
          → draws_down c limit c.max_drawdown_usd ≡ ok beyond
          → (if beyond then ok none else score_with c capital) ≡ ok o
          → AllSome (IsWorthwhile limit) o
      beyond_or_scored true drawn h = subst (AllSome (IsWorthwhile limit)) (ok_injective h) tt
      beyond_or_scored false drawn h =
          score_with-IsWorthwhile limit c capital o pays repeats
            (draws_down-IsBearable c limit c.max_drawdown_usd drawn) h

  score_candidate-IsWorthwhile :
      (limit : F) (c : RankingCandidate F) (o : Option (RankedCandidate F))
      → score_candidate limit c ≡ ok o
      → AllSome (IsWorthwhile limit) o
  unfolding score_candidate
  score_candidate-IsWorthwhile limit c o h =
      elim (Bool-cases
        (not c.feasible || le c.expected_net_value_usd nought || le c.repeatability nought)) [
          | inl e ↦
              let skipped : ok none ≡ ok o = sym (rw e refl) ∙ h in
              subst (AllSome (IsWorthwhile limit)) (ok_injective skipped) tt
          | inr e ↦
              score_funded-IsWorthwhile limit c c.capital_required_usd o (ground arith)
                (ground arith) (sym (rw e refl) ∙ h)
        ]

  score_all-IsWorthwhile :
      (limit : F) (candidates : List (RankingCandidate F))
      (scored : List (Option (RankedCandidate F)))
      → score_all limit candidates ≡ ok scored
      → All (IsWorthwhile limit) (present scored)
  score_all-IsWorthwhile limit [] scored h =
      subst (λ l. All (IsWorthwhile limit) (present l)) (ok_injective h) tt
  score_all-IsWorthwhile limit (c ∷ candidates) scored h =
      let (o, one, h) = bind-ok (coerce_candidate c >>= score_candidate limit) _ h in
      let (os, more, h) = bind-ok (score_all limit candidates) _ h in
      let (coerced, _, one) = bind-ok (coerce_candidate c) (score_candidate limit) one in
      subst (λ l. All (IsWorthwhile limit) (present l)) (ok_injective h)
        (All-present o os (score_candidate-IsWorthwhile limit coerced o one)
          (score_all-IsWorthwhile limit candidates os more))
    where
      All-present :
          (o : Option (RankedCandidate F)) (os : List (Option (RankedCandidate F)))
          → AllSome (IsWorthwhile limit) o
          → All (IsWorthwhile limit) (present os)
          → All (IsWorthwhile limit) (present (o ∷ os))
      All-present none os p h = h
      All-present (some r) os p h = (p, h)

  HasKeys-IsWorthwhile :
      (laws : IsOrdered F) (limit : F) (c : RankedCandidate F) → IsWorthwhile limit c → HasKeys c
  HasKeys-IsWorthwhile laws limit c w =
      let number : (x : F) → IsFinite x → f.neg x ≼ f.neg x =
        λ x p. laws.le_of_finite (f.neg x) (laws.neg_finite x p) in
      let fine = w.accepted in
      (
        number c.score (ground arith),
        (
          number c.expected_net_value_usd (ground arith),
          (
            number c.confidence (ground arith),
            (
              number c.repeatability (ground arith),
              (number c.capital_efficiency (ground arith), tt),
            ),
          ),
        ),
      )

  -- A ranking of more than no candidates that ends with a result has scored all candidates. The result is
  -- a front part, of the length asked for, of a list that has the same scored candidates as often, and in
  -- which none stands after one that it ranks before. Each of the result has a positive value and
  -- repeatability, and bears its drawdown.
  pub rank_candidate_ideas-IsSorted :
      (laws : IsOrdered F) (candidates : List (RankingCandidate F)) (top_n : ℤ) (limit : F)
      {r : List (RankedCandidate F)}
      → (top_of top_n == 0) ≡ false
      → rank_candidate_ideas candidates top_n limit ≡ ok r
      → (scored : List (Option (RankedCandidate F))) × (sorted : List (RankedCandidate F))
        × (score_all limit candidates ≡ ok scored)
        × (r ≡ take (top_of top_n) sorted)
        × ((p : RankedCandidate F → Bool) → count_if p sorted ≡ count_if p (present scored))
        × IsSorted ranks_before sorted
        × All (IsWorthwhile limit) r
  unfolding rank_candidate_ideas
  rank_candidate_ideas-IsSorted laws candidates top_n limit {r = r} some_asked h =
      let (_, h) = if_err-ok (not (is_finite limit) || lt limit nought) _ _ h in
      let asked : (score_all limit candidates >>= λ scored.
      ok (take (top_of top_n) (sort_by ranks_before (present scored))))
          ≡ ok r =
        sym (rw some_asked refl) ∙ h in
      let (scored, found, h) = bind-ok (score_all limit candidates) _ asked in
      let same = ok_injective h in
      let worthwhile = score_all-IsWorthwhile limit candidates scored found in
      let keyed =
        All-imply (IsWorthwhile limit) HasKeys (present scored) (HasKeys-IsWorthwhile laws limit)
          worthwhile in
      (
        scored,
        sort_by ranks_before (present scored),
        found,
        sym same,
        λ p. count_if-sort_by ranks_before p (present scored),
        sort_by-IsSorted ranks_before (HasKeys) (ranks_before_asym laws) (ranks_before_trans laws)
            (present scored) keyed,
        subst (All (IsWorthwhile limit)) same (
            All-take (IsWorthwhile limit) (top_of top_n) _
              (All-sort_by ranks_before (IsWorthwhile limit) (present scored) worthwhile)),
      )
