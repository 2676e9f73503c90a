-- ===== src/Risk/Ranking/Order.antt =====
-- The order of the ranking is a strict weak order on candidates whose keys are numbers.
use crypto_research_agent.Common.{◌≡◌, refl, Bool, true, false, List, [], ◌∷◌, arith, All, length}
use crypto_research_agent.Common.Float.{Float, IsOrdered, ◌≼◌}
use crypto_research_agent.Common.TextOrder.{text_before_asym, text_before_trans}
use crypto_research_agent.Risk.Ranking.{RankedCandidate, keys_of, keys_before, ranks_before}

module _ {F : Type 0} ⦃f : Float F⦄ where
  -- the keys of a candidate are not NaN
  abbrev pub HasKeys : RankedCandidate F → Type 0
  HasKeys c = All (λ x. x ≼ x) (keys_of c)

module _ {F : Type 0} ⦃f : Float F⦄ (laws : IsOrdered F) where
  keys_before_asym :
      (xs ys : List F) (r q : Bool)
      → All (λ x. x ≼ x) xs
      → All (λ x. x ≼ x) ys
      → length xs ≡ length ys
      → (r ≡ true → q ≡ false)
      → keys_before xs ys r ≡ true
      → keys_before ys xs q ≡ false
  unfolding keys_before
  keys_before_asym [] [] r q a b n h e = h e
  keys_before_asym [] (y ∷ ys) r q a b n h e = absurd (omega (arith, n))
  keys_before_asym (x ∷ xs) [] r q a b n h e = absurd (omega (arith, n))
  keys_before_asym (x ∷ xs) (y ∷ ys) r q (c, a) (d, b) n h e =
      let rest = keys_before_asym xs ys r q a b (omega (arith, n)) h in
      ground (
        arith,
        rest,
        laws.same_number x y c d,
        laws.same_number y x d c,
        laws.lt_number x y c d,
        laws.lt_number y x d c,
        laws.le_total_number x y c d,
      )

  keys_before_trans :
      (xs ys zs : List F) (q r s : Bool)
      → All (λ x. x ≼ x) xs
      → All (λ x. x ≼ x) ys
      → All (λ x. x ≼ x) zs
      → length xs ≡ length ys
      → length ys ≡ length zs
      → (q ≡ false → r ≡ false → s ≡ false)
      → keys_before ys xs q ≡ false
      → keys_before zs ys r ≡ false
      → keys_before zs xs s ≡ false
  unfolding keys_before
  keys_before_trans [] [] [] q r s a b c m n h e g = h e g
  keys_before_trans [] [] (z ∷ zs) q r s a b c m n h e g = absurd (omega (arith, n))
  keys_before_trans [] (y ∷ ys) zs q r s a b c m n h e g = absurd (omega (arith, m))
  keys_before_trans (x ∷ xs) [] zs q r s a b c m n h e g = absurd (omega (arith, m))
  keys_before_trans (x ∷ xs) (y ∷ ys) [] q r s a b c m n h e g = absurd (omega (arith, n))
  keys_before_trans (x ∷ xs) (y ∷ ys) (z ∷ zs) q r s (i, a) (j, b) (k, c) m n h e g =
      let rest = keys_before_trans xs ys zs q r s a b c (omega (arith, m)) (omega (arith, n)) h in
      ground (
        arith,
        rest,
        laws.same_number y x j i,
        laws.same_number z y k j,
        laws.same_number z x k i,
        laws.lt_number y x j i,
        laws.lt_number z y k j,
        laws.lt_number z x k i,
        laws.le_trans x y z,
        laws.le_trans z y x,
        laws.le_trans y z x,
        laws.le_trans x z y,
        laws.le_trans y x z,
        laws.le_trans z x y,
      )

  pub ranks_before_asym :
      (a b : RankedCandidate F)
      → HasKeys a
      → HasKeys b
      → ranks_before a b ≡ true
      → ranks_before b a ≡ false
  unfolding ranks_before
  ranks_before_asym a b p q =
      keys_before_asym (keys_of a) (keys_of b) _ _ p q refl (text_before_asym a.idea_id b.idea_id)

  pub ranks_before_trans :
      (a b c : RankedCandidate F)
      → HasKeys a
      → HasKeys b
      → HasKeys c
      → ranks_before b a ≡ false
      → ranks_before c b ≡ false
      → ranks_before c a ≡ false
  unfolding ranks_before
  ranks_before_trans a b c p q r =
      keys_before_trans (keys_of a) (keys_of b) (keys_of c) _ _ _ p q r refl refl
        (text_before_trans a.idea_id b.idea_id c.idea_id)
