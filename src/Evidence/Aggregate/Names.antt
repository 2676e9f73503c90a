-- ===== src/Evidence/Aggregate/Names.antt =====
-- The distinct names of a list, sorted: what the families of an aggregation are.
use crypto_research_agent.Common.{
  ◌≡◌, refl, ◌∙◌, String, false, ◌||◌, List, [], ◌∷◌, ◌++◌, arith, inl, inr, contains,
  contains-append, append_unique, IsDistinct, IsDistinct-snoc, string_eq, All, Bool-cases,
}
use crypto_research_agent.Common.Sorting.{insert_by, sort_by}
use crypto_research_agent.Common.TextOrder.{text_before}
use crypto_research_agent.Evidence.Aggregate.{unique_from}

pub contains-unique_from :
    (a : String) (vs out : List String)
    → contains a (unique_from vs out) ≡ (contains a out || contains a vs)
unfolding contains
contains-unique_from a [] out = ground arith
contains-unique_from a (v ∷ vs) out =
    rw (contains-unique_from a vs (append_unique out v))
      (ground (arith, contains-append a out (v ∷ []), string_eq.beq_iff a v))

pub IsDistinct-unique_from :
    (vs out : List String) → IsDistinct out → IsDistinct (unique_from vs out)
IsDistinct-unique_from [] out d = d
IsDistinct-unique_from (v ∷ vs) out d = elim (Bool-cases (contains v out)) [
  | inl e ↦ rw e (IsDistinct-unique_from vs out d)
  | inr e ↦ rw e (IsDistinct-unique_from vs (out ++ v ∷ []) (IsDistinct-snoc out v d e))
]

contains-insert_by :
    (a x : String) (ys : List String)
    → contains a (insert_by text_before x ys) ≡ contains a (x ∷ ys)
unfolding contains
contains-insert_by a x [] = refl
contains-insert_by a x (y ∷ ys) = elim (Bool-cases (text_before y x)) [
  | inl e ↦ rw e (ground (arith, contains-insert_by a x ys))
  | inr e ↦ rw e refl
]

pub contains-sort_by :
    (a : String) (xs : List String) → contains a (sort_by text_before xs) ≡ contains a xs
unfolding contains
contains-sort_by a [] = refl
contains-sort_by a (x ∷ xs) =
    ground (arith, contains-insert_by a x (sort_by text_before xs), contains-sort_by a xs)

IsDistinct-insert_by :
    (x : String) (ys : List String)
    → contains x ys ≡ false
    → IsDistinct ys
    → IsDistinct (insert_by text_before x ys)
unfolding contains
IsDistinct-insert_by x [] e d = (refl, tt)
IsDistinct-insert_by x (y ∷ ys) e (n, d) = elim (Bool-cases (text_before y x)) [
  | inl b ↦ rw b (
    ground (arith, contains-insert_by y x ys, string_eq.beq_iff x y, string_eq.beq_iff y x),
    IsDistinct-insert_by x ys (ground arith) d,
  )
  | inr b ↦ rw b (e, (n, d))
]

pub IsDistinct-sort_by : (xs : List String) → IsDistinct xs → IsDistinct (sort_by text_before xs)
IsDistinct-sort_by [] d = tt
IsDistinct-sort_by (x ∷ xs) (n, d) =
    IsDistinct-insert_by x (sort_by text_before xs) (contains-sort_by x xs ∙ n)
      (IsDistinct-sort_by xs d)

pub All-Unit : (xs : List String) → All (λ _. Unit {0}) xs
All-Unit [] = tt
All-Unit (x ∷ xs) = (tt, All-Unit xs)
