-- ===== src/LocalClassification/Totals.antt =====
-- The counts of the buckets add up to the number of elements.
use ps4o.Base.{
  ℕ, zero, suc, ◌+◌, ◌≤◌, ◌<◌, ◌≡◌, refl, ◌∙◌, if◌then◌else◌, ltb, lt→ltb, List, [], ◌∷◌, arith,
  length, All,
}
use ps4o.LocalClassification.Counts.{count}
use ps4o.LocalClassification.Scan.{prefix}

pub count-beyond :
    (num b : ℕ) (oracle : List ℕ) → num ≤ b → All (λ o. o < num) oracle → count b oracle ≡ 0
unfolding count
count-beyond num b [] h a = refl
count-beyond num b (o ∷ oracle) h a = ground (arith, count-beyond num b oracle h a.1)

prefix-count_nil : (j : ℕ) → prefix (λ b. count b []) j ≡ 0
unfolding count prefix
prefix-count_nil zero = refl
prefix-count_nil (suc j) = omega (arith, prefix-count_nil j)

prefix-count_cons :
    (o j : ℕ) (oracle : List ℕ)
    → prefix (λ b. count b (o ∷ oracle)) j
      ≡ (if ltb o j then 1 else 0) + prefix (λ b. count b oracle) j
unfolding count prefix
prefix-count_cons o zero oracle = ground arith
prefix-count_cons o (suc j) oracle = ground (arith, prefix-count_cons o j oracle)

pub prefix-count :
    (num : ℕ) (oracle : List ℕ)
    → All (λ o. o < num) oracle
    → prefix (λ b. count b oracle) num ≡ length oracle
prefix-count num [] a = prefix-count_nil num
prefix-count num (o ∷ oracle) a =
    prefix-count_cons o num oracle
    ∙ rw (lt→ltb o num a.0) (omega (arith, prefix-count num oracle a.1))
