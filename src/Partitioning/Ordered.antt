-- ===== src/Partitioning/Ordered.antt =====
-- The buckets of a step, each in order, make an ordered range.
use ps4o.Base.{
  Bool-cases, inl, inr, ℕ, zero, suc, ◌<◌, ◌≡◌, refl, ap, ◌∙◌, Bool, true, false, ltb, ltb→lt, ◌==◌,
  List, [], ◌∷◌, map, Perm, arith, length, length-append, All, All-append, All-map, IsSorted,
  IsSorted-append,
}
use mathlib.Core.List.Perm
use ps4o.LocalClassification.Counts.{count}
use ps4o.LocalClassification.Scan.{prefix}
use ps4o.Partitioning.Distribute.{pick}
use ps4o.Partitioning.Regions.{join_buckets}
use ps4o.Partitioning.Settle.{join_snoc}

module _ {ℓ} {A : Type ℓ} where
  length-pick :
      (b : ℕ) (oracle : List ℕ) (values : List A)
      → length oracle ≡ length values
      → length (pick b oracle values) ≡ count b oracle
  unfolding pick count
  length-pick b [] values h = refl
  length-pick b (o ∷ oracle) [] h = absurd (omega arith)
  length-pick b (o ∷ oracle) (v ∷ values) h = ground (arith, length-pick b oracle values)

  pub length-join_buckets :
      (j : ℕ) (oracle : List ℕ) (values : List A)
      → length oracle ≡ length values
      → length (join_buckets j 0 (λ b. pick b oracle values)) ≡ prefix (λ b. count b oracle) j
  unfolding prefix
  length-join_buckets zero oracle values h = refl
  length-join_buckets (suc j) oracle values h =
      ap length (join_snoc j 0 j (λ b. pick b oracle values) (omega arith))
      ∙ length-append (join_buckets j 0 (λ b. pick b oracle values)) (pick j oracle values)
      ∙ omega (arith, length-join_buckets j oracle values h, length-pick j oracle values h)

  pub join_buckets-cong :
      (rounds k : ℕ) (f g : ℕ → List A)
      → ((j : ℕ) → Perm (g j) (f j))
      → Perm (join_buckets rounds k g) (join_buckets rounds k f)
  join_buckets-cong zero k f g h = Perm.rfl
  join_buckets-cong (suc rounds) k f g h =
      Perm.append (h k) (join_buckets-cong rounds (suc k) f g h)

  module _ (key : A → ℕ) where
    pub pick-key :
        (j : ℕ) (values : List A) → All (λ x. (key x == j) ≡ true) (pick j (map key values) values)
    unfolding pick
    pick-key j [] = tt
    pick-key j (v ∷ values) = elim (Bool-cases (key v == j)) [
      | inl e ↦ rw e (e, pick-key j values)
      | inr e ↦ rw e (pick-key j values)
    ]

    module _ (comp : A → A → Bool) (ordered : (x y : A) → key x < key y → comp y x ≡ false)
        (g : ℕ → List A) (keys : (j : ℕ) → All (λ x. (key x == j) ≡ true) (g j))
        (sorted : (j : ℕ) → IsSorted comp (g j)) where
      later : (rounds k m : ℕ) → m < k → All (λ y. ltb m (key y) ≡ true) (join_buckets rounds k g)
      later zero k m lt = tt
      later (suc rounds) k m lt =
          All-append _ (g k) (join_buckets rounds (suc k) g)
            (All-map _ _ (λ y e. ground arith) (g k) (keys k))
            (later rounds (suc k) m (omega arith))

      pub IsSorted-join_buckets : (rounds k : ℕ) → IsSorted comp (join_buckets rounds k g)
      IsSorted-join_buckets zero k = tt
      IsSorted-join_buckets (suc rounds) k =
          IsSorted-append comp (g k) (join_buckets rounds (suc k) g) (sorted k)
            (IsSorted-join_buckets rounds (suc k))
            (All-map _ _
              (λ x e.
                All-map _ _ (λ y lt. ordered x y (ground (arith, ltb→lt k (key y))))
                  (join_buckets rounds (suc k) g) (later rounds (suc k) k (omega arith)))
              (g k) (keys k))
