-- ===== src/Partitioning/Grouped.antt =====
-- The buckets of a distribution, one after the other, have the elements that were distributed.
use ps4o.Base.{
  ℕ, zero, suc, ◌+◌, ◌≤◌, ◌<◌, ◌≡◌, refl, true, false, ◌==◌, if◌then◌else◌, List, [], ◌∷◌, ◌++◌,
  arith, length, Perm, All,
}
use mathlib.Core.List.{perm_middle}
use mathlib.Core.List.Perm
use native.Mathlib.Decide.{ℕ_discrete}
use ps4o.Partitioning.Regions.{join_buckets}
use ps4o.Partitioning.Distribute.{pick}

module _ {ℓ} {A : Type ℓ} where
  -- Bucket `o` with an element more in front
  grown : (o : ℕ) (v : A) (f : ℕ → List A) → ℕ → List A
  grown o v f b = (if o == b then v ∷ [] else []) ++ f b

  join_other :
      (rounds k o : ℕ) (v : A) (f : ℕ → List A)
      → o < k
      → join_buckets rounds k (grown o v f) ≡ join_buckets rounds k f
  unfolding grown
  join_other zero k o v f h = refl
  join_other (suc rounds) k o v f h =
      let ne : (o == k) ≡ false = ground arith in
      rw (ne, join_other rounds (suc k) o v f (omega arith))

  join_grown :
      (rounds k o : ℕ) (v : A) (f : ℕ → List A)
      → k ≤ o
      → o < k + rounds
      → Perm (join_buckets rounds k (grown o v f)) (v ∷ join_buckets rounds k f)
  unfolding grown
  join_grown zero k o v f lo hi = absurd (omega arith)
  join_grown (suc rounds) k o v f lo hi = elim (ℕ_discrete o k) [
    | yes e ↦
        let eq : (o == k) ≡ true = ground arith in
        rw (eq, join_other rounds (suc k) o v f (omega arith)) Perm.rfl
    | no n ↦
        let ne : (o == k) ≡ false = ground arith in
        rw ne (
          Perm.trans
            (Perm.append_left (f k) (join_grown rounds (suc k) o v f (omega arith) (omega arith)))
            (perm_middle (f k) (join_buckets rounds (suc k) f)))
  ]

  join_empty : (rounds k : ℕ) (f : ℕ → List A) → ((b : ℕ) → f b ≡ []) → join_buckets rounds k f ≡ []
  join_empty zero k f h = refl
  join_empty (suc rounds) k f h = rw (h k, join_empty rounds (suc k) f h)

  -- With a label below `num` for every value, the buckets one after the other are a permutation of the
  -- values.
  pub join_buckets-perm :
      (num : ℕ) (oracle : List ℕ) (values : List A)
      → length oracle ≡ length values
      → All (λ o. o < num) oracle
      → Perm (join_buckets num 0 (λ b. pick b oracle values)) values
  unfolding pick grown
  join_buckets-perm num [] [] n h = rw (join_empty num 0 (λ b. []) (λ b. refl)) Perm.rfl
  join_buckets-perm num [] (v ∷ values) n h = absurd (omega arith)
  join_buckets-perm num (o ∷ oracle) [] n h = absurd (omega arith)
  join_buckets-perm num (o ∷ oracle) (v ∷ values) n h =
      Perm.trans
        (join_grown num 0 o v (λ b. pick b oracle values) (omega arith) (omega (arith, h.0)))
        (Perm.cons v (join_buckets-perm num oracle values (omega arith) h.1))
