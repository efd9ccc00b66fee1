-- ===== src/Base/Tally.antt =====
-- Sums of a number over the elements of a list: how many elements are of a kind.
use Prim.Native.Nat.{ℕ, zero, suc, ◌+◌, ◌≤◌, ◌<◌}
use mathlib.Core.Path.{◌≡◌, refl, ap}
use mathlib.Core.Option.{some, some-injective}
use mathlib.Core.List.{List, [], ◌∷◌}
use native.Mathlib.Omega.{arith}
use native.Mathlib.Decide.{ℕ_discrete}
use ps4o.Base.Lists.{length, get_elem?, store, replicate, cons?-eq-some}

module _ {ℓ} {A : Type ℓ} where
  unfoldable pub tally : (A → ℕ) → List A → ℕ
  tally k [] = 0
  tally k (x ∷ xs) = k x + tally k xs

  pub tally-store :
      (k : A → ℕ) (a b : List A) (i : ℕ) (x y : A)
      → get_elem? a i ≡ some x
      → store a i y ≡ some b
      → tally k b + k x ≡ tally k a + k y
  unfolding tally
  tally-store k [] b i x y h e = cc
  tally-store k (z ∷ a) b zero x y h e =
      let same : z ≡ x = some-injective _ _ h in
      let all : y ∷ a ≡ b = some-injective _ _ e in omega (arith, ap k same, ap (tally k) all)
  tally-store k (z ∷ a) b (suc i) x y h e =
      let (c, ec, f) = cons?-eq-some z (store a i y) e in
      omega (arith, ap (tally k) f, tally-store k a c i x y h ec)

  pub tally-ge : (k : A → ℕ) (a : List A) (i : ℕ) (x : A) → get_elem? a i ≡ some x → k x ≤ tally k a
  unfolding tally
  tally-ge k [] i x h = cc
  tally-ge k (z ∷ a) zero x h = omega (arith, ap k (some-injective z x h))
  tally-ge k (z ∷ a) (suc i) x h = omega (arith, tally-ge k a i x h)

  pub tally-replicate : (k : A → ℕ) (n : ℕ) (x : A) → k x ≡ 0 → tally k (replicate n x) ≡ 0
  unfolding tally
  tally-replicate k zero x h = refl
  tally-replicate k (suc n) x h = omega (arith, tally-replicate k n x h)

  -- A tally that is not 0 counts some element.
  pub tally-find :
      (k : A → ℕ) (a : List A)
      → 0 < tally k a
      → (i : ℕ) × (x : A) × (get_elem? a i ≡ some x) × (0 < k x)
  unfolding tally
  tally-find k [] h = absurd (omega arith)
  tally-find k (z ∷ a) h = elim (ℕ_discrete (k z) 0) [
    | yes e ↦ let (i, x, g, pos) = tally-find k a (omega arith) in (suc i, x, g, pos)
    | no ne ↦ (zero, z, refl, omega arith)
  ]

  -- Kinds of which every element has one in all share the elements out.
  pub tally-add :
      (f g h : A → ℕ) (a : List A) → ((x : A) → f x + g x ≡ h x) → tally f a + tally g a ≡ tally h a
  unfolding tally
  tally-add f g h [] e = refl
  tally-add f g h (x ∷ a) e = omega (arith, e x, tally-add f g h a e)

  pub tally_one : (a : List A) → tally (λ x. 1) a ≡ length a
  unfolding tally
  tally_one [] = refl
  tally_one (x ∷ a) = omega (arith, tally_one a)

  pub tally_mono : (f g : A → ℕ) (a : List A) → ((x : A) → f x ≤ g x) → tally f a ≤ tally g a
  unfolding tally
  tally_mono f g [] e = omega arith
  tally_mono f g (x ∷ a) e = omega (arith, e x, tally_mono f g a e)

  -- Two kinds of which no element has both
  pub tally-add-le :
      (f g : A → ℕ) (a : List A) → ((x : A) → f x + g x ≤ 1) → tally f a + tally g a ≤ length a
  unfolding tally
  tally-add-le f g [] e = omega arith
  tally-add-le f g (x ∷ a) e = omega (arith, e x, tally-add-le f g a e)
