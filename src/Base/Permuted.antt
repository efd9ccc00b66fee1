-- ===== src/Base/Permuted.antt =====
-- What a permutation keeps: the length, and a test that holds of every element.
use Prim.Native.Nat.{ℕ, suc}
use mathlib.Core.Path.{◌≡◌, refl, sym, ap, ◌∙◌}
use mathlib.Core.Bool.{Bool, true, false, ◌&&◌, Bool-set}
use mathlib.Core.List.{List, [], ◌∷◌, ◌++◌, foldr, Perm}
use mathlib.Core.List.Perm
use native.Mathlib.Nat.{ℕ_set}
use native.Mathlib.Omega.{arith}
use ps4o.Base.Lists.{length}
use ps4o.Base.Order.{All, All-append, IsBelow, IsSorted}

module _ {ℓ} {A : Type ℓ} where
  length-foldr : (l : List A) → length l ≡ foldr (λ (x : A) (n : ℕ). suc n) 0 l
  length-foldr [] = refl
  length-foldr (x ∷ l) = ap suc (length-foldr l)

  pub length-perm : {l m : List A} → Perm l m → length l ≡ length m
  length-perm {l} {m} p =
      length-foldr l
      ∙ Perm.foldr-eq ℕ_set (λ (x : A) (n : ℕ). suc n) (λ a b n. refl) p 0
      ∙ sym (length-foldr m)

  module _ (test : A → Bool) where
    and_comm : (a b : A) (c : Bool) → (test a && (test b && c)) ≡ (test b && (test a && c))
    and_comm a b c = go (test a) (test b) c
      where
        go : (x y z : Bool) → (x && (y && z)) ≡ (y && (x && z))
        go true y z = refl
        go false true z = refl
        go false false z = refl

    every : List A → Bool
    every l = foldr (λ (x : A) (b : Bool). test x && b) true l

    every-All : (l : List A) → every l ≡ true → All (λ x. test x ≡ true) l
    unfolding every
    every-All [] h = tt
    every-All (x ∷ l) h = let e : test x ≡ true = ground arith in (e, every-All l (ground arith))

    All-every : (l : List A) → All (λ x. test x ≡ true) l → every l ≡ true
    unfolding every
    All-every [] h = refl
    All-every (x ∷ l) h = rw (h.0, All-every l h.1) refl

    pub All-perm :
        {l m : List A} → Perm l m → All (λ x. test x ≡ true) m → All (λ x. test x ≡ true) l
    unfolding every
    All-perm {l} {m} p h =
        every-All l (
          Perm.foldr-eq Bool-set (λ (x : A) (b : Bool). test x && b) and_comm p true
          ∙ All-every m h)

  pub IsSorted-append :
      (comp : A → A → Bool) (l m : List A)
      → IsSorted comp l
      → IsSorted comp m
      → All (λ x. IsBelow comp x m) l
      → IsSorted comp (l ++ m)
  IsSorted-append comp [] m h k b = k
  IsSorted-append comp (x ∷ l) m h k b =
      (All-append _ l m h.0 b.0, IsSorted-append comp l m h.1 k b.1)
