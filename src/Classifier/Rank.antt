-- ===== src/Classifier/Rank.antt =====
-- What a bucket is: the number of splitters that come before a value, and with equality buckets one
-- more digit for the values that are not before the next splitter.
use ps4o.Base.{
  ℕ, zero, suc, ◌+◌, ◌*◌, ◌≤◌, ◌<◌, ◌≡◌, refl, Bool, true, false, not, bit, Bool-cases, inl, inr,
  if◌then◌else◌, Option, none, some, List, [], ◌∷◌, arith, length, get_elem?, get_elem?-some,
  IsStrictWeak, IsBelow, IsSorted, lt-le_trans, le-lt_trans,
}
use native.Mathlib.Decide.{ℕ_discrete}

module _ {ℓ} {A : Type ℓ} (comp : A → A → Bool) where
  -- The splitters before `v`
  unfoldable pub rank : List A → A → ℕ
  rank [] v = 0
  rank (x ∷ s) v = bit (comp x v) + rank s v

  -- The digit of an equality bucket, at the splitter after those before `v`
  unfoldable pub equal_digit : Option A → A → ℕ
  equal_digit none v = 1
  equal_digit (some x) v = bit (not (comp v x))

  unfoldable pub bucket_of : (equal_buckets : Bool) (s : List A) (v : A) → ℕ
  bucket_of equal_buckets s v =
      let r = rank s v in if equal_buckets then 2 * r + equal_digit (get_elem? s r) v else r

  module _ (s : List A) (v : A) where
    -- All splitters below index `r` come before `v`; no splitter from `r` on does.
    abbrev pub Low : ℕ → Type ℓ
    Low r = (i : ℕ) (x : A) → i < r → get_elem? s i ≡ some x → comp x v ≡ true

    abbrev pub High : ℕ → Type ℓ
    High r = (i : ℕ) (x : A) → r ≤ i → get_elem? s i ≡ some x → comp x v ≡ false

  pub rank-eq : (s : List A) (v : A) (r : ℕ) → r ≤ length s → Low s v r → High s v r → rank s v ≡ r
  unfolding rank
  rank-eq [] v r h lo hi = omega arith
  rank-eq (x ∷ s) v zero h lo hi = rw (hi 0 x (omega arith) refl) (
      omega (
        arith,
        rank-eq s v 0 (omega arith) (λ i y p. absurd (omega arith))
            (λ i y p e. hi (suc i) y (omega arith) e),
      ))
  rank-eq (x ∷ s) v (suc r) h lo hi = rw (lo 0 x (omega arith) refl) (
      omega (
        arith,
        rank-eq s v r (omega arith) (λ i y p e. lo (suc i) y (omega arith) e)
            (λ i y p e. hi (suc i) y (omega arith) e),
      ))

  pub rank-le : (s : List A) (v : A) → rank s v ≤ length s
  unfolding rank
  rank-le [] v = omega arith
  rank-le (x ∷ s) v = ground (arith, rank-le s v)

  IsBelow-get :
      (x : A) (s : List A)
      → IsBelow comp x s
      → (i : ℕ) (y : A) → get_elem? s i ≡ some y
      → comp y x ≡ false
  IsBelow-get x [] h i y e = cc
  IsBelow-get x (z ∷ s) h zero y e = ground arith
  IsBelow-get x (z ∷ s) h (suc i) y e = IsBelow-get x s h.1 i y e

  pub IsSorted-get :
      (s : List A)
      → IsSorted comp s
      → (i j : ℕ) (x y : A) → i < j
      → get_elem? s i ≡ some x
      → get_elem? s j ≡ some y
      → comp y x ≡ false
  IsSorted-get [] h i j x y lt p q = cc
  IsSorted-get (z ∷ s) h i zero x y lt p q = absurd (omega arith)
  IsSorted-get (z ∷ s) h zero (suc j) x y lt p q = IsBelow-get x s (ground arith) j y q
  IsSorted-get (z ∷ s) h (suc i) (suc j) x y lt p q = IsSorted-get s h.1 i j x y (omega arith) p q

  module _ (w : IsStrictWeak comp) where
    all_high : (x : A) (s : List A) (v : A) → IsBelow comp x s → comp x v ≡ false → rank s v ≡ 0
    unfolding rank
    all_high x [] v h e = refl
    all_high x (y ∷ s) v h e = rw (w.le_trans v x y e h.0) (omega (arith, all_high x s v h.1 e))

    -- In ascending splitters the rank separates those before `v` from the rest.
    pub Low-rank : (s : List A) (v : A) → IsSorted comp s → Low s v (rank s v)
    unfolding rank
    Low-rank [] v h i x lt e = cc
    Low-rank (y ∷ s) v h i x lt e = elim (Bool-cases (comp y v)) [
      | inl p ↦ step i lt e p (Low-rank s v h.1)
      | inr p ↦ absurd (none_low p)
    ]
      where
        step :
            (i : ℕ)
            → i < bit (comp y v) + rank s v
            → get_elem? (y ∷ s) i ≡ some x
            → comp y v ≡ true
            → Low s v (rank s v)
            → comp x v ≡ true
        step zero lt e p ih = ground arith
        step (suc i) lt e p ih = ih i x (ground arith) e

        none_low : comp y v ≡ false → ⊥
        none_low p = ground (arith, all_high y s v h.0 p)

    pub High-rank : (s : List A) (v : A) → IsSorted comp s → High s v (rank s v)
    unfolding rank
    High-rank [] v h i x le e = cc
    High-rank (y ∷ s) v h zero x le e = ground arith
    High-rank (y ∷ s) v h (suc i) x le e =
        High-rank s v h.1 i x (ground (arith, all_high y s v h.0)) e

    -- A value with more splitters before it is larger.
    rank-order : (s : List A) (a b : A) → IsSorted comp s → rank s a < rank s b → comp a b ≡ true
    rank-order s a b h lt =
        let (x, e) = get_elem?-some s (rank s a) (omega (arith, rank-le s b)) in
        le-lt_trans w a x b (High-rank s a h (rank s a) x (omega arith) e)
          (Low-rank s b h (rank s a) x lt e)

    digit-order :
        (o : Option A) (a b : A)
        → ((x : A) → o ≡ some x → comp x a ≡ false)
        → equal_digit o a < equal_digit o b
        → comp a b ≡ true
    unfolding equal_digit
    digit-order none a b h lt = absurd (omega arith)
    digit-order (some x) a b h lt = lt-le_trans w a x b (ground arith) (ground arith)

    equal_digit-le : (o : Option A) (a : A) → equal_digit o a ≤ 1
    unfolding equal_digit
    equal_digit-le none a = omega arith
    equal_digit-le (some x) a = ground arith

    -- A value in a later bucket is larger, whether or not there are equality buckets.
    pub bucket-order :
        (equal_buckets : Bool) (s : List A) (a b : A)
        → IsSorted comp s
        → bucket_of equal_buckets s a < bucket_of equal_buckets s b
        → comp a b ≡ true
    unfolding bucket_of
    bucket-order false s a b h lt = rank-order s a b h lt
    bucket-order true s a b h lt = elim (ℕ_discrete (rank s a) (rank s b)) [
      | yes e ↦
          digit-order (get_elem? s (rank s a)) a b
            (λ x p. High-rank s a h (rank s a) x (omega arith) p)
            (let lt' : 2 * rank s a + equal_digit (get_elem? s (rank s a)) a
                  < 2 * rank s a + equal_digit (get_elem? s (rank s a)) b =
                rw (← e) at lt in
              omega arith)
      | no ne ↦ rank-order s a b h (
          omega (
            arith,
            equal_digit-le (get_elem? s (rank s a)) a,
            equal_digit-le (get_elem? s (rank s b)) b,
          ))
    ]

    digit_one : (x a : A) → equal_digit (some x) a ≡ 1 → comp a x ≡ false
    unfolding equal_digit
    digit_one x a h = ground arith

    -- A value in the equality bucket of splitter `x`, number `r`, is equal to `x`.
    in_equal_bucket :
        (s : List A) (a x : A) (r : ℕ)
        → IsSorted comp s
        → get_elem? s r ≡ some x
        → bucket_of true s a ≡ 2 * r + 1
        → (comp a x ≡ false) × (comp x a ≡ false)
    unfolding bucket_of
    in_equal_bucket s a x r h e q =
        let same : rank s a ≡ r = omega (arith, equal_digit-le (get_elem? s (rank s a)) a) in
        let one : equal_digit (get_elem? s (rank s a)) a ≡ 1 = omega arith in
        (digit_one x a (rw (same, e) at one), High-rank s a h r x (omega arith) e)

    -- All elements of an equality bucket but the last are equal.
    pub bucket-equal :
        (s : List A) (a b : A) (r : ℕ)
        → IsSorted comp s
        → r < length s
        → bucket_of true s a ≡ 2 * r + 1
        → bucket_of true s b ≡ 2 * r + 1
        → (comp a b ≡ false) × (comp b a ≡ false)
    bucket-equal s a b r h lt ea eb =
        let (x, e) = get_elem?-some s r lt in
        let (ax, xa) = in_equal_bucket s a x r h e ea in
        let (bx, xb) = in_equal_bucket s b x r h e eb in
        (w.le_trans b x a xb ax, w.le_trans a x b xa bx)

    pub bucket_of-lt :
        (equal_buckets : Bool) (s : List A) (a : A)
        → bucket_of equal_buckets s a < (suc (length s)) * (1 + bit equal_buckets)
    unfolding bucket_of
    bucket_of-lt false s a = omega (arith, rank-le s a)
    bucket_of-lt true s a = omega (arith, rank-le s a, equal_digit-le (get_elem? s (rank s a)) a)
