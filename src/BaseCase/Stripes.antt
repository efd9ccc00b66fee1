-- ===== src/BaseCase/Stripes.antt =====
-- `is_sorted`: the stripes of the threads overlap by one element, so that together they hold every
-- neighbouring pair.
use ps4o.Base.{
  stripe-cover, tile, pos_of_cover, thread_of, ℕ, zero, suc, ◌+◌, ◌-◌, ◌*◌, ◌/◌, ◌<◌, min, ◌≡◌,
  refl, ◌↔◌, Bool, true, false, inl, inr, Bool-cases, ◌==◌, ◌≤◌, ◌≢◌, ◌∙◌, [], ◌∷◌, List, arith,
  length, get_elem?-lt, IsStrictWeak, IsSorted,
}
use ps4o.BaseCase.{
  Access, load_word, store_word, Flags, no_flags, all_flags, stripe_sorted, access, accesses,
  is_sorted,
}
use ps4o.BaseCase.Neighbours.{
  NoDescent, is_sorted_range→NoDescent, NoDescent→is_sorted_range, ascending_of_check,
  IsSorted→is_sorted_range, stripe_NoDescent, stripe_sorted_of_NoDescent,
}
use native.Mathlib.Decide.{dec_lt, ℕ_discrete}

all_flags-true :
    (ids : ℕ) (flags : ℕ → Bool) → all_flags ids flags ≡ true → (i : ℕ) → i < ids → flags i ≡ true
unfolding all_flags
all_flags-true zero flags h i lt = absurd (omega arith)
all_flags-true (suc ids) flags h i lt = elim (dec_lt i ids) [
  | yes p ↦ all_flags-true ids flags (ground arith) i p
  | no q ↦ let e : i ≡ ids = omega arith in rw e (ground arith)
]

true-all_flags :
    (ids : ℕ) (flags : ℕ → Bool) → ((i : ℕ) → i < ids → flags i ≡ true) → all_flags ids flags ≡ true
unfolding all_flags
true-all_flags zero flags h = refl
true-all_flags (suc ids) flags h =
    rw (h ids (omega arith)) (true-all_flags ids flags (λ i lt. h i (omega arith)))

-- The threads from `i` on write their flags one after the other.
unfoldable pub in_turn : (rounds i : ℕ) → List Access
in_turn zero i = []
in_turn (suc rounds) i = load_word i ∷ store_word i ∷ in_turn rounds (suc i)

module _ {ℓ} {A : Type ℓ} (comp : A → A → Bool) where
  stripe_sorted_intro :
      (n i : ℕ) (a : List A) → ((k : ℕ) → NoDescent comp a k) → stripe_sorted comp n i a ≡ true
  unfolding stripe_sorted
  stripe_sorted_intro n i a h = stripe_sorted_of_NoDescent comp a _ _ h

  -- The pair at `k` is in the stripe of thread `k / stripe`.
  NoDescent-stripe :
      (n : ℕ) (a : List A) (k : ℕ)
      → 0 < n
      → suc k < length a
      → stripe_sorted comp n (k / ((length a + n - 1) / n)) a ≡ true
      → NoDescent comp a k
  unfolding stripe_sorted
  NoDescent-stripe n a k h lt e =
      let s : ℕ = (length a + n - 1) / n in
      let i : ℕ = k / s in
      let begin : ℕ = min (s * i) (length a) in
      let end : ℕ = min (s * (i + 1) + 1) (length a) in
      let pos : 0 < s = pos_of_cover n s (length a) (omega arith) (stripe-cover n (length a) h) in
      stripe_NoDescent comp a begin (end - begin) (k - begin) k e (omega (arith, tile k s pos))
        (omega (arith, tile k s pos))

  module _ (bits n : ℕ) (a : List A) where
    -- No flag is set without its thread having found its stripe sorted.
    record IsHonest (s : Flags) : Type 0 where
      flag : (i : ℕ) → s.flags i ≡ true → stripe_sorted comp n i a ≡ true
      copy : (i j : ℕ) → s.copies i j ≡ true → stripe_sorted comp n j a ≡ true

    access-IsHonest : (x : Access) (s : Flags) → IsHonest s → IsHonest (access comp bits n a x s)
    unfolding access
    access-IsHonest (load_word i) s h = record {
      flag = h.flag;
      copy = λ k j. elim (ℕ_discrete k i) [
        | yes e ↦ let same : (k == i) ≡ true = ground arith in rw same (h.flag j)
        | no ne ↦ let other : (k == i) ≡ false = ground arith in rw other (h.copy k j)
      ];
    }
    access-IsHonest (store_word i) s h = record {
      flag = λ k. elim (ℕ_discrete k i) [
        | yes e ↦ let same : (k == i) ≡ true = ground arith in rw same (λ t. rw e t)
        | no ne ↦
            let other : (k == i) ≡ false = ground arith in
            elim (Bool-cases (k / bits == i / bits)) [
              | inl word ↦ rw (other, word) (h.copy i k)
              | inr word ↦ rw (other, word) (h.flag k)
            ]
      ];
      copy = h.copy;
    }

    accesses-IsHonest :
        (schedule : List Access) (s : Flags)
        → IsHonest s
        → IsHonest (accesses comp bits n a schedule s)
    unfolding accesses
    accesses-IsHonest [] s h = h
    accesses-IsHonest (x ∷ schedule) s h =
        accesses-IsHonest schedule (access comp bits n a x s) (access-IsHonest x s h)

    -- A write that no other interrupts changes the flag of its thread only.
    write_other :
        (i k : ℕ) (s : Flags)
        → k ≢ i
        → (access comp bits n a (store_word i) (access comp bits n a (load_word i) s)).flags k
          ≡ s.flags k
    unfolding access
    write_other i k s ne =
        let other : (k == i) ≡ false = ground arith in
        let self : (i == i) ≡ true = ground arith in
        elim (Bool-cases (k / bits == i / bits)) [
          | inl word ↦ rw (other, word, self) refl
          | inr word ↦ rw (other, word) refl
        ]

    write_own :
        (i : ℕ) (s : Flags)
        → (access comp bits n a (store_word i) (access comp bits n a (load_word i) s)).flags i
          ≡ stripe_sorted comp n i a
    unfolding access
    write_own i s = let self : (i == i) ≡ true = ground arith in rw self refl

    in_turn-below :
        (rounds i k : ℕ) (s : Flags)
        → k < i
        → (accesses comp bits n a (in_turn rounds i) s).flags k ≡ s.flags k
    unfolding accesses in_turn
    in_turn-below zero i k s lt = refl
    in_turn-below (suc rounds) i k s lt =
        in_turn-below rounds (suc i) k _ (omega arith) ∙ write_other i k s (omega arith)

    in_turn-within :
        (rounds i k : ℕ) (s : Flags)
        → i ≤ k
        → k < i + rounds
        → (accesses comp bits n a (in_turn rounds i) s).flags k ≡ stripe_sorted comp n k a
    unfolding accesses in_turn
    in_turn-within zero i k s lo hi = absurd (omega arith)
    in_turn-within (suc rounds) i k s lo hi = elim (ℕ_discrete k i) [
      | yes e ↦ rw e (in_turn-below rounds (suc i) i _ (omega arith) ∙ write_own i s)
      | no ne ↦ in_turn-within rounds (suc i) k _ (omega arith) (omega arith)
    ]

    IsSorted-stripes :
        IsStrictWeak comp
        → 0 < n
        → ((i : ℕ) → i < n → stripe_sorted comp n i a ≡ true)
        → IsSorted comp a
    IsSorted-stripes w h e = ascending_of_check comp w a (
        NoDescent→is_sorted_range comp a λ k x y p q.
          let lt = get_elem?-lt a (suc k) q in
          let i : ℕ = k / ((length a + n - 1) / n) in
          NoDescent-stripe n a k h lt (e i (thread_of n (length a) k h (omega arith))) x y p q)

  -- With a strict weak ordering and at least one thread: in whatever order the threads access the words
  -- of flags, of any size, and whichever accesses are missing, the parallel check says true of ascending
  -- ranges only.
  pub is_sorted-IsSorted :
      IsStrictWeak comp
      → (bits : ℕ) (schedule : List Access) (num_threads : ℕ) (a : List A) → 0 < num_threads
      → is_sorted comp bits schedule num_threads a ≡ true
      → IsSorted comp a
  unfolding is_sorted
  is_sorted-IsSorted w bits schedule n a h e =
      let honest =
        accesses-IsHonest bits n a schedule no_flags
          (record { flag = λ i p. cc; copy = λ i j p. cc }) in
      IsSorted-stripes bits n a w h (λ i lt. honest.flag i (all_flags-true n _ e i lt))

  -- With a strict weak ordering and at least one thread: if the threads write their flags one after
  -- the other, in their order, the parallel check says true exactly of ascending ranges.
  pub is_sorted_iff :
      IsStrictWeak comp
      → (bits num_threads : ℕ) (a : List A) → 0 < num_threads
      → (is_sorted comp bits (in_turn num_threads 0) num_threads a ≡ true) ↔ IsSorted comp a
  unfolding is_sorted
  is_sorted_iff w bits n a h = (
    is_sorted-IsSorted w bits (in_turn n 0) n a h,
    λ s. true-all_flags n _ (λ i lt.
        in_turn-within bits n a n 0 i no_flags (omega arith) (omega arith)
        ∙ stripe_sorted_intro n i a
            (is_sorted_range→NoDescent comp a (IsSorted→is_sorted_range comp a s))),
  )
