-- ===== src/BaseCase/Neighbours.antt =====
-- `std::is_sorted`, on a whole range and on a part of it, looks at the neighbouring pairs.
use ps4o.Base.{
  ℕ, zero, suc, ◌+◌, ◌<◌, ◌≡◌, refl, sym, ◌∙◌, Bool, true, false, some, List, [], ◌∷◌, arith,
  get_elem?, take, drop, get_elem?-drop, get_elem?-take, get_elem?-lt, length-take, IsStrictWeak,
  IsSorted, IsBelow-le,
}
use ps4o.BaseCase.{is_sorted_range}

module _ {ℓ} {A : Type ℓ} (comp : A → A → Bool) where
  -- The neighbours at `k` and `k + 1` do not descend.
  abbrev pub NoDescent : List A → ℕ → Type ℓ
  NoDescent l k =
      (x y : A) → get_elem? l k ≡ some x → get_elem? l (suc k) ≡ some y → comp y x ≡ false

  pub is_sorted_range→NoDescent :
      (l : List A) → is_sorted_range comp l ≡ true → (k : ℕ) → NoDescent l k
  unfolding is_sorted_range
  is_sorted_range→NoDescent [] h k x y p q = cc
  is_sorted_range→NoDescent (a ∷ []) h k x y p q =
      absurd (omega (arith, get_elem?-lt (a ∷ []) (suc k) q))
  is_sorted_range→NoDescent (a ∷ b ∷ l) h zero x y p q = ground arith
  is_sorted_range→NoDescent (a ∷ b ∷ l) h (suc k) x y p q =
      is_sorted_range→NoDescent (b ∷ l) (ground arith) k x y p q

  pub NoDescent→is_sorted_range :
      (l : List A) → ((k : ℕ) → NoDescent l k) → is_sorted_range comp l ≡ true
  unfolding is_sorted_range
  NoDescent→is_sorted_range [] h = refl
  NoDescent→is_sorted_range (a ∷ []) h = refl
  NoDescent→is_sorted_range (a ∷ b ∷ l) h =
      rw (h 0 a b refl refl) (NoDescent→is_sorted_range (b ∷ l) (λ k x y p q. h (suc k) x y p q))

  pub ascending_of_check :
      IsStrictWeak comp → (l : List A) → is_sorted_range comp l ≡ true → IsSorted comp l
  unfolding is_sorted_range
  ascending_of_check w [] h = tt
  ascending_of_check w (a ∷ []) h = (tt, tt)
  ascending_of_check w (a ∷ b ∷ l) h =
      let tail = ascending_of_check w (b ∷ l) (ground arith) in
      let first : comp b a ≡ false = ground arith in
      ((first, IsBelow-le w a b l first tail.0), tail)

  pub IsSorted→is_sorted_range : (l : List A) → IsSorted comp l → is_sorted_range comp l ≡ true
  unfolding is_sorted_range
  IsSorted→is_sorted_range [] s = refl
  IsSorted→is_sorted_range (a ∷ []) s = refl
  IsSorted→is_sorted_range (a ∷ b ∷ l) s = rw s.0.0 (IsSorted→is_sorted_range (b ∷ l) s.1)

  -- The stripe of a thread holds the pairs from `my_begin` up to `my_end`, both included.
  pub stripe_NoDescent :
      (l : List A) (m n k j : ℕ)
      → is_sorted_range comp (take n (drop m l)) ≡ true
      → j ≡ m + k
      → suc k < n
      → NoDescent l j
  stripe_NoDescent l m n k j h e lt x y p q =
      is_sorted_range→NoDescent (take n (drop m l)) h k x y
        (get_elem?-take n (drop m l) k (omega arith) ∙ get_elem?-drop m l k j e ∙ p)
        (get_elem?-take n (drop m l) (suc k) lt
          ∙ get_elem?-drop m l (suc k) (suc j) (omega arith)
          ∙ q)

  pub stripe_sorted_of_NoDescent :
      (l : List A) (m n : ℕ)
      → ((k : ℕ) → NoDescent l k)
      → is_sorted_range comp (take n (drop m l)) ≡ true
  stripe_sorted_of_NoDescent l m n h = NoDescent→is_sorted_range (take n (drop m l)) λ k x y p q.
      let lt : suc k < n =
        omega (arith, get_elem?-lt (take n (drop m l)) (suc k) q, length-take n (drop m l)) in
      h (m + k) x y
        (sym (get_elem?-drop m l k (m + k) refl)
          ∙ sym (get_elem?-take n (drop m l) k (omega arith))
          ∙ p)
        (sym (get_elem?-drop m l (suc k) (suc (m + k)) (omega arith))
          ∙ sym (get_elem?-take n (drop m l) (suc k) lt)
          ∙ q)
