-- ===== src/Partitioning/Pieces.antt =====
-- The helpers of a step on storage that is put together from pieces, and what a step does to one bucket.
use ps4o.Base.{
  ℕ, zero, suc, ◌+◌, ◌-◌, ◌≡◌, refl, sym, ap, ◌∙◌, Option, none, some, List, [], ◌∷◌, ◌++◌, map,
  arith, length, length-map, take, drop, replicate, map_option, store, Cells, fetch,
}
use ps4o.Memory.{read_range, splice, relocate}
use mathlib.Core.List.{append_assoc}

module _ {ℓ} {A : Type ℓ} where
  take_before : (p l : List A) → take (length p) (p ++ l) ≡ p
  take_before [] l = refl
  take_before (x ∷ p) l = ap (λ q. x ∷ q) (take_before p l)

  drop_before : (p l : List A) → drop (length p) (p ++ l) ≡ l
  drop_before [] l = refl
  drop_before (x ∷ p) l = drop_before p l

  append_one : (p l : List A) (x : A) → (p ++ x ∷ []) ++ l ≡ p ++ x ∷ l
  append_one [] l x = refl
  append_one (y ∷ p) l x = ap (λ q. y ∷ q) (append_one p l x)

  length_one : (p : List A) (x : A) → length (p ++ x ∷ []) ≡ suc (length p)
  length_one [] x = refl
  length_one (y ∷ p) x = ap suc (length_one p x)

  store_middle : (p l : List A) (x y : A) → store (p ++ x ∷ l) (length p) y ≡ some (p ++ y ∷ l)
  store_middle [] l x y = refl
  store_middle (z ∷ p) l x y = rw (store_middle p l x y) refl

module _ {ℓ} {A : Type ℓ} where
  fetch_middle : (p l : Cells A) (c : Option A) → fetch (p ++ c ∷ l) (length p) ≡ c
  fetch_middle [] l c = refl
  fetch_middle (z ∷ p) l c = fetch_middle p l c

  pub values_of : (v : List A) → map_option (λ (c : Option A). c) (map some v) ≡ some v
  values_of [] = refl
  values_of (x ∷ v) = rw (values_of v) refl

  pub read_range_middle :
      (p r : Cells A) (v : List A) (start stop : ℕ)
      → start ≡ length p
      → stop ≡ start + length v
      → read_range start stop (p ++ (map some v ++ r)) ≡ some v
  unfolding read_range
  read_range_middle p r v start stop e f =
      let size : stop - start ≡ length (map some v) = omega (arith, length-map some v) in
      rw (size, e)
        (rw (drop_before p (map some v ++ r)) (rw (take_before (map some v) r) (values_of v)))

  pub splice_middle :
      (p m c r : Cells A) (start stop : ℕ)
      → start ≡ length p
      → stop ≡ start + length c
      → splice start stop m (p ++ (c ++ r)) ≡ p ++ (m ++ r)
  unfolding splice
  splice_middle p m c r start stop e f = rw e (
      rw (take_before p (c ++ r)) (
        append_assoc p m _
        ∙ ap (λ q. p ++ (m ++ q))
            (drop_further p (c ++ r) stop (length c) (omega arith) ∙ drop_before c r)))
    where
      drop_further : (p l : Cells A) (k j : ℕ) → k ≡ length p + j → drop k (p ++ l) ≡ drop j l
      drop_further [] l k j h = ap (λ i. drop i l) (omega arith)
      drop_further (x ∷ p) l zero j h = absurd (omega arith)
      drop_further (x ∷ p) l (suc k) j h = drop_further p l k j (omega arith)

  pub relocate_middle :
      (v : List A) (p r q m s : Cells A) (i : ℕ)
      → i ≡ length p
      → i ≡ length q
      → length m ≡ length v
      → relocate (length v) i (p ++ (map some v ++ r)) (q ++ (m ++ s))
        ≡ some (p ++ (replicate (length v) none ++ r), q ++ (map some v ++ s))
  unfolding relocate
  relocate_middle [] p r q [] s i e f h = refl
  relocate_middle [] p r q (c ∷ m) s i e f h = absurd (omega arith)
  relocate_middle (x ∷ v) p r q [] s i e f h = absurd (omega arith)
  relocate_middle (x ∷ v) p r q (c ∷ m) s i e f h =
      let at : fetch (p ++ some x ∷ (map some v ++ r)) i ≡ some x =
        ap (fetch (p ++ some x ∷ (map some v ++ r))) e
        ∙ fetch_middle p (map some v ++ r) (some x) in
      let put : store (q ++ c ∷ (m ++ s)) i (some x) ≡ some ((q ++ some x ∷ []) ++ (m ++ s)) =
        ap (λ k. store (q ++ c ∷ (m ++ s)) k (some x)) f
        ∙ store_middle q (m ++ s) c (some x)
        ∙ ap some (sym (append_one q (m ++ s) (some x))) in
      let gone : store (p ++ some x ∷ (map some v ++ r)) i none
          ≡ some ((p ++ none ∷ []) ++ (map some v ++ r)) =
        ap (λ k. store (p ++ some x ∷ (map some v ++ r)) k none) e
        ∙ store_middle p (map some v ++ r) (some x) none
        ∙ ap some (sym (append_one p (map some v ++ r) none)) in
      rw (at, put)
        (rw gone (
          relocate_middle v (p ++ none ∷ []) r (q ++ some x ∷ []) m s (suc i)
            (omega (arith, length_one p none)) (omega (arith, length_one q (some x))) (omega arith)
          ∙ ap (λ k. some (k, (q ++ some x ∷ []) ++ (map some v ++ s)))
              (append_one p (replicate (length v) none ++ r) none)
          ∙ ap (λ k. some (p ++ none ∷ (replicate (length v) none ++ r), k))
              (append_one q (map some v ++ s) (some x))))
