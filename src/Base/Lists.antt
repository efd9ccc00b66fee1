-- ===== src/Base/Lists.antt =====
-- Sequences indexed by native numbers. An array is a list; a read or a write out of range fails.
use Prim.Native.Nat.{ℕ, zero, suc, ◌+◌, ◌-◌, ◌≤◌, ◌<◌, min}
use mathlib.Core.Logic.{◌≢◌}
use mathlib.Core.Path.{◌≡◌, refl, ap}
use mathlib.Core.Option.{Option, none, some}
use mathlib.Core.List.{map, List, [], ◌∷◌, ◌++◌}
use native.Mathlib.Omega.{arith}

module _ {ℓ} {A : Type ℓ} where
  abbrev pub length : List A → ℕ
  length [] = 0
  length (x ∷ xs) = suc (length xs)

  -- `a[i]`
  abbrev pub get_elem? : List A → ℕ → Option A
  get_elem? [] i = none
  get_elem? (x ∷ xs) zero = some x
  get_elem? (x ∷ xs) (suc i) = get_elem? xs i

  abbrev pub cons? : A → Option (List A) → Option (List A)
  cons? x none = none
  cons? x (some xs) = some (x ∷ xs)

  pub cons?-eq-some :
      (x : A) (m : Option (List A)) {l : List A}
      → cons? x m ≡ some l
      → (xs : List A) × (m ≡ some xs) × (l ≡ x ∷ xs)
  cons?-eq-some x none h = cc
  cons?-eq-some x (some xs) h = (xs, refl, cc)

  -- `a[i] = v`
  abbrev pub store : List A → ℕ → A → Option (List A)
  store [] i v = none
  store (x ∷ xs) zero v = some (v ∷ xs)
  store (x ∷ xs) (suc i) v = cons? x (store xs i v)

  abbrev pub take : ℕ → List A → List A
  take zero l = []
  take (suc n) [] = []
  take (suc n) (x ∷ xs) = x ∷ take n xs

  abbrev pub drop : ℕ → List A → List A
  drop zero l = l
  drop (suc n) [] = []
  drop (suc n) (x ∷ xs) = drop n xs

  abbrev pub replicate : ℕ → A → List A
  replicate zero v = []
  replicate (suc n) v = v ∷ replicate n v

  -- The list with `rev` reversed in front: an array seen from an index `length rev`.
  abbrev pub rev_onto : List A → List A → List A
  rev_onto [] l = l
  rev_onto (q ∷ rev) l = rev_onto rev (q ∷ l)

  pub length-append : (xs ys : List A) → length (xs ++ ys) ≡ length xs + length ys
  length-append [] ys = omega arith
  length-append (x ∷ xs) ys = omega (arith, length-append xs ys)

  pub take-append-drop : (n : ℕ) (l : List A) → take n l ++ drop n l ≡ l
  take-append-drop zero l = refl
  take-append-drop (suc n) [] = refl
  take-append-drop (suc n) (x ∷ xs) = ap (◌∷◌ x) (take-append-drop n xs)

  pub length-take : (n : ℕ) (l : List A) → length (take n l) ≡ min n (length l)
  length-take zero l = omega arith
  length-take (suc n) [] = omega arith
  length-take (suc n) (x ∷ xs) = omega (arith, length-take n xs)

  pub length-drop : (n : ℕ) (l : List A) → length (drop n l) ≡ length l - n
  length-drop zero l = omega arith
  length-drop (suc n) [] = omega arith
  length-drop (suc n) (x ∷ xs) = omega (arith, length-drop n xs)

  pub length-replicate : (n : ℕ) (v : A) → length (replicate n v) ≡ n
  length-replicate zero v = refl
  length-replicate (suc n) v = omega (arith, length-replicate n v)

  pub get_elem?-rev_onto :
      (rev l : List A) (i j : ℕ) → j ≡ length rev + i → get_elem? (rev_onto rev l) j ≡ get_elem? l i
  get_elem?-rev_onto [] l i j e = ap (get_elem? l) (omega arith)
  get_elem?-rev_onto (q ∷ rev) l i j e = get_elem?-rev_onto rev (q ∷ l) (suc i) j (omega arith)

  pub length-rev_onto : (rev l : List A) → length (rev_onto rev l) ≡ length rev + length l
  length-rev_onto [] l = omega arith
  length-rev_onto (q ∷ rev) l = omega (arith, length-rev_onto rev (q ∷ l))

  -- Reading and writing at the split.
  pub get_elem?-append :
      (p l : List A) (i j : ℕ) → j ≡ length p + i → get_elem? (p ++ l) j ≡ get_elem? l i
  get_elem?-append [] l i j e = ap (get_elem? l) (omega arith)
  get_elem?-append (x ∷ p) l i zero e = absurd (omega arith)
  get_elem?-append (x ∷ p) l i (suc j) e = get_elem?-append p l i j (omega arith)

  pub get_elem?-drop :
      (m : ℕ) (l : List A) (k j : ℕ) → j ≡ m + k → get_elem? (drop m l) k ≡ get_elem? l j
  get_elem?-drop zero l k j e = ap (get_elem? l) (omega arith)
  get_elem?-drop (suc m) [] k j e = refl
  get_elem?-drop (suc m) (x ∷ l) k zero e = absurd (omega arith)
  get_elem?-drop (suc m) (x ∷ l) k (suc j) e = get_elem?-drop m l k j (omega arith)

  pub get_elem?-take : (n : ℕ) (l : List A) (k : ℕ) → k < n → get_elem? (take n l) k ≡ get_elem? l k
  get_elem?-take zero l k h = absurd (omega arith)
  get_elem?-take (suc n) [] k h = refl
  get_elem?-take (suc n) (x ∷ l) zero h = refl
  get_elem?-take (suc n) (x ∷ l) (suc k) h = get_elem?-take n l k (omega arith)

  pub get_elem?-lt : (l : List A) (k : ℕ) {x : A} → get_elem? l k ≡ some x → k < length l
  get_elem?-lt [] k h = cc
  get_elem?-lt (x ∷ l) zero h = omega arith
  get_elem?-lt (x ∷ l) (suc k) h = omega (arith, get_elem?-lt l k h)

  pub get_elem?-none : (l : List A) (i : ℕ) → length l ≤ i → get_elem? l i ≡ none
  get_elem?-none [] i h = refl
  get_elem?-none (x ∷ l) zero h = absurd (omega arith)
  get_elem?-none (x ∷ l) (suc i) h = get_elem?-none l i (omega arith)

  pub get_elem?-some : (l : List A) (i : ℕ) → i < length l → (x : A) × (get_elem? l i ≡ some x)
  get_elem?-some [] i h = absurd (omega arith)
  get_elem?-some (x ∷ xs) zero h = (x, refl)
  get_elem?-some (x ∷ xs) (suc i) h = get_elem?-some xs i (omega arith)

  pub store-some :
      (l : List A) (i : ℕ) (v : A) → i < length l → (m : List A) × (store l i v ≡ some m)
  store-some [] i v h = absurd (omega arith)
  store-some (x ∷ xs) zero v h = (v ∷ xs, refl)
  store-some (x ∷ xs) (suc i) v h =
      let (m, e) = store-some xs i v (omega arith) in (x ∷ m, ap (cons? x) e)

  pub store-rev_onto :
      (rev p m : List A) (i j : ℕ) (v : A)
      → j ≡ length rev + i
      → store p i v ≡ some m
      → store (rev_onto rev p) j v ≡ some (rev_onto rev m)
  store-rev_onto [] p m i j v e h = let e' : j ≡ i = omega arith in rw e' h
  store-rev_onto (q ∷ rev) p m i j v e h =
      store-rev_onto rev (q ∷ p) (q ∷ m) (suc i) j v (omega arith) (ap (cons? q) h)

  pub get_elem?-store_self :
      (a b : List A) (i : ℕ) (v : A) → store a i v ≡ some b → get_elem? b i ≡ some v
  get_elem?-store_self [] b i v h = cc
  get_elem?-store_self (x ∷ a) b zero v h = let e : b ≡ v ∷ a = cc in rw e
  get_elem?-store_self (x ∷ a) b (suc i) v h =
      let (c, e, f) = cons?-eq-some x (store a i v) h in rw f (get_elem?-store_self a c i v e)

  pub get_elem?-store_other :
      (a b : List A) (i j : ℕ) (v : A)
      → store a i v ≡ some b
      → j ≢ i
      → get_elem? b j ≡ get_elem? a j
  get_elem?-store_other [] b i j v h ne = cc
  get_elem?-store_other (x ∷ a) b zero zero v h ne = absurd (ne refl)
  get_elem?-store_other (x ∷ a) b zero (suc j) v h ne = let e : b ≡ v ∷ a = cc in rw e
  get_elem?-store_other (x ∷ a) b (suc i) zero v h ne =
      let (c, e, f) = cons?-eq-some x (store a i v) h in rw f
  get_elem?-store_other (x ∷ a) b (suc i) (suc j) v h ne =
      let (c, e, f) = cons?-eq-some x (store a i v) h in
      rw f (get_elem?-store_other a c i j v e (λ p. ne (ap suc p)))

  pub length-store : (a b : List A) (i : ℕ) (v : A) → store a i v ≡ some b → length b ≡ length a
  length-store [] b i v h = cc
  length-store (x ∷ a) b zero v h = let e : b ≡ v ∷ a = cc in rw e
  length-store (x ∷ a) b (suc i) v h =
      let (c, e, f) = cons?-eq-some x (store a i v) h in rw f (ap suc (length-store a c i v e))

pub length-map {ℓ κ} :
    {A : Type ℓ} {B : Type κ} (f : A → B) (l : List A) → length (map f l) ≡ length l
length-map f [] = refl
length-map f (x ∷ l) = ap suc (length-map f l)
