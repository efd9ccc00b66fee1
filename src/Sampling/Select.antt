-- ===== src/Sampling/Select.antt =====
-- `select_sample` permutes the range.
use ps4o.Base.{
  ℕ, zero, suc, ◌+◌, ◌-◌, ◌≤◌, ◌<◌, ◌≡◌, refl, sym, ap, ◌∙◌, some, List, [], ◌∷◌, map, Perm, arith,
  length, get_elem?, get_elem?-some, store, store-some, length-store, get_elem?-store_self,
  get_elem?-store_other, cons?-eq-some, fetch,
}
use mathlib.Core.List.Perm
use mathlib.Core.Option.{some-injective}
use native.Mathlib.Decide.{ℕ_discrete}
use ps4o.Memory.{RandomSource}
use ps4o.Sampling.{swap, select_sample}

module _ {ℓ} {A : Type ℓ} where
  pub fetch-map-some : (vs : List A) (i : ℕ) → fetch (map some vs) i ≡ get_elem? vs i
  fetch-map-some [] i = refl
  fetch-map-some (v ∷ vs) zero = refl
  fetch-map-some (v ∷ vs) (suc i) = fetch-map-some vs i

  pub store-map-some :
      (vs ws : List A) (i : ℕ) (v : A)
      → store vs i v ≡ some ws
      → store (map some vs) i (some v) ≡ some (map some ws)
  store-map-some [] ws i v h = cc
  store-map-some (x ∷ vs) ws zero v h =
      let e : v ∷ vs ≡ ws = some-injective _ _ h in ap (λ (l : List A). some (map some l)) e
  store-map-some (x ∷ vs) ws (suc i) v h =
      let (us, e, f) = cons?-eq-some x (store vs i v) h in
      rw (store-map-some vs us i v e) (ap (λ (l : List A). some (map some l)) (sym f))

  -- A write exchanges the element that is there for another.
  store-perm :
      (l m : List A) (i : ℕ) (x y : A)
      → get_elem? l i ≡ some y
      → store l i x ≡ some m
      → Perm (y ∷ m) (x ∷ l)
  store-perm [] m i x y h e = cc
  store-perm (z ∷ l) m zero x y h e =
      let a : z ≡ y = some-injective _ _ h in
      let b : x ∷ l ≡ m = some-injective _ _ e in rw (sym a, sym b) (Perm.swap x z l)
  store-perm (z ∷ l) m (suc i) x y h e =
      let (k, ek, f) = cons?-eq-some z (store l i x) e in
      rw f (
        Perm.trans (Perm.swap z y k)
          (Perm.trans (Perm.cons z (store-perm l k i x y h ek)) (Perm.swap x z l)))

  swap_lem :
      (vs : List A) (i j : ℕ)
      → i < length vs
      → j < length vs
      → (ws : List A) × (swap i j (map some vs) ≡ some (map some ws))
        × (length ws ≡ length vs)
        × Perm ws vs
  unfolding swap
  swap_lem vs i j hi hj =
      let (x, ex) = get_elem?-some vs i hi in
      let (y, ey) = get_elem?-some vs j hj in
      let (us, eu) = store-some vs i y hi in
      let (ws, ew) = store-some us j x (omega (arith, length-store vs us i y eu)) in
      let there : get_elem? us j ≡ some y = elim (ℕ_discrete j i) [
        | yes e ↦ ap (get_elem? us) e ∙ get_elem?-store_self vs us i y eu
        | no ne ↦ get_elem?-store_other vs us i j y eu ne ∙ ey
      ] in
      (
        ws,
        rw (fetch-map-some vs i, ex)
            (rw (fetch-map-some vs j, ey)
              (rw (store-map-some vs us i y eu) (store-map-some us ws j x ew))),
        length-store us ws j x ew ∙ length-store vs us i y eu,
        Perm.cons_inv (Perm.trans (store-perm us ws j x y there ew) (store-perm vs us i y x ex eu)),
      )

module _ {ℓ} {A : Type ℓ} {G : Type 0} (random : RandomSource G) where
  -- For a sample that is no longer than what is left of the range, `select_sample` stays inside the range
  -- and permutes it, whatever the generator draws.
  pub select_sample_lem :
      (num_samples i n : ℕ) (vs : List A) (g : G)
      → i + n ≡ length vs
      → num_samples ≤ n
      → (ws : List A) × (h : G) × (select_sample random num_samples i n (map some vs) g
          ≡ some (map some ws, h))
        × Perm ws vs
  unfolding select_sample
  select_sample_lem zero i n vs g e le = (vs, g, refl, Perm.rfl)
  select_sample_lem (suc num_samples) i n vs g e le =
      let k : ℕ = (random.draw (n - 1) g).0 in
      let (us, eu, len, p) =
        swap_lem vs i (i + k) (omega arith) (omega (arith, random.draw-lt (n - 1) g)) in
      let (ws, h, ew, q) =
        select_sample_lem num_samples (suc i) (n - 1) us (random.draw (n - 1) g).1
          (omega (arith, len)) (omega arith) in
      (ws, h, rw (eu, ew), Perm.trans q p)
