-- ===== src/Classifier/Untouched.antt =====
-- `build` writes to the cells of its tree and to the one behind the splitters, and to no other.
use ps4o.Base.{
  ℕ, zero, suc, ◌+◌, ◌-◌, ◌*◌, ◌/◌, ◌^◌, ◌≤◌, ◌<◌, ◌≡◌, ◌≢◌, ◌⊎◌, inl, inr, refl, sym, ap, ◌∙◌,
  Bool-cases, ltb, ltb→lt, some, arith, >>=-eq-some, Cells, fetch, fetch_before, construct,
  fetch-store_other,
}
use mathlib.Core.Option.{some-injective}
use ps4o.Classifier.{Classifier, build_tree, build}
use ps4o.Config.Bounds.{two_pow, two_pow_mono}

module _ {ℓ} {A : Type ℓ} where
  -- With an even number of buckets, no node is written from there on, nor the cell 0.
  build_tree-untouched :
      (fuel : ℕ) (sorted : Cells A) (half left right pos p : ℕ) (tree t : Cells A)
      → build_tree fuel sorted (2 * half) left right pos tree ≡ some t
      → 0 < pos
      → pos < 2 * half
      → (p ≡ 0) ⊎ (2 * half ≤ p)
      → fetch t p ≡ fetch tree p
  unfolding build_tree
  build_tree-untouched zero sorted half left right pos p tree t h a b o = cc
  build_tree-untouched (suc fuel) sorted half left right pos p tree t h a b o =
      let mid : ℕ = left + (right - left) / 2 in
      let (v, ev, h1) = >>=-eq-some (fetch sorted mid) _ h in
      let (c, ec, h2) = >>=-eq-some (construct tree pos v) _ h1 in
      let other : p ≢ pos = elim o [ inl z ↦ λ e. omega arith | inr g ↦ λ e. omega arith ] in
      let stored = fetch-store_other tree c pos p (some v) ec other in
      elim (Bool-cases (ltb (2 * pos) (2 * half))) [
        | inl e ↦
            let (u, eu, h4) =
              >>=-eq-some (build_tree fuel sorted (2 * half) left mid (2 * pos) c) _ (rw e at h2) in
            let low = ltb→lt (2 * pos) (2 * half) e in
            build_tree-untouched fuel sorted half mid right (2 * pos + 1) p u t h4 (omega arith)
              (omega arith) o
            ∙ build_tree-untouched fuel sorted half left mid (2 * pos) p c u eu (omega arith) low o
            ∙ stored
        | inr e ↦ ap (λ (l : Cells A). fetch l p) (sym (some-injective c t (rw e at h2))) ∙ stored
      ]

  -- What `build` leaves of the storages
  pub record IsUntouched (num : ℕ) (c d : Classifier A) : Type ℓ where
    pub root : fetch d.storage 0 ≡ fetch c.storage 0
    pub tree : (p : ℕ) → num ≤ p → fetch d.storage p ≡ fetch c.storage p
    pub sorted : (p : ℕ) → num ≤ p → fetch d.sorted_storage p ≡ fetch c.sorted_storage p

  pub build-IsUntouched :
      (k : ℕ) (c d : Classifier A) → 1 ≤ k → build k c ≡ some d → IsUntouched (2 ^ k) c d
  unfolding build
  build-IsUntouched zero c d one h = absurd (omega arith)
  build-IsUntouched (suc j) c d one h =
      let two : 2 ^ suc j ≡ 2 * 2 ^ j = omega (arith, two_pow j) in
      let pos = two_pow_mono {i = 0} {j = j} (omega arith) in
      let (v, ev, h1) = >>=-eq-some (fetch_before c.sorted_storage (2 ^ suc j - 1)) _ h in
      let (s, es, h2) = >>=-eq-some (construct c.sorted_storage (2 ^ suc j - 1) v) _ h1 in
      let (t, et, h3) =
        >>=-eq-some (build_tree (suc j) s (2 ^ suc j) 0 (2 ^ suc j - 1) 1 c.storage) _ h2 in
      let tree : (p : ℕ) → (p ≡ 0) ⊎ (2 * 2 ^ j ≤ p) → fetch t p ≡ fetch c.storage p = λ p.
        build_tree-untouched (suc j) s (2 ^ j) 0 (2 ^ suc j - 1) 1 p c.storage t
          (ap (λ n. build_tree (suc j) s n 0 (2 ^ suc j - 1) 1 c.storage) (sym two) ∙ et)
          (omega arith) (omega (arith, pos)) in
      let same = sym (some-injective _ _ h3) in
      record {
        root = ap (λ (x : Classifier A). fetch x.storage 0) same ∙ tree 0 (inl refl);
        tree = λ p le.
            ap (λ (x : Classifier A). fetch x.storage p) same ∙ tree p (inr (omega (arith, two)));
        sorted = λ p le.
            ap (λ (x : Classifier A). fetch x.sorted_storage p) same
            ∙ fetch-store_other c.sorted_storage s (2 ^ suc j - 1) p (some v) es
                (omega (arith, two, pos));
      }

  pub build-num_buckets : (k : ℕ) (c d : Classifier A) → build k c ≡ some d → d.num_buckets ≡ 2 ^ k
  unfolding build
  build-num_buckets k c d h =
      let (v, ev, h1) = >>=-eq-some (fetch_before c.sorted_storage (2 ^ k - 1)) _ h in
      let (s, es, h2) = >>=-eq-some (construct c.sorted_storage (2 ^ k - 1) v) _ h1 in
      let (t, et, h3) = >>=-eq-some (build_tree k s (2 ^ k) 0 (2 ^ k - 1) 1 c.storage) _ h2 in
      ap (λ (x : Classifier A). x.num_buckets) (sym (some-injective _ _ h3))
