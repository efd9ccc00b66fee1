-- ===== src/Classifier/Lengths.antt =====
-- `build` does not change the lengths of the storages.
use ps4o.Base.{
  ℕ, zero, suc, ◌+◌, ◌-◌, ◌*◌, ◌/◌, ◌^◌, ◌≡◌, sym, ap, ◌∙◌, Bool-cases, inl, inr, ltb, arith, some,
  >>=-eq-some, length, length-store, Cells, fetch, fetch_before, construct,
}
use mathlib.Core.Option.{some-injective}
use ps4o.Classifier.{Classifier, build_tree, build}

module _ {ℓ} {A : Type ℓ} where
  length-build_tree :
      (fuel : ℕ) (sorted : Cells A) (num left right pos : ℕ) (tree t : Cells A)
      → build_tree fuel sorted num left right pos tree ≡ some t
      → length t ≡ length tree
  unfolding build_tree
  length-build_tree zero sorted num left right pos tree t h = cc
  length-build_tree (suc fuel) sorted num left right pos tree t h =
      let mid : ℕ = left + (right - left) / 2 in
      let (v, ev, h1) = >>=-eq-some (fetch sorted mid) _ h in
      let (c, ec, h2) = >>=-eq-some (construct tree pos v) _ h1 in
      let stored = length-store tree c pos (some v) ec in
      elim (Bool-cases (ltb (2 * pos) num)) [
        | inl e ↦
            let (u, eu, h4) =
              >>=-eq-some (build_tree fuel sorted num left mid (2 * pos) c) _ (rw e at h2) in
            omega (
              arith,
              length-build_tree fuel sorted num mid right (2 * pos + 1) u t h4,
              length-build_tree fuel sorted num left mid (2 * pos) c u eu,
              stored,
            )
        | inr e ↦ omega (arith, ap length (some-injective c t (rw e at h2)), stored)
      ]

  pub length-build :
      (k : ℕ) (c d : Classifier A)
      → build k c ≡ some d
      → (length d.storage ≡ length c.storage) × (length d.sorted_storage ≡ length c.sorted_storage)
  unfolding build
  length-build k c d h =
      let (v, ev, h1) = >>=-eq-some (fetch_before c.sorted_storage (2 ^ k - 1)) _ h in
      let (s, es, h2) = >>=-eq-some (construct c.sorted_storage (2 ^ k - 1) v) _ h1 in
      let (t, et, h3) = >>=-eq-some (build_tree k s (2 ^ k) 0 (2 ^ k - 1) 1 c.storage) _ h2 in
      (
        ap (λ (x : Classifier A). length x.storage) (sym (some-injective _ _ h3))
            ∙ length-build_tree k s (2 ^ k) 0 (2 ^ k - 1) 1 c.storage t et,
        ap (λ (x : Classifier A). length x.sorted_storage) (sym (some-injective _ _ h3))
            ∙ length-store c.sorted_storage s (2 ^ k - 1) (some v) es,
      )
