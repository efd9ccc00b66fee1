-- ===== src/Sampling/Untouched.antt =====
-- `buildClassifier` writes to the cells of the classifier that its buckets use, and to no other.
use ps4o.Base.{
  ℕ, zero, suc, ◌+◌, ◌-◌, ◌*◌, ◌^◌, ◌≤◌, ◌<◌, ◌≡◌, sym, ap, ◌∙◌, Bool, Bool-cases, inl, inr, arith,
  some, ◌>>=◌, if◌then◌else◌, >>=-eq-some, Cells, fetch, construct, fetch-store_other,
}
use mathlib.Core.Option.{some-injective}
use ps4o.Config.{Config, log2}
use ps4o.Config.Bounds.{log2_bounds}
use ps4o.Classifier.{Classifier, build}
use ps4o.Classifier.Untouched.{build-IsUntouched, build-num_buckets}
use ps4o.Memory.{RandomSource}
use ps4o.Sampling.{Buckets, Chosen, choose_splitters, pad_splitters, build_from_sample}

module _ {ℓ} {A : Type ℓ} (comp : A → A → Bool) where
  -- No cell behind the last splitter is written.
  abbrev BehindSame : Chosen A → Chosen A → Type ℓ
  BehindSame c d = (p : ℕ) → d.last < p → fetch d.sorted p ≡ fetch c.sorted p

  choose_splitters-BehindSame :
      (n step pos : ℕ) (sample : Cells A) (c d : Chosen A)
      → choose_splitters comp n step pos sample c ≡ some d
      → (c.last ≤ d.last) × (d.last ≤ c.last + n) × BehindSame c d
  unfolding choose_splitters
  choose_splitters-BehindSame zero step pos sample c d h =
      let e = some-injective c d h in
      (
        rw e (omega arith),
        rw e (omega arith),
        λ p lt. ap (λ (x : Chosen A). fetch x.sorted p) (sym e),
      )
  choose_splitters-BehindSame (suc n) step pos sample c d h =
      let (x, ex, h1) = >>=-eq-some (fetch c.sorted c.last) _ h in
      let (y, ey, h2) = >>=-eq-some (fetch sample (pos + step)) _ h1 in
      let (m, em, h3) =
        >>=-eq-some
          (if comp x y
            then (construct c.sorted (suc c.last) y >>= λ sorted.
                some (record { sorted = sorted; last = suc c.last }))
            else some c)
          _ h2 in
      let (up, few, same) = choose_splitters-BehindSame n step (pos + step) sample m d h3 in
      elim (Bool-cases (comp x y)) [
        | inl e ↦
            let (s, es, h4) = >>=-eq-some (construct c.sorted (suc c.last) y) _ (rw e at em) in
            let last : suc c.last ≡ m.last =
              ap (λ (x : Chosen A). x.last) (some-injective _ m h4) in
            let sorted : s ≡ m.sorted = ap (λ (x : Chosen A). x.sorted) (some-injective _ m h4) in
            (
              omega (arith, up, last),
              omega (arith, few, last),
              λ p lt.
                  same p lt
                  ∙ ap (λ (l : Cells A). fetch l p) (sym sorted)
                  ∙ fetch-store_other c.sorted s (suc c.last) p (some y) es
                      (omega (arith, up, last)),
            )
        | inr e ↦
            let keep : c ≡ m = some-injective c m (rw e at em) in
            let last : c.last ≡ m.last = ap (λ (x : Chosen A). x.last) keep in
            (
              omega (arith, up, last),
              omega (arith, few, last),
              λ p lt. same p lt ∙ ap (λ (x : Chosen A). fetch x.sorted p) (sym keep),
            )
      ]

  pad_splitters-BehindSame :
      (n : ℕ) (v : A) (c d : Chosen A)
      → pad_splitters n v c ≡ some d
      → (d.last ≡ c.last + n) × BehindSame c d
  unfolding pad_splitters
  pad_splitters-BehindSame zero v c d h =
      let e = some-injective c d h in
      (rw e (omega arith), λ p lt. ap (λ (x : Chosen A). fetch x.sorted p) (sym e))
  pad_splitters-BehindSame (suc n) v c d h =
      let (s, es, h') = >>=-eq-some (construct c.sorted (suc c.last) v) _ h in
      let (l, same) = pad_splitters-BehindSame n v _ d h' in
      (
        omega (arith, l),
        λ p lt.
            same p lt ∙ fetch-store_other c.sorted s (suc c.last) p (some v) es (omega (arith, l)),
      )

  -- What `buildClassifier` leaves of the storages
  pub record IsConfined (c d : Classifier A) : Type ℓ where
    pub root : fetch d.storage 0 ≡ fetch c.storage 0
    pub tree : (p : ℕ) → d.num_buckets ≤ p → fetch d.storage p ≡ fetch c.storage p
    pub sorted : (p : ℕ) → d.num_buckets ≤ p → fetch d.sorted_storage p ≡ fetch c.sorted_storage p

  -- Behind the last splitter that is filled up come only the duplicate and cells that are not used.
  behind_padded :
      (last padded n : ℕ)
      → last ≤ n
      → n + 2 ≤ 2 ^ 8
      → padded ≡ last + (2 ^ (log2 (last + 1) + 1) - (last + 1 + 1))
      → padded < 2 ^ (log2 (last + 1) + 1)
  behind_padded last padded n le few same =
      let next : log2 (last + 1) + 1 ≡ suc (log2 (last + 1)) = omega arith in
      let up : last + 1 < 2 ^ suc (log2 (last + 1)) =
        (log2_bounds (last + 1) (omega arith) (omega arith)).1 in
      let up' : last + 1 < 2 ^ (log2 (last + 1) + 1) = rw next up in omega (arith, up', same)

  module _ {G : Type 0} (random : RandomSource G) (cfg : Config) where
    pub build_from_sample-IsConfined :
        (step num_buckets : ℕ) (sample : Cells A) (c d : Classifier A) (b : Buckets)
        → 2 ≤ num_buckets
        → num_buckets ≤ 2 ^ 8
        → build_from_sample comp random cfg step num_buckets sample c ≡ some (d, b)
        → IsConfined c d
    unfolding build_from_sample
    build_from_sample-IsConfined step num_buckets sample c d b two few h =
        let (x, ex, h1) = >>=-eq-some (fetch sample (step - 1)) _ h in
        let (s, es, h2) = >>=-eq-some (construct c.sorted_storage 0 x) _ h1 in
        let (m, em, h3) =
          >>=-eq-some
            (choose_splitters comp (num_buckets - 2) step (step - 1) sample
              (record { sorted = s; last = 0 }))
            _ h2 in
        let (y, ey, h4) = >>=-eq-some (fetch sample (step - 1 + (num_buckets - 2) * step)) _ h3 in
        let k : ℕ = log2 (m.last + 1) + 1 in
        let (p, ep, h5) = >>=-eq-some (pad_splitters (2 ^ k - (m.last + 1 + 1)) y m) _ h4 in
        let (f, ef, h6) = >>=-eq-some (build k (record c { sorted_storage = p.sorted })) _ h5 in
        let same : f ≡ d = ap (λ x. x.0) (some-injective _ (d, b) h6) in
        let num : d.num_buckets ≡ 2 ^ k =
          ap (λ (x : Classifier A). x.num_buckets) (sym same) ∙ build-num_buckets k _ f ef in
        let rest =
          build-IsUntouched k (record c { sorted_storage = p.sorted }) f (omega arith) ef in
        let (low, high, chose) =
          choose_splitters-BehindSame (num_buckets - 2) step (step - 1) sample
            (record { sorted = s; last = 0 }) m em in
        let (last, padded) = pad_splitters-BehindSame (2 ^ k - (m.last + 1 + 1)) y m p ep in
        let behind =
          behind_padded m.last p.last (num_buckets - 2) (omega (arith, high)) (omega arith) last in
        record {
          root = ap (λ (x : Classifier A). fetch x.storage 0) (sym same) ∙ rest.root;
          tree = λ q le.
              ap (λ (x : Classifier A). fetch x.storage q) (sym same)
              ∙ rest.tree q (omega (arith, num));
          sorted = λ q le.
              ap (λ (x : Classifier A). fetch x.sorted_storage q) (sym same)
              ∙ rest.sorted q (omega (arith, num))
              ∙ padded q (omega (arith, num, behind))
              ∙ chose q (omega (arith, num, behind, last))
              ∙ fetch-store_other c.sorted_storage s 0 q (some x) es (omega (arith, num, behind));
        }
