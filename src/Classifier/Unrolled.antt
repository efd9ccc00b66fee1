-- ===== src/Classifier/Unrolled.antt =====
-- `classify` of a range: the unrolled loop, which goes through a block level by level, yields what the
-- classification of the single elements does, in order.
use ps4o.Base.{
  ℕ, zero, suc, ◌+◌, ◌-◌, ◌*◌, ◌^◌, ◌/◌, ◌≤◌, ◌<◌, ◌≡◌, refl, sym, ◌∙◌, ap, Bool, true, false, bit,
  le→ltb, le→leb, lt→leb, Option, some, ◌>>=◌, List, [], ◌∷◌, map, arith, length, take, drop,
  replicate, take-append-drop, length-drop, fetch, map_option, map_option-append, map_option-some,
  >>=-cong, >>=_assoc, >>=-eq-some, length-replicate, IsStrictWeak,
}
use mathlib.Core.Path.{fun_ext}
use native.Mathlib.Nat.{add-zero}
use native.Mathlib.Numerals.{add-one}
use native.Mathlib.Decide.{dec_le}
use ps4o.Config.{Config}
use ps4o.Config.Bounds.{two_pow}
use ps4o.Classifier.{
  Classifier, descend, equal_level, classify, level_block, descend_block, classify_block,
  classify_rest, classify_loop, classify_unrolled, classify_range,
}
use ps4o.Classifier.Rank.{bucket_of}
use ps4o.Classifier.Search.{IsBuilt}
use ps4o.Classifier.Classify.{classify_lem}

module _ {ℓ} {A : Type ℓ} (comp : A → A → Bool) where
  -- Two passes over a block are one.
  level_block-level_block :
      (f g : ℕ → A → Option ℕ) (bs : List ℕ) (vs : List A)
      → (level_block f bs vs >>= λ ds. level_block g ds vs)
        ≡ level_block (λ b v. f b v >>= λ d. g d v) bs vs
  unfolding level_block
  level_block-level_block f g [] vs = refl
  level_block-level_block f g (b ∷ bs) [] = refl
  level_block-level_block f g (b ∷ bs) (v ∷ vs) = ground (arith, level_block-level_block f g bs vs)

  length-level_block :
      (f : ℕ → A → Option ℕ) (bs ds : List ℕ) (vs : List A)
      → level_block f bs vs ≡ some ds
      → length ds ≡ length bs
  unfolding level_block
  length-level_block f [] ds vs h = ground arith
  length-level_block f (b ∷ bs) ds [] h = ground arith
  length-level_block f (b ∷ bs) ds (v ∷ vs) h =
      let (d, e, h') = >>=-eq-some (f b v) _ h in
      let (es, e', h'') = >>=-eq-some (level_block f bs vs) _ h' in
      let same : ds ≡ d ∷ es = cc in rw same (ap suc (length-level_block f bs es vs e'))

  level_block-some :
      (bs : List ℕ) (vs : List A)
      → length bs ≡ length vs
      → level_block (λ b v. some b) bs vs ≡ some bs
  unfolding level_block
  level_block-some [] vs h = refl
  level_block-some (b ∷ bs) [] h = absurd (omega arith)
  level_block-some (b ∷ bs) (v ∷ vs) h = rw (level_block-some bs vs (omega arith))

  level_block-cong :
      (f g : ℕ → A → Option ℕ) (bs : List ℕ) (vs : List A)
      → ((b : ℕ) (v : A) → f b v ≡ g b v)
      → level_block f bs vs ≡ level_block g bs vs
  level_block-cong f g bs vs h = ap (λ k. level_block k bs vs) (fun_ext λ b. fun_ext λ v. h b v)

  descend_block_lem :
      (levels : ℕ) (c : Classifier A) (bs : List ℕ) (vs : List A)
      → length bs ≡ length vs
      → descend_block comp levels c bs vs ≡ level_block (λ b v. descend comp levels b c v) bs vs
  unfolding descend_block descend
  descend_block_lem zero c bs vs h = sym (level_block-some bs vs h)
  descend_block_lem (suc levels) c bs vs h =
      >>=-cong (level_block step bs vs) _ _
        (λ ds e. descend_block_lem levels c ds vs (length-level_block step bs ds vs e ∙ h))
      ∙ level_block-level_block step (λ b v. descend comp levels b c v) bs vs
      ∙ level_block-cong _ _ bs vs (λ b v.
        >>=_assoc (fetch c.storage b) (λ s. some (2 * b + bit (comp s v)))
          (λ d. descend comp levels d c v))
    where
      step : ℕ → A → Option ℕ
      step b v = fetch c.storage b >>= λ s. some (2 * b + bit (comp s v))

  level_block-replicate :
      (f : ℕ → A → Option ℕ) (b : ℕ) (vs : List A)
      → level_block f (replicate (length vs) b) vs ≡ map_option (f b) vs
  unfolding level_block
  level_block-replicate f b [] = refl
  level_block-replicate f b (v ∷ vs) = ground (arith, level_block-replicate f b vs)

  map_option-map :
      (f : A → Option ℕ) (g : ℕ → ℕ) (vs : List A)
      → (map_option f vs >>= λ ds. some (map g ds)) ≡ map_option (λ v. f v >>= λ d. some (g d)) vs
  map_option-map f g [] = refl
  map_option-map f g (v ∷ vs) = ground (arith, map_option-map f g vs)

  -- A round of the unrolled loop is the loop over the rest on the same elements.
  classify_block_lem :
      (equal_buckets : Bool) (k : ℕ) (c : Classifier A) (vs : List A)
      → classify_block comp equal_buckets k c vs
        ≡ map_option (classify_rest comp equal_buckets k c) vs
  unfolding classify_block classify_rest
  classify_block_lem false k c vs =
      rw (descend_block_lem k c (replicate (length vs) 1) vs (length-replicate (length vs) 1)) (
        rw (level_block-replicate (λ b v. descend comp k b c v) 1 vs)
          (map_option-map (λ v. descend comp k 1 c v) (λ d. d - 2 ^ (k + 0)) vs))
  classify_block_lem true k c vs =
      rw (descend_block_lem k c (replicate (length vs) 1) vs (length-replicate (length vs) 1)) (
        sym (
          >>=_assoc (level_block search (replicate (length vs) 1) vs)
            (λ bs. level_block digit bs vs) yield)
        ∙ ap (λ m. m >>= yield)
            (level_block-level_block search digit (replicate (length vs) 1) vs
              ∙ level_block-replicate (λ b v. search b v >>= λ d. digit d v) 1 vs)
        ∙ map_option-map (λ v. search 1 v >>= λ d. digit d v) (λ d. d - num_buckets) vs
        ∙ ap (λ f. map_option f vs)
            (fun_ext λ v. >>=_assoc (search 1 v) (λ d. digit d v) (λ d. some (d - num_buckets))))
    where
      num_buckets : ℕ
      num_buckets = 2 ^ (k + bit true)

      search : ℕ → A → Option ℕ
      search b v = descend comp k b c v

      digit : ℕ → A → Option ℕ
      digit b v = equal_level comp (b - num_buckets / 2) b c v

      yield : List ℕ → Option (List ℕ)
      yield ds = some (map (λ d. d - num_buckets) ds)

  classify_loop_lem :
      (fuel unroll : ℕ) (equal_buckets : Bool) (k : ℕ) (c : Classifier A) (vs : List A)
      → 0 < unroll
      → length vs < fuel
      → classify_loop comp fuel unroll equal_buckets k c vs
        ≡ map_option (classify_rest comp equal_buckets k c) vs
  unfolding classify_loop
  classify_loop_lem zero unroll equal_buckets k c vs pos h = absurd (omega arith)
  classify_loop_lem (suc fuel) unroll equal_buckets k c vs pos h =
      elim (dec_le unroll (length vs)) [
        | yes p ↦ rw (le→leb unroll (length vs) p) (
            rw (classify_block_lem equal_buckets k c (take unroll vs)) (
              rw
                (classify_loop_lem fuel unroll equal_buckets k c (drop unroll vs) pos
                  (omega (arith, length-drop unroll vs)))
                (sym (
                    map_option-append (classify_rest comp equal_buckets k c) (take unroll vs)
                      (drop unroll vs))
                  ∙ ap (map_option (classify_rest comp equal_buckets k c))
                      (take-append-drop unroll vs))))
        | no q ↦ rw (lt→leb unroll (length vs) (omega arith))
      ]

  module _ (w : IsStrictWeak comp) (s : List A) (c : Classifier A) (b : IsBuilt comp s c) where
    classify_rest_lem :
        (equal_buckets : Bool) (v : A)
        → classify_rest comp equal_buckets c.log_buckets c v ≡ classify comp equal_buckets c v
    unfolding classify classify_rest
    classify_rest_lem false v =
        let n : 2 ^ (c.log_buckets + bit false) ≡ c.num_buckets =
          ap (λ (t : ℕ). 2 ^ t) (add-zero c.log_buckets) ∙ sym b.buckets in
        rw (n, le→ltb c.log_buckets 1 b.levels.0, le→ltb 9 c.log_buckets (omega (arith, b.levels)))
    classify_rest_lem true v =
        let n : 2 ^ (c.log_buckets + bit true) ≡ 2 * c.num_buckets =
          ap (λ (t : ℕ). 2 ^ t) (add-one c.log_buckets)
          ∙ omega (arith, two_pow c.log_buckets, b.buckets) in
        let half : 2 * c.num_buckets / 2 ≡ c.num_buckets = omega arith in
        rw (
          n,
          half,
          le→ltb c.log_buckets 1 b.levels.0,
          le→ltb 9 c.log_buckets (omega (arith, b.levels)),
        )

    -- With a strict weak ordering and a classifier that is built, the unrolled classification of a
    -- range that is at least as long as a block, which is not empty, yields the bucket of each element,
    -- in order.
    pub classify_range_lem :
        (cfg : Config) (equal_buckets : Bool) (vs : List A)
        → 0 < cfg.unroll_classifier
        → cfg.unroll_classifier ≤ length vs
        → classify_range comp cfg equal_buckets c vs
          ≡ some (map (bucket_of comp equal_buckets s) vs)
    unfolding classify_range classify_unrolled
    classify_range_lem cfg equal_buckets vs pos long =
        rw
          (
            le→ltb c.log_buckets 1 b.levels.0,
            le→ltb 8 c.log_buckets (omega (arith, b.levels)),
            lt→leb (length vs) 0 (omega arith),
            le→ltb (length vs) cfg.unroll_classifier long,
            classify_loop_lem (suc (length vs)) cfg.unroll_classifier equal_buckets c.log_buckets c
                vs pos (omega arith),
          )
          (map_option-some _ _ vs
            (λ v. classify_rest_lem equal_buckets v ∙ classify_lem comp w s c b equal_buckets v))
