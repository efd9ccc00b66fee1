-- ===== src/Classifier/Classify.antt =====
-- `build` succeeds on ascending splitters that fit, and `classify` then finds the bucket of a value.
use ps4o.Base.{
  ℕ, zero, suc, ◌+◌, ◌-◌, ◌*◌, ◌^◌, ◌≤◌, ◌<◌, ◌≡◌, refl, sym, ◌∙◌, ap, Bool, true, false, le→ltb,
  none, some, List, arith, length, get_elem?, get_elem?-some, get_elem?-none, Cells, fetch,
  fetch_before, construct, store-some, fetch-store_self, fetch-store_other, fetch_before-eq,
  IsStrictWeak, IsSorted,
}
use mathlib.Core.Option.{some-injective}
use ps4o.Classifier.{Classifier, build, equal_level, classify}
use ps4o.Classifier.Rank.{
  rank, equal_digit, bucket_of, Low-rank, rank-le, bucket-order, bucket-equal,
}
use ps4o.Classifier.Tree.{IsFilled, build_tree_root}
use ps4o.Classifier.Search.{IsBuilt, descend_root}
use ps4o.Config.Bounds.{two_pow, two_pow_pos, two_pow_mono}
use native.Mathlib.Decide.{dec_lt}

cancel : (m n : ℕ) → m + n - m ≡ n
cancel m n = omega arith

-- Splitters in the sorted storage, before `build`, with room for the tree.
pub record IsLoaded {ℓ} {A : Type ℓ} (comp : A → A → Bool) (k : ℕ) (s : List A) (c : Classifier A)
    : Type ℓ where
  pub ascending : IsSorted comp s
  pub levels : (1 ≤ k) × (k ≤ 8)
  pub full : suc (length s) ≡ 2 ^ k
  pub splitters : (i : ℕ) → i < length s → fetch c.sorted_storage i ≡ get_elem? s i
  pub room : (2 ^ k ≤ length c.storage) × (2 ^ k ≤ length c.sorted_storage)

module _ {ℓ} {A : Type ℓ} (comp : A → A → Bool) where
  filled :
      (s : List A) (sorted : Cells A) (num : ℕ)
      → suc (length s) ≡ num
      → ((i : ℕ) → i < length s → fetch sorted i ≡ get_elem? s i)
      → fetch sorted (length s) ≡ get_elem? s (length s - 1)
      → 0 < length s
      → IsFilled num sorted
  filled s sorted num n same last pos i lt = elim (dec_lt i (length s)) [
    | yes p ↦ let (x, e) = get_elem?-some s i p in (x, same i p ∙ e)
    | no q ↦
        let (x, e) = get_elem?-some s (length s - 1) (omega arith) in
        let here : i ≡ length s = omega arith in (x, ap (fetch sorted) here ∙ last ∙ e)
  ]

  -- From ascending splitters, one fewer than a power of two up to 256, that stand in a sorted storage
  -- with room for one more, `build` reads live cells only, stays inside the storages, and makes a
  -- classifier that is built: a search tree of the splitters, the last splitter duplicated.
  pub build_lem :
      (k : ℕ) (s : List A) (c : Classifier A)
      → IsLoaded comp k s c
      → (d : Classifier A) × (build k c ≡ some d) × IsBuilt comp s d
  unfolding build
  build_lem zero s c h = absurd (omega arith)
  build_lem (suc j) s c h =
      let n : length s ≡ 2 ^ suc j - 1 = omega (arith, h.full) in
      let pos : 0 < length s = omega (arith, h.full, two_pow j, two_pow_pos j) in
      let (x, ex) = get_elem?-some s (length s - 1) (omega arith) in
      let (sorted, es) =
        store-some c.sorted_storage (length s) (some x) (omega (arith, h.full, h.room)) in
      let splitters : (i : ℕ) → i < length s → fetch sorted i ≡ get_elem? s i = λ i lt.
        fetch-store_other c.sorted_storage sorted (length s) i (some x) es (omega arith)
        ∙ h.splitters i lt in
      let duplicate : fetch sorted (length s) ≡ get_elem? s (length s - 1) =
        fetch-store_self c.sorted_storage sorted (length s) (some x) es ∙ sym ex in
      let fb : fetch_before c.sorted_storage (2 ^ suc j - 1) ≡ some x =
        ap (fetch_before c.sorted_storage) (sym n)
        ∙ fetch_before-eq c.sorted_storage (length s) pos
        ∙ h.splitters (length s - 1) (omega arith)
        ∙ ex in
      let es' : construct c.sorted_storage (2 ^ suc j - 1) x ≡ some sorted =
        ap (λ i. construct c.sorted_storage i x) (sym n) ∙ es in
      let (t, et, tree, nt, frame) =
        build_tree_root j sorted c.storage
          (filled s sorted (2 ^ suc j) h.full splitters duplicate pos) h.room.0 in
      (
        record {
          storage = t;
          sorted_storage = sorted;
          log_buckets = suc j;
          num_buckets = 2 ^ suc j;
        },
        rw fb (rw es' (rw et)),
        record {
          ascending = h.ascending;
          levels = h.levels;
          buckets = refl;
          full = h.full;
          splitters = splitters;
          duplicate = duplicate;
          tree = tree;
        },
      )

  module _ (w : IsStrictWeak comp) (s : List A) (c : Classifier A) (b : IsBuilt comp s c) where
    some_splitter : 0 < length s
    some_splitter =
        omega (arith, b.full, b.buckets, two_pow_mono {i = 1} {j = c.log_buckets} b.levels.0)

    equal_level_lem :
        (v : A)
        → equal_level comp (rank comp s v) (c.num_buckets + rank comp s v) c v
          ≡ some (
              2 * (c.num_buckets + rank comp s v)
              + equal_digit comp (get_elem? s (rank comp s v)) v)
    unfolding equal_level equal_digit
    equal_level_lem v = elim (dec_lt (rank comp s v) (length s)) [
      | yes p ↦
          let (x, e) = get_elem?-some s (rank comp s v) p in rw (b.splitters (rank comp s v) p, e)
      | no q ↦
          let last : rank comp s v ≡ length s = omega (arith, rank-le comp s v) in
          let (x, e) = get_elem?-some s (length s - 1) (omega (arith, some_splitter)) in
          let at : fetch c.sorted_storage (rank comp s v) ≡ some x =
            ap (fetch c.sorted_storage) last ∙ b.duplicate ∙ e in
          let beyond : get_elem? s (rank comp s v) ≡ none =
            get_elem?-none s (rank comp s v) (omega arith) in
          let less =
            Low-rank comp w s v b.ascending (length s - 1) x (omega (arith, some_splitter)) e in
          rw (at, beyond, w.asymm x v less)
    ]

    -- With a strict weak ordering and a classifier that is built from the splitters `s`, `classify`
    -- returns the bucket of the value: the number of splitters before it, or, with equality buckets,
    -- twice that and one more if the value is not before the next splitter or there is none.
    pub classify_lem :
        (equal_buckets : Bool) (v : A)
        → classify comp equal_buckets c v ≡ some (bucket_of comp equal_buckets s v)
    unfolding classify bucket_of
    classify_lem false v =
        rw
          (
            le→ltb c.log_buckets 1 b.levels.0,
            le→ltb 9 c.log_buckets (omega (arith, b.levels)),
            descend_root comp w s c v b,
          )
          (ap some (cancel c.num_buckets (rank comp s v)))
    classify_lem true v =
        rw
          (
            le→ltb c.log_buckets 1 b.levels.0,
            le→ltb 9 c.log_buckets (omega (arith, b.levels)),
            descend_root comp w s c v b,
            cancel c.num_buckets (rank comp s v),
            equal_level_lem v,
          )
          (ap some (omega arith))

    -- With a strict weak ordering and a classifier that is built, a value that `classify` puts into an
    -- earlier bucket than another is smaller, whether or not there are equality buckets.
    pub classify-order :
        (equal_buckets : Bool) (x y : A) (i j : ℕ)
        → classify comp equal_buckets c x ≡ some i
        → classify comp equal_buckets c y ≡ some j
        → i < j
        → comp x y ≡ true
    classify-order equal_buckets x y i j ex ey lt =
        let ix : bucket_of comp equal_buckets s x ≡ i =
          some-injective _ _ (sym (classify_lem equal_buckets x) ∙ ex) in
        let iy : bucket_of comp equal_buckets s y ≡ j =
          some-injective _ _ (sym (classify_lem equal_buckets y) ∙ ey) in
        bucket-order comp w equal_buckets s x y b.ascending (omega arith)

    -- With a strict weak ordering, a classifier that is built, and equality buckets: two values that
    -- `classify` puts into one bucket of odd number, the last bucket excepted, are equal, neither comes
    -- before the other.
    pub classify-equal :
        (x y : A) (r : ℕ)
        → r + 1 < c.num_buckets
        → classify comp true c x ≡ some (2 * r + 1)
        → classify comp true c y ≡ some (2 * r + 1)
        → (comp x y ≡ false) × (comp y x ≡ false)
    classify-equal x y r lt ex ey =
        bucket-equal comp w s x y r b.ascending (omega (arith, b.full))
          (some-injective _ _ (sym (classify_lem true x) ∙ ex))
          (some-injective _ _ (sym (classify_lem true y) ∙ ey))
