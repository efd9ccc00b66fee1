-- ===== src/LocalClassification/Counts.antt =====
-- `classify_locally` writes the bucket of every element to the oracle, and counts the buckets.
use ps4o.Base.{
  ℕ, suc, ◌+◌, ◌*◌, ◌%◌, ◌≤◌, ◌<◌, ◌≡◌, refl, sym, ap, ◌∙◌, Bool, bit, if◌then◌else◌, ◌==◌, some,
  List, [], ◌∷◌, map, arith, length, get_elem?, store-some, get_elem?-some, get_elem?-store_self,
  get_elem?-store_other, length-store, All, All-map, IsStrictWeak,
}
use ps4o.Config.{Config}
use ps4o.Classifier.{Classifier}
use ps4o.Classifier.Rank.{bucket_of, bucket_of-lt}
use ps4o.Classifier.Search.{IsBuilt}
use ps4o.Classifier.Unrolled.{classify_range_lem}
use ps4o.LocalClassification.{Classified, increment, count_buckets, classify_locally}
use ps4o.LocalClassification.Arrays.{fill_lem}
use native.Mathlib.Decide.{ℕ_discrete}

-- How often `b` occurs
unfoldable pub count : ℕ → List ℕ → ℕ
count b [] = 0
count b (x ∷ l) = (if x == b then 1 else 0) + count b l

-- What the loop of the callback makes of the sizes `a`.
record Counted (buckets a : List ℕ) (r : Classified) : Type 0 where
  bytes : r.oracle ≡ map (λ b. b % 256) buckets
  size : length r.bucket_size ≡ length a
  counts :
      (j n : ℕ) → get_elem? a j ≡ some n → get_elem? r.bucket_size j ≡ some (n + count j buckets)

increment_lem :
    (i : ℕ) (a : List ℕ)
    → i < length a
    → (b : List ℕ) × (increment i a ≡ some b)
      × (length b ≡ length a)
      × ((j n : ℕ) → get_elem? a j ≡ some n → get_elem? b j ≡ some (n + (if i == j then 1 else 0)))
unfolding increment
increment_lem i a h =
    let (m, em) = get_elem?-some a i h in
    let (b, eb) = store-some a i (m + 1) h in
    (
      b,
      rw em eb,
      length-store a b i (m + 1) eb,
      λ j n e. elim (ℕ_discrete i j) [
        | yes same ↦
            let here = get_elem?-store_self a b i (m + 1) eb in
            let e' : get_elem? a i ≡ some n = ap (get_elem? a) same ∙ e in
            ap (get_elem? b) (sym same) ∙ here ∙ ground arith
        | no ne ↦ get_elem?-store_other a b i j (m + 1) eb (omega arith) ∙ e ∙ ground arith
      ],
    )

count_buckets_lem :
    (buckets a : List ℕ)
    → All (λ b. b < length a) buckets
    → (r : Classified) × (count_buckets buckets a ≡ some r) × Counted buckets a r
unfolding count_buckets count
count_buckets_lem [] a h = (
  record { oracle = []; bucket_size = a },
  refl,
  record { bytes = refl; size = refl; counts = λ j n e. e ∙ ap some (omega arith) },
)
count_buckets_lem (b ∷ buckets) a h =
    let (c, ec, nc, inc) = increment_lem b a h.0 in
    let (r, er, k) = count_buckets_lem buckets c (All-map _ _ (λ x p. omega arith) buckets h.1) in
    (
      record r { oracle = (b % 256) ∷ r.oracle },
      rw ec (rw er),
      record {
        bytes = ap (◌∷◌ (b % 256)) k.bytes;
        size = k.size ∙ nc;
        counts = λ j n e. k.counts j _ (inc j n e) ∙ ap some (omega arith);
      },
    )

pub All-of_map {ℓ} :
    {A : Type ℓ} (f : A → ℕ) (m : ℕ)
    → ((x : A) → f x < m)
    → (xs : List A) → All (λ b. b < m) (map f xs)
All-of_map f m h [] = tt
All-of_map f m h (x ∷ xs) = (h x, All-of_map f m h xs)

bytes_of_small {ℓ} :
    {A : Type ℓ} (f : A → ℕ) (m : ℕ)
    → m ≤ 256
    → ((x : A) → f x < m)
    → (xs : List A) → map (λ b. b % 256) (map f xs) ≡ map f xs
bytes_of_small f m le h [] = refl
bytes_of_small f m le h (x ∷ xs) =
    let small : f x % 256 ≡ f x = omega (arith, h x) in rw (small, bytes_of_small f m le h xs)

module _ {ℓ} {A : Type ℓ} (comp : A → A → Bool) where
  -- The outcome of a local classification with the splitters `s`.
  pub record IsClassified (equal_buckets : Bool) (s : List A) (num_buckets : ℕ) (vs : List A)
      (r : Classified) : Type 0 where
    pub oracle : r.oracle ≡ map (bucket_of comp equal_buckets s) vs
    pub counts :
        (j : ℕ)
        → j < num_buckets
        → get_elem? r.bucket_size j ≡ some (count j (map (bucket_of comp equal_buckets s) vs))

  module _ (w : IsStrictWeak comp) (s : List A) (c : Classifier A) (b : IsBuilt comp s c) where
    -- With a strict weak ordering, a classifier that is built, at most 256 buckets, which an oracle
    -- entry can hold, and a range that is at least as long as a block of the unrolled loop, which is
    -- not empty, the oracle gets the bucket of every element, and the size of every bucket is counted,
    -- whatever the sizes were before.
    pub classify_locally_lem :
        (cfg : Config) (equal_buckets : Bool) (num_buckets : ℕ) (vs : List A) (bucket_size : List ℕ)
        → num_buckets ≡ suc (length s) * (1 + bit equal_buckets)
        → num_buckets ≤ 256
        → num_buckets ≤ length bucket_size
        → 0 < cfg.unroll_classifier
        → cfg.unroll_classifier ≤ length vs
        → (r : Classified) × (classify_locally comp cfg equal_buckets num_buckets c vs bucket_size
            ≡ some r)
          × IsClassified equal_buckets s num_buckets vs r
    unfolding classify_locally
    classify_locally_lem cfg eq num vs sizes en small room pos long =
        let (zeroed, ez, f) =
          fill_lem num 0 num (λ _. some 0) sizes (omega arith) room (λ j p. (0, refl)) in
        let lt : (x : A) → bucket_of comp eq s x < num =
          λ x. omega (arith, bucket_of-lt comp w eq s x) in
        let (r, er, k) = count_buckets_lem (map (bucket_of comp eq s) vs) zeroed (
          All-of_map (bucket_of comp eq s) (length zeroed) (λ x. omega (arith, lt x, f.size)) vs) in
        (
          r,
          rw (ez, classify_range_lem comp w s c b cfg eq vs pos long) er,
          record {
            oracle = k.bytes ∙ bytes_of_small (bucket_of comp eq s) num small lt vs;
            counts = λ j p. k.counts j 0 (f.inside j (omega arith) p) ∙ ap some (omega arith);
          },
        )
