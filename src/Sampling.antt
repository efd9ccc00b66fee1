-- ===== src/Sampling.antt =====
-- include/ps4o/sampling.hpp: the random sample, the choice of the splitters, and the classifier that is
-- built from them. The sort of the sample is an argument: it is the sequential algorithm itself.
pub mod Select
pub mod Choose
pub mod Build
pub mod Untouched
pub mod Ready
pub mod Whole
use ps4o.Base.{
  ℕ, zero, suc, ◌+◌, ◌-◌, ◌*◌, ◌^◌, max, Bool, ◌&&◌, bit, if◌then◌else◌, leb, Option, some, ◌>>=◌,
  ◌++◌, take, drop, length, Cells, fetch, construct,
}
use ps4o.Config.{Config, log2, oversampling_factor, log_buckets}
use ps4o.Classifier.{Classifier, build}
use ps4o.Memory.{RandomSource, LocalData, Arrays}

-- The result of `buildClassifier`
pub record Buckets : Type 0 where
  pub num_buckets : ℕ
  pub use_equal_buckets : Bool

-- The splitters so far: the storage and the index of the last one
pub record Chosen {ℓ} (A : Type ℓ) : Type ℓ where
  pub sorted : Cells A
  pub last : ℕ

module _ {ℓ} {A : Type ℓ} where
  -- `swap(a[i], a[j])`
  pub swap : (i j : ℕ) → Cells A → Option (Cells A)
  swap i j a = do x ← fetch a i; y ← fetch a j; b ← construct a i y; construct b j x

  module _ {G : Type 0} (random : RandomSource G) where
    -- `selectSample`, with `begin` at index `i` and `n` elements from there on
    pub select_sample : (num_samples i n : ℕ) → Cells A → G → Option (Cells A × G)
    select_sample zero i n a g = some (a, g)
    select_sample (suc num_samples) i n a g = do
      let (k, g') = random.draw (n - 1) g
      b ← swap i (i + k) a
      select_sample num_samples (suc i) (n - 1) b g'

module _ {ℓ} {A : Type ℓ} (comp : A → A → Bool) where
  -- The loop that skips duplicates, with `splitter` at index `at` of the sample
  pub choose_splitters : (rounds step at : ℕ) (sample : Cells A) → Chosen A → Option (Chosen A)
  choose_splitters zero step at sample c = some c
  choose_splitters (suc rounds) step at sample c = do
    x ← fetch c.sorted c.last
    y ← fetch sample (at + step)
    let grown = construct c.sorted (suc c.last) y >>= λ sorted.
        some (record { sorted = sorted; last = suc c.last })
    d ← if comp x y then grown else some c
    choose_splitters rounds step (at + step) sample d

-- The loop that fills the array to the next power of two
pub pad_splitters {ℓ} : {A : Type ℓ} (rounds : ℕ) (splitter : A) → Chosen A → Option (Chosen A)
pad_splitters zero splitter c = some c
pad_splitters (suc rounds) splitter c = do
  sorted ← construct c.sorted (suc c.last) splitter
  pad_splitters rounds splitter (record { sorted = sorted; last = suc c.last })

module _ {ℓ} {A : Type ℓ} {G : Type 0} (comp : A → A → Bool) (random : RandomSource G)
    (cfg : Config) where
  -- From the sorted sample: the splitters, then the tree
  pub build_from_sample :
      (step num_buckets : ℕ) (sample : Cells A) (c : Classifier A) → Option (Classifier A × Buckets)
  build_from_sample step num_buckets sample c = do
    first ← fetch sample (step - 1)
    sorted ← construct c.sorted_storage 0 first
    chosen ←
        choose_splitters comp (num_buckets - 2) step (step - 1) sample
          (record { sorted = sorted; last = 0 })
    splitter ← fetch sample (step - 1 + (num_buckets - 2) * step)
    let diff_splitters = chosen.last + 1
    let equal_buckets =
        cfg.allow_equal_buckets
        && leb cfg.equal_buckets_threshold (num_buckets - 1 - diff_splitters)
    let log_buckets' = log2 diff_splitters + 1
    let num_buckets' = 2 ^ log_buckets'
    padded ← pad_splitters (num_buckets' - (diff_splitters + 1)) splitter chosen
    built ← build log_buckets' (record c { sorted_storage = padded.sorted })
    some (
      built,
      record {
        num_buckets = num_buckets' * (1 + bit equal_buckets);
        use_equal_buckets = equal_buckets;
      },
    )

  -- `buildClassifier` on the thread's own classifier
  unfoldable pub build_classifier :
      (sort_sample : LocalData A G → Arrays A → Option (LocalData A G × Arrays A))
      (d : LocalData A G) (a : Arrays A)
      → Option (LocalData A G × Arrays A × Buckets)
  build_classifier sort_sample d a = do
    let n = length a.src
    let num_buckets = 2 ^ log_buckets cfg n
    let step = max 1 (oversampling_factor cfg n)
    let num_samples = step * num_buckets - 1
    (src, g) ← select_sample random num_samples 0 n a.src d.random_generator
    (e, sample) ←
        sort_sample (record d { random_generator = g })
          (record { src = take num_samples src; tmp = take num_samples a.tmp })
    (c, buckets) ← build_from_sample step num_buckets sample.src e.classifier
    some (
      record e { classifier = c },
      record {
        src = sample.src ++ drop num_samples src;
        tmp = sample.tmp ++ drop num_samples a.tmp;
      },
      buckets,
    )
