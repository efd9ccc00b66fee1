-- ===== src/LocalClassification.antt =====
-- include/ps4o/local_classification.hpp: the oracle and the bucket sizes of a range, and the bucket
-- boundaries, for one thread and for many.
pub mod Arrays
pub mod Counts
pub mod Scan
pub mod Totals
pub mod Lengths
use ps4o.Base.{
  ℕ, zero, suc, ◌+◌, ◌*◌, ◌%◌, Bool, if◌then◌else◌, ltb, Option, none, some, ◌>>=◌, List, [], ◌∷◌,
  length, get_elem?, store,
}
use ps4o.Config.{Config, max_buckets}
use ps4o.Classifier.{Classifier, classify_range}

-- `for (i = first; i != first + rounds; ++i) a[i] = value(i);`
pub fill : (rounds i : ℕ) (value : ℕ → Option ℕ) (a : List ℕ) → Option (List ℕ)
fill zero i value a = some a
fill (suc rounds) i value a = do v ← value i; b ← store a i v; fill rounds (suc i) value b

-- `++a[i]`
pub increment : (i : ℕ) (a : List ℕ) → Option (List ℕ)
increment i a = do n ← get_elem? a i; store a i (n + 1)

-- What a classification leaves: the oracle of the range, and the sizes.
pub record Classified : Type 0 where
  pub oracle : List ℕ
  pub bucket_size : List ℕ

-- The callback of `classifyLocally`, for each bucket that it gets. An oracle entry is an
-- `unsigned char`.
count_buckets : (buckets bucket_size : List ℕ) → Option Classified
count_buckets [] bucket_size = some (record { oracle = []; bucket_size = bucket_size })
count_buckets (b ∷ buckets) bucket_size = do
  sizes ← increment b bucket_size
  rest ← count_buckets buckets sizes
  some (record rest { oracle = (b % 256) ∷ rest.oracle })

module _ {ℓ} {A : Type ℓ} (comp : A → A → Bool) where
  pub classify_locally :
      (cfg : Config) (equal_buckets : Bool) (num_buckets : ℕ) (c : Classifier A) (values : List A)
      (bucket_size : List ℕ)
      → Option Classified
  unfolding count_buckets
  classify_locally cfg equal_buckets num_buckets c values bucket_size = do
    sizes ← fill num_buckets 0 (λ _. some 0) bucket_size
    buckets ← classify_range comp cfg equal_buckets c values
    count_buckets buckets sizes

-- `std::partial_sum` from `bucket_size` to `bucket_start + 1`, with `sum` so far
partial_sum : (rounds i sum : ℕ) (bucket_size bucket_start : List ℕ) → Option (List ℕ)
partial_sum zero i sum bucket_size bucket_start = some bucket_start
partial_sum (suc rounds) i sum bucket_size bucket_start = do
  n ← get_elem? bucket_size i
  starts ← store bucket_start (suc i) (sum + n)
  partial_sum rounds (suc i) (sum + n) bucket_size starts

-- The bucket boundaries, in the thread's `bucket_start` and in `bucket_start_save`
pub record Boundaries : Type 0 where
  pub bucket_start : List ℕ
  pub bucket_start_save : List ℕ

-- The part of `sequentialClassification` after the classification
pub find_boundaries :
    (num_buckets : ℕ) (bucket_size bucket_start bucket_start_save : List ℕ) → Option Boundaries
find_boundaries num_buckets bucket_size bucket_start bucket_start_save = do
  first ← store bucket_start 0 0
  starts ← partial_sum num_buckets 0 0 bucket_size first
  saved ← fill (num_buckets + 1) 0 (get_elem? starts) bucket_start_save
  some (record { bucket_start = starts; bucket_start_save = saved })

pub record Sequential : Type 0 where
  pub classified : Classified
  pub boundaries : Boundaries

module _ {ℓ} {A : Type ℓ} (comp : A → A → Bool) where
  unfoldable pub sequential_classification :
      (cfg : Config) (equal_buckets : Bool) (num_buckets : ℕ) (c : Classifier A) (values : List A)
      (bucket_size bucket_start bucket_start_save : List ℕ)
      → Option Sequential
  sequential_classification cfg equal_buckets num_buckets c values bucket_size bucket_start saved =
      do
        classified ← classify_locally comp cfg equal_buckets num_buckets c values bucket_size
        boundaries ← find_boundaries num_buckets classified.bucket_size bucket_start saved
        some (record { classified = classified; boundaries = boundaries })
