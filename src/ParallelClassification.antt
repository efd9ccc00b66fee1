-- ===== src/ParallelClassification.antt =====
-- include/ps4o/local_classification.hpp, parallelClassification: what each thread does before the first
-- barrier, and the scan that the first thread does before the second one.
pub mod Starts
use ps4o.Base.{
  ℕ, zero, suc, ◌+◌, ◌-◌, ◌*◌, Bool, if◌then◌else◌, ltb, Option, none, some, ◌>>=◌, List, [],
  length, get_elem?, store,
}
use ps4o.Config.{Config, max_buckets}
use ps4o.Classifier.{Classifier}
use ps4o.LocalClassification.{Classified, fill, classify_locally}

-- What a thread leaves at the first barrier: its oracle, its sizes, and the sizes of all threads
pub record Published : Type 0 where
  pub classified : Classified
  pub shared_bucket_size : List ℕ

module _ {ℓ} {A : Type ℓ} (comp : A → A → Bool) (cfg : Config) where
  -- A thread whose stripe is empty does not classify: its sizes stay as they are.
  pub classify_stripe :
      (equal_buckets : Bool) (num_buckets my_id : ℕ) (c : Classifier A) (values : List A)
      (bucket_size shared_bucket_size : List ℕ)
      → Option Published
  classify_stripe equal_buckets num_buckets my_id c values bucket_size shared_bucket_size = do
    let first = max_buckets cfg * my_id
    r ←
        if ltb 0 (length values)
        then classify_locally comp cfg equal_buckets num_buckets c values bucket_size
        else some (record { oracle = []; bucket_size = bucket_size })
    sizes ← fill num_buckets first (λ i. get_elem? r.bucket_size (i - first)) shared_bucket_size
    some (record { classified = r; shared_bucket_size = sizes })

-- The arrays that the scan writes: `bucket_start` of every thread, and `bucket_start_save`
pub record Offsets : Type 0 where
  pub bucket_starts : List (List ℕ)
  pub bucket_start_save : List ℕ

-- `shared_->local[thread]->bucket_start[bucket] = off`
pub set_start : (thread bucket off : ℕ) (starts : List (List ℕ)) → Option (List (List ℕ))
set_start thread bucket off starts = do
  row ← get_elem? starts thread
  new_row ← store row bucket off
  store starts thread new_row

module _ (max_buckets : ℕ) (bucket_size : List ℕ) where
  -- The inner loop: the arrays after it, and `off`
  pub scan_threads :
      (rounds thread bucket off : ℕ) (starts : List (List ℕ)) → Option (List (List ℕ) × ℕ)
  scan_threads zero thread bucket off starts = some (starts, off)
  scan_threads (suc rounds) thread bucket off starts = do
    next ← set_start thread bucket off starts
    n ← get_elem? bucket_size (thread * max_buckets + bucket)
    scan_threads rounds (suc thread) bucket (off + n) next

  -- The outer loop
  pub scan_buckets : (num_threads rounds bucket off : ℕ) (o : Offsets) → Option Offsets
  scan_buckets num_threads zero bucket off o = some o
  scan_buckets num_threads (suc rounds) bucket off o = do
    (starts, next) ← scan_threads num_threads 0 bucket off o.bucket_starts
    saved ← store o.bucket_start_save (bucket + 1) next
    scan_buckets num_threads rounds (suc bucket) next
        (record { bucket_starts = starts; bucket_start_save = saved })

  -- The part of the first thread
  pub scan : (num_buckets num_threads : ℕ) (o : Offsets) → Option Offsets
  unfolding scan_buckets
  scan num_buckets num_threads o = do
    saved ← store o.bucket_start_save 0 0
    scan_buckets num_threads num_buckets 0 0 (record o { bucket_start_save = saved })
