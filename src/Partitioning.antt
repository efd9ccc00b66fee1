-- ===== src/Partitioning.antt =====
-- include/ps4o/partitioning.hpp: the distribution of the elements, and one partitioning step of the
-- sequential algorithm.
pub mod Regions
pub mod Layout
pub mod Distribute
pub mod Scatter
pub mod Dead
pub mod Step
pub mod Grouped
pub mod Pieces
pub mod Finish
pub mod Settle
pub mod Ordered
pub mod LastLevel
pub mod Lengths
pub mod Whole
use ps4o.Base.{
  ℕ, zero, suc, ◌+◌, ◌-◌, ◌*◌, Bool, true, false, ◌||◌, if◌then◌else◌, leb, Option, none, some,
  ◌>>=◌, List, [], map, length, get_elem?, store, replicate, Cells, fetch, construct, destroy,
}
use ps4o.Config.{Config, max_buckets}
use ps4o.BaseCase.{base_case_sort}
use ps4o.LocalClassification.{sequential_classification}
use ps4o.Memory.{
  RandomSource, LocalData, reset_local, Arrays, read_range, splice, relocate, for_buckets,
}
use ps4o.Sampling.{Buckets, build_classifier}

-- The storages after a distribution, and `bucket_start` with the ends of what has been written
pub record Distributed {ℓ} (A : Type ℓ) : Type ℓ where
  pub arrays : Arrays A
  pub bucket_start : List ℕ

module _ {ℓ} {A : Type ℓ} where
  -- `distributeElements`, with `ptr` at index `i`
  unfoldable pub distribute_elements :
      (rounds i : ℕ) (oracle : List ℕ) (d : Distributed A) → Option (Distributed A)
  distribute_elements zero i oracle d = some d
  distribute_elements (suc rounds) i oracle d = do
    bucket ← get_elem? oracle i
    at ← get_elem? d.bucket_start bucket
    v ← fetch d.arrays.src i
    tmp ← construct d.arrays.tmp at v
    src ← destroy d.arrays.src i
    starts ← store d.bucket_start bucket (at + 1)
    distribute_elements rounds (suc i) oracle
        (record { arrays = record { src = src; tmp = tmp }; bucket_start = starts })

module _ {ℓ} {A : Type ℓ} (comp : A → A → Bool) (cfg : Config) (saved : List ℕ)
    (in_input_array : Bool) where
  -- The `move` of `partition`
  pub move_bucket : (bucket : ℕ) → Arrays A → Option (Arrays A)
  move_bucket bucket a = do
    start ← get_elem? saved bucket
    stop ← get_elem? saved (bucket + 1)
    let moved = relocate (stop - start) start a.tmp a.src >>= λ (tmp, src).
        some (record { src = src; tmp = tmp })
    if in_input_array then moved else some a

  -- The `sort_and_move` of `partition`
  pub sort_and_move : (last_level : Bool) (bucket : ℕ) → Arrays A → Option (Arrays A)
  sort_and_move last_level bucket a = do
    start ← get_elem? saved bucket
    stop ← get_elem? saved (bucket + 1)
    let sorted = (do
      values ← read_range start stop a.tmp
      ascending ← base_case_sort comp values
      move_bucket bucket (record a { tmp = splice start stop (map some ascending) a.tmp }))
    if last_level || leb (stop - start) (2 * cfg.base_case_size) then sorted else some a

  -- The buckets after the distribution, in the sequential case
  unfoldable pub finish_buckets : (last_level : Bool) (b : Buckets) → Arrays A → Option (Arrays A)
  finish_buckets last_level b a =
      if b.use_equal_buckets
      then (do
        c ←
            for_buckets b.num_buckets 0 (b.num_buckets - 2) 2
              (λ i a. sort_and_move last_level i a >>= λ c. move_bucket (i + 1) c) a
        d ← sort_and_move last_level (b.num_buckets - 2) c
        sort_and_move last_level (b.num_buckets - 1) d)
      else for_buckets (suc b.num_buckets) 0 b.num_buckets 1 (sort_and_move last_level) a

-- What a partitioning step returns, with the boundaries that it saves
pub record Partitioned {ℓ} (A : Type ℓ) (G : Type 0) : Type ℓ where
  pub local : LocalData A G
  pub arrays : Arrays A
  pub buckets : Buckets
  pub bucket_start_save : List ℕ

module _ {ℓ} {A : Type ℓ} {G : Type 0} (comp : A → A → Bool) (cfg : Config) where
  -- The sequential case of the main partitioning function, from the bucket counts on
  pub classify_and_distribute :
      (b : Buckets) (d : LocalData A G) (a : Arrays A) → Option (Partitioned A G)
  classify_and_distribute b d a = do
    values ← read_range 0 (length a.src) a.src
    r ←
        sequential_classification comp cfg b.use_equal_buckets b.num_buckets d.classifier values
          d.bucket_size d.bucket_start (replicate (max_buckets cfg + 1) 0)
    done ←
        distribute_elements (length a.src) 0 r.classified.oracle
          (record { arrays = a; bucket_start = r.boundaries.bucket_start })
    some (record {
      local = record d { bucket_start = done.bucket_start; bucket_size = r.classified.bucket_size };
      arrays = done.arrays;
      buckets = b;
      bucket_start_save = r.boundaries.bucket_start_save;
    })

module _ {ℓ} {A : Type ℓ} {G : Type 0} (comp : A → A → Bool) (random : RandomSource G)
    (cfg : Config) where
  -- `partition<false>`
  unfoldable pub partition :
      (sort_sample : LocalData A G → Arrays A → Option (LocalData A G × Arrays A))
      (last_level in_input_array : Bool) (d : LocalData A G) (a : Arrays A)
      → Option (Partitioned A G)
  partition sort_sample last_level in_input_array d a = do
    (e, b, buckets) ← build_classifier comp random cfg sort_sample d a
    p ← classify_and_distribute comp cfg buckets e b
    c ← finish_buckets comp cfg p.bucket_start_save in_input_array last_level buckets p.arrays
    f ← reset_local p.local
    some (record p { local = f; arrays = c })
