-- ===== src/Examples.antt =====
-- The theorems applied to small inputs.
mod Data
mod Threads
mod Scheduling
mod Buckets
mod Sorting
mod Parallel
use ps4o.Base.{
  ◌↔◌, ◌⊎◌, ℕ, zero, suc, ◌+◌, ◌*◌, ◌^◌, ◌≤◌, ◌<◌, ◌≡◌, refl, true, false, Option, none, some, List,
  [], ◌∷◌, map, arith, ltb, length, get_elem?, replicate, Cells, IsSorted, IsDescending,
  IsStrictWeak,
}
use mathlib.Core.List.{Perm}
use Data.{
  small_config, numbers, ltb-IsStrictWeak, splitters, loaded, loaded-IsLoaded, built, built-IsBuilt,
}
use ps4o.Config.{Config, default_config, digits, log2, log_buckets, oversampling_factor}
use ps4o.Config.Bounds.{log2_bounds}
use ps4o.Config.Sample.{log_buckets_bounds, sample_fits}
use ps4o.BaseCase.{insertion_sort, base_case_sort, sorted_case_sort, is_sorted}
use ps4o.BaseCase.Insertion.{insertion_sort_lem, base_case_sort_lem}
use ps4o.BaseCase.Presorted.{Reported, sorted_case_sort_lem, sorted_case_sort_iff}
use ps4o.BaseCase.Stripes.{is_sorted_iff}
use ps4o.Classifier.{Classifier, build, classify, classify_range}
use ps4o.Classifier.Rank.{rank, equal_digit, bucket_of}
use ps4o.Classifier.Search.{IsBuilt}
use ps4o.Classifier.Classify.{build_lem, classify_lem, classify-order, classify-equal}
use ps4o.Classifier.Unrolled.{classify_range_lem}
use ps4o.LocalClassification.{Classified, Boundaries, classify_locally, find_boundaries}
use ps4o.LocalClassification.Counts.{count, IsClassified, classify_locally_lem}
use ps4o.LocalClassification.Scan.{prefix, HasBoundaries, find_boundaries_lem}
use ps4o.Partitioning.{Distributed, distribute_elements}
use ps4o.Partitioning.Distribute.{pick}
use ps4o.Partitioning.Scatter.{IsTarget, distribute_elements_lem}

log2_bounds_example : (2 ^ log2 1000 ≤ 1000) × (1000 < 2 ^ suc (log2 1000))
log2_bounds_example = log2_bounds 1000 (omega arith) (omega arith)

log_buckets_bounds_example : (1 ≤ log_buckets small_config 11) × (log_buckets small_config 11 ≤ 2)
log_buckets_bounds_example =
    log_buckets_bounds small_config 11 (omega arith) (omega arith) (omega arith) (omega arith)

sample_fits_example :
    oversampling_factor default_config 5000 * 2 ^ log_buckets default_config 5000 ≤ 5000
sample_fits_example = sample_fits 5000 (omega arith) (omega arith)

base_case_sort_lem_example :
    (b : List ℕ) × (base_case_sort ltb numbers ≡ some b) × IsSorted ltb b × Perm b numbers
base_case_sort_lem_example = base_case_sort_lem ltb ltb-IsStrictWeak numbers

sorted_case_sort_lem_example : Reported ltb ltb-IsStrictWeak numbers (sorted_case_sort ltb numbers)
sorted_case_sort_lem_example = sorted_case_sort_lem ltb ltb-IsStrictWeak numbers

sorted_case_sort_iff_example :
    ((sorted_case_sort ltb numbers).sorted ≡ true)
    ↔ (IsSorted ltb numbers ⊎ IsDescending ltb numbers)
sorted_case_sort_iff_example = sorted_case_sort_iff ltb ltb-IsStrictWeak numbers

build_lem_example : (d : Classifier ℕ) × (build 2 loaded ≡ some d) × IsBuilt ltb splitters d
build_lem_example = build_lem ltb 2 splitters loaded loaded-IsLoaded

classify_lem_example : classify ltb true built 7 ≡ some (bucket_of ltb true splitters 7)
classify_lem_example = classify_lem ltb ltb-IsStrictWeak splitters built built-IsBuilt true 7

bucket_of_0 : classify ltb true built 0 ≡ some 0
unfolding bucket_of rank equal_digit
bucket_of_0 = classify_lem ltb ltb-IsStrictWeak splitters built built-IsBuilt true 0

bucket_of_2 : classify ltb true built 2 ≡ some (2 * 0 + 1)
unfolding bucket_of rank equal_digit
bucket_of_2 = classify_lem ltb ltb-IsStrictWeak splitters built built-IsBuilt true 2

classify-order_example : ltb 0 2 ≡ true
classify-order_example =
    classify-order ltb ltb-IsStrictWeak splitters built built-IsBuilt true 0 2 0 1 bucket_of_0
      bucket_of_2 (omega arith)

classify-equal_example : (ltb 2 2 ≡ false) × (ltb 2 2 ≡ false)
classify-equal_example =
    classify-equal ltb ltb-IsStrictWeak splitters built built-IsBuilt 2 2 0 (omega arith)
      bucket_of_2 bucket_of_2

classify_range_lem_example :
    classify_range ltb default_config true built numbers
    ≡ some (map (bucket_of ltb true splitters) numbers)
classify_range_lem_example =
    classify_range_lem ltb ltb-IsStrictWeak splitters built built-IsBuilt default_config true
      numbers (omega arith) (omega arith)

classify_locally_lem_example :
    (r : Classified) × (classify_locally ltb default_config true 8 built numbers (replicate 8 3)
      ≡ some r)
    × IsClassified ltb true splitters 8 numbers r
classify_locally_lem_example =
    classify_locally_lem ltb ltb-IsStrictWeak splitters built built-IsBuilt default_config true 8
      numbers (replicate 8 3) (omega arith) (omega arith) (omega arith) (omega arith) (omega arith)

sizes_of : ℕ → ℕ
sizes_of zero = 3
sizes_of (suc zero) = 0
sizes_of (suc (suc j)) = 2

sizes_example : (j : ℕ) → j < 3 → get_elem? (3 ∷ 0 ∷ 2 ∷ []) j ≡ some (sizes_of j)
unfolding sizes_of
sizes_example zero h = refl
sizes_example (suc zero) h = refl
sizes_example (suc (suc zero)) h = refl
sizes_example (suc (suc (suc j))) h = absurd (omega arith)

find_boundaries_lem_example :
    (b : Boundaries) × (find_boundaries 3 (3 ∷ 0 ∷ 2 ∷ []) (9 ∷ 9 ∷ 9 ∷ 9 ∷ []) (7 ∷ 7 ∷ 7 ∷ 7 ∷ [])
      ≡ some b)
    × HasBoundaries 3 sizes_of b
find_boundaries_lem_example =
    find_boundaries_lem 3 sizes_of (3 ∷ 0 ∷ 2 ∷ []) (9 ∷ 9 ∷ 9 ∷ 9 ∷ []) (7 ∷ 7 ∷ 7 ∷ 7 ∷ [])
      sizes_example (omega arith) (omega arith)

abbrev labels : List ℕ
labels = 2 ∷ 0 ∷ 2 ∷ 1 ∷ []

abbrev values : List ℕ
values = 7 ∷ 1 ∷ 8 ∷ 4 ∷ []

labels-IsTarget : IsTarget 3 labels values (replicate 4 none)
labels-IsTarget = record {
  labels = refl;
  cells = refl;
  buckets = (omega arith, (omega arith, (omega arith, (omega arith, tt))));
}

labels_starts :
    (j : ℕ) → j ≤ 3 → get_elem? (0 ∷ 1 ∷ 2 ∷ 4 ∷ []) j ≡ some (prefix (λ b. count b labels) j)
unfolding prefix count
labels_starts zero h = refl
labels_starts (suc zero) h = refl
labels_starts (suc (suc zero)) h = refl
labels_starts (suc (suc (suc zero))) h = refl
labels_starts (suc (suc (suc (suc j)))) h = absurd (omega arith)

distribute_elements_lem_example :
    (ends : List ℕ) × (distribute_elements {A = ℕ} 4 0 labels (record {
      arrays = record { src = map some values; tmp = replicate 4 none };
      bucket_start = 0 ∷ 1 ∷ 2 ∷ 4 ∷ [];
    })
      ≡ some (record {
        arrays = record { src = replicate 4 none; tmp = map some (1 ∷ 4 ∷ 7 ∷ 8 ∷ []) };
        bucket_start = ends;
      }))
unfolding pick
distribute_elements_lem_example =
    distribute_elements_lem 3 labels values (replicate 4 none) labels-IsTarget (0 ∷ 1 ∷ 2 ∷ 4 ∷ [])
      labels_starts
