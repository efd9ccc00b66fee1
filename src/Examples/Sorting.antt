-- ===== src/Examples/Sorting.antt =====
-- The theorems on the classifier that is built from a sample and on the last level, applied to small
-- inputs.
use ps4o.Base.{
  ℕ, ◌^◌, ◌≡◌, refl, true, none, some, ◌>>=◌, List, [], ◌∷◌, ◌++◌, Cells, map, Perm, arith, ltb,
  replicate, IsSorted,
}
use ps4o.Examples.Data.{
  small_config, scramble, numbers, ltb-IsStrictWeak, splitters, loaded, loaded-IsLoaded, built,
  built-IsBuilt,
}
use ps4o.Classifier.{Classifier, build, reset}
use ps4o.Classifier.Reset.{IsRestored, reset-build}
use ps4o.Memory.{LocalData, make_local}
use ps4o.Partitioning.{Partitioned, classify_and_distribute, finish_buckets}
use ps4o.Partitioning.LastLevel.{result, buckets_of, last_level_lem}
use ps4o.Sampling.{Buckets, build_from_sample}
use ps4o.Config.{default_config}
use ps4o.Sampling.Whole.{IsSort}
use ps4o.Sequential.{sequential, sort}
use ps4o.Sequential.LastLevel.{sequential_lem}
use ps4o.Sequential.Sort.{default_config-IsSampled, make_local-IsReady, sort_lem}
use ps4o.Sampling.Build.{IsClassifier, build_from_sample_lem}

reset-build_example :
    (d : Classifier ℕ) × ((build 2 loaded >>= reset) ≡ some d) × IsRestored ltb (2 ^ 2) loaded d
reset-build_example = reset-build ltb 2 splitters loaded loaded-IsLoaded

-- A sample with a duplicate, and a classifier with room for four buckets
abbrev sample : List ℕ
sample = 1 ∷ 2 ∷ 2 ∷ 4 ∷ 4 ∷ 6 ∷ 7 ∷ []

abbrev empty : Classifier ℕ
empty = record {
  storage = none ∷ none ∷ none ∷ none ∷ [];
  sorted_storage = none ∷ none ∷ none ∷ none ∷ [];
  log_buckets = 0;
  num_buckets = 0;
}

sample-IsSorted : IsSorted ltb sample
sample-IsSorted = (
  (refl, (refl, (refl, (refl, (refl, (refl, tt)))))),
  (
    (refl, (refl, (refl, (refl, (refl, tt))))),
    (
      (refl, (refl, (refl, (refl, tt)))),
      ((refl, (refl, (refl, tt))), ((refl, (refl, tt)), ((refl, tt), (tt, tt)))),
    ),
  ),
)

build_from_sample_lem_example :
    (s : List ℕ) × (d : Classifier ℕ) × (b : Buckets) × (build_from_sample ltb scramble small_config
        2
        (2 ^ 2)
        (map some sample)
        empty
      ≡ some (d, b))
    × IsClassifier ltb scramble small_config ltb-IsStrictWeak 2 4 4 s d b
build_from_sample_lem_example =
    build_from_sample_lem ltb scramble small_config ltb-IsStrictWeak 2 2 sample empty (omega arith)
      (omega arith) (omega arith) sample-IsSorted refl (omega arith) (omega arith)

abbrev local_data : LocalData ℕ ℕ
local_data = record {
  bucket_start = replicate 9 6;
  bucket_size = replicate 8 7;
  classifier = built;
  random_generator = 1;
}

abbrev values : List ℕ
values = 7 ∷ 2 ∷ 0 ∷ 2 ∷ []

last_level_lem_example :
    (p : Partitioned ℕ ℕ) × (ws : List ℕ) × (classify_and_distribute ltb small_config
        (buckets_of true splitters)
        local_data
        (record { src = map some values; tmp = replicate 4 none })
      ≡ some p)
    × (finish_buckets ltb small_config p.bucket_start_save true true
          (buckets_of true splitters)
          p.arrays
        ≡ some (result true ws))
    × IsSorted ltb ws
    × Perm ws values
last_level_lem_example =
    last_level_lem ltb ltb-IsStrictWeak small_config splitters local_data true true values
      (replicate 4 none) built-IsBuilt (omega arith)
      (record { sizes = omega arith; starts = omega arith; saved = omega arith }) (omega arith)
      (omega arith) refl

-- 44 elements, more than a base case
abbrev many : List ℕ
many = numbers ++ numbers ++ numbers ++ numbers

sequential_lem_example :
    (e : LocalData ℕ ℕ) × (ws : List ℕ) × (tmp' : Cells ℕ) × (sequential ltb scramble default_config
        44 true
        (make_local default_config 5)
        (record { src = map some many; tmp = replicate 44 none })
      ≡ some (e, record { src = map some ws; tmp = tmp' }))
    × IsSort ltb default_config many e ws tmp'
sequential_lem_example =
    sequential_lem ltb scramble default_config ltb-IsStrictWeak 44 (make_local default_config 5)
      many (replicate 44 none) default_config-IsSampled (make_local-IsReady 5) refl (omega arith)
      (omega arith) (omega arith)

-- 308 elements, more than `sort` leaves to the insertion sort
abbrev very_many : List ℕ
very_many = many ++ many ++ many ++ many ++ many ++ many ++ many

sort_lem_example :
    (ws : List ℕ) × (sort ltb scramble default_config 5 very_many ≡ some ws)
    × IsSorted ltb ws
    × Perm ws very_many
sort_lem_example = sort_lem ltb scramble ltb-IsStrictWeak 5 very_many (omega arith)
