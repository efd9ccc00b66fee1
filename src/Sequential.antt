-- ===== src/Sequential.antt =====
-- include/ps4o/sequential.hpp and the sequential interface of include/ps4o/ps4o.hpp: the recursive
-- algorithm, the reusable sorter and `ps4o::sort`.
pub mod Tasks
pub mod LastLevel
pub mod Sort
use ps4o.Base.{
  ℕ, zero, suc, ◌+◌, ◌-◌, ◌*◌, Bool, true, false, not, if◌then◌else◌, leb, ltb, Option, none, some,
  ◌>>=◌, List, map, length, get_elem?, take, drop, replicate, map_option,
}
use ps4o.Config.{Config, single_level_threshold}
use ps4o.BaseCase.{sorted_case_sort, base_case_sort}
use ps4o.Memory.{
  RandomSource, LocalData, make_local, Arrays, read_range, splice, assign_range, destroy_range,
  for_buckets,
}
use ps4o.Partitioning.{Partitioned, partition}

module _ {ℓ} {A : Type ℓ} {G : Type 0} (comp : A → A → Bool) (random : RandomSource G)
    (cfg : Config) where
  -- What the recursion works on
  abbrev pub State : Type ℓ
  State = LocalData A G × Arrays A

  -- A recursive call for a bucket that is no base case: the arrays change their roles.
  sort_bucket :
      (sort : Bool → LocalData A G → Arrays A → Option State) (saved : List ℕ)
      (in_input_array : Bool) (bucket : ℕ)
      → State
      → Option State
  sort_bucket sort saved in_input_array bucket (d, a) = do
    start ← get_elem? saved bucket
    stop ← get_elem? saved (bucket + 1)
    let recur = (do
      (e, b) ← sort (not in_input_array) d (record {
        src = take (stop - start) (drop start a.tmp);
        tmp = take (stop - start) (drop start a.src);
      })
      some (e, record { src = splice start stop b.tmp a.src; tmp = splice start stop b.src a.tmp }))
    if ltb (2 * cfg.base_case_size) (stop - start) then recur else some (d, a)

  -- The recursive calls after a partitioning step that is not on the last level
  sort_buckets :
      (sort : Bool → LocalData A G → Arrays A → Option State) (in_input_array : Bool)
      → Partitioned A G
      → Option State
  sort_buckets sort in_input_array p =
      let each = sort_bucket sort p.bucket_start_save in_input_array in
      let n = p.buckets.num_buckets in
      if p.buckets.use_equal_buckets
      then (for_buckets (suc n) 0 n 2 each (p.local, p.arrays) >>= λ s. each (n - 1) s)
      else for_buckets (suc n) 0 n 1 each (p.local, p.arrays)

  -- The base case of `sequential`
  sort_base_case : (in_input_array : Bool) → LocalData A G → Arrays A → Option State
  sort_base_case in_input_array d a = do
    values ← read_range 0 (length a.src) a.src
    ascending ← base_case_sort comp values
    let sorted = record a { src = map some ascending }
    let moved = (do
      tmp ← assign_range (length a.src) 0 sorted.src sorted.tmp
      src ← destroy_range (length a.src) 0 sorted.src
      some (d, record { src = src; tmp = tmp }))
    if in_input_array then some (d, sorted) else moved

  -- `sequential` and `sequential_rec`, with fuel for the depth of the recursion
  pub sequential : (fuel : ℕ) (in_input_array : Bool) → LocalData A G → Arrays A → Option State
  sequential zero in_input_array d a = none
  sequential (suc fuel) in_input_array d a =
      let last_level = leb (length a.src) (single_level_threshold cfg) in
      let recur = (do
        p ← partition comp random cfg (sequential fuel true) last_level in_input_array d a
        if last_level
            then some (p.local, p.arrays)
            else sort_buckets (sequential fuel) in_input_array p) in
      if leb (length a.src) (2 * cfg.base_case_size)
      then sort_base_case in_input_array d a
      else recur

  -- The range after a call of `SequentialSorter`, and the state of the sorter
  unfoldable pub sequential_sorter :
      (check_sorted : Bool) (d : LocalData A G) (range : List A) → Option (LocalData A G × List A)
  sequential_sorter check_sorted d range =
      let n = length range in
      let case = sorted_case_sort comp range in
      let sort = λ (a : List A).
        if leb n (2 * cfg.base_case_size) then (base_case_sort comp a >>= λ b. some (d, b)) else (do
          (e, arrays) ← sequential n true d (record { src = map some a; tmp = replicate n none })
          values ← map_option (λ c. c) arrays.src
          some (e, values)) in
      if check_sorted
      then (if case.sorted then some (d, case.range) else sort case.range)
      else sort range

  -- `ps4o::sort`
  unfoldable pub sort : (seed : G) (range : List A) → Option (List A)
  sort seed range =
      let case = sorted_case_sort comp range in
      if case.sorted
      then some case.range
      else if leb (length range) (cfg.base_case_multiplier * cfg.base_case_size)
      then base_case_sort comp case.range
      else (sequential_sorter false (make_local cfg seed) case.range >>= λ (d, sorted). some sorted)
