-- ===== src/ParallelSorter.antt =====
-- include/ps4o/parallel.hpp, ParallelSorter, and the parallel interface of include/ps4o/ps4o.hpp: what is
-- done with a range before any thread partitions it.
pub mod Ways
use ps4o.Base.{
  ℕ, ◌+◌, ◌*◌, Bool, true, false, ◌&&◌, ◌||◌, not, if◌then◌else◌, ltb, leb, List, length,
}
use ps4o.BaseCase.{Access, is_sorted}
use ps4o.Config.{Config, num_threads_for}
use ps4o.ThreadPool.{threads_of_call}

-- What becomes of a range: `ps4o::sort`, `sequential` of the sorter, nothing, or the parallel algorithm
-- with so many threads
pub data Way : Type 0 where
  plain_sort : Way
  in_sequence : Way
  unchanged : Way
  in_parallel : (num_threads : ℕ) → Way

-- The orders in which the threads access the flags of a check, for the two checks that there may be: the
-- call of `isSorted`, and the one that the sorter makes itself
pub record Schedules : Type 0 where
  pub first : List Access
  pub second : List Access

module _ {ℓ} {A : Type ℓ} (comp : A → A → Bool) (cfg : Config) (size_of bits : ℕ) where
  -- The call operator of ParallelSorter, for a pool of `pool_threads` threads
  unfoldable pub sorter_way :
      (check_sorted : Bool) (schedules : Schedules) (pool_threads : ℕ) → List A → Way
  sorter_way check_sorted schedules pool_threads range =
      let num_threads = num_threads_for size_of (length range) pool_threads in
      let called = (threads_of_call pool_threads num_threads).0 in
      if ltb num_threads 2 || leb (length range) (2 * cfg.base_case_size)
      then in_sequence
      else if check_sorted && is_sorted comp bits schedules.first pool_threads range
      then unchanged
      else if is_sorted comp bits schedules.second called range
      then unchanged
      else in_parallel called

  -- `ps4o::parallel::sort` on a thread pool
  unfoldable pub pool_way : (schedules : Schedules) (pool_threads : ℕ) → List A → Way
  pool_way schedules pool_threads range =
      if ltb (num_threads_for size_of (length range) pool_threads) 2
      then plain_sort
      else if not (is_sorted comp bits schedules.first pool_threads range)
      then sorter_way false schedules pool_threads range
      else unchanged

  -- `ps4o::parallel::sort` for a number of threads, which makes the pool
  unfoldable pub threads_way : (schedules : Schedules) (num_threads : ℕ) → List A → Way
  threads_way schedules num_threads range =
      let used = num_threads_for size_of (length range) num_threads in
      if ltb used 2 then plain_sort else sorter_way true schedules used range
