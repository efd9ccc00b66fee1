-- ===== src/Examples/Threads.antt =====
-- The theorems on several threads, and on a partitioning step, applied to small inputs.
use ps4o.Base.{
  tally, ℕ, zero, suc, ◌+◌, ◌≤◌, ◌<◌, ◌≡◌, refl, true, false, none, some, List, [], ◌∷◌, map, arith,
  ltb, length, get_elem?, replicate,
}
use ps4o.Examples.Data.{small_config, ltb-IsStrictWeak, splitters, built, built-IsBuilt}
use ps4o.Memory.{LocalData}
use ps4o.Classifier.Rank.{bucket_of}
use ps4o.Partitioning.{Partitioned, classify_and_distribute}
use ps4o.Partitioning.Step.{IsPartitioned, classify_and_distribute_lem}
use ps4o.ParallelClassification.{Offsets, scan}
use ps4o.ParallelClassification.Starts.{HasSizes, HasOffsets, scan_lem}
use ps4o.Scheduler.{PrivateQueue}
use ps4o.Scheduler.Refinement.{
  Request, emplace_one, take_back, take_front, IsQueue, handle_all, serve_all, forget,
  handle_all-serve_all,
}
use ps4o.Synchronization.{
  outside, executing, waiting, make_barrier, finish_single, enter_single, System, update, Step,
  enter, Reachable, initial, next,
}
use ps4o.Synchronization.Tally.{in_function}
use ps4o.Synchronization.Single.{single_lem}
use ps4o.Parallel.{BigTask, Shared, thread_at, queue_tasks}
use ps4o.Parallel.Threads.{Keeps}
use ps4o.Parallel.Tasks.{IsTask, queue_tasks_lem}

abbrev queue : PrivateQueue ℕ
queue = record { v = 8 ∷ 5 ∷ 3 ∷ []; off = 1 }

abbrev requests : List (Request ℕ)
requests = take_front ∷ emplace_one 4 ∷ take_back ∷ take_front ∷ take_back ∷ []

queue-IsQueue : IsQueue queue
unfolding IsQueue
queue-IsQueue = omega arith

handle_all-serve_all_example : forget (handle_all requests queue) ≡ serve_all requests (5 ∷ 3 ∷ [])
handle_all-serve_all_example = handle_all-serve_all requests queue queue-IsQueue

-- Two threads, two buckets
abbrev thread_size : (t b : ℕ) → ℕ
thread_size zero b = 3 + b
thread_size (suc t) b = 2

abbrev all_sizes : List ℕ
all_sizes = 3 ∷ 4 ∷ 0 ∷ 0 ∷ 2 ∷ 2 ∷ 0 ∷ 0 ∷ []

abbrev old_offsets : Offsets
old_offsets = record {
  bucket_starts = (7 ∷ 7 ∷ []) ∷ (7 ∷ 7 ∷ []) ∷ [];
  bucket_start_save = 9 ∷ 9 ∷ 9 ∷ [];
}

all_sizes-HasSizes : HasSizes 4 2 2 thread_size all_sizes
unfolding HasSizes
all_sizes-HasSizes zero zero h k = refl
all_sizes-HasSizes zero (suc zero) h k = refl
all_sizes-HasSizes zero (suc (suc b)) h k = absurd (omega arith)
all_sizes-HasSizes (suc zero) zero h k = refl
all_sizes-HasSizes (suc zero) (suc zero) h k = refl
all_sizes-HasSizes (suc zero) (suc (suc b)) h k = absurd (omega arith)
all_sizes-HasSizes (suc (suc t)) b h k = absurd (omega arith)

old_rows :
    (t : ℕ) (row : List ℕ) → get_elem? old_offsets.bucket_starts t ≡ some row → 2 ≤ length row
old_rows zero row h = ground arith
old_rows (suc zero) row h = ground arith
old_rows (suc (suc t)) row h = cc

scan_lem_example :
    (p : Offsets) × (scan 4 all_sizes 2 2 old_offsets ≡ some p)
    × HasOffsets 4 2 2 thread_size all_sizes 2 p
scan_lem_example =
    scan_lem 4 2 2 thread_size all_sizes old_offsets all_sizes-HasSizes
      (record { rows = omega arith; wide = old_rows }) (omega arith)

-- A task of 30 elements from offset 20 on, for the threads 2, 3 and 4, whose stripes have 10 elements
three_threads : IsTask 10 2 3 30 20
unfolding thread_at
three_threads = record {
  stripe_pos = omega arith;
  threads = omega arith;
  first = refl;
  last = refl;
}

abbrev start : ℕ → ℕ
start zero = 0
start (suc zero) = 22
start (suc (suc j)) = 30

task_entries : (j : ℕ) → j ≤ 2 → get_elem? (0 ∷ 22 ∷ 30 ∷ []) j ≡ some (start j)
task_entries zero h = refl
task_entries (suc zero) h = refl
task_entries (suc (suc zero)) h = refl
task_entries (suc (suc (suc j))) h = absurd (omega arith)

task_ascending : (j : ℕ) → j < 2 → start j ≤ start (suc j)
task_ascending zero h = omega arith
task_ascending (suc zero) h = omega arith
task_ascending (suc (suc j)) h = omega arith

task_inside : (j : ℕ) → j ≤ 2 → start j ≤ 30
task_inside zero h = omega arith
task_inside (suc zero) h = omega arith
task_inside (suc (suc j)) h = omega arith

abbrev idle : BigTask
idle = record {
  begin = 0;
  end = 0;
  task_thread_id = 0;
  root_thread = 0;
  has_task = false;
  in_input_array = true;
}

abbrev shared : Shared
shared = record {
  seq_task_queues = replicate 6 (record { v = []; off = 0 });
  thread_pools = replicate 6 none;
  big_tasks = replicate 6 idle;
}

queue_tasks_lem_example :
    Keeps 2 3 shared (queue_tasks 10 2 3 30 true 20 small_config (0 ∷ 22 ∷ 30 ∷ []) 2 false shared)
queue_tasks_lem_example =
    queue_tasks_lem 10 2 3 30 true 20 three_threads small_config 2 start (0 ∷ 22 ∷ 30 ∷ [])
      (record { entries = task_entries; ascending = task_ascending; inside = task_inside }) false
      shared (omega arith)
      (record { queues = omega arith; pools = omega arith; tasks = omega arith })

abbrev local_data : LocalData ℕ ℕ
local_data = record {
  bucket_start = replicate 9 6;
  bucket_size = replicate 8 7;
  classifier = built;
  random_generator = 1;
}

abbrev values : List ℕ
values = 7 ∷ 2 ∷ 0 ∷ 2 ∷ []

classify_and_distribute_lem_example :
    (p : Partitioned ℕ ℕ) × (classify_and_distribute ltb small_config
        (record { num_buckets = 8; use_equal_buckets = true })
        local_data
        (record { src = map some values; tmp = replicate 4 none })
      ≡ some p)
    × IsPartitioned ltb 8 (map (bucket_of ltb true splitters) values) values p
classify_and_distribute_lem_example =
    classify_and_distribute_lem ltb ltb-IsStrictWeak small_config splitters local_data built-IsBuilt
      (record { num_buckets = 8; use_equal_buckets = true }) values (replicate 4 none) refl
      (omega arith) (record { sizes = omega arith; starts = omega arith; saved = omega arith })
      (omega arith) (omega arith) refl

-- Two threads have entered `single`: the first is in the function, the second waits.
abbrev after_one : System
after_one = record {
  barrier = record { init_count = 2; hit = 2; flag = false };
  phases = executing ∷ outside ∷ [];
}

abbrev both_entered : System
both_entered = record {
  barrier = record { init_count = 2; hit = 1; flag = false };
  phases = executing ∷ waiting false ∷ [];
}

both_entered-Reachable : Reachable 2 both_entered
unfolding make_barrier enter_single finish_single update
both_entered-Reachable = next {s = after_one} (next initial (enter 0 refl refl)) (enter 1 refl refl)

single_lem_example :
    (tally in_function both_entered.phases ≤ 1) × ((t : System) × Step both_entered t)
single_lem_example = single_lem 2 both_entered (omega arith) both_entered-Reachable
