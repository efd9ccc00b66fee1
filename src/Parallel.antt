-- ===== src/Parallel.antt =====
-- include/ps4o/parallel.hpp and include/ps4o/task.hpp, with BigTask of include/ps4o/memory.hpp: the
-- subtasks that a partitioning step leaves, and the threads that get them.
pub mod Threads
pub mod Tasks
use ps4o.Base.{
  ℕ, zero, suc, ◌+◌, ◌-◌, ◌*◌, ◌/◌, Bool, true, false, not, bit, if◌then◌else◌, ltb, leb, Option,
  none, some, ◌>>=◌, List, get_elem?, store,
}
use ps4o.Config.{Config, single_level_threshold}
use ps4o.Scheduler.{PrivateQueue, emplace}

-- A subtask of one thread
pub record Task : Type 0 where
  pub begin : ℕ
  pub end : ℕ
  pub in_input_array : Bool

-- A subtask of several threads, as one of them sees it
pub record BigTask : Type 0 where
  pub begin : ℕ
  pub end : ℕ
  pub task_thread_id : ℕ
  pub root_thread : ℕ
  pub has_task : Bool
  pub in_input_array : Bool

-- The part of SharedData that is indexed by threads: the queue of each thread, its thread pool, of which
-- the number of threads is kept, and its big task
pub record Shared : Type 0 where
  pub seq_task_queues : List (PrivateQueue Task)
  pub thread_pools : List (Option ℕ)
  pub big_tasks : List BigTask

-- `shared_->local[thread]->seq_task_queue.emplace(...)`
pub queue_small : (thread : ℕ) → Task → Shared → Option Shared
queue_small thread task s = do
  q ← get_elem? s.seq_task_queues thread
  queues ← store s.seq_task_queues thread (emplace task q)
  some (record s { seq_task_queues = queues })

-- The loop over the threads `t` of a big task
pub share_task : (rounds t : ℕ) (task : ℕ → BigTask) → Shared → Option Shared
share_task zero t task s = some s
share_task (suc rounds) t task s = do
  tasks ← store s.big_tasks t (task t)
  share_task rounds (suc t) task (record s { big_tasks = tasks })

-- `shared_->big_tasks[t].has_task = false` in a loop
pub drop_tasks : (rounds t : ℕ) → Shared → Option Shared
drop_tasks zero t s = some s
drop_tasks (suc rounds) t s = do
  b ← get_elem? s.big_tasks t
  tasks ← store s.big_tasks t (record b { has_task = false })
  drop_tasks rounds (suc t) (record s { big_tasks = tasks })

-- The thread whose stripe begins nearest to an offset in a task
unfoldable pub thread_at : (stripe offset task_offset : ℕ) → ℕ
thread_at stripe offset task_offset = (offset + task_offset + stripe / 2) / stripe

module _ (stripe id task_num_threads parent_task_size : ℕ) (parent_in_input_array : Bool)
    (offset : ℕ) where
  -- The lambda `queueTask`
  queue_task : (task_begin task_end : ℕ) → Shared → Option Shared
  unfolding queue_small share_task
  queue_task task_begin task_end s = do
    let parent_task_stripe = (parent_task_size + task_num_threads - 1) / task_num_threads
    let thread_begin = thread_at stripe offset task_begin
    let thread_end = thread_at stripe offset task_end
    let thread = (task_begin + (task_end - task_begin) / 2) / parent_task_stripe
    let small =
        queue_small (id + thread)
          (record {
            begin = offset + task_begin;
            end = offset + task_end;
            in_input_array = not parent_in_input_array;
          })
          s
    let big = (do
      pools ← store s.thread_pools thread_begin (some (thread_end - thread_begin))
      share_task (thread_end - thread_begin) thread_begin
          (λ t. record {
            begin = offset + task_begin;
            end = offset + task_end;
            task_thread_id = t - thread_begin;
            root_thread = thread_begin;
            has_task = true;
            in_input_array = not parent_in_input_array;
          })
          (record s { thread_pools = pools }))
    if leb (thread_end - thread_begin) 1 then small else big

  module _ (cfg : Config) (bucket_start : List ℕ) where
    -- One bucket, if it is no base case
    queue_bucket : (bucket : ℕ) → Shared → Option Shared
    unfolding queue_task
    queue_bucket bucket s = do
      start ← get_elem? bucket_start bucket
      stop ← get_elem? bucket_start (bucket + 1)
      if ltb (2 * cfg.base_case_size) (stop - start) then queue_task start stop s else some s

    -- The loop over the buckets from the last to the first, with `left` for `i + 1`
    queue_loop : (fuel step left : ℕ) → Shared → Option Shared
    unfolding queue_bucket
    queue_loop zero step left s = none
    queue_loop (suc fuel) step zero s = some s
    queue_loop (suc fuel) step (suc i) s = do
      t ← queue_bucket i s
      queue_loop fuel step (suc i - step) t

    -- `queueTasks`
    pub queue_tasks : (num_buckets : ℕ) (equal_buckets : Bool) → Shared → Option Shared
    unfolding queue_loop drop_tasks
    queue_tasks num_buckets equal_buckets s = do
      t ← drop_tasks task_num_threads id s
      let all = (do
        u ← if equal_buckets then queue_bucket (num_buckets - 1) t else some t
        queue_loop (suc num_buckets) (1 + bit equal_buckets) (num_buckets - bit equal_buckets) u)
      if leb parent_task_size (single_level_threshold cfg) then some t else all
