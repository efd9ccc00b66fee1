-- ===== src/Sequential/Tasks.antt =====
-- include/ps4o/sequential.hpp, the version of `sequential` for the subtasks of the parallel algorithm: it
-- queues the buckets that are no base cases instead of sorting them.
use ps4o.Base.{
  ℕ, zero, suc, ◌+◌, ◌-◌, ◌*◌, Bool, true, not, bit, if◌then◌else◌, ltb, leb, Option, none, some,
  ◌>>=◌, List, take, drop, get_elem?,
}
use ps4o.Config.{Config, single_level_threshold}
use ps4o.Memory.{RandomSource, LocalData, Arrays, splice}
use ps4o.Partitioning.{partition}
use ps4o.Scheduler.{PrivateQueue, emplace}
use ps4o.Parallel.{Task}
use ps4o.Sequential.{sequential}

module _ (cfg : Config) (saved : List ℕ) (task : Task) where
  -- One bucket of a task
  emplace_bucket : (bucket : ℕ) → PrivateQueue Task → Option (PrivateQueue Task)
  emplace_bucket bucket queue = do
    start ← get_elem? saved bucket
    stop ← get_elem? saved (bucket + 1)
    let entry : Task = record {
      begin = task.begin + start;
      end = task.begin + stop;
      in_input_array = not task.in_input_array;
    }
    some (if ltb (2 * cfg.base_case_size) (stop - start) then emplace entry queue else queue)

  -- The loop over the buckets from the last to the first, with `left` for `i + 1`
  emplace_loop : (fuel step left : ℕ) → PrivateQueue Task → Option (PrivateQueue Task)
  emplace_loop zero step left queue = none
  emplace_loop (suc fuel) step zero queue = some queue
  emplace_loop (suc fuel) step (suc i) queue = do
    q ← emplace_bucket i queue
    emplace_loop fuel step (suc i - step) q

  -- The last bucket first, then the others without the equality buckets
  emplace_buckets :
      (num_buckets : ℕ) (equal_buckets : Bool) → PrivateQueue Task → Option (PrivateQueue Task)
  emplace_buckets num_buckets equal_buckets queue = do
    q ← if equal_buckets then emplace_bucket (num_buckets - 1) queue else some queue
    emplace_loop (suc num_buckets) (1 + bit equal_buckets) (num_buckets - bit equal_buckets) q

-- The thread, the two arrays and the queue after a task
pub record TaskDone {ℓ} (A : Type ℓ) (G : Type 0) : Type ℓ where
  pub local : LocalData A G
  pub arrays : Arrays A
  pub queue : PrivateQueue Task

module _ {ℓ} {A : Type ℓ} {G : Type 0} (comp : A → A → Bool) (random : RandomSource G)
    (cfg : Config) where
  -- `sequential` for a task. The arrays are the whole ones, `src` the one that the task is in.
  pub sequential_task :
      (fuel : ℕ) (task : Task) (queue : PrivateQueue Task) (d : LocalData A G) (a : Arrays A)
      → Option (TaskDone A G)
  sequential_task fuel task queue d a =
      let n = task.end - task.begin in
      let last_level = leb n (single_level_threshold cfg) in
      let run = (do
        p ←
            partition comp random cfg (sequential comp random cfg fuel true) last_level
              task.in_input_array d
              (record {
                src = take n (drop task.begin a.src);
                tmp = take n (drop task.begin a.tmp);
              })
        queued ←
            if last_level
            then some queue
            else emplace_buckets cfg p.bucket_start_save task p.buckets.num_buckets
                p.buckets.use_equal_buckets queue
        some (record {
          local = p.local;
          arrays = record {
            src = splice task.begin task.end p.arrays.src a.src;
            tmp = splice task.begin task.end p.arrays.tmp a.tmp;
          };
          queue = queued;
        })) in
      if leb n (2 * cfg.base_case_size) then none else run
