-- ===== src/Parallel/Tasks.antt =====
-- `queue_tasks` stays within the threads of the task, for any buckets that lie in it.
use ps4o.Base.{
  ℕ, zero, suc, ◌+◌, ◌-◌, ◌*◌, ◌/◌, ◌≤◌, ◌<◌, ◌≡◌, refl, Bool, true, false, not, bit, Bool-cases,
  inl, inr, if◌then◌else◌, ltb, leb, ltb→lt, le→leb, lt→leb, some, ◌>>=◌, List, arith, get_elem?,
  div_mono, thread_of,
}
use native.Mathlib.Decide.{dec_le}
use native.Mathlib.Numerals.{add-one}
use ps4o.Config.{Config, single_level_threshold}
use ps4o.Parallel.{BigTask, Shared, thread_at, queue_task, queue_bucket, queue_loop, queue_tasks}
use ps4o.Parallel.Threads.{
  IsWithin-rfl, IsWithin-store, AreWithin, AreWithin-rfl, AreWithin-trans, HasThreads,
  HasThreads-next, Keeps, Keeps-bind, queue_small_lem, share_task_lem, drop_tasks_lem,
}

-- A task of `size` elements from `offset` on, for `n` threads from `id` on: the threads are those that
-- its two ends fall to.
pub record IsTask (stripe id n size offset : ℕ) : Type 0 where
  pub stripe_pos : 0 < stripe
  pub threads : 0 < n
  pub first : thread_at stripe offset 0 ≡ id
  pub last : thread_at stripe offset size ≡ id + n

-- The boundaries of `num` buckets that lie in a task of `size` elements
pub record HasBuckets (num size : ℕ) (start : ℕ → ℕ) (bucket_start : List ℕ) : Type 0 where
  pub entries : (j : ℕ) → j ≤ num → get_elem? bucket_start j ≡ some (start j)
  pub ascending : (j : ℕ) → j < num → start j ≤ start (suc j)
  pub inside : (j : ℕ) → j ≤ num → start j ≤ size

thread_at_mono :
    (stripe offset x y : ℕ)
    → 0 < stripe
    → x ≤ y
    → thread_at stripe offset x ≤ thread_at stripe offset y
unfolding thread_at
thread_at_mono stripe offset x y pos le = div_mono _ _ stripe pos (omega arith)

-- The middle of a subtask falls to a thread of the task.
middle_thread :
    (n size b e : ℕ) → 0 < n → b < e → e ≤ size → (b + (e - b) / 2) / ((size + n - 1) / n) < n
middle_thread n size b e pos lt le = thread_of n size (b + (e - b) / 2) pos (omega arith)

module _ (stripe id n size : ℕ) (input : Bool) (offset : ℕ)
    (k : IsTask stripe id n size offset) where
  queue_task_lem :
      (b e : ℕ) (s : Shared)
      → b < e
      → e ≤ size
      → HasThreads (id + n) s
      → Keeps id n s (queue_task stripe id n size input offset b e s)
  unfolding queue_task
  queue_task_lem b e s lt le h =
      elim (dec_le (thread_at stripe offset e - thread_at stripe offset b) 1) [
        | yes p ↦ rw (le→leb _ 1 p) (
            queue_small_lem id n (id + (b + (e - b) / 2) / ((size + n - 1) / n)) _ s (omega arith)
              (omega (arith, middle_thread n size b e k.threads lt le)) h)
        | no q ↦
            let lo : id ≤ thread_at stripe offset b =
              omega (arith, thread_at_mono stripe offset 0 b k.stripe_pos (omega arith), k.first) in
            let hi : thread_at stripe offset e ≤ id + n =
              omega (arith, thread_at_mono stripe offset e size k.stripe_pos le, k.last) in
            let (pools, es, w) =
              IsWithin-store s.thread_pools (thread_at stripe offset b)
                (some (thread_at stripe offset e - thread_at stripe offset b)) lo (omega arith)
                h.pools in
            let done : AreWithin id n s (record s { thread_pools = pools }) = record {
              queues = IsWithin-rfl _;
              pools = w;
              tasks = IsWithin-rfl _;
            } in
            let (t, et, w') =
              share_task_lem id n (thread_at stripe offset e - thread_at stripe offset b)
                (thread_at stripe offset b) entry (record s { thread_pools = pools }) lo
                (omega arith) (HasThreads-next id n done h) in
            rw (lt→leb (thread_at stripe offset e - thread_at stripe offset b) 1 (omega arith))
              (t, rw es et, AreWithin-trans id n done w')
      ]
    where
      entry : ℕ → BigTask
      entry t = record {
        begin = offset + b;
        end = offset + e;
        task_thread_id = t - thread_at stripe offset b;
        root_thread = thread_at stripe offset b;
        has_task = true;
        in_input_array = not input;
      }

  module _ (cfg : Config) (num : ℕ) (start : ℕ → ℕ) (bucket_start : List ℕ)
      (v : HasBuckets num size start bucket_start) where
    queue_bucket_lem :
        (bucket : ℕ) (s : Shared)
        → bucket < num
        → HasThreads (id + n) s
        → Keeps id n s (queue_bucket stripe id n size input offset cfg bucket_start bucket s)
    unfolding queue_bucket
    queue_bucket_lem bucket s lt h =
        rw (v.entries bucket (omega arith), add-one bucket, v.entries (suc bucket) (omega arith))
          (elim (Bool-cases (ltb (2 * cfg.base_case_size) (start (suc bucket) - start bucket))) [
            | inl e ↦ rw e (
                queue_task_lem (start bucket) (start (suc bucket)) s (omega (arith, ltb→lt _ _ e))
                  (v.inside (suc bucket) (omega arith)) h)
            | inr e ↦ rw e (s, refl, AreWithin-rfl id n s)
          ])

    queue_loop_lem :
        (fuel step left : ℕ) (s : Shared)
        → 0 < step
        → left ≤ num
        → left < fuel
        → HasThreads (id + n) s
        → Keeps id n s (queue_loop stripe id n size input offset cfg bucket_start fuel step left s)
    unfolding queue_loop
    queue_loop_lem zero step left s pos le lt h = absurd (omega arith)
    queue_loop_lem (suc fuel) step zero s pos le lt h = (s, refl, AreWithin-rfl id n s)
    queue_loop_lem (suc fuel) step (suc i) s pos le lt h =
        Keeps-bind id n s _ _ h (queue_bucket_lem i s (omega arith) h)
          λ t h'. queue_loop_lem fuel step (suc i - step) t pos (omega arith) (omega arith) h'

    -- For a task whose ends fall to its first thread and to the one after its last, and buckets that lie
    -- in it, at least one, `queue_tasks` succeeds, and changes the queues, thread pools and big tasks of
    -- the threads of the task only.
    pub queue_tasks_lem :
        (equal_buckets : Bool) (s : Shared)
        → 0 < num
        → HasThreads (id + n) s
        → Keeps id n s
            (queue_tasks stripe id n size input offset cfg bucket_start num equal_buckets s)
    unfolding queue_tasks
    queue_tasks_lem equal_buckets s pos h =
        Keeps-bind id n s _ _ h (drop_tasks_lem id n n id s (omega arith) (omega arith) h) λ t h'.
          elim (Bool-cases (leb size (single_level_threshold cfg))) [
            | inl e ↦ rw e (t, refl, AreWithin-rfl id n t)
            | inr e ↦ rw e (all_buckets equal_buckets t h')
          ]
      where
        all_buckets :
            (equal : Bool) (t : Shared)
            → HasThreads (id + n) t
            → Keeps id n t (
                (if equal
                  then queue_bucket stripe id n size input offset cfg bucket_start (num - 1) t
                  else some t)
                >>= queue_loop stripe id n size input offset cfg bucket_start
                    (suc num)
                    (1 + bit equal)
                    (num - bit equal))
        all_buckets false t h' =
            queue_loop_lem (suc num) (1 + bit false) (num - bit false) t (omega arith) (omega arith)
              (omega arith) h'
        all_buckets true t h' =
            Keeps-bind id n t _ _ h' (queue_bucket_lem (num - 1) t (omega arith) h') λ u h''.
              queue_loop_lem (suc num) (1 + bit true) (num - bit true) u (omega arith) (omega arith)
                (omega arith) h''
