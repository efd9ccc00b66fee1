-- ===== src/Parallel/Threads.antt =====
-- `queue_tasks` gives the subtasks of a task to the threads of that task only.
use ps4o.Base.{
  ℕ, zero, suc, ◌+◌, ◌≤◌, ◌<◌, ◌≡◌, refl, ◌∙◌, false, some, Option, ◌>>=◌, List, arith, length,
  get_elem?, store, get_elem?-some, store-some, length-store, get_elem?-store_other,
}
use ps4o.Scheduler.{emplace}
use ps4o.Parallel.{Task, BigTask, Shared, queue_small, share_task, drop_tasks}

-- The entries from `first` on, `n` of them, may differ, no other.
pub record IsWithin {ℓ} {A : Type ℓ} (first n : ℕ) (a b : List A) : Type ℓ where
  pub size : length b ≡ length a
  pub below : (k : ℕ) → k < first → get_elem? b k ≡ get_elem? a k
  pub above : (k : ℕ) → first + n ≤ k → get_elem? b k ≡ get_elem? a k

module _ {ℓ} {A : Type ℓ} {first n : ℕ} where
  pub IsWithin-rfl : (a : List A) → IsWithin first n a a
  IsWithin-rfl a = record { size = refl; below = λ k h. refl; above = λ k h. refl }

  IsWithin-trans :
      {a b c : List A} → IsWithin first n a b → IsWithin first n b c → IsWithin first n a c
  IsWithin-trans f g = record {
    size = g.size ∙ f.size;
    below = λ k h. g.below k h ∙ f.below k h;
    above = λ k h. g.above k h ∙ f.above k h;
  }

  pub IsWithin-store :
      (a : List A) (i : ℕ) (v : A)
      → first ≤ i
      → i < first + n
      → first + n ≤ length a
      → (b : List A) × (store a i v ≡ some b) × IsWithin first n a b
  IsWithin-store a i v lo hi room =
      let (b, e) = store-some a i v (omega arith) in
      (
        b,
        e,
        record {
          size = length-store a b i v e;
          below = λ k h. get_elem?-store_other a b i k v e (λ p. omega arith);
          above = λ k h. get_elem?-store_other a b i k v e (λ p. omega arith);
        },
      )

-- The same for all that is shared
pub record AreWithin (first n : ℕ) (s t : Shared) : Type 0 where
  pub queues : IsWithin first n s.seq_task_queues t.seq_task_queues
  pub pools : IsWithin first n s.thread_pools t.thread_pools
  pub tasks : IsWithin first n s.big_tasks t.big_tasks

-- There are entries for the threads.
pub record HasThreads (last : ℕ) (s : Shared) : Type 0 where
  pub queues : last ≤ length s.seq_task_queues
  pub pools : last ≤ length s.thread_pools
  pub tasks : last ≤ length s.big_tasks

module _ (first n : ℕ) where
  -- A step that succeeds and touches the entries of the threads only
  abbrev pub Keeps : Shared → Option Shared → Type 0
  Keeps s m = (t : Shared) × (m ≡ some t) × AreWithin first n s t

  pub AreWithin-rfl : (s : Shared) → AreWithin first n s s
  AreWithin-rfl s = record {
    queues = IsWithin-rfl _;
    pools = IsWithin-rfl _;
    tasks = IsWithin-rfl _;
  }

  pub AreWithin-trans :
      {s t u : Shared} → AreWithin first n s t → AreWithin first n t u → AreWithin first n s u
  AreWithin-trans f g = record {
    queues = IsWithin-trans f.queues g.queues;
    pools = IsWithin-trans f.pools g.pools;
    tasks = IsWithin-trans f.tasks g.tasks;
  }

  pub HasThreads-next :
      {s t : Shared} → AreWithin first n s t → HasThreads (first + n) s → HasThreads (first + n) t
  HasThreads-next f h = record {
    queues = omega (arith, f.queues.size, h.queues);
    pools = omega (arith, f.pools.size, h.pools);
    tasks = omega (arith, f.tasks.size, h.tasks);
  }

  pub Keeps-bind :
      (s : Shared) (m : Option Shared) (f : Shared → Option Shared)
      → HasThreads (first + n) s
      → Keeps s m
      → ((t : Shared) → HasThreads (first + n) t → Keeps t (f t))
      → Keeps s (m >>= f)
  Keeps-bind s m f h (t, e, w) next =
      let (u, e', w') = next t (HasThreads-next w h) in (u, rw e e', AreWithin-trans w w')

  pub queue_small_lem :
      (thread : ℕ) (task : Task) (s : Shared)
      → first ≤ thread
      → thread < first + n
      → HasThreads (first + n) s
      → Keeps s (queue_small thread task s)
  unfolding queue_small
  queue_small_lem thread task s lo hi h =
      let (q, eq) = get_elem?-some s.seq_task_queues thread (omega (arith, h.queues)) in
      let (qs, es, w) = IsWithin-store s.seq_task_queues thread (emplace task q) lo hi h.queues in
      (
        record s { seq_task_queues = qs },
        rw eq (rw es),
        record { queues = w; pools = IsWithin-rfl _; tasks = IsWithin-rfl _ },
      )

  pub share_task_lem :
      (rounds t : ℕ) (task : ℕ → BigTask) (s : Shared)
      → first ≤ t
      → t + rounds ≤ first + n
      → HasThreads (first + n) s
      → Keeps s (share_task rounds t task s)
  unfolding share_task
  share_task_lem zero t task s lo hi h = (s, refl, AreWithin-rfl s)
  share_task_lem (suc rounds) t task s lo hi h =
      let (bs, e, w) = IsWithin-store s.big_tasks t (task t) lo (omega arith) h.tasks in
      let done : AreWithin first n s (record s { big_tasks = bs }) = record {
        queues = IsWithin-rfl _;
        pools = IsWithin-rfl _;
        tasks = w;
      } in
      let (u, e', w') =
        share_task_lem rounds (suc t) task (record s { big_tasks = bs }) (omega arith) (omega arith)
          (HasThreads-next done h) in
      (u, rw e e', AreWithin-trans done w')

  pub drop_tasks_lem :
      (rounds t : ℕ) (s : Shared)
      → first ≤ t
      → t + rounds ≤ first + n
      → HasThreads (first + n) s
      → Keeps s (drop_tasks rounds t s)
  unfolding drop_tasks
  drop_tasks_lem zero t s lo hi h = (s, refl, AreWithin-rfl s)
  drop_tasks_lem (suc rounds) t s lo hi h =
      let (b, eb) = get_elem?-some s.big_tasks t (omega (arith, h.tasks)) in
      let (bs, e, w) =
        IsWithin-store s.big_tasks t (record b { has_task = false }) lo (omega arith) h.tasks in
      let done : AreWithin first n s (record s { big_tasks = bs }) = record {
        queues = IsWithin-rfl _;
        pools = IsWithin-rfl _;
        tasks = w;
      } in
      let (u, e', w') =
        drop_tasks_lem rounds (suc t) (record s { big_tasks = bs }) (omega arith) (omega arith)
          (HasThreads-next done h) in
      (u, rw eb (rw e e'), AreWithin-trans done w')
