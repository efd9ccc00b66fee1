-- ===== src/ThreadPool.antt =====
-- include/ps4o/thread_pool.hpp: StdThreadPool and ThreadJoiningThreadPool, whose threads go through the
-- same barrier twice for each call of the pool. Thread 0 is the caller.
pub mod Stages
pub mod Steps
pub mod ForkJoin
use ps4o.Base.{
  ℕ, zero, suc, ◌+◌, ◌-◌, ◌<◌, ◌≤◌, ◌≡◌, min, max, Bool, true, false, if◌then◌else◌, ◌==◌, ltb,
  Option, none, some, List, [], ◌∷◌, get_elem?, store, replicate,
}
use ps4o.Synchronization.{
  outside, executing, waiting, Barrier, make_barrier, set_num_threads, arrive,
}
use ps4o.Synchronization

-- Where a thread is: not yet there; for the caller, between two calls; before the first barrier of a call,
-- at it, behind it, in the function, before the second barrier, at it, and at the end
pub data Phase : Type 0 where
  absent : Phase
  ready : Phase
  before_first : Phase
  at_first : (f : Bool) → Phase
  started : Phase
  running : Phase
  before_second : Phase
  at_second : (f : Bool) → Phase
  ended : Phase

-- `Impl`, with the function that is called as a number, and the threads
pub record Pool : Type 0 where
  pub sync : Barrier
  pub pool_barrier : Barrier
  pub func : ℕ
  pub num_threads : ℕ
  pub done : Bool
  pub phases : List Phase

-- The constructor, for at least one thread
unfoldable pub make_pool : (num_threads : ℕ) → Pool
unfolding make_barrier
make_pool num_threads = record {
  sync = make_barrier (max 1 num_threads);
  pool_barrier = make_barrier (max 1 num_threads);
  func = 0;
  num_threads = num_threads;
  done = false;
  phases = ready ∷ replicate (max 1 num_threads - 1) absent;
}

-- What the call operator does: the number of threads, and whether they are needed
unfoldable pub threads_of_call : (pool_threads num_threads : ℕ) → ℕ × Bool
threads_of_call pool_threads num_threads = let n = min num_threads pool_threads in (n, ltb 1 n)

-- A thread at a barrier that does not let it through, or behind it
unfoldable pub first_phase : Synchronization.Phase → Phase
first_phase outside = started
first_phase executing = started
first_phase (waiting f) = at_first f

unfoldable pub second_phase : (i : ℕ) → Synchronization.Phase → Phase
second_phase i outside = if i == 0 then ready else before_first
second_phase i executing = if i == 0 then ready else before_first
second_phase i (waiting f) = at_second f

-- Behind the first barrier: the end of the pool, the function, or nothing for a thread too many
unfoldable pub after_start : (i : ℕ) (p : Pool) → Phase
after_start i p = if p.done then ended else if ltb i p.num_threads then running else before_second

-- The assignments of `run`, before the first barrier
abbrev pub begin_call : (func num_threads : ℕ) → Pool → Pool
begin_call func num_threads p = record p {
  func = func;
  num_threads = num_threads;
  sync = set_num_threads num_threads p.sync;
}

-- The assignment of `release_threads`, before its barrier
abbrev pub release_pool : Pool → Pool
release_pool p = record p { done = true }

pub data Step (p : Pool) : Pool → Type 0 where
  -- `join`, or the start of a `std::thread`
  join :
      (i : ℕ) {ps : List Phase}
      → get_elem? p.phases i ≡ some absent
      → store p.phases i before_first ≡ some ps
      → Step p (record p { phases = ps })
  -- `run`, up to the first barrier
  run :
      (func num_threads : ℕ) {ps : List Phase}
      → get_elem? p.phases 0 ≡ some ready
      → 0 < num_threads
      → store p.phases 0 before_first ≡ some ps
      → Step p (record (begin_call func num_threads p) { phases = ps })
  -- `release_threads`, or the destructor, up to the barrier
  release :
      {ps : List Phase}
      → get_elem? p.phases 0 ≡ some ready
      → store p.phases 0 before_first ≡ some ps
      → Step p (record (release_pool p) { phases = ps })
  arrive_first :
      (i : ℕ) {ps : List Phase}
      → get_elem? p.phases i ≡ some before_first
      → store p.phases i (first_phase (arrive p.pool_barrier).0) ≡ some ps
      → Step p (record p { pool_barrier = (arrive p.pool_barrier).1; phases = ps })
  wake_first :
      (i : ℕ) (f : Bool) {ps : List Phase}
      → get_elem? p.phases i ≡ some (at_first f)
      → (f ≡ p.pool_barrier.flag → ⊥)
      → store p.phases i started ≡ some ps
      → Step p (record p { phases = ps })
  -- The test of `done_`, and that of `my_id`, which the caller passes in any case
  go_on :
      (i : ℕ) {ps : List Phase}
      → get_elem? p.phases i ≡ some started
      → store p.phases i (after_start i p) ≡ some ps
      → Step p (record p { phases = ps })
  return_from :
      (i : ℕ) {ps : List Phase}
      → get_elem? p.phases i ≡ some running
      → store p.phases i before_second ≡ some ps
      → Step p (record p { phases = ps })
  arrive_second :
      (i : ℕ) {ps : List Phase}
      → get_elem? p.phases i ≡ some before_second
      → store p.phases i (second_phase i (arrive p.pool_barrier).0) ≡ some ps
      → Step p (record p { pool_barrier = (arrive p.pool_barrier).1; phases = ps })
  wake_second :
      (i : ℕ) (f : Bool) {ps : List Phase}
      → get_elem? p.phases i ≡ some (at_second f)
      → (f ≡ p.pool_barrier.flag → ⊥)
      → store p.phases i (second_phase i outside) ≡ some ps
      → Step p (record p { phases = ps })

pub data Reachable (num_threads : ℕ) : Pool → Type 0 where
  start : Reachable num_threads (make_pool num_threads)
  next : {p q : Pool} → Reachable num_threads p → Step p q → Reachable num_threads q
