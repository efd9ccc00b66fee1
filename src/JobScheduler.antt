-- ===== src/JobScheduler.antt =====
-- include/ps4o/scheduler.hpp: the class Scheduler, which hands the jobs of a few threads to others. The
-- queue that all share, a `tbb::concurrent_queue`, is a parameter.
pub mod Invariant
pub mod Finished
use ps4o.Base.{
  ℕ, zero, suc, ◌+◌, ◌-◌, ◌<◌, ◌≡◌, ◌≢◌, ◌↔◌, Bool, true, false, Option, none, some, List, [], ◌∷◌,
  ◌++◌, get_elem?, store, replicate,
}
use ps4o.Scheduler.{PrivateQueue, empty_queue, emplace, size, is_empty, pop_back, pop_front}

-- A first-in-first-out queue, by the jobs that are in it
pub record ConcurrentQueue {ℓ} (Job : Type ℓ) (Q : Type ℓ) : Type ℓ where
  pub jobs : Q → List Job
  pub new_queue : Q
  pub push_job : Job → Q → Q
  pub try_pop : Q → Option (Job × Q)
  pub is_empty_now : Q → Bool
  pub jobs-new_queue : jobs new_queue ≡ []
  pub jobs-push_job : (j : Job) (q : Q) → jobs (push_job j q) ≡ jobs q ++ j ∷ []
  pub try_pop-none : (q : Q) → try_pop q ≡ none → jobs q ≡ []
  pub try_pop-some : (q r : Q) (j : Job) → try_pop q ≡ some (j, r) → jobs q ≡ j ∷ jobs r
  pub is_empty_now-iff : (q : Q) → (is_empty_now q ≡ true) ↔ (jobs q ≡ [])

-- Where a thread is: at work on a job or between two, in `offerJob` behind its tests, and in `getJob`,
-- behind the first `try_pop`, at the head of the loop, behind its test, behind the test of the queue,
-- behind `fetch_sub`, behind the second `try_pop`, and after `return false`
pub data Phase : Type 0 where
  busy : Phase
  offering : Phase
  asking : Phase
  looping : Phase
  looking : Phase
  stirring : Phase
  awake : Phase
  failed : Phase
  finished : Phase

pub record Worker {ℓ} (Job : Type ℓ) : Type ℓ where
  pub phase : Phase
  pub queue : PrivateQueue Job

-- The scheduler, the threads and their queues
pub record System {ℓ} (Job Q : Type ℓ) : Type ℓ where
  pub glob : Q
  pub num_idle_threads : ℕ
  pub num_threads : ℕ
  pub workers : List (Worker Job)

module _ {ℓ} {Job : Type ℓ} {Q : Type ℓ} (cq : ConcurrentQueue Job Q) where
  open cq use {new_queue, push_job, try_pop, is_empty_now}

  -- The constructor, with threads whose queues are empty
  unfoldable pub initial_system : (num_threads : ℕ) → System Job Q
  unfolding empty_queue
  initial_system num_threads = record {
    glob = new_queue;
    num_idle_threads = 0;
    num_threads = num_threads;
    workers = replicate num_threads (record { phase = busy; queue = empty_queue });
  }

  -- Thread `i`, which was as `w`, makes one access to what is shared, or to its own queue.
  pub data Step (s : System Job Q) : System Job Q → Type ℓ where
    -- A job that is run queues another one, or it is one that the caller queues.
    spawn :
        (i : ℕ) (w : Worker Job) (j : Job) {ws : List (Worker Job)}
        → get_elem? s.workers i ≡ some w
        → w.phase ≡ busy
        → store s.workers i (record w { queue = emplace j w.queue }) ≡ some ws
        → Step s (record s { workers = ws })
    -- `offerJob`: the tests of what other threads change may go either way.
    offer :
        (i : ℕ) (w : Worker Job) {ws : List (Worker Job)}
        → get_elem? s.workers i ≡ some w
        → w.phase ≡ busy
        → 1 < size w.queue
        → store s.workers i (record w { phase = offering }) ≡ some ws
        → Step s (record s { workers = ws })
    add_job :
        (i : ℕ) (w : Worker Job) (j : Job) (rest : PrivateQueue Job) {ws : List (Worker Job)}
        → get_elem? s.workers i ≡ some w
        → w.phase ≡ offering
        → pop_front w.queue ≡ some (j, rest)
        → store s.workers i (record { phase = busy; queue = rest }) ≡ some ws
        → Step s (record s { glob = push_job j s.glob; workers = ws })
    -- `getJob`
    pop_local :
        (i : ℕ) (w : Worker Job) (j : Job) (rest : PrivateQueue Job) {ws : List (Worker Job)}
        → get_elem? s.workers i ≡ some w
        → w.phase ≡ busy
        → is_empty w.queue ≡ false
        → pop_back w.queue ≡ some (j, rest)
        → store s.workers i (record w { queue = rest }) ≡ some ws
        → Step s (record s { workers = ws })
    pop_shared :
        (i : ℕ) (w : Worker Job) (j : Job) {g : Q}
        → get_elem? s.workers i ≡ some w
        → w.phase ≡ busy
        → is_empty w.queue ≡ true
        → try_pop s.glob ≡ some (j, g)
        → Step s (record s { glob = g })
    pop_none :
        (i : ℕ) (w : Worker Job) {ws : List (Worker Job)}
        → get_elem? s.workers i ≡ some w
        → w.phase ≡ busy
        → is_empty w.queue ≡ true
        → try_pop s.glob ≡ none
        → store s.workers i (record w { phase = asking }) ≡ some ws
        → Step s (record s { workers = ws })
    signal_idle :
        (i : ℕ) (w : Worker Job) {ws : List (Worker Job)}
        → get_elem? s.workers i ≡ some w
        → w.phase ≡ asking
        → store s.workers i (record w { phase = looping }) ≡ some ws
        → Step s (record s { num_idle_threads = s.num_idle_threads + 1; workers = ws })
    all_idle :
        (i : ℕ) (w : Worker Job) {ws : List (Worker Job)}
        → get_elem? s.workers i ≡ some w
        → w.phase ≡ looping
        → s.num_idle_threads ≡ s.num_threads
        → store s.workers i (record w { phase = finished }) ≡ some ws
        → Step s (record s { workers = ws })
    some_busy :
        (i : ℕ) (w : Worker Job) {ws : List (Worker Job)}
        → get_elem? s.workers i ≡ some w
        → w.phase ≡ looping
        → s.num_idle_threads ≢ s.num_threads
        → store s.workers i (record w { phase = looking }) ≡ some ws
        → Step s (record s { workers = ws })
    see_none :
        (i : ℕ) (w : Worker Job) {ws : List (Worker Job)}
        → get_elem? s.workers i ≡ some w
        → w.phase ≡ looking
        → is_empty_now s.glob ≡ true
        → store s.workers i (record w { phase = looping }) ≡ some ws
        → Step s (record s { workers = ws })
    see_some :
        (i : ℕ) (w : Worker Job) {ws : List (Worker Job)}
        → get_elem? s.workers i ≡ some w
        → w.phase ≡ looking
        → is_empty_now s.glob ≡ false
        → store s.workers i (record w { phase = stirring }) ≡ some ws
        → Step s (record s { workers = ws })
    wake_up :
        (i : ℕ) (w : Worker Job) {ws : List (Worker Job)}
        → get_elem? s.workers i ≡ some w
        → w.phase ≡ stirring
        → store s.workers i (record w { phase = awake }) ≡ some ws
        → Step s (record s { num_idle_threads = s.num_idle_threads - 1; workers = ws })
    pop_again :
        (i : ℕ) (w : Worker Job) (j : Job) {g : Q} {ws : List (Worker Job)}
        → get_elem? s.workers i ≡ some w
        → w.phase ≡ awake
        → try_pop s.glob ≡ some (j, g)
        → store s.workers i (record w { phase = busy }) ≡ some ws
        → Step s (record s { glob = g; workers = ws })
    pop_again_none :
        (i : ℕ) (w : Worker Job) {ws : List (Worker Job)}
        → get_elem? s.workers i ≡ some w
        → w.phase ≡ awake
        → try_pop s.glob ≡ none
        → store s.workers i (record w { phase = failed }) ≡ some ws
        → Step s (record s { workers = ws })
    signal_again :
        (i : ℕ) (w : Worker Job) {ws : List (Worker Job)}
        → get_elem? s.workers i ≡ some w
        → w.phase ≡ failed
        → store s.workers i (record w { phase = looping }) ≡ some ws
        → Step s (record s { num_idle_threads = s.num_idle_threads + 1; workers = ws })

  pub data Reachable (num_threads : ℕ) : System Job Q → Type ℓ where
    start : Reachable num_threads (initial_system num_threads)
    next : {s t : System Job Q} → Reachable num_threads s → Step s t → Reachable num_threads t
