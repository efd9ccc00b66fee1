-- ===== src/Examples/Scheduling.antt =====
-- The theorems on the scheduler and on the owners of storage, applied to small inputs.
use ps4o.Base.{
  ◌≢◌, ℕ, ◌+◌, ◌%◌, ◌^◌, ◌≤◌, ◌<◌, ◌≡◌, ◌↔◌, refl, Bool, true, false, Option, none, some, List, [],
  ◌∷◌, ◌++◌, arith, get_elem?,
}
use ps4o.Scheduler.{empty_queue, size, is_empty}
use ps4o.Synchronization.{make_barrier, arrive, set_num_threads}
use ps4o.ThreadPool
use ps4o.ThreadPool.{
  Pool, running, ready, at_first, make_pool, first_phase, after_start, join, run, arrive_first,
  go_on,
}
use ps4o.ThreadPool.ForkJoin.{fork_join_lem}
use ps4o.Alignment.{align_pointer}
use ps4o.Alignment.Bounds.{align_pointer_lem}
use ps4o.AlignedPtr.{Store, Action, allocate, move_from, assign, leave_scope, act, act_all}
use ps4o.AlignedPtr.Owned.{owners, strays, IsOwned, Fits}
use ps4o.AlignedPtr.Ownership.{act_lem, act_all_lem}
use ps4o.LocalClassification.Counts.{count}
use ps4o.JobScheduler.{
  ConcurrentQueue, Phase, busy, asking, looping, finished, Worker, System, initial_system, pop_none,
  signal_idle, all_idle, Reachable, start, next,
}
use ps4o.JobScheduler.Invariant.{working}
use ps4o.JobScheduler.Finished.{finished_lem}

-- A list as the shared queue
abbrev list_pop : List ℕ → Option (ℕ × List ℕ)
list_pop [] = none
list_pop (j ∷ js) = some (j, js)

abbrev list_is_empty : List ℕ → Bool
list_is_empty [] = true
list_is_empty (j ∷ js) = false

list_pop-none : (q : List ℕ) → list_pop q ≡ none → q ≡ []
list_pop-none [] h = refl
list_pop-none (j ∷ js) h = cc

list_pop-some : (q r : List ℕ) (j : ℕ) → list_pop q ≡ some (j, r) → q ≡ j ∷ r
list_pop-some [] r j h = cc
list_pop-some (k ∷ js) r j h = ground arith

list_is_empty_iff : (q : List ℕ) → (list_is_empty q ≡ true) ↔ (q ≡ [])
list_is_empty_iff [] = ((λ h. refl), (λ h. refl))
list_is_empty_iff (j ∷ js) = ((λ h. cc), (λ h. cc))

abbrev list_queue : ConcurrentQueue ℕ (List ℕ)
list_queue = record {
  jobs = λ q. q;
  new_queue = [];
  push_job = λ j q. q ++ j ∷ [];
  try_pop = list_pop;
  is_empty_now = list_is_empty;
  jobs-new_queue = refl;
  jobs-push_job = λ j q. refl;
  try_pop-none = list_pop-none;
  try_pop-some = list_pop-some;
  is_empty_now-iff = list_is_empty_iff;
}

-- A single thread, which finds nothing to do
abbrev thread : Phase → Worker ℕ
thread p = record { phase = p; queue = record { v = []; off = 0 } }

abbrev alone : (idle : ℕ) → Phase → System ℕ (List ℕ)
alone idle p = record {
  glob = [];
  num_idle_threads = idle;
  num_threads = 1;
  workers = thread p ∷ [];
}

alone-Reachable : Reachable list_queue 1 (alone 1 finished)
unfolding initial_system empty_queue is_empty size
alone-Reachable =
    next {s = alone 1 looping}
      (next {s = alone 0 asking}
        (next {s = alone 0 busy} start (pop_none 0 (thread busy) refl refl refl refl refl))
        (signal_idle 0 (thread asking) refl refl refl))
      (all_idle 0 (thread looping) refl refl refl refl)

finished_lem_example :
    ◌≡◌ {A = List ℕ} [] []
    × ((k : ℕ) (v : Worker ℕ)
        → get_elem? (thread finished ∷ []) k ≡ some v
        → (working v.phase ≡ 0) × (size v.queue ≡ 0))
finished_lem_example =
    finished_lem list_queue 1 (alone 1 finished) 0 (thread finished) alone-Reachable refl refl

-- A pool of two threads: the second is in the function of a call.
abbrev in_call : Pool
in_call = record {
  sync = record { init_count = 2; hit = 3; flag = false };
  pool_barrier = record { init_count = 2; hit = 3; flag = true };
  func = 7;
  num_threads = 2;
  done = false;
  phases = at_first false ∷ running ∷ [];
}

in_call-Reachable : ThreadPool.Reachable 2 in_call
unfolding make_pool make_barrier arrive first_phase after_start set_num_threads
in_call-Reachable =
    ThreadPool.next
      (ThreadPool.next
        (ThreadPool.next
          (ThreadPool.next (ThreadPool.next ThreadPool.start (join 1 refl refl))
            (run 7 2 refl (omega arith) refl))
          (arrive_first 0 refl refl))
        (arrive_first 1 refl refl))
      (go_on 1 refl refl)

fork_join_lem_example :
    (1 < 2) × (false ≡ false) × (get_elem? (at_first false ∷ running ∷ []) 0 ≢ some ready)
fork_join_lem_example = fork_join_lem 2 in_call 1 in_call-Reachable refl

-- Pointers to 16-byte aligned storage
align_pointer_lem_example :
    (align_pointer 1003 (2 ^ 4) % 2 ^ 4 ≡ 0)
    × (1003 ≤ align_pointer 1003 (2 ^ 4))
    × (align_pointer 1003 (2 ^ 4) < 1003 + 2 ^ 4)
align_pointer_lem_example = align_pointer_lem 1003 4 (omega arith) (omega arith)

abbrev two_pointers : Store
two_pointers = record {
  heap = record { next = 9; live = 8 ∷ 5 ∷ []; objects = 8 ∷ 5 ∷ [] };
  pointers =
      record { alloc = some 5; value = some 5 }
      ∷ record { alloc = none; value = some 5 }
      ∷ record { alloc = some 8; value = some 8 }
      ∷ [];
}

two_pointers-IsOwned : IsOwned true two_pointers
unfolding owners strays count
two_pointers-IsOwned = record {
  owned = λ a. ground arith;
  single = λ a. ground arith;
  own_values = refl;
  constructed = λ a. refl;
  fresh = λ a le. ground arith;
}

assign-Fits : Fits (assign 0 2) two_pointers.pointers
unfolding Fits
assign-Fits = (omega arith, omega arith)

act_lem_example : (t : Store) × (act true (assign 0 2) two_pointers ≡ some t) × IsOwned true t
act_lem_example = act_lem true (assign 0 2) two_pointers two_pointers-IsOwned assign-Fits

-- A pointer is allocated, moved, and both are destroyed.
abbrev lifetime : List Action
lifetime = allocate ∷ move_from 0 ∷ leave_scope ∷ leave_scope ∷ []

abbrev at_end : Store
at_end = record { heap = record { next = 1; live = []; objects = [] }; pointers = [] }

lifetime-at_end :
    act_all true lifetime
      (record { heap = record { next = 0; live = []; objects = [] }; pointers = [] })
    ≡ some at_end
unfolding act_all
lifetime-at_end = refl

act_all_lem_example : (at_end.heap.live ≡ []) × (at_end.heap.objects ≡ [])
act_all_lem_example = act_all_lem true lifetime 0 at_end lifetime-at_end refl
