-- ===== src/Synchronization.antt =====
-- include/ps4o/synchronization.hpp: the barrier, and `single`, as the sections that its mutex makes atomic.
pub mod Tally
pub mod Round
pub mod Single
use ps4o.Base.{
  ℕ, zero, suc, ◌+◌, ◌-◌, ◌≡◌, Bool, true, false, not, if◌then◌else◌, ◌==◌, Option, none, some,
  ◌>>=◌, List, get_elem?, store, replicate,
}

-- Where a thread is: outside of the barrier, in the function of `single`, or at the condition variable
-- with the flag that it has read
pub data Phase : Type 0 where
  outside : Phase
  executing : Phase
  waiting : Bool → Phase

-- `hit_count_` goes down to -1 and is kept as one more than it is.
pub record Barrier : Type 0 where
  pub init_count : ℕ
  pub hit : ℕ
  pub flag : Bool

-- The constructor
unfoldable pub make_barrier : (num_threads : ℕ) → Barrier
make_barrier num_threads = record { init_count = num_threads; hit = num_threads + 1; flag = false }

-- `setNumThreads`
unfoldable pub set_num_threads : (num_threads : ℕ) → Barrier → Barrier
set_num_threads num_threads b = record b { init_count = num_threads; hit = num_threads + 1 }

-- `notify_all`
unfoldable pub notify_all : Barrier → Barrier
notify_all b = record b { hit = b.init_count + 1; flag = not b.flag }

-- `barrier`: the phase of the thread after it
unfoldable pub arrive : Barrier → Phase × Barrier
unfolding notify_all
arrive b =
    let c = record b { hit = b.hit - 1 } in
    if c.hit == 1 then (outside, notify_all c) else (waiting c.flag, c)

-- The end of `single`
unfoldable pub finish_single : Barrier → Phase × Barrier
unfolding notify_all
finish_single b = if b.hit == 0 then (outside, notify_all b) else (waiting b.flag, b)

-- `single` up to the call of the function, or to its end for a thread that is not the first
unfoldable pub enter_single : Barrier → Phase × Barrier
unfolding finish_single
enter_single b =
    let c = record b { hit = b.hit - 1 } in
    if b.hit == b.init_count + 1 then (executing, c) else finish_single c

-- `single` after the call of the function
unfoldable pub leave_single : Barrier → Phase × Barrier
unfolding finish_single
leave_single b = finish_single (record b { hit = b.hit - 1 })

-- The barrier and all threads
pub record System : Type 0 where
  pub barrier : Barrier
  pub phases : List Phase

-- Thread `i` gets a phase and the barrier another state.
unfoldable pub update : (i : ℕ) (p : Phase × Barrier) (phases : List Phase) → Option System
update i (p, b) phases = store phases i p >>= λ ps. some (record { barrier = b; phases = ps })

-- The steps of threads that call `single` again and again. A thread that waits goes on when the flag is
-- not the one that it has read.
pub data Step : System → System → Type 0 where
  enter :
      {s t : System} (i : ℕ)
      → get_elem? s.phases i ≡ some outside
      → update i (enter_single s.barrier) s.phases ≡ some t
      → Step s t
  leave :
      {s t : System} (i : ℕ)
      → get_elem? s.phases i ≡ some executing
      → update i (leave_single s.barrier) s.phases ≡ some t
      → Step s t
  wake :
      {s t : System} (i : ℕ) (f : Bool)
      → get_elem? s.phases i ≡ some (waiting f)
      → f ≡ not s.barrier.flag
      → update i (outside, s.barrier) s.phases ≡ some t
      → Step s t

pub data Reachable (num_threads : ℕ) : System → Type 0 where
  initial :
      Reachable num_threads
        (record { barrier = make_barrier num_threads; phases = replicate num_threads outside })
  next : {s t : System} → Reachable num_threads s → Step s t → Reachable num_threads t
