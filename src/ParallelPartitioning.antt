-- ===== src/ParallelPartitioning.antt =====
-- include/ps4o/partitioning.hpp, the parallel case of `partition` behind the distribution: the buckets
-- and parts of buckets that each thread sorts or moves. What a thread does depends on the boundaries of
-- the buckets only, so it is a list of parts first, which are then worked off.
pub mod Even
pub mod Boundaries
pub mod Distributed
pub mod Shared
pub mod Equal
use ps4o.Base.{
  ℕ, zero, suc, ◌+◌, ◌-◌, ◌*◌, ◌/◌, ◌%◌, min, Bool, ◌&&◌, if◌then◌else◌, ltb, ◌==◌, Option, none,
  some, ◌>>=◌, List, [], ◌∷◌, ◌++◌, length, get_elem?, Cells, fetch, construct, destroy,
}
use ps4o.Config.{Config}
use ps4o.Memory.{Arrays, assign_range, destroy_range}
use ps4o.Partitioning.{distribute_elements, move_bucket, sort_and_move}
use ps4o.Sampling.{Buckets}

-- `sort_and_move(bucket)`, `move(bucket)`, or the objects of [start, stop) moved to the input
pub data Part : Type 0 where
  sorted : (bucket : ℕ) → Part
  moved : (bucket : ℕ) → Part
  moved_range : (start stop : ℕ) → Part

-- `for (i = first; ...; ++i) sort_and_move(i)`
pub sorted_from : (rounds first : ℕ) → List Part
sorted_from zero first = []
sorted_from (suc rounds) first = sorted first ∷ sorted_from rounds (suc first)

-- `for (i = first; ...; i += 2) { sort_and_move(i); move(i + 1); }`
pub pairs_from : (rounds first : ℕ) → List Part
pairs_from zero first = []
pairs_from (suc rounds) first = sorted first ∷ moved (first + 1) ∷ pairs_from rounds (first + 2)

-- The parts of a thread without equality buckets
pub even_parts : (num_buckets num_threads my_id : ℕ) → List Part
even_parts num_buckets num_threads my_id =
    let buckets_per_thread = (num_buckets + num_threads - 1) / num_threads in
    let my_first_bucket = min num_buckets (my_id * buckets_per_thread) in
    let my_last_bucket = min num_buckets ((my_id + 1) * buckets_per_thread) in
    sorted_from (my_last_bucket - my_first_bucket) my_first_bucket

module _ (saved : List ℕ) where
  -- The loop that looks for the bucket in which the stripe of a thread begins
  unfoldable pub find_first : (my_begin_offset bucket : ℕ) → Option ℕ
  find_first my_begin_offset zero = do
    start ← get_elem? saved 0
    if ltb my_begin_offset start then none else some 0
  find_first my_begin_offset (suc bucket) = do
    start ← get_elem? saved (suc bucket)
    let before = find_first my_begin_offset bucket
    if ltb my_begin_offset start then before else some (suc bucket)

  -- The loop that looks for the end of the stripe
  pub find_last : (fuel my_end_offset bucket : ℕ) → Option ℕ
  find_last zero my_end_offset bucket = none
  find_last (suc fuel) my_end_offset bucket = do
    start ← get_elem? saved bucket
    let next = find_last fuel my_end_offset (suc bucket)
    if ltb start my_end_offset then next else some bucket

  module _ (num_buckets my_begin_offset my_end_offset : ℕ) where
    -- The first bucket, if it is shared, and the first bucket that is left
    pub first_part : (my_first_bucket : ℕ) → Option (List Part × ℕ)
    first_part my_first_bucket =
        if my_first_bucket % 2 == 1 && ltb my_first_bucket (num_buckets - 2)
        then (do
          stop ← get_elem? saved (my_first_bucket + 1)
          some (moved_range my_begin_offset (min my_end_offset stop) ∷ [], suc my_first_bucket))
        else (do
          start ← get_elem? saved my_first_bucket
          some ([], if ltb start my_begin_offset then suc my_first_bucket else my_first_bucket))

    -- The last bucket, if it is shared, and the end of the buckets that are left
    pub last_part : (my_first_bucket my_last_bucket : ℕ) → Option (List Part × ℕ)
    last_part my_first_bucket my_last_bucket =
        let bucket = my_last_bucket - 1 in
        if ltb my_first_bucket my_last_bucket && (bucket % 2 == 1 && ltb bucket (num_buckets - 2))
        then (do
          start ← get_elem? saved bucket
          some (moved_range start my_end_offset ∷ [], bucket))
        else some ([], my_last_bucket)

-- The buckets that are not shared
pub remaining_parts : (num_buckets my_first_bucket my_last_bucket : ℕ) → List Part
remaining_parts num_buckets my_first_bucket my_last_bucket =
    let lone_first = my_first_bucket % 2 == 1 && ltb my_first_bucket (num_buckets - 2) in
    let first = if lone_first then suc my_first_bucket else my_first_bucket in
    let p = if lone_first then moved my_first_bucket ∷ [] else [] in
    let lone_last =
      ltb first my_last_bucket && (my_last_bucket % 2 == 0 && ltb first (num_buckets - 2)) in
    let last = if lone_last then my_last_bucket - 1 else my_last_bucket in
    let q = if lone_last then sorted (my_last_bucket - 1) ∷ [] else [] in
    let end_eqb = min last (num_buckets - 2) in
    let parts =
      p
      ++ q
      ++ pairs_from ((end_eqb + 1 - first) / 2) first
      ++ sorted_from (last - end_eqb) end_eqb in
    if ltb my_first_bucket my_last_bucket then parts else []

-- The parts of a thread with equality buckets
pub equal_parts :
    (saved : List ℕ) (num_buckets my_begin_offset my_end_offset : ℕ) → Option (List Part)
equal_parts saved num_buckets my_begin_offset my_end_offset = do
  bucket ← find_first saved my_begin_offset num_buckets
  last ← find_last saved (suc num_buckets) my_end_offset bucket
  (p, my_first_bucket) ← first_part saved num_buckets my_begin_offset my_end_offset bucket
  (q, my_last_bucket) ←
      last_part saved num_buckets my_begin_offset my_end_offset my_first_bucket last
  some (p ++ q ++ remaining_parts num_buckets my_first_bucket my_last_bucket)

-- The stripe of thread `my_id`: where it begins and ends
unfoldable pub my_begin_of : (n num_threads my_id : ℕ) → ℕ
my_begin_of n num_threads my_id = min (my_id * ((n + num_threads - 1) / num_threads)) n

-- Between the last two barriers: the stripe of thread `my_id` of `n` elements gives its parts.
pub thread_parts : (saved : List ℕ) (b : Buckets) (n num_threads my_id : ℕ) → Option (List Part)
thread_parts saved b n num_threads my_id =
    if b.use_equal_buckets
    then equal_parts saved b.num_buckets (my_begin_of n num_threads my_id)
        (my_begin_of n num_threads (my_id + 1))
    else some (even_parts b.num_buckets num_threads my_id)

module _ {ℓ} {A : Type ℓ} where
  -- `distributeElements` on the stripes of the threads from `my_id` on, one after the other, each with the
  -- `bucket_start` of its own
  unfoldable pub distribute_threads :
      (n num_threads : ℕ) (oracle : List ℕ) (my_id : ℕ) (starts : List (List ℕ)) (a : Arrays A)
      → Option (Arrays A)
  distribute_threads n num_threads oracle my_id [] a = some a
  distribute_threads n num_threads oracle my_id (bucket_start ∷ starts) a = do
    let my_begin = my_begin_of n num_threads my_id
    let my_end = my_begin_of n num_threads (my_id + 1)
    d ←
        distribute_elements (my_end - my_begin) my_begin oracle
          (record { arrays = a; bucket_start = bucket_start })
    distribute_threads n num_threads oracle (my_id + 1) starts d.arrays

module _ {ℓ} {A : Type ℓ} (comp : A → A → Bool) (cfg : Config) (saved : List ℕ)
    (in_input_array last_level : Bool) where
  pub work_part : Part → Arrays A → Option (Arrays A)
  work_part (sorted bucket) a = sort_and_move comp cfg saved in_input_array last_level bucket a
  work_part (moved bucket) a = move_bucket comp cfg saved in_input_array bucket a
  work_part (moved_range start stop) a = do
    src ← assign_range (stop - start) start a.tmp a.src
    tmp ← destroy_range (stop - start) start a.tmp
    some (record { src = src; tmp = tmp })

  pub work_parts : List Part → Arrays A → Option (Arrays A)
  work_parts [] a = some a
  work_parts (p ∷ ps) a = do b ← work_part p a; work_parts ps b

  -- The threads from `my_id` on, one after the other
  pub work_threads : (rounds my_id num_threads : ℕ) (b : Buckets) → Arrays A → Option (Arrays A)
  work_threads zero my_id num_threads b a = some a
  work_threads (suc rounds) my_id num_threads b a = do
    parts ← thread_parts saved b (length a.src) num_threads my_id
    c ← work_parts parts a
    work_threads rounds (suc my_id) num_threads b c
