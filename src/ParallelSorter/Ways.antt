-- ===== src/ParallelSorter/Ways.antt =====
-- The parallel interface leaves a range alone only if it ascends, and calls threads only if there are
-- enough of them and of elements.
use ps4o.Base.{
  ◌⊎◌, inl, inr, Bool-cases, ℕ, ◌*◌, ◌/◌, ◌≤◌, ◌<◌, ◌≡◌, refl, min, Bool, true, false, ◌&&◌,
  if◌then◌else◌, ltb, lt→ltb, le→ltb, le→leb, lt→leb, List, arith, length, IsSorted, IsStrictWeak,
}
use native.Mathlib.Decide.{dec_le, dec_lt}
use ps4o.BaseCase.{Access, is_sorted}
use ps4o.BaseCase.Stripes.{is_sorted-IsSorted}
use ps4o.Config.{Config, block_size, num_threads_for}
use ps4o.ThreadPool.{threads_of_call}
use ps4o.ParallelSorter.{
  Way, plain_sort, in_sequence, unchanged, in_parallel, Schedules, sorter_way, pool_way,
  threads_way,
}

module _ {ℓ} {A : Type ℓ} (comp : A → A → Bool) (cfg : Config) (size_of : ℕ) where
  -- There are two threads or more, and four blocks of the range for each of them.
  abbrev pub IsWorthwhile : (num_threads : ℕ) → List A → Type 0
  IsWorthwhile num_threads range =
      (2 ≤ num_threads) × (4 * num_threads ≤ length range * size_of / block_size)

  -- A way is right for a range and the number of threads that there are.
  abbrev pub Fits : (num_threads : ℕ) → List A → Way → Type 0
  Fits num_threads range plain_sort =
      (num_threads < 2) ⊎ (length range * size_of / block_size < 4 * num_threads)
  Fits num_threads range in_sequence =
      IsWorthwhile num_threads range × (length range ≤ 2 * cfg.base_case_size)
  Fits num_threads range unchanged = IsWorthwhile num_threads range × IsSorted comp range
  Fits num_threads range (in_parallel used) =
      IsWorthwhile num_threads range
      × (2 * cfg.base_case_size < length range)
      × (used ≡ num_threads)

  few_threads :
      (n pool : ℕ)
      → num_threads_for size_of n pool < 2
      → (pool < 2) ⊎ (n * size_of / block_size < 4 * pool)
  unfolding num_threads_for
  few_threads n pool h = elim (dec_lt (n * size_of / block_size) (4 * pool)) [
    | yes lt ↦ inr lt
    | no ge ↦ inl (ground arith)
  ]

  all_threads :
      (n pool : ℕ)
      → 2 ≤ num_threads_for size_of n pool
      → (num_threads_for size_of n pool ≡ pool) × (2 ≤ pool) × (4 * pool ≤ n * size_of / block_size)
  unfolding num_threads_for
  all_threads n pool h = elim (dec_lt (n * size_of / block_size) (4 * pool)) [
    | yes lt ↦ absurd (ground arith)
    | no ge ↦
        let less : ltb (n * size_of / block_size) (4 * pool) ≡ false = ground arith in
        let two : 2 ≤ pool = rw less at h in (rw less refl, two, omega arith)
  ]

  module _ (w : IsStrictWeak comp) (bits : ℕ) where
    -- The checks, for two threads or more and a range that is no base case
    checked_second :
        (second : List Access) (pool : ℕ) (range : List A)
        → IsWorthwhile pool range
        → 2 * cfg.base_case_size < length range
        → Fits pool range
            (if is_sorted comp bits second pool range then unchanged else in_parallel pool)
    checked_second second pool range h large =
        elim (Bool-cases (is_sorted comp bits second pool range)) [
          | inl e ↦
              rw e (h, is_sorted-IsSorted comp w bits second pool range (omega (arith, h.0)) e)
          | inr e ↦ rw e (h, large, refl)
        ]

    checked :
        (check_sorted : Bool) (first second : List Access) (pool : ℕ) (range : List A)
        → IsWorthwhile pool range
        → 2 * cfg.base_case_size < length range
        → Fits pool range (
            if check_sorted && is_sorted comp bits first pool range
            then unchanged
            else if is_sorted comp bits second pool range
            then unchanged
            else in_parallel pool)
    checked false first second pool range h large = checked_second second pool range h large
    checked true first second pool range h large =
        elim (Bool-cases (is_sorted comp bits first pool range)) [
          | inl e ↦ rw e (h, is_sorted-IsSorted comp w bits first pool range (omega (arith, h.0)) e)
          | inr e ↦ rw e (checked_second second pool range h large)
        ]

    sorter_way-Fits :
        (check_sorted : Bool) (schedules : Schedules) (pool : ℕ) (range : List A)
        → IsWorthwhile pool range
        → num_threads_for size_of (length range) pool ≡ pool
        → Fits pool range (sorter_way comp cfg size_of bits check_sorted schedules pool range)
    unfolding sorter_way threads_of_call
    sorter_way-Fits check_sorted schedules pool range h all =
        elim (dec_le (length range) (2 * cfg.base_case_size)) [
          | yes small ↦ rw all (
              rw (le→ltb pool 2 h.0, le→leb (length range) (2 * cfg.base_case_size) small)
                (h, small))
          | no large ↦
              let same : min pool pool ≡ pool = omega arith in
              rw all (
                rw
                  (
                    le→ltb pool 2 h.0,
                    lt→leb (length range) (2 * cfg.base_case_size) (omega arith),
                    same,
                  )
                  (checked check_sorted schedules.first schedules.second pool range h
                    (omega arith)))
        ]

    -- With a strict weak ordering, for any range, any pool, and any order in which the threads access the
    -- flags of the checks, overlapping writes included: the parallel interface sorts plainly only if the
    -- pool has less than two threads or the range less than four blocks for each of them. Otherwise it
    -- leaves the range alone only if it ascends, sorts it in sequence only if it is a base case, and starts
    -- the parallel algorithm, with all threads of the pool, only if it is none.
    pub pool_way-Fits :
        (schedules : Schedules) (pool : ℕ) (range : List A)
        → Fits pool range (pool_way comp cfg size_of bits schedules pool range)
    unfolding pool_way
    pool_way-Fits schedules pool range =
        elim (dec_lt (num_threads_for size_of (length range) pool) 2) [
          | yes few ↦
              rw (lt→ltb (num_threads_for size_of (length range) pool) 2 few)
                (few_threads (length range) pool few)
          | no many ↦
              let (all, two, blocks) = all_threads (length range) pool (omega arith) in
              let less = le→ltb (num_threads_for size_of (length range) pool) 2 (omega arith) in
              elim (Bool-cases (is_sorted comp bits schedules.first pool range)) [
                | inl e ↦
                    rw (less, e)
                      (
                        (two, blocks),
                        is_sorted-IsSorted comp w bits schedules.first pool range (omega arith) e,
                      )
                | inr e ↦
                    rw (less, e) (sorter_way-Fits false schedules pool range (two, blocks) all)
              ]
        ]

    -- With a strict weak ordering, for any range, any number of threads, and any order in which the threads
    -- access the flags of the checks, overlapping writes included: the interface that makes its own pool
    -- sorts plainly only if there are less than two threads or the range has less than four blocks for
    -- each of them. Otherwise it leaves the range alone only if it ascends, sorts it in sequence only if it
    -- is a base case, and starts the parallel algorithm, with all threads, only if it is none.
    pub threads_way-Fits :
        (schedules : Schedules) (num_threads : ℕ) (range : List A)
        → Fits num_threads range (threads_way comp cfg size_of bits schedules num_threads range)
    unfolding threads_way
    threads_way-Fits schedules num_threads range =
        elim (dec_lt (num_threads_for size_of (length range) num_threads) 2) [
          | yes few ↦
              rw (lt→ltb (num_threads_for size_of (length range) num_threads) 2 few)
                (few_threads (length range) num_threads few)
          | no many ↦
              let (all, two, blocks) = all_threads (length range) num_threads (omega arith) in
              let less =
                le→ltb (num_threads_for size_of (length range) num_threads) 2 (omega arith) in
              rw less (rw all (sorter_way-Fits true schedules num_threads range (two, blocks) all))
        ]
